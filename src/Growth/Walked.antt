-- ===== src/Growth/Walked.antt =====
-- What a walk along `g_prev` leaves, whole and after each kind of step.
use mathlib.Core.Bool.{false≢true}
use libtealet.Base.{
  has-ne, Within, ◌≤◌, ◌<◌, ◌≡◌, refl, ◌≢◌, ◌⊎◌, inl, inr, sym, subst, ◌∙◌, Bool, true, false, List,
  ◌∷◌, ◌==◌, has, erase, arith, Bool-cases, eq→==, ==→eq,
}
use libtealet.Platform.{Ptr}
use libtealet.Memory.{Mem}
use libtealet.Domain.{Domain, Stack, Stats, Code, done, err_mem, put_stack, update}
use libtealet.Stack.Image.{near, edge}
use libtealet.Growth.Bands.{Bands, Grew, Grew-refl, Bands_congr, Bands-mono}
use libtealet.Growth.Step.{charge}

-- Stack `j` after the walk: the same with perhaps more saved, or given up.
pub data Held (m : Mem) (fail_ok : Bool) (target main_stack j : Ptr) (s s' : Stack) : Type 0 where
  intact : Grew m s s' → Held m fail_ok target main_stack j s s'
  lost :
      fail_ok ≡ false
      → j ≢ main_stack
      → (j ≡ target → 1 < s.refcount)
      → s'.is_defunct ≡ true
      → near s' ≡ near s
      → s'.stack_far ≡ s.stack_far
      → s'.refcount ≡ s.refcount
      → Held m fail_ok target main_stack j s s'

abbrev pub main_stack : Domain → Ptr
main_stack d = (d.tealets d.main).stack

-- Why a stack has left the list.
abbrev pub Saved : Stack → Type 0
Saved s = (s.stack_far ≤ edge s) ⊎ (s.is_defunct ≡ true)

abbrev pub Finished : Ptr → Ptr → Stack → Type 0
Finished target j s = ((j ≡ target) × (s.refcount ≤ 1)) ⊎ Saved s

-- Why a walk may stop for want of memory: nobody forces it, or the stack that is wanting is the
-- main tealet's. If that is the target, it is shared.
abbrev pub Scarce : Bool → Ptr → Ptr → List Ptr → (Ptr → Stack) → Type 0
Scarce fail_ok target main_stack list stacks =
    (fail_ok ≡ true)
    ⊎ ((has main_stack list ≡ true) × (main_stack ≡ target → 1 < (stacks main_stack).refcount))

-- The walk from `d`, on the list `list` whose bands begin at `lo`, with the outcome `r`.
pub record Walked (saveto target : Ptr) (fail_ok : Bool) (lo : Ptr) (list : List Ptr) (d : Domain)
    (r : Code × Domain) : Type 0 where
  pub frame : r.1 ≡ record d {
    stacks = (r.1).stacks;
    prev = (r.1).prev;
    answers = (r.1).answers;
    stats = (r.1).stats;
  }
  pub held : (j : Ptr) → Held d.mem fail_ok target (main_stack d) j (d.stacks j) ((r.1).stacks j)
  pub supply : Within (r.1).answers d.answers
  pub only : (j : Ptr) → has j list ≡ false → (r.1).stacks j ≡ d.stacks j
  pub code : (r.0 ≡ done) ⊎ ((r.0 ≡ err_mem) × Scarce fail_ok target (main_stack d) list d.stacks)
  pub bands : r.0 ≡ done → Bands (r.1).stacks saveto (r.1).prev
  pub bands_failed : Bands (r.1).stacks lo (r.1).prev
  pub sub : (j : Ptr) → has j list ≡ false → has j (r.1).prev ≡ false
  pub left :
      r.0 ≡ done
      → (j : Ptr) → has j list ≡ true
      → has j (r.1).prev ≡ false
      → Finished target j ((r.1).stacks j)
  pub left_failed :
      r.0 ≡ err_mem
      → (j : Ptr) → has j list ≡ true
      → has j (r.1).prev ≡ false
      → Saved ((r.1).stacks j)

-- What the caller knows of the target: it is saved up to where its own stack ends.
abbrev pub TargetEnds : Ptr → Ptr → List Ptr → (Ptr → Stack) → Type 0
TargetEnds saveto target list stacks = has target list ≡ true → (stacks target).stack_far ≡ saveto

pub TargetEnds-head :
    (saveto target j : Ptr) (list : List Ptr) (stacks : Ptr → Stack)
    → TargetEnds saveto target (j ∷ list) stacks
    → j ≡ target
    → (stacks j).stack_far ≡ saveto
TargetEnds-head saveto target j list stacks far e =
    subst (λ i. TargetEnds saveto i (j ∷ list) stacks) (sym e) far (ground arith)

pub erase-head : (j : Ptr) (list : List Ptr) → erase j (j ∷ list) ≡ list
erase-head j list = rw (eq→== j j refl)

module _ (saveto target : Ptr) (fail_ok : Bool) (lo j : Ptr) (list : List Ptr) (d : Domain) where
  -- The head is done with and out of the list; `rest` is the walk along what follows.
  pub Walked-next :
      (answers : List Ptr) (stats : Stats) (s : Stack) (r : Code × Domain)
      → has j list ≡ false
      → lo ≤ (d.stacks j).stack_far
      → Within answers d.answers
      → Held d.mem fail_ok target (main_stack d) j (d.stacks j) s
      → Finished target j s
      → (r.0 ≡ err_mem → Saved s)
      → Walked saveto target fail_ok
          (d.stacks j).stack_far
          list
          (record (put_stack j s (charge answers stats d)) { prev = list })
          r
      → Walked saveto target fail_ok lo (j ∷ list) d r
  Walked-next answers stats s r out le wi h f fs w = record {
    frame = w.frame;
    supply = λ a m. wi a (w.supply a m);
    held = λ k. elim (Bool-cases (k == j)) [
      | inl e ↦ rw (==→eq k j e, same) h
      | inr e ↦ rw e at (w.held k)
    ];
    only = λ k o. ground (arith, w.only k);
    code = elim w.code [
      | inl e ↦ inl e
      | inr (e, inl ok) ↦ inr (e, inl ok)
      | inr (e, inr (m, shared)) ↦
          inr (
            e,
            inr (ground (arith, m), (λ t. rw (has-ne j (main_stack d) list out m) at (shared t))),
          )
    ];
    bands = w.bands;
    bands_failed = Bands-mono (r.1).stacks (d.stacks j).stack_far lo (r.1).prev le w.bands_failed;
    sub = λ k o. w.sub k (ground arith);
    left = λ ok k m o. elim (Bool-cases (k == j)) [
      | inl e ↦ rw (==→eq k j e, same) f
      | inr e ↦ w.left ok k (rw e at m) o
    ];
    left_failed = λ ok k m o. elim (Bool-cases (k == j)) [
      | inl e ↦ rw (==→eq k j e, same) (fs ok)
      | inr e ↦ w.left_failed ok k (rw e at m) o
    ];
  }
    where
      same : (r.1).stacks j ≡ s
      same = w.only j out ∙ rw (eq→== j j refl)

  -- The walk stops at the head, for want of memory.
  pub Walked-failed :
      (answers : List Ptr)
      → d.prev ≡ j ∷ list
      → Bands d.stacks lo (j ∷ list)
      → Within answers d.answers
      → (fail_ok ≡ true) ⊎ (j ≡ main_stack d)
      → (j ≡ target → 1 < (d.stacks j).refcount)
      → Walked saveto target fail_ok lo (j ∷ list) d (err_mem, charge answers d.stats d)
  Walked-failed answers e b wi why shared = record {
    frame = refl;
    supply = wi;
    held = λ k. intact (Grew-refl d.mem (d.stacks k));
    only = λ k o. refl;
    code = inr (
      refl,
      elim why [
        | inl ok ↦ inl ok
        | inr at_main ↦ inr (
          rw (eq→== _ _ (sym at_main)),
          (λ t. subst (λ i. 1 < (d.stacks i).refcount) at_main (shared (at_main ∙ t))),
        )
      ],
    );
    bands = λ z. absurd (cc);
    bands_failed = rw e b;
    sub = λ k o. rw e o;
    left = λ z. absurd (cc);
    left_failed = λ z k m o. absurd (false≢true (sym (rw e at o) ∙ m));
  }

  -- The head is saved as far as asked and stays, with all that follows it.
  pub Walked-stays :
      (answers : List Ptr) (stats : Stats) (s : Stack)
      → d.prev ≡ j ∷ list
      → Bands d.stacks lo (j ∷ list)
      → Within answers d.answers
      → Grew d.mem (d.stacks j) s
      → edge s < s.stack_far
      → saveto ≤ edge s
      → Walked saveto target fail_ok lo (j ∷ list) d (done, put_stack j s (charge answers stats d))
  Walked-stays answers stats s e b wi g part far = record {
    frame = refl;
    supply = wi;
    held = λ k. elim (Bool-cases (k == j)) [
      | inl i ↦ rw (==→eq k j i, eq→== j j refl) (intact g)
      | inr i ↦ rw i (intact (Grew-refl d.mem (d.stacks k)))
    ];
    only = λ k o. ground arith;
    code = inl refl;
    bands = λ z. rw e (new saveto far);
    bands_failed = rw e (new lo (omega (arith, g.more)));
    sub = λ k o. rw e o;
    left = λ z k m o. absurd (false≢true (sym (rw e at o) ∙ m));
    left_failed = λ z k m o. absurd (cc);
  }
    where
      new : (lo' : Ptr) → lo' ≤ edge s → Bands (update d.stacks j s) lo' (j ∷ list)
      new lo' h = rw (eq→== j j refl) (
        g.whole b.0,
        h,
        part,
        b.3,
        rw g.same_far (
            Bands_congr d.stacks (update d.stacks j s) (d.stacks j).stack_far list
              (λ k m. rw (has-ne j k list b.3 m)) b.4),
      )
