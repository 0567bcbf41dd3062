-- ===== src/Transfer/Invariant.antt =====
-- The invariant of the saved stacks, and how a walk along `g_prev` moves it to the far end of
-- the target.
use mathlib.Core.Bool.{false≢true}
use libtealet.Base.{
  ◌≤◌, ◌<◌, ◌≡◌, ◌≢◌, refl, sym, ap, ◌∙◌, ◌⊎◌, inl, inr, Bool, true, false, has, arith, Bool-cases,
}
use libtealet.Platform.{Ptr, null, Platform, IsDescending}
use libtealet.Memory.{Mem}
use libtealet.Domain.{Domain, Stack, Code, done, err_mem}
use libtealet.Stack.{stack_restore}
use libtealet.Stack.Image.{near, edge, IsWhole}
use libtealet.Growth.{stack_grow_list}
use libtealet.Growth.Bands.{Bands, Grew}
use libtealet.Growth.Walked.{intact, lost, Saved, Walked, TargetEnds}
use libtealet.Growth.Walk.{stack_grow_list-Walked}

-- A stack in use: somebody holds it, and its bytes are there.
abbrev pub IsLive : Stack → Type 0
IsLive s = (0 < s.refcount) × (s.is_defunct ≡ false)

-- Every stack in use is whole. Those in the list are partial, their bands rise from `lo`; all
-- others, but for those that `Exempt` names, are saved to their far end. Every tealet that has a
-- stack holds one, with its own far boundary.
pub record Sliced (lo : Ptr) (Exempt : Ptr → Stack → Type 0) (d : Domain) : Type 0 where
  pub bands : Bands d.stacks lo d.prev
  pub no_null : has null d.prev ≡ false
  pub linked : (j : Ptr) → has j d.prev ≡ true → 0 < (d.stacks j).refcount
  pub whole : (j : Ptr) → IsLive (d.stacks j) → IsWhole (d.stacks j)
  pub full :
      (j : Ptr)
      → IsLive (d.stacks j)
      → has j d.prev ≡ false
      → Exempt j (d.stacks j) ⊎ ((d.stacks j).stack_far ≡ edge (d.stacks j))
  pub within : (j : Ptr) → IsLive (d.stacks j) → edge (d.stacks j) ≤ (d.stacks j).stack_far
  pub owned :
      (t : Ptr)
      → (d.tealets t).stack ≢ null
      → (0 < (d.stacks (d.tealets t).stack).refcount)
        × ((d.stacks (d.tealets t).stack).stack_far ≡ (d.tealets t).stack_far)

abbrev pub Nobody : Ptr → Stack → Type 0
Nobody j s = ⊥

-- The stack that is about to be copied back and given up.
abbrev pub Leaving : Ptr → Ptr → Stack → Type 0
Leaving q j s = (j ≡ q) × (s.refcount ≤ 1)

-- What a tealet would find on its stack, from its own near end to its far end, is the same.
pub record SameView (m m' : Mem) (s s' : Stack) : Type 0 where
  pub same_near : near s' ≡ near s
  pub same_far : s'.stack_far ≡ s.stack_far
  pub view : (p : Ptr) → near s ≤ p → p < s.stack_far → stack_restore s' m' p ≡ stack_restore s m p

module _ (pf : Platform) (law : IsDescending pf) (stop target : Ptr) (fail_ok : Bool) (lo : Ptr)
    (d : Domain) (sliced : Sliced lo Nobody d) (ends : TargetEnds stop target d.prev d.stacks) where
  abbrev pub after_walk : Code × Domain
  after_walk = stack_grow_list pf d.prev stop target fail_ok d

  pub walked : Walked stop target fail_ok lo d.prev d after_walk
  walked = stack_grow_list-Walked pf law stop target fail_ok lo d.prev d refl ends sliced.bands

  -- Who is in use afterwards was so before, and is untouched or has more saved.
  pub walk-Grew :
      (j : Ptr)
      → IsLive ((after_walk.1).stacks j)
      → IsLive (d.stacks j) × Grew d.mem (d.stacks j) ((after_walk.1).stacks j)
  walk-Grew j live = elim (walked.held j) [
    | intact g ↦ ((omega (arith, g.same_count), sym g.same_mark ∙ live.1), g)
    | lost a b c e f g h ↦ absurd (false≢true (sym live.1 ∙ e))
  ]

  pub walk-count : (j : Ptr) → ((after_walk.1).stacks j).refcount ≡ (d.stacks j).refcount
  walk-count j = elim (walked.held j) [ intact g ↦ g.same_count | lost a b c e f g h ↦ h ]

  walk-far : (j : Ptr) → ((after_walk.1).stacks j).stack_far ≡ (d.stacks j).stack_far
  walk-far j = elim (walked.held j) [ intact g ↦ g.same_far | lost a b c e f g h ↦ g ]

  walk-within :
      (j : Ptr)
      → IsLive ((after_walk.1).stacks j)
      → edge ((after_walk.1).stacks j) ≤ ((after_walk.1).stacks j).stack_far
  walk-within j live = let (l, g) = walk-Grew j live in g.within (sliced.within j l)

  pub walk-mem : (after_walk.1).mem ≡ d.mem
  walk-mem = ap (λ (x : Domain). x.mem) walked.frame

  pub walk-tealets : (after_walk.1).tealets ≡ d.tealets
  walk-tealets = ap (λ (x : Domain). x.tealets) walked.frame

  -- A stack in use that is not in the list any more, or never was.
  walk-Saved :
      (Exempt : Ptr → Stack → Type 0) (j : Ptr)
      → ((has j d.prev ≡ true)
          → Exempt j ((after_walk.1).stacks j) ⊎ Saved ((after_walk.1).stacks j))
      → IsLive ((after_walk.1).stacks j)
      → Exempt j ((after_walk.1).stacks j)
        ⊎ (((after_walk.1).stacks j).stack_far ≡ edge ((after_walk.1).stacks j))
  walk-Saved Exempt j why live = elim (Bool-cases (has j d.prev)) [
    | inl e ↦ elim (why e) [
      | inl x ↦ inl x
      | inr (inl far) ↦ inr (omega (arith, walk-within j live))
      | inr (inr gone) ↦ absurd (false≢true (sym live.1 ∙ gone))
    ]
    | inr e ↦
        let (l, g) = walk-Grew j live in
        elim (sliced.full j l e) [
          | inl x ↦ absurd x
          | inr q ↦ inr (omega (arith, walk-within j live, g.more, g.same_far))
        ]
  ]

  walk-Sliced :
      (lo' : Ptr) (Exempt : Ptr → Stack → Type 0)
      → Bands (after_walk.1).stacks lo' (after_walk.1).prev
      → ((j : Ptr)
          → has j d.prev ≡ true
          → has j (after_walk.1).prev ≡ false
          → Exempt j ((after_walk.1).stacks j) ⊎ Saved ((after_walk.1).stacks j))
      → Sliced lo' Exempt (after_walk.1)
  walk-Sliced lo' Exempt b why = record {
    bands = b;
    no_null = walked.sub null sliced.no_null;
    linked = λ j h. rw (walk-count j) (sliced.linked j (listed j h));
    whole = λ j live. let (l, g) = walk-Grew j live in g.whole (sliced.whole j l);
    full = λ j live o. walk-Saved Exempt j (λ h. why j h o) live;
    within = λ j live. walk-within j live;
    owned = λ t h.
        let o = sliced.owned t (λ e. h (ap (λ f. (f t).stack) walk-tealets ∙ e)) in
        rw (walk-tealets, walk-count, walk-far) o;
  }
    where
      listed : (j : Ptr) → has j (after_walk.1).prev ≡ true → has j d.prev ≡ true
      listed j h = elim (Bool-cases (has j d.prev)) [
        | inl e ↦ e
        | inr e ↦ absurd (false≢true (sym (walked.sub j e) ∙ h))
      ]

  -- After a walk that succeeds: saved as far as the target reaches, the target out of the list.
  pub walk_done-Sliced : after_walk.0 ≡ done → Sliced stop (Leaving target) (after_walk.1)
  walk_done-Sliced ok = walk-Sliced stop (Leaving target) (walked.bands ok) (walked.left ok)

  -- A walk along `g_prev` that runs out of memory leaves the invariant as it was.
  pub walk_failed-Sliced : after_walk.0 ≡ err_mem → Sliced lo Nobody (after_walk.1)
  walk_failed-Sliced failed =
      walk-Sliced lo Nobody walked.bands_failed (λ j h o. inr (walked.left_failed failed j h o))

  pub walk-SameView :
      (j : Ptr)
      → IsLive ((after_walk.1).stacks j)
      → SameView d.mem (after_walk.1).mem (d.stacks j) ((after_walk.1).stacks j)
  walk-SameView j live =
      let (l, g) = walk-Grew j live in
      record {
        same_near = g.same_near;
        same_far = g.same_far;
        view = λ p lo' hi. rw walk-mem (g.image (sliced.whole j l) p);
      }
