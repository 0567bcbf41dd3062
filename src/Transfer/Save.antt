-- ===== src/Transfer/Save.antt =====
-- The current tealet is suspended: what tealet_save_state does to the invariant and to what
-- every tealet will find on its stack.
use mathlib.Core.Bool.{false≢true}
use libtealet.Base.{
  ◌-◌, ◌≤◌, ◌<◌, ◌≡◌, ◌≢◌, refl, sym, ap, ◌∙◌, ◌⊎◌, inl, inr, Bool, true, false, List, ◌∷◌, ltb,
  ◌==◌, if◌then◌else◌, has, has-ne, arith, Bool-cases, ==→eq, ==→ne, eq→==, ne→==, ltb→lt,
}
use libtealet.Platform.{Ptr, null, Platform, IsDescending}
use libtealet.Domain.{fixed, Domain, Stack, Stats, put_stack, put_tealet, set_flags, update}
use libtealet.Stack.{stack_restore, stack_link}
use libtealet.Stack.Image.{near, edge, IsWhole}
use libtealet.Growth.Bands.{Bands, Bands_congr}
use libtealet.Growth.New.{
  no_memory, slice, first_slice, near-first_slice, first_slice-IsWhole, restore-first_slice,
  stack_saveto-full, stack_saveto-partial,
}
use libtealet.Growth.Step.{charge}
use libtealet.Transfer.{save_current}
use libtealet.Transfer.Invariant.{IsLive, Sliced, Leaving}

-- The allocator hands out no block that a stack in use stands in.
abbrev pub IsFresh : Domain → Type 0
IsFresh d = (a : Ptr) → has a d.answers ≡ true → a ≢ null → (d.stacks a).refcount ≡ 0

-- The new stack `s` at `p`, held by the current tealet.
abbrev suspend : Ptr → Stack → Domain → Domain
suspend p s d = put_tealet d.current (record (d.tealets d.current) { stack = p }) (put_stack p s d)

module _ (stop q : Ptr) (d : Domain) (p : Ptr) (s : Stack) (sliced : Sliced stop (Leaving q) d)
    (unused : (d.stacks p).refcount ≡ 0) (ne : p ≢ null) (whole : IsWhole s)
    (far : s.stack_far ≡ (d.tealets d.current).stack_far) (count : s.refcount ≡ 1)
    (inside : edge s ≤ s.stack_far) where
  not_linked : has p d.prev ≡ false
  not_linked = elim (Bool-cases (has p d.prev)) [
    | inl e ↦ absurd (omega (arith, sliced.linked p e))
    | inr e ↦ e
  ]

  -- Every other stack is where it was.
  others : (j : Ptr) → 0 < (d.stacks j).refcount → update d.stacks p s j ≡ d.stacks j
  others j live = elim (Bool-cases (j == p)) [
    | inl e ↦
        let free : (d.stacks j).refcount ≡ 0 =
          ap (λ i. (d.stacks i).refcount) (==→eq j p e) ∙ unused in
        absurd {A = _} (omega arith)
    | inr e ↦ rw e
  ]

  suspend-Sliced :
      (answers : List Ptr) (stats : Stats) (prev : List Ptr)
      → Bands (update d.stacks p s) stop prev
      → ((j : Ptr) → (j ≢ p) → has j prev ≡ has j d.prev)
      → (has p prev ≡ true) ⊎ (s.stack_far ≡ edge s)
      → Sliced stop (Leaving q) (record (suspend p s (charge answers stats d)) { prev = prev })
  suspend-Sliced answers stats prev b same here = record {
    bands = b;
    no_null = same null (λ e. ne (sym e)) ∙ sliced.no_null;
    linked = λ j h. elim (Bool-cases (j == p)) [
      | inl e ↦ rw e (omega arith)
      | inr e ↦ rw e (sliced.linked j (sym (same j (==→ne j p e)) ∙ h))
    ];
    whole = λ j live. elim (Bool-cases (j == p)) [
      | inl e ↦ rw e whole
      | inr e ↦ rw e (sliced.whole j (rw e at live))
    ];
    full = λ j live o. elim (Bool-cases (j == p)) [
      | inl e ↦ elim here [
        | inl m ↦ absurd (false≢true (sym (rw (==→eq j p e) at o) ∙ m))
        | inr f ↦ rw e (inr f)
      ]
      | inr e ↦ rw e (sliced.full j (rw e at live) (sym (same j (==→ne j p e)) ∙ o))
    ];
    within = λ j live. elim (Bool-cases (j == p)) [
      | inl e ↦ rw e inside
      | inr e ↦ rw e (sliced.within j (rw e at live))
    ];
    owned = λ t h. elim (Bool-cases (t == d.current)) [
      | inl e ↦ rw (e, eq→== p p refl) (omega arith, far)
      | inr e ↦
          let (l, f) = sliced.owned t (rw e at h) in rw (e, others (d.tealets t).stack l) (l, f)
    ];
  }

-- Where the bytes of the leaving tealet are now: in a new stack from `sp` up, or, when there was
-- no memory for it and the transfer was forced, nowhere.
pub data Own (sp : Ptr) (fail_ok : Bool) (d d' : Domain) : Type 0 where
  saved :
      (p : Ptr)
      → (d'.tealets d.current).stack ≡ p
      → IsLive (d'.stacks p)
      → near (d'.stacks p) ≡ sp
      → (d'.stacks p).stack_far ≡ (d.tealets d.current).stack_far
      → ((x : Ptr) → stack_restore (d'.stacks p) d.mem x ≡ d.mem x)
      → (d.stacks p).refcount ≡ 0
      → p ≢ null
      → (d'.stacks p).refcount ≡ 1
      → Own sp fail_ok d d'
  given_up :
      fail_ok ≡ false
      → ((d'.tealets d.current).flags).is_defunct ≡ true
      → (d'.tealets d.current).stack ≡ (d.tealets d.current).stack
      → Own sp fail_ok d d'

pub record Parked (stop q sp : Ptr) (fail_ok : Bool) (d d' : Domain) : Type 0 where
  pub same_mem : d'.mem ≡ d.mem
  pub same_current : d'.current ≡ d.current
  pub same_target : d'.target ≡ d.target
  pub same_main : d'.main ≡ d.main
  pub same_fixed : fixed d' ≡ fixed d
  pub own_far : (d'.tealets d.current).stack_far ≡ (d.tealets d.current).stack_far
  pub own_exiting : (d'.tealets d.current).flags.exiting ≡ (d.tealets d.current).flags.exiting
  pub elsewhere :
      (j : Ptr) → j ≢ (d'.tealets d.current).stack → (d'.stacks j).refcount ≡ (d.stacks j).refcount
  pub same_tealet : (t : Ptr) → t ≢ d.current → d'.tealets t ≡ d.tealets t
  pub sliced : Sliced stop (Leaving q) d'
  pub others : (j : Ptr) → 0 < (d.stacks j).refcount → d'.stacks j ≡ d.stacks j
  pub own : Own sp fail_ok d d'

-- A whole stack that is below the rest of the list.
Bands-cons :
    (f : Ptr → Stack) (lo p : Ptr) (s : Stack) (list : List Ptr)
    → IsWhole s
    → lo ≤ edge s
    → edge s < s.stack_far
    → has p list ≡ false
    → Bands (update f p s) s.stack_far list
    → Bands (update f p s) lo (p ∷ list)
Bands-cons f lo p s list w l h o b = rw (eq→== p p refl) (w, l, h, o, b)

module _ (pf : Platform) (law : IsDescending pf) (sp stop q : Ptr) (fail_ok : Bool) (d : Domain)
    (sliced : Sliced stop (Leaving q) d)
    (bands : Bands d.stacks (d.tealets d.current).stack_far d.prev) (fresh : IsFresh d)
    (inside : sp < (d.tealets d.current).stack_far) where
  abbrev far : Ptr
  far = (d.tealets d.current).stack_far

  -- With a new stack that ends at `end`, which joins the list unless it is full.
  park :
      (p end : Ptr) (answers : List Ptr) (stats : Stats) (prev : List Ptr)
      → p ≢ null
      → has p d.answers ≡ true
      → end ≤ far
      → Bands (update d.stacks p (first_slice d.mem sp far (end - sp))) stop prev
      → ((j : Ptr) → (j ≢ p) → has j prev ≡ has j d.prev)
      → (has p prev ≡ true) ⊎ (far ≤ end)
      → Parked stop q sp fail_ok d
          (record (suspend p (first_slice d.mem sp far (end - sp)) (charge answers stats d)) {
            prev = prev;
          })
  park p end answers stats prev ne got le b same here =
      let s = first_slice d.mem sp far (end - sp) in
      let unused : (d.stacks p).refcount ≡ 0 = fresh p got ne in
      let at = near-first_slice d.mem sp far (end - sp) in
      let whole = first_slice-IsWhole d.mem sp far (end - sp) in
      record {
        same_mem = refl;
        same_current = refl;
        same_target = refl;
        same_main = refl;
        same_fixed = refl;
        own_far = rw (eq→== d.current d.current refl);
        own_exiting = rw (eq→== d.current d.current refl);
        elsewhere = λ j n. rw (ne→== j p (λ e. n (e ∙ rw (eq→== d.current d.current refl))));
        same_tealet = λ t n. rw (ne→== t d.current n);
        sliced =
            suspend-Sliced stop q d p s sliced unused ne whole refl refl (omega (arith, at)) answers
              stats prev b same (elim here [ inl m ↦ inl m | inr f ↦ inr (omega (arith, at)) ]);
        others = others stop q d p s sliced unused ne whole refl refl (omega (arith, at));
        own =
            saved p (rw (eq→== d.current d.current refl)) (rw (eq→== p p refl) (omega arith, refl))
              (rw (eq→== p p refl) at) (rw (eq→== p p refl))
              (λ x. rw (eq→== p p refl) (restore-first_slice d.mem sp far (end - sp) x)) unused ne
              (rw (eq→== p p refl));
      }

  -- With no memory and no way back: the tealet is marked.
  park_defunct :
      (answers : List Ptr)
      → fail_ok ≡ false
      → Parked stop q sp fail_ok d (
          set_flags d.current
            (record ((d.tealets d.current).flags) { is_defunct = true })
            (charge answers d.stats d))
  park_defunct answers forced = record {
    same_mem = refl;
    same_current = refl;
    same_target = refl;
    same_main = refl;
    same_fixed = refl;
    own_far = rw (eq→== d.current d.current refl);
    own_exiting = rw (eq→== d.current d.current refl);
    elsewhere = λ j n. refl;
    same_tealet = λ t n. rw (ne→== t d.current n);
    sliced = record {
      bands = sliced.bands;
      no_null = sliced.no_null;
      linked = sliced.linked;
      whole = sliced.whole;
      full = sliced.full;
      within = sliced.within;
      owned = λ t h. elim (Bool-cases (t == d.current)) [
        | inl e ↦ rw e (sliced.owned d.current (rw e at h))
        | inr e ↦ rw e (sliced.owned t (rw e at h))
      ];
    };
    others = λ j l. refl;
    own =
        given_up forced (rw (eq→== d.current d.current refl)) (rw (eq→== d.current d.current refl));
  }

  fresh_not_linked : (p : Ptr) → p ≢ null → has p d.answers ≡ true → has p d.prev ≡ false
  fresh_not_linked p ne got = elim (Bool-cases (has p d.prev)) [
    | inl e ↦ absurd (omega (arith, sliced.linked p e, fresh p got ne))
    | inr e ↦ e
  ]

  -- Stacks of the list stay under a fresh one.
  Bands-fresh :
      (lo p : Ptr) (s : Stack)
      → has p d.prev ≡ false
      → Bands d.stacks lo d.prev
      → Bands (update d.stacks p s) lo d.prev
  Bands-fresh lo p s out b =
      Bands_congr d.stacks (update d.stacks p s) lo d.prev (λ k m. rw (has-ne p k d.prev out m)) b

  abbrev pub ParkedOr : Bool × Domain → Type 0
  ParkedOr r =
      ((answers : List Ptr) × (r ≡ (false, charge answers d.stats d)) × (fail_ok ≡ true))
      ⊎ ((r.0 ≡ true) × Parked stop q sp fail_ok d r.1)

  save_nothing :
      (b : Bool) (answers : List Ptr)
      → fail_ok ≡ b
      → ParkedOr (
          if b then (false, charge answers d.stats d) else (
            true,
            set_flags d.current
                (record ((d.tealets d.current).flags) { is_defunct = true })
                (charge answers d.stats d),
          ))
  save_nothing true answers e = inl (answers, refl, e)
  save_nothing false answers e = inr (refl, park_defunct answers e)

  -- The saving of the current tealet, once the walk is done: either there was no memory and
  -- the transfer is not forced, and only the allocator has moved; or the invariant holds up to
  -- the target's far end with every other stack untouched, and the tealet has a new stack from
  -- its stack pointer up with the bytes of memory, or is marked defunct in a forced transfer.
  pub save_current-ParkedOr : ParkedOr (save_current pf sp stop fail_ok d)
  unfolding save_current stack_link
  save_current-ParkedOr = elim (Bool-cases (ltb stop far)) [
    | inl e ↦ elim (stack_saveto-partial pf law sp far stop d (ltb→lt _ _ e)) [
      | no_memory answers r ↦ rw r (save_nothing fail_ok answers refl)
      | slice p answers stats r ne got ↦
          let out = fresh_not_linked p ne got in
          let part : stop < far = ltb→lt _ _ e in
          let at = near-first_slice d.mem sp far (stop - sp) in
          rw (r, ne→== p null ne)
            (inr (
              refl,
              park p stop answers stats (p ∷ d.prev) ne got (ground arith)
                  (Bands-cons d.stacks stop p (first_slice d.mem sp far (stop - sp)) d.prev
                    (first_slice-IsWhole d.mem sp far (stop - sp)) (omega (arith, at))
                    (omega (arith, at)) out
                    (Bands-fresh far p (first_slice d.mem sp far (stop - sp)) out bands))
                  (λ j n. rw (ne→== j p n)) (inl (rw (eq→== p p refl))),
            ))
    ]
    | inr e ↦ elim (stack_saveto-full pf law sp far stop d (ground arith)) [
      | no_memory answers r ↦ rw r (save_nothing fail_ok answers refl)
      | slice p answers stats r ne got ↦
          rw (r, ne→== p null ne)
            (inr (
              refl,
              park p far answers stats d.prev ne got (omega arith)
                  (Bands-fresh stop p _ (fresh_not_linked p ne got) sliced.bands) (λ j n. refl)
                  (inr (omega arith)),
            ))
    ]
  ]
