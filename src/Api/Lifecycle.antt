-- ===== src/Api/Lifecycle.antt =====
-- tealet_new and tealet_duplicate against the invariant of the saved stacks.
use libtealet.Base.{
  ◌+◌, ◌<◌, ◌≡◌, ◌≢◌, refl, sym, ap, ◌∙◌, ◌⊎◌, inl, inr, ◌&&◌, List, ◌==◌, arith, Bool-cases, ==→eq,
  ==→ne, eq→==,
}
use libtealet.Platform.{Ptr, null, Platform}
use libtealet.Domain.{Domain, Tealet, Event, put_tealet}
use libtealet.Stats.{malloc}
use libtealet.Stack.{dup_stack, stack_dup}
use libtealet.Growth.Bands.{Bands-count}
use libtealet.Transfer.Invariant.{Sliced, Nobody}
use libtealet.Api.{alloc, new, duplicate, lock_auto, unlock_auto}

-- Only the stores and the list count.
view-Sliced :
    (lo : Ptr) (d d' : Domain)
    → d'.stacks ≡ d.stacks
    → d'.prev ≡ d.prev
    → ((t : Ptr) → ((d'.tealets t).stack ≡ null) ⊎ (d'.tealets t ≡ d.tealets t))
    → Sliced lo Nobody d
    → Sliced lo Nobody d'
view-Sliced lo d d' a b c s = record {
  bands = rw (a, b) s.bands;
  no_null = rw b s.no_null;
  linked = λ j h. rw a (s.linked j (rw b at h));
  whole = λ j h. rw a (s.whole j (rw a at h));
  full = λ j h o. rw a (s.full j (rw a at h) (rw b at o));
  within = λ j h. rw a (s.within j (rw a at h));
  owned = λ t h. elim (c t) [ inl e ↦ absurd (h e) | inr e ↦ rw (a, e) (s.owned t (rw e at h)) ];
}

dup-Sliced :
    (lo q : Ptr) (d : Domain)
    → 0 < (d.stacks q).refcount
    → Sliced lo Nobody d
    → Sliced lo Nobody (stack_dup q d)
unfolding stack_dup dup_stack
dup-Sliced lo q d held s = record {
  bands = Bands-count d.stacks q ((d.stacks q).refcount + 1) lo d.prev s.bands;
  no_null = s.no_null;
  linked = λ j h. elim (Bool-cases (j == q)) [
    | inl e ↦ rw e (omega arith)
    | inr e ↦ rw e (s.linked j h)
  ];
  whole = λ j h. elim (Bool-cases (j == q)) [
    | inl e ↦ rw e (s.whole q (held, (rw e at h).1))
    | inr e ↦ rw e (s.whole j (rw e at h))
  ];
  full = λ j h o. elim (Bool-cases (j == q)) [
    | inl e ↦ rw e (s.full q (held, (rw e at h).1) (rw (==→eq j q e) at o))
    | inr e ↦ rw e (s.full j (rw e at h) o)
  ];
  within = λ j h. elim (Bool-cases (j == q)) [
    | inl e ↦ rw e (s.within q (held, (rw e at h).1))
    | inr e ↦ rw e (s.within j (rw e at h))
  ];
  owned = λ t h. elim (Bool-cases ((d.tealets t).stack == q)) [
    | inl e ↦
        let o = s.owned t h in
        rw e (omega arith, ap (λ k. (d.stacks k).stack_far) (sym (==→eq _ _ e)) ∙ o.1)
    | inr e ↦ rw e (s.owned t h)
  ];
}

locked-Sliced :
    (lo : Ptr) (log : List Event) (d : Domain)
    → Sliced lo Nobody d
    → Sliced lo Nobody (record d { log = log })
locked-Sliced lo log d s = view-Sliced lo d (record d { log = log }) refl refl (λ t. inr refl) s

lock_auto-Sliced : (lo : Ptr) (d : Domain) → Sliced lo Nobody d → Sliced lo Nobody (lock_auto d)
unfolding lock_auto
lock_auto-Sliced lo d s = elim (Bool-cases (d.locking.auto && d.locking.lock)) [
  | inl e ↦ rw e (locked-Sliced lo _ d s)
  | inr e ↦ rw e s
]

unlock_auto-Sliced : (lo : Ptr) (d : Domain) → Sliced lo Nobody d → Sliced lo Nobody (unlock_auto d)
unfolding unlock_auto
unlock_auto-Sliced lo d s = elim (Bool-cases (d.locking.auto && d.locking.unlock)) [
  | inl e ↦ rw e (locked-Sliced lo _ d s)
  | inr e ↦ rw e s
]

alloc-Sliced :
    (pf : Platform) (lo : Ptr) (d : Domain) → Sliced lo Nobody d → Sliced lo Nobody (alloc pf d).1
unfolding alloc malloc
alloc-Sliced pf lo d s = elim (Bool-cases ((malloc 0 d).0 == null)) [
  | inl e ↦ rw e (view-Sliced lo d _ refl refl (λ t. inr refl) s)
  | inr e ↦ rw e (
      view-Sliced lo d _ refl refl
        (λ t. elim (Bool-cases (t == (malloc 0 d).0)) [
          | inl f ↦ rw f (inl refl)
          | inr f ↦ rw f (inr refl)
        ])
        s)
]

-- A tealet that holds a stack in use.
abbrev Holds : Domain → Tealet → Type 0
Holds d t =
    t.stack ≢ null
    → (0 < (d.stacks t.stack).refcount) × ((d.stacks t.stack).stack_far ≡ t.stack_far)

hold-Sliced :
    (lo p : Ptr) (t : Tealet) (d : Domain)
    → Holds d t
    → Sliced lo Nobody d
    → Sliced lo Nobody (put_tealet p t d)
hold-Sliced lo p t d holds s = record {
  bands = s.bands;
  no_null = s.no_null;
  linked = s.linked;
  whole = s.whole;
  full = s.full;
  within = s.within;
  owned = λ u h. elim (Bool-cases (u == p)) [
    | inl e ↦ rw e (holds (rw e at h))
    | inr e ↦ rw e (s.owned u (rw e at h))
  ];
}

-- tealet_new keeps the invariant, with memory for the new tealet or without.
pub new-Sliced :
    (pf : Platform) (lo : Ptr) (d : Domain) → Sliced lo Nobody d → Sliced lo Nobody (new pf d).1
unfolding new
new-Sliced pf lo d s =
    let s1 = alloc-Sliced pf lo (lock_auto d) (lock_auto-Sliced lo d s) in
    elim (Bool-cases ((alloc pf (lock_auto d)).0 == null)) [
      | inl e ↦ rw e (unlock_auto-Sliced lo _ s1)
      | inr e ↦ rw e (unlock_auto-Sliced lo _ (hold-Sliced lo _ _ _ (λ h. absurd (h refl)) s1))
    ]

-- tealet_duplicate keeps the invariant, with memory for the copy or without: the copy shares
-- the stack of its original.
pub duplicate-Sliced :
    (pf : Platform) (lo t : Ptr) (d : Domain)
    → Sliced lo Nobody d
    → Sliced lo Nobody (duplicate pf t d).1
unfolding duplicate stack_dup dup_stack
duplicate-Sliced pf lo t d s =
    let d1 = (alloc pf (lock_auto d)).1 in
    let q = (d1.tealets t).stack in
    let s1 = alloc-Sliced pf lo (lock_auto d) (lock_auto-Sliced lo d s) in
    elim (Bool-cases ((alloc pf (lock_auto d)).0 == null)) [
      | inl e ↦ rw e (unlock_auto-Sliced lo _ s1)
      | inr e ↦ elim (Bool-cases (q == null)) [
        | inl f ↦
            rw (e, f)
              (unlock_auto-Sliced lo _ (hold-Sliced lo _ _ _ (λ h. absurd (h (==→eq _ _ f))) s1))
        | inr f ↦
            let o = s1.owned t (==→ne _ _ f) in
            rw (e, f)
              (unlock_auto-Sliced lo _ (
                hold-Sliced lo _ _ _ (λ h. rw (eq→== q q refl) (omega arith, o.1))
                  (dup-Sliced lo q d1 o.0 s1)))
      ]
    ]
