-- ===== src/System/Removed.antt =====
-- A domain that a tealet has left, and its stacks.
use mathlib.Core.Bool.{false≢true}
use libtealet.Base.{
  ◌+◌, ◌-◌, ◌≤◌, ◌<◌, ◌≡◌, ◌≢◌, refl, sym, ap, subst, ◌∙◌, ◌⊎◌, inl, inr, true, false, List, ltb,
  ltb→lt, ◌==◌, has, erase, arith, Bool-cases, ==→eq, ==→ne, ne→==,
}
use libtealet.Platform.{Ptr, null, Platform}
use libtealet.Domain.{Domain, Stack, Tealet, put_stack, update, freed_stack, freed_tealet}
use libtealet.Stats.{sub_stack}
use libtealet.Stack.{stack_decref, stack_unlink}
use libtealet.Growth.Bands.{Bands, Bands-count}
use libtealet.Growth.Step.{chunk_decref-stats}
use libtealet.Transfer.Invariant.{Sliced, Nobody}
use libtealet.Transfer.Resume.{released}
use libtealet.System.{IsSound}
use libtealet.System.Switched.{held_twice}
use libtealet.System.Erase.{has-erase, has-erase_self, Bands-erase, Bands-Distinct}

-- The stacks and the list of the partial ones after the holder of `q` let go of it.
pub data Drop (d : Domain) (q : Ptr) (stacks : Ptr → Stack) (prev : List Ptr) : Type 0 where
  nothing_held : q ≡ null → stacks ≡ d.stacks → prev ≡ d.prev → Drop d q stacks prev
  still_held :
      q ≢ null
      → 1 < (d.stacks q).refcount
      → stacks ≡ update d.stacks q (released (d.stacks q))
      → prev ≡ d.prev
      → Drop d q stacks prev
  given_back :
      q ≢ null
      → (d.stacks q).refcount ≤ 1
      → stacks ≡ update d.stacks q freed_stack
      → prev ≡ erase q d.prev
      → Drop d q stacks prev

pub stack_decref-Drop :
    (pf : Platform) (q : Ptr) (d : Domain)
    → Drop d q (stack_decref pf q d).stacks (stack_decref pf q d).prev
      × ((stack_decref pf q d).tealets ≡ d.tealets)
      × ((stack_decref pf q d).all ≡ d.all)
      × ((stack_decref pf q d).main ≡ d.main)
      × ((stack_decref pf q d).current ≡ d.current)
unfolding stack_decref stack_unlink
stack_decref-Drop pf q d = elim (Bool-cases (q == null)) [
  | inl z ↦ rw z (nothing_held (==→eq q null z) refl refl, refl, refl, refl, refl)
  | inr n ↦ elim (Bool-cases (ltb 1 (d.stacks q).refcount)) [
    | inl e ↦
        rw (n, e) (still_held (==→ne q null n) (ltb→lt _ _ e) refl refl, refl, refl, refl, refl)
    | inr e ↦
        let (stats, same) = chunk_decref-stats pf (d.stacks q).rest (
          put_stack q freed_stack (record (stack_unlink q d) {
            stats = sub_stack (pf.stack_header + (d.stacks q).chunk.size) d.stats;
          })) in
        rw (n, e, same)
          (given_back (==→ne q null n) (ground arith) refl refl, refl, refl, refl, refl)
  ]
]

-- The tealet `t` is no more.
pub record Removed (d d' : Domain) (t : Ptr) : Type 0 where
  pub all : d'.all ≡ erase t d.all
  pub main : d'.main ≡ d.main
  pub current : d'.current ≡ d.current
  pub gone : d'.tealets t ≡ freed_tealet
  pub elsewhere : (u : Ptr) → u ≢ t → d'.tealets u ≡ d.tealets u
  pub drop : Drop d (d.tealets t).stack d'.stacks d'.prev

module _ (d d' : Domain) (t : Ptr) (s : IsSound d) (listed : has t d.all ≡ true)
    (other : t ≢ d.current) (not_main : t ≢ d.main) (r : Removed d d' t) where
  abbrev q : Ptr
  q = (d.tealets t).stack

  abbrev lo : Ptr
  lo = (d.tealets d.current).stack_far

  -- What the stack at `j` is now.
  change :
      (j : Ptr)
      → (d'.stacks j ≡ d.stacks j)
        ⊎ ((j ≡ q)
            × (((d'.stacks j ≡ released (d.stacks j)) × (1 < (d.stacks j).refcount))
                ⊎ ((d'.stacks j ≡ freed_stack) × ((d.stacks j).refcount ≤ 1) × (q ≢ null))))
  change j = elim (Bool-cases (j == q)) [
    | inl e ↦
        let i = ==→eq j q e in
        elim r.drop [
          | nothing_held n same p ↦ inl (ap (λ f. f j) same)
          | still_held n more same p ↦ inr (
            i,
            inl (
              ap (λ f. f j) same ∙ rw (e, sym i) refl,
              subst (λ k. 1 < (d.stacks k).refcount) (sym i) more,
            ),
          )
          | given_back n last same p ↦ inr (
            i,
            inr (
              ap (λ f. f j) same ∙ rw e refl,
              subst (λ k. (d.stacks k).refcount ≤ 1) (sym i) last,
              n,
            ),
          )
        ]
    | inr e ↦ elim r.drop [
      | nothing_held n same p ↦ inl (ap (λ f. f j) same)
      | still_held n more same p ↦ inl (ap (λ f. f j) same ∙ rw e refl)
      | given_back n last same p ↦ inl (ap (λ f. f j) same ∙ rw e refl)
    ]
  ]

  -- Another tealet's stack is still in use, unchanged but for its count.
  pub others_stack :
      (u : Ptr)
      → u ≢ t
      → (d.tealets u).stack ≢ null
      → (d'.stacks (d.tealets u).stack ≡ d.stacks (d.tealets u).stack)
        ⊎ ((d'.stacks (d.tealets u).stack ≡ released (d.stacks (d.tealets u).stack))
            × (1 < (d.stacks (d.tealets u).stack).refcount))
  others_stack u n o = elim (change (d.tealets u).stack) [
    | inl same ↦ inl same
    | inr (i, inl more) ↦ inr more
    | inr (i, inr (freed, last, held)) ↦
        let twice = held_twice d s t u held n i in
        absurd {A = _} (omega (arith, last, twice, ap (λ k. (d.stacks k).refcount) i))
  ]

  erased : (j : Ptr) → has j (erase q d.prev) ≡ true → j ≢ q
  erased j h i = false≢true (
      sym (has-erase_self q d.prev (Bands-Distinct d.stacks lo d.prev s.sliced.bands))
      ∙ subst (λ k. has k (erase q d.prev) ≡ true) i h)

  still_listed : (j : Ptr) → has j d'.prev ≡ true → has j d.prev ≡ true
  still_listed j h = elim r.drop [
    | nothing_held n same p ↦ ap (has j) (sym p) ∙ h
    | still_held n more same p ↦ ap (has j) (sym p) ∙ h
    | given_back n last same p ↦
        let h' : has j (erase q d.prev) ≡ true = ap (has j) (sym p) ∙ h in
        sym (has-erase q j d.prev (erased j h')) ∙ h'
  ]

  removed_bands : Bands d'.stacks lo d'.prev
  removed_bands = elim r.drop [
    | nothing_held n same p ↦ rw (same, p) s.sliced.bands
    | still_held n more same p ↦
        rw (same, p) (Bands-count d.stacks q ((d.stacks q).refcount - 1) lo d.prev s.sliced.bands)
    | given_back n last same p ↦
        rw (same, p) (Bands-erase d.stacks q freed_stack lo d.prev s.sliced.bands)
  ]

  removed_linked : (j : Ptr) → has j d'.prev ≡ true → 0 < (d'.stacks j).refcount
  removed_linked j h = elim r.drop [
    | nothing_held n same p ↦ rw same (s.sliced.linked j (rw p at h))
    | still_held n more same p ↦ rw same (elim (Bool-cases (j == q)) [
      | inl e ↦ rw e (omega arith)
      | inr e ↦ rw e (s.sliced.linked j (rw p at h))
    ])
    | given_back n last same p ↦
        rw (same, ne→== j q (erased j (ap (has j) (sym p) ∙ h)))
          (s.sliced.linked j (still_listed j h))
  ]

  unlisted : (j : Ptr) → 0 < (d'.stacks j).refcount → has j d'.prev ≡ false → has j d.prev ≡ false
  unlisted j l o = elim r.drop [
    | nothing_held n same p ↦ ap (has j) (sym p) ∙ o
    | still_held n more same p ↦ ap (has j) (sym p) ∙ o
    | given_back n last same p ↦ elim (Bool-cases (j == q)) [
      | inl e ↦
          let z : (update d.stacks q freed_stack j).refcount ≡ 0 = rw e refl in
          absurd {A = _} (omega (arith, ap (λ f. (f j).refcount) same ∙ z))
      | inr e ↦ sym (has-erase q j d.prev (==→ne j q e)) ∙ (ap (has j) (sym p) ∙ o)
    ]
  ]

  removed_owned :
      (u : Ptr)
      → (d'.tealets u).stack ≢ null
      → (0 < (d'.stacks (d'.tealets u).stack).refcount)
        × ((d'.stacks (d'.tealets u).stack).stack_far ≡ (d'.tealets u).stack_far)
  removed_owned u h = elim (Bool-cases (u == t)) [
    | inl e ↦
        absurd
          (h (ap (λ i. (d'.tealets i).stack) (==→eq u t e) ∙ ap (λ (x : Tealet). x.stack) r.gone))
    | inr e ↦
        let n = ==→ne u t e in
        let same = r.elsewhere u n in
        let held : (d.tealets u).stack ≢ null = λ z. h (ap (λ (x : Tealet). x.stack) same ∙ z) in
        let o = s.sliced.owned u held in
        rw same (elim (others_stack u n held) [
          | inl k ↦ rw k o
          | inr (k, more) ↦ rw k (omega arith, o.1)
        ])
  ]

  pub removed-Sliced : Sliced lo Nobody d'
  removed-Sliced = record {
    bands = removed_bands;
    no_null = elim (Bool-cases (has null d'.prev)) [
      | inl e ↦ absurd (false≢true (sym s.sliced.no_null ∙ still_listed null e))
      | inr e ↦ e
    ];
    linked = removed_linked;
    whole = λ j l. elim (change j) [
      | inl same ↦ rw same (s.sliced.whole j (rw same at l))
      | inr (i, inl (same, more)) ↦ rw same (s.sliced.whole j (omega arith, (rw same at l).1))
      | inr (i, inr (same, last, n)) ↦ absurd {A = _} (omega (arith, (rw same at l).0))
    ];
    full = λ j l o.
        let o' = unlisted j l.0 o in
        elim (change j) [
          | inl same ↦ rw same (s.sliced.full j (rw same at l) o')
          | inr (i, inl (same, more)) ↦ rw same (s.sliced.full j (omega arith, (rw same at l).1) o')
          | inr (i, inr (same, last, n)) ↦ absurd {A = _} (omega (arith, (rw same at l).0))
        ];
    within = λ j l. elim (change j) [
      | inl same ↦ rw same (s.sliced.within j (rw same at l))
      | inr (i, inl (same, more)) ↦ rw same (s.sliced.within j (omega arith, (rw same at l).1))
      | inr (i, inr (same, last, n)) ↦ absurd {A = _} (omega (arith, (rw same at l).0))
    ];
    owned = removed_owned;
  }
