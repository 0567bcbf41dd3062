-- ===== src/Extras/Counted.antt =====
-- What the counting allocator counts.
use libtealet.Base.{
  ℕ, ◌+◌, ◌-◌, ◌^◌, ◌<◌, ◌≡◌, ◌≢◌, refl, ap, inl, inr, false, List, [], ◌∷◌, ◌==◌, arith,
  Bool-cases, ==→eq, eq→==, ne→==,
}
use libtealet.Platform.{Ptr, null}
use libtealet.Extras.{StatsAlloc, base_malloc, statsalloc_malloc, statsalloc_free}

base_malloc-rest :
    (a : StatsAlloc)
    → ((base_malloc a).1.n_allocs ≡ a.n_allocs)
      × ((base_malloc a).1.s_allocs ≡ a.s_allocs)
      × ((base_malloc a).1.freed ≡ a.freed)
unfolding base_malloc
base_malloc-rest a = go a.answers refl
  where
    go :
        (l : List Ptr)
        → a.answers ≡ l
        → ((base_malloc a).1.n_allocs ≡ a.n_allocs)
          × ((base_malloc a).1.s_allocs ≡ a.s_allocs)
          × ((base_malloc a).1.freed ≡ a.freed)
    go [] e = rw e (refl, refl, refl)
    go (x ∷ l) e = rw e (refl, refl, refl)

-- With counters and a size below 2^64: a block that the counting allocator hands out and gets
-- back at once leaves its two counters as they were and goes back to the base allocator at the
-- address it came from.
pub statsalloc_free-statsalloc_malloc :
    (size : ℕ) (a : StatsAlloc)
    → a.n_allocs < 2 ^ 64
    → a.s_allocs < 2 ^ 64
    → size < 2 ^ 64
    → (statsalloc_malloc size a).0 ≢ null
    → (let b = statsalloc_free (statsalloc_malloc size a).0 (statsalloc_malloc size a).1 in
        (b.n_allocs ≡ a.n_allocs)
        × (b.s_allocs ≡ a.s_allocs)
        × (b.freed ≡ (base_malloc a).0 ∷ a.freed))
unfolding statsalloc_malloc statsalloc_free
statsalloc_free-statsalloc_malloc size a n s w ok =
    let rest = base_malloc-rest a in
    elim (Bool-cases ((base_malloc a).0 == null)) [
      | inl e ↦ absurd ((rw e at ok) (==→eq _ _ e))
      | inr e ↦
          let p = (base_malloc a).0 in
          let off : (p + 8) == null ≡ false =
            ne→== (p + 8) null (λ z. absurd {A = _} (omega arith)) in
          let back : p + 8 - 8 ≡ p = omega arith in
          rw (e, off, back, eq→== p p refl)
            (omega (arith, rest.0), omega (arith, rest.1), ap (λ l. p ∷ l) rest.2)
    ]
