-- ===== src/Growth/Bands.antt =====
-- The list `g_prev` as docs/INCREMENTAL_SAVE.md describes it: the unsaved bands of the partially
-- saved stacks lie one behind the other, newest and nearest first.
use mathlib.Core.Bool.{false≢true}
use libtealet.Base.{
  ◌≤◌, ◌<◌, ◌≡◌, refl, sym, subst, inl, inr, true, false, List, [], ◌∷◌, ◌==◌, has, arith,
  Bool-cases, ==→eq,
}
use libtealet.Platform.{Ptr}
use libtealet.Memory.{Mem}
use libtealet.Domain.{Stack, update}
use libtealet.Stack.{stack_restore}
use libtealet.Stack.Image.{near, edge, IsWhole}

-- From `lo` up: each stack of the list is saved at least to where the band before it ends, and
-- not to its own far end.
abbrev pub Bands : (Ptr → Stack) → Ptr → List Ptr → Type 0
Bands stacks lo [] = Unit
Bands stacks lo (j ∷ list) =
    IsWhole (stacks j)
    × (lo ≤ edge (stacks j))
    × (edge (stacks j) < (stacks j).stack_far)
    × (has j list ≡ false)
    × Bands stacks (stacks j).stack_far list

-- `s'` is `s`, perhaps with more of it saved.
pub record Grew (m : Mem) (s s' : Stack) : Type 0 where
  pub same_near : near s' ≡ near s
  pub same_far : s'.stack_far ≡ s.stack_far
  pub same_count : s'.refcount ≡ s.refcount
  pub same_mark : s'.is_defunct ≡ s.is_defunct
  pub more : edge s ≤ edge s'
  pub whole : IsWhole s → IsWhole s'
  pub within : edge s ≤ s.stack_far → edge s' ≤ s'.stack_far
  pub image : IsWhole s → (p : Ptr) → stack_restore s' m p ≡ stack_restore s m p

pub Bands-mono :
    (stacks : Ptr → Stack) (lo lo' : Ptr) (list : List Ptr)
    → lo' ≤ lo
    → Bands stacks lo list
    → Bands stacks lo' list
Bands-mono stacks lo lo' [] h b = tt
Bands-mono stacks lo lo' (j ∷ list) h b = (b.0, omega arith, b.2, b.3, b.4)

-- Stacks that are not in the list do not matter to it.
pub Bands_congr :
    (f g : Ptr → Stack) (lo : Ptr) (list : List Ptr)
    → ((j : Ptr) → has j list ≡ true → g j ≡ f j)
    → Bands f lo list
    → Bands g lo list
Bands_congr f g lo [] same b = tt
Bands_congr f g lo (j ∷ list) same b =
    rw (same j (ground arith))
      (b.0, b.1, b.2, b.3, Bands_congr f g (f j).stack_far list (λ k h. same k (ground arith)) b.4)

-- Every stack of the list is whole, partial and saved as far as `lo`.
abbrev pub Sliced : Ptr → Stack → Type 0
Sliced lo s = IsWhole s × (lo ≤ edge s) × (edge s < s.stack_far)

pub Bands-has :
    (stacks : Ptr → Stack) (lo : Ptr) (list : List Ptr) (j : Ptr)
    → Bands stacks lo list
    → has j list ≡ true
    → Sliced lo (stacks j)
Bands-has stacks lo [] j b h = absurd (false≢true h)
Bands-has stacks lo (k ∷ list) j b h = elim (Bool-cases (j == k)) [
  | inl e ↦ subst (λ i. Sliced lo (stacks i)) (sym (==→eq j k e)) (b.0, b.1, b.2)
  | inr e ↦
      let r = Bands-has stacks (stacks k).stack_far list j b.4 (rw e at h) in
      (r.0, omega arith, r.2)
]

pub Grew-refl : (m : Mem) (s : Stack) → Grew m s s
Grew-refl m s = record {
  same_near = refl;
  same_far = refl;
  same_count = refl;
  same_mark = refl;
  more = omega arith;
  whole = λ w. w;
  within = λ h. h;
  image = λ w p. refl;
}

-- A stack of the list may get another count.
pub Bands-count :
    (f : Ptr → Stack) (q n lo : Ptr) (list : List Ptr)
    → Bands f lo list
    → Bands (update f q (record (f q) { refcount = n })) lo list
Bands-count f q n lo [] b = tt
Bands-count f q n lo (j ∷ list) b =
    let rest = Bands-count f q n (f j).stack_far list b.4 in
    elim (Bool-cases (j == q)) [
      | inl e ↦
          let k = ==→eq j q e in
          rw e (
            subst (λ i. IsWhole (f i)) k b.0,
            subst (λ i. lo ≤ edge (f i)) k b.1,
            subst (λ i. edge (f i) < (f i).stack_far) k b.2,
            b.3,
            subst (λ i. Bands (update f q (record (f q) { refcount = n })) (f i).stack_far list) k
                rest,
          )
      | inr e ↦ rw e (b.0, b.1, b.2, b.3, rest)
    ]
