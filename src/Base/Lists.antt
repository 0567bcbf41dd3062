-- ===== src/Base/Lists.antt =====
-- Lists measured by native numbers, and lists of numbers seen as sets.
use Prim.Native.Nat.{ℕ, suc}
use mathlib.Core.Path.{◌≡◌, sym, subst, ◌∙◌}
use mathlib.Core.Logic.{inl, inr}
use mathlib.Core.Bool.{Bool, true, false, ◌||◌, false≢true}
use mathlib.Core.List.{List, [], ◌∷◌}
use libtealet.Base.Tests.{◌==◌, if◌then◌else◌, Bool-cases, ==→eq}

module _ {ℓ} {A : Type ℓ} where
  abbrev pub length : List A → ℕ
  length [] = 0
  length (x ∷ xs) = suc (length xs)

-- Membership, as a test.
abbrev pub has : ℕ → List ℕ → Bool
has a [] = false
has a (x ∷ xs) = a == x || has a xs

-- No entry twice.
abbrev pub Distinct : List ℕ → Type 0
Distinct [] = Unit
Distinct (x ∷ xs) = (has x xs ≡ false) × Distinct xs

-- The first entry `a` taken out.
abbrev pub erase : ℕ → List ℕ → List ℕ
erase a [] = []
erase a (x ∷ xs) = if x == a then xs else x ∷ erase a xs

pub has-ne : (j k : ℕ) (xs : List ℕ) → has j xs ≡ false → has k xs ≡ true → k == j ≡ false
has-ne j k xs o m = elim (Bool-cases (k == j)) [
  | inl e ↦ absurd (false≢true (sym o ∙ subst (λ i. has i xs ≡ true) (==→eq k j e) m))
  | inr e ↦ e
]

-- Every entry of the first is an entry of the second.
abbrev pub Within : List ℕ → List ℕ → Type 0
Within xs ys = (a : ℕ) → has a xs ≡ true → has a ys ≡ true
