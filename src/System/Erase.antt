-- ===== src/System/Erase.antt =====
-- A tealet leaves the circular list, and perhaps its stack the list of the partial ones.
use mathlib.Core.Bool.{false≢true}
use libtealet.Base.{
  ◌+◌, ◌≡◌, ◌≢◌, refl, sym, ap, subst, ◌∙◌, inl, inr, true, false, List, [], ◌∷◌, ◌==◌, has, has-ne,
  erase, Distinct, arith, Bool-cases, ==→eq, ==→ne, ne→==,
}
use libtealet.Platform.{Ptr}
use libtealet.Domain.{Stack, Tealet, update}
use libtealet.Growth.Bands.{Bands, Bands-mono, Bands_congr}
use libtealet.System.{holds, holders}

pub has-erase : (a u : Ptr) (xs : List Ptr) → u ≢ a → has u (erase a xs) ≡ has u xs
has-erase a u [] n = refl
has-erase a u (x ∷ xs) n = elim (Bool-cases (x == a)) [
  | inl e ↦ rw (e, ==→eq x a e, ne→== u a n) refl
  | inr e ↦ rw (e, has-erase a u xs n) refl
]

pub has-erase_self : (a : Ptr) (xs : List Ptr) → Distinct xs → has a (erase a xs) ≡ false
has-erase_self a [] d = refl
has-erase_self a (x ∷ xs) d = elim (Bool-cases (x == a)) [
  | inl e ↦ rw e (subst (λ i. has i xs ≡ false) (==→eq x a e) d.0)
  | inr e ↦ rw (e, ne→== a x (λ i. ==→ne x a e (sym i)), has-erase_self a xs d.1) refl
]

pub erase-Distinct : (a : Ptr) (xs : List Ptr) → Distinct xs → Distinct (erase a xs)
erase-Distinct a [] d = tt
erase-Distinct a (x ∷ xs) d = elim (Bool-cases (x == a)) [
  | inl e ↦ rw e d.1
  | inr e ↦ rw e (has-erase a x xs (==→ne x a e) ∙ d.0, erase-Distinct a xs d.1)
]

-- The tealet that leaves is no holder any more.
pub holders-erase :
    (p : Ptr) (f : Ptr → Tealet) (a : Ptr) (ts : List Ptr)
    → has a ts ≡ true
    → holders p f (erase a ts) + holds p (f a) ≡ holders p f ts
holders-erase p f a [] h = absurd (false≢true h)
holders-erase p f a (t ∷ ts) h = elim (Bool-cases (t == a)) [
  | inl e ↦ rw e (omega (arith, ap (λ i. holds p (f i)) (==→eq t a e)))
  | inr e ↦
      rw e (omega (arith, holders-erase p f a ts (rw (ne→== a t (λ i. ==→ne t a e (sym i))) at h)))
]

-- A stack that leaves the list, whatever becomes of it.
pub Bands-erase :
    (f : Ptr → Stack) (q : Ptr) (s : Stack) (lo : Ptr) (list : List Ptr)
    → Bands f lo list
    → Bands (update f q s) lo (erase q list)
Bands-erase f q s lo [] b = tt
Bands-erase f q s lo (j ∷ list) b = elim (Bool-cases (j == q)) [
  | inl e ↦
      let gone : has q list ≡ false = subst (λ i. has i list ≡ false) (==→eq j q e) b.3 in
      rw e (
        Bands-mono (update f q s) (f j).stack_far lo list (omega (arith, b.1, b.2)) (
          Bands_congr f (update f q s) (f j).stack_far list (λ k h. rw (has-ne q k list gone h))
            b.4))
  | inr e ↦
      rw (e, e)
        (
          b.0,
          b.1,
          b.2,
          has-erase q j list (==→ne j q e) ∙ b.3,
          Bands-erase f q s (f j).stack_far list b.4,
        )
]

pub Bands-Distinct :
    (f : Ptr → Stack) (lo : Ptr) (list : List Ptr) → Bands f lo list → Distinct list
Bands-Distinct f lo [] b = tt
Bands-Distinct f lo (j ∷ list) b = (b.3, Bands-Distinct f (f j).stack_far list b.4)
