-- ===== src/System/Count.antt =====
-- Counting the holders of a stack when one tealet or two have changed.
use mathlib.Core.Bool.{false≢true}
use libtealet.Base.{
  ◌+◌, ◌<◌, ◌≡◌, ◌≢◌, refl, sym, ap, ◌∙◌, inl, inr, true, List, [], ◌∷◌, ◌==◌, has, has-ne,
  Distinct, arith, Bool-cases, ==→eq, ==→ne, eq→==, ne→==,
}
use libtealet.Platform.{Ptr}
use libtealet.Domain.{Tealet, update}
use libtealet.System.{holds, holders}

-- Tealets that are not listed do not matter.
pub holders_congr :
    (p : Ptr) (f g : Ptr → Tealet) (ts : List Ptr)
    → ((t : Ptr) → has t ts ≡ true → holds p (g t) ≡ holds p (f t))
    → holders p g ts ≡ holders p f ts
holders_congr p f g [] same = refl
holders_congr p f g (t ∷ ts) same =
    omega
      (arith, same t (rw (eq→== t t refl)), holders_congr p f g ts (λ u h. same u (ground arith)))

-- One listed tealet has changed.
pub holders-change :
    (p : Ptr) (f g : Ptr → Tealet) (a : Ptr) (ts : List Ptr)
    → Distinct ts
    → has a ts ≡ true
    → ((t : Ptr) → t ≢ a → g t ≡ f t)
    → holders p g ts + holds p (f a) ≡ holders p f ts + holds p (g a)
holders-change p f g a [] d h same = absurd (false≢true h)
holders-change p f g a (t ∷ ts) d h same = elim (Bool-cases (a == t)) [
  | inl e ↦
      let rest : holders p g ts ≡ holders p f ts =
        holders_congr p f g ts
          (λ u m. ap (holds p) (same u (λ i. ==→ne u t (has-ne t u ts d.0 m) (i ∙ ==→eq a t e)))) in
      rw (==→eq a t e) (omega (arith, rest))
  | inr e ↦ omega (
    arith,
    holders-change p f g a ts d.1 (rw e at h) same,
    ap (holds p) (same t (λ i. ==→ne a t e (sym i))),
  )
]

-- A listed tealet that holds `p` is counted.
pub holders-has :
    (p : Ptr) (f : Ptr → Tealet) (t : Ptr) (ts : List Ptr)
    → has t ts ≡ true
    → (f t).stack ≡ p
    → 0 < holders p f ts
holders-has p f t [] h e = absurd (false≢true h)
holders-has p f t (u ∷ ts) h e = elim (Bool-cases (t == u)) [
  | inl i ↦
      let one : holds p (f u) ≡ 1 =
        ap (λ k. holds p (f k)) (sym (==→eq t u i)) ∙ rw (eq→== _ _ e) refl in
      omega arith
  | inr i ↦ omega (arith, holders-has p f t ts (rw i at h) e)
]

-- Two listed tealets that hold `p` are both counted.
pub holders-two :
    (p : Ptr) (f : Ptr → Tealet) (a b : Ptr) (ts : List Ptr)
    → Distinct ts
    → has a ts ≡ true
    → has b ts ≡ true
    → a ≢ b
    → (f a).stack ≡ p
    → (f b).stack ≡ p
    → 1 < holders p f ts
holders-two p f a b [] d h k n e g = absurd (false≢true h)
holders-two p f a b (u ∷ ts) d h k n e g = elim (Bool-cases (a == u)) [
  | inl i ↦
      let one : holds p (f u) ≡ 1 =
        ap (λ j. holds p (f j)) (sym (==→eq a u i)) ∙ rw (eq→== _ _ e) refl in
      let m : has b ts ≡ true = rw (ne→== b u (λ j. n (==→eq a u i ∙ sym j))) at k in
      omega (arith, holders-has p f b ts m g)
  | inr i ↦ elim (Bool-cases (b == u)) [
    | inl j ↦
        let one : holds p (f u) ≡ 1 =
          ap (λ l. holds p (f l)) (sym (==→eq b u j)) ∙ rw (eq→== _ _ g) refl in
        omega (arith, holders-has p f a ts (rw i at h) e)
    | inr j ↦ omega (arith, holders-two p f a b ts d.1 (rw i at h) (rw j at k) n e g)
  ]
]

-- Two listed tealets have changed.
pub holders-change_two :
    (p : Ptr) (f g : Ptr → Tealet) (a b : Ptr) (ts : List Ptr)
    → Distinct ts
    → has a ts ≡ true
    → has b ts ≡ true
    → a ≢ b
    → ((t : Ptr) → t ≢ a → t ≢ b → g t ≡ f t)
    → holders p g ts + holds p (f a) + holds p (f b)
      ≡ holders p f ts + holds p (g a) + holds p (g b)
holders-change_two p f g a b ts d h k n same =
    let f' : Ptr → Tealet = update f a (g a) in
    let one = holders-change p f f' a ts d h (λ t m. rw (ne→== t a m)) in
    let two = holders-change p f' g b ts d k (λ t m. elim (Bool-cases (t == a)) [
      | inl e ↦ rw (e, ==→eq t a e)
      | inr e ↦ rw e (same t (==→ne t a e) m)
    ]) in
    let at_a : holds p (f' a) ≡ holds p (g a) = rw (eq→== a a refl) in
    let at_b : holds p (f' b) ≡ holds p (f b) = rw (ne→== b a (λ e. n (sym e))) in
    omega (arith, one, two)
