-- ===== src/Links/Circle.antt =====
-- The circular list of tealets, as TEALET_LIST_ADD and TEALET_LIST_REMOVE keep it.
use mathlib.Core.Bool.{false≢true}
use libtealet.Base.{
  ◌≡◌, ◌≢◌, refl, sym, subst, ◌∙◌, ◌⊎◌, inl, inr, true, false, List, [], ◌∷◌, ◌==◌, has, Distinct,
  erase, arith, Bool-cases, ==→eq, ==→ne, eq→==, ne→==,
}
use libtealet.Platform.{Ptr}
use libtealet.Domain.{update}
use libtealet.System.Erase.{has-erase, erase-Distinct}
use libtealet.Links.{Ring, list_add, list_remove}

-- From `p` by `next` through the list to `q`, and by `prev` all the way back.
abbrev pub Way : Ring → Ptr → List Ptr → Ptr → Type 0
Way r p [] q = (r.next p ≡ q) × (r.prev q ≡ p)
Way r p (t ∷ ts) q = (r.next p ≡ t) × (r.prev t ≡ p) × Way r t ts q

-- The ring of the main tealet and the others.
pub record IsRing (main : Ptr) (ts : List Ptr) (r : Ring) : Type 0 where
  pub path : Way r main ts main
  pub distinct : Distinct (main ∷ ts)

pub has-differ : (x y : Ptr) (ts : List Ptr) → has x ts ≡ true → has y ts ≡ false → x ≢ y
has-differ x y ts h o e = false≢true (sym o ∙ subst (λ k. has k ts ≡ true) e h)

pub has-tail : (x t : Ptr) (ts : List Ptr) → has x ts ≡ true → has x (t ∷ ts) ≡ true
has-tail x t ts h = ground (arith, h)

-- A path is kept where its own pointers are.
Way-congr :
    (r r' : Ring) (p : Ptr) (ts : List Ptr) (q : Ptr)
    → ((x : Ptr) → has x (p ∷ ts) ≡ true → r'.next x ≡ r.next x)
    → ((x : Ptr) → (has x ts ≡ true) ⊎ (x ≡ q) → r'.prev x ≡ r.prev x)
    → Way r p ts q
    → Way r' p ts q
Way-congr r r' p [] q a b h = (a p (rw (eq→== p p refl) refl) ∙ h.0, b q (inr refl) ∙ h.1)
Way-congr r r' p (t ∷ ts) q a b h = (
  a p (rw (eq→== p p refl) refl) ∙ h.0,
  b t (inl (rw (eq→== t t refl) refl)) ∙ h.1,
  Way-congr r r' t ts q (λ x m. a x (has-tail x p (t ∷ ts) m))
      (λ x m. b x (elim m [ inl k ↦ inl (has-tail x t ts k) | inr k ↦ inr k ])) h.2,
)

-- The four stores of TEALET_LIST_ADD, by what followed the main tealet.
abbrev joined : (main t b : Ptr) → Ring → Ring
joined main t b r = record {
  next = update (update r.next t b) main t;
  prev = update (update r.prev t main) b t;
}

list_add_lem :
    (main t : Ptr) (r : Ring) → main ≢ t → list_add main t r ≡ joined main t (r.next main) r
unfolding list_add
list_add_lem main t r n = rw (ne→== main t n) refl

joined-Way :
    (main t : Ptr) (ts : List Ptr) (r : Ring)
    → IsRing main ts r
    → main ≢ t
    → has t ts ≡ false
    → Way (joined main t (r.next main) r) main (t ∷ ts) main
joined-Way main t [] r s n out =
    let b = ne→== t main (λ e. n (sym e)) in
    subst (λ f. Way (joined main t f r) main (t ∷ []) main) (sym s.path.0)
      (
        rw (eq→== main main refl) refl,
        rw (b, eq→== t t refl) refl,
        (rw (b, eq→== t t refl) refl, rw (eq→== main main refl) refl),
      )
joined-Way main t (u ∷ us) r s n out =
    let m : u ≢ t = λ e. false≢true (sym out ∙ rw (eq→== t u (sym e)) refl) in
    let b = ne→== t main (λ e. n (sym e)) in
    subst (λ f. Way (joined main t f r) main (t ∷ u ∷ us) main) (sym s.path.0)
      (
        rw (eq→== main main refl) refl,
        rw (ne→== t u (λ e. m (sym e)), eq→== t t refl) refl,
        (
          rw (b, eq→== t t refl) refl,
          rw (eq→== u u refl) refl,
          Way-congr r (joined main t u r) u us main
              (λ x h.
                rw
                  (
                    ne→== x main (has-differ x main (u ∷ us) h s.distinct.0),
                    ne→== x t (has-differ x t (u ∷ us) h out),
                  )
                  refl)
              (λ x h. rw (ne→== x u (not_head x h), ne→== x t (not_new x h)) refl) s.path.2,
        ),
      )
  where
    not_head : (x : Ptr) → (has x us ≡ true) ⊎ (x ≡ main) → x ≢ u
    not_head x (inl k) = has-differ x u us k (s.distinct.1).0
    not_head x (inr k) = λ e. false≢true (sym s.distinct.0 ∙ rw (eq→== main u (sym k ∙ e)) refl)

    not_new : (x : Ptr) → (has x us ≡ true) ⊎ (x ≡ main) → x ≢ t
    not_new x (inl k) = has-differ x t (u ∷ us) (has-tail x u us k) out
    not_new x (inr k) = λ e. n (sym k ∙ e)

-- A tealet that is not in the ring is linked in behind the main one.
pub list_add-IsRing :
    (main t : Ptr) (ts : List Ptr) (r : Ring)
    → IsRing main ts r
    → has t (main ∷ ts) ≡ false
    → IsRing main (t ∷ ts) (list_add main t r)
list_add-IsRing main t ts r s o =
    let n : main ≢ t = λ e. false≢true (sym o ∙ rw (eq→== t main (sym e)) refl) in
    let out : has t ts ≡ false = ground (arith, o) in
    subst (IsRing main (t ∷ ts)) (sym (list_add_lem main t r n)) (record {
      path = joined-Way main t ts r s n out;
      distinct = (rw (ne→== main t n) s.distinct.0, (out, s.distinct.1));
    })

-- The two stores of TEALET_LIST_REMOVE, by what the pointers of `t` were.
abbrev bridge : Ptr → Ptr → Ring → Ring
bridge a b r = record { next = update r.next a b; prev = update r.prev b a }

list_remove_lem : (t : Ptr) (r : Ring) → list_remove t r ≡ bridge (r.prev t) (r.next t) r
unfolding list_remove
list_remove_lem t r = elim (Bool-cases (t == r.prev t)) [ inl e ↦ rw e refl | inr e ↦ rw e refl ]

-- The neighbours of a tealet on a path.
neighbours :
    (r : Ring) (t p : Ptr) (ts : List Ptr) (q : Ptr)
    → Way r p ts q
    → has t ts ≡ true
    → (has (r.prev t) (p ∷ ts) ≡ true) × ((has (r.next t) ts ≡ true) ⊎ (r.next t ≡ q))
neighbours r t p [] q h m = absurd (false≢true m)
neighbours r t p (x ∷ xs) q h m = elim (Bool-cases (t == x)) [
  | inl e ↦
      subst
        (λ k.
          (has (r.prev k) (p ∷ x ∷ xs) ≡ true)
          × ((has (r.next k) (x ∷ xs) ≡ true) ⊎ (r.next k ≡ q)))
        (sym (==→eq t x e)) (rw (eq→== _ _ h.1) refl, ahead x xs h.2)
  | inr e ↦
      let rest = neighbours r t x xs q h.2 (rw e at m) in
      (
        has-tail (r.prev t) p (x ∷ xs) rest.0,
        elim rest.1 [ inl k ↦ inl (has-tail (r.next t) x xs k) | inr k ↦ inr k ],
      )
]
  where
    ahead :
        (x : Ptr) (xs : List Ptr) → Way r x xs q → (has (r.next x) (x ∷ xs) ≡ true) ⊎ (r.next x ≡ q)
    ahead x [] h = inr h.0
    ahead x (y ∷ ys) h = inl (has-tail (r.next x) x (y ∷ ys) (rw (eq→== _ _ h.0) refl))

-- Where the path goes on behind a tealet that is cut out.
cut_head :
    (r : Ring) (p x : Ptr) (xs : List Ptr) (q : Ptr)
    → Way r p (x ∷ xs) q
    → Distinct (p ∷ x ∷ xs)
    → has q xs ≡ false
    → Way (bridge p (r.next x) r) p xs q
cut_head r p x [] q h d o =
    subst (λ b. Way (bridge p b r) p [] q) (sym h.2.0)
      (rw (eq→== p p refl) refl, rw (eq→== q q refl) refl)
cut_head r p x (y ∷ ys) q h d o =
    let out : has p (y ∷ ys) ≡ false = ground (arith, d.0) in
    subst (λ b. Way (bridge p b r) p (y ∷ ys) q) (sym h.2.0)
      (
        rw (eq→== p p refl) refl,
        rw (eq→== y y refl) refl,
        Way-congr r (bridge p y r) y ys q
            (λ z m. rw (ne→== z p (has-differ z p (y ∷ ys) m out)) refl)
            (λ z m.
              rw
                (ne→== z y (elim m [
                  | inl k ↦ has-differ z y ys k (d.1.1).0
                  | inr k ↦ λ e. false≢true (sym o ∙ rw (eq→== q y (sym k ∙ e)) refl)
                ]))
                refl)
            h.2.2,
      )

cut :
    (r : Ring) (t p : Ptr) (ts : List Ptr) (q : Ptr)
    → Way r p ts q
    → Distinct (p ∷ ts)
    → has q ts ≡ false
    → has t ts ≡ true
    → Way (bridge (r.prev t) (r.next t) r) p (erase t ts) q
cut r t p [] q h d o m = absurd (false≢true m)
cut r t p (x ∷ xs) q h d o m = elim (Bool-cases (x == t)) [
  | inl e ↦ rw e (
      subst (λ k. Way (bridge (r.prev k) (r.next k) r) p xs q) (==→eq x t e)
        (subst (λ a. Way (bridge a (r.next x) r) p xs q) (sym h.1)
          (cut_head r p x xs q h d (ground (arith, o)))))
  | inr e ↦
      let later : has t xs ≡ true = rw (ne→== t x (λ i. ==→ne x t e (sym i))) at m in
      let near = neighbours r t x xs q h.2 later in
      rw e (
        rw (ne→== p (r.prev t) (λ i. has-differ (r.prev t) p (x ∷ xs) near.0 d.0 (sym i))) h.0,
        rw
            (ne→== x (r.next t) (elim near.1 [
              | inl k ↦ λ i. has-differ (r.next t) x xs k (d.1).0 (sym i)
              | inr k ↦ λ i. false≢true (sym o ∙ rw (eq→== q x (sym (i ∙ k))) refl)
            ]))
            h.1,
        cut r t x xs q h.2 d.1 (ground (arith, o)) later,
      )
]

-- A tealet other than the main one is taken out of the ring.
pub list_remove-IsRing :
    (main t : Ptr) (ts : List Ptr) (r : Ring)
    → IsRing main ts r
    → has t ts ≡ true
    → IsRing main (erase t ts) (list_remove t r)
list_remove-IsRing main t ts r s m = rw (list_remove_lem t r) (record {
  path = cut r t main ts main s.path s.distinct s.distinct.0 m;
  distinct = (
    has-erase t main ts ((λ e. has-differ t main ts m s.distinct.0 (sym e))) ∙ s.distinct.0,
    erase-Distinct t ts s.distinct.1,
  );
})
