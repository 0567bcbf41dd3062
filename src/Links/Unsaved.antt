-- ===== src/Links/Unsaved.antt =====
-- The list of stacks from `g_prev` on, as tealet_stack_link and tealet_stack_unlink keep it.
use mathlib.Core.Bool.{false≢true}
use libtealet.Base.{
  ◌≡◌, ◌≢◌, refl, sym, ap, subst, ◌∙◌, ◌⊎◌, inl, inr, true, false, List, [], ◌∷◌, Option, none,
  some, ◌==◌, if◌then◌else◌, has, Distinct, erase, arith, Bool-cases, ==→eq, ==→ne, eq→==, ne→==,
}
use libtealet.Platform.{Ptr, null}
use libtealet.Domain.{Domain}
use libtealet.Stack.{stack_link, stack_unlink}
use libtealet.System.Erase.{has-erase, erase-Distinct}
use libtealet.Links.{
  Slot, head, next_of, same_slot, Chain, store, store_back, set_back, chain_link, chain_unlink,
}
use libtealet.Links.Circle.{has-differ, has-tail}

-- From the pointer at `s` through the stacks to NULL; each stack has the address of the pointer
-- that leads to it.
abbrev pub Chained : Chain → Slot → List Ptr → Type 0
Chained c s [] = c.at s ≡ null
Chained c s (p ∷ ps) = (c.at s ≡ p) × (p ≢ null) × (c.prev p ≡ some s) × Chained c (next_of p) ps

Chained-congr :
    (c c' : Chain) (s : Slot) (ps : List Ptr)
    → c'.at s ≡ c.at s
    → ((x : Ptr) → has x ps ≡ true → c'.at (next_of x) ≡ c.at (next_of x))
    → ((x : Ptr) → has x ps ≡ true → c'.prev x ≡ c.prev x)
    → Chained c s ps
    → Chained c' s ps
Chained-congr c c' s [] a b e h = a ∙ h
Chained-congr c c' s (p ∷ ps) a b e h =
    let here : has p (p ∷ ps) ≡ true = rw (eq→== p p refl) refl in
    (
      a ∙ h.0,
      h.1,
      e p here ∙ h.2,
      Chained-congr c c' (next_of p) ps (b p here) (λ x m. b x (has-tail x p ps m))
          (λ x m. e x (has-tail x p ps m)) h.3,
    )

same_slot_refl : (s : Slot) → same_slot s s ≡ true
same_slot_refl head = refl
same_slot_refl (next_of p) = eq→== p p refl

same_slot_sym : (a b : Slot) → same_slot a b ≡ same_slot b a
same_slot_sym head head = refl
same_slot_sym head (next_of q) = refl
same_slot_sym (next_of p) head = refl
same_slot_sym (next_of p) (next_of q) = elim (Bool-cases (p == q)) [
  | inl e ↦ rw (e, eq→== q p (sym (==→eq p q e))) refl
  | inr e ↦ rw (e, ne→== q p (λ i. ==→ne p q e (sym i))) refl
]

-- What tealet_stack_link makes, by what `g_prev` was.
abbrev in_front : Ptr → Ptr → Chain → Chain
in_front p b c =
    let c1 = store (next_of p) b c in
    store head p
      (set_back p (some head) (if b == null then c1 else set_back b (some (next_of p)) c1))

chain_link_lem : (p : Ptr) (c : Chain) → chain_link p c ≡ in_front p (c.at head) c
unfolding chain_link
chain_link_lem p c = rw (eq→== p p refl) refl

in_front-Chained :
    (p : Ptr) (ps : List Ptr) (c : Chain)
    → Chained c head ps
    → p ≢ null
    → Distinct (p ∷ ps)
    → Chained (in_front p (c.at head) c) head (p ∷ ps)
in_front-Chained p [] c h n d =
    subst (λ b. Chained (in_front p b c) head (p ∷ [])) (sym h)
      (refl, n, rw (eq→== p p refl) refl, rw (eq→== p p refl) refl)
in_front-Chained p (u ∷ us) c h n d =
    let m : u ≢ p = λ e. false≢true (sym d.0 ∙ rw (eq→== p u (sym e)) refl) in
    subst (λ b. Chained (in_front p b c) head (p ∷ u ∷ us)) (sym h.0)
      (
        refl,
        n,
        rw (eq→== p p refl) refl,
        (
          rw (ne→== u null h.1, eq→== p p refl) refl,
          h.1,
          rw (ne→== u p m, ne→== u null h.1, eq→== u u refl) refl,
          Chained-congr c (in_front p u c) (next_of u) us (rw (ne→== u null h.1, ne→== u p m) refl)
              (λ x k.
                rw (ne→== u null h.1, ne→== x p (has-differ x p (u ∷ us) (has-tail x u us k) d.0))
                  refl)
              (λ x k.
                rw
                  (
                    ne→== x p (has-differ x p (u ∷ us) (has-tail x u us k) d.0),
                    ne→== u null h.1,
                    ne→== x u (has-differ x u us k (d.1).0),
                  )
                  refl)
              h.3,
        ),
      )

-- A stack that is not in the list is linked in at its front.
chain_link-Chained :
    (p : Ptr) (ps : List Ptr) (c : Chain)
    → Chained c head ps
    → p ≢ null
    → Distinct (p ∷ ps)
    → Chained (chain_link p c) head (p ∷ ps)
chain_link-Chained p ps c h n d =
    subst (λ x. Chained x head (p ∷ ps)) (sym (chain_link_lem p c)) (in_front-Chained p ps c h n d)

-- What tealet_stack_unlink makes, by what followed the stack.
abbrev bypass : Ptr → Ptr → Option Slot → Chain → Chain
bypass p b s c = set_back p none (store_back s b (if b == null then c else set_back b s c))

chain_unlink_lem :
    (p : Ptr) (c : Chain) → chain_unlink p c ≡ bypass p (c.at (next_of p)) (c.prev p) c
unfolding chain_unlink
chain_unlink_lem p c = elim (Bool-cases (c.at (next_of p) == null)) [
  | inl e ↦ rw e refl
  | inr e ↦ elim (Bool-cases (p == c.at (next_of p))) [
    | inl f ↦ rw (e, f) refl
    | inr f ↦ rw (e, f) refl
  ]
]

-- No pointer of one of these stacks is the one at `s`.
abbrev IsOutside : Slot → List Ptr → Type 0
IsOutside s ps = (x : Ptr) → has x ps ≡ true → same_slot (next_of x) s ≡ false

-- The pointer that leads to a stack of the list, and the one that it holds.
neighbours :
    (c : Chain) (s : Slot) (ps : List Ptr) (p : Ptr)
    → Chained c s ps
    → has p ps ≡ true
    → ((c.prev p ≡ some s) ⊎ ((y : Ptr) × (c.prev p ≡ some (next_of y)) × (has y ps ≡ true)))
      × ((c.at (next_of p) ≡ null) ⊎ (has (c.at (next_of p)) ps ≡ true))
neighbours c s [] p h m = absurd (false≢true m)
neighbours c s (x ∷ xs) p h m = elim (Bool-cases (p == x)) [
  | inl e ↦
      subst
        (λ k.
          ((c.prev k ≡ some s)
            ⊎ ((y : Ptr) × (c.prev k ≡ some (next_of y)) × (has y (x ∷ xs) ≡ true)))
          × ((c.at (next_of k) ≡ null) ⊎ (has (c.at (next_of k)) (x ∷ xs) ≡ true)))
        (sym (==→eq p x e)) (inl h.2, ahead x xs h.3)
  | inr e ↦
      let rest = neighbours c (next_of x) xs p h.3 (rw e at m) in
      (
        inr (elim rest.0 [
          | inl k ↦ (x, k, rw (eq→== x x refl) refl)
          | inr (y, k, l) ↦ (y, k, has-tail y x xs l)
        ]),
        elim rest.1 [ inl k ↦ inl k | inr k ↦ inr (has-tail _ x xs k) ],
      )
]
  where
    ahead :
        (x : Ptr) (xs : List Ptr)
        → Chained c (next_of x) xs
        → (c.at (next_of x) ≡ null) ⊎ (has (c.at (next_of x)) (x ∷ xs) ≡ true)
    ahead x [] h = inl h
    ahead x (y ∷ ys) h = inr (has-tail _ x (y ∷ ys) (rw (eq→== _ _ h.0) refl))

-- The stack at the front is bypassed.
bypass_head :
    (c : Chain) (s : Slot) (p : Ptr) (ps : List Ptr)
    → Chained c s (p ∷ ps)
    → Distinct (p ∷ ps)
    → IsOutside s (p ∷ ps)
    → Chained (bypass p (c.at (next_of p)) (some s) c) s ps
bypass_head c s p [] h d o =
    subst (λ b. Chained (bypass p b (some s) c) s []) (sym h.3) (rw (same_slot_refl s) refl)
bypass_head c s p (u ∷ us) h d o =
    let m : u ≢ p = λ e. false≢true (sym d.0 ∙ rw (eq→== p u (sym e)) refl) in
    let b = ne→== u null h.3.1 in
    subst (λ b. Chained (bypass p b (some s) c) s (u ∷ us)) (sym h.3.0)
      (
        rw (same_slot_refl s) refl,
        h.3.1,
        rw (ne→== u p m, b, eq→== u u refl) refl,
        Chained-congr c (bypass p u (some s) c) (next_of u) us
            (rw (b, o u (has-tail u p (u ∷ us) (rw (eq→== u u refl) refl))) refl)
            (λ x k. rw (b, o x (has-tail x p (u ∷ us) (has-tail x u us k))) refl)
            (λ x k.
              rw
                (
                  ne→== x p (has-differ x p (u ∷ us) (has-tail x u us k) d.0),
                  b,
                  ne→== x u (has-differ x u us k (d.1).0),
                )
                refl)
            h.3.3,
      )

-- The pointer at `k` is not the one that `back` names.
abbrev Differs : Slot → Option Slot → Type 0
Differs k none = Unit
Differs k (some a) = same_slot k a ≡ false

-- A pointer that does not lead to `p` is left alone, and so is the `prev` of a stack that does
-- not follow `p`.
bypass-at :
    (c : Chain) (p b : Ptr) (back s : Option Slot) (k : Slot)
    → Differs k back
    → (set_back p none (store_back back b (if b == null then c else set_back b s c))).at k ≡ c.at k
bypass-at c p b none s k n = elim (Bool-cases (b == null)) [ inl e ↦ rw e refl | inr e ↦ rw e refl ]
bypass-at c p b (some a) s k n = elim (Bool-cases (b == null)) [
  | inl e ↦ rw (n, e) refl
  | inr e ↦ rw (n, e) refl
]

bypass-prev :
    (c : Chain) (p b : Ptr) (s : Option Slot) (x : Ptr)
    → x ≢ p
    → (b ≡ null) ⊎ (x ≢ b)
    → (bypass p b s c).prev x ≡ c.prev x
bypass-prev c p b none x n m = elim (Bool-cases (b == null)) [
  | inl e ↦ rw (ne→== x p n, e) refl
  | inr e ↦ elim m [
    | inl z ↦ absurd (==→ne b null e z)
    | inr o ↦ rw (ne→== x p n, e, ne→== x b o) refl
  ]
]
bypass-prev c p b (some a) x n m = elim (Bool-cases (b == null)) [
  | inl e ↦ rw (ne→== x p n, e) refl
  | inr e ↦ elim m [
    | inl z ↦ absurd (==→ne b null e z)
    | inr o ↦ rw (ne→== x p n, e, ne→== x b o) refl
  ]
]

bypassed :
    (c : Chain) (s : Slot) (ps : List Ptr) (p : Ptr)
    → Chained c s ps
    → Distinct ps
    → IsOutside s ps
    → has p ps ≡ true
    → Chained (bypass p (c.at (next_of p)) (c.prev p) c) s (erase p ps)
bypassed c s [] p h d o m = absurd (false≢true m)
bypassed c s (x ∷ xs) p h d o m = elim (Bool-cases (x == p)) [
  | inl e ↦ rw e (
      subst (λ k. Chained (bypass k (c.at (next_of k)) (c.prev k) c) s xs) (==→eq x p e)
        (subst (λ b. Chained (bypass x (c.at (next_of x)) b c) s xs) (sym h.2)
          (bypass_head c s x xs h d o)))
  | inr e ↦
      let n : x ≢ p = ==→ne x p e in
      let later : has p xs ≡ true = rw (ne→== p x (λ i. n (sym i))) at m in
      let near = neighbours c (next_of x) xs p h.3 later in
      rw e (
        bypass-at c p (c.at (next_of p)) (c.prev p) (c.prev p) s (apart near.0) ∙ h.0,
        h.1,
        bypass-prev c p (c.at (next_of p)) (c.prev p) x n
              (elim near.1 [ inl z ↦ inl z | inr k ↦ inr (λ i. has-differ _ x xs k d.0 (sym i)) ])
            ∙ h.2,
        bypassed c (next_of x) xs p h.3 d.1 (λ y k. ne→== y x (has-differ y x xs k d.0)) later,
      )
]
  where
    away : (y : Ptr) → has y (x ∷ xs) ≡ true → same_slot s (next_of y) ≡ false
    away y k = same_slot_sym s (next_of y) ∙ o y k

    apart :
        ((c.prev p ≡ some (next_of x))
          ⊎ ((y : Ptr) × (c.prev p ≡ some (next_of y)) × (has y xs ≡ true)))
        → Differs s (c.prev p)
    apart (inl k) = subst (Differs s) (sym k) (away x (rw (eq→== x x refl) refl))
    apart (inr (y, k, l)) = subst (Differs s) (sym k) (away y (has-tail y x xs l))

-- A stack is taken out of the list wherever it stands, and its `prev` is NULL again.
chain_unlink-Chained :
    (p : Ptr) (ps : List Ptr) (c : Chain)
    → Chained c head ps
    → Distinct ps
    → has p ps ≡ true
    → Chained (chain_unlink p c) head (erase p ps) × ((chain_unlink p c).prev p ≡ none)
chain_unlink-Chained p ps c h d m =
    subst (λ x. Chained x head (erase p ps) × (x.prev p ≡ none)) (sym (chain_unlink_lem p c))
      (bypassed c head ps p h d (λ x k. refl) m, rw (eq→== p p refl) refl)

-- The pointers in `c` are those of the list of `d`; a stack that is not in it has no `prev`,
-- which is what the code tests.
pub record IsThreaded (c : Chain) (d : Domain) : Type 0 where
  pub chained : Chained c head d.prev
  pub distinct : Distinct d.prev
  pub loose : (j : Ptr) → has j d.prev ≡ false → c.prev j ≡ none

pub stack_link-IsThreaded :
    (p : Ptr) (c : Chain) (d : Domain)
    → IsThreaded c d
    → p ≢ null
    → has p d.prev ≡ false
    → IsThreaded (chain_link p c) (stack_link p d)
unfolding stack_link
stack_link-IsThreaded p c d t n o = record {
  chained = chain_link-Chained p d.prev c t.chained n (o, t.distinct);
  distinct = (o, t.distinct);
  loose = λ j h. ap (λ (x : Chain). x.prev j) (chain_link_lem p c) ∙ still_loose j h;
}
  where
    first : (ps : List Ptr) → Chained c head ps → (c.at head ≡ null) ⊎ (has (c.at head) ps ≡ true)
    first [] h = inl h
    first (x ∷ xs) h = inr (rw (eq→== _ _ h.0) refl)

    still_loose : (j : Ptr) → has j (p ∷ d.prev) ≡ false → (in_front p (c.at head) c).prev j ≡ none
    still_loose j h =
        let out : has j d.prev ≡ false = ground (arith, h) in
        let n : j ≢ p = λ i. false≢true (sym h ∙ rw (eq→== j p i) refl) in
        elim (Bool-cases (c.at head == null)) [
          | inl e ↦ rw (ne→== j p n, e) (t.loose j out)
          | inr e ↦ elim (first d.prev t.chained) [
            | inl z ↦ absurd (==→ne _ null e z)
            | inr k ↦
                rw
                  (
                    ne→== j p n,
                    e,
                    ne→== j (c.at head) (λ i. has-differ (c.at head) j d.prev k out (sym i)),
                  )
                  (t.loose j out)
          ]
        ]

-- If the pointers from `g_prev` on lead through the stacks of the list, each of which has the
-- address of the pointer that leads to it, and all other stacks have no `prev`, then so it is
-- after tealet_stack_unlink of a stack of the list, wherever it stood.
pub stack_unlink-IsThreaded :
    (p : Ptr) (c : Chain) (d : Domain)
    → IsThreaded c d
    → has p d.prev ≡ true
    → IsThreaded (chain_unlink p c) (stack_unlink p d)
unfolding stack_unlink
stack_unlink-IsThreaded p c d t m =
    let both = chain_unlink-Chained p d.prev c t.chained t.distinct m in
    record {
      chained = both.0;
      distinct = erase-Distinct p d.prev t.distinct;
      loose = λ j h. elim (Bool-cases (j == p)) [
        | inl e ↦ ap (chain_unlink p c).prev (==→eq j p e) ∙ both.1
        | inr e ↦
            let n = ==→ne j p e in
            let out : has j d.prev ≡ false = sym (has-erase p j d.prev n) ∙ h in
            ap (λ (x : Chain). x.prev j) (chain_unlink_lem p c)
            ∙ (bypass-prev c p (c.at (next_of p)) (c.prev p) j n
                  (elim (neighbours c head d.prev p t.chained m).1 [
                    | inl z ↦ inl z
                    | inr k ↦ inr (λ i. has-differ _ j d.prev k out (sym i))
                  ])
                ∙ t.loose j out)
      ];
    }
