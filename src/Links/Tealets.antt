-- ===== src/Links/Tealets.antt =====
-- The circular list of tealets of a domain, and the walks along it.
use mathlib.Core.Bool.{false≢true}
use libtealet.Base.{
  ℕ, zero, suc, ◌+◌, ◌≤◌, ◌≡◌, ◌≢◌, refl, sym, ap, subst, ◌∙◌, inl, inr, true, false, ◌||◌, List,
  [], ◌∷◌, ◌++◌, Option, none, some, ◌==◌, if◌then◌else◌, has, erase, length, arith, Bool-cases,
  ==→ne, eq→==, ne→==,
}
use libtealet.Platform.{Ptr, null, Platform}
use libtealet.Domain.{Domain}
use libtealet.Stats.{malloc, add_size}
use libtealet.Transfer.{free_tealet}
use libtealet.Api.{alloc}
use libtealet.Api.Setup.{initialize}
use libtealet.System.Enrol.{IsUnused, alloc-Allocated}
use libtealet.Report.{Report, report_walk, get_stats, stack_naive, stack_expanded}
use libtealet.Links.{Ring, ring_of_main, list_add, list_remove, walk_ring}
use libtealet.Links.Circle.{Way, IsRing, list_add-IsRing, list_remove-IsRing}

-- The do-while loop of tealet_get_stats, in at most `fuel` rounds.
unfoldable pub get_stats_by_ring : Platform → ℕ → Ring → Domain → Option Report
get_stats_by_ring pf fuel r d = elim (walk_ring fuel d.main d.main r) [
  | none ↦ none
  | some ts ↦
      let start : Report = record {
        counters = d.stats;
        stack_bytes_expanded = 0;
        stack_bytes_naive = 0;
      } in
      some (report_walk pf ts start d)
]

-- The pointers in `r` lead through the tealets of `d`, of which the main one comes last.
pub record IsLinked (r : Ring) (d : Domain) : Type 0 where
  pub others : List Ptr
  pub all : d.all ≡ others ++ (d.main ∷ [])
  pub ring : IsRing d.main others r

length-last : (ts : List Ptr) (m : Ptr) → length (ts ++ (m ∷ [])) ≡ suc (length ts)
length-last [] m = refl
length-last (t ∷ ts) m = omega (arith, length-last ts m)

-- The walk ends, after one round for each tealet.
walk_ring-Way :
    (fuel main p : Ptr) (ts : List Ptr) (r : Ring)
    → Way r p ts main
    → has main ts ≡ false
    → suc (length ts) ≤ fuel
    → walk_ring fuel main p r ≡ some (p ∷ ts)
unfolding walk_ring
walk_ring-Way zero main p ts r h o f = absurd (omega arith)
walk_ring-Way (suc fuel) main p [] r h o f = rw (eq→== _ _ h.0, walk_ring) refl
walk_ring-Way (suc fuel) main p (t ∷ ts) r h o f =
    let n : t == main ≡ false = ground (arith, o) in
    let rest = walk_ring-Way fuel main t ts r h.2 (ground (arith, o)) (omega arith) in
    rw
      (
        ap (λ k. k == main) h.0 ∙ n,
        walk_ring,
        subst (λ k. walk_ring fuel main k r ≡ some (t ∷ ts)) (sym h.0) rest,
      )
      refl

add_size_swap : (x a b : ℕ) → add_size (add_size x a) b ≡ add_size (add_size x b) a
add_size_swap x a b = omega arith

module _ (pf : Platform) (d : Domain) where
  abbrev report_step : Ptr → Report → Report
  report_step t r = if (d.tealets t).stack == null then r else record r {
    stack_bytes_naive =
        add_size r.stack_bytes_naive (stack_naive pf (d.stacks (d.tealets t).stack));
    stack_bytes_expanded =
        add_size r.stack_bytes_expanded (stack_expanded pf (d.stacks (d.tealets t).stack));
  }

  step_swap :
      (a b : Ptr) (r : Report) → report_step a (report_step b r) ≡ report_step b (report_step a r)
  step_swap a b r =
      let na = stack_naive pf (d.stacks (d.tealets a).stack) in
      let nb = stack_naive pf (d.stacks (d.tealets b).stack) in
      let ea = stack_expanded pf (d.stacks (d.tealets a).stack) in
      let eb = stack_expanded pf (d.stacks (d.tealets b).stack) in
      elim (Bool-cases ((d.tealets a).stack == null)) [
        | inl e ↦ rw e refl
        | inr e ↦ elim (Bool-cases ((d.tealets b).stack == null)) [
          | inl f ↦ rw (e, f) refl
          | inr f ↦
              rw (e, f)
                (λ i. record r {
                  stack_bytes_naive = add_size_swap r.stack_bytes_naive nb na i;
                  stack_bytes_expanded = add_size_swap r.stack_bytes_expanded eb ea i;
                })
        ]
      ]

  report_walk-last :
      (ts : List Ptr) (m : Ptr) (r : Report)
      → report_walk pf (ts ++ (m ∷ [])) r d ≡ report_walk pf (m ∷ ts) r d
  unfolding report_walk
  report_walk-last [] m r = refl
  report_walk-last (t ∷ ts) m r =
      report_walk-last ts m (report_step t r) ∙ ap (λ x. report_walk pf ts x d) (step_swap m t r)

  -- The do-while loop of tealet_get_stats along the pointers of the circular list ends, within
  -- as many rounds as there are tealets, and comes to the report over the list of all tealets.
  pub get_stats_by_ring-get_stats :
      (r : Ring) (fuel : ℕ)
      → IsLinked r d
      → length d.all ≤ fuel
      → get_stats_by_ring pf fuel r d ≡ some (get_stats pf d)
  unfolding get_stats_by_ring get_stats
  get_stats_by_ring-get_stats r fuel l enough =
      let rounds : suc (length l.others) ≤ fuel =
        omega (arith, ap (length {A = Ptr}) l.all, length-last l.others d.main) in
      let start : Report = record {
        counters = d.stats;
        stack_bytes_expanded = 0;
        stack_bytes_naive = 0;
      } in
      rw
        (
          walk_ring-Way fuel d.main d.main l.others r l.ring.path l.ring.distinct.0 rounds,
          get_stats_by_ring,
        )
        (ap some (
          sym (report_walk-last l.others d.main start)
          ∙ ap (λ ts. report_walk pf ts start d) (sym l.all)))

erase-last :
    (t m : Ptr) (ts : List Ptr)
    → t ≢ m
    → has t ts ≡ true
    → erase t (ts ++ (m ∷ [])) ≡ erase t ts ++ (m ∷ [])
erase-last t m [] n h = absurd (false≢true h)
erase-last t m (x ∷ xs) n h = elim (Bool-cases (x == t)) [
  | inl e ↦ rw e refl
  | inr e ↦ rw (e, erase-last t m xs n (rw (ne→== t x (λ i. ==→ne x t e (sym i))) at h)) refl
]

has-last : (t m : Ptr) (ts : List Ptr) → has t (ts ++ (m ∷ [])) ≡ (has t ts || t == m)
has-last t m [] = ground arith
has-last t m (x ∷ xs) = elim (Bool-cases (t == x)) [
  | inl e ↦ rw e refl
  | inr e ↦ rw e (has-last t m xs)
]

-- The list of all tealets after one has joined at its front, or left.
joined-IsLinked :
    (r : Ring) (d d' : Domain) (p : Ptr)
    → IsLinked r d
    → d'.all ≡ p ∷ d.all
    → d'.main ≡ d.main
    → has p d.all ≡ false
    → IsLinked (list_add d.main p r) d'
joined-IsLinked r d d' p l a m out = record {
  others = p ∷ l.others;
  all = a ∙ (ap (λ ts. p ∷ ts) l.all ∙ ap (λ x. p ∷ l.others ++ (x ∷ [])) (sym m));
  ring =
      subst (λ x. IsRing x (p ∷ l.others) (list_add d.main p r)) (sym m)
        (list_add-IsRing d.main p l.others r l.ring unused);
}
  where
    unused : has p (d.main ∷ l.others) ≡ false
    unused =
        let both = sym (has-last p d.main l.others) ∙ (sym (ap (has p) l.all) ∙ out) in
        ground (arith, both)

removed-IsLinked :
    (r : Ring) (d d' : Domain) (t : Ptr)
    → IsLinked r d
    → d'.all ≡ erase t d.all
    → d'.main ≡ d.main
    → has t d.all ≡ true
    → t ≢ d.main
    → IsLinked (list_remove t r) d'
removed-IsLinked r d d' t l a m h n = record {
  others = erase t l.others;
  all =
      a
      ∙ (ap (erase t) l.all
          ∙ (erase-last t d.main l.others n held ∙ ap (λ x. erase t l.others ++ (x ∷ [])) (sym m)));
  ring =
      subst (λ x. IsRing x (erase t l.others) (list_remove t r)) (sym m)
        (list_remove-IsRing d.main t l.others r l.ring held);
}
  where
    held : has t l.others ≡ true
    held =
        let both = sym (has-last t d.main l.others) ∙ (sym (ap (has t) l.all) ∙ h) in
        let apart = ne→== t d.main n in ground (arith, both, apart)

-- If the pointers lead through the tealets of the domain, forth and back, tealet_alloc that
-- had memory, with an allocator that hands out no block that is a tealet, and TEALET_LIST_ADD
-- leave pointers that lead through the tealets that there are then.
pub alloc-IsLinked :
    (pf : Platform) (r : Ring) (d : Domain)
    → IsLinked r d
    → IsUnused d
    → (alloc pf d).0 ≢ null
    → IsLinked (list_add d.main (alloc pf d).0 r) (alloc pf d).1
alloc-IsLinked pf r d l u n =
    let a = (alloc-Allocated pf d u).1 n in
    joined-IsLinked r d (alloc pf d).1 (alloc pf d).0 l a.all a.main a.unused

-- If the pointers lead through the tealets of the domain, forth and back, tealet_free_tealet
-- of a listed one other than the main tealet and TEALET_LIST_REMOVE leave pointers that lead
-- through those that remain.
pub free_tealet-IsLinked :
    (pf : Platform) (r : Ring) (d : Domain) (t : Ptr)
    → IsLinked r d
    → has t d.all ≡ true
    → t ≢ d.main
    → IsLinked (list_remove t r) (free_tealet pf t d)
unfolding free_tealet
free_tealet-IsLinked pf r d t l h n = removed-IsLinked r d (free_tealet pf t d) t l refl refl h n

-- tealet_initialize links the main tealet to itself.
pub initialize-IsLinked :
    (pf : Platform) (extrasize : ℕ) (stack_probe : Ptr) (r : Ring) (d : Domain)
    → (initialize pf extrasize stack_probe d).0 ≢ null
    → IsLinked
        (ring_of_main (initialize pf extrasize stack_probe d).0 r)
        (initialize pf extrasize stack_probe d).1
unfolding initialize ring_of_main
initialize-IsLinked pf extrasize stack_probe r d n =
    elim (Bool-cases ((malloc (pf.main_header + extrasize) d).0 == null)) [
      | inl e ↦ absurd ((rw e at n) refl)
      | inr e ↦ rw e (record {
        others = [];
        all = refl;
        ring = record {
          path = (rw (eq→== _ _ refl) refl, rw (eq→== _ _ refl) refl);
          distinct = (refl, tt);
        };
      })
    ]
