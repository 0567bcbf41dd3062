-- ===== src/System/Others.antt =====
-- What tealet_new, tealet_duplicate and tealet_delete leave of the suspended tealets.
use mathlib.Core.Bool.{false≢true}
use libtealet.Base.{
  ltb, ◌+◌, ◌-◌, ◌≡◌, ◌≢◌, refl, sym, ap, subst, ◌∙◌, inl, inr, true, ◌==◌, arith, Bool-cases,
  ==→eq, ==→ne, ne→==, has,
}
use libtealet.Platform.{Ptr, null, Platform}
use libtealet.Domain.{Domain, Stack, Tealet, no_flags, put_tealet, put_stack, freed_stack}
use libtealet.Stats.{malloc, sub_int, sub_stack}
use libtealet.Growth.Step.{chunk_decref-stats}
use libtealet.Stack.{dup_stack, stack_dup, stack_decref, stack_unlink}
use libtealet.Transfer.{free_tealet}
use libtealet.Api.{alloc, new, duplicate, delete, lock_auto}
use libtealet.System.{IsSound}
use libtealet.System.Switched.{core, core-IsSound, listed}
use libtealet.System.Joined.{lock_auto-core, unlock_auto-core}
use libtealet.System.Enrol.{IsUnused, allocated, shared, copy-core, copy-count}
use libtealet.System.Removed.{others_stack}
use libtealet.System.Delete.{delete-Removed}
use libtealet.System.Outcome.{IsSuspended}
use libtealet.System.Alike.{Alike, Alike-Kept, core-Alike, lock_auto-Alike, unlock_auto-Alike}
use libtealet.System.Kept.{Kept, Kept-trans, same-Kept}

alloc-mem : (pf : Platform) (d : Domain) → (alloc pf d).1.mem ≡ d.mem
unfolding alloc malloc
alloc-mem pf d = elim (Bool-cases ((malloc (pf.tealet_header + d.extrasize) d).0 == null)) [
  | inl f ↦ rw f refl
  | inr f ↦ rw f refl
]

module _ (pf : Platform) (d : Domain) (s : IsSound d) (unused : IsUnused d) where
  abbrev x : Domain
  x = lock_auto d

  abbrev y : Domain
  y = (alloc pf x).1

  abbrev p : Ptr
  p = (alloc pf x).0

  y_mem : y.mem ≡ d.mem
  y_mem = alloc-mem pf x ∙ (lock_auto-Alike d).mem

  -- A suspended tealet is not the new one.
  apart : (u : Ptr) → (d.tealets u).stack ≢ null → p ≢ null → u ≢ p
  apart u h n i = false≢true (
      sym ((allocated pf d s unused).1 n).unused
      ∙ (ap (λ c. has p c.3) (lock_auto-core d)
          ∙ subst (λ k. has k d.all ≡ true) i (listed d s u h)))

  old : (u : Ptr) → (d.tealets u).stack ≢ null → p ≢ null → y.tealets u ≡ d.tealets u
  old u h n =
      ((allocated pf d s unused).1 n).elsewhere u (apart u h n) ∙ ap (λ c. c.1 u) (lock_auto-core d)

  stacks_same : p ≢ null → y.stacks ≡ d.stacks
  stacks_same n = ((allocated pf d s unused).1 n).stacks ∙ ap (λ c. c.0) (lock_auto-core d)

  -- Without memory for the new tealet.
  denied : (d' : Domain) → p ≡ null → core d' ≡ core y → d'.mem ≡ y.mem → Alike d d'
  denied d' z c m =
      core-Alike d d' (c ∙ ((allocated pf d s unused).0 z ∙ lock_auto-core d)) (m ∙ y_mem)

  -- tealet_new leaves the suspended tealets alone.
  pub new-Kept : (u : Ptr) → IsSuspended d u → Kept d (new pf d).1 u
  unfolding new
  new-Kept u l = elim (Bool-cases (p == null)) [
    | inl e ↦ rw e (
        Alike-Kept d _ u (denied _ (==→eq p null e) (unlock_auto-core y) (unlock_auto-Alike y).mem)
          l)
    | inr e ↦
        let n = ==→ne p null e in
        let t = record (y.tealets p) { stack_far = null; stack = null; flags = no_flags } in
        let after = unlock_auto-Alike (put_tealet p t y) in
        rw e (
          same-Kept d _ u (d.stacks (d.tealets u).stack).refcount l (after.mem ∙ y_mem)
            (after.held u
              ∙ rw (ne→== u p (apart u l.0 n)) (ap (λ (z : Tealet). z.stack) (old u l.0 n)))
            l.1.0 (ap (λ f. f (d.tealets u).stack) (after.stacks ∙ stacks_same n)))
  ]

  shared_count :
      (t u : Ptr) (h : has t d.all ≡ true) (o : t ≢ d.current) (n : p ≢ null)
      → (shared pf d s unused t h o n) u
        ≡ record (d.stacks u) { refcount = ((shared pf d s unused t h o n) u).refcount }
  unfolding dup_stack
  shared_count t u h o n = elim (Bool-cases ((y.tealets t).stack == null)) [
    | inl f ↦ rw f (rw (stacks_same n) refl)
    | inr f ↦ elim (Bool-cases (u == (y.tealets t).stack)) [
      | inl e ↦
          rw (f, e)
            (ap (λ (z : Stack). record z { refcount = (y.stacks (y.tealets t).stack).refcount + 1 })
              (ap y.stacks (sym (==→eq u _ e)) ∙ ap (λ g. g u) (stacks_same n)))
      | inr e ↦ rw (f, e) (rw (stacks_same n) refl)
    ]
  ]

  duplicate-mem : (t : Ptr) → (duplicate pf t d).1.mem ≡ y.mem
  unfolding duplicate stack_dup
  duplicate-mem t = elim (Bool-cases (p == null)) [
    | inl e ↦ rw e (unlock_auto-Alike y).mem
    | inr e ↦ elim (Bool-cases ((y.tealets t).stack == null)) [
      | inl f ↦ rw (e, f) (unlock_auto-Alike (put_tealet p _ y)).mem
      | inr f ↦ rw (e, f) (unlock_auto-Alike (put_tealet p _ (stack_dup (y.tealets t).stack y))).mem
    ]
  ]

  -- tealet_duplicate leaves the suspended tealets alone, its original too.
  pub duplicate-Kept :
      (t u : Ptr)
      → has t d.all ≡ true
      → t ≢ d.current
      → IsSuspended d u
      → Kept d (duplicate pf t d).1 u
  unfolding duplicate
  duplicate-Kept t u h o l = elim (Bool-cases (p == null)) [
    | inl e ↦ rw e (
        Alike-Kept d _ u (denied _ (==→eq p null e) (unlock_auto-core y) (unlock_auto-Alike y).mem)
          l)
    | inr e ↦
        let n = ==→ne p null e in
        let c = copy-core pf d s unused t h o n in
        let j = (d.tealets u).stack in
        let count = copy-count pf d s unused t h o n j l.0 in
        let before = ap (λ k. (k.0 j).refcount) (lock_auto-core d) in
        same-Kept d (duplicate pf t d).1 u ((shared pf d s unused t h o n) j).refcount l
          (duplicate-mem t ∙ y_mem)
          (ap (λ k. (k.1 u).stack) c
            ∙ rw (ne→== u p (apart u l.0 n)) (ap (λ (z : Tealet). z.stack) (old u l.0 n)))
          (omega (arith, count, before, l.1.0)) (ap (λ k. k.0 j) c ∙ shared_count t j h o n)
  ]

stack_decref-mem : (pf : Platform) (q : Ptr) (d : Domain) → (stack_decref pf q d).mem ≡ d.mem
unfolding stack_decref stack_unlink
stack_decref-mem pf q d = elim (Bool-cases (q == null)) [
  | inl z ↦ rw z refl
  | inr n ↦ elim (Bool-cases (ltb 1 (d.stacks q).refcount)) [
    | inl e ↦ rw (n, e) refl
    | inr e ↦
        let (stats, same) = chunk_decref-stats pf (d.stacks q).rest (
          put_stack q freed_stack (record (stack_unlink q d) {
            stats = sub_stack (pf.stack_header + (d.stacks q).chunk.size) d.stats;
          })) in
        rw (n, e, same) refl
  ]
]

delete-mem : (pf : Platform) (t : Ptr) (d : Domain) → (delete pf t d).mem ≡ d.mem
unfolding delete free_tealet
delete-mem pf t d =
    let d1 = lock_auto d in
    let d2 = stack_decref pf (d1.tealets t).stack d1 in
    (unlock_auto-Alike (
      free_tealet pf t
        (record d2 { stats = record (d2.stats) { tealets = sub_int d2.stats.tealets 1 } }))).mem
    ∙ (stack_decref-mem pf (d1.tealets t).stack d1 ∙ (lock_auto-Alike d).mem)

-- tealet_delete leaves the other suspended tealets alone.
pub delete-Kept :
    (pf : Platform) (d : Domain) (t u : Ptr)
    → IsSound d
    → has t d.all ≡ true
    → t ≢ d.current
    → t ≢ d.main
    → IsSuspended d u
    → u ≢ t
    → Kept d (delete pf t d) u
delete-Kept pf d t u s h o m l n =
    let x = lock_auto d in
    let c = lock_auto-core d in
    let start = Alike-Kept d x u (lock_auto-Alike d) l in
    let i = start.suspended in
    let r = delete-Removed pf t d s h o m in
    let at = ap (λ (z : Tealet). z.stack) (r.elsewhere u n) in
    let mem = delete-mem pf t d ∙ sym (lock_auto-Alike d).mem in
    Kept-trans d x (delete pf t d) u start
      (elim (others_stack x (delete pf t d) t (core-IsSound d x c s) (ap (λ k. has t k.3) c ∙ h)
        (λ z. o (z ∙ ap (λ k. k.5) c)) (λ z. m (z ∙ ap (λ k. k.4) c)) r u n i.0) [
          | inl same ↦
              same-Kept x (delete pf t d) u (x.stacks (x.tealets u).stack).refcount i mem at i.1.0
                same
          | inr (same, more) ↦
              same-Kept x (delete pf t d) u ((x.stacks (x.tealets u).stack).refcount - 1) i mem at
                (omega arith) same
        ])
