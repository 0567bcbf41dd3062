-- ===== src/System/Delete.antt =====
-- tealet_delete on a domain between two calls.
use mathlib.Core.Bool.{false≢true}
use libtealet.Base.{
  ◌+◌, ◌≡◌, ◌≢◌, refl, sym, ap, subst, ◌∙◌, inl, inr, true, ◌==◌, has, erase, arith, Bool-cases,
  ==→eq, ==→ne, eq→==, ne→==,
}
use libtealet.Platform.{Ptr, null, Platform}
use libtealet.Domain.{Domain, Tealet}
use libtealet.Stats.{sub_int}
use libtealet.Stack.{stack_decref}
use libtealet.Transfer.{free_tealet}
use libtealet.Transfer.Invariant.{Sliced, Nobody}
use libtealet.Api.{delete, lock_auto}
use libtealet.System.{holds, holders, IsSound}
use libtealet.System.Count.{holders_congr}
use libtealet.System.Switched.{core-IsSound}
use libtealet.System.Erase.{has-erase, has-erase_self, erase-Distinct, holders-erase}
use libtealet.System.Joined.{lock_auto-core, unlock_auto-core}
use libtealet.System.Removed.{
  Drop, nothing_held, still_held, given_back, stack_decref-Drop, Removed, removed-Sliced,
}

module _ (d d' : Domain) (t : Ptr) (s : IsSound d) (listed : has t d.all ≡ true)
    (other : t ≢ d.current) (not_main : t ≢ d.main) (r : Removed d d' t) where
  abbrev q : Ptr
  q = (d.tealets t).stack

  abbrev lo : Ptr
  lo = (d.tealets d.current).stack_far

  counted_less :
      (p : Ptr) → p ≢ null → (d'.stacks p).refcount + holds p (d.tealets t) ≡ (d.stacks p).refcount
  counted_less p n = elim r.drop [
    | nothing_held z same l ↦
        rw (ne→== q p (λ i. n (sym i ∙ z))) (omega (arith, ap (λ f. (f p).refcount) same))
    | still_held m more same l ↦ elim (Bool-cases (p == q)) [
      | inl e ↦
          rw (same, e, eq→== q p (sym (==→eq p q e)))
            (omega (arith, ap (λ i. (d.stacks i).refcount) (==→eq p q e)))
      | inr e ↦ rw (same, e, ne→== q p (λ i. ==→ne p q e (sym i))) (omega arith)
    ]
    | given_back m last same l ↦ elim (Bool-cases (p == q)) [
      | inl e ↦
          rw (same, e, eq→== q p (sym (==→eq p q e)))
            (omega (arith, ap (λ i. (d.stacks i).refcount) (==→eq p q e), (s.sliced.owned t m).0))
      | inr e ↦ rw (same, e, ne→== q p (λ i. ==→ne p q e (sym i))) (omega arith)
    ]
  ]

  counted_after : (p : Ptr) → p ≢ null → (d'.stacks p).refcount ≡ holders p d'.tealets d'.all
  counted_after p n =
      let rest : holders p d'.tealets (erase t d.all) ≡ holders p d.tealets (erase t d.all) =
        holders_congr p d.tealets d'.tealets (erase t d.all) (λ u h. ap (holds p) (
          r.elsewhere u (λ i. false≢true (
            sym (has-erase_self t d.all s.distinct)
            ∙ subst (λ k. has k (erase t d.all) ≡ true) i h)))) in
      omega (
        arith,
        counted_less p n,
        s.counted p n,
        rest,
        holders-erase p d.tealets t d.all listed,
        ap (holders p d'.tealets) r.all,
      )

  runner : d'.tealets d'.current ≡ d.tealets d.current
  runner = ap d'.tealets r.current ∙ r.elsewhere d.current (λ i. other (sym i))

  member : (u : Ptr) → u ≢ t → has u d'.all ≡ has u d.all
  member u n = ap (has u) r.all ∙ has-erase t u d.all n

  pub removed-IsSound : IsSound d'
  removed-IsSound = record {
    sliced =
        subst (λ x. Sliced x Nobody d') (ap (λ (x : Tealet). x.stack_far) (sym runner))
          (removed-Sliced d d' t s listed other not_main r);
    distinct = rw r.all (erase-Distinct t d.all s.distinct);
    no_null =
        member null
          (λ i. false≢true (sym s.no_null ∙ subst (λ k. has k d.all ≡ true) (sym i) listed))
        ∙ s.no_null;
    main_listed =
        ap (λ i. has i d'.all) r.main ∙ (member d.main (λ i. not_main (sym i)) ∙ s.main_listed);
    current_listed =
        ap (λ i. has i d'.all) r.current
        ∙ (member d.current (λ i. other (sym i)) ∙ s.current_listed);
    strangers = λ u h. elim (Bool-cases (u == t)) [
      | inl e ↦ ap (λ i. (d'.tealets i).stack) (==→eq u t e) ∙ ap (λ (x : Tealet). x.stack) r.gone
      | inr e ↦
          ap (λ (x : Tealet). x.stack) (r.elsewhere u (==→ne u t e))
          ∙ s.strangers u (sym (member u (==→ne u t e)) ∙ h)
    ];
    counted = counted_after;
    running = ap (λ (x : Tealet). x.stack) runner ∙ s.running;
    staying = λ u. elim (Bool-cases (u == t)) [
      | inl e ↦
          ap (λ i. (d'.tealets i).flags.exiting) (==→eq u t e)
          ∙ ap (λ (x : Tealet). x.flags.exiting) r.gone
      | inr e ↦ ap (λ (x : Tealet). x.flags.exiting) (r.elsewhere u (==→ne u t e)) ∙ s.staying u
    ];
    suspended = λ u h n b x f. elim (Bool-cases (u == t)) [
      | inl e ↦ absurd (
          false≢true (
            sym (
              ap (λ i. (d'.tealets i).flags.bound) (==→eq u t e)
              ∙ ap (λ (x : Tealet). x.flags.bound) r.gone)
            ∙ b))
      | inr e ↦
          let o = ==→ne u t e in
          let at = r.elsewhere u o in
          λ z.
            s.suspended u (sym (member u o) ∙ h) (λ i. n (i ∙ sym r.current))
              (ap (λ (x : Tealet). x.flags.bound) (sym at) ∙ b)
              (ap (λ (x : Tealet). x.flags.exited) (sym at) ∙ x)
              (ap (λ (x : Tealet). x.flags.is_defunct) (sym at) ∙ f)
              (ap (λ (x : Tealet). x.stack) (sym at) ∙ z)
    ];
  }

-- tealet_delete of a tealet that is neither the main one nor the running one leaves a sound
-- domain: its stack has one holder less, or is freed and out of the list of partial stacks.
module _ (pf : Platform) (t : Ptr) (d : Domain) (s : IsSound d) (listed : has t d.all ≡ true)
    (other : t ≢ d.current) (not_main : t ≢ d.main) where
  pub delete-Removed : Removed (lock_auto d) (delete pf t d) t
  unfolding delete free_tealet
  delete-Removed =
      let d1 = lock_auto d in
      let (drop, same, all, main, current) = stack_decref-Drop pf (d1.tealets t).stack d1 in
      let c = unlock_auto-core (
        free_tealet pf t (record (stack_decref pf (d1.tealets t).stack d1) {
          stats = record ((stack_decref pf (d1.tealets t).stack d1).stats) {
            tealets = sub_int (stack_decref pf (d1.tealets t).stack d1).stats.tealets 1;
          };
        })) in
      record {
        all = ap (λ k. k.3) c ∙ ap (erase t) all;
        main = ap (λ k. k.4) c ∙ main;
        current = ap (λ k. k.5) c ∙ current;
        gone = ap (λ k. k.1 t) c ∙ rw (eq→== t t refl) refl;
        elsewhere = λ u n. ap (λ k. k.1 u) c ∙ rw (ne→== u t n) (ap (λ f. f u) same);
        drop = subst (λ k. Drop d1 (d1.tealets t).stack k.0 k.2) (sym c) drop;
      }

  -- tealet_delete of a listed tealet that is neither the main one nor the running one leaves a
  -- sound domain sound. Measured from the state in the lock: it is off the list and freed, the
  -- other tealets are as they were, and its stack, if it has one, has one holder less if there
  -- are others, and is otherwise freed and taken out of `g_prev`.
  pub delete-IsSound : IsSound (delete pf t d) × Removed (lock_auto d) (delete pf t d) t
  delete-IsSound =
      let c = lock_auto-core d in
      (
        removed-IsSound (lock_auto d) (delete pf t d) t (core-IsSound d (lock_auto d) c s)
            (ap (λ k. has t k.3) c ∙ listed) (λ i. other (i ∙ ap (λ k. k.5) c))
            (λ i. not_main (i ∙ ap (λ k. k.4) c)) delete-Removed,
        delete-Removed,
      )
