-- ===== src/System/Exited.antt =====
-- tealet_switchstack as a whole, on a domain whose running tealet exits.
use libtealet.Base.{
  ◌≤◌, ◌<◌, ◌≡◌, ◌≢◌, refl, sym, ap, subst, ◌∙◌, ◌⊎◌, inl, inr, true, false, Bool-cases, arith,
}
use libtealet.Platform.{Ptr, null, Platform, IsDescending}
use libtealet.Domain.{Domain, Tealet, err_mem, err_inval, err_defunct, is_error}
use libtealet.Integrity.{guard_unprotect_current, snapshot_verify_current}
use libtealet.Stack.{is_defunct}
use libtealet.Transfer.{
  Stackman, IsStackman, check_caller_is_current, clear_panic, switch_checked, switchstack,
}
use libtealet.Transfer.Invariant.{IsLive}
use libtealet.Transfer.Suspend.{fail_ok}
use libtealet.Transfer.Left.{Parts, switch-Parting}
use libtealet.System.{IsSound}
use libtealet.System.Flags.{is_defunct-false, is_defunct-rest}
use libtealet.System.Guards.{essence, guard_unprotect-essence, snapshot_verify-essence}
use libtealet.System.Left.{calmed, calmed-stack, calmed-other}
use libtealet.System.Outcome.{Called}
use libtealet.System.Steady.{Steady-trans, essence-Steady, is_defunct-Steady}
use libtealet.System.Exiting.{calmed_slices, is_defunct-calmed}
use libtealet.System.Replaced.{Exiting, declined, same-Declined}
use libtealet.System.Exit.{unmoved, finish-Exiting}
use libtealet.System.Switched.{core, core-IsSound, held_twice}

-- The checks do not run out of memory.
pub snapshot_verify-code : (d : Domain) → (snapshot_verify_current d).0 ≢ err_mem
unfolding snapshot_verify_current
snapshot_verify-code d e = ground (arith, e)

pub check_caller-code : (pf : Platform) (d : Domain) → check_caller_is_current pf d ≢ err_mem
unfolding check_caller_is_current
check_caller-code pf d e = ground (arith, e)

module _ (pf : Platform) (law : IsDescending pf) (sm : Stackman) (doc : IsStackman sm)
    (target arg : Ptr) (d : Domain) (s : IsSound (calmed d)) (c : Called d target)
    (leaves : (d.tealets d.current).flags.exiting ≡ true) (not_main : d.current ≢ d.main) where
  checked : Domain
  checked = (snapshot_verify_current (guard_unprotect_current d)).1

  abbrev start : Domain
  start = record checked { previous = checked.current; target = target; arg = arg }

  checked-essence : essence checked ≡ essence d
  unfolding checked
  checked-essence = snapshot_verify-essence _ ∙ guard_unprotect-essence d

  start-essence :
      essence (record start { previous = d.previous; target = d.target; arg = d.arg }) ≡ essence d
  start-essence =
      ap
        (λ x.
          ((x.0.0, x.0.1, x.0.2, d.target, d.previous, d.arg, x.0.6), x.1, x.2, x.3, x.4, x.5, x.6))
        checked-essence

  calmed_kernel : core (calmed checked) ≡ core (calmed d)
  calmed_kernel =
      ap
        (λ x. core (
          calmed (record d {
            stacks = x.1;
            tealets = x.2;
            prev = x.3;
            all = x.0.0;
            main = x.0.1;
            current = x.0.2;
          })))
        checked-essence

  start-IsSound : IsSound (calmed start)
  start-IsSound = core-IsSound (calmed d) (calmed start) calmed_kernel s

  -- Somebody else who holds the target's stack is counted.
  sole :
      (t : Ptr)
      → (d.tealets target).stack ≢ null
      → t ≢ target
      → (d.tealets t).stack ≡ (d.tealets target).stack
      → 1 < (d.stacks (d.tealets target).stack).refcount
  sole t n o e =
      let at = calmed-stack d in
      subst (λ p. 1 < (d.stacks p).refcount) (at target)
        (held_twice (calmed d) s target t (λ z. n (sym (at target) ∙ z)) o
          (at t ∙ (e ∙ sym (at target))))

  start-Parts :
      (d.tealets target).stack ≢ null
      → (d.stacks (d.tealets target).stack).is_defunct ≡ false
      → Parts start
  start-Parts n alive =
      let e = checked-essence in
      let own = (calmed_slices d s).owned target n in
      record {
        sliced = calmed_slices start start-IsSound;
        leaves = ap (λ x. (x.2 x.0.2).flags.exiting) e ∙ leaves;
        bare = ap (λ x. (x.2 x.0.2).stack) e ∙ (sym (calmed-stack d d.current) ∙ s.running);
        other = λ i. c.other (i ∙ ap (λ x. x.0.2) e);
        is_saved = subst (λ x. (x.2 target).stack ≢ null) (sym e) n;
        live = subst (λ x. IsLive (x.1 (x.2 target).stack)) (sym e) (own.0, alive);
        secure =
            subst
              (λ x.
                (fail_ok (record d { tealets = x.2; current = x.0.2; main = x.0.1 }) ≡ true)
                ⊎ ((x.1 (x.2 target).stack).refcount ≤ 1))
              (sym e) c.secure;
        sole =
            subst
              (λ x.
                (t : Ptr)
                → t ≢ target
                → (x.2 t).stack ≡ (x.2 target).stack
                → 1 < (x.1 (x.2 target).stack).refcount)
              (sym e) (λ t o i. sole t n o i);
      }

  checked-Exiting :
      (d.tealets target).stack ≢ null
      → (d.stacks (d.tealets target).stack).is_defunct ≡ false
      → Exiting d target arg (switch_checked pf sm target arg d)
  unfolding switch_checked checked
  checked-Exiting n alive =
      elim (Bool-cases (is_error (snapshot_verify_current (guard_unprotect_current d)).0)) [
        | inl e ↦ rw e (
            declined (
              same-Declined d (clear_panic checked) target _ e
                (snapshot_verify-code (guard_unprotect_current d))
                (Steady-trans d checked _ (essence-Steady d checked checked-essence)
                  (unmoved checked))
                (ap (λ x. x.1) checked-essence) (core-IsSound (calmed d) _ calmed_kernel s)))
        | inr e ↦ rw e (
            finish-Exiting pf sm d start start-IsSound start-essence (start-Parts n alive)
              (λ i.
                not_main
                  (sym (ap (λ x. x.0.2) checked-essence) ∙ (i ∙ ap (λ x. x.0.1) checked-essence)))
              d.previous _ (switch-Parting pf start (start-Parts n alive) law sm doc))
      ]

  -- A call of tealet_switchstack by a tealet that exits and is not the main one, to another
  -- tealet that has been started, under the conditions that one has that goes on living. Either
  -- the target runs, at its stack pointer and with the bytes of its stack back, every other
  -- suspended tealet has its bytes (or, in a forced transfer, has lost them and its stack is
  -- marked), the one that left has no stack and is marked as exited or freed, and the domain is
  -- sound; or an error is returned, nobody has moved, and once the exit is taken back the domain
  -- is sound too. That error says that memory ran out only if nobody forces the transfer, or
  -- the main tealet's stack is in the list of partial ones and, if it is the target's, shared.
  pub switchstack-Exiting : Exiting d target arg (switchstack pf sm target arg d)
  unfolding switchstack
  switchstack-Exiting =
      let rest = is_defunct-rest target d in
      let steady = is_defunct-Steady target d in
      elim (Bool-cases (d.tealets target).flags.exited) [
        | inl e ↦ rw e (
            declined (
              same-Declined d (clear_panic d) target err_inval refl (λ e. absurd (cc)) (unmoved d)
                refl (core-IsSound (calmed d) _ refl s)))
        | inr e ↦ elim (Bool-cases (is_defunct target d).0) [
          | inl f ↦
              rw (e, f)
                (declined (
                  same-Declined d (clear_panic (is_defunct target d).1) target err_defunct refl
                    (λ e. absurd (cc)) (Steady-trans d _ _ steady (unmoved (is_defunct target d).1))
                    rest.2
                    (core-IsSound (calmed (is_defunct target d).1) _ refl
                      (is_defunct-calmed target d s))))
          | inr f ↦
              let (same, unmarked, alive) = is_defunct-false target d f in
              let at = calmed-other d target c.other in
              let held =
                s.suspended target c.is_known c.other
                  (ap (λ (x : Tealet). x.flags.bound) at ∙ c.bound)
                  (ap (λ (x : Tealet). x.flags.exited) at ∙ e)
                  (ap (λ (x : Tealet). x.flags.is_defunct) at ∙ unmarked) in
              let saved : (d.tealets target).stack ≢ null = λ z. held (calmed-stack d target ∙ z) in
              rw (e, f, same)
                (elim (Bool-cases (is_error (check_caller_is_current pf d))) [
                  | inl g ↦ rw g (
                      declined (
                        same-Declined d (clear_panic d) target _ g (check_caller-code pf d)
                          (unmoved d) refl (core-IsSound (calmed d) _ refl s)))
                  | inr g ↦ rw g (checked-Exiting saved (alive saved))
                ])
        ]
      ]
