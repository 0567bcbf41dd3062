-- ===== src/System/Transfer.antt =====
-- tealet_switchstack on a domain between two calls.
use libtealet.Base.{
  ◌≡◌, ◌≢◌, refl, sym, ap, subst, ◌∙◌, ◌⊎◌, inl, inr, true, false, ◌<◌, ◌≤◌, Bool-cases, has,
}
use libtealet.Platform.{Ptr, null, Platform, IsDescending}
use libtealet.Domain.{Domain, is_error}
use libtealet.Stack.{is_defunct}
use libtealet.Integrity.{guard_unprotect_current, snapshot_verify_current}
use libtealet.Transfer.{Stackman, IsStackman, check_caller_is_current, switch_checked, switchstack}
use libtealet.Transfer.Suspend.{fail_ok}
use libtealet.Transfer.Switch.{Ready, switch-Switching}
use libtealet.System.{IsSound}
use libtealet.System.Switched.{core, core-IsSound, IsSound-Ready}
use libtealet.System.Guards.{essence, guard_unprotect-essence, snapshot_verify-essence}
use libtealet.System.Flags.{is_defunct-IsSound, is_defunct-false, is_defunct-rest}
use libtealet.System.Outcome.{Outcome, turned_down, finish-Outcome, Called}
use libtealet.System.Base.{base, base-Outcome}

module _ (pf : Platform) (law : IsDescending pf) (sm : Stackman) (doc : IsStackman sm)
    (target arg : Ptr) (d : Domain) (s : IsSound d) (c : Called d target) where
  -- After the checks of the stack have passed or not.
  abbrev pub checked : Domain
  checked = (snapshot_verify_current (guard_unprotect_current d)).1

  abbrev pub start : Domain
  start = record checked { previous = checked.current; target = target; arg = arg }

  pub checked-essence : essence checked ≡ essence d
  checked-essence = snapshot_verify-essence _ ∙ guard_unprotect-essence d

  kernel : core checked ≡ core d
  kernel = ap (λ x. (x.1, x.2, x.3, x.0.0, x.0.1, x.0.2)) checked-essence

  pub start-IsSound : IsSound start
  start-IsSound = core-IsSound d start kernel s

  pub start-Ready :
      (d.tealets target).stack ≢ null
      → (d.stacks (d.tealets target).stack).is_defunct ≡ false
      → Ready start
  start-Ready n alive =
      IsSound-Ready start start-IsSound
        (subst (λ x. (a : Ptr) → has a x.6 ≡ true → a ≢ null → (x.1 a).refcount ≡ 0)
          (sym checked-essence) c.fresh)
        (subst (λ x. x.5 < (x.2 x.0.2).stack_far) (sym checked-essence) c.inside)
        (λ e. c.other (e ∙ ap (λ x. x.0.2) checked-essence))
        (subst (λ x. (x.2 target).stack ≢ null) (sym checked-essence) n)
        (ap (λ x. (x.1 (x.2 target).stack).is_defunct) checked-essence ∙ alive)
        (subst
          (λ x.
            (fail_ok (record d { tealets = x.2; current = x.0.2; main = x.0.1 }) ≡ true)
            ⊎ ((x.1 (x.2 target).stack).refcount ≤ 1))
          (sym checked-essence) c.secure)

  same_base : base start ≡ base d
  same_base = ap (λ x. (x.2, x.1, x.4, x.5, x.0.2, x.0.1, x.0.6)) checked-essence

  checked-Outcome :
      (d.tealets target).stack ≢ null
      → (d.stacks (d.tealets target).stack).is_defunct ≡ false
      → Outcome d target arg (switch_checked pf sm target arg d)
  unfolding switch_checked
  checked-Outcome n alive =
      elim (Bool-cases (is_error (snapshot_verify_current (guard_unprotect_current d)).0)) [
        | inl e ↦ rw e (
            turned_down e refl (ap (λ x. x.4) checked-essence) (ap (λ x. x.5) checked-essence)
              (ap (λ x. x.1) checked-essence) (ap (λ x. x.0.2) checked-essence)
              (λ t. ap (λ x. (x.2 t).stack) checked-essence) (core-IsSound d _ kernel s))
        | inr e ↦ rw e (
            base-Outcome start d same_base target arg _ (
              finish-Outcome pf sm start start-IsSound (start-Ready n alive) d.previous _
                (switch-Switching pf start (start-Ready n alive) law sm doc)))
      ]

  -- A call of tealet_switchstack to another tealet that has been started, on a sound domain,
  -- with the stack pointer on the running tealet's stack and an allocator that hands out no
  -- block in use (and, if the transfer is forced, a target that does not share its stack), has
  -- one of three outcomes. The target runs, at its stack pointer and with the bytes of its
  -- stack back; every other suspended tealet has its bytes (or, in a forced transfer, has lost
  -- them and its stack is marked), so does the one that left, and the domain is sound again.
  -- Or an error is returned, with memory, the stack pointer, the saved stacks, the running
  -- tealet and who holds which stack as before (a target found defunct may be marked as such),
  -- in a sound domain. Or memory ran out, which leaves memory, the running tealet and who
  -- holds which stack as they were, and every stack the bytes it had (or, in a forced
  -- transfer, marked).
  pub switchstack-Outcome : Outcome d target arg (switchstack pf sm target arg d)
  unfolding switchstack
  switchstack-Outcome =
      let rest = is_defunct-rest target d in
      let down = is_defunct-IsSound target d s in
      elim (Bool-cases (d.tealets target).flags.exited) [
        | inl e ↦
            rw e (turned_down refl refl refl refl refl refl (λ t. refl) (core-IsSound d _ refl s))
        | inr e ↦ elim (Bool-cases (is_defunct target d).0) [
          | inl f ↦
              rw (e, f)
                (turned_down refl refl rest.0 rest.1 rest.2 rest.3 rest.4
                  (core-IsSound (is_defunct target d).1 _ refl down))
          | inr f ↦
              let (same, unmarked, alive) = is_defunct-false target d f in
              let saved = s.suspended target c.is_known c.other c.bound e unmarked in
              rw (e, f, same)
                (elim (Bool-cases (is_error (check_caller_is_current pf d))) [
                  | inl g ↦
                      rw g (
                        turned_down g refl refl refl refl refl (λ t. refl)
                          (core-IsSound d _ refl s))
                  | inr g ↦ rw g (checked-Outcome saved (alive saved))
                ])
        ]
      ]
