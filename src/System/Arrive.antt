-- ===== src/System/Arrive.antt =====
-- A forced transfer that memory cannot hold up.
use mathlib.Core.Bool.{false≢true}
use libtealet.Base.{
  ◌≤◌, ◌<◌, ◌≡◌, ◌≢◌, refl, sym, ap, subst, ◌∙◌, ◌⊎◌, inl, inr, Bool, true, false, if◌then◌else◌,
  has, arith, Bool-cases,
}
use libtealet.Platform.{Ptr, null, Platform, IsDescending}
use libtealet.Domain.{
  Domain, Code, done, save_only, err_mem, err_defunct, err_unforkable, err_inval, err_integrity,
  err_panic, abort_process, is_error,
}
use libtealet.Growth.Walked.{main_stack}
use libtealet.Integrity.{guard_unprotect_current, snapshot_verify_current}
use libtealet.Stack.{is_defunct}
use libtealet.Transfer.{Stackman, IsStackman, check_caller_is_current, switch_checked, switchstack}
use libtealet.Transfer.Suspend.{fail_ok, save_state_forced}
use libtealet.Transfer.Switch.{switch_forced}
use libtealet.System.{IsSound}
use libtealet.System.Exited.{snapshot_verify-code, check_caller-code}
use libtealet.System.Flags.{is_defunct-false}
use libtealet.System.Guards.{essence}
use libtealet.System.Outcome.{Called, restored-Resumed}
use libtealet.System.Kept.{Outcome-IsSound}
use libtealet.System.Transfer.{
  switchstack-Outcome, checked, start, checked-essence, start-IsSound, start-Ready,
}

abbrev is_memory : Code → Bool
is_memory c = elim c [
  | err_mem ↦ true
  | done ↦ false
  | save_only ↦ false
  | err_defunct ↦ false
  | err_unforkable ↦ false
  | err_inval ↦ false
  | err_integrity ↦ false
  | err_panic ↦ false
  | abort_process ↦ false
]

panic_or_done : (b : Bool) → (if b then err_panic else done) ≢ err_mem
panic_or_done true e = absurd (cc)
panic_or_done false e = absurd (cc)

not_memory : (c : Code) → is_memory c ≡ false → c ≢ err_mem
not_memory c h e = false≢true (sym h ∙ ap is_memory e)

module _ (pf : Platform) (law : IsDescending pf) (sm : Stackman) (doc : IsStackman sm)
    (target arg : Ptr) (d : Domain) (s : IsSound d) (c : Called d target)
    (forced : fail_ok d ≡ false)
    (way : (has (main_stack d) d.prev ≡ false)
      ⊎ ((target ≡ d.main) × ((d.stacks (main_stack d)).refcount ≤ 1))) where
  abbrev begin : Domain
  begin = start pf law sm doc target arg d s c

  same : essence (checked pf law sm doc target arg d s c) ≡ essence d
  same = checked-essence pf law sm doc target arg d s c

  begin_forced : fail_ok begin ≡ false
  begin_forced =
      ap (λ x. fail_ok (record d { tealets = x.2; current = x.0.2; main = x.0.1 })) same ∙ forced

  -- The main tealet's stack needs no memory.
  enough :
      has (main_stack begin) begin.prev ≡ true
      → (main_stack begin ≡ (begin.tealets target).stack
          → 1 < (begin.stacks (main_stack begin)).refcount)
      → ⊥
  enough h shared = elim way [
    | inl out ↦ false≢true (sym out ∙ subst (λ x. has (x.2 x.0.1).stack x.3 ≡ true) same h)
    | inr (at, alone) ↦
        let more : 1 < (begin.stacks (main_stack begin)).refcount =
          shared (ap (λ i. (begin.tealets i).stack) (ap (λ x. x.0.1) same ∙ sym at)) in
        let few : 1 < (d.stacks (main_stack d)).refcount =
          subst (λ x. 1 < (x.1 (x.2 x.0.1).stack).refcount) same more in
        absurd {A = _} (omega (arith, alone))
  ]

  goes :
      (d.tealets target).stack ≢ null
      → (d.stacks (d.tealets target).stack).is_defunct ≡ false
      → (switch_checked pf sm target arg d).0 ≢ err_mem
  unfolding switch_checked
  goes n alive e =
      let ready = start-Ready pf law sm doc target arg d s c n alive in
      let all =
        save_state_forced pf law begin ready.sliced ready.fresh ready.inside ready.stays ready.other
          begin_forced enough in
      let sound = start-IsSound pf law sm doc target arg d s c in
      let went =
        restored-Resumed pf sm begin sound ready d.previous _
          (switch_forced pf begin ready law sm doc all) in
      elim (Bool-cases (is_error (snapshot_verify_current (guard_unprotect_current d)).0)) [
        | inl f ↦ snapshot_verify-code (guard_unprotect_current d) (rw f at e)
        | inr f ↦ panic_or_done _ (sym went.code ∙ rw f at e)
      ]

  memory_held : (switchstack pf sm target arg d).0 ≢ err_mem
  unfolding switchstack
  memory_held e = elim (Bool-cases (d.tealets target).flags.exited) [
    | inl x ↦ not_memory err_inval refl (rw x at e)
    | inr x ↦ elim (Bool-cases (is_defunct target d).0) [
      | inl f ↦ not_memory err_defunct refl (rw (x, f) at e)
      | inr f ↦
          let (alike, unmarked, alive) = is_defunct-false target d f in
          let saved = s.suspended target c.is_known c.other c.bound x unmarked in
          elim (Bool-cases (is_error (check_caller_is_current pf d))) [
            | inl g ↦ check_caller-code pf d (rw (x, f, alike, g) at e)
            | inr g ↦ goes saved (alive saved) (rw (x, f, alike, g) at e)
          ]
    ]
  ]

  -- A forced transfer by tealet_switchstack from a tealet other than the main one that goes on
  -- living, on a sound domain and called as `Called` asks, where the main tealet's stack is
  -- not in `g_prev`, or is the target's and shared with nobody: it does not report that memory
  -- ran out, and leaves a sound domain.
  pub switchstack_forced :
      ((switchstack pf sm target arg d).0 ≢ err_mem) × IsSound (switchstack pf sm target arg d).2
  switchstack_forced = (
    memory_held,
    Outcome-IsSound d target arg (switchstack pf sm target arg d) memory_held
        (switchstack-Outcome pf law sm doc target arg d s c),
  )
