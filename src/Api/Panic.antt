-- ===== src/Api/Panic.antt =====
-- tealet_switchstack and the panic signal, and what it does when it refuses.
use libtealet.Base.{◌≡◌, refl, ◌⊎◌, inl, inr, true, false, not, ◌&&◌, List, none, ◌==◌, Bool-cases}
use libtealet.Platform.{Ptr, null, Platform}
use libtealet.Domain.{Domain, Stack, is_error, SwitchState, sw_nop, sw_restore, sw_err}
use libtealet.Stack.{is_defunct}
use libtealet.Memory.{Mem}
use libtealet.Integrity.{guard_unprotect_current, snapshot_verify_current}
use libtealet.Transfer.{
  Stackman, check_caller_is_current, switch_finish, switch_checked, switchstack,
}

switch_finish-calm :
    (pf : Platform) (sm : Stackman) (old : Ptr) (d : Domain)
    → (switch_finish pf sm old d).2.flags.main_panic ≡ false
unfolding switch_finish
switch_finish-calm pf sm old d = go d.sw refl
  where
    go : (s : SwitchState) → d.sw ≡ s → (switch_finish pf sm old d).2.flags.main_panic ≡ false
    go sw_err e = rw e refl
    go sw_nop e = rw e refl
    go sw_restore e = rw e refl

switch_checked-calm :
    (pf : Platform) (sm : Stackman) (target arg : Ptr) (d : Domain)
    → (switch_checked pf sm target arg d).2.flags.main_panic ≡ false
unfolding switch_checked
switch_checked-calm pf sm target arg d =
    elim (Bool-cases (is_error (snapshot_verify_current (guard_unprotect_current d)).0)) [
      | inl e ↦ rw e refl
      | inr e ↦ rw e (switch_finish-calm pf sm d.previous _)
    ]

-- Whatever becomes of a transfer, the panic signal of the main tealet is gone when
-- tealet_switchstack returns.
pub switchstack-calm :
    (pf : Platform) (sm : Stackman) (target arg : Ptr) (d : Domain)
    → (switchstack pf sm target arg d).2.flags.main_panic ≡ false
unfolding switchstack
switchstack-calm pf sm target arg d = elim (Bool-cases (d.tealets target).flags.exited) [
  | inl e ↦ rw e refl
  | inr e ↦ elim (Bool-cases (is_defunct target d).0) [
    | inl f ↦ rw (e, f) refl
    | inr f ↦ elim (Bool-cases (is_error (check_caller_is_current pf (is_defunct target d).1))) [
      | inl g ↦ rw (e, f, g) refl
      | inr g ↦ rw (e, f, g) (switch_checked-calm pf sm target arg (is_defunct target d).1)
    ]
  ]
]

-- Why tealet_switchstack turns a transfer down before anything is saved.
abbrev pub IsRefused : Platform → Ptr → Domain → Type 0
IsRefused pf target d =
    ((d.tealets target).flags.exited ≡ true)
    ⊎ ((is_defunct target d).0 ≡ true)
    ⊎ (is_error (check_caller_is_current pf (is_defunct target d).1) ≡ true)

-- Memory, the saved stacks, their list and the current tealet.
abbrev pub state_of : Domain → Mem × (Ptr → Stack) × List Ptr × Ptr
state_of d = (d.mem, d.stacks, d.prev, d.current)

is_defunct-state : (target : Ptr) (d : Domain) → state_of (is_defunct target d).1 ≡ state_of d
unfolding is_defunct
is_defunct-state target d = elim (Bool-cases (d.tealets target).flags.is_defunct) [
  | inl e ↦ rw e refl
  | inr e ↦
      elim (Bool-cases (
        not ((d.tealets target).stack == null) && (d.stacks (d.tealets target).stack).is_defunct)) [
          | inl f ↦ rw (e, f) refl
          | inr f ↦ rw (e, f) refl
        ]
]

-- A transfer to a tealet that has exited or is defunct, or from a caller that does not stand
-- on the current tealet's stack, returns an error, passes no argument over, and leaves memory,
-- the saved stacks, their list and the current tealet as they are.
pub switchstack_refused :
    (pf : Platform) (sm : Stackman) (target arg : Ptr) (d : Domain)
    → IsRefused pf target d
    → (is_error (switchstack pf sm target arg d).0 ≡ true)
      × ((switchstack pf sm target arg d).1 ≡ none)
      × (state_of (switchstack pf sm target arg d).2 ≡ state_of d)
unfolding switchstack
switchstack_refused pf sm target arg d why = elim (Bool-cases (d.tealets target).flags.exited) [
  | inl e ↦ rw e (refl, refl, refl)
  | inr e ↦ elim (Bool-cases (is_defunct target d).0) [
    | inl f ↦ rw (e, f) (refl, refl, is_defunct-state target d)
    | inr f ↦ elim why [
      | inl e' ↦ absurd (cc)
      | inr (inl f') ↦ absurd (cc)
      | inr (inr g) ↦ rw (e, f, g) (g, refl, is_defunct-state target d)
    ]
  ]
]
