-- ===== src/Transfer.antt =====
-- The transfer of control: tealet_save_state, tealet_restore_state, tealet_save_restore_cb,
-- tealet_check_caller_is_current, tealet_switchstack and tealet_free_tealet of src/tealet.c.
-- stackman_switch is a parameter. A result is what the C function returns in the context that
-- runs after it, which is another one where the switch succeeds.
pub mod Invariant
pub mod Save
pub mod Suspend
pub mod Leave
pub mod Left
pub mod Resume
pub mod Switch
pub mod Run
use libtealet.Base.{
  ℕ, ◌+◌, ◌-◌, Bool, true, false, not, ◌&&◌, ◌||◌, List, [], ◌∷◌, Option, none, some, ltb, leb,
  ◌==◌, if◌then◌else◌, erase, ◌≡◌,
}
use libtealet.Platform.{Ptr, null, Platform}
use libtealet.Domain.{
  Domain, Tealet, TealetFlags, Code, done, save_only, err_mem, err_defunct, err_inval, err_panic,
  is_error, SwitchState, sw_nop, sw_restore, sw_err, XferFlags, put_tealet, set_flags, freed_tealet,
}
use libtealet.Stats.{sub_alloc, sub_int}
use libtealet.Stack.{stack_restore, stack_decref, stack_link, is_defunct}
use libtealet.Growth.{stack_grow_list, stack_saveto}
use libtealet.Integrity.{
  integrity_plan_for_current, guard_unprotect_current, guard_protect_current,
  snapshot_capture_current, snapshot_verify_current,
}

-- The two calls that stackman makes of the callback.
pub data Opcode : Type 0 where
  op_save op_restore : Opcode

pub record Stackman : Type 0 where
  pub switch : (Opcode → Ptr → Domain → Ptr × Domain) → Domain → Domain

-- What stackman documents: it calls the callback with the stack pointer, moves to the one that
-- the callback answers, and calls it again there.
pub record IsStackman (sm : Stackman) : Type 0 where
  pub switch_lem :
      (cb : Opcode → Ptr → Domain → Ptr × Domain) (d : Domain)
      → sm.switch cb d
        ≡ (let (sp, d') = cb op_save d.sp d in (cb op_restore sp (record d' { sp = sp })).1)

-- ua > ub ? ua - ub : ub - ua
unfoldable pub abs_ptr_distance : Ptr → Ptr → ℕ
abs_ptr_distance a b = if ltb b a then a - b else b - a

module _ (pf : Platform) where
  unfoldable pub free_tealet : Ptr → Domain → Domain
  free_tealet t d = record d {
    previous = if d.previous == t then null else d.previous;
    all = erase t d.all;
    stats = sub_alloc (pf.tealet_header + d.extrasize) d.stats;
    tealets = (put_tealet t freed_tealet d).tealets;
  }

  -- The current tealet is leaving for good: its stack is not saved.
  unfoldable pub save_exiting : Domain → Domain
  unfolding free_tealet
  save_exiting d0 =
      let t = d0.tealets d0.current in
      let f = t.flags in
      let d =
        set_flags d0.current
          (record f { exiting = false; autodelete = false; saveforce = false; exited = true }) d0 in
      if f.autodelete
      then free_tealet d.current
          (record d { stats = record (d.stats) { tealets = sub_int d.stats.tealets 1 } })
      else put_tealet d.current (record (d.tealets d.current) { stack = null }) d

  -- The current tealet is suspended: whether it could be, and the state.
  unfoldable pub save_current : (sp target_stop : Ptr) → (fail_ok : Bool) → Domain → Bool × Domain
  save_current sp target_stop fail_ok d0 =
      let (stack, full, d) = stack_saveto pf sp (d0.tealets d0.current).stack_far target_stop d0 in
      let t = d.tealets d.current in
      if stack == null
      then (if fail_ok
          then (false, d)
          else (true, set_flags d.current (record (t.flags) { is_defunct = true }) d))
      else (
        true,
        (let d' = put_tealet d.current (record t { stack = stack }) d in
            if full then d' else stack_link stack d'),
      )

  unfoldable pub save_state : (sp : Ptr) → Domain → Bool × Domain
  unfolding save_exiting save_current
  save_state sp d0 =
      let target_stop = (d0.tealets d0.target).stack_far in
      let f = (d0.tealets d0.current).flags in
      let d1 = set_flags d0.current (record f { saveforce = false }) d0 in
      let fail_ok = not f.saveforce || d0.current == d0.main in
      let (fail, d) =
        stack_grow_list pf d1.prev target_stop (d1.tealets d1.target).stack fail_ok d1 in
      if is_error fail
      then (false, d)
      else (if f.exiting then (true, save_exiting d) else save_current sp target_stop fail_ok d)

  unfoldable pub restore_state : Domain → Domain
  restore_state d0 =
      let p = (d0.tealets d0.target).stack in
      let d = stack_decref pf p (record d0 { mem = stack_restore (d0.stacks p) d0.mem }) in
      put_tealet d.target (record (d.tealets d.target) { stack = null }) d

  -- The second component of a first call that saves only is the stack pointer as it was.
  unfoldable pub save_restore_cb : Opcode → Ptr → Domain → Ptr × Domain
  unfolding save_state restore_state
  save_restore_cb op_save sp d0 =
      let (ok, d) = save_state sp d0 in
      let p = (d.tealets d.target).stack in
      if not ok
      then (sp, record d { sw = sw_err })
      else (if p == null
          then (sp, record d { sw = sw_nop })
          else ((d.stacks p).chunk.stack_near, record d { sw = sw_restore }))
  save_restore_cb op_restore sp d = elim d.sw [
    | sw_restore ↦ (null, restore_state d)
    | sw_err ↦ (1, d)
    | sw_nop ↦ (null, d)
  ]

  unfoldable pub check_caller_is_current : Domain → Code
  unfolding abs_ptr_distance
  check_caller_is_current d =
      let far = (d.tealets d.current).stack_far in
      let limit = d.settings.max_stack_size in
      if not (far == pf.furthest)
      then (if not (pf.sp_ls d.probe far)
          then err_inval
          else (if not (limit == 0) && ltb limit (abs_ptr_distance far d.probe)
              then err_inval
              else done))
      else (if not (limit == 0)
            && (not (d.main_stack_probe == null)
                && ltb limit (abs_ptr_distance d.main_stack_probe d.probe))
          then err_inval
          else done)

  -- The guard and the snapshot are set up for whoever runs now.
  unfoldable pub rearm : Domain → Domain
  rearm d = guard_protect_current (snapshot_capture_current pf (integrity_plan_for_current pf d))

abbrev pub clear_panic : Domain → Domain
clear_panic d = record d { flags = record (d.flags) { main_panic = false } }

module _ (pf : Platform) (sm : Stackman) where
  -- What follows the switch in the context that runs then, by what the callback left in g_sw.
  -- `old_previous` is read on failure only.
  unfoldable pub switch_ended :
      (old_previous : Ptr) → SwitchState → Domain → Code × Option Ptr × Domain
  unfolding rearm
  switch_ended old_previous sw_err d0 = (
    err_mem,
    none,
    clear_panic (rearm pf (record d0 { previous = old_previous; target = null; arg = null })),
  )
  switch_ended old_previous sw_nop d0 =
      let d = rearm pf (record d0 { current = d0.target; target = null; arg = null }) in
      (if d.flags.main_panic then err_panic else save_only, some d0.arg, clear_panic d)
  switch_ended old_previous sw_restore d0 =
      let d = rearm pf (record d0 { current = d0.target; target = null; arg = null }) in
      (if d.flags.main_panic then err_panic else done, some d0.arg, clear_panic d)

  unfoldable pub switch_finish : (old_previous : Ptr) → Domain → Code × Option Ptr × Domain
  unfolding switch_ended
  switch_finish old_previous d = switch_ended old_previous d.sw d

  -- The checks before the switch, and the switch.
  unfoldable pub switch_checked : (target in_arg : Ptr) → Domain → Code × Option Ptr × Domain
  unfolding switch_finish
  switch_checked target in_arg d0 =
      let (integrity, d) = snapshot_verify_current (guard_unprotect_current d0) in
      let start = record d { previous = d.current; target = target; arg = in_arg } in
      if is_error integrity
      then (integrity, none, clear_panic d)
      else switch_finish d0.previous (sm.switch (save_restore_cb pf) start)

  -- The result, the argument that was passed over (if a switch took place) and the state.
  unfoldable pub switchstack : (target in_arg : Ptr) → Domain → Code × Option Ptr × Domain
  unfolding switch_checked
  switchstack target in_arg d0 =
      let (defunct, d) = is_defunct target d0 in
      let caller = check_caller_is_current pf d in
      if (d0.tealets target).flags.exited
      then (err_inval, none, clear_panic d0)
      else (if defunct
          then (err_defunct, none, clear_panic d)
          else (if is_error caller
              then (caller, none, clear_panic d)
              else switch_checked target in_arg d))
