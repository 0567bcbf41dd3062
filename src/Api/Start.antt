-- ===== src/Api/Start.antt =====
-- tealet_initialstub, tealet_run and tealet_fork of src/tealet.c.
--
-- A start ends in one of two ways: the function returns to its caller, or the new tealet calls the
-- function it was given, on the same C stack. What that function does is not modelled. The
-- tealet that a start makes for later comes back from its own tealet_switchstack, in its own frame of
-- tealet_run: `run_resumed`. What tealet_fork does after tealet_switchstack, `fork_ended`, is the
-- same whenever that returns: after the save, in the parent or in the child, with the locals of the
-- frame.
use libtealet.Base.{
  ◌≡◌, Bool, true, false, not, ◌&&◌, ◌||◌, Option, none, some, ◌==◌, if◌then◌else◌,
}
use libtealet.Platform.{Ptr, null, Platform}
use libtealet.Domain.{
  Domain, Tealet, TealetFlags, no_flags, any_flag, Code, done, save_only, err_mem, err_defunct,
  err_unforkable, err_inval, err_integrity, err_panic, abort_process, is_error, put_tealet,
  set_flags,
}
use libtealet.Transfer.{Stackman, switchstack}
use libtealet.Api.{lock_auto, unlock_auto}
use libtealet.Api.Setup.{pick_initial_far}

-- `returned` has the result and what is stored in *parg, if anything is; `entered` has the
-- argument of the function that the new tealet runs.
pub data Start : Type 0 where
  returned : Code → Option Ptr → Domain → Start
  entered : Option Ptr → Domain → Start

unfoldable pub is_save_only : Code → Bool
is_save_only save_only = true
is_save_only done = false
is_save_only err_mem = false
is_save_only err_defunct = false
is_save_only err_unforkable = false
is_save_only err_inval = false
is_save_only err_integrity = false
is_save_only err_panic = false
is_save_only abort_process = false

unfoldable pub is_panic : Code → Bool
is_panic err_panic = true
is_panic save_only = false
is_panic done = false
is_panic err_mem = false
is_panic err_defunct = false
is_panic err_unforkable = false
is_panic err_inval = false
is_panic err_integrity = false
is_panic abort_process = false

-- A tealet that was not started after all is NEW again.
abbrev pub new_again : Ptr → Domain → Domain
new_again p d =
    put_tealet p (record (d.tealets p) { stack_far = null; stack = null; flags = no_flags }) d

-- What follows the switch in tealet_initialstub, with `initial` the argument read before it.
unfoldable pub stub_switched :
    (run_on_switch : Bool) → (initial : Option Ptr) → Code × Option Ptr × Domain → Start
unfolding is_save_only is_panic unlock_auto
stub_switched run_on_switch initial (result, out, d) =
    let runs = if run_on_switch then is_save_only result else not (is_save_only result) in
    if is_error result
    then returned result (if run_on_switch && is_panic result then out else none) d
    else (if runs
        then entered (if run_on_switch then initial else out) (unlock_auto d)
        else returned done (if run_on_switch then out else none) d)

-- With TEALET_TFLAGS_BOUND set.
abbrev bound_flags : TealetFlags → TealetFlags
bound_flags f = record f { bound = true }

module _ (pf : Platform) (sm : Stackman) where
  unfoldable pub initialstub :
      (new target : Ptr) → (initial : Option Ptr) → (stack_far : Ptr) → Domain → Start
  unfolding stub_switched
  initialstub new target initial stack_far d = stub_switched (new == target) initial (
      switchstack pf sm target null
        (put_tealet new (record (d.tealets new) { stack_far = stack_far }) d))

  -- What tealet_run does with what tealet_initialstub returns.
  unfoldable pub run_ended : (p current previous : Ptr) → (switch_now : Bool) → Start → Start
  unfolding unlock_auto
  run_ended p current previous switch_now (entered arg d) = entered arg d
  run_ended p current previous switch_now (returned result out d) =
      let failed = new_again p d in
      if is_error result
      then returned result out
          (unlock_auto (if switch_now then failed else record failed { current = current }))
      else returned done out
          (unlock_auto (if switch_now then d else record d { previous = previous }))

  -- A later return of tealet_switchstack in the frame of such a call, that a transfer to the
  -- suspended tealet brings back: in the new tealet, or in the caller that let it run at once.
  unfoldable pub run_resumed :
      (p current previous : Ptr)
      → (switch_now : Bool) → (initial : Option Ptr) → Code × Option Ptr × Domain
      → Start
  unfolding stub_switched run_ended
  run_resumed p current previous switch_now initial r =
      run_ended p current previous switch_now (stub_switched switch_now initial r)

  -- `default_far` is the address of a parameter, `arg` what *parg holds (NULL without parg).
  unfoldable pub run :
      (p : Ptr) → (arg : Ptr) → (default_far stack_far : Ptr) → (switch_now : Bool) → Domain → Start
  unfolding lock_auto initialstub run_ended pick_initial_far
  run p arg default_far stack_far switch_now d0 =
      let far = pick_initial_far pf default_far stack_far in
      let d = lock_auto (set_flags p (bound_flags (d0.tealets p).flags) d0) in
      if any_flag (d0.tealets p).flags
      then returned err_inval none d0
      else run_ended p d0.current d.previous switch_now (
          if switch_now
          then initialstub p p (some arg) far d
          else initialstub p d0.current none far (record d { current = p }))

  -- The result of tealet_fork, whose *parg is what tealet_switchstack stores.
  unfoldable pub fork_ended :
      (child current previous : Ptr)
      → (switch_now : Bool) → Code × Option Ptr × Domain
      → Code × Option Ptr × Domain
  unfolding is_save_only unlock_auto
  fork_ended child current previous switch_now (result, out, d) =
      let failed = new_again child d in
      if is_error result
      then (
        result,
        out,
        unlock_auto (if switch_now then failed else record failed { current = current }),
      )
      else (
        done,
        out,
        unlock_auto
            (if not switch_now && is_save_only result then record d { previous = previous } else d),
      )

  -- The child with the parent's far boundary, bound, in the lock.
  unfoldable pub fork_staged : (child : Ptr) → Domain → Domain
  unfolding lock_auto
  fork_staged child d0 =
      let parent = d0.tealets d0.current in
      let f = (d0.tealets child).flags in
      let flags = record f {
        is_fork = true;
        bound = true;
        main_lineage = f.main_lineage || parent.flags.main_lineage;
      } in
      lock_auto (
        put_tealet child (record (d0.tealets child) { stack_far = parent.stack_far; flags = flags })
          d0)

  unfoldable pub fork_switched :
      (child current : Ptr) → (switch_now : Bool) → Domain → Code × Option Ptr × Domain
  fork_switched child current switch_now d =
      if switch_now
      then switchstack pf sm child null d
      else switchstack pf sm current null (record d { current = child })

  unfoldable pub fork : (child : Ptr) → (switch_now : Bool) → Domain → Code × Option Ptr × Domain
  unfolding fork_staged fork_switched fork_ended
  fork child switch_now d0 =
      let d = fork_staged child d0 in
      if any_flag (d0.tealets child).flags
      then (err_inval, none, d0)
      else (if (d0.tealets d0.current).stack_far == pf.furthest
          then (err_unforkable, none, d0)
          else fork_ended child d0.current d.previous switch_now
              (fork_switched child d0.current switch_now d))

-- NEW: nothing is set.
abbrev pub IsNew : Tealet → Type 0
IsNew t = (t.stack ≡ null) × (t.stack_far ≡ null) × (t.flags ≡ no_flags)
