-- ===== src/Examples/Panics.antt =====
-- Tealet 5 sends the panic signal to 7, which the main tealet made for later.
use libtealet.Base.{◌≢◌, refl, inl, true, false, none, arith}
use libtealet.Platform.{null}
use libtealet.Domain.{Domain}
use libtealet.Stats.{malloc}
use libtealet.Stack.{
  is_defunct, stack_grow, grown, stack_new, stack_link, stack_unlink, stack_decref, chunk_decref,
  stack_restore,
}
use libtealet.Growth.{
  stack_grow_list, stack_growto, grow_target, grow_to_stop, stack_saveto, truncate,
}
use libtealet.Integrity.{
  snapshot_verify_current, guard_unprotect_current, integrity_plan_for_current,
  snapshot_capture_current, guard_protect_current,
}
use libtealet.Transfer.{
  switchstack, abs_ptr_distance, check_caller_is_current, switch_checked, switch_finish,
  switch_ended, rearm, save_restore_cb, save_state, save_current, restore_state,
}
use libtealet.Api.Start.{run_resumed}
use libtealet.System.{IsSound}
use libtealet.System.Switched.{core-IsSound}
use libtealet.System.Outcome.{Called}
use libtealet.System.Panicked.{IsAstray, run_resumed_panic}
use libtealet.Examples.{
  domain, domain-IsFresh, platform, platform-IsDescending, stackman, stackman-IsStackman,
}
use libtealet.Examples.Life.{domain-IsSound}

abbrev alarmed : Domain
alarmed = record domain { flags = record domain.flags { main_panic = true } }

alarmed-IsSound : IsSound alarmed
alarmed-IsSound = core-IsSound domain alarmed refl domain-IsSound

alarmed-Called : Called alarmed 7
alarmed-Called = record {
  inside = omega arith;
  fresh = domain-IsFresh;
  other = λ e. absurd {A = _} (omega arith);
  is_known = refl;
  bound = refl;
  secure = inl refl;
}

went : (switchstack platform stackman 7 33 alarmed).1 ≢ none
unfolding switchstack is_defunct abs_ptr_distance check_caller_is_current switch_checked
    snapshot_verify_current guard_unprotect_current switch_finish switch_ended rearm
    integrity_plan_for_current snapshot_capture_current guard_protect_current save_restore_cb
    save_state save_current restore_state stack_grow_list stack_growto grow_target stack_unlink
    stack_saveto truncate grow_to_stop stack_grow grown stack_new stack_link stack_decref
    chunk_decref stack_restore malloc
went e = absurd (cc)

run_resumed_panic_example :
    IsAstray 1 (
      run_resumed platform stackman 7 1 null false none
        (switchstack platform stackman 7 33 alarmed))
run_resumed_panic_example =
    run_resumed_panic platform platform-IsDescending stackman stackman-IsStackman 7 33 1 null
      alarmed (λ e. absurd {A = _} (omega arith)) alarmed-IsSound alarmed-Called refl refl
      (λ e. absurd {A = _} (omega arith)) ((λ e. absurd {A = _} (omega arith)), (omega arith, refl))
      went
