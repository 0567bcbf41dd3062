-- ===== src/Api.antt =====
-- The public functions of src/tealet.c on tealets: tealet_alloc, tealet_new, tealet_duplicate,
-- tealet_delete, tealet_status, tealet_get_stacksize, tealet_set_far, tealet_xfer_inner,
-- tealet_switch, tealet_exit, tealet_reset_peak_stats and the automatic locking.

pub mod Lifecycle
pub mod Panic
pub mod Setup
pub mod Start
pub mod Finish
pub mod Query
use libtealet.Base.{
  ℕ, ◌+◌, Bool, true, false, not, ◌&&◌, ◌||◌, List, ◌∷◌, Option, none, some, ◌==◌, if◌then◌else◌,
}
use libtealet.Platform.{Ptr, null, Platform}
use libtealet.Domain.{
  Domain, Tealet, TealetFlags, no_flags, XferFlags, xfer_default, Stats, Code, done, save_only,
  err_mem, err_defunct, err_unforkable, err_inval, err_integrity, abort_process, err_panic,
  is_error, Event, locked, unlocked, put_tealet, set_flags,
}
use libtealet.Stats.{add_alloc, add_int, sub_int, malloc}
use libtealet.Stack.{stack_dup, stack_decref, is_defunct}
use libtealet.Transfer.{Stackman, free_tealet, switchstack}

unfoldable pub lock_auto : Domain → Domain
lock_auto d = if d.locking.auto && d.locking.lock then record d { log = locked ∷ d.log } else d

unfoldable pub unlock_auto : Domain → Domain
unlock_auto d =
    if d.locking.auto && d.locking.unlock then record d { log = unlocked ∷ d.log } else d

-- TEALET_STATUS_*
pub data Status : Type 0 where
  status_active status_exited status_defunct status_new : Status

unfoldable pub status : Ptr → Domain → Status × Domain
unfolding is_defunct
status p d0 =
    let (defunct, d) = is_defunct p d0 in
    let f = (d0.tealets p).flags in
    if not f.bound
    then (status_new, d0)
    else (if f.exited
        then (status_exited, d0)
        else (if defunct then (status_defunct, d) else (status_active, d)))

unfoldable pub get_stacksize : Ptr → Domain → ℕ × Domain
unfolding is_defunct
get_stacksize p d0 =
    let (defunct, d) = is_defunct p d0 in
    if defunct
    then (0, d)
    else (if (d.tealets p).stack == null then (0, d) else ((d.stacks (d.tealets p).stack).saved, d))

-- Only the main tealet has a far boundary that can be set.
unfoldable pub set_far : Ptr → (far : Ptr) → Domain → Code × Domain
set_far p far d =
    if p == d.main
    then (done, put_tealet p (record (d.tealets p) { stack_far = far }) d)
    else (err_inval, d)

unfoldable pub reset_peak_stats : Domain → Domain
reset_peak_stats d = record d {
  stats = record (d.stats) {
    bytes_allocated_peak = d.stats.bytes_allocated;
    blocks_allocated_peak = d.stats.blocks_allocated;
  };
}

module _ (pf : Platform) where
  -- NULL, or a new tealet with nothing set, at the front of the circular list.
  unfoldable pub alloc : Domain → Ptr × Domain
  unfolding malloc
  alloc d0 =
      let size = pf.tealet_header + d0.extrasize in
      let (p, d) = malloc size d0 in
      let s = add_alloc size d.stats in
      if p == null then (null, d) else (
        p,
        put_tealet p
            (record {
              stack_far = null;
              stack = null;
              flags = no_flags;
              extra = (d.tealets p).extra;
            })
            (record d {
              all = p ∷ d.all;
              stats = record s { counter = add_int s.counter 1; tealets = add_int s.tealets 1 };
            }),
      )

  unfoldable pub new : Domain → Ptr × Domain
  unfolding lock_auto unlock_auto alloc
  new d0 =
      let (p, d) = alloc (lock_auto d0) in
      if p == null then (null, unlock_auto d) else (
        p,
        unlock_auto (
            put_tealet p (record (d.tealets p) { stack_far = null; stack = null; flags = no_flags })
              d),
      )

  -- The copy of `t`: a stack that it has is shared.
  unfoldable pub duplicate : Ptr → Domain → Ptr × Domain
  unfolding lock_auto unlock_auto alloc stack_dup
  duplicate t d0 =
      let (p, d) = alloc (lock_auto d0) in
      let shared = if (d.tealets t).stack == null then d else stack_dup (d.tealets t).stack d in
      if p == null then (null, unlock_auto d) else (
        p,
        unlock_auto (
            put_tealet p
              (record {
                stack_far = (d.tealets t).stack_far;
                stack = (d.tealets t).stack;
                flags = (d.tealets t).flags;
                extra = if d.extrasize == 0 then (d.tealets p).extra else (d.tealets t).extra;
              })
              shared),
      )

  unfoldable pub delete : Ptr → Domain → Domain
  unfolding lock_auto unlock_auto stack_decref free_tealet
  delete t d0 =
      let d1 = lock_auto d0 in
      let d2 = stack_decref pf (d1.tealets t).stack d1 in
      unlock_auto (
        free_tealet pf t
          (record d2 { stats = record (d2.stats) { tealets = sub_int d2.stats.tealets 1 } }))

-- result == TEALET_ERR_MEM || result == TEALET_ERR_DEFUNCT
unfoldable pub is_retried : Code → Bool
is_retried err_mem = true
is_retried err_defunct = true
is_retried done = false
is_retried save_only = false
is_retried err_unforkable = false
is_retried err_inval = false
is_retried err_integrity = false
is_retried err_panic = false
is_retried abort_process = false

-- The signals of a transfer.
unfoldable pub stage : XferFlags → Domain → Domain
stage flags d =
    let f = (d.tealets d.current).flags in
    let d1 = if flags.force then set_flags d.current (record f { saveforce = true }) d else d in
    if flags.panic then record d1 { flags = record (d1.flags) { main_panic = true } } else d1

module _ (pf : Platform) (sm : Stackman) where
  -- What tealet_xfer_inner does with the result of the switch. The local g_current of the frame
  -- that runs now, which is another one where the switch took place, is the running tealet.
  unfoldable pub xfer_done : Code × Option Ptr × Domain → Code × Option Ptr × Domain
  xfer_done (code, out, d) =
      let f = (d.tealets d.current).flags in
      (
        code,
        out,
        (if is_error code
            then set_flags d.current
                (record f { exiting = false; autodelete = false; saveforce = false }) d
            else d),
      )

  unfoldable pub xfer_staged :
      (target in_arg : Ptr) → XferFlags → Domain → Code × Option Ptr × Domain
  unfolding stage xfer_done
  xfer_staged target in_arg flags d = xfer_done (switchstack pf sm target in_arg (stage flags d))

  unfoldable pub xfer_inner :
      (target in_arg : Ptr) → XferFlags → (is_exit : Bool) → Domain → Code × Option Ptr × Domain
  unfolding xfer_staged
  xfer_inner target in_arg flags is_exit d =
      let f = (d.tealets d.current).flags in
      let leaving = record f { exiting = true; autodelete = f.autodelete || flags.delete } in
      if not (d.tealets target).flags.bound
      then (err_inval, none, d)
      else (if is_exit
          then (if target == d.current
              then (err_inval, none, d)
              else xfer_staged target in_arg flags (set_flags d.current leaving d))
          else (if target == d.current
              then (
                if flags.panic then err_panic else done,
                none,
                record d { previous = d.current },
              )
              else xfer_staged target in_arg flags d))

  -- With NOFAIL: by force, and failing that, to the main tealet with the panic signal.
  unfoldable pub xfer_nofail :
      (target in_arg : Ptr) → XferFlags → (is_exit : Bool) → Domain → Code × Option Ptr × Domain
  unfolding xfer_inner is_retried
  xfer_nofail target in_arg flags is_exit d =
      let used = record flags { nofail = false; force = true } in
      let (code, out, d1) = xfer_inner target in_arg used is_exit d in
      let retry = xfer_inner d1.main in_arg (record used { panic = true }) is_exit d1 in
      if is_retried code then retry else (code, out, d1)

  unfoldable pub switch : (target in_arg : Ptr) → XferFlags → Domain → Code × Option Ptr × Domain
  unfolding lock_auto unlock_auto xfer_nofail
  switch target in_arg flags d0 =
      let d = lock_auto d0 in
      let (code, out, d1) =
        if flags.nofail
        then xfer_nofail target in_arg flags false d
        else xfer_inner target in_arg flags false d in
      (code, out, unlock_auto d1)

  -- A first call may only leave its argument and flags for the one that follows run().
  unfoldable pub exit : (target arg : Ptr) → XferFlags → Domain → Code × Option Ptr × Domain
  unfolding lock_auto unlock_auto xfer_nofail
  exit target arg flags d0 =
      let d = lock_auto d0 in
      let deferred = d.flags.defer in
      let flags' = if deferred then record (d.flags) { defer = false } else flags in
      let arg' = if deferred then d.arg else arg in
      let d' = if deferred then record d { flags = xfer_default; arg = null } else d in
      let (code, out, d1) =
        if flags'.nofail
        then xfer_nofail target arg' flags' true d'
        else xfer_inner target arg' flags' true d' in
      if flags.defer
      then (done, none, unlock_auto (record d { arg = arg; flags = flags }))
      else (code, out, unlock_auto d1)
