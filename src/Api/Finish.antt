-- ===== src/Api/Finish.antt =====
-- What tealet_initialstub does when the function of a tealet has returned, and what
-- TEALET_EXIT_DEFER asks for.
use libtealet.Base.{true, false, Option, none, ◌==◌, if◌then◌else◌}
use libtealet.Platform.{Ptr, null, Platform}
use libtealet.Domain.{Domain, XferFlags, xfer_default, Code, abort_process}
use libtealet.Transfer.{Stackman}
use libtealet.Api.{exit}

-- The flags and the argument of the implicit exit, and the state when it is made.
abbrev pub exit_flags : Domain → XferFlags
exit_flags d = record (if d.flags.defer then record (d.flags) { defer = false } else xfer_default) {
  nofail = true;
}

abbrev pub exit_arg : Domain → Ptr
exit_arg d = if d.flags.defer then d.arg else null

abbrev pub resolved : Domain → Domain
resolved d = if d.flags.defer then record d { flags = xfer_default; arg = null } else d

-- The function has returned `target`. The code reads the tealet there, so NULL ends the process; and
-- it aborts if the exit comes back with an error.
unfoldable pub run_returned :
    Platform → Stackman → (target : Ptr) → Domain → Code × Option Ptr × Domain
unfolding exit
run_returned pf sm target d =
    if target == null
    then (abort_process, none, d)
    else exit pf sm target (exit_arg d) (exit_flags d) (resolved d)
