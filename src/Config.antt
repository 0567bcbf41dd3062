-- ===== src/Config.antt =====
-- The configuration of src/tealet.c: tealet_config_supported_flags, tealet_config_canonicalize,
-- tealet_snapshot_required_capacity and tealet_snapshot_ensure_capacity.
pub mod Canonical
pub mod Request
pub mod Copy
pub mod Set
pub mod Plan
use libtealet.Base.{
  ℕ, ◌-◌, Bool, true, false, not, ◌&&◌, ◌||◌, List, [], ltb, leb, ◌==◌, if◌then◌else◌, min,
}
use libtealet.Platform.{null, Platform}
use libtealet.Domain.{Domain, Settings, ConfigFlags, Code, done, err_mem}
use libtealet.Stats.{malloc}
use libtealet.Integrity.{guard_pagesize}

-- TEALET_CONFIGF_*, as this build supports them: all three.
unfoldable pub supported_flags : ConfigFlags
supported_flags = record { integrity = true; guard = true; snapshot = true; other = 0 }

-- The flags after the rules: unknown and unsupported bits are dropped, guard and snapshot need
-- integrity, integrity needs one of the two and bytes to watch.
unfoldable pub canonicalize_flags : (bytes : ℕ) → ConfigFlags → ConfigFlags
unfolding supported_flags
canonicalize_flags bytes f =
    let integrity = f.integrity && supported_flags.integrity in
    let guard = (f.guard && supported_flags.guard) && integrity in
    let snapshot = (f.snapshot && supported_flags.snapshot) && integrity in
    let watched = not (bytes == 0) in
    record {
      integrity = (integrity && (guard || snapshot)) && watched;
      guard = guard && watched;
      snapshot = snapshot && watched;
      other = 0;
    }

-- Modes are NONE 0, READONLY 1 and NOACCESS 2.
unfoldable pub canonicalize_mode : Bool → ℕ → ℕ
canonicalize_mode guard mode =
    if not guard then 0 else (if not (mode == 1) && not (mode == 2) then 2 else mode)

-- Policies are ASSERT 0, ERROR 1 and ABORT 2.
unfoldable pub canonicalize_policy : ℕ → ℕ
canonicalize_policy policy =
    if not (policy == 0) && (not (policy == 1) && not (policy == 2)) then 0 else policy

unfoldable pub canonicalize : Settings → Settings
unfolding canonicalize_flags canonicalize_mode canonicalize_policy
canonicalize c =
    let f = canonicalize_flags c.stack_integrity_bytes c.flags in
    record c {
      flags = f;
      stack_guard_mode = canonicalize_mode f.guard c.stack_guard_mode;
      stack_integrity_fail_policy = canonicalize_policy c.stack_integrity_fail_policy;
      stack_integrity_bytes = if not f.integrity then 0 else c.stack_integrity_bytes;
      stack_guard_limit = if not f.integrity then null else c.stack_guard_limit;
    }

module _ (pf : Platform) where
  unfoldable pub snapshot_required_capacity : Settings → ℕ
  unfolding guard_pagesize
  snapshot_required_capacity c =
      let required = if c.flags.snapshot then c.stack_integrity_bytes else 0 in
      let page = guard_pagesize pf in
      if (c.flags.snapshot && c.flags.guard) && ltb 1 page
      then min required (page - 1)
      else required

-- The block that was there is given back once the new one is.
unfoldable pub snapshot_ensure_capacity : ℕ → Domain → Code × Domain
unfolding malloc
snapshot_ensure_capacity required d0 =
    let (p, d) = malloc required d0 in
    if required == 0
    then (done, d0)
    else (if leb required d0.integrity.snapshot_capacity
        then (done, d0)
        else (if p == null then (err_mem, d) else (
          done,
          record d {
            integrity = record (d.integrity) {
              snapshot_bytes = 0;
              stack_base = null;
              snapshot_block = p;
              snapshot = [];
              snapshot_capacity = required;
            };
          },
        )))
