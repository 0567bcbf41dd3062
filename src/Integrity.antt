-- ===== src/Integrity.antt =====
-- Stack integrity of src/tealet.c: the plan of the monitored interval, page guards by mprotect,
-- and the snapshot of the bytes that no page guard covers.
pub mod Snapshot
use Prim.Native.Nat.{bit_and}
use libtealet.Base.{
  ℕ, ◌+◌, ◌-◌, ◌%◌, ◌^◌, Bool, true, false, not, ◌&&◌, List, [], ◌∷◌, ltb, leb, ◌==◌, if◌then◌else◌,
  min,
}
use libtealet.Base.Int.{ℤ, pos, negsuc}
use libtealet.Platform.{Ptr, null, Platform}
use libtealet.Memory.{read}
use libtealet.Domain.{
  Domain, Integrity, Settings, ConfigFlags, Code, done, err_integrity, abort_process, Event,
  protected, Prot, read_write, read_only, no_access,
}

unfoldable pub integrity_data_clear : Integrity → Integrity
integrity_data_clear i = record i {
  stack_base = null;
  snapshot_bytes = 0;
  guard_base = null;
  guard_bytes = 0;
}

unfoldable pub integrity_data_init : Integrity → Integrity
unfolding integrity_data_clear
integrity_data_init i = record (integrity_data_clear i) {
  snapshot_block = null;
  snapshot = [];
  snapshot_capacity = 0;
}

-- The workspace is given back to the allocator if there is one.
unfoldable pub integrity_data_free : Integrity → Integrity
unfolding integrity_data_clear
integrity_data_free i =
    integrity_data_clear (record i { snapshot_block = null; snapshot = []; snapshot_capacity = 0 })

unfoldable pub guard_pagesize : Platform → ℕ
guard_pagesize pf = elim pf.sysconf_pagesize [ pos n ↦ n | negsuc n ↦ 0 ]

-- (a + mask) & ~mask, on addresses of 64 bits.
unfoldable pub align_up : ℕ → ℕ → ℕ
align_up mask a = bit_and ((a + mask) % 2 ^ 64) (2 ^ 64 - 1 - mask)

-- How many bytes from `far` on are monitored, with the configured limit.
unfoldable pub monitored : Settings → (far : Ptr) → ℕ
monitored c far =
    if c.stack_guard_limit == null
    then c.stack_integrity_bytes
    else (if leb c.stack_guard_limit far
        then 0
        else min c.stack_integrity_bytes (c.stack_guard_limit - far))

-- The split of [begin, begin + bytes) into a snapshot of the prefix and guarded pages.
unfoldable pub plan_pages : (page begin bytes snapshot : ℕ) → Integrity → Integrity
unfolding align_up
plan_pages page begin bytes snapshot i =
    let end = (begin + bytes) % 2 ^ 64 in
    let mask = page - 1 in
    let aligned_begin = align_up mask begin in
    let aligned_end = if leb end aligned_begin then aligned_begin else align_up mask end in
    let prefix = (aligned_begin + (2 ^ 64 - begin)) % 2 ^ 64 in
    let snapshot' = if snapshot == 0 then 0 else min snapshot prefix in
    record i {
      snapshot_bytes = snapshot';
      guard_base = if ltb aligned_begin aligned_end then aligned_begin else i.guard_base;
      guard_bytes =
          if ltb aligned_begin aligned_end then aligned_end - aligned_begin else i.guard_bytes;
    }

-- A snapshot is taken only if it fits the workspace.
unfoldable pub plan_snapshot : Integrity → Integrity
plan_snapshot i =
    if leb i.snapshot_bytes i.snapshot_capacity then i else record i { snapshot_bytes = 0 }

module _ (pf : Platform) where
  -- What is to be watched of [far, far + bytes), and how.
  unfoldable pub plan_split : (far : Ptr) → (bytes : ℕ) → Settings → Integrity → Integrity
  unfolding plan_pages
  plan_split far bytes c i0 =
      let page = guard_pagesize pf in
      let snapshot = if c.flags.snapshot then bytes else 0 in
      let i = record i0 { stack_base = far; snapshot_bytes = snapshot } in
      if c.flags.guard && (not (page == 0) && ltb far ((far + bytes) % 2 ^ 64))
      then plan_pages page far bytes snapshot i
      else i

  unfoldable pub plan_interval : (far : Ptr) → Settings → Integrity → Integrity
  unfolding plan_split plan_snapshot
  plan_interval far c i0 =
      let bytes = monitored c far in
      if bytes == 0 then i0 else plan_snapshot (plan_split far bytes c i0)

  unfoldable pub integrity_plan_for_current : Domain → Domain
  unfolding plan_interval integrity_data_clear
  integrity_plan_for_current d =
      let i = integrity_data_clear d.integrity in
      let far = (d.tealets d.current).stack_far in
      record d {
        integrity =
            if far == pf.furthest
            then i
            else (if not d.settings.flags.integrity
                then i
                else (if d.settings.stack_integrity_bytes == 0
                    then i
                    else plan_interval far d.settings i));
      }

-- The call of mprotect, and whether it succeeded.
unfoldable pub mprotect : Ptr → ℕ → Prot → Domain → Bool × Domain
mprotect base bytes prot d =
    let d' = record d { log = protected base bytes prot ∷ d.log } in
    elim d.protect_answers [
      | [] ↦ (false, d')
      | ok ∷ answers ↦ (ok, record d' { protect_answers = answers })
    ]

unfoldable pub guard_unprotect_current : Domain → Domain
unfolding mprotect
guard_unprotect_current d =
    let i = d.integrity in
    let (_, d') = mprotect i.guard_base i.guard_bytes read_write d in
    if i.guard_bytes == 0 then d else record d' { integrity = record i { guard_bytes = 0 } }

unfoldable pub guard_protect_current : Domain → Domain
unfolding mprotect
guard_protect_current d =
    let i = d.integrity in
    let prot = if d.settings.stack_guard_mode == 1 then read_only else no_access in
    let (ok, d') = mprotect i.guard_base i.guard_bytes prot d in
    if i.guard_bytes == 0
    then d
    else (if ok then d' else record d' { integrity = record i { guard_bytes = 0 } })

-- memcmp of the block and memory: whether the bytes agree.
unfoldable pub same_bytes : List ℕ → List ℕ → Bool
same_bytes [] ys = true
same_bytes (x ∷ xs) [] = false
same_bytes (x ∷ xs) (y ∷ ys) = x == y && same_bytes xs ys

module _ (pf : Platform) where
  unfoldable pub snapshot_capture_current : Domain → Domain
  snapshot_capture_current d =
      let i = d.integrity in
      if i.snapshot_bytes == 0
      then d
      else (if (d.tealets d.current).stack_far == pf.furthest then d else record d {
        integrity = record i { snapshot = read d.mem i.stack_base i.snapshot_bytes };
      })

-- A difference is reported as the policy says; the snapshot is dropped either way.
unfoldable pub snapshot_verify_current : Domain → Code × Domain
unfolding same_bytes
snapshot_verify_current d =
    let i = d.integrity in
    let d' = record d { integrity = record i { snapshot_bytes = 0 } } in
    if i.snapshot_bytes == 0
    then (done, d)
    else (if same_bytes (read d.mem i.stack_base i.snapshot_bytes) i.snapshot
        then (done, d')
        else (if d.settings.stack_integrity_fail_policy == 2
            then (abort_process, d')
            else (err_integrity, d')))
