-- ===== src/Api/Setup.antt =====
-- tealet_initialize, tealet_finalize, tealet_configure_set_locking, tealet_pick_initial_far,
-- tealet_stack_further, tealet_lock, tealet_unlock and the debug hooks of src/tealet.c.
use mathlib.Core.Bool.{false≢true}
use libtealet.Base.{
  ℕ, ◌+◌, ◌≢◌, refl, inl, inr, Bool, true, false, not, ◌&&◌, ◌||◌, [], ◌∷◌, Option, none, some,
  ◌==◌, if◌then◌else◌, arith, Bool-cases,
}
use libtealet.Platform.{Ptr, null, Platform}
use libtealet.Domain.{
  Domain, Tealet, no_flags, xfer_default, sw_nop, Stats, Settings, Code, done, err_inval, locked,
  unlocked, put_tealet, update, freed_stack, freed_tealet,
}
use libtealet.Stats.{add_alloc, malloc}
use libtealet.Stack.{stack_decref}
use libtealet.Integrity.{integrity_data_init, integrity_data_free, guard_unprotect_current}
use libtealet.Transfer.Invariant.{Sliced, Nobody}

-- TEALET_DEFAULT_MAX_STACK_SIZE is 16 MB.
abbrev default_settings : Settings
default_settings = record {
  flags = record { integrity = false; guard = false; snapshot = false; other = 0 };
  stack_integrity_bytes = 0;
  stack_guard_mode = 0;
  stack_integrity_fail_policy = 0;
  stack_guard_limit = null;
  max_stack_size = 16777216;
}

abbrev no_stats : Stats
no_stats = record {
  tealets = 0;
  counter = 0;
  bytes_allocated = 0;
  bytes_allocated_peak = 0;
  blocks_allocated = 0;
  blocks_allocated_peak = 0;
  blocks_allocated_total = 0;
  stack_bytes = 0;
  stack_count = 0;
  stack_chunk_count = 0;
}

-- The counters after the block of the main tealet, which itself counts as one.
unfoldable pub initial_stats : ℕ → Stats
unfolding add_alloc
initial_stats size =
    let s = add_alloc size no_stats in
    record s {
      tealets = 1;
      counter = 1;
      bytes_allocated_peak = s.bytes_allocated;
      blocks_allocated_peak = s.blocks_allocated;
    }

module _ (pf : Platform) where
  abbrev main_tealet : Tealet
  main_tealet = record {
    stack_far = pf.furthest;
    stack = null;
    flags = record no_flags { main_lineage = true; bound = true };
    extra = [];
  }

  -- NULL, or the main tealet of a new domain. Of the state before, only the machine is kept.
  -- `stack_probe` is the address of a local variable.
  unfoldable pub initialize : (extrasize : ℕ) → (stack_probe : Ptr) → Domain → Ptr × Domain
  unfolding malloc integrity_data_init initial_stats
  initialize extrasize stack_probe d0 =
      let size = pf.main_header + extrasize in
      let (p, d) = malloc size d0 in
      if p == null then (null, d) else (
        p,
        record d {
          stacks = λ _. freed_stack;
          tealets = update (λ _. freed_tealet) p main_tealet;
          all = p ∷ [];
          main = p;
          main_stack_probe = stack_probe;
          current = p;
          previous = null;
          target = null;
          arg = null;
          prev = [];
          sw = sw_nop;
          flags = xfer_default;
          settings = default_settings;
          integrity = integrity_data_init d.integrity;
          locking = record { auto = false; lock = false; unlock = false };
          stats = initial_stats size;
          extrasize = extrasize;
        },
      )

  -- If there is memory for the main tealet, tealet_initialize sets up a domain that obeys the
  -- invariant, with the main tealet's far boundary.
  pub initialize-Sliced :
      (extrasize : ℕ) (stack_probe : Ptr) (d : Domain)
      → (initialize extrasize stack_probe d).0 ≢ null
      → Sliced pf.furthest Nobody (initialize extrasize stack_probe d).1
  unfolding initialize
  initialize-Sliced extrasize stack_probe d ok = elim (Bool-cases ((malloc 0 d).0 == null)) [
    | inl e ↦ absurd ((rw e at ok) refl)
    | inr e ↦ rw e (record {
      bands = tt;
      no_null = refl;
      linked = λ j h. absurd (false≢true h);
      whole = λ j l. absurd {A = _} (omega (arith, l.0));
      full = λ j l o. absurd {A = _} (omega (arith, l.0));
      within = λ j l. omega arith;
      owned = λ t h. elim (Bool-cases (t == (malloc 0 d).0)) [
        | inl f ↦ absurd ((rw f at h) refl)
        | inr f ↦ absurd ((rw f at h) refl)
      ];
    })
  ]

-- The guard is taken off and the workspace given back; the block of the main tealet goes last.
unfoldable pub finalize : Domain → Domain
unfolding guard_unprotect_current integrity_data_free
finalize d0 =
    let d = guard_unprotect_current d0 in record d { integrity = integrity_data_free d.integrity }

-- What the caller passes: the mode (OFF 0, AUTO 1) and which callbacks are set.
pub record LockRequest : Type 0 where
  pub mode : ℕ
  pub lock : Bool
  pub unlock : Bool

unfoldable pub configure_set_locking : Option LockRequest → Domain → Code × Domain
configure_set_locking none d =
    (done, record d { locking = record { auto = false; lock = false; unlock = false } })
configure_set_locking (some r) d =
    if not (r.mode == 0) && not (r.mode == 1) then (err_inval, d) else (
      done,
      record d { locking = record { auto = r.mode == 1; lock = r.lock; unlock = r.unlock } },
    )

unfoldable pub lock : Domain → Domain
lock d = if d.locking.lock then record d { log = locked ∷ d.log } else d

unfoldable pub unlock : Domain → Domain
unlock d = if d.locking.unlock then record d { log = unlocked ∷ d.log } else d

unfoldable pub stack_further : Platform → Ptr → Ptr → Ptr
stack_further pf a b = if pf.sp_le a b then b else a

-- The hint can only move the boundary farther.
unfoldable pub pick_initial_far : Platform → (default_far hint : Ptr) → Ptr
unfolding stack_further
pick_initial_far pf default_far hint =
    if hint == null then default_far else stack_further pf default_far hint

-- The old boundary, where the pointers are given.
unfoldable pub debug_swap_far :
    Ptr → (new_far : Ptr) → (old_far : Bool) → Domain → Code × Option Ptr × Domain
debug_swap_far p new_far old_far d = if p == null || not old_far then (err_inval, none, d) else (
  done,
  some (d.tealets p).stack_far,
  put_tealet p (record (d.tealets p) { stack_far = new_far }) d,
)

unfoldable pub debug_force_defunct : Platform → Ptr → Domain → Code × Domain
unfolding stack_decref
debug_force_defunct pf p d0 =
    let t0 = d0.tealets p in
    let d = stack_decref pf t0.stack d0 in
    let t = d.tealets p in
    if p == d0.main
    then (err_inval, d0)
    else (if p == d0.current
        then (err_inval, d0)
        else (if t0.flags.exited then (err_inval, d0) else (
          done,
          put_tealet p (record t { stack = null; flags = record (t.flags) { is_defunct = true } })
              d,
        )))
