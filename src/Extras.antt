-- ===== src/Extras.antt =====
-- src/tealet_extras.c: the counting allocator (tealet_statsalloc_*), tealet_spawn and
-- tealet_stub_new. What a stub runs, and tealet_stub_run, which passes it a block of memory, are
-- not modelled.
--
-- The base allocator is a parameter: what it answers and what it is given back are in the state,
-- and so are the sizes that the counting allocator keeps in the eight bytes before each block. A
-- size_t is a number below 2^64.
pub mod Counted
use libtealet.Base.{
  ℕ, ◌+◌, ◌-◌, ◌%◌, ◌^◌, Bool, true, false, List, [], ◌∷◌, Option, none, some, ◌==◌, if◌then◌else◌,
  not,
}
use libtealet.Platform.{Ptr, null, Platform}
use libtealet.Domain.{Domain, Code, done, err_inval, err_mem, is_error, update}
use libtealet.Transfer.{Stackman}
use libtealet.Api.{new, delete}
use libtealet.Api.Start.{Start, returned, entered, run}

-- tealet_statsalloc_t, with the base allocator's side of it: the answers it will give, the blocks
-- it was given back, newest first, and the words in memory.
pub record StatsAlloc : Type 0 where
  pub n_allocs : ℕ
  pub s_allocs : ℕ
  pub answers : List Ptr
  pub freed : List Ptr
  pub words : Ptr → ℕ

unfoldable pub base_malloc : StatsAlloc → Ptr × StatsAlloc
base_malloc a = elim a.answers [
  | [] ↦ (null, a)
  | p ∷ answers ↦ (p, record a { answers = answers })
]

unfoldable pub statsalloc_malloc : (size : ℕ) → StatsAlloc → Ptr × StatsAlloc
unfolding base_malloc
statsalloc_malloc size a0 =
    let (result, a) = base_malloc a0 in
    if result == null then (result, a) else (
      result + 8,
      record a {
        n_allocs = (a.n_allocs + 1) % 2 ^ 64;
        s_allocs = (a.s_allocs + size) % 2 ^ 64;
        words = update a.words result size;
      },
    )

unfoldable pub statsalloc_free : Ptr → StatsAlloc → StatsAlloc
statsalloc_free ptr a =
    let block = ptr - 8 in
    if ptr == null then a else record a {
      n_allocs = (a.n_allocs + 2 ^ 64 - 1) % 2 ^ 64;
      s_allocs = (a.s_allocs + 2 ^ 64 - a.words block) % 2 ^ 64;
      freed = block ∷ a.freed;
    }

unfoldable pub statsalloc_init : StatsAlloc → StatsAlloc
statsalloc_init a = record a { n_allocs = 0; s_allocs = 0 }

-- How a spawn ends: it returns a code and the new tealet (NULL where there is none), or the new
-- tealet runs its function.
pub data Spawn : Type 0 where
  spawned : Code → Ptr → Domain → Spawn
  running : Option Ptr → Domain → Spawn

module _ (pf : Platform) (sm : Stackman) where
  -- What tealet_spawn does with what tealet_run returns.
  unfoldable pub spawn_ended : Ptr → Start → Spawn
  unfolding delete
  spawn_ended created (entered arg d) = running arg d
  spawn_ended created (returned result out d) =
      if is_error result then spawned result null (delete pf created d) else spawned done created d

  -- `bad_flags`: other bits than TEALET_START_SWITCH; `has_run`: the function is not NULL.
  unfoldable pub spawn :
      (bad_flags has_run switch_now : Bool) → (arg default_far stack_far : Ptr) → Domain → Spawn
  unfolding new run spawn_ended
  spawn bad_flags has_run switch_now arg default_far stack_far d0 =
      let (created, d) = new pf d0 in
      if bad_flags
      then spawned err_inval null d0
      else (if not has_run
          then spawned err_inval null d0
          else (if created == null
              then spawned err_mem null d
              else spawn_ended created (run pf sm created arg default_far stack_far switch_now d)))

  -- A stub is spawned for later.
  unfoldable pub stub_new : (default_far stack_far : Ptr) → Domain → Spawn
  unfolding spawn
  stub_new default_far stack_far d = spawn false true false null default_far stack_far d
