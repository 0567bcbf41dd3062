-- ===== src/Api/Query.antt =====
-- The accessors of src/tealet.c: tealet_current, tealet_previous, tealet_get_origin,
-- tealet_malloc, tealet_stack_diff and tealet_new_probe.
use libtealet.Base.{ℕ, Bool}
use libtealet.Base.Int.{ℤ}
use libtealet.Platform.{Ptr, Platform}
use libtealet.Domain.{Domain}
use libtealet.Stats.{malloc}
use libtealet.Api.Setup.{pick_initial_far}

unfoldable pub current_tealet : Domain → Ptr
current_tealet d = d.current

unfoldable pub previous_tealet : Domain → Ptr
previous_tealet d = d.previous

-- TEALET_ORIGIN_*
pub record Origin : Type 0 where
  pub main_lineage : Bool
  pub fork : Bool

unfoldable pub get_origin : Ptr → Domain → Origin
get_origin p d = record {
  main_lineage = (d.tealets p).flags.main_lineage;
  fork = (d.tealets p).flags.is_fork;
}

-- The block is the caller's, and no counter moves.
unfoldable pub user_malloc : ℕ → Domain → Ptr × Domain
unfolding malloc
user_malloc size d = malloc size d

unfoldable pub stack_diff : Platform → Ptr → Ptr → ℤ
stack_diff pf a b = pf.sp_diff a b

-- The far boundary that tealet_run would pick from here, `local` being the address of a variable.
unfoldable pub new_probe : Platform → (local stack_far : Ptr) → Ptr
unfolding pick_initial_far
new_probe pf local stack_far = pick_initial_far pf local stack_far
