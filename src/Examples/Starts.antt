-- ===== src/Examples/Starts.antt =====
-- A start for later, and the counting allocator.
use libtealet.Base.{◌≤◌, ◌<◌, ◌≡◌, ◌≢◌, true, false, refl, [], ◌∷◌, has, arith}
use libtealet.Platform.{null}
use libtealet.Domain.{Domain}
use libtealet.Stats.{malloc}
use libtealet.Transfer.Save.{IsFresh}
use libtealet.Api.{alloc, new, lock_auto, unlock_auto}
use libtealet.Api.Setup.{initialize, pick_initial_far}
use libtealet.Api.Start.{run, IsNew}
use libtealet.System.{IsSound}
use libtealet.System.Birth.{reached-IsSound}
use libtealet.System.Step.{start, onward, runs, creates}
use libtealet.System.Later.{IsBegun, run-IsBegun}
use libtealet.Extras.{StatsAlloc, base_malloc, statsalloc_malloc, statsalloc_free}
use libtealet.Extras.Counted.{statsalloc_free-statsalloc_malloc}
use libtealet.Examples.{domain, platform, platform-IsDescending, stackman, stackman-IsStackman}
use libtealet.Examples.Life.{born, born-IsUnused, born-ne}

abbrev counting : StatsAlloc
counting = record { n_allocs = 2; s_allocs = 90; answers = 48 ∷ []; freed = []; words = λ p. 0 }

statsalloc_free-statsalloc_malloc_example :
    (let b = statsalloc_free (statsalloc_malloc 30 counting).0 (statsalloc_malloc 30 counting).1 in
      (b.n_allocs ≡ 2) × (b.s_allocs ≡ 90) × (b.freed ≡ (base_malloc counting).0 ∷ []))
unfolding statsalloc_malloc base_malloc
statsalloc_free-statsalloc_malloc_example =
    statsalloc_free-statsalloc_malloc 30 counting (omega arith) (omega arith) (omega arith)
      (λ e. absurd {A = _} (omega arith))

-- A new domain with the main tealet at 21, where tealet 23 has been made; there is memory at 31.
abbrev nursery : Domain
nursery = record ((new platform born).1) { answers = 31 ∷ [] }

nursery-IsSound : IsSound nursery
nursery-IsSound =
    reached-IsSound platform platform-IsDescending stackman stackman-IsStackman 0 50 domain nursery
      born-ne
      (onward (onward start (creates born-IsUnused)) (
        runs (new platform born).1.mem (new platform born).1.sp (new platform born).1.probe
          (31 ∷ []) (λ x h. refl)))

nursery-start :
    (has 23 nursery.all ≡ true)
    × (23 ≢ nursery.current)
    × IsNew (nursery.tealets 23)
    × IsFresh nursery
    × (nursery.sp < pick_initial_far platform 60 null)
    × (pick_initial_far platform 60 null ≤ (nursery.tealets nursery.current).stack_far)
    × ((nursery.stacks null).refcount ≡ 0)
unfolding new alloc lock_auto unlock_auto initialize malloc pick_initial_far
nursery-start = (
  refl,
  (λ e. absurd {A = _} (omega arith)),
  (refl, refl, refl),
  (λ a h n. refl),
  omega arith,
  omega arith,
  refl,
)

run-IsBegun_example :
    IsBegun nursery 23
      (pick_initial_far platform 60 null)
      (run platform stackman 23 null 60 null false nursery)
run-IsBegun_example =
    run-IsBegun platform platform-IsDescending stackman stackman-IsStackman nursery 23 null 60 null
      nursery-IsSound nursery-start.0 nursery-start.1 nursery-start.2 nursery-start.3
      nursery-start.4 nursery-start.5 nursery-start.6
