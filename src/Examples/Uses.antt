-- ===== src/Examples/Uses.antt =====
-- The theorems of the other files, each at a concrete state of Examples.
use mathlib.Core.Bool.{false≢true}
use libtealet.Base.{
  ◌<◌, ◌≡◌, refl, inl, true, false, ltb, [], ◌∷◌, none, ◌==◌, if◌then◌else◌, arith,
}
use libtealet.Memory.{Mem}
use libtealet.Domain.{Domain, Settings, no_flags, update, done, is_error}
use libtealet.Stack.{stack_restore, grown, stack_unlink, stack_grow}
use libtealet.Stats.{malloc}
use libtealet.Stack.Image.{IsWhole, grown-IsWhole, restore-grown}
use libtealet.Growth.{
  stack_grow_list, stack_growto, grow_target, truncate, grow_to_stop, grow_failed,
}
use libtealet.Growth.Bands.{Bands}
use libtealet.Growth.Step.{Growto, stack_growto-full, stack_growto-partial}
use libtealet.Growth.Walked.{Walked}
use libtealet.Growth.Walk.{stack_grow_list-Walked}
use libtealet.Transfer.{save_state, save_current, restore_state, switchstack, save_restore_cb}
use libtealet.Transfer.Invariant.{
  Sliced, Nobody, Leaving, SameView, walk_done-Sliced, walk_failed-Sliced,
}
use libtealet.Transfer.Save.{IsFresh, ParkedOr, save_current-ParkedOr}
use libtealet.Transfer.Suspend.{Saving, save_state-Saving}
use libtealet.Transfer.Resume.{Restored, restore_state-Restored}
use libtealet.Transfer.Run.{run-SameView}
use libtealet.Transfer.Switch.{Switching, switch-Switching}
use libtealet.Report.{effective_far, effective_far-edge}
use libtealet.Api.Panic.{state_of, switchstack-calm, switchstack_refused}
use libtealet.Config.{canonicalize}
use libtealet.Config.Canonical.{IsCanonical, canonicalize-IsCanonical, canonicalize_fixed}
use libtealet.Integrity.{snapshot_verify_current}
use libtealet.Integrity.Snapshot.{after, snapshot_clean, snapshot_caught}
use libtealet.Examples.{sub_saved}
use libtealet.Examples.{
  platform, platform-IsDescending, stackman, stackman-IsStackman, memory, main_saved, tealets,
  unwatched, no_data, domain, domain-Sliced, domain-IsFresh, domain-sole, domain-Ready,
}

switch-Switching_example : Switching domain (stackman.switch (save_restore_cb platform) domain)
switch-Switching_example =
    switch-Switching platform domain domain-Ready platform-IsDescending stackman stackman-IsStackman

-- The running tealet has wiped its own part of the stack.
abbrev wiped : Mem
wiped p = if ltb p 7 then 0 else p

run-SameView_example : SameView memory wiped main_saved main_saved
run-SameView_example =
    run-SameView 7 domain wiped 20 domain-Sliced (omega arith, refl) (λ x h. ground arith)

save_state-Saving_example : Saving 100 20 domain (save_state platform 5 domain)
save_state-Saving_example =
    save_state-Saving platform platform-IsDescending domain domain-Sliced domain-IsFresh
      (omega arith) refl (λ e. omega arith)

-- After the walk: the main tealet's stack is out of the list.
abbrev ready_to_jump : Domain
ready_to_jump = (stack_grow_list platform (20 ∷ []) 100 20 true domain).1

ready_to_jump-Sliced : Sliced 100 (Leaving 20) ready_to_jump
unfolding stack_grow_list grow_target stack_unlink
ready_to_jump-Sliced =
    walk_done-Sliced platform platform-IsDescending 100 20 true 7 domain domain-Sliced (λ h. refl)
      refl

restore_state-Restored_example :
    Restored ready_to_jump 20 100 (restore_state platform ready_to_jump)
unfolding stack_grow_list grow_target stack_unlink
restore_state-Restored_example =
    restore_state-Restored platform ready_to_jump 20 100 ready_to_jump-Sliced refl
      (λ e. omega arith) refl (omega arith, refl) domain-sole

stack_grow_list-Walked_example :
    Walked 100 20 true 7 (20 ∷ []) domain (stack_grow_list platform (20 ∷ []) 100 20 true domain)
stack_grow_list-Walked_example =
    stack_grow_list-Walked platform platform-IsDescending 100 20 true 7 (20 ∷ []) domain refl
      (λ h. refl) domain-Sliced.bands

-- No memory at all.
abbrev poor : Domain
poor = record domain { answers = [] }

poor-Sliced : Sliced 7 Nobody poor
poor-Sliced = record {
  bands = domain-Sliced.bands;
  no_null = domain-Sliced.no_null;
  linked = domain-Sliced.linked;
  whole = domain-Sliced.whole;
  full = domain-Sliced.full;
  within = domain-Sliced.within;
  owned = domain-Sliced.owned;
}

walk_failed-Sliced_example : Sliced 7 Nobody (stack_grow_list platform (20 ∷ []) 50 9 true poor).1
unfolding stack_grow_list stack_growto truncate grow_to_stop grow_failed stack_grow malloc
walk_failed-Sliced_example =
    walk_failed-Sliced platform platform-IsDescending 50 9 true 7 poor poor-Sliced
      (λ h. absurd (false≢true h)) refl

ready_to_jump-Bands :
    Bands ready_to_jump.stacks
      (ready_to_jump.tealets ready_to_jump.current).stack_far
      ready_to_jump.prev
unfolding stack_grow_list grow_target stack_unlink
ready_to_jump-Bands = tt

ready_to_jump-IsFresh : IsFresh ready_to_jump
unfolding stack_grow_list grow_target stack_unlink
ready_to_jump-IsFresh = domain-IsFresh

ready_to_jump-inside : 5 < (ready_to_jump.tealets ready_to_jump.current).stack_far
unfolding stack_grow_list grow_target stack_unlink
ready_to_jump-inside = omega arith

save_current-ParkedOr_example :
    ParkedOr platform platform-IsDescending 5 100 20 true ready_to_jump ready_to_jump-Sliced
      ready_to_jump-Bands ready_to_jump-IsFresh ready_to_jump-inside
      (save_current platform 5 100 true ready_to_jump)
save_current-ParkedOr_example =
    save_current-ParkedOr platform platform-IsDescending 5 100 20 true ready_to_jump
      ready_to_jump-Sliced ready_to_jump-Bands ready_to_jump-IsFresh ready_to_jump-inside

-- Tealet 7's stack goes on beyond what is saved of it.
abbrev partly_saved : Domain
partly_saved = record domain {
  stacks = update domain.stacks 22 (record sub_saved { stack_far = 9 });
}

stack_growto-full_example :
    Growto 22 9 true true partly_saved (stack_growto platform 22 100 true partly_saved)
stack_growto-full_example =
    stack_growto-full platform platform-IsDescending 22 100 true partly_saved
      (λ e. absurd {A = _} (omega arith)) (omega arith)

stack_growto-partial_example :
    Growto 20 50 false true domain (stack_growto platform 20 50 true domain)
stack_growto-partial_example =
    stack_growto-partial platform platform-IsDescending 20 50 true domain (omega arith)

restore-grown_example :
    stack_restore (grown memory 10 main_saved) memory 9 ≡ stack_restore main_saved memory 9
restore-grown_example = restore-grown memory 10 main_saved (refl, refl, refl, refl) (omega arith) 9

grown-IsWhole_example : IsWhole (grown memory 10 main_saved)
grown-IsWhole_example = grown-IsWhole memory 10 main_saved (refl, refl, refl, refl) (omega arith)

switchstack-calm_example : (switchstack platform stackman 1 33 domain).2.flags.main_panic ≡ false
switchstack-calm_example = switchstack-calm platform stackman 1 33 domain

-- Tealet 7 has exited.
abbrev gone : Domain
gone = record domain {
  tealets =
      update tealets 7
        (record (tealets 7) { flags = record no_flags { bound = true; exited = true } });
}

switchstack_refused_example :
    (is_error (switchstack platform stackman 7 33 gone).0 ≡ true)
    × ((switchstack platform stackman 7 33 gone).1 ≡ none)
    × (state_of (switchstack platform stackman 7 33 gone).2 ≡ state_of gone)
switchstack_refused_example = switchstack_refused platform stackman 7 33 gone (inl refl)

-- A request that breaks every rule.
abbrev wild : Settings
wild = record {
  flags = record { integrity = true; guard = false; snapshot = true; other = 9 };
  stack_integrity_bytes = 8;
  stack_guard_mode = 5;
  stack_integrity_fail_policy = 7;
  stack_guard_limit = 60;
  max_stack_size = 0;
}

canonicalize-IsCanonical_example : IsCanonical (canonicalize wild)
canonicalize-IsCanonical_example = canonicalize-IsCanonical wild

canonicalize_fixed_example : canonicalize unwatched ≡ unwatched
canonicalize_fixed_example = canonicalize_fixed unwatched (record {
  known = refl;
  backend = refl;
  watched = refl;
  mode = refl;
  policy = omega arith;
  limit = λ h. refl;
})

abbrev watched : Domain
watched = record domain {
  integrity = record no_data {
    stack_base = 7;
    snapshot_bytes = 3;
    snapshot_block = 30;
    snapshot_capacity = 3;
  };
}

snapshot_clean_example :
    (snapshot_verify_current (after platform watched wiped (λ e. omega arith))).0 ≡ done
snapshot_clean_example =
    snapshot_clean platform watched wiped (λ e. omega arith) (λ p lo hi. ground arith)

-- A byte above the far boundary is overwritten.
abbrev smashed : Mem
smashed p = if p == 8 then 0 else p

snapshot_caught_example :
    is_error (snapshot_verify_current (after platform watched smashed (λ e. omega arith))).0 ≡ true
snapshot_caught_example =
    snapshot_caught platform watched smashed (λ e. omega arith) 8 (omega arith) (omega arith)
      (λ e. omega arith)

effective_far-edge_example : effective_far platform (grown memory 10 main_saved) ≡ 14
unfolding grown
effective_far-edge_example =
    effective_far-edge platform platform-IsDescending (grown memory 10 main_saved)
      (grown-IsWhole memory 10 main_saved (refl, refl, refl, refl) (omega arith)) refl
