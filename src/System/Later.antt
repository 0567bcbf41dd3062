-- ===== src/System/Later.antt =====
-- tealet_run, to run later, from end to end.
use mathlib.Core.Bool.{false≢true}
use libtealet.Base.{
  ◌≤◌, ◌<◌, ◌≡◌, ◌≢◌, refl, sym, ap, ◌∙◌, inl, inr, true, false, ◌&&◌, has, Option, none,
  if◌then◌else◌, Bool-cases, eq→==, ne→==,
}
use libtealet.Platform.{Ptr, null, Platform, IsDescending}
use libtealet.Domain.{
  Domain, Tealet, TealetFlags, any_flag, Code, done, save_only, err_panic, is_error, put_tealet,
  set_flags,
}
use libtealet.Stack.{is_defunct}
use libtealet.Integrity.{guard_unprotect_current, snapshot_verify_current}
use libtealet.Transfer.{Stackman, IsStackman, check_caller_is_current, switch_checked, switchstack}
use libtealet.Transfer.Save.{IsFresh}
use libtealet.Api.{lock_auto, unlock_auto}
use libtealet.Api.Start.{
  Start, returned, entered, stub_switched, initialstub, run_ended, run, is_save_only, IsNew,
}
use libtealet.Api.Setup.{pick_initial_far}
use libtealet.System.{IsSound}
use libtealet.System.Guards.{essence, guard_unprotect-essence, snapshot_verify-essence}
use libtealet.System.Joined.{lock_auto-core, unlock_auto-core}
use libtealet.System.Alike.{unlock_auto-Alike}
use libtealet.System.Flags.{is_defunct-false}
use libtealet.System.Capture.{Captured, Capture, captures, out_of_room, switch_finish-Capture}
use libtealet.System.Started.{Staged, Begun, Staged-Primed, begun}

-- How a start for later ends.
abbrev pub IsBegun : (d : Domain) (p far : Ptr) → Start → Type 0
IsBegun d p far (returned code out d') = code ≡ done → Begun d d' p far
IsBegun d p far (entered arg d') = ⊥

lock_auto-machine :
    (d : Domain)
    → ((lock_auto d).mem ≡ d.mem) × ((lock_auto d).sp ≡ d.sp) × ((lock_auto d).answers ≡ d.answers)
unfolding lock_auto
lock_auto-machine d = elim (Bool-cases (d.locking.auto && d.locking.lock)) [
  | inl e ↦ rw e (refl, refl, refl)
  | inr e ↦ rw e (refl, refl, refl)
]

same-Staged :
    (d x c : Domain) (p far a b z : Ptr)
    → essence c ≡ essence x
    → Staged d x p far
    → Staged d (record c { previous = a; target = b; arg = z }) p far
same-Staged d x c p far a b z same g = record {
  stacks = ap (λ k. k.1) same ∙ g.stacks;
  prev = ap (λ k. k.3) same ∙ g.prev;
  all = ap (λ k. k.0.0) same ∙ g.all;
  main = ap (λ k. k.0.1) same ∙ g.main;
  mem = ap (λ k. k.4) same ∙ g.mem;
  sp = ap (λ k. k.5) same ∙ g.sp;
  answers = ap (λ k. k.6) same ∙ g.answers;
  current = ap (λ k. k.0.2) same ∙ g.current;
  blank = ap (λ k. (k.2 p).stack) same ∙ g.blank;
  boundary = ap (λ k. (k.2 p).stack_far) same ∙ g.boundary;
  flags = ap (λ k. (k.2 p).flags) same ∙ g.flags;
  elsewhere = λ t n. ap (λ k. k.2 t) same ∙ g.elsewhere t n;
}

-- What tealet_switchstack answers to such a start.
data Answer (d : Domain) (p far : Ptr) (r : Code × Option Ptr × Domain) : Type 0 where
  bad : is_error r.0 ≡ true → Answer d p far r
  good :
      (e : Domain)
      → Staged d e p far
      → e.target ≡ d.current
      → r.0 ≡ save_only
      → Captured e r.2
      → Answer d p far r

module _ (pf : Platform) (law : IsDescending pf) (sm : Stackman) (doc : IsStackman sm) (d : Domain)
    (p far : Ptr) (s : IsSound d) (known : has p d.all ≡ true) (other : p ≢ d.current)
    (fresh_new : (d.tealets p).stack ≡ null) (fresh : IsFresh d) (inside : d.sp < far)
    (near_enough : far ≤ (d.tealets d.current).stack_far)
    (nothing : (d.stacks null).refcount ≡ 0) where
  turned_to :
      (e : Domain) (r : Code × Option Ptr × Domain)
      → Staged d e p far
      → e.target ≡ d.current
      → Capture e r
      → Answer d p far r
  turned_to e r g at (out_of_room code out m) = bad (ap is_error code)
  turned_to e r g at (captures code out c) = elim (Bool-cases e.flags.main_panic) [
    | inl h ↦ bad (ap is_error (code ∙ ap (λ b. if b then err_panic else save_only) h))
    | inr h ↦ good e g at (code ∙ ap (λ b. if b then err_panic else save_only) h) c
  ]

  checked-Answer :
      (x : Domain) → Staged d x p far → Answer d p far (switch_checked pf sm d.current null x)
  unfolding switch_checked
  checked-Answer x g =
      let c = (snapshot_verify_current (guard_unprotect_current x)).1 in
      let same : essence c ≡ essence x = snapshot_verify-essence _ ∙ guard_unprotect-essence x in
      let start = record c { previous = c.current; target = d.current; arg = null } in
      let g' = same-Staged d x c p far c.current d.current null same g in
      elim (Bool-cases (is_error (snapshot_verify_current (guard_unprotect_current x)).0)) [
        | inl e ↦ rw e (bad e)
        | inr e ↦ rw e (
            turned_to start _ g' refl (
              switch_finish-Capture pf law sm doc start
                (Staged-Primed d p far s known other fresh_new fresh inside near_enough nothing
                  start g' refl)
                x.previous))
      ]

  switchstack-Answer :
      (x : Domain) → Staged d x p far → Answer d p far (switchstack pf sm d.current null x)
  unfolding switchstack
  switchstack-Answer x g = elim (Bool-cases (x.tealets d.current).flags.exited) [
    | inl e ↦ rw e (bad refl)
    | inr e ↦ elim (Bool-cases (is_defunct d.current x).0) [
      | inl f ↦ rw (e, f) (bad refl)
      | inr f ↦
          let (same, unmarked, alive) = is_defunct-false d.current x f in
          rw (e, f, same)
            (elim (Bool-cases (is_error (check_caller_is_current pf x))) [
              | inl h ↦ rw h (bad h)
              | inr h ↦ rw h (checked-Answer x g)
            ])
    ]
  ]

  answered :
      (previous : Ptr) (r : Code × Option Ptr × Domain)
      → Answer d p far r
      → IsBegun d p far (run_ended pf sm p d.current previous false (stub_switched false none r))
  unfolding stub_switched run_ended is_save_only
  answered previous r (bad e) = rw (e, e) (λ h. absurd (false≢true (sym (ap is_error h) ∙ e)))
  answered previous r (good e g at code c) = rw code (λ h.
      begun d p far s known other fresh_new fresh inside near_enough nothing e r.2
        (unlock_auto (record (r.2) { previous = previous })) g at c
        (unlock_auto-core (record (r.2) { previous = previous }))
        (unlock_auto-Alike (record (r.2) { previous = previous })).mem)

-- tealet_run, to run later, of a listed NEW tealet on a sound domain, where its far boundary
-- lies beyond the stack pointer and no farther than that of the caller's tealet, the allocator
-- hands out no block in use and nothing stands at NULL: the given function is not entered, and
-- if the result is 0, the new tealet is suspended with the bytes of memory from the stack
-- pointer to its far boundary, the caller's tealet still runs, memory is as it was, every
-- other suspended tealet has its bytes, and the domain is sound.
pub run-IsBegun :
    (pf : Platform) (law : IsDescending pf) (sm : Stackman) (doc : IsStackman sm) (d : Domain)
    (p arg default_far stack_far : Ptr) (s : IsSound d) (known : has p d.all ≡ true)
    (other : p ≢ d.current) (fresh_new : IsNew (d.tealets p)) (fresh : IsFresh d)
    (inside : d.sp < pick_initial_far pf default_far stack_far)
    (near_enough : pick_initial_far pf default_far stack_far ≤ (d.tealets d.current).stack_far)
    (nothing : (d.stacks null).refcount ≡ 0)
    → IsBegun d p
        (pick_initial_far pf default_far stack_far)
        (run pf sm p arg default_far stack_far false d)
unfolding run initialstub
run-IsBegun pf law sm doc d p arg default_far stack_far s known other fresh_new fresh inside
      near_enough nothing =
    let far = pick_initial_far pf default_far stack_far in
    let before = set_flags p (record ((d.tealets p).flags) { bound = true }) d in
    let l = lock_auto before in
    let x = put_tealet p (record (l.tealets p) { stack_far = far }) (record l { current = p }) in
    let c = lock_auto-core before in
    let machine = lock_auto-machine before in
    let blank : any_flag (d.tealets p).flags ≡ false = ap any_flag fresh_new.2 in
    let self : l.tealets p
        ≡ record (d.tealets p) { flags = record ((d.tealets p).flags) { bound = true } } =
      ap (λ k. k.1 p) c ∙ rw (eq→== p p refl) refl in
    let at_p : x.tealets p ≡ record (l.tealets p) { stack_far = far } = rw (eq→== p p refl) refl in
    let g : Staged d x p far = record {
      stacks = ap (λ k. k.0) c;
      prev = ap (λ k. k.2) c;
      all = ap (λ k. k.3) c;
      main = ap (λ k. k.4) c;
      mem = machine.0;
      sp = machine.1;
      answers = machine.2;
      current = refl;
      blank = ap (λ (t : Tealet). t.stack) at_p ∙ (ap (λ (t : Tealet). t.stack) self ∙ fresh_new.0);
      boundary = ap (λ (t : Tealet). t.stack_far) at_p;
      flags =
          ap (λ (t : Tealet). t.flags) at_p
          ∙ (ap (λ (t : Tealet). t.flags) self
              ∙ ap (λ (f : TealetFlags). record f { bound = true }) fresh_new.2);
      elsewhere = λ t n. rw (ne→== t p n) (ap (λ k. k.1 t) c ∙ rw (ne→== t p n) refl);
    } in
    rw (blank, ne→== p d.current other)
      (answered pf law sm doc d p far s known other fresh_new.0 fresh inside near_enough nothing
        l.previous (switchstack pf sm d.current null x)
        (switchstack-Answer pf law sm doc d p far s known other fresh_new.0 fresh inside near_enough
          nothing x g))
