-- ===== src/System/Implicit.antt =====
-- The function of a tealet returns: its implicit exit.
use mathlib.Core.Bool.{false≢true}
use libtealet.Base.{
  ◌≡◌, refl, sym, ap, subst, ◌∙◌, ◌⊎◌, inl, inr, Bool, true, false, List, erase, has, ◌≢◌, ne→==,
  ◌&&◌, Option, none, if◌then◌else◌, Bool-cases,
}
use libtealet.Platform.{Ptr, null, Platform, IsDescending}
use libtealet.Domain.{Domain, XferFlags, xfer_default, Code, done, freed_tealet}
use libtealet.Transfer.{Stackman, IsStackman}
use libtealet.Api.{exit, lock_auto, unlock_auto}
use libtealet.Api.Finish.{exit_flags, exit_arg, resolved, run_returned}
use libtealet.System.{IsSound}
use libtealet.System.Leaver.{exit-Quits}
use libtealet.System.Nofail.{IsOpen, Steady-IsOpen, Quits, gone, refused}
use libtealet.System.Steady.{Steady, Steady-refl, Steady-trans}
use libtealet.System.Switched.{core, core-IsSound}

resolved-core : (d : Domain) → core (resolved d) ≡ core d
resolved-core d = elim (Bool-cases d.flags.defer) [ inl e ↦ rw e refl | inr e ↦ rw e refl ]

-- The signals of an exit and its argument are no part of it.
signals : (d : Domain) → Steady d (record d { flags = xfer_default; arg = null })
signals d = record {
  mem = refl;
  sp = refl;
  current = refl;
  main = refl;
  all = refl;
  supply = λ a m. m;
  held = λ t. refl;
  far = λ t. refl;
  bound = λ t. refl;
  count = λ j. refl;
}

resolved-Steady : (d : Domain) → Steady d (resolved d)
resolved-Steady d = pick d.flags.defer (signals d) (Steady-refl d)
  where
    pick : (b : Bool) {x y : Domain} → Steady d x → Steady d y → Steady d (if b then x else y)
    pick true a c = a
    pick false a c = c

resolved-defer : (d : Domain) → (resolved d).flags.defer ≡ false
resolved-defer d = pick d.flags.defer refl
  where
    pick :
        (b : Bool)
        → d.flags.defer ≡ b
        → (if b then record d { flags = xfer_default; arg = null } else d).flags.defer ≡ false
    pick true e = refl
    pick false e = e

exit_flags-defer : (d : Domain) → (exit_flags d).defer ≡ false
exit_flags-defer d = elim (Bool-cases d.flags.defer) [ inl e ↦ rw e refl | inr e ↦ rw e refl ]

-- What was so before the signals of an exit were taken up is so after it.
resolved-Quits :
    (d : Domain) (target : Ptr) (r : Code × Option Ptr × Domain)
    → Quits (resolved d) target r
    → Quits d target r
resolved-Quits d target r (gone where_to g sound) =
    let y = resolved-Steady d in
    gone (elim where_to [ inl e ↦ inl e | inr e ↦ inr (e ∙ y.main) ])
      (subst
        (λ (c : List Ptr × Ptr).
          ((r.2.all ≡ c.0) × ((r.2.tealets c.1).flags.exited ≡ true))
          ⊎ ((r.2.all ≡ erase c.1 c.0) × (r.2.tealets c.1 ≡ freed_tealet)))
        (ap (λ k. (k.3, k.5)) (resolved-core d)) g)
      sound
resolved-Quits d target r (refused err fine y sound) =
    refused err fine (Steady-trans d (resolved d) r.2 (resolved-Steady d) y) sound

module _ (pf : Platform) (law : IsDescending pf) (sm : Stackman) (doc : IsStackman sm)
    (target : Ptr) (d : Domain) (s : IsSound d) (o : IsOpen d target)
    (way_out : IsOpen d d.main) where
  -- The implicit exit of a tealet other than the main one whose function has returned a
  -- target, in a sound domain, with the signals of a deferred tealet_exit (whose target the
  -- code has not kept: it goes to the one returned) or without: if that target and the main
  -- tealet have been started and share their stacks with nobody, the stack pointer is on the
  -- running tealet's stack and the allocator hands out no block in use, then either that
  -- target or the main tealet runs in a sound domain and the tealet is marked as exited, or
  -- freed and off the list; or an error other than TEALET_ERR_MEM comes back, upon which the
  -- code aborts, in a sound domain where nobody has moved.
  pub run_returned-Quits : Quits d target (run_returned pf sm target d)
  unfolding run_returned
  run_returned-Quits =
      let y = resolved-Steady d in
      let real : target ≢ null =
        λ e. false≢true (sym s.no_null ∙ subst (λ k. has k d.all ≡ true) e o.called.is_known) in
      rw (ne→== target null real) (
        resolved-Quits d target _ (
          exit-Quits pf law sm doc target (exit_arg d) (exit_flags d) (resolved d)
            (core-IsSound d (resolved d) (resolved-core d) s) (exit_flags-defer d)
            (resolved-defer d) refl (Steady-IsOpen d (resolved d) target y o)
            (subst (IsOpen (resolved d)) (sym y.main)
              (Steady-IsOpen d (resolved d) d.main y way_out))))

unlock_auto-signals :
    (f : XferFlags) (a : Ptr) (d : Domain)
    → unlock_auto (record d { flags = f; arg = a }) ≡ record (unlock_auto d) { flags = f; arg = a }
unfolding unlock_auto
unlock_auto-signals f a d = elim (Bool-cases (d.locking.auto && d.locking.unlock)) [
  | inl e ↦ rw e refl
  | inr e ↦ rw e refl
]

taken_up :
    (pf : Platform) (sm : Stackman) (t : Ptr) (d : Domain)
    → t ≢ null
    → d.flags.defer ≡ true
    → run_returned pf sm t d
      ≡ exit pf sm t d.arg
          (record (d.flags) { defer = false; nofail = true })
          (record d { flags = xfer_default; arg = null })
unfolding run_returned
taken_up pf sm t d real e = rw (ne→== t null real) (pick d.flags.defer e)
  where
    pick :
        (b : Bool)
        → b ≡ true
        → exit pf sm t
            (if b then d.arg else null)
            (record (if b then record (d.flags) { defer = false } else xfer_default) {
              nofail = true;
            })
            (if b then record d { flags = xfer_default; arg = null } else d)
          ≡ exit pf sm t d.arg
              (record (d.flags) { defer = false; nofail = true })
              (record d { flags = xfer_default; arg = null })
    pick true e = refl
    pick false e = absurd (cc)

deferred :
    (pf : Platform) (sm : Stackman) (target arg : Ptr) (flags : XferFlags) (d : Domain)
    → flags.defer ≡ true
    → (exit pf sm target arg flags d).2
      ≡ record (unlock_auto (lock_auto d)) { flags = flags; arg = arg }
unfolding exit
deferred pf sm target arg flags d e = pick flags.defer e _
  where
    pick :
        (b : Bool)
        → b ≡ true
        → (went : Code × Option Ptr × Domain)
        → (if b
            then (done, none, unlock_auto (record (lock_auto d) { arg = arg; flags = flags }))
            else went).2
          ≡ record (unlock_auto (lock_auto d)) { flags = flags; arg = arg }
    pick true e went = unlock_auto-signals flags arg (lock_auto d)
    pick false e went = absurd (cc)

-- What the code makes of a deferred exit (docs/API.md says otherwise: that the value returned
-- is ignored): after a tealet_exit with TEALET_EXIT_DEFER, to whatever target, the implicit
-- exit to the target that the function returns, which is not NULL, is the tealet_exit to that
-- one with the argument and the flags of the deferred call, but for DEFER and with NOFAIL, in
-- the state without signals. The target of the deferred call is lost.
pub run_returned-exit :
    (pf : Platform) (sm : Stackman) (t target arg : Ptr) (flags : XferFlags) (d : Domain)
    → t ≢ null
    → flags.defer ≡ true
    → run_returned pf sm t (exit pf sm target arg flags d).2
      ≡ exit pf sm t arg
          (record flags { defer = false; nofail = true })
          (record (unlock_auto (lock_auto d)) { flags = xfer_default; arg = null })
run_returned-exit pf sm t target arg flags d real e =
    ap (run_returned pf sm t) (deferred pf sm target arg flags d e)
    ∙ taken_up pf sm t (record (unlock_auto (lock_auto d)) { flags = flags; arg = arg }) real e
