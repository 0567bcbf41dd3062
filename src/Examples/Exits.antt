-- ===== src/Examples/Exits.antt =====
-- Exits in the domain of three tealets.
use libtealet.Base.{◌≡◌, ◌≢◌, refl, inl, inr, true, false, arith}
use libtealet.Platform.{null}
use libtealet.Domain.{Domain, XferFlags, xfer_default, set_flags, err_mem}
use libtealet.Api.{stage, xfer_inner, exit, lock_auto, unlock_auto}
use libtealet.Api.Finish.{run_returned}
use libtealet.Transfer.{switchstack}
use libtealet.System.{IsSound}
use libtealet.System.Arrive.{switchstack_forced}
use libtealet.System.Flags.{set_flags-IsSound}
use libtealet.System.Implicit.{run_returned-Quits, run_returned-exit}
use libtealet.System.Leaver.{exit-Quits}
use libtealet.System.Nofail.{IsOpen, Quits}
use libtealet.System.Outcome.{Called}
use libtealet.System.Quit.{leaving, Leaves, xfer_inner-Leaves}
use libtealet.Examples.{
  domain, domain-IsFresh, platform, platform-IsDescending, stackman, stackman-IsStackman,
}
use libtealet.Examples.Life.{domain-IsSound, domain-Called}

-- The tealet is to be deleted when it has left.
abbrev deleting : XferFlags
deleting = record xfer_default { delete = true }

leaving-Called : Called (leaving deleting domain) 1
unfolding stage
leaving-Called = record {
  inside = omega arith;
  fresh = domain-IsFresh;
  other = λ e. absurd {A = _} (omega arith);
  is_known = refl;
  bound = refl;
  secure = inl refl;
}

xfer_inner-Leaves_example :
    Leaves domain 1 33 deleting (xfer_inner platform stackman 1 33 deleting true domain)
xfer_inner-Leaves_example =
    xfer_inner-Leaves platform platform-IsDescending stackman stackman-IsStackman 1 33 deleting
      domain domain-IsSound leaving-Called (λ e. absurd {A = _} (omega arith))

abbrev insisting : XferFlags
insisting = record deleting { nofail = true }

seven-IsOpen : IsOpen domain 7
seven-IsOpen = record {
  called = record {
    inside = omega arith;
    fresh = domain-IsFresh;
    other = λ e. absurd {A = _} (omega arith);
    is_known = refl;
    bound = refl;
    secure = inl refl;
  };
  alone = omega arith;
}

main-IsOpen : IsOpen domain 1
main-IsOpen = record { called = domain-Called; alone = omega arith }

exit-Quits_example : Quits domain 7 (exit platform stackman 7 33 insisting domain)
exit-Quits_example =
    exit-Quits platform platform-IsDescending stackman stackman-IsStackman 7 33 insisting domain
      domain-IsSound refl refl refl seven-IsOpen main-IsOpen

-- The function of tealet 5 returns tealet 7.
run_returned-Quits_example : Quits domain 7 (run_returned platform stackman 7 domain)
run_returned-Quits_example =
    run_returned-Quits platform platform-IsDescending stackman stackman-IsStackman 7 domain
      domain-IsSound seven-IsOpen main-IsOpen

abbrev deferring : XferFlags
deferring = record deleting { defer = true }

run_returned-exit_example :
    run_returned platform stackman 7 (exit platform stackman 1 33 deferring domain).2
    ≡ exit platform stackman 7 33
        (record deferring { defer = false; nofail = true })
        (record (unlock_auto (lock_auto domain)) { flags = xfer_default; arg = null })
run_returned-exit_example =
    run_returned-exit platform stackman 7 1 33 deferring domain (λ e. absurd {A = _} (omega arith))
      refl

-- Tealet 5 forces its way.
abbrev forcing : Domain
forcing = set_flags 5 (record ((domain.tealets 5).flags) { saveforce = true }) domain

forcing-IsSound : IsSound forcing
forcing-IsSound =
    set_flags-IsSound 5 (record ((domain.tealets 5).flags) { saveforce = true }) domain refl
      (λ i j k. (i, j, k)) domain-IsSound

forcing-Called : Called forcing 1
forcing-Called = record {
  inside = omega arith;
  fresh = domain-IsFresh;
  other = λ e. absurd {A = _} (omega arith);
  is_known = refl;
  bound = refl;
  secure = inr (omega arith);
}

switchstack_forced_example :
    ((switchstack platform stackman 1 33 forcing).0 ≢ err_mem)
    × IsSound (switchstack platform stackman 1 33 forcing).2
switchstack_forced_example =
    switchstack_forced platform platform-IsDescending stackman stackman-IsStackman 1 33 forcing
      forcing-IsSound forcing-Called refl (inr (refl, omega arith))
