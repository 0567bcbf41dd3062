-- ===== src/System/Exit.antt =====
-- tealet_switchstack on a domain whose running tealet exits: the checks, and what follows the
-- switch.
use libtealet.Base.{◌≡◌, ◌≢◌, refl, sym, ap, subst, ◌∙◌, not, some, if◌then◌else◌, erase}
use libtealet.Platform.{Ptr, null, Platform}
use libtealet.Domain.{Domain, Tealet, done, err_panic, XferFlags, sw_err}
use libtealet.Growth.Walked.{Scarce}
use libtealet.Stack.{stack_restore}
use libtealet.Stack.Image.{near}
use libtealet.Transfer.{Stackman, clear_panic, rearm, switch_ended, switch_finish}
use libtealet.Transfer.Invariant.{IsLive}
use libtealet.Transfer.Suspend.{fail_ok, Fate}
use libtealet.Transfer.Leave.{Farewell, exited, deleted, Remained}
use libtealet.Transfer.Left.{Parts, Left, Parting, left, stayed}
use libtealet.System.{IsSound}
use libtealet.System.Base.{base, base-Fortune, fail_ok-base}
use libtealet.System.Guards.{essence, rearm-essence}
use libtealet.System.Left.{calmed, Left-IsSound}
use libtealet.System.Steady.{Steady, Steady-trans, essence-Steady}
use libtealet.System.Exiting.{Remained-Steady, Remained-calmed}
use libtealet.System.Replaced.{Replaced, Declined, Exiting, replaced, declined, Left-Fortune}
use libtealet.System.Switched.{core, core-IsSound}

Farewell-moved :
    (c : Ptr) (d e d' e' : Domain)
    → (d.all ≡ e.all) × (d.tealets c ≡ e.tealets c)
    → (d'.all ≡ e'.all) × (d'.tealets c ≡ e'.tealets c)
    → Farewell c e d'
    → Farewell c d e'
Farewell-moved c d e d' e' (a, b) (f, g) (exited x y z) =
    exited (ap (λ (t : Tealet). t.flags.autodelete) b ∙ x) (sym f ∙ (y ∙ sym a))
      (ap (λ (t : Tealet). t.flags.exited) (sym g) ∙ z)
Farewell-moved c d e d' e' (a, b) (f, g) (deleted x y z) =
    deleted (ap (λ (t : Tealet). t.flags.autodelete) b ∙ x) (sym f ∙ (y ∙ ap (erase c) (sym a)))
      (sym g ∙ z)

-- The registers of a transfer and its signals are no part of it.
pub unmoved :
    {previous target arg : Ptr} {flags : XferFlags} (d : Domain)
    → Steady
        (record d { previous = previous; target = target; arg = arg })
        (record d { flags = flags })
unmoved d = record {
  mem = refl;
  sp = refl;
  current = refl;
  main = refl;
  all = refl;
  supply = λ a m. m;
  held = λ t. refl;
  far = λ t. refl;
  bound = λ t. refl;
  count = λ j. refl;
}

-- `start` is the state at the switch, `d` the one that tealet_switchstack was called in.
module _ (pf : Platform) (sm : Stackman) (d start : Domain) (s : IsSound (calmed start))
    (same : essence (record start { previous = d.previous; target = d.target; arg = d.arg })
      ≡ essence d)
    (ready : Parts start) (not_main : start.current ≢ start.main) (old : Ptr) where
  abbrev target : Ptr
  target = start.target

  same_base : base start ≡ base d
  same_base = ap (λ x. (x.2, x.1, x.4, x.5, x.0.2, x.0.1, x.0.6)) same

  taken-Replaced :
      (e : Domain) → Left start e → Replaced d target start.arg (switch_finish pf sm old e)
  unfolding switch_finish switch_ended
  taken-Replaced e w =
      let landed = record e { current = e.target; target = null; arg = null } in
      let kin = rearm-essence pf landed in
      let stores : (e.mem ≡ (rearm pf landed).mem)
          × (e.stacks ≡ (rearm pf landed).stacks)
          × (e.tealets ≡ (rearm pf landed).tealets) =
        (sym (ap (λ c. c.4) kin), sym (ap (λ c. c.1) kin), sym (ap (λ c. c.2) kin)) in
      let kernel : core (clear_panic (rearm pf landed)) ≡ core (record e { current = target }) =
        ap (λ c. (c.1, c.2, c.3, c.0.0, c.0.1, c.0.2)) kin
        ∙ ap (λ c. (e.stacks, e.tealets, e.prev, e.all, e.main, c)) w.same_target in
      let who : start.current ≡ d.current = ap (λ x. x.0.2) same in
      subst (Replaced d target start.arg) (sym (ap (λ x. switch_ended pf sm old x e) w.sw))
        (record {
          code =
              ap (λ c. if c.0.6.main_panic then err_panic else done) kin
              ∙ (ap (λ f. if f.main_panic then err_panic else done) w.same_signals
                  ∙ ap (λ c. if c.6.main_panic then err_panic else done) same_base);
          out = ap some w.same_arg;
          current = ap (λ c. c.0.2) kin ∙ w.same_target;
          sp = ap (λ c. c.5) kin ∙ (w.sp ∙ ap (λ c. near (c.1 (c.0 target).stack)) same_base);
          mem = λ x.
              ap (λ c. c.4 x) kin
              ∙ (w.mem x ∙ ap (λ c. stack_restore (c.1 (c.0 target).stack) c.2 x) same_base);
          sound =
              core-IsSound _ _ kernel
                (Left-IsSound start e s ready.other ready.is_saved not_main w);
          bare =
              ap (λ c. (c.2 d.current).stack) kin
              ∙ subst (λ i. (e.tealets i).stack ≡ null) who w.bare;
          farewell =
              subst (λ i. Farewell i d (clear_panic (rearm pf landed))) who
                (Farewell-moved start.current d start e _
                  (sym (ap (λ x. x.0.0) same), sym (ap (λ x. x.2 start.current) same))
                  (sym (ap (λ c. c.0.0) kin), sym (ap (λ c. c.2 start.current) kin)) w.farewell);
          others = λ t n o l. base-Fortune start d same_base _ t (
              Left-Fortune start e _ t s w stores ready.is_saved (λ i. n (i ∙ who)) o
                (subst (λ c. ((c.0 t).stack ≢ 0) × IsLive (c.1 (c.0 t).stack)) (sym same_base) l));
        })

  stayed-Declined :
      (e : Domain)
      → Remained (start.tealets target).stack start e
      → Declined d target (switch_ended pf sm old sw_err (record e { sw = sw_err; sp = start.sp }))
  unfolding switch_ended
  stayed-Declined e r =
      let x = record e { sw = sw_err; sp = start.sp; previous = old; target = null; arg = null } in
      let kin = rearm-essence pf x in
      let y = Remained-Steady _ start e r in
      let a : Steady d start =
        Steady-trans d (record start { previous = d.previous; target = d.target; arg = d.arg })
          start (essence-Steady d _ same) (unmoved start) in
      let b : Steady e x = record {
        mem = refl;
        sp = sym y.sp;
        current = refl;
        main = refl;
        all = refl;
        supply = λ a m. m;
        held = λ t. refl;
        far = λ t. refl;
        bound = λ t. refl;
        count = λ j. refl;
      } in
      record {
        code = refl;
        out = refl;
        steady = Steady-trans d start _ a (
            Steady-trans start e _ y (
              Steady-trans e x _ b
                (Steady-trans x (rearm pf x) _ (essence-Steady x _ kin) (unmoved _))));
        sound =
            core-IsSound (calmed e) _
              (ap
                (λ c. core (
                  calmed (record e {
                    stacks = c.1;
                    tealets = c.2;
                    prev = c.3;
                    all = c.0.0;
                    main = c.0.1;
                    current = c.0.2;
                  })))
                kin)
              (Remained-calmed _ start e r s);
        fate = λ j.
            subst
              (λ z. Fate z (d.tealets target).stack j d.mem (d.stacks j) ((rearm pf x).stacks j))
              (ap not (fail_ok-base start d same_base))
              (subst
                (λ c.
                  Fate (not (fail_ok start)) (c.0 target).stack j c.2 (c.1 j)
                    ((rearm pf x).stacks j))
                same_base
                (subst
                  (λ st.
                    Fate (not (fail_ok start)) (start.tealets target).stack j start.mem
                      (start.stacks j) st)
                  (sym (ap (λ c. c.1 j) kin)) (r.fate j)));
        scarce = λ _.
            subst
              (λ c.
                Scarce (fail_ok (record d { tealets = c.2; current = c.0.2; main = c.0.1 }))
                  (c.2 target).stack (c.2 c.0.1).stack c.3 c.1)
              same r.scarce;
      }

  pub finish-Exiting :
      (e : Domain) → Parting start e → Exiting d target start.arg (switch_finish pf sm old e)
  unfolding switch_finish
  finish-Exiting e (left w) = replaced (taken-Replaced e w)
  finish-Exiting e (stayed h e0 r at) = declined (
      subst (Declined d target) (sym (ap (λ x. switch_ended pf sm old x.sw x) at))
        (stayed-Declined e0 r))
