-- ===== src/System/Call.antt =====
-- tealet_switch, without NOFAIL, on a domain between two calls.
use libtealet.Base.{
  ◌≡◌, ◌≢◌, refl, sym, subst, ◌∙◌, inl, inr, true, false, Option, ◌==◌, Bool-cases, ==→eq, ne→==,
}
use libtealet.Platform.{Ptr, Platform, IsDescending}
use libtealet.Domain.{Domain, TealetFlags, XferFlags, Code, err_mem, is_error, set_flags}
use libtealet.Transfer.{Stackman, IsStackman, switchstack}
use libtealet.Transfer.Suspend.{fail_ok}
use libtealet.Api.{stage, xfer_done, xfer_staged, xfer_inner, switch, lock_auto, unlock_auto}
use libtealet.System.{IsSound}
use libtealet.System.Switched.{core-IsSound}
use libtealet.System.Flags.{set_flags-IsSound, set_flags-stack}
use libtealet.System.Joined.{lock_auto-core, unlock_auto-core}
use libtealet.System.Outcome.{IsSuspended, Called, Outcome}
use libtealet.System.Transfer.{switchstack-Outcome}
use libtealet.System.Alike.{Alike, Alike-trans, Alike-Kept, lock_auto-Alike, unlock_auto-Alike}
use libtealet.System.Kept.{Kept, Kept-trans, Outcome-Kept, Outcome-IsSound}

flags-Alike : (p : Ptr) (f : TealetFlags) (d : Domain) → Alike d (set_flags p f d)
flags-Alike p f d = record { mem = refl; stacks = refl; held = set_flags-stack p f d }

stage-Alike : (flags : XferFlags) (d : Domain) → Alike d (stage flags d)
unfolding stage
stage-Alike flags d =
    let f = record ((d.tealets d.current).flags) { saveforce = true } in
    let same = flags-Alike d.current f d in
    elim (Bool-cases flags.force) [
      | inl e ↦ elim (Bool-cases flags.panic) [
        | inl g ↦ rw (e, g) (record { mem = refl; stacks = refl; held = same.held })
        | inr g ↦ rw (e, g) same
      ]
      | inr e ↦ elim (Bool-cases flags.panic) [
        | inl g ↦ rw (e, g) (record { mem = refl; stacks = refl; held = λ t. refl })
        | inr g ↦ rw (e, g) (record { mem = refl; stacks = refl; held = λ t. refl })
      ]
    ]

stage-IsSound : (flags : XferFlags) (d : Domain) → IsSound d → IsSound (stage flags d)
unfolding stage
stage-IsSound flags d s =
    let forced : Domain =
      set_flags d.current (record ((d.tealets d.current).flags) { saveforce = true }) d in
    let s' : IsSound forced =
      set_flags-IsSound d.current _ d (s.staying d.current) (λ i j k. (i, j, k)) s in
    elim (Bool-cases flags.force) [
      | inl e ↦ elim (Bool-cases flags.panic) [
        | inl g ↦ rw (e, g) (core-IsSound forced _ refl s')
        | inr g ↦ rw (e, g) s'
      ]
      | inr e ↦ elim (Bool-cases flags.panic) [
        | inl g ↦ rw (e, g) (core-IsSound d _ refl s)
        | inr g ↦ rw (e, g) s
      ]
    ]

-- Who runs, and who has been started, is left alone.
stage-rest :
    (flags : XferFlags) (d : Domain)
    → ((t : Ptr) → ((stage flags d).tealets t).flags.bound ≡ (d.tealets t).flags.bound)
      × ((stage flags d).current ≡ d.current)
unfolding stage
stage-rest flags d =
    let f = record ((d.tealets d.current).flags) { saveforce = true } in
    let same : (t : Ptr)
        → ((set_flags d.current f d).tealets t).flags.bound ≡ (d.tealets t).flags.bound =
      λ t. elim (Bool-cases (t == d.current)) [
        | inl e ↦ rw (e, ==→eq t d.current e) refl
        | inr e ↦ rw e refl
      ] in
    elim (Bool-cases flags.force) [
      | inl e ↦ elim (Bool-cases flags.panic) [
        | inl g ↦ rw (e, g) (same, refl)
        | inr g ↦ rw (e, g) (same, refl)
      ]
      | inr e ↦ elim (Bool-cases flags.panic) [
        | inl g ↦ rw (e, g) ((λ t. refl), refl)
        | inr g ↦ rw (e, g) ((λ t. refl), refl)
      ]
    ]

module _ (pf : Platform) (sm : Stackman) where
  xfer_done-code : (r : Code × Option Ptr × Domain) → (xfer_done pf sm r).0 ≡ r.0
  unfolding xfer_done
  xfer_done-code r = refl

  xfer_done-Alike : (r : Code × Option Ptr × Domain) → Alike r.2 (xfer_done pf sm r).2
  unfolding xfer_done
  xfer_done-Alike r = elim (Bool-cases (is_error r.0)) [
    | inl e ↦ rw e (flags-Alike (r.2).current _ r.2)
    | inr e ↦ rw e (record { mem = refl; stacks = refl; held = λ t. refl })
  ]

  xfer_done-IsSound : (r : Code × Option Ptr × Domain) → IsSound r.2 → IsSound (xfer_done pf sm r).2
  unfolding xfer_done
  xfer_done-IsSound r s = elim (Bool-cases (is_error r.0)) [
    | inl e ↦ rw e (set_flags-IsSound (r.2).current _ r.2 refl (λ i j k. (i, j, k)) s)
    | inr e ↦ rw e s
  ]

  -- A call that is not to the running tealet comes to one of tealet_switchstack.
  module _ (target arg : Ptr) (flags : XferFlags) (d : Domain) (once : flags.nofail ≡ false)
      (c : Called (stage flags (lock_auto d)) target) where
    abbrev pub staged : Domain
    staged = stage flags (lock_auto d)

    abbrev switched_over : Code × Option Ptr × Domain
    switched_over = switchstack pf sm target arg staged

    pub switch-staged :
        ((switch pf sm target arg flags d).0 ≡ switched_over.0)
        × ((switch pf sm target arg flags d).2 ≡ unlock_auto (xfer_done pf sm switched_over).2)
    unfolding switch xfer_inner xfer_staged
    switch-staged =
        let l = lock_auto d in
        let rest = stage-rest flags l in
        let bound : (l.tealets target).flags.bound ≡ true = sym (rest.0 target) ∙ c.bound in
        let away = ne→== target l.current (λ i. c.other (i ∙ sym rest.1)) in
        rw (once, bound, away) (xfer_done-code switched_over, refl)

    module _ (law : IsDescending pf) (doc : IsStackman sm) (s : IsSound d)
        (fine : (switch pf sm target arg flags d).0 ≢ err_mem) where
      staged-IsSound : IsSound staged
      staged-IsSound =
          stage-IsSound flags (lock_auto d) (core-IsSound d (lock_auto d) (lock_auto-core d) s)

      outcome : Outcome staged target arg switched_over
      outcome = switchstack-Outcome pf law sm doc target arg staged staged-IsSound c

      mem_held : switched_over.0 ≢ err_mem
      mem_held e = fine (switch-staged.0 ∙ e)

      -- A call of tealet_switch that does not run out of memory leaves a sound domain.
      pub switch-IsSound : IsSound (switch pf sm target arg flags d).2
      switch-IsSound = subst IsSound (sym switch-staged.1) (
          core-IsSound (xfer_done pf sm switched_over).2 _ (unlock_auto-core _) (
            xfer_done-IsSound switched_over
              (Outcome-IsSound staged target arg switched_over mem_held outcome)))

      -- Neither does it cost another suspended tealet a byte, unless it is forced.
      pub switch-Kept :
          (u : Ptr)
          → fail_ok staged ≡ true
          → IsSuspended d u
          → u ≢ target
          → Kept d (switch pf sm target arg flags d).2 u
      switch-Kept u ok l n =
          let start =
            Alike-trans d (lock_auto d) staged (lock_auto-Alike d)
              (stage-Alike flags (lock_auto d)) in
          let k0 = Alike-Kept d staged u start l in
          let k1 =
            Outcome-Kept staged target arg switched_over u staged-IsSound ok k0.suspended n mem_held
              outcome in
          let finish =
            Alike-trans switched_over.2 (xfer_done pf sm switched_over).2 _
              (xfer_done-Alike switched_over)
              (unlock_auto-Alike (xfer_done pf sm switched_over).2) in
          let k2 = Alike-Kept switched_over.2 _ u finish k1.suspended in
          subst (λ e. Kept d e u) (sym switch-staged.1)
            (Kept-trans d staged _ u k0 (Kept-trans staged switched_over.2 _ u k1 k2))
