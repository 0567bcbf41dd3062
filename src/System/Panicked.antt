-- ===== src/System/Panicked.antt =====
-- The panic signal and a tealet that tealet_run has made for later.
use libtealet.Base.{
  ◌≡◌, ◌≢◌, sym, ap, ◌∙◌, true, false, not, Option, none, refl, ne→==, if◌then◌else◌,
}
use libtealet.Platform.{Ptr, null, Platform, IsDescending}
use libtealet.Domain.{Domain, Code, done, err_panic}
use libtealet.Transfer.{Stackman, IsStackman, switchstack}
use libtealet.Transfer.Suspend.{fail_ok}
use libtealet.Api.Start.{Start, returned, entered, new_again, run_resumed}
use libtealet.System.{IsSound}
use libtealet.System.Joined.{unlock_auto-core}
use libtealet.System.Outcome.{Called, IsSuspended, Fortune, safe, lost}
use libtealet.System.Return.{took_place}
use libtealet.System.Transfer.{switchstack-Outcome}

-- The function is not entered, and the domain is not sound.
abbrev pub IsAstray : Ptr → Start → Type 0
IsAstray caller (entered arg d) = ⊥
IsAstray caller (returned code out d) = (d.current ≡ caller) × ¬ IsSound d

module _ (pf : Platform) (law : IsDescending pf) (sm : Stackman) (doc : IsStackman sm)
    (p arg caller previous : Ptr) (d : Domain) (other : caller ≢ p) where
  -- A caller whose stack is saved is made the running tealet.
  astray :
      (r : Code × Option Ptr × Domain)
      → r.0 ≡ err_panic
      → ((r.2).tealets caller).stack ≢ null
      → IsAstray caller (run_resumed pf sm p caller previous false none r)
  unfolding run_resumed
  astray r panic held =
      let c = unlock_auto-core (record (new_again p (r.2)) { current = caller }) in
      rw panic (
        ap (λ k. k.5) c,
        (λ t.
            held (rw (ne→== caller p other) refl ∙ sym (ap (λ k. (k.1 k.5).stack) c) ∙ t.running)),
      )

  still_saved :
      fail_ok d ≡ true
      → (r : Code × Option Ptr × Domain) → Fortune (not (fail_ok d)) d r.2 caller
      → ((r.2).tealets caller).stack ≢ null
  still_saved ok r (safe l same view) = l.0
  still_saved ok r (lost forced mark) = absurd (cc)

  -- What a transfer with the panic signal does to a tealet that tealet_run has made for later,
  -- in the code: on a sound domain, of a transfer to it by tealet_switchstack that is not
  -- forced, called as `Called` asks, and takes place, where the one that once called
  -- tealet_run, another one than either, is suspended. In the frame that is brought back
  -- tealet_run takes TEALET_ERR_PANIC for a failed start: it returns, makes that suspended
  -- caller the running tealet, and the domain is no longer sound.
  pub run_resumed_panic :
      IsSound d
      → Called d p
      → fail_ok d ≡ true
      → d.flags.main_panic ≡ true
      → caller ≢ d.current
      → IsSuspended d caller
      → (switchstack pf sm p arg d).1 ≢ none
      → IsAstray caller (run_resumed pf sm p caller previous false none (switchstack pf sm p arg d))
  run_resumed_panic s c ok panic away l went =
      let r = switchstack pf sm p arg d in
      let v = took_place d p arg r (switchstack-Outcome pf law sm doc p arg d s c) went in
      astray r (v.code ∙ ap (λ b. if b then err_panic else done) panic)
        (still_saved ok r (v.others caller away other l))
