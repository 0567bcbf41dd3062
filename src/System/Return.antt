-- ===== src/System/Return.antt =====
-- A tealet that is left and run again.
use libtealet.Base.{◌≤◌, ◌<◌, ◌≡◌, ◌≢◌, sym, ap, subst, ◌∙◌, true, false, Option, none, arith}
use libtealet.Platform.{Ptr, Platform, IsDescending}
use libtealet.Domain.{Domain, Code}
use libtealet.Stack.{stack_restore}
use libtealet.Stack.Image.{near}
use libtealet.Transfer.{Stackman, IsStackman, switchstack}
use libtealet.Transfer.Invariant.{IsLive}
use libtealet.Transfer.Suspend.{fail_ok}
use libtealet.Transfer.Switch.{parked, sacrificed}
use libtealet.System.{IsSound}
use libtealet.System.Outcome.{
  IsSuspended, Called, Resumed, Outcome, resumed, turned_down, out_of_memory,
}
use libtealet.System.Transfer.{switchstack-Outcome}
use libtealet.System.Step.{Away, Away-Kept, Away-IsSound}

pub took_place :
    (d : Domain) (target arg : Ptr) (r : Code × Option Ptr × Domain)
    → Outcome d target arg r
    → r.1 ≢ none
    → Resumed d target arg r
took_place d target arg r (resumed v) n = v
took_place d target arg r (turned_down err out m sp st c held sound) n = absurd (n out)
took_place d target arg r (out_of_memory err out m sp c held fate) n = absurd (n out)

module _ (pf : Platform) (law : IsDescending pf) (sm : Stackman) (doc : IsStackman sm) (d : Domain)
    (target arg : Ptr) (s : IsSound d) (ok : fail_ok d ≡ true) where
  back_again :
      (r : Code × Option Ptr × Domain)
      → Resumed d target arg r
      → (e : Domain) (back : Ptr) (r' : Code × Option Ptr × Domain) → Away pf sm d.current r.2 e
      → Resumed e d.current back r'
      → ((r'.2).current ≡ d.current)
        × ((r'.2).sp ≡ d.sp)
        × ((x : Ptr) → d.sp ≤ x → x < (d.tealets d.current).stack_far → (r'.2).mem x ≡ d.mem x)
  back_again r left e back r' away v = elim left.own [
    | sacrificed f a b ↦ absurd (cc)
    | parked p at live n far view u h k ↦
        let l : IsSuspended r.2 d.current =
          ((λ z. h (sym at ∙ z)), subst (λ j. IsLive ((r.2).stacks j)) (sym at) live) in
        let kept = Away-Kept pf law sm doc d.current r.2 e away left.sound l in
        let near_p = ap (λ j. near ((r.2).stacks j)) at ∙ n in
        let far_p = ap (λ j. ((r.2).stacks j).stack_far) at ∙ far in
        (
          v.current,
          v.sp ∙ (kept.view.same_near ∙ near_p),
          λ x lo hi.
              v.mem x
              ∙ (kept.view.view x (omega (arith, near_p)) (omega (arith, far_p))
                  ∙ (ap (λ j. stack_restore ((r.2).stacks j) (r.2).mem x) at ∙ view x lo hi)),
        )
  ]

  -- On a sound domain, of a transfer that is not forced: a tealet that transfers away by
  -- tealet_switchstack and is later transferred back to runs again at its stack pointer, with
  -- every byte from there to its far end as it left it. Both transfers took place, each was
  -- called as `Called` asks, and the first sends no panic; in between, the others may run,
  -- make, start (by tealet_run, to run later), duplicate and delete tealets, transfer among
  -- themselves and exit, as long as they do not delete this one, send no panic, force nothing,
  -- do not run out of memory in a tealet_switch, and the main tealet neither exits nor is
  -- duplicated.
  pub round_trip :
      Called d target
      → d.flags.main_panic ≡ false
      → (switchstack pf sm target arg d).1 ≢ none
      → (e : Domain) (back : Ptr) → Away pf sm d.current (switchstack pf sm target arg d).2 e
      → Called e d.current
      → (switchstack pf sm d.current back e).1 ≢ none
      → ((switchstack pf sm d.current back e).2.current ≡ d.current)
        × ((switchstack pf sm d.current back e).2.sp ≡ d.sp)
        × ((x : Ptr)
            → d.sp ≤ x
            → x < (d.tealets d.current).stack_far
            → (switchstack pf sm d.current back e).2.mem x ≡ d.mem x)
  round_trip c _ went e back away c' returned =
      let left =
        took_place d target arg _ (switchstack-Outcome pf law sm doc target arg d s c) went in
      back_again _ left e back _ away (
        took_place e d.current back _
          (switchstack-Outcome pf law sm doc d.current back e (sound_after left e away) c')
          returned)
    where
      sound_after :
          Resumed d target arg (switchstack pf sm target arg d)
          → (e : Domain) → Away pf sm d.current (switchstack pf sm target arg d).2 e
          → IsSound e
      sound_after left e away = Away-IsSound pf law sm doc d.current _ e away left.sound
