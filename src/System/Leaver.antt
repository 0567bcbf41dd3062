-- ===== src/System/Leaver.antt =====
-- tealet_exit itself, which takes the automatic lock around the transfer.
use mathlib.Core.Bool.{false≢true}
use libtealet.Base.{
  ◌≡◌, ◌≢◌, refl, sym, ap, subst, ◌∙◌, inl, inr, true, false, not, ◌&&◌, List, Option, Bool-cases,
  arith,
}
use libtealet.Platform.{Ptr, Platform, IsDescending}
use libtealet.Domain.{Domain, Event, XferFlags, Code}
use libtealet.Growth.Bands.{Grew}
use libtealet.Transfer.{Stackman, IsStackman}
use libtealet.Transfer.Invariant.{IsLive, SameView}
use libtealet.Transfer.Suspend.{fail_ok, survives, is_lost}
use libtealet.Transfer.Switch.{Grew-SameView}
use libtealet.Api.{xfer_nofail, xfer_inner, exit, lock_auto, unlock_auto}
use libtealet.System.{IsSound}
use libtealet.System.Alike.{Alike, Alike-Kept, lock_auto-Alike, unlock_auto-Alike}
use libtealet.System.Joined.{lock_auto-core, unlock_auto-core}
use libtealet.System.Kept.{Kept, Kept-trans}
use libtealet.System.Nofail.{
  IsOpen, Steady-IsOpen, IsGone, Quits, gone, refused, xfer_nofail-Quits, leaving-Steady,
}
use libtealet.System.Outcome.{IsSuspended, Called, safe, lost}
use libtealet.System.Quit.{
  leaving, staged_exit, leaving_lem, staged_exit-Steady, Leaves, over, back, xfer_inner-Leaves,
}
use libtealet.System.Steady.{Steady, Steady-trans}
use libtealet.System.Switched.{core-IsSound}

-- The log of lock calls is no part of it.
logged : {log : List Event} (d : Domain) → Steady d (record d { log = log })
logged d = record {
  mem = refl;
  sp = refl;
  current = refl;
  main = refl;
  all = refl;
  supply = λ a m. m;
  held = λ t. refl;
  far = λ t. refl;
  bound = λ t. refl;
  count = λ j. refl;
}

lock_auto-defer : (d : Domain) → (lock_auto d).flags.defer ≡ d.flags.defer
unfolding lock_auto
lock_auto-defer d = elim (Bool-cases (d.locking.auto && d.locking.lock)) [
  | inl e ↦ rw e refl
  | inr e ↦ rw e refl
]

lock_auto-Steady : (d : Domain) → Steady d (lock_auto d)
unfolding lock_auto
lock_auto-Steady d = elim (Bool-cases (d.locking.auto && d.locking.lock)) [
  | inl e ↦ rw e (logged d)
  | inr e ↦ rw e (logged d)
]

unlock_auto-Steady : (d : Domain) → Steady d (unlock_auto d)
unfolding unlock_auto
unlock_auto-Steady d = elim (Bool-cases (d.locking.auto && d.locking.unlock)) [
  | inl e ↦ rw e (logged d)
  | inr e ↦ rw e (logged d)
]

leaving-Alike : (flags : XferFlags) (d : Domain) → Alike d (leaving flags d)
unfolding staged_exit
leaving-Alike flags d =
    let held = (staged_exit-Steady flags d).held in
    subst (Alike d) (sym (leaving_lem flags d)) (record { mem = refl; stacks = refl; held = held })

-- A stack of which more is saved gives its tealet the bytes that it had.
Grew-Kept :
    (d d' : Domain) (u : Ptr)
    → d'.mem ≡ d.mem
    → (d'.tealets u).stack ≡ (d.tealets u).stack
    → IsSuspended d u
    → IsSound d
    → Grew d.mem (d.stacks (d.tealets u).stack) (d'.stacks (d.tealets u).stack)
    → Kept d d' u
Grew-Kept d d' u m at (held, live) s g =
    let p = (d.tealets u).stack in
    let here : SameView d.mem d'.mem (d.stacks p) (d'.stacks p) =
      Grew-SameView d.mem d'.mem (d.stacks p) (d'.stacks p) (d'.stacks p) (s.sliced.whole p live) g
        (subst (λ x. SameView d.mem x (d'.stacks p) (d'.stacks p)) (sym m)
          (record { same_near = refl; same_far = refl; view = λ q lo hi. refl })) in
    record {
      suspended = (
        (λ z. held (sym at ∙ z)),
        subst (λ q. IsLive (d'.stacks q)) (sym at)
            (omega (arith, g.same_count, live.0), g.same_mark ∙ live.1),
      );
      same_stack = at;
      view = subst (λ q. SameView d.mem d'.mem (d.stacks p) (d'.stacks q)) (sym at) here;
    }

module _ (pf : Platform) (law : IsDescending pf) (sm : Stackman) (doc : IsStackman sm)
    (target arg : Ptr) (flags : XferFlags) (d : Domain) (s : IsSound d)
    (at_once : flags.defer ≡ false) (settled : d.flags.defer ≡ false) where
  abbrev within_lock : Domain
  within_lock = lock_auto d

  within_lock-IsSound : IsSound within_lock
  within_lock-IsSound = core-IsSound d within_lock (lock_auto-core d) s

  unlocked-Quits :
      (r : Code × Option Ptr × Domain)
      → Quits within_lock target r
      → Quits d target (r.0, r.1, unlock_auto r.2)
  unlocked-Quits r (gone where_to g sound) =
      let l = lock_auto-Steady d in
      let u = unlock_auto-core r.2 in
      gone
        (elim where_to [
          | inl e ↦ inl (ap (λ c. c.5) u ∙ e)
          | inr e ↦ inr (ap (λ c. c.5) u ∙ (e ∙ l.main))
        ])
        (subst (λ x. IsGone d (record r.2 { all = x.3; tealets = x.1 })) (sym u)
          (subst (λ x. IsGone (record d { all = x.3; current = x.5 }) r.2) (lock_auto-core d) g))
        (core-IsSound r.2 _ u sound)
  unlocked-Quits r (refused err fine y sound) =
      refused err fine
        (Steady-trans d within_lock _ (lock_auto-Steady d)
          (Steady-trans within_lock r.2 _ y (unlock_auto-Steady r.2)))
        (core-IsSound r.2 _ (unlock_auto-core r.2) sound)

  -- tealet_exit with NOFAIL, neither deferred itself nor made while an earlier one is
  -- deferred, in a sound domain, by a tealet other than the main one: if the target and the
  -- main tealet have been started and share their stacks with nobody, the stack pointer is on
  -- the running tealet's stack and the allocator hands out no block in use, then memory cannot
  -- hold it up. Either the target or the main tealet runs in a sound domain and the tealet
  -- that left is marked as exited, or freed and off the list; or an error other than
  -- TEALET_ERR_MEM is returned in a sound domain where nobody has moved.
  pub exit-Quits :
      flags.nofail ≡ true
      → IsOpen d target
      → IsOpen d d.main
      → Quits d target (exit pf sm target arg flags d)
  unfolding exit
  exit-Quits nofail o way_out =
      let l = lock_auto-Steady d in
      let now : within_lock.flags.defer ≡ false = lock_auto-defer d ∙ settled in
      rw (now, at_once, nofail)
        (unlocked-Quits (xfer_nofail pf sm target arg flags true within_lock) (
          xfer_nofail-Quits pf law sm doc target arg flags within_lock within_lock-IsSound
            (Steady-IsOpen d within_lock target l o)
            (subst (IsOpen within_lock) (sym l.main)
              (Steady-IsOpen d within_lock d.main l way_out))))

  module _ (plain : flags.nofail ≡ false) (c : Called (leaving flags within_lock) target)
      (not_main : d.current ≢ d.main) where
    abbrev transferred : Code × Option Ptr × Domain
    transferred = xfer_inner pf sm target arg flags true within_lock

    exit-plain : (exit pf sm target arg flags d).2 ≡ unlock_auto transferred.2
    unfolding exit
    exit-plain =
        let now : within_lock.flags.defer ≡ false = lock_auto-defer d ∙ settled in
        rw (now, at_once, plain) refl

    transferred-Leaves : Leaves within_lock target arg flags transferred
    transferred-Leaves =
        let l = lock_auto-Steady d in
        xfer_inner-Leaves pf law sm doc target arg flags within_lock within_lock-IsSound c
          (λ e. not_main (sym l.current ∙ (e ∙ l.main)))

    -- A tealet_exit leaves a sound domain, also when it runs out of memory.
    pub exit-IsSound : IsSound (exit pf sm target arg flags d).2
    exit-IsSound = subst IsSound (sym exit-plain) (
        core-IsSound transferred.2 _ (unlock_auto-core transferred.2)
          (elim transferred-Leaves [ over v ↦ v.sound | back err out y sound why fate ↦ sound ]))

    Leaves-Kept :
        (u : Ptr)
        → fail_ok (leaving flags within_lock) ≡ true
        → IsSuspended within_lock u
        → u ≢ target
        → Kept within_lock transferred.2 u
    Leaves-Kept u ok l n = elim transferred-Leaves [
      | over v ↦
          let staged = leaving flags within_lock in
          let same = leaving-Alike flags within_lock in
          let k = Alike-Kept within_lock staged u same l in
          let away : u ≢ staged.current = λ i. l.0 (
            ap (λ j. (within_lock.tealets j).stack) (i ∙ (leaving-Steady flags within_lock).current)
            ∙ within_lock-IsSound.running) in
          Kept-trans within_lock staged transferred.2 u k (elim (v.others u away n k.suspended) [
            | safe a b view ↦ record { suspended = a; same_stack = b; view = view }
            | lost f m ↦ absurd (false≢true (sym (ap not ok) ∙ f))
          ])
      | back err out y sound why fate ↦ elim (fate (within_lock.tealets u).stack) [
        | survives g ↦
            Grew-Kept within_lock transferred.2 u y.mem (y.held u) l within_lock-IsSound g
        | is_lost a b e f h ↦ absurd (false≢true (sym (ap not ok) ∙ a))
      ]
    ]

    -- Neither does it cost another suspended tealet a byte, unless it is forced.
    pub exit-Kept :
        (u : Ptr)
        → fail_ok (leaving flags within_lock) ≡ true
        → IsSuspended d u
        → u ≢ target
        → Kept d (exit pf sm target arg flags d).2 u
    exit-Kept u ok l n =
        let k0 = Alike-Kept d within_lock u (lock_auto-Alike d) l in
        let k1 = Leaves-Kept u ok k0.suspended n in
        let k2 = Alike-Kept transferred.2 _ u (unlock_auto-Alike transferred.2) k1.suspended in
        subst (λ e. Kept d e u) (sym exit-plain)
          (Kept-trans d within_lock _ u k0 (Kept-trans within_lock transferred.2 _ u k1 k2))
