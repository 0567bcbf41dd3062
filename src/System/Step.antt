-- ===== src/System/Step.antt =====
-- The life of a domain: what the running tealet does to memory, and the calls that it makes of
-- the library, in any order and number.
use mathlib.Core.Bool.{false≢true}
use libtealet.Base.{◌<◌, subst, Option, ◌≤◌, ◌≡◌, ◌≢◌, refl, sym, Bool, true, false, not, List, has}
use libtealet.Platform.{Ptr, null, Platform, IsDescending}
use libtealet.Memory.{Mem}
use libtealet.Domain.{Domain, XferFlags, Code, done, err_mem}
use libtealet.Transfer.{Stackman, IsStackman}
use libtealet.Transfer.Run.{run-SameView}
use libtealet.Transfer.Suspend.{fail_ok}
use libtealet.Api.{stage, lock_auto, new, duplicate, delete, switch, exit}
use libtealet.System.{IsSound}
use libtealet.System.Switched.{core-IsSound}
use libtealet.System.Enrol.{IsUnused, new-IsSound, duplicate-IsSound}
use libtealet.System.Delete.{delete-IsSound}
use libtealet.System.Others.{new-Kept, duplicate-Kept, delete-Kept}
use libtealet.System.Outcome.{IsSuspended, Called}
use libtealet.Transfer.Save.{IsFresh}
use libtealet.Api.Setup.{pick_initial_far}
use libtealet.Api.Start.{returned, run, IsNew}
use libtealet.System.Started.{Begun}
use libtealet.System.Later.{IsBegun, run-IsBegun}
use libtealet.System.Kept.{Kept, Kept-trans, same-Kept}
use libtealet.System.Call.{switch-IsSound, switch-Kept}
use libtealet.System.Implicit.{run_returned-Quits}
use libtealet.System.Leaver.{exit-IsSound, exit-Kept, exit-Quits}
use libtealet.System.Nofail.{IsOpen, Quits, gone, refused}
use libtealet.Api.Finish.{run_returned, exit_flags}
use libtealet.System.Quit.{leaving}

-- Nobody panics: a tealet that a start made for later takes the panic signal for a failure of that
-- start.
abbrev pub IsCalm : Domain → XferFlags → Type 0
IsCalm d flags = (flags.panic ≡ false) × (d.flags.main_panic ≡ false)

-- One step: whether a transfer is forced in it, the tealet that it runs or ends (NULL for none),
-- and the two states. A start is one for later that succeeds, of a NEW tealet; a transfer is one
-- without NOFAIL to another tealet that does not run out of memory. An exit is one without NOFAIL
-- that nobody defers, by a tealet other than the main one; it may run out of memory. One with NOFAIL
-- (`insists`) and the implicit one of a function that returns need a target and a main tealet that
-- share their stacks with nobody. Neither a transfer nor an exit panics, but for the way out of
-- NOFAIL, to the main tealet.
pub data Step (pf : Platform) (sm : Stackman) : Bool → Ptr → Domain → Domain → Type 0 where
  runs :
      {d : Domain} (m : Mem) (sp probe : Ptr) (answers : List Ptr)
      → ((x : Ptr) → (d.tealets d.current).stack_far ≤ x → m x ≡ d.mem x)
      → Step pf sm false null d (record d { mem = m; sp = sp; probe = probe; answers = answers })
  creates : {d : Domain} → IsUnused d → Step pf sm false null d (new pf d).1
  copies :
      {d : Domain} (t : Ptr)
      → IsUnused d
      → has t d.all ≡ true
      → t ≢ d.current
      → t ≢ d.main
      → Step pf sm false null d (duplicate pf t d).1
  ends :
      {d : Domain} (t : Ptr)
      → has t d.all ≡ true
      → t ≢ d.current
      → t ≢ d.main
      → Step pf sm false t d (delete pf t d)
  begins :
      {d e : Domain} (p arg default_far stack_far : Ptr) (out : Option Ptr)
      → has p d.all ≡ true
      → p ≢ d.current
      → IsNew (d.tealets p)
      → IsFresh d
      → d.sp < pick_initial_far pf default_far stack_far
      → pick_initial_far pf default_far stack_far ≤ (d.tealets d.current).stack_far
      → (d.stacks null).refcount ≡ 0
      → run pf sm p arg default_far stack_far false d ≡ returned done out e
      → Step pf sm false null d e
  switches :
      {d : Domain} (t arg : Ptr) (flags : XferFlags)
      → IsCalm d flags
      → flags.nofail ≡ false
      → Called (stage flags (lock_auto d)) t
      → (switch pf sm t arg flags d).0 ≢ err_mem
      → Step pf sm (not (fail_ok (stage flags (lock_auto d)))) t d (switch pf sm t arg flags d).2
  exits :
      {d : Domain} (t arg : Ptr) (flags : XferFlags)
      → IsCalm d flags
      → flags.nofail ≡ false
      → flags.defer ≡ false
      → d.flags.defer ≡ false
      → Called (leaving flags (lock_auto d)) t
      → d.current ≢ d.main
      → Step pf sm (not (fail_ok (leaving flags (lock_auto d)))) t d (exit pf sm t arg flags d).2
  insists :
      {d : Domain} (t arg : Ptr) (flags : XferFlags)
      → IsCalm d flags
      → flags.nofail ≡ true
      → flags.defer ≡ false
      → d.flags.defer ≡ false
      → IsOpen d t
      → IsOpen d d.main
      → Step pf sm true t d (exit pf sm t arg flags d).2
  returns :
      {d : Domain} (t : Ptr)
      → IsCalm d (exit_flags d)
      → IsOpen d t
      → IsOpen d d.main
      → Step pf sm true t d (run_returned pf sm t d).2

pub data Reach (pf : Platform) (sm : Stackman) : Domain → Domain → Type 0 where
  start : {d : Domain} → Reach pf sm d d
  onward :
      {d e f : Domain} {forced : Bool} {t : Ptr}
      → Reach pf sm d e
      → Step pf sm forced t e f
      → Reach pf sm d f

-- No step runs or ends `u`, and no transfer is forced.
pub data Away (pf : Platform) (sm : Stackman) (u : Ptr) : Domain → Domain → Type 0 where
  here : {d : Domain} → Away pf sm u d d
  after :
      {d e f : Domain} {t : Ptr}
      → Away pf sm u d e
      → Step pf sm false t e f
      → u ≢ t
      → Away pf sm u d f

allowed : (b : Bool) → not b ≡ false → b ≡ true
allowed true e = refl
allowed false e = sym e

Quits-IsSound : (d : Domain) (t : Ptr) (r : Code × Option Ptr × Domain) → Quits d t r → IsSound r.2
Quits-IsSound d t r (gone where_to g sound) = sound
Quits-IsSound d t r (refused err fine y sound) = sound

module _ (pf : Platform) (law : IsDescending pf) (sm : Stackman) (doc : IsStackman sm) where
  begins-Begun :
      (d e : Domain) (p arg default_far stack_far : Ptr) (out : Option Ptr)
      → IsSound d
      → has p d.all ≡ true
      → p ≢ d.current
      → IsNew (d.tealets p)
      → IsFresh d
      → d.sp < pick_initial_far pf default_far stack_far
      → pick_initial_far pf default_far stack_far ≤ (d.tealets d.current).stack_far
      → (d.stacks null).refcount ≡ 0
      → run pf sm p arg default_far stack_far false d ≡ returned done out e
      → Begun d e p (pick_initial_far pf default_far stack_far)
  begins-Begun d e p arg a b out s h n blank fresh inside near_enough nothing eq =
      subst (IsBegun d p (pick_initial_far pf a b)) eq
        (run-IsBegun pf law sm doc d p arg a b s h n blank fresh inside near_enough nothing) refl

  Step-IsSound :
      {forced : Bool} {t : Ptr} (d d' : Domain) → Step pf sm forced t d d' → IsSound d → IsSound d'
  Step-IsSound d _ (runs m sp probe answers above) s = core-IsSound d _ refl s
  Step-IsSound d _ (creates unused) s = new-IsSound pf d s unused
  Step-IsSound d _ (copies t unused h n m) s = (duplicate-IsSound pf d s unused t h n m).0
  Step-IsSound d _ (ends t h n m) s = (delete-IsSound pf t d s h n m).0
  Step-IsSound d d' (begins p arg a b out h n blank fresh inside near_enough nothing eq) s =
      (begins-Begun d d' p arg a b out s h n blank fresh inside near_enough nothing eq).sound
  Step-IsSound d _ (switches t arg flags calm once c fine) s =
      switch-IsSound pf sm t arg flags d once c law doc s fine
  Step-IsSound d _ (exits t arg flags calm plain at_once settled c n) s =
      exit-IsSound pf law sm doc t arg flags d s at_once settled plain c n
  Step-IsSound d _ (insists t arg flags calm nofail at_once settled o way_out) s =
      Quits-IsSound d t (exit pf sm t arg flags d)
        (exit-Quits pf law sm doc t arg flags d s at_once settled nofail o way_out)
  Step-IsSound d _ (returns t calm o way_out) s =
      Quits-IsSound d t (run_returned pf sm t d) (run_returned-Quits pf law sm doc t d s o way_out)

  -- Soundness is an invariant of every life of a domain.
  pub Reach-IsSound : (d d' : Domain) → Reach pf sm d d' → IsSound d → IsSound d'
  Reach-IsSound d _ start s = s
  Reach-IsSound d d' (onward {e = e} r step) s = Step-IsSound e d' step (Reach-IsSound d e r s)

  Step-Kept :
      {forced : Bool} {t : Ptr} (d d' : Domain) (u : Ptr)
      → Step pf sm forced t d d'
      → forced ≡ false
      → IsSound d
      → IsSuspended d u
      → u ≢ t
      → Kept d d' u
  Step-Kept d _ u (runs m sp probe answers above) ok s l n = record {
    suspended = l;
    same_stack = refl;
    view = run-SameView _ d m (d.tealets u).stack s.sliced l.1 above;
  }
  Step-Kept d _ u (creates unused) ok s l n = new-Kept pf d s unused u l
  Step-Kept d _ u (copies t unused h o m) ok s l n = duplicate-Kept pf d s unused t u h o l
  Step-Kept d _ u (ends t h o m) ok s l n = delete-Kept pf d t u s h o m l n
  Step-Kept d d' u (begins p arg a b out h o blank fresh inside near_enough nothing eq) ok s l n =
      (begins-Begun d d' p arg a b out s h o blank fresh inside near_enough nothing eq).others u l
  Step-Kept d _ u (switches t arg flags calm once c fine) ok s l n =
      switch-Kept pf sm t arg flags d once c law doc s fine u
        (allowed (fail_ok (stage flags (lock_auto d))) ok) l n
  Step-Kept d _ u (exits t arg flags calm plain at_once settled c m) ok s l n =
      exit-Kept pf law sm doc t arg flags d s at_once settled plain c m u
        (allowed (fail_ok (leaving flags (lock_auto d))) ok) l n
  Step-Kept d _ u (insists t arg flags calm nofail at_once settled o way_out) ok s l n =
      absurd (false≢true (sym ok))
  Step-Kept d _ u (returns t calm o way_out) ok s l n = absurd (false≢true (sym ok))

  pub Away-IsSound : (u : Ptr) (d d' : Domain) → Away pf sm u d d' → IsSound d → IsSound d'
  Away-IsSound u d _ here s = s
  Away-IsSound u d d' (after {e = e} a step n) s = Step-IsSound e d' step (Away-IsSound u d e a s)

  -- Along any sequence of steps that do not run, delete or force anything upon the tealet `u`,
  -- on a sound domain: memory changes below the running tealet's far boundary, tealet_new,
  -- tealet_run of a NEW tealet that is to run later (one that succeeds), tealet_duplicate of
  -- tealets other than the main one, tealet_delete of other tealets, calls of tealet_switch
  -- without NOFAIL or PANIC that are not forced and do not run out of memory, and calls of
  -- tealet_exit by tealets other than the main one, without NOFAIL or PANIC, not deferred and
  -- not forced, each on the conditions that `Step` sets for it. A suspended `u` stays
  -- suspended on the same stack, which gives it the same bytes.
  pub Away-Kept :
      (u : Ptr) (d d' : Domain) → Away pf sm u d d' → IsSound d → IsSuspended d u → Kept d d' u
  Away-Kept u d _ here s l =
      same-Kept d d u (d.stacks (d.tealets u).stack).refcount l refl refl l.1.0 refl
  Away-Kept u d d' (after {e = e} a step n) s l =
      let kept = Away-Kept u d e a s l in
      Kept-trans d e d' u kept
        (Step-Kept e d' u step refl (Away-IsSound u d e a s) kept.suspended n)
