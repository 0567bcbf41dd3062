-- ===== src/System/Replaced.antt =====
-- tealet_switchstack on a domain whose running tealet exits.
use libtealet.Base.{
  ◌<◌, ◌≡◌, ◌≢◌, refl, sym, ap, subst, ◌∙◌, inl, inr, true, not, Option, none, some, if◌then◌else◌,
}
use libtealet.Platform.{Ptr, null}
use libtealet.Domain.{Domain, Stack, Tealet, Code, done, err_mem, err_panic, is_error}
use libtealet.Growth.Bands.{Grew-refl}
use libtealet.Growth.Walked.{main_stack, Scarce}
use libtealet.Stack.{stack_restore}
use libtealet.Stack.Image.{near}
use libtealet.Transfer.Invariant.{IsLive, SameView}
use libtealet.Transfer.Suspend.{fail_ok, Fate, survives}
use libtealet.Transfer.Leave.{Farewell}
use libtealet.Transfer.Left.{Left}
use libtealet.System.{IsSound}
use libtealet.System.Left.{calmed, calmed-stack}
use libtealet.System.Outcome.{IsSuspended, Fortune, safe, lost}
use libtealet.System.Steady.{Steady}
use libtealet.System.Switched.{held_twice}

-- The target runs, as it was when it was suspended, and the tealet that ran has no stack any more
-- and is marked as exited, or is freed.
pub record Replaced (d : Domain) (target arg : Ptr) (r : Code × Option Ptr × Domain) : Type 0 where
  pub code : r.0 ≡ (if d.flags.main_panic then err_panic else done)
  pub out : r.1 ≡ some arg
  pub current : (r.2).current ≡ target
  pub sp : (r.2).sp ≡ near (d.stacks (d.tealets target).stack)
  pub mem : (x : Ptr) → (r.2).mem x ≡ stack_restore (d.stacks (d.tealets target).stack) d.mem x
  pub sound : IsSound r.2
  pub bare : ((r.2).tealets d.current).stack ≡ null
  pub farewell : Farewell d.current d r.2
  pub others :
      (t : Ptr) → t ≢ d.current → t ≢ target → IsSuspended d t → Fortune (not (fail_ok d)) d r.2 t

-- Or an error is returned to the tealet that goes on running.
pub record Declined (d : Domain) (target : Ptr) (r : Code × Option Ptr × Domain) : Type 0 where
  pub code : is_error r.0 ≡ true
  pub out : r.1 ≡ none
  pub steady : Steady d r.2
  pub sound : IsSound (calmed r.2)
  pub fate :
      (j : Ptr)
      → Fate (not (fail_ok d)) (d.tealets target).stack j d.mem (d.stacks j) ((r.2).stacks j)
  pub scarce :
      r.0 ≡ err_mem → Scarce (fail_ok d) (d.tealets target).stack (main_stack d) d.prev d.stacks

pub data Exiting (d : Domain) (target arg : Ptr) (r : Code × Option Ptr × Domain) : Type 0 where
  replaced : Replaced d target arg r → Exiting d target arg r
  declined : Declined d target r → Exiting d target arg r

-- Nothing was changed but what the soundness of a domain does not rest on.
pub same-Declined :
    (d d' : Domain) (target : Ptr) (c : Code)
    → is_error c ≡ true
    → c ≢ err_mem
    → Steady d d'
    → d'.stacks ≡ d.stacks
    → IsSound (calmed d')
    → Declined d target (c, none, d')
same-Declined d d' target c err fine y st s = record {
  code = err;
  out = refl;
  steady = y;
  sound = s;
  fate = λ j.
      subst (λ f. Fate (not (fail_ok d)) (d.tealets target).stack j d.mem (d.stacks j) (f j))
        (sym st) (survives (Grew-refl d.mem (d.stacks j)));
  scarce = λ e. absurd (fine e);
}

pub Left-Fortune :
    (d e d' : Domain) (t : Ptr)
    → IsSound (calmed d)
    → Left d e
    → (e.mem ≡ d'.mem) × (e.stacks ≡ d'.stacks) × (e.tealets ≡ d'.tealets)
    → (d.tealets d.target).stack ≢ null
    → t ≢ d.current
    → t ≢ d.target
    → IsSuspended d t
    → Fortune (not (fail_ok d)) d d' t
Left-Fortune d e d' t s w (m, a, b) saved n o l =
    let j = (d.tealets t).stack in
    let same : (d'.tealets t).stack ≡ j =
      ap (λ f. (f t).stack) (sym b) ∙ ap (λ (x : Tealet). x.stack) (w.same_tealet t n o) in
    let st : d'.stacks (d'.tealets t).stack ≡ e.stacks j =
      ap (λ f. f (d'.tealets t).stack) (sym a) ∙ ap e.stacks same in
    elim (w.kept j l.1 (λ i. held_by i)) [
      | inl (live, view) ↦
          safe ((λ z. l.0 (sym same ∙ z)), subst IsLive (sym st) live) same
            (subst (λ x. SameView d.mem d'.mem (d.stacks j) x) (sym st)
              (subst (λ x. SameView d.mem x (d.stacks j) (e.stacks j)) m view))
      | inr (f, mark) ↦ lost (rw f refl) (ap (λ (x : Stack). x.is_defunct) st ∙ mark)
    ]
  where
    held_by :
        (d.tealets t).stack ≡ (d.tealets d.target).stack
        → 1 < (d.stacks (d.tealets t).stack).refcount
    held_by i =
        let at = calmed-stack d in
        let twice =
          held_twice (calmed d) s d.target t (λ z. saved (sym (at d.target) ∙ z)) o
            (at t ∙ (i ∙ sym (at d.target))) in
        subst (λ p. 1 < (d.stacks p).refcount) (at d.target ∙ sym i) twice
