-- ===== src/System/Outcome.antt =====
-- tealet_switchstack on a domain between two calls.
use libtealet.Base.{
  ◌≤◌, ◌<◌, ◌≡◌, ◌≢◌, refl, sym, ap, subst, ◌∙◌, ◌⊎◌, inl, inr, Bool, true, false, not, Option,
  none, some, if◌then◌else◌, has,
}
use libtealet.Platform.{Ptr, null, Platform}
use libtealet.Domain.{Domain, Stack, Tealet, Code, done, err_mem, err_panic, is_error, sw_err}
use libtealet.Stack.{stack_restore}
use libtealet.Stack.Image.{near}
use libtealet.Transfer.{Stackman, clear_panic, rearm, switch_ended, switch_finish}
use libtealet.Transfer.Invariant.{IsLive, SameView}
use libtealet.Transfer.Save.{IsFresh}
use libtealet.Transfer.Suspend.{fail_ok, Fate, Untouched}
use libtealet.Transfer.Switch.{
  Ready, Switched, Switching, switched, refused, Parting, parked, sacrificed,
}
use libtealet.System.{IsSound}
use libtealet.System.Switched.{core, core-IsSound, held_twice, IsSound-Ready, Switched-IsSound}
use libtealet.System.Guards.{rearm-essence}

-- A tealet with bytes on the heap that it can go on with.
abbrev pub IsSuspended : Domain → Ptr → Type 0
IsSuspended d t = ((d.tealets t).stack ≢ null) × IsLive (d.stacks (d.tealets t).stack)

-- What became of the suspended tealet `t`: its stack gives it the same bytes, or was given up in
-- a forced transfer.
pub data Fortune (forced : Bool) (d d' : Domain) (t : Ptr) : Type 0 where
  safe :
      IsSuspended d' t
      → (d'.tealets t).stack ≡ (d.tealets t).stack
      → SameView d.mem d'.mem (d.stacks (d.tealets t).stack) (d'.stacks (d'.tealets t).stack)
      → Fortune forced d d' t
  lost : forced ≡ true → (d'.stacks (d'.tealets t).stack).is_defunct ≡ true → Fortune forced d d' t

-- The target runs, as it was when it was suspended.
pub record Resumed (d : Domain) (target arg : Ptr) (r : Code × Option Ptr × Domain) : Type 0 where
  pub code : r.0 ≡ (if d.flags.main_panic then err_panic else done)
  pub out : r.1 ≡ some arg
  pub current : (r.2).current ≡ target
  pub sp : (r.2).sp ≡ near (d.stacks (d.tealets target).stack)
  pub mem : (x : Ptr) → (r.2).mem x ≡ stack_restore (d.stacks (d.tealets target).stack) d.mem x
  pub sound : IsSound r.2
  pub others :
      (t : Ptr) → t ≢ d.current → t ≢ target → IsSuspended d t → Fortune (not (fail_ok d)) d r.2 t
  pub own : Parting d r.2

pub data Outcome (d : Domain) (target arg : Ptr) (r : Code × Option Ptr × Domain) : Type 0 where
  resumed : Resumed d target arg r → Outcome d target arg r
  turned_down :
      is_error r.0 ≡ true
      → r.1 ≡ none
      → (r.2).mem ≡ d.mem
      → (r.2).sp ≡ d.sp
      → (r.2).stacks ≡ d.stacks
      → (r.2).current ≡ d.current
      → ((t : Ptr) → ((r.2).tealets t).stack ≡ (d.tealets t).stack)
      → IsSound r.2
      → Outcome d target arg r
  out_of_memory :
      r.0 ≡ err_mem
      → r.1 ≡ none
      → (r.2).mem ≡ d.mem
      → (r.2).sp ≡ d.sp
      → (r.2).current ≡ d.current
      → ((t : Ptr) → ((r.2).tealets t).stack ≡ (d.tealets t).stack)
      → ((j : Ptr)
          → Fate (not (fail_ok d)) (d.tealets target).stack j d.mem (d.stacks j) ((r.2).stacks j))
      → Outcome d target arg r

-- What the caller of tealet_switchstack sees to: the stack pointer is on the running tealet's
-- stack, the allocator hands out no block in use, and a transfer is not forced onto a tealet that
-- shares its stack.
pub record Called (d : Domain) (target : Ptr) : Type 0 where
  pub inside : d.sp < (d.tealets d.current).stack_far
  pub fresh : IsFresh d
  pub other : target ≢ d.current
  pub is_known : has target d.all ≡ true
  pub bound : (d.tealets target).flags.bound ≡ true
  pub secure : (fail_ok d ≡ true) ⊎ ((d.stacks (d.tealets target).stack).refcount ≤ 1)

-- The state at the switch, from which the transfer starts.
abbrev start_of : Ptr → Ptr → Domain → Domain
start_of target arg d = record d { previous = d.current; target = target; arg = arg }

start-Ready :
    (target arg : Ptr) (d : Domain)
    → IsSound d
    → Called d target
    → (d.tealets target).stack ≢ null
    → (d.stacks (d.tealets target).stack).is_defunct ≡ false
    → Ready (start_of target arg d)
start-Ready target arg d s c saved alive =
    IsSound-Ready (start_of target arg d) (core-IsSound d (start_of target arg d) refl s) c.fresh
      c.inside c.other saved alive c.secure

-- A suspended tealet after a transfer that took place.
Switched-Fortune :
    (d e d' : Domain) (t : Ptr)
    → IsSound d
    → Switched d e
    → (e.mem ≡ d'.mem) × (e.stacks ≡ d'.stacks) × (e.tealets ≡ d'.tealets)
    → (d.tealets d.target).stack ≢ null
    → t ≢ d.current
    → t ≢ d.target
    → IsSuspended d t
    → Fortune (not (fail_ok d)) d d' t
Switched-Fortune d e d' t s w (m, a, b) saved n o l =
    let j = (d.tealets t).stack in
    let same : (d'.tealets t).stack ≡ j =
      ap (λ f. (f t).stack) (sym b) ∙ ap (λ (x : Tealet). x.stack) (w.same_tealet t n o) in
    let st : d'.stacks (d'.tealets t).stack ≡ e.stacks j =
      ap (λ f. f (d'.tealets t).stack) (sym a) ∙ ap e.stacks same in
    elim (w.kept j l.1 (λ i. held_by i)) [
      | inl (live, view) ↦
          safe ((λ z. l.0 (sym same ∙ z)), subst IsLive (sym st) live) same
            (subst (λ x. SameView d.mem d'.mem (d.stacks j) x) (sym st)
              (subst (λ x. SameView d.mem x (d.stacks j) (e.stacks j)) m view))
      | inr (f, mark) ↦ lost (rw f refl) (ap (λ (x : Stack). x.is_defunct) st ∙ mark)
    ]
  where
    held_by :
        (d.tealets t).stack ≡ (d.tealets d.target).stack
        → 1 < (d.stacks (d.tealets t).stack).refcount
    held_by i = rw i (held_twice d s d.target t saved o i)

-- The leaving tealet's bytes, in a state with the same memory and stacks.
same-Parting :
    (d e d' : Domain)
    → (e.mem ≡ d'.mem) × (e.stacks ≡ d'.stacks) × (e.tealets ≡ d'.tealets)
    → Parting d e
    → Parting d d'
same-Parting d e d' (m, a, b) (parked p at l n f view u h k) =
    parked p (ap (λ x. (x d.current).stack) (sym b) ∙ at) (subst (λ x. IsLive (x p)) a l)
      (ap (λ x. near (x p)) (sym a) ∙ n) (ap (λ x. (x p).stack_far) (sym a) ∙ f)
      (λ x lo hi.
        ap (λ s. stack_restore (s p) d'.mem x) (sym a)
        ∙ (ap (λ z. stack_restore (e.stacks p) z x) (sym m) ∙ view x lo hi))
      u h (ap (λ x. (x p).refcount) (sym a) ∙ k)
same-Parting d e d' (m, a, b) (sacrificed f g h) =
    sacrificed f (ap (λ x. (x d.current).flags.is_defunct) (sym b) ∙ g)
      (ap (λ x. (x d.current).stack) (sym b) ∙ h)

module _ (pf : Platform) (sm : Stackman) (d : Domain) (s : IsSound d) (ready : Ready d) where
  -- After a switch that took place.
  pub restored-Resumed :
      (old : Ptr) (e : Domain) → Switched d e → Resumed d d.target d.arg (switch_finish pf sm old e)
  unfolding switch_finish switch_ended
  restored-Resumed old e w =
      let landed = record e { current = e.target; target = null; arg = null } in
      let same = rearm-essence pf landed in
      let fix = w.same_fixed in
      let at : e.target ≡ d.target = ap (λ c. c.3) fix in
      let stores : (e.mem ≡ (rearm pf landed).mem)
          × (e.stacks ≡ (rearm pf landed).stacks)
          × (e.tealets ≡ (rearm pf landed).tealets) =
        (sym (ap (λ c. c.4) same), sym (ap (λ c. c.1) same), sym (ap (λ c. c.2) same)) in
      let kernel : core (clear_panic (rearm pf landed)) ≡ core (record e { current = d.target }) =
        ap (λ c. (c.1, c.2, c.3, c.0.0, c.0.1, c.0.2)) same
        ∙ ap (λ c. (e.stacks, e.tealets, e.prev, e.all, e.main, c)) at in
      subst (Resumed d d.target d.arg) (sym (ap (λ x. switch_ended pf sm old x e) w.sw)) (record {
        code =
            ap (λ c. if c.0.6.main_panic then err_panic else done) same
            ∙ ap (λ c. if c.6.main_panic then err_panic else done) fix;
        out = ap some (ap (λ c. c.5) fix);
        current = ap (λ c. c.0.2) same ∙ at;
        sp = ap (λ c. c.5) same ∙ w.sp;
        mem = λ x. ap (λ c. c.4 x) same ∙ w.mem x;
        sound = core-IsSound _ _ kernel (Switched-IsSound d e s ready w);
        others = λ t n o l. Switched-Fortune d e _ t s w stores ready.is_saved n o l;
        own = same-Parting d e _ stores w.own;
      })

  -- After a switch that was refused.
  refused-Outcome :
      (old : Ptr) (e : Domain)
      → e.sw ≡ sw_err
      → e.sp ≡ d.sp
      → Untouched (d.tealets d.target).stack d e
      → Outcome d d.target d.arg (switch_finish pf sm old e)
  unfolding switch_finish switch_ended
  refused-Outcome old e h sp u =
      let same = rearm-essence pf (record e { previous = old; target = null; arg = null }) in
      subst (Outcome d d.target d.arg) (sym (ap (λ x. switch_ended pf sm old x e) h)) (
        out_of_memory refl refl (ap (λ c. c.4) same ∙ u.same_mem) (ap (λ c. c.5) same ∙ sp)
          (ap (λ c. c.0.2) same ∙ u.same_current)
          (λ t. ap (λ c. (c.2 t).stack) same ∙ u.same_tealets t)
          (λ j.
            subst (Fate (not (fail_ok d)) (d.tealets d.target).stack j d.mem (d.stacks j))
              (sym (ap (λ c. c.1 j) same)) (u.fate j)))

  pub finish-Outcome :
      (old : Ptr) (e : Domain)
      → Switching d e
      → Outcome d d.target d.arg (switch_finish pf sm old e)
  finish-Outcome old e (switched w) = resumed (restored-Resumed old e w)
  finish-Outcome old e (refused h sp u) = refused-Outcome old e h sp u
