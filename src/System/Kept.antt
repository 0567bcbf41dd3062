-- ===== src/System/Kept.antt =====
-- A suspended tealet that finds on its stack what it left there.
use mathlib.Core.Bool.{false≢true}
use libtealet.Base.{◌<◌, ◌≡◌, ◌≢◌, refl, sym, ap, subst, ◌∙◌, true, not, Option, arith}
use libtealet.Platform.{Ptr}
use libtealet.Memory.{Mem}
use libtealet.Domain.{Domain, Stack, Code, err_mem}
use libtealet.Stack.{stack_restore}
use libtealet.Transfer.Invariant.{IsLive, SameView}
use libtealet.Transfer.Suspend.{fail_ok}
use libtealet.System.{IsSound}
use libtealet.System.Outcome.{IsSuspended, safe, lost, Outcome, resumed, turned_down, out_of_memory}

-- The tealet `u` is still suspended, on the stack it had, with the bytes it had.
pub record Kept (d d' : Domain) (u : Ptr) : Type 0 where
  pub suspended : IsSuspended d' u
  pub same_stack : (d'.tealets u).stack ≡ (d.tealets u).stack
  pub view : SameView d.mem d'.mem (d.stacks (d.tealets u).stack) (d'.stacks (d'.tealets u).stack)

SameView-trans :
    (m m' m'' : Mem) (s s' s'' : Stack)
    → SameView m m' s s'
    → SameView m' m'' s' s''
    → SameView m m'' s s''
SameView-trans m m' m'' s s' s'' v w = record {
  same_near = w.same_near ∙ v.same_near;
  same_far = w.same_far ∙ v.same_far;
  view =
      λ p lo hi. w.view p (omega (arith, v.same_near)) (omega (arith, v.same_far)) ∙ v.view p lo hi;
}

pub Kept-trans : (d e f : Domain) (u : Ptr) → Kept d e u → Kept e f u → Kept d f u
Kept-trans d e f u k l = record {
  suspended = l.suspended;
  same_stack = l.same_stack ∙ k.same_stack;
  view = SameView-trans d.mem e.mem f.mem _ _ _ k.view l.view;
}

-- Memory is the same, the tealet holds the same stack, and that has at most another count.
pub same-Kept :
    (d d' : Domain) (u n : Ptr)
    → IsSuspended d u
    → d'.mem ≡ d.mem
    → (d'.tealets u).stack ≡ (d.tealets u).stack
    → 0 < n
    → d'.stacks (d.tealets u).stack ≡ record (d.stacks (d.tealets u).stack) { refcount = n }
    → Kept d d' u
unfolding stack_restore
same-Kept d d' u n (held, live) m at pos same = record {
  suspended = ((λ z. held (sym at ∙ z)), subst IsLive (sym st) (pos, live.1));
  same_stack = at;
  view = subst (SameView d.mem d'.mem (d.stacks (d.tealets u).stack)) (sym st) (
      subst
        (λ x.
          SameView d.mem x (d.stacks (d.tealets u).stack)
            (record (d.stacks (d.tealets u).stack) { refcount = n }))
        (sym m) (record { same_near = refl; same_far = refl; view = λ p lo hi. refl }));
}
  where
    st : d'.stacks (d'.tealets u).stack ≡ record (d.stacks (d.tealets u).stack) { refcount = n }
    st = ap d'.stacks at ∙ same

-- A transfer that was not forced.
pub Outcome-Kept :
    (d : Domain) (target arg : Ptr) (r : Code × Option Ptr × Domain) (u : Ptr)
    → IsSound d
    → fail_ok d ≡ true
    → IsSuspended d u
    → u ≢ target
    → r.0 ≢ err_mem
    → Outcome d target arg r
    → Kept d r.2 u
Outcome-Kept d target arg r u s ok l n fine (resumed v) =
    elim (v.others u (λ i. l.0 (ap (λ k. (d.tealets k).stack) i ∙ s.running)) n l) [
      | safe a b view ↦ record { suspended = a; same_stack = b; view = view }
      | lost f m ↦ absurd (false≢true (sym (ap not ok) ∙ f))
    ]
Outcome-Kept d target arg r u s ok l n fine (turned_down err out m sp st c held sound) =
    same-Kept d r.2 u (d.stacks (d.tealets u).stack).refcount l m (held u) l.1.0
      (ap (λ f. f (d.tealets u).stack) st)
Outcome-Kept d target arg r u s ok l n fine (out_of_memory err out m sp c held fate) =
    absurd (fine err)

pub Outcome-IsSound :
    (d : Domain) (target arg : Ptr) (r : Code × Option Ptr × Domain)
    → r.0 ≢ err_mem
    → Outcome d target arg r
    → IsSound r.2
Outcome-IsSound d target arg r fine (resumed v) = v.sound
Outcome-IsSound d target arg r fine (turned_down err out m sp st c held sound) = sound
Outcome-IsSound d target arg r fine (out_of_memory err out m sp c held fate) = absurd (fine err)
