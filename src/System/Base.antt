-- ===== src/System/Base.antt =====
-- What became of a domain, seen from another state with the same tealets, stacks and memory.
use libtealet.Base.{◌≤◌, ◌<◌, ◌≡◌, ◌≢◌, sym, ap, subst, ◌∙◌, not, Option, if◌then◌else◌}
use libtealet.Platform.{Ptr}
use libtealet.Memory.{Mem}
use libtealet.Domain.{Domain, Stack, Tealet, Code, done, err_panic, XferFlags}
use libtealet.Stack.{stack_restore}
use libtealet.Stack.Image.{near}
use libtealet.Transfer.Invariant.{IsLive, SameView}
use libtealet.Transfer.Suspend.{fail_ok, Fate}
use libtealet.Transfer.Switch.{Parting, parked, sacrificed}
use libtealet.System.Outcome.{
  Fortune, safe, lost, Resumed, Outcome, resumed, turned_down, out_of_memory,
}

-- What the outcome of a transfer speaks of.
abbrev pub base : Domain → (Ptr → Tealet) × (Ptr → Stack) × Mem × Ptr × Ptr × Ptr × XferFlags
base d = (d.tealets, d.stacks, d.mem, d.sp, d.current, d.main, d.flags)

module _ (e d : Domain) (same : base e ≡ base d) where
  pub fail_ok-base : fail_ok e ≡ fail_ok d
  fail_ok-base = ap (λ b. fail_ok (record d { tealets = b.0; current = b.4; main = b.5 })) same

  pub base-Fortune :
      (d' : Domain) (t : Ptr) → Fortune (not (fail_ok e)) e d' t → Fortune (not (fail_ok d)) d d' t
  base-Fortune d' t (safe a b v) =
      safe a (b ∙ ap (λ c. (c.0 t).stack) same) (
        subst (λ c. SameView c.2 d'.mem (c.1 (c.0 t).stack) (d'.stacks (d'.tealets t).stack)) same
          v)
  base-Fortune d' t (lost f m) = lost (ap not (sym fail_ok-base) ∙ f) m

  base-Parting : (d' : Domain) → Parting e d' → Parting d d'
  base-Parting d' (parked p at l n far view u h k) =
      parked p (ap (λ c. (d'.tealets c.4).stack) (sym same) ∙ at) l (n ∙ ap (λ c. c.3) same)
        (far ∙ ap (λ c. (c.0 c.4).stack_far) same)
        (subst
          (λ c.
            (x : Ptr)
            → c.3 ≤ x
            → x < (c.0 c.4).stack_far
            → stack_restore (d'.stacks p) d'.mem x ≡ c.2 x)
          same view)
        (ap (λ c. (c.1 p).refcount) (sym same) ∙ u) h k
  base-Parting d' (sacrificed f a b) =
      sacrificed (sym fail_ok-base ∙ f) (ap (λ c. (d'.tealets c.4).flags.is_defunct) (sym same) ∙ a)
        (ap (λ c. (d'.tealets c.4).stack) (sym same) ∙ (b ∙ ap (λ c. (c.0 c.4).stack) same))

  base-Resumed :
      (target arg : Ptr) (r : Code × Option Ptr × Domain)
      → Resumed e target arg r
      → Resumed d target arg r
  base-Resumed target arg r v = record {
    code = v.code ∙ ap (λ c. if c.6.main_panic then err_panic else done) same;
    out = v.out;
    current = v.current;
    sp = v.sp ∙ ap (λ c. near (c.1 (c.0 target).stack)) same;
    mem = λ x. v.mem x ∙ ap (λ c. stack_restore (c.1 (c.0 target).stack) c.2 x) same;
    sound = v.sound;
    others = λ t n o l. base-Fortune r.2 t (
        v.others t (λ i. n (i ∙ ap (λ c. c.4) same)) o
          (subst (λ c. ((c.0 t).stack ≢ 0) × IsLive (c.1 (c.0 t).stack)) (sym same) l));
    own = base-Parting r.2 v.own;
  }

  pub base-Outcome :
      (target arg : Ptr) (r : Code × Option Ptr × Domain)
      → Outcome e target arg r
      → Outcome d target arg r
  base-Outcome target arg r (resumed v) = resumed (base-Resumed target arg r v)
  base-Outcome target arg r (turned_down err out m sp st c held s) =
      turned_down err out (m ∙ ap (λ c. c.2) same) (sp ∙ ap (λ c. c.3) same)
        (st ∙ ap (λ c. c.1) same) (c ∙ ap (λ c. c.4) same)
        (λ t. held t ∙ ap (λ c. (c.0 t).stack) same) s
  base-Outcome target arg r (out_of_memory err out m sp c held fate) =
      out_of_memory err out (m ∙ ap (λ c. c.2) same) (sp ∙ ap (λ c. c.3) same)
        (c ∙ ap (λ c. c.4) same) (λ t. held t ∙ ap (λ c. (c.0 t).stack) same)
        (λ j.
          subst (λ f. Fate (not f) (d.tealets target).stack j d.mem (d.stacks j) ((r.2).stacks j))
            fail_ok-base
            (subst (λ c. Fate (not (fail_ok e)) (c.0 target).stack j c.2 (c.1 j) ((r.2).stacks j))
              same (fate j)))
