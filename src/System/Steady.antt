-- ===== src/System/Steady.antt =====
-- Two states between which no transfer took place.
use libtealet.Base.{
  ◌≡◌, refl, sym, ap, subst, ◌∙◌, inl, inr, true, false, not, ◌&&◌, ◌==◌, if◌then◌else◌, has,
  Within, Bool-cases, ==→eq,
}
use libtealet.Platform.{Ptr, null}
use libtealet.Domain.{Domain, TealetFlags, set_flags}
use libtealet.Stack.{is_defunct}
use libtealet.Transfer.Invariant.{Sliced, Nobody}
use libtealet.System.{holders, IsSound}
use libtealet.System.Count.{holders_congr}
use libtealet.System.Guards.{essence}
use libtealet.System.Flags.{set_flags-stack}

-- The same tealet runs, at the same place and with the same memory; who is there, who has been
-- started and who holds which stack is the same, and the allocator's supply is no larger.
pub record Steady (d d' : Domain) : Type 0 where
  pub mem : d'.mem ≡ d.mem
  pub sp : d'.sp ≡ d.sp
  pub current : d'.current ≡ d.current
  pub main : d'.main ≡ d.main
  pub all : d'.all ≡ d.all
  pub supply : Within d'.answers d.answers
  pub held : (t : Ptr) → (d'.tealets t).stack ≡ (d.tealets t).stack
  pub far : (t : Ptr) → (d'.tealets t).stack_far ≡ (d.tealets t).stack_far
  pub bound : (t : Ptr) → (d'.tealets t).flags.bound ≡ (d.tealets t).flags.bound
  pub count : (j : Ptr) → (d'.stacks j).refcount ≡ (d.stacks j).refcount

pub Steady-trans : (d e f : Domain) → Steady d e → Steady e f → Steady d f
Steady-trans d e f a b = record {
  mem = b.mem ∙ a.mem;
  sp = b.sp ∙ a.sp;
  current = b.current ∙ a.current;
  main = b.main ∙ a.main;
  all = b.all ∙ a.all;
  supply = λ x m. a.supply x (b.supply x m);
  held = λ t. b.held t ∙ a.held t;
  far = λ t. b.far t ∙ a.far t;
  bound = λ t. b.bound t ∙ a.bound t;
  count = λ j. b.count j ∙ a.count j;
}

pub essence-Steady : (d d' : Domain) → essence d' ≡ essence d → Steady d d'
essence-Steady d d' e = record {
  mem = ap (λ x. x.4) e;
  sp = ap (λ x. x.5) e;
  current = ap (λ x. x.0.2) e;
  main = ap (λ x. x.0.1) e;
  all = ap (λ x. x.0.0) e;
  supply = λ a m. subst (λ l. has a l ≡ true) (ap (λ x. x.6) e) m;
  held = λ t. ap (λ x. (x.2 t).stack) e;
  far = λ t. ap (λ x. (x.2 t).stack_far) e;
  bound = λ t. ap (λ x. (x.2 t).flags.bound) e;
  count = λ j. ap (λ x. (x.1 j).refcount) e;
}

pub Steady-refl : (d : Domain) → Steady d d
Steady-refl d = essence-Steady d d refl

-- Flags under which a tealet can be switched to.
abbrev pub CanRun : Domain → Ptr → Type 0
CanRun d t =
    ((d.tealets t).flags.bound ≡ true)
    × ((d.tealets t).flags.exited ≡ false)
    × ((d.tealets t).flags.is_defunct ≡ false)

-- Where no transfer took place, and no tealet can be switched to that could not be, the domain
-- is sound as long as the stacks obey the invariant.
pub Steady-IsSound :
    (d d' : Domain)
    → Steady d d'
    → Sliced (d.tealets d.current).stack_far Nobody d'
    → ((t : Ptr) → (d'.tealets t).flags.exiting ≡ false)
    → ((t : Ptr) → CanRun d' t → CanRun d t)
    → IsSound d
    → IsSound d'
Steady-IsSound d d' y sliced calm could s =
    let far : (d.tealets d.current).stack_far ≡ (d'.tealets d'.current).stack_far =
      sym (ap (λ i. (d'.tealets i).stack_far) y.current ∙ y.far d.current) in
    record {
      sliced = subst (λ x. Sliced x Nobody d') far sliced;
      distinct = rw y.all s.distinct;
      no_null = rw y.all s.no_null;
      main_listed = rw (y.all, y.main) s.main_listed;
      current_listed = rw (y.all, y.current) s.current_listed;
      strangers = λ t h. y.held t ∙ s.strangers t (rw y.all at h);
      counted = λ p n.
          y.count p
          ∙ (s.counted p n
              ∙ (sym (
                    holders_congr p d.tealets d'.tealets d.all
                      (λ t h. ap (λ x. if x == p then 1 else 0) (y.held t)))
                  ∙ ap (holders p d'.tealets) (sym y.all)));
      running = ap (λ i. (d'.tealets i).stack) y.current ∙ (y.held d.current ∙ s.running);
      staying = calm;
      suspended = λ t h n i j k z.
          let was = could t (i, j, k) in
          s.suspended t (rw y.all at h) (rw y.current at n) was.0 was.1 was.2 (sym (y.held t) ∙ z);
    }

-- Only flags other than the one that says a tealet was started are changed.
pub flags-Steady :
    (p : Ptr) (f : TealetFlags) (d : Domain)
    → f.bound ≡ (d.tealets p).flags.bound
    → Steady d (set_flags p f d)
flags-Steady p f d b = record {
  mem = refl;
  sp = refl;
  current = refl;
  main = refl;
  all = refl;
  supply = λ a m. m;
  held = λ t. set_flags-stack p f d t;
  far = λ t. elim (Bool-cases (t == p)) [ inl e ↦ rw (e, ==→eq t p e) | inr e ↦ rw e ];
  bound = λ t. elim (Bool-cases (t == p)) [ inl e ↦ rw (e, ==→eq t p e) b | inr e ↦ rw e ];
  count = λ j. refl;
}

pub is_defunct-Steady : (p : Ptr) (d : Domain) → Steady d (is_defunct p d).1
unfolding is_defunct
is_defunct-Steady p d = elim (Bool-cases (d.tealets p).flags.is_defunct) [
  | inl e ↦ rw e (essence-Steady d d refl)
  | inr e ↦
      elim (Bool-cases
        (not ((d.tealets p).stack == null) && (d.stacks (d.tealets p).stack).is_defunct)) [
          | inl f ↦ rw (e, f) (flags-Steady p _ d refl)
          | inr f ↦ rw (e, f) (essence-Steady d d refl)
        ]
]
