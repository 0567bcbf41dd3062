-- ===== src/System/Exiting.antt =====
-- The running tealet is about to exit: what it goes back to when the exit fails.
use mathlib.Core.Bool.{false≢true}
use libtealet.Base.{
  ◌<◌, ◌≡◌, ◌≢◌, refl, sym, ap, subst, ◌∙◌, inl, inr, true, false, not, ◌&&◌, ◌==◌, Bool-cases,
  ==→eq, ==→ne,
}
use libtealet.Platform.{Ptr, null}
use libtealet.Domain.{Domain, Tealet, set_flags}
use libtealet.Stack.{is_defunct}
use libtealet.Transfer.Invariant.{Sliced, Nobody}
use libtealet.Transfer.Suspend.{survives, is_lost, unforced, set_flags-Sliced}
use libtealet.Transfer.Leave.{Remained}
use libtealet.System.{IsSound}
use libtealet.System.Left.{calmed, calmed-stack, calmed-other}
use libtealet.System.Steady.{Steady, Steady-trans, Steady-IsSound, CanRun, flags-Steady}

-- Another value of the flags, and a field that does not read them.
calmed_field {ℓ} :
    {A : Type ℓ} (g : Tealet → A) (d : Domain)
    → ((x : Tealet)
        → g (record x {
          flags = record (x.flags) { exiting = false; autodelete = false; saveforce = false };
        })
          ≡ g x)
    → (t : Ptr) → g ((calmed d).tealets t) ≡ g (d.tealets t)
calmed_field g d law t = elim (Bool-cases (t == d.current)) [
  | inl e ↦ rw e (law (d.tealets d.current) ∙ ap (λ i. g (d.tealets i)) (sym (==→eq t d.current e)))
  | inr e ↦ rw e refl
]

pub Steady-calmed : (d : Domain) → Steady (calmed d) d
Steady-calmed d = record {
  mem = refl;
  sp = refl;
  current = refl;
  main = refl;
  all = refl;
  supply = λ a m. m;
  held = λ t. sym (calmed-stack d t);
  far = λ t. sym (calmed_field (λ (x : Tealet). x.stack_far) d (λ x. refl) t);
  bound = λ t. sym (calmed_field (λ (x : Tealet). x.flags.bound) d (λ x. refl) t);
  count = λ j. refl;
}

pub CanRun-calmed : (d : Domain) (t : Ptr) → CanRun (calmed d) t ≡ CanRun d t
CanRun-calmed d t =
    calmed_field
      (λ (x : Tealet).
        (x.flags.bound ≡ true) × (x.flags.exited ≡ false) × (x.flags.is_defunct ≡ false))
      d (λ x. refl) t

pub calmed-Sliced : (lo : Ptr) (d : Domain) → Sliced lo Nobody (calmed d) → Sliced lo Nobody d
calmed-Sliced lo d s = record {
  bands = s.bands;
  no_null = s.no_null;
  linked = s.linked;
  whole = s.whole;
  full = s.full;
  within = s.within;
  owned = λ t h.
      let far = calmed_field (λ (x : Tealet). x.stack_far) d (λ x. refl) t in
      subst (λ p. (0 < (d.stacks p).refcount) × ((d.stacks p).stack_far ≡ (d.tealets t).stack_far))
        (calmed-stack d t)
        (subst
          (λ f.
            (0 < (d.stacks ((calmed d).tealets t).stack).refcount)
            × ((d.stacks ((calmed d).tealets t).stack).stack_far ≡ f))
          far (s.owned t (λ z. h (sym (calmed-stack d t) ∙ z))));
}

-- The state that a failed exit goes back to is as sound as the one before it.
pub calmed-IsSound :
    (d x : Domain)
    → Steady d x
    → Sliced (d.tealets d.current).stack_far Nobody x
    → ((t : Ptr) → t ≢ d.current → (x.tealets t).flags.exiting ≡ (d.tealets t).flags.exiting)
    → ((t : Ptr) → CanRun x t → CanRun d t)
    → IsSound (calmed d)
    → IsSound (calmed x)
calmed-IsSound d x y sliced same could s =
    Steady-IsSound (calmed d) (calmed x)
      (Steady-trans (calmed d) d (calmed x) (Steady-calmed d)
        (Steady-trans d x (calmed x) y (flags-Steady x.current _ x refl)))
      (subst (λ f. Sliced f Nobody (calmed x))
        (sym (calmed_field (λ (t : Tealet). t.stack_far) d (λ t. refl) d.current))
        (set_flags-Sliced _ Nobody x.current _ x sliced))
      calm
      (λ t can.
        subst (λ (P : Type 0). P) (sym (CanRun-calmed d t))
          (could t (subst (λ (P : Type 0). P) (CanRun-calmed x t) can)))
      s
  where
    quiet : (t : Ptr) → t ≢ d.current → (d.tealets t).flags.exiting ≡ false
    quiet t n = ap (λ (x : Tealet). x.flags.exiting) (sym (calmed-other d t n)) ∙ s.staying t

    calm : (t : Ptr) → ((calmed x).tealets t).flags.exiting ≡ false
    calm t = elim (Bool-cases (t == x.current)) [
      | inl e ↦ rw e refl
      | inr e ↦
          let n : t ≢ d.current = λ i. ==→ne t x.current e (i ∙ sym y.current) in
          rw e (same t n ∙ quiet t n)
    ]

pub calmed_slices :
    (d : Domain) → IsSound (calmed d) → Sliced (d.tealets d.current).stack_far Nobody d
calmed_slices d s = calmed-Sliced _ d (
    subst (λ f. Sliced f Nobody (calmed d))
      (calmed_field (λ (t : Tealet). t.stack_far) d (λ t. refl) d.current) s.sliced)

-- A target found defunct is marked, whether or not the running tealet exits.
pub is_defunct-calmed :
    (p : Ptr) (d : Domain) → IsSound (calmed d) → IsSound (calmed (is_defunct p d).1)
unfolding is_defunct
is_defunct-calmed p d s = elim (Bool-cases (d.tealets p).flags.is_defunct) [
  | inl e ↦ rw e s
  | inr e ↦
      elim (Bool-cases
        (not ((d.tealets p).stack == null) && (d.stacks (d.tealets p).stack).is_defunct)) [
          | inl f ↦
              let g = record ((d.tealets p).flags) { is_defunct = true } in
              rw (e, f)
                (calmed-IsSound d (set_flags p g d) (flags-Steady p g d refl)
                  (set_flags-Sliced _ Nobody p g d (calmed_slices d s))
                  (λ t n. elim (Bool-cases (t == p)) [ inl i ↦ rw (i, ==→eq t p i) | inr i ↦ rw i ])
                  (λ t can. elim (Bool-cases (t == p)) [
                    | inl i ↦ absurd (false≢true (sym (rw i at (can.2))))
                    | inr i ↦ rw i at can
                  ])
                  s)
          | inr f ↦ rw (e, f) s
        ]
]

-- A state that an exiting tealet_save_state leaves when memory runs out.
pub Remained-Steady : (q : Ptr) (d e : Domain) → Remained q d e → Steady d e
Remained-Steady q d e r =
    let a =
      flags-Steady d.current (record ((d.tealets d.current).flags) { saveforce = false }) d refl in
    let at : e.tealets ≡ (unforced d).tealets = ap (λ (x : Domain). x.tealets) r.same in
    record {
      mem = ap (λ (x : Domain). x.mem) r.same;
      sp = ap (λ (x : Domain). x.sp) r.same;
      current = ap (λ (x : Domain). x.current) r.same;
      main = ap (λ (x : Domain). x.main) r.same;
      all = ap (λ (x : Domain). x.all) r.same;
      supply = r.supply;
      held = λ t. ap (λ f. (f t).stack) at ∙ a.held t;
      far = λ t. ap (λ f. (f t).stack_far) at ∙ a.far t;
      bound = λ t. ap (λ f. (f t).flags.bound) at ∙ a.bound t;
      count = λ j. elim (r.fate j) [ survives g ↦ g.same_count | is_lost a b c f g ↦ f ];
    }

pub Remained-calmed :
    (q : Ptr) (d e : Domain) → Remained q d e → IsSound (calmed d) → IsSound (calmed e)
Remained-calmed q d e r s =
    let at : e.tealets ≡ (unforced d).tealets = ap (λ (x : Domain). x.tealets) r.same in
    calmed-IsSound d e (Remained-Steady q d e r) r.sliced
      (λ t n.
        ap (λ f. (f t).flags.exiting) at
        ∙ elim (Bool-cases (t == d.current)) [ inl i ↦ rw (i, ==→eq t d.current i) | inr i ↦ rw i ])
      (λ t can.
        let c : CanRun (unforced d) t =
          subst
            (λ f.
              ((f t).flags.bound ≡ true)
              × ((f t).flags.exited ≡ false)
              × ((f t).flags.is_defunct ≡ false))
            at can in
        elim (Bool-cases (t == d.current)) [
          | inl i ↦ rw (==→eq t d.current i) (rw i at c)
          | inr i ↦ rw i at c
        ])
      s
