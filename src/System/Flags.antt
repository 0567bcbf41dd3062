-- ===== src/System/Flags.antt =====
-- Flags that are set between two calls.
use mathlib.Core.Bool.{false≢true}
use libtealet.Base.{
  ◌≡◌, ◌≢◌, refl, sym, ap, subst, ◌∙◌, inl, inr, true, false, not, ◌&&◌, ◌==◌, if◌then◌else◌,
  Bool-cases, ==→eq, ne→==, has,
}
use libtealet.Platform.{Ptr, null}
use libtealet.Domain.{Domain, Tealet, TealetFlags, set_flags}
use libtealet.Stack.{is_defunct}
use libtealet.Transfer.Invariant.{Sliced, Nobody}
use libtealet.Transfer.Suspend.{set_flags-Sliced}
use libtealet.System.{IsSound}
use libtealet.System.Count.{holders_congr}

-- A field that the flags are not part of.
kept_field {ℓ} :
    {A : Type ℓ} (g : Tealet → A) (p : Ptr) (f : TealetFlags) (d : Domain)
    → ((x : Tealet) (h : TealetFlags) → g (record x { flags = h }) ≡ g x)
    → (t : Ptr) → g ((set_flags p f d).tealets t) ≡ g (d.tealets t)
kept_field g p f d law t = elim (Bool-cases (t == p)) [
  | inl e ↦ rw e (law (d.tealets p) f ∙ ap (λ i. g (d.tealets i)) (sym (==→eq t p e)))
  | inr e ↦ rw e refl
]

pub set_flags-stack :
    (p : Ptr) (f : TealetFlags) (d : Domain) (t : Ptr)
    → ((set_flags p f d).tealets t).stack ≡ (d.tealets t).stack
set_flags-stack p f d = kept_field (λ (x : Tealet). x.stack) p f d (λ x h. refl)

-- Flags that keep a tealet from nothing that is asked of it.
pub set_flags-IsSound :
    (p : Ptr) (f : TealetFlags) (d : Domain)
    → f.exiting ≡ false
    → (f.bound ≡ true
        → f.exited ≡ false
        → f.is_defunct ≡ false
        → ((d.tealets p).flags.bound ≡ true)
          × ((d.tealets p).flags.exited ≡ false)
          × ((d.tealets p).flags.is_defunct ≡ false))
    → IsSound d
    → IsSound (set_flags p f d)
set_flags-IsSound p f d stays was s =
    let d' = set_flags p f d in
    let st : (t : Ptr) → (d'.tealets t).stack ≡ (d.tealets t).stack = set_flags-stack p f d in
    let far = kept_field (λ (x : Tealet). x.stack_far) p f d (λ x h. refl) d.current in
    record {
      sliced = subst (λ x. Sliced x Nobody d') (sym far) (set_flags-Sliced _ Nobody p f d s.sliced);
      distinct = s.distinct;
      no_null = s.no_null;
      main_listed = s.main_listed;
      current_listed = s.current_listed;
      strangers = λ t h. st t ∙ s.strangers t h;
      counted = λ q n.
          s.counted q n
          ∙ sym (
              holders_congr q d.tealets d'.tealets d.all
                (λ t h. ap (λ x. if x == q then 1 else 0) (st t)));
      running = st d.current ∙ s.running;
      staying = λ t. elim (Bool-cases (t == p)) [ inl e ↦ rw e stays | inr e ↦ rw e (s.staying t) ];
      suspended = λ t h n i j k z. elim (Bool-cases (t == p)) [
        | inl e ↦
            let at = ==→eq t p e in
            let old = was (rw e at i) (rw e at j) (rw e at k) in
            s.suspended p (subst (λ x. has x d.all ≡ true) at h) (λ y. n (at ∙ y)) old.0 old.1 old.2
              (ap (λ x. (d.tealets x).stack) (sym at) ∙ (sym (st t) ∙ z))
        | inr e ↦ s.suspended t h n (rw e at i) (rw e at j) (rw e at k) (sym (st t) ∙ z)
      ];
    }

-- A tealet found defunct is marked.
pub is_defunct-IsSound : (p : Ptr) (d : Domain) → IsSound d → IsSound (is_defunct p d).1
unfolding is_defunct
is_defunct-IsSound p d s = elim (Bool-cases (d.tealets p).flags.is_defunct) [
  | inl e ↦ rw e s
  | inr e ↦
      elim (Bool-cases
        (not ((d.tealets p).stack == null) && (d.stacks (d.tealets p).stack).is_defunct)) [
          | inl f ↦
              rw (e, f)
                (set_flags-IsSound p (record ((d.tealets p).flags) { is_defunct = true }) d
                  (s.staying p) (λ i j k. absurd (false≢true (sym k))) s)
          | inr f ↦ rw (e, f) s
        ]
]

-- A tealet that is not defunct is left alone, and neither it nor its stack is marked.
pub is_defunct-false :
    (p : Ptr) (d : Domain)
    → (is_defunct p d).0 ≡ false
    → ((is_defunct p d).1 ≡ d)
      × ((d.tealets p).flags.is_defunct ≡ false)
      × ((d.tealets p).stack ≢ null → (d.stacks (d.tealets p).stack).is_defunct ≡ false)
unfolding is_defunct
is_defunct-false p d h = elim (Bool-cases (d.tealets p).flags.is_defunct) [
  | inl e ↦ absurd (false≢true (sym h ∙ rw e refl))
  | inr e ↦
      elim (Bool-cases
        (not ((d.tealets p).stack == null) && (d.stacks (d.tealets p).stack).is_defunct)) [
          | inl f ↦ absurd (false≢true (sym h ∙ rw (e, f) refl))
          | inr f ↦ (rw (e, f) refl, e, λ n. rw (ne→== _ null n) at f)
        ]
]

-- The registers, the memory and the stacks are left alone whatever is found.
pub is_defunct-rest :
    (p : Ptr) (d : Domain)
    → ((is_defunct p d).1.mem ≡ d.mem)
      × ((is_defunct p d).1.sp ≡ d.sp)
      × ((is_defunct p d).1.stacks ≡ d.stacks)
      × ((is_defunct p d).1.current ≡ d.current)
      × ((t : Ptr) → ((is_defunct p d).1.tealets t).stack ≡ (d.tealets t).stack)
unfolding is_defunct
is_defunct-rest p d = elim (Bool-cases (d.tealets p).flags.is_defunct) [
  | inl e ↦ rw e (refl, refl, refl, refl, (λ t. refl))
  | inr e ↦
      elim (Bool-cases
        (not ((d.tealets p).stack == null) && (d.stacks (d.tealets p).stack).is_defunct)) [
          | inl f ↦
              rw (e, f)
                (refl, refl, refl, refl, kept_field (λ (x : Tealet). x.stack) p _ d (λ x h. refl))
          | inr f ↦ rw (e, f) (refl, refl, refl, refl, (λ t. refl))
        ]
]
