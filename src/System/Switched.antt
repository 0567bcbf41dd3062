-- ===== src/System/Switched.antt =====
-- A transfer and the state of the whole domain.
use mathlib.Core.Bool.{false≢true}
use libtealet.Base.{
  ◌+◌, ◌≤◌, ◌<◌, ◌≡◌, ◌≢◌, refl, sym, ap, subst, ◌∙◌, ◌⊎◌, inl, inr, true, false, List, ◌==◌, has,
  arith, Bool-cases, ==→eq, ==→ne, eq→==, ne→==,
}
use libtealet.Platform.{Ptr, null}
use libtealet.Domain.{Domain, Stack, Tealet, TealetFlags}
use libtealet.Transfer.Invariant.{Sliced, Nobody}
use libtealet.Transfer.Save.{IsFresh}
use libtealet.Transfer.Suspend.{fail_ok}
use libtealet.Transfer.Switch.{Ready, Switched, parked, sacrificed}
use libtealet.System.{holds, holders, IsSound}
use libtealet.System.Count.{holders-two, holders-change_two}

-- What counts for the state of the domain.
abbrev pub core : Domain → (Ptr → Stack) × (Ptr → Tealet) × List Ptr × List Ptr × Ptr × Ptr
core d = (d.stacks, d.tealets, d.prev, d.all, d.main, d.current)

pub core-Sliced :
    (lo : Ptr) (d d' : Domain) → core d' ≡ core d → Sliced lo Nobody d → Sliced lo Nobody d'
core-Sliced lo d d' e s =
    let a : d'.stacks ≡ d.stacks = ap (λ c. c.0) e in
    let b : d'.tealets ≡ d.tealets = ap (λ c. c.1) e in
    let c : d'.prev ≡ d.prev = ap (λ c. c.2) e in
    record {
      bands = rw (a, c) s.bands;
      no_null = rw c s.no_null;
      linked = λ j h. rw a (s.linked j (rw c at h));
      whole = λ j h. rw a (s.whole j (rw a at h));
      full = λ j h o. rw a (s.full j (rw a at h) (rw c at o));
      within = λ j h. rw a (s.within j (rw a at h));
      owned = λ t h. rw (a, b) (s.owned t (rw b at h));
    }

pub core-IsSound : (d d' : Domain) → core d' ≡ core d → IsSound d → IsSound d'
core-IsSound d d' e s =
    let a : d'.stacks ≡ d.stacks = ap (λ c. c.0) e in
    let b : d'.tealets ≡ d.tealets = ap (λ c. c.1) e in
    let f : d'.all ≡ d.all = ap (λ c. c.3) e in
    let m : d'.main ≡ d.main = ap (λ c. c.4) e in
    let g : d'.current ≡ d.current = ap (λ c. c.5) e in
    let far : (d'.tealets d'.current).stack_far ≡ (d.tealets d.current).stack_far =
      rw (b, g) refl in
    record {
      sliced = subst (λ x. Sliced x Nobody d') (sym far) (core-Sliced _ d d' e s.sliced);
      distinct = rw f s.distinct;
      no_null = rw f s.no_null;
      main_listed = rw (f, m) s.main_listed;
      current_listed = rw (f, g) s.current_listed;
      strangers = λ t h. rw b (s.strangers t (rw f at h));
      counted = λ p n. rw (a, b, f) (s.counted p n);
      running = rw (b, g) s.running;
      staying = λ t. rw b (s.staying t);
      suspended = λ t h n i j k.
          rw b (s.suspended t (rw f at h) (rw g at n) (rw b at i) (rw b at j) (rw b at k));
    }

-- A tealet that has a stack is listed.
pub listed : (d : Domain) → IsSound d → (t : Ptr) → (d.tealets t).stack ≢ null → has t d.all ≡ true
listed d s t n = elim (Bool-cases (has t d.all)) [
  | inl e ↦ e
  | inr e ↦ absurd (n (s.strangers t e))
]

-- A stack that somebody else holds too has a count that says so.
pub held_twice :
    (d : Domain)
    → IsSound d
    → (a b : Ptr) → (d.tealets a).stack ≢ null
    → b ≢ a
    → (d.tealets b).stack ≡ (d.tealets a).stack
    → 1 < (d.stacks (d.tealets a).stack).refcount
held_twice d s a b n o e = rw (s.counted (d.tealets a).stack n) (
    holders-two (d.tealets a).stack d.tealets b a d.all s.distinct
      (listed d s b (λ i. n (sym e ∙ i))) (listed d s a n) o e refl)

pub IsSound-Ready :
    (d : Domain)
    → IsSound d
    → IsFresh d
    → d.sp < (d.tealets d.current).stack_far
    → d.target ≢ d.current
    → (d.tealets d.target).stack ≢ null
    → (d.stacks (d.tealets d.target).stack).is_defunct ≡ false
    → (fail_ok d ≡ true) ⊎ ((d.stacks (d.tealets d.target).stack).refcount ≤ 1)
    → Ready d
IsSound-Ready d s fresh inside other saved alive secure = record {
  sliced = s.sliced;
  fresh = fresh;
  inside = inside;
  stays = s.staying d.current;
  other = other;
  is_saved = saved;
  live = ((s.sliced.owned d.target saved).0, alive);
  secure = secure;
  sole = λ t n e. held_twice d s d.target t saved n e;
}

current-Sliced :
    (lo c : Ptr) (d : Domain) → Sliced lo Nobody d → Sliced lo Nobody (record d { current = c })
current-Sliced lo c d s = record {
  bands = s.bands;
  no_null = s.no_null;
  linked = s.linked;
  whole = s.whole;
  full = s.full;
  within = s.within;
  owned = s.owned;
}

module _ (d d' : Domain) (s : IsSound d) (ready : Ready d) (w : Switched d d') where
  abbrev q : Ptr
  q = (d.tealets d.target).stack

  abbrev landed : Domain
  landed = record d' { current = d.target }

  count_after :
      (p : Ptr)
      → p ≢ null
      → holders p d'.tealets d.all + holds p (d.tealets d.target)
        ≡ holders p d.tealets d.all + holds p (d'.tealets d.current)
  count_after p n =
      let two =
        holders-change_two p d.tealets d'.tealets d.current d.target d.all s.distinct
          s.current_listed (listed d s d.target ready.is_saved) (λ e. ready.other (sym e))
          w.same_tealet in
      let a : holds p (d.tealets d.current) ≡ 0 =
        rw (s.running, ne→== null p (λ e. n (sym e))) refl in
      let b : holds p (d'.tealets d.target) ≡ 0 =
        rw (w.taken, ne→== null p (λ e. n (sym e))) refl in
      omega (arith, two)

  held : 0 < (d.stacks q).refcount
  held = ready.live.0

  -- The stack of the tealet that left, if it has one, is new and its own.
  leaver :
      (p : Ptr)
      → p ≢ null
      → (((d'.tealets d.current).stack ≡ p)
          × ((d.stacks p).refcount ≡ 0)
          × ((d'.stacks p).refcount ≡ 1))
        ⊎ ((d'.tealets d.current).stack ≢ p)
  leaver p n = elim w.own [
    | parked p1 a b c f g u h k ↦ elim (Bool-cases (p1 == p)) [
      | inl e ↦
          let i = ==→eq p1 p e in
          inl (
            a ∙ i,
            subst (λ j. (d.stacks j).refcount ≡ 0) i u,
            subst (λ j. (d'.stacks j).refcount ≡ 1) i k,
          )
      | inr e ↦ inr (λ i. ==→ne p1 p e (sym a ∙ i))
    ]
    | sacrificed a b c ↦ inr (λ i. n (sym i ∙ (c ∙ s.running)))
  ]

  counted_after : (p : Ptr) → p ≢ null → (d'.stacks p).refcount ≡ holders p d'.tealets d.all
  counted_after p n = elim (leaver p n) [
    | inl (a, u, k) ↦
        let apart : q ≢ p = λ e. omega (arith, held, ap (λ j. (d.stacks j).refcount) e) in
        let x : holds p (d'.tealets d.current) ≡ 1 = rw (eq→== _ _ a) refl in
        let y : holds p (d.tealets d.target) ≡ 0 = rw (ne→== q p apart) refl in
        omega (arith, count_after p n, s.counted p n)
    | inr a ↦
        let x : holds p (d'.tealets d.current) ≡ 0 = rw (ne→== _ p a) refl in
        elim (Bool-cases (p == q)) [
          | inl e ↦
              let i = ==→eq p q e in
              let y : holds p (d.tealets d.target) ≡ 1 = rw (eq→== q p (sym i)) refl in
              let before : (d.stacks p).refcount ≡ (d.stacks q).refcount =
                ap (λ j. (d.stacks j).refcount) i in
              let after : (d'.stacks p).refcount ≡ (d'.stacks q).refcount =
                ap (λ j. (d'.stacks j).refcount) i in
              omega (arith, count_after p n, s.counted p n, w.count, held)
          | inr e ↦
              let y : holds p (d.tealets d.target) ≡ 0 =
                rw (ne→== q p (λ i. ==→ne p q e (sym i))) refl in
              let same = w.elsewhere p (λ i. a (sym i)) (==→ne p q e) in
              omega (arith, count_after p n, s.counted p n)
        ]
  ]

  all_same : d'.all ≡ d.all
  all_same = ap (λ c. c.0) w.same_fixed

  not_listed : (t u : Ptr) → has t d.all ≡ false → has u d.all ≡ true → t ≢ u
  not_listed t u h k e = false≢true (sym h ∙ subst (λ i. has i d.all ≡ true) (sym e) k)

  stranger_after : (t : Ptr) → has t d.all ≡ false → (d'.tealets t).stack ≡ null
  stranger_after t h =
      ap (λ (x : Tealet). x.stack)
        (w.same_tealet t (not_listed t d.current h s.current_listed)
          (not_listed t d.target h (listed d s d.target ready.is_saved)))
      ∙ s.strangers t h

  exiting_after : (t : Ptr) → (d'.tealets t).flags.exiting ≡ false
  exiting_after t = elim (Bool-cases (t == d.current)) [
    | inl e ↦
        ap (λ i. (d'.tealets i).flags.exiting) (==→eq t d.current e)
        ∙ (w.own_exiting ∙ s.staying d.current)
    | inr e ↦ elim (Bool-cases (t == d.target)) [
      | inl f ↦
          ap (λ i. (d'.tealets i).flags.exiting) (==→eq t d.target f)
          ∙ (ap (λ (x : TealetFlags). x.exiting) w.same_flags ∙ s.staying d.target)
      | inr f ↦
          ap (λ (x : Tealet). x.flags.exiting)
            (w.same_tealet t (==→ne t d.current e) (==→ne t d.target f))
          ∙ s.staying t
    ]
  ]

  -- The tealet that left is suspended, or marked.
  leaver_after :
      (d'.tealets d.current).flags.is_defunct ≡ false → (d'.tealets d.current).stack ≢ null
  leaver_after k = elim w.own [
    | parked p a b c f g u h l ↦ λ i. h (sym a ∙ i)
    | sacrificed a b c ↦ absurd (false≢true (sym k ∙ b))
  ]

  suspended_after :
      (t : Ptr)
      → has t d.all ≡ true
      → t ≢ d.target
      → (d'.tealets t).flags.bound ≡ true
      → (d'.tealets t).flags.exited ≡ false
      → (d'.tealets t).flags.is_defunct ≡ false
      → (d'.tealets t).stack ≢ null
  suspended_after t h n i j k = elim (Bool-cases (t == d.current)) [
    | inl e ↦
        let at = ==→eq t d.current e in
        λ z.
          leaver_after (ap (λ u. (d'.tealets u).flags.is_defunct) (sym at) ∙ k)
            (ap (λ u. (d'.tealets u).stack) (sym at) ∙ z)
    | inr e ↦
        let same = w.same_tealet t (==→ne t d.current e) n in
        λ z.
          s.suspended t h (==→ne t d.current e) (ap (λ (x : Tealet). x.flags.bound) (sym same) ∙ i)
            (ap (λ (x : Tealet). x.flags.exited) (sym same) ∙ j)
            (ap (λ (x : Tealet). x.flags.is_defunct) (sym same) ∙ k)
            (ap (λ (x : Tealet). x.stack) (sym same) ∙ z)
  ]

  -- After a transfer that took place the state of the domain is sound again, with the target
  -- running.
  pub Switched-IsSound : IsSound landed
  Switched-IsSound = record {
    sliced =
        subst (λ x. Sliced x Nobody landed) (sym w.same_far)
          (current-Sliced _ d.target d' w.sliced);
    distinct = rw all_same s.distinct;
    no_null = rw all_same s.no_null;
    main_listed = rw (all_same, ap (λ c. c.1) w.same_fixed) s.main_listed;
    current_listed = rw all_same (listed d s d.target ready.is_saved);
    strangers = λ t h. stranger_after t (rw all_same at h);
    counted = λ p n. rw all_same (counted_after p n);
    running = w.taken;
    staying = λ t. exiting_after t;
    suspended = λ t h n i j k. suspended_after t (rw all_same at h) n i j k;
  }
