-- ===== src/Transfer/Suspend.antt =====
-- tealet_save_state as a whole, for a current tealet that does not exit: the walk along `g_prev`,
-- and then the slice of the current tealet.
use mathlib.Core.Bool.{false≢true}
use libtealet.Base.{
  ◌<◌, ◌≡◌, ◌≢◌, refl, sym, ap, subst, ◌∙◌, inl, inr, Bool, true, false, not, ◌||◌, List, ◌==◌,
  if◌then◌else◌, has, Within, Bool-cases, ==→eq, ==→ne, eq→==, ne→==,
}
use libtealet.Platform.{Ptr, null, Platform, IsDescending}
use libtealet.Memory.{Mem}
use libtealet.Domain.{
  fixed, Domain, Stack, Stats, Tealet, TealetFlags, Code, done, err_mem, is_error, set_flags,
}
use libtealet.Growth.{stack_grow_list, stack_saveto}
use libtealet.Growth.Bands.{Bands, Grew}
use libtealet.Growth.Walked.{Held, intact, lost, Walked, TargetEnds, main_stack}
use libtealet.Transfer.{save_current, save_exiting, save_state}
use libtealet.Transfer.Invariant.{Sliced, Nobody, Leaving, walked, walk-count, walk_done-Sliced}
use libtealet.Transfer.Save.{IsFresh, Own, saved, given_up, Parked, save_current-ParkedOr}

-- Flags have nothing to do with the stacks.
pub set_flags-Sliced :
    (lo : Ptr) (Exempt : Ptr → Stack → Type 0) (t : Ptr) (f : TealetFlags) (d : Domain)
    → Sliced lo Exempt d
    → Sliced lo Exempt (set_flags t f d)
set_flags-Sliced lo Exempt t f d sliced = record {
  bands = sliced.bands;
  no_null = sliced.no_null;
  linked = sliced.linked;
  whole = sliced.whole;
  full = sliced.full;
  within = sliced.within;
  owned = λ u h. elim (Bool-cases (u == t)) [
    | inl e ↦ rw e (sliced.owned t (rw e at h))
    | inr e ↦ rw e (sliced.owned u (rw e at h))
  ];
}

-- The state as tealet_save_state begins, but for the flag that it takes back.
abbrev pub unforced : Domain → Domain
unforced d = set_flags d.current (record ((d.tealets d.current).flags) { saveforce = false }) d

-- Whether a tealet may not be lost: nobody forces the transfer, or main is the one that runs.
abbrev pub fail_ok : Domain → Bool
fail_ok d = not (d.tealets d.current).flags.saveforce || d.current == d.main

-- A stack after tealet_save_state: the same, with perhaps more saved; or given up, which needs a
-- forced transfer and, for the target's, that others share it.
pub data Fate (forced : Bool) (target j : Ptr) (m : Mem) (s s' : Stack) : Type 0 where
  survives : Grew m s s' → Fate forced target j m s s'
  is_lost :
      forced ≡ true
      → (j ≡ target → 1 < s.refcount)
      → s'.is_defunct ≡ true
      → s'.refcount ≡ s.refcount
      → s'.stack_far ≡ s.stack_far
      → Fate forced target j m s s'

pub record Suspended (stop q : Ptr) (d d' : Domain) : Type 0 where
  pub same_mem : d'.mem ≡ d.mem
  pub same_current : d'.current ≡ d.current
  pub same_target : d'.target ≡ d.target
  pub same_main : d'.main ≡ d.main
  pub same_fixed : fixed d' ≡ fixed d
  pub own_far : (d'.tealets d.current).stack_far ≡ (d.tealets d.current).stack_far
  pub own_exiting : (d'.tealets d.current).flags.exiting ≡ (d.tealets d.current).flags.exiting
  pub elsewhere :
      (j : Ptr) → j ≢ (d'.tealets d.current).stack → (d'.stacks j).refcount ≡ (d.stacks j).refcount
  pub same_tealet : (t : Ptr) → t ≢ d.current → d'.tealets t ≡ d.tealets t
  pub same_stack : (t : Ptr) → t ≢ d.current → (d'.tealets t).stack ≡ (d.tealets t).stack
  pub same_tealet_far :
      (t : Ptr) → t ≢ d.current → (d'.tealets t).stack_far ≡ (d.tealets t).stack_far
  pub sliced : Sliced stop (Leaving q) d'
  pub fate :
      (j : Ptr)
      → 0 < (d.stacks j).refcount
      → Fate (not (fail_ok d)) q j d.mem (d.stacks j) (d'.stacks j)
  pub own : Own d.sp (fail_ok d) d d'

-- The state after a tealet_save_state that fails: no tealet has moved, and no stack is lost.
pub record Untouched (q : Ptr) (d d' : Domain) : Type 0 where
  pub same_mem : d'.mem ≡ d.mem
  pub same_current : d'.current ≡ d.current
  pub same_tealets : (t : Ptr) → (d'.tealets t).stack ≡ (d.tealets t).stack
  pub fate : (j : Ptr) → Fate (not (fail_ok d)) q j d.mem (d.stacks j) (d'.stacks j)

pub data Saving (stop q : Ptr) (d : Domain) (r : Bool × Domain) : Type 0 where
  all_saved : r.0 ≡ true → Suspended stop q d r.1 → Saving stop q d r
  not_saved : r.0 ≡ false → Untouched q d r.1 → Saving stop q d r

save_current_forced :
    (pf : Platform) (sp stop : Ptr) (b : Bool) (d : Domain)
    → b ≡ false
    → (save_current pf sp stop b d).0 ≡ true
unfolding save_current
save_current_forced pf sp stop true d e = absurd (cc)
save_current_forced pf sp stop false d e =
    elim (Bool-cases ((stack_saveto pf sp (d.tealets d.current).stack_far stop d).0 == null)) [
      | inl i ↦ rw i refl
      | inr i ↦ rw i refl
    ]

module _ (pf : Platform) (law : IsDescending pf) (d : Domain)
    (sliced : Sliced (d.tealets d.current).stack_far Nobody d) (fresh : IsFresh d)
    (inside : d.sp < (d.tealets d.current).stack_far)
    (stays : (d.tealets d.current).flags.exiting ≡ false) (other : d.target ≢ d.current) where
  abbrev q : Ptr
  q = (d.tealets d.target).stack

  abbrev stop : Ptr
  stop = (d.tealets d.target).stack_far

  ends : TargetEnds stop q d.prev d.stacks
  ends h = elim (Bool-cases (q == null)) [
    | inl e ↦
        absurd
          (false≢true (sym sliced.no_null ∙ subst (λ i. has i d.prev ≡ true) (==→eq q null e) h))
    | inr e ↦ (sliced.owned d.target (==→ne q null e)).1
  ]

  abbrev grown_list : Code × Domain
  grown_list = stack_grow_list pf d.prev stop q (fail_ok d) (unforced d)

  sliced' : Sliced (d.tealets d.current).stack_far Nobody (unforced d)
  sliced' = set_flags-Sliced _ Nobody d.current _ d sliced

  to_Fate :
      (ms j : Ptr) (s s' : Stack) (b : Bool)
      → Held d.mem b q ms j s s'
      → Fate (not b) q j d.mem s s'
  to_Fate ms j s s' b (intact g) = survives g
  to_Fate ms j s s' b (lost a n t e f g c) = is_lost (rw a refl) t e c g

  abbrev resume_from : (Ptr → Stack) → List Ptr → List Ptr → Stats → Domain
  resume_from stacks prev answers stats = record (unforced d) {
    stacks = stacks;
    prev = prev;
    answers = answers;
    stats = stats;
  }

  own_far : ((unforced d).tealets d.current).stack_far ≡ (d.tealets d.current).stack_far
  own_far = rw (eq→== d.current d.current refl)

  other_tealet : (t : Ptr) → t ≢ d.current → (unforced d).tealets t ≡ d.tealets t
  other_tealet t n = rw (ne→== t d.current n)

  unmoved :
      (stacks : Ptr → Stack) (prev answers : List Ptr) (stats : Stats)
      → ((j : Ptr) → Fate (not (fail_ok d)) q j d.mem (d.stacks j) (stacks j))
      → Untouched q d (resume_from stacks prev answers stats)
  unmoved stacks prev answers stats fates = record {
    same_mem = refl;
    same_current = refl;
    same_tealets = λ t. elim (Bool-cases (t == d.current)) [
      | inl e ↦ rw (e, ==→eq t d.current e)
      | inr e ↦ rw e
    ];
    fate = fates;
  }

  module _ (stacks : Ptr → Stack) (prev answers : List Ptr) (stats : Stats)
      (fates : (j : Ptr) → Fate (not (fail_ok d)) q j d.mem (d.stacks j) (stacks j))
      (count : (j : Ptr) → (stacks j).refcount ≡ (d.stacks j).refcount) where
    abbrev d2 : Domain
    d2 = resume_from stacks prev answers stats

    Own-of : (d' : Domain) → Own d.sp (fail_ok d) d2 d' → Own d.sp (fail_ok d) d d'
    Own-of d' (saved p a b c e f g h i) = saved p a b c (e ∙ own_far) f (sym (count p) ∙ g) h i
    Own-of d' (given_up a b c) = given_up a b (c ∙ rw (eq→== d.current d.current refl))

    Parked-Suspended : (d' : Domain) → Parked stop q d.sp (fail_ok d) d2 d' → Suspended stop q d d'
    Parked-Suspended d' k = record {
      same_mem = k.same_mem;
      same_current = k.same_current;
      same_target = k.same_target;
      same_main = k.same_main;
      same_fixed = k.same_fixed;
      own_far = k.own_far ∙ own_far;
      own_exiting = k.own_exiting ∙ rw (eq→== d.current d.current refl);
      elsewhere = λ j n. k.elsewhere j n ∙ count j;
      same_tealet = λ t n. k.same_tealet t n ∙ other_tealet t n;
      same_stack = λ t n. ap (λ (x : Tealet). x.stack) (k.same_tealet t n ∙ other_tealet t n);
      same_tealet_far =
          λ t n. ap (λ (x : Tealet). x.stack_far) (k.same_tealet t n ∙ other_tealet t n);
      sliced = k.sliced;
      fate = λ j l. rw (k.others j (rw (count j) l)) (fates j);
      own = Own-of d' k.own;
    }

    settle :
        Sliced stop (Leaving q) d2
        → Bands stacks (d.tealets d.current).stack_far prev
        → Within answers d.answers
        → Saving stop q d (save_current pf d.sp stop (fail_ok d) d2)
    settle sl b w =
        elim (save_current-ParkedOr pf law d.sp stop q (fail_ok d) d2 sl (rw own_far b)
          (λ a h n. count a ∙ fresh a (w a h) n) (rw own_far inside)) [
            | inl (a, e, f) ↦ rw e (not_saved refl (unmoved stacks prev a stats fates))
            | inr (e, k) ↦ all_saved e (Parked-Suspended _ k)
          ]

  -- The branches of tealet_save_state after its walk.
  chosen :
      (c : Code) (x : Bool) (stopped left went : Bool × Domain)
      → c ≡ done
      → x ≡ false
      → went ≡ (if is_error c then stopped else (if x then left else went))
  chosen c x stopped left went ok bad = rw (ok, bad) refl

  chosen_failed :
      (c : Code) (x : Bool) (stopped left went : Bool × Domain)
      → c ≡ err_mem
      → stopped ≡ (if is_error c then stopped else (if x then left else went))
  chosen_failed c x stopped left went bad = rw bad refl

  abbrev walk :
      Walked stop q (fail_ok d) (d.tealets d.current).stack_far d.prev (unforced d) grown_list
  walk = walked pf law stop q (fail_ok d) _ (unforced d) sliced' ends

  fates : (j : Ptr) → Fate (not (fail_ok d)) q j d.mem (d.stacks j) ((grown_list.1).stacks j)
  fates j = to_Fate _ j _ _ _ (walk.held j)

  settled :
      grown_list.0 ≡ done → Saving stop q d (save_current pf d.sp stop (fail_ok d) (grown_list.1))
  settled ok =
      subst (λ x. Saving stop q d (save_current pf d.sp stop (fail_ok d) x)) (sym walk.frame)
        (settle (grown_list.1).stacks (grown_list.1).prev (grown_list.1).answers
          (grown_list.1).stats fates
          (walk-count pf law stop q (fail_ok d) _ (unforced d) sliced' ends)
          (subst (λ x. Sliced stop (Leaving q) x) walk.frame
            (walk_done-Sliced pf law stop q (fail_ok d) _ (unforced d) sliced' ends ok))
          walk.bands_failed walk.supply)

  stopped : Saving stop q d (false, grown_list.1)
  stopped =
      subst (λ (x : Domain). Saving stop q d (false, x)) (sym walk.frame)
        (not_saved refl (
          unmoved (grown_list.1).stacks (grown_list.1).prev (grown_list.1).answers
            (grown_list.1).stats fates))

  -- tealet_save_state, of a transfer to another tealet by one that does not exit, under the
  -- invariant and with an allocator that hands out no block in use: either everything that the
  -- target's stack will overwrite is saved, or it answers false with memory, the current
  -- tealet and all holders of stacks as before. Either way a stack is given up only in a
  -- forced transfer, and the target's own only if it is shared.
  pub save_state-Saving : Saving stop q d (save_state pf d.sp d)
  unfolding save_state
  save_state-Saving = elim walk.code [
    | inl ok ↦
        rw (ne→== _ _ other)
          (subst (Saving stop q d) (chosen grown_list.0 _ _ _ _ ok stays) (settled ok))
    | inr (bad, why) ↦ rw (ne→== _ _ other) (
        subst (Saving stop q d)
          (chosen_failed grown_list.0 (d.tealets d.current).flags.exiting (false, grown_list.1)
            (true, save_exiting pf (grown_list.1))
            (save_current pf d.sp stop (fail_ok d) (grown_list.1)) bad)
          stopped)
  ]

  -- The stack of the main tealet is the same with the flag taken back.
  main_same : main_stack (unforced d) ≡ main_stack d
  main_same = same d.main
    where
      same : (t : Ptr) → ((unforced d).tealets t).stack ≡ (d.tealets t).stack
      same t = elim (Bool-cases (t == d.current)) [
        | inl e ↦ rw (e, ==→eq t d.current e)
        | inr e ↦ rw e
      ]

  -- A forced transfer is not held up by memory, unless it is the main tealet's stack that wants it.
  pub save_state_forced :
      fail_ok d ≡ false
      → ((has (main_stack d) d.prev ≡ true)
          → (main_stack d ≡ q → 1 < (d.stacks (main_stack d)).refcount)
          → ⊥)
      → (save_state pf d.sp d).0 ≡ true
  unfolding save_state
  save_state_forced forced enough = elim walk.code [
    | inl ok ↦ rw (ne→== _ _ other) (
        subst (λ (r : Bool × Domain). r.0 ≡ true) (chosen grown_list.0 _ _ _ _ ok stays)
          (save_current_forced pf d.sp stop (fail_ok d) grown_list.1 forced))
    | inr (bad, inl ok) ↦ absurd (false≢true (sym forced ∙ ok))
    | inr (bad, inr (h, shared)) ↦ absurd (
        enough (subst (λ p. has p d.prev ≡ true) main_same h)
          (subst (λ p. p ≡ q → 1 < (d.stacks p).refcount) main_same shared))
  ]
