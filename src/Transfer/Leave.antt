-- ===== src/Transfer/Leave.antt =====
-- tealet_save_state as a whole, for a current tealet that exits: the walk along `g_prev`, and
-- then the tealet is left as exited or freed.
use mathlib.Core.Bool.{false≢true}
use libtealet.Base.{
  ◌≡◌, ◌≢◌, refl, sym, ap, subst, ◌∙◌, inl, inr, Bool, true, false, not, List, ◌==◌, if◌then◌else◌,
  has, erase, Within, Bool-cases, ==→eq, ==→ne, eq→==, ne→==,
}
use libtealet.Platform.{Ptr, null, Platform, IsDescending}
use libtealet.Memory.{Mem}
use libtealet.Domain.{Domain, Stack, Code, done, err_mem, is_error, XferFlags, freed_tealet}
use libtealet.Growth.{stack_grow_list}
use libtealet.Growth.Walked.{intact, lost, main_stack, Scarce, Held, Walked, TargetEnds}
use libtealet.Transfer.{save_current, save_exiting, save_state}
use libtealet.Transfer.Invariant.{
  Sliced, Nobody, Leaving, walked, walk_done-Sliced, walk_failed-Sliced,
}
use libtealet.Transfer.Suspend.{Fate, survives, is_lost, fail_ok, unforced, set_flags-Sliced}

-- How the tealet at `c` is left: it is marked as exited, or freed and off the list of tealets.
pub data Farewell (c : Ptr) (d d' : Domain) : Type 0 where
  exited :
      (d.tealets c).flags.autodelete ≡ false
      → d'.all ≡ d.all
      → (d'.tealets c).flags.exited ≡ true
      → Farewell c d d'
  deleted :
      (d.tealets c).flags.autodelete ≡ true
      → d'.all ≡ erase c d.all
      → d'.tealets c ≡ freed_tealet
      → Farewell c d d'

-- What an exit of the current tealet leaves alone.
abbrev pub frame :
    Domain → Mem × Ptr × Ptr × Ptr × Ptr × Ptr × XferFlags × (Ptr → Stack) × List Ptr × List Ptr
frame d = (d.mem, d.sp, d.current, d.target, d.main, d.arg, d.flags, d.stacks, d.prev, d.answers)

-- The current tealet has no stack and is not exiting any more.
record Gone (d d' : Domain) : Type 0 where
  same : frame d' ≡ frame d
  bare : (d'.tealets d.current).stack ≡ null
  calm : (d'.tealets d.current).flags.exiting ≡ false
  elsewhere : (t : Ptr) → t ≢ d.current → d'.tealets t ≡ d.tealets t
  farewell : Farewell d.current d d'

save_exiting-Gone : (pf : Platform) (d : Domain) → Gone d (save_exiting pf d)
unfolding save_exiting
save_exiting-Gone pf d = elim (Bool-cases (d.tealets d.current).flags.autodelete) [
  | inl e ↦ rw e (record {
    same = refl;
    bare = rw (eq→== d.current d.current refl);
    calm = rw (eq→== d.current d.current refl);
    elsewhere = λ t n. rw (ne→== t d.current n);
    farewell = deleted e refl (rw (eq→== d.current d.current refl));
  })
  | inr e ↦ rw e (record {
    same = refl;
    bare = rw (eq→== d.current d.current refl);
    calm = rw (eq→== d.current d.current refl);
    elsewhere = λ t n. rw (ne→== t d.current n);
    farewell = exited e refl (rw (eq→== d.current d.current refl));
  })
]

Gone-Sliced :
    (lo : Ptr) (Exempt : Ptr → Stack → Type 0) (d d' : Domain)
    → Gone d d'
    → Sliced lo Exempt d
    → Sliced lo Exempt d'
Gone-Sliced lo Exempt d d' g s =
    let a : d'.stacks ≡ d.stacks = ap (λ c. c.7) g.same in
    let b : d'.prev ≡ d.prev = ap (λ c. c.8) g.same in
    record {
      bands = rw (a, b) s.bands;
      no_null = rw b s.no_null;
      linked = λ j h. rw a (s.linked j (rw b at h));
      whole = λ j h. rw a (s.whole j (rw a at h));
      full = λ j h o. rw a (s.full j (rw a at h) (rw b at o));
      within = λ j h. rw a (s.within j (rw a at h));
      owned = λ t h. elim (Bool-cases (t == d.current)) [
        | inl e ↦ absurd (h (ap (λ i. (d'.tealets i).stack) (==→eq t d.current e) ∙ g.bare))
        | inr e ↦
            let same = g.elsewhere t (==→ne t d.current e) in
            rw (same, a) (s.owned t (rw same at h))
      ];
    }

-- What a departure leaves alone.
abbrev pub registers : Domain → Mem × Ptr × Ptr × Ptr × Ptr × Ptr × XferFlags
registers d = (d.mem, d.sp, d.current, d.target, d.main, d.arg, d.flags)

-- The state after an exiting tealet_save_state that succeeds.
pub record Departed (stop q : Ptr) (d d' : Domain) : Type 0 where
  pub same : registers d' ≡ registers d
  pub bare : (d'.tealets d.current).stack ≡ null
  pub calm : (d'.tealets d.current).flags.exiting ≡ false
  pub elsewhere : (t : Ptr) → t ≢ d.current → d'.tealets t ≡ d.tealets t
  pub sliced : Sliced stop (Leaving q) d'
  pub fate : (j : Ptr) → Fate (not (fail_ok d)) q j d.mem (d.stacks j) (d'.stacks j)
  pub farewell : Farewell d.current d d'

-- The state after one that runs out of memory: the walk has ended early.
pub record Remained (q : Ptr) (d d' : Domain) : Type 0 where
  pub same : d' ≡ record (unforced d) {
    stacks = d'.stacks;
    prev = d'.prev;
    answers = d'.answers;
    stats = d'.stats;
  }
  pub sliced : Sliced (d.tealets d.current).stack_far Nobody d'
  pub supply : Within d'.answers d.answers
  pub fate : (j : Ptr) → Fate (not (fail_ok d)) q j d.mem (d.stacks j) (d'.stacks j)
  pub scarce : Scarce (fail_ok d) q (main_stack d) d.prev d.stacks

pub data Departure (stop q : Ptr) (d : Domain) (r : Bool × Domain) : Type 0 where
  departed : r.0 ≡ true → Departed stop q d r.1 → Departure stop q d r
  remained : r.0 ≡ false → Remained q d r.1 → Departure stop q d r

module _ (pf : Platform) (law : IsDescending pf) (d : Domain)
    (sliced : Sliced (d.tealets d.current).stack_far Nobody d)
    (leaves : (d.tealets d.current).flags.exiting ≡ true) (other : d.target ≢ d.current) where
  abbrev q : Ptr
  q = (d.tealets d.target).stack

  abbrev stop : Ptr
  stop = (d.tealets d.target).stack_far

  ends : TargetEnds stop q d.prev d.stacks
  ends h = elim (Bool-cases (q == null)) [
    | inl e ↦
        absurd
          (false≢true (sym sliced.no_null ∙ subst (λ i. has i d.prev ≡ true) (==→eq q null e) h))
    | inr e ↦ (sliced.owned d.target (==→ne q null e)).1
  ]

  abbrev grown_list : Code × Domain
  grown_list = stack_grow_list pf d.prev stop q (fail_ok d) (unforced d)

  sliced' : Sliced (d.tealets d.current).stack_far Nobody (unforced d)
  sliced' = set_flags-Sliced _ Nobody d.current _ d sliced

  abbrev walk :
      Walked stop q (fail_ok d) (d.tealets d.current).stack_far d.prev (unforced d) grown_list
  walk = walked pf law stop q (fail_ok d) _ (unforced d) sliced' ends

  to_Fate :
      (ms j : Ptr) (s s' : Stack) (b : Bool)
      → Held d.mem b q ms j s s'
      → Fate (not b) q j d.mem s s'
  to_Fate ms j s s' b (intact g) = survives g
  to_Fate ms j s s' b (lost a n t e f g c) = is_lost (rw a refl) t e c g

  fates : (j : Ptr) → Fate (not (fail_ok d)) q j d.mem (d.stacks j) ((grown_list.1).stacks j)
  fates j = to_Fate _ j _ _ _ (walk.held j)

  same_stack : (t : Ptr) → ((unforced d).tealets t).stack ≡ (d.tealets t).stack
  same_stack t = elim (Bool-cases (t == d.current)) [
    | inl e ↦ rw (e, ==→eq t d.current e)
    | inr e ↦ rw e
  ]

  settled : grown_list.0 ≡ done → Departed stop q d (save_exiting pf grown_list.1)
  settled ok =
      let g = save_exiting-Gone pf grown_list.1 in
      let f = walk.frame in
      let at : (grown_list.1).current ≡ d.current = ap (λ (x : Domain). x.current) f in
      record {
        same = ap (λ c. (c.0, c.1, c.2, c.3, c.4, c.5, c.6)) g.same ∙ ap registers f;
        bare = ap (λ i. ((save_exiting pf grown_list.1).tealets i).stack) (sym at) ∙ g.bare;
        calm = ap (λ i. ((save_exiting pf grown_list.1).tealets i).flags.exiting) (sym at) ∙ g.calm;
        elsewhere = λ t n.
            g.elsewhere t (λ i. n (i ∙ at))
            ∙ (ap (λ (x : Domain). x.tealets t) f ∙ rw (ne→== t d.current n));
        sliced =
            Gone-Sliced stop (Leaving q) grown_list.1 _ g
              (walk_done-Sliced pf law stop q (fail_ok d) _ (unforced d) sliced' ends ok);
        fate = λ j.
            subst (Fate (not (fail_ok d)) q j d.mem (d.stacks j)) (sym (ap (λ c. c.7 j) g.same))
              (fates j);
        farewell =
            settled_farewell at (ap (λ (x : Domain). x.all) f) (ap (λ (x : Domain). x.tealets) f)
              g.farewell;
      }
    where
      settled_farewell :
          (grown_list.1).current ≡ d.current
          → (grown_list.1).all ≡ d.all
          → (grown_list.1).tealets ≡ (unforced d).tealets
          → Farewell (grown_list.1).current grown_list.1 (save_exiting pf grown_list.1)
          → Farewell d.current d (save_exiting pf grown_list.1)
      settled_farewell at a b (exited x y z) =
          exited
            (rw (eq→== d.current d.current refl) at (
              subst (λ f. (f d.current).flags.autodelete ≡ false) b
                (subst (λ i. ((grown_list.1).tealets i).flags.autodelete ≡ false) at x)))
            (y ∙ a)
            (subst (λ i. ((save_exiting pf grown_list.1).tealets i).flags.exited ≡ true) at z)
      settled_farewell at a b (deleted x y z) =
          deleted
            (rw (eq→== d.current d.current refl) at (
              subst (λ f. (f d.current).flags.autodelete ≡ true) b
                (subst (λ i. ((grown_list.1).tealets i).flags.autodelete ≡ true) at x)))
            (y ∙ (ap (λ i. erase i (grown_list.1).all) at ∙ ap (erase d.current) a))
            (subst (λ i. (save_exiting pf grown_list.1).tealets i ≡ freed_tealet) at z)

  stopped :
      grown_list.0 ≡ err_mem
      → Scarce (fail_ok d) q (main_stack (unforced d)) d.prev d.stacks
      → Remained q d grown_list.1
  stopped bad why = record {
    same = walk.frame;
    sliced = walk_failed-Sliced pf law stop q (fail_ok d) _ (unforced d) sliced' ends bad;
    supply = walk.supply;
    fate = fates;
    scarce = subst (λ m. Scarce (fail_ok d) q m d.prev d.stacks) (same_stack d.main) why;
  }

  chosen :
      (c : Code) (x : Bool) (halted left went : Bool × Domain)
      → c ≡ done
      → x ≡ true
      → left ≡ (if is_error c then halted else (if x then left else went))
  chosen c x halted left went ok bad = rw (ok, bad) refl

  chosen_failed :
      (c : Code) (x : Bool) (halted left went : Bool × Domain)
      → c ≡ err_mem
      → halted ≡ (if is_error c then halted else (if x then left else went))
  chosen_failed c x halted left went bad = rw bad refl

  -- tealet_save_state, of a transfer to another tealet by one that exits, under the invariant:
  -- either everything that the target's stack will overwrite is saved, and the current tealet
  -- is marked as exited or, if it is to be deleted, freed; or it answers false with all tealets
  -- as before and the invariant intact. The latter needs that nobody forces the transfer, or
  -- that the main tealet's stack is in the list and, if it is the target's, shared. Either way
  -- a stack is given up only in a forced transfer, and the target's own only if it is shared.
  pub save_state-Departure : Departure stop q d (save_state pf d.sp d)
  unfolding save_state
  save_state-Departure = elim walk.code [
    | inl ok ↦ rw (ne→== _ _ other) (
        subst (Departure stop q d) (chosen grown_list.0 _ _ _ _ ok leaves)
          (departed refl (settled ok)))
    | inr (bad, why) ↦ rw (ne→== _ _ other) (
        subst (Departure stop q d)
          (chosen_failed grown_list.0 (d.tealets d.current).flags.exiting (false, grown_list.1)
            (true, save_exiting pf (grown_list.1))
            (save_current pf d.sp stop (fail_ok d) (grown_list.1)) bad)
          (remained refl (stopped bad why)))
  ]
