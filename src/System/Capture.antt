-- ===== src/System/Capture.antt =====
-- A transfer that only saves: the stack of a tealet that is started for later, while the one that
-- starts it goes on.
use mathlib.Core.Bool.{false≢true}
use libtealet.Base.{
  ◌<◌, ◌≡◌, ◌≢◌, refl, sym, ap, subst, ◌∙◌, inl, inr, Bool, true, false, not, has, Distinct, Option,
  some, none, ◌==◌, if◌then◌else◌, arith, Bool-cases, ==→eq, ==→ne, eq→==, ne→==,
}
use libtealet.Platform.{Ptr, null, Platform, IsDescending}
use libtealet.Domain.{Domain, Tealet, Code, save_only, err_mem, err_panic, sw_nop, sw_err}
use libtealet.Stack.{stack_restore}
use libtealet.Stack.Image.{near}
use libtealet.Transfer.{
  Stackman, IsStackman, save_restore_cb, save_state, switch_ended, switch_finish,
}
use libtealet.Transfer.Invariant.{IsLive, Sliced, Nobody, SameView}
use libtealet.Transfer.Save.{IsFresh, saved, given_up}
use libtealet.Transfer.Suspend.{
  fail_ok, survives, is_lost, Suspended, all_saved, not_saved, save_state-Saving,
}
use libtealet.System.{holds, holders, IsSound}
use libtealet.System.Count.{holders-change}
use libtealet.System.Switched.{core, core-IsSound}
use libtealet.System.Guards.{rearm-essence}
use libtealet.System.Kept.{Kept}
use libtealet.System.Outcome.{IsSuspended}

-- The new tealet, which is bound but has no stack yet, is `current` for the moment, and the one
-- that starts it is the target. But for the new tealet the domain is sound with the target
-- running, and nothing stands at NULL.
pub record Primed (d : Domain) : Type 0 where
  pub distinct : Distinct d.all
  pub no_null : has null d.all ≡ false
  pub main_listed : has d.main d.all ≡ true
  pub target_listed : has d.target d.all ≡ true
  pub strangers : (t : Ptr) → has t d.all ≡ false → (d.tealets t).stack ≡ null
  pub counted : (j : Ptr) → j ≢ null → (d.stacks j).refcount ≡ holders j d.tealets d.all
  pub running : (d.tealets d.target).stack ≡ null
  pub staying : (t : Ptr) → (d.tealets t).flags.exiting ≡ false
  pub suspended :
      (t : Ptr)
      → has t d.all ≡ true
      → t ≢ d.target
      → t ≢ d.current
      → (d.tealets t).flags.bound ≡ true
      → (d.tealets t).flags.exited ≡ false
      → (d.tealets t).flags.is_defunct ≡ false
      → (d.tealets t).stack ≢ null
  pub listed : has d.current d.all ≡ true
  pub other : d.target ≢ d.current
  pub blank : (d.tealets d.current).stack ≡ null
  pub sliced : Sliced (d.tealets d.current).stack_far Nobody d
  pub fresh : IsFresh d
  pub inside : d.sp < (d.tealets d.current).stack_far
  pub unforced : fail_ok d ≡ true
  pub nothing : (d.stacks null).refcount ≡ 0

-- The new tealet is suspended with the bytes of memory from the stack pointer to its far end; the
-- other one goes on, memory is as it was, and so are the other suspended tealets.
pub record Captured (d d' : Domain) : Type 0 where
  pub sound : IsSound d'
  pub current : d'.current ≡ d.target
  pub mem : d'.mem ≡ d.mem
  pub suspended : IsSuspended d' d.current
  pub at : near (d'.stacks (d'.tealets d.current).stack) ≡ d.sp
  pub far : (d'.stacks (d'.tealets d.current).stack).stack_far ≡ (d.tealets d.current).stack_far
  pub view : (x : Ptr) → stack_restore (d'.stacks (d'.tealets d.current).stack) d.mem x ≡ d.mem x
  pub others : (u : Ptr) → u ≢ d.current → IsSuspended d u → Kept d d' u

module _ (d d1 : Domain) (p : Primed d)
    (s : Suspended (d.tealets d.target).stack_far null d d1) where
  abbrev landed : Domain
  landed = record d1 { current = d.target }

  -- The stack that was made.
  new_stack :
      ((d1.tealets d.current).stack ≢ null)
      × IsLive (d1.stacks (d1.tealets d.current).stack)
      × (near (d1.stacks (d1.tealets d.current).stack) ≡ d.sp)
      × ((d1.stacks (d1.tealets d.current).stack).stack_far ≡ (d.tealets d.current).stack_far)
      × ((x : Ptr) → stack_restore (d1.stacks (d1.tealets d.current).stack) d.mem x ≡ d.mem x)
      × ((d.stacks (d1.tealets d.current).stack).refcount ≡ 0)
      × ((d1.stacks (d1.tealets d.current).stack).refcount ≡ 1)
  new_stack = elim s.own [
    | saved j a l n f v u h k ↦
        subst
          (λ i.
            (i ≢ null)
            × IsLive (d1.stacks i)
            × (near (d1.stacks i) ≡ d.sp)
            × ((d1.stacks i).stack_far ≡ (d.tealets d.current).stack_far)
            × ((x : Ptr) → stack_restore (d1.stacks i) d.mem x ≡ d.mem x)
            × ((d.stacks i).refcount ≡ 0)
            × ((d1.stacks i).refcount ≡ 1))
          (sym a) (h, l, n, f, v, u, k)
    | given_up a b c ↦ absurd (false≢true (sym a ∙ p.unforced))
  ]

  abbrev made : Ptr
  made = (d1.tealets d.current).stack

  all_same : d1.all ≡ d.all
  all_same = ap (λ c. c.0) s.same_fixed

  main_same : d1.main ≡ d.main
  main_same = ap (λ c. c.1) s.same_fixed

  runner : d1.tealets d.target ≡ d.tealets d.target
  runner = s.same_tealet d.target p.other

  landed_sliced : Sliced (d.tealets d.target).stack_far Nobody landed
  landed_sliced = record {
    bands = s.sliced.bands;
    no_null = s.sliced.no_null;
    linked = s.sliced.linked;
    whole = s.sliced.whole;
    full = λ j l o. elim (s.sliced.full j l o) [
      | inl (z, c) ↦
          let none_there = s.elsewhere null (λ i. new_stack.0 (sym i)) in
          absurd {A = _}
            (omega (arith, l.0, ap (λ i. (d1.stacks i).refcount) z, none_there, p.nothing))
      | inr f ↦ inr f
    ];
    within = s.sliced.within;
    owned = s.sliced.owned;
  }

  counted_after : (j : Ptr) → j ≢ null → (d1.stacks j).refcount ≡ holders j d1.tealets d.all
  counted_after j n =
      let one =
        holders-change j d.tealets d1.tealets d.current d.all p.distinct p.listed s.same_tealet in
      let before : holds j (d.tealets d.current) ≡ 0 =
        rw (p.blank, ne→== null j (λ i. n (sym i))) refl in
      elim (Bool-cases (made == j)) [
        | inl e ↦
            let i = ==→eq made j e in
            let after : holds j (d1.tealets d.current) ≡ 1 = rw e refl in
            omega (
              arith,
              one,
              p.counted j n,
              ap (λ k. (d.stacks k).refcount) i,
              ap (λ k. (d1.stacks k).refcount) i,
              new_stack.5,
              new_stack.6,
            )
        | inr e ↦
            let after : holds j (d1.tealets d.current) ≡ 0 = rw e refl in
            omega (arith, one, p.counted j n, s.elsewhere j (λ i. ==→ne made j e (sym i)))
      ]

  landed-IsSound : IsSound landed
  landed-IsSound = record {
    sliced =
        subst (λ x. Sliced x Nobody landed) (ap (λ (x : Tealet). x.stack_far) (sym runner))
          landed_sliced;
    distinct = rw all_same p.distinct;
    no_null = rw all_same p.no_null;
    main_listed = rw (all_same, main_same) p.main_listed;
    current_listed = rw all_same p.target_listed;
    strangers = λ t h. elim (Bool-cases (t == d.current)) [
      | inl e ↦ absurd (
          false≢true (
            sym (rw all_same at h)
            ∙ subst (λ i. has i d.all ≡ true) (sym (==→eq t d.current e)) p.listed))
      | inr e ↦
          ap (λ (x : Tealet). x.stack) (s.same_tealet t (==→ne t d.current e))
          ∙ p.strangers t (rw all_same at h)
    ];
    counted = λ j n. counted_after j n ∙ ap (holders j d1.tealets) (sym all_same);
    running = ap (λ (x : Tealet). x.stack) runner ∙ p.running;
    staying = λ t. elim (Bool-cases (t == d.current)) [
      | inl e ↦
          ap (λ i. (d1.tealets i).flags.exiting) (==→eq t d.current e)
          ∙ (s.own_exiting ∙ p.staying d.current)
      | inr e ↦
          ap (λ (x : Tealet). x.flags.exiting) (s.same_tealet t (==→ne t d.current e)) ∙ p.staying t
    ];
    suspended = λ t h n b x f. elim (Bool-cases (t == d.current)) [
      | inl e ↦ λ z. new_stack.0 (ap (λ i. (d1.tealets i).stack) (sym (==→eq t d.current e)) ∙ z)
      | inr e ↦
          let at = s.same_tealet t (==→ne t d.current e) in
          λ z.
            p.suspended t (rw all_same at h) n (==→ne t d.current e)
              (ap (λ (x : Tealet). x.flags.bound) (sym at) ∙ b)
              (ap (λ (x : Tealet). x.flags.exited) (sym at) ∙ x)
              (ap (λ (x : Tealet). x.flags.is_defunct) (sym at) ∙ f)
              (ap (λ (x : Tealet). x.stack) (sym at) ∙ z)
    ];
  }

  still_there :
      (u : Ptr)
      → u ≢ d.current
      → IsSuspended d u
      → (d' : Domain) → d'.mem ≡ d1.mem
      → d'.stacks ≡ d1.stacks
      → d'.tealets ≡ d1.tealets
      → Kept d d' u
  still_there u n l d' m a b =
      let j = (d.tealets u).stack in
      let at : (d'.tealets u).stack ≡ j =
        ap (λ f. (f u).stack) b ∙ ap (λ (x : Tealet). x.stack) (s.same_tealet u n) in
      let st : d'.stacks (d'.tealets u).stack ≡ d1.stacks j =
        ap (λ f. f (d'.tealets u).stack) a ∙ ap d1.stacks at in
      elim (s.fate j l.1.0) [
        | is_lost f t mark c far ↦ absurd (false≢true (sym (ap not p.unforced) ∙ f))
        | survives g ↦ record {
          suspended = (
            (λ z. l.0 (sym at ∙ z)),
            subst IsLive (sym st) (omega (arith, g.same_count, l.1.0), g.same_mark ∙ l.1.1),
          );
          same_stack = at;
          view = subst (SameView d.mem d'.mem (d.stacks j)) (sym st) (record {
            same_near = g.same_near;
            same_far = g.same_far;
            view = λ x lo hi.
                ap (λ y. stack_restore (d1.stacks j) y x) (m ∙ s.same_mem)
                ∙ g.image (p.sliced.whole j l.1) x;
          });
        }
      ]

  -- Whatever else has changed since.
  captured : (d' : Domain) → core d' ≡ core landed → d'.mem ≡ d1.mem → Captured d d'
  captured d' c m = record {
    sound = core-IsSound landed d' c landed-IsSound;
    current = ap (λ k. k.5) c;
    mem = m ∙ s.same_mem;
    suspended =
        subst (λ k. ((k.1 d.current).stack ≢ null) × IsLive (k.0 (k.1 d.current).stack)) (sym c)
          (new_stack.0, new_stack.1);
    at = ap (λ k. near (k.0 (k.1 d.current).stack)) c ∙ new_stack.2;
    far = ap (λ k. (k.0 (k.1 d.current).stack).stack_far) c ∙ new_stack.3;
    view = λ x. ap (λ k. stack_restore (k.0 (k.1 d.current).stack) d.mem x) c ∙ new_stack.4 x;
    others = λ u n l. still_there u n l d' m (ap (λ k. k.0) c) (ap (λ k. k.1) c);
  }

-- How a transfer that only saves ends.
pub data Capture (d : Domain) (r : Code × Option Ptr × Domain) : Type 0 where
  captures :
      r.0 ≡ (if d.flags.main_panic then err_panic else save_only)
      → r.1 ≡ some d.arg
      → Captured d r.2
      → Capture d r
  out_of_room : r.0 ≡ err_mem → r.1 ≡ none → (r.2).mem ≡ d.mem → Capture d r

module _ (pf : Platform) (law : IsDescending pf) (sm : Stackman) (doc : IsStackman sm) (d : Domain)
    (p : Primed d) where
  abbrev saving : Bool × Domain
  saving = save_state pf d.sp d

  ended :
      (old : Ptr) (d1 : Domain)
      → Suspended (d.tealets d.target).stack_far null d d1
      → Capture d (switch_ended pf sm old sw_nop (record d1 { sw = sw_nop; sp = d.sp }))
  unfolding switch_ended
  ended old d1 s =
      let there = record d1 {
        current = d1.target;
        target = null;
        arg = null;
        sw = sw_nop;
        sp = d.sp;
      } in
      let same = rearm-essence pf there in
      let fix = s.same_fixed in
      captures
        (ap (λ c. if c.0.6.main_panic then err_panic else save_only) same
          ∙ ap (λ c. if c.6.main_panic then err_panic else save_only) fix)
        (ap some (ap (λ c. c.5) fix))
        (captured d d1 p s _
          (ap (λ c. (c.1, c.2, c.3, c.0.0, c.0.1, c.0.2)) same
            ∙ ap (λ c. (d1.stacks, d1.tealets, d1.prev, d1.all, d1.main, c.3)) fix)
          (ap (λ c. c.4) same))

  failed :
      (old : Ptr) (d1 : Domain)
      → d1.mem ≡ d.mem
      → Capture d (switch_ended pf sm old sw_err (record d1 { sw = sw_err; sp = d.sp }))
  unfolding switch_ended
  failed old d1 m =
      let same =
        rearm-essence pf
          (record d1 { previous = old; target = null; arg = null; sw = sw_err; sp = d.sp }) in
      out_of_room refl refl (ap (λ c. c.4) same ∙ m)

  -- A transfer from a new tealet to the one that starts it, by a stackman that does what it
  -- documents.
  pub switch_finish-Capture :
      (old : Ptr) → Capture d (switch_finish pf sm old (sm.switch (save_restore_cb pf) d))
  unfolding switch_finish save_restore_cb
  switch_finish-Capture old =
      rw (doc.switch_lem (save_restore_cb pf) d)
        (elim (save_state-Saving pf law d p.sliced p.fresh p.inside (p.staying d.current) p.other) [
          | all_saved e s ↦
              let empty : ((saving.1).tealets (saving.1).target).stack ≡ null =
                ap (λ t. ((saving.1).tealets t).stack) s.same_target
                ∙ (s.same_stack d.target p.other ∙ p.running) in
              rw (e, eq→== _ null empty)
                (ended old saving.1
                  (subst (λ q. Suspended (d.tealets d.target).stack_far q d saving.1) p.running s))
          | not_saved e u ↦ rw e (failed old saving.1 u.same_mem)
        ])
