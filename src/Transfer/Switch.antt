-- ===== src/Transfer/Switch.antt =====
-- A whole transfer through stackman_switch: tealet_save_restore_cb, called to save and called
-- again to restore.
use mathlib.Core.Bool.{false≢true}
use libtealet.Base.{
  ◌-◌, ◌≤◌, ◌<◌, ◌≡◌, ◌≢◌, refl, sym, ap, subst, ◌∙◌, ◌⊎◌, inl, inr, true, false, not, ◌==◌, arith,
  Bool-cases, ==→eq, ==→ne, ne→==,
}
use libtealet.Platform.{Ptr, null, Platform, IsDescending}
use libtealet.Memory.{Mem}
use libtealet.Domain.{fixed, Domain, Stack, Tealet, SwitchState, sw_restore, sw_err}
use libtealet.Stack.{stack_restore}
use libtealet.Stack.Image.{near, IsWhole}
use libtealet.Growth.Bands.{Grew}
use libtealet.Transfer.{
  Stackman, IsStackman, op_save, op_restore, save_restore_cb, save_state, restore_state,
}
use libtealet.Transfer.Invariant.{IsLive, Sliced, Nobody, SameView}
use libtealet.Transfer.Save.{IsFresh, saved, given_up}
use libtealet.Transfer.Suspend.{
  fail_ok, survives, is_lost, Suspended, Untouched, all_saved, not_saved, save_state-Saving,
}
use libtealet.Transfer.Resume.{Restored, restore_state-Restored}

-- A transfer from a tealet that goes on living to another one that was suspended. `secure`: if
-- it is forced, the target does not share its stack. `sole`: a stack that somebody else holds
-- too has a count that says so.
pub record Ready (d : Domain) : Type 0 where
  pub sliced : Sliced (d.tealets d.current).stack_far Nobody d
  pub fresh : IsFresh d
  pub inside : d.sp < (d.tealets d.current).stack_far
  pub stays : (d.tealets d.current).flags.exiting ≡ false
  pub other : d.target ≢ d.current
  pub is_saved : (d.tealets d.target).stack ≢ null
  pub live : IsLive (d.stacks (d.tealets d.target).stack)
  pub secure : (fail_ok d ≡ true) ⊎ ((d.stacks (d.tealets d.target).stack).refcount ≤ 1)
  pub sole :
      (t : Ptr)
      → t ≢ d.target
      → (d.tealets t).stack ≡ (d.tealets d.target).stack
      → 1 < (d.stacks (d.tealets d.target).stack).refcount

-- Where the bytes of the tealet that left are after the transfer.
pub data Parting (d d' : Domain) : Type 0 where
  parked :
      (p : Ptr)
      → (d'.tealets d.current).stack ≡ p
      → IsLive (d'.stacks p)
      → near (d'.stacks p) ≡ d.sp
      → (d'.stacks p).stack_far ≡ (d.tealets d.current).stack_far
      → ((x : Ptr)
          → d.sp ≤ x
          → x < (d.tealets d.current).stack_far
          → stack_restore (d'.stacks p) d'.mem x ≡ d.mem x)
      → (d.stacks p).refcount ≡ 0
      → p ≢ null
      → (d'.stacks p).refcount ≡ 1
      → Parting d d'
  sacrificed :
      fail_ok d ≡ false
      → ((d'.tealets d.current).flags).is_defunct ≡ true
      → (d'.tealets d.current).stack ≡ (d.tealets d.current).stack
      → Parting d d'

-- The transfer took place.
pub record Switched (d d' : Domain) : Type 0 where
  pub sw : d'.sw ≡ sw_restore
  pub sp : d'.sp ≡ near (d.stacks (d.tealets d.target).stack)
  pub mem : (x : Ptr) → d'.mem x ≡ stack_restore (d.stacks (d.tealets d.target).stack) d.mem x
  pub same_fixed : fixed d' ≡ fixed d
  pub own_far : (d'.tealets d.current).stack_far ≡ (d.tealets d.current).stack_far
  pub own_exiting : (d'.tealets d.current).flags.exiting ≡ (d.tealets d.current).flags.exiting
  pub same_flags : (d'.tealets d.target).flags ≡ (d.tealets d.target).flags
  pub same_far : (d'.tealets d.target).stack_far ≡ (d.tealets d.target).stack_far
  pub same_tealet : (t : Ptr) → t ≢ d.current → t ≢ d.target → d'.tealets t ≡ d.tealets t
  pub count :
      (d'.stacks (d.tealets d.target).stack).refcount
      ≡ (d.stacks (d.tealets d.target).stack).refcount - 1
  pub elsewhere :
      (j : Ptr)
      → j ≢ (d'.tealets d.current).stack
      → j ≢ (d.tealets d.target).stack
      → (d'.stacks j).refcount ≡ (d.stacks j).refcount
  pub taken : (d'.tealets d.target).stack ≡ null
  pub sliced : Sliced (d.tealets d.target).stack_far Nobody d'
  pub kept :
      (j : Ptr)
      → IsLive (d.stacks j)
      → (j ≡ (d.tealets d.target).stack → 1 < (d.stacks j).refcount)
      → (IsLive (d'.stacks j) × SameView d.mem d'.mem (d.stacks j) (d'.stacks j))
        ⊎ ((fail_ok d ≡ false) × ((d'.stacks j).is_defunct ≡ true))
  pub own : Parting d d'

pub data Switching (d d' : Domain) : Type 0 where
  switched : Switched d d' → Switching d d'
  refused :
      d'.sw ≡ sw_err → d'.sp ≡ d.sp → Untouched (d.tealets d.target).stack d d' → Switching d d'

-- The registers have nothing to do with the stacks.
pub machine-Sliced :
    (lo : Ptr) (Exempt : Ptr → Stack → Type 0) (sw : SwitchState) (sp : Ptr) (d : Domain)
    → Sliced lo Exempt d
    → Sliced lo Exempt (record d { sw = sw; sp = sp })
machine-Sliced lo Exempt sw sp d s = record {
  bands = s.bands;
  no_null = s.no_null;
  linked = s.linked;
  whole = s.whole;
  full = s.full;
  within = s.within;
  owned = s.owned;
}

pub Grew-SameView :
    (m m' : Mem) (s s' s'' : Stack)
    → IsWhole s
    → Grew m s s'
    → SameView m m' s' s''
    → SameView m m' s s''
Grew-SameView m m' s s' s'' w g v = record {
  same_near = v.same_near ∙ g.same_near;
  same_far = v.same_far ∙ g.same_far;
  view = λ p lo hi. v.view p (omega (arith, g.same_near)) (omega (arith, g.same_far)) ∙ g.image w p;
}

module _ (pf : Platform) (d : Domain) (ready : Ready d) where
  abbrev q : Ptr
  q = (d.tealets d.target).stack

  abbrev stop : Ptr
  stop = (d.tealets d.target).stack_far

  module _ (d1 : Domain) (s : Suspended stop q d d1) where
    abbrev jump : Domain
    jump = record d1 { sw = sw_restore; sp = near (d1.stacks q) }

    q-Grew : Grew d.mem (d.stacks q) (d1.stacks q)
    q-Grew = elim (s.fate q ready.live.0) [
      | survives g ↦ g
      | is_lost a b c e f ↦ elim ready.secure [
        | inl ok ↦ absurd (cc)
        | inr one ↦ absurd {A = _} (omega (arith, b refl))
      ]
    ]

    target_eq : d1.target ≡ d.target
    target_eq = s.same_target

    q_at : (jump.tealets jump.target).stack ≡ q
    q_at = rw s.same_target (s.same_stack d.target ready.other)

    q-IsLive : IsLive (jump.stacks q)
    q-IsLive = (omega (arith, q-Grew.same_count, ready.live.0), q-Grew.same_mark ∙ ready.live.1)

    q_ends : (jump.stacks q).stack_far ≡ stop
    q_ends = q-Grew.same_far ∙ (ready.sliced.owned d.target ready.is_saved).1

    -- The tealet that left does not hold the stack that is copied back by its new one.
    leaver_sole : (d1.tealets d.current).stack ≡ q → 1 < (d.stacks q).refcount
    leaver_sole e = elim s.own [
      | saved p a b c f g u h i ↦
          let none_left : (d.stacks q).refcount ≡ 0 =
            subst (λ i. (d.stacks i).refcount ≡ 0) (sym a ∙ e) u in
          absurd {A = _} (omega (arith, ready.live.0))
      | given_up a b k ↦ ready.sole d.current (λ i. ready.other (sym i)) (sym k ∙ e)
    ]

    q_sole : (t : Ptr) → t ≢ jump.target → (jump.tealets t).stack ≡ q → 1 < (jump.stacks q).refcount
    q_sole t n e = rw q-Grew.same_count (elim (Bool-cases (t == d.current)) [
      | inl c ↦ leaver_sole (rw (==→eq t d.current c) at e)
      | inr c ↦
          ready.sole t (λ i. n (i ∙ sym s.same_target))
            (sym (s.same_stack t (==→ne t d.current c)) ∙ e)
    ])

    landed : Restored jump q stop (restore_state pf jump)
    landed =
        restore_state-Restored pf jump q stop
          (machine-Sliced _ _ sw_restore (near (d1.stacks q)) d1 s.sliced) q_at ready.is_saved
          q_ends q-IsLive q_sole

    abbrev d2 : Domain
    d2 = restore_state pf jump

    IsWhole-q : IsWhole (d.stacks q)
    IsWhole-q = ready.sliced.whole q ready.live

    forced : not (fail_ok d) ≡ true → fail_ok d ≡ false
    forced a = elim (Bool-cases (fail_ok d)) [ inl ok ↦ absurd (cc) | inr e ↦ e ]

    still_there :
        (j : Ptr)
        → IsLive (d1.stacks j)
        → (j ≡ q → 1 < (d1.stacks q).refcount)
        → IsLive (d2.stacks j)
    still_there j l more = elim (Bool-cases (j == q)) [
      | inl e ↦
          let i = ==→eq j q e in
          subst (λ k. IsLive (d2.stacks k)) (sym i)
            (omega (arith, landed.count, more i), landed.mark (more i) ∙ q-IsLive.1)
      | inr e ↦ rw (landed.others j (==→ne j q e)) l
    ]

    kept_of :
        (j : Ptr)
        → IsLive (d.stacks j)
        → (j ≡ q → 1 < (d.stacks j).refcount)
        → (IsLive (d2.stacks j) × SameView d.mem d2.mem (d.stacks j) (d2.stacks j))
          ⊎ ((fail_ok d ≡ false) × ((d2.stacks j).is_defunct ≡ true))
    kept_of j l shared = elim (s.fate j l.0) [
      | survives g ↦
          let before : IsLive (d1.stacks j) =
            (omega (arith, g.same_count, l.0), g.same_mark ∙ l.1) in
          let more : j ≡ q → 1 < (d1.stacks q).refcount =
            λ i. omega (arith, shared i, q-Grew.same_count, ap (λ k. (d.stacks k).refcount) i) in
          inl (
            still_there j before more,
            Grew-SameView d.mem d2.mem (d.stacks j) (d1.stacks j) (d2.stacks j)
                (ready.sliced.whole j l) g
                (subst (λ m. SameView m d2.mem (d1.stacks j) (d2.stacks j)) s.same_mem
                  (landed.views j before more)),
          )
      | is_lost a b c e f ↦ elim (Bool-cases (j == q)) [
        | inl i ↦ elim ready.secure [
          | inl ok ↦ absurd (cc)
          | inr one ↦
              absurd {A = _}
                (omega (arith, b (==→eq j q i), ap (λ k. (d.stacks k).refcount) (==→eq j q i)))
        ]
        | inr i ↦
            inr (forced a, ap (λ (x : Stack). x.is_defunct) (landed.others j (==→ne j q i)) ∙ c)
      ]
    ]

    own_of : Parting d d2
    own_of = elim s.own [
      | saved p a l n f view u h i ↦
          let apart : p ≢ q =
            λ i. omega (arith, ready.live.0, ap (λ k. (d.stacks k).refcount) i, u) in
          let same = landed.others p apart in
          let tealet = landed.same_tealet d.current (λ i. ready.other (sym (i ∙ s.same_target))) in
          let v = landed.views p l (λ i. absurd (apart i)) in
          parked p (ap (λ (t : Tealet). t.stack) tealet ∙ a) (rw same l) (rw same n) (rw same f)
            (λ x lo hi.
              v.view x (omega (arith, n)) (omega (arith, f))
              ∙ (ap (λ m. stack_restore (d1.stacks p) m x) s.same_mem ∙ view x))
            u h (ap (λ (x : Stack). x.refcount) same ∙ i)
      | given_up a b k ↦
          let tealet = landed.same_tealet d.current (λ i. ready.other (sym (i ∙ s.same_target))) in
          sacrificed a (ap (λ (t : Tealet). (t.flags).is_defunct) tealet ∙ b)
            (ap (λ (t : Tealet). t.stack) tealet ∙ k)
    ]

    leaver : d2.tealets d.current ≡ d1.tealets d.current
    leaver = landed.same_tealet d.current (λ i. ready.other (sym (i ∙ s.same_target)))

    mem_of : (x : Ptr) → d2.mem x ≡ stack_restore (d.stacks q) d.mem x
    mem_of x =
        ap (λ m. m x) landed.mem
        ∙ (ap (λ m. stack_restore (d1.stacks q) m x) s.same_mem ∙ q-Grew.image IsWhole-q x)

    Switched-of : Switched d d2
    Switched-of = record {
      sw = landed.rest_of.3;
      sp = landed.rest_of.0 ∙ q-Grew.same_near;
      mem = mem_of;
      same_fixed = landed.same_fixed ∙ s.same_fixed;
      own_far = ap (λ (t : Tealet). t.stack_far) leaver ∙ s.own_far;
      own_exiting = ap (λ (t : Tealet). (t.flags).exiting) leaver ∙ s.own_exiting;
      same_flags =
          ap (λ t. (d2.tealets t).flags) (sym s.same_target)
          ∙ (landed.same_flags
              ∙ (ap (λ t. (d1.tealets t).flags) s.same_target
                  ∙ ap (λ (t : Tealet). t.flags) (s.same_tealet d.target ready.other)));
      same_far =
          ap (λ t. (d2.tealets t).stack_far) (sym s.same_target)
          ∙ (landed.same_far
              ∙ (ap (λ t. (d1.tealets t).stack_far) s.same_target
                  ∙ s.same_tealet_far d.target ready.other));
      same_tealet = λ t n m. landed.same_tealet t (λ e. m (e ∙ s.same_target)) ∙ s.same_tealet t n;
      count = omega (arith, landed.count, q-Grew.same_count);
      elsewhere = λ j n m.
          ap (λ (x : Stack). x.refcount) (landed.others j m)
          ∙ s.elsewhere j (λ e. n (e ∙ sym (ap (λ (t : Tealet). t.stack) leaver)));
      taken = ap (λ t. (d2.tealets t).stack) (sym s.same_target) ∙ landed.taken;
      sliced = landed.sliced;
      kept = kept_of;
      own = own_of;
    }

  -- What the callback does after a first call that saved everything.
  jumped :
      (d1 : Domain) (s : Suspended stop q d d1)
      → save_state pf d.sp d ≡ (true, d1)
      → Switched d
          (save_restore_cb pf op_restore
            (save_restore_cb pf op_save d.sp d).0
            (record ((save_restore_cb pf op_save d.sp d).1) {
              sp = (save_restore_cb pf op_save d.sp d).0;
            })).1
  unfolding save_restore_cb
  jumped d1 s e = rw (e, q_at d1 s, ne→== q null ready.is_saved) (Switched-of d1 s)

  stays_put :
      (d1 : Domain)
      → Untouched q d d1
      → save_state pf d.sp d ≡ (false, d1)
      → Switching d
          (save_restore_cb pf op_restore
            (save_restore_cb pf op_save d.sp d).0
            (record ((save_restore_cb pf op_save d.sp d).1) {
              sp = (save_restore_cb pf op_save d.sp d).0;
            })).1
  unfolding save_restore_cb
  stays_put d1 u e = rw e (
      refused refl refl (record {
        same_mem = u.same_mem;
        same_current = u.same_current;
        same_tealets = u.same_tealets;
        fate = u.fate;
      }))

  module _ (law : IsDescending pf) where
    -- A transfer from a tealet that goes on living to a suspended one, by a stackman that does
    -- what it documents, ends in one of two ways. Either it took place: memory is what copying
    -- the target's saved stack back makes of it, the stack pointer is the target's, the
    -- invariant holds up to the target's far end, every other stack in use gives its tealet
    -- the bytes it had (or, in a forced transfer, is marked defunct), and so does the new
    -- stack of the tealet that left. Or it was refused: memory, the current tealet and who
    -- holds which stack are as before, and no stack has lost a byte but those given up in a
    -- forced transfer.
    pub switch-Switching :
        (sm : Stackman) → IsStackman sm → Switching d (sm.switch (save_restore_cb pf) d)
    switch-Switching sm doc =
        rw (doc.switch_lem (save_restore_cb pf) d)
          (elim (save_state-Saving pf law d ready.sliced ready.fresh ready.inside ready.stays
            ready.other) [
              | all_saved e s ↦
                  switched
                    (jumped (save_state pf d.sp d).1 s (ap (λ b. (b, (save_state pf d.sp d).1)) e))
              | not_saved e u ↦
                  stays_put (save_state pf d.sp d).1 u (ap (λ b. (b, (save_state pf d.sp d).1)) e)
            ])

    -- Where tealet_save_state saves everything, the transfer takes place.
    pub switch_forced :
        (sm : Stackman)
        → IsStackman sm
        → (save_state pf d.sp d).0 ≡ true
        → Switched d (sm.switch (save_restore_cb pf) d)
    switch_forced sm doc all =
        rw (doc.switch_lem (save_restore_cb pf) d)
          (elim (save_state-Saving pf law d ready.sliced ready.fresh ready.inside ready.stays
            ready.other) [
              | all_saved e s ↦
                  jumped (save_state pf d.sp d).1 s (ap (λ b. (b, (save_state pf d.sp d).1)) e)
              | not_saved e u ↦ absurd (false≢true (sym e ∙ all))
            ])
