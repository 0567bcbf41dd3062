-- ===== src/Transfer/Left.antt =====
-- A whole transfer from a tealet that exits, through stackman_switch.
use mathlib.Core.Bool.{false≢true}
use libtealet.Base.{
  ◌-◌, ◌≤◌, ◌<◌, ◌≡◌, ◌≢◌, refl, sym, ap, subst, ◌∙◌, ◌⊎◌, inl, inr, true, false, not, ◌==◌, arith,
  Bool-cases, ==→eq, ==→ne, ne→==,
}
use libtealet.Platform.{Ptr, null, Platform, IsDescending}
use libtealet.Domain.{Domain, Stack, Tealet, sw_restore, sw_err}
use libtealet.Stack.{stack_restore}
use libtealet.Stack.Image.{near, IsWhole}
use libtealet.Growth.Bands.{Grew}
use libtealet.Transfer.{
  Stackman, IsStackman, op_save, op_restore, save_restore_cb, save_state, restore_state,
}
use libtealet.Transfer.Invariant.{IsLive, Sliced, Nobody, SameView}
use libtealet.Transfer.Suspend.{fail_ok, survives, is_lost}
use libtealet.Transfer.Resume.{Restored, restore_state-Restored}
use libtealet.Transfer.Switch.{machine-Sliced, Grew-SameView}
use libtealet.Transfer.Leave.{
  Farewell, exited, deleted, Departed, Remained, departed, remained, save_state-Departure,
}

-- A transfer from a tealet that exits to another one that was suspended; `secure` and `sole` as
-- for one that goes on living.
pub record Parts (d : Domain) : Type 0 where
  pub sliced : Sliced (d.tealets d.current).stack_far Nobody d
  pub leaves : (d.tealets d.current).flags.exiting ≡ true
  pub bare : (d.tealets d.current).stack ≡ null
  pub other : d.target ≢ d.current
  pub is_saved : (d.tealets d.target).stack ≢ null
  pub live : IsLive (d.stacks (d.tealets d.target).stack)
  pub secure : (fail_ok d ≡ true) ⊎ ((d.stacks (d.tealets d.target).stack).refcount ≤ 1)
  pub sole :
      (t : Ptr)
      → t ≢ d.target
      → (d.tealets t).stack ≡ (d.tealets d.target).stack
      → 1 < (d.stacks (d.tealets d.target).stack).refcount

-- The transfer took place, and the tealet that left has nothing any more.
pub record Left (d d' : Domain) : Type 0 where
  pub sw : d'.sw ≡ sw_restore
  pub sp : d'.sp ≡ near (d.stacks (d.tealets d.target).stack)
  pub mem : (x : Ptr) → d'.mem x ≡ stack_restore (d.stacks (d.tealets d.target).stack) d.mem x
  pub same_target : d'.target ≡ d.target
  pub same_main : d'.main ≡ d.main
  pub same_arg : d'.arg ≡ d.arg
  pub same_signals : d'.flags ≡ d.flags
  pub bare : (d'.tealets d.current).stack ≡ null
  pub calm : (d'.tealets d.current).flags.exiting ≡ false
  pub farewell : Farewell d.current d d'
  pub same_flags : (d'.tealets d.target).flags ≡ (d.tealets d.target).flags
  pub same_far : (d'.tealets d.target).stack_far ≡ (d.tealets d.target).stack_far
  pub same_tealet : (t : Ptr) → t ≢ d.current → t ≢ d.target → d'.tealets t ≡ d.tealets t
  pub count :
      (d'.stacks (d.tealets d.target).stack).refcount
      ≡ (d.stacks (d.tealets d.target).stack).refcount - 1
  pub elsewhere :
      (j : Ptr) → j ≢ (d.tealets d.target).stack → (d'.stacks j).refcount ≡ (d.stacks j).refcount
  pub taken : (d'.tealets d.target).stack ≡ null
  pub sliced : Sliced (d.tealets d.target).stack_far Nobody d'
  pub kept :
      (j : Ptr)
      → IsLive (d.stacks j)
      → (j ≡ (d.tealets d.target).stack → 1 < (d.stacks j).refcount)
      → (IsLive (d'.stacks j) × SameView d.mem d'.mem (d.stacks j) (d'.stacks j))
        ⊎ ((fail_ok d ≡ false) × ((d'.stacks j).is_defunct ≡ true))

-- It took place, or memory ran out and the callback has only set its result.
pub data Parting (d d' : Domain) : Type 0 where
  left : Left d d' → Parting d d'
  stayed :
      d'.sw ≡ sw_err
      → (e : Domain) → Remained (d.tealets d.target).stack d e
      → d' ≡ record e { sw = sw_err; sp = d.sp }
      → Parting d d'

module _ (pf : Platform) (d : Domain) (ready : Parts d) where
  abbrev q : Ptr
  q = (d.tealets d.target).stack

  abbrev stop : Ptr
  stop = (d.tealets d.target).stack_far

  module _ (d1 : Domain) (s : Departed stop q d d1) where
    abbrev jump : Domain
    jump = record d1 { sw = sw_restore; sp = near (d1.stacks q) }

    q-Grew : Grew d.mem (d.stacks q) (d1.stacks q)
    q-Grew = elim (s.fate q) [
      | survives g ↦ g
      | is_lost a b c e f ↦ elim ready.secure [
        | inl ok ↦ absurd (cc)
        | inr one ↦ absurd {A = _} (omega (arith, b refl))
      ]
    ]

    fate-count : (j : Ptr) → (d1.stacks j).refcount ≡ (d.stacks j).refcount
    fate-count j = elim (s.fate j) [ survives g ↦ g.same_count | is_lost a b c e f ↦ e ]

    target_eq : d1.target ≡ d.target
    target_eq = ap (λ c. c.3) s.same

    target_same : d1.tealets d1.target ≡ d.tealets d.target
    target_same = ap d1.tealets target_eq ∙ s.elsewhere d.target ready.other

    q_at : (jump.tealets jump.target).stack ≡ q
    q_at = ap (λ (t : Tealet). t.stack) target_same

    q-IsLive : IsLive (jump.stacks q)
    q-IsLive = (omega (arith, q-Grew.same_count, ready.live.0), q-Grew.same_mark ∙ ready.live.1)

    q_ends : (jump.stacks q).stack_far ≡ stop
    q_ends = q-Grew.same_far ∙ (ready.sliced.owned d.target ready.is_saved).1

    q_sole : (t : Ptr) → t ≢ jump.target → (jump.tealets t).stack ≡ q → 1 < (jump.stacks q).refcount
    q_sole t n e = rw q-Grew.same_count (elim (Bool-cases (t == d.current)) [
      | inl c ↦
          absurd (
            ready.is_saved
              (sym e ∙ (ap (λ i. (d1.tealets i).stack) (==→eq t d.current c) ∙ s.bare)))
      | inr c ↦
          ready.sole t (λ i. n (i ∙ sym target_eq))
            (ap (λ (x : Tealet). x.stack) (sym (s.elsewhere t (==→ne t d.current c))) ∙ e)
    ])

    landed : Restored jump q stop (restore_state pf jump)
    landed =
        restore_state-Restored pf jump q stop
          (machine-Sliced _ _ sw_restore (near (d1.stacks q)) d1 s.sliced) q_at ready.is_saved
          q_ends q-IsLive q_sole

    abbrev d2 : Domain
    d2 = restore_state pf jump

    leaver : d2.tealets d.current ≡ d1.tealets d.current
    leaver = landed.same_tealet d.current (λ i. ready.other (sym (i ∙ target_eq)))

    same_mem : d1.mem ≡ d.mem
    same_mem = ap (λ c. c.0) s.same

    still_there :
        (j : Ptr)
        → IsLive (d1.stacks j)
        → (j ≡ q → 1 < (d1.stacks q).refcount)
        → IsLive (d2.stacks j)
    still_there j l more = elim (Bool-cases (j == q)) [
      | inl e ↦
          let i = ==→eq j q e in
          subst (λ k. IsLive (d2.stacks k)) (sym i)
            (omega (arith, landed.count, more i), landed.mark (more i) ∙ q-IsLive.1)
      | inr e ↦ rw (landed.others j (==→ne j q e)) l
    ]

    kept_of :
        (j : Ptr)
        → IsLive (d.stacks j)
        → (j ≡ q → 1 < (d.stacks j).refcount)
        → (IsLive (d2.stacks j) × SameView d.mem d2.mem (d.stacks j) (d2.stacks j))
          ⊎ ((fail_ok d ≡ false) × ((d2.stacks j).is_defunct ≡ true))
    kept_of j l shared = elim (s.fate j) [
      | survives g ↦
          let before : IsLive (d1.stacks j) =
            (omega (arith, g.same_count, l.0), g.same_mark ∙ l.1) in
          let more : j ≡ q → 1 < (d1.stacks q).refcount =
            λ i. omega (arith, shared i, q-Grew.same_count, ap (λ k. (d.stacks k).refcount) i) in
          inl (
            still_there j before more,
            Grew-SameView d.mem d2.mem (d.stacks j) (d1.stacks j) (d2.stacks j)
                (ready.sliced.whole j l) g
                (subst (λ m. SameView m d2.mem (d1.stacks j) (d2.stacks j)) same_mem
                  (landed.views j before more)),
          )
      | is_lost a b c e f ↦ elim (Bool-cases (j == q)) [
        | inl i ↦ absurd (
            false≢true (
              sym ready.live.1
              ∙ (sym q-Grew.same_mark
                  ∙ subst (λ k. (d1.stacks k).is_defunct ≡ true) (==→eq j q i) c)))
        | inr i ↦
            inr (forced a, ap (λ (x : Stack). x.is_defunct) (landed.others j (==→ne j q i)) ∙ c)
      ]
    ]
      where
        forced : not (fail_ok d) ≡ true → fail_ok d ≡ false
        forced a = elim (Bool-cases (fail_ok d)) [ inl ok ↦ absurd (cc) | inr e ↦ e ]

    all_same : d2.all ≡ d1.all
    all_same = ap (λ c. c.0) landed.same_fixed

    Farewell-of : Farewell d.current d d2
    Farewell-of = elim s.farewell [
      | exited x y z ↦ exited x (all_same ∙ y) (ap (λ (t : Tealet). t.flags.exited) leaver ∙ z)
      | deleted x y z ↦ deleted x (all_same ∙ y) (leaver ∙ z)
    ]

    IsWhole-q : IsWhole (d.stacks q)
    IsWhole-q = ready.sliced.whole q ready.live

    mem_of : (x : Ptr) → d2.mem x ≡ stack_restore (d.stacks q) d.mem x
    mem_of x =
        ap (λ m. m x) landed.mem
        ∙ (ap (λ m. stack_restore (d1.stacks q) m x) same_mem ∙ q-Grew.image IsWhole-q x)

    Left-of : Left d d2
    Left-of = record {
      sw = landed.rest_of.3;
      sp = landed.rest_of.0 ∙ q-Grew.same_near;
      mem = mem_of;
      same_target = landed.rest_of.2 ∙ target_eq;
      same_main = ap (λ c. c.1) landed.same_fixed ∙ ap (λ c. c.4) s.same;
      same_arg = ap (λ c. c.5) landed.same_fixed ∙ ap (λ c. c.5) s.same;
      same_signals = ap (λ c. c.6) landed.same_fixed ∙ ap (λ c. c.6) s.same;
      bare = ap (λ (t : Tealet). t.stack) leaver ∙ s.bare;
      calm = ap (λ (t : Tealet). t.flags.exiting) leaver ∙ s.calm;
      farewell = Farewell-of;
      same_flags =
          ap (λ t. (d2.tealets t).flags) (sym target_eq)
          ∙ (landed.same_flags ∙ ap (λ (t : Tealet). t.flags) target_same);
      same_far =
          ap (λ t. (d2.tealets t).stack_far) (sym target_eq)
          ∙ (landed.same_far ∙ ap (λ (t : Tealet). t.stack_far) target_same);
      same_tealet = λ t n m. landed.same_tealet t (λ e. m (e ∙ target_eq)) ∙ s.elsewhere t n;
      count = omega (arith, landed.count, q-Grew.same_count);
      elsewhere = λ j m. ap (λ (x : Stack). x.refcount) (landed.others j m) ∙ fate-count j;
      taken = ap (λ t. (d2.tealets t).stack) (sym target_eq) ∙ landed.taken;
      sliced = landed.sliced;
      kept = kept_of;
    }

  jumps :
      (d1 : Domain) (s : Departed stop q d d1)
      → save_state pf d.sp d ≡ (true, d1)
      → Parting d
          (save_restore_cb pf op_restore
            (save_restore_cb pf op_save d.sp d).0
            (record ((save_restore_cb pf op_save d.sp d).1) {
              sp = (save_restore_cb pf op_save d.sp d).0;
            })).1
  unfolding save_restore_cb
  jumps d1 s e = rw (e, q_at d1 s, ne→== q null ready.is_saved) (left (Left-of d1 s))

  stays_put :
      (d1 : Domain)
      → Remained q d d1
      → save_state pf d.sp d ≡ (false, d1)
      → Parting d
          (save_restore_cb pf op_restore
            (save_restore_cb pf op_save d.sp d).0
            (record ((save_restore_cb pf op_save d.sp d).1) {
              sp = (save_restore_cb pf op_save d.sp d).0;
            })).1
  unfolding save_restore_cb
  stays_put d1 u e = rw e (stayed refl d1 u refl)

  module _ (law : IsDescending pf) where
    -- A transfer from a tealet that exits to a suspended one, by a stackman that does what it
    -- documents. Either it took place: memory is what copying the target's saved stack back
    -- makes of it, the stack pointer is the target's, the invariant holds up to the target's
    -- far end, every other stack in use gives its tealet the bytes it had (or, in a forced
    -- transfer, is marked defunct), and the tealet that left has no stack and is marked as
    -- exited, or is freed and off the list of tealets. Or memory ran out, with nothing changed
    -- but the stacks that were grown.
    pub switch-Parting :
        (sm : Stackman) → IsStackman sm → Parting d (sm.switch (save_restore_cb pf) d)
    switch-Parting sm doc =
        rw (doc.switch_lem (save_restore_cb pf) d)
          (elim (save_state-Departure pf law d ready.sliced ready.leaves ready.other) [
            | departed e s ↦
                jumps (save_state pf d.sp d).1 s (ap (λ b. (b, (save_state pf d.sp d).1)) e)
            | remained e u ↦
                stays_put (save_state pf d.sp d).1 u (ap (λ b. (b, (save_state pf d.sp d).1)) e)
          ])
