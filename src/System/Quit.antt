-- ===== src/System/Quit.antt =====
-- tealet_exit on a domain between two calls.
use libtealet.Base.{
  ◌≡◌, ◌≢◌, refl, sym, ap, subst, ◌∙◌, inl, inr, Bool, true, not, ◌||◌, Option, none, if◌then◌else◌,
  ◌==◌, Bool-cases, ==→eq, eq→==, ne→==,
}
use mathlib.Core.Path.{fun_ext}
use libtealet.Platform.{Ptr, null, Platform, IsDescending}
use libtealet.Domain.{
  Domain, Tealet, TealetFlags, XferFlags, Code, err_mem, is_error, set_flags, update,
}
use libtealet.Growth.Walked.{main_stack, Scarce}
use libtealet.Transfer.{Stackman, IsStackman, switchstack}
use libtealet.Transfer.Invariant.{IsLive, SameView, Sliced, Nobody}
use libtealet.Transfer.Leave.{Farewell, exited, deleted}
use libtealet.Transfer.Suspend.{fail_ok, Fate, set_flags-Sliced}
use libtealet.Api.{stage, xfer_done, xfer_staged, xfer_inner}
use libtealet.System.{IsSound}
use libtealet.System.Exited.{switchstack-Exiting}
use libtealet.System.Exiting.{calmed-IsSound}
use libtealet.System.Flags.{set_flags-IsSound}
use libtealet.System.Left.{calmed, calmed-stack, calmed-other}
use libtealet.System.Outcome.{Fortune, safe, lost, Called}
use libtealet.System.Replaced.{Replaced, Exiting, replaced, declined}
use libtealet.System.Steady.{Steady, Steady-trans, flags-Steady}

-- The flags of a tealet that is about to exit.
abbrev pub going : XferFlags → TealetFlags → TealetFlags
going flags f = record f {
  exiting = true;
  autodelete = f.autodelete || flags.delete;
  saveforce = flags.force || f.saveforce;
}

-- The domain when tealet_switchstack is called for an exit.
abbrev pub leaving : XferFlags → Domain → Domain
leaving flags d =
    let f = (d.tealets d.current).flags in
    stage flags (
      set_flags d.current (record f { exiting = true; autodelete = f.autodelete || flags.delete })
        d)

unfoldable pub staged_exit : XferFlags → Domain → Domain
staged_exit flags d = record (set_flags d.current (going flags (d.tealets d.current).flags) d) {
  flags = if flags.panic then record (d.flags) { main_panic = true } else d.flags;
}

update_twice :
    (p : Ptr) (a b : Tealet) (m : Ptr → Tealet) → update (update m p a) p b ≡ update m p b
update_twice p a b m =
    fun_ext λ t. elim (Bool-cases (t == p)) [ inl e ↦ rw e refl | inr e ↦ rw e refl ]

pub leaving_lem : (flags : XferFlags) (d : Domain) → leaving flags d ≡ staged_exit flags d
unfolding stage staged_exit
leaving_lem flags d =
    let f = (d.tealets d.current).flags in
    let g = record f { exiting = true; autodelete = f.autodelete || flags.delete } in
    let t = d.tealets d.current in
    let two =
      update_twice d.current (record t { flags = g })
        (record t { flags = record g { saveforce = true } }) d.tealets in
    elim (Bool-cases flags.force) [
      | inl e ↦ elim (Bool-cases flags.panic) [
        | inl i ↦
            rw (e, i, eq→== d.current d.current refl)
              (ap (λ x. record d { tealets = x; flags = record (d.flags) { main_panic = true } })
                two)
        | inr i ↦ rw (e, i, eq→== d.current d.current refl) (ap (λ x. record d { tealets = x }) two)
      ]
      | inr e ↦ elim (Bool-cases flags.panic) [ inl i ↦ rw (e, i) refl | inr i ↦ rw (e, i) refl ]
    ]

pub staged_exit-Steady : (flags : XferFlags) (d : Domain) → Steady d (staged_exit flags d)
unfolding staged_exit
staged_exit-Steady flags d =
    let y = flags-Steady d.current (going flags (d.tealets d.current).flags) d refl in
    record {
      mem = refl;
      sp = refl;
      current = refl;
      main = refl;
      all = refl;
      supply = λ a m. m;
      held = y.held;
      far = y.far;
      bound = y.bound;
      count = λ j. refl;
    }

staged_exit-leaves :
    (flags : XferFlags) (d : Domain)
    → ((staged_exit flags d).tealets (staged_exit flags d).current).flags.exiting ≡ true
unfolding staged_exit
staged_exit-leaves flags d = rw (eq→== d.current d.current refl)

plain_flags-Sliced :
    (lo : Ptr) (d : Domain) (f : XferFlags)
    → Sliced lo Nobody d
    → Sliced lo Nobody (record d { flags = f })
plain_flags-Sliced lo d f s = record {
  bands = s.bands;
  no_null = s.no_null;
  linked = s.linked;
  whole = s.whole;
  full = s.full;
  within = s.within;
  owned = s.owned;
}

-- If the exit is taken back, the domain is as sound as it was.
staged_exit-IsSound :
    (flags : XferFlags) (d : Domain) → IsSound d → IsSound (calmed (staged_exit flags d))
unfolding staged_exit
staged_exit-IsSound flags d s =
    calmed-IsSound d (staged_exit flags d) (staged_exit-Steady flags d)
      (plain_flags-Sliced _ (set_flags d.current (going flags (d.tealets d.current).flags) d) _
        (set_flags-Sliced _ Nobody d.current _ d s.sliced))
      (λ t n. rw (ne→== t d.current n))
      (λ t can. elim (Bool-cases (t == d.current)) [
        | inl e ↦ rw (==→eq t d.current e) (rw e at can)
        | inr e ↦ rw e at can
      ])
      (set_flags-IsSound d.current _ d refl (λ i j k. (i, j, k)) s)

-- What became of an exit of the tealet that ran in `d`, with the signals `flags`.
pub data Leaves (d : Domain) (target arg : Ptr) (flags : XferFlags) (r : Code × Option Ptr × Domain)
    : Type 0 where
  over : Replaced (leaving flags d) target arg r → Leaves d target arg flags r
  back :
      is_error r.0 ≡ true
      → r.1 ≡ none
      → Steady d r.2
      → IsSound r.2
      → (r.0 ≡ err_mem
          → Scarce
              (fail_ok (leaving flags d))
              (d.tealets target).stack
              (main_stack d)
              d.prev
              d.stacks)
      → ((j : Ptr)
          → Fate
              (not (fail_ok (leaving flags d)))
              (d.tealets target).stack
              j
              d.mem
              (d.stacks j)
              ((r.2).stacks j))
      → Leaves d target arg flags r

calmed-Farewell :
    (c : Ptr) (d x : Domain) → c ≢ x.current → Farewell c d x → Farewell c d (calmed x)
calmed-Farewell c d x n (exited a b e) =
    exited a b (ap (λ (t : Tealet). t.flags.exited) (calmed-other x c n) ∙ e)
calmed-Farewell c d x n (deleted a b e) = deleted a b (calmed-other x c n ∙ e)

calmed-Fortune :
    (forced : Bool) (d x : Domain) (t : Ptr) → Fortune forced d x t → Fortune forced d (calmed x) t
calmed-Fortune forced d x t (safe a b c) =
    let at = sym (calmed-stack x t) in
    safe (subst (λ p. (p ≢ null) × IsLive (x.stacks p)) at a) (sym at ∙ b)
      (subst (λ p. SameView d.mem x.mem (d.stacks (d.tealets t).stack) (x.stacks p)) at c)
calmed-Fortune forced d x t (lost a b) =
    lost a (subst (λ p. (x.stacks p).is_defunct ≡ true) (sym (calmed-stack x t)) b)

-- Signals of an exit that are taken back from the tealet that runs now.
Replaced-calmed :
    (d : Domain) (target arg : Ptr) (r : Code × Option Ptr × Domain)
    → target ≢ d.current
    → Replaced d target arg r
    → Replaced d target arg (r.0, r.1, calmed r.2)
Replaced-calmed d target arg r n v =
    let apart : d.current ≢ (r.2).current = λ i. n (sym (i ∙ v.current)) in
    record {
      code = v.code;
      out = v.out;
      current = v.current;
      sp = v.sp;
      mem = v.mem;
      sound = set_flags-IsSound (r.2).current _ r.2 refl (λ i j k. (i, j, k)) v.sound;
      bare = calmed-stack r.2 d.current ∙ v.bare;
      farewell = calmed-Farewell d.current d r.2 apart v.farewell;
      others = λ t a b l. calmed-Fortune (not (fail_ok d)) d r.2 t (v.others t a b l);
    }

module _ (pf : Platform) (law : IsDescending pf) (sm : Stackman) (doc : IsStackman sm)
    (target arg : Ptr) (flags : XferFlags) (d : Domain) (s : IsSound d)
    (c : Called (leaving flags d) target) (not_main : d.current ≢ d.main) where
  abbrev staged : Domain
  staged = leaving flags d

  steady : Steady d staged
  steady = subst (Steady d) (sym (leaving_lem flags d)) (staged_exit-Steady flags d)

  switched_over : Exiting staged target arg (switchstack pf sm target arg staged)
  switched_over =
      switchstack-Exiting pf law sm doc target arg staged
        (subst (λ x. IsSound (calmed x)) (sym (leaving_lem flags d))
          (staged_exit-IsSound flags d s))
        c
        (subst (λ x. (x.tealets x.current).flags.exiting ≡ true) (sym (leaving_lem flags d))
          (staged_exit-leaves flags d))
        (λ e. not_main (sym steady.current ∙ (e ∙ steady.main)))

  -- The end of tealet_xfer_inner.
  xfer_done-Leaves :
      (r : Code × Option Ptr × Domain)
      → Exiting staged target arg r
      → Leaves d target arg flags (xfer_done pf sm r)
  unfolding xfer_done staged_exit
  xfer_done-Leaves r (replaced v) = elim (Bool-cases (is_error r.0)) [
    | inl e ↦ rw e (over (Replaced-calmed staged target arg r c.other v))
    | inr e ↦ rw e (over v)
  ]
  xfer_done-Leaves r (declined w) = rw w.code (
      back w.code w.out
        (Steady-trans d staged _ steady
          (Steady-trans staged r.2 _ w.steady (flags-Steady (r.2).current _ r.2 refl)))
        w.sound (λ e. scarce_before (w.scarce e)) (λ j. fate_before j (w.fate j)))
    where
      fate_before :
          (j : Ptr)
          → Fate
              (not (fail_ok staged))
              (staged.tealets target).stack
              j
              staged.mem
              (staged.stacks j)
              ((r.2).stacks j)
          → Fate
              (not (fail_ok staged))
              (d.tealets target).stack
              j
              d.mem
              (d.stacks j)
              ((r.2).stacks j)
      fate_before j h =
          subst (λ p. Fate (not (fail_ok staged)) p j d.mem (d.stacks j) ((r.2).stacks j))
            (steady.held target)
            (subst
              (λ (x : Domain).
                Fate (not (fail_ok staged)) (staged.tealets target).stack j x.mem (x.stacks j)
                  ((r.2).stacks j))
              (leaving_lem flags d) h)

      scarce_before :
          Scarce
            (fail_ok staged)
            (staged.tealets target).stack
            (main_stack staged)
            staged.prev
            staged.stacks
          → Scarce (fail_ok staged) (d.tealets target).stack (main_stack d) d.prev d.stacks
      scarce_before h =
          subst (λ p. Scarce (fail_ok staged) (d.tealets target).stack p d.prev d.stacks)
            (ap (λ m. (staged.tealets m).stack) steady.main ∙ steady.held d.main)
            (subst (λ p. Scarce (fail_ok staged) p (main_stack staged) d.prev d.stacks)
              (steady.held target)
              (subst
                (λ (x : Domain).
                  Scarce (fail_ok staged) (staged.tealets target).stack (main_stack staged) x.prev
                    x.stacks)
                (leaving_lem flags d) h))

  -- An exit by a tealet other than the main one, in a sound domain, to another that has been
  -- started, under the conditions that a transfer has of one that goes on living, comes to an
  -- end in one of two ways. Either the target runs, at its stack pointer and with the bytes of
  -- its stack back; the tealet that left has no stack and is marked as exited or, if it is to
  -- be deleted, freed and off the list of tealets; every other suspended tealet has its bytes
  -- (or, in a forced transfer, has lost them and its stack is marked); and the domain is
  -- sound. Or an error is returned, nobody has moved, who holds which stack is as before, and
  -- the domain is sound, even if memory ran out; and it ran out only if nobody forced the
  -- transfer, or the main tealet's stack is in `g_prev` and, if it is the target's, shared.
  pub xfer_inner-Leaves : Leaves d target arg flags (xfer_inner pf sm target arg flags true d)
  unfolding xfer_inner xfer_staged
  xfer_inner-Leaves =
      let bound : (d.tealets target).flags.bound ≡ true = sym (steady.bound target) ∙ c.bound in
      let away = ne→== target d.current (λ i. c.other (i ∙ sym steady.current)) in
      rw (bound, away) (xfer_done-Leaves (switchstack pf sm target arg staged) switched_over)
