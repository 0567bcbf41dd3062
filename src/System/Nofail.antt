-- ===== src/System/Nofail.antt =====
-- tealet_exit with NOFAIL on a domain between two calls: by force, and failing that, to the main
-- tealet.
use mathlib.Core.Bool.{false≢true}
use libtealet.Base.{
  ◌≤◌, ◌≡◌, ◌≢◌, refl, sym, ap, subst, ◌∙◌, ◌⊎◌, inl, inr, Bool, true, false, Option, if◌then◌else◌,
  has, erase, Bool-cases, arith, eq→==, ne→==,
}
use libtealet.Platform.{Ptr, Platform, IsDescending}
use libtealet.Domain.{Domain, XferFlags, Code, done, err_mem, err_panic, is_error, freed_tealet}
use libtealet.Growth.Walked.{main_stack, Scarce}
use libtealet.Transfer.{Stackman, IsStackman}
use libtealet.Transfer.Leave.{Farewell, exited, deleted}
use libtealet.Transfer.Suspend.{fail_ok}
use libtealet.Api.{xfer_inner, xfer_nofail, is_retried}
use libtealet.System.{IsSound}
use libtealet.System.Outcome.{Called}
use libtealet.System.Quit.{
  leaving, staged_exit, leaving_lem, staged_exit-Steady, Leaves, over, back, xfer_inner-Leaves,
}
use libtealet.System.Replaced.{Replaced}
use libtealet.System.Steady.{Steady, Steady-refl, Steady-trans}

-- A tealet that can be switched to by force: it has been started, and shares its stack with nobody.
pub record IsOpen (d : Domain) (t : Ptr) : Type 0 where
  pub called : Called d t
  pub alone : (d.stacks (d.tealets t).stack).refcount ≤ 1

Steady-Called : (d e : Domain) (t : Ptr) → Steady d e → IsOpen d t → Called e t
Steady-Called d e t y o =
    let c = o.called in
    let far : (e.tealets e.current).stack_far ≡ (d.tealets d.current).stack_far =
      ap (λ i. (e.tealets i).stack_far) y.current ∙ y.far d.current in
    record {
      inside = rw (far, y.sp) c.inside;
      fresh = λ a h n. y.count a ∙ c.fresh a (y.supply a h) n;
      other = λ i. c.other (i ∙ y.current);
      is_known = ap (has t) y.all ∙ c.is_known;
      bound = y.bound t ∙ c.bound;
      secure = inr (rw (y.held t, y.count (d.tealets t).stack) o.alone);
    }

pub Steady-IsOpen : (d e : Domain) (t : Ptr) → Steady d e → IsOpen d t → IsOpen e t
Steady-IsOpen d e t y o = record {
  called = Steady-Called d e t y o;
  alone = rw (y.held t, y.count (d.tealets t).stack) o.alone;
}

-- A tealet other than the main one that exits by force.
forced_exit :
    (flags : XferFlags) (d : Domain)
    → flags.force ≡ true
    → d.current ≢ d.main
    → fail_ok (leaving flags d) ≡ false
unfolding staged_exit
forced_exit flags d f n =
    rw (leaving_lem flags d) (rw (f, eq→== d.current d.current refl, ne→== _ _ n))

-- How a tealet that ran in `d` is gone in `d'`: exited, or freed and off the list.
abbrev pub IsGone : Domain → Domain → Type 0
IsGone d d' =
    ((d'.all ≡ d.all) × ((d'.tealets d.current).flags.exited ≡ true))
    ⊎ ((d'.all ≡ erase d.current d.all) × (d'.tealets d.current ≡ freed_tealet))

-- What an exit that is not to fail comes to.
pub data Quits (d : Domain) (target : Ptr) (r : Code × Option Ptr × Domain) : Type 0 where
  gone :
      ((r.2).current ≡ target) ⊎ ((r.2).current ≡ d.main)
      → IsGone d r.2
      → IsSound r.2
      → Quits d target r
  refused : is_error r.0 ≡ true → r.0 ≢ err_mem → Steady d r.2 → IsSound r.2 → Quits d target r

Farewell-IsGone : (d e d' : Domain) → Steady d e → Farewell e.current e d' → IsGone d d'
Farewell-IsGone d e d' y (exited a b f) =
    inl (b ∙ y.all, subst (λ i. (d'.tealets i).flags.exited ≡ true) y.current f)
Farewell-IsGone d e d' y (deleted a b f) = inr (
  b ∙ (ap (λ i. erase i e.all) y.current ∙ ap (erase d.current) y.all),
  subst (λ i. d'.tealets i ≡ freed_tealet) y.current f,
)

pub leaving-Steady : (flags : XferFlags) (d : Domain) → Steady d (leaving flags d)
leaving-Steady flags d = subst (Steady d) (sym (leaving_lem flags d)) (staged_exit-Steady flags d)

over-Quits :
    (d e : Domain) (target t arg : Ptr) (flags : XferFlags) (r : Code × Option Ptr × Domain)
    → Steady d e
    → (t ≡ target) ⊎ (t ≡ d.main)
    → Replaced (leaving flags e) t arg r
    → Quits d target r
over-Quits d e target t arg flags r y where_to v =
    gone (elim where_to [ inl i ↦ inl (v.current ∙ i) | inr i ↦ inr (v.current ∙ i) ])
      (Farewell-IsGone d (leaving flags e) r.2 (Steady-trans d e _ y (leaving-Steady flags e))
        v.farewell)
      v.sound

not_retried : (b : Bool) → is_retried (if b then err_panic else done) ≡ false
unfolding is_retried
not_retried true = refl
not_retried false = refl

retried-err_mem : (c : Code) → is_retried c ≡ false → c ≢ err_mem
unfolding is_retried
retried-err_mem c h e = false≢true (sym h ∙ ap is_retried e)

module _ (pf : Platform) (law : IsDescending pf) (sm : Stackman) (doc : IsStackman sm)
    (target arg : Ptr) (flags : XferFlags) (d : Domain) (s : IsSound d) (o : IsOpen d target)
    (way_out : IsOpen d d.main) where
  abbrev used : XferFlags
  used = record flags { nofail = false; force = true }

  not_main : d.current ≢ d.main
  not_main e = way_out.called.other (sym e)

  first : Leaves d target arg used (xfer_inner pf sm target arg used true d)
  first =
      xfer_inner-Leaves pf law sm doc target arg used d s
        (Steady-Called d _ target (leaving-Steady used d) o) not_main

  -- The fallback, in a state where nobody has moved.
  module _ (d1 : Domain) (y : Steady d d1) (s1 : IsSound d1) where
    abbrev again : XferFlags
    again = record used { panic = true }

    second : Leaves d1 d1.main arg again (xfer_inner pf sm d1.main arg again true d1)
    second =
        xfer_inner-Leaves pf law sm doc d1.main arg again d1 s1
          (Steady-Called d _ d1.main (Steady-trans d d1 _ y (leaving-Steady again d1))
            (subst (IsOpen d) (sym y.main) way_out))
          (λ e. not_main (sym y.current ∙ (e ∙ y.main)))

    -- The main tealet's stack is nobody else's, and so need not be grown.
    never_short :
        Scarce (fail_ok (leaving again d1)) (main_stack d1) (main_stack d1) d1.prev d1.stacks → ⊥
    never_short (inl ok) =
        false≢true
          (sym (forced_exit again d1 refl (λ e. not_main (sym y.current ∙ (e ∙ y.main)))) ∙ ok)
    never_short (inr (m, shared)) =
        let stack : main_stack d1 ≡ main_stack d =
          ap (λ i. (d1.tealets i).stack) y.main ∙ y.held d.main in
        let count = ap (λ p. (d1.stacks p).refcount) stack ∙ y.count (main_stack d) in
        absurd {A = _} (omega (arith, shared refl, way_out.alone))

    second-Quits : Quits d target (xfer_inner pf sm d1.main arg again true d1)
    second-Quits = elim second [
      | over v ↦ over-Quits d d1 target d1.main arg again _ y (inr y.main) v
      | back err out z sound why fate ↦
          refused err (λ e. never_short (why e)) (Steady-trans d d1 _ y z) sound
    ]

  pub xfer_nofail-Quits : Quits d target (xfer_nofail pf sm target arg flags true d)
  unfolding xfer_nofail
  xfer_nofail-Quits = elim first [
    | over v ↦
        rw (ap is_retried v.code ∙ not_retried _)
          (over-Quits d d target target arg used _ (Steady-refl d) (inl refl) v)
    | back err out y sound why fate ↦
        elim (Bool-cases (is_retried (xfer_inner pf sm target arg used true d).0)) [
          | inl again ↦ rw again (second-Quits _ y sound)
          | inr enough ↦ rw enough (refused err (retried-err_mem _ enough) y sound)
        ]
  ]
