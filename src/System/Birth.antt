-- ===== src/System/Birth.antt =====
-- A new domain.
use mathlib.Core.Bool.{false≢true}
use libtealet.Base.{ℕ, ◌≢◌, refl, sym, inl, inr, ◌==◌, Bool-cases, ==→eq, ==→ne, eq→==, ne→==}
use libtealet.Platform.{Ptr, null, Platform, IsDescending}
use libtealet.Domain.{Domain}
use libtealet.Stats.{malloc}
use libtealet.Transfer.{Stackman, IsStackman}
use libtealet.Api.Setup.{initialize, initialize-Sliced}
use libtealet.System.{IsSound}
use libtealet.System.Step.{Reach, Reach-IsSound}

-- tealet_initialize, if there is memory for the main tealet, sets up a sound domain.
pub initialize-IsSound :
    (pf : Platform) (extrasize : ℕ) (stack_probe : Ptr) (d : Domain)
    → (initialize pf extrasize stack_probe d).0 ≢ null
    → IsSound (initialize pf extrasize stack_probe d).1
unfolding initialize
initialize-IsSound pf extrasize stack_probe d ok = elim (Bool-cases ((malloc 0 d).0 == null)) [
  | inl e ↦ absurd ((rw e at ok) refl)
  | inr e ↦
      let p = (malloc 0 d).0 in
      let n = ==→ne p null e in
      let fresh = initialize-Sliced pf extrasize stack_probe d ok in
      rw e (record {
        sliced = rw (eq→== p p refl) (rw e at fresh);
        distinct = (refl, tt);
        no_null = rw (ne→== null p (λ i. n (sym i))) refl;
        main_listed = rw (eq→== p p refl) refl;
        current_listed = rw (eq→== p p refl) refl;
        strangers = λ t h. elim (Bool-cases (t == p)) [ inl f ↦ rw f refl | inr f ↦ rw f refl ];
        counted = λ q m. rw (eq→== p p refl, ne→== null q (λ i. m (sym i))) refl;
        running = rw (eq→== p p refl) refl;
        staying = λ t. elim (Bool-cases (t == p)) [ inl f ↦ rw f refl | inr f ↦ rw f refl ];
        suspended = λ t h o b x f. elim (Bool-cases (t == p)) [
          | inl g ↦ absurd (o (==→eq t p g))
          | inr g ↦ absurd (false≢true (rw g at h))
        ];
      })
]

-- Every state that a domain comes to from a tealet_initialize that had memory is sound: by
-- writing below the running tealet's far boundary, by tealet_new, by a tealet_run for later
-- that succeeds, by tealet_duplicate and tealet_delete of tealets that neither run nor are the
-- main one, by tealet_switch without NOFAIL or PANIC, forced or not, that does not run out of
-- memory, and by tealet_exit of a tealet other than the main one, without NOFAIL or PANIC and
-- not deferred, forced or not, to be deleted or not, that finds memory or not, and by the
-- implicit exit and tealet_exit with NOFAIL, without PANIC and not deferred, where the target
-- and the main tealet share their stacks with nobody, each on the conditions that `Step` sets
-- for it (of transfers and exits `Called`, of whatever allocates an allocator that hands out
-- no block in use). Soundness says among other things that the reference count of each stack
-- is the number of its holders and that the stacks in `g_prev` are saved as far as they have
-- to be.
pub reached-IsSound :
    (pf : Platform) (law : IsDescending pf) (sm : Stackman) (doc : IsStackman sm) (extrasize : ℕ)
    (stack_probe : Ptr) (d d' : Domain)
    → (initialize pf extrasize stack_probe d).0 ≢ null
    → Reach pf sm (initialize pf extrasize stack_probe d).1 d'
    → IsSound d'
reached-IsSound pf law sm doc extrasize stack_probe d d' ok r =
    Reach-IsSound pf law sm doc (initialize pf extrasize stack_probe d).1 d' r
      (initialize-IsSound pf extrasize stack_probe d ok)
