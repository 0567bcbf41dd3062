-- ===== src/System/Left.antt =====
-- An exit that took place and the state of the whole domain.
use mathlib.Core.Bool.{false≢true}
use libtealet.Base.{
  ◌≡◌, ◌≢◌, refl, sym, ap, subst, ◌∙◌, inl, inr, true, false, List, ◌==◌, has, arith, Bool-cases,
  ==→eq, ==→ne, ne→==,
}
use libtealet.Platform.{Ptr, null}
use libtealet.Domain.{Domain, Tealet, TealetFlags, set_flags}
use libtealet.Transfer.Invariant.{Sliced, Nobody}
use libtealet.Transfer.Leave.{exited, deleted}
use libtealet.Transfer.Left.{Left}
use libtealet.System.{holds, holders, IsSound}
use libtealet.System.Count.{holders-change_two}
use libtealet.System.Switched.{core-IsSound, listed}
use libtealet.System.Flags.{set_flags-stack}
use libtealet.System.Removed.{nothing_held}
use libtealet.System.Delete.{removed-IsSound}

-- The running tealet as it would be if it did not exit: what a failed exit goes back to.
abbrev pub calmed : Domain → Domain
calmed d =
    set_flags d.current
      (record ((d.tealets d.current).flags) {
        exiting = false;
        autodelete = false;
        saveforce = false;
      })
      d

pub calmed-stack : (d : Domain) (t : Ptr) → ((calmed d).tealets t).stack ≡ (d.tealets t).stack
calmed-stack d t = set_flags-stack d.current _ d t

pub calmed-other : (d : Domain) (t : Ptr) → t ≢ d.current → (calmed d).tealets t ≡ d.tealets t
calmed-other d t n = rw (ne→== t d.current n)

moved-Sliced :
    (lo c : Ptr) (all : List Ptr) (d : Domain)
    → Sliced lo Nobody d
    → Sliced lo Nobody (record d { current = c; all = all })
moved-Sliced lo c all d s = record {
  bands = s.bands;
  no_null = s.no_null;
  linked = s.linked;
  whole = s.whole;
  full = s.full;
  within = s.within;
  owned = s.owned;
}

module _ (d d' : Domain) (s : IsSound (calmed d)) (other : d.target ≢ d.current)
    (saved : (d.tealets d.target).stack ≢ null) (not_main : d.current ≢ d.main)
    (l : Left d d') where
  abbrev q : Ptr
  q = (d.tealets d.target).stack

  -- The state with all tealets on the list still.
  abbrev before_free : Domain
  before_free = record d' { current = d.target; all = d.all }

  same_tealet : (t : Ptr) → t ≢ d.current → t ≢ d.target → d'.tealets t ≡ (calmed d).tealets t
  same_tealet t n m = l.same_tealet t n m ∙ sym (calmed-other d t n)

  target_listed : has d.target d.all ≡ true
  target_listed = listed (calmed d) s d.target (λ e. saved (sym (calmed-stack d d.target) ∙ e))

  counted_after : (p : Ptr) → p ≢ null → (d'.stacks p).refcount ≡ holders p d'.tealets d.all
  counted_after p n =
      let two =
        holders-change_two p (calmed d).tealets d'.tealets d.current d.target d.all s.distinct
          s.current_listed target_listed (λ e. other (sym e)) same_tealet in
      let nothing = ne→== null p (λ e. n (sym e)) in
      let a : holds p ((calmed d).tealets d.current) ≡ 0 =
        ap (λ x. holds p (record ((calmed d).tealets d.current) { stack = x })) s.running
        ∙ rw nothing refl in
      let b : holds p (d'.tealets d.target) ≡ 0 = rw (l.taken, nothing) refl in
      let e : holds p (d'.tealets d.current) ≡ 0 = rw (l.bare, nothing) refl in
      let at : holds p ((calmed d).tealets d.target) ≡ holds p (d.tealets d.target) =
        ap (holds p) (calmed-other d d.target other) in
      let sum : (d.stacks p).refcount ≡ holders p (calmed d).tealets d.all = s.counted p n in
      elim (Bool-cases (q == p)) [
        | inl f ↦
            let one : holds p (d.tealets d.target) ≡ 1 = rw f refl in
            let i = ==→eq q p f in
            let now : (d'.stacks p).refcount ≡ (d'.stacks q).refcount =
              ap (λ j. (d'.stacks j).refcount) (sym i) in
            let was : (d.stacks p).refcount ≡ (d.stacks q).refcount =
              ap (λ j. (d.stacks j).refcount) (sym i) in
            omega (arith, two, sum, l.count)
        | inr f ↦
            let none : holds p (d.tealets d.target) ≡ 0 = rw f refl in
            omega (arith, two, sum, l.elsewhere p (λ i. ==→ne q p f (sym i)))
      ]

  differs : (t u : Ptr) → has t d.all ≡ false → has u d.all ≡ true → t ≢ u
  differs t u h k e = false≢true (sym h ∙ subst (λ i. has i d.all ≡ true) (sym e) k)

  before_free-IsSound : IsSound before_free
  before_free-IsSound = record {
    sliced =
        subst (λ x. Sliced x Nobody before_free) (sym l.same_far)
          (moved-Sliced _ d.target d.all d' l.sliced);
    distinct = s.distinct;
    no_null = s.no_null;
    main_listed = ap (λ m. has m d.all) l.same_main ∙ s.main_listed;
    current_listed = target_listed;
    strangers = λ t h.
        ap (λ (x : Tealet). x.stack)
          (same_tealet t (differs t d.current h s.current_listed)
            (differs t d.target h target_listed))
        ∙ s.strangers t h;
    counted = counted_after;
    running = l.taken;
    staying = λ t. elim (Bool-cases (t == d.current)) [
      | inl e ↦ ap (λ i. (d'.tealets i).flags.exiting) (==→eq t d.current e) ∙ l.calm
      | inr e ↦ elim (Bool-cases (t == d.target)) [
        | inl f ↦
            ap (λ i. (d'.tealets i).flags.exiting) (==→eq t d.target f)
            ∙ (ap (λ (x : TealetFlags). x.exiting) l.same_flags
                ∙ (ap (λ (x : Tealet). x.flags.exiting) (sym (calmed-other d d.target other))
                    ∙ s.staying d.target))
        | inr f ↦
            ap (λ (x : Tealet). x.flags.exiting)
              (same_tealet t (==→ne t d.current e) (==→ne t d.target f))
            ∙ s.staying t
      ]
    ];
    suspended = λ t h n i j k. elim (Bool-cases (t == d.current)) [
      | inl e ↦
          let at = ==→eq t d.current e in
          elim l.farewell [
            | exited x y z ↦
                absurd (false≢true (sym j ∙ (ap (λ u. (d'.tealets u).flags.exited) at ∙ z)))
            | deleted x y z ↦ absurd (
                false≢true (
                  sym
                    (ap (λ u. (d'.tealets u).flags.bound) at ∙ ap (λ (u : Tealet). u.flags.bound) z)
                  ∙ i))
          ]
      | inr e ↦
          let same = same_tealet t (==→ne t d.current e) n in
          λ z.
            s.suspended t h (==→ne t d.current e)
              (ap (λ (x : Tealet). x.flags.bound) (sym same) ∙ i)
              (ap (λ (x : Tealet). x.flags.exited) (sym same) ∙ j)
              (ap (λ (x : Tealet). x.flags.is_defunct) (sym same) ∙ k)
              (ap (λ (x : Tealet). x.stack) (sym same) ∙ z)
    ];
  }

  -- After an exit that took place the state of the domain is sound again, with the target
  -- running.
  pub Left-IsSound : IsSound (record d' { current = d.target })
  Left-IsSound = elim l.farewell [
    | exited x y z ↦
        core-IsSound before_free _
          (ap (λ a. (d'.stacks, d'.tealets, d'.prev, a, d'.main, d.target)) y) before_free-IsSound
    | deleted x y z ↦
        removed-IsSound before_free (record d' { current = d.target }) d.current before_free-IsSound
          s.current_listed (λ e. other (sym e)) (λ e. not_main (e ∙ l.same_main))
          (record {
            all = y;
            main = refl;
            current = refl;
            gone = z;
            elsewhere = λ u n. refl;
            drop = nothing_held l.bare refl refl;
          })
  ]
