-- ===== src/System/Joined.antt =====
-- A domain that a tealet has joined.
use mathlib.Core.Bool.{false≢true}
use libtealet.Base.{
  ◌+◌, ◌≡◌, ◌≢◌, refl, sym, ap, subst, ◌∙◌, inl, inr, ◌&&◌, true, false, ◌∷◌, ◌==◌, has, Bool-cases,
  ==→eq, ==→ne, ne→==,
}
use libtealet.Platform.{Ptr, null}
use libtealet.Domain.{Domain, Tealet}
use libtealet.Transfer.Invariant.{Sliced, Nobody}
use libtealet.Api.{lock_auto, unlock_auto}
use libtealet.System.{holds, holders, IsSound}
use libtealet.System.Count.{holders_congr}
use libtealet.System.Switched.{core}

pub lock_auto-core : (d : Domain) → core (lock_auto d) ≡ core d
unfolding lock_auto
lock_auto-core d = elim (Bool-cases (d.locking.auto && d.locking.lock)) [
  | inl e ↦ rw e refl
  | inr e ↦ rw e refl
]

pub unlock_auto-core : (d : Domain) → core (unlock_auto d) ≡ core d
unfolding unlock_auto
unlock_auto-core d = elim (Bool-cases (d.locking.auto && d.locking.unlock)) [
  | inl e ↦ rw e refl
  | inr e ↦ rw e refl
]

-- A tealet `t` has joined at `p`, and the stack that it holds, if any, has one holder more.
pub record Joined (d d' : Domain) (p : Ptr) (t : Tealet) : Type 0 where
  pub unused : has p d.all ≡ false
  pub no_null : p ≢ null
  pub all : d'.all ≡ p ∷ d.all
  pub at : d'.tealets p ≡ t
  pub elsewhere : (u : Ptr) → u ≢ p → d'.tealets u ≡ d.tealets u
  pub main : d'.main ≡ d.main
  pub current : d'.current ≡ d.current
  pub count : (q : Ptr) → q ≢ null → (d'.stacks q).refcount ≡ holds q t + (d.stacks q).refcount
  pub stays : t.flags.exiting ≡ false
  pub ready :
      t.flags.bound ≡ true → t.flags.exited ≡ false → t.flags.is_defunct ≡ false → t.stack ≢ null

module _ (d d' : Domain) (p : Ptr) (t : Tealet) (s : IsSound d) (j : Joined d d' p t)
    (sliced : Sliced (d.tealets d.current).stack_far Nobody d') where
  apart : (u : Ptr) → has u d.all ≡ true → u ≢ p
  apart u h e = false≢true (sym j.unused ∙ subst (λ i. has i d.all ≡ true) e h)

  runner : d'.tealets d'.current ≡ d.tealets d.current
  runner = ap d'.tealets j.current ∙ j.elsewhere d.current (apart d.current s.current_listed)

  member : (u : Ptr) → u ≢ p → has u d'.all ≡ true → has u d.all ≡ true
  member u n h = rw (j.all, ne→== u p n) at h

  stranger : (u : Ptr) → has u d'.all ≡ false → (d'.tealets u).stack ≡ null
  stranger u h = elim (Bool-cases (u == p)) [
    | inl e ↦ absurd (false≢true (sym h ∙ rw (j.all, e) refl))
    | inr e ↦
        ap (λ (x : Tealet). x.stack) (j.elsewhere u (==→ne u p e))
        ∙ s.strangers u (rw (j.all, e) at h)
  ]

  still : (u : Ptr) → has u d.all ≡ true → has u d'.all ≡ true
  still u h = rw (j.all, ne→== u p (apart u h)) h

  pub joined-IsSound : IsSound d'
  joined-IsSound = record {
    sliced = subst (λ x. Sliced x Nobody d') (ap (λ (x : Tealet). x.stack_far) (sym runner)) sliced;
    distinct = rw j.all (j.unused, s.distinct);
    no_null = rw (j.all, ne→== null p (λ e. j.no_null (sym e))) s.no_null;
    main_listed = ap (λ i. has i d'.all) j.main ∙ still d.main s.main_listed;
    current_listed = ap (λ i. has i d'.all) j.current ∙ still d.current s.current_listed;
    strangers = stranger;
    counted = λ q n.
        j.count q n
        ∙ (ap (λ x. holds q t + x)
              (s.counted q n
                ∙ sym (
                    holders_congr q d.tealets d'.tealets d.all
                      (λ u h. ap (holds q) (j.elsewhere u (apart u h)))))
            ∙ (ap (λ x. holds q x + holders q d'.tealets d.all) (sym j.at)
                ∙ ap (holders q d'.tealets) (sym j.all)));
    running = ap (λ (x : Tealet). x.stack) runner ∙ s.running;
    staying = λ u. elim (Bool-cases (u == p)) [
      | inl e ↦
          ap (λ i. (d'.tealets i).flags.exiting) (==→eq u p e)
          ∙ (ap (λ (x : Tealet). x.flags.exiting) j.at ∙ j.stays)
      | inr e ↦ ap (λ (x : Tealet). x.flags.exiting) (j.elsewhere u (==→ne u p e)) ∙ s.staying u
    ];
    suspended = λ u h n b x f. elim (Bool-cases (u == p)) [
      | inl e ↦
          let at : d'.tealets u ≡ t = ap d'.tealets (==→eq u p e) ∙ j.at in
          λ z.
            j.ready (ap (λ (x : Tealet). x.flags.bound) (sym at) ∙ b)
              (ap (λ (x : Tealet). x.flags.exited) (sym at) ∙ x)
              (ap (λ (x : Tealet). x.flags.is_defunct) (sym at) ∙ f)
              (ap (λ (x : Tealet). x.stack) (sym at) ∙ z)
      | inr e ↦
          let at = j.elsewhere u (==→ne u p e) in
          λ z.
            s.suspended u (member u (==→ne u p e) h) (λ i. n (i ∙ sym j.current))
              (ap (λ (x : Tealet). x.flags.bound) (sym at) ∙ b)
              (ap (λ (x : Tealet). x.flags.exited) (sym at) ∙ x)
              (ap (λ (x : Tealet). x.flags.is_defunct) (sym at) ∙ f)
              (ap (λ (x : Tealet). x.stack) (sym at) ∙ z)
    ];
  }
