-- ===== src/System/Started.antt =====
-- tealet_run of a tealet that is to run later, on a domain between two calls.
use libtealet.Base.{
  ◌≤◌, ◌<◌, ◌≡◌, ◌≢◌, refl, sym, ap, subst, ◌∙◌, inl, inr, true, false, has, ◌==◌, if◌then◌else◌,
  Bool-cases, ==→eq, ==→ne,
}
use libtealet.Platform.{Ptr, null}
use libtealet.Domain.{Domain, Stack, Tealet, TealetFlags, no_flags}
use libtealet.Stack.{stack_restore}
use libtealet.Stack.Image.{near}
use libtealet.Growth.Bands.{Bands-mono}
use libtealet.Transfer.Invariant.{IsLive, Sliced, Nobody, SameView}
use libtealet.Transfer.Save.{IsFresh}
use libtealet.System.{holders, IsSound}
use libtealet.System.Count.{holders_congr}
use libtealet.System.Switched.{core, core-IsSound}
use libtealet.System.Outcome.{IsSuspended}
use libtealet.System.Kept.{Kept}
use libtealet.System.Capture.{Primed, Captured}

-- The new tealet has its flag and its far boundary, and stands in for the running one.
pub record Staged (d e : Domain) (p far : Ptr) : Type 0 where
  pub stacks : e.stacks ≡ d.stacks
  pub prev : e.prev ≡ d.prev
  pub all : e.all ≡ d.all
  pub main : e.main ≡ d.main
  pub mem : e.mem ≡ d.mem
  pub sp : e.sp ≡ d.sp
  pub answers : e.answers ≡ d.answers
  pub current : e.current ≡ p
  pub blank : (e.tealets p).stack ≡ null
  pub boundary : (e.tealets p).stack_far ≡ far
  pub flags : (e.tealets p).flags ≡ record no_flags { bound = true }
  pub elsewhere : (t : Ptr) → t ≢ p → e.tealets t ≡ d.tealets t

-- The tealet `p` is suspended with the bytes of memory from the stack pointer to `far`; the caller
-- goes on, memory is as it was, and so are the other suspended tealets.
pub record Begun (d d' : Domain) (p far : Ptr) : Type 0 where
  pub sound : IsSound d'
  pub current : d'.current ≡ d.current
  pub mem : d'.mem ≡ d.mem
  pub suspended : IsSuspended d' p
  pub at : near (d'.stacks (d'.tealets p).stack) ≡ d.sp
  pub boundary : (d'.stacks (d'.tealets p).stack).stack_far ≡ far
  pub view : (x : Ptr) → stack_restore (d'.stacks (d'.tealets p).stack) d.mem x ≡ d.mem x
  pub others : (u : Ptr) → IsSuspended d u → Kept d d' u

module _ (d : Domain) (p far : Ptr) (s : IsSound d) (known : has p d.all ≡ true)
    (other : p ≢ d.current) (fresh_new : (d.tealets p).stack ≡ null) (fresh : IsFresh d)
    (inside : d.sp < far) (near_enough : far ≤ (d.tealets d.current).stack_far)
    (nothing : (d.stacks null).refcount ≡ 0) where
  pub Staged-Primed : (e : Domain) → Staged d e p far → e.target ≡ d.current → Primed e
  Staged-Primed e g at =
      let same_stack : (t : Ptr) → (e.tealets t).stack ≡ (d.tealets t).stack = λ t.
        elim (Bool-cases (t == p)) [
          | inl i ↦
              ap (λ k. (e.tealets k).stack) (==→eq t p i)
              ∙ (g.blank ∙ (sym fresh_new ∙ ap (λ k. (d.tealets k).stack) (sym (==→eq t p i))))
          | inr i ↦ ap (λ (x : Tealet). x.stack) (g.elsewhere t (==→ne t p i))
        ] in
      let force : (e.tealets e.current).flags.saveforce ≡ false =
        ap (λ k. (e.tealets k).flags.saveforce) g.current
        ∙ ap (λ (x : TealetFlags). x.saveforce) g.flags in
      let boundary : (e.tealets e.current).stack_far ≡ far =
        ap (λ k. (e.tealets k).stack_far) g.current ∙ g.boundary in
      record {
        distinct = rw g.all s.distinct;
        no_null = rw g.all s.no_null;
        main_listed = rw (g.all, g.main) s.main_listed;
        target_listed = rw (g.all, at) s.current_listed;
        strangers = λ t h. same_stack t ∙ s.strangers t (rw g.all at h);
        counted = λ j n.
            ap (λ f. (f j).refcount) g.stacks
            ∙ (s.counted j n
                ∙ (sym (
                      holders_congr j d.tealets e.tealets d.all
                        (λ t h. ap (λ x. if x == j then 1 else 0) (same_stack t)))
                    ∙ ap (holders j e.tealets) (sym g.all)));
        running = same_stack e.target ∙ (ap (λ k. (d.tealets k).stack) at ∙ s.running);
        staying = λ t. elim (Bool-cases (t == p)) [
          | inl i ↦
              ap (λ k. (e.tealets k).flags.exiting) (==→eq t p i)
              ∙ ap (λ (x : TealetFlags). x.exiting) g.flags
          | inr i ↦ ap (λ (x : Tealet). x.flags.exiting) (g.elsewhere t (==→ne t p i)) ∙ s.staying t
        ];
        suspended = λ t h n m b x f z.
            let same = g.elsewhere t (λ i. m (i ∙ sym g.current)) in
            s.suspended t (rw g.all at h) (λ i. n (i ∙ sym at))
              (ap (λ (y : Tealet). y.flags.bound) (sym same) ∙ b)
              (ap (λ (y : Tealet). y.flags.exited) (sym same) ∙ x)
              (ap (λ (y : Tealet). y.flags.is_defunct) (sym same) ∙ f)
              (ap (λ (y : Tealet). y.stack) (sym same) ∙ z);
        listed = ap (λ l. has e.current l) g.all ∙ (ap (λ k. has k d.all) g.current ∙ known);
        other = λ i. other (sym g.current ∙ (sym i ∙ at));
        blank = ap (λ k. (e.tealets k).stack) g.current ∙ g.blank;
        sliced =
            subst (λ x. Sliced x Nobody e) (sym boundary)
              (record {
                bands =
                    rw (g.stacks, g.prev)
                      (Bands-mono d.stacks _ far d.prev near_enough s.sliced.bands);
                no_null = rw g.prev s.sliced.no_null;
                linked = λ j h. rw g.stacks (s.sliced.linked j (rw g.prev at h));
                whole = λ j h. rw g.stacks (s.sliced.whole j (rw g.stacks at h));
                full = λ j h o. rw g.stacks (s.sliced.full j (rw g.stacks at h) (rw g.prev at o));
                within = λ j h. rw g.stacks (s.sliced.within j (rw g.stacks at h));
                owned = λ t h. elim (Bool-cases (t == p)) [
                  | inl i ↦ absurd (h (ap (λ k. (e.tealets k).stack) (==→eq t p i) ∙ g.blank))
                  | inr i ↦
                      let same = g.elsewhere t (==→ne t p i) in
                      rw (g.stacks, same) (s.sliced.owned t (rw same at h))
                ];
              });
        fresh = λ a h n. rw g.stacks (fresh a (rw g.answers at h) n);
        inside = rw (g.sp, boundary) inside;
        unforced = rw force refl;
        nothing = rw g.stacks nothing;
      }

  pub begun :
      (e d2 d' : Domain)
      → Staged d e p far
      → e.target ≡ d.current
      → Captured e d2
      → core d' ≡ core d2
      → d'.mem ≡ d2.mem
      → Begun d d' p far
  begun e d2 d' g at c k m =
      let hold : (d'.tealets p).stack ≡ (d2.tealets e.current).stack =
        ap (λ x. (x.1 p).stack) k ∙ ap (λ i. (d2.tealets i).stack) (sym g.current) in
      let st : d'.stacks (d'.tealets p).stack ≡ d2.stacks (d2.tealets e.current).stack =
        ap (λ x. x.0 (d'.tealets p).stack) k ∙ ap d2.stacks hold in
      record {
        sound = core-IsSound d2 d' k c.sound;
        current = ap (λ x. x.5) k ∙ (c.current ∙ at);
        mem = m ∙ (c.mem ∙ g.mem);
        suspended = ((λ z. c.suspended.0 (sym hold ∙ z)), subst IsLive (sym st) c.suspended.1);
        at = ap near st ∙ (c.at ∙ g.sp);
        boundary =
            ap (λ (x : Stack). x.stack_far) st
            ∙ (c.far ∙ (ap (λ i. (e.tealets i).stack_far) g.current ∙ g.boundary));
        view = λ x.
            ap (λ y. stack_restore y d.mem x) st
            ∙ subst (λ y. stack_restore (d2.stacks (d2.tealets e.current).stack) y x ≡ y x) g.mem
                (c.view x);
        others = λ u l.
            let n : u ≢ p = λ i. l.0 (ap (λ q. (d.tealets q).stack) i ∙ fresh_new) in
            let same = ap (λ (x : Tealet). x.stack) (g.elsewhere u n) in
            let v =
              c.others u (λ i. n (i ∙ g.current))
                (
                  (λ z. l.0 (sym same ∙ z)),
                  subst IsLive (sym (ap e.stacks same ∙ ap (λ f. f (d.tealets u).stack) g.stacks))
                      l.1,
                ) in
            let after : (d'.tealets u).stack ≡ (d2.tealets u).stack = ap (λ x. (x.1 u).stack) k in
            let stack_after : d'.stacks (d'.tealets u).stack ≡ d2.stacks (d2.tealets u).stack =
              ap (λ x. x.0 (d'.tealets u).stack) k ∙ ap d2.stacks after in
            let stack_before : e.stacks (e.tealets u).stack ≡ d.stacks (d.tealets u).stack =
              ap e.stacks same ∙ ap (λ f. f (d.tealets u).stack) g.stacks in
            record {
              suspended = (
                (λ z. v.suspended.0 (sym after ∙ z)),
                subst IsLive (sym stack_after) v.suspended.1,
              );
              same_stack = after ∙ (v.same_stack ∙ same);
              view =
                  subst (SameView d.mem d'.mem (d.stacks (d.tealets u).stack)) (sym stack_after) (
                    subst (λ x. SameView d.mem d'.mem x (d2.stacks (d2.tealets u).stack))
                      stack_before
                      (subst
                        (λ x.
                          SameView x d'.mem (e.stacks (e.tealets u).stack)
                            (d2.stacks (d2.tealets u).stack))
                        g.mem
                        (subst
                          (λ x.
                            SameView e.mem x (e.stacks (e.tealets u).stack)
                              (d2.stacks (d2.tealets u).stack))
                          (sym m) v.view)));
            };
      }
