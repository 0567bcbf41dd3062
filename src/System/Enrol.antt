-- ===== src/System/Enrol.antt =====
-- tealet_new and tealet_duplicate on a domain between two calls.
use mathlib.Core.Bool.{false≢true}
use libtealet.Base.{
  ◌+◌, ◌≡◌, ◌≢◌, refl, sym, ap, subst, ◌∙◌, inl, inr, ◌&&◌, true, false, ◌∷◌, ◌==◌, if◌then◌else◌,
  has, arith, Bool-cases, ==→eq, ==→ne, eq→==, ne→==,
}
use libtealet.Platform.{Ptr, null, Platform}
use libtealet.Domain.{Domain, Stack, Tealet, no_flags, put_tealet, update}
use libtealet.Stats.{malloc, malloc-has}
use libtealet.Stack.{dup_stack, stack_dup}
use libtealet.Transfer.Invariant.{Sliced, Nobody}
use libtealet.Api.{alloc, new, duplicate, lock_auto}
use libtealet.Api.Lifecycle.{new-Sliced, duplicate-Sliced}
use libtealet.System.{holds, IsSound}
use libtealet.System.Switched.{core, core-IsSound}
use libtealet.System.Joined.{Joined, joined-IsSound, lock_auto-core, unlock_auto-core}

-- The allocator hands out no block that is a tealet.
abbrev pub IsUnused : Domain → Type 0
IsUnused d = (a : Ptr) → has a d.answers ≡ true → a ≢ null → has a d.all ≡ false

-- What tealet_alloc has done when it had memory.
pub record Allocated (d : Domain) (p : Ptr) (d' : Domain) : Type 0 where
  pub unused : has p d.all ≡ false
  pub all : d'.all ≡ p ∷ d.all
  pub main : d'.main ≡ d.main
  pub current : d'.current ≡ d.current
  pub stacks : d'.stacks ≡ d.stacks
  pub elsewhere : (u : Ptr) → u ≢ p → d'.tealets u ≡ d.tealets u

pub alloc-Allocated :
    (pf : Platform) (d : Domain)
    → IsUnused d
    → ((alloc pf d).0 ≡ null → core (alloc pf d).1 ≡ core d)
      × ((alloc pf d).0 ≢ null → Allocated d (alloc pf d).0 (alloc pf d).1)
unfolding alloc malloc
alloc-Allocated pf d u = elim (Bool-cases ((malloc (pf.tealet_header + d.extrasize) d).0 == null)) [
  | inl f ↦ rw f ((λ e. refl), (λ n. absurd (n refl)))
  | inr f ↦ rw f (
    (λ e. absurd (==→ne _ _ f e)),
    (λ n. record {
      unused = u _ (malloc-has (pf.tealet_header + d.extrasize) d n) n;
      all = refl;
      main = refl;
      current = refl;
      stacks = refl;
      elsewhere = λ v o. rw (ne→== v _ o) refl;
    }),
  )
]

-- A tealet is put at the address that was handed out.
Allocated-Joined :
    (x y d' : Domain) (p : Ptr) (t : Tealet) (stacks : Ptr → Stack)
    → Allocated x p y
    → p ≢ null
    → core d' ≡ core (put_tealet p t (record y { stacks = stacks }))
    → ((q : Ptr) → q ≢ null → (stacks q).refcount ≡ holds q t + (x.stacks q).refcount)
    → t.flags.exiting ≡ false
    → (t.flags.bound ≡ true → t.flags.exited ≡ false → t.flags.is_defunct ≡ false → t.stack ≢ null)
    → Joined x d' p t
Allocated-Joined x y d' p t stacks a n c count stays ready = record {
  unused = a.unused;
  no_null = n;
  all = ap (λ k. k.3) c ∙ a.all;
  at = ap (λ k. k.1 p) c ∙ rw (eq→== p p refl) refl;
  elsewhere = λ u o. ap (λ k. k.1 u) c ∙ rw (ne→== u p o) (a.elsewhere u o);
  main = ap (λ k. k.4) c ∙ a.main;
  current = ap (λ k. k.5) c ∙ a.current;
  count = λ q m. ap (λ k. (k.0 q).refcount) c ∙ count q m;
  stays = stays;
  ready = ready;
}

-- What tealet_duplicate comes to: there was no memory, or a tealet with the stack, the far boundary
-- and the flags of `t` has joined, and is counted among the holders of that stack.
pub data Copied (d : Domain) (t : Ptr) (r : Ptr × Domain) : Type 0 where
  no_memory : r.0 ≡ null → core r.1 ≡ core d → Copied d t r
  copied :
      (c : Tealet)
      → Joined (lock_auto d) r.1 r.0 c
      → c.stack ≡ (d.tealets t).stack
      → c.stack_far ≡ (d.tealets t).stack_far
      → c.flags ≡ (d.tealets t).flags
      → Copied d t r

lock_auto-answers : (d : Domain) → (lock_auto d).answers ≡ d.answers
unfolding lock_auto
lock_auto-answers d = elim (Bool-cases (d.locking.auto && d.locking.lock)) [
  | inl e ↦ rw e refl
  | inr e ↦ rw e refl
]

module _ (pf : Platform) (d : Domain) (s : IsSound d) (unused : IsUnused d) where
  abbrev within_lock : Domain
  within_lock = lock_auto d

  pub lock-IsSound : IsSound within_lock
  lock-IsSound = core-IsSound d within_lock (lock_auto-core d) s

  lock-IsUnused : IsUnused within_lock
  lock-IsUnused a h n =
      ap (λ c. has a c.3) (lock_auto-core d)
      ∙ unused a (subst (λ l. has a l ≡ true) (lock_auto-answers d) h) n

  pub allocated :
      ((alloc pf within_lock).0 ≡ null → core (alloc pf within_lock).1 ≡ core within_lock)
      × ((alloc pf within_lock).0 ≢ null
          → Allocated within_lock (alloc pf within_lock).0 (alloc pf within_lock).1)
  allocated = alloc-Allocated pf within_lock lock-IsUnused

  -- Running tealet's far boundary, which the lock leaves alone.
  same_far : (d.tealets d.current).stack_far ≡ (within_lock.tealets within_lock.current).stack_far
  same_far = ap (λ c. (c.1 c.5).stack_far) (sym (lock_auto-core d))

  -- tealet_new leaves a sound domain, with memory for the new tealet or without.
  pub new-IsSound : IsSound (new pf d).1
  unfolding new
  new-IsSound = elim (Bool-cases ((alloc pf within_lock).0 == null)) [
    | inl e ↦ rw e (
        core-IsSound within_lock _
          (unlock_auto-core (alloc pf within_lock).1 ∙ allocated.0 (==→eq _ _ e)) lock-IsSound)
    | inr e ↦
        let n = ==→ne _ _ e in
        let y = (alloc pf within_lock).1 in
        let a = allocated.1 n in
        let t = record (y.tealets (alloc pf within_lock).0) {
          stack_far = null;
          stack = null;
          flags = no_flags;
        } in
        let j =
          Allocated-Joined within_lock y (new pf d).1 (alloc pf within_lock).0 t y.stacks a n
            (rw e (unlock_auto-core (put_tealet (alloc pf within_lock).0 t y)))
            (λ q m.
              rw (ne→== null q (λ i. m (sym i))) (omega (arith, ap (λ f. (f q).refcount) a.stacks)))
            refl (λ b. absurd (false≢true b)) in
        joined-IsSound within_lock (new pf d).1 (alloc pf within_lock).0 t lock-IsSound j
          (new-Sliced pf _ d (subst (λ x. Sliced x Nobody d) same_far s.sliced))
  ]

  module _ (t : Ptr) (listed : has t d.all ≡ true) (other : t ≢ d.current)
      (n : (alloc pf within_lock).0 ≢ null) where
    abbrev y : Domain
    y = (alloc pf within_lock).1

    abbrev p : Ptr
    p = (alloc pf within_lock).0

    abbrev q : Ptr
    q = (y.tealets t).stack

    abbrev pub copy : Tealet
    copy = record {
      stack_far = (y.tealets t).stack_far;
      stack = q;
      flags = (y.tealets t).flags;
      extra = if y.extrasize == 0 then (y.tealets p).extra else (y.tealets t).extra;
    }

    abbrev pub shared : Ptr → Stack
    shared = if q == null then y.stacks else update y.stacks q (dup_stack (y.stacks q))

    pub original : y.tealets t ≡ d.tealets t
    original =
        let a = allocated.1 n in
        let u : has p d.all ≡ false = ap (λ c. has p c.3) (sym (lock_auto-core d)) ∙ a.unused in
        a.elsewhere t (λ i. false≢true (sym u ∙ subst (λ k. has k d.all ≡ true) i listed))
        ∙ ap (λ c. c.1 t) (lock_auto-core d)

    pub copy-core :
        core (duplicate pf t d).1 ≡ core (put_tealet p copy (record y { stacks = shared }))
    unfolding duplicate stack_dup
    copy-core = elim (Bool-cases (q == null)) [
      | inl f ↦ rw (ne→== p null n, f) (unlock_auto-core (put_tealet p copy y))
      | inr f ↦ rw (ne→== p null n, f) (unlock_auto-core (put_tealet p copy (stack_dup q y)))
    ]

    pub copy-count :
        (j : Ptr) → j ≢ null → (shared j).refcount ≡ holds j copy + (within_lock.stacks j).refcount
    unfolding dup_stack
    copy-count j m =
        let same : (y.stacks j).refcount ≡ (within_lock.stacks j).refcount =
          ap (λ f. (f j).refcount) (allocated.1 n).stacks in
        elim (Bool-cases (q == null)) [
          | inl f ↦ rw (f, ne→== q j (λ i. m (sym i ∙ ==→eq q null f))) (omega (arith, same))
          | inr f ↦ elim (Bool-cases (j == q)) [
            | inl e ↦
                rw (f, e, eq→== q j (sym (==→eq j q e)))
                  (omega (arith, same, ap (λ i. (y.stacks i).refcount) (==→eq j q e)))
            | inr e ↦ rw (f, e, ne→== q j (λ i. ==→ne j q e (sym i))) (omega (arith, same))
          ]
        ]

    copy-Joined : Joined within_lock (duplicate pf t d).1 p copy
    copy-Joined =
        Allocated-Joined within_lock y (duplicate pf t d).1 p copy shared (allocated.1 n) n
          copy-core copy-count (ap (λ (x : Tealet). x.flags.exiting) original ∙ s.staying t)
          (λ i j k z.
            s.suspended t listed other (ap (λ (x : Tealet). x.flags.bound) (sym original) ∙ i)
              (ap (λ (x : Tealet). x.flags.exited) (sym original) ∙ j)
              (ap (λ (x : Tealet). x.flags.is_defunct) (sym original) ∙ k)
              (ap (λ (x : Tealet). x.stack) (sym original) ∙ z))

    -- The address that was handed out is the result.
    copy-at : (duplicate pf t d).0 ≡ p
    unfolding duplicate
    copy-at = rw (ne→== p null n) refl

    copy-Copied : Copied d t (duplicate pf t d)
    copy-Copied =
        copied copy
          (subst (λ i. Joined within_lock (duplicate pf t d).1 i copy) (sym copy-at) copy-Joined)
          (ap (λ (x : Tealet). x.stack) original) (ap (λ (x : Tealet). x.stack_far) original)
          (ap (λ (x : Tealet). x.flags) original)

  -- tealet_duplicate of a listed tealet other than the running and the main one, with an
  -- allocator that hands out no block that is a tealet, leaves a sound domain sound. Either it
  -- answers NULL and nothing that soundness rests on has changed, or it answers a tealet that
  -- was not listed and is now, with the stack, the far boundary and the flags of the first,
  -- and, if there is a stack, that has one holder more and every other stack as many as
  -- before.
  pub duplicate-IsSound :
      (t : Ptr)
      → has t d.all ≡ true
      → t ≢ d.current
      → t ≢ d.main
      → IsSound (duplicate pf t d).1 × Copied d t (duplicate pf t d)
  unfolding duplicate
  duplicate-IsSound t listed other _ = elim (Bool-cases ((alloc pf within_lock).0 == null)) [
    | inl e ↦
        let failed = failure (==→eq _ _ e) in
        (
          core-IsSound within_lock _ failed.1 lock-IsSound,
          no_memory failed.0 (failed.1 ∙ lock_auto-core d),
        )
    | inr e ↦ (
      joined-IsSound within_lock (duplicate pf t d).1 _ _ lock-IsSound
          (copy-Joined t listed other (==→ne _ _ e))
          (duplicate-Sliced pf _ t d (subst (λ x. Sliced x Nobody d) same_far s.sliced)),
      copy-Copied t listed other (==→ne _ _ e),
    )
  ]
    where
      failure :
          (alloc pf within_lock).0 ≡ null
          → ((duplicate pf t d).0 ≡ null) × (core (duplicate pf t d).1 ≡ core within_lock)
      failure z = (
        rw (eq→== _ null z) refl,
        rw (eq→== _ null z) (unlock_auto-core (alloc pf within_lock).1 ∙ allocated.0 z),
      )
