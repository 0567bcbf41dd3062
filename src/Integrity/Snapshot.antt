-- ===== src/Integrity/Snapshot.antt =====
-- The snapshot of tealet_snapshot_capture_current and its check in
-- tealet_snapshot_verify_current of src/tealet.c.
use libtealet.Base.{
  ℕ, zero, suc, ◌+◌, ◌≤◌, ◌<◌, ◌≡◌, ◌≢◌, refl, sym, ap, ◌∙◌, inl, inr, true, false, ◌==◌, arith,
  Bool-cases, ==→eq, eq→==, ne→==,
}
use libtealet.Platform.{Ptr, Platform}
use libtealet.Memory.{Mem, read}
use libtealet.Domain.{Domain, done, is_error}
use libtealet.Integrity.{same_bytes, snapshot_capture_current, snapshot_verify_current}

same_bytes-read :
    (m m' : Mem) (a n : ℕ)
    → ((p : Ptr) → a ≤ p → p < a + n → m' p ≡ m p)
    → same_bytes (read m' a n) (read m a n) ≡ true
unfolding same_bytes read
same_bytes-read m m' a zero h = refl
same_bytes-read m m' a (suc n) h =
    rw (h a (omega arith) (omega arith), eq→== (m a) (m a) refl)
      (same_bytes-read m m' (a + 1) n (λ p lo hi. h p (omega arith) (omega arith)))

same_bytes-read_ne :
    (m m' : Mem) (a n : ℕ) (p : Ptr)
    → a ≤ p
    → p < a + n
    → m' p ≢ m p
    → same_bytes (read m' a n) (read m a n) ≡ false
unfolding same_bytes read
same_bytes-read_ne m m' a zero p lo hi h = absurd {A = _} (omega arith)
same_bytes-read_ne m m' a (suc n) p lo hi h = elim (Bool-cases (p == a)) [
  | inl e ↦
      rw (ne→== (m' a) (m a) (λ q. h (ap m' (==→eq p a e) ∙ (q ∙ sym (ap m (==→eq p a e)))))) refl
  | inr e ↦
      let rest = same_bytes-read_ne m m' (a + 1) n p (ground arith) (omega arith) h in
      elim (Bool-cases (m' a == m a)) [ inl f ↦ rw f rest | inr f ↦ rw f refl ]
]

module _ (pf : Platform) (d : Domain) (m : Mem)
    (bounded : (d.tealets d.current).stack_far ≢ pf.furthest) where
  -- Captured, and then memory is as `m` says.
  abbrev pub after : Domain
  after = record (snapshot_capture_current pf d) { mem = m }

  -- For a current tealet with a far boundary: if the bytes of the snapshot's interval are as
  -- they were when it was captured, the check succeeds.
  pub snapshot_clean :
      ((p : Ptr)
        → d.integrity.stack_base ≤ p
        → p < d.integrity.stack_base + d.integrity.snapshot_bytes
        → m p ≡ d.mem p)
      → (snapshot_verify_current after).0 ≡ done
  unfolding snapshot_capture_current snapshot_verify_current
  snapshot_clean h = elim (Bool-cases (d.integrity.snapshot_bytes == 0)) [
    | inl e ↦ rw (e, e) refl
    | inr e ↦ rw (e, ne→== _ _ bounded, e, same_bytes-read d.mem m _ _ h) refl
  ]

  -- For a current tealet with a far boundary: if a byte of the snapshot's interval has changed
  -- since it was captured, the check fails, whatever the policy.
  pub snapshot_caught :
      (p : Ptr)
      → d.integrity.stack_base ≤ p
      → p < d.integrity.stack_base + d.integrity.snapshot_bytes
      → m p ≢ d.mem p
      → is_error (snapshot_verify_current after).0 ≡ true
  unfolding snapshot_capture_current snapshot_verify_current
  snapshot_caught p lo hi h =
      let some_bytes : (d.integrity.snapshot_bytes == 0) ≡ false = ne→== _ _ (λ e. omega arith) in
      rw (some_bytes, ne→== _ _ bounded, some_bytes, same_bytes-read_ne d.mem m _ _ p lo hi h)
        (elim (Bool-cases (d.settings.stack_integrity_fail_policy == 2)) [
          | inl e ↦ rw e refl
          | inr e ↦ rw e refl
        ])
