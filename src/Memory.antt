-- ===== src/Memory.antt =====
-- The memory of the C stack as a function from addresses to bytes, with the memcpy out of it and
-- into it that saving and restoring use (`memcpy` in src/tealet.c, a C library function).
use libtealet.Base.{
  ℕ, zero, suc, ◌+◌, ◌≤◌, ◌<◌, ◌≡◌, refl, List, [], ◌∷◌, arith, length, ◌==◌, if◌then◌else◌,
}
use libtealet.Platform.{Ptr}

abbrev pub Mem : Type 0
Mem = Ptr → ℕ

-- The bytes of [a, a + n).
unfoldable pub read : Mem → Ptr → ℕ → List ℕ
read m a zero = []
read m a (suc n) = m a ∷ read m (a + 1) n

-- The bytes `bs` copied to `a` and up.
unfoldable pub write : Mem → Ptr → List ℕ → Mem
write m a [] p = m p
write m a (b ∷ bs) p = if p == a then b else write m (a + 1) bs p

pub length-read : (m : Mem) (a n : ℕ) → length (read m a n) ≡ n
unfolding read
length-read m a zero = refl
length-read m a (suc n) = omega (arith, length-read m (a + 1) n)

-- Bytes outside the target of a copy stay.
pub write_below : (m : Mem) (a : Ptr) (bs : List ℕ) (p : Ptr) → p < a → write m a bs p ≡ m p
unfolding write
write_below m a [] p h = refl
write_below m a (b ∷ bs) p h = ground (arith, write_below m (a + 1) bs p)

pub write_above :
    (m : Mem) (a : Ptr) (bs : List ℕ) (p : Ptr) → a + length bs ≤ p → write m a bs p ≡ m p
unfolding write
write_above m a [] p h = refl
write_above m a (b ∷ bs) p h = ground (arith, write_above m (a + 1) bs p)

-- Bytes inside it do not depend on what stood there.
pub write_inside :
    (m m' : Mem) (a : Ptr) (bs : List ℕ) (p : Ptr)
    → a ≤ p
    → p < a + length bs
    → write m a bs p ≡ write m' a bs p
unfolding write
write_inside m m' a [] p h k = absurd (omega arith)
write_inside m m' a (b ∷ bs) p h k = ground (arith, write_inside m m' (a + 1) bs p)

-- Equal bytes before are equal bytes after.
pub write_congr :
    (m m' : Mem) (a : Ptr) (bs : List ℕ) (p : Ptr) → m p ≡ m' p → write m a bs p ≡ write m' a bs p
unfolding write
write_congr m m' a [] p h = h
write_congr m m' a (b ∷ bs) p h = ground (arith, write_congr m m' (a + 1) bs p)

-- What was read from a place and is copied back there.
pub write-read :
    (m m' : Mem) (a : Ptr) (n : ℕ) (p : Ptr) → a ≤ p → p < a + n → write m' a (read m a n) p ≡ m p
unfolding write read
write-read m m' a zero p h k = absurd (omega arith)
write-read m m' a (suc n) p h k = ground (arith, write-read m m' (a + 1) n p)

-- A read and a copy back to the same memory change nothing.
pub write-read_self : (m : Mem) (a : Ptr) (n : ℕ) (p : Ptr) → write m a (read m a n) p ≡ m p
unfolding write read
write-read_self m a zero p = refl
write-read_self m a (suc n) p = ground (arith, write-read_self m (a + 1) n p)
