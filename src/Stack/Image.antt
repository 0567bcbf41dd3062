-- ===== src/Stack/Image.antt =====
-- What a saved stack holds: the memory as it would be if the stack were copied back now.
use libtealet.Base.{
  ℕ, ◌+◌, ◌-◌, ◌≤◌, ◌<◌, ◌≡◌, refl, sym, ◌∙◌, ◌⊎◌, inl, inr, List, [], ◌∷◌, ◌++◌, ltb, arith,
  Bool-cases, length,
}
use libtealet.Platform.{Ptr}
use libtealet.Memory.{
  Mem, write, length-read, write_below, write_above, write_inside, write_congr, write-read_self,
}
use libtealet.Domain.{Chunk, Stack}
use libtealet.Stack.{restore_chunks, stack_restore, copy_chunk, grown}

-- The chunks lie end to end from `a` to `e`, and each has as many bytes as it says.
abbrev pub IsChain : Ptr → List Chunk → Ptr → Type 0
IsChain a [] e = a ≡ e
IsChain a (c ∷ cs) e =
    (c.stack_near ≡ a) × (length c.bytes ≡ c.size) × (c.refcount ≡ 1) × IsChain (a + c.size) cs e

abbrev pub near : Stack → Ptr
near s = s.chunk.stack_near

-- The end of what is saved.
abbrev pub edge : Stack → Ptr
edge s = near s + s.saved

abbrev pub IsWhole : Stack → Type 0
IsWhole s = IsChain (near s) (s.chunk ∷ s.rest) (edge s)

pub IsChain-le : (a e : Ptr) (cs : List Chunk) → IsChain a cs e → a ≤ e
IsChain-le a e [] h = omega arith
IsChain-le a e (c ∷ cs) h = omega (arith, IsChain-le (a + c.size) e cs h.3)

-- A copy back writes inside the chain only.
pub restore_chunks_outside :
    (a e : Ptr) (cs : List Chunk) (m : Mem) (p : Ptr)
    → IsChain a cs e
    → (p < a) ⊎ (e ≤ p)
    → restore_chunks cs m p ≡ m p
unfolding restore_chunks
restore_chunks_outside a e [] m p h o = refl
restore_chunks_outside a e (c ∷ cs) m p h o =
    let le = IsChain-le (a + c.size) e cs h.3 in
    ground (
      arith,
      restore_chunks_outside (a + c.size) e cs (write m c.stack_near c.bytes) p h.3,
      write_below m c.stack_near c.bytes p,
      write_above m c.stack_near c.bytes p,
    )

-- Inside, the result is the same whatever stood there.
pub restore_chunks_inside :
    (a e : Ptr) (cs : List Chunk) (m m' : Mem) (p : Ptr)
    → IsChain a cs e
    → a ≤ p
    → p < e
    → restore_chunks cs m p ≡ restore_chunks cs m' p
unfolding restore_chunks
restore_chunks_inside a e [] m m' p h lo hi = absurd (omega arith)
restore_chunks_inside a e (c ∷ cs) m m' p h lo hi = elim (Bool-cases (ltb p (a + c.size))) [
  | inl e' ↦ ground (
    arith,
    restore_chunks_outside (a + c.size) e cs (write m c.stack_near c.bytes) p h.3,
    restore_chunks_outside (a + c.size) e cs (write m' c.stack_near c.bytes) p h.3,
    write_inside m m' c.stack_near c.bytes p,
  )
  | inr e' ↦
      restore_chunks_inside (a + c.size) e cs (write m c.stack_near c.bytes)
        (write m' c.stack_near c.bytes) p h.3 (ground arith) hi
]

pub restore_chunks_congr :
    (cs : List Chunk) (m m' : Mem) (p : Ptr)
    → m p ≡ m' p
    → restore_chunks cs m p ≡ restore_chunks cs m' p
unfolding restore_chunks
restore_chunks_congr [] m m' p h = h
restore_chunks_congr (c ∷ cs) m m' p h =
    restore_chunks_congr cs (write m c.stack_near c.bytes) (write m' c.stack_near c.bytes) p
      (write_congr m m' c.stack_near c.bytes p h)

restore_chunks-append :
    (cs : List Chunk) (c : Chunk) (m : Mem) (p : Ptr)
    → restore_chunks (cs ++ c ∷ []) m p ≡ write (restore_chunks cs m) c.stack_near c.bytes p
unfolding restore_chunks
restore_chunks-append [] c m p = refl
restore_chunks-append (x ∷ cs) c m p = restore_chunks-append cs c (write m x.stack_near x.bytes) p

IsChain-append :
    (a b e : Ptr) (cs : List Chunk) (c : Chunk)
    → IsChain a cs b
    → IsChain b (c ∷ []) e
    → IsChain a (cs ++ c ∷ []) e
IsChain-append a b e [] c h k = (omega arith, k.1, k.2, omega arith)
IsChain-append a b e (x ∷ cs) c h k = (h.0, h.1, h.2, IsChain-append (a + x.size) b e cs c h.3 k)

pub copy_chunk-IsChain :
    (m : Mem) (a : Ptr) (n : ℕ) (e : Ptr) → a + n ≡ e → IsChain a (copy_chunk m a n ∷ []) e
unfolding copy_chunk
copy_chunk-IsChain m a n e h = (refl, length-read m a n, refl, h)

module _ (m : Mem) (size : ℕ) (s : Stack) (whole : IsWhole s) (more : s.saved ≤ size) where
  -- The chunks of a whole stack that is grown to a larger size lie end to end up to that size.
  pub grown-IsWhole : IsWhole (grown m size s)
  unfolding grown
  grown-IsWhole =
      IsChain-append (near s) (edge s) (near s + size) (s.chunk ∷ s.rest)
        (copy_chunk m (edge s) (size - s.saved)) whole
        (copy_chunk-IsChain m (edge s) (size - s.saved) (near s + size) (omega arith))

  -- A whole stack that is grown from memory gives back, copied into that memory, what it gave
  -- before.
  pub restore-grown : (p : Ptr) → stack_restore (grown m size s) m p ≡ stack_restore s m p
  unfolding grown stack_restore restore_chunks copy_chunk
  restore-grown p = elim (Bool-cases (ltb p (edge s))) [
    | inl e ↦
        restore_chunks-append (s.chunk ∷ s.rest) (copy_chunk m (edge s) (size - s.saved)) m p
        ∙ write_below _ (edge s) _ p (ground arith)
    | inr e ↦
        let out =
          restore_chunks_outside (near s) (edge s) (s.chunk ∷ s.rest) m p whole
            (inr (ground arith)) in
        restore_chunks-append (s.chunk ∷ s.rest) (copy_chunk m (edge s) (size - s.saved)) m p
        ∙ (write_congr _ m (edge s) _ p out
            ∙ (write-read_self m (edge s) (size - s.saved) p ∙ sym out))
  ]

-- The image of a stack at `p` depends on memory at `p` alone, and not even on that where `p` is
-- saved.
pub restore_frame :
    (s : Stack) (m m' : Mem) (p : Ptr)
    → IsWhole s
    → near s ≤ p
    → (p < edge s) ⊎ (m p ≡ m' p)
    → stack_restore s m p ≡ stack_restore s m' p
unfolding stack_restore restore_chunks
restore_frame s m m' p whole lo (inl hi) =
    restore_chunks_inside (near s) (edge s) (s.chunk ∷ s.rest) m m' p whole lo hi
restore_frame s m m' p whole lo (inr e) = restore_chunks_congr (s.chunk ∷ s.rest) m m' p e

-- Copying a whole stack back writes what is saved of it and no byte before or behind.
pub restore_outside :
    (s : Stack) (m : Mem) (p : Ptr)
    → IsWhole s
    → (p < near s) ⊎ (edge s ≤ p)
    → stack_restore s m p ≡ m p
unfolding stack_restore restore_chunks
restore_outside s m p whole out =
    restore_chunks_outside (near s) (edge s) (s.chunk ∷ s.rest) m p whole out
