-- ===== src/Stack.antt =====
-- The saved stacks of src/tealet.c: tealet_stack_new, _grow, _restore, _dup, _link, _unlink,
-- _decref, _defunct, tealet_chunk_decref and tealet_is_defunct.
pub mod Image
use libtealet.Base.{
  ℕ, suc, ◌+◌, ◌-◌, Bool, true, false, ◌&&◌, not, List, [], ◌∷◌, ◌++◌, ltb, ◌==◌, if◌then◌else◌,
  erase,
}
use libtealet.Platform.{Ptr, null, Platform}
use libtealet.Memory.{Mem, read, write}
use libtealet.Domain.{Chunk, Stack, Domain, Code, done, err_mem, put_stack, put_tealet, freed_stack}
use libtealet.Stats.{add_stack, sub_stack, add_chunk, sub_chunk, malloc}

-- The copies of a chain, one after the other.
unfoldable pub restore_chunks : List Chunk → Mem → Mem
restore_chunks [] m = m
restore_chunks (c ∷ cs) m = restore_chunks cs (write m c.stack_near c.bytes)

unfoldable pub stack_restore : Stack → Mem → Mem
unfolding restore_chunks
stack_restore s m = restore_chunks (s.chunk ∷ s.rest) m

-- A chunk with the `size` bytes of memory from `near` up.
unfoldable pub copy_chunk : Mem → Ptr → ℕ → Chunk
copy_chunk m near size = record {
  refcount = 1;
  stack_near = near;
  size = size;
  bytes = read m near size;
}

unfoldable pub dup_stack : Stack → Stack
dup_stack s = record s { refcount = s.refcount + 1 }

unfoldable pub stack_dup : Ptr → Domain → Domain
unfolding dup_stack
stack_dup p d = put_stack p (dup_stack (d.stacks p)) d

unfoldable pub stack_link : Ptr → Domain → Domain
stack_link p d = record d { prev = p ∷ d.prev }

unfoldable pub stack_unlink : Ptr → Domain → Domain
stack_unlink p d = record d { prev = erase p d.prev }

-- The chunk that `tealet_stack_grow` appends, and the stack with it.
unfoldable pub grown : Mem → ℕ → Stack → Stack
unfolding copy_chunk
grown m size s = record s {
  rest = s.rest ++ copy_chunk m (s.chunk.stack_near + s.saved) (size - s.saved) ∷ [];
  saved = size;
}

unfoldable pub defunct_stack : Stack → Stack
defunct_stack s = record s { is_defunct = true; saved = 0; rest = [] }

module _ (pf : Platform) where
  unfoldable pub stack_new : (near far : Ptr) → ℕ → Domain → Ptr × Domain
  unfolding malloc copy_chunk
  stack_new near far size d0 =
      let tsize = pf.stack_header + size in
      let (p, d) = malloc tsize d0 in
      if p == null then (null, d) else (
        p,
        put_stack p
            (record {
              refcount = 1;
              is_defunct = false;
              stack_far = far;
              saved = size;
              chunk = copy_chunk d.mem near size;
              rest = [];
            })
            (record d { stats = add_stack tsize d.stats }),
      )

  unfoldable pub stack_grow : Ptr → ℕ → Domain → Code × Domain
  unfolding malloc grown
  stack_grow sid size d0 =
      let tsize = pf.chunk_header + (size - (d0.stacks sid).saved) in
      let (p, d) = malloc tsize d0 in
      if p == null then (err_mem, d) else (
        done,
        put_stack sid (grown d.mem size (d.stacks sid))
            (record d { stats = add_chunk tsize d.stats }),
      )

  -- The counting of a chain that is let go. A node that others hold keeps its successors.
  unfoldable pub chunk_decref : List Chunk → Domain → Domain
  chunk_decref [] d = d
  chunk_decref (c ∷ cs) d =
      let rest =
        chunk_decref cs (record d { stats = sub_chunk (pf.chunk_header + c.size) d.stats }) in
      if ltb 1 c.refcount then d else rest

  unfoldable pub stack_decref : Ptr → Domain → Domain
  unfolding chunk_decref stack_unlink
  stack_decref p d =
      let s = d.stacks p in
      let released = chunk_decref s.rest (
        put_stack p freed_stack (record (stack_unlink p d) {
          stats = sub_stack (pf.stack_header + s.chunk.size) d.stats;
        })) in
      if p == null
      then d
      else (if ltb 1 s.refcount
          then put_stack p (record s { refcount = s.refcount - 1 }) d
          else released)

  unfoldable pub stack_defunct : Ptr → Domain → Domain
  unfolding chunk_decref defunct_stack
  stack_defunct p d = let s = d.stacks p in chunk_decref s.rest (put_stack p (defunct_stack s) d)

-- The answer, and the state with the tealet's own flag set where its stack has the mark.
unfoldable pub is_defunct : Ptr → Domain → Bool × Domain
is_defunct p d =
    let t = d.tealets p in
    if t.flags.is_defunct
    then (true, d)
    else (if not (t.stack == null) && (d.stacks t.stack).is_defunct
        then (true, put_tealet p (record t { flags = record (t.flags) { is_defunct = true } }) d)
        else (false, d))
