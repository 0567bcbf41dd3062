-- ===== src/Stats.antt =====
-- The statistics of src/tealet.c (STATS_ADD_ALLOC and STATS_SUB_ALLOC, the counting of stacks and
-- chunks) and the calls of the caller's allocator. Arithmetic on size_t wraps at 2^64; the two counters of tealets are ints.
use libtealet.Base.{
  ℕ, ◌≡◌, ◌≢◌, refl, true, has, Within, arith, ◌+◌, ◌-◌, ◌%◌, ◌^◌, List, [], ◌∷◌, ltb,
  if◌then◌else◌,
}
use libtealet.Platform.{Ptr, null}
use libtealet.Domain.{Domain, Stats}

abbrev pub add_size : ℕ → ℕ → ℕ
add_size a b = (a + b) % 2 ^ 64

abbrev pub sub_size : ℕ → ℕ → ℕ
sub_size a b = (a + 2 ^ 64 - b % 2 ^ 64) % 2 ^ 64

-- An int, in two's complement.
abbrev pub add_int : ℕ → ℕ → ℕ
add_int a b = (a + b) % 2 ^ 32

abbrev pub sub_int : ℕ → ℕ → ℕ
sub_int a b = (a + 2 ^ 32 - b % 2 ^ 32) % 2 ^ 32

unfoldable pub add_alloc : ℕ → Stats → Stats
add_alloc size s =
    let bytes = add_size s.bytes_allocated size in
    let blocks = add_size s.blocks_allocated 1 in
    record s {
      bytes_allocated = bytes;
      blocks_allocated = blocks;
      blocks_allocated_total = add_size s.blocks_allocated_total 1;
      bytes_allocated_peak =
          if ltb s.bytes_allocated_peak bytes then bytes else s.bytes_allocated_peak;
      blocks_allocated_peak =
          if ltb s.blocks_allocated_peak blocks then blocks else s.blocks_allocated_peak;
    }

unfoldable pub sub_alloc : ℕ → Stats → Stats
sub_alloc size s = record s {
  bytes_allocated = sub_size s.bytes_allocated size;
  blocks_allocated = sub_size s.blocks_allocated 1;
}

-- A stack with its first chunk.
unfoldable pub add_stack : ℕ → Stats → Stats
unfolding add_alloc
add_stack tsize s0 =
    let s = add_alloc tsize s0 in
    record s {
      stack_count = add_size s.stack_count 1;
      stack_chunk_count = add_size s.stack_chunk_count 1;
      stack_bytes = add_size s.stack_bytes tsize;
    }

unfoldable pub sub_stack : ℕ → Stats → Stats
unfolding sub_alloc
sub_stack tsize s0 =
    let s = sub_alloc tsize s0 in
    record s {
      stack_count = sub_size s.stack_count 1;
      stack_chunk_count = sub_size s.stack_chunk_count 1;
      stack_bytes = sub_size s.stack_bytes tsize;
    }

-- A further chunk.
unfoldable pub add_chunk : ℕ → Stats → Stats
unfolding add_alloc
add_chunk tsize s0 =
    let s = add_alloc tsize s0 in
    record s {
      stack_chunk_count = add_size s.stack_chunk_count 1;
      stack_bytes = add_size s.stack_bytes tsize;
    }

unfoldable pub sub_chunk : ℕ → Stats → Stats
unfolding sub_alloc
sub_chunk tsize s0 =
    let s = sub_alloc tsize s0 in
    record s {
      stack_chunk_count = sub_size s.stack_chunk_count 1;
      stack_bytes = sub_size s.stack_bytes tsize;
    }

abbrev first_answer : List Ptr → Ptr
first_answer [] = null
first_answer (p ∷ answers) = p

abbrev other_answers : List Ptr → List Ptr
other_answers [] = []
other_answers (p ∷ answers) = answers

-- tealet_int_malloc: the next answer of the caller's allocator; with none left it fails.
unfoldable pub malloc : ℕ → Domain → Ptr × Domain
malloc size d = (first_answer d.answers, record d { answers = other_answers d.answers })

pub malloc-Within : (size : ℕ) (d : Domain) → Within (malloc size d).1.answers d.answers
unfolding malloc
malloc-Within size d = other_answers-Within d.answers
  where
    other_answers-Within : (answers : List Ptr) → Within (other_answers answers) answers
    other_answers-Within [] a h = h
    other_answers-Within (p ∷ answers) a h = ground arith

-- A block that the allocator hands out is one of its answers.
pub malloc-has :
    (size : ℕ) (d : Domain) → (malloc size d).0 ≢ null → has (malloc size d).0 d.answers ≡ true
unfolding malloc
malloc-has size d = first_answer-has d.answers
  where
    first_answer-has :
        (answers : List Ptr)
        → first_answer answers ≢ null
        → has (first_answer answers) answers ≡ true
    first_answer-has [] h = absurd (h refl)
    first_answer-has (p ∷ answers) h = ground arith
