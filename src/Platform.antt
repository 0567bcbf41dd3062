-- ===== src/Platform.antt =====
-- What the build takes from elsewhere, as one parameter of the model: the pointer macros of the
-- stackman library (STACKMAN_SP_* in stackman/stackman/stackman.h) and the sizes that the
-- compiler gives the structures of src/tealet.c. It models no code of libtealet.
use libtealet.Base.{ℕ, ◌+◌, ◌≡◌, Bool, leb, ltb}
use libtealet.Base.Int.{ℤ, sub_ℕ}

abbrev pub Ptr : Type 0
Ptr = ℕ

abbrev pub null : Ptr
null = 0

pub record Platform : Type 0 where
  pub furthest : Ptr
  pub sp_ls : Ptr → Ptr → Bool
  pub sp_le : Ptr → Ptr → Bool
  pub sp_diff : Ptr → Ptr → ℤ
  pub sp_add : Ptr → ℕ → Ptr
  -- offsetof(tealet_stack_t, chunk.data[0]) and offsetof(tealet_chunk_t, data[0])
  pub stack_header : ℕ
  pub chunk_header : ℕ
  -- offsetof(tealet_main_t, _extra) and offsetof(tealet_nonmain_t, _extra)
  pub main_header : ℕ
  pub tealet_header : ℕ
  -- sysconf(_SC_PAGESIZE)
  pub sysconf_pagesize : ℤ

-- What stackman documents of its macros on a descending stack: positions compare as addresses
-- do, and a distance is the difference of the addresses. (In C it is a ptrdiff_t: it holds so for
-- addresses of one stack, not for STACKMAN_SP_FURTHEST, to which the code asserts that it never
-- measures.)
pub record IsDescending (pf : Platform) : Type 0 where
  pub sp_ls_lem : (a b : Ptr) → pf.sp_ls a b ≡ ltb a b
  pub sp_le_lem : (a b : Ptr) → pf.sp_le a b ≡ leb a b
  pub sp_diff_lem : (a b : Ptr) → pf.sp_diff a b ≡ sub_ℕ a b
  pub sp_add_lem : (a : Ptr) (n : ℕ) → pf.sp_add a n ≡ a + n
