-- ===== src/Growth/New.antt =====
-- What tealet_stack_saveto gives: the first slice of the stack of the tealet that is leaving.
use libtealet.Base.{
  ℕ, ◌+◌, ◌-◌, ◌≤◌, ◌<◌, ◌≡◌, ◌≢◌, refl, inl, inr, Bool, true, false, List, [], ◌==◌, has,
  Bool-cases, ==→ne, lt→leb, le→leb,
}
use libtealet.Base.Int.{clamp_size, clamp_size-sub_ℕ}
use libtealet.Platform.{Ptr, null, Platform, IsDescending}
use libtealet.Memory.{Mem, write-read_self}
use libtealet.Domain.{Domain, Stack, Stats, put_stack}
use libtealet.Stats.{malloc, malloc-has, add_stack}
use libtealet.Stack.{copy_chunk, stack_new, stack_restore, restore_chunks}
use libtealet.Stack.Image.{near, IsWhole, copy_chunk-IsChain}
use libtealet.Growth.{stack_saveto}
use libtealet.Growth.Step.{charge}

abbrev pub first_slice : Mem → (near far : Ptr) → ℕ → Stack
first_slice m near far size = record {
  refcount = 1;
  is_defunct = false;
  stack_far = far;
  saved = size;
  chunk = copy_chunk m near size;
  rest = [];
}

-- No memory, or a new stack that is saved to `stop` (if that is not behind `near`).
pub data Saveto (near far stop : Ptr) (full : Bool) (d : Domain) (r : Ptr × Bool × Domain)
    : Type 0 where
  no_memory :
      (answers : List Ptr)
      → r ≡ (null, full, charge answers d.stats d)
      → Saveto near far stop full d r
  slice :
      (p : Ptr) (answers : List Ptr) (stats : Stats)
      → r
        ≡ (p, full, put_stack p (first_slice d.mem near far (stop - near)) (charge answers stats d))
      → p ≢ null
      → has p d.answers ≡ true
      → Saveto near far stop full d r

module _ (pf : Platform) (law : IsDescending pf) where
  Saveto-stop :
      (near far stop : Ptr) (full : Bool) (d : Domain)
      → Saveto near far stop full d (
          let (p, d') = stack_new pf near far (clamp_size (pf.sp_diff stop near)) d in
          (p, full, d'))
  unfolding stack_new
  Saveto-stop near far stop full d =
      rw (law.sp_diff_lem, clamp_size-sub_ℕ)
        (elim (Bool-cases ((malloc 0 d).0 == null)) [
          | inl e ↦ rw e (no_memory (malloc 0 d).1.answers refl)
          | inr e ↦ rw e (
              slice (malloc 0 d).0 (malloc 0 d).1.answers
                (add_stack (pf.stack_header + (stop - near)) d.stats) refl (==→ne _ _ e)
                (malloc-has 0 d (==→ne _ _ e)))
        ])

  pub stack_saveto-full :
      (near far saveto : Ptr) (d : Domain)
      → far ≤ saveto
      → Saveto near far far true d (stack_saveto pf near far saveto d)
  unfolding stack_saveto
  stack_saveto-full near far saveto d h =
      rw (law.sp_le_lem, le→leb _ _ h) (Saveto-stop near far far true d)

  pub stack_saveto-partial :
      (near far saveto : Ptr) (d : Domain)
      → saveto < far
      → Saveto near far saveto false d (stack_saveto pf near far saveto d)
  unfolding stack_saveto
  stack_saveto-partial near far saveto d h =
      rw (law.sp_le_lem, lt→leb _ _ h) (Saveto-stop near far saveto false d)

-- A first slice is whole, and where it is copied back it gives the bytes that it was taken of.
pub first_slice-IsWhole : (m : Mem) (a far : Ptr) (size : ℕ) → IsWhole (first_slice m a far size)
unfolding copy_chunk
first_slice-IsWhole m a far size = copy_chunk-IsChain m a size (a + size) refl

pub near-first_slice : (m : Mem) (a far : Ptr) (size : ℕ) → near (first_slice m a far size) ≡ a
unfolding copy_chunk
near-first_slice m a far size = refl

-- A first slice that is copied back into the memory it was taken from changes nothing.
pub restore-first_slice :
    (m : Mem) (a far : Ptr) (size : ℕ) (p : Ptr)
    → stack_restore (first_slice m a far size) m p ≡ m p
unfolding stack_restore restore_chunks copy_chunk
restore-first_slice m a far size p = write-read_self m a size p
