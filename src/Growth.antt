-- ===== src/Growth.antt =====
-- Saving and growing on demand: tealet_stack_saveto, tealet_stack_growto and
-- tealet_stack_grow_list of src/tealet.c.
pub mod Bands
pub mod Step
pub mod New
pub mod Walked
pub mod Walk
use libtealet.Base.{ℕ, Bool, true, false, List, [], ◌∷◌, ltb, ◌==◌, if◌then◌else◌}
use libtealet.Base.Int.{leb_ℤ, to_size, clamp_size}
use libtealet.Platform.{Ptr, Platform}
use libtealet.Domain.{Domain, Code, done, err_mem, is_error}
use libtealet.Stack.{stack_new, stack_grow, stack_defunct, stack_unlink}

module _ (pf : Platform) where
  -- The boundary, cut to the stack's own far end, and whether it was.
  unfoldable pub truncate : (far saveto : Ptr) → Ptr × Bool
  truncate far saveto = if pf.sp_le far saveto then (far, true) else (saveto, false)

  -- The new stack (NULL if there is no memory), whether it is saved in full, and the state.
  unfoldable pub stack_saveto : (near far saveto : Ptr) → Domain → Ptr × Bool × Domain
  unfolding truncate
  stack_saveto near far saveto d =
      let (stop, full) = truncate far saveto in
      let (p, d') = stack_new pf near far (clamp_size (pf.sp_diff stop near)) d in (p, full, d')

  -- What follows a failure of `tealet_stack_grow`.
  unfoldable pub grow_failed : Ptr → (full fail_ok : Bool) → Domain → Code × Bool × Domain
  grow_failed sid full fail_ok d =
      if fail_ok
      then (err_mem, full, d)
      else (if sid == (d.tealets d.main).stack
          then (err_mem, full, d)
          else (done, true, stack_defunct pf sid d))

  -- The saving up to `stop`, once the boundary is cut.
  unfoldable pub grow_to_stop :
      Ptr → (stop : Ptr) → (full fail_ok : Bool) → Domain → Code × Bool × Domain
  grow_to_stop sid stop full fail_ok d =
      let s = d.stacks sid in
      let size = pf.sp_diff stop s.chunk.stack_near in
      let (fail, d') = stack_grow pf sid (to_size size) d in
      if leb_ℤ size s.saved
      then (done, full, d)
      else (if is_error fail then grow_failed sid full fail_ok d' else (done, full, d'))

  -- The result, whether the stack is done with (saved in full, or defunct), and the state.
  unfoldable pub stack_growto :
      Ptr → (saveto : Ptr) → (fail_ok : Bool) → Domain → Code × Bool × Domain
  unfolding truncate
  stack_growto sid saveto fail_ok d =
      let (stop, full) = truncate (d.stacks sid).stack_far saveto in
      grow_to_stop sid stop full fail_ok d

  -- The stack that is switched to, met in the list: it is saved only if it is shared.
  unfoldable pub grow_target : Ptr → (saveto : Ptr) → (fail_ok : Bool) → Domain → Code × Domain
  grow_target sid saveto fail_ok d =
      if ltb 1 (d.stacks sid).refcount
      then (let (fail, full, d') = stack_growto sid saveto fail_ok d in
          if is_error fail then (fail, d') else (done, stack_unlink sid d'))
      else (done, stack_unlink sid d)

  -- The walk reads `next` of a stack also after it was unlinked, and so sees the list as it was.
  unfoldable pub stack_grow_list :
      List Ptr → (saveto target : Ptr) → (fail_ok : Bool) → Domain → Code × Domain
  stack_grow_list [] saveto target fail_ok d = (done, d)
  stack_grow_list (sid ∷ list) saveto target fail_ok d =
      let (fail, full, d') = stack_growto sid saveto fail_ok d in
      let rest =
        stack_grow_list list saveto target fail_ok (if full then stack_unlink sid d' else d') in
      if sid == target
      then grow_target sid saveto fail_ok d
      else (if is_error fail then (fail, d') else rest)
