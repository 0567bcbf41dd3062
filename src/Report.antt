-- ===== src/Report.antt =====
-- tealet_get_stats of src/tealet.c: the counters, and what all saved stacks would take if none
-- were shared (expanded) or saved in part (naive).
use libtealet.Base.{
  ℕ, ◌+◌, ◌≡◌, inl, inr, not, List, [], ◌∷◌, leb, ◌==◌, if◌then◌else◌, arith, Bool-cases, leb→le,
  eq→==,
}
use libtealet.Base.Int.{leb_ℤ, leb_ℤ-sub_ℕ, to_size}
use libtealet.Platform.{Ptr, null, Platform, IsDescending}
use libtealet.Domain.{Domain, Chunk, Stack, Stats}
use libtealet.Stats.{add_size}
use libtealet.Stack.Image.{near, edge, IsChain, IsWhole}

pub record Report : Type 0 where
  pub counters : Stats
  pub stack_bytes_expanded : ℕ
  pub stack_bytes_naive : ℕ

module _ (pf : Platform) where
  unfoldable pub furthest_chunk : List Chunk → Ptr → Ptr
  furthest_chunk [] far = far
  furthest_chunk (c ∷ cs) far =
      let chunk_far = pf.sp_add c.stack_near c.size in
      furthest_chunk cs (if not (leb_ℤ (pf.sp_diff chunk_far far) 0) then chunk_far else far)

  -- For an unbounded stack, the end of what is saved.
  unfoldable pub effective_far : Stack → Ptr
  unfolding furthest_chunk
  effective_far s =
      if s.stack_far == pf.furthest
      then furthest_chunk s.rest (pf.sp_add s.chunk.stack_near s.chunk.size)
      else s.stack_far

  unfoldable pub stack_naive : Stack → ℕ
  unfolding effective_far
  stack_naive s =
      add_size pf.stack_header (to_size (pf.sp_diff (effective_far s) s.chunk.stack_near))

  unfoldable pub chunks_expanded : List Chunk → ℕ → ℕ
  chunks_expanded [] bytes = bytes
  chunks_expanded (c ∷ cs) bytes = chunks_expanded cs (add_size bytes (pf.chunk_header + c.size))

  unfoldable pub stack_expanded : Stack → ℕ
  unfolding chunks_expanded
  stack_expanded s = chunks_expanded s.rest (add_size pf.stack_header s.chunk.size)

  -- The walk along the circular list, from the main tealet on.
  unfoldable pub report_walk : List Ptr → Report → Domain → Report
  unfolding stack_naive stack_expanded
  report_walk [] r d = r
  report_walk (t ∷ ts) r d =
      let p = (d.tealets t).stack in
      report_walk ts
        (if p == null then r else record r {
          stack_bytes_naive = add_size r.stack_bytes_naive (stack_naive (d.stacks p));
          stack_bytes_expanded = add_size r.stack_bytes_expanded (stack_expanded (d.stacks p));
        })
        d

  unfoldable pub get_stats : Domain → Report
  unfolding report_walk
  get_stats d =
      report_walk d.all
        (record { counters = d.stats; stack_bytes_expanded = 0; stack_bytes_naive = 0 }) d

  module _ (law : IsDescending pf) where
    furthest_chunk-IsChain :
        (a e : Ptr) (cs : List Chunk) → IsChain a cs e → furthest_chunk cs a ≡ e
    unfolding furthest_chunk
    furthest_chunk-IsChain a e [] h = h
    furthest_chunk-IsChain a e (c ∷ cs) h =
        let k : (if not (leb (c.stack_near + c.size) (a + 0)) then c.stack_near + c.size else a)
            ≡ a + c.size =
          elim (Bool-cases (leb (c.stack_near + c.size) (a + 0))) [
            | inl l ↦ rw l (ground (arith, h.0, leb→le _ _ l))
            | inr l ↦ rw l (omega (arith, h.0))
          ] in
        rw (law.sp_add_lem, law.sp_diff_lem, leb_ℤ-sub_ℕ, k)
          (furthest_chunk-IsChain (a + c.size) e cs h.3)

    -- On a descending stack: for a whole stack without a boundary of its own, the far end that
    -- tealet_get_stats finds by looking at all chunks is the end of what is saved.
    pub effective_far-edge :
        (s : Stack) → IsWhole s → s.stack_far ≡ pf.furthest → effective_far s ≡ edge s
    unfolding effective_far
    effective_far-edge s whole unbounded =
        rw (eq→== _ _ unbounded, law.sp_add_lem)
          (furthest_chunk-IsChain (near s + s.chunk.size) (edge s) s.rest whole.3)
