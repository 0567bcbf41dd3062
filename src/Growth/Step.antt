-- ===== src/Growth/Step.antt =====
-- What tealet_stack_growto does to one stack, on each of its branches.
use libtealet.Base.{
  ℕ, ◌+◌, ◌-◌, ◌≤◌, ◌<◌, ◌≡◌, ◌≢◌, ◌⊎◌, refl, Bool, true, false, List, [], ◌∷◌, ltb, leb, ◌==◌,
  arith, Within, inl, inr, Bool-cases, ==→eq, ==→ne, leb→le, le→leb, lt→leb,
}
use libtealet.Base.Int.{leb_ℤ-sub_ℕ, to_size-sub_ℕ}
use libtealet.Platform.{Ptr, Platform, IsDescending, null}
use libtealet.Domain.{Domain, Chunk, Stack, Stats, Code, done, err_mem, put_stack}
use libtealet.Stack.{stack_grow, stack_defunct, chunk_decref, grown, defunct_stack}
use libtealet.Stack.Image.{near, edge, grown-IsWhole, restore-grown}
use libtealet.Memory.{Mem}
use libtealet.Stats.{sub_chunk, add_chunk, malloc, malloc-Within}
use libtealet.Growth.{stack_growto, grow_failed, grow_to_stop}
use libtealet.Growth.Bands.{Grew}

-- The allocator was called, and the counters moved.
abbrev pub charge : List Ptr → Stats → Domain → Domain
charge answers stats d = record d { answers = answers; stats = stats }

pub data Growto (sid stop : Ptr) (full fail_ok : Bool) (d : Domain) (r : Code × Bool × Domain)
    : Type 0 where
  kept : r ≡ (done, full, d) → stop ≤ edge (d.stacks sid) → Growto sid stop full fail_ok d r
  grew :
      (answers : List Ptr) (stats : Stats) (s : Stack)
      → r ≡ (done, full, put_stack sid s (charge answers stats d))
      → Within answers d.answers
      → Grew d.mem (d.stacks sid) s
      → edge s ≡ stop
      → Growto sid stop full fail_ok d r
  failed :
      (answers : List Ptr)
      → r ≡ (err_mem, full, charge answers d.stats d)
      → Within answers d.answers
      → (fail_ok ≡ true) ⊎ (sid ≡ (d.tealets d.main).stack)
      → Growto sid stop full fail_ok d r
  gave_up :
      (answers : List Ptr) (stats : Stats)
      → r ≡ (done, true, put_stack sid (defunct_stack (d.stacks sid)) (charge answers stats d))
      → Within answers d.answers
      → fail_ok ≡ false
      → sid ≢ (d.tealets d.main).stack
      → Growto sid stop full fail_ok d r

-- Letting go of a chain moves counters and nothing else.
pub chunk_decref-stats :
    (pf : Platform) (cs : List Chunk) (d : Domain)
    → (stats : Stats) × (chunk_decref pf cs d ≡ record d { stats = stats })
unfolding chunk_decref
chunk_decref-stats pf [] d = (d.stats, refl)
chunk_decref-stats pf (c ∷ cs) d =
    let (stats, e) =
      chunk_decref-stats pf cs
        (record d { stats = sub_chunk (pf.chunk_header + c.size) d.stats }) in
    elim (Bool-cases (ltb 1 c.refcount)) [ inl t ↦ (d.stats, rw t) | inr t ↦ (stats, rw t e) ]

pub Grew-grown :
    (m : Mem) (size : ℕ) (s : Stack)
    → s.saved ≤ size
    → near s + size ≤ s.stack_far
    → Grew m s (grown m size s)
unfolding grown
Grew-grown m size s h far = record {
  same_near = refl;
  same_far = refl;
  same_count = refl;
  same_mark = refl;
  more = omega arith;
  within = λ _. far;
  whole = λ w. grown-IsWhole m size s w h;
  image = λ w p. restore-grown m size s w h p;
}

edge-grown :
    (m : Mem) (stop : Ptr) (s : Stack) → near s ≤ stop → edge (grown m (stop - near s) s) ≡ stop
unfolding grown
edge-grown m stop s h = omega arith

-- Either there is no memory, or a chunk is appended.
stack_grow-cases :
    (pf : Platform) (sid : Ptr) (size : ℕ) (d : Domain)
    → (answers : List Ptr) × (stats : Stats) × Within answers d.answers
      × ((stack_grow pf sid size d ≡ (err_mem, charge answers d.stats d))
          ⊎ (stack_grow pf sid size d
              ≡ (done, put_stack sid (grown d.mem size (d.stacks sid)) (charge answers stats d))))
unfolding stack_grow
stack_grow-cases pf sid size d = elim (Bool-cases ((malloc 0 d).0 == null)) [
  | inl e ↦ ((malloc 0 d).1.answers, d.stats, malloc-Within 0 d, inl (rw e))
  | inr e ↦ (
    (malloc 0 d).1.answers,
    add_chunk (pf.chunk_header + (size - (d.stacks sid).saved)) d.stats,
    malloc-Within 0 d,
    inr (rw e),
  )
]

grow_failed-Growto :
    (pf : Platform) (sid stop : Ptr) (full fail_ok : Bool) (answers : List Ptr) (d : Domain)
    → Within answers d.answers
    → Growto sid stop full fail_ok d (grow_failed pf sid full fail_ok (charge answers d.stats d))
unfolding grow_failed stack_defunct
grow_failed-Growto pf sid stop full true answers d w = failed answers refl w (inl refl)
grow_failed-Growto pf sid stop full false answers d w =
    elim (Bool-cases (sid == (d.tealets d.main).stack)) [
      | inl e ↦ rw e (failed answers refl w (inr (==→eq _ _ e)))
      | inr e ↦
          let (stats, f) =
            chunk_decref-stats pf (d.stacks sid).rest
              (put_stack sid (defunct_stack (d.stacks sid)) (charge answers d.stats d)) in
          rw e (gave_up answers stats (rw f) w refl (==→ne _ _ e))
    ]

module _ (pf : Platform) (law : IsDescending pf) where
  grow_to_stop-Growto :
      (sid stop : Ptr) (full fail_ok : Bool) (d : Domain)
      → stop ≤ (d.stacks sid).stack_far
      → Growto sid stop full fail_ok d (grow_to_stop pf sid stop full fail_ok d)
  unfolding grow_to_stop
  grow_to_stop-Growto sid stop full fail_ok d far =
      let s = d.stacks sid in
      rw (law.sp_diff_lem, leb_ℤ-sub_ℕ)
        (elim (Bool-cases (leb stop (edge s))) [
          | inl e ↦ rw e (kept refl (leb→le _ _ e))
          | inr e ↦
              let below : near s ≤ stop = ground arith in
              let (answers, stats, w, r) = stack_grow-cases pf sid (stop - near s) d in
              rw (e, to_size-sub_ℕ stop (near s) below)
                (elim r [
                  | inl f ↦ rw f (grow_failed-Growto pf sid stop full fail_ok answers d w)
                  | inr f ↦ rw f (
                      grew answers stats _ refl w
                        (Grew-grown d.mem (stop - near s) s (ground arith) (omega arith))
                        (edge-grown d.mem stop s below))
                ])
        ])

  -- The boundary is cut to the stack's own far end.
  pub stack_growto-truncate :
      (sid saveto : Ptr) (fail_ok : Bool) (d : Domain)
      → (d.stacks sid).stack_far ≤ saveto
      → Growto sid (d.stacks sid).stack_far true fail_ok d (stack_growto pf sid saveto fail_ok d)
  unfolding stack_growto
  stack_growto-truncate sid saveto fail_ok d h =
      rw (law.sp_le_lem, le→leb _ _ h)
        (grow_to_stop-Growto sid (d.stacks sid).stack_far true fail_ok d (omega arith))

  -- tealet_stack_growto of a stack with a far boundary of its own, not STACKMAN_SP_FURTHEST,
  -- that ends no farther than `saveto`: it is saved up to its far end with the same image, or
  -- fails with TEALET_ERR_MEM (not forced, or the main tealet's stack), or is given up
  -- (forced, and not the main tealet's).
  pub stack_growto-full :
      (sid saveto : Ptr) (fail_ok : Bool) (d : Domain)
      → (d.stacks sid).stack_far ≢ pf.furthest
      → (d.stacks sid).stack_far ≤ saveto
      → Growto sid (d.stacks sid).stack_far true fail_ok d (stack_growto pf sid saveto fail_ok d)
  stack_growto-full sid saveto fail_ok d _ h = stack_growto-truncate sid saveto fail_ok d h

  -- tealet_stack_growto where the stack goes on beyond `saveto`: it is saved up to `saveto`
  -- with the same image, or was already, or fails with TEALET_ERR_MEM (not forced, or the main
  -- tealet's stack), or is given up (forced, and not the main tealet's).
  pub stack_growto-partial :
      (sid saveto : Ptr) (fail_ok : Bool) (d : Domain)
      → saveto < (d.stacks sid).stack_far
      → Growto sid saveto false fail_ok d (stack_growto pf sid saveto fail_ok d)
  unfolding stack_growto
  stack_growto-partial sid saveto fail_ok d h =
      rw (law.sp_le_lem, lt→leb _ _ h)
        (grow_to_stop-Growto sid saveto false fail_ok d (omega arith))

  -- A stack that is saved as far as asked is left alone.
  pub stack_growto-kept :
      (sid saveto : Ptr) (fail_ok : Bool) (d : Domain)
      → saveto ≤ edge (d.stacks sid)
      → saveto < (d.stacks sid).stack_far
      → stack_growto pf sid saveto fail_ok d ≡ (done, false, d)
  unfolding stack_growto grow_to_stop
  stack_growto-kept sid saveto fail_ok d h k =
      rw (law.sp_le_lem, lt→leb _ _ k, law.sp_diff_lem, leb_ℤ-sub_ℕ, le→leb _ _ h)
