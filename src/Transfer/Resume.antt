-- ===== src/Transfer/Resume.antt =====
-- The target is copied back: what tealet_restore_state does to memory, to the invariant and to
-- what every other tealet will find on its stack.
use mathlib.Core.Bool.{false≢true}
use libtealet.Base.{
  ℕ, ◌+◌, ◌-◌, ◌≤◌, ◌<◌, ◌≡◌, ◌≢◌, refl, sym, subst, ◌∙◌, ◌⊎◌, inl, inr, false, List, [], ◌∷◌, ltb,
  ◌==◌, has, has-ne, erase, arith, Bool-cases, ==→eq, ==→ne, eq→==, ne→==, ltb→lt,
}
use libtealet.Platform.{Ptr, null, Platform}
use libtealet.Memory.{Mem}
use libtealet.Domain.{fixed, Domain, Stack, Stats, put_stack, put_tealet, update, freed_stack}
use libtealet.Stats.{sub_stack}
use libtealet.Stack.{stack_restore, stack_decref, stack_unlink}
use libtealet.Stack.Image.{near, edge, restore_frame, restore_outside}
use libtealet.Growth.Bands.{Bands-has, Bands_congr}
use libtealet.Growth.Step.{chunk_decref-stats}
use libtealet.Transfer.{restore_state}
use libtealet.Transfer.Invariant.{IsLive, Sliced, Nobody, Leaving, SameView}

erase-absent : (a : ℕ) (xs : List ℕ) → has a xs ≡ false → erase a xs ≡ xs
erase-absent a [] h = refl
erase-absent a (x ∷ xs) h = elim (Bool-cases (x == a)) [
  | inl e ↦ absurd (false≢true (sym h ∙ rw (eq→== a x (sym (==→eq x a e))) refl))
  | inr e ↦ rw (e, erase-absent a xs (ground arith))
]

-- One holder less.
abbrev pub released : Stack → Stack
released s = record s { refcount = s.refcount - 1 }

-- A stack that is held by several goes on with one holder less; the last one frees it.
stack_decref-cases :
    (pf : Platform) (p : Ptr) (d : Domain)
    → p ≢ null
    → has p d.prev ≡ false
    → ((1 < (d.stacks p).refcount) × (stack_decref pf p d ≡ put_stack p (released (d.stacks p)) d))
      ⊎ (((d.stacks p).refcount ≤ 1)
          × (stats : Stats) × (stack_decref pf p d
              ≡ put_stack p freed_stack (record d { stats = stats })))
unfolding stack_decref stack_unlink
stack_decref-cases pf p d ne out = elim (Bool-cases (ltb 1 (d.stacks p).refcount)) [
  | inl e ↦ inl (ltb→lt _ _ e, rw (ne→== p null ne, e))
  | inr e ↦
      let (stats, q) = chunk_decref-stats pf (d.stacks p).rest (
        put_stack p freed_stack (record (stack_unlink p d) {
          stats = sub_stack (pf.stack_header + (d.stacks p).chunk.size) d.stats;
        })) in
      inr (ground arith, stats, rw (ne→== p null ne, e, q, erase-absent p d.prev out))
]

module _ (d : Domain) (q stop : Ptr) (sliced : Sliced stop (Leaving q) d)
    (at : (d.tealets d.target).stack ≡ q) (ne : q ≢ null) (ends : (d.stacks q).stack_far ≡ stop)
    (live : IsLive (d.stacks q))
    (sole : (t : Ptr) → t ≢ d.target → (d.tealets t).stack ≡ q → 1 < (d.stacks q).refcount) where
  abbrev restored : Mem
  restored = stack_restore (d.stacks q) d.mem

  q_out : has q d.prev ≡ false
  q_out = elim (Bool-cases (has q d.prev)) [
    | inl e ↦ absurd {A = _} (omega (arith, Bands-has d.stacks stop d.prev q sliced.bands e))
    | inr e ↦ e
  ]

  -- No byte of another stack that is still unsaved is written.
  pub untouched :
      (j p : Ptr)
      → IsLive (d.stacks j)
      → (j ≡ q → 1 < (d.stacks q).refcount)
      → near (d.stacks j) ≤ p
      → p < (d.stacks j).stack_far
      → stack_restore (d.stacks j) restored p ≡ stack_restore (d.stacks j) d.mem p
  untouched j p l shared lo hi =
      restore_frame (d.stacks j) restored d.mem p (sliced.whole j l) lo
        (elim (Bool-cases (has j d.prev)) [
          | inl e ↦ elim (Bool-cases (ltb p (edge (d.stacks j)))) [
            | inl s ↦ inl (ltb→lt _ _ s)
            | inr s ↦
                let b = Bands-has d.stacks stop d.prev j sliced.bands e in
                let w = sliced.within q live in
                inr (
                  restore_outside (d.stacks q) d.mem p (sliced.whole q live)
                    (inr (ground (arith, b, w))))
          ]
          | inr e ↦ elim (sliced.full j l e) [
            | inl (i, c) ↦
                let c' : (d.stacks q).refcount ≤ 1 = subst (λ i. (d.stacks i).refcount ≤ 1) i c in
                absurd {A = _} (omega (arith, shared i))
            | inr f ↦ inl (omega arith)
          ]
        ])

  module _ (s : Stack) (stats : Stats)
      (kept : ((s ≡ released (d.stacks q)) × (1 < (d.stacks q).refcount))
        ⊎ ((s ≡ freed_stack) × ((d.stacks q).refcount ≤ 1))) where
    abbrev resumed : Domain
    resumed =
        put_tealet d.target (record (d.tealets d.target) { stack = null })
          (put_stack q s (record d { mem = restored; stats = stats }))

    resumed-Sliced : Sliced stop Nobody resumed
    resumed-Sliced = record {
      bands =
          Bands_congr d.stacks (update d.stacks q s) stop d.prev
            (λ k m. rw (has-ne q k d.prev q_out m)) sliced.bands;
      no_null = sliced.no_null;
      linked = λ j h. rw (has-ne q j d.prev q_out h) (sliced.linked j h);
      whole = λ j l. elim (Bool-cases (j == q)) [
        | inl e ↦ elim kept [
          | inl (r, c) ↦ rw (e, r) (sliced.whole q live)
          | inr (r, c) ↦ absurd {A = _} (omega (arith, rw (e, r) at l))
        ]
        | inr e ↦ rw e (sliced.whole j (rw e at l))
      ];
      full = λ j l o. elim (Bool-cases (j == q)) [
        | inl e ↦ elim kept [
          | inl (r, c) ↦ elim (sliced.full q live q_out) [
            | inl x ↦ absurd {A = _} (omega (arith, x.1))
            | inr f ↦ rw (e, r) (inr f)
          ]
          | inr (r, c) ↦ absurd {A = _} (omega (arith, rw (e, r) at l))
        ]
        | inr e ↦ elim (sliced.full j (rw e at l) o) [
          | inl x ↦ absurd (==→ne j q e x.0)
          | inr f ↦ rw e (inr f)
        ]
      ];
      within = λ j l. elim (Bool-cases (j == q)) [
        | inl e ↦ elim kept [
          | inl (r, c) ↦ rw (e, r) (sliced.within q live)
          | inr (r, c) ↦ absurd {A = _} (omega (arith, rw (e, r) at l))
        ]
        | inr e ↦ rw e (sliced.within j (rw e at l))
      ];
      owned = λ t h. elim (Bool-cases (t == d.target)) [
        | inl e ↦ absurd (rw e at h refl)
        | inr e ↦
            let o = sliced.owned t (rw e at h) in
            elim (Bool-cases ((d.tealets t).stack == q)) [
              | inl i ↦
                  let i' : (d.tealets t).stack ≡ q = ==→eq _ q i in
                  let f : (d.stacks q).stack_far ≡ (d.tealets t).stack_far =
                    subst (λ k. (d.stacks k).stack_far ≡ (d.tealets t).stack_far) i' o.1 in
                  elim kept [
                    | inl (r, c) ↦ rw (e, i, r) (omega arith, f)
                    | inr (r, c) ↦ absurd {A = _} (omega (arith, sole t (==→ne t d.target e) i'))
                  ]
              | inr i ↦ rw (e, i) o
            ]
      ];
    }

    pub resumed-view :
        (j p : Ptr)
        → IsLive (d.stacks j)
        → (j ≡ q → 1 < (d.stacks q).refcount)
        → near (d.stacks j) ≤ p
        → p < (d.stacks j).stack_far
        → stack_restore (resumed.stacks j) resumed.mem p ≡ stack_restore (d.stacks j) d.mem p
    unfolding stack_restore
    resumed-view j p l shared lo hi = elim (Bool-cases (j == q)) [
      | inl e ↦ elim kept [
        | inl (r, c) ↦
            rw (e, r)
              (subst
                (λ i. stack_restore (d.stacks i) restored p ≡ stack_restore (d.stacks j) d.mem p)
                (==→eq j q e) (untouched j p l shared lo hi))
        | inr (r, c) ↦ absurd {A = _} (omega (arith, shared (==→eq j q e)))
      ]
      | inr e ↦ rw e (untouched j p l shared lo hi)
    ]

    resumed-SameView :
        (j : Ptr)
        → IsLive (d.stacks j)
        → (j ≡ q → 1 < (d.stacks q).refcount)
        → SameView d.mem resumed.mem (d.stacks j) (resumed.stacks j)
    resumed-SameView j l shared = record {
      same_near = same.0;
      same_far = same.1;
      view = λ p lo hi. resumed-view j p l shared lo hi;
    }
      where
        same :
            (near (resumed.stacks j) ≡ near (d.stacks j))
            × ((resumed.stacks j).stack_far ≡ (d.stacks j).stack_far)
        same = elim (Bool-cases (j == q)) [
          | inl e ↦ elim kept [
            | inl (r, c) ↦ rw (e, r, ==→eq j q e) (refl, refl)
            | inr (r, c) ↦ absurd {A = _} (omega (arith, shared (==→eq j q e)))
          ]
          | inr e ↦ rw e (refl, refl)
        ]

-- What tealet_restore_state leaves.
pub record Restored (d : Domain) (q stop : Ptr) (d' : Domain) : Type 0 where
  pub mem : d'.mem ≡ stack_restore (d.stacks q) d.mem
  pub sliced : Sliced stop Nobody d'
  pub views :
      (j : Ptr)
      → IsLive (d.stacks j)
      → (j ≡ q → 1 < (d.stacks q).refcount)
      → SameView d.mem d'.mem (d.stacks j) (d'.stacks j)
  pub others : (j : Ptr) → j ≢ q → d'.stacks j ≡ d.stacks j
  pub same_fixed : fixed d' ≡ fixed d
  pub count : (d'.stacks q).refcount ≡ (d.stacks q).refcount - 1
  pub mark : 1 < (d.stacks q).refcount → (d'.stacks q).is_defunct ≡ (d.stacks q).is_defunct
  pub same_far : (d'.tealets d.target).stack_far ≡ (d.tealets d.target).stack_far
  pub same_flags : (d'.tealets d.target).flags ≡ (d.tealets d.target).flags
  pub taken : (d'.tealets d.target).stack ≡ null
  pub same_tealet : (t : Ptr) → t ≢ d.target → d'.tealets t ≡ d.tealets t
  pub rest_of : (d'.sp ≡ d.sp) × (d'.current ≡ d.current) × (d'.target ≡ d.target) × (d'.sw ≡ d.sw)

module _ (pf : Platform) (d : Domain) (q stop : Ptr) (sliced : Sliced stop (Leaving q) d)
    (at : (d.tealets d.target).stack ≡ q) (ne : q ≢ null) (ends : (d.stacks q).stack_far ≡ stop)
    (live : IsLive (d.stacks q))
    (sole : (t : Ptr) → t ≢ d.target → (d.tealets t).stack ≡ q → 1 < (d.stacks q).refcount) where
  resumed-Restored :
      (s : Stack) (stats : Stats)
      (kept : ((s ≡ released (d.stacks q)) × (1 < (d.stacks q).refcount))
        ⊎ ((s ≡ freed_stack) × ((d.stacks q).refcount ≤ 1)))
      → Restored d q stop (resumed d q stop sliced at ne ends live sole s stats kept)
  resumed-Restored s stats kept = record {
    mem = refl;
    sliced = resumed-Sliced d q stop sliced at ne ends live sole s stats kept;
    views = λ j l sh. resumed-SameView d q stop sliced at ne ends live sole s stats kept j l sh;
    others = λ j n. rw (ne→== j q n);
    same_fixed = refl;
    count = elim kept [
      | inl (r, c) ↦ rw (eq→== q q refl, r)
      | inr (r, c) ↦ rw (eq→== q q refl, r) (omega arith)
    ];
    mark = λ more. elim kept [
      | inl (r, c) ↦ rw (eq→== q q refl, r) refl
      | inr (r, c) ↦ absurd {A = _} (omega arith)
    ];
    same_far = rw (eq→== d.target d.target refl);
    same_flags = rw (eq→== d.target d.target refl);
    taken = rw (eq→== d.target d.target refl);
    same_tealet = λ t n. rw (ne→== t d.target n);
    rest_of = (refl, refl, refl, refl);
  }

  -- tealet_restore_state, of a target whose stack ends at `stop`, when all other stacks are
  -- saved up to there: memory becomes the image of the target's stack, every other stack in
  -- use (and the target's own, if it is shared) still holds the bytes it held, the target no
  -- longer has a stack, and the invariant holds with `stop` as the boundary.
  pub restore_state-Restored : Restored d q stop (restore_state pf d)
  unfolding restore_state
  restore_state-Restored =
      elim (stack_decref-cases pf q (record d { mem = stack_restore (d.stacks q) d.mem }) ne
        (q_out d q stop sliced at ne ends live sole)) [
          | inl (c, e) ↦
              rw (at, e) (resumed-Restored (released (d.stacks q)) d.stats (inl (refl, c)))
          | inr (c, stats, e) ↦ rw (at, e) (resumed-Restored freed_stack stats (inr (refl, c)))
        ]
