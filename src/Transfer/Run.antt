-- ===== src/Transfer/Run.antt =====
-- Between two transfers: the running tealet writes on its own part of the stack.
use libtealet.Base.{◌≤◌, ◌<◌, ◌≡◌, refl, ◌⊎◌, inl, inr, ltb, has, arith, Bool-cases, ltb→lt}
use libtealet.Platform.{Ptr}
use libtealet.Memory.{Mem}
use libtealet.Domain.{Domain}
use libtealet.Stack.Image.{edge, restore_frame}
use libtealet.Growth.Bands.{Bands-has}
use libtealet.Transfer.Invariant.{IsLive, Sliced, Nobody, SameView}

-- Under the invariant, with the running tealet's far boundary at `lo`, memory may change below
-- `lo` as it likes: every suspended tealet whose stack is in use still finds all its bytes.
pub run-SameView :
    (lo : Ptr) (d : Domain) (m : Mem) (j : Ptr)
    → Sliced lo Nobody d
    → IsLive (d.stacks j)
    → ((x : Ptr) → lo ≤ x → m x ≡ d.mem x)
    → SameView d.mem m (d.stacks j) (d.stacks j)
run-SameView lo d m j sliced live above = record {
  same_near = refl;
  same_far = refl;
  view = λ p l hi. restore_frame (d.stacks j) m d.mem p (sliced.whole j live) l (unsaved p hi);
}
  where
    unsaved : (p : Ptr) → p < (d.stacks j).stack_far → (p < edge (d.stacks j)) ⊎ (m p ≡ d.mem p)
    unsaved p hi = elim (Bool-cases (ltb p (edge (d.stacks j)))) [
      | inl e ↦ inl (ltb→lt _ _ e)
      | inr e ↦ elim (Bool-cases (has j d.prev)) [
        | inl h ↦
            let b = Bands-has d.stacks lo d.prev j sliced.bands h in
            inr (above p (ground (arith, b)))
        | inr o ↦ elim (sliced.full j live o) [ inl x ↦ absurd x | inr f ↦ inl (omega arith) ]
      ]
    ]
