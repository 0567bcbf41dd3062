-- ===== src/System/Guards.antt =====
-- The integrity checks leave the tealets, their stacks and memory alone.
use libtealet.Base.{◌≡◌, refl, ◌∙◌, inl, inr, Bool, List, [], ◌∷◌, Bool-cases, ◌==◌, if◌then◌else◌}
use libtealet.Platform.{Ptr, Platform}
use libtealet.Memory.{Mem, read}
use libtealet.Domain.{
  Domain, Stack, Tealet, XferFlags, Prot, fixed, read_only, no_access, read_write,
}
use libtealet.Integrity.{
  mprotect, guard_unprotect_current, guard_protect_current, snapshot_capture_current,
  snapshot_verify_current, integrity_plan_for_current, same_bytes,
}
use libtealet.Transfer.{rearm}

-- Everything but the guards, the statistics and the registers of the last switch.
abbrev pub essence :
    Domain
    → (List Ptr × Ptr × Ptr × Ptr × Ptr × Ptr × XferFlags)
      × (Ptr → Stack)
      × (Ptr → Tealet)
      × List Ptr
      × Mem
      × Ptr
      × List Ptr
essence d = (fixed d, d.stacks, d.tealets, d.prev, d.mem, d.sp, d.answers)

mprotect-essence :
    (base n : Ptr) (prot : Prot) (d : Domain) → essence (mprotect base n prot d).1 ≡ essence d
unfolding mprotect
mprotect-essence base n prot d = go d.protect_answers refl
  where
    go : (l : List Bool) → d.protect_answers ≡ l → essence (mprotect base n prot d).1 ≡ essence d
    go [] e = rw e refl
    go (x ∷ l) e = rw e refl

pub guard_unprotect-essence : (d : Domain) → essence (guard_unprotect_current d) ≡ essence d
unfolding guard_unprotect_current
guard_unprotect-essence d = elim (Bool-cases (d.integrity.guard_bytes == 0)) [
  | inl e ↦ rw e refl
  | inr e ↦ rw e (mprotect-essence d.integrity.guard_base d.integrity.guard_bytes read_write d)
]

guard_protect-essence : (d : Domain) → essence (guard_protect_current d) ≡ essence d
unfolding guard_protect_current
guard_protect-essence d =
    let prot = if d.settings.stack_guard_mode == 1 then read_only else no_access in
    let same = mprotect-essence d.integrity.guard_base d.integrity.guard_bytes prot d in
    elim (Bool-cases (d.integrity.guard_bytes == 0)) [
      | inl e ↦ rw e refl
      | inr e ↦
          elim (Bool-cases (mprotect d.integrity.guard_base d.integrity.guard_bytes prot d).0) [
            | inl f ↦ rw (e, f) same
            | inr f ↦ rw (e, f) same
          ]
    ]

snapshot_capture-essence :
    (pf : Platform) (d : Domain) → essence (snapshot_capture_current pf d) ≡ essence d
unfolding snapshot_capture_current
snapshot_capture-essence pf d = elim (Bool-cases (d.integrity.snapshot_bytes == 0)) [
  | inl e ↦ rw e refl
  | inr e ↦ elim (Bool-cases ((d.tealets d.current).stack_far == pf.furthest)) [
    | inl f ↦ rw (e, f) refl
    | inr f ↦ rw (e, f) refl
  ]
]

pub snapshot_verify-essence : (d : Domain) → essence (snapshot_verify_current d).1 ≡ essence d
unfolding snapshot_verify_current
snapshot_verify-essence d = elim (Bool-cases (d.integrity.snapshot_bytes == 0)) [
  | inl e ↦ rw e refl
  | inr e ↦
      elim (Bool-cases (
        same_bytes (read d.mem d.integrity.stack_base d.integrity.snapshot_bytes)
          d.integrity.snapshot)) [
            | inl f ↦ rw (e, f) refl
            | inr f ↦ elim (Bool-cases (d.settings.stack_integrity_fail_policy == 2)) [
              | inl g ↦ rw (e, f, g) refl
              | inr g ↦ rw (e, f, g) refl
            ]
          ]
]

-- The guards are set up again for whoever runs.
pub rearm-essence : (pf : Platform) (d : Domain) → essence (rearm pf d) ≡ essence d
unfolding rearm integrity_plan_for_current
rearm-essence pf d =
    guard_protect-essence _ ∙ snapshot_capture-essence pf (integrity_plan_for_current pf d)
