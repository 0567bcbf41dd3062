-- ===== src/Config/Plan.antt =====
-- The workspace that tealet_configure_set sees to and the plan that uses it.
use libtealet.Base.{
  ℕ, ◌+◌, ◌-◌, ◌%◌, ◌^◌, ◌≤◌, ◌<◌, ◌≡◌, ap, inl, inr, some, ltb, ltb→lt, ◌==◌, if◌then◌else◌, arith,
  Bool-cases, ==→eq,
}
use libtealet.Base.Bits.{bit_and_le, bit_and-complement}
use libtealet.Platform.{Ptr, Platform}
use libtealet.Domain.{Domain, Settings, Integrity, done}
use libtealet.Integrity.{guard_pagesize, align_up, monitored, plan_pages, plan_split}
use libtealet.Config.{snapshot_required_capacity}
use libtealet.Config.Request.{ConfigStruct, configure_set, requested, settings_of}
use libtealet.Config.Set.{set_done, ensure_done}

monitored_le : (c : Settings) (far : Ptr) → monitored c far ≤ c.stack_integrity_bytes
unfolding monitored
monitored_le c far = ground arith

-- Aligned up, an address moves by less than a page, also over the end of the address space.
align_up_near : (mask a : ℕ) → a < 2 ^ 64 → (align_up mask a + (2 ^ 64 - a)) % 2 ^ 64 ≤ mask
unfolding align_up
align_up_near mask a h = elim (Bool-cases (ltb mask (2 ^ 64))) [
  | inl e ↦
      let small : mask < 2 ^ 64 = ltb→lt _ _ e in
      let below = bit_and_le ((a + mask) % 2 ^ 64) (2 ^ 64 - 1 - mask) in
      let above = bit_and-complement 64 ((a + mask) % 2 ^ 64) mask (omega arith) small in
      omega (arith, below, above)
  | inr e ↦ ground arith
]

pages_snapshot :
    (page far bytes snapshot : ℕ) (i : Integrity)
    → far < 2 ^ 64
    → ((plan_pages page far bytes snapshot i).snapshot_bytes ≤ snapshot)
      × ((plan_pages page far bytes snapshot i).snapshot_bytes ≤ page - 1)
unfolding plan_pages
pages_snapshot page far bytes snapshot i h =
    (ground arith, ground (arith, align_up_near (page - 1) far h))

-- What the plan wants to take a snapshot of has room in the workspace of the size that
-- tealet_snapshot_required_capacity computes.
planned_fits :
    (pf : Platform) (far : Ptr) (c : Settings) (i : Integrity)
    → far + c.stack_integrity_bytes < 2 ^ 64
    → (plan_split pf far (monitored c far) c i).snapshot_bytes ≤ snapshot_required_capacity pf c
unfolding plan_split snapshot_required_capacity monitored
planned_fits pf far c i room =
    let bytes = monitored c far in
    let le = monitored_le c far in
    let pages =
      pages_snapshot (guard_pagesize pf) far bytes (if c.flags.snapshot then bytes else 0)
        (record i { stack_base = far; snapshot_bytes = if c.flags.snapshot then bytes else 0 })
        (omega arith) in
    elim (Bool-cases c.flags.guard) [
      | inr g ↦ rw g (ground (arith, le))
      | inl g ↦ elim (Bool-cases (guard_pagesize pf == 0)) [
        | inl z ↦ rw (g, z, ==→eq _ _ z) (ground (arith, le))
        | inr z ↦ elim (Bool-cases (ltb far ((far + bytes) % 2 ^ 64))) [
          | inl l ↦ rw (g, z, l) (ground (arith, le, pages))
          | inr l ↦
              let none_left : bytes ≡ 0 = ground (arith, le) in
              rw (g, z, l, none_left) (ground arith)
        ]
      ]
    ]

-- After a call of tealet_configure_set that succeeded, for any far boundary and as long as the
-- bytes to watch do not run over the end of the address space, what
-- tealet_integrity_plan_for_current wants to take a snapshot of has room in the workspace.
pub configure_set-planned :
    (pf : Platform) (c : ConfigStruct) (d : Domain) (far : Ptr)
    → (configure_set pf (some c) d).0 ≡ done
    → far + (configure_set pf (some c) d).2.settings.stack_integrity_bytes < 2 ^ 64
    → (plan_split pf far
        (monitored (configure_set pf (some c) d).2.settings far)
        (configure_set pf (some c) d).2.settings
        (configure_set pf (some c) d).2.integrity).snapshot_bytes
      ≤ (configure_set pf (some c) d).2.integrity.snapshot_capacity
configure_set-planned pf c d far ok room =
    let t = set_done pf c d ok in
    let d' = (configure_set pf (some c) d).2 in
    let fits = planned_fits pf far d'.settings d'.integrity room in
    let made = ensure_done (snapshot_required_capacity pf (settings_of (requested d c))) d t.2 in
    omega (
      arith,
      fits,
      made,
      ap (snapshot_required_capacity pf) t.0,
      ap (λ (x : Integrity). x.snapshot_capacity) t.3,
    )
