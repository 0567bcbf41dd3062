-- ===== src/Config/Copy.antt =====
-- The copying of a configuration structure, and what fits in one.
use libtealet.Base.{
  ℕ, ◌+◌, ◌-◌, ◌*◌, ◌/◌, ◌%◌, ◌^◌, ◌≤◌, ◌<◌, ◌≡◌, refl, Bool, true, false, Option, none, some, ◌==◌,
  min, arith,
}
use libtealet.Domain.{Settings, ConfigFlags}
use libtealet.Config.{
  canonicalize, canonicalize_flags, canonicalize_mode, canonicalize_policy, supported_flags,
}
use libtealet.Config.Request.{
  ConfigStruct, sizeof_config, splice, copy_prefix, decode_flags, encode_flags, settings_of,
  with_settings, blank, bit,
}

-- Every field fits its width.
pub record Fits (c : ConfigStruct) : Type 0 where
  pub size : c.size < 2 ^ 64
  pub version : c.version < 2 ^ 32
  pub flags : c.flags < 2 ^ 32
  pub bytes : c.stack_integrity_bytes < 2 ^ 64
  pub mode : c.stack_guard_mode < 2 ^ 32
  pub policy : c.stack_integrity_fail_policy < 2 ^ 32
  pub limit : c.stack_guard_limit < 2 ^ 64
  pub max_size : c.max_stack_size < 2 ^ 64

pub splice-four :
    (n offset new old : ℕ)
    → offset + 4 ≤ n
    → new < 2 ^ 32
    → old < 2 ^ 32
    → splice n offset 4 new old ≡ new
splice-four n offset new old h a b =
    let e : min 4 (n - offset) ≡ 4 = omega arith in rw e (omega arith)

pub splice-eight :
    (n offset new old : ℕ)
    → offset + 8 ≤ n
    → new < 2 ^ 64
    → old < 2 ^ 64
    → splice n offset 8 new old ≡ new
splice-eight n offset new old h a b =
    let e : min 8 (n - offset) ≡ 8 = omega arith in rw e (omega arith)

pub splice_beyond : (n offset width new old : ℕ) → n ≤ offset → splice n offset width new old ≡ old
splice_beyond n offset width new old h =
    let e : min width (n - offset) ≡ 0 = omega arith in rw e (omega arith)

bits_back :
    (i g s : Bool) (o : ℕ)
    → (let w = bit i + (bit g + bit s * 2) * 2 + o * 8 in
        (w % 2 == 1 ≡ i) × (w / 2 % 2 == 1 ≡ g) × (w / 4 % 2 == 1 ≡ s) × (w / 8 ≡ o))
bits_back false false false o = (ground arith, ground arith, ground arith, omega arith)
bits_back false false true o = (ground arith, ground arith, ground arith, omega arith)
bits_back false true false o = (ground arith, ground arith, ground arith, omega arith)
bits_back false true true o = (ground arith, ground arith, ground arith, omega arith)
bits_back true false false o = (ground arith, ground arith, ground arith, omega arith)
bits_back true false true o = (ground arith, ground arith, ground arith, omega arith)
bits_back true true false o = (ground arith, ground arith, ground arith, omega arith)
bits_back true true true o = (ground arith, ground arith, ground arith, omega arith)

-- The word of some bits stands for these bits.
pub flags_back : (f : ConfigFlags) → decode_flags (encode_flags f) ≡ f
unfolding decode_flags encode_flags
flags_back f =
    let b = bits_back f.integrity f.guard f.snapshot f.other in
    λ i. record { integrity = b.0 i; guard = b.1 i; snapshot = b.2 i; other = b.3 i }

pub settings_back : (s : Settings) (c : ConfigStruct) → settings_of (with_settings s c) ≡ s
settings_back s c = λ i. record s { flags = flags_back s.flags i }

-- A request of full size is taken as it is.
pub copied :
    (c old : ConfigStruct)
    → Fits c
    → Fits old
    → settings_of (copy_prefix sizeof_config c old) ≡ settings_of c
unfolding copy_prefix
copied c old f g =
    rw
      (
        splice-four sizeof_config 12 c.flags old.flags (omega arith) f.flags g.flags,
        splice-eight sizeof_config 16 c.stack_integrity_bytes old.stack_integrity_bytes
            (omega arith) f.bytes g.bytes,
        splice-four sizeof_config 24 c.stack_guard_mode old.stack_guard_mode (omega arith) f.mode
            g.mode,
        splice-four sizeof_config 28 c.stack_integrity_fail_policy old.stack_integrity_fail_policy
            (omega arith) f.policy g.policy,
        splice-eight sizeof_config 32 c.stack_guard_limit old.stack_guard_limit (omega arith)
            f.limit g.limit,
        splice-eight sizeof_config 40 c.max_stack_size old.max_stack_size (omega arith) f.max_size
            g.max_size,
      )
      refl

abbrev pub settings_in : Option ConfigStruct → Option Settings
settings_in none = none
settings_in (some c) = some (settings_of c)

-- The canonical form is no wider than the request.
pub canonical-Fits :
    (c : ConfigStruct) (s : Settings)
    → Fits c
    → s.stack_integrity_bytes < 2 ^ 64
    → s.stack_guard_limit < 2 ^ 64
    → s.max_stack_size < 2 ^ 64
    → Fits (with_settings (canonicalize s) c)
unfolding canonicalize canonicalize_flags canonicalize_mode canonicalize_policy encode_flags
    supported_flags
canonical-Fits c s f bytes limit max_size =
    let g = canonicalize_flags s.stack_integrity_bytes s.flags in
    let small : (i g s : Bool) → bit i + (bit g + bit s * 2) * 2 + 0 * 8 < 2 ^ 32 =
      λ i g s. ground arith in
    record {
      size = f.size;
      version = f.version;
      flags = small g.integrity g.guard g.snapshot;
      bytes = ground arith;
      mode = ground arith;
      policy = ground arith;
      limit = ground arith;
      max_size = max_size;
    }

pub blank-Fits :
    (size max_size : ℕ) → size < 2 ^ 64 → max_size < 2 ^ 64 → Fits (blank size max_size)
blank-Fits size max_size h k = record {
  size = h;
  version = omega arith;
  flags = omega arith;
  bytes = omega arith;
  mode = omega arith;
  policy = omega arith;
  limit = omega arith;
  max_size = k;
}
