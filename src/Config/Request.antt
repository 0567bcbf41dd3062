-- ===== src/Config/Request.antt =====
-- The configuration structure that a caller passes, and tealet_config_has_header,
-- tealet_config_fill_from_main, tealet_configure_get, _set and _check_stack of src/tealet.c.
--
-- The structure is one of the usual 64-bit layout, little end first: its fields are numbers, and a
-- copy of its first bytes may end within a field, whose low bytes alone are then replaced.
use libtealet.Base.{
  ℕ, ◌+◌, ◌-◌, ◌*◌, ◌/◌, ◌%◌, ◌^◌, Bool, false, not, Option, none, some, leb, ◌==◌, if◌then◌else◌,
  min,
}
use libtealet.Platform.{Ptr, Platform}
use libtealet.Domain.{Domain, Settings, ConfigFlags, Code, done, err_inval, is_error}
use libtealet.Integrity.{guard_pagesize}
use libtealet.Config.{canonicalize, snapshot_required_capacity, snapshot_ensure_capacity}

-- tealet_config_t. An int is a number below 2^32, in two's complement.
pub record ConfigStruct : Type 0 where
  pub size : ℕ
  pub version : ℕ
  pub flags : ℕ
  pub stack_integrity_bytes : ℕ
  pub stack_guard_mode : ℕ
  pub stack_integrity_fail_policy : ℕ
  pub stack_guard_limit : ℕ
  pub max_stack_size : ℕ
  pub reserved0 : ℕ
  pub reserved1 : ℕ

-- sizeof(tealet_config_t)
abbrev pub sizeof_config : ℕ
sizeof_config = 56

-- A field of `width` bytes at `offset`, after the first `n` bytes of the structure were copied.
abbrev pub splice : (n offset width new old : ℕ) → ℕ
splice n offset width new old = let k = 256 ^ min width (n - offset) in new % k + old / k * k

-- memcpy(old, new, n)
unfoldable pub copy_prefix : ℕ → (new old : ConfigStruct) → ConfigStruct
copy_prefix n new old = record {
  size = splice n 0 8 new.size old.size;
  version = splice n 8 4 new.version old.version;
  flags = splice n 12 4 new.flags old.flags;
  stack_integrity_bytes = splice n 16 8 new.stack_integrity_bytes old.stack_integrity_bytes;
  stack_guard_mode = splice n 24 4 new.stack_guard_mode old.stack_guard_mode;
  stack_integrity_fail_policy =
      splice n 28 4 new.stack_integrity_fail_policy old.stack_integrity_fail_policy;
  stack_guard_limit = splice n 32 8 new.stack_guard_limit old.stack_guard_limit;
  max_stack_size = splice n 40 8 new.max_stack_size old.max_stack_size;
  reserved0 = splice n 48 4 new.reserved0 old.reserved0;
  reserved1 = splice n 52 4 new.reserved1 old.reserved1;
}

-- TEALET_CONFIGF_*: the word and its bits.
unfoldable pub decode_flags : ℕ → ConfigFlags
decode_flags w = record {
  integrity = w % 2 == 1;
  guard = w / 2 % 2 == 1;
  snapshot = w / 4 % 2 == 1;
  other = w / 8;
}

abbrev pub bit : Bool → ℕ
bit b = if b then 1 else 0

unfoldable pub encode_flags : ConfigFlags → ℕ
encode_flags f = bit f.integrity + (bit f.guard + bit f.snapshot * 2) * 2 + f.other * 8

abbrev pub settings_of : ConfigStruct → Settings
settings_of c = record {
  flags = decode_flags c.flags;
  stack_integrity_bytes = c.stack_integrity_bytes;
  stack_guard_mode = c.stack_guard_mode;
  stack_integrity_fail_policy = c.stack_integrity_fail_policy;
  stack_guard_limit = c.stack_guard_limit;
  max_stack_size = c.max_stack_size;
}

abbrev pub with_settings : Settings → ConfigStruct → ConfigStruct
with_settings s c = record c {
  flags = encode_flags s.flags;
  stack_integrity_bytes = s.stack_integrity_bytes;
  stack_guard_mode = s.stack_guard_mode;
  stack_integrity_fail_policy = s.stack_integrity_fail_policy;
  stack_guard_limit = s.stack_guard_limit;
  max_stack_size = s.max_stack_size;
}

-- What tealet_configure_get and _set start from before anything is copied in.
abbrev pub blank : (size max_stack_size : ℕ) → ConfigStruct
blank size max_stack_size = record {
  size = size;
  version = 1;
  flags = 0;
  stack_integrity_bytes = 0;
  stack_guard_mode = 0;
  stack_integrity_fail_policy = 0;
  stack_guard_limit = 0;
  max_stack_size = max_stack_size;
  reserved0 = 0;
  reserved1 = 0;
}

-- The header is the first two fields, 12 bytes.
unfoldable pub config_has_header : Option ConfigStruct → Bool
config_has_header none = false
config_has_header (some c) = leb 12 c.size

unfoldable pub fill_from_main : Domain → ConfigStruct → ConfigStruct
fill_from_main d c = with_settings (canonicalize d.settings) (record c { version = 1 })

-- The result, and the structure of the caller afterwards.
unfoldable pub configure_get : Option ConfigStruct → Domain → Code × Option ConfigStruct
unfolding config_has_header fill_from_main copy_prefix
configure_get none d = (err_inval, none)
configure_get (some c) d =
    if not (config_has_header (some c))
    then (err_inval, some c)
    else (done, some (copy_prefix (min c.size sizeof_config) (fill_from_main d (blank c.size 0)) c))

-- What a caller asks for: its structure over the defaults, in the canonical form.
unfoldable pub requested : Domain → ConfigStruct → ConfigStruct
unfolding copy_prefix decode_flags encode_flags
requested d c =
    let asked =
      record (copy_prefix (min c.size sizeof_config) c (blank c.size d.settings.max_stack_size)) {
        version = 1;
      } in
    with_settings (canonicalize (settings_of asked)) asked

module _ (pf : Platform) where
  unfoldable pub configure_set : Option ConfigStruct → Domain → Code × Option ConfigStruct × Domain
  unfolding config_has_header requested
  configure_set none d = (err_inval, none, d)
  configure_set (some c) d0 =
      let want = requested d0 c in
      let (result, d) =
        snapshot_ensure_capacity (snapshot_required_capacity pf (settings_of want)) d0 in
      if not (config_has_header (some c))
      then (err_inval, some c, d0)
      else (if not (c.version == 1)
          then (err_inval, some c, d0)
          else (if is_error result then (result, some c, d) else (
            done,
            some (copy_prefix (min c.size sizeof_config) want c),
            record d { settings = settings_of want },
          )))

  -- `marker` is the address of a local variable.
  unfoldable pub configure_check_stack :
      (stack_integrity_bytes : ℕ) → (marker : Ptr) → Domain → Code × Domain
  unfolding configure_set guard_pagesize
  configure_check_stack stack_integrity_bytes marker d =
      let page = guard_pagesize pf in
      let bytes =
        if stack_integrity_bytes == 0
        then (if page == 0 then 4096 else page)
        else stack_integrity_bytes in
      let (result, c, d') =
        configure_set
          (some (record {
            size = sizeof_config;
            version = 1;
            flags = 7;
            stack_integrity_bytes = bytes;
            stack_guard_mode = 2;
            stack_integrity_fail_policy = 1;
            stack_guard_limit = marker;
            max_stack_size = 16777216;
            reserved0 = 0;
            reserved1 = 0;
          }))
          d in
      (result, d')
