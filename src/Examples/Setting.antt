-- ===== src/Examples/Setting.antt =====
-- Requests for a configuration.
use libtealet.Base.{◌≡◌, ◌≤◌, ◌<◌, ◌+◌, ◌^◌, refl, true, some, arith}
use libtealet.Domain.{done, is_error}
use libtealet.Stats.{malloc}
use libtealet.Integrity.{guard_pagesize, monitored, plan_split}
use libtealet.Config.{
  canonicalize, canonicalize_flags, canonicalize_mode, canonicalize_policy, supported_flags,
  snapshot_required_capacity, snapshot_ensure_capacity,
}
use libtealet.Config.Request.{
  ConfigStruct, config_has_header, configure_get, configure_set, copy_prefix, decode_flags,
  encode_flags, requested, settings_of,
}
use libtealet.Config.Copy.{settings_in}
use libtealet.Config.Set.{IsCurrent, configure_get-configure_set, configure_set_refused}
use libtealet.Config.Plan.{configure_set-planned}
use libtealet.Examples.{domain, platform}

-- A guard and a snapshot of 20 bytes, with a policy that does not exist and a bit that means
-- nothing.
abbrev wish : ConfigStruct
wish = record {
  size = 56;
  version = 1;
  flags = 15;
  stack_integrity_bytes = 20;
  stack_guard_mode = 2;
  stack_integrity_fail_policy = 9;
  stack_guard_limit = 200;
  max_stack_size = 64;
  reserved0 = 0;
  reserved1 = 0;
}

wish-IsCurrent : IsCurrent wish domain
wish-IsCurrent = record {
  size = refl;
  version = refl;
  fits = record {
    size = omega arith;
    version = omega arith;
    flags = omega arith;
    bytes = omega arith;
    mode = omega arith;
    policy = omega arith;
    limit = omega arith;
    max_size = omega arith;
  };
  max_size = omega arith;
}

granted : (configure_set platform (some wish) domain).0 ≡ done
unfolding configure_set requested config_has_header copy_prefix decode_flags encode_flags
    canonicalize canonicalize_flags canonicalize_mode canonicalize_policy supported_flags
    snapshot_required_capacity snapshot_ensure_capacity guard_pagesize malloc
granted = refl

configure_get-configure_set_example :
    ((configure_set platform (some wish) domain).2.settings ≡ canonicalize (settings_of wish))
    × (settings_in (configure_set platform (some wish) domain).1
        ≡ some (canonicalize (settings_of wish)))
    × (settings_in (configure_get (some wish) (configure_set platform (some wish) domain).2).1
        ≡ some (canonicalize (settings_of wish)))
configure_get-configure_set_example =
    configure_get-configure_set platform wish domain wish-IsCurrent granted

in_range : 7 + (configure_set platform (some wish) domain).2.settings.stack_integrity_bytes < 2 ^ 64
unfolding configure_set requested config_has_header copy_prefix decode_flags encode_flags
    canonicalize canonicalize_flags canonicalize_mode canonicalize_policy supported_flags
    snapshot_required_capacity snapshot_ensure_capacity guard_pagesize malloc
in_range = omega arith

configure_set-planned_example :
    (plan_split platform 7
      (monitored (configure_set platform (some wish) domain).2.settings 7)
      (configure_set platform (some wish) domain).2.settings
      (configure_set platform (some wish) domain).2.integrity).snapshot_bytes
    ≤ (configure_set platform (some wish) domain).2.integrity.snapshot_capacity
configure_set-planned_example = configure_set-planned platform wish domain 7 granted in_range

-- The same wish in the name of a version to come.
abbrev early : ConfigStruct
early = record wish { version = 2 }

early_refused : is_error (configure_set platform (some early) domain).0 ≡ true
unfolding configure_set config_has_header
early_refused = refl

configure_set_refused_example :
    ((configure_set platform (some early) domain).1 ≡ some early)
    × ((configure_set platform (some early) domain).2.settings ≡ domain.settings)
    × ((configure_set platform (some early) domain).2.integrity ≡ domain.integrity)
configure_set_refused_example = configure_set_refused platform early domain early_refused
