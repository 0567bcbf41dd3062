-- ===== src/Config/Set.antt =====
-- What tealet_configure_set and _get do with a request.
use mathlib.Core.Bool.{false≢true}
use libtealet.Base.{
  ℕ, ◌^◌, ◌≤◌, ◌<◌, ◌≡◌, refl, sym, ap, subst, ◌∙◌, inl, inr, true, false, some, leb, ◌==◌, min,
  arith, Bool-cases,
}
use libtealet.Platform.{null, Platform}
use libtealet.Domain.{Domain, Settings, done, err_inval, is_error}
use libtealet.Stats.{malloc}
use libtealet.Config.{canonicalize, snapshot_required_capacity, snapshot_ensure_capacity}
use libtealet.Config.Canonical.{canonicalize-IsCanonical, canonicalize_fixed}
use libtealet.Config.Request.{
  ConfigStruct, sizeof_config, copy_prefix, settings_of, with_settings, blank, config_has_header,
  requested, configure_set, configure_get, fill_from_main,
}
use libtealet.Config.Copy.{
  Fits, splice-four, splice-eight, settings_back, copied, settings_in, canonical-Fits, blank-Fits,
}

-- What a call that succeeds has done.
pub set_done :
    (pf : Platform) (c : ConfigStruct) (d : Domain)
    → (configure_set pf (some c) d).0 ≡ done
    → (let want = requested d c in
        let made = snapshot_ensure_capacity (snapshot_required_capacity pf (settings_of want)) d in
        ((configure_set pf (some c) d).2.settings ≡ settings_of want)
        × ((configure_set pf (some c) d).1 ≡ some (copy_prefix (min c.size sizeof_config) want c))
        × (is_error made.0 ≡ false)
        × ((configure_set pf (some c) d).2.integrity ≡ made.1.integrity))
unfolding configure_set
set_done pf c d ok =
    let made =
      snapshot_ensure_capacity (snapshot_required_capacity pf (settings_of (requested d c))) d in
    elim (Bool-cases (config_has_header (some c))) [
      | inr e ↦ absurd (refusal (rw e at ok))
      | inl e ↦ elim (Bool-cases (c.version == 1)) [
        | inr f ↦ absurd (refusal (rw (e, f) at ok))
        | inl f ↦ elim (Bool-cases (is_error made.0)) [
          | inl g ↦ absurd (false≢true (ap is_error (sym (rw (e, f, g) at ok)) ∙ g))
          | inr g ↦ rw (e, f, g) (refl, refl, refl, refl)
        ]
      ]
    ]
  where
    refusal : err_inval ≡ done → ⊥
    refusal z = absurd (cc)

-- A request of the size and version of this build.
pub record IsCurrent (c : ConfigStruct) (d : Domain) : Type 0 where
  pub size : c.size ≡ sizeof_config
  pub version : c.version ≡ 1
  pub fits : Fits c
  pub max_size : d.settings.max_stack_size < 2 ^ 64

module _ (pf : Platform) (c : ConfigStruct) (d : Domain) (now : IsCurrent c d) where
  abbrev base : ConfigStruct
  base = blank c.size d.settings.max_stack_size

  abbrev asked : ConfigStruct
  asked = record (copy_prefix sizeof_config c base) { version = 1 }

  asked_settings : settings_of asked ≡ settings_of c
  asked_settings =
      copied c base now.fits
        (blank-Fits c.size d.settings.max_stack_size now.fits.size now.max_size)

  whole_copy : min c.size sizeof_config ≡ sizeof_config
  whole_copy = rw now.size refl

  asked-Fits : Fits asked
  unfolding copy_prefix
  asked-Fits =
      let f = now.fits in
      let g = blank-Fits c.size d.settings.max_stack_size f.size now.max_size in
      record {
        size =
            subst (λ x. x < 2 ^ 64)
              (sym (splice-eight sizeof_config 0 c.size base.size (omega arith) f.size g.size))
              f.size;
        version = omega arith;
        flags =
            subst (λ x. x < 2 ^ 32)
              (sym (splice-four sizeof_config 12 c.flags base.flags (omega arith) f.flags g.flags))
              f.flags;
        bytes =
            subst (λ (x : Settings). x.stack_integrity_bytes < 2 ^ 64) (sym asked_settings) f.bytes;
        mode = subst (λ (x : Settings). x.stack_guard_mode < 2 ^ 32) (sym asked_settings) f.mode;
        policy =
            subst (λ (x : Settings). x.stack_integrity_fail_policy < 2 ^ 32) (sym asked_settings)
              f.policy;
        limit = subst (λ (x : Settings). x.stack_guard_limit < 2 ^ 64) (sym asked_settings) f.limit;
        max_size =
            subst (λ (x : Settings). x.max_stack_size < 2 ^ 64) (sym asked_settings) f.max_size;
      }

  requested_settings : settings_of (requested d c) ≡ canonicalize (settings_of c)
  unfolding requested
  requested_settings = rw whole_copy (settings_back _ asked ∙ ap canonicalize asked_settings)

  requested-Fits : Fits (requested d c)
  unfolding requested
  requested-Fits =
      let a = asked-Fits in
      rw whole_copy (canonical-Fits asked (settings_of asked) a a.bytes a.limit a.max_size)

  -- For a request of the size and version of this build whose fields fit their widths, with a
  -- maximal stack size in force that fits a size_t: if tealet_configure_set succeeds, the
  -- canonical form of the request is in force, the caller's structure says so afterwards, and
  -- a tealet_configure_get into a structure of that size says so too.
  pub configure_get-configure_set :
      (configure_set pf (some c) d).0 ≡ done
      → ((configure_set pf (some c) d).2.settings ≡ canonicalize (settings_of c))
        × (settings_in (configure_set pf (some c) d).1 ≡ some (canonicalize (settings_of c)))
        × (settings_in (configure_get (some c) (configure_set pf (some c) d).2).1
            ≡ some (canonicalize (settings_of c)))
  unfolding configure_get config_has_header fill_from_main
  configure_get-configure_set ok =
      let t = set_done pf c d ok in
      let want = requested d c in
      let d' = (configure_set pf (some c) d).2 in
      let goal = canonicalize (settings_of c) in
      let f = now.fits in
      let force : d'.settings ≡ goal = t.0 ∙ requested_settings in
      let again : canonicalize d'.settings ≡ goal =
        ap canonicalize force
        ∙ canonicalize_fixed goal (canonicalize-IsCanonical (settings_of c)) in
      let fill =
        with_settings (canonicalize d'.settings) (record (blank c.size 0) { version = 1 }) in
      let k = canonical-Fits c (settings_of c) f f.bytes f.limit f.max_size in
      let fill-Fits : Fits fill =
        canonical-Fits (blank c.size 0) d'.settings (blank-Fits c.size 0 f.size (omega arith))
          (subst (λ (x : Settings). x.stack_integrity_bytes < 2 ^ 64) (sym force) k.bytes)
          (subst (λ (x : Settings). x.stack_guard_limit < 2 ^ 64) (sym force) k.limit)
          (subst (λ (x : Settings). x.max_stack_size < 2 ^ 64) (sym force) k.max_size) in
      let copies : (x : ConfigStruct)
          → Fits x
          → settings_of (copy_prefix (min c.size sizeof_config) x c) ≡ settings_of x =
        λ x g. ap (λ n. settings_of (copy_prefix n x c)) whole_copy ∙ copied x c g f in
      let header : leb 12 c.size ≡ true = rw now.size refl in
      (
        force,
        ap settings_in t.1 ∙ ap some (copies want requested-Fits ∙ requested_settings),
        rw header (
            ap some (
              copies fill fill-Fits
              ∙ (settings_back (canonicalize d'.settings) (record (blank c.size 0) { version = 1 })
                  ∙ again))),
      )

failed_ensure :
    (required : ℕ) (d : Domain)
    → is_error (snapshot_ensure_capacity required d).0 ≡ true
    → ((snapshot_ensure_capacity required d).1.settings ≡ d.settings)
      × ((snapshot_ensure_capacity required d).1.integrity ≡ d.integrity)
unfolding snapshot_ensure_capacity malloc
failed_ensure required d bad = elim (Bool-cases (required == 0)) [
  | inl e ↦ rw e (refl, refl)
  | inr e ↦ elim (Bool-cases (leb required d.integrity.snapshot_capacity)) [
    | inl f ↦ rw (e, f) (refl, refl)
    | inr f ↦ elim (Bool-cases ((malloc required d).0 == null)) [
      | inl g ↦ rw (e, f, g) (refl, refl)
      | inr g ↦ absurd (false≢true (rw (e, f, g) at bad))
    ]
  ]
]

pub ensure_done :
    (required : ℕ) (d : Domain)
    → is_error (snapshot_ensure_capacity required d).0 ≡ false
    → required ≤ (snapshot_ensure_capacity required d).1.integrity.snapshot_capacity
unfolding snapshot_ensure_capacity malloc
ensure_done required d ok = elim (Bool-cases (required == 0)) [
  | inl e ↦ rw e (ground arith)
  | inr e ↦ elim (Bool-cases (leb required d.integrity.snapshot_capacity)) [
    | inl f ↦ rw (e, f) (ground arith)
    | inr f ↦ elim (Bool-cases ((malloc required d).0 == null)) [
      | inl g ↦ absurd (false≢true (sym (rw (e, f, g) at ok)))
      | inr g ↦ rw (e, f, g) (omega arith)
    ]
  ]
]

-- A tealet_configure_set that returns an error, for whatever reason, leaves the settings in
-- force, the snapshot with its workspace and the caller's structure as they were.
pub configure_set_refused :
    (pf : Platform) (c : ConfigStruct) (d : Domain)
    → is_error (configure_set pf (some c) d).0 ≡ true
    → ((configure_set pf (some c) d).1 ≡ some c)
      × ((configure_set pf (some c) d).2.settings ≡ d.settings)
      × ((configure_set pf (some c) d).2.integrity ≡ d.integrity)
unfolding configure_set
configure_set_refused pf c d bad =
    let required = snapshot_required_capacity pf (settings_of (requested d c)) in
    let made = snapshot_ensure_capacity required d in
    elim (Bool-cases (config_has_header (some c))) [
      | inr e ↦ rw e (refl, refl, refl)
      | inl e ↦ elim (Bool-cases (c.version == 1)) [
        | inr f ↦ rw (e, f) (refl, refl, refl)
        | inl f ↦ elim (Bool-cases (is_error made.0)) [
          | inl g ↦ let k = failed_ensure required d g in rw (e, f, g) (refl, k.0, k.1)
          | inr g ↦ absurd (false≢true (rw (e, f, g) at bad))
        ]
      ]
    ]
