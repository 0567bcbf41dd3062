-- ===== src/Config/Canonical.antt =====
-- The rules in the comment of tealet_config_canonicalize in src/tealet.c.
use libtealet.Base.{
  ℕ, ◌≤◌, ◌≡◌, refl, sym, ◌∙◌, inl, inr, Bool, true, false, not, ◌&&◌, ◌||◌, ◌==◌, if◌then◌else◌,
  arith, ap, Bool-cases, ==→eq,
}
use libtealet.Platform.{null}
use libtealet.Domain.{Settings, ConfigFlags}
use libtealet.Config.{
  canonicalize, canonicalize_flags, canonicalize_mode, canonicalize_policy, supported_flags,
}

-- The rules.
pub record IsCanonical (c : Settings) : Type 0 where
  pub known : c.flags.other ≡ 0
  pub backend : c.flags.integrity ≡ c.flags.guard || c.flags.snapshot
  pub watched : c.flags.integrity ≡ not (c.stack_integrity_bytes == 0)
  pub mode :
      (if c.flags.guard
        then (c.stack_guard_mode == 1) || (c.stack_guard_mode == 2)
        else c.stack_guard_mode == 0)
      ≡ true
  pub policy : c.stack_integrity_fail_policy ≤ 2
  pub limit : c.flags.integrity ≡ false → c.stack_guard_limit ≡ null

bits :
    (i g s w : Bool)
    → ((i && true) && (((g && true) && (i && true)) || ((s && true) && (i && true)))) && w
      ≡ (((g && true) && (i && true)) && w) || (((s && true) && (i && true)) && w)
bits false false false w = refl
bits false false true w = refl
bits false true false w = refl
bits false true true w = refl
bits true false false w = refl
bits true false true false = refl
bits true false true true = refl
bits true true false false = refl
bits true true false true = refl
bits true true true false = refl
bits true true true true = refl

-- Bits that obey the rules stay.
bits_fixed :
    (i g s w : Bool)
    → i ≡ g || s
    → i ≡ w
    → (((i && true) && (((g && true) && (i && true)) || ((s && true) && (i && true)))) && w ≡ i)
      × (((g && true) && (i && true)) && w ≡ g)
      × (((s && true) && (i && true)) && w ≡ s)
bits_fixed i false false w a b = rw a (refl, refl, refl)
bits_fixed i false true w a b = rw (a, sym b ∙ a) (refl, refl, refl)
bits_fixed i true false w a b = rw (a, sym b ∙ a) (refl, refl, refl)
bits_fixed i true true w a b = rw (a, sym b ∙ a) (refl, refl, refl)

mode_rule :
    (b : Bool) (m : ℕ)
    → (if b
        then (canonicalize_mode b m == 1) || (canonicalize_mode b m == 2)
        else canonicalize_mode b m == 0)
      ≡ true
unfolding canonicalize_mode
mode_rule true m = ground arith
mode_rule false m = refl

policy_rule : (p : ℕ) → canonicalize_policy p ≤ 2
unfolding canonicalize_policy
policy_rule p = ground arith

watch :
    (x : Bool) (bytes : ℕ)
    → x && not (bytes == 0) ≡ not ((if not (x && not (bytes == 0)) then 0 else bytes) == 0)
watch false bytes = refl
watch true bytes = elim (Bool-cases (bytes == 0)) [ inl e ↦ rw e refl | inr e ↦ rw (e, e) refl ]

mode_fixed :
    (b : Bool) (m : ℕ)
    → (if b then (m == 1) || (m == 2) else m == 0) ≡ true
    → canonicalize_mode b m ≡ m
unfolding canonicalize_mode
mode_fixed true m h = ground arith
mode_fixed false m h = sym (==→eq m 0 h)

policy_fixed : (p : ℕ) → p ≤ 2 → canonicalize_policy p ≡ p
unfolding canonicalize_policy
policy_fixed p h = ground arith

bytes_fixed : (x : Bool) (n : ℕ) → x ≡ not (n == 0) → (if not x then 0 else n) ≡ n
bytes_fixed x n h = elim (Bool-cases (n == 0)) [
  | inl e ↦ rw (h, e) (sym (==→eq n 0 e))
  | inr e ↦ rw (h, e) refl
]

limit_fixed : (x : Bool) (n : ℕ) → (x ≡ false → n ≡ 0) → (if not x then 0 else n) ≡ n
limit_fixed true n h = refl
limit_fixed false n h = sym (h refl)

-- The canonical form of any configuration obeys the rules: no unknown bit, integrity exactly
-- if a backend is on and exactly if there are bytes to watch, a guard mode that fits, a known
-- policy, and no limit without integrity.
pub canonicalize-IsCanonical : (c : Settings) → IsCanonical (canonicalize c)
unfolding canonicalize canonicalize_flags supported_flags
canonicalize-IsCanonical c = record {
  known = refl;
  backend =
      bits c.flags.integrity c.flags.guard c.flags.snapshot (not (c.stack_integrity_bytes == 0));
  watched =
      watch
        ((c.flags.integrity && true)
          && (((c.flags.guard && true) && (c.flags.integrity && true))
              || ((c.flags.snapshot && true) && (c.flags.integrity && true))))
        c.stack_integrity_bytes;
  mode = mode_rule ((canonicalize c).flags.guard) c.stack_guard_mode;
  policy = policy_rule c.stack_integrity_fail_policy;
  limit = λ e. rw e refl;
}

-- A configuration that obeys the rules is its own canonical form.
pub canonicalize_fixed : (c : Settings) → IsCanonical c → canonicalize c ≡ c
unfolding canonicalize canonicalize_flags canonicalize_mode canonicalize_policy supported_flags
canonicalize_fixed c k = λ i. record {
  flags = record { integrity = is.0 i; guard = is.1 i; snapshot = is.2 i; other = (sym k.known) i };
  stack_integrity_bytes =
      (ap (λ x. if not x then 0 else c.stack_integrity_bytes) is.0
          ∙ bytes_fixed c.flags.integrity c.stack_integrity_bytes k.watched)
        i;
  stack_guard_mode =
      (ap (λ x. canonicalize_mode x c.stack_guard_mode) is.1
          ∙ mode_fixed c.flags.guard c.stack_guard_mode k.mode)
        i;
  stack_integrity_fail_policy = policy_fixed c.stack_integrity_fail_policy k.policy i;
  stack_guard_limit =
      (ap (λ x. if not x then 0 else c.stack_guard_limit) is.0
          ∙ limit_fixed c.flags.integrity c.stack_guard_limit k.limit)
        i;
  max_stack_size = c.max_stack_size;
}
  where
    g : ConfigFlags
    g = canonicalize_flags c.stack_integrity_bytes c.flags

    is :
        (g.integrity ≡ c.flags.integrity)
        × (g.guard ≡ c.flags.guard)
        × (g.snapshot ≡ c.flags.snapshot)
    is =
        bits_fixed c.flags.integrity c.flags.guard c.flags.snapshot
          (not (c.stack_integrity_bytes == 0)) k.backend k.watched
