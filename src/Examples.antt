-- ===== src/Examples.antt =====
-- Concrete states: a domain of three tealets on a descending stack, and the theorems of the other
-- files at work on it.
--
-- The main tealet (1) is suspended with a stack (20) that is saved from 4 to 8 and goes on to 100.
-- Tealet 7 is saved in full, from 5 to 7 (stack 22). Tealet 5 runs between 5 and 7; it is about
-- to switch to the main tealet.
pub mod Uses
pub mod Life
pub mod Setting
pub mod Starts
pub mod Panics
pub mod Exits
pub mod Pointers
use mathlib.Core.Bool.{false≢true}
use libtealet.Base.{
  ℕ, zero, suc, ◌+◌, ◌≤◌, ◌<◌, ◌≡◌, ◌≢◌, refl, sym, ap, subst, ◌∙◌, ◌⊎◌, inl, inr, Bool, true,
  false, ltb, leb, List, [], ◌∷◌, Option, none, ◌==◌, if◌then◌else◌, has, arith, Bool-cases, ==→eq,
  ==→ne,
}
use libtealet.Base.Int.{pos, sub_ℕ}
use libtealet.Platform.{Ptr, null, Platform, IsDescending}
use libtealet.Memory.{Mem}
use libtealet.Stack.Image.{edge, IsWhole}
use libtealet.Domain.{
  Chunk, Stack, Tealet, TealetFlags, no_flags, xfer_default, sw_nop, Stats, Settings, Integrity,
  Domain, freed_stack, freed_tealet, update, done, err_inval, is_error, ConfigFlags,
}
use libtealet.Transfer.{Stackman, IsStackman, op_save, op_restore, save_restore_cb, save_state}
use libtealet.Transfer.Invariant.{IsLive, Sliced, Nobody}
use libtealet.Transfer.Save.{IsFresh}
use libtealet.Transfer.Switch.{Ready, Switching, switch-Switching}

abbrev pub platform : Platform
platform = record {
  furthest = 100;
  sp_ls = ltb;
  sp_le = leb;
  sp_diff = sub_ℕ;
  sp_add = λ a n. a + n;
  stack_header = 6;
  chunk_header = 3;
  main_header = 40;
  tealet_header = 8;
  sysconf_pagesize = pos 16;
}

pub platform-IsDescending : IsDescending platform
platform-IsDescending = record {
  sp_ls_lem = λ a b. refl;
  sp_le_lem = λ a b. refl;
  sp_diff_lem = λ a b. refl;
  sp_add_lem = λ a n. refl;
}

-- A switch that does no more than what is asked of it.
abbrev pub stackman : Stackman
stackman = record {
  switch = λ cb d. let (sp, d') = cb op_save d.sp d in (cb op_restore sp (record d' { sp = sp })).1;
}

pub stackman-IsStackman : IsStackman stackman
stackman-IsStackman = record { switch_lem = λ cb d. refl }

-- Each address holds its own number.
abbrev pub memory : Mem
memory p = p

abbrev pub main_saved : Stack
main_saved = record {
  refcount = 1;
  is_defunct = false;
  stack_far = 100;
  saved = 4;
  chunk = record { refcount = 1; stack_near = 4; size = 4; bytes = 61 ∷ 62 ∷ 63 ∷ 64 ∷ [] };
  rest = [];
}

abbrev pub sub_saved : Stack
sub_saved = record {
  refcount = 1;
  is_defunct = false;
  stack_far = 7;
  saved = 2;
  chunk = record { refcount = 1; stack_near = 5; size = 2; bytes = 71 ∷ 72 ∷ [] };
  rest = [];
}

abbrev pub stacks : Ptr → Stack
stacks = update (update (λ _. freed_stack) 22 sub_saved) 20 main_saved

abbrev pub bound : (far stack : Ptr) → Tealet
bound far stack = record {
  stack_far = far;
  stack = stack;
  flags = record no_flags { bound = true };
  extra = [];
}

abbrev pub tealets : Ptr → Tealet
tealets =
    update (update (update (λ _. freed_tealet) 7 (bound 7 22)) 5 (bound 7 null)) 1 (bound 100 20)

abbrev pub counters : Stats
counters = record {
  tealets = 3;
  counter = 3;
  bytes_allocated = 74;
  bytes_allocated_peak = 74;
  blocks_allocated = 5;
  blocks_allocated_peak = 5;
  blocks_allocated_total = 5;
  stack_bytes = 18;
  stack_count = 2;
  stack_chunk_count = 2;
}

abbrev pub unwatched : Settings
unwatched = record {
  flags = record { integrity = false; guard = false; snapshot = false; other = 0 };
  stack_integrity_bytes = 0;
  stack_guard_mode = 0;
  stack_integrity_fail_policy = 1;
  stack_guard_limit = null;
  max_stack_size = 0;
}

abbrev pub no_data : Integrity
no_data = record {
  stack_base = null;
  snapshot_bytes = 0;
  snapshot_block = null;
  snapshot = [];
  snapshot_capacity = 0;
  guard_base = null;
  guard_bytes = 0;
}

abbrev pub domain : Domain
domain = record {
  mem = memory;
  sp = 5;
  probe = 5;
  answers = 21 ∷ 23 ∷ [];
  protect_answers = [];
  log = [];
  stacks = stacks;
  tealets = tealets;
  all = 7 ∷ 5 ∷ 1 ∷ [];
  main = 1;
  main_stack_probe = 50;
  current = 5;
  previous = null;
  target = 1;
  arg = null;
  prev = 20 ∷ [];
  sw = sw_nop;
  flags = xfer_default;
  settings = unwatched;
  integrity = no_data;
  locking = record { auto = true; lock = true; unlock = true };
  stats = counters;
  extrasize = 0;
}

-- What holds of both stacks holds of all that are in use.
each_stack :
    (P : Ptr → Stack → Type 0)
    → P 20 main_saved
    → P 22 sub_saved
    → (j : Ptr) → IsLive (stacks j)
    → P j (stacks j)
each_stack P a b j live = elim (Bool-cases (j == 20)) [
  | inl e ↦ subst (λ i. P i (stacks i)) (sym (==→eq j 20 e)) a
  | inr e ↦ elim (Bool-cases (j == 22)) [
    | inl f ↦ subst (λ i. P i (stacks i)) (sym (==→eq j 22 f)) b
    | inr f ↦ absurd {A = _} (omega (arith, rw (e, f) at live))
  ]
]

pub domain-Sliced : Sliced 7 Nobody domain
domain-Sliced = record {
  bands = ((refl, refl, refl, refl), omega arith, omega arith, refl, tt);
  no_null = refl;
  linked = λ j h. elim (Bool-cases (j == 20)) [
    | inl e ↦ rw e (omega arith)
    | inr e ↦ absurd (false≢true (rw e at h))
  ];
  whole = each_stack (λ j s. IsWhole s) (refl, refl, refl, refl) (refl, refl, refl, refl);
  full = λ j live o.
      each_stack (λ i s. has i (20 ∷ []) ≡ false → Nobody i s ⊎ (s.stack_far ≡ edge s))
        (λ h. absurd (false≢true (sym h))) (λ h. inr refl) j live o;
  within = each_stack (λ j s. edge s ≤ s.stack_far) (omega arith) (omega arith);
  owned = λ t h. elim (Bool-cases (t == 1)) [
    | inl e ↦ rw e (omega arith, refl)
    | inr e ↦ elim (Bool-cases (t == 5)) [
      | inl f ↦ absurd ((rw (e, f) at h) refl)
      | inr f ↦ elim (Bool-cases (t == 7)) [
        | inl g ↦ rw (e, f, g) (omega arith, refl)
        | inr g ↦ absurd ((rw (e, f, g) at h) refl)
      ]
    ]
  ];
}

pub domain-IsFresh : IsFresh domain
domain-IsFresh a h n = elim (Bool-cases (a == 20)) [
  | inl e ↦ absurd {A = _} (ground arith)
  | inr e ↦ elim (Bool-cases (a == 22)) [
    | inl f ↦ absurd {A = _} (ground arith)
    | inr f ↦ rw (e, f) refl
  ]
]

-- Nobody but the main tealet holds its stack.
pub domain-sole : (t : Ptr) → t ≢ 1 → (tealets t).stack ≡ 20 → 1 < (stacks 20).refcount
domain-sole t n e = elim (Bool-cases (t == 1)) [
  | inl i ↦ absurd (n (==→eq t 1 i))
  | inr i ↦ elim (Bool-cases (t == 5)) [
    | inl f ↦ absurd {A = _} (omega (arith, rw (i, f) at e))
    | inr f ↦ elim (Bool-cases (t == 7)) [
      | inl g ↦ absurd {A = _} (omega (arith, rw (i, f, g) at e))
      | inr g ↦ absurd {A = _} (omega (arith, rw (i, f, g) at e))
    ]
  ]
]

pub domain-Ready : Ready domain
domain-Ready = record {
  sliced = domain-Sliced;
  fresh = domain-IsFresh;
  inside = omega arith;
  stays = refl;
  other = λ e. omega arith;
  is_saved = λ e. omega arith;
  live = (omega arith, refl);
  secure = inl refl;
  sole = domain-sole;
}
