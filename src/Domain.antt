-- ===== src/Domain.antt =====
-- The data of src/tealet.c: chunks and stacks (the saved copies of the C stack), tealets, and the
-- main tealet with everything that hangs on it, here one record `Domain`.
--
-- Heap objects stand in stores that are functions from addresses. A pointer is an address and 0
-- is NULL. An object that has been given back is the tombstone of its type (count 0, no data).
-- A word of flags is the record of its bits. The chain of chunks is the list of its nodes, the
-- list `g_prev` and the circular list of tealets are lists of addresses. The machine (memory, stack pointer) and the answers that the
-- caller's allocator and mprotect will give stand in the record too: `sp` is the stack pointer at
-- which stackman saves, `probe` the address of the local variable by which the code finds its
-- place on the stack. Of a release build
-- (NDEBUG), with statistics, snapshots and guards (mprotect), and STACK_DIRECTION 0.
use mathlib.Core.Path.{fun_ext}
use libtealet.Base.{
  ℕ, ◌≡◌, inl, inr, Bool-cases, ==→eq, Bool, true, false, ◌||◌, List, [], ◌==◌, if◌then◌else◌,
}
use libtealet.Platform.{Ptr, null}
use libtealet.Memory.{Mem}

pub record Chunk : Type 0 where
  pub refcount : ℕ
  pub stack_near : Ptr
  pub size : ℕ
  pub bytes : List ℕ

-- `chunk` is the first chunk, which lies in the structure; `rest` is the chain `chunk.next`, and
-- `last` is its end. Whether `prev` is set is whether the stack is in the list `g_prev`.
pub record Stack : Type 0 where
  pub refcount : ℕ
  pub is_defunct : Bool
  pub stack_far : Ptr
  pub saved : ℕ
  pub chunk : Chunk
  pub rest : List Chunk

-- TEALET_TFLAGS_*
pub record TealetFlags : Type 0 where
  pub bound : Bool
  pub exiting : Bool
  pub exited : Bool
  pub is_defunct : Bool
  pub main_lineage : Bool
  pub is_fork : Bool
  pub autodelete : Bool
  pub saveforce : Bool

abbrev pub no_flags : TealetFlags
no_flags = record {
  bound = false;
  exiting = false;
  exited = false;
  is_defunct = false;
  main_lineage = false;
  is_fork = false;
  autodelete = false;
  saveforce = false;
}

-- flags != 0
abbrev pub any_flag : TealetFlags → Bool
any_flag f =
    f.bound
    || (f.exiting
        || (f.exited
            || (f.is_defunct || (f.main_lineage || (f.is_fork || (f.autodelete || f.saveforce))))))

pub record Tealet : Type 0 where
  pub stack_far : Ptr
  pub stack : Ptr
  pub flags : TealetFlags
  pub extra : List ℕ

-- tealet_sr_e
pub data SwitchState : Type 0 where
  sw_nop sw_restore sw_err : SwitchState

-- TEALET_XFER_*, TEALET_EXIT_* and TEALET_MFLAGS_PANIC.
pub record XferFlags : Type 0 where
  pub force : Bool
  pub panic : Bool
  pub nofail : Bool
  pub delete : Bool
  pub defer : Bool
  pub main_panic : Bool

abbrev pub xfer_default : XferFlags
xfer_default = record {
  force = false;
  panic = false;
  nofail = false;
  delete = false;
  defer = false;
  main_panic = false;
}

-- The results of the functions that return an int: 0, 1 and TEALET_ERR_*. `abort_process` is no
-- result: abort() was called, and what the model does after it has no meaning.
pub data Code : Type 0 where
  done save_only err_mem err_defunct err_unforkable err_inval err_integrity err_panic : Code
  abort_process : Code

-- code < 0
abbrev pub is_error : Code → Bool
is_error done = false
is_error save_only = false
is_error err_mem = true
is_error err_defunct = true
is_error err_unforkable = true
is_error err_inval = true
is_error err_integrity = true
is_error err_panic = true
is_error abort_process = true

-- The counters of tealet_main_t. A size_t is a number below 2^64, an int (`tealets` and `counter`)
-- one below 2^32, in two's complement.
pub record Stats : Type 0 where
  pub tealets : ℕ
  pub counter : ℕ
  pub bytes_allocated : ℕ
  pub bytes_allocated_peak : ℕ
  pub blocks_allocated : ℕ
  pub blocks_allocated_peak : ℕ
  pub blocks_allocated_total : ℕ
  pub stack_bytes : ℕ
  pub stack_count : ℕ
  pub stack_chunk_count : ℕ

-- TEALET_CONFIGF_*; `other` holds the bits that this build does not know.
pub record ConfigFlags : Type 0 where
  pub integrity : Bool
  pub guard : Bool
  pub snapshot : Bool
  pub other : ℕ

-- The configuration that the main tealet keeps (g_cfg_*).
pub record Settings : Type 0 where
  pub flags : ConfigFlags
  pub stack_integrity_bytes : ℕ
  pub stack_guard_mode : ℕ
  pub stack_integrity_fail_policy : ℕ
  pub stack_guard_limit : Ptr
  pub max_stack_size : ℕ

-- tealet_integrity_data_t; `snapshot` is what the block at `snapshot_block` holds.
pub record Integrity : Type 0 where
  pub stack_base : Ptr
  pub snapshot_bytes : ℕ
  pub snapshot_block : Ptr
  pub snapshot : List ℕ
  pub snapshot_capacity : ℕ
  pub guard_base : Ptr
  pub guard_bytes : ℕ

-- tealet_lock_t, with a NULL callback as `false`.
pub record Locking : Type 0 where
  pub auto : Bool
  pub lock : Bool
  pub unlock : Bool

-- The protections that the code asks mprotect for.
pub data Prot : Type 0 where
  read_write read_only no_access : Prot

-- The calls that leave the library and are not the allocator's, newest first.
pub data Event : Type 0 where
  locked unlocked : Event
  protected : Ptr → ℕ → Prot → Event

pub record Domain : Type 0 where
  pub mem : Mem
  pub sp : Ptr
  pub probe : Ptr
  pub answers : List Ptr
  pub protect_answers : List Bool
  pub log : List Event
  pub stacks : Ptr → Stack
  pub tealets : Ptr → Tealet
  pub all : List Ptr
  pub main : Ptr
  pub main_stack_probe : Ptr
  pub current : Ptr
  pub previous : Ptr
  pub target : Ptr
  pub arg : Ptr
  pub prev : List Ptr
  pub sw : SwitchState
  pub flags : XferFlags
  pub settings : Settings
  pub integrity : Integrity
  pub locking : Locking
  pub stats : Stats
  pub extrasize : ℕ

-- The pointers of tealet_main_t that the copying of stacks leaves alone, and its flags.
abbrev pub fixed : Domain → List Ptr × Ptr × Ptr × Ptr × Ptr × Ptr × XferFlags
fixed d = (d.all, d.main, d.current, d.target, d.previous, d.arg, d.flags)

abbrev pub update {ℓ} : {A : Type ℓ} → (Ptr → A) → Ptr → A → Ptr → A
update f p v q = if q == p then v else f q

abbrev pub put_stack : Ptr → Stack → Domain → Domain
put_stack p s d = record d { stacks = update d.stacks p s }

abbrev pub put_tealet : Ptr → Tealet → Domain → Domain
put_tealet p t d = record d { tealets = update d.tealets p t }

abbrev pub set_flags : Ptr → TealetFlags → Domain → Domain
set_flags p f d = put_tealet p (record (d.tealets p) { flags = f }) d

-- A structure that has been freed.
abbrev pub freed_stack : Stack
freed_stack = record {
  refcount = 0;
  is_defunct = false;
  stack_far = null;
  saved = 0;
  chunk = record { refcount = 0; stack_near = null; size = 0; bytes = [] };
  rest = [];
}

abbrev pub freed_tealet : Tealet
freed_tealet = record { stack_far = null; stack = null; flags = no_flags; extra = [] }

pub update_self {ℓ} : {A : Type ℓ} (f : Ptr → A) (p : Ptr) → update f p (f p) ≡ f
update_self f p =
    fun_ext λ q. elim (Bool-cases (q == p)) [ inl e ↦ rw (e, ==→eq q p e) | inr e ↦ rw e ]
