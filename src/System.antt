-- ===== src/System.antt =====
-- A domain between two calls of the library: what holds of its tealets and of their stacks.
pub mod Count
pub mod Switched
pub mod Guards
pub mod Flags
pub mod Joined
pub mod Enrol
pub mod Erase
pub mod Removed
pub mod Delete
pub mod Outcome
pub mod Base
pub mod Transfer
pub mod Kept
pub mod Alike
pub mod Others
pub mod Call
pub mod Step
pub mod Return
pub mod Birth
pub mod Capture
pub mod Started
pub mod Later
pub mod Left
pub mod Steady
pub mod Exiting
pub mod Replaced
pub mod Exit
pub mod Exited
pub mod Quit
pub mod Nofail
pub mod Leaver
pub mod Implicit
pub mod Panicked
pub mod Arrive
use libtealet.Base.{
  ℕ, ◌+◌, ◌≡◌, ◌≢◌, Bool, true, false, List, [], ◌∷◌, ◌==◌, if◌then◌else◌, has, Distinct,
}
use libtealet.Platform.{Ptr, null}
use libtealet.Domain.{Domain, Tealet}
use libtealet.Transfer.Invariant.{Sliced, Nobody}

-- Whether `t` holds the stack `p`, as a number.
abbrev pub holds : Ptr → Tealet → ℕ
holds p t = if t.stack == p then 1 else 0

-- How many of the tealets hold the stack `p`.
abbrev pub holders : Ptr → (Ptr → Tealet) → List Ptr → ℕ
holders p tealets [] = 0
holders p tealets (t ∷ ts) = holds p (tealets t) + holders p tealets ts

-- The stacks obey the invariant of the running tealet; a count is the number of holders; the
-- running tealet has no saved stack, and every other one that was started and can go on has one.
pub record IsSound (d : Domain) : Type 0 where
  pub sliced : Sliced (d.tealets d.current).stack_far Nobody d
  pub distinct : Distinct d.all
  pub no_null : has null d.all ≡ false
  pub main_listed : has d.main d.all ≡ true
  pub current_listed : has d.current d.all ≡ true
  pub strangers : (t : Ptr) → has t d.all ≡ false → (d.tealets t).stack ≡ null
  pub counted : (p : Ptr) → p ≢ null → (d.stacks p).refcount ≡ holders p d.tealets d.all
  pub running : (d.tealets d.current).stack ≡ null
  pub staying : (t : Ptr) → (d.tealets t).flags.exiting ≡ false
  pub suspended :
      (t : Ptr)
      → has t d.all ≡ true
      → t ≢ d.current
      → (d.tealets t).flags.bound ≡ true
      → (d.tealets t).flags.exited ≡ false
      → (d.tealets t).flags.is_defunct ≡ false
      → (d.tealets t).stack ≢ null
