-- ===== src/System/Alike.antt =====
-- Two states between which nothing happened to the suspended tealets.
use libtealet.Base.{◌≡◌, refl, ap, ◌∙◌, inl, inr, Bool-cases, ◌&&◌}
use libtealet.Platform.{Ptr}
use libtealet.Domain.{Domain}
use libtealet.Api.{lock_auto, unlock_auto}
use libtealet.System.Switched.{core}
use libtealet.System.Outcome.{IsSuspended}
use libtealet.System.Kept.{Kept, same-Kept}

-- Tealets, stacks and memory, so far as the suspended tealets go.
pub record Alike (d d' : Domain) : Type 0 where
  pub mem : d'.mem ≡ d.mem
  pub stacks : d'.stacks ≡ d.stacks
  pub held : (t : Ptr) → (d'.tealets t).stack ≡ (d.tealets t).stack

pub Alike-trans : (d e f : Domain) → Alike d e → Alike e f → Alike d f
Alike-trans d e f a b = record {
  mem = b.mem ∙ a.mem;
  stacks = b.stacks ∙ a.stacks;
  held = λ t. b.held t ∙ a.held t;
}

pub Alike-Kept : (d d' : Domain) (u : Ptr) → Alike d d' → IsSuspended d u → Kept d d' u
Alike-Kept d d' u a l =
    same-Kept d d' u (d.stacks (d.tealets u).stack).refcount l a.mem (a.held u) l.1.0
      (ap (λ f. f (d.tealets u).stack) a.stacks)

pub lock_auto-Alike : (d : Domain) → Alike d (lock_auto d)
unfolding lock_auto
lock_auto-Alike d = elim (Bool-cases (d.locking.auto && d.locking.lock)) [
  | inl e ↦ rw e (record { mem = refl; stacks = refl; held = λ t. refl })
  | inr e ↦ rw e (record { mem = refl; stacks = refl; held = λ t. refl })
]

pub unlock_auto-Alike : (d : Domain) → Alike d (unlock_auto d)
unfolding unlock_auto
unlock_auto-Alike d = elim (Bool-cases (d.locking.auto && d.locking.unlock)) [
  | inl e ↦ rw e (record { mem = refl; stacks = refl; held = λ t. refl })
  | inr e ↦ rw e (record { mem = refl; stacks = refl; held = λ t. refl })
]

pub core-Alike : (d d' : Domain) → core d' ≡ core d → d'.mem ≡ d.mem → Alike d d'
core-Alike d d' c m = record {
  mem = m;
  stacks = ap (λ k. k.0) c;
  held = λ t. ap (λ k. (k.1 t).stack) c;
}
