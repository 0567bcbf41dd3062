-- ===== src/Examples/Pointers.antt =====
-- The pointers behind the lists of the domain of three tealets.
use mathlib.Core.Bool.{false≢true}
use libtealet.Base.{
  ◌≡◌, refl, sym, inl, inr, [], ◌∷◌, none, some, ◌==◌, if◌then◌else◌, arith, Bool-cases,
}
use libtealet.Platform.{null}
use libtealet.Report.{get_stats}
use libtealet.Stack.{stack_unlink}
use libtealet.Transfer.{free_tealet}
use libtealet.Links.{Ring, head, Chain, same_slot, list_remove, chain_unlink}
use libtealet.Links.Tealets.{
  IsLinked, get_stats_by_ring, get_stats_by_ring-get_stats, free_tealet-IsLinked,
}
use libtealet.Links.Unsaved.{IsThreaded, stack_unlink-IsThreaded}
use libtealet.Examples.{domain, platform}

abbrev ring : Ring
ring = record {
  next = λ t. if t == 1 then 7 else (if t == 7 then 5 else 1);
  prev = λ t. if t == 1 then 5 else (if t == 7 then 1 else 7);
}

domain-IsLinked : IsLinked ring domain
domain-IsLinked = record {
  others = 7 ∷ 5 ∷ [];
  all = refl;
  ring = record {
    path = (refl, refl, (refl, refl, (refl, refl)));
    distinct = (refl, (refl, (refl, tt)));
  };
}

get_stats_by_ring-get_stats_example :
    get_stats_by_ring platform 3 ring domain ≡ some (get_stats platform domain)
get_stats_by_ring-get_stats_example =
    get_stats_by_ring-get_stats platform domain ring 3 domain-IsLinked (omega arith)

free_tealet-IsLinked_example : IsLinked (list_remove 7 ring) (free_tealet platform 7 domain)
free_tealet-IsLinked_example =
    free_tealet-IsLinked platform ring domain 7 domain-IsLinked refl
      (λ e. absurd {A = _} (omega arith))

abbrev chain : Chain
chain = record {
  at = λ s. if same_slot s head then 20 else null;
  prev = λ p. if p == 20 then some head else none;
}

domain-IsThreaded : IsThreaded chain domain
domain-IsThreaded = record {
  chained = (refl, (λ e. absurd {A = _} (omega arith)), refl, refl);
  distinct = (refl, tt);
  loose = λ j h. elim (Bool-cases (j == 20)) [
    | inl e ↦ absurd (false≢true (sym (rw e at h)))
    | inr e ↦ rw e refl
  ];
}

stack_unlink-IsThreaded_example : IsThreaded (chain_unlink 20 chain) (stack_unlink 20 domain)
stack_unlink-IsThreaded_example = stack_unlink-IsThreaded 20 chain domain domain-IsThreaded refl
