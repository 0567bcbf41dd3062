-- ===== src/Links.antt =====
-- The pointers of the two linked lists of src/tealet.c: the circular list of all tealets
-- (TEALET_LIST_ADD, TEALET_LIST_REMOVE and the walk of tealet_get_stats), and the list of stacks
-- from `g_prev` on (tealet_stack_link, tealet_stack_unlink), where `prev` is the address of the
-- pointer that leads to a stack. The other modules have these lists as lists of addresses.
pub mod Circle
pub mod Unsaved
pub mod Tealets
use libtealet.Base.{
  ℕ, zero, suc, Bool, true, false, List, [], ◌∷◌, Option, none, some, ◌==◌, if◌then◌else◌,
}
use libtealet.Platform.{Ptr, null}
use libtealet.Domain.{update}

-- next_tealet and prev_tealet.
pub record Ring : Type 0 where
  pub next : Ptr → Ptr
  pub prev : Ptr → Ptr

abbrev pub set_next : Ptr → Ptr → Ring → Ring
set_next t v r = record r { next = update r.next t v }

abbrev pub set_prev : Ptr → Ptr → Ring → Ring
set_prev t v r = record r { prev = update r.prev t v }

-- The main tealet alone.
unfoldable pub ring_of_main : Ptr → Ring → Ring
ring_of_main main r = set_prev main main (set_next main main r)

unfoldable pub list_add : (main t : Ptr) → Ring → Ring
list_add main t r0 =
    let r1 = set_next t (r0.next main) r0 in
    let r2 = set_prev t main r1 in let r3 = set_prev (r2.next main) t r2 in set_next main t r3

unfoldable pub list_remove : Ptr → Ring → Ring
list_remove t r0 =
    let r1 = set_next (r0.prev t) (r0.next t) r0 in set_prev (r1.next t) (r1.prev t) r1

-- do { ...; t = t->next_tealet; } while (t != start): the tealets that it comes by, in order.
unfoldable pub walk_ring : ℕ → (start t : Ptr) → Ring → Option (List Ptr)
walk_ring zero start t r = none
walk_ring (suc fuel) start t r = elim (r.next t == start) [
  | true ↦ some (t ∷ [])
  | false ↦ elim (walk_ring fuel start (r.next t) r) [ none ↦ none | some ts ↦ some (t ∷ ts) ]
]

-- A pointer to a stack that can be pointed at: `g_prev`, or the `next` of a stack.
pub data Slot : Type 0 where
  head : Slot
  next_of : Ptr → Slot

abbrev pub same_slot : Slot → Slot → Bool
same_slot head head = true
same_slot head (next_of q) = false
same_slot (next_of p) head = false
same_slot (next_of p) (next_of q) = p == q

-- What each such pointer holds, and the `prev` of each stack, which may be NULL.
pub record Chain : Type 0 where
  pub at : Slot → Ptr
  pub prev : Ptr → Option Slot

abbrev pub store : Slot → Ptr → Chain → Chain
store s v c = record c { at = λ k. if same_slot k s then v else c.at k }

abbrev pub set_back : Ptr → Option Slot → Chain → Chain
set_back p s c = record c { prev = update c.prev p s }

unfoldable pub chain_link : Ptr → Chain → Chain
chain_link p c0 =
    let c1 = store (next_of p) (c0.at head) c0 in
    let follower = c1.at (next_of p) in
    let c2 = if follower == null then c1 else set_back follower (some (next_of p)) c1 in
    store head p (set_back p (some head) c2)

-- *stack->prev = next, which the code does only where `prev` is set.
abbrev pub store_back : Option Slot → Ptr → Chain → Chain
store_back none v c = c
store_back (some s) v c = store s v c

unfoldable pub chain_unlink : Ptr → Chain → Chain
chain_unlink p c0 =
    let follower = c0.at (next_of p) in
    let c1 = if follower == null then c0 else set_back follower (c0.prev p) c0 in
    set_back p none (store_back (c1.prev p) follower c1)
