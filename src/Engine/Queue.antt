-- ===== src/Engine/Queue.antt =====
-- The shell's queue of src/engine.rs. A `BinaryHeap` is the list of its items in the order in which
-- `pop` returns them; an `Instant` is a number.
pub mod Order
pub mod Runnable
use Prim.Native.Nat.{Ordering, compare}
use mathlib.Core.List.{foldl}
use kernmini.Prelude.{
  ℕ, String, Bytes, Bool, true, false, not, ◌&&◌, ◌||◌, List, [], ◌∷◌, ◌++◌, Option, none, some,
  ◌==◌, string_eq, map_or, if◌then◌else◌,
}
use kernmini.Float.{partial_cmp, gt}
use kernmini.Wire.{Message, msg_type}

-- `Inbound` of src/transport.rs. `reply` names the connection that the request came on.
pub record Inbound : Type 0 where
  pub message : Message
  pub reply : ℕ
  pub identity : Bytes

pub record QueueItem : Type 0 where
  pub priority : ℕ
  pub order : ℕ
  pub inbound : Inbound

-- `Ordering::then_with`
abbrev then_with : Ordering → Ordering → Ordering
then_with Ordering.eq o = o
then_with Ordering.lt o = Ordering.lt
then_with Ordering.gt o = Ordering.gt

-- `Ord for QueueItem`
unfoldable pub cmp : QueueItem → QueueItem → Ordering
unfolding partial_cmp
cmp self other =
    then_with (elim (partial_cmp self.priority other.priority) [ none ↦ Ordering.eq | some o ↦ o ])
      (compare other.order self.order)

abbrev is_gt : Ordering → Bool
is_gt Ordering.gt = true
is_gt Ordering.eq = false
is_gt Ordering.lt = false

-- `BinaryHeap::push`
unfoldable pub push : QueueItem → List QueueItem → List QueueItem
unfolding cmp
push item [] = item ∷ []
push item (x ∷ queue) = if is_gt (cmp item x) then item ∷ x ∷ queue else x ∷ push item queue

-- `BinaryHeap::extend`
unfoldable pub extend : List QueueItem → List QueueItem → List QueueItem
unfolding push
extend queue [] = queue
extend queue (item ∷ more) = extend (push item queue) more

pub record Held : Type 0 where
  pub item : QueueItem
  pub deadline : ℕ

abbrev pub is_execute : Inbound → Bool
is_execute i = msg_type i.message == "execute_request"

-- `!execute || (!execution_active && above_hold)`
unfoldable pub is_runnable : Bool → Option Held → QueueItem → Bool
unfolding gt
is_runnable active held item =
    not (is_execute item.inbound)
    || (not active && map_or true (λ hold. gt item.priority hold.item.priority) held)

-- The loop of `pop_runnable`: the item, what is left of the heap, and the parked items.
unfoldable pub pop_loop :
    Bool
    → Option Held
    → List QueueItem
    → List QueueItem
    → Option QueueItem × List QueueItem × List QueueItem
unfolding is_runnable
pop_loop active held [] parked = (none, [], parked)
pop_loop active held (item ∷ queue) parked =
    let rest = pop_loop active held queue (parked ++ item ∷ []) in
    if is_runnable active held item then (some item, queue, parked) else rest

unfoldable pub pop_runnable :
    List QueueItem → Bool → Option Held → Option QueueItem × List QueueItem
unfolding pop_loop extend
pop_runnable queue active held =
    let (runnable, left, parked) = pop_loop active held queue [] in (runnable, extend left parked)
