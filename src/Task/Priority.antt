-- ===== src/Task/Priority.antt =====
-- PriorityTask of src/task.rs: the order of the pools' binary heaps.
pub mod Order
use Prim.Native.Nat.{Ordering, compare}
use snerdmq.Base.{
  false, unwrap_or, List, ◌∷◌, true, [], ℕ, ◌+◌, ◌-◌, ◌%◌, Bool, ◌||◌, Option, none, some, ltb,
  if◌then◌else◌,
}
use snerdmq.Task.{RetryableTask}
use snerdmq.Base.Result.{other}

-- f64::is_nan on the bits of the number.
unfoldable pub is_nan : ℕ → Bool
is_nan b = ltb 0x7ff0_0000_0000_0000 (b % 0x8000_0000_0000_0000)

-- A number that orders the bits of the f64s that are not NaN as their values: the magnitude above
-- 2^63, or below it for a negative number. Both zeros are 2^63.
unfoldable pub order_key : ℕ → ℕ
order_key b =
    if ltb b 0x8000_0000_0000_0000
    then 0x8000_0000_0000_0000 + b
    else 0x8000_0000_0000_0000 - b % 0x8000_0000_0000_0000

-- f64::partial_cmp
unfoldable pub partial_cmp : ℕ → ℕ → Option Ordering
unfolding is_nan order_key
partial_cmp a b = if is_nan a || is_nan b then none else some (compare (order_key a) (order_key b))

-- Ord::cmp of PriorityTask: by the urgency score alone, 0.0 where there is none; a NaN equals all.
unfoldable pub cmp : RetryableTask → RetryableTask → Ordering
unfolding partial_cmp
cmp a b =
    unwrap_or (partial_cmp (unwrap_or a.urgency_score 0) (unwrap_or b.urgency_score 0)) Ordering.eq

unfoldable pub is_greater : RetryableTask → RetryableTask → Bool
unfolding cmp
is_greater a b = elim (cmp a b) [ Ordering.gt ↦ true | _ ↦ false ]

-- The greatest of `best` and the list, and the others.
unfoldable pub pick : RetryableTask → List RetryableTask → RetryableTask × List RetryableTask
unfolding is_greater
pick best [] = (best, [])
pick best (u ∷ us) =
    let keep = if is_greater u best then u else best in
    let other = if is_greater u best then best else u in let (b, r) = pick keep us in (b, other ∷ r)

-- BinaryHeap::pop: a greatest element. Which of several is unspecified; here it is the first.
unfoldable pub pop : List RetryableTask → Option (RetryableTask × List RetryableTask)
unfolding pick
pop [] = none
pop (t ∷ ts) = some (pick t ts)
