-- ===== src/Queue.antt =====
-- The queue between the client's threads (include/ThreadSafeQueue.h). Each method holds the mutex
-- from its first line to its last, so that a method is one step on the state. A wait on the
-- condition variable is a step that answers nothing until its predicate holds.
pub mod Fifo
mod Tests
use booking.Prelude.{
  Bool, true, false, ◌&&◌, ◌||◌, not, List, [], ◌∷◌, ◌++◌, Option, none, some, ℕ, length,
  if◌then◌else◌,
}

pub record Queue {ℓ} (T : Type ℓ) : Type ℓ where
  pub items : List T
  pub stopped : Bool

-- What a blocking call has come to: it still waits, or it returned with or without an item.
pub data Outcome {ℓ} (T : Type ℓ) : Type ℓ where
  waits : Outcome T
  returned : Option T → Outcome T

module _ {ℓ} {T : Type ℓ} where
  abbrev pub new_queue : Queue T
  new_queue = record { items = []; stopped = false }

  unfoldable pub empty : Queue T → Bool
  empty q = elim q.items [ [] ↦ true | x ∷ xs ↦ false ]

  unfoldable pub size : Queue T → ℕ
  size q = length q.items

  unfoldable pub is_stopped : Queue T → Bool
  is_stopped q = q.stopped

  -- A stopped queue takes nothing more.
  unfoldable pub push : Queue T → T → Queue T
  push q item = if q.stopped then q else record q { items = q.items ++ (item ∷ []) }

  -- `item = move(front()); pop()`.
  unfoldable pub take_front : Queue T → Queue T × Option T
  take_front q = elim q.items [ [] ↦ (q, none) | x ∷ xs ↦ (record q { items = xs }, some x) ]

  unfoldable pub try_pop_immediate : Queue T → Queue T × Option T
  unfolding empty take_front
  try_pop_immediate q = if empty q || q.stopped then (q, none) else take_front q

  -- `timed_out` says whether the wait ended by its timeout with the predicate still false.
  unfoldable pub try_pop : Queue T → Bool → Queue T × Outcome T
  unfolding empty take_front
  try_pop q timed_out =
      if not (empty q) || q.stopped
      then if q.stopped && empty q
        then (q, returned none)
        else if empty q
        then (q, returned none)
        else (let (q', item) = take_front q in (q', returned item))
      else if timed_out
      then (q, returned none)
      else (q, waits)

  unfoldable pub pop : Queue T → Queue T × Outcome T
  unfolding empty take_front
  pop q =
      if not (empty q) || q.stopped
      then if q.stopped && empty q
        then (q, returned none)
        else (let (q', item) = take_front q in (q', returned item))
      else (q, waits)

  unfoldable pub stop : Queue T → Queue T
  stop q = record q { stopped = true }

  unfoldable pub clear : Queue T → Queue T
  clear q = record q { items = [] }
