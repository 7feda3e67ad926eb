-- ===== src/BoundedQueue.antt =====
-- examples/bounded_queue/main.cpp: the blocking `BoundedQueue<T>`.
-- A call runs in critical sections: from the lock (or the return of a wait) to the next wait or the
-- unlock. `push` and `pop` below are those sections once the wait's test holds.
mod Invariant
pub mod Threads
pub mod Safety
pub mod Sequential
pub mod Liveness
pub mod Workers
pub mod Lines
pub mod Program
pub mod Delivery
pub mod Completion
mod Tests
use cpp_design_patterns.Prelude.{
  ℕ, suc, ◌++◌, Bool, true, false, not, ◌||◌, List, [], ◌∷◌, Option, none, some, length, ltb, eqb,
  if◌then◌else◌,
}
use cpp_design_patterns.Prelude.Result.{Result, ok, throws, invalid_argument}

-- The front of `q` is the head of the list.
pub record BoundedQueue (T : Type 0) : Type 0 where
  pub q : List T
  pub capacity : ℕ
  pub closed : Bool

module _ {T : Type 0} where
  -- The constructor.
  unfoldable pub make : ℕ → Result (BoundedQueue T)
  make capacity =
      if eqb capacity 0
      then throws (invalid_argument "capacity must be > 0")
      else ok (record { q = []; capacity = capacity; closed = false })

  abbrev pub is_empty : List T → Bool
  is_empty [] = true
  is_empty (_ ∷ _) = false

  -- The test of `not_full_.wait`.
  unfoldable pub can_push : BoundedQueue T → Bool
  can_push b = b.closed || ltb (length b.q) b.capacity

  -- The test of `not_empty_.wait`.
  unfoldable pub can_pop : BoundedQueue T → Bool
  can_pop b = b.closed || not (is_empty b.q)

  -- `push` after its wait: false if the queue is closed.
  unfoldable pub push : T → BoundedQueue T → BoundedQueue T × Bool
  push value b = if b.closed then (b, false) else (record b { q = b.q ++ (value ∷ []) }, true)

  -- `pop` after its wait: nothing if the queue is drained.
  unfoldable pub pop : BoundedQueue T → BoundedQueue T × Option T
  pop b = elim b.q [ [] ↦ (b, none) | out ∷ rest ↦ (record b { q = rest }, some out) ]

  -- The locked part of `close`.
  unfoldable pub close : BoundedQueue T → BoundedQueue T
  close b = record b { closed = true }
