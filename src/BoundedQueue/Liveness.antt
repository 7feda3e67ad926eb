-- ===== src/BoundedQueue/Liveness.antt =====
-- No wakeup is lost although `push` and `pop` notify one thread only.
use cpp_design_patterns.Prelude.{ℕ, ◌≡◌, ◌⊎◌, false, Bool-cases, inl, inr, List, length, arith}
use cpp_design_patterns.Prelude.Result.{ok}
use cpp_design_patterns.BoundedQueue.{BoundedQueue, make}
use cpp_design_patterns.BoundedQueue.Threads.{System, Event, start, run}
use cpp_design_patterns.BoundedQueue.Invariant.{make-Inv, run-Inv}

module _ {T : Type 0} where
  -- Nobody is on the way to the lock: every thread inside a call waits on a condition variable.
  pub record AllWait (s : System T) : Type 0 where
    pub no_push_ready : length s.push_ready ≡ 0
    pub no_pop_ready : s.pop_ready ≡ 0
    pub no_closing : s.closing ≡ 0

  -- After any interleaving on a queue of capacity `n`, if all threads inside a call wait: nobody
  -- waits in `push`, or the queue is open and full and nobody waits in `pop`; and nobody waits in
  -- `pop`, or the queue is open and empty and nobody waits in `push`.
  pub waits_are_justified :
      (n : ℕ) (b : BoundedQueue T) (es : List (Event T))
      → make n ≡ ok b
      → AllWait (run (start b) es)
      → let s = run (start b) es in
        ((length s.push_waiting ≡ 0)
          ⊎ ((s.queue.closed ≡ false) × (length s.queue.q ≡ n) × (s.pop_waiting ≡ 0)))
        × ((s.pop_waiting ≡ 0)
            ⊎ ((s.queue.closed ≡ false) × (length s.queue.q ≡ 0) × (length s.push_waiting ≡ 0)))
  unfolding make
  waits_are_justified n b es e a =
      let s = run (start b) es in
      let v = run-Inv (start b) es (make-Inv n b e) in
      elim (Bool-cases s.queue.closed) [
        | inl c ↦ let w = v.woken c a.no_closing in (inl w.1, inl w.0)
        | inr o ↦
            let p = v.no_lost_push o in let q = v.no_lost_pop o in (ground arith, ground arith)
      ]
