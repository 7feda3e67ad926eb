-- ===== src/BoundedQueue/Safety.antt =====
-- What no interleaving of the calls can break: bound, order and the effect of closing.
use cpp_design_patterns.Prelude.{
  ℕ, zero, suc, ◌≤◌, ◌≡◌, refl, ◌∙◌, ◌++◌, true, List, [], ◌∷◌, length, append_assoc, arith,
}
use cpp_design_patterns.Prelude.Result.{ok}
use cpp_design_patterns.BoundedQueue.{BoundedQueue, make, can_push, can_pop, push, pop, close}
use cpp_design_patterns.BoundedQueue.Threads.{
  System, Event, run_pop, start, notify_not_empty, notify_not_full, push_section, pop_section, step,
  run,
}
use cpp_design_patterns.BoundedQueue.Invariant.{make-Inv, run-Inv}

module _ {T : Type 0} where
  -- For a queue that the constructor makes with capacity `n`, after any interleaving of calls,
  -- wakeups and closings: the queue holds at most `n` items, and the items accepted so far are, in
  -- order, those handed out followed by those in the queue.
  pub run_bounded_fifo :
      (n : ℕ) (b : BoundedQueue T) (es : List (Event T))
      → make n ≡ ok b
      → (length (run (start b) es).queue.q ≤ n)
        × ((run (start b) es).pushed ≡ (run (start b) es).popped ++ (run (start b) es).queue.q)
  run_bounded_fifo n b es e =
      let v = run-Inv (start b) es (make-Inv n b e) in (omega (arith, v.bounded, v.fixed), v.fifo)

  -- What a closed queue keeps from one section to the next.
  pub record Closed (s t : System T) : Type 0 where
    pub still : t.queue.closed ≡ true
    pub accepted : t.pushed ≡ s.pushed
    pub remaining : t.popped ++ t.queue.q ≡ s.popped ++ s.queue.q

  Closed-trans : (s t u : System T) → Closed s t → Closed t u → Closed s u
  Closed-trans s t u v w = record {
    still = w.still;
    accepted = w.accepted ∙ v.accepted;
    remaining = w.remaining ∙ v.remaining;
  }

  pop_section-Closed :
      (i : ℕ) (s : System T) (q : List T)
      → s.queue.q ≡ q
      → s.queue.closed ≡ true
      → Closed s (pop_section i s)
  unfolding pop_section pop can_pop notify_not_full
  pop_section-Closed i s [] e c = ground arith
  pop_section-Closed i s (x ∷ rest) e c = ground (arith, append_assoc s.popped (x ∷ []) rest)

  step-Closed : (s : System T) (e : Event T) → s.queue.closed ≡ true → Closed s (step s e)
  unfolding step push_section push can_push notify_not_empty notify_not_full close
  step-Closed s (run_pop i) c = go s.pop_ready
    where
      go :
          (n : ℕ)
          → Closed s (elim n [ zero ↦ s | suc k ↦ pop_section i (record s { pop_ready = k }) ])
      go zero = record { still = c; accepted = refl; remaining = refl }
      go (suc k) =
          let w = pop_section-Closed i (record s { pop_ready = k }) s.queue.q refl c in
          record { still = w.still; accepted = w.accepted; remaining = w.remaining }
  step-Closed s _ c = ground arith

  run-Closed : (s : System T) (es : List (Event T)) → s.queue.closed ≡ true → Closed s (run s es)
  unfolding run
  run-Closed s [] c = record { still = c; accepted = refl; remaining = refl }
  run-Closed s (e ∷ es) c =
      let w = step-Closed s e c in
      Closed-trans s (step s e) (run (step s e) es) w (run-Closed (step s e) es w.still)

  -- Once the queue is closed it stays closed whatever the threads do, no further item is accepted,
  -- and none that was accepted is lost: what is handed out and what remains, in order, stay what
  -- they were together.
  pub run_after_close :
      (s : System T) (es : List (Event T))
      → s.queue.closed ≡ true
      → ((run s es).queue.closed ≡ true)
        × ((run s es).pushed ≡ s.pushed)
        × ((run s es).popped ++ (run s es).queue.q ≡ s.popped ++ s.queue.q)
  run_after_close s es c = let w = run-Closed s es c in (w.still, w.accepted, w.remaining)
