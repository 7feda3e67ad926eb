-- ===== src/BoundedQueue/Invariant.antt =====
-- What holds of the queue and its threads after every critical section.
use cpp_design_patterns.Prelude.{
  ℕ, zero, suc, ◌+◌, ◌≤◌, ◌<◌, ◌≡◌, refl, ◌++◌, true, false, List, [], ◌∷◌, Option, none, some,
  length, length-append, append_assoc, arith,
}
use cpp_design_patterns.BoundedQueue.{BoundedQueue, make, can_push, can_pop, push, pop, close}
use cpp_design_patterns.Prelude.Result.{ok}
use cpp_design_patterns.BoundedQueue.Threads.{
  pick, System, Event, call_push, run_push, call_pop, run_pop, spurious_push, spurious_pop,
  call_close, notify_close, start, notify_not_empty, notify_not_full, push_section, pop_section,
  step, run, Picked, pick-Picked,
}

module _ {T : Type 0} where
  -- `n` is the capacity given to the constructor.
  pub record Inv (n : ℕ) (s : System T) : Type 0 where
    pub fixed : s.queue.capacity ≡ n
    pub bounded : length s.queue.q ≤ s.queue.capacity
    pub fifo : s.pushed ≡ s.popped ++ s.queue.q
    pub no_lost_pop : s.queue.closed ≡ false → 0 < s.pop_waiting → length s.queue.q ≤ s.pop_ready
    pub no_lost_push :
        s.queue.closed ≡ false
        → 0 < length s.push_waiting
        → s.queue.capacity ≤ length s.queue.q + length s.push_ready
    pub woken :
        s.queue.closed ≡ true → s.closing ≡ 0 → (s.pop_waiting ≡ 0) × (length s.push_waiting ≡ 0)
    pub in_close : 0 < s.closing → s.queue.closed ≡ true

  pub make-Inv : (n : ℕ) (b : BoundedQueue T) → make n ≡ ok b → Inv n (start b)
  unfolding start make
  make-Inv n b e = ground arith

  pub notify_not_full-Inv : {n : ℕ} (i : ℕ) (s : System T) → Inv n s → Inv n (notify_not_full i s)
  unfolding notify_not_full
  notify_not_full-Inv i s v = ground (arith, pick-Picked i s.push_waiting)

  pub notify_not_empty-Inv : {n : ℕ} (s : System T) → Inv n s → Inv n (notify_not_empty s)
  unfolding notify_not_empty
  notify_not_empty-Inv s v = ground arith

  push_section-Inv :
      {n : ℕ} (x : T) (s : System T) (rest : List T)
      → length s.push_ready ≡ suc (length rest)
      → Inv n s
      → Inv n (push_section x (record s { push_ready = rest }))
  unfolding push_section push can_push notify_not_empty
  push_section-Inv x s rest e v =
      ground (arith, length-append s.queue.q (x ∷ []), append_assoc s.popped s.queue.q (x ∷ []))

  pop_section-Inv :
      {n : ℕ} (i k : ℕ) (s : System T) (q : List T)
      → s.queue.q ≡ q
      → s.pop_ready ≡ suc k
      → Inv n s
      → Inv n (pop_section i (record s { pop_ready = k }))
  unfolding pop_section pop can_pop notify_not_full
  pop_section-Inv i k s [] q e v = ground arith
  pop_section-Inv i k s (x ∷ rest) q e v =
      ground (arith, pick-Picked i s.push_waiting, append_assoc s.popped (x ∷ []) rest)

  run_push-Inv :
      {n : ℕ} (s : System T) (r : Option (T × List T))
      → Picked s.push_ready r
      → Inv n s
      → Inv n
          (elim r [ none ↦ s | some (v, rest) ↦ push_section v (record s { push_ready = rest }) ])
  run_push-Inv s none e v = v
  run_push-Inv s (some (x, rest)) e v = push_section-Inv x s rest e v

  run_pop-Inv :
      {n : ℕ} (i : ℕ) (s : System T) (m : ℕ)
      → s.pop_ready ≡ m
      → Inv n s
      → Inv n (elim m [ zero ↦ s | suc k ↦ pop_section i (record s { pop_ready = k }) ])
  run_pop-Inv i s zero e v = v
  run_pop-Inv i s (suc k) e v = pop_section-Inv i k s s.queue.q refl e v

  -- Every critical section keeps the invariant.
  pub step-Inv : {n : ℕ} (s : System T) (e : Event T) → Inv n s → Inv n (step s e)
  unfolding step close
  step-Inv s (call_push x) v = ground arith
  step-Inv s (run_push i) v = run_push-Inv s (pick i s.push_ready) (pick-Picked i s.push_ready) v
  step-Inv s call_pop v = ground arith
  step-Inv s (run_pop i) v = run_pop-Inv i s s.pop_ready refl v
  step-Inv s (spurious_push i) v = notify_not_full-Inv i s v
  step-Inv s spurious_pop v = notify_not_empty-Inv s v
  step-Inv s call_close v = ground arith
  step-Inv s notify_close v = ground (arith, length-append s.push_waiting s.push_ready)

  pub run-Inv : {n : ℕ} (s : System T) (es : List (Event T)) → Inv n s → Inv n (run s es)
  unfolding run
  run-Inv s [] v = v
  run-Inv s (e ∷ es) v = run-Inv (step s e) es (step-Inv s e v)
