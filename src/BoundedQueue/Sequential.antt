-- ===== src/BoundedQueue/Sequential.antt =====
-- What `BoundedQueue` promises its callers: calls that take effect one at a time, each at once, on a
-- first-in-first-out queue of bounded length that can be closed. The threads keep the promise.
use cpp_design_patterns.Prelude.{
  ℕ, zero, suc, ◌<◌, ◌≡◌, refl, subst, ◌⊎◌, inl, inr, ◌++◌, Bool, true, false, Bool-cases, List, [],
  ◌∷◌, List-cases, none, some, Option-cases, length, ltb, ltb→lt, if◌then◌else◌, arith,
}
use cpp_design_patterns.Prelude.Result.{ok}
use cpp_design_patterns.BoundedQueue.{BoundedQueue, make, can_push, can_pop, push, pop, close}
use cpp_design_patterns.BoundedQueue.Threads.{
  System, Event, call_push, run_push, call_pop, run_pop, spurious_push, spurious_pop, call_close,
  notify_close, start, pick, notify_not_empty, notify_not_full, push_section, pop_section, step,
  run,
}
use cpp_design_patterns.BoundedQueue.Invariant.{Inv, make-Inv, step-Inv}

pub record Contents (T : Type 0) : Type 0 where
  pub items : List T
  pub closed : Bool

-- What a call does when it has the lock and its wait is over, with the answer that it returns later.
pub data Effect (T : Type 0) : Type 0 where
  pushed : T → Effect T
  refused : T → Effect T
  popped : T → Effect T
  drained : Effect T
  closes : Effect T

-- When a call may take effect with an answer, and what it does: a push is accepted when the queue is open and not full and
-- refused when it is closed; a pop takes the first item, and returns nothing when the queue is closed and empty.
pub data Call {T : Type 0} (n : ℕ) (a : Contents T) : Effect T → Contents T → Type 0 where
  accepts :
      (v : T)
      → a.closed ≡ false
      → length a.items < n
      → Call n a (pushed v) (record a { items = a.items ++ (v ∷ []) })
  refuses : (v : T) → a.closed ≡ true → Call n a (refused v) a
  takes :
      (v : T) (rest : List T) → a.items ≡ v ∷ rest → Call n a (popped v) (record a { items = rest })
  drains : a.items ≡ [] → a.closed ≡ true → Call n a drained a
  shuts : Call n a closes (record a { closed = true })

-- Calls one behind the other.
pub data Calls {T : Type 0} (n : ℕ) : Contents T → List (Effect T) → Contents T → Type 0 where
  no_calls : {a : Contents T} → Calls n a [] a
  next :
      {a b c : Contents T} {r : Effect T} {rs : List (Effect T)}
      → Call n a r b
      → Calls n b rs c
      → Calls n a (r ∷ rs) c

ℕ-cases : (k : ℕ) → (k ≡ 0) ⊎ ((j : ℕ) × (k ≡ suc j))
ℕ-cases zero = inl refl
ℕ-cases (suc j) = inr (j, refl)

module _ {T : Type 0} where
  abbrev pub contents : System T → Contents T
  contents s = record { items = s.queue.q; closed = s.queue.closed }

  -- The call that takes effect in an event, if one does: `close` in its locked part, before `notify_all`,
  -- the others in their last locked section, before their notification.
  unfoldable pub effect : System T → Event T → List (Effect T)
  unfolding pick can_push push can_pop pop
  effect s (run_push i) = elim (pick i s.push_ready) [
    | none ↦ []
    | some (v, _) ↦
        let answer : Effect T = if (push v s.queue).1 then pushed v else refused v in
        if can_push s.queue then answer ∷ [] else []
  ]
  effect s (run_pop i) = elim s.pop_ready [
    | zero ↦ []
    | suc _ ↦
        let answer : Effect T = elim (pop s.queue).1 [ none ↦ drained | some v ↦ popped v ] in
        if can_pop s.queue then answer ∷ [] else []
  ]
  effect s call_close = closes ∷ []
  effect s _ = []

  -- The calls in the order in which they take effect.
  unfoldable pub history : System T → List (Event T) → List (Effect T)
  unfolding effect
  history s [] = []
  history s (e ∷ es) = effect s e ++ history (step s e) es

  -- One event from its outcome.
  by_outcome :
      (n : ℕ) (s : System T) (e : Event T) (rs : List (Effect T)) (c : Contents T)
      → effect s e ≡ rs
      → (step s e).queue.q ≡ c.items
      → (step s e).queue.closed ≡ c.closed
      → Calls n (contents s) rs c
      → Calls n (contents s) (effect s e) (contents (step s e))
  by_outcome n s e rs c same items closed calls = rw (same, items, closed) calls

  run_push-Calls :
      (n i : ℕ) (s : System T)
      → s.queue.capacity ≡ n
      → Calls n (contents s) (effect s (run_push i)) (contents (step s (run_push i)))
  unfolding effect step push_section notify_not_empty push can_push
  run_push-Calls n i s h = elim (Option-cases (pick i s.push_ready)) [
    | inl nobody ↦
        by_outcome n s (run_push i) [] (contents s) (ground arith) (ground arith) (ground arith)
          no_calls
    | inr ((v, rest), e) ↦ elim (Bool-cases s.queue.closed) [
      | inl on ↦
          by_outcome n s (run_push i) (refused v ∷ []) (contents s) (ground arith) (ground arith)
            (ground arith) (next (refuses v on) no_calls)
      | inr off ↦ elim (Bool-cases (ltb (length s.queue.q) s.queue.capacity)) [
        | inl room ↦
            by_outcome n s (run_push i) (pushed v ∷ [])
              (record { items = s.queue.q ++ (v ∷ []); closed = s.queue.closed }) (ground arith)
              (ground arith) (ground arith)
              (next (accepts v off (ground (arith, ltb→lt (length s.queue.q) s.queue.capacity)))
                no_calls)
        | inr full ↦
            by_outcome n s (run_push i) [] (contents s) (ground arith) (ground arith) (ground arith)
              no_calls
      ]
    ]
  ]

  run_pop-Calls :
      (n i : ℕ) (s : System T)
      → Calls n (contents s) (effect s (run_pop i)) (contents (step s (run_pop i)))
  unfolding effect step pop_section notify_not_full pop can_pop
  run_pop-Calls n i s = elim (List-cases s.queue.q) [
    | inr (v, rest, e) ↦ elim (ℕ-cases s.pop_ready) [
      | inl nobody ↦
          by_outcome n s (run_pop i) [] (contents s) (ground arith) (ground arith) (ground arith)
            no_calls
      | inr (k, some_thread) ↦
          by_outcome n s (run_pop i) (popped v ∷ [])
            (record { items = rest; closed = s.queue.closed }) (ground arith) (ground arith)
            (ground arith) (next (takes v rest e) no_calls)
    ]
    | inl e ↦ elim (ℕ-cases s.pop_ready) [
      | inl nobody ↦
          by_outcome n s (run_pop i) [] (contents s) (ground arith) (ground arith) (ground arith)
            no_calls
      | inr (k, some_thread) ↦ elim (Bool-cases s.queue.closed) [
        | inl on ↦
            by_outcome n s (run_pop i) (drained ∷ []) (contents s) (ground arith) (ground arith)
              (ground arith) (next (drains e on) no_calls)
        | inr off ↦
            by_outcome n s (run_pop i) [] (contents s) (ground arith) (ground arith) (ground arith)
              no_calls
      ]
    ]
  ]

  still-Calls :
      (n : ℕ) (s : System T) (e : Event T)
      → effect s e ≡ []
      → (step s e).queue.q ≡ s.queue.q
      → (step s e).queue.closed ≡ s.queue.closed
      → Calls n (contents s) (effect s e) (contents (step s e))
  still-Calls n s e no_effect items closed =
      by_outcome n s e [] (contents s) no_effect items closed no_calls

  step-Calls :
      (n : ℕ) (s : System T) (e : Event T)
      → s.queue.capacity ≡ n
      → Calls n (contents s) (effect s e) (contents (step s e))
  unfolding effect step notify_not_full notify_not_empty close
  step-Calls n s (run_push i) h = run_push-Calls n i s h
  step-Calls n s (run_pop i) h = run_pop-Calls n i s
  step-Calls n s call_close h = next shuts no_calls
  step-Calls n s (call_push v) h = still-Calls n s (call_push v) refl refl refl
  step-Calls n s call_pop h = still-Calls n s call_pop refl refl refl
  step-Calls n s (spurious_push i) cap =
      still-Calls n s (spurious_push i) refl (ground arith) (ground arith)
  step-Calls n s spurious_pop h = still-Calls n s spurious_pop refl (ground arith) (ground arith)
  step-Calls n s notify_close h = still-Calls n s notify_close refl (ground arith) (ground arith)

  append-Calls :
      {n : ℕ} {a b c : Contents T} {rs ts : List (Effect T)}
      → Calls n a rs b
      → Calls n b ts c
      → Calls n a (rs ++ ts) c
  append-Calls no_calls later = later
  append-Calls (next call calls) later = next call (append-Calls calls later)

  run-Calls :
      (n : ℕ) (s : System T) (es : List (Event T))
      → Inv n s
      → Calls n (contents s) (history s es) (contents (run s es))
  unfolding run history
  run-Calls n s [] v = no_calls
  run-Calls n s (e ∷ es) v =
      append-Calls (step-Calls n s e v.fixed) (run-Calls n (step s e) es (step-Inv s e v))

  -- For a queue that the constructor makes with capacity `n`, after any interleaving of calls,
  -- notifications, wakeups and closings: the calls that have taken effect, in the order in which they
  -- did so and each with the answer that it returns, are calls that one thread could have made one
  -- behind the other on the abstract queue, from empty and open to what the queue holds now.
  pub history-Calls :
      (n : ℕ) (b : BoundedQueue T) (es : List (Event T))
      → make n ≡ ok b
      → Calls n
          (record { items = []; closed = false })
          (history (start b) es)
          (contents (run (start b) es))
  unfolding make start
  history-Calls n b es e =
      let no_items : b.q ≡ [] = ground arith in
      let open_still : b.closed ≡ false = ground arith in
      let empty : contents (start b) ≡ record { items = []; closed = false } =
        rw (no_items, open_still) refl in
      subst (λ a. Calls n a (history (start b) es) (contents (run (start b) es))) empty
        (run-Calls n (start b) es (make-Inv n b e))
