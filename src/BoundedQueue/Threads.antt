-- ===== src/BoundedQueue/Threads.antt =====
-- The threads that call a `BoundedQueue`, interleaved: who waits on which condition variable.
-- A thread inside `push` is known by the value that it carries, one inside `pop` by being counted.
-- A ready thread is one that has called, was notified or woke up spuriously: it takes the lock and
-- makes the wait's test. Each event is one critical section.
use cpp_design_patterns.Prelude.{
  ℕ, zero, suc, ◌+◌, ◌≡◌, refl, ap, ◌++◌, List, [], ◌∷◌, Option, none, some, length, if◌then◌else◌,
}
use cpp_design_patterns.BoundedQueue.{BoundedQueue, can_push, can_pop, push, pop, close}

-- The thread that the system picks: the one at the index, or the last one beyond it.
unfoldable pub pick {ℓ} : {A : Type ℓ} → ℕ → List A → Option (A × List A)
pick i [] = none
pick zero (x ∷ xs) = some (x, xs)
pick (suc i) (x ∷ xs) = elim (pick i xs) [
  | none ↦ some (x, xs)
  | some (y, rest) ↦ some (y, x ∷ rest)
]

-- With the histories of what went in, what came out and what was refused.
pub record System (T : Type 0) : Type 0 where
  pub queue : BoundedQueue T
  pub push_ready : List T
  pub push_waiting : List T
  pub pop_ready : ℕ
  pub pop_waiting : ℕ
  pub closing : ℕ  -- calls of `close` between the unlock and `notify_all`
  pub pushed : List T
  pub popped : List T
  pub refused : List T
  pub drained : ℕ  -- calls of `pop` that returned nothing

pub data Event (T : Type 0) : Type 0 where
  call_push : T → Event T
  run_push : ℕ → Event T
  call_pop : Event T
  run_pop : ℕ → Event T
  spurious_push : ℕ → Event T
  spurious_pop : Event T
  call_close : Event T
  notify_close : Event T

module _ {T : Type 0} where
  unfoldable pub start : BoundedQueue T → System T
  start b = record {
    queue = b;
    push_ready = [];
    push_waiting = [];
    pop_ready = 0;
    pop_waiting = 0;
    closing = 0;
    pushed = [];
    popped = [];
    refused = [];
    drained = 0;
  }

  -- `not_empty_.notify_one()`
  unfoldable pub notify_not_empty : System T → System T
  notify_not_empty s = elim s.pop_waiting [
    | zero ↦ s
    | suc k ↦ record s { pop_waiting = k; pop_ready = s.pop_ready + 1 }
  ]

  -- `not_full_.notify_one()`: the system picks the thread. A spurious wakeup is the same.
  unfoldable pub notify_not_full : ℕ → System T → System T
  notify_not_full i s = elim (pick i s.push_waiting) [
    | none ↦ s
    | some (v, rest) ↦ record s { push_waiting = rest; push_ready = v ∷ s.push_ready }
  ]

  -- A thread in `push` holds the lock.
  unfoldable pub push_section : T → System T → System T
  push_section value s =
      let (b, done) = push value s.queue in
      let entered =
        if done
        then notify_not_empty (record s { queue = b; pushed = s.pushed ++ (value ∷ []) })
        else record s { queue = b; refused = s.refused ++ (value ∷ []) } in
      if can_push s.queue then entered else record s { push_waiting = value ∷ s.push_waiting }

  -- A thread in `pop` holds the lock; `i` is whom `notify_one` picks.
  unfoldable pub pop_section : ℕ → System T → System T
  pop_section i s =
      let (b, out) = pop s.queue in
      let left : System T = elim out [
        | none ↦ record s { queue = b; drained = s.drained + 1 }
        | some v ↦ notify_not_full i (record s { queue = b; popped = s.popped ++ (v ∷ []) })
      ] in
      if can_pop s.queue then left else record s { pop_waiting = s.pop_waiting + 1 }

  unfoldable pub step : System T → Event T → System T
  step s (call_push v) = record s { push_ready = v ∷ s.push_ready }
  step s (run_push i) = elim (pick i s.push_ready) [
    | none ↦ s
    | some (v, rest) ↦ push_section v (record s { push_ready = rest })
  ]
  step s call_pop = record s { pop_ready = s.pop_ready + 1 }
  step s (run_pop i) = elim s.pop_ready [
    | zero ↦ s
    | suc k ↦ pop_section i (record s { pop_ready = k })
  ]
  step s (spurious_push i) = notify_not_full i s
  step s spurious_pop = notify_not_empty s
  step s call_close = record s { queue = close s.queue; closing = s.closing + 1 }
  step s notify_close = elim s.closing [
    | zero ↦ s
    | suc k ↦ record s {
      closing = k;
      push_ready = s.push_waiting ++ s.push_ready;
      push_waiting = [];
      pop_ready = s.pop_waiting + s.pop_ready;
      pop_waiting = 0;
    }
  ]

  unfoldable pub run : System T → List (Event T) → System T
  unfolding step
  run s [] = s
  run s (e ∷ es) = run (step s e) es

  -- A pick leaves one thread fewer, and finds nobody only among nobody.
  abbrev pub Picked : List T → Option (T × List T) → Type 0
  Picked xs none = xs ≡ []
  Picked xs (some (v, rest)) = length xs ≡ suc (length rest)

  pub pick-Picked : (i : ℕ) (xs : List T) → Picked xs (pick i xs)
  unfolding pick
  pick-Picked i [] = refl
  pick-Picked zero (x ∷ xs) = refl
  pick-Picked (suc i) (x ∷ xs) = go (pick i xs) (pick-Picked i xs)
    where
      go :
          (r : Option (T × List T))
          → Picked xs r
          → Picked (x ∷ xs) (elim r [ none ↦ some (x, xs) | some (y, rest) ↦ some (y, x ∷ rest) ])
      go none h = refl
      go (some (y, rest)) h = ap suc h
