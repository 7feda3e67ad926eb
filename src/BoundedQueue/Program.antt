-- ===== src/BoundedQueue/Program.antt =====
-- examples/bounded_queue/main.cpp: `main` with its producers and consumers interleaved on one queue.
-- An event is one call of a thread on the queue from the lock to the unlock; a thread whose wait
-- would not end stays where it is.
use cpp_design_patterns.Prelude.{
  ℕ, zero, String, suc, ◌+◌, true, false, List, [], ◌∷◌, ◌++◌, none, some, eqb, get_elem?, set,
}
use cpp_design_patterns.Prelude.Decimal.{to_string}
use cpp_design_patterns.Log.{Log, log_line}
use cpp_design_patterns.BoundedQueue.{BoundedQueue, can_push, can_pop, push, pop, close}
use cpp_design_patterns.BoundedQueue.Workers.{WorkItem, request}

-- A producer's loop: its next number, the rounds left, and the lines that it has printed.
pub record Producer : Type 0 where
  pub producer_id : ℕ
  pub i : ℕ
  pub left : ℕ
  pub lines : Log

-- `running` consumers are in their loops; `enqueued` and `handled` are the items pushed and handled
-- so far.
pub record Program : Type 0 where
  pub queue : BoundedQueue WorkItem
  pub producers : List Producer
  pub running : ℕ
  pub returned : ℕ
  pub processed : ℕ
  pub enqueued : List WorkItem
  pub handled : List WorkItem

abbrev pub total_left : List Producer → ℕ
total_left [] = 0
total_left (p ∷ ps) = p.left + total_left ps

abbrev pub enqueued_line : ℕ → ℕ → List String
enqueued_line producer_id req_id =
    "producer-" ∷ to_string producer_id ∷ " enqueued req=" ∷ to_string req_id ∷ []

-- The line behind the loop, when no round is left.
abbrev pub done_line : ℕ → ℕ → Log → Log
done_line producer_id zero lines =
    log_line ("producer-" ∷ to_string producer_id ∷ " done" ∷ []) lines
done_line producer_id (suc _) lines = lines

-- A producer at the head of its loop.
abbrev pub start_producer : ℕ → ℕ → Producer
start_producer producer_id items = record {
  producer_id = producer_id;
  i = 0;
  left = items;
  lines =
      done_line producer_id items
        (log_line ("producer-" ∷ to_string producer_id ∷ " start" ∷ []) []);
}

-- The producers of `main`.
abbrev pub main_producers : List Producer
main_producers = start_producer 1 6 ∷ start_producer 2 6 ∷ []

-- A round whose item was accepted, with `left` more to go.
abbrev pub after_round : Producer → ℕ → Producer
after_round p left = record p {
  i = p.i + 1;
  left = left;
  lines =
      done_line p.producer_id left
        (log_line (enqueued_line p.producer_id (request p.producer_id p.i).request_id) p.lines);
}

-- A round that found the queue closed.
abbrev pub after_refusal : Producer → Producer
after_refusal p = record p {
  left = 0;
  lines = log_line ("producer-" ∷ to_string p.producer_id ∷ " stopped (queue closed)" ∷ []) p.lines;
}

-- One call of `push` by a producer, with what its loop does with the answer.
unfoldable pub produce : ℕ → Producer → Program → Program
unfolding can_push push
produce k p m = elim p.left [
  | zero ↦ m
  | suc left ↦
      let item = request p.producer_id p.i in
      let (b, done) = push item m.queue in
      elim (can_push m.queue) [
        | false ↦ m
        | true ↦ elim done [
          | true ↦ record m {
            queue = b;
            producers = set m.producers k (after_round p left);
            enqueued = m.enqueued ++ (item ∷ []);
          }
          | false ↦ record m { queue = b; producers = set m.producers k (after_refusal p) }
        ]
      ]
]

-- One call of `pop` by a consumer, with what its loop does with the answer.
unfoldable pub consume : Program → Program
unfolding can_pop pop
consume m = elim m.running [
  | zero ↦ m
  | suc others ↦
      let (b, item) = pop m.queue in
      elim (can_pop m.queue) [
        | false ↦ m
        | true ↦ elim item [
          | none ↦ record m { queue = b; running = others; returned = m.returned + 1 }
          | some w ↦ record m {
            queue = b;
            processed = m.processed + 1;
            handled = m.handled ++ (w ∷ []);
          }
        ]
      ]
]

pub data Turn : Type 0 where
  produces : (k : ℕ) → Turn
  consumes : Turn
  joins : Turn

-- `main` closes the queue when the producers have been joined.
unfoldable pub turn : Program → Turn → Program
unfolding produce consume close
turn m (produces k) = elim (get_elem? m.producers k) [ none ↦ m | some p ↦ produce k p m ]
turn m consumes = consume m
turn m joins = elim (eqb (total_left m.producers) 0) [
  | false ↦ m
  | true ↦ record m { queue = close m.queue }
]

unfoldable pub turns : Program → List Turn → Program
unfolding turn
turns m [] = m
turns m (t ∷ ts) = turns (turn m t) ts

-- `main` before its threads start.
abbrev pub begin : BoundedQueue WorkItem → List Producer → ℕ → Program
begin b producers consumers = record {
  queue = b;
  producers = producers;
  running = consumers;
  returned = 0;
  processed = 0;
  enqueued = [];
  handled = [];
}

-- The first and the last line of `main`.
abbrev pub banner : Log → Log
banner = log_line ("Bounded queue example: backpressure under load." ∷ [])

unfoldable pub summary : Program → Log → Log
unfolding to_string
summary m = log_line ("Processed " ∷ to_string m.processed ∷ " items." ∷ [])
