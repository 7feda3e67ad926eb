-- ===== src/BoundedQueue/Tests.antt =====
-- The bounded queue at small inputs, and its theorems at inputs that meet their hypotheses.
use cpp_design_patterns.Prelude.{
  ℕ, arith, map, ◌≤◌, ◌≡◌, refl, ◌⊎◌, ◌++◌, true, false, List, [], ◌∷◌, length,
}
use cpp_design_patterns.Prelude.Result.{ok, throws, invalid_argument}
use cpp_design_patterns.Prelude.Decimal.{to_string}
use cpp_design_patterns.BoundedQueue.{BoundedQueue, make, can_push, can_pop, push, pop, close}
use cpp_design_patterns.BoundedQueue.Threads.{
  Event, call_push, run_push, call_pop, run_pop, call_close, start, run, push_section, pop_section,
  notify_not_empty, notify_not_full, pick,
}
use cpp_design_patterns.BoundedQueue.Safety.{run_bounded_fifo, run_after_close}
use cpp_design_patterns.BoundedQueue.Sequential.{
  Calls, contents, history, effect, pushed, history-Calls,
}
use cpp_design_patterns.BoundedQueue.Liveness.{waits_are_justified}
use cpp_design_patterns.BoundedQueue.Program.{
  Producer, Program, start_producer, main_producers, produce, consume, Turn, produces, consumes,
  joins, turn, turns, begin,
}
use cpp_design_patterns.BoundedQueue.Completion.{program_delivers, program_finishes}

threads : Unit {0}
unfolding run push_section pop_section notify_not_empty notify_not_full pick start make can_push
    can_pop push pop close
threads = tt

abbrev open_queue : BoundedQueue ℕ
open_queue = record { q = []; capacity = 1; closed = false }

-- A consumer waits; two producers come, one hands over, the other waits for the place.
abbrev story : List (Event ℕ)
story = call_pop ∷ run_pop 0 ∷ call_push 7 ∷ run_push 0 ∷ call_push 8 ∷ run_push 0 ∷ []

story_end :
    ((run (start open_queue) story).queue.q ≡ 7 ∷ [])
    × ((run (start open_queue) story).push_waiting ≡ 8 ∷ [])
    × ((run (start open_queue) story).pop_ready ≡ 1)
unfolding threads
story_end = (refl, refl, refl)

-- Two producers on one place: the second waits.
abbrev crowd : List (Event ℕ)
crowd = call_push 7 ∷ run_push 0 ∷ call_push 8 ∷ run_push 0 ∷ []

make_zero : make {T = ℕ} 0 ≡ throws (invalid_argument "capacity must be > 0")
unfolding make
make_zero = refl

open_made : make 1 ≡ ok open_queue
unfolding make
open_made = refl

run_bounded_fifo_example :
    (length (run (start open_queue) story).queue.q ≤ 1)
    × ((run (start open_queue) story).pushed
        ≡ (run (start open_queue) story).popped ++ (run (start open_queue) story).queue.q)
run_bounded_fifo_example = run_bounded_fifo 1 open_queue story open_made

run_after_close_example :
    ((run (run (start open_queue) (call_push 7 ∷ run_push 0 ∷ call_close ∷ [])) crowd).queue.closed
      ≡ true)
    × ((run (run (start open_queue) (call_push 7 ∷ run_push 0 ∷ call_close ∷ [])) crowd).pushed
        ≡ 7 ∷ [])
    × ((run (run (start open_queue) (call_push 7 ∷ run_push 0 ∷ call_close ∷ [])) crowd).popped
          ++ (run
              (run (start open_queue) (call_push 7 ∷ run_push 0 ∷ call_close ∷ []))
              crowd).queue.q
        ≡ 7 ∷ [])
unfolding threads
run_after_close_example =
    run_after_close (run (start open_queue) (call_push 7 ∷ run_push 0 ∷ call_close ∷ [])) crowd refl

waits_are_justified_example :
    let s = run (start open_queue) crowd in
    ((length s.push_waiting ≡ 0)
      ⊎ ((s.queue.closed ≡ false) × (length s.queue.q ≡ 1) × (s.pop_waiting ≡ 0)))
    × ((s.pop_waiting ≡ 0)
        ⊎ ((s.queue.closed ≡ false) × (length s.queue.q ≡ 0) × (length s.push_waiting ≡ 0)))
unfolding threads
waits_are_justified_example =
    waits_are_justified 1 open_queue crowd open_made
      (record { no_push_ready = refl; no_pop_ready = refl; no_closing = refl })

-- Two producers and two consumers on a queue of four, with fewer items than in `main`.
abbrev producers : List Producer
producers = start_producer 1 2 ∷ start_producer 2 1 ∷ []

abbrev schedule : List Turn
schedule =
    consumes
    ∷ produces 0
    ∷ joins
    ∷ produces 1
    ∷ consumes
    ∷ produces 0
    ∷ joins
    ∷ consumes
    ∷ consumes
    ∷ consumes
    ∷ consumes
    ∷ []

abbrev program : Program
program = begin (record { q = []; capacity = 4; closed = false }) producers 2

program_delivers_example :
    let m = turns program schedule in
    (m.processed ≡ 3)
    × (m.handled ≡ m.enqueued)
    × (map (λ p. p.lines) m.producers
        ≡ ("producer-1 start" ∷ "producer-1 enqueued req=1000" ∷ "producer-1 enqueued req=1001"
            ∷ "producer-1 done" ∷ [])
          ∷ ("producer-2 start" ∷ "producer-2 enqueued req=2000" ∷ "producer-2 done" ∷ [])
          ∷ [])
unfolding to_string turns turn produce consume can_push can_pop push pop close
program_delivers_example = program_delivers 4 2 producers schedule (omega arith) (omega arith) refl

abbrev main_program : Program
main_program = begin (record { q = []; capacity = 4; closed = false }) main_producers 2

program_finishes_example :
    (more : List Turn) × ((turns (turns main_program (consumes ∷ [])) more).running ≡ 0)
program_finishes_example = program_finishes 4 2 main_producers (consumes ∷ []) (omega arith)

history-Calls_example :
    Calls 1
      (record { items = []; closed = false })
      (history (start open_queue) story)
      (contents (run (start open_queue) story))
unfolding threads
history-Calls_example = history-Calls 1 open_queue story refl

story_calls : history (start open_queue) story ≡ pushed 7 ∷ []
unfolding threads history effect
story_calls = refl
