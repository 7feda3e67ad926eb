-- ===== src/ThreadPool/Tests.antt =====
-- The thread pool at small inputs, and its theorems at inputs that meet their hypotheses.
use mathlib.Core.List.{Perm}
use cpp_design_patterns.Prelude.{
  ℕ, map, String, ◌≤◌, ◌<◌, ◌^◌, Option, some, get_elem?, ◌≡◌, ◌≢◌, ◌⊎◌, refl, arith, ◌++◌, true,
  false, List, [], ◌∷◌, length,
}
use cpp_design_patterns.Prelude.Result.{ok, throws, invalid_argument, runtime_error}
use cpp_design_patterns.ThreadPool.{
  ThreadPool, Event, submits, notifies, runs_worker, finishes, destroys, notifies_all, wakes, make,
  submit, notify_one, worker_section, pick, finish, destroy, notify_all, step, run,
}
use cpp_design_patterns.ThreadPool.Futures.{future, get_all, accepted}
use cpp_design_patterns.ThreadPool.Outcomes.{futures_deliver}
use cpp_design_patterns.ThreadPool.Progress.{worker_events, work_due}
use cpp_design_patterns.ThreadPool.Completion.{values_come}
use cpp_design_patterns.ThreadPool.Main.{
  submissions, parsed, sum, start_main, add_up, blocked, printed, checksum_line, print_total,
  finish_main, main_checksum,
}
use cpp_design_patterns.ThreadPool.Shutdown.{
  run_fifo_bounded, joined_ran_all_once, Idle-is_justified, destructor_ends, Moves, goes_on,
  job_ends, all_notified, AllMove, work_left,
}

pool : Unit {0}
unfolding run step make submit notify_one worker_section pick finish destroy notify_all
pool = tt

abbrev two_workers : ThreadPool ℕ
two_workers = record {
  queue = [];
  stopping = false;
  ready = 2;
  waiting = 0;
  running = [];
  stopped = 0;
  notifying = 0;
  destroying = false;
  next_id = 0;
  submitted = [];
  started = [];
  finished = [];
}

made : make 2 ≡ ok two_workers
unfolding make
made = refl

no_threads : make {A = ℕ} 0 ≡ throws (invalid_argument "threads must be > 0")
unfolding make
no_threads = refl

-- Both workers wait; two jobs come, one of which throws; the destructor drains the queue.
abbrev quiet : List (Event ℕ)
quiet = runs_worker ∷ runs_worker ∷ []

abbrev busy : List (Event ℕ)
busy =
    quiet
    ++ submits (ok 7)
      ∷ notifies
      ∷ submits (throws (runtime_error "x"))
      ∷ notifies
      ∷ runs_worker
      ∷ []

abbrev life : List (Event ℕ)
life =
    busy
    ++ destroys
      ∷ notifies_all
      ∷ finishes 0
      ∷ runs_worker
      ∷ finishes 0
      ∷ runs_worker
      ∷ runs_worker
      ∷ []

submit_stopped :
    (submit (ok 1) (run two_workers life)).1 ≡ throws (runtime_error "submit on stopped ThreadPool")
unfolding pool
submit_stopped = refl

run_fifo_bounded_example :
    ((run two_workers busy).submitted
      ≡ (run two_workers busy).started ++ (run two_workers busy).queue)
    × (length (run two_workers busy).running ≤ 2)
run_fifo_bounded_example = run_fifo_bounded 2 two_workers busy made

joined_ran_all_once_example :
    ((run two_workers life).stopping ≡ true)
    × Perm (run two_workers life).submitted (run two_workers life).finished
unfolding pool
joined_ran_all_once_example = joined_ran_all_once 2 two_workers life made refl

Idle-is_justified_example :
    ((run two_workers quiet).stopped ≡ 2)
    ⊎ (((run two_workers quiet).stopping ≡ false) × (length (run two_workers quiet).queue ≡ 0))
unfolding pool
Idle-is_justified_example = Idle-is_justified 2 two_workers quiet made (record {
  none_ready = refl;
  none_running = refl;
  none_notifying = refl;
  not_destroying = refl;
})

-- The destructor's notification, and then both workers to the end of the queue, one job ending between.
abbrev last_moves : List (Event ℕ)
last_moves = notifies_all ∷ runs_worker ∷ finishes 1 ∷ runs_worker ∷ []

last_moves-AllMove : AllMove (run two_workers (busy ++ (destroys ∷ []))) last_moves
unfolding pool
last_moves-AllMove = (
  all_notified refl,
  (goes_on (omega arith), (job_ends 1 (omega arith), (goes_on (omega arith), tt))),
)

destructor_ends_example :
    let s = run two_workers (busy ++ (destroys ∷ [])) in
    (4 ≤ work_left s)
    × (((run s last_moves).stopped ≡ 2)
        ⊎ ((e : Event ℕ) × Moves (run s last_moves) e × (e ≢ wakes)))
unfolding pool
destructor_ends_example =
    destructor_ends 2 two_workers (busy ++ (destroys ∷ [])) last_moves made refl last_moves-AllMove

futures_deliver_example : get_elem? (accepted life) 0 ≡ some (ok 7)
unfolding pool future
futures_deliver_example = futures_deliver 2 two_workers life 0 (ok 7) made refl

values_come_example :
    let s = run two_workers busy in
    get_all 2 0 (run s (worker_events (work_due s) s)) ≡ some (throws (runtime_error "x"))
unfolding pool
values_come_example = values_come 2 two_workers busy made refl

-- The pool of `main`.
abbrev parsers : ThreadPool (Option ℕ)
parsers = record {
  queue = [];
  stopping = false;
  ready = 4;
  waiting = 0;
  running = [];
  stopped = 0;
  notifying = 0;
  destroying = false;
  next_id = 0;
  submitted = [];
  started = [];
  finished = [];
}

abbrev banner : List String
banner = "Thread pool example: fan-out parsing stage." ∷ []

parsers_made : start_main 4 [] ≡ (banner, ok parsers)
unfolding start_main make
parsers_made = refl

main_checksum_example :
    let s = run parsers (submissions 10 1) in
    (values : List ℕ) × (parsed 10 1 ≡ map some values)
    × (sum values < 2 ^ 63)
    × ((finish_main s banner ≡ blocked)
        ⊎ (finish_main s banner ≡ printed (checksum_line (sum values) banner)))
    × (finish_main (run s (worker_events (work_due s) s)) banner
        ≡ printed (checksum_line (sum values) banner))
unfolding run step submit notify_one
main_checksum_example = main_checksum 4 parsers (submissions 10 1) [] banner parsers_made refl refl

-- Before a worker has moved, `main` blocks in its first `get`.
main_blocks : finish_main (run parsers (submissions 10 1)) [] ≡ blocked
unfolding finish_main print_total get_all future pool
main_blocks = refl

add_up_test : add_up 0 (some 3 ∷ some 4 ∷ []) ≡ some 7
unfolding add_up
add_up_test = refl
