-- ===== src/ThreadPool.antt =====
-- examples/thread_pool/main.cpp: `ThreadPool`, its queue of packaged tasks and its workers,
-- interleaved. A job is a packaged task: its number and what running its callable gives, a value
-- or the exception that it throws. Each event is one stretch of a thread between two points where
-- another thread can be seen: a locked section, a notification, or the run of a job.
pub mod Invariant
pub mod Shutdown
pub mod Parse
pub mod Futures
pub mod Outcomes
pub mod Progress
pub mod Completion
pub mod Main
mod Tests
use cpp_design_patterns.Prelude.{
  ℕ, zero, suc, ◌+◌, ◌++◌, Bool, true, false, ◌&&◌, ◌||◌, List, [], ◌∷◌, Option, none, some, eqb,
  if◌then◌else◌,
}
use cpp_design_patterns.Prelude.Result.{Result, ok, throws, invalid_argument, runtime_error}

pub record Job (A : Type 0) : Type 0 where
  pub id : ℕ
  pub outcome : Result A

-- The pool, where its workers stand, and the histories of jobs. A ready worker is about to take the
-- lock and make the wait's test; `notifying` counts calls of `submit` between the unlock and
-- `notify_one`, `destroying` is the destructor between the unlock and `notify_all`.
pub record ThreadPool (A : Type 0) : Type 0 where
  pub queue : List (Job A)
  pub stopping : Bool
  pub ready : ℕ
  pub waiting : ℕ
  pub running : List (Job A)
  pub stopped : ℕ
  pub notifying : ℕ
  pub destroying : Bool
  pub next_id : ℕ
  pub submitted : List (Job A)
  pub started : List (Job A)
  pub finished : List (Job A)

pub data Event (A : Type 0) : Type 0 where
  submits : Result A → Event A
  notifies : Event A
  runs_worker : Event A
  finishes : ℕ → Event A
  wakes : Event A
  destroys : Event A
  notifies_all : Event A

module _ {A : Type 0} where
  abbrev pub is_empty : List (Job A) → Bool
  is_empty [] = true
  is_empty (_ ∷ _) = false

  -- The constructor: `threads` workers, each at the head of `worker_loop`.
  unfoldable pub make : ℕ → Result (ThreadPool A)
  make threads =
      if eqb threads 0
      then throws (invalid_argument "threads must be > 0")
      else ok (record {
        queue = [];
        stopping = false;
        ready = threads;
        waiting = 0;
        running = [];
        stopped = 0;
        notifying = 0;
        destroying = false;
        next_id = 0;
        submitted = [];
        started = [];
        finished = [];
      })

  -- `submit` up to its unlock: the future's number, or the exception on a stopped pool.
  unfoldable pub submit : Result A → ThreadPool A → ThreadPool A × Result ℕ
  submit outcome p =
      let job : Job A = record { id = p.next_id; outcome = outcome } in
      if p.stopping then (p, throws (runtime_error "submit on stopped ThreadPool")) else (
        record p {
          queue = p.queue ++ (job ∷ []);
          notifying = p.notifying + 1;
          next_id = p.next_id + 1;
          submitted = p.submitted ++ (job ∷ []);
        },
        ok p.next_id,
      )

  -- `cv_.notify_one()`; a spurious wakeup is the same.
  unfoldable pub notify_one : ThreadPool A → ThreadPool A
  notify_one p = elim p.waiting [ zero ↦ p | suc k ↦ record p { waiting = k; ready = p.ready + 1 } ]

  -- A ready worker takes the lock in `worker_loop`: it waits, leaves, or takes a job.
  unfoldable pub worker_section : ThreadPool A → ThreadPool A
  worker_section p = elim p.queue [
    | [] ↦
        if p.stopping
        then record p { stopped = p.stopped + 1 }
        else record p { waiting = p.waiting + 1 }
    | job ∷ rest ↦ record p {
      queue = rest;
      running = job ∷ p.running;
      started = p.started ++ (job ∷ []);
    }
  ]

  -- Which of the running jobs ends: the one at the index, or the last beyond it.
  unfoldable pub pick : ℕ → List (Job A) → Option (Job A × List (Job A))
  pick i [] = none
  pick zero (x ∷ xs) = some (x, xs)
  pick (suc i) (x ∷ xs) = elim (pick i xs) [
    | none ↦ some (x, xs)
    | some (y, rest) ↦ some (y, x ∷ rest)
  ]

  -- `job()` ends: its outcome stands in the future, and the worker goes round the loop.
  unfoldable pub finish : ℕ → ThreadPool A → ThreadPool A
  finish i p = elim (pick i p.running) [
    | none ↦ p
    | some (job, rest) ↦ record p {
      running = rest;
      finished = p.finished ++ (job ∷ []);
      ready = p.ready + 1;
    }
  ]

  -- The destructor: its locked part, then `notify_all`; the joins wait for `stopped`.
  unfoldable pub destroy : ThreadPool A → ThreadPool A
  destroy p = record p { stopping = true; destroying = true }

  unfoldable pub notify_all : ThreadPool A → ThreadPool A
  notify_all p =
      if p.destroying
      then record p { ready = p.waiting + p.ready; waiting = 0; destroying = false }
      else p

  unfoldable pub step : ThreadPool A → Event A → ThreadPool A
  step p (submits outcome) = (submit outcome p).0
  step p notifies = elim p.notifying [ zero ↦ p | suc k ↦ notify_one (record p { notifying = k }) ]
  step p runs_worker = elim p.ready [ zero ↦ p | suc k ↦ worker_section (record p { ready = k }) ]
  step p (finishes i) = finish i p
  step p wakes = notify_one p
  step p destroys = destroy p
  step p notifies_all = notify_all p

  unfoldable pub run : ThreadPool A → List (Event A) → ThreadPool A
  unfolding step
  run p [] = p
  run p (e ∷ es) = run (step p e) es
