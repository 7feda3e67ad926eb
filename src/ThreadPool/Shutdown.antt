-- ===== src/ThreadPool/Shutdown.antt =====
-- Order, exactly-once and the way through the destructor, under every schedule.
use mathlib.Core.List.{Perm}
use cpp_design_patterns.Prelude.{
  ℕ, ◌+◌, ◌*◌, ◌≤◌, ◌<◌, ◌≡◌, ◌≢◌, refl, ◌⊎◌, inl, inr, ◌++◌, true, false, Bool-cases, List, [],
  ◌∷◌, Option, none, some, length, append-nil, arith, dec_lt, if◌then◌else◌,
}
use cpp_design_patterns.Prelude.Result.{ok}
use cpp_design_patterns.ThreadPool.{
  Job, ThreadPool, Event, notifies, wakes, notify_one, runs_worker, finishes, notifies_all, make,
  worker_section, pick, finish, notify_all, step, run,
}
use cpp_design_patterns.ThreadPool.Invariant.{
  Counts, Picked, pick-Picked, make-Counts, run-Counts, make-Jobs, run-Jobs,
}

module _ {A : Type 0} where
  -- On a pool of `n` threads, after any interleaving: jobs are started in the order in which they
  -- were submitted, and at most `n` run at once.
  pub run_fifo_bounded :
      (n : ℕ) (p : ThreadPool A) (es : List (Event A))
      → make n ≡ ok p
      → ((run p es).submitted ≡ (run p es).started ++ (run p es).queue)
        × (length (run p es).running ≤ n)
  run_fifo_bounded n p es e =
      let c = run-Counts n p es (make-Counts n p e) in
      ((run-Jobs p es (make-Jobs n p e)).fifo, omega (arith, c.workers))

  empty_of_length : (xs : List (Job A)) → length xs ≡ 0 → xs ≡ []
  empty_of_length [] e = refl
  empty_of_length (x ∷ xs) e = absurd (omega arith)

  -- When all `n` workers have left their loops, so that the joins of the destructor return, the
  -- pool was told to stop and the jobs that finished are those that were submitted, each once.
  pub joined_ran_all_once :
      (n : ℕ) (p : ThreadPool A) (es : List (Event A))
      → make n ≡ ok p
      → (run p es).stopped ≡ n
      → ((run p es).stopping ≡ true) × Perm (run p es).submitted (run p es).finished
  unfolding make
  joined_ran_all_once n p es e all =
      let s = run p es in
      let c = run-Counts n p es (make-Counts n p e) in
      let j = run-Jobs p es (make-Jobs n p e) in
      let some_stopped : 0 < s.stopped = ground arith in
      let no_queue : s.queue ≡ [] = empty_of_length s.queue (c.emptied some_stopped).1 in
      let no_running : s.running ≡ [] = empty_of_length s.running (omega (arith, c.workers)) in
      (
        (c.emptied some_stopped).0,
        rw (j.fifo, no_queue, append-nil s.started)
            (rw (no_running, append-nil s.finished) at j.once),
      )

  -- A pool on which nobody can move: no worker is ready or runs a job, no notification is due.
  pub record Idle (p : ThreadPool A) : Type 0 where
    pub none_ready : p.ready ≡ 0
    pub none_running : length p.running ≡ 0
    pub none_notifying : p.notifying ≡ 0
    pub not_destroying : p.destroying ≡ false

  -- After any interleaving on a pool of `n` threads, if nobody can move, then either all workers
  -- have left, or the pool is not stopping, all workers that are left wait and no job is queued.
  pub Idle-is_justified :
      (n : ℕ) (p : ThreadPool A) (es : List (Event A))
      → make n ≡ ok p
      → Idle (run p es)
      → ((run p es).stopped ≡ n) ⊎ (((run p es).stopping ≡ false) × (length (run p es).queue ≡ 0))
  Idle-is_justified n p es e i =
      let s = run p es in
      let c = run-Counts n p es (make-Counts n p e) in
      elim (Bool-cases s.stopping) [
        | inl on ↦ let w = c.woken on i.not_destroying in inl (omega (arith, c.workers))
        | inr off ↦ let l = c.no_lost off in let m = c.emptied in ground (arith, c.workers)
      ]

  -- The work that is left to a pool that stops.
  abbrev pub work_left : ThreadPool A → ℕ
  work_left p =
      2 * length p.queue
      + 2 * length p.running
      + p.ready
      + 2 * p.waiting
      + p.notifying
      + (if p.destroying then 1 else 0)

  -- An event that can happen on a pool without a new call from outside: a ready worker goes on, a job ends, a
  -- notification that is due is made, or a waiting worker wakes up spuriously.
  pub data Moves (p : ThreadPool A) : Event A → Type 0 where
    goes_on : 0 < p.ready → Moves p runs_worker
    job_ends : (i : ℕ) → 0 < length p.running → Moves p (finishes i)
    notified : 0 < p.notifying → Moves p notifies
    all_notified : p.destroying ≡ true → Moves p notifies_all
    woken_up : 0 < p.waiting → Moves p wakes

  -- Such events one after the other, in whatever order.
  abbrev pub AllMove : ThreadPool A → List (Event A) → Type 0
  AllMove p [] = Unit
  AllMove p (e ∷ es) = Moves p e × AllMove (step p e) es

  abbrev UsesUp : ThreadPool A → ThreadPool A → Type 0
  UsesUp p q = (q.stopping ≡ true) × (work_left q < work_left p)

  finish-UsesUp :
      (i : ℕ) (p : ThreadPool A) → p.stopping ≡ true → 0 < length p.running → UsesUp p (finish i p)
  unfolding finish
  finish-UsesUp i p on h = go (pick i p.running) (pick-Picked i p.running)
    where
      go :
          (r : Option (Job A × List (Job A)))
          → Picked p.running r
          → UsesUp p (elim r [
            | none ↦ p
            | some (job, rest) ↦ record p {
              running = rest;
              finished = p.finished ++ (job ∷ []);
              ready = p.ready + 1;
            }
          ])
      go none none_there = absurd (ground (arith, none_there))
      go (some (job, rest)) (len, _) = (on, ground (arith, len))

  Moves-UsesUp :
      (p : ThreadPool A) (e : Event A) → p.stopping ≡ true → Moves p e → UsesUp p (step p e)
  unfolding step worker_section notify_one notify_all
  Moves-UsesUp p _ on (goes_on h) = (ground arith, ground arith)
  Moves-UsesUp p _ on (job_ends i h) = finish-UsesUp i p on h
  Moves-UsesUp p _ on (notified h) = (ground arith, ground arith)
  Moves-UsesUp p _ on (all_notified h) = (ground arith, ground arith)
  Moves-UsesUp p _ on (woken_up h) = (ground arith, ground arith)

  AllMove-UsesUp :
      (p : ThreadPool A) (es : List (Event A))
      → p.stopping ≡ true
      → AllMove p es
      → (length es + work_left (run p es) ≤ work_left p) × ((run p es).stopping ≡ true)
  unfolding run
  AllMove-UsesUp p [] on m = (omega arith, on)
  AllMove-UsesUp p (e ∷ es) on (m, ms) =
      let (still, less) = Moves-UsesUp p e on m in
      let (bound, end) = AllMove-UsesUp (step p e) es still ms in (omega (arith, less, bound), end)

  -- On a pool that stops, all workers have left, or somebody can move without being woken up.
  left_or_Moves :
      (n : ℕ) (p : ThreadPool A)
      → Counts n p
      → p.stopping ≡ true
      → (p.stopped ≡ n) ⊎ ((e : Event A) × Moves p e × (e ≢ wakes))
  left_or_Moves n p c on = elim (dec_lt 0 p.ready) [
    | yes h ↦ inr (runs_worker, goes_on h, λ w. cc)
    | no h ↦ elim (dec_lt 0 (length p.running)) [
      | yes k ↦ inr (finishes 0, job_ends 0 k, λ w. cc)
      | no k ↦ elim (Bool-cases p.destroying) [
        | inl due ↦ inr (notifies_all, all_notified due, λ w. cc)
        | inr told ↦ let w = c.woken on told in inl (omega (arith, c.workers))
      ]
    ]
  ]

  -- The destructor ends under every schedule. On a pool of `n` threads, whatever was submitted, run or slept before,
  -- and wherever the destructor stands once it has set its flag, before or after its `notify_all`: whatever then
  -- moves, in whatever order, a ready worker, the end of a job, a notification that is due or a spurious wakeup, there
  -- are no more such events than the work that is left; and after them either all `n` workers have left their
  -- loops, or one of these events other than a spurious wakeup can happen.
  pub destructor_ends :
      (n : ℕ) (p : ThreadPool A) (es moves : List (Event A))
      → make n ≡ ok p
      → (run p es).stopping ≡ true
      → AllMove (run p es) moves
      → let s = run p es in
        (length moves ≤ work_left s)
        × (((run s moves).stopped ≡ n) ⊎ ((e : Event A) × Moves (run s moves) e × (e ≢ wakes)))
  destructor_ends n p es moves e on m =
      let s = run p es in
      let (bound, still) = AllMove-UsesUp s moves on m in
      let c = run-Counts n s moves (run-Counts n p es (make-Counts n p e)) in
      (omega (arith, bound), left_or_Moves n (run s moves) c still)
