-- ===== src/ThreadPool/Progress.antt =====
-- What the workers do while nobody else moves: they bring every job of an open pool to its end.
use cpp_design_patterns.Prelude.{
  ℕ, zero, suc, ◌+◌, ◌*◌, ◌≤◌, ◌<◌, ◌≡◌, refl, ◌⊎◌, inl, inr, false, List, [], ◌∷◌, length,
  if◌then◌else◌, eqb, ltb, lt→ltb, dec_lt, Bool-cases, arith,
}
use cpp_design_patterns.ThreadPool.{
  Job, ThreadPool, Event, notifies, runs_worker, finishes, notify_one, worker_section, pick, finish,
  step, run,
}
use cpp_design_patterns.ThreadPool.Invariant.{Counts, step-Counts}

module _ {A : Type 0} where
  -- An event of a worker, or a notification that is due, if there is one.
  unfoldable pub worker_event : ThreadPool A → Event A
  worker_event p =
      if ltb 0 p.ready
      then runs_worker
      else if ltb 0 (length p.running)
      then finishes 0
      else notifies

  -- The workers' next events while nobody else moves, until no job is queued or runs: at most so many.
  unfoldable pub worker_events : ℕ → ThreadPool A → List (Event A)
  unfolding worker_event
  worker_events zero p = []
  worker_events (suc left) p =
      let rest = worker_events left (step p (worker_event p)) in
      if eqb (length p.queue + length p.running) 0 then [] else worker_event p ∷ rest

  -- Events enough for what is queued, run, ready and due.
  unfoldable pub work_due : ThreadPool A → ℕ
  work_due p = 3 * length p.queue + 2 * length p.running + p.ready + 2 * p.notifying

  -- A pool that was not told to stop.
  pub record Open (n : ℕ) (p : ThreadPool A) : Type 0 where
    pub counts : Counts n p
    pub off : p.stopping ≡ false
    pub quiet : p.destroying ≡ false

  abbrev Less : ℕ → ThreadPool A → ThreadPool A → Type 0
  Less n p q = Open n q × (work_due q < work_due p)

  runs_worker-Less :
      (n : ℕ) (p : ThreadPool A) → Open n p → 0 < p.ready → Less n p (step p runs_worker)
  unfolding step worker_section work_due
  runs_worker-Less n p v h = (
    record {
      counts = step-Counts n p runs_worker v.counts;
      off = ground (arith, v.off);
      quiet = ground (arith, v.quiet);
    },
    ground (arith, v.off),
  )

  finishes-Less :
      (n : ℕ) (p : ThreadPool A) (r : List (Job A))
      → p.running ≡ r
      → Open n p
      → 0 < length r
      → Less n p (step p (finishes 0))
  unfolding step finish pick work_due
  finishes-Less n p [] e v h = absurd (omega arith)
  finishes-Less n p (j ∷ r) e v h = (
    record {
      counts = step-Counts n p (finishes 0) v.counts;
      off = ground (arith, v.off);
      quiet = ground (arith, v.quiet);
    },
    ground arith,
  )

  notifies-Less :
      (n : ℕ) (p : ThreadPool A) → Open n p → 0 < p.notifying → Less n p (step p notifies)
  unfolding step notify_one work_due
  notifies-Less n p v h = (
    record {
      counts = step-Counts n p notifies v.counts;
      off = ground (arith, v.off);
      quiet = ground (arith, v.quiet);
    },
    ground arith,
  )

  abbrev pub AllDone : ThreadPool A → Type 0
  AllDone p = (length p.queue ≡ 0) × (length p.running ≡ 0)

  worker_event-Less :
      (n : ℕ) (p : ThreadPool A) → 0 < n → Open n p → AllDone p ⊎ Less n p (step p (worker_event p))
  unfolding worker_event
  worker_event-Less n p some_worker v = elim (dec_lt 0 p.ready) [
    | yes h ↦ rw (lt→ltb 0 p.ready h, worker_event) (inr (runs_worker-Less n p v h))
    | no h ↦
        let z : ltb 0 p.ready ≡ false = ground arith in
        elim (dec_lt 0 (length p.running)) [
          | yes k ↦
              rw (z, lt→ltb 0 (length p.running) k, worker_event)
                (inr (finishes-Less n p p.running refl v k))
          | no k ↦
              let y : ltb 0 (length p.running) ≡ false = ground arith in
              elim (dec_lt 0 p.notifying) [
                | yes l ↦ rw (z, y, worker_event) (inr (notifies-Less n p v l))
                | no l ↦
                    let w = v.counts.workers in
                    let q = v.counts.no_lost v.off in
                    let m = v.counts.emptied in inl (ground (arith, v.off), omega arith)
              ]
        ]
  ]

  pub worker_events-AllDone :
      (n left : ℕ) (p : ThreadPool A)
      → 0 < n
      → Open n p
      → work_due p ≤ left
      → AllDone (run p (worker_events left p))
  unfolding worker_events run work_due
  worker_events-AllDone n zero p some_worker v h = (omega arith, omega arith)
  worker_events-AllDone n (suc left) p some_worker v h =
      elim (worker_event-Less n p some_worker v) [
        | inl (q, r) ↦ rw (q, r, worker_events) (q, r)
        | inr (w, less) ↦ elim (Bool-cases (eqb (length p.queue + length p.running) 0)) [
          | inl z ↦ rw (z, worker_events) (ground arith, ground arith)
          | inr z ↦
              rw (z, worker_events)
                (worker_events-AllDone n left (step p (worker_event p)) some_worker w (omega arith))
        ]
      ]
