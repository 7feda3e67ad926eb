-- ===== src/ThreadPool/Outcomes.antt =====
-- Which outcome each future holds.
use cpp_design_patterns.Prelude.{
  ℕ, zero, suc, ◌+◌, ◌<◌, ◌≡◌, refl, inl, inr, Bool, true, false, ◌||◌, List, [], ◌∷◌, ◌++◌, map,
  All, Option, none, some, length, get_elem?, get_elem?-append, get_elem?-end, length-append,
  length-map, if◌then◌else◌, eqb, eqb_iff, Bool-cases, arith,
}
use cpp_design_patterns.Prelude.Result.{Result, ok, throws, runtime_error}
use cpp_design_patterns.ThreadPool.Futures.{future, accepted, map-append, make-accepted}
use cpp_design_patterns.ThreadPool.{
  Job, ThreadPool, Event, submits, runs_worker, finishes, make, submit, notify_one, worker_section,
  pick, finish, destroy, notify_all, step, run,
}

module _ {A : Type 0} where
  -- A job of the pool has the outcome of the submission with its number.
  abbrev pub Right : List (Job A) → Job A → Type 0
  Right submitted job = get_elem? (map (λ j. j.outcome) submitted) job.id ≡ some job.outcome

  abbrev pub has : ℕ → List (Job A) → Bool
  has id [] = false
  has id (job ∷ jobs) = eqb job.id id || has id jobs

  pub record Numbered (p : ThreadPool A) : Type 0 where
    pub counted : p.next_id ≡ length p.submitted
    pub entered : (id : ℕ) → id < p.next_id → has id p.submitted ≡ true
    pub queued : All (Right p.submitted) p.queue
    pub running : All (Right p.submitted) p.running
    pub finished : All (Right p.submitted) p.finished

  same-Numbered :
      (p q : ThreadPool A)
      → q.next_id ≡ p.next_id
      → q.submitted ≡ p.submitted
      → q.queue ≡ p.queue
      → q.running ≡ p.running
      → q.finished ≡ p.finished
      → Numbered p
      → Numbered q
  same-Numbered p q a b c d e v = record {
    counted = rw (a, b) v.counted;
    entered = rw (a, b) v.entered;
    queued = rw (b, c) v.queued;
    running = rw (b, d) v.running;
    finished = rw (b, e) v.finished;
  }

  All-append :
      (P : Job A → Type 0) (xs : List (Job A)) (job : Job A)
      → All P xs
      → P job
      → All P (xs ++ (job ∷ []))
  All-append P [] job v h = (h, tt)
  All-append P (x ∷ xs) job (v, vs) h = (v, All-append P xs job vs h)

  Right-append :
      (submitted xs : List (Job A)) (job : Job A)
      → All (Right submitted) xs
      → All (Right (submitted ++ (job ∷ []))) xs
  Right-append submitted [] job v = tt
  Right-append submitted (x ∷ xs) job (v, vs) = (
    rw (map-append submitted job)
        (get_elem?-append (map (λ j. j.outcome) submitted) (job.outcome ∷ []) x.id x.outcome v),
    Right-append submitted xs job vs,
  )

  has-append :
      (id : ℕ) (xs : List (Job A)) (job : Job A)
      → has id (xs ++ (job ∷ [])) ≡ (has id xs || eqb job.id id)
  has-append id [] job = ground arith
  has-append id (x ∷ xs) job = ground (arith, has-append id xs job)

  abbrev PickedAll : (Job A → Type 0) → Option (Job A × List (Job A)) → Type 0
  PickedAll P none = Unit
  PickedAll P (some (job, rest)) = P job × All P rest

  pick-All : (P : Job A → Type 0) (i : ℕ) (xs : List (Job A)) → All P xs → PickedAll P (pick i xs)
  unfolding pick
  pick-All P i [] v = tt
  pick-All P zero (x ∷ xs) v = v
  pick-All P (suc i) (x ∷ xs) (v, vs) = go (pick i xs) (pick-All P i xs vs)
    where
      go :
          (r : Option (Job A × List (Job A)))
          → PickedAll P r
          → PickedAll P (elim r [ none ↦ some (x, xs) | some (y, rest) ↦ some (y, x ∷ rest) ])
      go none h = (v, vs)
      go (some (y, rest)) (h, hs) = (h, (v, hs))

  submit-Numbered :
      (outcome : Result A) (p : ThreadPool A) → Numbered p → Numbered (submit outcome p).0
  unfolding submit
  submit-Numbered outcome p v = go p.stopping
    where
      job : Job A
      job = record { id = p.next_id; outcome = outcome }

      with_job : ThreadPool A
      with_job = record p {
        queue = p.queue ++ (job ∷ []);
        notifying = p.notifying + 1;
        next_id = p.next_id + 1;
        submitted = p.submitted ++ (job ∷ []);
      }

      go :
          (b : Bool)
          → Numbered
              (if◌then◌else◌ {A = ThreadPool A × Result ℕ} b
                (p, throws (runtime_error "submit on stopped ThreadPool"))
                (with_job, ok p.next_id)).0
      go true = v
      go false = record {
        counted = omega (arith, v.counted, length-append p.submitted (job ∷ []));
        entered = λ id h. ground (arith, has-append id p.submitted job, v.entered id);
        queued =
            All-append (Right (p.submitted ++ (job ∷ []))) p.queue job
              (Right-append p.submitted p.queue job v.queued)
              (rw (map-append p.submitted job, v.counted, ← length-map (λ j. j.outcome) p.submitted)
                (get_elem?-end (map (λ j. j.outcome) p.submitted) outcome));
        running = Right-append p.submitted p.running job v.running;
        finished = Right-append p.submitted p.finished job v.finished;
      }

  worker_section-Numbered : (p : ThreadPool A) → Numbered p → Numbered (worker_section p)
  unfolding worker_section
  worker_section-Numbered p v = go p.queue v.queued
    where
      go :
          (q : List (Job A))
          → All (Right p.submitted) q
          → Numbered (elim q [
            | [] ↦
                if p.stopping
                then record p { stopped = p.stopped + 1 }
                else record p { waiting = p.waiting + 1 }
            | job ∷ rest ↦ record p {
              queue = rest;
              running = job ∷ p.running;
              started = p.started ++ (job ∷ []);
            }
          ])
      go [] h = left p.stopping
        where
          left :
              (b : Bool)
              → Numbered (
                  if b
                  then record p { stopped = p.stopped + 1 }
                  else record p { waiting = p.waiting + 1 })
          left true = same-Numbered p _ refl refl refl refl refl v
          left false = same-Numbered p _ refl refl refl refl refl v
      go (job ∷ rest) (h, hs) = record {
        counted = v.counted;
        entered = v.entered;
        queued = hs;
        running = (h, v.running);
        finished = v.finished;
      }

  finish-Numbered : (i : ℕ) (p : ThreadPool A) → Numbered p → Numbered (finish i p)
  unfolding finish
  finish-Numbered i p v = go (pick i p.running) (pick-All (Right p.submitted) i p.running v.running)
    where
      go :
          (r : Option (Job A × List (Job A)))
          → PickedAll (Right p.submitted) r
          → Numbered (elim r [
            | none ↦ p
            | some (job, rest) ↦ record p {
              running = rest;
              finished = p.finished ++ (job ∷ []);
              ready = p.ready + 1;
            }
          ])
      go none h = v
      go (some (job, rest)) (h, hs) = record {
        counted = v.counted;
        entered = v.entered;
        queued = v.queued;
        running = hs;
        finished = All-append (Right p.submitted) p.finished job v.finished h;
      }

  step-Numbered : (p : ThreadPool A) (e : Event A) → Numbered p → Numbered (step p e)
  unfolding step notify_one destroy notify_all
  step-Numbered p (submits r) v = submit-Numbered r p v
  step-Numbered p runs_worker v = go p.ready
    where
      go :
          (m : ℕ) → Numbered (elim m [ zero ↦ p | suc k ↦ worker_section (record p { ready = k }) ])
      go zero = v
      go (suc k) =
          worker_section-Numbered (record p { ready = k })
            (same-Numbered p (record p { ready = k }) refl refl refl refl refl v)
  step-Numbered p (finishes i) v = finish-Numbered i p v
  step-Numbered p e v =
      same-Numbered p (step p e) (ground arith) (ground arith) (ground arith) (ground arith)
        (ground arith) v

  pub make-Numbered : (n : ℕ) (p : ThreadPool A) → make n ≡ ok p → Numbered p
  unfolding make
  make-Numbered n p e =
      let s : p.submitted ≡ [] = ground arith in
      let q : p.queue ≡ [] = ground arith in
      let r : p.running ≡ [] = ground arith in
      let f : p.finished ≡ [] = ground arith in
      let i : p.next_id ≡ 0 = ground arith in
      record {
        counted = ground arith;
        entered = λ id h. absurd (omega arith);
        queued = rw (q) tt;
        running = rw (r) tt;
        finished = rw (f) tt;
      }

  pub run-Numbered : (p : ThreadPool A) (es : List (Event A)) → Numbered p → Numbered (run p es)
  unfolding run
  run-Numbered p [] v = v
  run-Numbered p (e ∷ es) v = run-Numbered (step p e) es (step-Numbered p e v)

  future-Right :
      (submitted jobs : List (Job A)) (id : ℕ) (r : Result A)
      → All (Right submitted) jobs
      → future id jobs ≡ some r
      → get_elem? (map (λ j. j.outcome) submitted) id ≡ some r
  unfolding future
  future-Right submitted [] id r v e = absurd (cc)
  future-Right submitted (job ∷ jobs) id r (v, vs) e = elim (Bool-cases (eqb job.id id)) [
    | inl y ↦ ground (arith, v, eqb_iff job.id id)
    | inr n ↦ future-Right submitted jobs id r vs (ground arith)
  ]

  -- On a pool of any number of threads, after any interleaving: when the future of the `id`-th submission has an
  -- outcome, it is that of running the `id`-th callable that was submitted before the pool was told to stop.
  pub futures_deliver :
      (n : ℕ) (p : ThreadPool A) (es : List (Event A)) (id : ℕ) (outcome : Result A)
      → make n ≡ ok p
      → future id (run p es).finished ≡ some outcome
      → get_elem? (accepted es) id ≡ some outcome
  futures_deliver n p es id outcome e done =
      let v = run-Numbered p es (make-Numbered n p e) in
      let right =
        future-Right (run p es).submitted (run p es).finished id outcome v.finished done in
      rw (make-accepted n p es e) at right
