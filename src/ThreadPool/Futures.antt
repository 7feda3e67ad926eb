-- ===== src/ThreadPool/Futures.antt =====
-- The futures that `submit` gives, and the loop of examples/thread_pool/main.cpp's `main` over them.
use cpp_design_patterns.Prelude.{
  ℕ, zero, suc, ◌+◌, ◌≡◌, refl, ap, Bool, true, false, ◌||◌, List, [], ◌∷◌, ◌++◌, append_assoc,
  append-nil, map, Option, none, some, if◌then◌else◌, eqb, arith,
}
use cpp_design_patterns.Prelude.Result.{Result, ok, throws}
use cpp_design_patterns.ThreadPool.{
  Job, ThreadPool, Event, submits, notifies, runs_worker, finishes, wakes, destroys, notifies_all,
  make, submit, notify_one, worker_section, pick, finish, destroy, notify_all, step, run,
}

module _ {A : Type 0} where
  -- The outcome that the future of a submission holds: none until its job has finished.
  unfoldable pub future : ℕ → List (Job A) → Option (Result A)
  future id [] = none
  future id (job ∷ jobs) = if eqb job.id id then some job.outcome else future id jobs

  -- `get` on `left` futures from number `id` on. None when one of them blocks; an exception leaves the loop.
  unfoldable pub get_all : ℕ → ℕ → ThreadPool A → Option (Result (List A))
  unfolding future
  get_all zero id p = some (ok [])
  get_all (suc left) id p =
      let rest = get_all left (id + 1) p in
      elim (future id p.finished) [
        | none ↦ none
        | some (throws e) ↦ some (throws e)
        | some (ok value) ↦ elim rest [
          | none ↦ none
          | some (throws e) ↦ some (throws e)
          | some (ok values) ↦ some (ok (value ∷ values))
        ]
      ]

  -- What running the callables one after the other would give.
  abbrev pub one_by_one : List (Result A) → Result (List A)
  one_by_one [] = ok []
  one_by_one (throws e ∷ outcomes) = throws e
  one_by_one (ok value ∷ outcomes) = elim (one_by_one outcomes) [
    | throws e ↦ throws e
    | ok values ↦ ok (value ∷ values)
  ]

  -- The callables submitted before the pool is told to stop.
  abbrev pub accepted : List (Event A) → List (Result A)
  accepted [] = []
  accepted (submits outcome ∷ es) = outcome ∷ accepted es
  accepted (destroys ∷ es) = []
  accepted (e ∷ es) = accepted es

  abbrev pub outcomes : ThreadPool A → List (Result A)
  outcomes p = map (λ job. job.outcome) p.submitted

  pub map-append :
      (xs : List (Job A)) (job : Job A)
      → map (λ j. j.outcome) (xs ++ (job ∷ [])) ≡ map (λ j. j.outcome) xs ++ (job.outcome ∷ [])
  map-append [] job = refl
  map-append (x ∷ xs) job = ap (◌∷◌ x.outcome) (map-append xs job)

  worker_section-outcomes : (p : ThreadPool A) → outcomes (worker_section p) ≡ outcomes p
  unfolding worker_section
  worker_section-outcomes p = ground arith

  worker_section-stopping : (p : ThreadPool A) → (worker_section p).stopping ≡ p.stopping
  unfolding worker_section
  worker_section-stopping p = ground arith

  -- What one event adds to them, and whether it stops the pool.
  abbrev added : Event A → List (Result A)
  added (submits outcome) = outcome ∷ []
  added _ = []

  abbrev stops : Event A → Bool
  stops destroys = true
  stops _ = false

  record Grows (p q : ThreadPool A) (e : Event A) : Type 0 where
    more : outcomes q ≡ outcomes p ++ (if p.stopping then [] else added e)
    on : q.stopping ≡ (p.stopping || stops e)

  same-Grows :
      (p q : ThreadPool A) (e : Event A)
      → added e ≡ []
      → q.submitted ≡ p.submitted
      → q.stopping ≡ (p.stopping || stops e)
      → Grows p q e
  same-Grows p q e none_added same on = record {
    more = ground (arith, append-nil (outcomes p));
    on = on;
  }

  step-Grows : (p : ThreadPool A) (e : Event A) → Grows p (step p e) e
  unfolding step submit notify_one finish destroy notify_all worker_section
  step-Grows p (submits r) =
      let job : Job A = record { id = p.next_id; outcome = r } in
      record {
        more = ground (arith, map-append p.submitted job, append-nil (outcomes p));
        on = ground arith;
      }
  step-Grows p notifies = same-Grows p _ notifies refl (ground arith) (ground arith)
  step-Grows p runs_worker = same-Grows p _ runs_worker refl (ground arith) (ground arith)
  step-Grows p (finishes i) = go (pick i p.running)
    where
      go :
          (r : Option (Job A × List (Job A)))
          → Grows p
              (elim r [
                | none ↦ p
                | some (job, rest) ↦ record p {
                  running = rest;
                  finished = p.finished ++ (job ∷ []);
                  ready = p.ready + 1;
                }
              ])
              (finishes i)
      go none = same-Grows p _ (finishes i) refl refl (ground arith)
      go (some (job, rest)) = same-Grows p _ (finishes i) refl refl (ground arith)
  step-Grows p wakes = same-Grows p _ wakes refl (ground arith) (ground arith)
  step-Grows p destroys = same-Grows p _ destroys refl (ground arith) (ground arith)
  step-Grows p notifies_all = same-Grows p _ notifies_all refl (ground arith) (ground arith)

  accepted-cons :
      (e : Event A) (es : List (Event A))
      → accepted (e ∷ es) ≡ added e ++ (if stops e then [] else accepted es)
  accepted-cons (submits r) es = refl
  accepted-cons notifies es = refl
  accepted-cons runs_worker es = refl
  accepted-cons (finishes i) es = refl
  accepted-cons wakes es = refl
  accepted-cons destroys es = refl
  accepted-cons notifies_all es = refl

  -- What was submitted are the accepted callables, in order.
  run-outcomes :
      (p : ThreadPool A) (es : List (Event A))
      → outcomes (run p es) ≡ outcomes p ++ (if p.stopping then [] else accepted es)
  unfolding run
  run-outcomes p [] = ground (arith, append-nil (outcomes p))
  run-outcomes p (e ∷ es) =
      let g = step-Grows p e in
      let ih = run-outcomes (step p e) es in
      let tail = if (step p e).stopping then [] else accepted es in
      ground (
        arith,
        ih,
        g.more,
        g.on,
        accepted-cons e es,
        append-nil (outcomes p),
        append-nil (outcomes (step p e)),
        append-nil (added e),
        append_assoc (outcomes p) (added e) tail,
      )

  make-outcomes : (n : ℕ) (p : ThreadPool A) → make n ≡ ok p → outcomes p ≡ []
  unfolding make
  make-outcomes n p e = ground arith

  make-stopping : (n : ℕ) (p : ThreadPool A) → make n ≡ ok p → p.stopping ≡ false
  unfolding make
  make-stopping n p e = ground arith

  -- What a new pool has been given after any interleaving.
  pub make-accepted :
      (n : ℕ) (p : ThreadPool A) (es : List (Event A))
      → make n ≡ ok p
      → outcomes (run p es) ≡ accepted es
  make-accepted n p es e =
      ground (arith, run-outcomes p es, make-outcomes n p e, make-stopping n p e)
