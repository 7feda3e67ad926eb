-- ===== src/ThreadPool/Completion.antt =====
-- The loop of `main` over its futures gets the values that one thread alone would have computed, and
-- the workers alone bring every future to hold its outcome.
use mathlib.Core.Bool.{Bool-set}
use mathlib.Core.List.{Perm, foldr}
use mathlib.Core.List.Perm
use cpp_design_patterns.Prelude.{
  ℕ, zero, suc, ◌+◌, ◌<◌, ◌≡◌, refl, sym, ap, subst, ◌∙◌, inl, inr, true, false, ◌||◌, List, [],
  ◌∷◌, ◌++◌, append-nil, Option, none, some, length, get_elem?, get_elem?-bound, length-map, eqb,
  Bool-cases, Option-cases, arith,
}
use cpp_design_patterns.Prelude.Result.{Result, ok, throws}
use cpp_design_patterns.ThreadPool.Progress.{
  worker_event, worker_events, work_due, Open, AllDone, worker_events-AllDone,
}
use cpp_design_patterns.ThreadPool.{
  Job, ThreadPool, Event, submits, destroys, wakes, notifies_all, notifies, runs_worker, finishes,
  make, step, run,
}
use cpp_design_patterns.ThreadPool.Invariant.{make-Counts, run-Counts, Jobs, make-Jobs, run-Jobs}
use cpp_design_patterns.ThreadPool.Futures.{future, get_all, one_by_one, accepted, make-accepted}
use cpp_design_patterns.ThreadPool.Outcomes.{has, make-Numbered, run-Numbered, futures_deliver}

module _ {A : Type 0} where
  make-positive : (n : ℕ) (p : ThreadPool A) → make n ≡ ok p → 0 < n
  unfolding make
  make-positive n p e = ground arith

  accepted-worker_events : (left : ℕ) (p : ThreadPool A) → accepted (worker_events left p) ≡ []
  unfolding worker_events worker_event
  accepted-worker_events zero p = refl
  accepted-worker_events (suc left) p =
      ground (arith, accepted-worker_events left (step p (worker_event p)))

  accepted-append : (es fs : List (Event A)) → accepted fs ≡ [] → accepted (es ++ fs) ≡ accepted es
  accepted-append [] fs h = h
  accepted-append (submits r ∷ es) fs h = ap (◌∷◌ r) (accepted-append es fs h)
  accepted-append (destroys ∷ es) fs h = refl
  accepted-append (notifies ∷ es) fs h = accepted-append es fs h
  accepted-append (runs_worker ∷ es) fs h = accepted-append es fs h
  accepted-append (finishes i ∷ es) fs h = accepted-append es fs h
  accepted-append (wakes ∷ es) fs h = accepted-append es fs h
  accepted-append (notifies_all ∷ es) fs h = accepted-append es fs h

  run-append : (p : ThreadPool A) (es fs : List (Event A)) → run p (es ++ fs) ≡ run (run p es) fs
  unfolding run
  run-append p [] fs = refl
  run-append p (e ∷ es) fs = run-append (step p e) es fs

  has-foldr :
      (id : ℕ) (jobs : List (Job A)) → foldr (λ job b. eqb job.id id || b) false jobs ≡ has id jobs
  has-foldr id [] = refl
  has-foldr id (job ∷ jobs) = ap (λ b. eqb job.id id || b) (has-foldr id jobs)

  has-Perm : (id : ℕ) (xs ys : List (Job A)) → Perm xs ys → has id xs ≡ has id ys
  has-Perm id xs ys p =
      sym (has-foldr id xs)
      ∙ Perm.foldr-eq Bool-set (λ job b. eqb job.id id || b) (λ a b x. ground arith) p false
      ∙ has-foldr id ys

  has-future :
      (id : ℕ) (jobs : List (Job A))
      → has id jobs ≡ true
      → (r : Result A) × (future id jobs ≡ some r)
  unfolding future
  has-future id [] h = absurd (cc)
  has-future id (job ∷ jobs) h = elim (Bool-cases (eqb job.id id)) [
    | inl y ↦ (job.outcome, ground arith)
    | inr n ↦ let (r, e) = has-future id jobs (ground arith) in (r, ground arith)
  ]

  nil_of_length : (xs : List (Job A)) → length xs ≡ 0 → xs ≡ []
  nil_of_length [] e = refl
  nil_of_length (x ∷ xs) e = absurd (omega arith)

  -- When no job is queued or runs, the jobs that finished are those that were submitted.
  done-has :
      (p : ThreadPool A) (id : ℕ) → Jobs p → AllDone p → has id p.finished ≡ has id p.submitted
  done-has p id j (no_queue, no_running) =
      let once = j.once in
      let order = j.fifo in
      has-Perm id p.finished p.submitted (
        rw (order, nil_of_length p.queue no_queue, append-nil p.started)
          (Perm.symm (rw (nil_of_length p.running no_running, append-nil p.finished) at once)))

  done-future :
      (n : ℕ) (p : ThreadPool A) (es : List (Event A)) (id : ℕ) (r : Result A)
      → make n ≡ ok p
      → AllDone (run p es)
      → get_elem? (accepted es) id ≡ some r
      → future id (run p es).finished ≡ some r
  done-future n p es id r e done at_id =
      let s = run p es in
      let v = run-Numbered p es (make-Numbered n p e) in
      let there = get_elem?-bound (accepted es) id r at_id in
      let counted : length (accepted es) ≡ length s.submitted =
        rw (← make-accepted n p es e) (length-map (λ j. j.outcome) s.submitted) in
      let entered = v.entered id (omega (arith, v.counted)) in
      let (r', here) =
        has-future id s.finished (done-has s id (run-Jobs p es (make-Jobs n p e)) done ∙ entered) in
      let right = futures_deliver n p es id r' e here in ground arith

  get_all-values :
      (xs : List (Result A)) (id : ℕ) (p : ThreadPool A)
      → ((i : ℕ) (r : Result A) → get_elem? xs i ≡ some r → future (id + i) p.finished ≡ some r)
      → get_all (length xs) id p ≡ some (one_by_one xs)
  unfolding get_all
  get_all-values [] id p h = refl
  get_all-values (x ∷ xs) id p h =
      let first : future id p.finished ≡ some x =
        subst (λ k. future k p.finished ≡ some x) (omega arith) (h 0 x refl) in
      let ih =
        get_all-values xs (id + 1) p
          (λ i r k. subst (λ j. future j p.finished ≡ some r) (omega arith) (h (suc i) r k)) in
      ground arith

  get_all-right :
      (xs : List (Result A)) (id : ℕ) (p : ThreadPool A) (got : Result (List A))
      → ((i : ℕ) (r : Result A) → future (id + i) p.finished ≡ some r → get_elem? xs i ≡ some r)
      → get_all (length xs) id p ≡ some got
      → got ≡ one_by_one xs
  unfolding get_all
  get_all-right [] id p got h e = ground arith
  get_all-right (x ∷ xs) id p got h e =
      go
        (λ g.
          get_all-right xs (id + 1) p g
            (λ i r k. h (suc i) r (subst (λ j. future j p.finished ≡ some r) (omega arith) k)))
        (future id p.finished) refl
    where
      first : (r : Result A) → future id p.finished ≡ some r → get_elem? (x ∷ xs) 0 ≡ some r
      first r k = h 0 r (subst (λ j. future j p.finished ≡ some r) (omega arith) k)

      go :
          ((g : Result (List A)) → get_all (length xs) (id + 1) p ≡ some g → g ≡ one_by_one xs)
          → (f : Option (Result A)) → future id p.finished ≡ f
          → got ≡ one_by_one (x ∷ xs)
      go later none k = absurd (ground arith)
      go later (some (throws err)) k = let same = first (throws err) k in ground arith
      go later (some (ok value)) k =
          let same = first (ok value) k in
          elim (Option-cases (get_all (length xs) (id + 1) p)) [
            | inl blocked ↦ absurd (ground arith)
            | inr (g, l) ↦ let right = later g l in ground arith
          ]

  -- On a pool of any number of threads, after any interleaving: what the loop of `main` gets from the futures of all
  -- submissions, if it does not block, is what running the callables one after the other gives, up to the first that
  -- throws.
  pub values_got :
      (n : ℕ) (p : ThreadPool A) (es : List (Event A)) (got : Result (List A))
      → make n ≡ ok p
      → get_all (length (accepted es)) 0 (run p es) ≡ some got
      → got ≡ one_by_one (accepted es)
  values_got n p es got e h =
      get_all-right (accepted es) 0 (run p es) got
        (λ i r k.
          futures_deliver n p es i r e
            (subst (λ j. future j (run p es).finished ≡ some r) (omega arith) k))
        h

  -- On a pool of any number of threads that was not told to stop, after any interleaving: the workers
  -- and the notifications due alone, within a number of events that is three times the queued, twice the running jobs
  -- and the ready workers and twice the notifications, bring the futures of all submissions to hold their
  -- outcomes, so that the loop of `main` gets what running the callables one after the other gives.
  pub values_come :
      (n : ℕ) (p : ThreadPool A) (es : List (Event A))
      → make n ≡ ok p
      → (run p es).stopping ≡ false
      → let s = run p es in
        get_all (length (accepted es)) 0 (run s (worker_events (work_due s) s))
        ≡ some (one_by_one (accepted es))
  values_come n p es e off =
      let s = run p es in
      let ws = worker_events (work_due s) s in
      let c = run-Counts n p es (make-Counts n p e) in
      let v : Open n s = record { counts = c; off = off; quiet = ground (arith, c.in_destroy) } in
      let done = worker_events-AllDone n (work_due s) s (make-positive n p e) v (omega arith) in
      let same = accepted-append es ws (accepted-worker_events (work_due s) s) in
      get_all-values (accepted es) 0 (run s ws) λ i r at_i.
        let now =
          done-future n p (es ++ ws) i r e (subst AllDone (sym (run-append p es ws)) done)
            (rw (same) at_i) in
        subst (λ j. future j (run s ws).finished ≡ some r) (omega arith)
          (rw (run-append p es ws) at now)
