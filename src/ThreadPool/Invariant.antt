-- ===== src/ThreadPool/Invariant.antt =====
-- What holds of the pool after every event.
use mathlib.Core.List.{Perm, perm_middle, perm_append_singleton}
use mathlib.Core.List.Perm
use cpp_design_patterns.Prelude.{
  ℕ, zero, suc, ◌+◌, ◌≤◌, ◌<◌, ◌≡◌, refl, sym, ap, ◌++◌, true, false, List, [], ◌∷◌, Option, none,
  some, length, length-append, append_assoc, arith,
}
use cpp_design_patterns.Prelude.Result.{ok}
use cpp_design_patterns.ThreadPool.{
  Job, ThreadPool, Event, submits, notifies, runs_worker, finishes, wakes, destroys, notifies_all,
  make, submit, notify_one, worker_section, pick, finish, destroy, notify_all, step, run,
}

module _ {A : Type 0} where
  abbrev pub Picked : List (Job A) → Option (Job A × List (Job A)) → Type 0
  Picked xs none = xs ≡ []
  Picked xs (some (v, rest)) = (length xs ≡ suc (length rest)) × Perm xs (v ∷ rest)

  pub pick-Picked : (i : ℕ) (xs : List (Job A)) → Picked xs (pick i xs)
  unfolding pick
  pick-Picked i [] = refl
  pick-Picked zero (x ∷ xs) = (refl, Perm.refl (x ∷ xs))
  pick-Picked (suc i) (x ∷ xs) = go (pick i xs) (pick-Picked i xs)
    where
      go :
          (r : Option (Job A × List (Job A)))
          → Picked xs r
          → Picked (x ∷ xs) (elim r [ none ↦ some (x, xs) | some (y, rest) ↦ some (y, x ∷ rest) ])
      go none h = (refl, Perm.refl (x ∷ xs))
      go (some (y, rest)) (h, q) = (ap suc h, Perm.trans (Perm.cons x q) (Perm.swap y x rest))

  -- The numbers: `n` workers.
  pub record Counts (n : ℕ) (p : ThreadPool A) : Type 0 where
    pub workers : p.ready + p.waiting + length p.running + p.stopped ≡ n
    pub no_lost : p.stopping ≡ false → 0 < p.waiting → length p.queue ≤ p.ready + p.notifying
    pub woken : p.stopping ≡ true → p.destroying ≡ false → p.waiting ≡ 0
    pub in_destroy : p.destroying ≡ true → p.stopping ≡ true
    pub emptied : 0 < p.stopped → (p.stopping ≡ true) × (length p.queue ≡ 0)

  pub make-Counts : (n : ℕ) (p : ThreadPool A) → make n ≡ ok p → Counts n p
  unfolding make
  make-Counts n p e = ground arith

  worker_section-Counts :
      (n k : ℕ) (p : ThreadPool A)
      → p.ready ≡ suc k
      → Counts n p
      → Counts n (worker_section (record p { ready = k }))
  unfolding worker_section
  worker_section-Counts n k p e v = ground arith

  finish-Counts : (n i : ℕ) (p : ThreadPool A) → Counts n p → Counts n (finish i p)
  unfolding finish
  finish-Counts n i p v = go (pick i p.running) (pick-Picked i p.running)
    where
      go :
          (r : Option (Job A × List (Job A)))
          → Picked p.running r
          → Counts n (elim r [
            | none ↦ p
            | some (job, rest) ↦ record p {
              running = rest;
              finished = p.finished ++ (job ∷ []);
              ready = p.ready + 1;
            }
          ])
      go none h = v
      go (some (job, rest)) h = ground arith

  -- Every event keeps the numbers.
  pub step-Counts : (n : ℕ) (p : ThreadPool A) (e : Event A) → Counts n p → Counts n (step p e)
  unfolding step submit notify_one destroy notify_all
  step-Counts n p (submits r) v =
      ground (arith, length-append p.queue (record { id = p.next_id; outcome = r } ∷ []))
  step-Counts n p notifies v = ground arith
  step-Counts n p runs_worker v = go p.ready refl
    where
      go :
          (m : ℕ)
          → p.ready ≡ m
          → Counts n (elim m [ zero ↦ p | suc k ↦ worker_section (record p { ready = k }) ])
      go zero e = v
      go (suc k) e = worker_section-Counts n k p e v
  step-Counts n p (finishes i) v = finish-Counts n i p v
  step-Counts n p wakes v = ground arith
  step-Counts n p destroys v = ground arith
  step-Counts n p notifies_all v = ground arith

  pub run-Counts :
      (n : ℕ) (p : ThreadPool A) (es : List (Event A)) → Counts n p → Counts n (run p es)
  unfolding run
  run-Counts n p [] v = v
  run-Counts n p (e ∷ es) v = run-Counts n (step p e) es (step-Counts n p e v)

  -- The jobs: started in the order of submission, and each started one runs or has finished.
  pub record Jobs (p : ThreadPool A) : Type 0 where
    pub fifo : p.submitted ≡ p.started ++ p.queue
    pub once : Perm p.started (p.finished ++ p.running)

  pub make-Jobs : (n : ℕ) (p : ThreadPool A) → make n ≡ ok p → Jobs p
  unfolding make
  make-Jobs n p e =
      let s : p.started ≡ [] = ground arith in
      let f : p.finished ≡ [] = ground arith in
      let r : p.running ≡ [] = ground arith in
      record { fifo = ground arith; once = rw (s, f, r) (Perm.refl []) }

  -- An event that starts and ends no job keeps what `Jobs` says of the started ones.
  Jobs-keep :
      (p q : ThreadPool A)
      → q.submitted ≡ q.started ++ q.queue
      → q.started ≡ p.started
      → q.finished ≡ p.finished
      → q.running ≡ p.running
      → Jobs p
      → Jobs q
  Jobs-keep p q a b d e v = record { fifo = a; once = rw (b, d, e) v.once }

  worker_section-Jobs :
      (p : ThreadPool A) (q : List (Job A)) → p.queue ≡ q → Jobs p → Jobs (worker_section p)
  unfolding worker_section
  worker_section-Jobs p [] e v =
      Jobs-keep p (worker_section p) (ground arith) (ground arith) (ground arith) (ground arith) v
  worker_section-Jobs p (job ∷ rest) e v =
      rw (e, worker_section)
        (record {
          fifo = rw (v.fifo, e) (sym (append_assoc p.started (job ∷ []) rest));
          once =
              Perm.trans (perm_append_singleton job p.started)
                (Perm.trans (Perm.cons job v.once) (Perm.symm (perm_middle p.finished p.running)));
        })

  finish-Jobs : (i : ℕ) (p : ThreadPool A) → Jobs p → Jobs (finish i p)
  unfolding finish
  finish-Jobs i p v = go (pick i p.running) (pick-Picked i p.running)
    where
      go :
          (r : Option (Job A × List (Job A)))
          → Picked p.running r
          → Jobs (elim r [
            | none ↦ p
            | some (job, rest) ↦ record p {
              running = rest;
              finished = p.finished ++ (job ∷ []);
              ready = p.ready + 1;
            }
          ])
      go none h = v
      go (some (job, rest)) (h, q) = record {
        fifo = v.fifo;
        once =
            rw (append_assoc p.finished (job ∷ []) rest)
              (Perm.trans v.once (Perm.append (Perm.refl p.finished) q));
      }

  step-Jobs : (p : ThreadPool A) (e : Event A) → Jobs p → Jobs (step p e)
  unfolding step submit notify_one destroy notify_all
  step-Jobs p (submits r) v =
      let grows = append_assoc p.started p.queue (record { id = p.next_id; outcome = r } ∷ []) in
      Jobs-keep p (step p (submits r)) (ground (arith, grows)) (ground arith) (ground arith)
        (ground arith) v
  step-Jobs p runs_worker v = go p.ready
    where
      go : (m : ℕ) → Jobs (elim m [ zero ↦ p | suc k ↦ worker_section (record p { ready = k }) ])
      go zero = v
      go (suc k) =
          worker_section-Jobs (record p { ready = k }) p.queue refl
            (record { fifo = v.fifo; once = v.once })
  step-Jobs p (finishes i) v = finish-Jobs i p v
  step-Jobs p e v =
      Jobs-keep p (step p e) (ground arith) (ground arith) (ground arith) (ground arith) v

  pub run-Jobs : (p : ThreadPool A) (es : List (Event A)) → Jobs p → Jobs (run p es)
  unfolding run
  run-Jobs p [] v = v
  run-Jobs p (e ∷ es) v = run-Jobs (step p e) es (step-Jobs p e v)
