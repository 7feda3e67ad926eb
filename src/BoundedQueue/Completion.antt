-- ===== src/BoundedQueue/Completion.antt =====
-- Every item that the producers make is handled once, and the program can always finish.
use cpp_design_patterns.Prelude.{
  ℕ, zero, map, suc, ◌<◌, ◌≡◌, refl, sym, ap, ◌∙◌, inl, inr, List, [], ◌∷◌, ◌++◌, append-nil,
  length, subst, false, Bool-cases, some, Option-cases, eqb, get_elem?, arith,
}
use cpp_design_patterns.BoundedQueue.{can_push, close}
use cpp_design_patterns.BoundedQueue.Program.{
  Producer, Program, total_left, Turn, produces, consumes, joins, turn, turns, begin,
}
use cpp_design_patterns.BoundedQueue.Lines.{promised, all_printed, produce-promised, consume_apart}
use cpp_design_patterns.BoundedQueue.Delivery.{
  Inv, measure, ℕ-cases, Advances, produce-Advances, produce-Inv, consume-cases,
}

module _ (items consumers : ℕ) where
  -- `main` closes the queue after its producers.
  join-Advances :
      (m : Program)
      → total_left m.producers ≡ 0
      → m.queue.closed ≡ false
      → Inv items consumers m
      → Advances items consumers m (record m { queue = close m.queue })
  unfolding close
  join-Advances m t c v = record {
    inv = record {
      fifo = v.fifo;
      counted = v.counted;
      made = v.made;
      workers = v.workers;
      roomy = v.roomy;
      after_join = λ _. t;
      after_return = λ r. absurd (cc (sym c ∙ (v.after_return r).0));
    };
    less = ground (arith, c);
  }

  turn-Inv : (m : Program) (t : Turn) → Inv items consumers m → Inv items consumers (turn m t)
  unfolding turn close
  turn-Inv m (produces k) v = elim (Option-cases (get_elem? m.producers k)) [
    | inl e ↦ rw (turn, e) v
    | inr (p, e) ↦ rw (turn, e) (produce-Inv items consumers k p m e v)
  ]
  turn-Inv m consumes v = elim (consume-cases items consumers m v) [
    | inl (same, _) ↦ subst (Inv items consumers) (sym same) v
    | inr a ↦ a.inv
  ]
  turn-Inv m joins v = elim (Bool-cases (eqb (total_left m.producers) 0)) [
    | inr n ↦ rw (turn, n) v
    | inl y ↦ elim (Bool-cases m.queue.closed) [
      | inr c ↦ rw (turn, y) (join-Advances m (ground (arith, y)) c v).inv
      | inl c ↦
          let same : record m { queue = close m.queue } ≡ m = ground (arith, c) in
          rw (turn, y) (subst (Inv items consumers) (sym same) v)
    ]
  ]

  turns-Inv :
      (m : Program) (ts : List Turn) → Inv items consumers m → Inv items consumers (turns m ts)
  unfolding turns
  turns-Inv m [] v = v
  turns-Inv m (t ∷ ts) v = turns-Inv (turn m t) ts (turn-Inv m t v)

  turn-promised :
      (m : Program) (t : Turn)
      → Inv items consumers m
      → map promised (turn m t).producers ≡ map promised m.producers
  unfolding turn
  turn-promised m (produces k) v = elim (Option-cases (get_elem? m.producers k)) [
    | inl e ↦ rw (turn, e) refl
    | inr (p, e) ↦ rw (turn, e) (produce-promised items consumers k p m e v)
  ]
  turn-promised m consumes v = ap (map promised) (consume_apart m)
  turn-promised m joins v = elim (Bool-cases (eqb (total_left m.producers) 0)) [
    | inr n ↦ rw (turn, n) refl
    | inl y ↦ rw (turn, y) refl
  ]

  turns-promised :
      (m : Program) (ts : List Turn)
      → Inv items consumers m
      → map promised (turns m ts).producers ≡ map promised m.producers
  unfolding turns
  turns-promised m [] v = refl
  turns-promised m (t ∷ ts) v = turns-promised (turn m t) ts (turn-Inv m t v) ∙ turn-promised m t v

  some_left :
      (ps : List Producer)
      → 0 < total_left ps
      → (k : ℕ) × (p : Producer) × (n : ℕ) × (get_elem? ps k ≡ some p) × (p.left ≡ suc n)
  some_left [] h = absurd (omega arith)
  some_left (p ∷ ps) h = elim (ℕ-cases p.left) [
    | inr (n, e) ↦ (0, p, n, refl, e)
    | inl e ↦ let (k, q, n, f, g) = some_left ps (omega (arith, e)) in (suc k, q, n, f, g)
  ]

  -- While a consumer runs, some thread can do something.
  turn-Advances :
      (m : Program)
      → Inv items consumers m
      → 0 < m.running
      → (t : Turn) × Advances items consumers m (turn m t)
  unfolding turn can_push
  turn-Advances m v r = elim (consume-cases items consumers m v) [
    | inr a ↦ (consumes, a)
    | inl (_, inl stopped) ↦ absurd (omega (arith, stopped))
    | inl (_, inr (open_, empty)) ↦ elim (ℕ-cases (total_left m.producers)) [
      | inl t ↦ (joins, rw (turn, t) (join-Advances m t open_ v))
      | inr (j, t) ↦
          let (k, p, n, e, h) = some_left m.producers (omega (arith, t)) in
          (
            produces k,
            rw (turn, e)
                (produce-Advances items consumers k p m n h e v
                  (ground (arith, open_, empty, v.roomy))),
          )
    ]
  ]

  turns_finish :
      (f : ℕ) (m : Program)
      → measure m < f
      → Inv items consumers m
      → (ts : List Turn) × ((turns m ts).running ≡ 0)
  unfolding turns
  turns_finish zero m h v = absurd (omega arith)
  turns_finish (suc f) m h v = elim (ℕ-cases m.running) [
    | inl e ↦ ([], e)
    | inr (n, e) ↦
        let (t, a) = turn-Advances m v (omega (arith, e)) in
        let (ts, done) = turns_finish f (turn m t) (omega (arith, a.less)) a.inv in (t ∷ ts, done)
  ]

  finished_lem :
      (m : Program)
      → Inv items consumers m
      → 0 < consumers
      → m.running ≡ 0
      → (m.processed ≡ items) × (m.handled ≡ m.enqueued) × (total_left m.producers ≡ 0)
  finished_lem m v h e =
      let (c, q) = v.after_return (omega (arith, v.workers, e)) in
      let all : m.enqueued ≡ m.handled =
        v.fifo ∙ ap (λ x. m.handled ++ x) q ∙ append-nil m.handled in
      (omega (arith, v.counted, v.made, v.after_join c, ap length all), sym all, v.after_join c)

begin-Inv :
    (capacity consumers : ℕ) (producers : List Producer)
    → 0 < capacity
    → Inv
        (total_left producers)
        consumers
        (begin (record { q = []; capacity = capacity; closed = false }) producers consumers)
begin-Inv capacity consumers producers h = record {
  fifo = refl;
  counted = refl;
  made = omega arith;
  workers = omega arith;
  roomy = h;
  after_join = λ c. absurd (cc c);
  after_return = λ r. absurd (omega arith);
}

-- On a new queue with room for an item, with any producers and at least one consumer, after any
-- interleaving of their calls and of the close that follows the last producer: when all consumers
-- have returned, as many items have been processed as the producers' loops make, the items handled
-- are the items enqueued, in order, and each producer has printed, behind what it had printed at
-- first, a line for every round left in its loop, in order, and behind the last that it is done.
pub program_delivers :
    (capacity consumers : ℕ) (producers : List Producer) (ts : List Turn)
    → 0 < capacity
    → 0 < consumers
    → (turns
        (begin (record { q = []; capacity = capacity; closed = false }) producers consumers)
        ts).running
      ≡ 0
    → let m =
        turns
          (begin (record { q = []; capacity = capacity; closed = false }) producers consumers)
          ts in
      (m.processed ≡ total_left producers)
      × (m.handled ≡ m.enqueued)
      × (map (λ p. p.lines) m.producers ≡ map promised producers)
program_delivers capacity consumers producers ts h g r =
    let first =
      begin (record { q = []; capacity = capacity; closed = false }) producers consumers in
    let v = begin-Inv capacity consumers producers h in
    let (counted, same, over) =
      finished_lem (total_left producers) consumers (turns first ts)
        (turns-Inv (total_left producers) consumers first ts v) g r in
    (
      counted,
      same,
      all_printed (turns first ts).producers over
          ∙ turns-promised (total_left producers) consumers first ts v,
    )

-- On a new queue with room for an item and with any producers and consumers: after any interleaving
-- of their calls and of the close that follows the last producer, the program can go on to the
-- point where all consumers have returned.
pub program_finishes :
    (capacity consumers : ℕ) (producers : List Producer) (ts : List Turn)
    → 0 < capacity
    → (more : List Turn) × ((turns
          (turns
            (begin (record { q = []; capacity = capacity; closed = false }) producers consumers)
            ts)
          more).running
        ≡ 0)
program_finishes capacity consumers producers ts h =
    let first =
      begin (record { q = []; capacity = capacity; closed = false }) producers consumers in
    let m = turns first ts in
    turns_finish (total_left producers) consumers (suc (measure m)) m (omega arith) (
      turns-Inv (total_left producers) consumers first ts
        (begin-Inv capacity consumers producers h))
