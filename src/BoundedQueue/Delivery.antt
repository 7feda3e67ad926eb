-- ===== src/BoundedQueue/Delivery.antt =====
-- What one call of a producer or a consumer does to the books of the program.
use cpp_design_patterns.Prelude.{
  ℕ, zero, suc, ◌+◌, ◌*◌, ◌≤◌, ◌<◌, ◌≡◌, refl, sym, ap, ◌∙◌, ◌⊎◌, inl, inr, List, [], ◌∷◌, ◌++◌,
  append_assoc, length, length-append, subst, true, false, Bool-cases, some, List-cases, get_elem?,
  set, if◌then◌else◌, arith,
}
use cpp_design_patterns.BoundedQueue.{can_push, can_pop, push, pop}
use cpp_design_patterns.BoundedQueue.Workers.{WorkItem, request}
use cpp_design_patterns.BoundedQueue.Program.{
  Producer, Program, total_left, after_round, produce, consume,
}

total_left-set :
    (ps : List Producer) (k : ℕ) (p q : Producer)
    → get_elem? ps k ≡ some p
    → total_left (set ps k q) + p.left ≡ total_left ps + q.left
total_left-set [] k p q e = absurd (cc)
total_left-set (x ∷ ps) zero p q e = ground arith
total_left-set (x ∷ ps) (suc k) p q e = omega (arith, total_left-set ps k p q e)

-- For `items` to be made by the producers and some consumers.
pub record Inv (items consumers : ℕ) (m : Program) : Type 0 where
  pub fifo : m.enqueued ≡ m.handled ++ m.queue.q
  pub counted : m.processed ≡ length m.handled
  pub made : length m.enqueued + total_left m.producers ≡ items
  pub workers : m.running + m.returned ≡ consumers
  pub roomy : 0 < m.queue.capacity
  pub after_join : m.queue.closed ≡ true → total_left m.producers ≡ 0
  pub after_return : 0 < m.returned → (m.queue.closed ≡ true) × (m.queue.q ≡ [])

-- What is left to do.
abbrev pub measure : Program → ℕ
measure m =
    2 * total_left m.producers + length m.queue.q + m.running + (if m.queue.closed then 0 else 1)

get_elem?-total_left :
    (ps : List Producer) (k : ℕ) (p : Producer) → get_elem? ps k ≡ some p → p.left ≤ total_left ps
get_elem?-total_left ps k p e = omega (arith, total_left-set ps k p (record p { left = 0 }) e)

pub ℕ-cases : (n : ℕ) → (n ≡ 0) ⊎ ((k : ℕ) × (n ≡ suc k))
ℕ-cases zero = inl refl
ℕ-cases (suc k) = inr (k, refl)

module _ (items consumers : ℕ) where
  -- A step that keeps the books and uses work up.
  pub record Advances (m n : Program) : Type 0 where
    pub inv : Inv items consumers n
    pub less : measure n < measure m

  -- A producer with room pushes its next item.
  abbrev pub after_push : ℕ → Producer → ℕ → Program → Program
  after_push k p left m =
      let item = request p.producer_id p.i in
      record m {
        queue = record m.queue { q = m.queue.q ++ (item ∷ []) };
        producers = set m.producers k (after_round p left);
        enqueued = m.enqueued ++ (item ∷ []);
      }

  after_push-Advances :
      (k : ℕ) (p : Producer) (m : Program) (n : ℕ)
      → p.left ≡ suc n
      → get_elem? m.producers k ≡ some p
      → Inv items consumers m
      → m.queue.closed ≡ false
      → Advances m (after_push k p n m)
  after_push-Advances k p m n h e v c =
      let item = request p.producer_id p.i in
      let t = total_left-set m.producers k p (after_round p n) e in
      record {
        inv = record {
          fifo = ap (λ x. x ++ (item ∷ [])) v.fifo ∙ append_assoc m.handled m.queue.q (item ∷ []);
          counted = v.counted;
          made = omega (arith, t, v.made, length-append m.enqueued (item ∷ []));
          workers = v.workers;
          roomy = v.roomy;
          after_join = λ d. ground (arith, c, d);
          after_return = λ r. ground (arith, c, v.after_return r);
        };
        less = omega (arith, t, length-append m.queue.q (item ∷ []));
      }

  open_queue :
      (k : ℕ) (p : Producer) (m : Program) (n : ℕ)
      → p.left ≡ suc n
      → get_elem? m.producers k ≡ some p
      → Inv items consumers m
      → m.queue.closed ≡ false
  open_queue k p m n h e v = elim (Bool-cases m.queue.closed) [
    | inl c ↦ absurd (omega (arith, h, get_elem?-total_left m.producers k p e, v.after_join c))
    | inr c ↦ c
  ]

  -- What one call of a producer does.
  pub produce-cases :
      (k : ℕ) (p : Producer) (m : Program)
      → get_elem? m.producers k ≡ some p
      → Inv items consumers m
      → (produce k p m ≡ m) ⊎ ((n : ℕ) × (p.left ≡ suc n) × (produce k p m ≡ after_push k p n m))
  unfolding produce push
  produce-cases k p m e v = elim (ℕ-cases p.left) [
    | inl h ↦ inl (rw (produce, h) refl)
    | inr (n, h) ↦ elim (Bool-cases (can_push m.queue)) [
      | inl room ↦ let c = open_queue k p m n h e v in inr (n, h, ground (arith, h, room, c))
      | inr full ↦ inl (rw (produce, h, full) refl)
    ]
  ]

  pub produce-Advances :
      (k : ℕ) (p : Producer) (m : Program) (n : ℕ)
      → p.left ≡ suc n
      → get_elem? m.producers k ≡ some p
      → Inv items consumers m
      → can_push m.queue ≡ true
      → Advances m (produce k p m)
  unfolding produce push
  produce-Advances k p m n h e v room =
      let c = open_queue k p m n h e v in
      let whole : produce k p m ≡ after_push k p n m = ground (arith, h, room, c) in
      subst (Advances m) (sym whole) (after_push-Advances k p m n h e v c)

  pub produce-Inv :
      (k : ℕ) (p : Producer) (m : Program)
      → get_elem? m.producers k ≡ some p
      → Inv items consumers m
      → Inv items consumers (produce k p m)
  unfolding produce
  produce-Inv k p m e v = elim (ℕ-cases p.left) [
    | inl h ↦
        let idle : produce k p m ≡ m = rw (produce, h) refl in
        subst (Inv items consumers) (sym idle) v
    | inr (n, h) ↦ elim (Bool-cases (can_push m.queue)) [
      | inl room ↦ (produce-Advances k p m n h e v room).inv
      | inr full ↦
          let idle : produce k p m ≡ m = rw (produce, h, full) refl in
          subst (Inv items consumers) (sym idle) v
    ]
  ]

  -- A consumer takes the first item, or returns from a drained queue.
  abbrev after_pop : WorkItem → List WorkItem → Program → Program
  after_pop w q m = record m {
    queue = record m.queue { q = q };
    processed = m.processed + 1;
    handled = m.handled ++ (w ∷ []);
  }

  abbrev after_end : ℕ → Program → Program
  after_end n m = record m { running = n; returned = m.returned + 1 }

  after_pop-Advances :
      (m : Program) (w : WorkItem) (q : List WorkItem)
      → m.queue.q ≡ w ∷ q
      → Inv items consumers m
      → Advances m (after_pop w q m)
  after_pop-Advances m w q e v = record {
    inv = record {
      fifo = v.fifo ∙ ap (λ x. m.handled ++ x) e ∙ sym (append_assoc m.handled (w ∷ []) q);
      counted = omega (arith, v.counted, length-append m.handled (w ∷ []));
      made = v.made;
      workers = v.workers;
      roomy = v.roomy;
      after_join = v.after_join;
      after_return = λ r. absurd (cc (sym e ∙ (v.after_return r).1));
    };
    less = ground (arith, e);
  }

  after_end-Advances :
      (m : Program) (n : ℕ)
      → m.running ≡ suc n
      → m.queue.q ≡ []
      → m.queue.closed ≡ true
      → Inv items consumers m
      → Advances m (after_end n m)
  after_end-Advances m n h e c v = record {
    inv = record {
      fifo = v.fifo;
      counted = v.counted;
      made = v.made;
      workers = omega (arith, v.workers);
      roomy = v.roomy;
      after_join = v.after_join;
      after_return = λ _. (c, e);
    };
    less = omega arith;
  }

  -- What one call of a consumer does.
  pub consume-cases :
      (m : Program)
      → Inv items consumers m
      → ((consume m ≡ m) × ((m.running ≡ 0) ⊎ ((m.queue.closed ≡ false) × (m.queue.q ≡ []))))
        ⊎ Advances m (consume m)
  unfolding consume can_pop pop
  consume-cases m v = elim (ℕ-cases m.running) [
    | inl h ↦ inl (ground (arith, h), inl h)
    | inr (n, h) ↦ elim (List-cases m.queue.q) [
      | inr (w, q, e) ↦
          let whole : consume m ≡ after_pop w q m = ground (arith, h, e) in
          inr (subst (Advances m) (sym whole) (after_pop-Advances m w q e v))
      | inl e ↦ elim (Bool-cases m.queue.closed) [
        | inr c ↦ inl (ground (arith, h, e, c), inr (c, e))
        | inl c ↦
            let whole : consume m ≡ after_end n m = ground (arith, h, e, c) in
            inr (subst (Advances m) (sym whole) (after_end-Advances m n h e c v))
      ]
    ]
  ]
