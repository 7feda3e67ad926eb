-- ===== src/BoundedQueue/Lines.antt =====
-- The lines that a producer prints, and those that the rest of its loop will print if no push is
-- refused.
use cpp_design_patterns.Prelude.{
  ℕ, zero, suc, ◌+◌, ◌≡◌, refl, sym, ap, ◌∙◌, List, [], ◌∷◌, ◌++◌, append_assoc, append-nil, map,
  some, String, get_elem?, set, inl, inr, arith,
}
use cpp_design_patterns.Log.{Log, line}
use cpp_design_patterns.BoundedQueue.Workers.{request}
use cpp_design_patterns.BoundedQueue.Program.{
  Producer, Program, total_left, enqueued_line, done_line, after_round, produce, consume,
}
use cpp_design_patterns.BoundedQueue.Delivery.{Inv, produce-cases}

-- One line for each of the rounds from number `i` on, and one behind them.
abbrev pub coming : (producer_id i left : ℕ) → List String
coming producer_id i zero = []
coming producer_id i (suc left) =
    done_line producer_id left
      (line (enqueued_line producer_id (request producer_id i).request_id) ∷ [])
    ++ coming producer_id (i + 1) left

abbrev pub promised : Producer → List String
promised p = p.lines ++ coming p.producer_id p.i p.left

done_line-append :
    (producer_id left : ℕ) (xs ys : Log)
    → done_line producer_id left (xs ++ ys) ≡ xs ++ done_line producer_id left ys
done_line-append producer_id zero xs ys = append_assoc xs ys _
done_line-append producer_id (suc left) xs ys = refl

promised-after_round :
    (p : Producer) (n : ℕ) → p.left ≡ suc n → promised (after_round p n) ≡ promised p
promised-after_round p n h =
    let said = line (enqueued_line p.producer_id (request p.producer_id p.i).request_id) ∷ [] in
    ap (λ xs. xs ++ coming p.producer_id (p.i + 1) n)
      (done_line-append p.producer_id n p.lines said)
    ∙ append_assoc p.lines (done_line p.producer_id n said) (coming p.producer_id (p.i + 1) n)
    ∙ ap (λ left. p.lines ++ coming p.producer_id p.i left) (sym h)

map-set_same :
    (ps : List Producer) (k : ℕ) (p q : Producer)
    → get_elem? ps k ≡ some p
    → promised q ≡ promised p
    → map promised (set ps k q) ≡ map promised ps
map-set_same [] k p q e h = absurd (cc)
map-set_same (x ∷ ps) zero p q e h = ap (λ l. l ∷ map promised ps) (h ∙ ap promised (cc))
map-set_same (x ∷ ps) (suc k) p q e h = ap (λ l. promised x ∷ l) (map-set_same ps k p q e h)

-- Without rounds left, what was promised is what was printed.
pub all_printed : (ps : List Producer) → total_left ps ≡ 0 → map (λ p. p.lines) ps ≡ map promised ps
all_printed [] h = refl
all_printed (p ∷ ps) h =
    let none_left : p.left ≡ 0 = omega arith in
    let now : p.lines ≡ promised p =
      sym (append-nil p.lines)
      ∙ ap (λ left. p.lines ++ coming p.producer_id p.i left) (sym none_left) in
    ap (λ l. l ∷ map (λ x. x.lines) ps) now
    ∙ ap (λ l. promised p ∷ l) (all_printed ps (omega arith))

module _ (items consumers : ℕ) where
  -- A call keeps every promise.
  pub produce-promised :
      (k : ℕ) (p : Producer) (m : Program)
      → get_elem? m.producers k ≡ some p
      → Inv items consumers m
      → map promised (produce k p m).producers ≡ map promised m.producers
  produce-promised k p m e v = elim (produce-cases items consumers k p m e v) [
    | inl idle ↦ ap (λ x. map promised x.producers) idle
    | inr (n, h, whole) ↦
        ap (λ x. map promised x.producers) whole
        ∙ map-set_same m.producers k p (after_round p n) e (promised-after_round p n h)
  ]

-- A consumer touches no producer.
pub consume_apart : (m : Program) → (consume m).producers ≡ m.producers
unfolding consume
consume_apart m = ground arith
