-- ===== src/Strategy/Policies.antt =====
-- Which backend the two strategies choose.
use cpp_design_patterns.Prelude.{
  ℕ, zero, suc, ◌+◌, ◌≤◌, ◌<◌, ◌≡◌, ◌⊎◌, inl, inr, refl, ap, subst, List, [], ◌∷◌, some, length,
  ltb, Bool-cases, arith,
}
use cpp_design_patterns.Strategy.{Backend, min_element, least_loaded}

abbrev pub load_at : List Backend → ℕ → ℕ
load_at [] i = 0
load_at (b ∷ bs) zero = b.in_flight
load_at (b ∷ bs) (suc i) = load_at bs i

cons_above :
    (v : ℕ) (b : Backend) (rest : List Backend) (n : ℕ)
    → v < b.in_flight
    → ((k : ℕ) → k < n → v < load_at rest k)
    → (k : ℕ) → k < suc n
    → v < load_at (b ∷ rest) k
cons_above v b rest n h f zero q = h
cons_above v b rest n h f (suc k) q = f k (omega arith)

cons_least :
    (v : ℕ) (b : Backend) (rest : List Backend) (n : ℕ)
    → v ≤ b.in_flight
    → ((k : ℕ) → k < n → v ≤ load_at rest k)
    → (k : ℕ) → k < suc n
    → v ≤ load_at (b ∷ rest) k
cons_least v b rest n h f zero q = h
cons_least v b rest n h f (suc k) q = f k (omega arith)

-- The position that `min_element` gives is the best so far, where nothing in the rest is smaller, or
-- the first smallest of the rest.
record Smallest (best load i : ℕ) (rest : List Backend) (m : ℕ) : Type 0 where
  value : ℕ
  place :
      ((m ≡ best) × (value ≡ load))
      ⊎ ((j : ℕ) × (m ≡ i + j)
          × (j < length rest)
          × (value ≡ load_at rest j)
          × (value < load)
          × ((k : ℕ) → k < j → value < load_at rest k))
  smallest : (k : ℕ) → k < length rest → value ≤ load_at rest k
  not_more : value ≤ load

min_element-Smallest :
    (best load i : ℕ) (rest : List Backend)
    → Smallest best load i rest (min_element best load i rest)
unfolding min_element
min_element-Smallest best load i [] = record {
  value = load;
  place = inl (refl, refl);
  smallest = λ k h. absurd (omega arith);
  not_more = omega arith;
}
min_element-Smallest best load i (b ∷ rest) = elim (Bool-cases (ltb b.in_flight load)) [
  | inl y ↦
      let v = min_element-Smallest i b.in_flight (i + 1) rest in
      rw (y) record {
        value = v.value;
        place = elim v.place [
          | inl (m, e) ↦
              inr (0, omega arith, omega arith, e, ground arith, λ k h. absurd (omega arith))
          | inr (j, m, h, e, l, f) ↦
              inr
                (suc j, omega arith, omega arith, e, ground arith, cons_above v.value b rest j l f)
        ];
        smallest = cons_least v.value b rest (length rest) v.not_more v.smallest;
        not_more = ground (arith, v.not_more);
      }
  | inr n ↦
      let v = min_element-Smallest best load (i + 1) rest in
      rw (n) record {
        value = v.value;
        place = elim v.place [
          | inl p ↦ inl p
          | inr (j, m, h, e, l, f) ↦
              inr (
                suc j,
                omega arith,
                omega arith,
                e,
                l,
                cons_above v.value b rest j (ground arith) f,
              )
        ];
        smallest = cons_least v.value b rest (length rest) (ground arith) v.smallest;
        not_more = v.not_more;
      }
]

-- Among some backends `LeastLoadedStrategy` chooses one whose load no other's is below, and of those
-- the first.
pub least_loaded_first :
    (backends : List Backend)
    → 0 < length backends
    → (i : ℕ) × (least_loaded backends ≡ some i)
      × (i < length backends)
      × ((k : ℕ) → k < length backends → load_at backends i ≤ load_at backends k)
      × ((k : ℕ) → k < i → load_at backends i < load_at backends k)
unfolding least_loaded
least_loaded_first [] h = absurd (omega arith)
least_loaded_first (b ∷ rest) h =
    let v = min_element-Smallest 0 b.in_flight 1 rest in
    elim v.place [
      | inl (m, e) ↦ (
        0,
        ap some m,
        omega arith,
        cons_least b.in_flight b rest (length rest) (omega arith)
            (λ k q. let w = v.smallest k q in omega (arith, w, e)),
        λ k q. absurd (omega arith),
      )
      | inr (j, m, q, e, l, f) ↦ (
        suc j,
        ap some (omega (arith, m)),
        omega arith,
        subst (λ w. (k : ℕ) → k < suc (length rest) → w ≤ load_at (b ∷ rest) k) e
            (cons_least v.value b rest (length rest) v.not_more v.smallest),
        subst (λ w. (k : ℕ) → k < suc j → w < load_at (b ∷ rest) k) e
            (cons_above v.value b rest j l f),
      )
    ]
