-- ===== src/Arena/Blocks.antt =====
-- Who owns which block: every block has one owner, and an owner's block is there at its size.
use cpp_design_patterns.Prelude.{
  ℕ, ◌+◌, ◌≤◌, ◌<◌, ◌≡◌, ◌≢◌, ◌⊎◌, List, Option, none, some, length, dec_lt, ℕ_discrete, arith,
}
use cpp_design_patterns.Arena.{Byte, Heap, update, Arena}

abbrev pub Owners : Type 0
Owners = ℕ → Option Arena

-- The object is not there or owns nothing.
abbrev pub IsHollow : Option Arena → Type 0
IsHollow none = Unit
IsHollow (some a) = (a.size ≡ 0) × (a.data_ ≡ 0)

abbrev pub IsBlock : Option (List Byte) → ℕ → Type 0
IsBlock none n = ⊥
IsBlock (some b) n = length b ≡ n

-- The object owns nothing, or a block of its size.
abbrev pub Fits : Heap → Arena → Type 0
Fits h a = ((a.size ≡ 0) × (a.data_ ≡ 0)) ⊎ ((0 < a.data_) × IsBlock (h.cells a.data_) a.size)

pub record Inv (h : Heap) (own : Owners) : Type 0 where
  pub fits : (i : ℕ) (a : Arena) → own i ≡ some a → Fits h a
  pub unique :
      (i j : ℕ) (a b : Arena)
      → own i ≡ some a
      → own j ≡ some b
      → 0 < a.data_
      → a.data_ ≡ b.data_
      → i ≡ j
  pub owned :
      (p : ℕ) (b : List Byte)
      → h.cells p ≡ some b
      → (i : ℕ) × (a : Arena) × (own i ≡ some a) × (a.data_ ≡ p)
  pub fresh : (p : ℕ) → h.next ≤ p → h.cells p ≡ none
  pub null : h.cells 0 ≡ none
  pub positive : 0 < h.next

module _ {h : Heap} {own : Owners} (v : Inv h own) where
  -- No object owns an address that is not used yet.
  pub not_fresh : (i : ℕ) (a : Arena) → own i ≡ some a → a.data_ < h.next
  not_fresh i a e = elim (dec_lt a.data_ h.next) [
    | yes l ↦ l
    | no l ↦
        let f : h.cells a.data_ ≡ none = v.fresh a.data_ (omega arith) in
        ground (arith, v.fits i a, f, v.positive)
  ]

  -- A new block for an object that owns nothing.
  pub Inv-alloc :
      (k : ℕ) (b : List Byte) (n : ℕ)
      → IsHollow (own k)
      → length b ≡ n
      → Inv
          (record { cells = update h.cells h.next (some b); next = h.next + 1 })
          (update own k (some (record { size = n; data_ = h.next })))
  Inv-alloc k b n hollow len = record {
    fits = λ i a e. ground (arith, v.fits i a, v.fresh h.next, v.positive);
    unique = λ i j a c e f p q.
        ground (arith, v.unique i j a c, not_fresh i a, not_fresh j c, v.positive);
    owned = λ p c e. elim (ℕ_discrete h.next p) [
      | yes new ↦ (k, record { size = n; data_ = h.next }, ground arith, new)
      | no old ↦
          let e' : h.cells p ≡ some c = ground arith in
          let (i, a, f, d) = v.owned p c e' in (i, a, ground (arith, v.null), d)
    ];
    fresh = λ p q. ground (arith, v.fresh p);
    null = ground (arith, v.null, v.positive);
    positive = omega arith;
  }

  -- New contents of the same length for a block.
  pub Inv-store :
      (p : ℕ) (b b' : List Byte)
      → h.cells p ≡ some b
      → length b' ≡ length b
      → Inv (record h { cells = update h.cells p (some b') }) own
  Inv-store p b b' e l = record {
    fits = λ i a f. ground (arith, v.fits i a);
    unique = v.unique;
    owned = λ q c f. elim (ℕ_discrete p q) [
      | yes same ↦ v.owned q b (ground arith)
      | no other ↦ v.owned q c (ground arith)
    ];
    fresh = λ q l'. ground (arith, v.fresh q);
    null = ground (arith, v.null);
    positive = v.positive;
  }

  -- An object's block is freed, and the object left without it.
  pub Inv-free :
      (k : ℕ) (a : Arena) (x : Option Arena)
      → own k ≡ some a
      → 0 < a.data_
      → IsHollow x
      → Inv (record h { cells = update h.cells a.data_ none }) (update own k x)
  Inv-free k a x e l hollow = record {
    fits = λ i c f. ground (arith, v.fits i c, v.unique i k c a);
    unique = λ i j c d f g p q. ground (arith, v.unique i j c d);
    owned = λ p c f.
        let g : h.cells p ≡ some c = ground arith in
        let (i, d, o, q) = v.owned p c g in (i, d, ground arith, q);
    fresh = λ p q. ground (arith, v.fresh p);
    null = ground (arith, v.null);
    positive = v.positive;
  }

  -- An object that owns nothing becomes another such.
  pub Inv-hollow :
      (k : ℕ) (x : Option Arena) → IsHollow (own k) → IsHollow x → Inv h (update own k x)
  Inv-hollow k x e hollow = record {
    fits = λ i c f. ground (arith, v.fits i c);
    unique = λ i j c d f g p q. ground (arith, v.unique i j c d);
    owned = λ p c f. let (i, d, o, q) = v.owned p c f in (i, d, ground (arith, v.null), q);
    fresh = v.fresh;
    null = v.null;
    positive = v.positive;
  }

  -- Two objects exchange what they own.
  pub Inv-swap : (i j : ℕ) → i ≢ j → Inv h (update (update own i (own j)) j (own i))
  Inv-swap i j ne = record {
    fits = λ k c f. ground (arith, v.fits k c, v.fits i c, v.fits j c);
    unique = λ k l c d f g p q. ground (
      arith,
      v.unique k l c d,
      v.unique k i c d,
      v.unique k j c d,
      v.unique i l c d,
      v.unique j l c d,
      v.unique i j c d,
      v.unique j i c d,
    );
    owned = λ p c f.
        let (k, d, o, q) = v.owned p c f in
        elim (ℕ_discrete k i) [
          | yes at_i ↦ (j, d, ground arith, q)
          | no not_i ↦ elim (ℕ_discrete k j) [
            | yes at_j ↦ (i, d, ground arith, q)
            | no not_j ↦ (k, d, ground arith, q)
          ]
        ];
    fresh = v.fresh;
    null = v.null;
    positive = v.positive;
  }
