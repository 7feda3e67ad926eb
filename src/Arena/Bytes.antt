-- ===== src/Arena/Bytes.antt =====
-- What `write`, `read` and `swap` do to the ownership of blocks.
use cpp_design_patterns.Prelude.{
  ℕ, false, ◌+◌, ◌^◌, ◌%◌, ◌≤◌, ◌<◌, ◌≡◌, ◌⊎◌, inl, inr, refl, Bool-cases, List, map, Option, none,
  some, Option-cases, length, length-map, ℕ_discrete, dec_lt, leb, ltb, arith,
}
use cpp_design_patterns.Arena.{Byte, update, Arena, swap, write, read, store, load}
use cpp_design_patterns.Arena.Access.{spliced, length_splice}
use cpp_design_patterns.Arena.Blocks.{Inv, Inv-store, Inv-swap}
use cpp_design_patterns.Arena.Objects.{World, swaps, writes, reads, step}
use cpp_design_patterns.Arena.Ownership.{Inv-ext}

abbrev pub Owned : World → Type 0
Owned w = Inv w.heap w.objects

-- The outcome is defined and owns its blocks.
abbrev pub Safe : Option World → Type 0
Safe none = ⊥
Safe (some w) = Owned w

pub Safe-of : (o : Option World) (w : World) → o ≡ some w → Owned w → Safe o
Safe-of o w e v = rw e v

-- An access whose end wraps around may be undefined; any other is safe.
abbrev pub SafeUnless : ℕ → Option World → Type 0
SafeUnless end o = ((o ≡ none) × (2 ^ 64 ≤ end)) ⊎ Safe o

module _ (w : World) (v : Owned w) where
  -- A block that an access within the arena meets is there and reaches to the arena's end.
  not_absent :
      (k end : ℕ) (a : Arena)
      → w.objects k ≡ some a
      → ltb a.size (end % 2 ^ 64) ≡ false
      → 0 < end
      → w.heap.cells a.data_ ≡ none
      → 2 ^ 64 ≤ end
  not_absent k end a e inside some_end absent = elim (dec_lt end (2 ^ 64)) [
    | yes small ↦ absurd (ground (arith, v.fits k a e))
    | no large ↦ omega arith
  ]

  not_short :
      (k end : ℕ) (a : Arena) (block : List Byte)
      → w.objects k ≡ some a
      → ltb a.size (end % 2 ^ 64) ≡ false
      → w.heap.cells a.data_ ≡ some block
      → leb end (length block) ≡ false
      → 2 ^ 64 ≤ end
  not_short k end a block e inside there short = elim (dec_lt end (2 ^ 64)) [
    | yes small ↦ absurd (ground (arith, v.fits k a e, v.null))
    | no large ↦ omega arith
  ]

  written-Safe :
      (k offset : ℕ) (s : List ℕ) (a : Arena)
      → w.objects k ≡ some a
      → SafeUnless (offset + length s) (step w (writes k offset s))
  unfolding step write store
  written-Safe k offset s a e =
      let len : length (map {A = ℕ} {B = Byte} some s) ≡ length s =
        length-map {A = ℕ} {B = Byte} some s in
      elim (Bool-cases (ltb a.size ((offset + length s) % 2 ^ 64))) [
        | inl beyond ↦ inr (Safe-of (step w (writes k offset s)) w (ground arith) v)
        | inr inside ↦ elim (ℕ_discrete (length s) 0) [
          | yes z ↦ inr (Safe-of (step w (writes k offset s)) w (ground arith) v)
          | no nz ↦ elim (Option-cases (w.heap.cells a.data_)) [
            | inl absent ↦
                inl (ground arith, not_absent k (offset + length s) a e inside (omega arith) absent)
            | inr (block, there) ↦ elim (Bool-cases (leb (offset + length s) (length block))) [
              | inr short ↦ inl (
                ground (arith, len),
                not_short k (offset + length s) a block e inside there short,
              )
              | inl fit ↦
                  let room : offset + length s ≤ length block = ground arith in
                  inr (
                    Safe-of (step w (writes k offset s))
                      (record w {
                        heap = record w.heap {
                          cells = update w.heap.cells a.data_ (some (spliced offset s block));
                        };
                      })
                      (ground (arith, len))
                      (Inv-store v a.data_ block (spliced offset s block) there (
                        rw (← len) (length_splice offset block (map some s) (omega (arith, len))))))
            ]
          ]
        ]
      ]

  read-Safe :
      (k offset len : ℕ) (a : Arena)
      → w.objects k ≡ some a
      → SafeUnless (offset + len) (step w (reads k offset len))
  unfolding step read load
  read-Safe k offset len a e = elim (Bool-cases (ltb a.size ((offset + len) % 2 ^ 64))) [
    | inl beyond ↦ inr (Safe-of (step w (reads k offset len)) w (ground arith) v)
    | inr inside ↦ elim (ℕ_discrete len 0) [
      | yes z ↦ inr (Safe-of (step w (reads k offset len)) w (ground arith) v)
      | no nz ↦ elim (Option-cases (w.heap.cells a.data_)) [
        | inl absent ↦
            inl (ground arith, not_absent k (offset + len) a e inside (omega arith) absent)
        | inr (block, there) ↦ elim (Bool-cases (leb (offset + len) (length block))) [
          | inr short ↦ inl (ground arith, not_short k (offset + len) a block e inside there short)
          | inl fit ↦ inr (Safe-of (step w (reads k offset len)) w (ground arith) v)
        ]
      ]
    ]
  ]

  pub writes-Safe :
      (k offset : ℕ) (s : List ℕ) → SafeUnless (offset + length s) (step w (writes k offset s))
  unfolding step
  writes-Safe k offset s = elim (Option-cases (w.objects k)) [
    | inl e ↦ inr (rw (e, step) v)
    | inr (a, e) ↦ written-Safe k offset s a e
  ]

  pub reads-Safe : (k offset len : ℕ) → SafeUnless (offset + len) (step w (reads k offset len))
  unfolding step
  reads-Safe k offset len = elim (Option-cases (w.objects k)) [
    | inl e ↦ inr (rw (e, step) v)
    | inr (a, e) ↦ read-Safe k offset len a e
  ]

  pub swaps-Safe : (k from : ℕ) → Safe (step w (swaps k from))
  unfolding step swap
  swaps-Safe k from = elim (Option-cases (w.objects k)) [
    | inl e ↦ rw (e, step) v
    | inr (self, e) ↦ elim (Option-cases (w.objects from)) [
      | inl f ↦ Safe-of (step w (swaps k from)) w (ground arith) v
      | inr (other, f) ↦
          Safe-of (step w (swaps k from))
            (record w { objects = update (update w.objects from (some self)) k (some other) })
            (ground arith)
            (elim (ℕ_discrete from k) [
              | yes same ↦ Inv-ext _ _ _ _ (λ p. refl) refl (λ i. ground arith) v
              | no ne ↦ Inv-ext _ _ _ _ (λ p. refl) refl (λ i. ground arith) (Inv-swap v from k ne)
            ])
    ]
  ]
