-- ===== src/Arena/Safety.antt =====
-- No sequence of events on arenas frees twice, uses a freed block or leaks one.
use cpp_design_patterns.Prelude.{
  ℕ, ◌+◌, ◌^◌, ◌<◌, ◌⊎◌, All, length, ◌≡◌, ◌≢◌, inl, inr, refl, Bool, false, Bool-cases, List, [],
  ◌∷◌, Option, none, some, Option-cases, replicate, length-replicate, ℕ_discrete, eqb, arith,
}
use cpp_design_patterns.Arena.{
  update, ◌>>=◌, Arena, empty, make, destroy, copy_assign, move, move_assign,
}
use cpp_design_patterns.Arena.Bytes.{
  Owned, Safe, Safe-of, SafeUnless, swaps-Safe, writes-Safe, reads-Safe,
}
use cpp_design_patterns.Arena.Blocks.{Inv-alloc, Inv-hollow}
use cpp_design_patterns.Arena.Objects.{
  World, Event, constructs, destroys, copies, copy_assigns, moves, move_assigns, swaps, writes,
  reads, step, run, start,
}
use cpp_design_patterns.Arena.Ownership.{
  Inv-ext, freed, allocated, free-Fits, freed-Inv, copied, copy_found, copied-Inv, copy_zero,
  copy_lost, copy_assign_found, replaced-Inv, moved-Inv,
}

module _ (w : World) (v : Owned w) where
  constructs-Safe : (found : Bool) (k bytes : ℕ) → Safe (step w (constructs found k bytes))
  unfolding step make
  constructs-Safe found k bytes = elim (Option-cases (w.objects k)) [
    | inr (a, e) ↦ rw (e, step) v
    | inl e ↦ elim (ℕ_discrete bytes 0) [
      | yes z ↦
          Safe-of (step w (constructs found k bytes))
            (record w { objects = update w.objects k (some empty) }) (ground arith)
            (Inv-hollow v k (some empty) (rw e tt) (refl, refl))
      | no nz ↦ elim (Bool-cases found) [
        | inl y ↦
            Safe-of (step w (constructs found k bytes))
              (record {
                heap = allocated bytes w.heap;
                objects = update w.objects k (some (record { size = bytes; data_ = w.heap.next }));
              })
              (ground (arith, v.positive))
              (Inv-alloc v k (replicate bytes none) bytes (rw e tt) (length-replicate bytes none))
        | inr n ↦ Safe-of (step w (constructs found k bytes)) w (ground arith) v
      ]
    ]
  ]

  destroys-Safe : (k : ℕ) → Safe (step w (destroys k))
  unfolding step destroy
  destroys-Safe k = elim (Option-cases (w.objects k)) [
    | inl e ↦ rw (e, step) v
    | inr (a, e) ↦
        rw (e, step, free-Fits a w.heap (v.fits k a e)) (freed-Inv w.heap w.objects k a none v e tt)
  ]

  -- A copy of an object that is there to one that is not.
  copied-Safe :
      (found : Bool) (k from : ℕ) (other : Arena)
      → w.objects k ≡ none
      → w.objects from ≡ some other
      → Safe (step w (copies found k from))
  unfolding step
  copied-Safe found k from other e f = elim (ℕ_discrete other.size 0) [
    | yes z ↦
        Safe-of (step w (copies found k from))
          (record w { objects = update w.objects k (some empty) })
          (ground (arith, copy_zero found other w.heap z))
          (Inv-hollow v k (some empty) (rw e tt) (refl, refl))
    | no nz ↦ elim (Bool-cases found) [
      | inl y ↦
          let (b, _, len, c) = copy_found w.heap w.objects from other v f (omega arith) in
          Safe-of (step w (copies found k from))
            (record {
              heap = copied b other.size w.heap;
              objects =
                  update w.objects k (some (record { size = other.size; data_ = w.heap.next }));
            })
            (ground (arith, c)) (copied-Inv w.heap w.objects k b other.size v (rw e tt) len)
      | inr n ↦
          Safe-of (step w (copies found k from)) w
            (ground (arith, copy_lost other w.heap (omega arith))) v
    ]
  ]

  copies-Safe : (found : Bool) (k from : ℕ) → Safe (step w (copies found k from))
  unfolding step
  copies-Safe found k from = elim (Option-cases (w.objects k)) [
    | inr (a, e) ↦ rw (e, step) v
    | inl e ↦ elim (Option-cases (w.objects from)) [
      | inl f ↦ rw (e, f, step) v
      | inr (other, f) ↦ copied-Safe found k from other e f
    ]
  ]

  assigned-Safe :
      (found : Bool) (k from : ℕ) (self other : Arena)
      → k ≢ from
      → w.objects k ≡ some self
      → w.objects from ≡ some other
      → Safe (step w (copy_assigns found k from))
  unfolding step copy_assign
  assigned-Safe found k from self other ne e f =
      let o = step w (copy_assigns found k from) in
      let apart : eqb k from ≡ false = ground arith in
      elim (ℕ_discrete other.size 0) [
        | yes z ↦
            Safe-of o
              (record { heap = freed self w.heap; objects = update w.objects k (some empty) })
              (ground
                (arith, copy_zero found other w.heap z, free-Fits self w.heap (v.fits k self e)))
              (freed-Inv w.heap w.objects k self (some empty) v e (refl, refl))
        | no nz ↦ elim (Bool-cases found) [
          | inl y ↦
              let (b, _, len, c) =
                copy_assign_found w.heap w.objects k from self other v e f (omega arith) in
              Safe-of o
                (record {
                  heap = freed self (copied b other.size w.heap);
                  objects =
                      update w.objects k (some (record { size = other.size; data_ = w.heap.next }));
                })
                (ground (arith, c)) (replaced-Inv w.heap w.objects k self b other.size v e len)
          | inr n ↦
              Safe-of o (record w { objects = update w.objects k (some self) })
                (ground (arith, copy_lost other w.heap (omega arith)))
                (Inv-ext _ _ _ _ (λ p. refl) refl (λ i. ground arith) v)
        ]
      ]

  copy_assigns-Safe : (found : Bool) (k from : ℕ) → Safe (step w (copy_assigns found k from))
  unfolding step copy_assign
  copy_assigns-Safe found k from = elim (Option-cases (w.objects k)) [
    | inl e ↦ rw (e, step) v
    | inr (self, e) ↦ elim (Option-cases (w.objects from)) [
      | inl f ↦ Safe-of (step w (copy_assigns found k from)) w (ground arith) v
      | inr (other, f) ↦ elim (ℕ_discrete k from) [
        | yes same ↦
            Safe-of (step w (copy_assigns found k from))
              (record w { objects = update w.objects k (some self) }) (ground arith)
              (Inv-ext _ _ _ _ (λ p. refl) refl (λ i. ground arith) v)
        | no ne ↦ assigned-Safe found k from self other ne e f
      ]
    ]
  ]

  moves-Safe : (k from : ℕ) → Safe (step w (moves k from))
  unfolding step move
  moves-Safe k from = elim (Option-cases (w.objects k)) [
    | inr (a, e) ↦ rw (e, step) v
    | inl e ↦ elim (Option-cases (w.objects from)) [
      | inl f ↦ rw (e, f, step) v
      | inr (other, f) ↦
          let ne : k ≢ from = λ s. ground arith in
          rw (e, f, step) (moved-Inv w.heap w.objects k from other v ne (rw e tt) f)
    ]
  ]

  move_assigned-Safe :
      (k from : ℕ) (self other : Arena)
      → k ≢ from
      → w.objects k ≡ some self
      → w.objects from ≡ some other
      → Safe (step w (move_assigns k from))
  unfolding step move_assign
  move_assigned-Safe k from self other ne e f =
      let v1 = freed-Inv w.heap w.objects k self none v e tt in
      let v2 =
        moved-Inv (freed self w.heap) (update w.objects k none) k from other v1 ne (ground arith)
          (ground arith) in
      Safe-of (step w (move_assigns k from))
        (record {
          heap = freed self w.heap;
          objects = update (update w.objects from (some empty)) k (some other);
        })
        (ground (arith, free-Fits self w.heap (v.fits k self e)))
        (Inv-ext _ _ _ _ (λ p. refl) refl (λ i. ground arith) v2)

  move_assigns-Safe : (k from : ℕ) → Safe (step w (move_assigns k from))
  unfolding step move_assign
  move_assigns-Safe k from = elim (Option-cases (w.objects k)) [
    | inl e ↦ rw (e, step) v
    | inr (self, e) ↦ elim (Option-cases (w.objects from)) [
      | inl f ↦ Safe-of (step w (move_assigns k from)) w (ground arith) v
      | inr (other, f) ↦ elim (ℕ_discrete k from) [
        | yes same ↦
            Safe-of (step w (move_assigns k from))
              (record w { objects = update (update w.objects from (some other)) k (some self) })
              (ground arith) (Inv-ext _ _ _ _ (λ p. refl) refl (λ i. ground arith) v)
        | no ne ↦ move_assigned-Safe k from self other ne e f
      ]
    ]
  ]

-- The end of a write or a read does not wrap around as a `size_t`.
abbrev pub IsWithin : Event → Type 0
IsWithin (writes k offset s) = offset + length s < 2 ^ 64
IsWithin (reads k offset len) = offset + len < 2 ^ 64
IsWithin _ = Unit

-- What is defined owns its blocks.
abbrev Kept : Option World → Type 0
Kept o = (o ≡ none) ⊎ Safe o

within-Safe : (end : ℕ) (o : Option World) → SafeUnless end o → end < 2 ^ 64 → Safe o
within-Safe end o (inl (_, wraps)) h = absurd (omega arith)
within-Safe end o (inr s) h = s

unless-Kept : (end : ℕ) (o : Option World) → SafeUnless end o → Kept o
unless-Kept end o (inl (undefined, _)) = inl undefined
unless-Kept end o (inr s) = inr s

step-Safe : (w : World) (e : Event) → Owned w → IsWithin e → Safe (step w e)
step-Safe w (constructs found k bytes) v h = constructs-Safe w v found k bytes
step-Safe w (destroys k) v h = destroys-Safe w v k
step-Safe w (copies found k from) v h = copies-Safe w v found k from
step-Safe w (copy_assigns found k from) v h = copy_assigns-Safe w v found k from
step-Safe w (moves k from) v h = moves-Safe w v k from
step-Safe w (move_assigns k from) v h = move_assigns-Safe w v k from
step-Safe w (swaps k from) v h = swaps-Safe w v k from
step-Safe w (writes k offset s) v h =
    within-Safe (offset + length s) (step w (writes k offset s)) (writes-Safe w v k offset s) h
step-Safe w (reads k offset len) v h =
    within-Safe (offset + len) (step w (reads k offset len)) (reads-Safe w v k offset len) h

step-Kept : (w : World) (e : Event) → Owned w → Kept (step w e)
step-Kept w (constructs found k bytes) v = inr (constructs-Safe w v found k bytes)
step-Kept w (destroys k) v = inr (destroys-Safe w v k)
step-Kept w (copies found k from) v = inr (copies-Safe w v found k from)
step-Kept w (copy_assigns found k from) v = inr (copy_assigns-Safe w v found k from)
step-Kept w (moves k from) v = inr (moves-Safe w v k from)
step-Kept w (move_assigns k from) v = inr (move_assigns-Safe w v k from)
step-Kept w (swaps k from) v = inr (swaps-Safe w v k from)
step-Kept w (writes k offset s) v =
    unless-Kept (offset + length s) (step w (writes k offset s)) (writes-Safe w v k offset s)
step-Kept w (reads k offset len) v =
    unless-Kept (offset + len) (step w (reads k offset len)) (reads-Safe w v k offset len)

run-Safe : (w : World) (es : List Event) → Owned w → All IsWithin es → Safe (run w es)
unfolding run
run-Safe w [] v h = v
run-Safe w (e ∷ es) v (h, hs) = go (λ w' s. run-Safe w' es s hs) (step w e) (step-Safe w e v h)
  where
    go :
        ((w' : World) → Owned w' → Safe (run w' es))
        → (o : Option World) → Safe o
        → Safe (o >>= λ w'. run w' es)
    go rest none s = absurd s
    go rest (some w') s = rest w' s

run-Kept : (w : World) (es : List Event) → Owned w → Kept (run w es)
unfolding run
run-Kept w [] v = inr v
run-Kept w (e ∷ es) v = go (λ w' s. run-Kept w' es s) (step w e) (step-Kept w e v)
  where
    go :
        ((w' : World) → Owned w' → Kept (run w' es))
        → (o : Option World) → Kept o
        → Kept (o >>= λ w'. run w' es)
    go rest none s = inl refl
    go rest (some w') (inl e) = absurd (cc)
    go rest (some w') (inr s) = rest w' s

pub start-Owned : Owned start
unfolding start
start-Owned = record {
  fits = λ i a e. cc;
  unique = λ i j a b e f p q. cc;
  owned = λ p b e. absurd (cc);
  fresh = λ p l. refl;
  null = refl;
  positive = omega arith;
}

Safe-total : (o : Option World) → Safe o → (w : World) × (o ≡ some w) × Owned w
Safe-total none s = absurd s
Safe-total (some w) s = (w, refl, s)

-- Whatever a program constructs, copies, moves, assigns, swaps, writes, reads and destroys, and whenever memory runs
-- out, as long as no write or read ends at `2 ^ 64` or beyond: no event is undefined, so no block is freed twice,
-- none is used after it was freed and no access leaves its block, and afterwards every object owns nothing or
-- a block of its size, no two objects own the same block and each block has an owner.
pub arenas_run_safely :
    (es : List Event) → All IsWithin es → (w : World) × (run start es ≡ some w) × Owned w
arenas_run_safely es h = Safe-total (run start es) (run-Safe start es start-Owned h)

Kept-some : (o : Option World) (w : World) → o ≡ some w → Kept o → Owned w
Kept-some o w e (inl gone) = absurd (cc)
Kept-some o w e (inr s) = rw (e) at s

-- Nothing leaks: after any events, when no object is left, no block is.
pub no_leak :
    (es : List Event) (w : World)
    → run start es ≡ some w
    → ((i : ℕ) → w.objects i ≡ none)
    → (p : ℕ) → w.heap.cells p ≡ none
no_leak es w e gone p = elim (Option-cases (w.heap.cells p)) [
  | inl n ↦ n
  | inr (b, y) ↦
      let v = Kept-some (run start es) w e (run-Kept start es start-Owned) in
      let (i, a, o, _) = v.owned p b y in absurd (cc (gone i))
]
