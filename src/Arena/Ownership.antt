-- ===== src/Arena/Ownership.antt =====
-- Every event of the arenas is defined and keeps the ownership of blocks.
use mathlib.Core.Path.{fun_ext}
use cpp_design_patterns.Prelude.{
  ℕ, zero, suc, ◌+◌, ◌<◌, ◌≡◌, ◌≢◌, inl, inr, refl, sym, ap, subst, Bool, true, false, List, [],
  ◌∷◌, append-nil, Option, none, some, Option-cases, length, take, drop, replicate,
  length-replicate, ℕ_discrete, eqb, eqb_iff, if◌then◌else◌, arith,
}
use cpp_design_patterns.Prelude.Result.{ok, throws, bad_alloc}
use cpp_design_patterns.Arena.{Byte, Heap, update, free, Arena, empty, copy, copy_assign}
use cpp_design_patterns.Arena.Blocks.{
  Owners, IsHollow, Fits, Inv, Inv-alloc, Inv-store, Inv-free, Inv-hollow, Inv-swap, not_fresh,
}

take_all {ℓ} : {A : Type ℓ} (n : ℕ) (xs : List A) → length xs ≡ n → take n xs ≡ xs
take_all zero [] e = refl
take_all zero (x ∷ xs) e = absurd (omega arith)
take_all (suc n) [] e = refl
take_all (suc n) (x ∷ xs) e = ap (◌∷◌ x) (take_all n xs (omega arith))

drop_all {ℓ} : {A : Type ℓ} (n : ℕ) (xs : List A) → length xs ≡ n → drop n xs ≡ []
drop_all zero [] e = refl
drop_all zero (x ∷ xs) e = absurd (omega arith)
drop_all (suc n) [] e = refl
drop_all (suc n) (x ∷ xs) e = drop_all n xs (omega arith)

-- The invariant depends on the heap and the owners only pointwise.
pub Inv-ext :
    (h h' : Heap) (own own' : Owners)
    → ((p : ℕ) → h'.cells p ≡ h.cells p)
    → h'.next ≡ h.next
    → ((i : ℕ) → own' i ≡ own i)
    → Inv h own
    → Inv h' own'
Inv-ext h h' own own' c n o v =
    let e : h ≡ h' = λ i. record { cells = sym (fun_ext c) i; next = sym n i } in
    subst (λ x. Inv h' x) (sym (fun_ext o)) (subst (λ x. Inv x own) e v)

-- The heap after a block is given back, or after `free` of null.
abbrev pub freed : Arena → Heap → Heap
freed a h = if eqb a.data_ 0 then h else record h { cells = update h.cells a.data_ none }

pub free-Fits : (a : Arena) (h : Heap) → Fits h a → free a.data_ h ≡ some (freed a h)
unfolding free
free-Fits a h f = ground arith

-- Freeing what an object owns is defined, and leaves it without.
pub freed-Inv :
    (h : Heap) (own : Owners) (k : ℕ) (a : Arena) (x : Option Arena)
    → Inv h own
    → own k ≡ some a
    → IsHollow x
    → Inv (freed a h) (update own k x)
freed-Inv h own k a x v e hollow = elim (ℕ_discrete a.data_ 0) [
  | yes z ↦
      let s : IsHollow (own k) = ground (arith, v.fits k a) in
      rw ((eqb_iff a.data_ 0).1 z) (Inv-hollow v k x s hollow)
  | no nz ↦
      let z : eqb a.data_ 0 ≡ false = ground arith in rw z (Inv-free v k a x e (omega arith) hollow)
]

-- The heap with a new block.
abbrev pub allocated : ℕ → Heap → Heap
allocated n h = record {
  cells = update h.cells h.next (some (replicate n none));
  next = h.next + 1;
}

-- The heap with a copy of a block at a new address.
abbrev pub copied : List Byte → ℕ → Heap → Heap
copied b n h = record {
  cells = update (update h.cells h.next (some (replicate n none))) h.next (some b);
  next = h.next + 1;
}

-- Where memory is found, the copy constructor of an arena that is not empty gives one of the same
-- size with a new block that holds the same bytes, and leaves the other blocks alone.
pub copy_found :
    (h : Heap) (own : Owners) (k : ℕ) (other : Arena)
    → Inv h own
    → own k ≡ some other
    → 0 < other.size
    → (b : List Byte) × (h.cells other.data_ ≡ some b)
      × (length b ≡ other.size)
      × (copy true other h
          ≡ some (copied b other.size h, ok (record { size = other.size; data_ = h.next })))
unfolding copy
copy_found h own k other v e l = elim (Option-cases (h.cells other.data_)) [
  | inl z ↦ absurd (ground (arith, v.fits k other))
  | inr (b, y) ↦
      let len : length b ≡ other.size = ground (arith, v.fits k other) in
      (
        b,
        y,
        len,
        ground (
          arith,
          not_fresh v k other e,
          v.positive,
          take_all other.size b len,
          length-replicate {A = Byte} other.size none,
          drop_all other.size (replicate {A = Byte} other.size none)
              (length-replicate other.size none),
          append-nil b,
        ),
      )
]

pub copied-Inv :
    (h : Heap) (own : Owners) (k : ℕ) (b : List Byte) (n : ℕ)
    → Inv h own
    → IsHollow (own k)
    → length b ≡ n
    → Inv (copied b n h) (update own k (some (record { size = n; data_ = h.next })))
copied-Inv h own k b n v hollow len =
    let r : List Byte = replicate n none in
    let l : length r ≡ n = length-replicate n none in
    let w = Inv-alloc v k r n hollow l in Inv-store w h.next r b (ground arith) (ground arith)

pub copy_zero :
    (found : Bool) (other : Arena) (h : Heap)
    → other.size ≡ 0
    → copy found other h ≡ some (h, ok empty)
unfolding copy
copy_zero found other h z = ground arith

pub copy_lost :
    (other : Arena) (h : Heap) → 0 < other.size → copy false other h ≡ some (h, throws bad_alloc)
unfolding copy
copy_lost other h l = ground arith

-- The heap and the object after a copy assignment that ends well.
pub copy_assign_found :
    (h : Heap) (own : Owners) (k from : ℕ) (self other : Arena)
    → Inv h own
    → own k ≡ some self
    → own from ≡ some other
    → 0 < other.size
    → (b : List Byte) × (h.cells other.data_ ≡ some b)
      × (length b ≡ other.size)
      × (copy_assign true false self other h
          ≡ some (
            freed self (copied b other.size h),
            record { size = other.size; data_ = h.next },
            ok tt,
          ))
unfolding copy_assign
copy_assign_found h own k from self other v e f l =
    let (b, y, len, c) = copy_found h own from other v f l in
    let s = copied b other.size h in
    let fits : Fits s self = ground (arith, v.fits k self, not_fresh v k self) in
    (b, y, len, ground (arith, c, free-Fits self s fits))

pub replaced-Inv :
    (h : Heap) (own : Owners) (k : ℕ) (self : Arena) (b : List Byte) (n : ℕ)
    → Inv h own
    → own k ≡ some self
    → length b ≡ n
    → Inv (freed self (copied b n h)) (update own k (some (record { size = n; data_ = h.next })))
replaced-Inv h own k self b n v e len =
    let v1 = freed-Inv h own k self none v e tt in
    let hollow : IsHollow (update own k none k) = ground arith in
    let v2 = copied-Inv (freed self h) (update own k none) k b n v1 hollow len in
    Inv-ext _ _ _ _ (λ p. ground (arith, not_fresh v k self e)) (ground arith) (λ i. ground arith)
      v2

-- What an object owns goes to one that owns nothing.
pub moved-Inv :
    (h : Heap) (own : Owners) (k from : ℕ) (a : Arena)
    → Inv h own
    → k ≢ from
    → IsHollow (own k)
    → own from ≡ some a
    → Inv h (update (update own from (some empty)) k (some a))
moved-Inv h own k from a v ne hollow e =
    let w = Inv-swap v k from ne in
    let z : IsHollow (update (update own k (own from)) from (own k) from) = ground arith in
    Inv-ext _ _ _ _ (λ p. refl) refl (λ i. ground arith)
      (Inv-hollow w from (some empty) z (refl, refl))
