-- ===== src/Arena/Access.antt =====
-- The bounds test of `write` and `read`, and what it lets through.
use cpp_design_patterns.Prelude.{
  ℕ, zero, suc, ◌+◌, ◌^◌, ◌≤◌, ◌<◌, ◌≡◌, refl, ap, List, [], ◌∷◌, ◌++◌, map, none, some, length,
  length-map, length-append, length-take, length-drop, take, drop, leb, if◌then◌else◌, arith,
}
use cpp_design_patterns.Prelude.Result.{ok, throws, out_of_range}
use cpp_design_patterns.Arena.{Byte, Heap, update, Arena, write, read}

module _ {A : Type 0} where
  take_exact : (xs ys : List A) → take (length xs) (xs ++ ys) ≡ xs
  take_exact [] ys = refl
  take_exact (x ∷ xs) ys = ap (◌∷◌ x) (take_exact xs ys)

  drop_splice :
      (n : ℕ) (block rest : List A) → n ≤ length block → drop n (take n block ++ rest) ≡ rest
  drop_splice zero block rest h = refl
  drop_splice (suc n) [] rest h = absurd (omega arith)
  drop_splice (suc n) (x ∷ block) rest h = drop_splice n block rest (omega arith)

  pub length_splice :
      (n : ℕ) (block new : List A)
      → n + length new ≤ length block
      → length (take n block ++ (new ++ drop (n + length new) block)) ≡ length block
  length_splice n block new h = omega (
    arith,
    length-append (take n block) (new ++ drop (n + length new) block),
    length-append new (drop (n + length new) block),
    length-take n block,
    length-drop (n + length new) block,
  )

-- The block with the new bytes in it.
abbrev pub spliced : ℕ → List ℕ → List Byte → List Byte
spliced offset s block = take offset block ++ (map some s ++ drop (offset + length s) block)

abbrev pub written : ℕ → ℕ → List ℕ → List Byte → Heap → Heap
written p offset s block h = record h { cells = update h.cells p (some (spliced offset s block)) }

module _ (a : Arena) (h : Heap) (block : List Byte) (owns : h.cells a.data_ ≡ some block)
    (fits : length block ≡ a.size) where
  -- Where offset and length do not wrap, the test of `write` of some bytes is exact: within the arena the bytes
  -- are put in place and nothing else changes; beyond it, even by one byte, it throws.
  pub write_checked :
      (offset : ℕ) (s : List ℕ)
      → 0 < length s
      → offset + length s < 2 ^ 64
      → write offset s a h ≡ (
          if leb (offset + length s) a.size
          then some (written a.data_ offset s block h, ok tt)
          else some (h, throws (out_of_range "arena write")))
  unfolding write
  write_checked offset s nonempty small = ground (arith, length-map {A = ℕ} {B = Byte} some s)

  read-written :
      (offset : ℕ) (s : List ℕ)
      → 0 < length s
      → offset + length s < 2 ^ 64
      → offset + length s ≤ a.size
      → read offset (length s) a (written a.data_ offset s block h) ≡ some (ok (map some s))
  unfolding read
  read-written offset s nonempty small inside =
      let bytes : List Byte = map some s in
      let len : length bytes ≡ length s = length-map some s in
      let rest = drop (offset + length s) block in
      ground (
        arith,
        len,
        length_splice offset block bytes,
        drop_splice offset block (bytes ++ rest),
        take_exact bytes rest,
      )

  -- Some bytes written within an arena are read back, where offset and length do not wrap.
  pub read-write :
      (offset : ℕ) (s : List ℕ)
      → 0 < length s
      → offset + length s < 2 ^ 64
      → offset + length s ≤ a.size
      → (elim (write offset s a h) [ none ↦ none | some (h', _) ↦ read offset (length s) a h' ])
        ≡ some (ok (map some s))
  read-write offset s nonempty small inside =
      ground
        (arith, write_checked offset s nonempty small, read-written offset s nonempty small inside)

  -- The sum in the test is a `size_t`: where it wraps around to a number within the arena, the write
  -- passes the test, and the copy then leaves the block, which is undefined.
  pub write_wraps :
      (offset : ℕ) (s : List ℕ)
      → a.size < 2 ^ 64
      → length s < 2 ^ 64
      → offset < 2 ^ 64
      → 2 ^ 64 ≤ offset + length s
      → offset + length s ≤ 2 ^ 64 + a.size
      → write offset s a h ≡ none
  unfolding write
  write_wraps offset s x y z wraps low = ground (arith, length-map {A = ℕ} {B = Byte} some s)
