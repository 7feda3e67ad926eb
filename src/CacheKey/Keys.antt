-- ===== src/CacheKey/Keys.antt =====
-- Cache keys read back: what a key with known part types says about its parts.
use cpp_design_patterns.Prelude.{
  ℕ, zero, suc, ◌^◌, ◌<◌, ◌≡◌, refl, sym, ap, ◌∙◌, List, [], ◌∷◌, ◌++◌, append_assoc, append-nil,
  Bool, ◌||◌, true, false, Option, none, some, some_inj, map, eqb, take, drop, length, arith, All,
}
use cpp_design_patterns.Logger.{Text}
use cpp_design_patterns.CacheKey.{
  Bytes, append_string, Part, bytes_part, string_part, user_key_part, append_part, append_parts,
}

-- What the code relies on about memory: a number takes the size of its type in bytes, and can be
-- read back from them when its type holds it.
pub record Native (native : ℕ → ℕ → Bytes) : Type 0 where
  pub native_length : (size value : ℕ) → length (native size value) ≡ size
  pub value_of : Bytes → ℕ
  pub value_of-native : (size value : ℕ) → value < 256 ^ size → value_of (native size value) ≡ value

-- A part's type, known at compile time.
pub data Shape : Type 0 where
  bytes_shape : (size : ℕ) → Shape
  string_shape : Shape
  user_key_shape : Shape

abbrev pub shape : Part → Shape
shape (bytes_part size value) = bytes_shape size
shape (string_part s) = string_shape
shape (user_key_part key) = user_key_shape

-- The bytes of one part.
abbrev part_bytes : (ℕ → ℕ → Bytes) → Part → Bytes
part_bytes native (bytes_part size value) = native size value
part_bytes native (string_part s) = s ++ (0 ∷ [])
part_bytes native (user_key_part key) = 0xA5 ∷ native 8 key.user_id ++ (key.region ++ (0 ∷ []))

-- The text before the first zero byte and what follows.
abbrev pub split_at_zero : Bytes → Option (Text × Bytes)
split_at_zero [] = none
split_at_zero (b ∷ rest) = elim (eqb b 0) [
  | true ↦ some ([], rest)
  | false ↦ elim (split_at_zero rest) [ none ↦ none | some (s, left) ↦ some (b ∷ s, left) ]
]

module _ (value_of : Bytes → ℕ) where
  abbrev pub read_part : Shape → Bytes → Option (Part × Bytes)
  read_part (bytes_shape size) key =
      some (bytes_part size (value_of (take size key)), drop size key)
  read_part string_shape key = elim (split_at_zero key) [
    | none ↦ none
    | some (s, left) ↦ some (string_part s, left)
  ]
  read_part user_key_shape [] = none
  read_part user_key_shape (mark ∷ key) = elim (split_at_zero (drop 8 key)) [
    | none ↦ none
    | some (s, left) ↦
        some (user_key_part (record { user_id = value_of (take 8 key); region = s }), left)
  ]

  unfoldable pub read_parts : List Shape → Bytes → Option (List Part)
  read_parts [] key = some []
  read_parts (shape ∷ shapes) key = elim (read_part shape key) [
    | none ↦ none
    | some (part, left) ↦ elim (read_parts shapes left) [
      | none ↦ none
      | some parts ↦ some (part ∷ parts)
    ]
  ]

abbrev pub has_zero : Text → Bool
has_zero [] = false
has_zero (b ∷ s) = eqb b 0 || has_zero s

-- A text without a zero byte.
abbrev pub NoZero : Text → Type 0
NoZero s = has_zero s ≡ false

-- Numbers within their types, and no zero byte in a text.
abbrev pub IsReadable : Part → Type 0
IsReadable (bytes_part size value) = value < 256 ^ size
IsReadable (string_part s) = NoZero s
IsReadable (user_key_part key) = (key.user_id < 2 ^ 64) × NoZero key.region

take_append : (xs ys : Bytes) (n : ℕ) → length xs ≡ n → take n (xs ++ ys) ≡ xs
take_append [] ys zero h = refl
take_append [] ys (suc n) h = absurd (omega arith)
take_append (x ∷ xs) ys zero h = absurd (omega arith)
take_append (x ∷ xs) ys (suc n) h = ap (◌∷◌ x) (take_append xs ys n (omega arith))

drop_append : (xs ys : Bytes) (n : ℕ) → length xs ≡ n → drop n (xs ++ ys) ≡ ys
drop_append [] ys zero h = refl
drop_append [] ys (suc n) h = absurd (omega arith)
drop_append (x ∷ xs) ys zero h = absurd (omega arith)
drop_append (x ∷ xs) ys (suc n) h = drop_append xs ys n (omega arith)

split_at_zero_lem :
    (s : Text) (rest : Bytes) → NoZero s → split_at_zero (s ++ (0 ∷ rest)) ≡ some (s, rest)
split_at_zero_lem [] rest h = refl
split_at_zero_lem (b ∷ s) rest h = ground (arith, split_at_zero_lem s rest)

module _ (native : ℕ → ℕ → Bytes) (memory : Native native) where
  read_part-part_bytes :
      (part : Part) (rest : Bytes)
      → IsReadable part
      → read_part memory.value_of (shape part) (part_bytes native part ++ rest) ≡ some (part, rest)
  read_part-part_bytes (bytes_part size value) rest h =
      let n = memory.native_length size value in
      rw
        (
          take_append (native size value) rest size n,
          drop_append (native size value) rest size n,
          memory.value_of-native size value h,
        )
        refl
  read_part-part_bytes (string_part s) rest h =
      rw (append_assoc s (0 ∷ []) rest, read_part, split_at_zero_lem s rest h) refl
  read_part-part_bytes (user_key_part key) rest (h, z) =
      let n = memory.native_length 8 key.user_id in
      let left = (key.region ++ (0 ∷ [])) ++ rest in
      let joined = append_assoc (native 8 key.user_id) (key.region ++ (0 ∷ [])) rest in
      let region =
        ap (λ x. split_at_zero (drop 8 x)) joined
        ∙ ap split_at_zero (drop_append (native 8 key.user_id) left 8 n)
        ∙ ap split_at_zero (append_assoc key.region (0 ∷ []) rest)
        ∙ split_at_zero_lem key.region rest z in
      let user_id =
        ap (λ x. memory.value_of (take 8 x)) joined
        ∙ ap memory.value_of (take_append (native 8 key.user_id) left 8 n)
        ∙ memory.value_of-native 8 key.user_id h in
      rw (read_part, region)
        (ap (λ x. some (user_key_part (record { user_id = x; region = key.region }), rest)) user_id)

  append_part-part_bytes :
      (out : Bytes) (part : Part) → append_part native out part ≡ out ++ part_bytes native part
  unfolding append_part append_string
  append_part-part_bytes out (bytes_part size value) = refl
  append_part-part_bytes out (string_part s) = append_assoc out s (0 ∷ [])
  append_part-part_bytes out (user_key_part key) =
      let id = native 8 key.user_id in
      let end = key.region ++ (0 ∷ []) in
      append_assoc ((out ++ (0xA5 ∷ [])) ++ id) key.region (0 ∷ [])
      ∙ append_assoc (out ++ (0xA5 ∷ [])) id end
      ∙ append_assoc out (0xA5 ∷ []) (id ++ end)

  abbrev parts_bytes : List Part → Bytes
  parts_bytes [] = []
  parts_bytes (part ∷ parts) = part_bytes native part ++ parts_bytes parts

  append_parts-parts_bytes :
      (out : Bytes) (parts : List Part) → append_parts native out parts ≡ out ++ parts_bytes parts
  unfolding append_parts
  append_parts-parts_bytes out [] = sym (append-nil out)
  append_parts-parts_bytes out (part ∷ parts) =
      append_parts-parts_bytes (append_part native out part) parts
      ∙ ap (λ x. x ++ parts_bytes parts) (append_part-part_bytes out part)
      ∙ append_assoc out (part_bytes native part) (parts_bytes parts)

  read_parts-parts_bytes :
      (parts : List Part)
      → All IsReadable parts
      → read_parts memory.value_of (map shape parts) (parts_bytes parts) ≡ some parts
  unfolding read_parts
  read_parts-parts_bytes [] h = refl
  read_parts-parts_bytes (part ∷ parts) (h, hs) =
      rw
        (
          read_parts,
          read_part-part_bytes part (parts_bytes parts) h,
          read_parts-parts_bytes parts hs,
        )
        refl

  -- Over a memory that keeps numbers, when every number is within its type and no text holds a zero
  -- byte: the parts' types alone are enough to read a key back, and give exactly its parts.
  pub read_parts-append_parts :
      (parts : List Part)
      → All IsReadable parts
      → read_parts memory.value_of (map shape parts) (append_parts native [] parts) ≡ some parts
  read_parts-append_parts parts h =
      rw (append_parts-parts_bytes [] parts) (read_parts-parts_bytes parts h)

  -- Under the same conditions on both, two lists of parts of the same types with the same key are
  -- the same.
  pub keys_distinguish :
      (parts others : List Part)
      → All IsReadable parts
      → All IsReadable others
      → map shape parts ≡ map shape others
      → append_parts native [] parts ≡ append_parts native [] others
      → parts ≡ others
  keys_distinguish parts others h k same e = some_inj.0 (
      sym (read_parts-append_parts parts h)
      ∙ ap (λ x. read_parts memory.value_of x (append_parts native [] parts)) same
      ∙ ap (λ x. read_parts memory.value_of (map shape others) x) e
      ∙ read_parts-append_parts others k)

-- A zero byte inside a text is taken for the delimiter: wherever two texts in a row are cut, a text
-- with a zero byte followed by another has the key of the first one's front followed by the rest
-- joined to the other.
pub zero_bytes_collide :
    (native : ℕ → ℕ → Bytes) (out : Bytes) (front middle back : Text)
    → append_parts native out (string_part (front ++ (0 ∷ middle)) ∷ string_part back ∷ [])
      ≡ append_parts native out (string_part front ∷ string_part (middle ++ (0 ∷ back)) ∷ [])
unfolding append_parts append_part append_string
zero_bytes_collide native out front middle back = simp (append_assoc)
