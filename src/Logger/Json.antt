-- ===== src/Logger/Json.antt =====
-- A reader of JSON strings, and what it makes of the logger's lines.
use cpp_design_patterns.Prelude.{
  ℕ, ◌≡◌, refl, [], ◌∷◌, ◌++◌, Option, none, some, false, Bool-cases, inl, inr, eqb, if◌then◌else◌,
  arith,
}
use cpp_design_patterns.Logger.{Text, escape_json}

-- The byte that an escaped one stands for.
abbrev pub unescaped : ℕ → ℕ
unescaped c = if eqb c b'n' then b'\n' else c

-- The text before the closing quote and what follows it.
abbrev pub before : ℕ → Option (Text × Text) → Option (Text × Text)
before c none = none
before c (some (s, rest)) = some (c ∷ s, rest)

unfoldable pub read_string : Text → Option (Text × Text)
read_string [] = none
read_string (c ∷ []) = if eqb c b'"' then some ([], []) else none
read_string (c ∷ d ∷ rest) =
    let escaped = before (unescaped d) (read_string rest) in
    let plain = before c (read_string (d ∷ rest)) in
    if eqb c b'"' then some ([], d ∷ rest) else if eqb c b'\\' then escaped else plain

read_quote : (rest : Text) → read_string (b'"' ∷ rest) ≡ some ([], rest)
unfolding read_string
read_quote [] = refl
read_quote (d ∷ rest) = refl

read_plain :
    (c : ℕ) (rest : Text)
    → eqb c b'"' ≡ false
    → eqb c b'\\' ≡ false
    → read_string (c ∷ rest) ≡ before c (read_string rest)
unfolding read_string
read_plain c [] q b = ground arith
read_plain c (d ∷ rest) q b = ground arith

read_escape :
    (d : ℕ) (rest : Text) → read_string (b'\\' ∷ d ∷ rest) ≡ before (unescaped d) (read_string rest)
unfolding read_string
read_escape d rest = refl

-- A JSON string reader gets back any text that `escape_json` put between quotes, whatever the text
-- holds, and stops exactly behind the closing quote.
pub read_string-escape_json :
    (s rest : Text) → read_string (escape_json s ++ (b'"' ∷ rest)) ≡ some (s, rest)
unfolding escape_json
read_string-escape_json [] rest = read_quote rest
read_string-escape_json (ch ∷ s) rest =
    let ih = read_string-escape_json s rest in
    let tail = escape_json s ++ (b'"' ∷ rest) in
    elim (Bool-cases (eqb ch b'\\')) [
      | inl y ↦
          let same : ch ≡ b'\\' = ground arith in rw (y, read_escape b'\\' tail, ih, same) refl
      | inr n ↦ rw (n) (elim (Bool-cases (eqb ch b'"')) [
        | inl y ↦
            let same : ch ≡ b'"' = ground arith in rw (y, read_escape b'"' tail, ih, same) refl
        | inr m ↦ rw (m) (elim (Bool-cases (eqb ch b'\n')) [
          | inl y ↦
              let same : ch ≡ b'\n' = ground arith in rw (y, read_escape b'n' tail, ih, same) refl
          | inr k ↦ rw (k, read_plain ch tail m n, ih) refl
        ])
      ])
    ]
