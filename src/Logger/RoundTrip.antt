-- ===== src/Logger/RoundTrip.antt =====
-- A reader of the lines that `JsonLogger` writes, and the round trip.
use cpp_design_patterns.Prelude.{
  ℕ, zero, suc, ◌<◌, ◌≡◌, refl, ap, ◌∙◌, List, [], ◌∷◌, ◌++◌, append_assoc, Option, none, some,
  length, eqb, if◌then◌else◌, arith,
}
use cpp_design_patterns.Logger.{
  Text, bytes, LogField, LogEvent, escape_json, quoted, json_fields, json_format,
}
use cpp_design_patterns.Logger.Json.{read_string, read_string-escape_json}

infixl 5 ◌>>=◌
abbrev ◌>>=◌ : {A B : Type 0} → Option A → (A → Option B) → Option B
none >>= f = none
some a >>= f = f a

-- What follows a text that must stand next.
unfoldable pub expect : Text → Text → Option Text
expect [] xs = some xs
expect (p ∷ ps) [] = none
expect (p ∷ ps) (x ∷ xs) = let rest = expect ps xs in if eqb p x then rest else none

unfoldable pub read_quoted : Text → Option (Text × Text)
read_quoted xs = expect (bytes "\"") xs >>= read_string

-- The fields up to the closing brace; a round of fuel reads one.
unfoldable pub read_fields : ℕ → Text → Option (List LogField)
unfolding expect read_quoted
read_fields zero xs = none
read_fields (suc fuel) [] = none
read_fields (suc fuel) (c ∷ xs) =
    let more = (do
      (key, after_key) ← read_quoted xs
      after_colon ← expect (bytes ":") after_key
      (value, after_value) ← read_quoted after_colon
      fields ← read_fields fuel after_value
      some (record { key = key; value = value } ∷ fields)) in
    if eqb c b'}' then some [] else if eqb c b',' then more else none

unfoldable pub read_event : ℕ → Text → Option LogEvent
unfolding expect read_quoted read_fields
read_event fuel xs = do
  after_open ← expect (bytes "{\"level\":") xs
  (level, after_level) ← read_quoted after_open
  after_msg ← expect (bytes ",\"msg\":") after_level
  (message, after_message) ← read_quoted after_msg
  fields ← read_fields fuel after_message
  some (record { level = level; message = message; fields = fields })

read_closed :
    (s rest : Text) → read_string ((escape_json s ++ (b'"' ∷ [])) ++ rest) ≡ some (s, rest)
read_closed s rest =
    ap read_string (append_assoc (escape_json s) (b'"' ∷ []) rest) ∙ read_string-escape_json s rest

fields_apart :
    (field : LogField) (fields : List LogField) (rest : Text)
    → json_fields (field ∷ fields) ++ rest
      ≡ b','
        ∷ (quoted field.key ++ (bytes ":" ++ (quoted field.value ++ (json_fields fields ++ rest))))
fields_apart field fields rest =
    ap (λ x. b',' ∷ x)
      (append_assoc (quoted field.key) (bytes ":" ++ (quoted field.value ++ json_fields fields))
          rest
        ∙ ap (λ x. quoted field.key ++ (bytes ":" ++ x))
            (append_assoc (quoted field.value) (json_fields fields) rest))

read_end : (fuel : ℕ) → read_fields (suc fuel) (bytes "}") ≡ some []
unfolding read_fields
read_end fuel = refl

read_field :
    (fuel : ℕ) (field : LogField) (fields : List LogField) (rest : Text)
    → read_fields fuel rest ≡ some fields
    → read_fields
        (suc fuel)
        (b',' ∷ (quoted field.key ++ (bytes ":" ++ (quoted field.value ++ rest))))
      ≡ some (field ∷ fields)
unfolding read_fields
read_field fuel field fields rest h =
    rw
      (
        read_closed field.key (bytes ":" ++ (quoted field.value ++ rest)),
        read_closed field.value rest,
        h,
      )
      refl

read_fields-json_fields :
    (fuel : ℕ) (fields : List LogField)
    → length fields < fuel
    → read_fields fuel (json_fields fields ++ bytes "}") ≡ some fields
read_fields-json_fields zero fields h = absurd (omega arith)
read_fields-json_fields (suc fuel) [] h = read_end fuel
read_fields-json_fields (suc fuel) (field ∷ fields) h =
    let rest = json_fields fields ++ bytes "}" in
    ap (read_fields (suc fuel)) (fields_apart field fields (bytes "}"))
    ∙ read_field fuel field fields rest (read_fields-json_fields fuel fields (omega arith))

-- What `JsonLogger` writes can be read back: whatever bytes the level, the message and the fields
-- hold, the reader of its lines gives the event that was logged, with any fuel above the number of
-- its fields.
pub read_event-json_format :
    (fuel : ℕ) (event : LogEvent)
    → length event.fields < fuel
    → read_event fuel (json_format event) ≡ some event
unfolding read_event json_format
read_event-json_format fuel event h =
    let end = json_fields event.fields ++ bytes "}" in
    rw
      (
        read_closed event.level (bytes ",\"msg\":" ++ (quoted event.message ++ end)),
        read_closed event.message end,
        read_fields-json_fields fuel event.fields h,
      )
      refl
