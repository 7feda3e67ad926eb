-- ===== src/CacheKey.antt =====
-- examples/traits_tag_dispatch/main.cpp: cache keys from parts of different types, and values made
-- safe for logs. A part's tag is its constructor; texts are lists of bytes. How the machine lays a
-- number out in memory is a parameter.
pub mod Keys
pub mod Hex
mod Tests
use cpp_design_patterns.Prelude.{
  ℕ, zero, suc, ◌+◌, ◌/◌, ◌%◌, String, List, [], ◌∷◌, ◌++◌, if◌then◌else◌, ltb,
}
use cpp_design_patterns.Prelude.Decimal.{to_string}
use cpp_design_patterns.Logger.{Text, bytes}

abbrev pub Bytes : Type 0
Bytes = List ℕ

abbrev pub append_bytes : Bytes → Bytes → Bytes
append_bytes out begin = out ++ begin

-- The zero byte is the delimiter.
unfoldable pub append_string : Bytes → Text → Bytes
append_string out s = append_bytes out s ++ (0 ∷ [])

pub record UserKey : Type 0 where
  pub user_id : ℕ
  pub region : Text

-- A value with the tag that `KeyPartTag` gives its type: `BytesTag` with the size of the type,
-- `StringTag` or `UserKeyTag`.
pub data Part : Type 0 where
  bytes_part : (size value : ℕ) → Part
  string_part : (s : Text) → Part
  user_key_part : (key : UserKey) → Part

-- `native size value` is the object representation of a number.
unfoldable pub append_part : (native : ℕ → ℕ → Bytes) → Bytes → Part → Bytes
unfolding append_string
append_part native out (bytes_part size value) = append_bytes out (native size value)
append_part native out (string_part s) = append_string out s
append_part native out (user_key_part key) =
    append_string (append_bytes (out ++ (0xA5 ∷ [])) (native 8 key.user_id)) key.region

-- The calls of `main`, one for each part.
unfoldable pub append_parts : (native : ℕ → ℕ → Bytes) → Bytes → List Part → Bytes
unfolding append_part
append_parts native out [] = out
append_parts native out (part ∷ parts) = append_parts native (append_part native out part) parts

-- `kHex`
abbrev pub hex_digit : ℕ → ℕ
hex_digit n = if ltb n 10 then 48 + n else 87 + n

unfoldable pub to_hex : Bytes → Text
to_hex [] = []
to_hex (b ∷ rest) = hex_digit (b / 16 % 16) ∷ hex_digit (b % 16) ∷ to_hex rest

-- A value by the specialisation of `LogTraits` that its type selects.
pub data LogValue : Type 0 where
  uint32 : ℕ → LogValue
  uint64 : ℕ → LogValue
  string_view : Text → LogValue
  email : Text → LogValue
  user_key : UserKey → LogValue
  other : LogValue

unfoldable pub log_value : LogValue → Text
unfolding to_string
log_value (uint32 v) = bytes (to_string v)
log_value (uint64 v) = bytes (to_string v)
log_value (string_view v) = v
log_value (email value) = bytes "[redacted-email]"
log_value (user_key key) =
    bytes "UserKey{user_id="
    ++ (bytes (to_string key.user_id) ++ (bytes ", region=" ++ (key.region ++ bytes "}")))
log_value other = bytes "[redacted]"

-- The values of `main`, the parts of its key, and the lines that it prints.
abbrev pub main_user : UserKey
main_user = record { user_id = 9001; region = bytes "us-east-1" }

abbrev pub main_parts : List Part
main_parts = string_part (bytes "/users/get") ∷ bytes_part 4 42 ∷ user_key_part main_user ∷ []

abbrev pub safe_values : Text
safe_values =
    bytes "safe log values: route="
    ++ (log_value (string_view (bytes "/users/get"))
        ++ (bytes " request_id="
            ++ (log_value (uint32 42)
                ++ (bytes " user_key="
                    ++ (log_value (user_key main_user)
                        ++ (bytes " email=" ++ log_value (email (bytes "alice@example.com"))))))))

unfoldable pub main : (native : ℕ → ℕ → Bytes) → List Text → List Text
unfolding append_parts to_hex log_value
main native out =
    out
    ++ bytes "Traits/tag dispatch example: build a cache key efficiently."
      ∷ (bytes "cache key bytes (hex): " ++ to_hex (append_parts native [] main_parts))
      ∷ safe_values
      ∷ []
