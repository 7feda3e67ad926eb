-- ===== src/CacheKey/Tests.antt =====
-- The key and the log values of examples/traits_tag_dispatch/main.cpp's `main`, on a machine that
-- stores the low byte first.
use native.Mathlib.Nat.{pow-succ'}
use cpp_design_patterns.Prelude.{
  ℕ, zero, suc, ◌+◌, ◌*◌, ◌/◌, ◌%◌, ◌^◌, ◌<◌, ◌≡◌, refl, [], ◌∷◌, some, length, map, arith,
}
use cpp_design_patterns.Prelude.Decimal.{to_string}
use cpp_design_patterns.Logger.{bytes}
use cpp_design_patterns.CacheKey.{
  Bytes, append_parts, append_part, append_string, to_hex, log_value, main_parts, main,
}
use cpp_design_patterns.CacheKey.Keys.{Native, shape, read_parts, read_parts-append_parts}

abbrev little_endian : ℕ → ℕ → Bytes
little_endian zero value = []
little_endian (suc size) value = value % 256 ∷ little_endian size (value / 256)

abbrev sum_bytes : Bytes → ℕ
sum_bytes [] = 0
sum_bytes (b ∷ rest) = b + 256 * sum_bytes rest

length-little_endian : (size value : ℕ) → length (little_endian size value) ≡ size
length-little_endian zero value = refl
length-little_endian (suc size) value = omega (arith, length-little_endian size (value / 256))

sum_bytes-little_endian :
    (size value : ℕ) → value < 256 ^ size → sum_bytes (little_endian size value) ≡ value
sum_bytes-little_endian zero value h = omega arith
sum_bytes-little_endian (suc size) value h =
    omega (arith, sum_bytes-little_endian size (value / 256) (omega (arith, pow-succ' 256 size)))

abbrev memory : Native little_endian
memory = record {
  native_length = length-little_endian;
  value_of = sum_bytes;
  value_of-native = sum_bytes-little_endian;
}

main_run :
    main little_endian []
    ≡ bytes "Traits/tag dispatch example: build a cache key efficiently."
      ∷ bytes
          "cache key bytes (hex): 2f75736572732f676574002a000000a5292300000000000075732d656173742d3100"
      ∷ bytes
          "safe log values: route=/users/get request_id=42 user_key=UserKey{user_id=9001, region=us-east-1} email=[redacted-email]"
      ∷ []
unfolding main to_hex append_parts append_part append_string log_value to_string
main_run = refl

read_parts-append_parts_example :
    read_parts sum_bytes (map shape main_parts) (append_parts little_endian [] main_parts)
    ≡ some main_parts
read_parts-append_parts_example =
    read_parts-append_parts little_endian memory main_parts
      (refl, (omega arith, ((omega arith, refl), tt)))
