-- ===== src/Prelude/Decimal.antt =====
-- `std::to_string` of a number: its decimal digits as text.
use Prim.Native.Nat.{ℕ, zero, suc, ◌/◌, ◌%◌}
use Prim.Native.String.{String, ◌++◌}
use mathlib.Core.Path.{◌≡◌, refl}
use package.cpp_design_patterns.Prelude.Tests.{ltb, if◌then◌else◌}
use package.cpp_design_patterns.Prelude.Int.{ℤ, pos, negsuc}

digit : ℕ → String
digit zero = "0"
digit (suc zero) = "1"
digit (suc (suc zero)) = "2"
digit (suc (suc (suc zero))) = "3"
digit (suc (suc (suc (suc zero)))) = "4"
digit (suc (suc (suc (suc (suc zero))))) = "5"
digit (suc (suc (suc (suc (suc (suc zero)))))) = "6"
digit (suc (suc (suc (suc (suc (suc (suc zero))))))) = "7"
digit (suc (suc (suc (suc (suc (suc (suc (suc zero)))))))) = "8"
digit _ = "9"

-- `f + 1` rounds print every number below `10 ^ (f + 1)`; the number itself is fuel enough.
print : ℕ → ℕ → String
unfolding digit
print zero n = digit (n % 10)
print (suc f) n =
    let more = print f (n / 10) ++ digit (n % 10) in if ltb n 10 then digit n else more

unfoldable pub to_string : ℕ → String
unfolding print
to_string n = print n n

-- `std::to_string` of an `int`.
abbrev pub show_int : ℤ → String
unfolding to_string
show_int (pos n) = to_string n
show_int (negsuc n) = "-" ++ to_string (suc n)

to_string_tests :
    (to_string 0 ≡ "0") × (to_string 9001 ≡ "9001") × (to_string 1_000_003 ≡ "1000003")
unfolding to_string
to_string_tests = (refl, refl, refl)
