-- ===== src/Prelude/Result.antt =====
-- C++ exceptions as values: the standard exception types that the source throws, and the outcome
-- of a call that may throw.
use Prim.Native.String.{String}

pub data Exception : Type 0 where
  runtime_error : String → Exception
  invalid_argument : String → Exception
  out_of_range : String → Exception
  bad_alloc : Exception

-- `e.what()`
abbrev pub what : Exception → String
what (runtime_error message) = message
what (invalid_argument message) = message
what (out_of_range message) = message
what bad_alloc = "std::bad_alloc"

pub data Result {ℓ} (A : Type ℓ) : Type ℓ where
  ok : A → Result A
  throws : Exception → Result A

infixl 5 ◌>>=◌ ◌>>◌
abbrev pub ◌>>=◌ {ℓ κ} : {A : Type ℓ} {B : Type κ} → Result A → (A → Result B) → Result B
ok a >>= f = f a
throws e >>= f = throws e

abbrev pub ◌>>◌ {ℓ} : {B : Type ℓ} → Result (Unit {0}) → Result B → Result B
m >> k = m >>= λ _. k
