-- ===== src/Prelude/Texts.antt =====
-- `std::string` as text: `size` and `substr(0, n)`. For ASCII text the characters are the bytes.
use Prim.Native.Nat.{ℕ, zero, suc}
use Prim.Native.String.{String}

unfoldable pub size : String → ℕ
size String.[] = 0
size (String.◌∷◌ c s) = suc (size s)

unfoldable pub substr : String → ℕ → String
substr String.[] n = String.[]
substr (String.◌∷◌ c s) zero = String.[]
substr (String.◌∷◌ c s) (suc n) = String.◌∷◌ c (substr s n)
