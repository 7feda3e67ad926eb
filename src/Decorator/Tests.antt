-- ===== src/Decorator/Tests.antt =====
-- The stack of examples/decorator/main.cpp's `main` on a clock that moves on by 2000 nanoseconds.
use cpp_design_patterns.Prelude.{ℕ, ◌*◌, ◌≡◌, refl, String, List, [], ◌∷◌, append-nil}
use cpp_design_patterns.Prelude.Decimal.{to_string}
use cpp_design_patterns.Decorator.{EchoHandler, Layer, logging, timing, decorate, main}
use cpp_design_patterns.Decorator.Stack.{Answers, decorate_lem}

abbrev clock : ℕ → ℕ
clock k = 2000 * k

abbrev layers : List Layer
layers = timing ∷ logging ∷ []

abbrev request : String
request = "GET /users/42"

main_run : main clock [] ≡ (
  2,
  "Decorator example: stack logging and timing around a handler." ∷ "logging: request=GET /users/42"
      ∷ "logging: response=200 OK: GET /users/42" ∷ "timing: took 2us"
      ∷ "final response=200 OK: GET /users/42" ∷ [],
)
unfolding main decorate EchoHandler to_string
main_run = refl

EchoHandler-Answers : Answers EchoHandler request "200 OK: GET /users/42" []
unfolding EchoHandler
EchoHandler-Answers k log = rw (append-nil log) refl

decorate_lem_example : (decorate clock layers EchoHandler).handle request (0, []) ≡ (
  (
    2,
    "logging: request=GET /users/42" ∷ "logging: response=200 OK: GET /users/42"
        ∷ "timing: took 2us" ∷ [],
  ),
  "200 OK: GET /users/42",
)
unfolding to_string
decorate_lem_example =
    decorate_lem clock layers EchoHandler request "200 OK: GET /users/42" [] EchoHandler-Answers 0
      []
