-- ===== src/Decorator.antt =====
-- examples/decorator/main.cpp: a handler, and the two decorators around any handler. The steady
-- clock is a parameter: its readings in nanoseconds, one after the other, which never decrease. A
-- call has the number of readings made so far and the log for its state.
pub mod Stack
mod Tests
use cpp_design_patterns.Prelude.{ℕ, suc, ◌-◌, ◌/◌, String, ◌<>◌, List, [], ◌∷◌}
use cpp_design_patterns.Prelude.Decimal.{to_string}
use cpp_design_patterns.Log.{Log, log_line}

pub record RequestHandler : Type 0 where
  pub handle : String → ℕ × Log → (ℕ × Log) × String

unfoldable pub EchoHandler : RequestHandler
EchoHandler = record { handle = λ request s. (s, "200 OK: " <> request) }

unfoldable pub LoggingDecorator : RequestHandler → RequestHandler
LoggingDecorator inner = record {
  handle = λ request (k, log).
      let ((k', log'), response) =
        inner.handle request (k, log_line ("logging: request=" ∷ request ∷ []) log) in
      ((k', log_line ("logging: response=" ∷ response ∷ []) log'), response);
}

-- A duration in microseconds is cut off to a whole number.
unfoldable pub TimingDecorator : (ℕ → ℕ) → RequestHandler → RequestHandler
unfolding to_string
TimingDecorator clock inner = record {
  handle = λ request (start, log).
      let ((end, log'), response) = inner.handle request (suc start, log) in
      (
        (
          suc end,
          log_line ("timing: took " ∷ to_string ((clock end - clock start) / 1000) ∷ "us" ∷ [])
              log',
        ),
        response,
      );
}

pub data Layer : Type 0 where
  logging : Layer
  timing : Layer

-- Decorators around a handler, the outermost first.
unfoldable pub decorate : (ℕ → ℕ) → List Layer → RequestHandler → RequestHandler
unfolding LoggingDecorator TimingDecorator
decorate clock [] inner = inner
decorate clock (logging ∷ layers) inner = LoggingDecorator (decorate clock layers inner)
decorate clock (timing ∷ layers) inner = TimingDecorator clock (decorate clock layers inner)

unfoldable pub main : (ℕ → ℕ) → Log → ℕ × Log
unfolding decorate EchoHandler
main clock log =
    let handler = decorate clock (timing ∷ logging ∷ []) EchoHandler in
    let (state, response) =
      handler.handle "GET /users/42"
        (0, log_line ("Decorator example: stack logging and timing around a handler." ∷ []) log) in
    (state.0, log_line ("final response=" ∷ response ∷ []) state.1)
