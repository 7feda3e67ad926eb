-- ===== src/Decorator/Stack.antt =====
-- Any stack of decorators: the answer is the handler's own, and the lines nest.
use native.Mathlib.Nat.{add-zero, suc-add, add-suc}
use cpp_design_patterns.Prelude.{
  ℕ, suc, ◌+◌, ◌-◌, ◌/◌, ◌≡◌, String, List, [], ◌∷◌, ◌++◌, append_assoc, append-nil,
}
use cpp_design_patterns.Prelude.Decimal.{to_string}
use cpp_design_patterns.Log.{Log, line}
use cpp_design_patterns.Decorator.{RequestHandler, Layer, logging, timing, decorate}

-- How many timing layers there are.
abbrev pub timers : List Layer → ℕ
timers [] = 0
timers (logging ∷ layers) = timers layers
timers (timing ∷ layers) = suc (timers layers)

-- The lines before the handler's own: one for each logging layer.
abbrev pub opening : List Layer → String → Log
opening [] request = []
opening (logging ∷ layers) request =
    line ("logging: request=" ∷ request ∷ []) ∷ opening layers request
opening (timing ∷ layers) request = opening layers request

-- The lines after them, the innermost layer's first. The timing layers take the readings from
-- `start` on before the handler, the outermost first, and from `end` on after it, the innermost
-- first.
abbrev pub closing : (ℕ → ℕ) → List Layer → ℕ → ℕ → String → Log
closing clock [] start end response = []
closing clock (logging ∷ layers) start end response =
    closing clock layers start end response ++ (line ("logging: response=" ∷ response ∷ []) ∷ [])
closing clock (timing ∷ layers) start end response =
    closing clock layers (suc start) end response
    ++ (line (
          "timing: took "
          ∷ to_string ((clock (end + timers layers) - clock start) / 1000)
          ∷ "us"
          ∷ [])
        ∷ [])

-- A handler that answers a request alike whenever it is called, adds its own lines and does not
-- read the clock.
abbrev pub Answers : RequestHandler → String → String → Log → Type 0
Answers handler request response own =
    (k : ℕ) (log : Log) → handler.handle request (k, log) ≡ ((k, log ++ own), response)

-- Around a handler that answers a request alike whenever it is called and does not read the clock,
-- and for any readings of the clock: however logging and timing are stacked, the answer is the
-- handler's, two readings are made for each timing layer, and the lines added are the logging
-- layers' requests, the handler's own lines, then the closing lines of the layers from the inside
-- out, each duration between the two readings of its own layer.
pub decorate_lem :
    (clock : ℕ → ℕ) (layers : List Layer) (inner : RequestHandler) (request response : String)
    (own : Log)
    → Answers inner request response own
    → (start : ℕ) (log : Log)
    → (decorate clock layers inner).handle request (start, log) ≡ (
      (
        start + timers layers + timers layers,
        log
            ++ (opening layers request
                ++ (own ++ closing clock layers start (start + timers layers) response)),
      ),
      response,
    )
unfolding decorate
decorate_lem clock [] inner request response own h start log =
    rw (h start log) (simp (append-nil, add-zero))
decorate_lem clock (logging ∷ layers) inner request response own h start log =
    let said = line ("logging: request=" ∷ request ∷ []) in
    let e = decorate_lem clock layers inner request response own h start (log ++ (said ∷ [])) in
    rw (e) (simp (append_assoc))
decorate_lem clock (timing ∷ layers) inner request response own h start log =
    let e = decorate_lem clock layers inner request response own h (suc start) log in
    rw (e) (simp (append_assoc, suc-add, add-suc))
