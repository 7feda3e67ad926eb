-- ===== src/Logger.antt =====
-- examples/bridge/main.cpp: the loggers over any sink, `escape_json` and the two formats. A text is
-- the list of its bytes. The clock is a parameter of `handle_request`: the milliseconds elapsed.
pub mod Json
pub mod RoundTrip
mod Tests
use Prim.Native.Char.{code}
use cpp_design_patterns.Prelude.{ℕ, String, List, [], ◌∷◌, ◌++◌, eqb, if◌then◌else◌}
use cpp_design_patterns.Prelude.Decimal.{to_string}

abbrev pub Text : Type 0
Text = List ℕ

abbrev pub bytes : String → Text
bytes String.[] = []
bytes (String.◌∷◌ c s) = code c ∷ bytes s

pub record LogField : Type 0 where
  pub key : Text
  pub value : Text

pub record LogEvent : Type 0 where
  pub level : Text
  pub message : Text
  pub fields : List LogField

-- A sink is its state and `write_line`.
pub record LogSink : Type 1 where
  pub State : Type 0
  pub write_line : Text → State → State

abbrev pub InMemorySink : LogSink
InMemorySink = record { State = List Text; write_line = λ line lines. lines ++ (line ∷ []) }

-- The lines printed so far are the state.
abbrev pub StdoutSink : LogSink
StdoutSink = record { State = List Text; write_line = λ line lines. lines ++ (line ∷ []) }

unfoldable pub escape_json : Text → Text
escape_json [] = []
escape_json (ch ∷ s) =
    let rest = escape_json s in
    if eqb ch b'\\'
    then b'\\' ∷ b'\\' ∷ rest
    else if eqb ch b'"'
    then b'\\' ∷ b'"' ∷ rest
    else if eqb ch b'\n'
    then b'\\' ∷ b'n' ∷ rest
    else ch ∷ rest

abbrev pub text_fields : List LogField → Text
text_fields [] = []
text_fields (field ∷ fields) =
    bytes " " ++ (field.key ++ (bytes "=" ++ (field.value ++ text_fields fields)))

-- `TextLogger::format`
unfoldable pub text_format : LogEvent → Text
text_format event = event.level ++ (bytes " " ++ (event.message ++ text_fields event.fields))

abbrev pub quoted : Text → Text
quoted s = b'"' ∷ escape_json s ++ (b'"' ∷ [])

abbrev pub json_fields : List LogField → Text
json_fields [] = []
json_fields (field ∷ fields) =
    bytes "," ++ (quoted field.key ++ (bytes ":" ++ (quoted field.value ++ json_fields fields)))

-- `JsonLogger::format`
unfoldable pub json_format : LogEvent → Text
unfolding escape_json
json_format event =
    bytes "{\"level\":"
    ++ (quoted event.level
        ++ (bytes ",\"msg\":" ++ (quoted event.message ++ (json_fields event.fields ++ bytes "}"))))

module _ (format : LogEvent → Text) (sink : LogSink) where
  unfoldable pub emit : LogEvent → sink.State → sink.State
  emit event = sink.write_line (format event)

  unfoldable pub info : Text → List LogField → sink.State → sink.State
  unfolding emit
  info message fields = emit (record { level = bytes "INFO"; message = message; fields = fields })

  unfoldable pub warn : Text → List LogField → sink.State → sink.State
  unfolding emit
  warn message fields = emit (record { level = bytes "WARN"; message = message; fields = fields })

  unfoldable pub handle_request : ℕ → Text → Text → sink.State → sink.State
  unfolding info to_string
  handle_request elapsed_ms route user_id s =
      let started =
        info (bytes "request.start")
          (record { key = bytes "route"; value = route }
            ∷ record { key = bytes "user_id"; value = user_id }
            ∷ [])
          s in
      info (bytes "request.done")
        (record { key = bytes "route"; value = route }
          ∷ record { key = bytes "status"; value = bytes "200" }
          ∷ record { key = bytes "latency_ms"; value = bytes (to_string elapsed_ms) }
          ∷ [])
        started

-- `main`, with the milliseconds that the two requests take.
unfoldable pub main : (json_ms text_ms : ℕ) → List Text → List Text
unfolding handle_request json_format text_format
main json_ms text_ms out =
    let banner = bytes "Bridge example: vary logger format independently from sink destination." in
    let out' =
      handle_request json_format StdoutSink json_ms (bytes "/users/42") (bytes "alice")
        (out ++ (banner ∷ [])) in
    let captured =
      handle_request text_format InMemorySink text_ms (bytes "/health") (bytes "anonymous") [] in
    out' ++ (bytes "---- InMemorySink captured lines ----" ∷ captured)
