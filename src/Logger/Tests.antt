-- ===== src/Logger/Tests.antt =====
-- examples/bridge/main.cpp: the run of `main` and a line with every escape.
use cpp_design_patterns.Prelude.{◌≡◌, refl, [], ◌∷◌, some, arith}
use cpp_design_patterns.Prelude.Decimal.{to_string}
use cpp_design_patterns.Logger.{
  bytes, LogEvent, escape_json, text_format, json_format, emit, info, handle_request, main,
}
use cpp_design_patterns.Logger.RoundTrip.{read_event, read_event-json_format}

main_lines :
    main 3 0 []
    ≡ bytes "Bridge example: vary logger format independently from sink destination."
      ∷ bytes
          "{\"level\":\"INFO\",\"msg\":\"request.start\",\"route\":\"/users/42\",\"user_id\":\"alice\"}"
      ∷ bytes
          "{\"level\":\"INFO\",\"msg\":\"request.done\",\"route\":\"/users/42\",\"status\":\"200\",\"latency_ms\":\"3\"}"
      ∷ bytes "---- InMemorySink captured lines ----"
      ∷ bytes "INFO request.start route=/health user_id=anonymous"
      ∷ bytes "INFO request.done route=/health status=200 latency_ms=0"
      ∷ []
unfolding main handle_request info emit text_format json_format escape_json to_string
main_lines = refl

abbrev event : LogEvent
event = record {
  level = bytes "WARN";
  message = bytes "a \"quoted\"\nline";
  fields = record { key = bytes "path"; value = bytes "C:\\tmp" } ∷ [];
}

json_line :
    json_format event
    ≡ bytes "{\"level\":\"WARN\",\"msg\":\"a \\\"quoted\\\"\\nline\",\"path\":\"C:\\\\tmp\"}"
unfolding json_format escape_json
json_line = refl

read_event-json_format_example : read_event 2 (json_format event) ≡ some event
read_event-json_format_example = read_event-json_format 2 event (omega arith)
