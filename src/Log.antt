-- ===== src/Log.antt =====
-- examples/common/log.h: `log_line` prints its parts and ends the line. A log is the list of the
-- lines printed so far; the mutex makes each call one step.
use cpp_design_patterns.Prelude.{String, ◌<>◌, List, [], ◌∷◌, ◌++◌}

abbrev pub Log : Type 0
Log = List String

-- The parts, one behind the other.
abbrev pub line : List String → String
line [] = ""
line (part ∷ []) = part
line (part ∷ parts) = part <> line parts

abbrev pub log_line : List String → Log → Log
log_line parts log = log ++ (line parts ∷ [])
