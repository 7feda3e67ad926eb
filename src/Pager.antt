-- ===== src/Pager.antt =====
-- examples/adapter/main.cpp: the adapter from the alert interface to the legacy pager.
mod Tests
use cpp_design_patterns.Prelude.{
  ℕ, ◌|>◌, String, ◌<>◌, List, [], ◌∷◌, ltb, if◌then◌else◌, Bool, true,
}
use cpp_design_patterns.Prelude.Decimal.{to_string, show_int}
use cpp_design_patterns.Prelude.Int.{ℤ, pos, negsuc}
use cpp_design_patterns.Log.{Log, log_line}

pub data Severity : Type 0 where
  info : Severity
  warning : Severity
  critical : Severity

pub record AlertSink : Type 1 where
  pub State : Type 0
  pub send_alert : String → Severity → String → State → State

unfoldable pub dispatch_page : String → ℕ → String → Log → Log
unfolding to_string
dispatch_page destination priority body = log_line (
    "legacy pager => dest="
    ∷ destination
    ∷ " priority="
    ∷ to_string priority
    ∷ " body="
    ∷ body
    ∷ [])

abbrev pub route_for : String → String
route_for service = "oncall/" <> service

abbrev pub priority_for : Severity → ℕ
priority_for info = 1
priority_for warning = 3
priority_for critical = 5

-- The adapter refers to a pager, whose only effect is the log.
abbrev pub PagerAdapter : AlertSink
PagerAdapter = record {
  State = Log;
  send_alert =
      λ service severity message. dispatch_page (route_for service) (priority_for severity) message;
}

-- `free_gb < 5`
abbrev pub is_low : ℤ → Bool
is_low (pos n) = ltb n 5
is_low (negsuc n) = true

unfoldable pub emit_disk_alert : (sink : AlertSink) → ℤ → sink.State → sink.State
emit_disk_alert sink free_gb =
    sink.send_alert "storage" (if is_low free_gb then critical else warning)
      ("disk space low: " <> (show_int free_gb <> "GB"))

unfoldable pub main : Log → Log
unfolding emit_disk_alert
main log =
    log
    |> log_line ("Adapter example: normalize a legacy client." ∷ [])
    |> emit_disk_alert PagerAdapter (pos 12)
    |> emit_disk_alert PagerAdapter (pos 3)
