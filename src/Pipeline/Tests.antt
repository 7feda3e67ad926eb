-- ===== src/Pipeline/Tests.antt =====
-- The run of examples/type_erasure/main.cpp's `main`.
use cpp_design_patterns.Prelude.{◌≡◌, refl, [], ◌∷◌}
use cpp_design_patterns.Prelude.Decimal.{to_string}
use cpp_design_patterns.Pipeline.{trace, RequireAuthentication, RouteMetricsTagger, add, run, main}

main_run :
    (main []).1
    ≡ "Type erasure example: store heterogeneous middleware in one pipeline."
      ∷ "trace middleware: trace_id=7" ∷ "auth middleware: user=alice authenticated"
      ∷ "metrics middleware: route=/users/42 [metrics-tagged]"
      ∷ "final context: route=/users/42 [metrics-tagged] user=alice authenticated=1" ∷ []
unfolding main run add trace RequireAuthentication RouteMetricsTagger to_string
main_run = refl
