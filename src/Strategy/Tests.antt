-- ===== src/Strategy/Tests.antt =====
-- examples/strategy/main.cpp: the run of `main`.
use cpp_design_patterns.Prelude.{◌≡◌, refl, [], ◌∷◌}
use cpp_design_patterns.Strategy.{
  round_robin, min_element, least_loaded, add_work, handle_request, handle_requests,
}
use cpp_design_patterns.Prelude.Decimal.{to_string}
use cpp_design_patterns.Strategy.Main.{run_demo, main}

main_run :
    main []
    ≡ "Strategy example: swap routing policy without changing caller." ∷ "round robin:"
      ∷ "request=101 -> api-a new_in_flight=4" ∷ "request=102 -> api-b new_in_flight=7"
      ∷ "request=103 -> api-c new_in_flight=3" ∷ "least loaded:"
      ∷ "request=101 -> api-c new_in_flight=3" ∷ "request=102 -> api-a new_in_flight=4"
      ∷ "request=103 -> api-c new_in_flight=5" ∷ []
unfolding main run_demo handle_requests handle_request add_work round_robin least_loaded min_element
    to_string
main_run = refl
