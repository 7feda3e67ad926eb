-- ===== src/Composite/Tests.antt =====
-- examples/composite/main.cpp: the run of `main`.
use cpp_design_patterns.Prelude.{◌≡◌, refl, [], ◌∷◌, none, some}
use cpp_design_patterns.Prelude.Decimal.{to_string}
use cpp_design_patterns.Composite.{push_back, dispatch, root, respond_all, main}
use cpp_design_patterns.Composite.Routes.{routes, first_match, dispatch-first_match}

main_run :
    main []
    ≡ "Composite example: routing tree composed of groups and endpoints." ∷ "GET /health -> 200 ok"
      ∷ "GET /v1/users -> 200 list users" ∷ "GET /v1/users/42 -> 200 user 42"
      ∷ "POST /v1/users -> 404 not found" ∷ "GET /v2/users -> 404 not found" ∷ []
unfolding main respond_all dispatch push_back to_string
main_run = refl

dispatch-first_match_example :
    dispatch root (record { method = "GET"; path = "/v1/users" })
    ≡ (elim (first_match (record { method = "GET"; path = "/v1/users" }) (routes root)) [
      | none ↦ record { status = 404; body = "not found" }
      | some body ↦ record { status = 200; body = body }
    ])
dispatch-first_match_example =
    dispatch-first_match root (record { method = "GET"; path = "/v1/users" })
