-- ===== src/Requests/Tests.antt =====
-- The run of examples/smart_pointers/main.cpp.
use cpp_design_patterns.Prelude.{◌≡◌, refl, [], ◌∷◌}
use cpp_design_patterns.Prelude.Dict.{find}
use cpp_design_patterns.Prelude.Decimal.{to_string}
use cpp_design_patterns.Requests.Counts.{answer_line, run_main-Released}
use cpp_design_patterns.Requests.{
  lock, handle_user, routes, dispatch, finish, serve_one, serve, expire, main_requests, run_main,
}

main_run : run_main main_requests [] ≡ record {
  tracer_owners = 0;
  pool_owners = 0;
  out =
      "GET /health -> 200 ok\n" ∷ "[trace] handle_user\n" ∷ "GET /user/42 -> 200 user=42 name=Ada\n"
      ∷ "[trace] tracer expired (weak_ptr did not extend lifetime)\n" ∷ [];
}
unfolding run_main expire serve serve_one finish dispatch routes handle_user lock find to_string
main_run = refl

run_main-Released_example : run_main main_requests [] ≡ record {
  tracer_owners = 0;
  pool_owners = 0;
  out =
      "GET /health -> 200 ok\n" ∷ "[trace] handle_user\n" ∷ "GET /user/42 -> 200 user=42 name=Ada\n"
      ∷ "[trace] tracer expired (weak_ptr did not extend lifetime)\n" ∷ [];
}
unfolding to_string find answer_line
run_main-Released_example = run_main-Released main_requests []
