-- ===== src/Strategy/Main.antt =====
-- `run_demo` of examples/strategy/main.cpp for any requests, and `main`.
use cpp_design_patterns.Prelude.{◌|>◌, String, List, [], ◌∷◌}
use cpp_design_patterns.Log.{Log, log_line}
use cpp_design_patterns.Strategy.{
  RoutingStrategy, round_robin, least_loaded, Request, handle_requests, make_backends,
}
use cpp_design_patterns.Strategy.Load.{RoundRobinStrategy, LeastLoadedStrategy}

abbrev pub demo_requests : List Request
demo_requests =
    record { request_id = 101; simulated_work = 2 }
    ∷ record { request_id = 102; simulated_work = 2 }
    ∷ record { request_id = 103; simulated_work = 2 }
    ∷ []

unfoldable pub run_demo : String → (strategy : RoutingStrategy) → strategy.State → Log → Log
unfolding handle_requests
run_demo label strategy s log =
    (handle_requests strategy demo_requests (s, make_backends, log_line (label ∷ []) log)).2

unfoldable pub main : Log → Log
unfolding run_demo round_robin least_loaded
main log =
    log
    |> log_line ("Strategy example: swap routing policy without changing caller." ∷ [])
    |> run_demo "round robin:" RoundRobinStrategy 0
    |> run_demo "least loaded:" LeastLoadedStrategy tt
