-- ===== src/Pipeline.antt =====
-- examples/type_erasure/main.cpp: middlewares of any type in one pipeline. A middleware acts on the
-- context of the request and on the log.
pub mod Order
mod Tests
use cpp_design_patterns.Prelude.{ℕ, ◌|>◌, String, ◌<>◌, List, [], ◌∷◌, ◌++◌, Bool, true, false}
use cpp_design_patterns.Prelude.Decimal.{show_int}
use cpp_design_patterns.Prelude.Int.{ℤ, pos}
use cpp_design_patterns.Log.{Log, log_line}

pub record RequestContext : Type 0 where
  pub route : String
  pub user : String
  pub authenticated : Bool
  pub trace_id : ℤ

abbrev pub Middleware : Type 0
Middleware = RequestContext × Log → RequestContext × Log

-- The lambda of `main`.
unfoldable pub trace : Middleware
trace (request, log) =
    (request, log_line ("trace middleware: trace_id=" ∷ show_int request.trace_id ∷ []) log)

unfoldable pub RequireAuthentication : Middleware
RequireAuthentication (ctx, log) = (
  record ctx { authenticated = true },
  log_line ("auth middleware: user=" ∷ ctx.user ∷ " authenticated" ∷ []) log,
)

unfoldable pub RouteMetricsTagger : Middleware
RouteMetricsTagger (ctx, log) =
    let route = ctx.route <> " [metrics-tagged]" in
    (record ctx { route = route }, log_line ("metrics middleware: route=" ∷ route ∷ []) log)

pub record MiddlewarePipeline : Type 0 where
  pub chain_ : List Middleware

abbrev pub new_pipeline : MiddlewarePipeline
new_pipeline = record { chain_ = [] }

unfoldable pub add : Middleware → MiddlewarePipeline → MiddlewarePipeline
add middleware p = record { chain_ = p.chain_ ++ (middleware ∷ []) }

abbrev pub run_chain : List Middleware → RequestContext × Log → RequestContext × Log
run_chain [] s = s
run_chain (middleware ∷ chain) s = run_chain chain (middleware s)

unfoldable pub run : MiddlewarePipeline → RequestContext × Log → RequestContext × Log
run p s = run_chain p.chain_ s

abbrev shown : Bool → String
shown true = "1"
shown false = "0"

unfoldable pub main : Log → RequestContext × Log
unfolding run add trace RequireAuthentication RouteMetricsTagger
main log =
    let pipeline =
      new_pipeline |> add trace |> add RequireAuthentication |> add RouteMetricsTagger in
    let ctx : RequestContext = record {
      route = "/users/42";
      user = "alice";
      authenticated = false;
      trace_id = pos 7;
    } in
    let banner : String = "Type erasure example: store heterogeneous middleware in one pipeline." in
    let (ctx', log') = run pipeline (ctx, log_line (banner ∷ []) log) in
    (
      ctx',
      log_line
          ("final context: route="
            ∷ ctx'.route
            ∷ " user="
            ∷ ctx'.user
            ∷ " authenticated="
            ∷ shown ctx'.authenticated
            ∷ [])
          log',
    )
