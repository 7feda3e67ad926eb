-- ===== src/Requests.antt =====
-- examples/smart_pointers/main.cpp: requests that share a database pool and observe a tracer. The
-- counts of owners stand for the `shared_ptr`s; a `weak_ptr` has no count.
pub mod Counts
mod Tests
use cpp_design_patterns.Prelude.{
  ℕ, zero, suc, ◌+◌, ◌-◌, String, ◌<>◌, List, [], ◌∷◌, ◌++◌, Option, none, some, eqb, if◌then◌else◌,
  ◌==◌, string_eq,
}
use cpp_design_patterns.Prelude.Dict.{Dict, find}
use cpp_design_patterns.Prelude.Decimal.{to_string}
use cpp_design_patterns.Prelude.Int.{ℤ, pos, int_eq}

pub record Request : Type 0 where
  pub method : String
  pub path : String

pub record Response : Type 0 where
  pub status : ℕ
  pub body : String

pub record DbPool : Type 0 where
  pub dsn_ : String

abbrev pub dsn : DbPool → String
dsn db = db.dsn_

-- `DbPool::query_user_name`
abbrev pub query_user_name : DbPool → ℤ → String
query_user_name db user_id = if user_id == pos 42 then "Ada" else "unknown"

-- The context holds the pool; that it observes the tracer takes no field.
pub record RequestContext : Type 0 where
  pub request_ : Request
  pub db_ : DbPool

-- The owners of the tracer and of the pool, and the lines printed.
pub record World : Type 0 where
  pub tracer_owners : ℕ
  pub pool_owners : ℕ
  pub out : List String

abbrev pub print : String → World → World
print s w = record w { out = w.out ++ (s ∷ []) }

-- `Tracer::record`
abbrev pub record_event : String → World → World
record_event event w = print ("[trace] " <> (event <> "\n")) w

-- `RequestContext::RequestContext`: the context owns the pool too.
abbrev pub new_context : Request → DbPool → World → World × RequestContext
new_context request db w =
    (record w { pool_owners = w.pool_owners + 1 }, record { request_ = request; db_ = db })

-- A new owner of the tracer, if it is alive.
unfoldable pub lock : World → Option World
lock w = elim w.tracer_owners [
  | zero ↦ none
  | suc n ↦ some (record w { tracer_owners = suc (suc n) })
]

-- An owner goes.
abbrev pub release : World → World
release w = record w { tracer_owners = w.tracer_owners - 1 }

abbrev pub Handler : Type 0
Handler = RequestContext → World → World × Response

abbrev pub handle_health : Handler
handle_health ctx w = (w, record { status = 200; body = "ok" })

-- The tracer's new owner lives to the end of the `if`.
unfoldable pub handle_user : Handler
unfolding lock
handle_user ctx w = (
  elim (lock w) [ none ↦ w | some w' ↦ release (record_event "handle_user" w') ],
  record { status = 200; body = "user=42 name=" <> query_user_name ctx.db_ (pos 42) },
)

abbrev pub handle_not_found : Handler
handle_not_found ctx w = (w, record { status = 404; body = "not found" })

unfoldable pub routes : Dict String Handler
unfolding handle_user
routes = ("/health", handle_health) ∷ ("/user/42", handle_user) ∷ []

unfoldable pub dispatch : Handler
unfolding routes find
dispatch ctx w = elim (find ctx.request_.path routes) [
  | none ↦ handle_not_found ctx w
  | some handler ↦ handler ctx w
]

-- The end of a turn: the answer is printed and the context with its owner of the pool goes.
unfoldable pub finish : Request → World × Response → World
unfolding to_string
finish req (w, res) =
    let w' =
      print
        (req.method
          <> (" "
              <> (req.path <> (" -> " <> (to_string res.status <> (" " <> (res.body <> "\n")))))))
        w in
    record w' { pool_owners = w'.pool_owners - 1 }

-- One turn of the loop in `main`: the context owns the pool while the request is handled.
unfoldable pub serve_one : DbPool → Request → World → World
unfolding dispatch finish
serve_one db req w = let (w', ctx) = new_context req db w in finish req (dispatch ctx w')

unfoldable pub serve : DbPool → List Request → World → World
unfolding serve_one
serve db [] w = w
serve db (req ∷ reqs) w = serve db reqs (serve_one db req w)

-- The end of `main`: the owner lets go of the tracer, and it is looked for once more.
unfoldable pub expire : World → World
unfolding lock
expire w =
    let w' = release w in
    elim (lock w') [
      | none ↦ print "[trace] tracer expired (weak_ptr did not extend lifetime)\n" w'
      | some _ ↦ w'
    ]

-- The shared objects that `main` makes, its two requests, and the end of its scope, where the
-- pool's last owner goes.
abbrev pub main_requests : List Request
main_requests =
    record { method = "GET"; path = "/health" } ∷ record { method = "GET"; path = "/user/42" } ∷ []

abbrev pub main_db_pool : DbPool
main_db_pool = record { dsn_ = "postgres://example" }

abbrev pub beginning : List String → World
beginning out = record { tracer_owners = 1; pool_owners = 1; out = out }

unfoldable pub run_main : List Request → List String → World
unfolding serve expire
run_main reqs out =
    let w = expire (serve main_db_pool reqs (beginning out)) in
    record w { pool_owners = w.pool_owners - 1 }
