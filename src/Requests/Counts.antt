-- ===== src/Requests/Counts.antt =====
-- Serving requests leaves the numbers of owners as they were; a dead tracer is left alone.
use cpp_design_patterns.Prelude.{
  ℕ, zero, suc, ◌+◌, ◌-◌, ◌≡◌, refl, sym, ap, ◌∙◌, ◌⊎◌, inl, inr, String, ◌<>◌, List, [], ◌∷◌, ◌++◌,
  append_assoc, append-nil, false, Bool-cases, eqb, if◌then◌else◌, ◌==◌, string_eq, ==_iff, subst,
  arith,
}
use cpp_design_patterns.Prelude.Dict.{find}
use cpp_design_patterns.Prelude.Decimal.{to_string}
use cpp_design_patterns.Requests.{
  run_main, beginning, main_db_pool, DbPool, Request, Response, World, lock, handle_user, routes,
  dispatch, finish, serve_one, serve, expire,
}

-- What a request prints beside its answer.
abbrev pub trace_of : ℕ → Request → List String
trace_of owners req =
    if "/user/42" == req.path
    then (if eqb owners 0 then [] else "[trace] handle_user\n" ∷ [])
    else []

-- The answer to a request.
abbrev pub answer_of : Request → Response
answer_of req =
    if "/health" == req.path
    then record { status = 200; body = "ok" }
    else if "/user/42" == req.path
    then record { status = 200; body = "user=42 name=Ada" }
    else record { status = 404; body = "not found" }

unfoldable pub answer_line : Request → String
answer_line req =
    req.method
    <> (" "
        <> (req.path
            <> (" -> "
                <> (to_string (answer_of req).status <> (" " <> ((answer_of req).body <> "\n"))))))

-- The lines of all requests.
abbrev pub lines_of : ℕ → List Request → List String
lines_of owners [] = []
lines_of owners (req ∷ reqs) =
    (trace_of owners req ++ (answer_line req ∷ [])) ++ lines_of owners reqs

path_cases :
    (p : String)
    → (p ≡ "/health")
      ⊎ ((p ≡ "/user/42") ⊎ ((("/health" == p) ≡ false) × (("/user/42" == p) ≡ false)))
path_cases p = elim (Bool-cases ("/health" == p)) [
  | inl y ↦ inl (sym ((==_iff "/health" p).0 y))
  | inr n ↦ elim (Bool-cases ("/user/42" == p)) [
    | inl y ↦ inr (inl (sym ((==_iff "/user/42" p).0 y)))
    | inr m ↦ inr (inr (n, m))
  ]
]

-- What serving needs of `dispatch`.
abbrev Dispatched : DbPool → Request → World → Type 0
Dispatched db req w =
    dispatch (record { request_ = req; db_ = db }) w
    ≡ (record w { out = w.out ++ trace_of w.tracer_owners req }, answer_of req)

suc_ne_zero : (n : ℕ) → eqb (suc n) 0 ≡ false
suc_ne_zero n = ground arith

back : (n : ℕ) → suc (suc n) - 1 ≡ suc n
back n = omega arith

user-Dispatched :
    (db : DbPool) (method : String) (owners pool : ℕ) (out : List String)
    → Dispatched db
        (record { method = method; path = "/user/42" })
        (record { tracer_owners = owners; pool_owners = pool; out = out })
unfolding dispatch routes find handle_user lock
user-Dispatched db method zero pool out = rw (append-nil out) refl
user-Dispatched db method (suc n) pool out = rw (handle_user, suc_ne_zero n, back n) refl

dispatch-Dispatched : (db : DbPool) (req : Request) (w : World) → Dispatched db req w
unfolding dispatch routes find
dispatch-Dispatched db req w = elim (path_cases req.path) [
  | inl e ↦
      subst (λ p. Dispatched db (record req { path = p }) w) (sym e) (rw (append-nil w.out) refl)
  | inr (inl e) ↦
      subst (λ p. Dispatched db (record req { path = p }) w) (sym e)
        (user-Dispatched db req.method w.tracer_owners w.pool_owners w.out)
  | inr (inr (n, m)) ↦ rw (dispatch, routes, find, n, m, append-nil w.out) refl
]

forth : (n : ℕ) → n + 1 - 1 ≡ n
forth n = omega arith

-- A request served: its lines are printed, the numbers of owners are as before.
serve_one_lem :
    (db : DbPool) (req : Request) (w : World)
    → serve_one db req w
      ≡ record w { out = w.out ++ (trace_of w.tracer_owners req ++ (answer_line req ∷ [])) }
unfolding serve_one finish answer_line
serve_one_lem db req w =
    ap (finish req) (dispatch-Dispatched db req (record w { pool_owners = w.pool_owners + 1 }))
    ∙ rw
        (
          append_assoc w.out (trace_of w.tracer_owners req) (answer_line req ∷ []),
          forth w.pool_owners,
        )
        refl

-- After serving any requests, the tracer and the pool have as many owners as before, and what was
-- printed in between are the lines of the requests in order: for one that finds its user a trace,
-- if the tracer has an owner, and for each the answer of its path.
pub serve_lem :
    (db : DbPool) (reqs : List Request) (w : World)
    → serve db reqs w ≡ record w { out = w.out ++ lines_of w.tracer_owners reqs }
unfolding serve
serve_lem db [] w = rw (append-nil w.out) refl
serve_lem db (req ∷ reqs) w =
    ap (serve db reqs) (serve_one_lem db req w)
    ∙ serve_lem db reqs _
    ∙ ap (λ x. record w { out = x })
        (append_assoc w.out (trace_of w.tracer_owners req ++ (answer_line req ∷ []))
          (lines_of w.tracer_owners reqs))

-- When the tracer has one owner: after serving any requests and the owner's letting go, it has no
-- owner and looking for it finds nothing; the pool has as many owners as before; and what was
-- printed are the lines of the requests in order, a trace for each that finds its user and for each
-- the answer of its path, and then the line of the expired tracer.
pub expire-serve :
    (db : DbPool) (reqs : List Request) (w : World)
    → w.tracer_owners ≡ 1
    → expire (serve db reqs w) ≡ record w {
      tracer_owners = 0;
      out =
          (w.out ++ lines_of 1 reqs)
          ++ ("[trace] tracer expired (weak_ptr did not extend lifetime)\n" ∷ []);
    }
unfolding expire lock
expire-serve db reqs w h = ap expire (serve_lem db reqs w) ∙ rw (h) refl

-- Served or not, whatever the requests: at the end of `main` neither the tracer nor the pool has an
-- owner left, and the lines printed are those of the requests in order, a trace for each that finds
-- its user and for each the answer of its path, and then the line of the expired tracer.
pub run_main-Released :
    (reqs : List Request) (out : List String)
    → run_main reqs out ≡ record {
      tracer_owners = 0;
      pool_owners = 0;
      out =
          (out ++ lines_of 1 reqs)
          ++ ("[trace] tracer expired (weak_ptr did not extend lifetime)\n" ∷ []);
    }
unfolding run_main
run_main-Released reqs out = rw (expire-serve main_db_pool reqs (beginning out) refl) refl
