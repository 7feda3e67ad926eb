-- ===== src/Composite.antt =====
-- examples/composite/main.cpp: a routing tree of endpoints and groups. A handler tells whether it
-- handled the request and gives the response as it leaves it, which the source passes by reference.
pub mod Routes
mod Tests
use cpp_design_patterns.Prelude.{
  ℕ, zero, suc, ◌+◌, ◌|>◌, String, List, [], ◌∷◌, ◌++◌, Bool, true, false, not, ◌&&◌, ◌||◌, leb,
  ◌==◌, string_eq, if◌then◌else◌,
}
use cpp_design_patterns.Prelude.Texts.{size, substr}
use cpp_design_patterns.Prelude.Decimal.{to_string}
use cpp_design_patterns.Log.{Log, log_line}

pub record Request : Type 0 where
  pub method : String
  pub path : String

pub record Response : Type 0 where
  pub status : ℕ
  pub body : String

pub record Endpoint : Type 0 where
  pub method_ : String
  pub path_ : String
  pub body_ : String

mutual
  pub data Handler : Type 0 where
    endpoint : Endpoint → Handler
    group : String → Handlers → Handler

  pub data Handlers : Type 0 where
    nil : Handlers
    cons : Handler → Handlers → Handlers

unfoldable pub endpoint_try_handle : Endpoint → Request → Response → Bool × Response
endpoint_try_handle e request response =
    if not (request.method == e.method_) || not (request.path == e.path_)
    then (false, response)
    else (true, record { status = 200; body = e.body_ })

unfoldable pub starts_with : String → String → Bool
unfolding size substr
starts_with s prefix = leb (size prefix) (size s) && (substr s (size prefix) == prefix)

unfoldable mutual
  unfolding endpoint_try_handle starts_with

  pub try_handle : Handler → Request → Response → Bool × Response
  try_handle (endpoint e) request response = endpoint_try_handle e request response
  try_handle (group prefix children) request response =
      let tried = try_children children request response in
      if not (starts_with request.path prefix) then (false, response) else tried

  -- The loop over `children_`.
  pub try_children : Handlers → Request → Response → Bool × Response
  try_children nil request response = (false, response)
  try_children (cons child children) request response =
      let (handled, response') = try_handle child request response in
      let rest = try_children children request response' in
      if handled then (true, response') else rest

-- `children_.push_back` in `add`; an endpoint has no `add`.
unfoldable pub push_back : Handler → Handlers → Handlers
push_back child nil = cons child nil
push_back child (cons first rest) = cons first (push_back child rest)

unfoldable pub dispatch : Handler → Request → Response
unfolding try_handle
dispatch root request =
    let (handled, response) = try_handle root request (record { status = 200; body = "" }) in
    if handled then response else record { status = 404; body = "not found" }

abbrev get : String → String → Handler
get path body = endpoint (record { method_ = "GET"; path_ = path; body_ = body })

abbrev request_for : String → String → Request
request_for method path = record { method = method; path = path }

-- The routing tree and the requests of `main`.
abbrev pub v1 : Handler
unfolding push_back
v1 =
    group "/v1"
      (nil |> push_back (get "/v1/users" "list users") |> push_back (get "/v1/users/42" "user 42"))

abbrev pub root : Handler
unfolding push_back
root = group "/" (nil |> push_back (get "/health" "ok") |> push_back v1)

abbrev pub requests : List Request
requests =
    request_for "GET" "/health"
    ∷ request_for "GET" "/v1/users"
    ∷ request_for "GET" "/v1/users/42"
    ∷ request_for "POST" "/v1/users"
    ∷ request_for "GET" "/v2/users"
    ∷ []

unfoldable pub respond_all : List Request → Log → Log
unfolding dispatch to_string
respond_all [] log = log
respond_all (req ∷ reqs) log =
    let res = dispatch root req in
    respond_all reqs (
      log_line (req.method ∷ " " ∷ req.path ∷ " -> " ∷ to_string res.status ∷ " " ∷ res.body ∷ [])
        log)

unfoldable pub main : Log → Log
unfolding respond_all
main log =
    log
    |> log_line ("Composite example: routing tree composed of groups and endpoints." ∷ [])
    |> respond_all requests
