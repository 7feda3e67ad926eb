-- ===== src/Composite/Routes.antt =====
-- A routing tree against the list of its endpoints, each with the prefixes of the groups above it.
use cpp_design_patterns.Prelude.{
  ℕ, zero, suc, ◌≤◌, ◌≡◌, ◌↔◌, refl, sym, ap, ◌∙◌, String, ◌<>◌, List, [], ◌∷◌, ◌++◌, Bool, true,
  false, ◌&&◌, Option, none, some, ◌==◌, string_eq, ==_iff, if◌then◌else◌, arith,
}
use text.Mathlib.TextLemmas.{nil-append, cons-append}
use cpp_design_patterns.Prelude.Texts.{size, substr}
use cpp_design_patterns.Composite.{
  Request, Response, Endpoint, Handler, endpoint, group, Handlers, nil, cons, endpoint_try_handle,
  starts_with, try_handle, try_children, dispatch,
}

-- A way through the tree: the prefixes from the root down and the endpoint.
abbrev pub Route : Type 0
Route = List String × Endpoint

abbrev pub under : String → List Route → List Route
under prefix [] = []
under prefix ((above, e) ∷ routes) = (prefix ∷ above, e) ∷ under prefix routes

unfoldable mutual
  pub routes : Handler → List Route
  routes (endpoint e) = ([], e) ∷ []
  routes (group prefix children) = under prefix (children_routes children)

  pub children_routes : Handlers → List Route
  children_routes nil = []
  children_routes (cons child children) = routes child ++ children_routes children

abbrev pub passes : Request → List String → Bool
passes request [] = true
passes request (prefix ∷ above) = starts_with request.path prefix && passes request above

abbrev pub serves : Request → Route → Bool
serves request (above, e) =
    passes request above && ((request.method == e.method_) && (request.path == e.path_))

abbrev pub first_match : Request → List Route → Option String
first_match request [] = none
first_match request ((above, e) ∷ rest) =
    if serves request (above, e) then some e.body_ else first_match request rest

abbrev answer : Option String → Response → Bool × Response
answer none response = (false, response)
answer (some body) response = (true, record { status = 200; body = body })

abbrev or_else : Option String → Option String → Option String
or_else none y = y
or_else (some x) y = some x

first_match-append :
    (request : Request) (xs ys : List Route)
    → first_match request (xs ++ ys) ≡ or_else (first_match request xs) (first_match request ys)
first_match-append request [] ys = refl
first_match-append request ((above, e) ∷ xs) ys = ground (arith, first_match-append request xs ys)

first_match-under :
    (request : Request) (prefix : String) (xs : List Route)
    → first_match request (under prefix xs)
      ≡ (if starts_with request.path prefix then first_match request xs else none)
first_match-under request prefix [] = ground arith
first_match-under request prefix ((above, e) ∷ xs) =
    ground (arith, first_match-under request prefix xs)

mutual
  unfolding try_handle endpoint_try_handle routes

  try_handle_lem :
      (h : Handler) (request : Request) (response : Response)
      → try_handle h request response ≡ answer (first_match request (routes h)) response
  try_handle_lem (endpoint e) request response = ground arith
  try_handle_lem (group prefix children) request response = ground (
    arith,
    try_children_lem children request response,
    first_match-under request prefix (children_routes children),
  )

  try_children_lem :
      (hs : Handlers) (request : Request) (response : Response)
      → try_children hs request response
        ≡ answer (first_match request (children_routes hs)) response
  try_children_lem nil request response = refl
  try_children_lem (cons h hs) request response = ground (
    arith,
    try_handle_lem h request response,
    try_children_lem hs request (try_handle h request response).1,
    first_match-append request (routes h) (children_routes hs),
  )

-- The response of a routing tree is 200 with the body of the first endpoint, in the order of the
-- tree from left to right, whose method and path are the request's and all of whose groups have a
-- prefix of the path; without such an endpoint it is 404 with the body "not found".
pub dispatch-first_match :
    (root : Handler) (request : Request)
    → dispatch root request ≡ (elim (first_match request (routes root)) [
      | none ↦ record { status = 404; body = "not found" }
      | some body ↦ record { status = 200; body = body }
    ])
unfolding dispatch
dispatch-first_match root request =
    ground (arith, try_handle_lem root request (record { status = 200; body = "" }))

-- What `substr` leaves out.
rest_from : String → ℕ → String
rest_from String.[] n = String.[]
rest_from (String.◌∷◌ c s) zero = String.◌∷◌ c s
rest_from (String.◌∷◌ c s) (suc n) = rest_from s n

append-substr : (s : String) (n : ℕ) → s ≡ substr s n <> rest_from s n
unfolding substr rest_from
append-substr String.[] n = sym (nil-append String.[])
append-substr (String.◌∷◌ c s) zero = sym (nil-append (String.◌∷◌ c s))
append-substr (String.◌∷◌ c s) (suc n) =
    ap (String.◌∷◌ c) (append-substr s n) ∙ sym (cons-append c (substr s n) (rest_from s n))

substr_zero : (t : String) → substr t 0 ≡ String.[]
unfolding substr
substr_zero String.[] = refl
substr_zero (String.◌∷◌ c t) = refl

substr-append : (p t : String) → (substr (p <> t) (size p) ≡ p) × (size p ≤ size (p <> t))
unfolding substr size
substr-append String.[] t = rw (nil-append t) (substr_zero t, omega arith)
substr-append (String.◌∷◌ c p) t =
    let (e, h) = substr-append p t in rw (cons-append c p t) (ap (String.◌∷◌ c) e, omega (arith, h))

-- The prefix test of a group holds exactly for the paths that continue its prefix.
pub starts_with_iff :
    (s prefix : String) → (starts_with s prefix ≡ true) ↔ ((rest : String) × (s ≡ prefix <> rest))
unfolding starts_with
starts_with_iff s prefix = (
  λ h.
      let e : substr s (size prefix) ≡ prefix =
        ground (arith, ==_iff (substr s (size prefix)) prefix) in
      (
        rest_from s (size prefix),
        append-substr s (size prefix) ∙ ap (λ x. x <> rest_from s (size prefix)) e,
      ),
  λ (rest, e). rw (e) (
      let (f, h) = substr-append prefix rest in
      ground (arith, ==_iff (substr (prefix <> rest) (size prefix)) prefix)),
)
