-- ===== src/DatabaseService/Ownership.antt =====
-- What a service answers, wherever it was moved, and how often connections are closed.
use cpp_design_patterns.Prelude.{
  ℕ, zero, suc, ◌+◌, ◌≡◌, refl, subst, some_inj, ◌∙◌, inl, inr, String, ◌<>◌, List, [], ◌∷◌, ◌++◌,
  map, append_assoc, append-nil, Option, none, some, Option-cases, get_elem?, set, eqb_iff,
  ℕ_discrete, get_elem?-set_ne, string_eq, arith,
}
use cpp_design_patterns.Log.{Log, line}
use cpp_design_patterns.DatabaseService.{
  Impl, DatabaseService, construct, execute_query, fetch_results, execute_all, World, Event,
  constructs, moves, assigns, destroys, executes, service_at, owned, step, run,
}

-- What queries return and print.
abbrev pub result_of : String → String
result_of query = "result for: " <> query

abbrev pub query_line : String → String
query_line query = line ("Impl: executing query: " ∷ query ∷ [])

-- On a service that owns its implementation: any queries succeed; they print a line each, and the
-- results are then the earlier ones followed by one for each query, in order.
pub execute_all_lem :
    (impl : Impl) (queries : List String) (log : Log)
    → let after : Impl = record impl {
      results_cache_ = impl.results_cache_ ++ map result_of queries;
    } in
      (execute_all queries (some impl) log ≡ some (some after, log ++ map query_line queries))
      × (fetch_results (some after) ≡ some (impl.results_cache_ ++ map result_of queries))
unfolding execute_all execute_query fetch_results
execute_all_lem impl [] log = (rw (append-nil impl.results_cache_, append-nil log) refl, refl)
execute_all_lem impl (query ∷ queries) log =
    let next : Impl = record impl {
      results_cache_ = impl.results_cache_ ++ (result_of query ∷ []);
    } in
    let (e, _) = execute_all_lem next queries (log ++ (query_line query ∷ [])) in
    (
      e
          ∙ rw
              (
                append_assoc impl.results_cache_ (result_of query ∷ []) (map result_of queries),
                append_assoc log (query_line query ∷ []) (map query_line queries),
              )
              refl,
      refl,
    )

-- How many implementations a program's services own.
abbrev pub owned_by : Option DatabaseService → ℕ
owned_by none = 0
owned_by (some service) = owned service

abbrev pub live : List (Option DatabaseService) → ℕ
live [] = 0
live (s ∷ ss) = owned_by s + live ss

live-set :
    (ss : List (Option DatabaseService)) (i : ℕ) (s t : Option DatabaseService)
    → get_elem? ss i ≡ some s
    → live (set ss i t) + owned_by s ≡ live ss + owned_by t
live-set [] i s t e = absurd (cc)
live-set (x ∷ ss) zero s t e = ground arith
live-set (x ∷ ss) (suc i) s t e = omega (arith, live-set ss i s t e)

service_at-get :
    (i : ℕ) (ss : List (Option DatabaseService)) {s : DatabaseService}
    → service_at i ss ≡ some s
    → get_elem? ss i ≡ some (some s)
service_at-get i ss e = ground arith

abbrev pub IsBalanced : World → Type 0
IsBalanced w = w.opened ≡ w.closed + live w.services

-- What a step leaves behind, when it is defined.
abbrev pub KeepsBalance : Option World → Type 0
KeepsBalance none = Unit
KeepsBalance (some w) = IsBalanced w

module _ (w : World) (h : IsBalanced w) where
  moves-KeepsBalance : (from : ℕ) → KeepsBalance (step w (moves from))
  unfolding step
  moves-KeepsBalance from = elim (Option-cases (service_at from w.services)) [
    | inl e ↦ rw (step, e) h
    | inr (s, e) ↦
        let k = live-set w.services from (some s) (some none) (service_at-get from w.services e) in
        rw (step, e) (omega (arith, k))
  ]

  destroys-KeepsBalance : (i : ℕ) → KeepsBalance (step w (destroys i))
  unfolding step
  destroys-KeepsBalance i = elim (Option-cases (service_at i w.services)) [
    | inl e ↦ rw (step, e) h
    | inr (s, e) ↦
        let k = live-set w.services i (some s) none (service_at-get i w.services e) in
        rw (step, e) (omega (arith, k))
  ]

  executes-KeepsBalance : (i : ℕ) (query : String) → KeepsBalance (step w (executes i query))
  unfolding step execute_query
  executes-KeepsBalance i query = elim (Option-cases (service_at i w.services)) [
    | inl e ↦ rw (step, e) h
    | inr (none, e) ↦ rw (step, e) tt
    | inr (some impl, e) ↦
        let after = record impl {
          results_cache_ = impl.results_cache_ ++ (result_of query ∷ []);
        } in
        let k =
          live-set w.services i (some (some impl)) (some (some after))
            (service_at-get i w.services e) in
        rw (step, e) (omega (arith, k))
  ]

  assigns-KeepsBalance : (to from : ℕ) → KeepsBalance (step w (assigns to from))
  unfolding step
  assigns-KeepsBalance to from = elim (Option-cases (service_at to w.services)) [
    | inl e ↦ rw (step, e) h
    | inr (u, e) ↦ elim (Option-cases (service_at from w.services)) [
      | inl f ↦ rw (step, e, f) h
      | inr (v, f) ↦ elim (ℕ_discrete to from) [
        | yes same ↦ rw (step, e, f, (eqb_iff to from).1 same) h
        | no apart ↦
            let s = live-set w.services to (some u) (some v) (service_at-get to w.services e) in
            let still =
              get_elem?-set_ne w.services (some v) apart ∙ service_at-get from w.services f in
            let t = live-set (set w.services to (some v)) from (some v) (some none) still in
            ground (arith, s, t, e, f, eqb_iff to from)
      ]
    ]
  ]

step-KeepsBalance : (w : World) (e : Event) → IsBalanced w → KeepsBalance (step w e)
unfolding step construct
step-KeepsBalance w (constructs c) h = omega arith
step-KeepsBalance w (moves from) h = moves-KeepsBalance w h from
step-KeepsBalance w (assigns to from) h = assigns-KeepsBalance w h to from
step-KeepsBalance w (destroys i) h = destroys-KeepsBalance w h i
step-KeepsBalance w (executes i query) h = executes-KeepsBalance w h i query

run-IsBalanced :
    (w : World) (es : List Event) (w' : World) → IsBalanced w → run w es ≡ some w' → IsBalanced w'
unfolding run
run-IsBalanced w [] w' h e = subst IsBalanced (some_inj.0 e) h
run-IsBalanced w (e ∷ es) w' h r = elim (Option-cases (step w e)) [
  | inl f ↦ absurd (cc (rw (run, f) at r))
  | inr (w1, f) ↦
      run-IsBalanced w1 es w' (subst KeepsBalance f (step-KeepsBalance w e h)) (rw (run, f) at r)
]

abbrev pub no_services : World
no_services = record { services = []; opened = 0; closed = 0; log = [] }

-- Whenever a program of constructions, moves, assignments, queries and destructions is defined:
-- the implementations made are as many as those destroyed and those that its services still own.
pub impls_closed_once :
    (es : List Event) (w : World)
    → run no_services es ≡ some w
    → w.opened ≡ w.closed + live w.services
impls_closed_once es w e = run-IsBalanced no_services es w refl e
