-- ===== src/DatabaseService.antt =====
-- examples/pimpl/database_service.h and .cpp: the service behind its pointer, and any program of
-- services. What would be undefined, the use of a service that was moved from, gives none.
pub mod Ownership
mod Tests
use cpp_design_patterns.Prelude.{
  ℕ, ◌+◌, ◌|>◌, String, ◌<>◌, List, [], ◌∷◌, ◌++◌, Bool, true, false, Option, none, some, eqb,
  get_elem?, set,
}
use cpp_design_patterns.Log.{Log, log_line}

pub record Impl : Type 0 where
  pub connection_string_ : String
  pub results_cache_ : List String

-- A service is its `pimpl_`: none once it has been moved from.
abbrev pub DatabaseService : Type 0
DatabaseService = Option Impl

-- The constructor, and the destructor with the `Impl` it destroys.
unfoldable pub construct : String → Log → DatabaseService × Log
construct connection_string log = (
  some (record { connection_string_ = connection_string; results_cache_ = [] }),
  log_line ("Impl: connecting to database: " ∷ connection_string ∷ []) log,
)

unfoldable pub destroy : DatabaseService → Log → Log
destroy none log = log
destroy (some impl) log = log_line ("Impl: closing database connection" ∷ []) log

abbrev pub move : DatabaseService → DatabaseService × DatabaseService
move other = (other, none)

-- `operator=(DatabaseService&&)` for two different services; for one it changes nothing.
unfoldable pub move_assign :
    DatabaseService → DatabaseService → Log → (DatabaseService × DatabaseService) × Log
unfolding destroy
move_assign self other log = ((other, none), destroy self log)

unfoldable pub execute_query : String → DatabaseService → Log → Option (DatabaseService × Log)
execute_query query none log = none
execute_query query (some impl) log = some (
  some (record impl { results_cache_ = impl.results_cache_ ++ (("result for: " <> query) ∷ []) }),
  log_line ("Impl: executing query: " ∷ query ∷ []) log,
)

unfoldable pub fetch_results : DatabaseService → Option (List String)
fetch_results none = none
fetch_results (some impl) = some impl.results_cache_

-- Queries one after the other.
unfoldable pub execute_all : List String → DatabaseService → Log → Option (DatabaseService × Log)
unfolding execute_query
execute_all [] service log = some (service, log)
execute_all (query ∷ queries) service log = elim (execute_query query service log) [
  | none ↦ none
  | some (service', log') ↦ execute_all queries service' log'
]

-- The services of a program, how many implementations were made and destroyed, and the log.
pub record World : Type 0 where
  pub services : List (Option DatabaseService)
  pub opened : ℕ
  pub closed : ℕ
  pub log : Log

pub data Event : Type 0 where
  constructs : (connection_string : String) → Event
  moves : (from : ℕ) → Event
  assigns : (to from : ℕ) → Event
  destroys : (at : ℕ) → Event
  executes : (at : ℕ) (query : String) → Event

abbrev pub service_at : ℕ → List (Option DatabaseService) → Option DatabaseService
service_at i services = elim (get_elem? services i) [ none ↦ none | some service ↦ service ]

-- How many implementations a service owns.
abbrev pub owned : DatabaseService → ℕ
owned none = 0
owned (some impl) = 1

-- An event on services that are gone changes nothing; a new service comes first.
unfoldable pub step : World → Event → Option World
unfolding construct destroy move_assign execute_query
step w (constructs connection_string) =
    let (service, log) = construct connection_string w.log in
    some (record w { services = some service ∷ w.services; opened = w.opened + 1; log = log })
step w (moves from) = elim (service_at from w.services) [
  | none ↦ some w
  | some other ↦
      let (new, old) = move other in
      some (record w { services = some new ∷ set w.services from (some old) })
]
step w (assigns to from) = elim (service_at to w.services) [
  | none ↦ some w
  | some self ↦ elim (service_at from w.services) [
    | none ↦ some w
    | some other ↦ elim (eqb to from) [
      | true ↦ some w
      | false ↦
          let ((new, old), log) = move_assign self other w.log in
          some (record w {
            services = set (set w.services to (some new)) from (some old);
            closed = w.closed + owned self;
            log = log;
          })
    ]
  ]
]
step w (destroys i) = elim (service_at i w.services) [
  | none ↦ some w
  | some service ↦ some (record w {
    services = set w.services i none;
    closed = w.closed + owned service;
    log = destroy service w.log;
  })
]
step w (executes i query) = elim (service_at i w.services) [
  | none ↦ some w
  | some service ↦ elim (execute_query query service w.log) [
    | none ↦ none
    | some (service', log) ↦
        some (record w { services = set w.services i (some service'); log = log })
  ]
]

-- None when a program uses a service that was moved from.
unfoldable pub run : World → List Event → Option World
unfolding step
run w [] = some w
run w (e ∷ es) = elim (step w e) [ none ↦ none | some w' ↦ run w' es ]

abbrev print_results : List String → Log → Log
print_results [] log = log
print_results (result ∷ results) log =
    print_results results (log_line ("  result: " ∷ result ∷ []) log)

-- The end of `main`: the results are printed, and the service is destroyed.
unfoldable finish : Option (DatabaseService × Log) → Option Log
unfolding fetch_results destroy
finish none = none
finish (some (db, log)) = elim (fetch_results db) [
  | none ↦ none
  | some results ↦ some (
      log
      |> print_results results
      |> log_line
          ("Note: changing Impl's internals doesn't require recompiling this main.cpp." ∷ [])
      |> destroy db)
]

unfoldable pub main : Log → Option Log
unfolding construct execute_all finish
main log =
    let (db, log') =
      log
      |> log_line ("Pimpl example: hiding implementation details." ∷ [])
      |> construct "postgresql://localhost:5432/mydb" in
    finish (execute_all ("SELECT * FROM users" ∷ "SELECT COUNT(*) FROM orders" ∷ []) db log')
