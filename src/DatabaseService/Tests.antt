-- ===== src/DatabaseService/Tests.antt =====
-- The run of examples/pimpl/main.cpp, and a program of services.
use cpp_design_patterns.Prelude.{◌≡◌, refl, List, [], ◌∷◌, none, some}
use cpp_design_patterns.DatabaseService.{
  Impl, construct, destroy, move_assign, execute_query, World, Event, constructs, moves, assigns,
  destroys, executes, step, run, execute_all, fetch_results, main,
}
use cpp_design_patterns.DatabaseService.Ownership.{no_services}

abbrev the_impl : Impl
the_impl = record { connection_string_ = "postgresql://localhost:5432/mydb"; results_cache_ = [] }

-- A service that is queried, moved, replaced by another and destroyed.
abbrev events : List Event
events = constructs "a" ∷ executes 0 "q" ∷ moves 0 ∷ constructs "b" ∷ assigns 1 0 ∷ destroys 1 ∷ []

abbrev at_end : World
at_end = record {
  services = some none ∷ none ∷ some none ∷ [];
  opened = 2;
  closed = 2;
  log =
      "Impl: connecting to database: a" ∷ "Impl: executing query: q"
      ∷ "Impl: connecting to database: b" ∷ "Impl: closing database connection"
      ∷ "Impl: closing database connection" ∷ [];
}

moved_from : run no_services (constructs "a" ∷ moves 0 ∷ executes 1 "q" ∷ []) ≡ none
unfolding run step construct execute_query
moved_from = refl

events-at_end : run no_services events ≡ some at_end
unfolding run step construct destroy move_assign execute_query
events-at_end = refl

main_run :
    main []
    ≡ some (
        "Pimpl example: hiding implementation details."
        ∷ "Impl: connecting to database: postgresql://localhost:5432/mydb"
        ∷ "Impl: executing query: SELECT * FROM users"
        ∷ "Impl: executing query: SELECT COUNT(*) FROM orders"
        ∷ "  result: result for: SELECT * FROM users"
        ∷ "  result: result for: SELECT COUNT(*) FROM orders"
        ∷ "Note: changing Impl's internals doesn't require recompiling this main.cpp."
        ∷ "Impl: closing database connection" ∷ [])
unfolding main execute_all execute_query construct fetch_results destroy
main_run = refl
