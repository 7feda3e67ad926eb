-- ===== src/Futures/Tests.antt =====
-- examples/futures_promises/main.cpp: `run_lookup_demo` for the users 42 and 7.
use cpp_design_patterns.Prelude.{ℕ, ◌≡◌, ◌⊎◌, refl, String, List, [], ◌∷◌, none, some, arith}
use cpp_design_patterns.Prelude.Result.{Exception, runtime_error, Result, ok, throws}
use cpp_design_patterns.Prelude.Int.{pos}
use cpp_design_patterns.Futures.{cache_lookup, db_lookup, access, step, run, start, run_lookup_demo}
use cpp_design_patterns.Futures.Invariant.{successes}
use cpp_design_patterns.Futures.Origins.{Among}
use cpp_design_patterns.Prelude.Decimal.{to_string}
use cpp_design_patterns.Futures.Main.{
  timed_out_line, name_line, Found, report, lookup_demo, main, demo_line,
}
use cpp_design_patterns.Futures.Race.{promise_set_once, race_result}

-- A cache that misses and a database that answers.
abbrev lookups : List (Result String)
lookups = throws (runtime_error "cache miss") ∷ ok "unknown (db)" ∷ []

abbrev schedule : List ℕ
schedule = 0 ∷ 1 ∷ 0 ∷ 1 ∷ []

demo-lookups : run_lookup_demo (pos 7) ≡ start lookups
unfolding run_lookup_demo cache_lookup db_lookup
demo-lookups = refl

demo-known :
    (run (run_lookup_demo (pos 42)) (0 ∷ 1 ∷ 0 ∷ [])).shared.promise ≡ some (ok "Ada (cache)")
unfolding run_lookup_demo cache_lookup db_lookup run step access start
demo-known = refl

promise_set_once_example :
    ((run (start lookups) schedule).shared.violations ≡ 0)
    × (((run (start lookups) schedule).shared.promise ≡ none)
        ⊎ ((r : Result String) × ((run (start lookups) schedule).shared.promise ≡ some r)
            × Among r lookups))
promise_set_once_example = promise_set_once lookups schedule

race_result_example :
    ((v : String) × ((run (start lookups) schedule).shared.promise ≡ some (ok v))
      × Among (ok v) lookups)
    ⊎ ((e : Exception) × ((run (start lookups) schedule).shared.promise ≡ some (throws e))
        × Among (throws e) lookups
        × (successes lookups ≡ 0))
unfolding run step access start
race_result_example = race_result lookups schedule (omega arith) (tt, (tt, tt))

-- In the first demo the cache is in time, in the second only the database.
main_run :
    main (0 ∷ 0 ∷ []) (0 ∷ 0 ∷ 1 ∷ 1 ∷ []) []
    ≡ "Futures/promises example: race cache vs db." ∷ "User 42 name: Ada (cache)"
      ∷ "User 7 name: unknown (db)" ∷ []
unfolding main lookup_demo report run_lookup_demo cache_lookup db_lookup run step access start
    to_string
main_run = refl

demo_line_example :
    (lookup_demo (pos 7) (0 ∷ []) [] ≡ timed_out_line (pos 7) ∷ [])
    ⊎ ((name : String) × (lookup_demo (pos 7) (0 ∷ []) [] ≡ name_line (pos 7) name ∷ [])
        × Found (pos 7) name)
demo_line_example = demo_line (pos 7) (0 ∷ []) []
