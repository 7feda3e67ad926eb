-- ===== src/Repository/Tests.antt =====
-- The two demos of examples/abstract_factory/main.cpp.
use cpp_design_patterns.Prelude.{◌≡◌, refl, [], ◌∷◌, some, none}
use cpp_design_patterns.Prelude.Dict.{find, insert}
use cpp_design_patterns.Prelude.Decimal.{to_string}
use cpp_design_patterns.Prelude.Int.{pos}
use cpp_design_patterns.Repository.{
  ProductionBackendFactory, make, load_and_put, get_user_name, lookups, run_demo, main,
}
use cpp_design_patterns.Repository.ReadThrough.{
  Lawful, map_cache-Lawful, look_up, repository_answers,
}

main_run :
    main []
    ≡ "Abstract Factory example: environment-specific wiring." ∷ "production:" ∷ "lookup 1:"
      ∷ "cache miss for user=42" ∷ "prod cache put user=42 name=Ada" ∷ "user=42 name=Ada"
      ∷ "lookup 2:" ∷ "cache hit for user=42" ∷ "user=42 name=Ada" ∷ "test:" ∷ "lookup 1:"
      ∷ "cache miss for user=5" ∷ "test cache put user=5 name=test-db-user-5"
      ∷ "user=5 name=test-db-user-5" ∷ "lookup 2:" ∷ "cache hit for user=5"
      ∷ "user=5 name=test-db-user-5" ∷ []
unfolding main run_demo lookups get_user_name load_and_put find insert to_string
main_run = refl

abbrev production : Lawful ProductionBackendFactory
production = map_cache-Lawful (pos 42) "Ada" "prod" ((pos 7, "Grace") ∷ [])

repository_answers_example :
    look_up ProductionBackendFactory production
      (pos 42 ∷ pos 7 ∷ pos 5 ∷ [])
      (make ProductionBackendFactory, [])
    ≡ some "Ada" ∷ some "Grace" ∷ none ∷ []
unfolding find
repository_answers_example =
    repository_answers ProductionBackendFactory production (pos 42 ∷ pos 7 ∷ pos 5 ∷ []) []
