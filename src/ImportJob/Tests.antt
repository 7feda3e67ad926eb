-- ===== src/ImportJob/Tests.antt =====
-- The run of examples/factory_method/main.cpp's `main`.
use cpp_design_patterns.Prelude.{◌≡◌, refl, [], ◌∷◌}
use cpp_design_patterns.Prelude.Decimal.{to_string}
use cpp_design_patterns.ImportJob.{run, main}

main_run :
    main []
    ≡ "Factory Method example: pluggable client creation." ∷ "production run:" ∷ "imported 3 users"
      ∷ "user=Ada" ∷ "user=Grace" ∷ "user=Linus" ∷ "test run:" ∷ "imported 2 users"
      ∷ "user=TestUser1" ∷ "user=TestUser2" ∷ []
unfolding main run to_string
main_run = refl
