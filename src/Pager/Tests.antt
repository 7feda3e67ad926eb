-- ===== src/Pager/Tests.antt =====
-- The run of examples/adapter/main.cpp's `main`.
use cpp_design_patterns.Prelude.{◌≡◌, refl, [], ◌∷◌}
use cpp_design_patterns.Prelude.Decimal.{to_string}
use cpp_design_patterns.Pager.{dispatch_page, emit_disk_alert, main}

main_run :
    main []
    ≡ "Adapter example: normalize a legacy client."
      ∷ "legacy pager => dest=oncall/storage priority=3 body=disk space low: 12GB"
      ∷ "legacy pager => dest=oncall/storage priority=5 body=disk space low: 3GB" ∷ []
unfolding main emit_disk_alert dispatch_page to_string
main_run = refl
