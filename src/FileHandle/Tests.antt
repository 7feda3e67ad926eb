-- ===== src/FileHandle/Tests.antt =====
-- Runs of examples/raii/main.cpp on a disk with room for some lines.
use cpp_design_patterns.Prelude.{ℕ, zero, suc, ◌≡◌, refl, [], ◌∷◌, true, false, some}
use cpp_design_patterns.Prelude.Decimal.{to_string}
use cpp_design_patterns.FileHandle.{
  Library, opened, wrote, closed, World, make, with_log, write_lines, leave, destroy, exit_code,
  run_main,
}
use cpp_design_patterns.FileHandle.Scope.{MainEnds, run_main-Ends}

-- The state is the number of lines that still fit.
abbrev disk : Library
disk = record {
  State = ℕ;
  fopen = λ path mode room. (room, some 7);
  fputs = λ text file room. elim room [ zero ↦ (zero, false) | suc n ↦ (n, true) ];
  fclose = λ file room. room;
  strerror = λ room. "No space left on device";
}

abbrev room_for : ℕ → World disk
room_for n = record { state = n; calls = []; out = []; err = [] }

main_full :
    (run_main disk (room_for 1)).0.calls ≡ opened 7 ∷ wrote "request line 0\n" 7 ∷ closed 7 ∷ []
unfolding run_main make with_log write_lines leave destroy exit_code to_string
main_full = refl

main_code : (run_main disk (room_for 3)).1 ≡ 0
unfolding run_main make with_log write_lines leave destroy exit_code
main_code = refl

run_main-Ends_example : MainEnds disk (room_for 1) (run_main disk (room_for 1))
run_main-Ends_example = run_main-Ends disk (room_for 1)
