-- ===== src/Arena/Main.antt =====
-- `main` of examples/rule_of_0_5/main.cpp. Output is bytes, as `read` gives them. An exception that
-- leaves `main` ends the program, so no destructor runs after it.
use cpp_design_patterns.Prelude.{◌|>◌, String, List, [], ◌∷◌, ◌++◌, Bool, Option, some, map}
use cpp_design_patterns.Prelude.Result.{Result, ok, throws}
use cpp_design_patterns.Logger.{bytes}
use cpp_design_patterns.Arena.{Byte, Heap, ◌>>=◌, Arena, make, destroy, copy, move, write, read}
use cpp_design_patterns.Arena.Buffer.{append, join}

abbrev Output : Type 0
Output = List (List Byte)

abbrev pub printed : String → List Byte → List Byte
printed label value = map some (bytes label) ++ (value ++ map some (bytes "\n"))

unfoldable pub greeting : String
unfolding append join
greeting = join (record { chunks = [] } |> append "hello " |> append "backend " |> append "world")

-- The two arenas are read and printed; at the end of the scope the three are destroyed, the last first.
unfoldable read_both : Arena → Arena → Arena → Heap → Option (Heap × Result Output)
unfolding read destroy
read_both a1 a2 a3 h = read 0 9 a2 h >>= λ copied. read 0 9 a3 h >>= λ moved. elim copied [
  | throws e ↦ some (h, throws e)
  | ok of_a2 ↦ elim moved [
    | throws e ↦ some (h, throws e)
    | ok of_a3 ↦ (do
      h1 ← destroy a3 h
      h2 ← destroy a2 h1
      h3 ← destroy a1 h2
      some (
        h3,
        ok (
            printed "Rule of 0: " (map some (bytes greeting))
            ∷ printed "Rule of 5 (copy): " of_a2
            ∷ printed "Rule of 5 (move): " of_a3
            ∷ []),
      ))
  ]
]

-- From the copy on.
unfoldable copy_and_move : Bool → Arena → Heap → Option (Heap × Result Output)
unfolding copy move read_both
copy_and_move found a1 h = copy found a1 h >>= λ (h', made). elim made [
  | throws e ↦ some (h', throws e)
  | ok a2 ↦ let (a3, a1') = move a1 in read_both a1' a2 a3 h'
]

-- The two flags say whether `malloc` finds memory.
unfoldable pub main : Bool → Bool → Heap → Option (Heap × Result Output)
unfolding make write copy_and_move greeting
main found_first found_copy h =
    let (h1, made) = make found_first 64 h in
    elim made [
      | throws e ↦ some (h1, throws e)
      | ok a1 ↦ write 0 (bytes "cache-key") a1 h1 >>= λ (h2, outcome). elim outcome [
        | throws e ↦ some (h2, throws e)
        | ok _ ↦ copy_and_move found_copy a1 h2
      ]
    ]
