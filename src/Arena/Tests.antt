-- ===== src/Arena/Tests.antt =====
-- The arena at the calls of the source's `main`, and its theorems at inputs that meet their
-- hypotheses.
use cpp_design_patterns.Prelude.{
  ℕ, ◌^◌, ◌-◌, ◌≡◌, refl, List, [], ◌∷◌, true, false, Option, map, none, some, replicate, zero, suc,
  arith,
}
use cpp_design_patterns.Prelude.Result.{Result, ok, throws, bad_alloc}
use cpp_design_patterns.Logger.{bytes}
use cpp_design_patterns.Arena.Main.{main, greeting}
use cpp_design_patterns.Arena.{
  Byte, Heap, update, load, store, Arena, empty, make, destroy, copy, swap, copy_assign, move,
  move_assign, write, read,
}
use cpp_design_patterns.Arena.Objects.{
  World, Event, constructs, destroys, copies, moves, swaps, writes, reads, step, run, start,
}
use cpp_design_patterns.Arena.Ownership.{allocated}
use cpp_design_patterns.Arena.Bytes.{Owned}
use cpp_design_patterns.Arena.Safety.{arenas_run_safely, no_leak}
use cpp_design_patterns.Arena.Access.{write_wraps}
use cpp_design_patterns.Arena.Buffer.{append, join}

arena : Unit {0}
unfolding run step start make destroy copy swap copy_assign move move_assign write read load store
arena = tt

-- a1, a copy of it, a move out of it, and the destructors in the order of the scope's end.
abbrev scope : List Event
scope =
    constructs true 1 64 ∷ copies true 2 1 ∷ moves 3 1 ∷ destroys 3 ∷ destroys 2 ∷ destroys 1 ∷ []

abbrev after_scope : World
after_scope = record {
  heap = record {
    cells =
        update
          (update
            (update
              (update (update (λ _. none) 1 (some (replicate 64 none))) 2
                (some (replicate 64 none)))
              2 (some (replicate 64 none)))
            1 none)
          2 none;
    next = 3;
  };
  objects =
      update
        (update
          (update
            (update
              (update
                (update (update (λ _. none) 1 (some (record { size = 64; data_ = 1 }))) 2
                  (some (record { size = 64; data_ = 2 })))
                1 (some empty))
              3 (some (record { size = 64; data_ = 1 })))
            3 none)
          2 none)
        1 none;
}

scope_runs : run start scope ≡ some after_scope
unfolding arena
scope_runs = refl

all_gone : (i : ℕ) → after_scope.objects i ≡ none
all_gone zero = refl
all_gone (suc zero) = refl
all_gone (suc (suc zero)) = refl
all_gone (suc (suc (suc zero))) = refl
all_gone (suc (suc (suc (suc i)))) = ground arith

no_memory : run start (constructs false 1 64 ∷ []) ≡ some start
unfolding arena
no_memory = refl

-- Two arenas written, read and exchanged, one access beyond the end among them.
abbrev accesses : List Event
accesses =
    constructs true 1 4
    ∷ constructs true 2 8
    ∷ writes 1 1 (7 ∷ 8 ∷ [])
    ∷ writes 1 3 (7 ∷ 8 ∷ [])
    ∷ swaps 1 2
    ∷ reads 1 6 2
    ∷ reads 2 1 2
    ∷ []

arenas_run_safely_example : (w : World) × (run start accesses ≡ some w) × Owned w
arenas_run_safely_example =
    arenas_run_safely accesses
      (tt, (tt, (omega arith, (omega arith, (tt, (omega arith, (omega arith, tt)))))))

no_leak_example : after_scope.heap.cells 2 ≡ none
no_leak_example = no_leak scope after_scope scope_runs all_gone 2

-- Four bytes at address 1.
abbrev four : Heap
four = allocated 4 (record { cells = λ _. none; next = 1 })

abbrev small : Arena
small = record { size = 4; data_ = 1 }

abbrev blank : List Byte
blank = replicate 4 none

write_wraps_example : write (2 ^ 64 - 1) (7 ∷ 8 ∷ []) small four ≡ none
write_wraps_example =
    write_wraps small four blank refl refl (2 ^ 64 - 1) (7 ∷ 8 ∷ []) (omega arith) (omega arith)
      (omega arith) (omega arith) (omega arith)

abbrev no_blocks : Heap
no_blocks = record { cells = λ _. none; next = 1 }

-- What a run printed, and the blocks 1 and 2 after it.
abbrev after_main :
    Option (Heap × Result (List (List Byte)))
    → Option ((Option (List Byte) × Option (List Byte)) × Result (List (List Byte)))
after_main none = none
after_main (some (h, outcome)) = some ((h.cells 1, h.cells 2), outcome)

main_run :
    after_main (main true true no_blocks)
    ≡ some (
      (none, none),
      ok (
          map some (bytes "Rule of 0: hello backend world\n")
          ∷ map some (bytes "Rule of 5 (copy): cache-key\n")
          ∷ map some (bytes "Rule of 5 (move): cache-key\n")
          ∷ []),
    )
unfolding main arena join append greeting
main_run = refl

main_no_memory : (main false true no_blocks) ≡ some (no_blocks, throws bad_alloc)
unfolding main arena
main_no_memory = refl
