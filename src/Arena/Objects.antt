-- ===== src/Arena/Objects.antt =====
-- The arenas of a program: any sequence of constructions, copies, moves, assignments, swaps, writes, reads and
-- destructions, over one heap. Objects are known by numbers.
use cpp_design_patterns.Prelude.{ℕ, Bool, List, [], ◌∷◌, Option, none, some, eqb}
use cpp_design_patterns.Prelude.Result.{Result, ok, throws}
use cpp_design_patterns.Arena.{
  Heap, update, ◌>>=◌, Arena, make, destroy, copy, copy_assign, move, move_assign, swap, write,
  read,
}
use cpp_design_patterns.Arena.Blocks.{Owners}

pub record World : Type 0 where
  pub heap : Heap
  pub objects : Owners

-- What a program does with its arenas; a flag says whether `malloc` finds memory.
pub data Event : Type 0 where
  constructs : (found : Bool) (k bytes : ℕ) → Event
  destroys : (k : ℕ) → Event
  copies : (found : Bool) (k from : ℕ) → Event
  copy_assigns : (found : Bool) (k from : ℕ) → Event
  moves : (k from : ℕ) → Event
  move_assigns : (k from : ℕ) → Event
  swaps : (k from : ℕ) → Event
  writes : (k offset : ℕ) (s : List ℕ) → Event
  reads : (k offset len : ℕ) → Event

abbrev keep : World → Heap → Result Arena → ℕ → World
keep w h (ok a) k = record { heap = h; objects = update w.objects k (some a) }
keep w h (throws e) k = record w { heap = h }

-- A constructor makes the object `k`, which is not there before.
construct_at : Bool → ℕ → ℕ → World → Option Arena → World
construct_at found k bytes w none = let (h, r) = make found bytes w.heap in keep w h r k
construct_at found k bytes w (some _) = w

destroy_at : ℕ → World → Option Arena → Option World
destroy_at k w none = some w
destroy_at k w (some a) =
    destroy a w.heap >>= λ h. some (record { heap = h; objects = update w.objects k none })

copy_at : Bool → ℕ → World → Option Arena → Option Arena → Option World
copy_at found k w none (some other) = copy found other w.heap >>= λ (h, r). some (keep w h r k)
copy_at found k w _ _ = some w

copy_assign_at : Bool → ℕ → ℕ → World → Option Arena → Option Arena → Option World
copy_assign_at found k from w (some self) (some other) =
    copy_assign found (eqb k from) self other w.heap >>= λ (h, self', _).
    some (record { heap = h; objects = update w.objects k (some self') })
copy_assign_at found k from w _ _ = some w

move_at : ℕ → ℕ → World → Option Arena → Option Arena → World
move_at k from w none (some other) =
    let (a, left) = move other in
    record w { objects = update (update w.objects from (some left)) k (some a) }
move_at k from w _ _ = w

move_assign_at : ℕ → ℕ → World → Option Arena → Option Arena → Option World
move_assign_at k from w (some self) (some other) =
    move_assign (eqb k from) self other w.heap >>= λ (h, self', other').
    some
      (record { heap = h; objects = update (update w.objects from (some other')) k (some self') })
move_assign_at k from w _ _ = some w

swap_at : ℕ → ℕ → World → Option Arena → Option Arena → World
swap_at k from w (some self) (some other) =
    let (self', other') = swap self other in
    record w { objects = update (update w.objects from (some other')) k (some self') }
swap_at k from w _ _ = w

-- An exception of `write` or `read` is caught, and what was read is dropped.
write_at : ℕ → List ℕ → World → Option Arena → Option World
write_at offset s w none = some w
write_at offset s w (some a) = write offset s a w.heap >>= λ (h, _). some (record w { heap = h })

read_at : ℕ → ℕ → World → Option Arena → Option World
read_at offset len w none = some w
read_at offset len w (some a) = read offset len a w.heap >>= λ _. some w

-- One event; nothing where the source would have undefined behaviour.
unfoldable pub step : World → Event → Option World
unfolding construct_at destroy_at copy_at copy_assign_at move_at move_assign_at swap_at write_at
    read_at
step w (constructs found k bytes) = some (construct_at found k bytes w (w.objects k))
step w (destroys k) = destroy_at k w (w.objects k)
step w (copies found k from) = copy_at found k w (w.objects k) (w.objects from)
step w (copy_assigns found k from) = copy_assign_at found k from w (w.objects k) (w.objects from)
step w (moves k from) = some (move_at k from w (w.objects k) (w.objects from))
step w (move_assigns k from) = move_assign_at k from w (w.objects k) (w.objects from)
step w (swaps k from) = some (swap_at k from w (w.objects k) (w.objects from))
step w (writes k offset s) = write_at offset s w (w.objects k)
step w (reads k offset len) = read_at offset len w (w.objects k)

unfoldable pub run : World → List Event → Option World
run w [] = some w
run w (e ∷ es) = step w e >>= λ w'. run w' es

-- No object and no block.
unfoldable pub start : World
start = record { heap = record { cells = λ _. none; next = 1 }; objects = λ _. none }
