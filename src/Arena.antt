-- ===== src/Arena.antt =====
-- examples/rule_of_0_5/main.cpp: `Arena`, which owns a block of the C heap.
-- The heap maps addresses to blocks; 0 is the null pointer. A byte that was never written is
-- `none`. A function returns nothing where the source would have undefined behaviour: a second
-- `free`, an access to a freed block or beyond a block's end. Whether `malloc` finds memory is an
-- argument of each function that calls it. A `size_t` wraps at `2 ^ 64`.
mod Blocks
pub mod Objects
mod Ownership
mod Bytes
pub mod Safety
pub mod Access
pub mod Buffer
mod Main
mod Tests
use cpp_design_patterns.Prelude.{
  ℕ, ◌+◌, ◌%◌, ◌^◌, List, ◌++◌, Bool, true, false, not, ◌&&◌, Option, none, some, length, take,
  drop, replicate, map, leb, ltb, eqb, if◌then◌else◌,
}
use cpp_design_patterns.Prelude.Result.{Result, ok, throws, bad_alloc, out_of_range}

abbrev pub Byte : Type 0
Byte = Option ℕ

pub record Heap : Type 0 where
  pub cells : ℕ → Option (List Byte)
  pub next : ℕ

abbrev pub update {ℓ} : {A : Type ℓ} → (ℕ → A) → ℕ → A → ℕ → A
update f i a j = if eqb i j then a else f j

-- A chain of steps that may be undefined.
infixl 5 ◌>>=◌
abbrev pub ◌>>=◌ {ℓ κ} : {A : Type ℓ} {B : Type κ} → Option A → (A → Option B) → Option B
none >>= f = none
some a >>= f = f a

-- `std::malloc`: a new block of bytes that are not written, or null.
unfoldable pub malloc : Bool → ℕ → Heap → Heap × ℕ
malloc found bytes h =
    if found
    then (
      record h { cells = update h.cells h.next (some (replicate bytes none)); next = h.next + 1 },
      h.next,
    )
    else (h, 0)

-- `std::free`
unfoldable pub free : ℕ → Heap → Option Heap
free p h = if eqb p 0 then some h else elim (h.cells p) [
  | none ↦ none
  | some _ ↦ some (record h { cells = update h.cells p none })
]

-- The two sides of `std::memcpy`: the bytes at an address and an offset, and the write.
unfoldable pub load : ℕ → ℕ → ℕ → Heap → Option (List Byte)
load p offset len h = elim (h.cells p) [
  | none ↦ none
  | some block ↦
      if leb (offset + len) (length block) then some (take len (drop offset block)) else none
]

unfoldable pub store : ℕ → ℕ → List Byte → Heap → Option Heap
store p offset bytes h = elim (h.cells p) [
  | none ↦ none
  | some block ↦
      if leb (offset + length bytes) (length block)
      then some (record h {
        cells =
            update h.cells p
              (some (take offset block ++ (bytes ++ drop (offset + length bytes) block)));
      })
      else none
]

pub record Arena : Type 0 where
  pub size : ℕ
  pub data_ : ℕ

abbrev pub empty : Arena
empty = record { size = 0; data_ = 0 }

-- `Arena(bytes)`
unfoldable pub make : Bool → ℕ → Heap → Heap × Result Arena
unfolding malloc
make found bytes h =
    let (h', p) = if eqb bytes 0 then (h, 0) else malloc found bytes h in
    if not (eqb bytes 0) && eqb p 0
    then (h', throws bad_alloc)
    else (h', ok (record { size = bytes; data_ = p }))

-- `~Arena()`
unfoldable pub destroy : Arena → Heap → Option Heap
unfolding free
destroy a h = free a.data_ h

-- `Arena(const Arena& other)`
unfoldable pub copy : Bool → Arena → Heap → Option (Heap × Result Arena)
unfolding malloc load store
copy found other h =
    let (h', p) = if eqb other.size 0 then (h, 0) else malloc found other.size h in
    let copied = (do
      bytes ← load other.data_ 0 other.size h'
      h'' ← store p 0 bytes h'
      some (h'', ok (record { size = other.size; data_ = p }))) in
    if not (eqb other.size 0) && eqb p 0
    then some (h', throws bad_alloc)
    else if eqb other.size 0
    then some (h', ok (record { size = other.size; data_ = p }))
    else copied

-- `swap`: the two objects after it.
unfoldable pub swap : Arena → Arena → Arena × Arena
swap a b = (record { size = b.size; data_ = b.data_ }, record { size = a.size; data_ = a.data_ })

-- `operator=(const Arena& other)`; `same` is `this == &other`. The object after it and the outcome.
unfoldable pub copy_assign :
    Bool → Bool → Arena → Arena → Heap → Option (Heap × Arena × Result (Unit {0}))
unfolding copy swap destroy
copy_assign found same self other h =
    let assigned = copy found other h >>= λ (h', made). elim made [
      | throws e ↦ some (h', self, throws e)
      | ok tmp ↦
          let (self', tmp') = swap self tmp in destroy tmp' h' >>= λ h''. some (h'', self', ok tt)
    ] in
    if same then some (h, self, ok tt) else assigned

-- `Arena(Arena&& other)`: the new object and what is left of the other.
unfoldable pub move : Arena → Arena × Arena
move other = (other, empty)

-- `operator=(Arena&& other)`: the object and the other after it.
unfoldable pub move_assign : Bool → Arena → Arena → Heap → Option (Heap × Arena × Arena)
unfolding free
move_assign same self other h =
    let moved = free self.data_ h >>= λ h'. some (h', other, empty) in
    if same then some (h, self, other) else moved

-- `write`; nothing is copied when there are no bytes.
unfoldable pub write : ℕ → List ℕ → Arena → Heap → Option (Heap × Result (Unit {0}))
unfolding store
write offset s a h =
    let stored = store a.data_ offset (map some s) h >>= λ h'. some (h', ok tt) in
    if ltb a.size ((offset + length s) % 2 ^ 64)
    then some (h, throws (out_of_range "arena write"))
    else if eqb (length s) 0
    then some (h, ok tt)
    else stored

-- `read`
unfoldable pub read : ℕ → ℕ → Arena → Heap → Option (Result (List Byte))
unfolding load
read offset len a h =
    let loaded = load a.data_ offset len h >>= λ bytes. some (ok bytes) in
    if ltb a.size ((offset + len) % 2 ^ 64)
    then some (throws (out_of_range "arena read"))
    else if eqb len 0
    then some (ok List.[])
    else loaded
