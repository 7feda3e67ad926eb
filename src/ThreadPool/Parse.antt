-- ===== src/ThreadPool/Parse.antt =====
-- examples/thread_pool/main.cpp: `expensive_parse`, with the overflow of its `int`s written out.
use cpp_design_patterns.Prelude.{
  ℕ, zero, suc, ◌+◌, ◌-◌, ◌*◌, ◌%◌, ◌^◌, ◌≤◌, ◌<◌, ◌≡◌, refl, Option, none, some, ltb,
  if◌then◌else◌, arith,
}

-- A sum or product of non-negative `int`s: nothing where it overflows, which is undefined.
abbrev int_of : ℕ → Option ℕ
int_of n = if ltb n (2 ^ 31) then some n else none

infixl 5 ◌>>=◌
abbrev ◌>>=◌ : Option ℕ → (ℕ → Option ℕ) → Option ℕ
none >>= f = none
some a >>= f = f a

-- `acc = (acc * 131 + request_id + i) % 1'000'003`
parse_round : ℕ → ℕ → ℕ → Option ℕ
parse_round request_id i acc = do
  scaled ← int_of (acc * 131)
  shifted ← int_of (scaled + request_id)
  total ← int_of (shifted + i)
  some (total % 1_000_003)

-- The loop from round `i` on, with `left` rounds to go.
pub parse_loop : ℕ → ℕ → ℕ → ℕ → Option ℕ
parse_loop request_id zero i acc = some acc
parse_loop request_id (suc left) i acc = elim (parse_round request_id i acc) [
  | none ↦ none
  | some acc' ↦ parse_loop request_id left (i + 1) acc'
]

pub expensive_parse : ℕ → Option ℕ
expensive_parse request_id = parse_loop request_id 100_000 0 0

-- The largest identifier for which no sum of the last round can leave the range of `int`.
abbrev pub max_request_id : ℕ
max_request_id = 2 ^ 31 - 1 - 131 * 1_000_002 - 99_999

parse_round_fits :
    (request_id i acc : ℕ)
    → request_id ≤ max_request_id
    → i < 100_000
    → acc < 1_000_003
    → parse_round request_id i acc ≡ some ((acc * 131 + request_id + i) % 1_000_003)
unfolding parse_round
parse_round_fits request_id i acc h k l = ground arith

parse_loop_fits :
    (request_id left i acc : ℕ)
    → request_id ≤ max_request_id
    → i + left ≤ 100_000
    → acc < 1_000_003
    → (v : ℕ) × (parse_loop request_id left i acc ≡ some v) × (v < 1_000_003)
unfolding parse_loop
parse_loop_fits request_id zero i acc h k l = (acc, refl, l)
parse_loop_fits request_id (suc left) i acc h k l =
    rw (parse_round_fits request_id i acc h (omega arith) l, parse_loop)
      (parse_loop_fits request_id left (i + 1) _ h (omega arith) (omega arith))

-- For identifiers up to `max_request_id` no `int` of the 100000 rounds overflows, and the result is below
-- the modulus.
pub expensive_parse_fits :
    (request_id : ℕ)
    → request_id ≤ max_request_id
    → (v : ℕ) × (expensive_parse request_id ≡ some v) × (v < 1_000_003)
unfolding expensive_parse
expensive_parse_fits request_id h =
    parse_loop_fits request_id 100_000 0 0 h (omega arith) (omega arith)

-- Two rounds for request 7, as the source computes them.
two_rounds : parse_loop 7 2 0 0 ≡ some 925
unfolding parse_loop parse_round
two_rounds = refl
