-- ===== src/Strategy.antt =====
-- examples/strategy/main.cpp: the router and its two routing strategies. A strategy keeps a state of
-- its own and gives the position of the backend that it chooses, where the source gives a reference
-- into the vector; `none` stands for the undefined behaviour of a choice among no backends. Loads
-- and work are non-negative `int`s whose sums stay in range; `next_` is a 64-bit `size_t`.
pub mod Policies
pub mod Load
pub mod Main
mod Tests
use cpp_design_patterns.Prelude.{
  ℕ, zero, suc, ◌+◌, ◌%◌, ◌^◌, ◌<◌, ◌≡◌, String, List, [], ◌∷◌, Bool, true, false, Option, none,
  some, length, get_elem?, set, ltb, eqb, if◌then◌else◌,
}
use cpp_design_patterns.Prelude.Decimal.{to_string}
use cpp_design_patterns.Log.{Log, log_line}

pub record Backend : Type 0 where
  pub name : String
  pub in_flight : ℕ

-- The interface: an operation on the strategy's state, and what a router relies on, that among some
-- backends one is chosen.
pub record RoutingStrategy : Type 1 where
  pub State : Type 0
  pub choose_backend : State → List Backend → State × Option ℕ
  pub chooses :
      (s : State) (backends : List Backend)
      → 0 < length backends
      → (i : ℕ) × ((choose_backend s backends).1 ≡ some i) × (i < length backends)

unfoldable pub round_robin : ℕ → List Backend → ℕ × Option ℕ
round_robin next_ backends =
    if eqb (length backends) 0
    then (next_, none)
    else ((next_ + 1) % 2 ^ 64, some (next_ % length backends))

-- `std::min_element` by `in_flight` after a first backend: the best position so far and its load,
-- the position of the rest's head, and the rest. Only a smaller load replaces the best.
unfoldable pub min_element : ℕ → ℕ → ℕ → List Backend → ℕ
min_element best load i [] = best
min_element best load i (b ∷ rest) =
    let smaller = ltb b.in_flight load in
    min_element (if smaller then i else best) (if smaller then b.in_flight else load) (i + 1) rest

unfoldable pub least_loaded : List Backend → Option ℕ
unfolding min_element
least_loaded [] = none
least_loaded (b ∷ rest) = some (min_element 0 b.in_flight 1 rest)

-- `backend.in_flight += simulated_work` at a position.
unfoldable pub add_work : List Backend → ℕ → ℕ → List Backend
add_work [] i work = []
add_work (b ∷ bs) zero work = record b { in_flight = b.in_flight + work } ∷ bs
add_work (b ∷ bs) (suc i) work = b ∷ add_work bs i work

pub record Request : Type 0 where
  pub request_id : ℕ
  pub simulated_work : ℕ

unfoldable pub handle_request :
    (strategy : RoutingStrategy)
    → Request
    → strategy.State × List Backend × Log
    → strategy.State × List Backend × Log
unfolding add_work to_string
handle_request strategy request (s, backends, log) =
    let (s', choice) = strategy.choose_backend s backends in
    elim choice [
      | none ↦ (s', backends, log)
      | some i ↦
          let backends' = add_work backends i request.simulated_work in
          (
            s',
            backends',
            elim (get_elem? backends' i) [
              | none ↦ log
              | some backend ↦
                  log_line
                    ("request="
                      ∷ to_string request.request_id
                      ∷ " -> "
                      ∷ backend.name
                      ∷ " new_in_flight="
                      ∷ to_string backend.in_flight
                      ∷ [])
                    log
            ],
          )
    ]

-- Requests one behind the other, as in `run_demo`.
unfoldable pub handle_requests :
    (strategy : RoutingStrategy)
    → List Request
    → strategy.State × List Backend × Log
    → strategy.State × List Backend × Log
unfolding handle_request
handle_requests strategy [] s = s
handle_requests strategy (request ∷ requests) s =
    handle_requests strategy requests (handle_request strategy request s)

abbrev pub make_backends : List Backend
make_backends =
    record { name = "api-a"; in_flight = 2 }
    ∷ record { name = "api-b"; in_flight = 5 }
    ∷ record { name = "api-c"; in_flight = 1 }
    ∷ []
