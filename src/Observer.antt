-- ===== src/Observer.antt =====
-- examples/observer/main.cpp: the dispatcher and the order service. An event's C++ type is its
-- constructor; a handler for events acts on the program's state `S`.
pub mod Order
mod Tests
use cpp_design_patterns.Prelude.{
  ℕ, zero, suc, ◌+◌, ◌|>◌, ◌≡◌, ◌↔◌, refl, String, List, [], ◌∷◌, ◌++◌, Bool, true, false, Option,
  none, some, Eq, arith,
}
use cpp_design_patterns.Prelude.Dict.{Dict, find, insert}
use cpp_design_patterns.Prelude.Decimal.{to_string, show_int}
use cpp_design_patterns.Prelude.Int.{ℤ, pos}
use cpp_design_patterns.Log.{Log, log_line}

pub data Event : Type 0 where
  order_placed : (order_id : ℤ) (customer : String) → Event
  order_cancelled : (order_id : ℤ) (reason : String) → Event

-- `std::type_index` of an event's type.
pub data TypeIndex : Type 0 where
  placed_type : TypeIndex
  cancelled_type : TypeIndex

abbrev pub type_of : Event → TypeIndex
type_of (order_placed order_id customer) = placed_type
type_of (order_cancelled order_id reason) = cancelled_type

abbrev pub same_type : TypeIndex → TypeIndex → Bool
same_type placed_type placed_type = true
same_type cancelled_type cancelled_type = true
same_type _ _ = false

pub same_type_iff : (t u : TypeIndex) → (same_type t u ≡ true) ↔ (t ≡ u)
same_type_iff placed_type placed_type = ground arith
same_type_iff cancelled_type cancelled_type = ground arith
same_type_iff placed_type cancelled_type = ground arith
same_type_iff cancelled_type placed_type = ground arith

instance abbrev pub type_eq : Eq TypeIndex
type_eq = record { same = same_type; same_iff = same_type_iff }

module _ (S : Type 0) where
  abbrev pub Handler : Type 0
  Handler = Event → S → S

  abbrev pub Dispatcher : Type 0
  Dispatcher = Dict TypeIndex (List Handler)

  -- The vector of a type, and the map with it: an empty one is created when there is none.
  unfoldable pub get_handlers : TypeIndex → Dispatcher → List Handler × Dispatcher
  unfolding find insert
  get_handlers tid d = elim (find tid d) [ some hs ↦ (hs, d) | none ↦ ([], insert tid [] d) ]

  unfoldable pub subscribe : TypeIndex → Handler → Dispatcher → Dispatcher
  unfolding get_handlers
  subscribe tid handler d =
      let (hs, d') = get_handlers tid d in insert tid (hs ++ (handler ∷ [])) d'

  abbrev pub call_each : List Handler → Event → S → S
  call_each [] event s = s
  call_each (h ∷ hs) event s = call_each hs event (h event s)

  unfoldable pub publish : Event → Dispatcher × S → Dispatcher × S
  unfolding get_handlers
  publish event (d, s) = let (hs, d') = get_handlers (type_of event) d in (d', call_each hs event s)

-- `OrderService` on the dispatcher of a program whose handlers act on the log.
pub record OrderService : Type 0 where
  pub next_order_id_ : ℕ

abbrev pub new_service : OrderService
new_service = record { next_order_id_ = 1001 }

unfoldable pub place_order :
    String → OrderService × (Dispatcher Log × Log) → OrderService × (Dispatcher Log × Log)
unfolding publish to_string
place_order customer (service, (d, log)) =
    let id = service.next_order_id_ in
    (
      record { next_order_id_ = id + 1 },
      publish Log (order_placed (pos id) customer)
          (d, log_line ("order service: placed order=" ∷ to_string id ∷ []) log),
    )

unfoldable pub cancel_order :
    ℤ → String → OrderService × (Dispatcher Log × Log) → OrderService × (Dispatcher Log × Log)
unfolding publish
cancel_order order_id reason (service, (d, log)) = (
  service,
  publish Log (order_cancelled order_id reason)
      (d, log_line ("order service: cancelling order=" ∷ show_int order_id ∷ []) log),
)

-- The two lambdas of `main`: a handler is only called with events of its type.
unfoldable pub metrics : Handler Log
metrics event log = log_line ("  [placed] metrics: orders_total += 1" ∷ []) log

unfoldable pub inventory : Handler Log
inventory (order_cancelled order_id reason) log =
    log_line ("  [cancelled] inventory: returning items for order=" ∷ show_int order_id ∷ []) log
inventory (order_placed order_id customer) log = log

unfoldable pub main : Log → OrderService × (Dispatcher Log × Log)
unfolding subscribe metrics inventory place_order cancel_order
main log =
    log
    |> log_line ("Observer example: Simple Scalable Dispatcher (std::any)." ∷ [])
    |> (λ log. (
      new_service,
      (subscribe Log cancelled_type inventory (subscribe Log placed_type metrics []), log),
    ))
    |> place_order "alice"
    |> cancel_order (pos 1001) "customer changed mind"
