-- ===== src/Observer/Tests.antt =====
-- The run of examples/observer/main.cpp's `main`, and a program of subscriptions and events.
use cpp_design_patterns.Prelude.{ℕ, ◌≡◌, refl, List, [], ◌∷◌}
use cpp_design_patterns.Prelude.Dict.{find, insert}
use cpp_design_patterns.Prelude.Decimal.{to_string}
use cpp_design_patterns.Prelude.Int.{pos}
use cpp_design_patterns.Observer.{
  order_placed, placed_type, cancelled_type, Handler, get_handlers, subscribe, publish, place_order,
  cancel_order, metrics, inventory, main,
}
use cpp_design_patterns.Observer.Order.{Action, subscribes, publishes, run, dispatcher-Refines}

main_run :
    (main []).1.1
    ≡ "Observer example: Simple Scalable Dispatcher (std::any)."
      ∷ "order service: placed order=1001" ∷ "  [placed] metrics: orders_total += 1"
      ∷ "order service: cancelling order=1001"
      ∷ "  [cancelled] inventory: returning items for order=1001" ∷ []
unfolding main metrics inventory cancel_order place_order publish subscribe get_handlers find insert
    to_string
main_run = refl

-- Handlers that add a digit to the state.
abbrev adds : ℕ → Handler (List ℕ)
adds n event s = n ∷ s

abbrev actions : List (Action (List ℕ))
actions =
    publishes (order_placed (pos 1) "a")
    ∷ subscribes placed_type (adds 1)
    ∷ subscribes cancelled_type (adds 2)
    ∷ subscribes placed_type (adds 3)
    ∷ publishes (order_placed (pos 2) "b")
    ∷ []

dispatcher-Refines_example : (run (List ℕ) actions ([], [])).1 ≡ 3 ∷ 1 ∷ []
dispatcher-Refines_example = dispatcher-Refines (List ℕ) actions []
