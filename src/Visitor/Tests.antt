-- ===== src/Visitor/Tests.antt =====
-- The run of examples/visitor/main.cpp's `main`.
use cpp_design_patterns.Prelude.{◌≡◌, refl, String, List, [], ◌∷◌}
use cpp_design_patterns.Prelude.Texts.{size}
use cpp_design_patterns.Prelude.Decimal.{to_string}
use cpp_design_patterns.Visitor.{
  visit, Serializer, MessageLogger, MessageDispatcher, serialize_all, log_all, dispatch_all,
  run_main, main,
}

abbrev main_lines : List String
main_lines =
    "Visitor example: handle protocol message variants with std::variant + std::visit."
    ∷ "\n--- Serialization ---" ∷ "CONNECT(client=client-001, v=2)"
    ∷ "PUBLISH(topic=sensors/temp, qos=1)" ∷ "SUBSCRIBE(filter=sensors/#)"
    ∷ "PUBLISH(topic=sensors/humidity, qos=0)" ∷ "DISCONNECT(reason=client_shutdown)"
    ∷ "\n--- Logging ---" ∷ "[CONNECT] Client client-001 version 2"
    ∷ "[PUBLISH] Topic sensors/temp size 4 qos 1" ∷ "[SUBSCRIBE] Filter sensors/#"
    ∷ "[PUBLISH] Topic sensors/humidity size 4 qos 0" ∷ "[DISCONNECT] Reason: client_shutdown"
    ∷ "\n--- Dispatch ---" ∷ "CONNECT(client=client-001, v=2) => CONNACK: accepted"
    ∷ "PUBLISH(topic=sensors/temp, qos=1) => PUBACK: msg_id=123"
    ∷ "SUBSCRIBE(filter=sensors/#) => SUBACK: granted_qos=1"
    ∷ "PUBLISH(topic=sensors/humidity, qos=0) => PUBACK: msg_id=123"
    ∷ "DISCONNECT(reason=client_shutdown) => Closing connection" ∷ []

main_run : main [] ≡ main_lines
unfolding main run_main serialize_all log_all dispatch_all visit Serializer MessageLogger
    MessageDispatcher size to_string
main_run = refl
