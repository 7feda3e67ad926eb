-- ===== src/Visitor.antt =====
-- examples/visitor/main.cpp: the protocol messages, the three visitors and the loops of `main`.
pub mod Passes
mod Tests
use cpp_design_patterns.Prelude.{ℕ, ◌|>◌, String, ◌<>◌, List, [], ◌∷◌}
use cpp_design_patterns.Prelude.Texts.{size}
use cpp_design_patterns.Prelude.Decimal.{to_string, show_int}
use cpp_design_patterns.Prelude.Int.{ℤ, pos}
use cpp_design_patterns.Log.{Log, log_line}

pub record Connect : Type 0 where
  pub client_id : String
  pub version : ℤ

pub record Publish : Type 0 where
  pub topic : String
  pub payload : String
  pub qos : ℤ

pub record Subscribe : Type 0 where
  pub topic_filter : String

pub record Disconnect : Type 0 where
  pub reason : String

pub data Message : Type 0 where
  connect : Connect → Message
  publish : Publish → Message
  subscribe : Subscribe → Message
  disconnect : Disconnect → Message

-- A visitor has an operation for each type; `visit` selects it.
pub record Visitor {ℓ} (A : Type ℓ) : Type ℓ where
  pub on_connect : Connect → A
  pub on_publish : Publish → A
  pub on_subscribe : Subscribe → A
  pub on_disconnect : Disconnect → A

unfoldable pub visit {ℓ} : {A : Type ℓ} → Visitor A → Message → A
visit v (connect msg) = v.on_connect msg
visit v (publish msg) = v.on_publish msg
visit v (subscribe msg) = v.on_subscribe msg
visit v (disconnect msg) = v.on_disconnect msg

unfoldable pub Serializer : Visitor String
Serializer = record {
  on_connect =
      λ msg. "CONNECT(client=" <> (msg.client_id <> (", v=" <> (show_int msg.version <> ")")));
  on_publish = λ msg. "PUBLISH(topic=" <> (msg.topic <> (", qos=" <> (show_int msg.qos <> ")")));
  on_subscribe = λ msg. "SUBSCRIBE(filter=" <> (msg.topic_filter <> ")");
  on_disconnect = λ msg. "DISCONNECT(reason=" <> (msg.reason <> ")");
}

unfoldable pub MessageLogger : Visitor (Log → Log)
unfolding to_string
MessageLogger = record {
  on_connect = λ msg.
      log_line ("[CONNECT] Client " ∷ msg.client_id ∷ " version " ∷ show_int msg.version ∷ []);
  on_publish = λ msg. log_line (
      "[PUBLISH] Topic "
      ∷ msg.topic
      ∷ " size "
      ∷ to_string (size msg.payload)
      ∷ " qos "
      ∷ show_int msg.qos
      ∷ []);
  on_subscribe = λ msg. log_line ("[SUBSCRIBE] Filter " ∷ msg.topic_filter ∷ []);
  on_disconnect = λ msg. log_line ("[DISCONNECT] Reason: " ∷ msg.reason ∷ []);
}

unfoldable pub MessageDispatcher : Visitor String
MessageDispatcher = record {
  on_connect = λ msg. "CONNACK: accepted";
  on_publish = λ msg. "PUBACK: msg_id=123";
  on_subscribe = λ msg. "SUBACK: granted_qos=1";
  on_disconnect = λ msg. "Closing connection";
}

-- The three loops of `main`.
unfoldable pub serialize_all : List Message → Log → Log
unfolding visit Serializer
serialize_all [] log = log
serialize_all (msg ∷ messages) log =
    serialize_all messages (log_line (visit Serializer msg ∷ []) log)

unfoldable pub log_all : List Message → Log → Log
unfolding visit MessageLogger
log_all [] log = log
log_all (msg ∷ messages) log = log_all messages (visit MessageLogger msg log)

unfoldable pub dispatch_all : List Message → Log → Log
unfolding visit Serializer MessageDispatcher
dispatch_all [] log = log
dispatch_all (msg ∷ messages) log =
    dispatch_all messages
      (log_line (visit Serializer msg ∷ " => " ∷ visit MessageDispatcher msg ∷ []) log)

unfoldable pub run_main : List Message → Log → Log
unfolding serialize_all log_all dispatch_all
run_main messages log = dispatch_all messages (
    log_line ("\n--- Dispatch ---" ∷ []) (
      log_all messages (
        log_line ("\n--- Logging ---" ∷ [])
          (serialize_all messages (log_line ("\n--- Serialization ---" ∷ []) log)))))

abbrev pub main_messages : List Message
main_messages =
    connect (record { client_id = "client-001"; version = pos 2 })
    ∷ publish (record { topic = "sensors/temp"; payload = "22.5"; qos = pos 1 })
    ∷ subscribe (record { topic_filter = "sensors/#" })
    ∷ publish (record { topic = "sensors/humidity"; payload = "45.2"; qos = pos 0 })
    ∷ disconnect (record { reason = "client_shutdown" })
    ∷ []

unfoldable pub main : Log → Log
unfolding run_main
main log =
    log
    |> log_line
        ("Visitor example: handle protocol message variants with std::variant + std::visit." ∷ [])
    |> run_main main_messages
