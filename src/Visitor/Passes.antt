-- ===== src/Visitor/Passes.antt =====
-- The passes of `main` over its messages, and what a message's text says about its type.
use Prim.Native.Char.{Char, code}
use text.Mathlib.TextLemmas.{cons-append}
use cpp_design_patterns.Prelude.{
  ◌≡◌, refl, sym, ap, ◌∙◌, String, ◌<>◌, List, [], ◌∷◌, ◌++◌, map, append_assoc, append-nil, Option,
  none, some, eqb, if◌then◌else◌,
}
use cpp_design_patterns.Prelude.Texts.{size}
use cpp_design_patterns.Prelude.Decimal.{to_string, show_int}
use cpp_design_patterns.Log.{Log, line}
use cpp_design_patterns.Visitor.{
  Message, connect, publish, subscribe, disconnect, visit, Serializer, MessageLogger,
  MessageDispatcher, serialize_all, log_all, dispatch_all, run_main,
}

-- The line of the second pass.
abbrev pub log_text : Message → String
log_text (connect msg) =
    line ("[CONNECT] Client " ∷ msg.client_id ∷ " version " ∷ show_int msg.version ∷ [])
log_text (publish msg) = line (
    "[PUBLISH] Topic "
    ∷ msg.topic
    ∷ " size "
    ∷ to_string (size msg.payload)
    ∷ " qos "
    ∷ show_int msg.qos
    ∷ [])
log_text (subscribe msg) = line ("[SUBSCRIBE] Filter " ∷ msg.topic_filter ∷ [])
log_text (disconnect msg) = line ("[DISCONNECT] Reason: " ∷ msg.reason ∷ [])

serialize_all_lem :
    (messages : List Message) (log : Log)
    → serialize_all messages log ≡ log ++ map (visit Serializer) messages
unfolding serialize_all
serialize_all_lem [] log = sym (append-nil log)
serialize_all_lem (msg ∷ messages) log =
    serialize_all_lem messages _
    ∙ append_assoc log (visit Serializer msg ∷ []) (map (visit Serializer) messages)

log_all_lem :
    (messages : List Message) (log : Log) → log_all messages log ≡ log ++ map log_text messages
unfolding log_all visit MessageLogger
log_all_lem [] log = sym (append-nil log)
log_all_lem (connect msg ∷ messages) log =
    log_all_lem messages _ ∙ append_assoc log (log_text (connect msg) ∷ []) (map log_text messages)
log_all_lem (publish msg ∷ messages) log =
    log_all_lem messages _ ∙ append_assoc log (log_text (publish msg) ∷ []) (map log_text messages)
log_all_lem (subscribe msg ∷ messages) log =
    log_all_lem messages _
    ∙ append_assoc log (log_text (subscribe msg) ∷ []) (map log_text messages)
log_all_lem (disconnect msg ∷ messages) log =
    log_all_lem messages _
    ∙ append_assoc log (log_text (disconnect msg) ∷ []) (map log_text messages)

-- The line of the third pass.
abbrev pub exchange : Message → String
exchange msg = visit Serializer msg <> (" => " <> visit MessageDispatcher msg)

dispatch_all_lem :
    (messages : List Message) (log : Log) → dispatch_all messages log ≡ log ++ map exchange messages
unfolding dispatch_all
dispatch_all_lem [] log = sym (append-nil log)
dispatch_all_lem (msg ∷ messages) log =
    dispatch_all_lem messages _ ∙ append_assoc log (exchange msg ∷ []) (map exchange messages)

-- `main` on any messages prints three passes over them, each in their order, with a line for each
-- message: its text; its kind with its data; its text with the response.
pub run_main_lem :
    (messages : List Message) (log : Log)
    → run_main messages log
      ≡ log
        ++ (("\n--- Serialization ---" ∷ map (visit Serializer) messages)
            ++ (("\n--- Logging ---" ∷ map log_text messages)
                ++ ("\n--- Dispatch ---" ∷ map exchange messages)))
unfolding run_main
run_main_lem messages log = simp (serialize_all_lem, log_all_lem, dispatch_all_lem, append_assoc)

first_of : String → Option Char
first_of String.[] = none
first_of (String.◌∷◌ c s) = some c

-- The response by the first letter of the text.
respond : Option Char → String
respond none = ""
respond (some c) =
    if eqb (code c) b'C'
    then "CONNACK: accepted"
    else if eqb (code c) b'P'
    then "PUBACK: msg_id=123"
    else if eqb (code c) b'S'
    then "SUBACK: granted_qos=1"
    else "Closing connection"

first_of-append : (c : Char) (s t : String) → first_of (String.◌∷◌ c s <> t) ≡ some c
unfolding first_of
first_of-append c s t = rw (cons-append c s t) refl

respond-Serializer :
    (msg : Message) → respond (first_of (visit Serializer msg)) ≡ visit MessageDispatcher msg
unfolding visit Serializer MessageDispatcher respond
respond-Serializer (connect msg) = ap respond (first_of-append "C" "ONNECT(client=" _)
respond-Serializer (publish msg) = ap respond (first_of-append "P" "UBLISH(topic=" _)
respond-Serializer (subscribe msg) = ap respond (first_of-append "S" "UBSCRIBE(filter=" _)
respond-Serializer (disconnect msg) = ap respond (first_of-append "D" "ISCONNECT(reason=" _)

-- Two messages with the same text get the same response.
pub same_text_same_response :
    (msg other : Message)
    → visit Serializer msg ≡ visit Serializer other
    → visit MessageDispatcher msg ≡ visit MessageDispatcher other
same_text_same_response msg other e =
    sym (respond-Serializer msg) ∙ ap (λ s. respond (first_of s)) e ∙ respond-Serializer other
