-- ===== src/Connection.antt =====
-- examples/state/main.cpp: `Connection` and its four states. The state object is a value of a data
-- type, a virtual call is a match on it; the log is part of the connection.
mod Diagram
pub mod Lifecycle
mod Tests
use cpp_design_patterns.Prelude.{String, List, [], ◌∷◌, ◌==◌, string_eq, if◌then◌else◌}
use cpp_design_patterns.Log.{Log, log_line}

pub data State : Type 0 where
  disconnected connecting authenticating ready : State

pub record Connection : Type 0 where
  pub state : State
  pub log : Log

-- The calls of a user and of the network.
pub data Event : Type 0 where
  connect : Event
  authenticate : String → Event
  send_query : String → Event
  on_socket_connected : Event
  on_bytes_received : String → Event
  on_socket_closed : String → Event

unfoldable pub name : State → String
name disconnected = "Disconnected"
name connecting = "Connecting"
name authenticating = "Authenticating"
name ready = "Ready"

-- `Connection::Connection`
unfoldable pub make : Connection
make = record { state = disconnected; log = [] }

abbrev say : List String → Connection → Connection
say parts c = record c { log = log_line parts c.log }

unfoldable pub transition_to : State → Connection → Connection
transition_to next c =
    record (say ("state transition: " ∷ name c.state ∷ " -> " ∷ name next ∷ []) c) { state = next }

unfoldable pub on_disconnected : Event → Connection → Connection
on_disconnected connect c = transition_to connecting (say ("starting async connect" ∷ []) c)
on_disconnected (authenticate _) c = say ("cannot authenticate before connecting" ∷ []) c
on_disconnected (send_query sql) c = say ("dropping query while disconnected: " ∷ sql ∷ []) c
on_disconnected on_socket_connected c =
    say ("unexpected socket_connected while disconnected" ∷ []) c
on_disconnected (on_bytes_received bytes) c =
    say ("unexpected bytes while disconnected: " ∷ bytes ∷ []) c
on_disconnected (on_socket_closed reason) c = say ("socket already closed: " ∷ reason ∷ []) c

unfoldable pub on_connecting : Event → Connection → Connection
on_connecting connect c = say ("already connecting" ∷ []) c
on_connecting (authenticate _) c = say ("cannot authenticate until socket connects" ∷ []) c
on_connecting (send_query sql) c = say ("cannot send query until connected: " ∷ sql ∷ []) c
on_connecting on_socket_connected c =
    transition_to authenticating (say ("tcp connected; beginning authentication" ∷ []) c)
on_connecting (on_bytes_received bytes) c = say ("dropping bytes while connecting: " ∷ bytes ∷ []) c
on_connecting (on_socket_closed reason) c =
    transition_to disconnected (say ("connect failed: " ∷ reason ∷ []) c)

unfoldable pub on_authenticating : Event → Connection → Connection
on_authenticating connect c = say ("connection already established; waiting for auth" ∷ []) c
on_authenticating (authenticate token) c =
    say ("sending auth token=" ∷ token ∷ " and waiting for server response" ∷ []) c
on_authenticating (send_query sql) c = say ("cannot run query before auth completes: " ∷ sql ∷ []) c
on_authenticating on_socket_connected c = say ("socket already connected; waiting for auth" ∷ []) c
on_authenticating (on_bytes_received bytes) c =
    if bytes == "AUTH_OK"
    then transition_to ready (say ("auth succeeded" ∷ []) c)
    else if bytes == "AUTH_FAIL"
    then transition_to disconnected (say ("auth failed" ∷ []) c)
    else say ("ignoring unexpected auth response: " ∷ bytes ∷ []) c
on_authenticating (on_socket_closed reason) c =
    transition_to disconnected (say ("socket closed during auth: " ∷ reason ∷ []) c)

unfoldable pub on_ready : Event → Connection → Connection
on_ready connect c = say ("connection already ready" ∷ []) c
on_ready (authenticate _) c = say ("already authenticated" ∷ []) c
on_ready (send_query sql) c = say ("executing query: " ∷ sql ∷ []) c
on_ready on_socket_connected c = say ("socket already connected" ∷ []) c
on_ready (on_bytes_received bytes) c = say ("received server bytes: " ∷ bytes ∷ []) c
on_ready (on_socket_closed reason) c =
    transition_to disconnected (say ("socket closed: " ∷ reason ∷ []) c)

-- The virtual call on `state_`.
unfoldable pub dispatch : State → Event → Connection → Connection
dispatch disconnected = on_disconnected
dispatch connecting = on_connecting
dispatch authenticating = on_authenticating
dispatch ready = on_ready

unfoldable pub handle : Connection → Event → Connection
unfolding dispatch on_disconnected on_connecting on_authenticating on_ready transition_to
handle c e = dispatch c.state e c

unfoldable pub run : Connection → List Event → Connection
run c [] = c
run c (e ∷ es) = run (handle c e) es

unfoldable pub main : Log → Connection
unfolding make run
main log =
    let banner : String =
      "State example: connection behavior depends on current lifecycle state." in
    run (record make { log = log_line (banner ∷ []) log })
      (send_query "SELECT 1"
        ∷ connect
        ∷ send_query "SELECT * FROM users"
        ∷ on_socket_connected
        ∷ authenticate "token-abc"
        ∷ on_bytes_received "AUTH_OK"
        ∷ send_query "SELECT * FROM users"
        ∷ on_socket_closed "server hung up"
        ∷ [])
