-- ===== src/Connection/Tests.antt =====
-- The connection at the events of the source's `main`.
use cpp_design_patterns.Prelude.{◌+◌, ◌≡◌, ◌⊎◌, ◌↔◌, length, refl, List, [], ◌∷◌, string_eq}
use cpp_design_patterns.Connection.{
  disconnected, connecting, Event, connect, authenticate, send_query, on_socket_connected,
  on_bytes_received, name, make, handle, run, main,
}
use cpp_design_patterns.Connection.Diagram.{Move, handle_exact}
use cpp_design_patterns.Connection.Lifecycle.{Within, ready_needs_auth}

abbrev session : List Event
session =
    send_query "SELECT 1"
    ∷ connect
    ∷ send_query "SELECT * FROM users"
    ∷ on_socket_connected
    ∷ authenticate "token-abc"
    ∷ on_bytes_received "AUTH_OK"
    ∷ send_query "SELECT * FROM users"
    ∷ []

main_log :
    (main []).log
    ≡ "State example: connection behavior depends on current lifecycle state."
      ∷ "dropping query while disconnected: SELECT 1" ∷ "starting async connect"
      ∷ "state transition: Disconnected -> Connecting"
      ∷ "cannot send query until connected: SELECT * FROM users"
      ∷ "tcp connected; beginning authentication" ∷ "state transition: Connecting -> Authenticating"
      ∷ "sending auth token=token-abc and waiting for server response" ∷ "auth succeeded"
      ∷ "state transition: Authenticating -> Ready" ∷ "executing query: SELECT * FROM users"
      ∷ "socket closed: server hung up" ∷ "state transition: Ready -> Disconnected" ∷ []
unfolding main run make handle name
main_log = refl

closed_again : (main []).state ≡ disconnected
unfolding main run make handle
closed_again = refl

ready_needs_auth_example :
    Within (connect ∷ on_socket_connected ∷ on_bytes_received "AUTH_OK" ∷ []) session
unfolding run make handle
ready_needs_auth_example = ready_needs_auth session refl

handle_exact_example :
    (Move disconnected connect connecting ↔ (
      ((handle make connect).state ≡ connecting)
      × (length (handle make connect).log ≡ length make.log + 2)))
    × ((length (handle make connect).log ≡ length make.log + 2)
        ⊎ (((handle make connect).state ≡ make.state)
            × (length (handle make connect).log ≡ length make.log + 1)))
unfolding make
handle_exact_example = handle_exact make connect connecting
