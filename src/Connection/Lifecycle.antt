-- ===== src/Connection/Lifecycle.antt =====
-- How a connection becomes ready.
use cpp_design_patterns.Prelude.{◌≡◌, inl, inr, List, [], ◌∷◌}
use cpp_design_patterns.Connection.{
  State, disconnected, connecting, authenticating, ready, Connection, Event, connect,
  on_socket_connected, on_bytes_received, make, handle, run,
}
use cpp_design_patterns.Connection.Diagram.{
  Move, dial, reached, accepted, denied, lost_early, lost_auth, lost, handle-Move,
}

-- The first list is what is left of the second when some elements are crossed out.
pub data Within {A : Type 0} : List A → List A → Type 0 where
  nothing : Within [] []
  skip : {x : A} {xs ys : List A} → Within xs ys → Within xs (x ∷ ys)
  keep : {x : A} {xs ys : List A} → Within xs ys → Within (x ∷ xs) (x ∷ ys)

Within-nil : {A : Type 0} (ys : List A) → Within [] ys
Within-nil [] = nothing
Within-nil (y ∷ ys) = skip (Within-nil ys)

Within-tail : {A : Type 0} {x : A} {xs ys : List A} → Within (x ∷ xs) ys → Within xs ys
Within-tail (skip w) = skip (Within-tail w)
Within-tail (keep w) = skip w

-- What a connection in a given state still has to hear, in this order, before it can be ready.
abbrev pub needed : State → List Event
needed disconnected = connect ∷ on_socket_connected ∷ on_bytes_received "AUTH_OK" ∷ []
needed connecting = on_socket_connected ∷ on_bytes_received "AUTH_OK" ∷ []
needed authenticating = on_bytes_received "AUTH_OK" ∷ []
needed ready = []

-- One event takes at most the first thing that is needed.
needed-Move :
    {s t : State} {e : Event} (es : List Event)
    → Move s e t
    → Within (needed t) es
    → Within (needed s) (e ∷ es)
needed-Move es dial w = keep w
needed-Move es reached w = keep w
needed-Move es (accepted h) w = rw h (keep w)
needed-Move es (denied h) w = skip (Within-tail (Within-tail w))
needed-Move es lost_early w = skip (Within-tail w)
needed-Move es lost_auth w = skip (Within-tail (Within-tail w))
needed-Move es lost w = Within-nil _

run-needed :
    (c : Connection) (es : List Event) → (run c es).state ≡ ready → Within (needed c.state) es
unfolding run
run-needed c [] h = rw h nothing
run-needed c (e ∷ es) h = elim (handle-Move c e) [
  | inl (m, _) ↦ needed-Move es m (run-needed (handle c e) es h)
  | inr (k, _) ↦ skip (rw (k) at (run-needed (handle c e) es h))
]

-- A new connection that is ready after some events has heard, in this order, a call of connect,
-- the socket's report and the answer AUTH_OK.
pub ready_needs_auth :
    (es : List Event)
    → (run make es).state ≡ ready
    → Within (connect ∷ on_socket_connected ∷ on_bytes_received "AUTH_OK" ∷ []) es
unfolding make
ready_needs_auth es h = run-needed make es h
