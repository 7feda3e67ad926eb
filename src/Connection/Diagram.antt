-- ===== src/Connection/Diagram.antt =====
-- The transition diagram of the connection, written without its code.
use cpp_design_patterns.Prelude.{
  String, ◌+◌, ◌≡◌, ◌⊎◌, refl, [], ◌∷◌, ◌++◌, length, length-append, ==_iff, ◌==◌, string_eq,
  Bool-cases, inl, inr, arith, ◌↔◌, sym, subst, ◌∙◌,
}
use cpp_design_patterns.Connection.{
  State, disconnected, connecting, authenticating, ready, Connection, Event, connect,
  on_socket_connected, on_bytes_received, on_socket_closed, dispatch, handle,
}

-- The moves of the diagram, each with the event that makes it.
pub data Move : State → Event → State → Type 0 where
  dial : Move disconnected connect connecting
  reached : Move connecting on_socket_connected authenticating
  accepted : {b : String} → b ≡ "AUTH_OK" → Move authenticating (on_bytes_received b) ready
  denied : {b : String} → b ≡ "AUTH_FAIL" → Move authenticating (on_bytes_received b) disconnected
  lost_early : {r : String} → Move connecting (on_socket_closed r) disconnected
  lost_auth : {r : String} → Move authenticating (on_socket_closed r) disconnected
  lost : {r : String} → Move ready (on_socket_closed r) disconnected

ruleset moves = (dial, reached, accepted, denied, lost_early, lost_auth, lost)

-- What the handlers of a state do: a move of the diagram and two lines, or no move and one line.
abbrev Handled : State → Event → Connection → Connection → Type 0
Handled s e c d =
    (Move s e d.state × (length d.log ≡ length c.log + 2))
    ⊎ ((d.state ≡ s) × (length d.log ≡ length c.log + 1))

two_lines :
    (c : Connection) (a b : String) → length ((c.log ++ a ∷ []) ++ b ∷ []) ≡ length c.log + 2
two_lines c a b =
    omega (arith, length-append (c.log ++ a ∷ []) (b ∷ []), length-append c.log (a ∷ []))

one_line : (c : Connection) (a : String) → length (c.log ++ a ∷ []) ≡ length c.log + 1
one_line c a = length-append c.log (a ∷ [])

dispatch-Handled :
    (s : State) (e : Event) (c : Connection) → c.state ≡ s → Handled s e c (dispatch s e c)
unfolding handle
dispatch-Handled disconnected connect c h = inl (dial, two_lines c _ _)
dispatch-Handled connecting on_socket_connected c h = inl (reached, two_lines c _ _)
dispatch-Handled connecting (on_socket_closed r) c h = inl (lost_early, two_lines c _ _)
dispatch-Handled authenticating (on_bytes_received b) c h = elim (Bool-cases (b == "AUTH_OK")) [
  | inl y ↦ rw y (inl (accepted ((==_iff b "AUTH_OK").0 y), two_lines c _ _))
  | inr n ↦ rw n (elim (Bool-cases (b == "AUTH_FAIL")) [
    | inl y ↦ rw y (inl (denied ((==_iff b "AUTH_FAIL").0 y), two_lines c _ _))
    | inr m ↦ rw m (inr (h, one_line c _))
  ])
]
dispatch-Handled authenticating (on_socket_closed r) c h = inl (lost_auth, two_lines c _ _)
dispatch-Handled ready (on_socket_closed r) c h = inl (lost, two_lines c _ _)
dispatch-Handled _ _ c h = inr (h, one_line c _)

-- An event either makes a move of the diagram, and then two lines are logged, or leaves the state
-- alone, and then one line is logged.
pub handle-Move :
    (c : Connection) (e : Event)
    → (Move c.state e (handle c e).state × (length (handle c e).log ≡ length c.log + 2))
      ⊎ (((handle c e).state ≡ c.state) × (length (handle c e).log ≡ length c.log + 1))
unfolding handle
handle-Move c e = dispatch-Handled c.state e c refl

Move-dispatch :
    {s t : State} {e : Event} → Move s e t → (c : Connection) → (dispatch s e c).state ≡ t
unfolding handle
Move-dispatch dial c = refl
Move-dispatch reached c = refl
Move-dispatch (accepted h) c = rw h refl
Move-dispatch (denied h) c = rw h refl
Move-dispatch lost_early c = refl
Move-dispatch lost_auth c = refl
Move-dispatch lost c = refl

-- Every move of the diagram is made by its event.
pub Move-handle :
    (c : Connection) (e : Event) (t : State) → Move c.state e t → (handle c e).state ≡ t
unfolding handle
Move-handle c e t m = Move-dispatch m c

-- A move changes the state.
Move-changes : {s t : State} {e : Event} → Move s e t → ¬ (t ≡ s)
Move-changes dial = λ h. absurd (cc)
Move-changes reached = λ h. absurd (cc)
Move-changes (accepted _) = λ h. absurd (cc)
Move-changes (denied _) = λ h. absurd (cc)
Move-changes lost_early = λ h. absurd (cc)
Move-changes lost_auth = λ h. absurd (cc)
Move-changes lost = λ h. absurd (cc)

two_lines_moved :
    (c : Connection) (e : Event)
    → length (handle c e).log ≡ length c.log + 2
    → Move c.state e (handle c e).state
two_lines_moved c e h = elim (handle-Move c e) [
  | inl (m, _) ↦ m
  | inr (_, one) ↦ absurd (omega arith)
]

-- The diagram is exact. An event takes a connection to a state by a move of the diagram if and only if
-- handling it ends there and logs two lines; otherwise it leaves the state alone and logs one line.
pub handle_exact :
    (c : Connection) (e : Event) (t : State)
    → (Move c.state e t ↔ (((handle c e).state ≡ t) × (length (handle c e).log ≡ length c.log + 2)))
      × ((length (handle c e).log ≡ length c.log + 2)
          ⊎ (((handle c e).state ≡ c.state) × (length (handle c e).log ≡ length c.log + 1)))
handle_exact c e t = (
  (
    λ m. (
      Move-handle c e t m,
      elim (handle-Move c e) [
        | inl (_, two) ↦ two
        | inr (same, _) ↦ absurd (Move-changes m (sym (Move-handle c e t m) ∙ same))
      ],
    ),
    λ (there, two). subst (λ s. Move c.state e s) there (two_lines_moved c e two),
  ),
  elim (handle-Move c e) [ inl (_, two) ↦ inl two | inr still ↦ inr still ],
)
