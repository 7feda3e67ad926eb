-- ===== src/Observer/Order.antt =====
-- The dispatcher against a plain list of subscriptions: which handlers an event reaches, and in
-- which order.
use cpp_design_patterns.Prelude.{
  ◌≡◌, refl, sym, ap, subst, ◌∙◌, inl, inr, List, [], ◌∷◌, map, ◌++◌, append-nil, Bool-cases,
  Option, none, some, Option-cases, if◌then◌else◌, ◌==◌, ==_iff,
}
use cpp_design_patterns.Prelude.Dict.{find, insert, find-insert}
use cpp_design_patterns.Observer.{
  Event, TypeIndex, type_of, type_eq, Handler, Dispatcher, get_handlers, subscribe, call_each,
  publish,
}

module _ (S : Type 0) where
  pub data Action : Type 0 where
    subscribes : TypeIndex → Handler S → Action
    publishes : Event → Action

  -- A program's calls on a dispatcher.
  unfoldable pub run : List Action → Dispatcher S × S → Dispatcher S × S
  unfolding subscribe publish
  run [] s = s
  run (subscribes tid handler ∷ actions) (d, s) = run actions (subscribe S tid handler d, s)
  run (publishes event ∷ actions) (d, s) = run actions (publish S event (d, s))

  -- The handlers of one type, in the order in which they subscribed.
  abbrev pub matching : TypeIndex → List (TypeIndex × Handler S) → List (Handler S)
  matching tid [] = []
  matching tid ((t, h) ∷ subs) = if t == tid then h ∷ matching tid subs else matching tid subs

  -- Which handlers are to be called with which events, in order, when the subscriptions so far are listed.
  abbrev pub deliveries : List Action → List (TypeIndex × Handler S) → List (Handler S × Event)
  deliveries [] subs = []
  deliveries (subscribes tid handler ∷ actions) subs =
      deliveries actions (subs ++ ((tid, handler) ∷ []))
  deliveries (publishes event ∷ actions) subs =
      map (λ h. (h, event)) (matching (type_of event) subs) ++ deliveries actions subs

  -- The state after some deliveries.
  abbrev pub delivered : List (Handler S × Event) → S → S
  delivered [] s = s
  delivered ((h, event) ∷ rest) s = delivered rest (h event s)

  call_each-delivered :
      (hs : List (Handler S)) (event : Event) (rest : List (Handler S × Event)) (s : S)
      → delivered rest (call_each S hs event s) ≡ delivered (map (λ h. (h, event)) hs ++ rest) s
  call_each-delivered [] event rest s = refl
  call_each-delivered (h ∷ hs) event rest s = call_each-delivered hs event rest (h event s)

  abbrev handlers_of : Option (List (Handler S)) → List (Handler S)
  handlers_of none = []
  handlers_of (some hs) = hs

  -- A dispatcher holds the handlers of a list of subscriptions, type by type.
  abbrev Holds : List (TypeIndex × Handler S) → Dispatcher S → Type 0
  Holds subs d = (tid : TypeIndex) → handlers_of (find tid d) ≡ matching tid subs

  record Got (tid : TypeIndex) (d : Dispatcher S) (out : List (Handler S) × Dispatcher S)
      : Type 0 where
    handlers : out.0 ≡ handlers_of (find tid d)
    others : (u : TypeIndex) → handlers_of (find u out.1) ≡ handlers_of (find u d)

  empty_vector :
      (tid u : TypeIndex) (d : Dispatcher S)
      → find tid d ≡ none
      → handlers_of (find u (insert tid [] d)) ≡ handlers_of (find u d)
  empty_vector tid u d e = elim (Bool-cases (tid == u)) [
    | inr n ↦ rw (find-insert tid u [] d, n) refl
    | inl y ↦
        rw (find-insert tid u [] d, y)
          (subst (λ t. [] ≡ handlers_of (find t d)) ((==_iff tid u).0 y) (rw (e) refl))
  ]

  get_handlers-Got : (tid : TypeIndex) (d : Dispatcher S) → Got tid d (get_handlers S tid d)
  unfolding get_handlers
  get_handlers-Got tid d = elim (Option-cases (find tid d)) [
    | inr (hs, e) ↦ rw (get_handlers, e) record { handlers = rw (e) refl; others = λ u. refl }
    | inl e ↦
        rw (get_handlers, e) record { handlers = rw (e) refl; others = λ u. empty_vector tid u d e }
  ]

  matching-append :
      (tid t : TypeIndex) (h : Handler S) (subs : List (TypeIndex × Handler S))
      → matching tid (subs ++ ((t, h) ∷ []))
        ≡ matching tid subs ++ (if t == tid then h ∷ [] else [])
  matching-append tid t h [] = refl
  matching-append tid t h ((u, k) ∷ subs) = elim (Bool-cases (u == tid)) [
    | inl y ↦ rw (y) (ap (◌∷◌ k) (matching-append tid t h subs))
    | inr n ↦ rw (n) (matching-append tid t h subs)
  ]

  subscribe-Holds :
      (tid : TypeIndex) (h : Handler S) (subs : List (TypeIndex × Handler S)) (d : Dispatcher S)
      → Holds subs d
      → Holds (subs ++ ((tid, h) ∷ [])) (subscribe S tid h d)
  unfolding subscribe
  subscribe-Holds tid h subs d held u =
      let got = get_handlers-Got tid d in
      let (hs, d') = get_handlers S tid d in
      rw (find-insert tid u (hs ++ (h ∷ [])) d', matching-append u tid h subs)
        (elim (Bool-cases (tid == u)) [
          | inl y ↦ rw (y) (
              ap (λ x. x ++ (h ∷ []))
                (got.handlers ∙ held tid ∙ ap (λ t. matching t subs) ((==_iff tid u).0 y)))
          | inr n ↦ rw (n) (got.others u ∙ held u ∙ sym (append-nil (matching u subs)))
        ])

  run-delivered :
      (actions : List Action) (subs : List (TypeIndex × Handler S)) (d : Dispatcher S) (s : S)
      → Holds subs d
      → (run actions (d, s)).1 ≡ delivered (deliveries actions subs) s
  unfolding run publish
  run-delivered [] subs d s held = refl
  run-delivered (subscribes tid h ∷ actions) subs d s held =
      run-delivered actions (subs ++ ((tid, h) ∷ [])) (subscribe S tid h d) s
        (subscribe-Holds tid h subs d held)
  run-delivered (publishes event ∷ actions) subs d s held =
      let got = get_handlers-Got (type_of event) d in
      run-delivered actions subs (get_handlers S (type_of event) d).1
        (call_each S (get_handlers S (type_of event) d).0 event s) (λ u. got.others u ∙ held u)
      ∙ ap (λ hs. delivered (deliveries actions subs) (call_each S hs event s))
          (got.handlers ∙ held (type_of event))
      ∙ call_each-delivered (matching (type_of event) subs) event (deliveries actions subs) s

  -- From an empty dispatcher, whatever is subscribed and published in whatever order: the program's state is
  -- what it becomes when, event after event, each handler that subscribed to the event's type before it is
  -- called once with it, in the order in which they subscribed, and no other is.
  pub dispatcher-Refines :
      (actions : List Action) (s : S)
      → (run actions ([], s)).1 ≡ delivered (deliveries actions []) s
  unfolding find
  dispatcher-Refines actions s = run-delivered actions [] [] s (λ tid. refl)
