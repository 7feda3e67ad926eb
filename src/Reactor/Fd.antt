-- ===== src/Reactor/Fd.antt =====
-- `UniqueFd`: its members, and any program of owners of descriptors.
use cpp_design_patterns.Prelude.{
  ℕ, zero, suc, ◌+◌, ◌≡◌, ◌≢◌, List, [], ◌∷◌, true, false, Option, none, some, eqb, if◌then◌else◌,
  ◌==◌, ==_iff, get_elem?, set, arith, Option-cases, inl, inr, ◌∙◌, get_elem?-set_ne, ℕ_discrete,
  eqb_iff,
}
use cpp_design_patterns.Prelude.Int.{ℤ, negsuc, int_eq}

pub record UniqueFd : Type 0 where
  pub fd_ : ℤ

abbrev pub no_fd : ℤ
no_fd = negsuc 0

-- Each operation gives the object and the calls of `close` so far, the last one first.
unfoldable pub reset : ℤ → UniqueFd → List ℤ → UniqueFd × List ℤ
reset fd u closed = (record { fd_ = fd }, if u.fd_ == no_fd then closed else u.fd_ ∷ closed)

-- `UniqueFd(UniqueFd&& other)`: the new object and the other after it.
unfoldable pub move : UniqueFd → UniqueFd × UniqueFd
move other = (other, record { fd_ = no_fd })

-- `operator=(UniqueFd&& other)` for two different objects; for one it does nothing.
unfoldable pub move_assign : UniqueFd → UniqueFd → List ℤ → (UniqueFd × UniqueFd) × List ℤ
unfolding reset
move_assign self other closed =
    let (_, closed') = reset no_fd self closed in
    ((record { fd_ = other.fd_ }, record { fd_ = no_fd }), closed')

unfoldable pub destroy : UniqueFd → List ℤ → List ℤ
unfolding reset
destroy u closed = (reset no_fd u closed).1

-- The owners of a program, the calls of `close`, and the descriptors that were handed to an owner.
pub record Owners : Type 0 where
  pub owners : List (Option UniqueFd)
  pub closed : List ℤ
  pub adopted : List ℤ

pub data Event : Type 0 where
  adopts : (fd : ℤ) → Event
  moves : (from : ℕ) → Event
  assigns : (to from : ℕ) → Event
  resets : (at : ℕ) (fd : ℤ) → Event
  destroys : (at : ℕ) → Event

abbrev at : ℕ → List (Option UniqueFd) → Option UniqueFd
at i us = elim (get_elem? us i) [ none ↦ none | some u ↦ u ]

-- An event on objects that are gone changes nothing; a new object comes first.
unfoldable pub step : Owners → Event → Owners
unfolding move move_assign reset destroy
step w (adopts fd) = record w {
  owners = some (record { fd_ = fd }) ∷ w.owners;
  adopted = fd ∷ w.adopted;
}
step w (moves from) = elim (at from w.owners) [
  | none ↦ w
  | some other ↦
      let (new, old) = move other in record w { owners = some new ∷ set w.owners from (some old) }
]
step w (assigns to from) = elim (at to w.owners) [
  | none ↦ w
  | some self ↦ elim (at from w.owners) [
    | none ↦ w
    | some other ↦ elim (eqb to from) [
      | true ↦ w
      | false ↦
          let ((new, old), closed) = move_assign self other w.closed in
          record w { owners = set (set w.owners to (some new)) from (some old); closed = closed }
    ]
  ]
]
step w (resets i fd) = elim (at i w.owners) [
  | none ↦ w
  | some u ↦
      let (new, closed) = reset fd u w.closed in
      record w { owners = set w.owners i (some new); closed = closed; adopted = fd ∷ w.adopted }
]
step w (destroys i) = elim (at i w.owners) [
  | none ↦ w
  | some u ↦ record w { owners = set w.owners i none; closed = destroy u w.closed }
]

unfoldable pub run : Owners → List Event → Owners
unfolding step
run w [] = w
run w (e ∷ es) = run (step w e) es

-- How often a descriptor stands in a list.
abbrev pub count : ℤ → List ℤ → ℕ
count d [] = 0
count d (x ∷ xs) = (if x == d then 1 else 0) + count d xs

abbrev pub holds : ℤ → Option UniqueFd → ℕ
holds d none = 0
holds d (some u) = if u.fd_ == d then 1 else 0

abbrev pub held : ℤ → List (Option UniqueFd) → ℕ
held d [] = 0
held d (u ∷ us) = holds d u + held d us

held-set :
    (d : ℤ) (us : List (Option UniqueFd)) (i : ℕ) (u v : Option UniqueFd)
    → get_elem? us i ≡ some u
    → held d (set us i v) + holds d u ≡ held d us + holds d v
held-set d [] i u v e = absurd (cc)
held-set d (x ∷ us) zero u v e = ground arith
held-set d (x ∷ us) (suc i) u v e = omega (arith, held-set d us i u v e)

at-get :
    (i : ℕ) (us : List (Option UniqueFd)) {u : UniqueFd}
    → at i us ≡ some u
    → get_elem? us i ≡ some (some u)
at-get i us e = ground arith

-- Every descriptor handed to an owner is held once or closed once for each time.
abbrev pub IsAccounted : ℤ → Owners → Type 0
IsAccounted d w = held d w.owners + count d w.closed ≡ count d w.adopted

module _ (d : ℤ) (real : d ≢ no_fd) (w : Owners) (h : IsAccounted d w) where
  moves-IsAccounted : (from : ℕ) → IsAccounted d (step w (moves from))
  unfolding step
  moves-IsAccounted from = elim (Option-cases (at from w.owners)) [
    | inl e ↦ rw (step, e) h
    | inr (u, e) ↦
        let s =
          held-set d w.owners from (some u) (some (record { fd_ = no_fd }))
            (at-get from w.owners e) in
        rw (step, e) (ground (arith, s, ==_iff no_fd d))
  ]

  resets-IsAccounted : (i : ℕ) (fd : ℤ) → IsAccounted d (step w (resets i fd))
  unfolding step
  resets-IsAccounted i fd = elim (Option-cases (at i w.owners)) [
    | inl e ↦ rw (step, e) h
    | inr (u, e) ↦
        let s = held-set d w.owners i (some u) (some (record { fd_ = fd })) (at-get i w.owners e) in
        rw (step, e) (ground (arith, s, ==_iff u.fd_ d, ==_iff u.fd_ no_fd))
  ]

  destroys-IsAccounted : (i : ℕ) → IsAccounted d (step w (destroys i))
  unfolding step
  destroys-IsAccounted i = elim (Option-cases (at i w.owners)) [
    | inl e ↦ rw (step, e) h
    | inr (u, e) ↦
        let s = held-set d w.owners i (some u) none (at-get i w.owners e) in
        rw (step, e) (ground (arith, s, ==_iff u.fd_ d, ==_iff u.fd_ no_fd))
  ]

  assigns-IsAccounted : (to from : ℕ) → IsAccounted d (step w (assigns to from))
  unfolding step
  assigns-IsAccounted to from = elim (Option-cases (at to w.owners)) [
    | inl e ↦ rw (step, e) h
    | inr (u, e) ↦ elim (Option-cases (at from w.owners)) [
      | inl f ↦ rw (step, e, f) h
      | inr (v, f) ↦ elim (ℕ_discrete to from) [
        | yes same ↦ rw (step, e, f, (eqb_iff to from).1 same) h
        | no apart ↦
            let there = at-get from w.owners f in
            let taken = some (record { fd_ = v.fd_ }) in
            let s = held-set d w.owners to (some u) taken (at-get to w.owners e) in
            let still = get_elem?-set_ne w.owners taken apart ∙ there in
            let t =
              held-set d (set w.owners to taken) from (some v) (some (record { fd_ = no_fd }))
                still in
            ground (
              arith,
              s,
              t,
              e,
              f,
              eqb_iff to from,
              ==_iff u.fd_ d,
              ==_iff u.fd_ no_fd,
              ==_iff no_fd d,
            )
      ]
    ]
  ]

step-IsAccounted :
    (d : ℤ) → d ≢ no_fd → (w : Owners) (e : Event) → IsAccounted d w → IsAccounted d (step w e)
unfolding step
step-IsAccounted d real w (adopts fd) h = omega arith
step-IsAccounted d real w (moves from) h = moves-IsAccounted d real w h from
step-IsAccounted d real w (assigns to from) h = assigns-IsAccounted d real w h to from
step-IsAccounted d real w (resets i fd) h = resets-IsAccounted d real w h i fd
step-IsAccounted d real w (destroys i) h = destroys-IsAccounted d real w h i

run-IsAccounted :
    (d : ℤ)
    → d ≢ no_fd
    → (w : Owners) (es : List Event) → IsAccounted d w
    → IsAccounted d (run w es)
unfolding run
run-IsAccounted d real w [] h = h
run-IsAccounted d real w (e ∷ es) h =
    run-IsAccounted d real (step w e) es (step-IsAccounted d real w e h)

abbrev pub no_owners : Owners
no_owners = record { owners = []; closed = []; adopted = [] }

-- From no owners, after any sequence of events and for a descriptor other than -1: the owners that
-- hold it and the calls of `close` on it are together as many as the times it was handed to an
-- owner.
pub fds_closed_once :
    (es : List Event) (d : ℤ)
    → d ≢ no_fd
    → let w = run no_owners es in held d w.owners + count d w.closed ≡ count d w.adopted
fds_closed_once es d real = run-IsAccounted d real no_owners es (omega arith)
