-- ===== src/Futures/Origins.antt =====
-- Where the results that the threads hold, and the one in the promise, come from.
use cpp_design_patterns.Prelude.{
  ℕ, zero, suc, ◌≡◌, ◌⊎◌, inl, inr, refl, String, List, [], ◌∷◌, map, Bool-cases, none, some,
  Option-cases, get_elem?, set, All, eqb, arith,
}
use cpp_design_patterns.Prelude.Result.{Exception, Result, ok, throws}
use cpp_design_patterns.Futures.{
  Pc, looked_up, counting, last, raising, setting, succeeded, failed, System, access, step, run,
  start,
}
use cpp_design_patterns.Futures.Invariant.{total, total-set, erred}

-- The result of one of the lookups.
abbrev pub Among : Result String → List (Result String) → Type 0
Among r rs = (j : ℕ) × (get_elem? rs j ≡ some r)

module _ (P : Pc → Type 0) where
  All-get : (ps : List Pc) (i : ℕ) (p : Pc) → get_elem? ps i ≡ some p → All P ps → P p
  All-get [] i p e h = absurd (cc)
  All-get (x ∷ ps) zero p e (h, _) = let f : x ≡ p = cc in rw (← f) h
  All-get (x ∷ ps) (suc i) p e (_, h) = All-get ps i p e h

  All-set : (ps : List Pc) (i : ℕ) (q : Pc) → P q → All P ps → All P (set ps i q)
  All-set [] i q k h = tt
  All-set (x ∷ ps) zero q k (_, h) = (k, h)
  All-set (x ∷ ps) (suc i) q k (g, h) = (g, All-set ps i q k h)

module _ (rs : List (Result String)) where
  -- A result that a thread holds is a lookup's.
  abbrev pub IsHonest : Pc → Type 0
  IsHonest (looked_up r) = Among r rs
  IsHonest (setting r) = Among r rs
  IsHonest _ = Unit

  pub record Origins (s : System) : Type 0 where
    pub threads : All IsHonest s.threads
    pub errors :
        ((s.shared.last_error ≡ none) × (total erred s.threads ≡ 0))
        ⊎ ((e : Exception) × (s.shared.last_error ≡ some e) × Among (throws e) rs)
    pub promised : (r : Result String) → s.shared.promise ≡ some r → Among r rs

  module _ (s : System) (i : ℕ) (v : Origins s) where
    abbrev next : Pc → System
    next p = record {
      shared = (access p s.shared).0;
      threads = set s.threads i (access p s.shared).1;
    }

    has_error :
        (p : Pc)
        → get_elem? s.threads i ≡ some p
        → erred p ≡ 1
        → (e : Exception) × (s.shared.last_error ≡ some e) × Among (throws e) rs
    has_error p e h = elim v.errors [
      | inl (n, z) ↦ absurd (omega (arith, total-set erred s.threads i p failed e))
      | inr w ↦ w
    ]

    honest_after :
        (p : Pc) → get_elem? s.threads i ≡ some p → IsHonest p → IsHonest (access p s.shared).1
    unfolding access
    honest_after (looked_up (ok x)) e h = elim (Bool-cases s.shared.done) [
      | inl y ↦ rw y tt
      | inr n ↦ rw n h
    ]
    honest_after (looked_up (throws x)) e h = tt
    honest_after counting e h = elim (Bool-cases (eqb s.shared.remaining 1)) [
      | inl y ↦ rw y tt
      | inr n ↦ rw n tt
    ]
    honest_after last e h = elim (Bool-cases s.shared.done) [ inl y ↦ rw y tt | inr n ↦ rw n tt ]
    honest_after raising e h = let (x, y, a) = has_error raising e refl in rw (y) a
    honest_after (setting (ok x)) e h = tt
    honest_after (setting (throws x)) e h = tt
    honest_after succeeded e h = tt
    honest_after failed e h = tt

    errors_after :
        (p : Pc)
        → get_elem? s.threads i ≡ some p
        → IsHonest p
        → (((next p).shared.last_error ≡ none) × (total erred (next p).threads ≡ 0))
          ⊎ ((e : Exception) × ((next p).shared.last_error ≡ some e) × Among (throws e) rs)
    unfolding access
    errors_after (looked_up (throws x)) e h = inr (x, refl, h)
    errors_after p e h = elim v.errors [
      | inl (n, z) ↦
          inl (ground arith, ground (arith, total-set erred s.threads i p (access p s.shared).1 e))
      | inr (x, y, a) ↦ inr (x, ground arith, a)
    ]

    promised_after :
        (p : Pc) → IsHonest p → (r : Result String) → (next p).shared.promise ≡ some r → Among r rs
    unfolding access
    promised_after (setting x) h r q = elim (Option-cases s.shared.promise) [
      | inl n ↦ let f : x ≡ r = ground arith in rw (← f) h
      | inr (y, f) ↦ v.promised r (ground arith)
    ]
    promised_after p h r q = v.promised r (ground arith)

    at-Origins : (p : Pc) → get_elem? s.threads i ≡ some p → Origins (next p)
    at-Origins p e =
        let h = All-get IsHonest s.threads i p e v.threads in
        record {
          threads = All-set IsHonest s.threads i _ (honest_after p e h) v.threads;
          errors = errors_after p e h;
          promised = promised_after p h;
        }

  pub run-Origins : (s : System) (is : List ℕ) → Origins s → Origins (run s is)
  unfolding run step
  run-Origins s [] v = v
  run-Origins s (i ∷ is) v =
      run-Origins (step s i) is (elim (Option-cases (get_elem? s.threads i)) [
        | inl e ↦ rw (e, step) v
        | inr (p, e) ↦ rw (e, step) (at-Origins s i v p e)
      ])

shift-honest :
    (r : Result String) (rs : List (Result String)) (ps : List Pc)
    → All (IsHonest rs) ps
    → All (IsHonest (r ∷ rs)) ps
shift-honest r rs [] h = tt
shift-honest r rs (looked_up x ∷ ps) ((j, e), h) = ((suc j, e), shift-honest r rs ps h)
shift-honest r rs (setting x ∷ ps) ((j, e), h) = ((suc j, e), shift-honest r rs ps h)
shift-honest r rs (_ ∷ ps) (g, h) = (tt, shift-honest r rs ps h)

start-honest : (rs : List (Result String)) → All (IsHonest rs) (map looked_up rs)
start-honest [] = tt
start-honest (r ∷ rs) = ((0, refl), shift-honest r rs (map looked_up rs) (start-honest rs))

start-erred : (rs : List (Result String)) → total erred (map looked_up rs) ≡ 0
start-erred [] = refl
start-erred (r ∷ rs) = omega (arith, start-erred rs)

pub start-Origins : (rs : List (Result String)) → Origins rs (start rs)
unfolding start
start-Origins rs = record {
  threads = start-honest rs;
  errors = inl (refl, start-erred rs);
  promised = λ r q. absurd (cc);
}
