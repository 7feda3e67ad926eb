-- ===== src/Futures/Main.antt =====
-- The main thread of examples/futures_promises/main.cpp: `run_lookup_demo` and `main`. A schedule holds the accesses
-- that the two threads make before `wait_for` returns, which it does when the promise is satisfied or the
-- time is over; they are joined afterwards.
use cpp_design_patterns.Prelude.{
  ℕ, zero, suc, ◌<◌, ◌≡◌, refl, ap, ◌⊎◌, inl, inr, ◌|>◌, String, List, [], ◌∷◌, ◌++◌, All, Option,
  none, some, some_inj, arith,
}
use cpp_design_patterns.Prelude.Decimal.{show_int}
use cpp_design_patterns.Prelude.Result.{Exception, what, Result, ok, throws}
use cpp_design_patterns.Prelude.Int.{ℤ, pos, int_eq}
use cpp_design_patterns.Log.{Log, line, log_line}
use cpp_design_patterns.Futures.{cache_lookup, db_lookup, run, start, run_lookup_demo}
use cpp_design_patterns.Futures.Invariant.{successes, run-Counts, start-Counts}
use cpp_design_patterns.Futures.Origins.{Among, run-Origins, start-Origins}
use cpp_design_patterns.Futures.Race.{IsOver, race_result}

abbrev pub timed_out_line : ℤ → String
timed_out_line user_id =
    line ("Timed out waiting for user lookup (user=" ∷ show_int user_id ∷ ")." ∷ [])

abbrev pub name_line : ℤ → String → String
name_line user_id name = line ("User " ∷ show_int user_id ∷ " name: " ∷ name ∷ [])

abbrev pub failed_line : ℤ → Exception → String
failed_line user_id e = line ("User " ∷ show_int user_id ∷ " lookup failed: " ∷ what e ∷ [])

-- The line printed when `wait_for` has returned, by the promise at that time.
unfoldable pub report : ℤ → Option (Result String) → String
report user_id none = timed_out_line user_id
report user_id (some (ok name)) = name_line user_id name
report user_id (some (throws e)) = failed_line user_id e

unfoldable pub lookup_demo : ℤ → List ℕ → Log → Log
unfolding report run run_lookup_demo
lookup_demo user_id before log =
    log_line (report user_id (run (run_lookup_demo user_id) before).shared.promise ∷ []) log

unfoldable pub main : (before_42 before_7 : List ℕ) → Log → Log
unfolding lookup_demo
main before_42 before_7 log =
    log
    |> log_line ("Futures/promises example: race cache vs db." ∷ [])
    |> lookup_demo (pos 42) before_42
    |> lookup_demo (pos 7) before_7

abbrev lookups : ℤ → List (Result String)
lookups user_id = cache_lookup user_id ∷ db_lookup user_id ∷ []

demo_succeeds : (user_id : ℤ) → 0 < successes (lookups user_id)
unfolding cache_lookup db_lookup
demo_succeeds user_id = ground arith

-- While one of the lookups succeeds, the promise never holds an error.
pub no_error :
    (rs : List (Result String)) (is : List ℕ) (e : Exception)
    → 0 < successes rs
    → ¬ ((run (start rs) is).shared.promise ≡ some (throws e))
no_error rs is e h p =
    let c = run-Counts (successes rs) (start rs) is (start-Counts rs) in
    let z = c.error_last (rw (p) (omega arith)) in absurd (omega (arith, c.count, c.goods_kept))

-- The name that one of the two lookups gives.
abbrev pub Found : ℤ → String → Type 0
Found user_id name = (cache_lookup user_id ≡ ok name) ⊎ (db_lookup user_id ≡ ok name)

of_two_lookups :
    (user_id : ℤ) (name : String) → Among (ok name) (lookups user_id) → Found user_id name
of_two_lookups user_id name (zero, e) = inl (some_inj.0 e)
of_two_lookups user_id name (suc zero, e) = inr (some_inj.0 e)
of_two_lookups user_id name (suc (suc j), e) = absurd (cc)

-- For any user and whatever the two threads have done before the wait is over: the demo prints one line, which says
-- that the time was over, or names what one of the user's two lookups gives; it never reports an error.
pub demo_line :
    (user_id : ℤ) (before : List ℕ) (log : Log)
    → (lookup_demo user_id before log ≡ log ++ (timed_out_line user_id ∷ []))
      ⊎ ((name : String) × (lookup_demo user_id before log ≡ log ++ (name_line user_id name ∷ []))
          × Found user_id name)
unfolding lookup_demo run_lookup_demo
demo_line user_id before log =
    let rs = lookups user_id in
    let s = run (start rs) before in
    let o = run-Origins rs (start rs) before (start-Origins rs) in
    go s.shared.promise refl o.promised
  where
    go :
        (promise : Option (Result String))
        → (run (start (lookups user_id)) before).shared.promise ≡ promise
        → ((r : Result String)
            → (run (start (lookups user_id)) before).shared.promise ≡ some r
            → Among r (lookups user_id))
        → (log ++ (report user_id promise ∷ []) ≡ log ++ (timed_out_line user_id ∷ []))
          ⊎ ((name : String) × (log ++ (report user_id promise ∷ [])
                ≡ log ++ (name_line user_id name ∷ []))
              × Found user_id name)
    go none p o = inl refl
    go (some (ok name)) p o = inr (name, refl, of_two_lookups user_id name (o (ok name) p))
    go (some (throws e)) p o =
        absurd (no_error (lookups user_id) before e (demo_succeeds user_id) p)

-- For any user: when both threads have returned before the wait is over, the demo names what one of
-- the user's two lookups gives.
pub demo_in_time :
    (user_id : ℤ) (before : List ℕ) (log : Log)
    → All IsOver (run (run_lookup_demo user_id) before).threads
    → (name : String) × (lookup_demo user_id before log ≡ log ++ (name_line user_id name ∷ []))
      × Found user_id name
unfolding lookup_demo run_lookup_demo
demo_in_time user_id before log over =
    elim (race_result (lookups user_id) before (omega arith) over) [
      | inl (name, p, from) ↦ (
        name,
        ap (λ promise. log ++ (report user_id promise ∷ [])) p,
        of_two_lookups user_id name from,
      )
      | inr (e, p, from, no_success) ↦ absurd (let h = demo_succeeds user_id in omega arith)
    ]
