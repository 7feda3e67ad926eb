-- ===== src/Futures/Race.antt =====
-- Which result the promise gets.
use cpp_design_patterns.Prelude.{
  ℕ, suc, ◌<◌, ◌≡◌, ◌⊎◌, inl, inr, refl, ◌∙◌, ap, String, List, [], ◌∷◌, Bool-cases, Option, none,
  some, Option-cases, length, get_elem?, length-set, All, arith,
}
use cpp_design_patterns.Prelude.Result.{Exception, Result, ok, throws}
use cpp_design_patterns.Futures.{
  FirstSuccess, Pc, looked_up, counting, last, raising, setting, succeeded, failed, System, access,
  step, run, start,
}
use cpp_design_patterns.Futures.Invariant.{
  total, total-set, active, good, holder, claimed, at_last, Counts, run-Counts, start-Counts,
  successes,
}
use cpp_design_patterns.Futures.Origins.{Among, Origins, run-Origins, start-Origins}

length-run : (s : System) (is : List ℕ) → length (run s is).threads ≡ length s.threads
unfolding run step
length-run s [] = refl
length-run s (i ∷ is) = length-run (step s i) is ∙ elim (Option-cases (get_elem? s.threads i)) [
  | inl e ↦ rw (e, step) refl
  | inr (p, e) ↦ rw (e, step) (length-set s.threads i _)
]

-- The thread has returned.
abbrev pub IsOver : Pc → Type 0
IsOver succeeded = Unit
IsOver failed = Unit
IsOver _ = ⊥

record Rest (ps : List Pc) : Type 0 where
  actives : total active ps ≡ 0
  holders : total holder ps ≡ 0
  lasts : total at_last ps ≡ 0
  goods : total good ps ≡ total claimed ps

all_over : (ps : List Pc) → All IsOver ps → Rest ps
all_over [] h = omega arith
all_over (succeeded ∷ ps) (_, h) = let r = all_over ps h in omega arith
all_over (failed ∷ ps) (_, h) = let r = all_over ps h in omega arith
all_over (looked_up r ∷ ps) h = absurd h.0
all_over (counting ∷ ps) h = absurd h.0
all_over (last ∷ ps) h = absurd h.0
all_over (raising ∷ ps) h = absurd h.0
all_over (setting r ∷ ps) h = absurd h.0

length-start : (rs : List (Result String)) → length (start rs).threads ≡ length rs
unfolding start
length-start [] = refl
length-start (r ∷ rs) = ap suc (length-start rs)

-- What a satisfied promise may hold.
abbrev Outcome : List (Result String) → System → Type 0
Outcome rs s =
    ((v : String) × (s.shared.promise ≡ some (ok v)) × Among (ok v) rs)
    ⊎ ((e : Exception) × (s.shared.promise ≡ some (throws e))
        × Among (throws e) rs
        × (successes rs ≡ 0))

settled :
    (rs : List (Result String)) (s : System)
    → 0 < length s.threads
    → Origins rs s
    → Counts (successes rs) s
    → Rest s.threads
    → (promise : Option (Result String)) → s.shared.promise ≡ promise
    → Outcome rs s
settled rs s some_thread o c r (some (ok v)) q = inl (v, q, o.promised (ok v) q)
settled rs s some_thread o c r (some (throws e)) q = inr (
  e,
  q,
  o.promised (throws e) q,
  let z = c.error_last (rw (q) ground arith) in omega (arith, c.count, c.goods_kept),
)
settled rs s some_thread o c r none q = elim (Bool-cases s.shared.done) [
  | inl y ↦ absurd (ground arith)
  | inr n ↦ absurd (ground arith)
]

-- Under any schedule of the threads' accesses the promise is written at most once, and what it
-- holds, if anything, is the result of one of the lookups.
pub promise_set_once :
    (rs : List (Result String)) (is : List ℕ)
    → ((run (start rs) is).shared.violations ≡ 0)
      × (((run (start rs) is).shared.promise ≡ none)
          ⊎ ((r : Result String) × ((run (start rs) is).shared.promise ≡ some r) × Among r rs))
promise_set_once rs is =
    let s = run (start rs) is in
    let o = run-Origins rs (start rs) is (start-Origins rs) in
    let c = run-Counts (successes rs) (start rs) is (start-Counts rs) in
    (
      c.no_violation,
      elim (Option-cases s.shared.promise) [
        | inl n ↦ inl n
        | inr (r, e) ↦ inr (r, e, o.promised r e)
      ],
    )

-- When all threads, at least one, have returned, whatever their order, the promise is satisfied: with the value of
-- a lookup that succeeded, or, only if no lookup succeeded, with the error of one that failed.
pub race_result :
    (rs : List (Result String)) (is : List ℕ)
    → 0 < length rs
    → All IsOver (run (start rs) is).threads
    → ((v : String) × ((run (start rs) is).shared.promise ≡ some (ok v)) × Among (ok v) rs)
      ⊎ ((e : Exception) × ((run (start rs) is).shared.promise ≡ some (throws e))
          × Among (throws e) rs
          × (successes rs ≡ 0))
race_result rs is some_thread over =
    let s = run (start rs) is in
    settled rs s (rw (length-run (start rs) is, length-start rs) some_thread)
      (run-Origins rs (start rs) is (start-Origins rs))
      (run-Counts (successes rs) (start rs) is (start-Counts rs)) (all_over s.threads over)
      s.shared.promise refl

-- How many accesses a thread has before it at most.
abbrev pub accesses_left : Pc → ℕ
accesses_left (looked_up (ok _)) = 2
accesses_left (looked_up (throws _)) = 5
accesses_left counting = 4
accesses_left last = 3
accesses_left raising = 2
accesses_left (setting _) = 1
accesses_left succeeded = 0
accesses_left failed = 0

access_nearer :
    (p : Pc) (s : FirstSuccess) → ¬ IsOver p → accesses_left (access p s).1 < accesses_left p
unfolding access
access_nearer succeeded s h = absurd (h tt)
access_nearer failed s h = absurd (h tt)
access_nearer p s h = ground arith

-- Every access of a thread that has not returned lowers the number of accesses that all threads
-- together still have before them at most.
pub step_progress :
    (s : System) (i : ℕ) (p : Pc)
    → get_elem? s.threads i ≡ some p
    → ¬ IsOver p
    → total accesses_left (step s i).threads < total accesses_left s.threads
unfolding step
step_progress s i p e h =
    rw (e, step)
      let t = total-set accesses_left s.threads i p (access p s.shared).1 e in
        let l = access_nearer p s.shared h in omega arith
