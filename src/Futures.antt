-- ===== src/Futures.antt =====
-- examples/futures_promises/main.cpp: `FirstSuccess` and the threads that report to it. A thread
-- stands before one of its shared accesses; an event runs the one access of the thread that the
-- system picks. The two lookups are the source's for a given user, without their delays.
pub mod Invariant
pub mod Origins
pub mod Race
pub mod Main
mod Tests
use cpp_design_patterns.Prelude.{
  ℕ, ◌+◌, ◌-◌, String, List, [], ◌∷◌, map, Bool, true, false, Option, none, some, length, get_elem?,
  set, eqb, ◌==◌, if◌then◌else◌,
}
use cpp_design_patterns.Prelude.Result.{Exception, runtime_error, Result, ok, throws}
use cpp_design_patterns.Prelude.Int.{ℤ, pos, int_eq}

unfoldable pub cache_lookup : ℤ → Result String
cache_lookup user_id =
    if user_id == pos 42 then ok "Ada (cache)" else throws (runtime_error "cache miss")

unfoldable pub db_lookup : ℤ → Result String
db_lookup user_id = ok (if user_id == pos 42 then "Ada (db)" else "unknown (db)")

pub record FirstSuccess : Type 0 where
  pub promise : Option (Result String)
  pub done : Bool
  pub remaining : ℕ
  pub last_error : Option Exception
  pub violations : ℕ  -- writes to a promise that is satisfied already

-- Where a thread stands.
pub data Pc : Type 0 where
  -- before `done.exchange` in `try_set_value`, or before the store of `last_error`
  looked_up : Result String → Pc
  -- before `remaining.fetch_sub`
  counting : Pc
  -- before `done.exchange` in `report_failure`
  last : Pc
  -- before the read of `last_error`
  raising : Pc
  -- before `promise.set_value` or `promise.set_exception`
  setting : Result String → Pc
  succeeded failed : Pc

pub record System : Type 0 where
  pub shared : FirstSuccess
  pub threads : List Pc

-- `promise.set_value` and `promise.set_exception`
unfoldable pub set_promise : Result String → FirstSuccess → FirstSuccess
set_promise r s = elim s.promise [
  | none ↦ record s { promise = some r }
  | some _ ↦ record s { violations = s.violations + 1 }
]

abbrev after_setting : Result String → Pc
after_setting (ok _) = succeeded
after_setting (throws _) = failed

abbrev error_of : Option Exception → Exception
error_of none = runtime_error "all lookups failed"
error_of (some e) = e

-- One access of a thread: `try_set_value`, `report_failure` and the body of `run_lookup`.
unfoldable pub access : Pc → FirstSuccess → FirstSuccess × Pc
unfolding set_promise
access (looked_up (ok v)) s =
    (record s { done = true }, if s.done then succeeded else setting (ok v))
access (looked_up (throws e)) s = (record s { last_error = some e }, counting)
access counting s =
    (record s { remaining = s.remaining - 1 }, if eqb s.remaining 1 then last else failed)
access last s = (record s { done = true }, if s.done then failed else raising)
access raising s = (s, setting (throws (error_of s.last_error)))
access (setting r) s = (set_promise r s, after_setting r)
access succeeded s = (s, succeeded)
access failed s = (s, failed)

-- Thread `i` makes its next access.
unfoldable pub step : System → ℕ → System
unfolding access
step s i = elim (get_elem? s.threads i) [
  | none ↦ s
  | some pc ↦
      let (shared, pc') = access pc s.shared in
      record { shared = shared; threads = set s.threads i pc' }
]

unfoldable pub run : System → List ℕ → System
run s [] = s
run s (i ∷ is) = run (step s i) is

-- One thread for each lookup, with what it will give.
unfoldable pub start : List (Result String) → System
start lookups = record {
  shared = record {
    promise = none;
    done = false;
    remaining = length lookups;
    last_error = none;
    violations = 0;
  };
  threads = map looked_up lookups;
}

-- `run_lookup_demo`: the cache's and the database's lookup.
unfoldable pub run_lookup_demo : ℤ → System
run_lookup_demo user_id = start (cache_lookup user_id ∷ db_lookup user_id ∷ [])
