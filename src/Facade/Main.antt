-- ===== src/Facade/Main.antt =====
-- `main` of examples/facade/main.cpp, with the lines that the cache and the database print.
use cpp_design_patterns.Prelude.{◌|>◌, String, List, [], ◌∷◌, Option, none, some, length}
use cpp_design_patterns.Prelude.Decimal.{to_string}
use cpp_design_patterns.Prelude.Int.{ℤ, pos}
use cpp_design_patterns.Log.{Log, log_line}
use cpp_design_patterns.Facade.{UserProfile, Metrics, Profiles, fetch_profiles}
use cpp_design_patterns.Facade.Printing.{print_profiles, dump}

-- The line of each call of `load_many`.
unfoldable pub load_lines : List (List ℤ) → Log → Log
unfolding to_string
load_lines [] log = log
load_lines (ids ∷ loads) log =
    load_lines loads (log_line ("db.load_many(" ∷ to_string (length ids) ∷ " ids)" ∷ []) log)

-- The lines that a call of `fetch_profiles` prints: that of `get_many`, then those of its calls of `load_many`.
unfoldable pub fetch_lines : List ℤ → List (List ℤ) → Log → Log
unfolding load_lines to_string
fetch_lines user_ids loads log =
    load_lines loads (log_line ("cache.get_many(" ∷ to_string (length user_ids) ∷ " ids)" ∷ []) log)

abbrev pub ada : UserProfile
ada = record { user_id = pos 42; name = "Ada"; tier = "platinum" }

abbrev pub grace : UserProfile
grace = record { user_id = pos 7; name = "Grace"; tier = "gold" }

abbrev pub linus : UserProfile
linus = record { user_id = pos 8; name = "Linus"; tier = "silver" }

-- The first entries of `cache_`, the `rows_`, and the counters.
abbrev pub first_cache : Profiles
first_cache = (pos 7, grace) ∷ []

abbrev pub rows : Profiles
rows = (pos 42, ada) ∷ (pos 7, grace) ∷ (pos 8, linus) ∷ []

abbrev pub zeros : Metrics
zeros = record { cache_hits = 0; db_hits = 0; misses = 0 }

abbrev pub batch_ids : List ℤ
batch_ids = pos 7 ∷ pos 42 ∷ pos 99 ∷ pos 8 ∷ pos 42 ∷ []

-- A batch fetched and printed: the cache and the metrics after it, and the log.
unfoldable pub run_batch : Profiles × Metrics → Log → Option ((Profiles × Metrics) × Log)
unfolding fetch_profiles fetch_lines print_profiles
run_batch (cache, metrics) log =
    let fetched = fetch_profiles cache rows metrics batch_ids in
    elim (print_profiles batch_ids fetched.results (fetch_lines batch_ids fetched.loads log)) [
      | none ↦ none
      | some log' ↦ some ((fetched.cache, fetched.metrics), log')
    ]

unfoldable second_batch : Option ((Profiles × Metrics) × Log) → Option ((Profiles × Metrics) × Log)
unfolding run_batch
second_batch none = none
second_batch (some (s, log)) = run_batch s (log_line ("second batch:" ∷ []) log)

unfoldable pub main : Log → Option Log
unfolding second_batch dump
main log =
    let banner : String = "Facade example: one batch API over cache + DB + metrics." in
    let first =
      run_batch (first_cache, zeros)
        (log |> log_line (banner ∷ []) |> log_line ("first batch:" ∷ [])) in
    elim (second_batch first) [ none ↦ none | some ((_, metrics), log') ↦ some (dump metrics log') ]
