-- ===== src/Facade/Printing.antt =====
-- What `main` prints: the profiles of a batch and the metrics.
use cpp_design_patterns.Prelude.{
  ◌≡◌, refl, ap, ◌∙◌, String, List, [], ◌∷◌, ◌++◌, append_assoc, append-nil, map, Option, none,
  some,
}
use cpp_design_patterns.Prelude.Decimal.{to_string, show_int}
use cpp_design_patterns.Prelude.Int.{ℤ}
use cpp_design_patterns.Log.{Log, line, log_line}
use cpp_design_patterns.Facade.{UserProfile, Metrics, Profiles, fetch_profiles}
use cpp_design_patterns.Facade.Fetch.{resolve, fetch_profiles_lem}

abbrev pub profile_line : ℤ → Option UserProfile → String
profile_line user_id none = line ("user=" ∷ show_int user_id ∷ " not found" ∷ [])
profile_line user_id (some profile) =
    line ("user=" ∷ show_int user_id ∷ " name=" ∷ profile.name ∷ " tier=" ∷ profile.tier ∷ [])

-- None when there are fewer profiles than ids: `profiles[i]` would be undefined.
unfoldable pub print_profiles : List ℤ → List (Option UserProfile) → Log → Option Log
print_profiles [] profiles log = some log
print_profiles (user_id ∷ ids) [] log = none
print_profiles (user_id ∷ ids) (profile ∷ profiles) log =
    print_profiles ids profiles (log ++ (profile_line user_id profile ∷ []))

unfoldable pub dump : Metrics → Log → Log
unfolding to_string
dump m = log_line (
    "metrics: cache_hits="
    ∷ to_string m.cache_hits
    ∷ " db_hits="
    ∷ to_string m.db_hits
    ∷ " misses="
    ∷ to_string m.misses
    ∷ [])

print_profiles_lem :
    (answer : ℤ → Option UserProfile) (ids : List ℤ) (log : Log)
    → print_profiles ids (map answer ids) log
      ≡ some (log ++ map (λ user_id. profile_line user_id (answer user_id)) ids)
unfolding print_profiles
print_profiles_lem answer [] log = rw (append-nil log) refl
print_profiles_lem answer (user_id ∷ ids) log =
    print_profiles_lem answer ids _
    ∙ ap some (
        append_assoc log (profile_line user_id (answer user_id) ∷ [])
          (map (λ j. profile_line j (answer j)) ids))

-- Printing a fetched batch never reads beyond its results, and prints for each id asked for, in
-- order, the profile of the cache, else of the database, else that it was not found.
pub batch_printed :
    (cache db : Profiles) (m : Metrics) (ids : List ℤ) (log : Log)
    → print_profiles ids (fetch_profiles cache db m ids).results log
      ≡ some (log ++ map (λ user_id. profile_line user_id (resolve cache db user_id)) ids)
batch_printed cache db m ids log =
    rw (fetch_profiles_lem cache db m ids) (print_profiles_lem (resolve cache db) ids log)
