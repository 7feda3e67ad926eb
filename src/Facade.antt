-- ===== src/Facade.antt =====
-- examples/facade/main.cpp: `UserProfileFacade` over a cache, a database and metrics. The facade
-- refers to the three, so a call returns the cache and the metrics after it; the database is not
-- written. The counters are numbers without a bound.
pub mod Fetch
pub mod Printing
pub mod Main
pub mod Warm
mod Tests
use cpp_design_patterns.Prelude.{
  ℕ, zero, suc, ◌+◌, String, List, [], ◌∷◌, ◌++◌, map, Option, none, some, set,
}
use cpp_design_patterns.Prelude.Dict.{Dict, find, insert}
use cpp_design_patterns.Prelude.Int.{ℤ, int_eq}

pub record UserProfile : Type 0 where
  pub user_id : ℤ
  pub name : String
  pub tier : String

pub record Metrics : Type 0 where
  pub cache_hits : ℕ
  pub db_hits : ℕ
  pub misses : ℕ

abbrev pub record_cache_hit : Metrics → Metrics
record_cache_hit m = record m { cache_hits = m.cache_hits + 1 }

abbrev pub record_db_hit : Metrics → Metrics
record_db_hit m = record m { db_hits = m.db_hits + 1 }

abbrev pub record_miss : Metrics → Metrics
record_miss m = record m { misses = m.misses + 1 }

abbrev pub Profiles : Type 0
Profiles = Dict ℤ UserProfile

-- The lookups of `ProfileCache::get_many` and `ProfileDatabase::load_many`.
unfoldable pub get_many : Profiles → List ℤ → List (Option UserProfile)
get_many rows [] = []
get_many rows (user_id ∷ ids) = find user_id rows ∷ get_many rows ids

unfoldable pub load_many : Profiles → List ℤ → List (Option UserProfile)
load_many rows [] = []
load_many rows (user_id ∷ ids) = find user_id rows ∷ load_many rows ids

unfoldable pub put_many : List UserProfile → Profiles → Profiles
put_many [] cache = cache
put_many (profile ∷ profiles) cache = put_many profiles (insert profile.user_id profile cache)

-- The first loop of `fetch_profiles`, from position `i` on: the metrics after it, the missed ids
-- and their positions.
unfoldable pub scan : ℕ → List ℤ → List (Option UserProfile) → Metrics → Metrics × List ℤ × List ℕ
scan i (user_id ∷ ids) (some _ ∷ results) m = scan (i + 1) ids results (record_cache_hit m)
scan i (user_id ∷ ids) (none ∷ results) m =
    let (m', missed_ids, missed_positions) = scan (i + 1) ids results m in
    (m', user_id ∷ missed_ids, i ∷ missed_positions)
scan i _ _ m = (m, [], [])

-- The second loop: the results, the metrics and the profiles to cache.
unfoldable pub merge :
    List ℕ
    → List (Option UserProfile)
    → List (Option UserProfile)
    → Metrics
    → List (Option UserProfile) × Metrics × List UserProfile
merge (position ∷ positions) (some profile ∷ loaded) results m =
    let (results', m', to_cache) =
      merge positions loaded (set results position (some profile)) (record_db_hit m) in
    (results', m', profile ∷ to_cache)
merge (position ∷ positions) (none ∷ loaded) results m =
    merge positions loaded results (record_miss m)
merge _ _ results m = (results, m, [])

-- A call of `load_many` and the ids that it was given.
abbrev pub load_call : Profiles → List ℤ → List (Option UserProfile) × List (List ℤ)
load_call rows ids = (load_many rows ids, ids ∷ [])

-- What a call returns and leaves; `loads` lists the calls of `load_many` in it, by their ids.
pub record Fetched : Type 0 where
  pub results : List (Option UserProfile)
  pub cache : Profiles
  pub metrics : Metrics
  pub loads : List (List ℤ)

-- `fetch_profiles`. With nothing missed the merge is empty, as the early return has it; and
-- `put_many` of no profiles writes nothing.
unfoldable pub fetch_profiles : Profiles → Profiles → Metrics → List ℤ → Fetched
unfolding get_many scan load_many merge put_many
fetch_profiles cache db metrics user_ids =
    let results = get_many cache user_ids in
    let (m, missed_ids, missed_positions) = scan 0 user_ids results metrics in
    let (loaded, loads) = load_call db missed_ids in
    let (merged, m', to_cache) = merge missed_positions loaded results m in
    elim missed_ids [
      | [] ↦ record { results = results; cache = cache; metrics = m; loads = [] }
      | _ ∷ _ ↦ record {
        results = merged;
        cache = elim to_cache [ [] ↦ cache | p ∷ ps ↦ put_many (p ∷ ps) cache ];
        metrics = m';
        loads = loads;
      }
    ]
