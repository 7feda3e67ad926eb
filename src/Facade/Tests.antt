-- ===== src/Facade/Tests.antt =====
-- The facade at the source's rows and batch.
use cpp_design_patterns.Prelude.{◌≡◌, refl, [], ◌∷◌, none, some, ==_iff, map, arith}
use cpp_design_patterns.Prelude.Dict.{find, insert}
use cpp_design_patterns.Prelude.Int.{pos, int_eq}
use cpp_design_patterns.Prelude.Decimal.{to_string}
use cpp_design_patterns.Facade.{fetch_profiles}
use cpp_design_patterns.Facade.Printing.{print_profiles, dump}
use cpp_design_patterns.Facade.Main.{
  load_lines, fetch_lines, ada, grace, linus, first_cache, rows, zeros, batch_ids, run_batch, main,
}
use cpp_design_patterns.Facade.Warm.{fetched_twice}
use cpp_design_patterns.Facade.Fetch.{resolve, IsKeyed, fetch_profiles_lem, fetch_again}

main_run :
    main []
    ≡ some (
        "Facade example: one batch API over cache + DB + metrics." ∷ "first batch:"
        ∷ "cache.get_many(5 ids)" ∷ "db.load_many(4 ids)" ∷ "user=7 name=Grace tier=gold"
        ∷ "user=42 name=Ada tier=platinum" ∷ "user=99 not found" ∷ "user=8 name=Linus tier=silver"
        ∷ "user=42 name=Ada tier=platinum" ∷ "second batch:" ∷ "cache.get_many(5 ids)"
        ∷ "db.load_many(1 ids)" ∷ "user=7 name=Grace tier=gold" ∷ "user=42 name=Ada tier=platinum"
        ∷ "user=99 not found" ∷ "user=8 name=Linus tier=silver" ∷ "user=42 name=Ada tier=platinum"
        ∷ "metrics: cache_hits=5 db_hits=3 misses=2" ∷ [])
unfolding main run_batch fetch_profiles fetch_lines load_lines print_profiles dump find insert
    to_string
main_run = refl

first_batch : fetch_profiles first_cache rows zeros batch_ids ≡ record {
  results = some grace ∷ some ada ∷ none ∷ some linus ∷ some ada ∷ [];
  cache = (pos 7, grace) ∷ (pos 42, ada) ∷ (pos 8, linus) ∷ [];
  metrics = record { cache_hits = 1; db_hits = 3; misses = 1 };
  loads = (pos 42 ∷ pos 99 ∷ pos 8 ∷ pos 42 ∷ []) ∷ [];
}
unfolding fetch_profiles find insert
first_batch = refl

rows-IsKeyed : IsKeyed rows
unfolding find
rows-IsKeyed id p e = ground (arith, ==_iff (pos 42) id, ==_iff (pos 7) id, ==_iff (pos 8) id)

fetch_profiles_lem_example :
    (fetch_profiles first_cache rows zeros batch_ids).results
    ≡ map (resolve first_cache rows) batch_ids
fetch_profiles_lem_example = fetch_profiles_lem first_cache rows zeros batch_ids

fetch_again_example :
    (fetch_profiles
      (fetch_profiles first_cache rows zeros batch_ids).cache
      rows
      zeros
      batch_ids).results
    ≡ (fetch_profiles first_cache rows zeros batch_ids).results
fetch_again_example = fetch_again first_cache rows zeros zeros batch_ids batch_ids rows-IsKeyed

fetched_twice_example :
    (fetch_profiles
      (fetch_profiles first_cache rows zeros batch_ids).cache
      rows
      zeros
      batch_ids).loads
    ≡ (pos 99 ∷ []) ∷ []
unfolding find
fetched_twice_example = fetched_twice first_cache rows zeros zeros batch_ids rows-IsKeyed
