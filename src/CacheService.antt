-- ===== src/CacheService.antt =====
-- examples/nvi/main.cpp: the public operations of `CacheService`, the same for every class derived
-- from it, and its two implementations. An implementation is the record of its state and of the
-- virtual operations; a call gives what it leaves of state and log, and throws or returns.
pub mod Memory
pub mod Main
mod Tests
use cpp_design_patterns.Prelude.{
  ℕ, suc, ◌+◌, ◌*◌, String, List, [], ◌∷◌, Bool, true, false, Option, none, some, ltb, eqb,
  if◌then◌else◌, string_eq,
}
use cpp_design_patterns.Prelude.Texts.{size}
use cpp_design_patterns.Prelude.Dict.{Dict, find, insert, erase}
use cpp_design_patterns.Prelude.Result.{Exception, invalid_argument, Result, ok, throws}
use cpp_design_patterns.Log.{Log, log_line}

pub record CacheService : Type 1 where
  pub State : Type 0
  pub get_impl : String → State × Log → State × Log
  pub put_impl : String → String → State × Log → State × Log
  pub remove_impl : String → State × Log → State × Log

unfoldable pub validate_key : String → Result (Unit {0})
unfolding size
validate_key key =
    if eqb (size key) 0
    then throws (invalid_argument "cache key cannot be empty")
    else if ltb 256 (size key)
    then throws (invalid_argument "cache key too long (max 256 chars)")
    else ok tt

unfoldable pub validate_value : String → Result (Unit {0})
unfolding size
validate_value value =
    if ltb (1024 * 1024) (size value)
    then throws (invalid_argument "cache value too large (max 1MB)")
    else ok tt

abbrev pub increment_metrics : String → Log → Log
increment_metrics operation = log_line ("[Metrics] cache." ∷ operation ∷ " +1" ∷ [])

module _ (service : CacheService) where
  -- What a thrown exception skips.
  abbrev after :
      Result (Unit {0})
      → service.State × Log
      → (service.State × Log) × Result (Unit {0})
      → (service.State × Log) × Result (Unit {0})
  after (throws e) s next = (s, throws e)
  after (ok _) s next = next

  unfoldable pub get : String → service.State × Log → (service.State × Log) × Result (Unit {0})
  unfolding validate_key
  get key (s, log) =
      let log1 = log_line ("[CacheService] GET request for key: " ∷ key ∷ []) log in
      after (validate_key key) (s, log1)
        (service.get_impl key (s, increment_metrics "get" log1), ok tt)

  unfoldable pub put :
      String → String → service.State × Log → (service.State × Log) × Result (Unit {0})
  unfolding validate_key validate_value
  put key value (s, log) =
      let log1 = log_line ("[CacheService] PUT request for key: " ∷ key ∷ []) log in
      after (validate_key key) (s, log1)
        (after (validate_value value) (s, log1)
          (service.put_impl key value (s, increment_metrics "put" log1), ok tt))

  unfoldable pub remove : String → service.State × Log → (service.State × Log) × Result (Unit {0})
  unfolding validate_key
  remove key (s, log) =
      let log1 = log_line ("[CacheService] REMOVE request for key: " ∷ key ∷ []) log in
      after (validate_key key) (s, log1)
        (service.remove_impl key (s, increment_metrics "remove" log1), ok tt)

pub record MemoryState : Type 0 where
  pub cache_ : Dict String String
  pub hits_ : ℕ
  pub misses_ : ℕ

unfoldable pub memory_get : String → MemoryState × Log → MemoryState × Log
unfolding find
memory_get key (s, log) = elim (find key s.cache_) [
  | some value ↦ (
    record s { hits_ = s.hits_ + 1 },
    log_line ("[InMemoryCache] HIT: " ∷ key ∷ " = " ∷ value ∷ []) log,
  )
  | none ↦
      (record s { misses_ = s.misses_ + 1 }, log_line ("[InMemoryCache] MISS: " ∷ key ∷ []) log)
]

unfoldable pub memory_put : String → String → MemoryState × Log → MemoryState × Log
unfolding insert
memory_put key value (s, log) = (
  record s { cache_ = insert key value s.cache_ },
  log_line ("[InMemoryCache] STORED: " ∷ key ∷ " = " ∷ value ∷ []) log,
)

unfoldable pub memory_remove : String → MemoryState × Log → MemoryState × Log
unfolding find erase
memory_remove key (s, log) = (
  record s { cache_ = erase key s.cache_ },
  elim (find key s.cache_) [
    | some _ ↦ log_line ("[InMemoryCache] REMOVED: " ∷ key ∷ []) log
    | none ↦ log_line ("[InMemoryCache] KEY NOT FOUND: " ∷ key ∷ []) log
  ],
)

abbrev pub InMemoryCache : CacheService
InMemoryCache = record {
  State = MemoryState;
  get_impl = memory_get;
  put_impl = memory_put;
  remove_impl = memory_remove;
}

abbrev pub RedisCache : CacheService
RedisCache = record {
  State = Unit;
  get_impl =
      λ key (s, log). (s, log_line ("[RedisCache] GET " ∷ key ∷ " from Redis cluster" ∷ []) log);
  put_impl = λ key value (s, log).
      (s, log_line ("[RedisCache] SET " ∷ key ∷ " = " ∷ value ∷ " in Redis cluster" ∷ []) log);
  remove_impl =
      λ key (s, log). (s, log_line ("[RedisCache] DEL " ∷ key ∷ " from Redis cluster" ∷ []) log);
}

pub data Call : Type 0 where
  getting : String → Call
  putting : String → String → Call
  removing : String → Call

unfoldable pub call :
    (service : CacheService)
    → Call
    → service.State × Log
    → (service.State × Log) × Result (Unit {0})
unfolding get put remove
call service (getting key) s = get service key s
call service (putting key value) s = put service key value s
call service (removing key) s = remove service key s

-- Calls one behind the other, by a client that catches what they throw.
unfoldable pub calls :
    (service : CacheService) → List Call → service.State × Log → service.State × Log
unfolding call
calls service [] s = s
calls service (c ∷ cs) s = calls service cs (call service c s).0

abbrev pub empty_memory : MemoryState
empty_memory = record { cache_ = []; hits_ = 0; misses_ = 0 }
