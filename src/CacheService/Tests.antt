-- ===== src/CacheService/Tests.antt =====
-- examples/nvi/main.cpp: the calls of `main` on the two caches.
use cpp_design_patterns.Prelude.{◌≡◌, refl, List, [], ◌∷◌}
use cpp_design_patterns.Prelude.Result.{invalid_argument, throws}
use cpp_design_patterns.CacheService.{
  InMemoryCache, RedisCache, empty_memory, memory_get, memory_put, memory_remove, Call, getting,
  putting, removing, call, calls,
}
use cpp_design_patterns.CacheService.Main.{accepted}
use cpp_design_patterns.CacheService.Memory.{Refines, empty_abstract, effects, memory-Refines}

abbrev main_calls : List Call
main_calls =
    putting "user:123" "alice"
    ∷ putting "user:456" "bob"
    ∷ getting "user:123"
    ∷ getting "user:999"
    ∷ removing "user:456"
    ∷ []

main_memory :
    (calls InMemoryCache main_calls (empty_memory, [])).0
    ≡ record { cache_ = ("user:123", "alice") ∷ []; hits_ = 1; misses_ = 1 }
unfolding calls memory_get memory_put memory_remove
main_memory = refl

accepted_lines :
    accepted []
    ≡ "NVI example: enforcing invariants in cache service components."
      ∷ "\n--- Using InMemoryCache ---" ∷ "[CacheService] PUT request for key: user:123"
      ∷ "[Metrics] cache.put +1" ∷ "[InMemoryCache] STORED: user:123 = alice"
      ∷ "[CacheService] PUT request for key: user:456" ∷ "[Metrics] cache.put +1"
      ∷ "[InMemoryCache] STORED: user:456 = bob" ∷ "[CacheService] GET request for key: user:123"
      ∷ "[Metrics] cache.get +1" ∷ "[InMemoryCache] HIT: user:123 = alice"
      ∷ "[CacheService] GET request for key: user:999" ∷ "[Metrics] cache.get +1"
      ∷ "[InMemoryCache] MISS: user:999" ∷ "[CacheService] REMOVE request for key: user:456"
      ∷ "[Metrics] cache.remove +1" ∷ "[InMemoryCache] REMOVED: user:456"
      ∷ "\n--- Using RedisCache ---" ∷ "[CacheService] PUT request for key: session:abc"
      ∷ "[Metrics] cache.put +1" ∷ "[RedisCache] SET session:abc = data in Redis cluster"
      ∷ "[CacheService] GET request for key: session:abc" ∷ "[Metrics] cache.get +1"
      ∷ "[RedisCache] GET session:abc from Redis cluster"
      ∷ "[CacheService] REMOVE request for key: session:abc" ∷ "[Metrics] cache.remove +1"
      ∷ "[RedisCache] DEL session:abc from Redis cluster" ∷ []
unfolding accepted calls memory_get memory_put memory_remove
accepted_lines = refl

redis_empty_key :
    (call RedisCache (putting "" "value") (tt, [])).1
    ≡ throws (invalid_argument "cache key cannot be empty")
unfolding call
redis_empty_key = refl

memory-Refines_example :
    Refines
      (calls InMemoryCache main_calls (empty_memory, [])).0
      (effects main_calls empty_abstract)
memory-Refines_example = memory-Refines main_calls []
