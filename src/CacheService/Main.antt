-- ===== src/CacheService/Main.antt =====
-- `main` of examples/nvi/main.cpp: the two caches, and the calls made to be refused.
use cpp_design_patterns.Prelude.{
  ℕ, zero, suc, ◌*◌, ◌≡◌, ◌<◌, refl, ap, ◌|>◌, String, List, [], ◌∷◌, ◌++◌, append_assoc, lt→ltb,
}
use cpp_design_patterns.Prelude.Texts.{size}
use cpp_design_patterns.Prelude.Result.{invalid_argument, what, Result, ok, throws}
use cpp_design_patterns.Log.{Log, log_line}
use cpp_design_patterns.CacheService.{
  put, InMemoryCache, RedisCache, Call, getting, putting, removing, calls, empty_memory,
  validate_value, validate_key,
}

abbrev caught : (Unit {0} × Log) × Result (Unit {0}) → Unit {0} × Log
caught (s, ok _) = s
caught ((s, log), throws e) = (s, log_line ("  Caught: " ∷ what e ∷ []) log)

-- `std::string(count, 'x')`
unfoldable filled : ℕ → String
filled zero = ""
filled (suc count) = String.◌∷◌ "x" (filled count)

-- The two refused calls of `main`; its value has `count` characters.
unfoldable pub refused : ℕ → Unit {0} × Log → Unit {0} × Log
unfolding put filled
refused count s = s |> (λ s. caught (put RedisCache "" "value" s)) |> λ s.
    caught (put RedisCache "key" (filled count) s)

abbrev memory_calls : List Call
memory_calls =
    putting "user:123" "alice"
    ∷ putting "user:456" "bob"
    ∷ getting "user:123"
    ∷ getting "user:999"
    ∷ removing "user:456"
    ∷ []

abbrev redis_calls : List Call
redis_calls = putting "session:abc" "data" ∷ getting "session:abc" ∷ removing "session:abc" ∷ []

-- `main`, up to the calls that it makes to be refused, and those.
unfoldable pub accepted : Log → Log
unfolding calls
accepted log =
    log
    |> log_line ("NVI example: enforcing invariants in cache service components." ∷ [])
    |> log_line ("\n--- Using InMemoryCache ---" ∷ [])
    |> (λ log. (calls InMemoryCache memory_calls (empty_memory, log)).1)
    |> log_line ("\n--- Using RedisCache ---" ∷ [])
    |> λ log. (calls RedisCache redis_calls (tt, log)).1

unfoldable pub main : Log → Log
unfolding accepted refused
main log =
    log
    |> accepted
    |> log_line ("\n--- Invariant enforcement ---" ∷ [])
    |> log_line ("Attempting invalid operations (should throw):" ∷ [])
    |> (λ log. (refused (2 * 1024 * 1024) (tt, log)).1)
    |> log_line (
        "\nNote: Even though derived classes override virtual methods, the base class ensures logging, validation, and metrics always run."
        ∷ [])

size-filled : (count : ℕ) → size (filled count) ≡ count
unfolding size filled
size-filled zero = refl
size-filled (suc count) = ap suc (size-filled count)

too_large :
    (count : ℕ)
    → 1024 * 1024 < count
    → validate_value (filled count) ≡ throws (invalid_argument "cache value too large (max 1MB)")
unfolding validate_value
too_large count h = rw (size-filled count, lt→ltb (1024 * 1024) count h) refl

-- The two calls that `main` makes to be refused, with a value of more than a mebibyte: each is refused after
-- its first line, for the reason given, and nothing reaches the cache.
pub refused_lem :
    (count : ℕ) (log : Log)
    → 1024 * 1024 < count
    → refused count (tt, log) ≡ (
      tt,
      log
          ++ ("[CacheService] PUT request for key: " ∷ "  Caught: cache key cannot be empty"
              ∷ "[CacheService] PUT request for key: key"
              ∷ "  Caught: cache value too large (max 1MB)" ∷ []),
    )
unfolding refused put validate_key
refused_lem count log h = rw (too_large count h) (simp (append_assoc))
