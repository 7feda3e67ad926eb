-- ===== src/CacheService/Memory.antt =====
-- `InMemoryCache` behind the public operations, against a map from keys to values.
use cpp_design_patterns.Prelude.{
  ℕ, ◌+◌, ◌*◌, ◌≡◌, ◌≢◌, refl, sym, ◌∙◌, String, List, [], ◌∷◌, Bool, true, false, ◌&&◌, Option,
  none, some, Bool-cases, Option-cases, inl, inr, leb, if◌then◌else◌, ◌==◌, string_eq, arith,
}
use cpp_design_patterns.Prelude.Texts.{size}
use cpp_design_patterns.Prelude.Dict.{
  find, HasDistinctKeys, find-insert, find-erase, erase-HasDistinctKeys, insert-HasDistinctKeys,
}
use cpp_design_patterns.Prelude.Result.{ok}
use cpp_design_patterns.Log.{Log}
use cpp_design_patterns.CacheService.{
  empty_memory, CacheService, validate_key, validate_value, get, put, remove, MemoryState,
  memory_get, memory_put, memory_remove, InMemoryCache, Call, getting, putting, removing, call,
  calls,
}

abbrev pub is_key : String → Bool
is_key key = leb 1 (size key) && leb (size key) 256

-- Whether the operation is let through.
abbrev pub is_allowed : Call → Bool
is_allowed (getting key) = is_key key
is_allowed (putting key value) = is_key key && leb (size value) (1024 * 1024)
is_allowed (removing key) = is_key key

-- The abstract cache: a map with the numbers of hits and misses.
pub record Abstract : Type 0 where
  pub value_at : String → Option String
  pub hits : ℕ
  pub misses : ℕ

abbrev pub effect : Call → Abstract → Abstract
effect (getting key) a = elim (a.value_at key) [
  | some _ ↦ record a { hits = a.hits + 1 }
  | none ↦ record a { misses = a.misses + 1 }
]
effect (putting key value) a = record a {
  value_at = λ k. if key == k then some value else a.value_at k;
}
effect (removing key) a = record a { value_at = λ k. if key == k then none else a.value_at k }

abbrev pub effects : List Call → Abstract → Abstract
effects [] a = a
effects (c ∷ cs) a = effects cs (if is_allowed c then effect c a else a)

pub record Refines (s : MemoryState) (a : Abstract) : Type 0 where
  pub keys : HasDistinctKeys s.cache_
  pub values : (k : String) → find k s.cache_ ≡ a.value_at k
  pub hits : s.hits_ ≡ a.hits
  pub misses : s.misses_ ≡ a.misses

key_valid : (key : String) → is_key key ≡ true → validate_key key ≡ ok tt
unfolding validate_key
key_valid key h = ground arith

value_valid :
    (value : String) → leb (size value) (1024 * 1024) ≡ true → validate_value value ≡ ok tt
unfolding validate_value
value_valid value h = ground arith

-- A call with a key or value that validation refuses, for any implementation: the state of the
-- implementation is untouched, and the call throws.
pub refused_untouched :
    (service : CacheService) (c : Call) (s : service.State) (log : Log)
    → is_allowed c ≡ false
    → ((call service c (s, log)).0.0 ≡ s) × ((call service c (s, log)).1 ≢ ok tt)
unfolding call get put remove validate_key validate_value
refused_untouched service (getting key) s log h = ground arith
refused_untouched service (putting key value) s log h = ground arith
refused_untouched service (removing key) s log h = ground arith

allowed :
    (c : Call) (s : MemoryState) (log : Log) (a : Abstract)
    → is_allowed c ≡ true
    → Refines s a
    → Refines (call InMemoryCache c (s, log)).0.0 (effect c a)
unfolding call get put remove memory_get memory_put memory_remove
allowed (getting key) s log a h v =
    let there = v.values key in
    rw (get, key_valid key h)
      (elim (Option-cases (find key s.cache_)) [
        | inl e ↦
            rw (memory_get, e, effect, sym there ∙ e)
              record { keys = v.keys; values = v.values; hits = v.hits; misses = omega arith }
        | inr (value, e) ↦
            rw (memory_get, e, effect, sym there ∙ e)
              record { keys = v.keys; values = v.values; hits = omega arith; misses = v.misses }
      ])
allowed (putting key value) s log a h v =
    rw (put, key_valid key (ground arith), value_valid value (ground arith))
      record {
        keys = insert-HasDistinctKeys key value s.cache_ v.keys;
        values = λ k. ground (arith, find-insert key k value s.cache_, v.values k);
        hits = v.hits;
        misses = v.misses;
      }
allowed (removing key) s log a h v =
    rw (remove, key_valid key h)
      record {
        keys = erase-HasDistinctKeys key s.cache_ v.keys;
        values = λ k. ground (arith, find-erase key k s.cache_ v.keys, v.values k);
        hits = v.hits;
        misses = v.misses;
      }

-- The cache just made.
abbrev pub empty_abstract : Abstract
empty_abstract = record { value_at = λ k. none; hits = 0; misses = 0 }

call-Refines :
    (c : Call) (s : MemoryState) (log : Log) (a : Abstract)
    → Refines s a
    → Refines (call InMemoryCache c (s, log)).0.0 (if is_allowed c then effect c a else a)
call-Refines c s log a v = elim (Bool-cases (is_allowed c)) [
  | inl y ↦ rw (y) (allowed c s log a y v)
  | inr n ↦ rw (n, (refused_untouched InMemoryCache c s log n).0) v
]

calls-Refines :
    (cs : List Call) (s : MemoryState) (log : Log) (a : Abstract)
    → Refines s a
    → Refines (calls InMemoryCache cs (s, log)).0 (effects cs a)
unfolding calls
calls-Refines [] s log a v = v
calls-Refines (c ∷ cs) s log a v =
    let next = call InMemoryCache c (s, log) in
    calls-Refines cs next.0.0 next.0.1 _ (call-Refines c s log a v)

-- After any calls, refused ones among them, `InMemoryCache` holds for every key what the map holds
-- that only the calls let through have changed, and it has counted the hits and misses of the map.
pub memory-Refines :
    (cs : List Call) (log : Log)
    → Refines (calls InMemoryCache cs (empty_memory, log)).0 (effects cs empty_abstract)
unfolding find
memory-Refines cs log =
    calls-Refines cs empty_memory log empty_abstract
      (record { keys = tt; values = λ k. refl; hits = refl; misses = refl })
