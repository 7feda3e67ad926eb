-- ===== src/Repository.antt =====
-- examples/abstract_factory/main.cpp: the two families of clients, the factories that create them,
-- and the repository over any factory. A client's call changes its own state and the log.
pub mod ReadThrough
mod Tests
use cpp_design_patterns.Prelude.{
  ℕ, zero, suc, ◌+◌, ◌|>◌, String, ◌<>◌, List, [], ◌∷◌, Option, none, some, if◌then◌else◌, ◌==◌,
}
use cpp_design_patterns.Prelude.Dict.{Dict, find, insert}
use cpp_design_patterns.Prelude.Decimal.{to_string, show_int}
use cpp_design_patterns.Prelude.Int.{ℤ, pos, int_eq}
use cpp_design_patterns.Log.{Log, log_line}

pub record DatabaseClient : Type 1 where
  pub State : Type 0
  pub load_user : ℤ → State × Log → (State × Log) × Option String

pub record CacheClient : Type 1 where
  pub State : Type 0
  pub get : ℤ → State × Log → (State × Log) × Option String
  pub put : ℤ → String → State × Log → State × Log

-- A database that knows one user.
abbrev pub single_user : ℤ → String → DatabaseClient
single_user known name = record {
  State = Unit;
  load_user = λ user_id s. (s, if user_id == known then some name else none);
}

abbrev pub ProductionDatabaseClient : DatabaseClient
ProductionDatabaseClient = single_user (pos 42) "Ada"

abbrev pub TestDatabaseClient : DatabaseClient
TestDatabaseClient = single_user (pos 5) "test-db-user-5"

-- Both caches are maps; they differ in what they print and in what they hold at first.
abbrev pub map_cache : String → CacheClient
map_cache label = record {
  State = Dict ℤ String;
  get = λ user_id s. (s, find user_id s.0);
  put = λ user_id name s. (
    insert user_id name s.0,
    log_line (label ∷ " cache put user=" ∷ show_int user_id ∷ " name=" ∷ name ∷ []) s.1,
  );
}

abbrev pub ProductionCacheClient : CacheClient
ProductionCacheClient = map_cache "prod"

abbrev pub TestCacheClient : CacheClient
TestCacheClient = map_cache "test"

-- The clients a factory creates, with their first states.
pub record BackendFactory : Type 1 where
  pub Database : DatabaseClient
  pub create_database : Database.State
  pub Cache : CacheClient
  pub create_cache : Cache.State

abbrev pub ProductionBackendFactory : BackendFactory
ProductionBackendFactory = record {
  Database = ProductionDatabaseClient;
  create_database = tt;
  Cache = ProductionCacheClient;
  create_cache = (pos 7, "Grace") ∷ [];
}

abbrev pub TestBackendFactory : BackendFactory
TestBackendFactory = record {
  Database = TestDatabaseClient;
  create_database = tt;
  Cache = TestCacheClient;
  create_cache = (pos 1, "cached-test-user") ∷ [];
}

module _ (factory : BackendFactory) where
  pub record UserRepository : Type 0 where
    pub db_ : factory.Database.State
    pub cache_ : factory.Cache.State

  abbrev pub make : UserRepository
  make = record { db_ = factory.create_database; cache_ = factory.create_cache }

  -- The part after a cache miss.
  unfoldable pub load_and_put : ℤ → UserRepository × Log → (UserRepository × Log) × Option String
  load_and_put user_id (r, log) =
      let ((db, log1), loaded) = factory.Database.load_user user_id (r.db_, log) in
      elim loaded [
        | some name ↦
            let (cache, log2) = factory.Cache.put user_id name (r.cache_, log1) in
            ((record { db_ = db; cache_ = cache }, log2), some name)
        | none ↦ ((record r { db_ = db }, log1), none)
      ]

  unfoldable pub get_user_name : ℤ → UserRepository × Log → (UserRepository × Log) × Option String
  unfolding load_and_put
  get_user_name user_id (r, log) =
      let ((cache, log1), cached) = factory.Cache.get user_id (r.cache_, log) in
      elim cached [
        | some name ↦ (
          (
            record r { cache_ = cache },
            log_line ("cache hit for user=" ∷ show_int user_id ∷ []) log1,
          ),
          some name,
        )
        | none ↦ load_and_put user_id (
          record r { cache_ = cache },
          log_line ("cache miss for user=" ∷ show_int user_id ∷ []) log1,
        )
      ]

  -- The loop of `run_demo` over its attempts.
  unfoldable pub lookups : ℕ → ℕ → ℤ → UserRepository × Log → UserRepository × Log
  unfolding get_user_name
  lookups zero attempt user_id s = s
  lookups (suc more) attempt user_id (r, log) =
      let ((r', log'), user) =
        get_user_name user_id (r, log_line ("lookup " ∷ to_string attempt ∷ ":" ∷ []) log) in
      lookups more (attempt + 1) user_id (
        r',
        elim user [
          | some name ↦ log_line ("user=" ∷ show_int user_id ∷ " name=" ∷ name ∷ []) log'
          | none ↦ log_line ("user=" ∷ show_int user_id ∷ " not found" ∷ []) log'
        ],
      )

unfoldable pub run_demo : String → BackendFactory → ℤ → Log → Log
unfolding lookups to_string
run_demo label factory user_id log =
    (lookups factory 2 1 user_id (make factory, log_line (label ∷ []) log)).1

unfoldable pub main : Log → Log
unfolding run_demo
main log =
    log
    |> log_line ("Abstract Factory example: environment-specific wiring." ∷ [])
    |> run_demo "production:" ProductionBackendFactory (pos 42)
    |> run_demo "test:" TestBackendFactory (pos 5)
