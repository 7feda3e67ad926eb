-- ===== src/Proxy.antt =====
-- examples/proxy/main.cpp: feature-flag services and the proxy that caches another service's
-- answers. A service is the record of its state and its one operation, so a proxy is a function
-- from services to services; every operation prints to the log that all share.
pub mod Caching
mod Tests
use cpp_design_patterns.Prelude.{
  String, List, [], ◌∷◌, Bool, true, false, Option, none, some, string_eq, ◌==◌, if◌then◌else◌,
}
use cpp_design_patterns.Prelude.Dict.{Dict, find, insert}
use cpp_design_patterns.Log.{Log, log_line}

pub record FeatureFlagService : Type 1 where
  pub State : Type 0
  pub is_enabled : String → State × Log → (State × Log) × Bool

unfoldable pub remote_is_enabled : String → Unit {0} × Log → (Unit {0} × Log) × Bool
remote_is_enabled flag_name (s, log) =
    ((s, log_line ("remote lookup for flag=" ∷ flag_name ∷ []) log), flag_name == "new-checkout")

abbrev pub RemoteFeatureFlagService : FeatureFlagService
RemoteFeatureFlagService = record { State = Unit; is_enabled = remote_is_enabled }

pub record CachingState (inner : FeatureFlagService) : Type 0 where
  pub inner_ : inner.State
  pub cache_ : Dict String Bool

unfoldable pub caching_is_enabled :
    (inner : FeatureFlagService)
    → String
    → CachingState inner × Log
    → (CachingState inner × Log) × Bool
unfolding find insert
caching_is_enabled inner flag_name (s, log) = elim (find flag_name s.cache_) [
  | some enabled ↦ ((s, log_line ("proxy cache hit for flag=" ∷ flag_name ∷ []) log), enabled)
  | none ↦
      let ((inner', log'), enabled) = inner.is_enabled flag_name (s.inner_, log) in
      ((record { inner_ = inner'; cache_ = insert flag_name enabled s.cache_ }, log'), enabled)
]

abbrev pub CachingFeatureFlagProxy : FeatureFlagService → FeatureFlagService
CachingFeatureFlagProxy inner = record {
  State = CachingState inner;
  is_enabled = caching_is_enabled inner;
}

abbrev pub shown : Bool → String
shown true = "1"
shown false = "0"

-- The line printed, after the service's own lines, and the answer in it.
unfoldable pub check_flag :
    (service : FeatureFlagService) → String → service.State × Log → (service.State × Log) × Bool
check_flag service flag_name s =
    let ((state, log), enabled) = service.is_enabled flag_name s in
    ((state, log_line ("flag=" ∷ flag_name ∷ " enabled=" ∷ shown enabled ∷ []) log), enabled)

-- The checks of `main`, for any flags: their answers in order.
unfoldable pub check_flags :
    (service : FeatureFlagService)
    → List String
    → service.State × Log
    → (service.State × Log) × List Bool
unfolding check_flag
check_flags service [] s = (s, [])
check_flags service (flag_name ∷ flag_names) s =
    let (s', enabled) = check_flag service flag_name s in
    let (s'', answers) = check_flags service flag_names s' in (s'', enabled ∷ answers)

unfoldable pub main : Log → (CachingState RemoteFeatureFlagService × Log) × List Bool
unfolding check_flags caching_is_enabled remote_is_enabled
main log =
    check_flags (CachingFeatureFlagProxy RemoteFeatureFlagService)
      ("new-checkout" ∷ "beta-search" ∷ "new-checkout" ∷ [])
      (
        record { inner_ = tt; cache_ = [] },
        log_line ("Proxy example: add caching around a remote client." ∷ []) log,
      )
