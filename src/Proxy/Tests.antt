-- ===== src/Proxy/Tests.antt =====
-- examples/proxy/main.cpp: the checks of `main`, through one proxy and through two.
use cpp_design_patterns.Prelude.{◌≡◌, refl, String, List, [], ◌∷◌, string_eq, ◌==◌}
use cpp_design_patterns.Prelude.Dict.{find, insert}
use cpp_design_patterns.Proxy.{
  remote_is_enabled, RemoteFeatureFlagService, CachingState, caching_is_enabled,
  CachingFeatureFlagProxy, check_flags, main,
}
use cpp_design_patterns.Proxy.Caching.{Serves, proxy_transparent}

abbrev flag_names : List String
flag_names = "new-checkout" ∷ "beta-search" ∷ "new-checkout" ∷ []

abbrev empty : CachingState RemoteFeatureFlagService
empty = record { inner_ = tt; cache_ = [] }

main_log :
    (main []).0.1
    ≡ "Proxy example: add caching around a remote client." ∷ "remote lookup for flag=new-checkout"
      ∷ "flag=new-checkout enabled=1" ∷ "remote lookup for flag=beta-search"
      ∷ "flag=beta-search enabled=0" ∷ "proxy cache hit for flag=new-checkout"
      ∷ "flag=new-checkout enabled=1" ∷ []
unfolding main check_flags caching_is_enabled remote_is_enabled find insert
main_log = refl

remote-Serves : Serves (λ flag_name. flag_name == "new-checkout") RemoteFeatureFlagService
unfolding remote_is_enabled
remote-Serves = record {
  IsValid = λ s. Unit;
  kept = λ flag_name s log v. tt;
  answers = λ flag_name s log v. refl;
}

proxy_transparent_example :
    (check_flags (CachingFeatureFlagProxy RemoteFeatureFlagService) flag_names (empty, [])).1
    ≡ (check_flags RemoteFeatureFlagService flag_names (tt, [])).1
unfolding remote-Serves
proxy_transparent_example = proxy_transparent remote-Serves flag_names tt [] tt
