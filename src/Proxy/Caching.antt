-- ===== src/Proxy/Caching.antt =====
-- What the caching proxy keeps of the service behind it.
use cpp_design_patterns.Prelude.{
  ◌≡◌, refl, String, List, [], ◌∷◌, map, Bool, none, some, Option-cases, inl, inr, string_eq,
  ==_iff, arith,
}
use cpp_design_patterns.Prelude.Dict.{find, insert, find-insert, find-insert_self}
use cpp_design_patterns.Log.{Log, log_line}
use cpp_design_patterns.Proxy.{
  FeatureFlagService, CachingState, caching_is_enabled, CachingFeatureFlagProxy, check_flag,
  check_flags,
}

-- The contract of a service whose flags do not change: in its valid states it answers as `flags`
-- does, and it stays valid.
pub record Serves (flags : String → Bool) (service : FeatureFlagService) : Type 1 where
  pub IsValid : service.State → Type 0
  pub kept :
      (flag_name : String) (s : service.State) (log : Log)
      → IsValid s
      → IsValid (service.is_enabled flag_name (s, log)).0.0
  pub answers :
      (flag_name : String) (s : service.State) (log : Log)
      → IsValid s
      → (service.is_enabled flag_name (s, log)).1 ≡ flags flag_name

module _ (inner : FeatureFlagService) (flag_name : String) (s : CachingState inner)
    (log : Log) where
  hit :
      {b : Bool}
      → find flag_name s.cache_ ≡ some b
      → caching_is_enabled inner flag_name (s, log)
        ≡ ((s, log_line ("proxy cache hit for flag=" ∷ flag_name ∷ []) log), b)
  unfolding caching_is_enabled
  hit e = rw (caching_is_enabled, e) refl

  miss :
      find flag_name s.cache_ ≡ none
      → caching_is_enabled inner flag_name (s, log) ≡ (
          let ((inner', log'), enabled) = inner.is_enabled flag_name (s.inner_, log) in
          ((record { inner_ = inner'; cache_ = insert flag_name enabled s.cache_ }, log'), enabled))
  unfolding caching_is_enabled insert
  miss e = rw (caching_is_enabled, e) refl

module _ {flags : String → Bool} {inner : FeatureFlagService} (serves : Serves flags inner) where
  -- The inner state is valid and the cache holds only true answers.
  pub record IsCoherent (s : CachingState inner) : Type 0 where
    pub inner_valid : serves.IsValid s.inner_
    pub cached :
        (flag_name : String) (b : Bool) → find flag_name s.cache_ ≡ some b → b ≡ flags flag_name

  IsCoherent-start :
      (s : inner.State) → serves.IsValid s → IsCoherent (record { inner_ = s; cache_ = [] })
  unfolding find
  IsCoherent-start s v = record { inner_valid = v; cached = λ j b q. absurd (cc) }

  caching-kept :
      (flag_name : String) (s : CachingState inner) (log : Log)
      → IsCoherent s
      → IsCoherent (caching_is_enabled inner flag_name (s, log)).0.0
  caching-kept flag_name s log v = elim (Option-cases (find flag_name s.cache_)) [
    | inr (b, e) ↦ rw (hit inner flag_name s log e) v
    | inl e ↦
        let a = serves.answers flag_name s.inner_ log v.inner_valid in
        rw (miss inner flag_name s log e) record {
          inner_valid = serves.kept flag_name s.inner_ log v.inner_valid;
          cached = λ j b q. ground (
            arith,
            a,
            find-insert flag_name j (inner.is_enabled flag_name (s.inner_, log)).1 s.cache_,
            ==_iff flag_name j,
            v.cached j b,
          );
        }
  ]

  caching-answers :
      (flag_name : String) (s : CachingState inner) (log : Log)
      → IsCoherent s
      → (caching_is_enabled inner flag_name (s, log)).1 ≡ flags flag_name
  caching-answers flag_name s log v = elim (Option-cases (find flag_name s.cache_)) [
    | inr (b, e) ↦ rw (hit inner flag_name s log e) (v.cached flag_name b e)
    | inl e ↦
        rw (miss inner flag_name s log e) (serves.answers flag_name s.inner_ log v.inner_valid)
  ]

  -- A proxy before a service that keeps the contract keeps it too, so proxies stack.
  caching-Serves : Serves flags (CachingFeatureFlagProxy inner)
  caching-Serves = record { IsValid = IsCoherent; kept = caching-kept; answers = caching-answers }

check_flags_lem :
    {flags : String → Bool} {service : FeatureFlagService} (serves : Serves flags service)
    (flag_names : List String) (s : service.State) (log : Log)
    → serves.IsValid s
    → (check_flags service flag_names (s, log)).1 ≡ map flags flag_names
unfolding check_flags check_flag
check_flags_lem serves [] s log v = refl
check_flags_lem {service} serves (f ∷ fs) s log v = cc (
  serves.answers f s log v,
  check_flags_lem serves fs (service.is_enabled f (s, log)).0.0 (check_flag service f (s, log)).0.1
      (serves.kept f s log v),
)

-- Before any service that answers every flag always the same way, and from an empty cache, any
-- sequence of checks through the proxy gets the answers of the service itself.
pub proxy_transparent :
    {flags : String → Bool} {inner : FeatureFlagService} (serves : Serves flags inner)
    (flag_names : List String) (s : inner.State) (log : Log)
    → serves.IsValid s
    → (check_flags
        (CachingFeatureFlagProxy inner)
        flag_names
        (record { inner_ = s; cache_ = [] }, log)).1
      ≡ (check_flags inner flag_names (s, log)).1
unfolding caching-Serves
proxy_transparent serves flag_names s log v = rw (check_flags_lem serves flag_names s log v) (
    check_flags_lem (caching-Serves serves) flag_names (record { inner_ = s; cache_ = [] }) log
      (IsCoherent-start serves s v))

module _ (inner : FeatureFlagService) where
  cached_stays :
      (flag_name other : String) (b : Bool) (s : CachingState inner) (log : Log)
      → find flag_name s.cache_ ≡ some b
      → find flag_name (caching_is_enabled inner other (s, log)).0.0.cache_ ≡ some b
  cached_stays flag_name other b s log h = elim (Option-cases (find other s.cache_)) [
    | inr (c, e) ↦ rw (hit inner other s log e) h
    | inl e ↦ rw (miss inner other s log e) (
        ground (
          arith,
          find-insert other flag_name (inner.is_enabled other (s.inner_, log)).1 s.cache_,
          ==_iff other flag_name,
        ))
  ]

  cached_after :
      (flag_name : String) (s : CachingState inner) (log : Log)
      → find flag_name (caching_is_enabled inner flag_name (s, log)).0.0.cache_
        ≡ some (caching_is_enabled inner flag_name (s, log)).1
  cached_after flag_name s log = elim (Option-cases (find flag_name s.cache_)) [
    | inr (c, e) ↦ rw (hit inner flag_name s log e) e
    | inl e ↦
        rw (miss inner flag_name s log e)
          (find-insert_self flag_name (inner.is_enabled flag_name (s.inner_, log)).1 s.cache_)
  ]

  cached_through :
      (flag_name : String) (b : Bool) (others : List String) (s : CachingState inner) (log : Log)
      → find flag_name s.cache_ ≡ some b
      → find flag_name (check_flags (CachingFeatureFlagProxy inner) others (s, log)).0.0.cache_
        ≡ some b
  unfolding check_flags check_flag
  cached_through flag_name b [] s log h = h
  cached_through flag_name b (o ∷ os) s log h =
      cached_through flag_name b os (caching_is_enabled inner o (s, log)).0.0
        (check_flag (CachingFeatureFlagProxy inner) o (s, log)).0.1
        (cached_stays flag_name o b s log h)

-- Before any service at all: once the proxy has answered a flag, it gives the same answer after any
-- checks in between, and neither the service nor the cache changes by it.
pub answers_stick :
    (inner : FeatureFlagService) (flag_name : String) (others : List String)
    (s : CachingState inner) (log : Log)
    → let ((s1, log1), first) = caching_is_enabled inner flag_name (s, log) in
      let ((s2, log2), _) = check_flags (CachingFeatureFlagProxy inner) others (s1, log1) in
      caching_is_enabled inner flag_name (s2, log2)
      ≡ ((s2, log_line ("proxy cache hit for flag=" ∷ flag_name ∷ []) log2), first)
answers_stick inner flag_name others s log =
    let after = caching_is_enabled inner flag_name (s, log) in
    let between = check_flags (CachingFeatureFlagProxy inner) others (after.0.0, after.0.1) in
    hit inner flag_name between.0.0 between.0.1 (
      cached_through inner flag_name after.1 others after.0.0 after.0.1
        (cached_after inner flag_name s log))
