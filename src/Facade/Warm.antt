-- ===== src/Facade/Warm.antt =====
-- What a batch asks the database for, and what it asks for when the same batch comes again.
use cpp_design_patterns.Prelude.{
  ℕ, ◌+◌, ◌≡◌, refl, sym, ap, subst, ◌∙◌, inl, inr, List, [], ◌∷◌, ◌++◌, All, Option, none, some,
  Option-cases, ==_iff, arith,
}
use cpp_design_patterns.Prelude.Dict.{find, insert, find-insert}
use cpp_design_patterns.Prelude.Int.{ℤ, int_eq}
use cpp_design_patterns.Facade.{
  UserProfile, Metrics, record_cache_hit, record_db_hit, record_miss, Profiles, get_many, scan,
  put_many, load_many, merge, fetch_profiles,
}
use cpp_design_patterns.Facade.Fetch.{
  resolve, asked, IsKeyed, both, both-step, IsDue, both-IsDue, fetch-both, set-append,
}

-- The ids without a profile, in order and as often as they stand.
abbrev pub not_in : Profiles → List ℤ → List ℤ
not_in profiles [] = []
not_in profiles (id ∷ ids) = elim (find id profiles) [
  | none ↦ id ∷ not_in profiles ids
  | some _ ↦ not_in profiles ids
]

scan-missed :
    (cache : Profiles) (ids : List ℤ) (i : ℕ) (m : Metrics)
    → (scan i ids (get_many cache ids) m).1 ≡ not_in cache ids
unfolding scan get_many
scan-missed cache [] i m = refl
scan-missed cache (id ∷ ids) i m = elim (Option-cases (find id cache)) [
  | inr (p, e) ↦ ground (arith, scan-missed cache ids (i + 1) (record_cache_hit m))
  | inl e ↦ ground (arith, scan-missed cache ids (i + 1) m)
]

-- A batch asks the database once, for exactly the ids that the cache has no profile for, in their order, or
-- not at all when there are none.
pub fetch_loads :
    (cache db : Profiles) (ids : List ℤ) (m : Metrics)
    → (fetch_profiles cache db m ids).loads ≡ asked (not_in cache ids)
fetch_loads cache db ids m =
    ap (λ fetched. fetched.loads) (fetch-both cache db m ids) ∙ ap asked (scan-missed cache ids 0 m)

module _ (cache db : Profiles) where
  -- Caching what is due leaves a right entry right.
  put_many-kept :
      (ps : List UserProfile) (c : Profiles) (id : ℤ)
      → All (IsDue cache db) ps
      → find id c ≡ resolve cache db id
      → find id (put_many ps c) ≡ resolve cache db id
  unfolding put_many
  put_many-kept [] c id d right = right
  put_many-kept (p ∷ ps) c id (d, ds) right =
      put_many-kept ps (insert p.user_id p c) id ds
        (ground (arith, find-insert p.user_id id p c, ==_iff p.user_id id, d))

  -- An id that is in the database alone finds its profile once the profiles are cached.
  abbrev Settled : List UserProfile → ℤ → Type 0
  Settled ps id =
      (p : UserProfile)
      → find id cache ≡ none
      → find id db ≡ some p
      → (c : Profiles) → find id (put_many ps c) ≡ resolve cache db id

  here-Settled :
      (p : UserProfile) (ps : List UserProfile) (id : ℤ)
      → find id cache ≡ none
      → find id db ≡ some p
      → p.user_id ≡ id
      → All (IsDue cache db) ps
      → Settled (p ∷ ps) id
  unfolding put_many
  here-Settled p ps id e f own d q g k c =
      put_many-kept ps (insert p.user_id p c) id d
        (ground (arith, find-insert p.user_id id p c, ==_iff p.user_id id))

  later-Settled :
      (p : UserProfile) (ps : List UserProfile) (ids : List ℤ)
      → All (Settled ps) ids
      → All (Settled (p ∷ ps)) ids
  unfolding put_many
  later-Settled p ps [] v = tt
  later-Settled p ps (id ∷ ids) (v, vs) =
      (λ q e f c. v q e f (insert p.user_id p c), later-Settled p ps ids vs)

  -- The profiles to cache of a batch, by what its first id finds.
  abbrev due : List ℤ → List (Option UserProfile) → Metrics → Metrics → List UserProfile
  due ids before m n = (both cache db ids before m n).2

  module _ (id : ℤ) (ids : List ℤ) (before : List (Option UserProfile)) (m n : Metrics) where
    due-cached :
        (p : UserProfile)
        → find id cache ≡ some p
        → due (id ∷ ids) before m n ≡ due ids (before ++ (some p ∷ [])) (record_cache_hit m) n
    unfolding scan merge get_many load_many
    due-cached p e = ground (arith, both-step cache db ids before (some p) (record_cache_hit m) n)

    due-loaded :
        (p : UserProfile)
        → find id cache ≡ none
        → find id db ≡ some p
        → due (id ∷ ids) before m n ≡ p ∷ due ids (before ++ (some p ∷ [])) m (record_db_hit n)
    unfolding scan merge get_many load_many
    due-loaded p e f = ground (
      arith,
      set-append before none (some p) (get_many cache ids),
      both-step cache db ids before (some p) m (record_db_hit n),
    )

    due-missed :
        find id cache ≡ none
        → find id db ≡ none
        → due (id ∷ ids) before m n ≡ due ids (before ++ (none ∷ [])) m (record_miss n)
    unfolding scan merge get_many load_many
    due-missed e f = ground (arith, both-step cache db ids before none m (record_miss n))

  abbrev AllSettled : List ℤ → List UserProfile → Type 0
  AllSettled ids ps = All (Settled ps) ids

  due-Settled :
      (ids : List ℤ) (before : List (Option UserProfile)) (m n : Metrics)
      → IsKeyed db
      → AllSettled ids (due ids before m n)
  due-Settled [] before m n keyed = tt
  due-Settled (id ∷ ids) before m n keyed = elim (Option-cases (find id cache)) [
    | inr (p, e) ↦ subst (AllSettled (id ∷ ids)) (sym (due-cached id ids before m n p e)) (
      λ q f g. absurd (cc),
      due-Settled ids (before ++ (some p ∷ [])) (record_cache_hit m) n keyed,
    )
    | inl e ↦ elim (Option-cases (find id db)) [
      | inr (p, f) ↦
          let before' = before ++ (some p ∷ []) in
          subst (AllSettled (id ∷ ids)) (sym (due-loaded id ids before m n p e f)) (
            here-Settled p _ id e f (keyed id p f)
                (both-IsDue cache db keyed ids before' m (record_db_hit n)),
            later-Settled p _ ids (due-Settled ids before' m (record_db_hit n) keyed),
          )
      | inl f ↦
          subst (AllSettled (id ∷ ids)) (sym (due-missed id ids before m n e f))
            (λ q g k. absurd (cc), due-Settled ids (before ++ (none ∷ [])) m (record_miss n) keyed)
    ]
  ]

  -- After a batch, the cache has for each of its ids what the cache and the database had together.
  Settled-find :
      (ps : List UserProfile) (id : ℤ)
      → All (IsDue cache db) ps
      → Settled ps id
      → find id (put_many ps cache) ≡ resolve cache db id
  Settled-find ps id d settled = elim (Option-cases (find id cache)) [
    | inr (p, e) ↦ put_many-kept ps cache id d (ground arith)
    | inl e ↦ elim (Option-cases (find id db)) [
      | inr (p, f) ↦ settled p e f cache
      | inl f ↦ put_many-kept ps cache id d (ground arith)
    ]
  ]

  not_in-again :
      (ps : List UserProfile) (ids : List ℤ)
      → All (IsDue cache db) ps
      → AllSettled ids ps
      → not_in (put_many ps cache) ids ≡ not_in db (not_in cache ids)
  not_in-again ps [] d v = refl
  not_in-again ps (id ∷ ids) d (v, vs) =
      ground (arith, Settled-find ps id d v, not_in-again ps ids d vs)

-- Where the database's rows stand under their own ids: when a batch is asked for a second time, the database is
-- asked once, for exactly those ids of the batch, in their order, that neither the cache had a profile for at first
-- nor the database has a row for, or not at all when there are none.
pub fetched_twice :
    (cache db : Profiles) (m n : Metrics) (ids : List ℤ)
    → IsKeyed db
    → (fetch_profiles (fetch_profiles cache db m ids).cache db n ids).loads
      ≡ asked (not_in db (not_in cache ids))
fetched_twice cache db m n ids keyed =
    fetch_loads (fetch_profiles cache db m ids).cache db ids n
    ∙ ap (λ fetched. asked (not_in fetched.cache ids)) (fetch-both cache db m ids)
    ∙ ap asked (
        not_in-again cache db _ ids (both-IsDue cache db keyed ids [] m _)
          (due-Settled cache db ids [] m _ keyed))
