-- ===== src/Facade/Fetch.antt =====
-- What a batch returns, counts and caches.
use mathlib.Core.Path.{fun_ext}
use cpp_design_patterns.Prelude.{
  ℕ, ◌+◌, ◌≡◌, refl, ap, inl, inr, List, [], ◌∷◌, ◌++◌, map, All, Option, none, some, Option-cases,
  length, length-append, set, List-cases, append_assoc, ==_iff, arith,
}
use cpp_design_patterns.Prelude.Dict.{find, insert, find-insert}
use cpp_design_patterns.Prelude.Int.{ℤ, int_eq}
use cpp_design_patterns.Facade.{
  UserProfile, Metrics, record_cache_hit, record_db_hit, record_miss, Profiles, get_many, load_many,
  put_many, scan, merge, fetch_profiles,
}

-- The profile of one id: the cache's if it has one, else the database's.
abbrev pub resolve : Profiles → Profiles → ℤ → Option UserProfile
resolve cache db id = elim (find id cache) [ none ↦ find id db | some p ↦ some p ]

-- The rows of the database stand under their own ids.
abbrev pub IsKeyed : Profiles → Type 0
IsKeyed db = (id : ℤ) (p : UserProfile) → find id db ≡ some p → p.user_id ≡ id

pub set-append {ℓ} :
    {A : Type ℓ} (xs : List A) (x y : A) (ys : List A)
    → set (xs ++ (x ∷ ys)) (length xs) y ≡ xs ++ (y ∷ ys)
set-append [] x y ys = refl
set-append (z ∷ xs) x y ys = ap (◌∷◌ z) (set-append xs x y ys)

merge-nil :
    (positions : List ℕ) (results : List (Option UserProfile)) (m : Metrics)
    → merge positions [] results m ≡ (results, m, [])
unfolding merge
merge-nil [] results m = refl
merge-nil (p ∷ ps) results m = refl

-- The calls of the database for some ids: none when there are none.
abbrev pub asked : List ℤ → List (List ℤ)
asked [] = []
asked (id ∷ ids) = (id ∷ ids) ∷ []

module _ (cache db : Profiles) where
  -- Both loops together, on the part of the results from position `length before` on.
  abbrev pub both :
      List ℤ
      → List (Option UserProfile)
      → Metrics
      → Metrics
      → List (Option UserProfile) × Metrics × List UserProfile
  both ids before m n =
      let (_, missed, positions) = scan (length before) ids (get_many cache ids) m in
      merge positions (load_many db missed) (before ++ get_many cache ids) n

  -- A position further on, with one more result before it.
  pub both-step :
      (ids : List ℤ) (before : List (Option UserProfile)) (x : Option UserProfile) (m n : Metrics)
      → (let (_, missed, positions) = scan (length before + 1) ids (get_many cache ids) m in
          merge positions (load_many db missed) (before ++ (x ∷ get_many cache ids)) n)
        ≡ both ids (before ++ (x ∷ [])) m n
  both-step ids before x m n =
      rw (length-append before (x ∷ []), append_assoc before (x ∷ []) (get_many cache ids)) refl

  both-results :
      (ids : List ℤ) (before : List (Option UserProfile)) (m n : Metrics)
      → (both ids before m n).0 ≡ before ++ map (resolve cache db) ids
  unfolding scan merge get_many load_many
  both-results [] before m n = refl
  both-results (id ∷ ids) before m n = elim (Option-cases (find id cache)) [
    | inr (p, e) ↦ ground (
      arith,
      both-step ids before (some p) (record_cache_hit m) n,
      both-results ids (before ++ (some p ∷ [])) (record_cache_hit m) n,
      append_assoc before (some p ∷ []) (map (resolve cache db) ids),
    )
    | inl e ↦ elim (Option-cases (find id db)) [
      | inr (p, f) ↦ ground (
        arith,
        set-append before none (some p) (get_many cache ids),
        both-step ids before (some p) m (record_db_hit n),
        both-results ids (before ++ (some p ∷ [])) m (record_db_hit n),
        append_assoc before (some p ∷ []) (map (resolve cache db) ids),
      )
      | inl f ↦ ground (
        arith,
        both-step ids before none m (record_miss n),
        both-results ids (before ++ (none ∷ [])) m (record_miss n),
        append_assoc before (none ∷ []) (map (resolve cache db) ids),
      )
    ]
  ]

  -- A profile to cache is what its own id resolves to.
  abbrev pub IsDue : UserProfile → Type 0
  IsDue p = resolve cache db p.user_id ≡ some p

  pub both-IsDue :
      (keyed : IsKeyed db) (ids : List ℤ) (before : List (Option UserProfile)) (m n : Metrics)
      → All IsDue (both ids before m n).2
  unfolding scan merge get_many load_many
  both-IsDue keyed [] before m n = tt
  both-IsDue keyed (id ∷ ids) before m n = elim (Option-cases (find id cache)) [
    | inr (p, e) ↦
        let ih = both-IsDue keyed ids (before ++ (some p ∷ [])) (record_cache_hit m) n in
        rw (e, scan) (rw (← both-step ids before (some p) (record_cache_hit m) n) at ih)
    | inl e ↦ elim (Option-cases (find id db)) [
      | inr (p, f) ↦
          let ih = both-IsDue keyed ids (before ++ (some p ∷ [])) m (record_db_hit n) in
          let due : IsDue p = ground (arith, keyed id p f) in
          rw (e, scan, f, merge, set-append before none (some p) (get_many cache ids))
            (due, rw (← both-step ids before (some p) m (record_db_hit n)) at ih)
      | inl f ↦
          let ih = both-IsDue keyed ids (before ++ (none ∷ [])) m (record_miss n) in
          rw (e, scan, f, merge) (rw (← both-step ids before none m (record_miss n)) at ih)
    ]
  ]

  abbrev total : Metrics → ℕ
  total m = m.cache_hits + m.db_hits + m.misses

  both-total :
      (ids : List ℤ) (before : List (Option UserProfile)) (m n : Metrics)
      → total (scan (length before) ids (get_many cache ids) m).0 + total (both ids before m n).1
        ≡ total m + total n + length ids
  unfolding scan merge get_many load_many
  both-total [] before m n = omega arith
  both-total (id ∷ ids) before m n = elim (Option-cases (find id cache)) [
    | inr (p, e) ↦ ground (
      arith,
      length-append before (some p ∷ []),
      both-step ids before (some p) (record_cache_hit m) n,
      both-total ids (before ++ (some p ∷ [])) (record_cache_hit m) n,
    )
    | inl e ↦ elim (Option-cases (find id db)) [
      | inr (p, f) ↦ ground (
        arith,
        length-append before (some p ∷ []),
        set-append before none (some p) (get_many cache ids),
        both-step ids before (some p) m (record_db_hit n),
        both-total ids (before ++ (some p ∷ [])) m (record_db_hit n),
      )
      | inl f ↦ ground (
        arith,
        length-append {A = Option UserProfile} before (none ∷ []),
        both-step ids before none m (record_miss n),
        both-total ids (before ++ (none ∷ [])) m (record_miss n),
      )
    ]
  ]

  -- Caching what is due changes no answer.
  put_many-resolve :
      (ps : List UserProfile) (c : Profiles) (id : ℤ)
      → All IsDue ps
      → ((j : ℤ) → resolve c db j ≡ resolve cache db j)
      → resolve (put_many ps c) db id ≡ resolve cache db id
  unfolding put_many
  put_many-resolve [] c id d same = same id
  put_many-resolve (p ∷ ps) c id (d, ds) same =
      put_many-resolve ps (insert p.user_id p c) id ds
        λ j. ground (arith, find-insert p.user_id j p c, same j, ==_iff p.user_id j, d)

  -- The two returns of `fetch_profiles` in one form.
  pub fetch-both :
      (m : Metrics) (ids : List ℤ)
      → let n = (scan 0 ids (get_many cache ids) m).0 in
        let b = both ids [] m n in
        fetch_profiles cache db m ids ≡ record {
          results = b.0;
          cache = put_many b.2 cache;
          metrics = b.1;
          loads = asked (scan 0 ids (get_many cache ids) m).1;
        }
  unfolding fetch_profiles
  fetch-both m ids =
      let s = scan 0 ids (get_many cache ids) m in
      elim (List-cases s.1) [
        | inl e ↦ ground (arith, merge-nil s.2 (get_many cache ids) s.0)
        | inr (x, xs, e) ↦ elim (List-cases (both ids [] m s.0).2) [
          | inl f ↦ ground arith
          | inr (y, ys, f) ↦ ground arith
        ]
      ]

-- A batch returns, in the order of the ids asked for and one for each, the cache's profile where it
-- has one, else the database's, else nothing.
pub fetch_profiles_lem :
    (cache db : Profiles) (m : Metrics) (ids : List ℤ)
    → (fetch_profiles cache db m ids).results ≡ map (resolve cache db) ids
fetch_profiles_lem cache db m ids =
    rw (fetch-both cache db m ids) (both-results cache db ids [] m _)

-- Every id asked for is counted exactly once: as a hit of the cache, a hit of the database or a
-- miss.
pub fetch_metrics :
    (cache db : Profiles) (m : Metrics) (ids : List ℤ)
    → let n = (fetch_profiles cache db m ids).metrics in
      n.cache_hits + n.db_hits + n.misses ≡ m.cache_hits + m.db_hits + m.misses + length ids
fetch_metrics cache db m ids =
    rw (fetch-both cache db m ids)
      (omega (arith, both-total cache db ids [] m (scan 0 ids (get_many cache ids) m).0))

-- Where the database's rows stand under their own ids, warming the cache up changes no answer: any
-- later batch, with whatever metrics, returns what it would have returned before.
pub fetch_again :
    (cache db : Profiles) (m n : Metrics) (ids later : List ℤ)
    → IsKeyed db
    → (fetch_profiles (fetch_profiles cache db m ids).cache db n later).results
      ≡ (fetch_profiles cache db n later).results
fetch_again cache db m n ids later keyed =
    rw
      (
        fetch_profiles_lem _ db n later,
        fetch_profiles_lem cache db n later,
        fetch-both cache db m ids,
      )
      (map_same later)
  where
    due : List UserProfile
    due = (both cache db ids [] m (scan 0 ids (get_many cache ids) m).0).2

    same : (j : ℤ) → resolve (put_many due cache) db j ≡ resolve cache db j
    same j =
        put_many-resolve cache db due cache j (both-IsDue cache db keyed ids [] m _) (λ j. refl)

    map_same : (js : List ℤ) → map (resolve (put_many due cache) db) js ≡ map (resolve cache db) js
    map_same js = rw (fun_ext same) refl
