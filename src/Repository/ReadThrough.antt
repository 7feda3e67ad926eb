-- ===== src/Repository/ReadThrough.antt =====
-- What the repository promises over any lawful family of clients: a read-through cache.
use cpp_design_patterns.Prelude.{
  ◌≡◌, refl, sym, ap, subst, ◌∙◌, inl, inr, String, List, [], ◌∷◌, map, Bool-cases, Option, none,
  some, Option-cases, if◌then◌else◌, ◌==◌, ==_iff, ==_refl,
}
use cpp_design_patterns.Prelude.Dict.{Dict, find, find-insert}
use cpp_design_patterns.Prelude.Int.{ℤ, int_eq}
use cpp_design_patterns.Log.{Log}
use cpp_design_patterns.Repository.{
  BackendFactory, UserRepository, make, load_and_put, get_user_name, map_cache, single_user,
}

-- A database that answers from a fixed table, and a cache that answers what was put last.
pub record Lawful (factory : BackendFactory) : Type 0 where
  pub table : ℤ → Option String
  pub load_table :
      (user_id : ℤ) (s : factory.Database.State × Log)
      → (factory.Database.load_user user_id s).1 ≡ table user_id
  pub view : factory.Cache.State → ℤ → Option String
  pub get_view :
      (user_id : ℤ) (s : factory.Cache.State × Log)
      → (factory.Cache.get user_id s).1 ≡ view s.0 user_id
  pub get_keeps :
      (user_id j : ℤ) (s : factory.Cache.State × Log)
      → view (factory.Cache.get user_id s).0.0 j ≡ view s.0 j
  pub put_view :
      (user_id j : ℤ) (name : String) (s : factory.Cache.State × Log)
      → view (factory.Cache.put user_id name s).0 j
        ≡ (if user_id == j then some name else view s.0 j)

-- The first name, or else the second.
abbrev pub or_else : Option String → Option String → Option String
or_else (some name) other = some name
or_else none other = other

map_same : {f g : ℤ → Option String} (ids : List ℤ) → ((j : ℤ) → f j ≡ g j) → map f ids ≡ map g ids
map_same [] h = refl
map_same (j ∷ ids) h = rw (h j, map_same ids h) refl

module _ (factory : BackendFactory) (laws : Lawful factory) where
  -- What the repository answers for a user: what is cached, or else what the database has.
  abbrev pub answer : UserRepository factory → ℤ → Option String
  answer r user_id = or_else (laws.view r.cache_ user_id) (laws.table user_id)

  -- A lookup.
  record Looked (user_id : ℤ) (r : UserRepository factory)
      (out : (UserRepository factory × Log) × Option String) : Type 0 where
    result : out.1 ≡ answer r user_id
    cached : laws.view out.0.0.cache_ user_id ≡ answer r user_id
    keeps : (j : ℤ) → answer out.0.0 j ≡ answer r j

  load_and_put-Looked :
      (user_id : ℤ) (r : UserRepository factory) (log : Log)
      → laws.view r.cache_ user_id ≡ none
      → Looked user_id r (load_and_put factory user_id (r, log))
  unfolding load_and_put
  load_and_put-Looked user_id r log v =
      let t = laws.load_table user_id (r.db_, log) in
      let log1 = (factory.Database.load_user user_id (r.db_, log)).0.1 in
      elim (Option-cases (factory.Database.load_user user_id (r.db_, log)).1) [
        | inl e ↦
            let none_known = sym t ∙ e in
            rw (load_and_put, e)
              record {
                result = rw (v, none_known) refl;
                cached = rw (v, none_known) refl;
                keeps = λ j. refl;
              }
        | inr (name, e) ↦
            let known = sym t ∙ e in
            rw (load_and_put, e)
              record {
                result = rw (v, known) refl;
                cached =
                    laws.put_view user_id user_id name (r.cache_, log1)
                    ∙ rw (==_refl user_id, v, known) refl;
                keeps = λ j.
                    rw (laws.put_view user_id j name (r.cache_, log1))
                      (elim (Bool-cases (user_id == j)) [
                        | inr n ↦ rw (n) refl
                        | inl y ↦ rw (y) (
                            subst (λ i. some name ≡ or_else (laws.view r.cache_ i) (laws.table i))
                              ((==_iff user_id j).0 y) (rw (v, known) refl))
                      ]);
              }
      ]

  get_user_name-Looked :
      (user_id : ℤ) (r : UserRepository factory) (log : Log)
      → Looked user_id r (get_user_name factory user_id (r, log))
  unfolding get_user_name
  get_user_name-Looked user_id r log =
      let s : factory.Cache.State × Log = (r.cache_, log) in
      let kept = λ (j : ℤ). ap (λ n. or_else n (laws.table j)) (laws.get_keeps user_id j s) in
      elim (Option-cases (factory.Cache.get user_id s).1) [
        | inr (name, e) ↦
            let v = sym (laws.get_view user_id s) ∙ e in
            rw (get_user_name, e)
              record {
                result = rw (v) refl;
                cached = laws.get_keeps user_id user_id s ∙ v ∙ rw (v) refl;
                keeps = kept;
              }
        | inl e ↦
            let v = laws.get_keeps user_id user_id s ∙ sym (laws.get_view user_id s) ∙ e in
            let later =
              load_and_put-Looked user_id (record r { cache_ = (factory.Cache.get user_id s).0.0 })
                _ v in
            rw (get_user_name, e)
              record {
                result = later.result ∙ kept user_id;
                cached = later.cached ∙ kept user_id;
                keeps = λ j. later.keeps j ∙ kept j;
              }
      ]

  -- A name that is cached is found without the database.
  cached_hits :
      (user_id : ℤ) (name : String) (r : UserRepository factory) (log : Log)
      → laws.view r.cache_ user_id ≡ some name
      → let ((r', _), found) = get_user_name factory user_id (r, log) in
        (found ≡ some name) × (r'.db_ ≡ r.db_)
  unfolding get_user_name
  cached_hits user_id name r log v =
      rw (get_user_name, laws.get_view user_id (r.cache_, log) ∙ v) (refl, refl)

  -- Lookups one after the other.
  abbrev pub look_up : List ℤ → UserRepository factory × Log → List (Option String)
  look_up [] s = []
  look_up (user_id ∷ ids) s =
      let (s', user) = get_user_name factory user_id s in user ∷ look_up ids s'

  look_up-answer :
      (ids : List ℤ) (r : UserRepository factory) (log : Log)
      → look_up ids (r, log) ≡ map (answer r) ids
  look_up-answer [] r log = refl
  look_up-answer (user_id ∷ ids) r log =
      let l = get_user_name-Looked user_id r log in
      ap (λ n. n ∷ look_up ids (get_user_name factory user_id (r, log)).0) l.result
      ∙ ap (◌∷◌ (answer r user_id)) (
          look_up-answer ids (get_user_name factory user_id (r, log)).0.0
            (get_user_name factory user_id (r, log)).0.1
          ∙ map_same ids l.keeps)

  -- Over any family of clients whose database answers from a table and whose cache answers what was
  -- put last: whatever users are looked up one after the other in a new repository, each lookup
  -- gives the name in the cache that the factory created, or else the database's.
  pub repository_answers :
      (ids : List ℤ) (log : Log)
      → look_up ids (make factory, log)
        ≡ map (λ user_id. or_else (laws.view factory.create_cache user_id) (laws.table user_id)) ids
  repository_answers ids log = look_up-answer ids (make factory) log

  -- Over such a family, when a lookup has given a name: the next lookup of that user gives the same
  -- name from the cache, without a call to the database.
  pub second_lookup_hits :
      (user_id : ℤ) (name : String) (r : UserRepository factory) (log : Log)
      → (get_user_name factory user_id (r, log)).1 ≡ some name
      → let (s, _) = get_user_name factory user_id (r, log) in
        let ((r'', _), second) = get_user_name factory user_id s in
        (second ≡ some name) × (r''.db_ ≡ s.0.db_)
  second_lookup_hits user_id name r log h =
      let l = get_user_name-Looked user_id r log in
      let (s, _) = get_user_name factory user_id (r, log) in
      cached_hits user_id name s.0 s.1 (l.cached ∙ sym l.result ∙ h)

-- A family of a database that knows one user and a cache in a map is lawful.
abbrev pub map_cache-Lawful :
    (known : ℤ) (name label : String) (data_ : Dict ℤ String)
    → Lawful (record {
      Database = single_user known name;
      create_database = tt;
      Cache = map_cache label;
      create_cache = data_;
    })
map_cache-Lawful known name label data_ = record {
  table = λ user_id. if user_id == known then some name else none;
  load_table = λ user_id s. refl;
  view = λ m user_id. find user_id m;
  get_view = λ user_id s. refl;
  get_keeps = λ user_id j s. refl;
  put_view = λ user_id j name s. find-insert user_id j name s.0;
}
