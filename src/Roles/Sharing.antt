-- ===== src/Roles/Sharing.antt =====
-- Which users share a role object, and what their permissions are.
use cpp_design_patterns.Prelude.{
  ℕ, zero, suc, ◌≡◌, ◌↔◌, refl, sym, ap, subst, ◌∙◌, inl, inr, String, List, [], ◌∷◌, ◌++◌, some,
  Bool-cases, Option-cases, length, get_elem?, get_elem?-append, get_elem?-end, ◌==◌, ==_iff,
  string_eq, arith,
}
use cpp_design_patterns.Prelude.Dict.{find, insert, find-insert, find-insert_self}
use cpp_design_patterns.Roles.{
  RoleFlyweight, RoleFactory, create_role, get_role, new_factory, UserContext, emplace_users,
}

name-create_role : (role_name : String) → (create_role role_name).name_ ≡ role_name
unfolding create_role
name-create_role role_name =
    ground (arith, ==_iff role_name "admin", ==_iff role_name "editor", ==_iff role_name "viewer")

-- Every role that the map knows is the object that stands at its pointer.
pub record IsConsistent (f : RoleFactory) : Type 0 where
  pub known :
      (k : String) (p : ℕ) → find k f.roles_ ≡ some p → get_elem? f.objects p ≡ some (create_role k)

-- A role made anew is entered under its name, and the others stay.
known_after :
    (role_name : String) (f : RoleFactory)
    → IsConsistent f
    → (k : String) (p : ℕ) → find k (insert role_name (length f.objects) f.roles_) ≡ some p
    → get_elem? (f.objects ++ (create_role role_name ∷ [])) p ≡ some (create_role k)
known_after role_name f v k p h =
    let i = find-insert role_name k (length f.objects) f.roles_ in
    elim (Bool-cases (role_name == k)) [
      | inl y ↦
          let here : length f.objects ≡ p = ground arith in
          let name : role_name ≡ k = (==_iff role_name k).0 y in
          rw (← here, ← name) (get_elem?-end f.objects (create_role role_name))
      | inr n ↦
          get_elem?-append f.objects (create_role role_name ∷ []) p (create_role k)
            (v.known k p (ground arith))
    ]

-- What `get_role` gives and keeps.
record Got (role_name : String) (f f' : RoleFactory) (p : ℕ) : Type 0 where
  consistent : IsConsistent f'
  object : get_elem? f'.objects p ≡ some (create_role role_name)
  later :
      (i : ℕ) (r : RoleFlyweight) → get_elem? f.objects i ≡ some r → get_elem? f'.objects i ≡ some r
  entered : find role_name f'.roles_ ≡ some p
  kept : (k : String) (q : ℕ) → find k f.roles_ ≡ some q → find k f'.roles_ ≡ some q

get_role-Got :
    (role_name : String) (f : RoleFactory)
    → IsConsistent f
    → Got role_name f (get_role role_name f).0 (get_role role_name f).1
unfolding get_role
get_role-Got role_name f v = elim (Option-cases (find role_name f.roles_)) [
  | inr (p, e) ↦
      rw (get_role, e)
        record {
          consistent = record { known = v.known };
          object = v.known role_name p e;
          later = λ i r q. q;
          entered = e;
          kept = λ k q h. h;
        }
  | inl e ↦
      rw (get_role, e)
        record {
          consistent = record { known = known_after role_name f v };
          object = get_elem?-end f.objects (create_role role_name);
          later = get_elem?-append f.objects (create_role role_name ∷ []);
          entered = find-insert_self role_name (length f.objects) f.roles_;
          kept = λ k q h.
              ground
                (arith, find-insert role_name k (length f.objects) f.roles_, ==_iff role_name k);
        }
]

-- What making users gives and keeps.
record Made (wanted : List (String × String)) (f f' : RoleFactory) (users : List UserContext)
    : Type 0 where
  consistent : IsConsistent f'
  later :
      (i : ℕ) (r : RoleFlyweight) → get_elem? f.objects i ≡ some r → get_elem? f'.objects i ≡ some r
  kept : (k : String) (q : ℕ) → find k f.roles_ ≡ some q → find k f'.roles_ ≡ some q
  made :
      (i : ℕ) (x a : String)
      → get_elem? wanted i ≡ some (x, a)
      → (u : UserContext) × (get_elem? users i ≡ some u)
        × (u.user_id_ ≡ x)
        × (find a f'.roles_ ≡ some u.role_)

emplace_users-Made :
    (wanted : List (String × String)) (f : RoleFactory)
    → IsConsistent f
    → Made wanted f (emplace_users wanted f).0 (emplace_users wanted f).1
unfolding emplace_users
emplace_users-Made [] f v = record {
  consistent = v;
  later = λ i r q. q;
  kept = λ k q h. h;
  made = λ i x a h. absurd (cc);
}
emplace_users-Made ((y, b) ∷ wanted) f v =
    let g = get_role-Got b f v in
    let rest = emplace_users-Made wanted (get_role b f).0 g.consistent in
    record {
      consistent = rest.consistent;
      later = λ i r q. rest.later i r (g.later i r q);
      kept = λ k q h. rest.kept k q (g.kept k q h);
      made =
          first_or_rest y b wanted (emplace_users wanted (get_role b f).0).0 _ _
            (rest.kept b (get_role b f).1 g.entered) rest.made;
    }
  where
    first_or_rest :
        (y b : String) (wanted : List (String × String)) (f' : RoleFactory)
        (users : List UserContext) (p : ℕ)
        → find b f'.roles_ ≡ some p
        → ((i : ℕ) (x a : String)
            → get_elem? wanted i ≡ some (x, a)
            → (u : UserContext) × (get_elem? users i ≡ some u)
              × (u.user_id_ ≡ x)
              × (find a f'.roles_ ≡ some u.role_))
        → (i : ℕ) (x a : String) → get_elem? ((y, b) ∷ wanted) i ≡ some (x, a)
        → (u : UserContext) × (get_elem? (record { user_id_ = y; role_ = p } ∷ users) i ≡ some u)
          × (u.user_id_ ≡ x)
          × (find a f'.roles_ ≡ some u.role_)
    first_or_rest y b wanted f' users p e rest zero x a h =
        let asked : String × String = (y, b) in
        let same : asked ≡ (x, a) = cc in
        (
          record { user_id_ = y; role_ = p },
          refl,
          ap (λ w. w.0) same,
          subst (λ n. find n f'.roles_ ≡ some p) (ap (λ w. w.1) same) e,
        )
    first_or_rest y b wanted f' users p e rest (suc i) x a h = rest i x a h

-- Users made from a new factory, whatever the order and the names: the user at each place has the
-- id asked for and a role object with the permissions of its role's name, and two users share a
-- role object exactly when they were made with the same role name.
pub users_share :
    (wanted : List (String × String)) (i j : ℕ) (x y a b : String)
    → get_elem? wanted i ≡ some (x, a)
    → get_elem? wanted j ≡ some (y, b)
    → let (f, users) = emplace_users wanted new_factory in
      (u w : UserContext) × (get_elem? users i ≡ some u)
      × (get_elem? users j ≡ some w)
      × (u.user_id_ ≡ x)
      × (get_elem? f.objects u.role_ ≡ some (create_role a))
      × ((u.role_ ≡ w.role_) ↔ (a ≡ b))
unfolding find
users_share wanted i j x y a b h k =
    let (f, users) = emplace_users wanted new_factory in
    let m = emplace_users-Made wanted new_factory (record { known = λ k p e. absurd (cc) }) in
    let (u, at_i, id, found) = m.made i x a h in
    let (w, at_j, _, found') = m.made j y b k in
    let object = m.consistent.known a u.role_ found in
    let object' = m.consistent.known b w.role_ found' in
    (
      u,
      w,
      at_i,
      at_j,
      id,
      object,
      (
        λ e.
            let roles : create_role a ≡ create_role b = cc (object, object', e) in
            sym (name-create_role a) ∙ ap (λ r. r.name_) roles ∙ name-create_role b,
        λ e. cc (found, found', e),
      ),
    )
