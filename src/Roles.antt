-- ===== src/Roles.antt =====
-- examples/flyweight/main.cpp: `RoleFactory` and the users that share its roles. A `shared_ptr` is
-- the position of its object in the list of the role objects made so far; as the factory keeps them
-- all, none is freed.
pub mod Sharing
pub mod Main
mod Tests
use cpp_design_patterns.Prelude.{
  ℕ, String, List, [], ◌∷◌, ◌++◌, Bool, true, false, Option, none, some, length, get_elem?,
  if◌then◌else◌, ◌==◌, string_eq, ◌||◌,
}
use cpp_design_patterns.Prelude.Dict.{Dict, find, insert}
use cpp_design_patterns.Log.{Log, log_line}

-- `permissions_` is a set: only `count` reads it.
pub record RoleFlyweight : Type 0 where
  pub name_ : String
  pub permissions_ : List String

abbrev pub count : String → List String → Bool
count perm [] = false
count perm (p ∷ permissions) = (p == perm) || count perm permissions

unfoldable pub has_permission : String → RoleFlyweight → Bool
has_permission perm role = count perm role.permissions_

pub record RoleFactory : Type 0 where
  pub roles_ : Dict String ℕ
  pub objects : List RoleFlyweight
  pub log : Log

unfoldable pub create_role : String → RoleFlyweight
create_role role_name =
    if role_name == "admin"
    then record { name_ = "admin"; permissions_ = "read" ∷ "write" ∷ "delete" ∷ "admin" ∷ [] }
    else if role_name == "editor"
    then record { name_ = "editor"; permissions_ = "read" ∷ "write" ∷ [] }
    else if role_name == "viewer"
    then record { name_ = "viewer"; permissions_ = "read" ∷ [] }
    else record { name_ = role_name; permissions_ = [] }

unfoldable pub get_role : String → RoleFactory → RoleFactory × ℕ
unfolding find insert create_role
get_role role_name f = elim (find role_name f.roles_) [
  | some role ↦ (
    record f { log = log_line ("[RoleFactory] Reusing existing role: " ∷ role_name ∷ []) f.log },
    role,
  )
  | none ↦ (
    record {
      roles_ = insert role_name (length f.objects) f.roles_;
      objects = f.objects ++ (create_role role_name ∷ []);
      log = log_line ("[RoleFactory] Creating new role: " ∷ role_name ∷ []) f.log;
    },
    length f.objects,
  )
]

unfoldable pub shared_role_count : RoleFactory → ℕ
shared_role_count f = length f.roles_

abbrev pub new_factory : RoleFactory
new_factory = record { roles_ = []; objects = []; log = [] }

pub record UserContext : Type 0 where
  pub user_id_ : String
  pub role_ : ℕ

abbrev allowed : Bool → String
allowed true = "ALLOWED"
allowed false = "DENIED"

-- The answer and its log line; nothing for a role that is no object.
unfoldable pub can : String → UserContext → RoleFactory → Option (Bool × Log)
unfolding has_permission
can permission user f = elim (get_elem? f.objects user.role_) [
  | none ↦ none
  | some role ↦
      let answer = has_permission permission role in
      some (
        answer,
        log_line
            ("  User "
              ∷ user.user_id_
              ∷ " (role: "
              ∷ role.name_
              ∷ ") "
              ∷ allowed answer
              ∷ " for: "
              ∷ permission
              ∷ [])
            f.log,
      )
]

-- Users made one behind the other, as in `main`: each with an id and the name of a role.
unfoldable pub emplace_users : List (String × String) → RoleFactory → RoleFactory × List UserContext
unfolding get_role
emplace_users [] f = (f, [])
emplace_users ((user_id, role_name) ∷ wanted) f =
    let (f', role) = get_role role_name f in
    let (f'', users) = emplace_users wanted f' in
    (f'', record { user_id_ = user_id; role_ = role } ∷ users)
