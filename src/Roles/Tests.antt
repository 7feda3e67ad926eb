-- ===== src/Roles/Tests.antt =====
-- examples/flyweight/main.cpp: the run of `main`.
use cpp_design_patterns.Prelude.{
  ◌++◌, ◌<>◌, ◌==◌, string_eq, if◌then◌else◌, ◌≡◌, ◌↔◌, refl, String, List, [], ◌∷◌, map, Option,
  none, some, get_elem?,
}
use cpp_design_patterns.Prelude.Dict.{find, insert}
use cpp_design_patterns.Roles.{
  RoleFactory, has_permission, create_role, get_role, shared_role_count, new_factory, UserContext,
  can, emplace_users,
}
use cpp_design_patterns.Prelude.Decimal.{to_string}
use cpp_design_patterns.Roles.Main.{main_users, run_main, saved, check_users, check_user, can_each}
use cpp_design_patterns.Roles.Sharing.{users_share}

main_sharing :
    (map (λ u. u.role_) (emplace_users main_users new_factory).1 ≡ 0 ∷ 1 ∷ 2 ∷ 0 ∷ 1 ∷ 2 ∷ [])
    × (shared_role_count (emplace_users main_users new_factory).0 ≡ 3)
unfolding emplace_users get_role find insert shared_role_count
main_sharing = (refl, refl)

abbrev admin : String
admin = "admin"

users_share_example :
    let (f, users) = emplace_users main_users new_factory in
    (u w : UserContext) × (get_elem? users 0 ≡ some u)
    × (get_elem? users 3 ≡ some w)
    × (u.user_id_ ≡ "alice")
    × (get_elem? f.objects u.role_ ≡ some (create_role admin))
    × ((u.role_ ≡ w.role_) ↔ (admin ≡ admin))
users_share_example = users_share main_users 0 3 "alice" "diana" admin admin refl refl

abbrev checks : String → String → List String
checks user role =
    ("\nUser: " <> (user <> (" (role: " <> (role <> ")"))))
    ∷ map (λ answer. "  User " <> (user <> (" (role: " <> (role <> (") " <> answer)))))
        (if role == "admin"
          then "ALLOWED for: read" ∷ "ALLOWED for: write" ∷ "ALLOWED for: delete"
            ∷ "ALLOWED for: admin" ∷ []
          else if role == "editor"
          then "ALLOWED for: read" ∷ "ALLOWED for: write" ∷ "DENIED for: delete"
            ∷ "DENIED for: admin" ∷ []
          else "ALLOWED for: read" ∷ "DENIED for: write" ∷ "DENIED for: delete"
            ∷ "DENIED for: admin" ∷ [])

abbrev all_checks : List (String × String) → List String
all_checks [] = []
all_checks ((user, role) ∷ rest) = checks user role ++ all_checks rest

abbrev log_of : Option RoleFactory → List String
log_of none = []
log_of (some f) = f.log

main_run :
    log_of (run_main main_users [])
    ≡ ("Flyweight example: sharing role data across user contexts."
        ∷ "[RoleFactory] Creating new role: admin" ∷ "[RoleFactory] Creating new role: editor"
        ∷ "[RoleFactory] Creating new role: viewer" ∷ "[RoleFactory] Reusing existing role: admin"
        ∷ "[RoleFactory] Reusing existing role: editor"
        ∷ "[RoleFactory] Reusing existing role: viewer" ∷ "\nShared role objects created: 3"
        ∷ "Total user contexts: 6" ∷ "Memory saved: 3 role objects not duplicated\n"
        ∷ "--- Permission checks ---" ∷ [])
      ++ (all_checks main_users
          ++ ("\n--- Without flyweight ---"
              ∷ "Without sharing, we would need 6 separate role objects."
              ∷ "With flyweight, we only need 3 shared role objects."
              ∷ "This becomes significant at scale (thousands of users, few roles)." ∷ []))
unfolding run_main emplace_users get_role find insert shared_role_count create_role saved
    check_users check_user can_each can has_permission to_string
main_run = refl
