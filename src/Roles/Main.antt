-- ===== src/Roles/Main.antt =====
-- `main` of examples/flyweight/main.cpp for any users, and what it reports as saved.
use cpp_design_patterns.Prelude.{
  ℕ, suc, ◌+◌, ◌-◌, ◌%◌, ◌^◌, ◌≤◌, ◌<◌, ◌≡◌, refl, inl, inr, ◌|>◌, String, List, [], ◌∷◌, Option,
  none, some, length, length-append, get_elem?, Option-cases, string_eq, arith,
}
use cpp_design_patterns.Prelude.Dict.{Dict, find, insert}
use cpp_design_patterns.Prelude.Decimal.{to_string}
use cpp_design_patterns.Log.{Log, log_line}
use cpp_design_patterns.Roles.{
  RoleFactory, create_role, get_role, shared_role_count, new_factory, UserContext, can,
  emplace_users,
}

-- A difference of two `size_t`s.
abbrev pub size_minus : ℕ → ℕ → ℕ
size_minus a b = (a + (2 ^ 64 - b % 2 ^ 64)) % 2 ^ 64

abbrev say : List String → RoleFactory → RoleFactory
say parts f = record f { log = log_line parts f.log }

-- The permissions asked for of one user.
unfoldable pub can_each : List String → UserContext → RoleFactory → Option RoleFactory
unfolding can
can_each [] user f = some f
can_each (permission ∷ permissions) user f = elim (can permission user f) [
  | none ↦ none
  | some (_, log) ↦ can_each permissions user (record f { log = log })
]

unfoldable pub check_user : UserContext → RoleFactory → Option RoleFactory
unfolding can_each
check_user user f = elim (get_elem? f.objects user.role_) [
  | none ↦ none
  | some role ↦
      can_each ("read" ∷ "write" ∷ "delete" ∷ "admin" ∷ []) user
        (say ("\nUser: " ∷ user.user_id_ ∷ " (role: " ∷ role.name_ ∷ ")" ∷ []) f)
]

-- The loop of the permission checks.
unfoldable pub check_users : List UserContext → RoleFactory → Option RoleFactory
unfolding check_user
check_users [] f = some f
check_users (user ∷ users) f = elim (check_user user f) [
  | none ↦ none
  | some f' ↦ check_users users f'
]

-- The number of role objects saved, as it is printed.
unfoldable pub saved : RoleFactory × List UserContext → ℕ
unfolding shared_role_count
saved (f, users) = size_minus (length users) (shared_role_count f)

-- The lines before the checks, and those after them.
unfoldable report : RoleFactory × List UserContext → RoleFactory
unfolding shared_role_count saved to_string
report (f, users) =
    f
    |> say ("\nShared role objects created: " ∷ to_string (shared_role_count f) ∷ [])
    |> say ("Total user contexts: " ∷ to_string (length users) ∷ [])
    |> say ("Memory saved: " ∷ to_string (saved (f, users)) ∷ " role objects not duplicated\n" ∷ [])
    |> say ("--- Permission checks ---" ∷ [])

unfoldable conclude : List UserContext → Option RoleFactory → Option RoleFactory
unfolding shared_role_count to_string
conclude users none = none
conclude users (some f) = some (
    f
    |> say ("\n--- Without flyweight ---" ∷ [])
    |> say (
        "Without sharing, we would need "
        ∷ to_string (length users)
        ∷ " separate role objects."
        ∷ [])
    |> say (
        "With flyweight, we only need "
        ∷ to_string (shared_role_count f)
        ∷ " shared role objects."
        ∷ [])
    |> say ("This becomes significant at scale (thousands of users, few roles)." ∷ []))

unfoldable pub run_main : List (String × String) → Log → Option RoleFactory
unfolding emplace_users report check_users conclude
run_main wanted log =
    let banner : String = "Flyweight example: sharing role data across user contexts." in
    let (f, users) =
      emplace_users wanted (record new_factory { log = log_line (banner ∷ []) log }) in
    conclude users (check_users users (report (f, users)))

abbrev pub main_users : List (String × String)
main_users =
    ("alice", "admin")
    ∷ ("bob", "editor")
    ∷ ("charlie", "viewer")
    ∷ ("diana", "admin")
    ∷ ("eve", "editor")
    ∷ ("frank", "viewer")
    ∷ []

length-insert_new :
    (k : String) (v : ℕ) (m : Dict String ℕ)
    → find k m ≡ none
    → length (insert k v m) ≡ suc (length m)
unfolding find insert
length-insert_new k v [] e = refl
length-insert_new k v ((j, w) ∷ m) e = ground (arith, length-insert_new k v m)

-- As many role objects as entries; each call adds one of both, or none.
get_role_counts :
    (role_name : String) (f : RoleFactory)
    → length f.objects ≡ length f.roles_
    → let f' = (get_role role_name f).0 in
      (length f'.objects ≡ length f'.roles_) × (length f'.roles_ ≤ suc (length f.roles_))
unfolding get_role
get_role_counts role_name f same = elim (Option-cases (find role_name f.roles_)) [
  | inr (p, e) ↦ rw (get_role, e) (same, omega arith)
  | inl e ↦
      let grown = length-insert_new role_name (length f.objects) f.roles_ e in
      let more = length-append f.objects (create_role role_name ∷ []) in
      rw (get_role, e) (omega (arith, grown, more), omega (arith, grown))
]

emplace_users_counts :
    (wanted : List (String × String)) (f : RoleFactory)
    → length f.objects ≡ length f.roles_
    → let (f', users) = emplace_users wanted f in
      (length f'.objects ≡ length f'.roles_)
      × (length users ≡ length wanted)
      × (length f'.roles_ ≤ length f.roles_ + length wanted)
unfolding emplace_users
emplace_users_counts [] f same = (same, refl, omega arith)
emplace_users_counts ((user_id, role_name) ∷ wanted) f same =
    let (same', more) = get_role_counts role_name f same in
    let (same'', users, roles) = emplace_users_counts wanted (get_role role_name f).0 same' in
    (same'', omega (arith, users), omega (arith, more, roles))

-- For fewer than 2 ^ 64 users made from a new factory: the factory has made as many role objects as it
-- counts, and the printed difference does not wrap around: with the shared objects it makes the number of users.
pub saved_exact :
    (wanted : List (String × String))
    → length wanted < 2 ^ 64
    → let (f, users) = emplace_users wanted new_factory in
      (length f.objects ≡ shared_role_count f)
      × (saved (f, users) + shared_role_count f ≡ length wanted)
unfolding saved shared_role_count
saved_exact wanted h =
    let (same, users, roles) = emplace_users_counts wanted new_factory refl in
    (same, omega (arith, users, roles))
