-- ===== src/Auth/FileRepository.antt =====
-- The users in a file (lib/auth/include/auth/FileUserRepository.h, lib/auth/src/FileUserRepository.cpp).
-- What the file holds is part of the state, none where it cannot be opened for reading; whether it
-- can be opened for writing is an argument. The order in which `std::unordered_map` is walked is a
-- parameter.
pub mod Saved
pub mod Restart
use booking.Prelude.{
  ℕ, Bool, true, false, List, [], ◌∷◌, Option, none, some, ◌>>=◌, map, length, if◌then◌else◌, ◌≡◌,
  All,
}
use booking.Prelude.Text.{Str, codes, is_empty}
use booking.Prelude.Maps.{Map, lookup, insert, erase, values}
use booking.Json.{JsonLib}
use booking.Auth.Repository.{User, UserRepository, has_value}

pub record FileRepository : Type 0 where
  pub file : Option Str
  pub users : Map User

-- No key twice.
abbrev pub Distinct : Map User → Type 0
Distinct [] = Unit
Distinct ((k, u) ∷ m) = (lookup k m ≡ none) × Distinct m

-- A walk meets entries of the map only, meets each, and none twice.
pub record Walks (walk : Map User → Map User) : Type 0 where
  pub of_map : (m : Map User) → All (λ e. lookup e.0 m ≡ some e.1) (walk m)
  pub whole : (m : Map User) (k : Str) → lookup k (walk m) ≡ lookup k m
  pub once : (m : Map User) → Distinct (walk m)

module _ (J : JsonLib) where
  unfoldable pub load_roles : List J.Json → Option (List Str)
  load_roles [] = some []
  load_roles (j ∷ js) = do role ← J.get_string j; roles ← load_roles js; some (role ∷ roles)

  -- A user of the array, none where an exception is thrown.
  unfoldable pub load_user : J.Json → Option User
  unfolding load_roles
  load_user j = do
    username ← J.value_string j (codes "username") []
    password_hash ← J.value_string j (codes "password_hash") []
    display_name ← J.value_string j (codes "display_name") []
    let listed = do
      v ← J.at j (codes "roles")
      elim (J.elements v) [ none ↦ some [] | some js ↦ load_roles js ]
    roles ← if J.contains j (codes "roles") then listed else some []
    some (record {
      username = username;
      password_hash = password_hash;
      display_name = display_name;
      roles = roles;
    })

  -- An exception ends the loop, and the users before it stay.
  unfoldable pub load_users : List J.Json → Map User → Map User
  unfolding load_user
  load_users [] users = users
  load_users (j ∷ js) users = elim (load_user j) [
    | none ↦ users
    | some user ↦
        load_users js (if is_empty user.username then users else insert user.username user users)
  ]

  -- `j["users"]` if it is an array.
  unfoldable pub users_of : J.Json → List J.Json
  users_of j =
      let listed = J.at j (codes "users") >>= J.elements in
      if J.contains j (codes "users") then elim listed [ none ↦ [] | some js ↦ js ] else []

  unfoldable pub load_from_file : Option Str → Map User
  unfolding load_users users_of
  load_from_file none = []
  load_from_file (some text) = elim (J.read text) [
    | none ↦ []
    | some j ↦ load_users (users_of j) []
  ]

  -- The constructor.
  unfoldable pub new_file_repository : Option Str → FileRepository
  unfolding load_from_file
  new_file_repository file = record { file = file; users = load_from_file file }

  unfoldable pub user_json : User → J.Json
  user_json user = J.object (
      (codes "username", J.string user.username)
      ∷ (codes "password_hash", J.string user.password_hash)
      ∷ (codes "display_name", J.string user.display_name)
      ∷ (codes "roles", J.array (map J.string user.roles))
      ∷ [])

  unfoldable pub find_user : FileRepository → Str → Option User
  find_user r username = lookup username r.users

  unfoldable pub user_exists : FileRepository → Str → Bool
  user_exists r username = has_value (lookup username r.users)

  unfoldable pub get_user_count : FileRepository → ℕ
  get_user_count r = length r.users

  module _ (walk : Map User → Map User) where
    unfoldable pub save_to_file : Bool → FileRepository → FileRepository
    unfolding user_json
    save_to_file is_open r =
        let j = J.object ((codes "users", J.array (map user_json (values (walk r.users)))) ∷ []) in
        if is_open then record r { file = some (J.dump_indented j) } else r

    unfoldable pub create_user : Bool → FileRepository → User → FileRepository × Bool
    unfolding save_to_file
    create_user is_open r user =
        if has_value (lookup user.username r.users)
        then (r, false)
        else (save_to_file is_open (record r { users = insert user.username user r.users }), true)

    unfoldable pub update_user : Bool → FileRepository → User → FileRepository × Bool
    unfolding save_to_file
    update_user is_open r user =
        if has_value (lookup user.username r.users)
        then (save_to_file is_open (record r { users = insert user.username user r.users }), true)
        else (r, false)

    unfoldable pub delete_user : Bool → FileRepository → Str → FileRepository × Bool
    unfolding save_to_file
    delete_user is_open r username =
        let r' = record r { users = erase username r.users } in
        if has_value (lookup username r.users) then (save_to_file is_open r', true) else (r', false)

    unfoldable pub get_all_users : FileRepository → List User
    get_all_users r = values (walk r.users)

    -- What the authentication manager uses.
    abbrev pub file_repository : Bool → UserRepository FileRepository
    file_repository is_open = record { find_user = find_user; create_user = create_user is_open }
