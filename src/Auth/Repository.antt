-- ===== src/Auth/Repository.antt =====
-- The users (lib/auth/include/auth/IUserRepository.h and InMemoryUserRepository.cpp). A future that
-- is fulfilled before it is handed out is its value.
use booking.Prelude.{
  ℕ, Bool, true, false, List, [], ◌++◌, Option, none, some, length, if◌then◌else◌,
}
use booking.Prelude.Text.{Str, codes}
use booking.Prelude.Maps.{Map, lookup, insert, erase, values}

pub record User : Type 0 where
  pub username : Str
  pub password_hash : Str
  pub display_name : Str
  pub roles : List Str

-- What the authentication manager calls of a repository.
pub record UserRepository (R : Type 0) : Type 0 where
  pub find_user : R → Str → Option User
  pub create_user : R → User → R × Bool

abbrev pub has_value {ℓ} : {A : Type ℓ} → Option A → Bool
has_value none = false
has_value (some a) = true

-- The constructor's user, for the hash of `std::hash` written in hexadecimal.
unfoldable pub in_memory : (Str → Str) → Map User
in_memory hash =
    insert (codes "test")
      (record {
        username = codes "test";
        password_hash = hash (codes "test123" ++ codes "salt_value");
        display_name = codes "Test User";
        roles = [];
      })
      []

unfoldable pub find_user : Map User → Str → Option User
find_user users username = lookup username users

unfoldable pub create_user : Map User → User → Map User × Bool
create_user users user =
    if has_value (lookup user.username users)
    then (users, false)
    else (insert user.username user users, true)

unfoldable pub update_user : Map User → User → Map User × Bool
update_user users user =
    if has_value (lookup user.username users)
    then (insert user.username user users, true)
    else (users, false)

unfoldable pub delete_user : Map User → Str → Map User × Bool
delete_user users username = (erase username users, has_value (lookup username users))

unfoldable pub user_exists : Map User → Str → Bool
user_exists users username = has_value (lookup username users)

unfoldable pub get_all_users : Map User → List User
get_all_users users = values users

unfoldable pub get_user_count : Map User → ℕ
get_user_count users = length users

abbrev pub in_memory_repository : UserRepository (Map User)
in_memory_repository = record { find_user = find_user; create_user = create_user }
