-- ===== src/Auth/Server.antt =====
-- The requests of the authentication server (`process_request` of lib/auth/src/AuthServer.cpp):
-- the manager after a request, and the bytes of the answer. The manager's repository is any.
pub mod RoundTrip
use booking.Prelude.{ℕ, Bool, true, false, List, [], ◌∷◌, ◌++◌, Option, none, some, if◌then◌else◌}
use booking.Prelude.Text.{Str, codes, str_eq, is_empty}
use booking.Prelude.Streams.{word, line}
use booking.Auth.Repository.{UserRepository}
use booking.Auth.Manager
use booking.Auth.Manager.{Manager}

-- What a request meets: the clock and the random bytes.
pub record Moment : Type 0 where
  pub now : ℕ
  pub bytes : List ℕ

-- The roles with semicolons between them.
unfoldable pub join_roles : List Str → Str
join_roles [] = []
join_roles (r ∷ []) = r
join_roles (r ∷ q ∷ rs) = r ++ (b';' ∷ join_roles (q ∷ rs))

unfoldable pub user_line : Option Str → Option Str → Option (List Str) → Str
user_line (some username) (some display_name) (some roles) =
    codes "USER "
    ++ (username ++ (b' ' ∷ (display_name ++ (b' ' ∷ (join_roles roles ++ codes "\n")))))
user_line _ _ _ = codes "NOTFOUND\n"

module _ {R : Type 0} (repo : UserRepository R) (hash : Str → Str) where
  unfoldable pub request_auth : Manager R → Moment → Str → Manager R × Str
  request_auth a at rest =
      let (username, rest₁) = word rest in
      let (password, rest₂) = word rest₁ in
      let (a', token) = Manager.authenticate repo hash a at.now at.bytes username password in
      (
        a',
        if token.is_valid
            then codes "OK " ++ (token.token ++ (b' ' ∷ (token.display_name ++ codes "\n")))
            else codes "FAILED\n",
      )

  unfoldable pub request_validate : Manager R → Moment → Str → Manager R × Str
  request_validate a at rest =
      let (a', valid) = Manager.validate_token a at.now (word rest).0 in
      (a', if valid then codes "VALID\n" else codes "INVALID\n")

  unfoldable pub request_get_user : Manager R → Moment → Str → Manager R × Str
  unfolding user_line
  request_get_user a at rest =
      let token = (word rest).0 in
      let (a₁, username) = Manager.get_username a at.now token in
      let (a₂, display_name) = Manager.get_display_name a₁ at.now token in
      let (a₃, roles) = Manager.get_roles a₂ at.now token in
      (a₃, user_line username display_name roles)

  unfoldable pub request_register : Manager R → Str → Manager R × Str
  request_register a rest =
      let (username, rest₁) = word rest in
      let (password, rest₂) = word rest₁ in
      let given = line rest₂ in
      let (a', success) =
        Manager.register_user repo hash a username password
          (if is_empty given then username else given) in
      (a', if success then codes "REGISTERED\n" else codes "EXISTS\n")

  unfoldable pub process_request : Manager R → Moment → Str → Manager R × Str
  unfolding request_auth request_validate request_get_user request_register
  process_request a at request =
      let (command, rest) = word request in
      if str_eq command (codes "AUTH")
      then request_auth a at rest
      else if str_eq command (codes "VALIDATE")
      then request_validate a at rest
      else if str_eq command (codes "GETUSER")
      then request_get_user a at rest
      else if str_eq command (codes "REGISTER")
      then request_register a rest
      else if str_eq command (codes "REVOKE")
      then (Manager.revoke_token a (word rest).0, codes "REVOKED\n")
      else (a, codes "UNKNOWN_COMMAND\n")
