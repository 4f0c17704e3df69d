-- ===== src/Auth/Manager.antt =====
-- The tokens of the authentication service (lib/auth/src/AuthManager.cpp). The reading of the
-- system clock, in nanoseconds, the random bytes and `std::hash` are arguments.
pub mod Tokens
use booking.Prelude.{
  ℕ, ◌+◌, ◌-◌, ◌*◌, ◌/◌, ◌%◌, Bool, true, false, List, [], ◌∷◌, ◌++◌, Option, none, some, remove_if,
  ltb, if◌then◌else◌,
}
use booking.Prelude.Text.{Str, codes, str_eq}
use booking.Prelude.Maps.{Map, lookup, insert, erase}
use booking.Auth.Repository.{User, UserRepository}

pub record AuthToken : Type 0 where
  pub token : Str
  pub username : Str
  pub display_name : Str
  pub roles : List Str
  pub issued_at : ℕ
  pub expires_at : ℕ
  pub is_valid : Bool

abbrev pub minute : ℕ
minute = 60000000000

-- `AuthToken()`.
abbrev pub no_token : AuthToken
no_token = record {
  token = [];
  username = [];
  display_name = [];
  roles = [];
  issued_at = 0;
  expires_at = 0;
  is_valid = false;
}

unfoldable pub new_token : ℕ → Str → Str → Str → List Str → AuthToken
new_token now token username display_name roles = record {
  token = token;
  username = username;
  display_name = display_name;
  roles = roles;
  issued_at = now;
  expires_at = now + 60 * minute;
  is_valid = true;
}

unfoldable pub is_expired : ℕ → AuthToken → Bool
is_expired now t = ltb t.expires_at now

pub record Manager (R : Type 0) : Type 0 where
  pub user_repository : R
  pub active_tokens : Map AuthToken

abbrev hex_digit : ℕ → ℕ
hex_digit d = if ltb d 10 then b'0' + d else (b'a' + d) - 10

-- Two hexadecimal digits for each byte.
unfoldable pub generate_token : List ℕ → Str
generate_token [] = []
generate_token (b ∷ bs) = hex_digit (b / 16) ∷ hex_digit (b % 16) ∷ generate_token bs

unfoldable pub hash_password : (Str → Str) → Str → Str
hash_password hash password = hash (password ++ codes "salt_value")

module _ {R : Type 0} where
  unfoldable pub issue : Manager R → ℕ → List ℕ → User → Str → Manager R × AuthToken
  issue a now bytes user username =
      let token = generate_token bytes in
      let auth_token = new_token now token username user.display_name user.roles in
      (record a { active_tokens = insert token auth_token a.active_tokens }, auth_token)

  unfoldable pub authenticate :
      UserRepository R → (Str → Str) → Manager R → ℕ → List ℕ → Str → Str → Manager R × AuthToken
  authenticate repo hash a now bytes username password =
      elim (repo.find_user a.user_repository username) [
        | none ↦ (a, no_token)
        | some user ↦
            if str_eq user.password_hash (hash_password hash password)
            then issue a now bytes user username
            else (a, no_token)
      ]

  -- The entry of a token, which is erased where it has expired.
  unfoldable pub live : Manager R → ℕ → Str → Manager R × Option AuthToken
  live a now token = elim (lookup token a.active_tokens) [
    | none ↦ (a, none)
    | some t ↦
        if is_expired now t
        then (record a { active_tokens = erase token a.active_tokens }, none)
        else (a, some t)
  ]

  unfoldable pub validate_token : Manager R → ℕ → Str → Manager R × Bool
  unfolding live
  validate_token a now token =
      let (a', t) = live a now token in (a', elim t [ none ↦ false | some t' ↦ t'.is_valid ])

  unfoldable pub get_username : Manager R → ℕ → Str → Manager R × Option Str
  unfolding live
  get_username a now token =
      let (a', t) = live a now token in (a', elim t [ none ↦ none | some t' ↦ some t'.username ])

  unfoldable pub get_display_name : Manager R → ℕ → Str → Manager R × Option Str
  unfolding live
  get_display_name a now token =
      let (a', t) = live a now token in
      (a', elim t [ none ↦ none | some t' ↦ some t'.display_name ])

  unfoldable pub get_roles : Manager R → ℕ → Str → Manager R × Option (List Str)
  unfolding live
  get_roles a now token =
      let (a', t) = live a now token in (a', elim t [ none ↦ none | some t' ↦ some t'.roles ])

  unfoldable pub revoke_token : Manager R → Str → Manager R
  revoke_token a token = record a { active_tokens = erase token a.active_tokens }

  unfoldable pub register_user :
      UserRepository R → (Str → Str) → Manager R → Str → Str → Str → Manager R × Bool
  register_user repo hash a username password display_name =
      let (users, created) = repo.create_user a.user_repository (record {
        username = username;
        password_hash = hash_password hash password;
        display_name = display_name;
        roles = [];
      }) in
      (record a { user_repository = users }, created)

  unfoldable pub cleanup_expired_tokens : Manager R → ℕ → Manager R
  cleanup_expired_tokens a now = record a {
    active_tokens = remove_if (λ e. is_expired now e.1) a.active_tokens;
  }
