-- ===== src/Auth/Client.antt =====
-- The client of the authentication server (lib/auth/src/AuthClient.cpp). The network is the
-- argument `exchange`: the bytes that have come back for a command when `recv` returns, of which it
-- takes at most 4095; empty where the socket, the connection, the sending or the receiving fails.
use booking.Prelude.{
  Bool, true, false, List, [], ◌∷◌, ◌++◌, Option, none, some, ◌||◌, ◌==◌, if◌then◌else◌,
}
use booking.Prelude.Text.{Str, codes, str_eq, is_empty, starts_with, read_buffer}
use booking.Prelude.Streams.{word, line, split_last, pieces}

pub record AuthResult : Type 0 where
  pub success : Bool
  pub token : Str
  pub display_name : Str
  pub error_message : Str

pub record UserInfo : Type 0 where
  pub username : Str
  pub display_name : Str
  pub roles : List Str

-- Removes one trailing newline.
unfoldable pub drop_newline : Str → Str
drop_newline [] = []
drop_newline (c ∷ []) = if c == b'\n' then [] else c ∷ []
drop_newline (c ∷ d ∷ s) = c ∷ drop_newline (d ∷ s)

unfoldable pub send_command : (Str → Str) → Str → Str
unfolding drop_newline read_buffer
send_command exchange command = drop_newline (read_buffer (exchange command))

unfoldable pub authenticate : (Str → Str) → Str → Str → AuthResult
authenticate exchange username password =
    let response =
      send_command exchange
        (codes "AUTH " ++ (username ++ (codes " " ++ (password ++ codes "\n")))) in
    let (status, rest) = word response in
    let (token, rest') = word rest in
    if is_empty response
    then record {
      success = false;
      token = [];
      display_name = [];
      error_message = codes "No response from auth server";
    }
    else if str_eq status (codes "OK")
    then record { success = true; token = token; display_name = line rest'; error_message = [] }
    else record {
      success = false;
      token = [];
      display_name = [];
      error_message = codes "Authentication failed";
    }

unfoldable pub validate_token : (Str → Str) → Str → Bool
validate_token exchange token =
    starts_with (send_command exchange (codes "VALIDATE " ++ (token ++ codes "\n"))) (codes "VALID")

-- What `get_user_info` makes of the rest of the line behind the user's name.
unfoldable pub user_info : Str → Str → UserInfo
user_info username display_and_roles = elim (split_last b' ' display_and_roles) [
  | none ↦ record { username = username; display_name = display_and_roles; roles = [] }
  | some (display_name, roles_str) ↦ record {
    username = username;
    display_name = display_name;
    roles = pieces b';' [] roles_str;
  }
]

-- `get_user_info` behind the exchange: what the response says.
unfoldable pub read_user_info : Str → Option UserInfo
unfolding user_info
read_user_info response =
    let (status, rest) = word response in
    let (username, rest') = word rest in
    if is_empty response || starts_with response (codes "NOTFOUND")
    then none
    else if str_eq status (codes "USER")
    then some (user_info username (line rest'))
    else none

unfoldable pub get_user_info : (Str → Str) → Str → Option UserInfo
get_user_info exchange token =
    read_user_info (send_command exchange (codes "GETUSER " ++ (token ++ codes "\n")))

unfoldable pub register_user : (Str → Str) → Str → Str → Str → Bool
register_user exchange username password display_name =
    starts_with
      (send_command exchange (
        codes "REGISTER "
        ++ (username ++ (codes " " ++ (password ++ (codes " " ++ (display_name ++ codes "\n")))))))
      (codes "REGISTERED")

unfoldable pub revoke_token : (Str → Str) → Str → Bool
revoke_token exchange token =
    starts_with (send_command exchange (codes "REVOKE " ++ (token ++ codes "\n"))) (codes "REVOKED")
