-- ===== src/Server/Tests.antt =====
-- Rooms and the shared state at concrete clients.
use booking.Prelude.{
  ℕ, ◌≡◌, ◌≤◌, refl, ◌&&◌, ◌==◌, not, true, false, List, [], ◌∷◌, replicate, length, if◌then◌else◌,
  arith, some, ◌++◌,
}
use booking.Prelude.Text.{Str, codes, str_eq, is_empty, starts_with, c_string, read_buffer}
use booking.Prelude.Maps.{lookup}
use booking.Auth.Client
use booking.Json.Sample.{sample}
use booking.Server.Room.{ChatRoom, new_room, add_client, max_history_size}
use booking.Server.Room.History.{add_messages, latest, add_messages-latest}
use booking.Server.Manager.{Server, ClientInfo, Surroundings, is_cached, validate_token, leave_room}
use booking.Server.Manager.Rooms.{is_member, leave_room-is_member}
use booking.Server.Manager.Tokens.{
  validate_window, validate_backed, in_window, confirms, Confirmed, after,
}
use booking.Server.Socket.{Setup, new_socket, initialize, shutdown}
use booking.Server.Socket.Closing.{initialize-shutdown}

abbrev general : Str
general = codes "General"

-- Two members, in the order in which they joined.
abbrev tea : ChatRoom
tea =
    add_client (add_client (new_room (codes "Tea")) 4 (codes "Ada") (codes "ip4")) 5 (codes "Ben")
      (codes "ip5")

abbrev talk : List Str
talk = codes "first" ∷ replicate max_history_size (codes "again")

add_messages-latest_example :
    ((add_messages (new_room general) talk).chat_history ≡ latest talk)
    × (length (add_messages (new_room general) talk).chat_history ≤ max_history_size)
add_messages-latest_example = add_messages-latest (new_room general) talk (omega arith)

abbrev valid : Surroundings
valid = record { now = 100; timestamp = []; exchange = λ c. codes "VALID\n" }

-- Ten seconds later the token is revoked.
abbrev revoked : Surroundings
revoked = record { now = 10000000100; timestamp = []; exchange = λ c. codes "INVALID\n" }

abbrev ada : ClientInfo
ada = record { fd = 4; name = codes "Ada"; ip = codes "ip4"; current_room = []; token = codes "a1" }

abbrev server : Server
server = record {
  connected_clients = ada ∷ [];
  chat_rooms = (codes "Tea", tea) ∷ [];
  token_cache = [];
  sent = [];
}

abbrev ada_in_tea : ClientInfo
ada_in_tea = record ada { current_room = codes "Tea" }

leave_room-is_member_example :
    (is_member ((leave_room sample server valid 4 ada_in_tea).0).chat_rooms (codes "Tea") 4 ≡ (
      if not (is_empty ada_in_tea.current_room)
        && (str_eq ada_in_tea.current_room (codes "Tea") && (4 == 4))
      then false
      else is_member server.chat_rooms (codes "Tea") 4))
    × ((leave_room sample server valid 4 ada_in_tea).1 ≡ record ada_in_tea { current_room = [] })
leave_room-is_member_example = leave_room-is_member sample server valid 4 ada_in_tea (codes "Tea") 4

confirmed : confirms valid (codes "a1") ≡ true
unfolding Client.validate_token Client.send_command starts_with Client.drop_newline c_string
    read_buffer
confirmed = refl

refused : confirms revoked (codes "a1") ≡ false
unfolding Client.validate_token Client.send_command starts_with Client.drop_newline c_string
    read_buffer
refused = refl

uncached : is_cached server 100 (codes "a1") ≡ false
unfolding is_cached lookup
uncached = refl

validate_window_example :
    ((validate_token server valid (codes "a1")).1 ≡ true)
    × ((validate_token (validate_token server valid (codes "a1")).0 revoked (codes "a1")).1
        ≡ in_window 10000000100 100)
validate_window_example =
    validate_window server valid revoked (codes "a1") uncached confirmed refused

accepted : (validate_token (after server []) valid (codes "a1")).1 ≡ true
unfolding validate_token after is_cached lookup Client.validate_token Client.send_command
    starts_with Client.drop_newline c_string read_buffer
accepted = refl

validate_backed_example :
    (t : ℕ) × Confirmed (codes "a1") t ((valid, codes "a1") ∷ []) × (in_window 100 t ≡ true)
validate_backed_example = validate_backed server [] valid (codes "a1") refl accepted

-- A port that is taken.
abbrev taken_port : Setup
taken_port = record { socket = some 3; options_set = true; bound = false; listens = false }

initialize-shutdown_example :
    let r = initialize taken_port (new_socket 3000) in
    (r.closed ++ (shutdown r.socket).1 ≡ 3 ∷ 3 ∷ [])
    × (r.socket.listening ≡ false)
    × ((shutdown (shutdown r.socket).0).1 ≡ [])
initialize-shutdown_example = initialize-shutdown taken_port 3000
