-- ===== src/Server/Manager.antt =====
-- The shared state of the chat server and the operations on it (src/server/ClientManager.cpp).
-- Each operation runs between two waits of its thread and is one step here; the locks that it
-- takes in between are not told apart. `sent` records all bytes handed to `send`, in order; the
-- results of those calls are not read. A `shared_ptr` to a room is the room's key in
-- `chat_rooms`, from which no entry is ever removed or replaced. Output to the console is left out.
pub mod Sends
pub mod Rooms
pub mod Keeps
pub mod Tokens
use booking.Prelude.{
  ℕ, ◌-◌, ◌/◌, Bool, true, false, List, [], ◌∷◌, ◌++◌, map, Option, none, some, remove_if, find_if,
  ltb, ◌==◌, if◌then◌else◌,
}
use booking.Prelude.Text.{Str, codes, is_empty}
use booking.Prelude.Maps.{Map, lookup, insert, keys}
use booking.Json.{JsonLib}
use booking.Message.{
  Message, serialize, create_error, create_room_joined, create_room_list, create_participant_list,
  create_broadcast_message,
}
use booking.Auth.Client
use booking.Server.Room
use booking.Server.Room.{ChatRoom, Send, new_room}

pub record ClientInfo : Type 0 where
  pub fd : ℕ
  pub name : Str
  pub ip : Str
  pub current_room : Str
  pub token : Str

-- The values of `token_cache` are readings of the steady clock, in nanoseconds.
pub record Server : Type 0 where
  pub connected_clients : List ClientInfo
  pub chat_rooms : Map ChatRoom
  pub token_cache : Map ℕ
  pub sent : List Send

-- What one wake-up of a thread sees: the steady clock, the text of `get_timestamp`, and the
-- authentication server's answers.
pub record Surroundings : Type 0 where
  pub now : ℕ
  pub timestamp : Str
  pub exchange : Str → Str

abbrev pub token_cache_seconds : ℕ
token_cache_seconds = 30

abbrev pub second : ℕ
second = 1000000000

abbrev pub general : Str
general = codes "General"

unfoldable pub new_manager : Server
new_manager = record {
  connected_clients = [];
  chat_rooms = (general, new_room general) ∷ [];
  token_cache = [];
  sent = [];
}

unfoldable pub emit : Server → List Send → Server
emit s ms = record s { sent = s.sent ++ ms }

unfoldable pub remove_client : Server → ℕ → Server
remove_client s client_fd = record s {
  connected_clients = remove_if (λ c. c.fd == client_fd) s.connected_clients;
}

unfoldable pub get_client_name : Server → ℕ → Str
get_client_name s client_fd = elim (find_if (λ c. c.fd == client_fd) s.connected_clients) [
  | none ↦ codes "Unknown"
  | some c ↦ c.name
]

-- Whether the cache vouches for the token.
unfoldable pub is_cached : Server → ℕ → Str → Bool
is_cached s now token = elim (lookup token s.token_cache) [
  | none ↦ false
  | some then_ ↦ ltb ((now - then_) / second) token_cache_seconds
]

unfoldable pub validate_token : Server → Surroundings → Str → Server × Bool
unfolding is_cached
validate_token s w token =
    if is_cached s w.now token
    then (s, true)
    else if Client.validate_token w.exchange token
    then (record s { token_cache = insert token w.now s.token_cache }, true)
    else (s, false)

-- The members of a room that is in the map changed in place.
unfoldable pub set_room : Server → Str → ChatRoom → Server
set_room s room_name room = record s { chat_rooms = insert room_name room s.chat_rooms }

-- `room->broadcast_message(text, sender_fd)`.
unfoldable pub broadcast_in : Server → Str → ChatRoom → Str → ℕ → Server
unfolding set_room emit
broadcast_in s room_name room text sender_fd =
    let (room', sends) = Room.broadcast_message room text sender_fd in
    emit (set_room s room_name room') sends

unfoldable pub create_room : Server → Str → Server × Bool
unfolding set_room
create_room s room_name = elim (lookup room_name s.chat_rooms) [
  | some room ↦ (s, false)
  | none ↦ (set_room s room_name (new_room room_name), true)
]

module _ (J : JsonLib) where
  unfoldable pub send_message : Server → ℕ → Message J → Server
  unfolding emit
  send_message s fd m = emit s ((fd, serialize J m) ∷ [])

  unfoldable pub send_room_list : Server → Surroundings → ℕ → Server
  unfolding send_message
  send_room_list s w client_fd =
      send_message s client_fd (create_room_list J w.timestamp (keys s.chat_rooms))

  -- The sockets whose entry says that they are in no room.
  unfoldable pub foyer_clients : List ClientInfo → List ℕ
  foyer_clients [] = []
  foyer_clients (c ∷ cs) =
      if is_empty c.current_room then c.fd ∷ foyer_clients cs else foyer_clients cs

  unfoldable pub send_room_lists : Server → Surroundings → List ℕ → Server
  send_room_lists s w [] = s
  send_room_lists s w (fd ∷ fds) = send_room_lists (send_room_list s w fd) w fds

  unfoldable pub broadcast_room_list_to_foyer : Server → Surroundings → Server
  broadcast_room_list_to_foyer s w = send_room_lists s w (foyer_clients s.connected_clients)

  unfoldable pub broadcast_member_list_to_room : Server → Surroundings → Str → Server
  unfolding emit
  broadcast_member_list_to_room s w room_name = elim (lookup room_name s.chat_rooms) [
    | none ↦ s
    | some room ↦
        let text =
          serialize J (create_participant_list J w.timestamp (Room.get_client_names room)) in
        emit s (map (λ fd. (fd, text)) (Room.get_client_fds room))
  ]

  -- What `join_room` tells the others of the room.
  unfoldable pub join_notice : Surroundings → ClientInfo → Str
  join_notice w client_info = serialize J (
      create_broadcast_message J w.timestamp (codes "SERVER")
        (client_info.name ++ codes " joined the room"))

  -- `join_room` from the point at which it has the room.
  unfoldable pub join_found : Server → Surroundings → ℕ → ClientInfo → Str → ChatRoom → Server
  unfolding set_room broadcast_in emit send_message
  join_found s w client_fd info room_name room =
      let room₁ = Room.add_client room client_fd info.name info.ip in
      let s₁ = broadcast_in s room_name room₁ (join_notice w info) client_fd in
      let room₂ = (Room.broadcast_message room₁ (join_notice w info) client_fd).0 in
      let s₂ = emit s₁ (Room.send_history_to_client room₂ client_fd) in
      let s₃ = send_message s₂ client_fd (create_room_joined J w.timestamp room_name) in
      let s₄ = broadcast_room_list_to_foyer s₃ w in broadcast_member_list_to_room s₄ w room_name

  unfoldable pub join_room :
      Server → Surroundings → ℕ → ClientInfo → Str → Server × ClientInfo × Bool
  join_room s w client_fd client_info room_name = elim (lookup room_name s.chat_rooms) [
    | none ↦ (s, client_info, false)
    | some room ↦
        let info = record client_info { current_room = room_name } in
        (join_found s w client_fd info room_name room, info, true)
  ]

  -- `create_error("Left room")` with the type LEFT_ROOM.
  unfoldable pub left_room_message : Str → Message J
  left_room_message timestamp =
      let m = create_error J timestamp (codes "Left room") in
      record m { body = record (m.body) { type = codes "LEFT_ROOM" } }

  -- What `leave_room` tells the others of the room.
  unfoldable pub leave_notice : Surroundings → ClientInfo → Str
  leave_notice w client_info = serialize J (
      create_broadcast_message J w.timestamp (codes "SERVER")
        (client_info.name ++ codes " left the room"))

  -- The part of `leave_room` that needs the room: the notice to the others, and the removal.
  unfoldable pub depart : Server → Surroundings → ℕ → ClientInfo → ChatRoom → Server
  unfolding set_room broadcast_in
  depart s w client_fd client_info room =
      let n = client_info.current_room in
      let s' = broadcast_in s n room (leave_notice w client_info) client_fd in
      let room' = (Room.broadcast_message room (leave_notice w client_info) client_fd).0 in
      set_room s' n (Room.remove_client room' client_fd)

  unfoldable pub depart_if_found : Server → Surroundings → ℕ → ClientInfo → Server
  depart_if_found s w client_fd client_info = elim (lookup client_info.current_room s.chat_rooms) [
    | none ↦ s
    | some room ↦ depart s w client_fd client_info room
  ]

  unfoldable pub leave_room : Server → Surroundings → ℕ → ClientInfo → Server × ClientInfo
  unfolding send_message
  leave_room s w client_fd client_info =
      let info = record client_info { current_room = [] } in
      let s₁ = depart_if_found s w client_fd client_info in
      let s₂ = send_message s₁ client_fd (left_room_message w.timestamp) in
      if is_empty client_info.current_room
      then (s, client_info)
      else (broadcast_room_list_to_foyer s₂ w, info)
