-- ===== src/Client/Application.antt =====
-- The client's application thread (include/ApplicationManager.h and
-- src/client/ApplicationManager.cpp). `none` stands for a json::exception that leaves a handler:
-- no one catches it, so the process ends. `parse_room_list`, which nothing calls, is left out.
pub mod Rooms
pub mod History
pub mod Shows
pub mod Login
use booking.Prelude.{
  Bool, true, false, List, [], ◌∷◌, ◌++◌, map, Option, none, some, ◌>>=◌, ◌||◌, if◌then◌else◌,
}
use booking.Prelude.Text.{Str, codes, str_eq}
use booking.Prelude.Streams.{split_first}
use booking.Json.{JsonLib}
use booking.Message.{
  Message, serialize, deserialize, create_auth, create_join_room, create_create_room, create_leave,
  create_chat_message,
}
use booking.Queue.{Queue, waits, returned, push, try_pop}
use booking.Auth.Client
use booking.Client.Command.{
  RoomInfo, UiCommand, UiCommandType, UiData, show_login, show_foyer, show_chatroom,
  update_room_list, add_chat_message_line, update_participants, show_error, quit, monostate,
  room_list_data, chat_message_data, participants_data, error_data, string_data,
}
use booking.Client.State.{
  ApplicationState, login, foyer, chatroom, set_connected, set_username, set_token, set_screen,
  set_rooms, set_current_room, add_chat_message, clear_chat_messages, reset,
}
use booking.Client.Network.{Network, Attempt, connect, start}

-- `network_manager` is none for the null pointer. `sent` holds the texts that the application
-- hands to the socket itself.
pub record Application : Type 0 where
  pub network_inbound : Queue Str
  pub network_outbound : Queue Str
  pub ui_commands : Queue UiCommand
  pub input_events : Queue Str
  pub network_manager : Option Network
  pub state : ApplicationState
  pub running : Bool
  pub in_room : Bool
  pub sent : List Str

-- What one event sees of the outside: the text of `get_timestamp`, the authentication server, the
-- calls behind `connect`, and whether `send` answers more than 0.
pub record Outside : Type 0 where
  pub timestamp : Str
  pub exchange : Str → Str
  pub attempt : Attempt
  pub send_works : Bool

abbrev pub show : Application → UiCommandType → UiData → Application
show a type payload = record a {
  ui_commands = push a.ui_commands (record { type = type; payload = payload });
}

abbrev pub show_problem : Application → Str → Application
show_problem a message = show a show_error (error_data message)

module _ (J : JsonLib) where
  -- `get<std::string>()` of every element.
  unfoldable pub strings : List J.Json → Option (List Str)
  strings [] = some []
  strings (j ∷ js) = do s ← J.get_string j; rest ← strings js; some (s ∷ rest)

  -- The list under a key, empty where the key is missing or is no array.
  unfoldable pub strings_under : J.Json → Str → Option (List Str)
  unfolding strings
  strings_under payload key =
      if J.contains payload key
      then (do j ← J.at payload key; elim (J.elements j) [ none ↦ some [] | some js ↦ strings js ])
      else some []

  unfoldable pub lost_connection : Application → Application
  lost_connection a =
      show_problem
        (show (record a { state = set_screen (set_connected a.state false) login }) show_login
          monostate)
        (codes "Connection lost")

  unfoldable pub room_joined : Application → J.Json → Option Application
  room_joined a payload = do
    room_name ← J.value_string payload (codes "room_name") []
    let state = clear_chat_messages (set_screen (set_current_room a.state room_name) chatroom)
    some (show (record a { in_room = true; state = state }) show_chatroom (string_data room_name))

  unfoldable pub left_room : Application → Application
  left_room a = record a {
    in_room = false;
    state = clear_chat_messages (set_current_room a.state []);
  }

  -- The foyer is shown only outside a room.
  unfoldable pub show_rooms : Application → List RoomInfo → Application
  show_rooms a rooms =
      let a' = record a { state = set_rooms a.state rooms } in
      if a.in_room
      then a'
      else show
          (show (record a' { state = set_screen a'.state foyer }) show_foyer
            (string_data a'.state.username))
          update_room_list (room_list_data rooms)

  unfoldable pub room_list : Application → J.Json → Option Application
  unfolding strings_under show_rooms
  room_list a payload = do
    names ← strings_under payload (codes "rooms")
    some (show_rooms a (map (λ name. record { name = name; client_count = 0 }) names))

  abbrev pub add_line : Application → Str → Application
  add_line a line =
      show (record a { state = add_chat_message a.state line }) add_chat_message_line
        (chat_message_data line)

  unfoldable pub chat_message : Application → J.Json → Option Application
  chat_message a payload = do
    sender ← J.value_string payload (codes "sender") (codes "Unknown")
    text ← J.value_string payload (codes "message") []
    some (add_line a (codes "[" ++ (sender ++ (codes "] " ++ text))))

  unfoldable pub participant_list : Application → J.Json → Option Application
  unfolding strings_under
  participant_list a payload = do
    participants ← strings_under payload (codes "participants")
    some (show a update_participants (participants_data participants))

  unfoldable pub server_error : Application → J.Json → Option Application
  server_error a payload = do
    text ← J.value_string payload (codes "message") (codes "Unknown error")
    some (show_problem a text)

  -- The tests on the message's type.
  unfoldable pub network_dispatch : Application → Message J → Option Application
  unfolding server_error room_joined left_room room_list chat_message participant_list
  network_dispatch a m =
      if str_eq m.body.type (codes "ERROR")
      then server_error a m.body.payload
      else if str_eq m.body.type (codes "ROOM_JOINED")
      then room_joined a m.body.payload
      else if str_eq m.body.type (codes "LEFT_ROOM")
      then some (left_room a)
      else if str_eq m.body.type (codes "ROOM_LIST")
      then room_list a m.body.payload
      else if str_eq m.body.type (codes "MESSAGE")
      then chat_message a m.body.payload
      else if str_eq m.body.type (codes "PARTICIPANT_LIST")
      then participant_list a m.body.payload
      else some a

  unfoldable pub process_network_message : Application → Str → Option Application
  unfolding lost_connection network_dispatch
  process_network_message a message =
      if str_eq message (codes "SERVER_DISCONNECTED\n")
        || str_eq message (codes "CONNECTION_ERROR\n")
      then some (lost_connection a)
      else network_dispatch a (deserialize J message)

  -- `find(':')` and the two calls of `substr`.
  unfoldable pub split_event : Str → Str × Str
  split_event event = elim (split_first b':' event) [ none ↦ (event, []) | some parts ↦ parts ]

  abbrev pub logged_in : Application → Client.AuthResult → Application
  logged_in a r = record a {
    state = set_connected (set_username (set_token a.state r.token) r.display_name) true;
  }

  -- The connection behind a successful authentication.
  unfoldable pub open_chat : Application → Outside → Network → Client.AuthResult → Application
  open_chat a w n r =
      let (n', problem) = connect n w.attempt in
      let a' = record a { network_manager = some n' } in
      let text = serialize J (create_auth J w.timestamp r.token) in
      elim problem [
        | some e ↦ show_problem a' (codes "Failed to connect to chat server: " ++ e)
        | none ↦
            if w.send_works
            then logged_in
                (record a' { sent = a'.sent ++ (text ∷ []); network_manager = some (start n') }) r
            else show_problem (record a' { sent = a'.sent ++ (text ∷ []) })
                (codes "Failed to send authentication token")
      ]

  unfoldable pub login_with : Application → Outside → Str → Str → Application
  unfolding open_chat
  login_with a w username password =
      let r = Client.authenticate w.exchange username password in
      if r.success
      then elim a.network_manager [ none ↦ logged_in a r | some n ↦ open_chat a w n r ]
      else show_problem a (codes "Login failed: " ++ r.error_message)

  abbrev pub queue_out : Application → Message J → Application
  queue_out a m = record a { network_outbound = push a.network_outbound (serialize J m) }

  unfoldable pub logout : Application → Application
  logout a =
      show
        (record a {
          network_outbound = push a.network_outbound (codes "/logout\n");
          state = reset (set_connected a.state false);
        })
        show_login monostate

  unfoldable pub login_event : Application → Outside → Str → Application
  unfolding login_with
  login_event a w event_data = elim (split_first b':' event_data) [
    | none ↦ show_problem a (codes "Invalid login format")
    | some (username, password) ↦ login_with a w username password
  ]

  unfoldable pub process_input_event : Application → Outside → Str → Application
  unfolding login_event logout split_event
  process_input_event a w event =
      let (type, event_data) = split_event event in
      let token = a.state.token in
      if str_eq type (codes "LOGIN")
      then login_event a w event_data
      else if str_eq type (codes "ROOM_SELECTED")
      then queue_out a (create_join_room J w.timestamp token event_data)
      else if str_eq type (codes "CREATE_ROOM")
      then queue_out a (create_create_room J w.timestamp token event_data)
      else if str_eq type (codes "LEAVE")
      then queue_out a (create_leave J w.timestamp token)
      else if str_eq type (codes "LOGOUT")
      then logout a
      else if str_eq type (codes "QUIT")
      then show (record a { running = false }) quit monostate
      else if str_eq type (codes "CHAT_MESSAGE")
      then queue_out (add_line a (codes "[You] " ++ event_data))
          (create_chat_message J w.timestamp token event_data)
      else a

  -- One round of the loop, in which both waits end.
  unfoldable pub application_round : Outside → Application → Option Application
  unfolding process_network_message process_input_event
  application_round w a = do
    let (inbound, message) = try_pop a.network_inbound true
    let a₁ = record a { network_inbound = inbound }
    a₂ ← elim message [
      | waits ↦ some a₁
      | returned none ↦ some a₁
      | returned (some m) ↦ process_network_message a₁ m
    ]
    let (events, event) = try_pop a₂.input_events true
    let a₃ = record a₂ { input_events = events }
    elim event [
      | waits ↦ some a₃
      | returned none ↦ some a₃
      | returned (some e) ↦ some (process_input_event a₃ w e)
    ]
