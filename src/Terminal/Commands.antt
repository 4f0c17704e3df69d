-- ===== src/Terminal/Commands.antt =====
-- `process_commands`. A command whose data is of another type than its own makes `get` throw, which
-- ends the process: none.
pub mod Drain
use booking.Prelude.{
  ℕ, zero, suc, ◌-◌, ◌+◌, Bool, true, false, List, [], ◌∷◌, ◌++◌, map, length, min, leb, Option,
  none, some, ◌>>=◌, if◌then◌else◌,
}
use booking.Prelude.Text.{Str, codes}
use booking.Queue.{Queue, Outcome, waits, returned, try_pop, size}
use booking.Client.Command.{
  RoomInfo, UiCommand, UiCommandType, UiData, show_login, show_foyer, show_chatroom,
  update_room_list, add_chat_message_line, update_participants, show_error, show_status,
  clear_input, quit, monostate, room_list_data, chat_message_data, participants_data, error_data,
  status_data, string_data,
}
use booking.Client.State.{login, foyer, chatroom}
use booking.Ui.Menu
use booking.Ui.Menu.{Menu}
use booking.Ui.MessageBox.{new_message_box}
use booking.Terminal.{Terminal, ScreenSize, map_option}
use booking.Terminal.Screens.{setup_login_ui, setup_foyer_ui, setup_chatroom_ui, room_item, cleared}

-- `cmd.has_data()` and `cmd.get<std::string>()`: what to do without data, and with a text.
abbrev pub with_string : UiData → Option Terminal → (Str → Option Terminal) → Option Terminal
with_string monostate skip f = skip
with_string (string_data s) skip f = f s
with_string (room_list_data x) skip f = none
with_string (chat_message_data x) skip f = none
with_string (participants_data x) skip f = none
with_string (error_data x) skip f = none
with_string (status_data x) skip f = none

abbrev pub with_rooms :
    UiData → Option Terminal → (List RoomInfo → Option Terminal) → Option Terminal
with_rooms monostate skip f = skip
with_rooms (room_list_data rooms) skip f = f rooms
with_rooms (string_data x) skip f = none
with_rooms (chat_message_data x) skip f = none
with_rooms (participants_data x) skip f = none
with_rooms (error_data x) skip f = none
with_rooms (status_data x) skip f = none

abbrev pub with_chat : UiData → Option Terminal → (Str → Option Terminal) → Option Terminal
with_chat monostate skip f = skip
with_chat (chat_message_data s) skip f = f s
with_chat (string_data x) skip f = none
with_chat (room_list_data x) skip f = none
with_chat (participants_data x) skip f = none
with_chat (error_data x) skip f = none
with_chat (status_data x) skip f = none

abbrev pub with_participants :
    UiData → Option Terminal → (List Str → Option Terminal) → Option Terminal
with_participants monostate skip f = skip
with_participants (participants_data s) skip f = f s
with_participants (string_data x) skip f = none
with_participants (room_list_data x) skip f = none
with_participants (chat_message_data x) skip f = none
with_participants (error_data x) skip f = none
with_participants (status_data x) skip f = none

abbrev pub with_error : UiData → Option Terminal → (Str → Option Terminal) → Option Terminal
with_error monostate skip f = skip
with_error (error_data s) skip f = f s
with_error (string_data x) skip f = none
with_error (room_list_data x) skip f = none
with_error (chat_message_data x) skip f = none
with_error (participants_data x) skip f = none
with_error (status_data x) skip f = none

abbrev pub with_status : UiData → Option Terminal → (Str → Option Terminal) → Option Terminal
with_status monostate skip f = skip
with_status (status_data s) skip f = f s
with_status (string_data x) skip f = none
with_status (room_list_data x) skip f = none
with_status (chat_message_data x) skip f = none
with_status (participants_data x) skip f = none
with_status (error_data x) skip f = none

-- The rooms and, where there is a menu, its items; the index is kept within the rooms.
unfoldable pub update_rooms : Terminal → List RoomInfo → Terminal
update_rooms u rooms = record u {
  rooms = rooms;
  selected_room_index =
      if leb (length rooms) u.selected_room_index then length rooms - 1 else u.selected_room_index;
  room_menu = map_option (λ m. Menu.set_items m (map room_item rooms)) u.room_menu;
}

-- The cases of the switch.
unfoldable pub process_command : ScreenSize → Terminal → UiCommandType → UiData → Option Terminal
process_command size u show_login payload =
    some
      (setup_login_ui (record u { current_screen = login; input_buffer = []; error_message = [] }))
process_command size u show_foyer payload =
    let u' = record u { current_screen = foyer; selected_room_index = 0; input_buffer = [] } in
    with_string payload (some (setup_foyer_ui size u'))
      (λ name. some (setup_foyer_ui size (record u' { username = name })))
process_command size u show_chatroom payload =
    let u' = record u { current_screen = chatroom; input_buffer = [] } in
    with_string payload (some (setup_chatroom_ui size u'))
      (λ name. some (setup_chatroom_ui size (record u' { current_room = name })))
process_command size u update_room_list payload =
    with_rooms payload (some u) (λ rooms. some (update_rooms u rooms))
process_command size u add_chat_message_line payload =
    with_chat payload (some u)
      (λ line. some (record u { chat_messages = u.chat_messages ++ (line ∷ []) }))
process_command size u update_participants payload =
    with_participants payload (some u) (λ names. some (record u { participants = names }))
process_command size u show_error payload = with_error payload (some u) (λ message.
    let box = new_message_box (min 60 (size.max_x - 4)) 9 (codes "Error") message in
    some (record u { error_message = message; message_box = some (record box { visible = true }) }))
process_command size u show_status payload =
    with_status payload (some u) (λ message. some (record u { status_message = message }))
process_command size u clear_input payload = some (record u {
  input_buffer = [];
  login_input = map_option cleared u.login_input;
  chat_input = map_option cleared u.chat_input;
})
process_command size u quit payload = some (record u { running = false })

-- A round for each command in the queue, and one that finds it empty.
unfoldable pub commands_loop : ScreenSize → ℕ → Terminal → Option Terminal
unfolding process_command
commands_loop size zero u = some u
commands_loop size (suc k) u =
    let (queue, taken) = try_pop u.ui_commands true in
    let u' = record u { ui_commands = queue } in
    let rest =
      λ (c : UiCommand). process_command size u' c.type c.payload >>= commands_loop size k in
    elim taken [ waits ↦ some u' | returned none ↦ some u' | returned (some c) ↦ rest c ]

unfoldable pub process_commands : ScreenSize → Terminal → Option Terminal
unfolding commands_loop
process_commands size_ u = commands_loop size_ (suc (size u.ui_commands)) u
