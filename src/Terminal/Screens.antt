-- ===== src/Terminal/Screens.antt =====
-- The three screens as `setup_login_ui`, `setup_foyer_ui` and `setup_chatroom_ui` build them, and the
-- callbacks that they install.
use booking.Prelude.{
  ℕ, ◌-◌, true, false, ◌||◌, List, [], ◌∷◌, ◌++◌, map, get_elem?, Option, none, some, if◌then◌else◌,
}
use booking.Prelude.Text.{Str, codes, str_eq, is_empty, to_string}
use booking.Queue.{push}
use booking.Client.Command.{RoomInfo}
use booking.Ui.{Event, Rect}
use booking.Ui.TextInput
use booking.Ui.TextInput.{TextInput, new_text_input, Call, submitted, changed}
use booking.Ui.Menu
use booking.Ui.Menu.{Menu, MenuItem, new_menu, activated, selected}
use booking.Ui.Paint.{a_bold, a_dim}
use booking.Ui.Label.{new_label, new_wrapped_label}
use booking.Ui.ListBox.{new_list_box}
use booking.Ui.Window.{Window, Children, add_child, new_window}
use booking.Terminal.{
  Terminal, ScreenSize, Part, login_part, password_part, menu_part, chat_part, title_part,
  welcome_part, help_part, display_part, members_part, Frame, focus_input, focus_menu, map_option,
  same_part, part_can_focus, part_set_focus,
}

abbrev pub say : Terminal → Str → Terminal
say u event = record u { input_events = push u.input_events event }

-- `login_input_->set_on_submit`.
unfoldable pub login_submitted : Terminal → Str → Terminal
login_submitted u text = if is_empty text then u else record u {
  password_input = map_option (focus_input true) u.password_input;
  login_input = map_option (focus_input false) u.login_input;
}

abbrev pub text_of : Option TextInput → Str
text_of none = []
text_of (some t) = t.text

abbrev pub cleared : TextInput → TextInput
cleared t = (TextInput.clear t).0

-- `password_input_->set_on_submit`.
unfoldable pub password_submitted : Terminal → Str → Terminal
password_submitted u password =
    let username = text_of u.login_input in
    if is_empty username || is_empty password
    then u
    else record (say u (codes "LOGIN:" ++ (username ++ (codes ":" ++ password)))) {
      username = username;
      login_input = map_option cleared u.login_input;
      password_input = map_option cleared u.password_input;
    }

-- `chat_input_->set_on_submit`.
unfoldable pub chat_submitted : Terminal → Str → Terminal
chat_submitted u text =
    let event =
      if str_eq text (codes "/leave")
      then codes "LEAVE"
      else if str_eq text (codes "/quit")
      then codes "QUIT"
      else codes "CHAT_MESSAGE:" ++ text in
    if is_empty text
    then u
    else record (say u event) { chat_input = map_option cleared u.chat_input }

-- `room_menu_->set_on_activate`.
unfoldable pub room_activated : Terminal → ℕ → Terminal
room_activated u index = elim (get_elem? u.rooms index) [
  | none ↦ u
  | some room ↦ say u (codes "ROOM_SELECTED:" ++ room.name)
]

-- The calls of an input or of the menu; the other callbacks are not installed.
abbrev pub input_calls : (Terminal → Str → Terminal) → Terminal → List Call → Terminal
input_calls on_submit u [] = u
input_calls on_submit u (submitted text ∷ calls) = input_calls on_submit (on_submit u text) calls
input_calls on_submit u (changed text ∷ calls) = input_calls on_submit u calls

abbrev pub menu_calls : Terminal → List Menu.Call → Terminal
menu_calls u [] = u
menu_calls u (activated index item ∷ calls) = menu_calls (room_activated u index) calls
menu_calls u (selected index item ∷ calls) = menu_calls u calls

-- An event at a child.
unfoldable pub part_handle : Terminal → Part → Event → Option Terminal
part_handle u login_part event = elim u.login_input [
  | none ↦ none
  | some t ↦ elim (TextInput.handle_event t event) [
    | none ↦ none
    | some (t', calls) ↦
        some (input_calls login_submitted (record u { login_input = some t' }) calls)
  ]
]
part_handle u password_part event = elim u.password_input [
  | none ↦ none
  | some t ↦ elim (TextInput.handle_event t event) [
    | none ↦ none
    | some (t', calls) ↦
        some (input_calls password_submitted (record u { password_input = some t' }) calls)
  ]
]
part_handle u chat_part event = elim u.chat_input [
  | none ↦ none
  | some t ↦ elim (TextInput.handle_event t event) [
    | none ↦ none
    | some (t', calls) ↦ some (input_calls chat_submitted (record u { chat_input = some t' }) calls)
  ]
]
part_handle u menu_part event = elim u.room_menu [
  | none ↦ none
  | some m ↦ elim (Menu.handle_event m event) [
    | none ↦ none
    | some (m', calls) ↦ some (menu_calls (record u { room_menu = some m' }) calls)
  ]
]
part_handle u title_part event = none
part_handle u welcome_part event = none
part_handle u help_part event = none
part_handle u display_part event = none
part_handle u members_part event = none

abbrev pub parts : Children Terminal Part
parts = record {
  same = same_part;
  can_focus = part_can_focus;
  set_focus = part_set_focus;
  handle = part_handle;
}

-- `main_window_` made anew, with its children added in turn.
unfoldable pub add_parts : Terminal → Window Part → List Part → Terminal
add_parts u w [] = record u { main_window = some w }
add_parts u w (p ∷ ps) = let (u', w') = add_child parts u w p in add_parts u' w' ps

unfoldable pub setup_login_ui : Terminal → Terminal
unfolding add_parts
setup_login_ui u =
    let width : ℕ = 40 in
    let login = record (new_text_input 2 3 (width - 4)) {
      placeholder = codes "Enter your name...";
      label = codes "Username:";
    } in
    let password = record (new_text_input 2 5 (width - 4)) {
      placeholder = codes "Enter password...";
      label = codes "Password:";
      password_mode = true;
    } in
    add_parts
      (record u {
        login_input = some (focus_input true login);
        password_input = some (focus_input false password);
        main_frame = some (record {
          height = 10;
          width = width;
          bordered = true;
          title = codes " Chat Client Login ";
        });
        help_label =
            some
              (record (new_label 2 7
                (codes "Tab to switch fields | Enter to login | 'q' to quit")) {
                  attributes = some a_dim;
                });
      })
      (new_window parts) (login_part ∷ password_part ∷ help_part ∷ [])

unfoldable pub room_item : RoomInfo → MenuItem
room_item room = record {
  text = room.name ++ (codes " (" ++ (to_string room.client_count ++ codes " users)"));
  secondary_text = [];
  enabled = true;
}

-- A window of the whole screen, without a border.
abbrev pub full_frame : ScreenSize → Frame
full_frame size = record { height = size.max_y; width = size.max_x; bordered = false; title = [] }

-- The two lines of help of the foyer, with their end of line between them.
abbrev pub foyer_help : Str
foyer_help = codes "Up/Down: Navigate | Enter: Join | c: Create Room" ++ (b'\n' ∷ codes "q: Quit")

unfoldable pub setup_foyer_ui : ScreenSize → Terminal → Terminal
unfolding add_parts
setup_foyer_ui size u =
    let bounds : Rect = record {
      left = 2;
      top = 3;
      width = size.max_x - 4;
      height = size.max_y - 6;
    } in
    let help_bounds : Rect = record {
      left = 0;
      top = size.max_y - 2;
      width = size.max_x;
      height = 2;
    } in
    let menu = record (new_menu bounds) {
      bordered = true;
      title = codes " Available Rooms ";
      numbered = false;
    } in
    add_parts
      (record u {
        room_menu = some (Menu.set_items (focus_menu true menu) (map room_item u.rooms));
        main_frame = some (full_frame size);
        title_label =
            some (record (new_label 0 0 (codes "+=== FOYER ===+")) { attributes = some a_bold });
        welcome_label = some (new_label 0 1 (codes "Welcome, " ++ (u.username ++ codes "!")));
        help_label =
            some (record (new_wrapped_label help_bounds foyer_help) { attributes = some a_dim });
      })
      (new_window parts) (title_part ∷ welcome_part ∷ menu_part ∷ help_part ∷ [])

unfoldable pub setup_chatroom_ui : ScreenSize → Terminal → Terminal
unfolding add_parts
setup_chatroom_ui size u =
    let input = record (new_text_input 1 (size.max_y - 3) (size.max_x - 2)) { label = codes ">" } in
    let members_bounds : Rect = record {
      left = size.max_x - 20;
      top = 0;
      width = 20;
      height = size.max_y - 3;
    } in
    add_parts
      (record u {
        chat_input = some (focus_input true input);
        main_frame = some (full_frame size);
        chat_display = some (record {
          height = size.max_y - 3;
          width = size.max_x - 20 - 1;
          bordered = true;
          title = codes " " ++ (u.current_room ++ codes " ");
        });
        member_list_box =
            some
              (record (new_list_box members_bounds) { bordered = true; title = codes " Members " });
      })
      (new_window parts) (display_part ∷ members_part ∷ chat_part ∷ [])
