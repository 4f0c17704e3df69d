-- ===== src/Terminal/Tests.antt =====
-- The terminal at concrete rooms and keys.
use booking.Prelude.{◌≡◌, refl, ◌⊎◌, ◌≤◌, Bool, true, false, [], ◌∷◌, ◌++◌, none, some, length, All}
use booking.Prelude.Text.{Str, codes}
use booking.Queue.{new_queue}
use booking.Client.Command.{
  RoomInfo, show_foyer, show_status, update_room_list, string_data, status_data, room_list_data,
}
use booking.Client.State.{login}
use booking.Ui.{character, key_enter, key_backspace, is_printable}
use booking.Ui.TextInput.{TextInput, new_text_input}
use booking.Ui.Window.{Window}
use booking.Terminal.{Terminal, ScreenSize, Part, login_part, password_part}
use booking.Terminal.Screens.{say}
use booking.Terminal.Keys.{show_create_room_dialog, has_focus}
use booking.Terminal.Keys.Forward.{type_keys}
use booking.Terminal.Keys.Dialog.{show_create_room_dialog-event}
use booking.Terminal.Keys.Login.{OnName, enter_name-lost}

abbrev room : Str → RoomInfo
room name = record { name = name; client_count = 0 }

abbrev flagged_input : Bool → Str → TextInput
flagged_input focused text = record (new_text_input 2 3 36) {
  widget = record {
    bounds = record { left = 2; top = 3; width = 36; height = 1 };
    visible = true;
    focusable = true;
    focused = focused;
  };
  text = text;
}

abbrev login_window : Window Part
login_window = record {
  children = login_part ∷ password_part ∷ [];
  focused_child = some login_part;
}

-- A login screen with a user name, and rooms for the foyer.
abbrev terminal : Terminal
terminal = record {
  ui_commands = record {
    items =
        record { type = update_room_list; payload = room_list_data (room (codes "general") ∷ []) }
        ∷ record { type = show_foyer; payload = string_data (codes "ada") }
        ∷ record { type = show_status; payload = status_data (codes "ready") }
        ∷ [];
    stopped = false;
  };
  input_events = new_queue;
  current_screen = login;
  rooms = room (codes "general") ∷ room (codes "random") ∷ [];
  chat_messages = [];
  participants = [];
  current_room = [];
  username = [];
  status_message = [];
  error_message = [];
  input_buffer = [];
  selected_room_index = 0;
  main_window = some login_window;
  login_input = some (flagged_input true (codes "ada"));
  password_input = some (flagged_input false []);
  room_menu = none;
  chat_input = none;
  main_frame = none;
  chat_display = none;
  title_label = none;
  welcome_label = none;
  help_label = none;
  member_list_box = none;
  message_box = none;
  running = true;
}

abbrev screen : ScreenSize
screen = record { max_y = 24; max_x = 80 }

show_create_room_dialog-event_example :
    (show_create_room_dialog terminal
        (character b'h' ∷ key_backspace ∷ character b'i' ∷ key_enter ∷ [])
      ≡ terminal)
    ⊎ ((name : Str) × (show_create_room_dialog terminal
            (character b'h' ∷ key_backspace ∷ character b'i' ∷ key_enter ∷ [])
          ≡ say terminal (codes "CREATE_ROOM:" ++ name))
        × (1 ≤ length name)
        × (length name ≤ 30)
        × All (λ c. is_printable c ≡ true) name)
show_create_room_dialog-event_example =
    show_create_room_dialog-event terminal
      (character b'h' ∷ key_backspace ∷ character b'i' ∷ key_enter ∷ [])

terminal-OnName : OnName terminal true
terminal-OnName = record {
  field = flagged_input true (codes "ada");
  window = login_window;
  screen = refl;
  no_box = refl;
  in_window = refl;
  on_field = refl;
  of_field = refl;
  shown = refl;
  takes_focus = refl;
  flagged = refl;
  filled = refl;
}

enter_name-lost_example :
    (has_focus (type_keys terminal (key_enter ∷ [])).login_input ≡ false)
    × (has_focus (type_keys terminal (key_enter ∷ [])).password_input ≡ true)
    × (type_keys terminal (key_enter ∷ character b'p' ∷ character b'w' ∷ key_enter ∷ [])
        ≡ type_keys terminal (key_enter ∷ []))
enter_name-lost_example =
    enter_name-lost terminal terminal-OnName (flagged_input false [])
      (character b'p' ∷ character b'w' ∷ key_enter ∷ []) refl refl (refl, (refl, (refl, tt)))
