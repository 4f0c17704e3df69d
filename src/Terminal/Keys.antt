-- ===== src/Terminal/Keys.antt =====
-- `poll_input`, the dialog that it opens, and a round of the main loop.
pub mod Dialog
pub mod Forward
pub mod Login
pub mod Rooms
pub mod Foyer
pub mod Callbacks
pub mod Running
use booking.Prelude.{
  ℕ, zero, suc, ◌-◌, Bool, true, false, not, ◌&&◌, ◌||◌, List, [], ◌∷◌, ◌++◌, map, length, take,
  drop, ltb, leb, ◌==◌, Option, none, some, ◌>>=◌, if◌then◌else◌,
}
use booking.Prelude.Text.{Str, codes, is_empty}
use booking.Queue.{push}
use booking.Client.State.{Screen, login, foyer, chatroom}
use booking.Ui.{
  Event, Key, key_press, character, key_enter, key_backspace, key_dc, key_left, key_right, key_up,
  key_down, key_home, key_end, key_other, is_printable,
}
use booking.Ui.TextInput.{TextInput}
use booking.Ui.ListBox
use booking.Ui.MessageBox
use booking.Ui.MessageBox.{MessageBox}
use booking.Ui.Window
use booking.Ui.Window.{Window, focus_child}
use booking.Terminal.{Terminal, ScreenSize, Part, login_part, password_part, map_option}
use booking.Terminal.Screens.{parts, say, setup_login_ui, setup_foyer_ui, setup_chatroom_ui}
use booking.Terminal.Commands.{process_commands}

-- The dialog waits for the next key, or it is closed with or without a name.
pub data DialogState : Type 0 where
  reading : Str → DialogState
  cancelled : DialogState
  created : Str → DialogState

abbrev pub is_character : Key → ℕ → Bool
is_character (character c) d = c == d
is_character k d = false

abbrev pub is_enter_key : Key → Bool
is_enter_key (character c) = c == b'\n'
is_enter_key key_enter = true
is_enter_key k = false

abbrev pub is_backspace_key : Key → Bool
is_backspace_key (character c) = (c == 127) || (c == 8)
is_backspace_key key_backspace = true
is_backspace_key k = false

abbrev pub pop_back : Str → Str
pop_back [] = []
pop_back (c ∷ []) = []
pop_back (c ∷ d ∷ s) = c ∷ pop_back (d ∷ s)

abbrev pub extend : Str → Key → Str
extend room_name (character c) =
    if is_printable c && ltb (length room_name) 30 then room_name ++ (c ∷ []) else room_name
extend room_name k = room_name

unfoldable pub dialog_key : Str → Key → DialogState
dialog_key room_name k =
    if is_character k 27
    then cancelled
    else if is_enter_key k
    then (if is_empty room_name then reading room_name else created room_name)
    else if is_backspace_key k
    then reading (pop_back room_name)
    else reading (extend room_name k)

-- The loop of the dialog over the keys that come, and the keys that it leaves.
unfoldable pub dialog_loop : Str → List Key → DialogState × List Key
unfolding dialog_key
dialog_loop room_name [] = (reading room_name, [])
dialog_loop room_name (k ∷ ks) = elim (dialog_key room_name k) [
  | reading name ↦ dialog_loop name ks
  | cancelled ↦ (cancelled, ks)
  | created name ↦ (created name, ks)
]

unfoldable pub show_create_room_dialog : Terminal → List Key → Terminal
unfolding dialog_loop
show_create_room_dialog u keys = elim (dialog_loop [] keys).0 [
  | reading name ↦ u
  | cancelled ↦ u
  | created name ↦ say u (codes "CREATE_ROOM:" ++ name)
]

abbrev pub pressed : Key → Event
pressed k = record { type = key_press; key = k }

abbrev pub is_on : Screen → Screen → Bool
is_on login login = true
is_on foyer foyer = true
is_on chatroom chatroom = true
is_on a b = false

abbrev pub empty_input : Option TextInput → Bool
empty_input none = false
empty_input (some t) = is_empty t.text

abbrev pub has_focus : Option TextInput → Bool
has_focus none = false
has_focus (some t) = t.widget.focused

abbrev pub box_open : Option MessageBox → Bool
box_open none = false
box_open (some b) = b.visible

-- Whether the key asks to leave: on the login screen only where the user name is empty.
unfoldable pub asks_quit : Terminal → Key → Bool
asks_quit u k =
    (is_character k b'q' || is_character k b'Q')
    && ((is_on u.current_screen login && empty_input u.login_input) || is_on u.current_screen foyer)

-- "Handle Tab key on login screen".
unfoldable pub switch_field : Terminal → Terminal
switch_field u = elim u.main_window [
  | none ↦ u
  | some w ↦ elim u.login_input [
    | none ↦ u
    | some l ↦ elim u.password_input [
      | none ↦ u
      | some p ↦
          let part = if l.widget.focused then password_part else login_part in
          let (u', w') = focus_child parts u w part in record u' { main_window = some w' }
    ]
  ]
]

-- "Forward to main window".
unfoldable pub forward : Terminal → Key → Terminal
forward u k = elim u.main_window [
  | none ↦ u
  | some w ↦ elim (Window.handle_event parts u w (pressed k)) [
    | none ↦ u
    | some (u', w') ↦ record u' { main_window = some w' }
  ]
]

unfoldable pub close_box : Terminal → Key → Terminal
close_box u k = elim u.message_box [
  | none ↦ u
  | some b ↦ record u { message_box = some (MessageBox.handle_event b (pressed k)).0 }
]

-- `dialog` is what the user types if the dialog opens; it ends with the dialog.
unfoldable pub poll_input : Terminal → Option Key → List Key → Terminal
unfolding close_box asks_quit switch_field show_create_room_dialog forward
poll_input u none dialog = u
poll_input u (some k) dialog =
    if box_open u.message_box
    then close_box u k
    else if asks_quit u k
    then say u (codes "QUIT")
    else if is_character k b'\t' && is_on u.current_screen login
    then switch_field u
    else if (is_character k b'c' || is_character k b'C') && is_on u.current_screen foyer
    then show_create_room_dialog u dialog
    else forward u k

-- What `render` changes: a screen that was never set up is, the list of members follows the
-- participants in a chat room, and an error is shown once.
unfoldable pub set_up : ScreenSize → Terminal → Terminal
set_up size u = elim u.main_window [
  | some w ↦ u
  | none ↦ elim u.current_screen [
    | login ↦ setup_login_ui u
    | foyer ↦ setup_foyer_ui size u
    | chatroom ↦ setup_chatroom_ui size u
  ]
]

-- `member_list_box_->set_items(participants_)`.
unfoldable pub list_members : Terminal → Terminal
list_members u = elim u.current_screen [
  | login ↦ u
  | foyer ↦ u
  | chatroom ↦ record u {
    member_list_box = map_option (λ b. ListBox.set_items b u.participants) u.member_list_box;
  }
]

unfoldable pub render : ScreenSize → Terminal → Terminal
unfolding set_up list_members
render size u = record (list_members (set_up size u)) { error_message = [] }

-- The chat lines that a window of this size shows: the last that fit, each cut to the width.
unfoldable pub shown_messages : ℕ → ℕ → List Str → List Str
shown_messages chat_height chat_width messages =
    let rows = chat_height - 2 in
    map (take (chat_width - 2)) (take rows (drop (length messages - rows) messages))

unfoldable pub ui_round : ScreenSize → Option Key → List Key → Terminal → Option Terminal
unfolding poll_input render
ui_round size k dialog u = do
  u' ← process_commands size u
  some (render size (poll_input u' k dialog))
