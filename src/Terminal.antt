-- ===== src/Terminal.antt =====
-- The terminal thread of the client (include/UIManager.h, src/client/UIManager.cpp): the screens, the
-- commands that it takes from the application, and the keys that it turns into input events. The
-- size of the terminal is an argument. Every window that ncurses is asked for is taken to be made.
pub mod Screens
pub mod Commands
pub mod Keys
pub mod Draw
pub mod Shown
mod Tests
use booking.Prelude.{ℕ, Bool, true, false, not, List, [], ◌∷◌, ◌++◌, Option, none, some}
use booking.Prelude.Text.{Str, is_empty}
use booking.Queue.{Queue}
use booking.Client.Command.{RoomInfo, UiCommand}
use booking.Client.State.{Screen, login}
use booking.Ui.{Event, Widget, set_focus}
use booking.Ui.TextInput.{TextInput}
use booking.Ui.Menu.{Menu}
use booking.Ui.Label.{Label}
use booking.Ui.ListBox.{ListBox}
use booking.Ui.MessageBox.{MessageBox}
use booking.Ui.Window.{Window, Children}

-- The widgets that are children of the main window, each by the pointer that the manager keeps: a
-- new main window is made together with new children.
pub data Part : Type 0 where
  login_part password_part menu_part chat_part : Part
  title_part welcome_part help_part display_part members_part : Part

-- The part of a `ui::Window` that its drawing reads.
pub record Frame : Type 0 where
  pub height : ℕ
  pub width : ℕ
  pub bordered : Bool
  pub title : Str

pub record Terminal : Type 0 where
  pub ui_commands : Queue UiCommand
  pub input_events : Queue Str
  pub current_screen : Screen
  pub rooms : List RoomInfo
  pub chat_messages : List Str
  pub participants : List Str
  pub current_room : Str
  pub username : Str
  pub status_message : Str
  pub error_message : Str
  pub input_buffer : Str
  pub selected_room_index : ℕ
  pub main_window : Option (Window Part)
  pub login_input : Option TextInput
  pub password_input : Option TextInput
  pub room_menu : Option Menu
  pub chat_input : Option TextInput
  pub main_frame : Option Frame
  pub chat_display : Option Frame
  pub title_label : Option Label
  pub welcome_label : Option Label
  pub help_label : Option Label
  pub member_list_box : Option ListBox
  pub message_box : Option MessageBox
  pub running : Bool

-- The constructor.
unfoldable pub new_terminal : Queue UiCommand → Queue Str → Terminal
new_terminal ui_commands input_events = record {
  ui_commands = ui_commands;
  input_events = input_events;
  current_screen = login;
  rooms = [];
  chat_messages = [];
  participants = [];
  current_room = [];
  username = [];
  status_message = [];
  error_message = [];
  input_buffer = [];
  selected_room_index = 0;
  main_window = none;
  login_input = none;
  password_input = none;
  room_menu = none;
  chat_input = none;
  main_frame = none;
  chat_display = none;
  title_label = none;
  welcome_label = none;
  help_label = none;
  member_list_box = none;
  message_box = none;
  running = false;
}

unfoldable pub stop : Terminal → Terminal
stop u = record u { running = false }

-- `getmaxyx(stdscr, max_y, max_x)`.
pub record ScreenSize : Type 0 where
  pub max_y : ℕ
  pub max_x : ℕ

abbrev pub focus_input : Bool → TextInput → TextInput
focus_input b t = record t { widget = set_focus t.widget b }

abbrev pub focus_menu : Bool → Menu → Menu
focus_menu b m = record m { widget = set_focus m.widget b }

abbrev pub map_option {ℓ} : {A : Type ℓ} → (A → A) → Option A → Option A
map_option f none = none
map_option f (some a) = some (f a)

abbrev pub input_focusable : Option TextInput → Bool
input_focusable none = false
input_focusable (some t) = t.widget.focusable

abbrev pub menu_focusable : Option Menu → Bool
menu_focusable none = false
menu_focusable (some m) = m.widget.focusable

abbrev pub same_part : Part → Part → Bool
same_part login_part login_part = true
same_part password_part password_part = true
same_part menu_part menu_part = true
same_part chat_part chat_part = true
same_part title_part title_part = true
same_part welcome_part welcome_part = true
same_part help_part help_part = true
same_part display_part display_part = true
same_part members_part members_part = true
same_part a b = false

abbrev pub part_can_focus : Terminal → Part → Bool
part_can_focus u login_part = input_focusable u.login_input
part_can_focus u password_part = input_focusable u.password_input
part_can_focus u menu_part = menu_focusable u.room_menu
part_can_focus u chat_part = input_focusable u.chat_input
part_can_focus u title_part = false
part_can_focus u welcome_part = false
part_can_focus u help_part = false
part_can_focus u display_part = false
part_can_focus u members_part = false

abbrev pub part_set_focus : Terminal → Part → Bool → Terminal
part_set_focus u login_part b = record u { login_input = map_option (focus_input b) u.login_input }
part_set_focus u password_part b = record u {
  password_input = map_option (focus_input b) u.password_input;
}
part_set_focus u menu_part b = record u { room_menu = map_option (focus_menu b) u.room_menu }
part_set_focus u chat_part b = record u { chat_input = map_option (focus_input b) u.chat_input }
part_set_focus u title_part b = u
part_set_focus u welcome_part b = u
part_set_focus u help_part b = u
part_set_focus u display_part b = u
part_set_focus u members_part b = u
