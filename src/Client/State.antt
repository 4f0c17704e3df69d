-- ===== src/Client/State.antt =====
-- The client's state (include/ApplicationState.h, src/client/ApplicationState.cpp). The getters
-- are the fields.
use booking.Prelude.{Bool, false, List, [], ◌∷◌, ◌++◌, if◌then◌else◌}
use booking.Prelude.Text.{Str, str_eq}
use booking.Client.Command.{RoomInfo}

pub data Screen : Type 0 where
  login foyer chatroom : Screen

pub record ApplicationState : Type 0 where
  pub connected : Bool
  pub username : Str
  pub token : Str
  pub current_screen : Screen
  pub rooms : List RoomInfo
  pub current_room : Str
  pub chat_messages : List Str
  pub participants : List Str

abbrev pub new_state : ApplicationState
new_state = record {
  connected = false;
  username = [];
  token = [];
  current_screen = login;
  rooms = [];
  current_room = [];
  chat_messages = [];
  participants = [];
}

abbrev pub set_connected : ApplicationState → Bool → ApplicationState
set_connected s connected = record s { connected = connected }

abbrev pub set_username : ApplicationState → Str → ApplicationState
set_username s username = record s { username = username }

abbrev pub set_token : ApplicationState → Str → ApplicationState
set_token s token = record s { token = token }

abbrev pub set_screen : ApplicationState → Screen → ApplicationState
set_screen s screen = record s { current_screen = screen }

abbrev pub set_rooms : ApplicationState → List RoomInfo → ApplicationState
set_rooms s rooms = record s { rooms = rooms }

abbrev pub add_room : ApplicationState → RoomInfo → ApplicationState
add_room s room = record s { rooms = s.rooms ++ (room ∷ []) }

abbrev pub clear_rooms : ApplicationState → ApplicationState
clear_rooms s = record s { rooms = [] }

abbrev pub set_current_room : ApplicationState → Str → ApplicationState
set_current_room s room_name = record s { current_room = room_name }

abbrev pub add_chat_message : ApplicationState → Str → ApplicationState
add_chat_message s message = record s { chat_messages = s.chat_messages ++ (message ∷ []) }

abbrev pub clear_chat_messages : ApplicationState → ApplicationState
clear_chat_messages s = record s { chat_messages = [] }

abbrev pub set_participants : ApplicationState → List Str → ApplicationState
set_participants s participants = record s { participants = participants }

abbrev pub add_participant : ApplicationState → Str → ApplicationState
add_participant s username = record s { participants = s.participants ++ (username ∷ []) }

-- `find` and `erase` of the first that is equal.
abbrev pub erase_first : Str → List Str → List Str
erase_first x [] = []
erase_first x (y ∷ ys) = if str_eq x y then ys else y ∷ erase_first x ys

abbrev pub remove_participant : ApplicationState → Str → ApplicationState
remove_participant s username = record s { participants = erase_first username s.participants }

-- The token is not among what is reset.
abbrev pub reset : ApplicationState → ApplicationState
reset s = record new_state { token = s.token }
