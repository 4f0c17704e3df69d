-- ===== src/Client/Command.antt =====
-- The commands of the application to the terminal (include/UICommand.h, include/RoomInfo.h).
use booking.Prelude.{ℕ, List}
use booking.Prelude.Text.{Str}

-- No live code gives a room another count than 0.
pub record RoomInfo : Type 0 where
  pub name : Str
  pub client_count : ℕ

pub data UiCommandType : Type 0 where
  show_login show_foyer show_chatroom update_room_list add_chat_message_line update_participants :
      UiCommandType
  show_error show_status clear_input quit : UiCommandType

-- The variant of the payloads.
pub data UiData : Type 0 where
  monostate : UiData
  room_list_data : List RoomInfo → UiData
  chat_message_data : Str → UiData
  participants_data : List Str → UiData
  error_data : Str → UiData
  status_data : Str → UiData
  string_data : Str → UiData

pub record UiCommand : Type 0 where
  pub type : UiCommandType
  pub payload : UiData
