-- ===== src/Message.antt =====
-- The messages between client and server (lib/common/include/common/NetworkMessage.h). The time
-- that `get_timestamp` reads is an argument of each factory.
pub mod RoundTrip
mod Tests
use booking.Prelude.{Bool, ◌≡◌, List, [], ◌∷◌, ◌++◌, map, Option, none, some, ◌>>=◌}
use booking.Prelude.Text.{Str, codes}
use booking.Json.{JsonLib, newline}

pub record Header : Type 0 where
  pub timestamp : Str
  pub token : Str

-- `payload` is the field `data`.
pub record Body (J : JsonLib) : Type 0 where
  pub type : Str
  pub payload : J.Json

pub record Message (J : JsonLib) : Type 0 where
  pub header : Header
  pub body : Body J

module _ (J : JsonLib) where
  unfoldable pub header_to_json : Header → J.Json
  header_to_json h =
      J.object ((codes "timestamp", J.string h.timestamp) ∷ (codes "token", J.string h.token) ∷ [])

  unfoldable pub header_from_json : J.Json → Option Header
  header_from_json j = do
    timestamp ← J.value_string j (codes "timestamp") []
    token ← J.value_string j (codes "token") []
    some (record { timestamp = timestamp; token = token })

  unfoldable pub body_to_json : Body J → J.Json
  body_to_json b = J.object ((codes "type", J.string b.type) ∷ (codes "data", b.payload) ∷ [])

  unfoldable pub body_from_json : J.Json → Option (Body J)
  body_from_json j = do
    type ← J.value_string j (codes "type") []
    payload ← J.value_json j (codes "data") (J.object [])
    some (record { type = type; payload = payload })

  unfoldable pub message_to_json : Message J → J.Json
  unfolding header_to_json body_to_json
  message_to_json m =
      J.object
        ((codes "header", header_to_json m.header) ∷ (codes "body", body_to_json m.body) ∷ [])

  unfoldable pub serialize : Message J → Str
  unfolding message_to_json
  serialize m = J.dump (message_to_json m) ++ newline

  -- `NetworkMessage msg;`
  unfoldable pub empty_message : Message J
  empty_message = record {
    header = record { timestamp = []; token = [] };
    body = record { type = []; payload = J.null };
  }

  -- A json::exception ends the assignments, and what was assigned before it stays.
  unfoldable pub deserialize : Str → Message J
  unfolding header_from_json body_from_json empty_message
  deserialize s = elim (J.parse s) [
    | none ↦ empty_message
    | some j ↦ elim (J.at j (codes "header") >>= header_from_json) [
      | none ↦ empty_message
      | some h ↦ elim (J.at j (codes "body") >>= body_from_json) [
        | none ↦ record empty_message { header = h }
        | some b ↦ record { header = h; body = b }
      ]
    ]
  ]

  make : Str → Str → Str → J.Json → Message J
  make now token type payload = record {
    header = record { timestamp = now; token = token };
    body = record { type = type; payload = payload };
  }

  unfoldable pub create_auth : Str → Str → Message J
  unfolding make
  create_auth now token = make now token (codes "AUTH") (J.object [])

  unfoldable pub create_join_room : Str → Str → Str → Message J
  unfolding make
  create_join_room now token room_name =
      make now token (codes "JOIN_ROOM") (J.object ((codes "room_name", J.string room_name) ∷ []))

  unfoldable pub create_create_room : Str → Str → Str → Message J
  unfolding make
  create_create_room now token room_name =
      make now token (codes "CREATE_ROOM") (J.object ((codes "room_name", J.string room_name) ∷ []))

  unfoldable pub create_leave : Str → Str → Message J
  unfolding make
  create_leave now token = make now token (codes "LEAVE") (J.object [])

  unfoldable pub create_chat_message : Str → Str → Str → Message J
  unfolding make
  create_chat_message now token message =
      make now token (codes "CHAT_MESSAGE") (J.object ((codes "message", J.string message) ∷ []))

  unfoldable pub create_quit : Str → Str → Message J
  unfolding make
  create_quit now token = make now token (codes "QUIT") (J.object [])

  unfoldable pub create_error : Str → Str → Message J
  unfolding make
  create_error now error_message =
      make now [] (codes "ERROR") (J.object ((codes "message", J.string error_message) ∷ []))

  unfoldable pub create_room_joined : Str → Str → Message J
  unfolding make
  create_room_joined now room_name =
      make now [] (codes "ROOM_JOINED") (J.object ((codes "room_name", J.string room_name) ∷ []))

  unfoldable pub create_room_list : Str → List Str → Message J
  unfolding make
  create_room_list now rooms =
      make now [] (codes "ROOM_LIST")
        (J.object ((codes "rooms", J.array (map J.string rooms)) ∷ []))

  unfoldable pub create_participant_list : Str → List Str → Message J
  unfolding make
  create_participant_list now participants =
      make now [] (codes "PARTICIPANT_LIST")
        (J.object ((codes "participants", J.array (map J.string participants)) ∷ []))

  unfoldable pub create_broadcast_message : Str → Str → Str → Message J
  unfolding make
  create_broadcast_message now sender message =
      make now [] (codes "MESSAGE")
        (J.object ((codes "sender", J.string sender) ∷ (codes "message", J.string message) ∷ []))
