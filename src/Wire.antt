-- ===== src/Wire.antt =====
-- The client's events at the server: what src/client/ApplicationManager.cpp queues, as
-- src/server/ClientManager.cpp handles it, when one call of `recv` gets the text whole.
mod Tests
use booking.Prelude.{
  ℕ, zero, suc, ◌≡◌, refl, ap, ◌∙◌, Bool, true, false, List, [], ◌∷◌, ◌++◌, Option, none, some, All,
  All-append, ◌==◌, arith, if◌then◌else◌,
}
use booking.Prelude.Text.{Str, codes, str_eq, c_string}
use booking.Prelude.Maps.{lookup}
use booking.Prelude.Streams.{split_first, c_string_whole}
use booking.Json.{JsonLib, JsonLaws, newline}
use booking.Message.{
  Message, serialize, deserialize, message_to_json, create_join_room, create_chat_message,
  create_broadcast_message,
}
use booking.Message.RoundTrip.{deserialize-serialize}
use booking.Queue.{push}
use booking.Server.Manager
use booking.Server.Manager.{Server, ClientInfo, Surroundings}
use booking.Server.Thread.{
  Outcome, Wake, again, leaves, round, refuse, foyer_dispatch, foyer_join, chat_dispatch, chat_post,
}
use booking.Client.Application.{Application, Outside, process_input_event, queue_out, add_line}

-- A wake-up with a text.
abbrev pub receives : Str → Surroundings → Wake
receives text w = record { received = some text; around = w }

module _ (J : JsonLib) (laws : JsonLaws J) where
  heard_whole : (m : Message J) → deserialize J (c_string (serialize J m)) ≡ m
  unfolding serialize
  heard_whole m =
      ap (deserialize J) (
        c_string_whole (serialize J m) (
          All-append (λ (c : ℕ). (c == 0) ≡ false) (J.dump (message_to_json J m)) newline
            (laws.dump_nonzero (message_to_json J m)) (refl, tt)))
      ∙ deserialize-serialize J laws m

  round_heard :
      (dispatch : Server → Surroundings → ℕ → ClientInfo → Message J → Outcome J) (s : Server)
      (fd : ℕ) (info : ClientInfo) (w : Surroundings) (m : Message J)
      → round J dispatch s fd info (receives (serialize J m) w) ≡ (
          let (s', valid) = Manager.validate_token s w m.header.token in
          if valid
          then dispatch s' w fd info m
          else some (refuse J s' w fd (codes "Invalid or expired token"), info, leaves))
  unfolding round
  round_heard dispatch s fd info w m = rw (heard_whole m)

  -- The broadcast of a message of the client in its room, if the room is there.
  abbrev pub posted : Server → Surroundings → ℕ → ClientInfo → Str → Outcome J
  posted s w fd info text = elim (lookup info.current_room s.chat_rooms) [
    | none ↦ some (s, info, again)
    | some room ↦ some (
      Manager.broadcast_in s info.current_room room
          (serialize J (create_broadcast_message J w.timestamp info.name text)) fd,
      info,
      again,
    )
  ]

  join_payload :
      (s : Server) (w : Surroundings) (fd : ℕ) (info : ClientInfo) (now token name : Str)
      → foyer_dispatch J s w fd info (create_join_room J now token name) ≡ (
          let (s', info', joined) = Manager.join_room J s w fd info name in
          if joined
          then some (s', info', leaves)
          else some (refuse J s' w fd (codes "Room not found"), info', again))
  unfolding foyer_dispatch foyer_join create_join_room str_eq lookup
  join_payload s w fd info now token name = rw (
      laws.value_string-object ((codes "room_name", J.string name) ∷ []) (codes "room_name") name []
        refl)

  -- Under the documented laws of the json library, choosing a room at the client queues one text
  -- and changes nothing else, and the thread of that client in the server's foyer, when it
  -- receives this text, validates the client's token and joins the chosen room: the handler leaves
  -- the foyer if there is such a room, says that there is none and stays if not, and refuses and
  -- leaves if the token is not valid.
  pub room_selected-joins :
      (a : Application) (o : Outside) (name : Str) (s : Server) (fd : ℕ) (info : ClientInfo)
      (w : Surroundings)
      → let text = serialize J (create_join_room J o.timestamp a.state.token name) in
        let (s₁, valid) = Manager.validate_token s w a.state.token in
        let (s₂, info', joined) = Manager.join_room J s₁ w fd info name in
        (process_input_event J a o (codes "ROOM_SELECTED:" ++ name)
          ≡ record a { network_outbound = push a.network_outbound text })
        × (round J (foyer_dispatch J) s fd info (receives text w) ≡ (
            if valid
            then if joined
              then some (s₂, info', leaves)
              else some (refuse J s₂ w fd (codes "Room not found"), info', again)
            else some (refuse J s₁ w fd (codes "Invalid or expired token"), info, leaves)))
  unfolding process_input_event split_first str_eq create_join_room
  room_selected-joins a o name s fd info w =
      let m = create_join_room J o.timestamp a.state.token name in
      let s₁ = (Manager.validate_token s w a.state.token).0 in
      (
        refl,
        round_heard (foyer_dispatch J) s fd info w m
            ∙ ap
                (λ r.
                  if (Manager.validate_token s w a.state.token).1
                  then r
                  else some (refuse J s₁ w fd (codes "Invalid or expired token"), info, leaves))
                (join_payload s₁ w fd info o.timestamp a.state.token name),
      )

  chat_payload :
      (s : Server) (w : Surroundings) (fd : ℕ) (info : ClientInfo) (now token text : Str)
      → chat_dispatch J s w fd info (create_chat_message J now token text) ≡ posted s w fd info text
  unfolding chat_dispatch chat_post create_chat_message str_eq lookup
  chat_payload s w fd info now token text = rw (
      laws.value_string-object ((codes "message", J.string text) ∷ []) (codes "message") text []
        refl)

  -- Under the documented laws of the json library, a message that the user types at the client is
  -- shown there as "[You] message" and queued as one text, and the thread of that client in a room
  -- of the server, when it receives this text, validates the client's token and broadcasts the
  -- message in that room under the name that the server knows, or refuses and leaves if the token
  -- is not valid.
  pub chat_message-posts :
      (a : Application) (o : Outside) (text : Str) (s : Server) (fd : ℕ) (info : ClientInfo)
      (w : Surroundings)
      → let bytes = serialize J (create_chat_message J o.timestamp a.state.token text) in
        let (s₁, valid) = Manager.validate_token s w a.state.token in
        (process_input_event J a o (codes "CHAT_MESSAGE:" ++ text)
          ≡ record (add_line J a (codes "[You] " ++ text)) {
            network_outbound = push a.network_outbound bytes;
          })
        × (round J (chat_dispatch J) s fd info (receives bytes w) ≡ (
            if valid
            then posted s₁ w fd info text
            else some (refuse J s₁ w fd (codes "Invalid or expired token"), info, leaves)))
  unfolding process_input_event split_first str_eq create_chat_message
  chat_message-posts a o text s fd info w =
      let m = create_chat_message J o.timestamp a.state.token text in
      let s₁ = (Manager.validate_token s w a.state.token).0 in
      (
        refl,
        round_heard (chat_dispatch J) s fd info w m
            ∙ ap
                (λ r.
                  if (Manager.validate_token s w a.state.token).1
                  then r
                  else some (refuse J s₁ w fd (codes "Invalid or expired token"), info, leaves))
                (chat_payload s₁ w fd info o.timestamp a.state.token text),
      )
