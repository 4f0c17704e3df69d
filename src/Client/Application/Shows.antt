-- ===== src/Client/Application/Shows.antt =====
-- The server's messages, as the client shows them.
use booking.Prelude.{
  ◌≡◌, refl, sym, ap, ◌∙◌, inl, inr, false, List, [], ◌∷◌, ◌++◌, map, none, some, arith, Bool-cases,
  ℕ, All, ◌==◌,
}
use booking.Prelude.Text.{Str, codes, str_eq, str_eq_iff}
use booking.Prelude.Maps.{lookup}
use booking.Json.{JsonLib, JsonLaws}
use booking.Message.{
  Message, serialize, message_to_json, create_room_list, create_broadcast_message, empty_message,
}
use booking.Message.RoundTrip.{deserialize-serialize, deserialize_unparsed}
use booking.Server.Room.{ChatRoom, RoomClient, Send, send_to_others, broadcast_message}
use booking.Client.Application.{
  Application, process_network_message, network_dispatch, show_rooms, strings, strings_under,
  add_line, room_list, chat_message,
}

module _ (J : JsonLib) (laws : JsonLaws J) where
  strings-map : (names : List Str) → strings J (map J.string names) ≡ some names
  unfolding strings
  strings-map [] = refl
  strings-map (n ∷ names) = rw (laws.get_string-string n, strings-map names)

  -- A text that parses is none of the client's own two texts, which do not.
  not_text : (m : Message J) (t : Str) → J.parse t ≡ none → str_eq (serialize J m) t ≡ false
  unfolding serialize
  not_text m t h = elim (Bool-cases (str_eq (serialize J m) t)) [
    | inr e ↦ e
    | inl e ↦ absurd (
        let p : some (message_to_json J m) ≡ none =
          sym (laws.parse-dump (message_to_json J m))
          ∙ ap J.parse ((str_eq_iff (serialize J m) t).0 e)
          ∙ h in
        cc)
  ]

  -- The room names, as they stand under "rooms".
  list_payload :
      (names : List Str)
      → strings_under J
          (J.object ((codes "rooms", J.array (map J.string names)) ∷ []))
          (codes "rooms")
        ≡ some names
  unfolding strings_under lookup str_eq
  list_payload names = rw (
    laws.contains-object ((codes "rooms", J.array (map J.string names)) ∷ []) (codes "rooms") _
        refl,
    laws.at-object ((codes "rooms", J.array (map J.string names)) ∷ []) (codes "rooms") _ refl,
    laws.elements-array (map J.string names),
    strings-map names,
  )

  chat_payload :
      (a : Application) (sender text : Str)
      → chat_message J a
          (J.object ((codes "sender", J.string sender) ∷ (codes "message", J.string text) ∷ []))
        ≡ some (add_line J a (codes "[" ++ (sender ++ (codes "] " ++ text))))
  unfolding chat_message lookup str_eq
  chat_payload a sender text =
      let fields : List (Str × J.Json) =
        (codes "sender", J.string sender) ∷ (codes "message", J.string text) ∷ [] in
      ground (
        arith,
        laws.value_string-object fields (codes "sender") sender (codes "Unknown") refl,
        laws.value_string-object fields (codes "message") text [] refl,
      )

  module _ (down : J.parse (codes "SERVER_DISCONNECTED\n") ≡ none)
      (broken : J.parse (codes "CONNECTION_ERROR\n") ≡ none) where
    receives :
        (a : Application) (m : Message J)
        → process_network_message J a (serialize J m) ≡ network_dispatch J a m
    unfolding process_network_message
    receives a m = rw (not_text m _ down, not_text m _ broken, deserialize-serialize J laws m)

    -- Under the documented laws of the json library, which parses neither of the two texts that
    -- stand for a lost connection: the text of the server's room list makes the client keep
    -- exactly the listed rooms, in order, and show them with the foyer unless it is in a room.
    pub process-room_list :
        (a : Application) (now : Str) (names : List Str)
        → process_network_message J a (serialize J (create_room_list J now names))
          ≡ some (show_rooms J a (map (λ name. record { name = name; client_count = 0 }) names))
    process-room_list a now names =
        receives a (create_room_list J now names)
        ∙ unfold network_dispatch create_room_list str_eq room_list in (rw (list_payload names))

    -- Under the documented laws of the json library, which parses neither of the two texts that
    -- stand for a lost connection: the text of a chat message, as the server serialises it and
    -- without the prefix that a room puts before it, makes the client add the line "[sender]
    -- message" to its chat and show it.
    pub process-broadcast_message :
        (a : Application) (now sender text : Str)
        → process_network_message J a (serialize J (create_broadcast_message J now sender text))
          ≡ some (add_line J a (codes "[" ++ (sender ++ (codes "] " ++ text))))
    process-broadcast_message a now sender text =
        receives a (create_broadcast_message J now sender text)
        ∙ unfold network_dispatch create_broadcast_message str_eq in (chat_payload a sender text)

send_to_others-All :
    (Q : Str → Type 0) (text : Str) (sender_fd : ℕ) (cs : List RoomClient)
    → Q text
    → All (λ (x : Send). Q x.1) (send_to_others text sender_fd cs)
unfolding send_to_others
send_to_others-All Q text sender_fd [] q = tt
send_to_others-All Q text sender_fd (c ∷ cs) q = elim (Bool-cases (c.fd == sender_fd)) [
  | inl e ↦ rw (send_to_others, e) (send_to_others-All Q text sender_fd cs q)
  | inr e ↦ rw (send_to_others, e) (q, send_to_others-All Q text sender_fd cs q)
]

ignored :
    (J : JsonLib) (a : Application) (text : Str)
    → J.parse (codes "BROADCAST:" ++ text) ≡ none
    → process_network_message J a (codes "BROADCAST:" ++ text) ≡ some a
unfolding process_network_message network_dispatch str_eq empty_message
ignored J a text h = rw (deserialize_unparsed J (codes "BROADCAST:" ++ text) h)

-- No text that a room broadcasts, to whichever of its clients, is shown: the client that receives
-- it stays as it was. The text starts with "BROADCAST:", which no json value does, as the
-- hypothesis says of this text.
pub broadcast_message_ignored :
    (J : JsonLib) (room : ChatRoom) (text : Str) (sender_fd : ℕ) (a : Application)
    → J.parse (codes "BROADCAST:" ++ text) ≡ none
    → All
        (λ (x : Send). process_network_message J a x.1 ≡ some a)
        (broadcast_message room text sender_fd).1
unfolding broadcast_message
broadcast_message_ignored J room text sender_fd a h =
    send_to_others-All (λ t. process_network_message J a t ≡ some a) (codes "BROADCAST:" ++ text)
      sender_fd room.clients (ignored J a text h)
