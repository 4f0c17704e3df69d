-- ===== src/Client/Application/Rooms.antt =====
-- What the client's flag `in_room_` does to the foyer.
use booking.Prelude.{
  ◌≡◌, refl, inl, inr, Bool-cases, Option-cases, if◌then◌else◌, Bool, true, false, List, [], ◌∷◌,
  Option, none, some, ◌>>=◌, All, All-append, arith,
}
use booking.Prelude.Text.{Str, codes, str_eq}
use mathlib.Core.Path.{subst}
use booking.Json.{JsonLib}
use booking.Message.{Message, deserialize}
use booking.Queue.{Queue, push}
use booking.Client.Command.{
  RoomInfo, UiCommand, UiCommandType, UiData, show_foyer, show_login, show_chatroom,
  update_room_list, add_chat_message_line, update_participants, show_error, show_status,
  clear_input, quit, error_data, string_data, chat_message_data, participants_data,
}
use booking.Client.State.{ApplicationState, set_rooms, add_chat_message}
use booking.Client.Application.{
  add_line, Application, Outside, show, show_problem, process_network_message, process_input_event,
  room_joined, room_list, chat_message, participant_list, server_error, network_dispatch,
  strings_under, show_rooms,
}

abbrev pub is_foyer : UiCommandType → Bool
is_foyer show_foyer = true
is_foyer show_login = false
is_foyer show_chatroom = false
is_foyer update_room_list = false
is_foyer add_chat_message_line = false
is_foyer update_participants = false
is_foyer show_error = false
is_foyer show_status = false
is_foyer clear_input = false
is_foyer quit = false

-- The application is in a room, and the terminal is not to show the foyer.
pub record Hidden (a : Application) : Type 0 where
  pub inside : a.in_room ≡ true
  pub no_foyer : All (λ (c : UiCommand). is_foyer c.type ≡ false) a.ui_commands.items

-- The messages and events that the application thread handles, in order.
pub data Happening : Type 0 where
  message : Str → Happening
  event : Outside → Str → Happening

push-no_foyer :
    (q : Queue UiCommand) (c : UiCommand)
    → is_foyer c.type ≡ false
    → All (λ (c : UiCommand). is_foyer c.type ≡ false) q.items
    → All (λ (c : UiCommand). is_foyer c.type ≡ false) (push q c).items
unfolding push
push-no_foyer q c h f = elim (Bool-cases q.stopped) [
  | inl e ↦ rw e f
  | inr e ↦
      rw e (All-append (λ (c : UiCommand). is_foyer c.type ≡ false) q.items (c ∷ []) f (h, tt))
]

pub show-Hidden :
    (a : Application) (t : UiCommandType) (p : UiData)
    → is_foyer t ≡ false
    → Hidden a
    → Hidden (show a t p)
show-Hidden a t p h x = record {
  inside = x.inside;
  no_foyer = push-no_foyer a.ui_commands _ h x.no_foyer;
}

pub of_state : (a : Application) (s : ApplicationState) → Hidden a → Hidden (record a { state = s })
of_state a s x = record { inside = x.inside; no_foyer = x.no_foyer }

module _ (J : JsonLib) where
  abbrev pub is_leaving : Happening → Bool
  is_leaving (message m) = str_eq (deserialize J m).body.type (codes "LEFT_ROOM")
  is_leaving (event w e) = false

  unfoldable pub handle : Application → Happening → Option Application
  handle a (message m) = process_network_message J a m
  handle a (event w e) = some (process_input_event J a w e)

  unfoldable pub handle_all : Application → List Happening → Option Application
  unfolding handle
  handle_all a [] = some a
  handle_all a (h ∷ hs) = do a' ← handle a h; handle_all a' hs

  -- The application after a step, if there is one, still hides the foyer.
  abbrev pub StillHidden : Option Application → Type 0
  StillHidden none = Unit
  StillHidden (some a) = Hidden a

  StillHidden-bind :
      {A : Type 0} (o : Option A) (f : A → Option Application)
      → ((x : A) → StillHidden (f x))
      → StillHidden (o >>= f)
  StillHidden-bind none f h = tt
  StillHidden-bind (some x) f h = h x

  -- A chain of five tests.
  StillHidden-chain :
      (b₁ b₂ b₃ b₄ b₅ : Bool) (x₁ x₂ x₃ x₄ x₅ x₆ : Option Application)
      → StillHidden x₁
      → StillHidden x₂
      → StillHidden x₃
      → StillHidden x₄
      → StillHidden x₅
      → StillHidden x₆
      → StillHidden (
          if b₁
          then x₁
          else if b₂
          then x₂
          else if b₃
          then x₃
          else if b₄
          then x₄
          else if b₅
          then x₅
          else x₆)
  StillHidden-chain true b₂ b₃ b₄ b₅ x₁ x₂ x₃ x₄ x₅ x₆ h₁ h₂ h₃ h₄ h₅ h₆ = h₁
  StillHidden-chain false true b₃ b₄ b₅ x₁ x₂ x₃ x₄ x₅ x₆ h₁ h₂ h₃ h₄ h₅ h₆ = h₂
  StillHidden-chain false false true b₄ b₅ x₁ x₂ x₃ x₄ x₅ x₆ h₁ h₂ h₃ h₄ h₅ h₆ = h₃
  StillHidden-chain false false false true b₅ x₁ x₂ x₃ x₄ x₅ x₆ h₁ h₂ h₃ h₄ h₅ h₆ = h₄
  StillHidden-chain false false false false true x₁ x₂ x₃ x₄ x₅ x₆ h₁ h₂ h₃ h₄ h₅ h₆ = h₅
  StillHidden-chain false false false false false x₁ x₂ x₃ x₄ x₅ x₆ h₁ h₂ h₃ h₄ h₅ h₆ = h₆

  rooms-Hidden :
      (a : Application) (rooms : List RoomInfo) → Hidden a → Hidden (show_rooms J a rooms)
  unfolding show_rooms
  rooms-Hidden a rooms x = elim (Bool-cases a.in_room) [
    | inl e ↦ subst Hidden (ground arith) (of_state a (set_rooms a.state rooms) x)
    | inr e ↦ absurd (ground (arith, x.inside, e))
  ]

  error-Hidden : (a : Application) (p : J.Json) → Hidden a → StillHidden (server_error J a p)
  unfolding server_error
  error-Hidden a p x =
      StillHidden-bind (J.value_string p (codes "message") (codes "Unknown error"))
        (λ t. some (show_problem a t)) (λ t. show-Hidden a show_error (error_data t) refl x)

  joined-Hidden : (a : Application) (p : J.Json) → Hidden a → StillHidden (room_joined J a p)
  unfolding room_joined
  joined-Hidden a p x = elim (Option-cases (J.value_string p (codes "room_name") [])) [
    | inl e ↦ rw e tt
    | inr (r, e) ↦ rw e (
        show-Hidden _ show_chatroom (string_data r) refl
          (record { inside = refl; no_foyer = x.no_foyer }))
  ]

  list-Hidden : (a : Application) (p : J.Json) → Hidden a → StillHidden (room_list J a p)
  unfolding room_list
  list-Hidden a p x = elim (Option-cases (strings_under J p (codes "rooms"))) [
    | inl e ↦ rw e tt
    | inr (r, e) ↦ rw e (rooms-Hidden a _ x)
  ]

  pub line-Hidden : (a : Application) (l : Str) → Hidden a → Hidden (add_line J a l)
  line-Hidden a l x =
      show-Hidden (record a { state = add_chat_message a.state l }) add_chat_message_line
        (chat_message_data l) refl (of_state a (add_chat_message a.state l) x)

  chat-Hidden : (a : Application) (p : J.Json) → Hidden a → StillHidden (chat_message J a p)
  unfolding chat_message
  chat-Hidden a p x = elim (Option-cases (J.value_string p (codes "sender") (codes "Unknown"))) [
    | inl e ↦ rw e tt
    | inr (r, e) ↦ elim (Option-cases (J.value_string p (codes "message") [])) [
      | inl e' ↦ rw (e, e') tt
      | inr (t, e') ↦ rw (e, e') (line-Hidden a _ x)
    ]
  ]

  participants-Hidden :
      (a : Application) (p : J.Json) → Hidden a → StillHidden (participant_list J a p)
  unfolding participant_list
  participants-Hidden a p x =
      StillHidden-bind (strings_under J p (codes "participants"))
        (λ ns. some (show a update_participants (participants_data ns)))
        (λ ns. show-Hidden a update_participants (participants_data ns) refl x)

  pub dispatch-Hidden :
      (a : Application) (m : Message J)
      → str_eq m.body.type (codes "LEFT_ROOM") ≡ false
      → Hidden a
      → StillHidden (network_dispatch J a m)
  unfolding network_dispatch
  dispatch-Hidden a m h x =
      let p = m.body.payload in
      let t = m.body.type in
      rw h (
        StillHidden-chain (str_eq t (codes "ERROR")) (str_eq t (codes "ROOM_JOINED"))
          (str_eq t (codes "ROOM_LIST")) (str_eq t (codes "MESSAGE"))
          (str_eq t (codes "PARTICIPANT_LIST")) (server_error J a p) (room_joined J a p)
          (room_list J a p) (chat_message J a p) (participant_list J a p) (some a)
          (error-Hidden a p x) (joined-Hidden a p x) (list-Hidden a p x) (chat-Hidden a p x)
          (participants-Hidden a p x) x)
