-- ===== src/Process/Fitting.antt =====
-- The commands between the application and the terminal: each with the data of its own type.
use booking.Prelude.{
  some-injective, inl, inr, sym, ◌≡◌, refl, ap, ◌∙◌, Bool, true, false, ◌||◌, List, [], ◌∷◌, Option,
  none, some, ◌>>=◌, All, All-append, Bool-cases, Option-cases, arith, if◌then◌else◌,
}
use mathlib.Core.Path.{subst}
use booking.Prelude.Text.{Str, codes, str_eq}
use booking.Prelude.Streams.{split_first}
use booking.Json.{JsonLib}
use booking.Message.{Message, deserialize}
use booking.Queue.{Queue, push}
use booking.Auth.Client
use booking.Client.Command.{
  RoomInfo, UiCommand, UiCommandType, UiData, show_login, show_foyer, show_chatroom,
  update_room_list, add_chat_message_line, update_participants, show_error, show_status,
  clear_input, quit, monostate, room_list_data, chat_message_data, participants_data, error_data,
  status_data, string_data,
}
use booking.Client.Network.{Network, connect}
use booking.Client.Application.{
  Application, Outside, show, show_problem, strings_under, lost_connection, room_joined, left_room,
  show_rooms, room_list, chat_message, participant_list, server_error, network_dispatch,
  process_network_message, logged_in, open_chat, login_with, logout, login_event, split_event,
  process_input_event,
}
use booking.Client.Application.Rooms.{Happening, message, event, handle, handle_all}

-- The data that a command's type goes with, if it carries any.
abbrev pub fits : UiCommandType → UiData → Bool
fits t monostate = true
fits show_foyer (string_data s) = true
fits show_chatroom (string_data s) = true
fits update_room_list (room_list_data r) = true
fits add_chat_message_line (chat_message_data m) = true
fits update_participants (participants_data n) = true
fits show_error (error_data e) = true
fits show_status (status_data s) = true
fits show_login d = true
fits clear_input d = true
fits quit d = true
fits t d = false

abbrev pub Fits : UiCommand → Type 0
Fits c = fits c.type c.payload ≡ true

-- Every command that waits for the terminal is so.
abbrev pub Fitting : Application → Type 0
Fitting a = All Fits a.ui_commands.items

pub push-Fits :
    (q : Queue UiCommand) (c : UiCommand) → Fits c → All Fits q.items → All Fits (push q c).items
unfolding push
push-Fits q c h f = elim (Bool-cases q.stopped) [
  | inl e ↦ rw e f
  | inr e ↦ rw e (All-append Fits q.items (c ∷ []) f (h, tt))
]

show-Fitting :
    (a : Application) (t : UiCommandType) (d : UiData)
    → fits t d ≡ true
    → Fitting a
    → Fitting (show a t d)
show-Fitting a t d h f = push-Fits a.ui_commands (record { type = t; payload = d }) h f

if-Fitting : (b : Bool) (x y : Application) → Fitting x → Fitting y → Fitting (if b then x else y)
if-Fitting true x y f g = f
if-Fitting false x y f g = g

-- A step that an exception may end.
abbrev pub StillFitting : Option Application → Type 0
StillFitting none = Unit
StillFitting (some a) = Fitting a

bind-Fitting :
    {A : Type 0} (o : Option A) (f : A → Option Application)
    → ((x : A) → StillFitting (f x))
    → StillFitting (o >>= f)
bind-Fitting none f h = tt
bind-Fitting (some x) f h = h x

if-StillFitting :
    (b : Bool) (x y : Option Application)
    → StillFitting x
    → StillFitting y
    → StillFitting (if b then x else y)
if-StillFitting true x y f g = f
if-StillFitting false x y f g = g

module _ (J : JsonLib) (a : Application) (f : Fitting a) where
  lost-Fitting : Fitting (lost_connection J a)
  unfolding lost_connection
  lost-Fitting =
      show-Fitting (show a show_login monostate) show_error (error_data (codes "Connection lost"))
        refl (show-Fitting a show_login monostate refl f)

  rooms-Fitting : (rooms : List RoomInfo) → Fitting (show_rooms J a rooms)
  unfolding show_rooms
  rooms-Fitting rooms = if-Fitting a.in_room _ _ f (
      show-Fitting (show a show_foyer (string_data a.state.username)) update_room_list
        (room_list_data rooms) refl
        (show-Fitting a show_foyer (string_data a.state.username) refl f))

  dispatch-Fitting : (m : Message J) → StillFitting (network_dispatch J a m)
  unfolding network_dispatch server_error room_joined left_room room_list chat_message
      participant_list
  dispatch-Fitting m =
      if-StillFitting (str_eq m.body.type (codes "ERROR")) _ _
        (bind-Fitting (J.value_string m.body.payload (codes "message") (codes "Unknown error")) _
          (λ t. show-Fitting a show_error (error_data t) refl f))
        (if-StillFitting (str_eq m.body.type (codes "ROOM_JOINED")) _ _
          (bind-Fitting (J.value_string m.body.payload (codes "room_name") []) _
            (λ t. show-Fitting a show_chatroom (string_data t) refl f))
          (if-StillFitting (str_eq m.body.type (codes "LEFT_ROOM")) _ _ f (
            if-StillFitting (str_eq m.body.type (codes "ROOM_LIST")) _ _
              (bind-Fitting (strings_under J m.body.payload (codes "rooms")) _
                (λ names. rooms-Fitting _))
              (if-StillFitting (str_eq m.body.type (codes "MESSAGE")) _ _
                (bind-Fitting (J.value_string m.body.payload (codes "sender") (codes "Unknown")) _
                  (λ sender.
                    bind-Fitting (J.value_string m.body.payload (codes "message") []) _
                      (λ text. show-Fitting a add_chat_message_line (chat_message_data _) refl f)))
                (if-StillFitting (str_eq m.body.type (codes "PARTICIPANT_LIST")) _ _
                  (bind-Fitting (strings_under J m.body.payload (codes "participants")) _
                    (λ names. show-Fitting a update_participants (participants_data names) refl f))
                  f)))))

  network-Fitting : (text : Str) → StillFitting (process_network_message J a text)
  unfolding process_network_message
  network-Fitting text =
      if-StillFitting
        (str_eq text (codes "SERVER_DISCONNECTED\n") || str_eq text (codes "CONNECTION_ERROR\n")) _
        _ lost-Fitting (dispatch-Fitting (deserialize J text))

  outcome-Fitting :
      (o : Option Str) (g : Str → Application) (x : Application)
      → ((e : Str) → Fitting (g e))
      → Fitting x
      → Fitting (elim o [ some e ↦ g e | none ↦ x ])
  outcome-Fitting none g x h k = k
  outcome-Fitting (some e) g x h k = h e

  chat-Fitting :
      (o : Outside) (n : Option Network) (r : Client.AuthResult)
      → Fitting (elim n [ none ↦ logged_in J a r | some n ↦ open_chat J a o n r ])
  unfolding open_chat
  chat-Fitting o none r = f
  chat-Fitting o (some n) r =
      outcome-Fitting (connect n o.attempt).1 _ _
        (λ e. show-Fitting a show_error (error_data _) refl f)
        (if-Fitting o.send_works _ _ f (show-Fitting a show_error (error_data _) refl f))

  credentials-Fitting :
      (o : Outside) (c : Option (Str × Str))
      → Fitting (elim c [
        | none ↦ show_problem a (codes "Invalid login format")
        | some (username, password) ↦ login_with J a o username password
      ])
  unfolding login_with
  credentials-Fitting o none = show-Fitting a show_error (error_data _) refl f
  credentials-Fitting o (some (username, password)) =
      if-Fitting (Client.authenticate o.exchange username password).success _ _
        (chat-Fitting o a.network_manager (Client.authenticate o.exchange username password))
        (show-Fitting a show_error (error_data _) refl f)

  pub event-Fitting : (o : Outside) (e : Str) → Fitting (process_input_event J a o e)
  unfolding process_input_event login_event logout
  event-Fitting o e =
      let type = (split_event J e).0 in
      if-Fitting (str_eq type (codes "LOGIN")) _ _
        (credentials-Fitting o (split_first b':' (split_event J e).1))
        (if-Fitting (str_eq type (codes "ROOM_SELECTED")) _ _ f (
          if-Fitting (str_eq type (codes "CREATE_ROOM")) _ _ f (
            if-Fitting (str_eq type (codes "LEAVE")) _ _ f (
              if-Fitting (str_eq type (codes "LOGOUT")) _ _
                (show-Fitting a show_login monostate refl f)
                (if-Fitting (str_eq type (codes "QUIT")) _ _ (show-Fitting a quit monostate refl f)
                  (if-Fitting (str_eq type (codes "CHAT_MESSAGE")) _ _
                    (show-Fitting a add_chat_message_line (chat_message_data _) refl f) f))))))

  handle-Fitting : (h : Happening) → StillFitting (handle J a h)
  unfolding handle
  handle-Fitting (message m) = network-Fitting m
  handle-Fitting (event o e) = event-Fitting o e

pub handle_all-Fitting :
    (J : JsonLib) (a a' : Application) (hs : List Happening)
    → Fitting a
    → handle_all J a hs ≡ some a'
    → Fitting a'
unfolding handle_all
handle_all-Fitting J a a' [] f e = subst Fitting (some-injective a a' e) f
handle_all-Fitting J a a' (h ∷ hs) f e = elim (Option-cases (handle J a h)) [
  | inl n ↦ absurd (ground (arith, n, e))
  | inr (b, n) ↦
      handle_all-Fitting J b a' hs (subst StillFitting n (handle-Fitting J a f h))
        (ap (λ o. o >>= λ b. handle_all J b hs) (sym n) ∙ e)
]
