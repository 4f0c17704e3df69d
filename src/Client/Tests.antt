-- ===== src/Client/Tests.antt =====
-- The client at concrete events.
use booking.Prelude.{
  ◌&&◌, ◌||◌, not, if◌then◌else◌, ℕ, ◌==◌, ◌≡◌, refl, ◌++◌, Bool, true, false, All, List, [], ◌∷◌,
  none, some,
}
use booking.Prelude.Text.{Str, codes, str_eq}
use booking.Json.Sample.{sample, sample-JsonLaws}
use booking.Message.{create_auth, serialize, deserialize, empty_message, create_room_list}
use booking.Message.RoundTrip.{deserialize-serialize}
use booking.Queue.{new_queue, push}
use booking.Auth.Client
use booking.Server.Room.{ChatRoom, Send, broadcast_message}
use booking.Client.Command.{show_error, error_data}
use booking.Client.State.{new_state}
use booking.Client.Network.{Network, Link, established, new_network, send_data}
use booking.Client.Network.Sending.{connects, starts, use_all, ended_stays, Split, send_data-Split}
use booking.Client.Application.{Application, Outside, process_network_message, login_with}
use booking.Client.Application.Rooms.{
  Happening, message, event, handle_all, is_leaving, StillHidden,
}
use booking.Client.Application.History.{handle_all-Hidden}
use booking.Client.Application.Shows.{broadcast_message_ignored}
use booking.Client.Application.Login.{has_network, is_established, login_with-outcome}

-- The network thread of a connection that was lost.
abbrev ended : Network
ended = record { socket = some 3; connected = false; running = false; joinable = true }

ended_stays_example : (use_all ended (connects (established 9) ∷ starts ∷ [])).running ≡ false
ended_stays_example = ended_stays ended (connects (established 9) ∷ starts ∷ []) refl refl

abbrev link : Link
link = record {
  network = record { socket = some 3; connected = true; running = true; joinable = true };
  inbound_queue = new_queue;
  outbound_queue = record { items = codes "a" ∷ codes "b" ∷ codes "c" ∷ []; stopped = false };
  sent = [];
}

-- The second call of `send` fails.
abbrev goes : ℕ → Bool
goes i = i == 0

send_data-Split_example : Split goes link (send_data goes link)
send_data-Split_example = send_data-Split goes link refl

abbrev application : Application
application = record {
  network_inbound = new_queue;
  network_outbound = new_queue;
  ui_commands = new_queue;
  input_events = new_queue;
  network_manager = some new_network;
  state = new_state;
  running = true;
  in_room = false;
  sent = [];
}

abbrev inside : Application
inside = record application { in_room = true }

abbrev outside : Outside
outside = record {
  timestamp = [];
  exchange = λ c. codes "OK t1 Ada\n";
  attempt = established 9;
  send_works = true;
}

abbrev rooms_text : Str
rooms_text = serialize sample (create_room_list sample [] (codes "General" ∷ []))

abbrev history : List Happening
history =
    message (codes "SERVER_DISCONNECTED\n")
    ∷ event outside (codes "LOGIN:ada:pw")
    ∷ message rooms_text
    ∷ []

no_disconnected : sample.parse (codes "SERVER_DISCONNECTED\n") ≡ none
unfolding sample
no_disconnected = refl

no_error : sample.parse (codes "CONNECTION_ERROR\n") ≡ none
unfolding sample
no_error = refl

not_leaving : is_leaving sample (message rooms_text) ≡ false
unfolding create_room_list str_eq
not_leaving = rw (
    deserialize-serialize sample sample-JsonLaws
      (create_room_list sample [] (codes "General" ∷ [])))

lost_not_leaving : is_leaving sample (message (codes "SERVER_DISCONNECTED\n")) ≡ false
unfolding deserialize sample str_eq empty_message
lost_not_leaving = refl

handle_all-Hidden_example : StillHidden sample (handle_all sample inside history)
handle_all-Hidden_example =
    handle_all-Hidden sample inside history (lost_not_leaving, (refl, (not_leaving, tt)))
      (record { inside = refl; no_foyer = tt })

abbrev tea : ChatRoom
tea = record {
  name = codes "T";
  clients =
      record { fd = 4; name = codes "A"; ip = codes "i" }
      ∷ record { fd = 5; name = codes "B"; ip = codes "j" }
      ∷ [];
  chat_history = [];
}

no_broadcast : sample.parse (codes "BROADCAST:" ++ codes "hi") ≡ none
unfolding sample
no_broadcast = refl

broadcast_message_ignored_example :
    All
      (λ (x : Send). process_network_message sample application x.1 ≡ some application)
      (broadcast_message tea (codes "hi") 4).1
broadcast_message_ignored_example =
    broadcast_message_ignored sample tea (codes "hi") 4 application no_broadcast

login_with-outcome_example :
    let a' = login_with sample application outside (codes "ada") (codes "pw") in
    let r = Client.authenticate outside.exchange (codes "ada") (codes "pw") in
    let networked = has_network application.network_manager in
    let works =
      r.success && (not networked || (is_established outside.attempt && outside.send_works)) in
    let goes_out = r.success && (networked && is_established outside.attempt) in
    (a'.state ≡ (
      if works
      then record application.state { token = r.token; username = r.display_name; connected = true }
      else application.state))
    × ((text : Str) × (a'.ui_commands ≡ (
          if works
          then application.ui_commands
          else push application.ui_commands
              (record { type = show_error; payload = error_data text }))))
    × (a'.sent ≡ (
        if goes_out
        then application.sent
          ++ (serialize sample (create_auth sample outside.timestamp r.token) ∷ [])
        else application.sent))
login_with-outcome_example =
    login_with-outcome sample application outside (codes "ada") (codes "pw")
