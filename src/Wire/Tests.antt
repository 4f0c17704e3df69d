-- ===== src/Wire/Tests.antt =====
-- A client in the foyer, and one in a room, at a server that validates their token.
use booking.Prelude.{◌≡◌, ◌++◌, true, false, [], some, if◌then◌else◌}
use booking.Prelude.Text.{codes}
use booking.Json.Sample.{sample, sample-JsonLaws}
use booking.Message.{serialize, create_chat_message}
use booking.Queue.{new_queue, push}
use booking.Server.Manager
use booking.Server.Manager.{Server, ClientInfo, Surroundings, new_manager}
use booking.Server.Thread.{leaves, round, refuse, chat_dispatch}
use booking.Client.State.{new_state, set_token}
use booking.Client.Network.{new_network, no_socket}
use booking.Client.Application.{Application, Outside, process_input_event, add_line}
use booking.Wire.{receives, posted, chat_message-posts}

abbrev application : Application
application = record {
  network_inbound = new_queue;
  network_outbound = new_queue;
  ui_commands = new_queue;
  input_events = new_queue;
  network_manager = some new_network;
  state = set_token new_state (codes "k");
  running = true;
  in_room = false;
  sent = [];
}

abbrev outside : Outside
outside = record { timestamp = []; exchange = λ c. c; attempt = no_socket; send_works = true }

abbrev info : ClientInfo
info = record { fd = 4; name = codes "A"; ip = codes "i"; current_room = []; token = codes "k" }

abbrev in_general : ClientInfo
in_general = record info { current_room = codes "General" }

abbrev valid : Surroundings
valid = record { now = 7; timestamp = []; exchange = λ c. codes "VALID\n" }

chat_message-posts_example :
    let bytes = serialize sample (create_chat_message sample [] (codes "k") (codes "hi")) in
    let (s₁, valid_) = Manager.validate_token new_manager valid (codes "k") in
    (process_input_event sample application outside (codes "CHAT_MESSAGE:" ++ codes "hi")
      ≡ record (add_line sample application (codes "[You] " ++ codes "hi")) {
        network_outbound = push application.network_outbound bytes;
      })
    × (round sample (chat_dispatch sample) new_manager 4 in_general (receives bytes valid) ≡ (
        if valid_
        then posted sample sample-JsonLaws s₁ valid 4 in_general (codes "hi")
        else some
            (refuse sample s₁ valid 4 (codes "Invalid or expired token"), in_general, leaves)))
chat_message-posts_example =
    chat_message-posts sample sample-JsonLaws application outside (codes "hi") new_manager 4
      in_general valid
