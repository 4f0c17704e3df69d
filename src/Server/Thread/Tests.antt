-- ===== src/Server/Thread/Tests.antt =====
-- The threads of concrete clients.
use booking.Prelude.{
  ℕ, ◌≡◌, refl, ap, ◌∙◌, ◌&&◌, ◌||◌, true, false, [], ◌∷◌, map, none, some, arith, if◌then◌else◌,
}
use booking.Prelude.Text.{Str, codes, str_eq, starts_with, c_string, read_buffer}
use booking.Prelude.Maps.{lookup, keys}
use booking.Auth.Client
use booking.Json.Sample.{sample, sample-JsonLaws}
use booking.Message.{
  Message, serialize, create_room_list, create_auth, create_chat_message, create_broadcast_message,
}
use booking.Message.RoundTrip.{deserialize-serialize}
use booking.Server.Room.{ChatRoom}
use booking.Server.Manager
use booking.Server.Manager.{Server, ClientInfo, Surroundings, emit, broadcast_room_list_to_foyer}
use booking.Server.Manager.Rooms.{is_member}
use booking.Server.Thread.{Thread, Wake, in_foyer, in_chat, step, admit}
use booking.Server.Thread.World.{
  World, Reach, Inv, start, accepts, wakes, here, next, new_thread, set_thread, Reach-Inv,
  Reach-notifies_all,
}
use booking.Server.Thread.Access.{
  Gone, heard, validated, unauthorised_reply, is_none, foyer_unauthorised, chat_unauthorised,
  foyer_raises,
}
use booking.Server.Thread.Chat.{cut_off_stays, posted, chat_delivers}
use booking.Server.Room.History.{latest}

abbrev tea : Str
tea = codes "T"

abbrev tea_room : ChatRoom
tea_room = record {
  name = tea;
  clients =
      record { fd = 4; name = codes "A"; ip = codes "i" }
      ∷ record { fd = 5; name = codes "B"; ip = codes "j" }
      ∷ [];
  chat_history = [];
}

abbrev ada : ClientInfo
ada = record { fd = 4; name = codes "A"; ip = codes "i"; current_room = []; token = codes "k" }

abbrev server : Server
server = record {
  connected_clients = ada ∷ [];
  chat_rooms = (tea, tea_room) ∷ [];
  token_cache = [];
  sent = [];
}

abbrev in_foyer_thread : Thread
in_foyer_thread = record {
  phase = in_foyer;
  client_fd = 4;
  client_ip = codes "i";
  client_info = ada;
}

abbrev in_tea_thread : Thread
in_tea_thread = record {
  phase = in_chat;
  client_fd = 4;
  client_ip = codes "i";
  client_info = record ada { current_room = tea };
}

abbrev refusing : Surroundings
refusing = record { now = 7; timestamp = []; exchange = λ c. codes "INVALID\n" }

abbrev accepting : Surroundings
accepting = record { now = 7; timestamp = []; exchange = λ c. codes "VALID\n" }

abbrev noise : Str
noise = codes "hello"

abbrev refused_wake : Wake
refused_wake = record { received = some noise; around = refusing }

not_valid : (validated sample server in_foyer_thread refused_wake noise refl).1 ≡ false
unfolding Manager.validate_token Manager.is_cached lookup Client.validate_token Client.send_command
    starts_with Client.drop_newline c_string read_buffer
not_valid = refl

foyer_unauthorised_example :
    (s' : Server) × (t' : Thread) × (step sample in_foyer server in_foyer_thread refused_wake
      ≡ some (s', t'))
    × Gone server in_foyer_thread s' t'
    × (s'.sent ≡ unauthorised_reply sample in_foyer_thread refused_wake ∷ [])
foyer_unauthorised_example =
    foyer_unauthorised sample server in_foyer_thread refused_wake noise refl refl not_valid

chat_unauthorised_example :
    (s' : Server) × (t' : Thread) × (step sample in_chat server in_tea_thread refused_wake
      ≡ some (s', t'))
    × Gone server in_tea_thread s' t'
    × (s'.sent ≡ unauthorised_reply sample in_tea_thread refused_wake ∷ [])
chat_unauthorised_example =
    chat_unauthorised sample server in_tea_thread refused_wake noise refl refl not_valid

abbrev lost : Wake
lost = record { received = none; around = accepting }

cut_off_stays_example :
    (s' : Server) × (t' : Thread) × (step sample in_chat server in_tea_thread lost ≡ some (s', t'))
    × Gone server in_tea_thread s' t'
    × (s'.sent ≡ server.sent)
    × ((n : Str) (fd : ℕ) → is_member s'.chat_rooms n fd ≡ is_member server.chat_rooms n fd)
cut_off_stays_example = cut_off_stays sample server in_tea_thread lost refl refl

-- A connection on socket 7, and the answer to its AUTH message.
abbrev knowing : Surroundings
knowing = record { now = 7; timestamp = []; exchange = λ c. codes "USER eve E \n" }

abbrev first : World
first = record start { threads = set_thread start.threads 7 (new_thread 7 (codes "i")) }

abbrev hello : Wake
hello = record {
  received = some (serialize sample (create_auth sample [] (codes "k")));
  around = knowing;
}

abbrev admitted : Server × Thread
admitted = admit sample first.server (first.threads 7) hello

abbrev second : World
second = record { server = admitted.0; threads = set_thread first.threads 7 admitted.1 }

reached : Reach sample start second
unfolding start new_thread set_thread step
reached =
    next (next here (accepts 7 (codes "i") refl refl))
      (wakes 7 hello admitted.0 admitted.1 refl refl)

Reach-Inv_example : Inv second
Reach-Inv_example = Reach-Inv sample second reached

Reach-notifies_all_example :
    broadcast_room_list_to_foyer sample second.server knowing
    ≡ emit second.server (
        map
          (λ fd.
            (fd, serialize sample (create_room_list sample [] (keys second.server.chat_rooms))))
          (map (λ (c : ClientInfo). c.fd) second.server.connected_clients))
Reach-notifies_all_example = Reach-notifies_all sample second knowing reached

foyer_raises_example : is_none (step sample in_foyer server in_foyer_thread refused_wake) ≡ (
    (validated sample server in_foyer_thread refused_wake noise refl).1
    && ((str_eq
            (heard sample server in_foyer_thread refused_wake noise refl).body.type
            (codes "CREATE_ROOM")
          || str_eq
              (heard sample server in_foyer_thread refused_wake noise refl).body.type
              (codes "JOIN_ROOM"))
        && is_none (
            sample.value_string
              (heard sample server in_foyer_thread refused_wake noise refl).body.payload
              (codes "room_name")
              [])))
foyer_raises_example = foyer_raises sample server in_foyer_thread refused_wake noise refl

abbrev chat_wake : Wake
chat_wake = record {
  received = some (serialize sample (create_chat_message sample [] (codes "k") (codes "hey")));
  around = accepting;
}

abbrev chat_text : Str
chat_text = serialize sample (create_chat_message sample [] (codes "k") (codes "hey"))

chat_bytes : c_string chat_text ≡ chat_text
unfolding c_string serialize sample create_chat_message
chat_bytes = refl

chat_heard :
    heard sample server in_tea_thread chat_wake chat_text refl
    ≡ create_chat_message sample [] (codes "k") (codes "hey")
chat_heard = rw chat_bytes (
    deserialize-serialize sample sample-JsonLaws
      (create_chat_message sample [] (codes "k") (codes "hey")))

chat_valid : (validated sample server in_tea_thread chat_wake chat_text refl).1 ≡ true
unfolding Manager.validate_token Manager.is_cached lookup Client.validate_token Client.send_command
    starts_with Client.drop_newline c_string read_buffer
chat_valid = refl

chat_type :
    (heard sample server in_tea_thread chat_wake chat_text refl).body.type ≡ codes "CHAT_MESSAGE"
unfolding create_chat_message
chat_type = ap (λ (m : Message sample). m.body.type) chat_heard

chat_payload :
    sample.value_string
      (heard sample server in_tea_thread chat_wake chat_text refl).body.payload
      (codes "message")
      []
    ≡ some (codes "hey")
unfolding create_chat_message lookup str_eq
chat_payload =
    ap (λ (m : Message sample). sample.value_string m.body.payload (codes "message") []) chat_heard
    ∙ sample-JsonLaws.value_string-object ((codes "message", sample.string (codes "hey")) ∷ [])
        (codes "message") (codes "hey") [] refl

chat_delivers_example :
    let post = serialize sample (create_broadcast_message sample [] (codes "A") (codes "hey")) in
    (s' : Server) × (step sample in_chat server in_tea_thread chat_wake ≡ some (s', in_tea_thread))
    × (s'.sent ≡ posted 4 tea_room post)
    × (s'.connected_clients ≡ ada ∷ [])
    × ((n : Str)
        → lookup n s'.chat_rooms ≡ (
            if str_eq tea n
            then some (record tea_room { chat_history = latest (post ∷ []) })
            else lookup n server.chat_rooms))
unfolding lookup str_eq
chat_delivers_example =
    chat_delivers sample server in_tea_thread chat_wake chat_text refl chat_valid (codes "hey")
      tea_room chat_type chat_payload refl (omega arith)
