-- ===== src/Server/Room.antt =====
-- A chat room (src/server/ChatRoom.cpp; src/ChatRoom.cpp is the same text). Each method holds the
-- room's mutex throughout, so that a method is one step. What a method hands to `send` is its list
-- of sends; their results are not read.
pub mod History
pub mod Members
use booking.Prelude.{
  ℕ, Bool, true, false, List, [], ◌∷◌, ◌++◌, map, Option, none, some, length, remove_if, any_of,
  find_if, ltb, ◌==◌, if◌then◌else◌,
}
use booking.Prelude.Text.{Str, codes}

pub record RoomClient : Type 0 where
  pub fd : ℕ
  pub name : Str
  pub ip : Str

pub record ChatRoom : Type 0 where
  pub name : Str
  pub clients : List RoomClient
  pub chat_history : List Str

-- The bytes handed to `send`, with the socket.
abbrev pub Send : Type 0
Send = ℕ × Str

abbrev pub max_history_size : ℕ
max_history_size = 100

abbrev pub new_room : Str → ChatRoom
new_room name = record { name = name; clients = []; chat_history = [] }

unfoldable pub get_client_count : ChatRoom → ℕ
get_client_count r = length r.clients

unfoldable pub add_client : ChatRoom → ℕ → Str → Str → ChatRoom
add_client r fd name ip = record r {
  clients = r.clients ++ (record { fd = fd; name = name; ip = ip } ∷ []);
}

unfoldable pub remove_client : ChatRoom → ℕ → ChatRoom
remove_client r fd = record r { clients = remove_if (λ c. c.fd == fd) r.clients }

unfoldable pub has_client : ChatRoom → ℕ → Bool
has_client r fd = any_of (λ c. c.fd == fd) r.clients

unfoldable pub get_client_display_name : ChatRoom → ℕ → Str
get_client_display_name r fd = elim (find_if (λ c. c.fd == fd) r.clients) [
  | none ↦ codes "Unknown"
  | some c ↦ c.name ++ (codes " (" ++ (c.ip ++ codes ")"))
]

abbrev pub pop_front : List Str → List Str
pop_front [] = []
pop_front (m ∷ ms) = ms

unfoldable pub add_message_internal : ChatRoom → Str → ChatRoom
add_message_internal r message =
    let pushed = r.chat_history ++ (message ∷ []) in
    record r {
      chat_history = if ltb max_history_size (length pushed) then pop_front pushed else pushed;
    }

unfoldable pub add_message : ChatRoom → Str → ChatRoom
unfolding add_message_internal
add_message r message = add_message_internal r message

-- The sends of the loop over the members.
unfoldable pub send_to_others : Str → ℕ → List RoomClient → List Send
send_to_others text sender_fd [] = []
send_to_others text sender_fd (c ∷ cs) =
    if c.fd == sender_fd
    then send_to_others text sender_fd cs
    else (c.fd, text) ∷ send_to_others text sender_fd cs

unfoldable pub broadcast_message : ChatRoom → Str → ℕ → ChatRoom × List Send
unfolding add_message_internal send_to_others
broadcast_message r message sender_fd = (
  add_message_internal r message,
  send_to_others (codes "BROADCAST:" ++ message) sender_fd r.clients,
)

abbrev pub line_end : Str
line_end = b'\n' ∷ []

unfoldable pub send_history_to_client : ChatRoom → ℕ → List Send
send_history_to_client r client_fd = elim r.chat_history [
  | [] ↦ []
  | m ∷ ms ↦
      (client_fd, codes "=== Chat History ===" ++ line_end)
      ∷ (map (λ msg. (client_fd, msg)) (m ∷ ms)
          ++ ((client_fd, codes "=== End of History ===" ++ line_end) ∷ []))
]

unfoldable pub get_client_names : ChatRoom → List Str
get_client_names r = map (λ c. c.name) r.clients

unfoldable pub get_client_fds : ChatRoom → List ℕ
get_client_fds r = map (λ c. c.fd) r.clients
