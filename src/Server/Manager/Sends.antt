-- ===== src/Server/Manager/Sends.antt =====
-- The operations that only send: they leave the server's maps and lists as they are, and this is
-- who they reach.
use booking.Prelude.{
  ℕ, ◌≡◌, refl, ◌∙◌, List, [], ◌∷◌, map, append_assoc, append-nil, arith, sym, ap, Option-cases,
  inl, inr,
}
use booking.Prelude.Text.{Str}
use booking.Prelude.Maps.{lookup, keys}
use booking.Json.{JsonLib}
use booking.Message.{Message, serialize, create_room_list}
use booking.Server.Room.{Send}
use booking.Server.Manager.{
  Server, Surroundings, emit, send_message, send_room_list, send_room_lists, foyer_clients,
  broadcast_room_list_to_foyer, broadcast_member_list_to_room,
}

-- The second state differs from the first in `sent` alone.
pub record OnlySends (s s' : Server) : Type 0 where
  pub clients : s'.connected_clients ≡ s.connected_clients
  pub rooms : s'.chat_rooms ≡ s.chat_rooms
  pub cache : s'.token_cache ≡ s.token_cache

pub OnlySends-trans : (a b c : Server) → OnlySends a b → OnlySends b c → OnlySends a c
OnlySends-trans a b c h k = record {
  clients = k.clients ∙ h.clients;
  rooms = k.rooms ∙ h.rooms;
  cache = k.cache ∙ h.cache;
}

pub emit-OnlySends : (s : Server) (ms : List Send) → OnlySends s (emit s ms)
unfolding emit
emit-OnlySends s ms = record { clients = refl; rooms = refl; cache = refl }

module _ (J : JsonLib) where
  pub send_message-OnlySends :
      (s : Server) (fd : ℕ) (m : Message J) → OnlySends s (send_message J s fd m)
  unfolding send_message
  send_message-OnlySends s fd m = emit-OnlySends s _

  send_room_lists-emit :
      (s : Server) (w : Surroundings) (fds : List ℕ)
      → send_room_lists J s w fds
        ≡ emit s
            (map (λ fd. (fd, serialize J (create_room_list J w.timestamp (keys s.chat_rooms)))) fds)
  unfolding send_room_lists send_room_list send_message emit
  send_room_lists-emit s w [] = ap (λ l. record s { sent = l }) (sym (append-nil s.sent))
  send_room_lists-emit s w (fd ∷ fds) =
      send_room_lists-emit (send_room_list J s w fd) w fds
      ∙ ap (λ l. record s { sent = l }) (append_assoc s.sent _ _)

  -- `broadcast_room_list_to_foyer` sends the list of all rooms, in key order, once to each
  -- connected client whose entry says that it is in no room, in the order of the entries, and
  -- changes nothing else.
  pub broadcast_room_list_to_foyer-emit :
      (s : Server) (w : Surroundings)
      → broadcast_room_list_to_foyer J s w
        ≡ emit s (
            map
              (λ fd. (fd, serialize J (create_room_list J w.timestamp (keys s.chat_rooms))))
              (foyer_clients J s.connected_clients))
  unfolding broadcast_room_list_to_foyer
  broadcast_room_list_to_foyer-emit s w = send_room_lists-emit s w _

  pub send_room_list-OnlySends :
      (s : Server) (w : Surroundings) (fd : ℕ) → OnlySends s (send_room_list J s w fd)
  unfolding send_room_list
  send_room_list-OnlySends s w fd = send_message-OnlySends s fd _

  pub foyer_list-OnlySends :
      (s : Server) (w : Surroundings) → OnlySends s (broadcast_room_list_to_foyer J s w)
  foyer_list-OnlySends s w = rw (broadcast_room_list_to_foyer-emit s w) (emit-OnlySends s _)

  pub member_list-OnlySends :
      (s : Server) (w : Surroundings) (n : Str)
      → OnlySends s (broadcast_member_list_to_room J s w n)
  unfolding broadcast_member_list_to_room emit
  member_list-OnlySends s w n = elim (Option-cases (lookup n s.chat_rooms)) [
    | inl e ↦ record { clients = ground arith; rooms = ground arith; cache = ground arith }
    | inr (r, e) ↦ record { clients = ground arith; rooms = ground arith; cache = ground arith }
  ]
