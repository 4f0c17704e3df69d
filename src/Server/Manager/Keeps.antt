-- ===== src/Server/Manager/Keeps.antt =====
-- The operations on rooms never remove a room, nor touch the list of connected clients.
use booking.Prelude.{
  ℕ, ◌≡◌, refl, ◌∙◌, Bool, true, false, not, none, some, arith, if◌then◌else◌, Option-cases,
  Bool-cases, inl, inr,
}
use booking.Prelude.Text.{Str, str_eq, str_eq_iff, str_eq_refl, is_empty}
use booking.Prelude.Maps.{Map, lookup, insert, lookup-insert}
use booking.Json.{JsonLib}
use booking.Server.Room
use booking.Server.Room.{ChatRoom, has_client, new_room}
use booking.Server.Manager.{
  Server, ClientInfo, Surroundings, set_room, broadcast_in, create_room, leave_notice, depart,
  join_room, leave_room, depart_if_found,
}
use booking.Server.Manager.Sends.{OnlySends, emit-OnlySends}
use booking.Server.Manager.Rooms.{is_member, is_member-insert, join_found-rooms, leave_room-rooms}

-- Whether there is a room of that name.
unfoldable pub has_room : Map ChatRoom → Str → Bool
has_room rooms n = elim (lookup n rooms) [ none ↦ false | some r ↦ true ]

pub has_room-insert :
    (rooms : Map ChatRoom) (n : Str) (r : ChatRoom) (n' : Str)
    → has_room (insert n r rooms) n' ≡ (if str_eq n n' then true else has_room rooms n')
unfolding has_room
has_room-insert rooms n r n' = ground (arith, lookup-insert n n' r rooms)

-- The second state has the connected clients of the first, and its rooms.
pub record Keeps (s s' : Server) : Type 0 where
  pub clients : s'.connected_clients ≡ s.connected_clients
  pub rooms : (n : Str) → has_room s.chat_rooms n ≡ true → has_room s'.chat_rooms n ≡ true

pub Keeps-trans : (a b c : Server) → Keeps a b → Keeps b c → Keeps a c
Keeps-trans a b c h k = record {
  clients = k.clients ∙ h.clients;
  rooms = λ n e. k.rooms n (h.rooms n e);
}

pub OnlySends-Keeps : (s s' : Server) → OnlySends s s' → Keeps s s'
OnlySends-Keeps s s' h = record { clients = h.clients; rooms = λ n e. rw h.rooms e }

pub set_room-Keeps : (s : Server) (n : Str) (r : ChatRoom) → Keeps s (set_room s n r)
unfolding set_room
set_room-Keeps s n r = record {
  clients = refl;
  rooms = λ n' e. ground (arith, has_room-insert s.chat_rooms n r n');
}

pub broadcast_in-Keeps :
    (s : Server) (n : Str) (r : ChatRoom) (text : Str) (fd : ℕ)
    → Keeps s (broadcast_in s n r text fd)
unfolding broadcast_in
broadcast_in-Keeps s n r text fd =
    Keeps-trans _ _ _ (set_room-Keeps s n (Room.broadcast_message r text fd).0)
      (OnlySends-Keeps _ _ (emit-OnlySends _ _))

pub create_room-Keeps : (s : Server) (n : Str) → Keeps s (create_room s n).0
unfolding create_room
create_room-Keeps s n = elim (Option-cases (lookup n s.chat_rooms)) [
  | inl e ↦ rw (e, create_room) (set_room-Keeps s n (new_room n))
  | inr (r, e) ↦ rw (e, create_room) (record { clients = refl; rooms = λ n' h. h })
]

-- `create_room` answers whether the name was free. Afterwards there is a room of that name, and
-- every membership is as before, so that a new room has no members.
pub create_room-is_member :
    (s : Server) (n : Str)
    → ((create_room s n).1 ≡ not (has_room s.chat_rooms n))
      × (has_room ((create_room s n).0).chat_rooms n ≡ true)
      × ((n' : Str) (fd : ℕ)
          → is_member ((create_room s n).0).chat_rooms n' fd ≡ is_member s.chat_rooms n' fd)
unfolding create_room has_room set_room
create_room-is_member s n = (
  ground arith,
  ground (arith, lookup-insert n n (new_room n) s.chat_rooms, str_eq_refl n),
  λ n' fd. elim (Option-cases (lookup n s.chat_rooms)) [
    | inl e ↦
        rw (e, create_room)
          (is_member-insert s.chat_rooms n (new_room n) n' fd
            ∙ unfold is_member in unfold has_client in ground (arith, e, str_eq_iff n n'))
    | inr (r, e) ↦ rw (e, create_room)
  ],
)

module _ (J : JsonLib) where
  pub join_room-Keeps :
      (s : Server) (w : Surroundings) (fd : ℕ) (info : ClientInfo) (n : Str)
      → Keeps s (join_room J s w fd info n).0
  unfolding join_room
  join_room-Keeps s w fd info n = elim (Option-cases (lookup n s.chat_rooms)) [
    | inl e ↦ rw (e, join_room) (record { clients = refl; rooms = λ n' h. h })
    | inr (room, e) ↦
        rw (e, join_room)
          (Keeps-trans _ _ _ (set_room-Keeps s n _) (
            OnlySends-Keeps _ _
              (join_found-rooms J s w fd (record info { current_room = n }) n room)))
  ]

  depart-Keeps :
      (s : Server) (w : Surroundings) (fd : ℕ) (info : ClientInfo)
      → Keeps s (depart_if_found J s w fd info)
  unfolding depart_if_found depart
  depart-Keeps s w fd info = elim (Option-cases (lookup info.current_room s.chat_rooms)) [
    | inl e ↦ rw (e, depart_if_found) (record { clients = refl; rooms = λ n' h. h })
    | inr (room, e) ↦
        rw (e, depart_if_found)
          (Keeps-trans _ _ _
            (broadcast_in-Keeps s info.current_room room (leave_notice J w info) fd)
            (set_room-Keeps _ _ _))
  ]

  pub leave_room-Keeps :
      (s : Server) (w : Surroundings) (fd : ℕ) (info : ClientInfo)
      → Keeps s (leave_room J s w fd info).0
  leave_room-Keeps s w fd info = elim (Bool-cases (is_empty info.current_room)) [
    | inl e ↦ unfold leave_room in rw (e, leave_room) (record { clients = refl; rooms = λ n' h. h })
    | inr e ↦
        Keeps-trans _ _ _ (depart-Keeps s w fd info)
          (OnlySends-Keeps _ _ (leave_room-rooms J s w fd info e))
  ]
