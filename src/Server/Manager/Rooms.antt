-- ===== src/Server/Manager/Rooms.antt =====
-- What the operations on rooms do to `chat_rooms`, and so to who is in which room.
use booking.Prelude.{
  ℕ, ◌≡◌, refl, ◌∙◌, ◌⊎◌, ap, Bool, true, false, not, ◌||◌, ◌&&◌, [], ◌∷◌, none, some, arith, ◌==◌,
  if◌then◌else◌, Option-cases, Bool-cases, inl, inr,
}
use booking.Prelude.Text.{Str, str_eq, str_eq_iff, is_empty}
use booking.Prelude.Maps.{Map, lookup, insert, lookup-insert}
use booking.Json.{JsonLib}
use booking.Server.Room
use booking.Server.Room.{ChatRoom, has_client, new_room}
use booking.Server.Room.Members.{
  has_client-add_client, has_client-remove_client, has_client-broadcast,
}
use booking.Server.Manager.{
  Server, ClientInfo, Surroundings, set_room, broadcast_in, join_found, join_notice, leave_notice,
  depart, join_room, leave_room, depart_if_found,
}
use booking.Server.Manager.Sends.{
  OnlySends, OnlySends-trans, emit-OnlySends, send_message-OnlySends, foyer_list-OnlySends,
  member_list-OnlySends,
}

-- Whether a socket is among the members of the room of that name.
unfoldable pub is_member : Map ChatRoom → Str → ℕ → Bool
is_member rooms n fd = elim (lookup n rooms) [ none ↦ false | some r ↦ has_client r fd ]

pub is_member-insert :
    (rooms : Map ChatRoom) (n : Str) (r : ChatRoom) (n' : Str) (fd : ℕ)
    → is_member (insert n r rooms) n' fd
      ≡ (if str_eq n n' then has_client r fd else is_member rooms n' fd)
unfolding is_member
is_member-insert rooms n r n' fd = ground (arith, lookup-insert n n' r rooms)

module _ (J : JsonLib) where
  -- The room that `join_room` leaves in the map.
  pub join_found-rooms :
      (s : Server) (w : Surroundings) (fd : ℕ) (info : ClientInfo) (n : Str) (room : ChatRoom)
      → OnlySends
          (set_room s n
            (Room.broadcast_message
              (Room.add_client room fd info.name info.ip)
              (join_notice J w info)
              fd).0)
          (join_found J s w fd info n room)
  unfolding join_found broadcast_in
  join_found-rooms s w fd info n room = OnlySends-trans _ _ _ (emit-OnlySends _ _) (
      OnlySends-trans _ _ _ (emit-OnlySends _ _) (
        OnlySends-trans _ _ _ (send_message-OnlySends J _ fd _)
          (OnlySends-trans _ _ _ (foyer_list-OnlySends J _ w) (member_list-OnlySends J _ w n))))

  join_found-is_member :
      (s : Server) (w : Surroundings) (fd : ℕ) (info : ClientInfo) (n : Str) (room : ChatRoom)
      → lookup n s.chat_rooms ≡ some room
      → (n' : Str) (fd' : ℕ)
      → is_member (join_found J s w fd info n room).chat_rooms n' fd' ≡ (
          if str_eq n n'
          then is_member s.chat_rooms n fd' || (fd == fd')
          else is_member s.chat_rooms n' fd')
  unfolding set_room
  join_found-is_member s w fd info n room e n' fd' =
      let room₁ = Room.add_client room fd info.name info.ip in
      let room₂ = (Room.broadcast_message room₁ (join_notice J w info) fd).0 in
      ap (λ rooms. is_member rooms n' fd') (join_found-rooms s w fd info n room).rooms
      ∙ is_member-insert s.chat_rooms n room₂ n' fd'
      ∙ unfold is_member in
        ground (
          arith,
          e,
          has_client-broadcast room₁ (join_notice J w info) fd fd',
          has_client-add_client room fd fd' info.name info.ip,
        )

  pub join_room-is_member :
      (s : Server) (w : Surroundings) (fd : ℕ) (info : ClientInfo) (n : Str)
      → ((lookup n s.chat_rooms ≡ none) × (join_room J s w fd info n ≡ (s, info, false)))
        ⊎ (((join_room J s w fd info n).1 ≡ record info { current_room = n })
            × ((join_room J s w fd info n).2 ≡ true)
            × ((n' : Str) (fd' : ℕ)
                → is_member ((join_room J s w fd info n).0).chat_rooms n' fd' ≡ (
                    if str_eq n n'
                    then is_member s.chat_rooms n fd' || (fd == fd')
                    else is_member s.chat_rooms n' fd')))
  unfolding join_room
  join_room-is_member s w fd info n = elim (Option-cases (lookup n s.chat_rooms)) [
    | inl e ↦ inl (e, ground arith)
    | inr (room, e) ↦ inr (
      ground arith,
      ground arith,
      λ n' fd'.
          rw (e, join_room)
            (join_found-is_member s w fd (record info { current_room = n }) n room e n' fd'),
    )
  ]

  depart-is_member :
      (s : Server) (w : Surroundings) (fd : ℕ) (info : ClientInfo) (room : ChatRoom)
      → lookup info.current_room s.chat_rooms ≡ some room
      → (n' : Str) (fd' : ℕ)
      → is_member (depart J s w fd info room).chat_rooms n' fd' ≡ (
          if str_eq info.current_room n' && (fd == fd')
          then false
          else is_member s.chat_rooms n' fd')
  unfolding depart broadcast_in set_room
  depart-is_member s w fd info room e n' fd' =
      let n = info.current_room in
      let room' = (Room.broadcast_message room (leave_notice J w info) fd).0 in
      is_member-insert (insert n room' s.chat_rooms) n (Room.remove_client room' fd) n' fd'
      ∙ unfold is_member in
        ground (
          arith,
          e,
          str_eq_iff n n',
          lookup-insert n n' room' s.chat_rooms,
          has_client-broadcast room (leave_notice J w info) fd fd',
          has_client-remove_client room' fd fd',
        )

  depart_if_found-is_member :
      (s : Server) (w : Surroundings) (fd : ℕ) (info : ClientInfo) (n' : Str) (fd' : ℕ)
      → is_member (depart_if_found J s w fd info).chat_rooms n' fd' ≡ (
          if str_eq info.current_room n' && (fd == fd')
          then false
          else is_member s.chat_rooms n' fd')
  unfolding depart_if_found
  depart_if_found-is_member s w fd info n' fd' =
      elim (Option-cases (lookup info.current_room s.chat_rooms)) [
        | inl e ↦
            rw (e, depart_if_found)
              (unfold is_member in ground (arith, e, str_eq_iff info.current_room n'))
        | inr (room, e) ↦ rw (e, depart_if_found) (depart-is_member s w fd info room e n' fd')
      ]

  pub leave_room-rooms :
      (s : Server) (w : Surroundings) (fd : ℕ) (info : ClientInfo)
      → is_empty info.current_room ≡ false
      → OnlySends (depart_if_found J s w fd info) (leave_room J s w fd info).0
  unfolding leave_room
  leave_room-rooms s w fd info e =
      rw (e, leave_room)
        (OnlySends-trans _ _ _ (send_message-OnlySends J _ fd _) (foyer_list-OnlySends J _ w))

  is_empty→nil : (t : Str) → is_empty t ≡ true → t ≡ []
  is_empty→nil [] h = refl
  is_empty→nil (c ∷ t) h = cc

  -- Leaving a room takes the client off that room's members and changes no other membership; the
  -- caller's record then names no room. For a client that is in no room no membership changes.
  pub leave_room-is_member :
      (s : Server) (w : Surroundings) (fd : ℕ) (info : ClientInfo) (n' : Str) (fd' : ℕ)
      → (is_member ((leave_room J s w fd info).0).chat_rooms n' fd' ≡ (
          if not (is_empty info.current_room) && (str_eq info.current_room n' && (fd == fd'))
          then false
          else is_member s.chat_rooms n' fd'))
        × ((leave_room J s w fd info).1 ≡ record info { current_room = [] })
  leave_room-is_member s w fd info n' fd' = elim (Bool-cases (is_empty info.current_room)) [
    | inl e ↦ (
      unfold leave_room in rw (e, leave_room),
      unfold leave_room in
          rw (e, leave_room)
            (ap (λ l. record info { current_room = l }) (is_empty→nil info.current_room e)),
    )
    | inr e ↦ (
      rw e (
          ap (λ rooms. is_member rooms n' fd') (leave_room-rooms s w fd info e).rooms
          ∙ depart_if_found-is_member s w fd info n' fd'),
      unfold leave_room in rw (e, leave_room),
    )
  ]
