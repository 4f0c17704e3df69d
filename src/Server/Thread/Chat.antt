-- ===== src/Server/Thread/Chat.antt =====
-- What a message in a room does, and what is left behind by a client that is cut off.
use booking.Prelude.{
  ℕ, ◌≡◌, refl, ◌∙◌, ap, true, false, List, [], ◌∷◌, ◌++◌, map, length, ◌≤◌, if◌then◌else◌, none,
  some, arith,
}
use booking.Prelude.Text.{Str, codes, str_eq, is_empty}
use booking.Prelude.Maps.{Map, lookup, insert, lookup-insert}
use booking.Json.{JsonLib}
use booking.Message.{Message, serialize, create_broadcast_message}
use booking.Server.Room
use booking.Server.Room.{ChatRoom, Send, max_history_size}
use booking.Server.Room.History.{latest, add_message-latest}
use booking.Server.Room.Members.{others, broadcast_message-sends}
use booking.Server.Manager
use booking.Server.Manager.{Server, ClientInfo, Surroundings}
use booking.Server.Manager.Rooms.{is_member}
use booking.Server.Manager.Tokens.{validate_keeps}
use booking.Server.Thread.{
  in_chat, again, Thread, Wake, step, round, chat_dispatch, chat_post, after_chat, finish,
}
use booking.Server.Thread.Access.{Gone, finish-Gone, heard, validated, round_valid}

-- The sends of a post to the other members.
abbrev pub posted : ℕ → ChatRoom → Str → List Send
posted fd room post =
    map (λ f. (f, codes "BROADCAST:" ++ post)) (others fd (map (λ c. c.fd) room.clients))

module _ (J : JsonLib) (s : Server) (t : Thread) (k : Wake) where
  -- When the connection of a client in a room ends, or fails, the client, and no other, is taken off
  -- the list of connected clients, its thread ends and nothing is sent; rooms and cache stay as they
  -- were, so that it stays a member of every room that it is a member of.
  pub cut_off_stays :
      k.received ≡ none
      → is_empty t.client_info.current_room ≡ false
      → (s' : Server) × (t' : Thread) × (step J in_chat s t k ≡ some (s', t'))
        × Gone s t s' t'
        × (s'.sent ≡ s.sent)
        × ((n : Str) (fd : ℕ) → is_member s'.chat_rooms n fd ≡ is_member s.chat_rooms n fd)
  unfolding step after_chat round finish Manager.remove_client
  cut_off_stays e f =
      ((finish s t).0, (finish s t).1, rw (e, round, f), finish-Gone s t, refl, λ n fd. refl)

module _ (J : JsonLib) (s : Server) (t : Thread) (k : Wake) (bytes : Str)
    (received : k.received ≡ some bytes) (valid : (validated J s t k bytes received).1 ≡ true) where
  abbrev m : Message J
  m = heard J s t k bytes received

  abbrev s₁ : Server
  s₁ = (validated J s t k bytes received).0

  posts :
      (s₂ : Server) (w : Surroundings) (fd : ℕ) (info : ClientInfo) (h : Message J) (text : Str)
      (room : ChatRoom)
      → h.body.type ≡ codes "CHAT_MESSAGE"
      → J.value_string h.body.payload (codes "message") [] ≡ some text
      → lookup info.current_room s₂.chat_rooms ≡ some room
      → chat_dispatch J s₂ w fd info h
        ≡ some (
          Manager.broadcast_in s₂ info.current_room room
              (serialize J (create_broadcast_message J w.timestamp info.name text))
              fd,
          info,
          again,
        )
  unfolding chat_dispatch str_eq chat_post
  posts s₂ w fd info h text room ty tx found = rw (ty, tx, found)

  broadcast_in_lem :
      (s₂ : Server) (n : Str) (room : ChatRoom) (post : Str) (fd : ℕ)
      → Manager.broadcast_in s₂ n room post fd ≡ record s₂ {
        chat_rooms = insert n (Room.add_message room post) s₂.chat_rooms;
        sent =
            s₂.sent
            ++ map (λ f. (f, codes "BROADCAST:" ++ post)) (others fd (Room.get_client_fds room));
      }
  unfolding Manager.broadcast_in Room.broadcast_message Room.add_message
  broadcast_in_lem s₂ n room post fd =
      ap
        (λ sends. record s₂ {
          chat_rooms = insert n (Room.add_message room post) s₂.chat_rooms;
          sent = s₂.sent ++ sends;
        })
        (broadcast_message-sends room post fd)

  chat_delivers_step :
      (text : Str) (room : ChatRoom)
      → m.body.type ≡ codes "CHAT_MESSAGE"
      → J.value_string m.body.payload (codes "message") [] ≡ some text
      → lookup t.client_info.current_room s.chat_rooms ≡ some room
      → let post =
          serialize J (create_broadcast_message J k.around.timestamp t.client_info.name text) in
        step J in_chat s t k
        ≡ some (
          record s₁ {
            chat_rooms =
                insert t.client_info.current_room (Room.add_message room post) s.chat_rooms;
            sent =
                s.sent
                ++ map
                    (λ fd. (fd, codes "BROADCAST:" ++ post))
                    (others t.client_fd (Room.get_client_fds room));
          },
          t,
        )
  unfolding step after_chat
  chat_delivers_step text room ty tx found =
      let (er, ec, es) = validate_keeps s k.around m.header.token in
      let post =
        serialize J (create_broadcast_message J k.around.timestamp t.client_info.name text) in
      rw
        (
          round_valid J s t k bytes received (chat_dispatch J) t.client_fd t.client_info valid,
          posts s₁ k.around t.client_fd t.client_info m text room ty tx
              (ap (lookup t.client_info.current_room) er ∙ found),
          broadcast_in_lem s₁ t.client_info.current_room room post t.client_fd,
        )
        (ap
          (λ (p : Map ChatRoom × List Send). some (
            record s₁ {
              chat_rooms = insert t.client_info.current_room (Room.add_message room post) p.0;
              sent =
                  p.1
                  ++ map (λ f. (f, codes "BROADCAST:" ++ post))
                      (others t.client_fd (Room.get_client_fds room));
            },
            t,
          ))
          {x = (s₁.chat_rooms, s₁.sent)} {y = (s.chat_rooms, s.sent)} (ground (arith, er, es)))

  -- A chat message with an accepted token and a text, in a room that is there and whose history is
  -- within its bound, is sent, marked with the sender's display name, once to every other member of
  -- the room in the order in which they joined, and to nobody else. The room's history is then the
  -- latest hundred of the old messages and this one; its members and name, all other rooms and the
  -- connected clients stay as they were, and so does the thread.
  pub chat_delivers :
      (text : Str) (room : ChatRoom)
      → m.body.type ≡ codes "CHAT_MESSAGE"
      → J.value_string m.body.payload (codes "message") [] ≡ some text
      → lookup t.client_info.current_room s.chat_rooms ≡ some room
      → length room.chat_history ≤ max_history_size
      → let post =
          serialize J (create_broadcast_message J k.around.timestamp t.client_info.name text) in
        (s' : Server) × (step J in_chat s t k ≡ some (s', t))
        × (s'.sent ≡ s.sent ++ posted t.client_fd room post)
        × (s'.connected_clients ≡ s.connected_clients)
        × ((n : Str)
            → lookup n s'.chat_rooms ≡ (
                if str_eq t.client_info.current_room n
                then some (record room { chat_history = latest (room.chat_history ++ (post ∷ [])) })
                else lookup n s.chat_rooms))
  chat_delivers text room ty tx found bound =
      let post =
        serialize J (create_broadcast_message J k.around.timestamp t.client_info.name text) in
      let (er, ec, es) = validate_keeps s k.around m.header.token in
      (
        _,
        chat_delivers_step text room ty tx found,
        unfold Room.get_client_fds in refl,
        ec,
        λ n.
            lookup-insert t.client_info.current_room n (Room.add_message room post) s.chat_rooms
            ∙ ap
                (λ r. if str_eq t.client_info.current_room n then some r else lookup n s.chat_rooms)
                (add_message-latest room post bound),
      )
