-- ===== src/Server/Thread/Rounds.antt =====
-- The rounds of `handle_foyer` and `handle_room_chat`, branch by branch, as moves.
use booking.Prelude.{
  ℕ, ◌≡◌, refl, ◌∙◌, ◌||◌, [], Option, none, some, arith, ◌==◌, ==_refl, if◌then◌else◌,
  Option-cases, inl, inr,
}
use booking.Prelude.Text.{Str, codes, str_eq, str_eq_iff, str_eq_refl, c_string}
use booking.Prelude.Maps.{lookup}
use booking.Json.{JsonLib}
use booking.Message.{Message, deserialize}
use booking.Server.Room.{ChatRoom}
use booking.Server.Room.Members.{has_client-broadcast}
use booking.Server.Manager
use booking.Server.Manager.{Server, ClientInfo, Surroundings, set_room}
use booking.Server.Manager.Sends.{
  OnlySends, send_message-OnlySends, foyer_list-OnlySends, send_room_list-OnlySends,
}
use booking.Server.Manager.Rooms.{
  is_member, is_member-insert, join_room-is_member, leave_room-is_member,
}
use booking.Server.Manager.Keeps.{
  Keeps, Keeps-trans, OnlySends-Keeps, create_room-Keeps, create_room-is_member, join_room-Keeps,
  leave_room-Keeps, broadcast_in-Keeps,
}
use booking.Server.Manager.Tokens.{validate_keeps}
use booking.Server.Thread.{
  Turn, again, leaves, Wake, Outcome, refuse, foyer_create, foyer_join, foyer_dispatch, chat_post,
  chat_dispatch, round,
}
use booking.Server.Thread.Moves.{
  SameMembers, joins, departs, Facts, Sat, raises, gives, Sat-if, Sat-bind, quiet, only_sends,
  Facts-from,
}

Sat-from :
    (s s₁ : Server) (fd : ℕ) (info : ClientInfo) (o : Option (Server × ClientInfo × Turn))
    → Keeps s s₁
    → SameMembers s s₁
    → Sat (Facts s₁ fd info) o
    → Sat (Facts s fd info) o
Sat-from s s₁ fd info none k same f = raises
Sat-from s s₁ fd info (some r) k same (gives f) = gives (Facts-from s s₁ fd info r k same f)

Keeps-self : (s : Server) → Keeps s s
Keeps-self s = record { clients = refl; rooms = λ n h. h }

module _ (J : JsonLib) where
  -- After `join_room`, whatever is sent on top.
  joined :
      (s : Server) (w : Surroundings) (fd : ℕ) (info : ClientInfo) (n : Str) (s' : Server)
      → OnlySends (Manager.join_room J s w fd info n).0 s'
      → (Manager.join_room J s w fd info n).1 ≡ record info { current_room = n }
      → ((n' : Str) (fd' : ℕ)
          → is_member ((Manager.join_room J s w fd info n).0).chat_rooms n' fd' ≡ (
              if str_eq n n'
              then is_member s.chat_rooms n fd' || (fd == fd')
              else is_member s.chat_rooms n' fd'))
      → Facts s fd info (s', (Manager.join_room J s w fd info n).1, leaves)
  joined s w fd info n s' sends ei mem = record {
    keeps = Keeps-trans _ _ _ (join_room-Keeps J s w fd info n) (OnlySends-Keeps _ _ sends);
    others = λ n' fd' e. rw (sends.rooms, mem n' fd', e) (ground (arith, str_eq_iff n n'));
    move = joins (rw (sends.rooms, ei, mem n fd, str_eq_refl n, ==_refl fd) (ground arith));
  }

  foyer_join-Facts :
      (s : Server) (w : Surroundings) (fd : ℕ) (info : ClientInfo) (m : Message J)
      → Sat (Facts s fd info) (foyer_join J s w fd info m)
  unfolding foyer_join refuse
  foyer_join-Facts s w fd info m =
      Sat-bind (J.value_string m.body.payload (codes "room_name") []) λ n.
        elim (join_room-is_member J s w fd info n) [
          | inl (e, gone) ↦
              rw gone (gives (only_sends s _ fd info again (send_message-OnlySends J s fd _)))
          | inr (ei, et, mem) ↦ rw et (
              gives (
                joined s w fd info n _ (record { clients = refl; rooms = refl; cache = refl }) ei
                  mem))
        ]

  foyer_create-Facts :
      (s : Server) (w : Surroundings) (fd : ℕ) (info : ClientInfo) (m : Message J)
      → Sat (Facts s fd info) (foyer_create J s w fd info m)
  unfolding foyer_create refuse
  foyer_create-Facts s w fd info m =
      Sat-bind (J.value_string m.body.payload (codes "room_name") []) λ n.
        let s₁ = (Manager.create_room s n).0 in
        let (_, _, same) = create_room-is_member s n in
        Sat-if (Manager.create_room s n).1
          (elim (join_room-is_member J s₁ w fd info n) [
            | inl (e, gone) ↦
                rw gone (gives (quiet s s₁ fd info again (create_room-Keeps s n) same))
            | inr (ei, et, mem) ↦ rw et (
                gives (
                  Facts-from s s₁ fd info _ (create_room-Keeps s n) same
                    (joined s₁ w fd info n _ (foyer_list-OnlySends J _ w) ei mem)))
          ])
          (gives (
            Facts-from s s₁ fd info _ (create_room-Keeps s n) same
              (only_sends s₁ _ fd info again (send_message-OnlySends J s₁ fd _))))

  pub foyer_dispatch-Facts :
      (s : Server) (w : Surroundings) (fd : ℕ) (info : ClientInfo) (m : Message J)
      → Sat (Facts s fd info) (foyer_dispatch J s w fd info m)
  unfolding foyer_dispatch
  foyer_dispatch-Facts s w fd info m = Sat-if _ (foyer_create-Facts s w fd info m) (
      Sat-if _ (foyer_join-Facts s w fd info m) (
        Sat-if _ (gives (only_sends s _ fd info again (send_room_list-OnlySends J s w fd))) (
          Sat-if _ (gives (quiet s s fd info leaves (Keeps-self s) (λ n fd'. refl)))
            (gives (quiet s s fd info again (Keeps-self s) (λ n fd'. refl))))))

  broadcast_in-members :
      (s : Server) (n : Str) (room : ChatRoom) (text : Str) (fd : ℕ)
      → lookup n s.chat_rooms ≡ some room
      → SameMembers s (Manager.broadcast_in s n room text fd)
  unfolding Manager.broadcast_in Manager.set_room
  broadcast_in-members s n room text fd e n' fd' =
      is_member-insert s.chat_rooms n _ n' fd'
      ∙ unfold is_member in
        ground (arith, e, str_eq_iff n n', has_client-broadcast room text fd fd')

  chat_post-Facts :
      (s : Server) (w : Surroundings) (fd : ℕ) (info : ClientInfo) (m : Message J)
      → Sat (Facts s fd info) (chat_post J s w fd info m)
  unfolding chat_post
  chat_post-Facts s w fd info m =
      Sat-bind (J.value_string m.body.payload (codes "message") []) λ message.
        elim (Option-cases (lookup info.current_room s.chat_rooms)) [
          | inl e ↦ rw e (gives (quiet s s fd info again (Keeps-self s) (λ n fd'. refl)))
          | inr (room, e) ↦ rw e (
              gives (
                quiet s _ fd info again (broadcast_in-Keeps s info.current_room room _ fd)
                  (broadcast_in-members s info.current_room room _ fd e)))
        ]

  left :
      (s : Server) (w : Surroundings) (fd : ℕ) (info : ClientInfo) (s' : Server)
      → OnlySends (Manager.leave_room J s w fd info).0 s'
      → Facts s fd info (s', (Manager.leave_room J s w fd info).1, leaves)
  left s w fd info s' sends = record {
    keeps = Keeps-trans _ _ _ (leave_room-Keeps J s w fd info) (OnlySends-Keeps _ _ sends);
    others = λ n fd' e.
        rw sends.rooms ((leave_room-is_member J s w fd info n fd').0 ∙ rw e (ground arith));
    move = departs (rw ((leave_room-is_member J s w fd info [] fd).1));
  }

  pub chat_dispatch-Facts :
      (s : Server) (w : Surroundings) (fd : ℕ) (info : ClientInfo) (m : Message J)
      → Sat (Facts s fd info) (chat_dispatch J s w fd info m)
  unfolding chat_dispatch refuse
  chat_dispatch-Facts s w fd info m =
      Sat-if _ (gives (left s w fd info _ (record { clients = refl; rooms = refl; cache = refl })))
        (Sat-if _ (gives (left s w fd info _ (send_message-OnlySends J _ fd _))) (
          Sat-if _ (chat_post-Facts s w fd info m)
            (gives (quiet s s fd info again (Keeps-self s) (λ n fd'. refl)))))

  -- Whatever a thread receives, one round of its loop moves nobody but its own client, keeps every
  -- room and the list of connected clients, and lets its client stay, join a room or leave one.
  pub round-Facts :
      (dispatch : Server → Surroundings → ℕ → ClientInfo → Message J → Outcome J)
      → ((s : Server) (w : Surroundings) (fd : ℕ) (info : ClientInfo) (m : Message J)
          → Sat (Facts s fd info) (dispatch s w fd info m))
      → (s : Server) (fd : ℕ) (info : ClientInfo) (k : Wake)
      → Sat (Facts s fd info) (round J dispatch s fd info k)
  unfolding round refuse
  round-Facts dispatch ok s fd info k = elim (Option-cases k.received) [
    | inl e ↦ rw e (gives (quiet s s fd info leaves (Keeps-self s) (λ n fd'. refl)))
    | inr (bytes, e) ↦
        let m = deserialize J (c_string bytes) in
        let s₁ = (Manager.validate_token s k.around m.header.token).0 in
        let (er, ec, es) = validate_keeps s k.around m.header.token in
        let kept : Keeps s s₁ = record { clients = ec; rooms = λ n h. rw er h } in
        let same : SameMembers s s₁ = λ n fd'. rw er in
        rw e (
          Sat-if (Manager.validate_token s k.around m.header.token).1
            (Sat-from s s₁ fd info _ kept same (ok s₁ k.around fd info m))
            (gives (
              Facts-from s s₁ fd info _ kept same
                (only_sends s₁ _ fd info leaves (send_message-OnlySends J s₁ fd _)))))
  ]
