-- ===== src/Server/Thread.antt =====
-- The thread of one client: `handle_client`, `handle_foyer` and `handle_room_chat` of
-- src/server/ClientManager.cpp, cut at the calls of `recv`, where a thread waits. `none` stands for
-- a json::exception that leaves the handler: no handler catches it, so the process ends.
pub mod Moves
pub mod Rounds
pub mod Safe
pub mod World
pub mod Access
pub mod Chat
mod Tests
use booking.Prelude.{
  ℕ, Bool, true, false, List, [], ◌∷◌, ◌++◌, Option, none, some, ◌>>=◌, if◌then◌else◌,
}
use booking.Prelude.Text.{Str, codes, str_eq, is_empty, c_string}
use booking.Prelude.Maps.{lookup}
use booking.Json.{JsonLib}
use booking.Message.{Message, serialize, deserialize, create_error, create_broadcast_message}
use booking.Auth.Client
use booking.Server.Room.{ChatRoom}
use booking.Server.Manager
use booking.Server.Manager.{Server, ClientInfo, Surroundings}

-- `received` is what `recv` left in the buffer, or none where it returned 0 or less.
pub record Wake : Type 0 where
  pub received : Option Str
  pub around : Surroundings

-- Where the body of a handler's loop ends: in the next round, or in a return.
pub data Turn : Type 0 where
  again leaves : Turn

pub data Phase : Type 0 where
  authenticating in_foyer in_chat closed : Phase

pub record Thread : Type 0 where
  pub phase : Phase
  pub client_fd : ℕ
  pub client_ip : Str
  pub client_info : ClientInfo

abbrev pub close : Thread → Thread
close t = record t { phase = closed }

-- The end of `handle_client`.
unfoldable pub finish : Server → Thread → Server × Thread
finish s t = (Manager.remove_client s t.client_fd, record t { phase = closed })

module _ (J : JsonLib) where
  abbrev pub Outcome : Type 0
  Outcome = Option (Server × ClientInfo × Turn)

  unfoldable pub refuse : Server → Surroundings → ℕ → Str → Server
  refuse s w fd text = Manager.send_message J s fd (create_error J w.timestamp text)

  unfoldable pub foyer_create : Server → Surroundings → ℕ → ClientInfo → Message J → Outcome
  unfolding refuse
  foyer_create s w fd info m = do
    room_name ← J.value_string m.body.payload (codes "room_name") []
    let (s₁, created) = Manager.create_room s room_name
    let (s₂, info', joined) = Manager.join_room J s₁ w fd info room_name
    if created
        then if joined
          then some (Manager.broadcast_room_list_to_foyer J s₂ w, info', leaves)
          else some (s₂, info', again)
        else some (refuse s₁ w fd (codes "Room already exists"), info, again)

  unfoldable pub foyer_join : Server → Surroundings → ℕ → ClientInfo → Message J → Outcome
  unfolding refuse
  foyer_join s w fd info m = do
    room_name ← J.value_string m.body.payload (codes "room_name") []
    let (s', info', joined) = Manager.join_room J s w fd info room_name
    if joined
        then some (s', info', leaves)
        else some (refuse s' w fd (codes "Room not found"), info', again)

  -- The tests on the message's type in the foyer.
  unfoldable pub foyer_dispatch : Server → Surroundings → ℕ → ClientInfo → Message J → Outcome
  foyer_dispatch s w fd info m =
      if str_eq m.body.type (codes "CREATE_ROOM")
      then foyer_create s w fd info m
      else if str_eq m.body.type (codes "JOIN_ROOM")
      then foyer_join s w fd info m
      else if str_eq m.body.type (codes "REFRESH_ROOMS")
      then some (Manager.send_room_list J s w fd, info, again)
      else if str_eq m.body.type (codes "QUIT")
      then some (s, info, leaves)
      else some (s, info, again)

  unfoldable pub chat_post : Server → Surroundings → ℕ → ClientInfo → Message J → Outcome
  chat_post s w fd info m = do
    message ← J.value_string m.body.payload (codes "message") []
    let text = serialize J (create_broadcast_message J w.timestamp info.name message)
    elim (lookup info.current_room s.chat_rooms) [
      | none ↦ some (s, info, again)
      | some room ↦ some (Manager.broadcast_in s info.current_room room text fd, info, again)
    ]

  -- The tests on the message's type in a room.
  unfoldable pub chat_dispatch : Server → Surroundings → ℕ → ClientInfo → Message J → Outcome
  unfolding refuse
  chat_dispatch s w fd info m =
      if str_eq m.body.type (codes "LEAVE")
      then (let (s', info') = Manager.leave_room J s w fd info in some (s', info', leaves))
      else if str_eq m.body.type (codes "QUIT")
      then (let (s', info') = Manager.leave_room J s w fd info in
          some (refuse s' w fd (codes "Disconnected"), info', leaves))
      else if str_eq m.body.type (codes "CHAT_MESSAGE")
      then chat_post s w fd info m
      else some (s, info, again)

  -- The body of either loop: receive, parse, check the token, dispatch.
  unfoldable pub round :
      (Server → Surroundings → ℕ → ClientInfo → Message J → Outcome)
      → Server
      → ℕ
      → ClientInfo
      → Wake
      → Outcome
  unfolding refuse
  round dispatch s fd info k = elim k.received [
    | none ↦ some (s, info, leaves)
    | some bytes ↦
        let m = deserialize J (c_string bytes) in
        let (s', valid) = Manager.validate_token s k.around m.header.token in
        if valid
        then dispatch s' k.around fd info m
        else some (refuse s' k.around fd (codes "Invalid or expired token"), info, leaves)
  ]

  -- The entry of `handle_foyer`.
  unfoldable pub enter_foyer : Server → Surroundings → Thread → Server × Thread
  enter_foyer s w t = (Manager.send_room_list J s w t.client_fd, record t { phase = in_foyer })

  -- The entry of `handle_room_chat`, which returns at once where the room is missing.
  unfoldable pub enter_chat : Server → Thread → Server × Thread
  unfolding finish
  enter_chat s t = elim (lookup t.client_info.current_room s.chat_rooms) [
    | none ↦ finish s t
    | some room ↦ (s, record t { phase = in_chat })
  ]

  unfoldable pub after_foyer : Thread → Server × ClientInfo × Turn → Server × Thread
  unfolding finish enter_chat
  after_foyer t (s, info, again) = (s, record t { client_info = info })
  after_foyer t (s, info, leaves) =
      if is_empty info.current_room
      then finish s (record t { client_info = info })
      else enter_chat s (record t { client_info = info })

  unfoldable pub after_chat : Thread → Surroundings → Server × ClientInfo × Turn → Server × Thread
  unfolding finish enter_foyer
  after_chat t w (s, info, again) = (s, record t { client_info = info })
  after_chat t w (s, info, leaves) =
      if is_empty info.current_room
      then enter_foyer s w (record t { client_info = info })
      else finish s (record t { client_info = info })

  -- The client is known: it is listed, and its thread enters the foyer.
  unfoldable pub welcome : Server → Thread → Surroundings → Str → Client.UserInfo → Server × Thread
  unfolding enter_foyer
  welcome s t w token user =
      let info : ClientInfo = record {
        fd = t.client_fd;
        name = user.display_name;
        ip = t.client_ip;
        current_room = [];
        token = token;
      } in
      enter_foyer (record s { connected_clients = s.connected_clients ++ (info ∷ []) }) w
        (record t { client_info = info })

  -- `handle_client` up to its loop: the first message must be AUTH with a token that the
  -- authentication server knows.
  unfoldable pub admit : Server → Thread → Wake → Server × Thread
  unfolding refuse welcome
  admit s t k = elim k.received [
    | none ↦ (s, close t)
    | some bytes ↦
        let m = deserialize J (c_string bytes) in
        if str_eq m.body.type (codes "AUTH")
        then elim (Client.get_user_info k.around.exchange m.header.token) [
          | none ↦ (refuse s k.around t.client_fd (codes "Invalid or expired token"), close t)
          | some user ↦ welcome s t k.around m.header.token user
        ]
        else (s, close t)
  ]

  -- A thread runs from one `recv` to the next.
  unfoldable pub step : Phase → Server → Thread → Wake → Option (Server × Thread)
  unfolding admit after_foyer after_chat
  step authenticating s t k = some (admit s t k)
  step in_foyer s t k = do
    r ← round foyer_dispatch s t.client_fd t.client_info k
    some (after_foyer t r)
  step in_chat s t k = do
    r ← round chat_dispatch s t.client_fd t.client_info k
    some (after_chat t k.around r)
  step closed s t k = some (s, t)
