-- ===== src/Server/Thread/Safe.antt =====
-- What one step of a thread keeps: its own footing, and everybody else's.
use booking.Prelude.{
  ℕ, ◌≡◌, refl, ◌∙◌, sym, true, false, List, [], ◌∷◌, ◌++◌, Option, none, some, All, All-append,
  arith, ◌==◌, ◌>>=◌, Option-cases, Bool-cases, inl, inr, remove_if,
}
use booking.Prelude.Text.{Str, codes, str_eq, is_empty, c_string}
use booking.Prelude.Maps.{Map, lookup}
use booking.Json.{JsonLib}
use booking.Message.{deserialize}
use booking.Auth.Client
use booking.Server.Room.{ChatRoom}
use booking.Server.Manager
use booking.Server.Manager.{Server, ClientInfo, Surroundings, new_manager, general, foyer_clients}
use booking.Server.Manager.Sends.{OnlySends, send_message-OnlySends, send_room_list-OnlySends}
use booking.Server.Manager.Rooms.{is_member}
use booking.Server.Manager.Keeps.{Keeps, has_room}
use booking.Server.Thread.{
  Phase, authenticating, in_foyer, in_chat, closed, Turn, again, leaves, Thread, Wake, step, round,
  foyer_dispatch, chat_dispatch, admit, after_foyer, after_chat, enter_foyer, enter_chat, finish,
  refuse, close, welcome,
}
use booking.Server.Thread.Moves.{Move, stays, joins, departs, Facts, Sat, raises, gives}
use booking.Server.Thread.Rounds.{round-Facts, foyer_dispatch-Facts, chat_dispatch-Facts}

-- What a thread may rely on: it serves its socket; in the foyer its record names no room; in a
-- chat its record names a room, the room is there, and its client is a member of it.
pub record ThreadOk (rooms : Map ChatRoom) (fd : ℕ) (t : Thread) : Type 0 where
  pub socket : t.client_fd ≡ fd
  pub foyer : t.phase ≡ in_foyer → is_empty t.client_info.current_room ≡ true
  pub chat :
      t.phase ≡ in_chat
      → (is_empty t.client_info.current_room ≡ false)
        × (is_member rooms t.client_info.current_room fd ≡ true)

-- No entry of the list of connected clients names a room.
abbrev pub Unplaced : List ClientInfo → Type 0
Unplaced = All (λ c. is_empty c.current_room ≡ true)

-- One step of a thread, seen by everybody else.
pub record Safe (s : Server) (fd : ℕ) (r : Server × Thread) : Type 0 where
  pub thread_ok : ThreadOk (r.0).chat_rooms fd r.1
  pub others :
      (n : Str) (fd' : ℕ)
      → (fd == fd') ≡ false
      → is_member (r.0).chat_rooms n fd' ≡ is_member s.chat_rooms n fd'
  pub unplaced : Unplaced s.connected_clients → Unplaced (r.0).connected_clients
  pub rooms : (n : Str) → has_room s.chat_rooms n ≡ true → has_room (r.0).chat_rooms n ≡ true

Sat-map {ℓ κ ι μ} :
    {A : Type ℓ} {B : Type ι} {P : A → Type κ} {Q : B → Type μ} (m : Option A) {f : A → B}
    → Sat P m
    → ((a : A) → P a → Sat Q (some (f a)))
    → Sat Q (m >>= λ a. some (f a))
Sat-map none h k = raises
Sat-map (some a) (gives h) k = k a h

Unplaced-remove :
    (fd : ℕ) (cs : List ClientInfo) → Unplaced cs → Unplaced (remove_if (λ c. c.fd == fd) cs)
Unplaced-remove fd [] h = tt
Unplaced-remove fd (c ∷ cs) h = elim (Bool-cases (c.fd == fd)) [
  | inl e ↦ rw e (Unplaced-remove fd cs h.1)
  | inr e ↦ rw e (h.0, Unplaced-remove fd cs h.1)
]

-- The part of `Safe` that looks at everybody else.
abbrev Others : Server → ℕ → Server → Type 0
Others s fd s' =
    (n : Str) (fd' : ℕ)
    → (fd == fd') ≡ false
    → is_member s'.chat_rooms n fd' ≡ is_member s.chat_rooms n fd'

closed_ok :
    (rooms : Map ChatRoom) (fd : ℕ) (t : Thread)
    → t.client_fd ≡ fd
    → t.phase ≡ closed
    → ThreadOk rooms fd t
closed_ok rooms fd t e c = record {
  socket = e;
  foyer = λ h. cc (sym c ∙ h);
  chat = λ h. cc (sym c ∙ h);
}

finish-Safe :
    (s s' : Server) (t : Thread)
    → Keeps s s'
    → Others s t.client_fd s'
    → Safe s t.client_fd (finish s' t)
unfolding finish Manager.remove_client
finish-Safe s s' t k o = record {
  thread_ok = closed_ok _ _ _ refl refl;
  others = o;
  unplaced = λ h. Unplaced-remove t.client_fd s'.connected_clients (rw k.clients h);
  rooms = k.rooms;
}

module _ (J : JsonLib) where
  enter_foyer-Safe :
      (s s' : Server) (w : Surroundings) (t : Thread)
      → ((cs : List ClientInfo)
          → s'.connected_clients ≡ cs
          → Unplaced s.connected_clients
          → Unplaced cs)
      → ((n : Str) → has_room s.chat_rooms n ≡ true → has_room s'.chat_rooms n ≡ true)
      → Others s t.client_fd s'
      → is_empty t.client_info.current_room ≡ true
      → Safe s t.client_fd (enter_foyer J s' w t)
  unfolding enter_foyer
  enter_foyer-Safe s s' w t u r o e =
      let q = send_room_list-OnlySends J s' w t.client_fd in
      record {
        thread_ok = record { socket = refl; foyer = λ _. e; chat = λ h. cc h };
        others = λ n fd' h. rw q.rooms (o n fd' h);
        unplaced = λ h. u _ (sym q.clients) h;
        rooms = λ n h. rw q.rooms (r n h);
      }

  enter_chat-Safe :
      (s s' : Server) (t : Thread)
      → Keeps s s'
      → Others s t.client_fd s'
      → is_empty t.client_info.current_room ≡ false
      → is_member s'.chat_rooms t.client_info.current_room t.client_fd ≡ true
      → Safe s t.client_fd (enter_chat J s' t)
  unfolding enter_chat
  enter_chat-Safe s s' t k o e m =
      elim (Option-cases (lookup t.client_info.current_room s'.chat_rooms)) [
        | inl none_ ↦ rw (none_, enter_chat) (finish-Safe s s' t k o)
        | inr (room, found) ↦
            rw (found, enter_chat)
              (record {
                thread_ok = record { socket = refl; foyer = λ h. cc h; chat = λ _. (e, m) };
                others = o;
                unplaced = λ h. rw k.clients h;
                rooms = k.rooms;
              })
      ]

  member_after :
      (s : Server) (fd : ℕ) (info : ClientInfo) (s' : Server) (info' : ClientInfo)
      → is_empty info.current_room ≡ true
      → is_empty info'.current_room ≡ false
      → Move s fd info s' info' leaves
      → is_member s'.chat_rooms info'.current_room fd ≡ true
  member_after s fd info s' info' e f (stays g _) = ground arith
  member_after s fd info s' info' e f (joins h) = h
  member_after s fd info s' info' e f (departs g) = ground arith

  staying :
      (s : Server) (fd : ℕ) (info : ClientInfo) (s' : Server) (info' : ClientInfo)
      → Move s fd info s' info' again
      → (info' ≡ info) × ((n : Str) → is_member s'.chat_rooms n fd ≡ is_member s.chat_rooms n fd)
  staying s fd info s' info' (stays e h) = (e, h)

  after_foyer-Safe :
      (s : Server) (t : Thread) (s' : Server) (info' : ClientInfo) (turn : Turn)
      → t.phase ≡ in_foyer
      → is_empty t.client_info.current_room ≡ true
      → Facts s t.client_fd t.client_info (s', info', turn)
      → Safe s t.client_fd (after_foyer J t (s', info', turn))
  unfolding after_foyer
  after_foyer-Safe s t s' info' again p e f = record {
    thread_ok = record {
      socket = refl;
      foyer = λ _. rw (staying s _ t.client_info s' info' f.move).0 e;
      chat = λ h. cc (sym p ∙ h);
    };
    others = f.others;
    unplaced = λ h. rw (f.keeps).clients h;
    rooms = (f.keeps).rooms;
  }
  after_foyer-Safe s t s' info' leaves p e f = elim (Bool-cases (is_empty info'.current_room)) [
    | inl empty ↦ rw empty (finish-Safe s s' (record t { client_info = info' }) f.keeps f.others)
    | inr full ↦ rw full (
        enter_chat-Safe s s' (record t { client_info = info' }) f.keeps f.others full
          (member_after s _ t.client_info s' info' e full f.move))
  ]

  after_chat-Safe :
      (s : Server) (t : Thread) (w : Surroundings) (s' : Server) (info' : ClientInfo) (turn : Turn)
      → t.phase ≡ in_chat
      → ThreadOk s.chat_rooms t.client_fd t
      → Facts s t.client_fd t.client_info (s', info', turn)
      → Safe s t.client_fd (after_chat J t w (s', info', turn))
  unfolding after_chat
  after_chat-Safe s t w s' info' again p ok f = record {
    thread_ok =
        (let (e, same) = staying s _ t.client_info s' info' f.move in
          record {
            socket = refl;
            foyer = λ h. cc (sym p ∙ h);
            chat = λ _. rw e ((ok.chat p).0, same t.client_info.current_room ∙ (ok.chat p).1);
          });
    others = f.others;
    unplaced = λ h. rw (f.keeps).clients h;
    rooms = (f.keeps).rooms;
  }
  after_chat-Safe s t w s' info' leaves p ok f = elim (Bool-cases (is_empty info'.current_room)) [
    | inl empty ↦ rw empty (
        enter_foyer-Safe s s' w (record t { client_info = info' })
          (λ cs q h. rw (sym q ∙ (f.keeps).clients) h) (f.keeps).rooms f.others empty)
    | inr full ↦ rw full (finish-Safe s s' (record t { client_info = info' }) f.keeps f.others)
  ]

  shut : (s : Server) (t : Thread) (s' : Server) → OnlySends s s' → Safe s t.client_fd (s', close t)
  shut s t s' q = record {
    thread_ok = closed_ok _ _ _ refl refl;
    others = λ n fd' h. rw q.rooms;
    unplaced = λ h. rw q.clients h;
    rooms = λ n h. rw q.rooms h;
  }

  welcome-Safe :
      (s : Server) (t : Thread) (w : Surroundings) (token : Str) (user : Client.UserInfo)
      → Safe s t.client_fd (welcome J s t w token user)
  unfolding welcome
  welcome-Safe s t w token user =
      let info : ClientInfo = record {
        fd = t.client_fd;
        name = user.display_name;
        ip = t.client_ip;
        current_room = [];
        token = token;
      } in
      enter_foyer-Safe s (record s { connected_clients = s.connected_clients ++ (info ∷ []) }) w
        (record t { client_info = info })
        (λ cs q h. rw (← q) (
          All-append (λ (c : ClientInfo). is_empty c.current_room ≡ true) s.connected_clients
            (info ∷ []) h (refl, tt)))
        (λ n h. h) (λ n fd' h. refl) refl

  admit-Safe :
      (s : Server) (t : Thread) (k : Wake)
      → ThreadOk s.chat_rooms t.client_fd t
      → Safe s t.client_fd (admit J s t k)
  unfolding admit refuse
  admit-Safe s t k ok = elim (Option-cases k.received) [
    | inl e ↦ rw (e, admit) (shut s t s (record { clients = refl; rooms = refl; cache = refl }))
    | inr (bytes, e) ↦
        let m = deserialize J (c_string bytes) in
        rw (e, admit)
          (elim (Bool-cases (str_eq m.body.type (codes "AUTH"))) [
            | inr other ↦
                rw other (shut s t s (record { clients = refl; rooms = refl; cache = refl }))
            | inl auth ↦
                rw auth
                  (elim (Option-cases (Client.get_user_info k.around.exchange m.header.token)) [
                    | inl unknown ↦
                        rw unknown (shut s t _ (send_message-OnlySends J s t.client_fd _))
                    | inr (user, known) ↦ rw known (welcome-Safe s t k.around m.header.token user)
                  ])
          ])
  ]

  -- Whatever a thread receives, its step leaves it on a sound footing, moves no other client, and
  -- neither removes a room nor writes a room's name into the list of connected clients.
  pub step-Safe :
      (p : Phase) (s : Server) (t : Thread) (k : Wake)
      → t.phase ≡ p
      → ThreadOk s.chat_rooms t.client_fd t
      → Sat (Safe s t.client_fd) (step J p s t k)
  unfolding step
  step-Safe authenticating s t k e ok = gives (admit-Safe s t k ok)
  step-Safe in_foyer s t k e ok =
      Sat-map (round J (foyer_dispatch J) s t.client_fd t.client_info k)
        (round-Facts J (foyer_dispatch J) (foyer_dispatch-Facts J) s t.client_fd t.client_info k)
        λ (s', info', turn) f. gives (after_foyer-Safe s t s' info' turn e (ok.foyer e) f)
  step-Safe in_chat s t k e ok =
      Sat-map (round J (chat_dispatch J) s t.client_fd t.client_info k)
        (round-Facts J (chat_dispatch J) (chat_dispatch-Facts J) s t.client_fd t.client_info k)
        λ (s', info', turn) f. gives (after_chat-Safe s t k.around s' info' turn e ok f)
  step-Safe closed s t k e ok =
      gives
        (record { thread_ok = ok; others = λ n fd' h. refl; unplaced = λ h. h; rooms = λ n h. h })
