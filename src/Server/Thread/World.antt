-- ===== src/Server/Thread/World.antt =====
-- All threads of the server together. A thread is found by the socket that it serves: the system
-- hands out a socket number again only after it has been closed. Any thread that waits in `recv`
-- may wake next, and a connection may come in at any time.
use booking.Prelude.{
  ℕ, ◌≡◌, refl, ◌∙◌, sym, map, true, false, List, [], ◌∷◌, some, ◌==◌, ==_iff, if◌then◌else◌,
  Bool-cases, inl, inr,
}
use mathlib.Core.Path.{subst}
use booking.Prelude.Text.{Str, str_eq}
use booking.Prelude.Maps.{Map, lookup, keys}
use booking.Json.{JsonLib}
use booking.Message.{serialize, create_room_list}
use booking.Server.Room.{ChatRoom}
use booking.Server.Manager.{
  Server, ClientInfo, Surroundings, new_manager, general, foyer_clients,
  broadcast_room_list_to_foyer, emit,
}
use booking.Server.Manager.Sends.{broadcast_room_list_to_foyer-emit}
use booking.Server.Manager.Rooms.{is_member}
use booking.Server.Manager.Keeps.{has_room}
use booking.Server.Thread.{authenticating, closed, Thread, Wake, step}
use booking.Server.Thread.Moves.{Sat, gives}
use booking.Server.Thread.Safe.{ThreadOk, Unplaced, Safe, step-Safe}

pub record World : Type 0 where
  pub server : Server
  pub threads : ℕ → Thread

-- The thread of a new connection. Its record is filled in when it is admitted.
unfoldable pub new_thread : ℕ → Str → Thread
new_thread fd ip = record {
  phase = authenticating;
  client_fd = fd;
  client_ip = ip;
  client_info = record { fd = fd; name = []; ip = ip; current_room = []; token = [] };
}

unfoldable pub set_thread : (ℕ → Thread) → ℕ → Thread → ℕ → Thread
set_thread ts fd t fd' = if fd == fd' then t else ts fd'

unfoldable pub start : World
unfolding new_thread
start = record {
  server = new_manager;
  threads = λ fd. record (new_thread fd []) { phase = closed };
}

pub data Step (J : JsonLib) (w w' : World) : Type 0 where
  accepts :
      (fd : ℕ) (ip : Str)
      → (w.threads fd).phase ≡ closed
      → w' ≡ record w { threads = set_thread w.threads fd (new_thread fd ip) }
      → Step J w w'
  wakes :
      (fd : ℕ) (k : Wake) (s : Server) (t : Thread)
      → step J (w.threads fd).phase w.server (w.threads fd) k ≡ some (s, t)
      → w' ≡ record { server = s; threads = set_thread w.threads fd t }
      → Step J w w'

pub data Reach (J : JsonLib) (w : World) : World → Type 0 where
  here : Reach J w w
  next : {v u : World} → Reach J w v → Step J v u → Reach J w u

pub record Inv (w : World) : Type 0 where
  pub threads_ok : (fd : ℕ) → ThreadOk w.server.chat_rooms fd (w.threads fd)
  pub unplaced : Unplaced w.server.connected_clients
  pub has_general : has_room w.server.chat_rooms general ≡ true

start-Inv : Inv start
unfolding start new_thread new_manager
start-Inv = record {
  threads_ok = λ fd. record { socket = refl; foyer = λ h. cc h; chat = λ h. cc h };
  unplaced = tt;
  has_general = unfold has_room in unfold lookup in unfold str_eq in refl;
}

-- Another thread's footing survives a step.
ThreadOk-others :
    (rooms rooms' : Map ChatRoom) (fd : ℕ) (t : Thread)
    → ((n : Str) → is_member rooms' n fd ≡ is_member rooms n fd)
    → ThreadOk rooms fd t
    → ThreadOk rooms' fd t
ThreadOk-others rooms rooms' fd t same ok = record {
  socket = ok.socket;
  foyer = ok.foyer;
  chat = λ h. ((ok.chat h).0, same t.client_info.current_room ∙ (ok.chat h).1);
}

set_thread-ok :
    (ts : ℕ → Thread) (fd : ℕ) (t : Thread) (rooms : Map ChatRoom) (fd' : ℕ)
    → ThreadOk rooms fd t
    → ((fd == fd') ≡ false → ThreadOk rooms fd' (ts fd'))
    → ThreadOk rooms fd' (set_thread ts fd t fd')
unfolding set_thread
set_thread-ok ts fd t rooms fd' ok other = elim (Bool-cases (fd == fd')) [
  | inl e ↦ rw e (subst (λ f. ThreadOk rooms f t) ((==_iff fd fd').0 e) ok)
  | inr e ↦ rw e (other e)
]

given {ℓ κ} : {A : Type ℓ} {P : A → Type κ} {a : A} → Sat P (some a) → P a
given (gives h) = h

module _ (J : JsonLib) where
  wake-Safe :
      (w : World) (fd : ℕ) (k : Wake) (s : Server) (t : Thread)
      → Inv w
      → step J (w.threads fd).phase w.server (w.threads fd) k ≡ some (s, t)
      → Safe w.server fd (s, t)
  wake-Safe w fd k s t i e =
      let t₀ = w.threads fd in
      let rooms = w.server.chat_rooms in
      let ok = i.threads_ok fd in
      let own : ThreadOk rooms t₀.client_fd t₀ =
        subst (λ f. ThreadOk rooms f t₀) (sym ok.socket) ok in
      given (
        subst (λ o. Sat (Safe w.server fd) o) e
          (subst (λ f. Sat (Safe w.server f) (step J t₀.phase w.server t₀ k)) ok.socket
            (step-Safe J t₀.phase w.server t₀ k refl own)))

  step-Inv : (w w' : World) → Inv w → Step J w w' → Inv w'
  step-Inv w w' i (accepts fd ip c e) = rw e (record {
    threads_ok = λ fd'.
        set_thread-ok w.threads fd (new_thread fd ip) w.server.chat_rooms fd'
          (unfold new_thread in record { socket = refl; foyer = λ h. cc h; chat = λ h. cc h })
          (λ _. i.threads_ok fd');
    unplaced = i.unplaced;
    has_general = i.has_general;
  })
  step-Inv w w' i (wakes fd k s t ran e) =
      let safe = wake-Safe w fd k s t i ran in
      rw e (record {
        threads_ok = λ fd'. set_thread-ok w.threads fd t s.chat_rooms fd' safe.thread_ok (λ h.
            ThreadOk-others w.server.chat_rooms s.chat_rooms fd' (w.threads fd')
              (λ n. safe.others n fd' h) (i.threads_ok fd'));
        unplaced = safe.unplaced i.unplaced;
        has_general = safe.rooms general i.has_general;
      })

  -- In every state that the server can reach, by any interleaving of connections and wake-ups
  -- with any input: a thread in the foyer has no room in its record; a thread in a room has that
  -- room's name in its record, and its client is a member of the room; the room "General" exists;
  -- and no entry of the list of connected clients names a room.
  pub Reach-Inv : (w : World) → Reach J start w → Inv w
  Reach-Inv w here = start-Inv
  Reach-Inv w (next {v = v} r st) = step-Inv v w (Reach-Inv v r) st

  foyer_clients-all : (cs : List ClientInfo) → Unplaced cs → foyer_clients J cs ≡ map (λ c. c.fd) cs
  unfolding foyer_clients
  foyer_clients-all [] h = refl
  foyer_clients-all (c ∷ cs) h = rw (h.0, foyer_clients-all cs h.1)

  -- In every reachable state `broadcast_room_list_to_foyer` sends the list of rooms to every
  -- connected client, those in a room among them: the entries that it looks at are copies made at
  -- admission, which `join_room` never updates.
  pub Reach-notifies_all :
      (w : World) (a : Surroundings)
      → Reach J start w
      → broadcast_room_list_to_foyer J w.server a
        ≡ emit w.server (
            map
              (λ fd. (fd, serialize J (create_room_list J a.timestamp (keys w.server.chat_rooms))))
              (map (λ c. c.fd) w.server.connected_clients))
  Reach-notifies_all w a r =
      rw (← foyer_clients-all w.server.connected_clients (Reach-Inv w r).unplaced)
        (broadcast_room_list_to_foyer-emit J w.server a)
