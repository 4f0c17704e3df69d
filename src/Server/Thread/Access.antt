-- ===== src/Server/Thread/Access.antt =====
-- What a message must bring to have an effect, and which messages end the process.
use booking.Prelude.{
  List, ◌++◌, find_if, remove_if, ◌==◌, ℕ, ◌≡◌, refl, ◌∙◌, Bool, true, false, ◌&&◌, ◌||◌, [], ◌∷◌,
  Option, none, some, arith, ◌>>=◌, if◌then◌else◌, Option-cases, Bool-cases, inl, inr,
}
use booking.Prelude.Text.{Str, codes, str_eq, is_empty, c_string}
use booking.Json.{JsonLib}
use booking.Message.{Message, serialize, deserialize, create_error}
use booking.Server.Manager
use booking.Server.Room.{Send}
use booking.Server.Thread.{finish, closed}
use booking.Server.Manager.{Server, ClientInfo, Surroundings}
use booking.Server.Manager.Tokens.{validate_refused}
use booking.Server.Thread.{
  in_foyer, in_chat, leaves, Thread, Wake, Outcome, step, round, foyer_dispatch, chat_dispatch,
  foyer_create, foyer_join, after_foyer, after_chat, refuse,
}

abbrev pub is_none {ℓ} : {A : Type ℓ} → Option A → Bool
is_none none = true
is_none (some a) = false

is_none-if {ℓ} :
    {A : Type ℓ} (b : Bool) (x y : Option A)
    → is_none x ≡ false
    → is_none y ≡ false
    → is_none (if b then x else y) ≡ false
is_none-if true x y h g = h
is_none-if false x y h g = g

is_none-map {ℓ κ} :
    {A : Type ℓ} {B : Type κ} (o : Option A) (f : A → B)
    → is_none (o >>= λ a. some (f a)) ≡ is_none o
is_none-map none f = refl
is_none-map (some a) f = refl

-- The end of a client: its thread is closed and its entries are off the list of connected clients,
-- each other socket finds the entry that it found before, and rooms and cache are as they were.
pub record Gone (s : Server) (t : Thread) (s' : Server) (t' : Thread) : Type 0 where
  ended : t' ≡ record t { phase = closed }
  unlisted :
      (fd : ℕ)
      → find_if (λ c. c.fd == fd) s'.connected_clients
        ≡ (if t.client_fd == fd then none else find_if (λ c. c.fd == fd) s.connected_clients)
  rooms : s'.chat_rooms ≡ s.chat_rooms
  cache : s'.token_cache ≡ s.token_cache

find_if-remove_if :
    (fd' fd : ℕ) (cs : List ClientInfo)
    → find_if (λ c. c.fd == fd) (remove_if (λ c. c.fd == fd') cs)
      ≡ (if fd' == fd then none else find_if (λ c. c.fd == fd) cs)
find_if-remove_if fd' fd [] = ground arith
find_if-remove_if fd' fd (c ∷ cs) = ground (arith, find_if-remove_if fd' fd cs)

pub finish-Gone : (s : Server) (t : Thread) → Gone s t (finish s t).0 (finish s t).1
unfolding finish Manager.remove_client
finish-Gone s t = record {
  ended = refl;
  unlisted = λ fd. find_if-remove_if t.client_fd fd s.connected_clients;
  rooms = refl;
  cache = refl;
}

pub ends :
    (s : Server) (t : Thread) (m : List Send) (o : Option (Server × Thread))
    → o ≡ some (finish (Manager.emit s m) t)
    → (s' : Server) × (t' : Thread) × (o ≡ some (s', t')) × Gone s t s' t' × (s'.sent ≡ s.sent ++ m)
unfolding finish Manager.remove_client Manager.emit
ends s t m o e =
    let cut = finish-Gone (Manager.emit s m) t in
    (
      (finish (Manager.emit s m) t).0,
      (finish (Manager.emit s m) t).1,
      e,
      record { ended = refl; unlisted = cut.unlisted; rooms = refl; cache = refl },
      refl,
    )

-- What the client is told.
abbrev pub unauthorised_reply : JsonLib → Thread → Wake → Send
unauthorised_reply J t k = (
  t.client_fd,
  serialize J (create_error J (k.around).timestamp (codes "Invalid or expired token")),
)

module _ (J : JsonLib) (s : Server) (t : Thread) (k : Wake) (bytes : Str)
    (received : k.received ≡ some bytes) where
  abbrev pub heard : Message J
  heard = deserialize J (c_string bytes)

  abbrev pub validated : Server × Bool
  validated = Manager.validate_token s k.around heard.header.token

  pub round_valid :
      (dispatch : Server → Surroundings → ℕ → ClientInfo → Message J → Outcome J) (fd : ℕ)
      (info : ClientInfo)
      → validated.1 ≡ true
      → round J dispatch s fd info k ≡ dispatch validated.0 k.around fd info heard
  unfolding round
  round_valid dispatch fd info v = rw (received, round, v)

  pub round_invalid :
      (dispatch : Server → Surroundings → ℕ → ClientInfo → Message J → Outcome J) (fd : ℕ)
      (info : ClientInfo)
      → validated.1 ≡ false
      → round J dispatch s fd info k
        ≡ some (refuse J s k.around fd (codes "Invalid or expired token"), info, leaves)
  unfolding round
  round_invalid dispatch fd info v =
      rw (received, round, v, validate_refused s k.around heard.header.token v)

  -- A message whose token is refused has no effect in the foyer: the client is told so and nobody
  -- is told anything else; the client, and no other, is taken off the list of connected clients, and
  -- its thread ends. Rooms, with their members and histories, and the cache of tokens stay as they
  -- were.
  pub foyer_unauthorised :
      is_empty t.client_info.current_room ≡ true
      → validated.1 ≡ false
      → (s' : Server) × (t' : Thread) × (step J in_foyer s t k ≡ some (s', t'))
        × Gone s t s' t'
        × (s'.sent ≡ s.sent ++ (unauthorised_reply J t k ∷ []))
  unfolding step after_foyer refuse Manager.send_message
  foyer_unauthorised e v =
      ends s t (unauthorised_reply J t k ∷ []) (step J in_foyer s t k)
        (rw (round_invalid (foyer_dispatch J) t.client_fd t.client_info v, e))

  -- A message whose token is refused has no effect in a room either: the client is told so and
  -- nobody is told anything else; the client, and no other, is taken off the list of connected
  -- clients, and its thread ends. Rooms, with their members, this client among them, and their
  -- histories, and the cache of tokens stay as they were.
  pub chat_unauthorised :
      is_empty t.client_info.current_room ≡ false
      → validated.1 ≡ false
      → (s' : Server) × (t' : Thread) × (step J in_chat s t k ≡ some (s', t'))
        × Gone s t s' t'
        × (s'.sent ≡ s.sent ++ (unauthorised_reply J t k ∷ []))
  unfolding step after_chat refuse Manager.send_message
  chat_unauthorised e v =
      ends s t (unauthorised_reply J t k ∷ []) (step J in_chat s t k)
        (rw (round_invalid (chat_dispatch J) t.client_fd t.client_info v, e))

  foyer_create-raises :
      (s₁ : Server) (w : Surroundings) (fd : ℕ) (info : ClientInfo) (m : Message J)
      → is_none (foyer_create J s₁ w fd info m)
        ≡ is_none (J.value_string m.body.payload (codes "room_name") [])
  unfolding foyer_create
  foyer_create-raises s₁ w fd info m =
      elim (Option-cases (J.value_string m.body.payload (codes "room_name") [])) [
        | inl e ↦ rw (e, foyer_create)
        | inr (n, e) ↦
            rw (e, foyer_create)
              (is_none-if (Manager.create_room s₁ n).1 _ _
                (is_none-if (Manager.join_room J (Manager.create_room s₁ n).0 w fd info n).2 _ _
                  refl refl)
                refl)
      ]

  foyer_join-raises :
      (s₁ : Server) (w : Surroundings) (fd : ℕ) (info : ClientInfo) (m : Message J)
      → is_none (foyer_join J s₁ w fd info m)
        ≡ is_none (J.value_string m.body.payload (codes "room_name") [])
  unfolding foyer_join
  foyer_join-raises s₁ w fd info m =
      elim (Option-cases (J.value_string m.body.payload (codes "room_name") [])) [
        | inl e ↦ rw (e, foyer_join)
        | inr (n, e) ↦
            rw (e, foyer_join) (is_none-if (Manager.join_room J s₁ w fd info n).2 _ _ refl refl)
      ]

  foyer_dispatch-raises :
      (s₁ : Server) (w : Surroundings) (fd : ℕ) (info : ClientInfo) (m : Message J)
      → is_none (foyer_dispatch J s₁ w fd info m) ≡ (
          (str_eq m.body.type (codes "CREATE_ROOM") || str_eq m.body.type (codes "JOIN_ROOM"))
          && is_none (J.value_string m.body.payload (codes "room_name") []))
  unfolding foyer_dispatch
  foyer_dispatch-raises s₁ w fd info m =
      ground (arith, foyer_create-raises s₁ w fd info m, foyer_join-raises s₁ w fd info m)

  -- In the foyer an exception leaves the handler, and the process of the server ends, exactly when
  -- a message with an accepted token asks to create or to join a room and the json library throws
  -- at its "room_name": when the data is no object, or the name no text.
  pub foyer_raises : is_none (step J in_foyer s t k) ≡ (
      validated.1
      && ((str_eq heard.body.type (codes "CREATE_ROOM")
            || str_eq heard.body.type (codes "JOIN_ROOM"))
          && is_none (J.value_string heard.body.payload (codes "room_name") [])))
  unfolding step
  foyer_raises = is_none-map _ _ ∙ elim (Bool-cases validated.1) [
    | inl v ↦
        rw (v, round_valid (foyer_dispatch J) t.client_fd t.client_info v)
          (foyer_dispatch-raises validated.0 k.around t.client_fd t.client_info heard)
    | inr v ↦ rw (v, round_invalid (foyer_dispatch J) t.client_fd t.client_info v)
  ]
