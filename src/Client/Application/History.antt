-- ===== src/Client/Application/History.antt =====
-- Histories of the application thread inside a room.
use booking.Prelude.{
  ◌≡◌, refl, inl, inr, Bool, true, false, List, [], ◌∷◌, ◌++◌, ◌||◌, Option, none, some, All,
  Bool-cases, Option-cases, if◌then◌else◌,
}
use mathlib.Core.Path.{subst}
use booking.Prelude.Text.{Str, codes, str_eq}
use booking.Prelude.Streams.{split_first}
use booking.Json.{JsonLib}
use booking.Message.{
  Message, deserialize, create_join_room, create_create_room, create_leave, create_chat_message,
}
use booking.Auth.Client
use booking.Client.Command.{show_login, show_error, quit, error_data, monostate}
use booking.Client.State.{set_connected, set_screen, login}
use booking.Client.Network.{Network, connect}
use booking.Client.Application.{
  add_line, queue_out, Application, Outside, show, show_problem, logged_in, process_network_message,
  process_input_event, lost_connection, login_event, login_with, open_chat, logout, split_event,
}
use booking.Client.Application.Rooms.{
  Hidden, Happening, message, event, handle, handle_all, is_leaving, StillHidden, show-Hidden,
  of_state, dispatch-Hidden, line-Hidden,
}

problem-Hidden : (a : Application) (t : Str) → Hidden a → Hidden (show_problem a t)
problem-Hidden a t x = show-Hidden a show_error (error_data t) refl x

-- The fields that the property reads, after changes of the others.
same :
    (a b : Application)
    → b.in_room ≡ a.in_room
    → b.ui_commands ≡ a.ui_commands
    → Hidden a
    → Hidden b
same a b i u x = record { inside = rw i x.inside; no_foyer = rw u x.no_foyer }

Hidden-if : (b : Bool) (x y : Application) → Hidden x → Hidden y → Hidden (if b then x else y)
Hidden-if true x y h k = h
Hidden-if false x y h k = k

Hidden-elim :
    (o : Option Network) (y : Application) (f : Network → Application)
    → Hidden y
    → ((n : Network) → Hidden (f n))
    → Hidden (elim o [ none ↦ y | some n ↦ f n ])
Hidden-elim none y f h k = h
Hidden-elim (some n) y f h k = k n

-- A chain of seven tests.
Hidden-chain :
    (b₁ b₂ b₃ b₄ b₅ b₆ b₇ : Bool) (x₁ x₂ x₃ x₄ x₅ x₆ x₇ x₈ : Application)
    → Hidden x₁
    → Hidden x₂
    → Hidden x₃
    → Hidden x₄
    → Hidden x₅
    → Hidden x₆
    → Hidden x₇
    → Hidden x₈
    → Hidden (
        if b₁
        then x₁
        else if b₂
        then x₂
        else if b₃
        then x₃
        else if b₄
        then x₄
        else if b₅
        then x₅
        else if b₆
        then x₆
        else if b₇
        then x₇
        else x₈)
Hidden-chain b₁ b₂ b₃ b₄ b₅ b₆ b₇ x₁ x₂ x₃ x₄ x₅ x₆ x₇ x₈ h₁ h₂ h₃ h₄ h₅ h₆ h₇ h₈ =
    Hidden-if b₁ x₁ _ h₁ (
      Hidden-if b₂ x₂ _ h₂ (
        Hidden-if b₃ x₃ _ h₃ (
          Hidden-if b₄ x₄ _ h₄
            (Hidden-if b₅ x₅ _ h₅ (Hidden-if b₆ x₆ _ h₆ (Hidden-if b₇ x₇ x₈ h₇ h₈))))))

module _ (J : JsonLib) where
  lost-Hidden : (a : Application) → Hidden a → Hidden (lost_connection J a)
  unfolding lost_connection
  lost-Hidden a x = problem-Hidden _ (codes "Connection lost") (
      show-Hidden _ show_login monostate refl
        (of_state a (set_screen (set_connected a.state false) login) x))

  open-Hidden :
      (a : Application) (w : Outside) (n : Network) (r : Client.AuthResult)
      → Hidden a
      → Hidden (open_chat J a w n r)
  unfolding open_chat
  open-Hidden a w n r x = elim (Option-cases (connect n w.attempt).1) [
    | inr (e, h) ↦ rw (open_chat, h) (problem-Hidden _ _ (same a _ refl refl x))
    | inl h ↦
        rw (open_chat, h)
          (Hidden-if w.send_works _ _ (same a _ refl refl x)
            (problem-Hidden _ _ (same a _ refl refl x)))
  ]

  login-Hidden :
      (a : Application) (w : Outside) (u p : Str) → Hidden a → Hidden (login_with J a w u p)
  unfolding login_with
  login-Hidden a w u p x =
      let r = Client.authenticate w.exchange u p in
      Hidden-if r.success _ _
        (Hidden-elim a.network_manager (logged_in J a r) (λ n. open_chat J a w n r)
          (same a _ refl refl x) (λ n. open-Hidden a w n r x))
        (problem-Hidden a _ x)

  event-Hidden :
      (a : Application) (w : Outside) (data_ : Str) → Hidden a → Hidden (login_event J a w data_)
  unfolding login_event
  event-Hidden a w data_ x = elim (Option-cases (split_first b':' data_)) [
    | inl e ↦ rw (login_event, e) (problem-Hidden a _ x)
    | inr ((u, p), e) ↦ rw (login_event, e) (login-Hidden a w u p x)
  ]

  logout-Hidden : (a : Application) → Hidden a → Hidden (logout J a)
  unfolding logout
  logout-Hidden a x = show-Hidden _ show_login monostate refl (same a _ refl refl x)

  input-Hidden :
      (a : Application) (w : Outside) (e : Str) → Hidden a → Hidden (process_input_event J a w e)
  unfolding process_input_event
  input-Hidden a w e x =
      let t = (split_event J e).0 in
      let d = (split_event J e).1 in
      let out = λ (m : Message J). same a (queue_out J a m) refl refl x in
      let now = w.timestamp in
      let join = create_join_room J now a.state.token d in
      let create = create_create_room J now a.state.token d in
      let leave = create_leave J now a.state.token in
      let chat = create_chat_message J now a.state.token d in
      let own = codes "[You] " ++ d in
      let ended = record a { running = false } in
      Hidden-chain (str_eq t (codes "LOGIN")) (str_eq t (codes "ROOM_SELECTED"))
        (str_eq t (codes "CREATE_ROOM")) (str_eq t (codes "LEAVE")) (str_eq t (codes "LOGOUT"))
        (str_eq t (codes "QUIT")) (str_eq t (codes "CHAT_MESSAGE")) (login_event J a w d)
        (queue_out J a join) (queue_out J a create) (queue_out J a leave) (logout J a)
        (show ended quit monostate) (queue_out J (add_line J a own) chat) a (event-Hidden a w d x)
        (out join) (out create) (out leave) (logout-Hidden a x)
        (show-Hidden ended quit monostate refl (same a ended refl refl x))
        (same (add_line J a own) _ refl refl (line-Hidden J a own x)) x

  message-Hidden :
      (a : Application) (m : Str)
      → str_eq (deserialize J m).body.type (codes "LEFT_ROOM") ≡ false
      → Hidden a
      → StillHidden J (process_network_message J a m)
  unfolding process_network_message
  message-Hidden a m h x =
      elim (Bool-cases
        (str_eq m (codes "SERVER_DISCONNECTED\n") || str_eq m (codes "CONNECTION_ERROR\n"))) [
          | inl e ↦ rw e (lost-Hidden a x)
          | inr e ↦ rw e (dispatch-Hidden J a (deserialize J m) h x)
        ]

  handle-Hidden :
      (a : Application) (h : Happening)
      → is_leaving J h ≡ false
      → Hidden a
      → StillHidden J (handle J a h)
  unfolding handle
  handle-Hidden a (message m) l x = message-Hidden a m l x
  handle-Hidden a (event w e) l x = input-Hidden a w e x

  -- Once the client is in a room and no command to show the foyer is queued, no history of the
  -- application thread without a LEFT_ROOM message brings it out of the room or queues a command
  -- that shows the foyer, whatever else it holds: the loss of the connection, a LOGOUT, another
  -- login and the room lists that follow it included. (Where a json::exception ends the process,
  -- the statement is void.)
  pub handle_all-Hidden :
      (a : Application) (hs : List Happening)
      → All (λ h. is_leaving J h ≡ false) hs
      → Hidden a
      → StillHidden J (handle_all J a hs)
  unfolding handle_all
  handle_all-Hidden a [] l x = x
  handle_all-Hidden a (h ∷ hs) l x = elim (Option-cases (handle J a h)) [
    | inl e ↦ rw (handle_all, e) tt
    | inr (a', e) ↦
        rw (handle_all, e)
          (handle_all-Hidden a' hs l.1 (subst (StillHidden J) e (handle-Hidden a h l.0 x)))
  ]
