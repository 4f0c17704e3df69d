-- ===== src/Process/Quit.antt =====
-- What the application makes of an event, as far as its loop and its queues go.
use booking.Prelude.{
  ◌≡◌, refl, ap, ◌∙◌, ◌⊎◌, inl, inr, Bool, true, false, List, [], ◌∷◌, ◌++◌, Option, none, some,
  any_of, arith, if◌then◌else◌,
}
use booking.Prelude.Text.{Str, codes, str_eq}
use booking.Prelude.Streams.{split_first}
use booking.Json.{JsonLib}
use booking.Queue.{Queue, push}
use booking.Auth.Client
use booking.Client.Command.{
  UiCommand, UiCommandType, UiData, quit, show_error, show_login, add_chat_message_line,
  chat_message_data, error_data, monostate,
}
use booking.Client.Network.{Network, connect}
use booking.Client.Application.{
  Application, Outside, show, show_problem, logged_in, open_chat, login_with, login_event, logout,
  split_event, process_input_event,
}
use booking.Process.Commands.{quits, is_quit}

any_of-append :
    {A : Type 0} (p : A → Bool) (xs ys : List A) → any_of p ys ≡ true → any_of p (xs ++ ys) ≡ true
any_of-append p [] ys h = h
any_of-append p (x ∷ xs) ys h = ground (arith, any_of-append p xs ys h)

-- What an event leaves alone, and that where it ends the loop it tells the terminal.
pub record Handled (a a' : Application) : Type 0 where
  pub inbound : a'.network_inbound ≡ a.network_inbound
  pub events : a'.input_events ≡ a.input_events
  pub open_queue : a'.ui_commands.stopped ≡ a.ui_commands.stopped
  pub loop : (a'.running ≡ a.running) ⊎ ((a'.running ≡ false) × (quits a'.ui_commands.items ≡ true))

push-stopped : {T : Type 0} (q : Queue T) (x : T) → (push q x).stopped ≡ q.stopped
unfolding push
push-stopped q x = ground arith

if-Handled :
    (a : Application) (b : Bool) (x y : Application)
    → Handled a x
    → Handled a y
    → Handled a (if b then x else y)
if-Handled a true x y f g = f
if-Handled a false x y f g = g

outcome-Handled :
    (a : Application) (o : Option Str) (g : Str → Application) (x : Application)
    → ((e : Str) → Handled a (g e))
    → Handled a x
    → Handled a (elim o [ some e ↦ g e | none ↦ x ])
outcome-Handled a none g x h k = k
outcome-Handled a (some e) g x h k = h e

pub push-quits :
    (q : Queue UiCommand)
    → q.stopped ≡ false
    → quits (push q (record { type = quit; payload = monostate })).items ≡ true
unfolding push quits
push-quits q h =
    ap
      (λ b.
        any_of (λ (c : UiCommand). is_quit c.type)
          (if b then q else record q {
            items = q.items ++ (record { type = quit; payload = monostate } ∷ []);
          }).items)
      h
    ∙ any_of-append (λ (c : UiCommand). is_quit c.type) q.items
        (record { type = quit; payload = monostate } ∷ []) refl

module _ (J : JsonLib) (a : Application) where
  calm : Handled a a
  calm = record { inbound = refl; events = refl; open_queue = refl; loop = inl refl }

  -- A command after changes of other fields.
  shown :
      (a' : Application) (t : UiCommandType) (d : UiData)
      → a'.network_inbound ≡ a.network_inbound
      → a'.input_events ≡ a.input_events
      → a'.ui_commands ≡ a.ui_commands
      → a'.running ≡ a.running
      → Handled a (show a' t d)
  shown a' t d i e u r = record {
    inbound = i;
    events = e;
    open_queue =
        push-stopped a'.ui_commands (record { type = t; payload = d })
        ∙ ap (λ (q : Queue UiCommand). q.stopped) u;
    loop = inl r;
  }

  others :
      (a' : Application)
      → a'.network_inbound ≡ a.network_inbound
      → a'.input_events ≡ a.input_events
      → a'.ui_commands ≡ a.ui_commands
      → a'.running ≡ a.running
      → Handled a a'
  others a' i e u r = record {
    inbound = i;
    events = e;
    open_queue = ap (λ (q : Queue UiCommand). q.stopped) u;
    loop = inl r;
  }

  chat-Handled :
      (o : Outside) (n : Option Network) (r : Client.AuthResult)
      → Handled a (elim n [ none ↦ logged_in J a r | some n ↦ open_chat J a o n r ])
  unfolding open_chat
  chat-Handled o none r = others (logged_in J a r) refl refl refl refl
  chat-Handled o (some n) r =
      outcome-Handled a (connect n o.attempt).1 _ _
        (λ e. shown _ show_error (error_data _) refl refl refl refl)
        (if-Handled a o.send_works _ _ (others _ refl refl refl refl)
          (shown _ show_error (error_data _) refl refl refl refl))

  credentials-Handled :
      (o : Outside) (c : Option (Str × Str))
      → Handled a (elim c [
        | none ↦ show_problem a (codes "Invalid login format")
        | some (username, password) ↦ login_with J a o username password
      ])
  unfolding login_with
  credentials-Handled o none = shown a show_error (error_data _) refl refl refl refl
  credentials-Handled o (some (username, password)) =
      if-Handled a (Client.authenticate o.exchange username password).success _ _
        (chat-Handled o a.network_manager (Client.authenticate o.exchange username password))
        (shown a show_error (error_data _) refl refl refl refl)

  quit-Handled :
      a.ui_commands.stopped ≡ false → Handled a (show (record a { running = false }) quit monostate)
  quit-Handled h = record {
    inbound = refl;
    events = refl;
    open_queue = push-stopped a.ui_commands (record { type = quit; payload = monostate });
    loop = inr (refl, push-quits a.ui_commands h);
  }

  pub event-Handled :
      (o : Outside) (e : Str)
      → a.ui_commands.stopped ≡ false
      → Handled a (process_input_event J a o e)
  unfolding process_input_event login_event logout
  event-Handled o e h =
      let type = (split_event J e).0 in
      if-Handled a (str_eq type (codes "LOGIN")) _ _
        (credentials-Handled o (split_first b':' (split_event J e).1))
        (if-Handled a (str_eq type (codes "ROOM_SELECTED")) _ _ (others _ refl refl refl refl) (
          if-Handled a (str_eq type (codes "CREATE_ROOM")) _ _ (others _ refl refl refl refl) (
            if-Handled a (str_eq type (codes "LEAVE")) _ _ (others _ refl refl refl refl) (
              if-Handled a (str_eq type (codes "LOGOUT")) _ _
                (shown _ show_login monostate refl refl refl refl)
                (if-Handled a (str_eq type (codes "QUIT")) _ _ (quit-Handled h) (
                  if-Handled a (str_eq type (codes "CHAT_MESSAGE")) _ _
                    (shown _ add_chat_message_line (chat_message_data _) refl refl refl refl)
                    calm))))))
