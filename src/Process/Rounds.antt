-- ===== src/Process/Rounds.antt =====
-- Rounds of the client's threads whose queues are quiet.
use booking.Prelude.{
  ℕ, ◌≡◌, refl, sym, ◌++◌, Bool, ap, ◌∙◌, true, false, List, [], ◌∷◌, Option, none, some, ◌>>=◌,
}
use booking.Prelude.Text.{Str}
use booking.Queue
use booking.Queue.{new_queue, push, try_pop, empty, take_front, size}
use booking.Json.{JsonLib}
use booking.Client.State.{Screen, login, foyer, chatroom}
use booking.Ui.{set_focus, Key}
use booking.Ui.Menu
use booking.Ui.ListBox
use booking.Ui.Window
use booking.Terminal.{map_option, Terminal, ScreenSize, Part}
use booking.Ui.Window.{add_child, Window}
use booking.Terminal.Screens.{setup_login_ui, setup_foyer_ui, setup_chatroom_ui, add_parts}
use booking.Client.Network.{Link, network_round, send_data, send_loop}
use booking.Client.Application.{Application, Outside, application_round, process_input_event}
use booking.Terminal.Commands.{process_commands}
use booking.Terminal.Keys.{ui_round, poll_input, render, set_up, list_members}

no_command :
    (screen : ScreenSize) (u : Terminal)
    → u.ui_commands ≡ new_queue
    → process_commands screen u ≡ some u
unfolding process_commands try_pop empty size
no_command screen u e = ap (process_commands screen) (quiet u e) ∙ ap some (sym (quiet u e))
  where
    quiet : (u : Terminal) → u.ui_commands ≡ new_queue → u ≡ record u { ui_commands = new_queue }
    quiet u e = λ i. record u { ui_commands = e i }

-- With no command in the queue a round of the terminal is a key and the drawing.
pub ui_round-quiet :
    (screen : ScreenSize) (k : Option Key) (dialog : List Key) (u : Terminal)
    → u.ui_commands ≡ new_queue
    → ui_round screen k dialog u ≡ some (render screen (poll_input u k dialog))
unfolding ui_round
ui_round-quiet screen k dialog u e =
    ap (λ o. o >>= λ u'. some (render screen (poll_input u' k dialog))) (no_command screen u e)

-- Drawing changes a foyer that is set up by nothing but the error.
pub render-foyer :
    (screen : ScreenSize) (u : Terminal) (w : Window Part)
    → u.main_window ≡ some w
    → u.current_screen ≡ foyer
    → render screen u ≡ record u { error_message = [] }
unfolding render set_up list_members
render-foyer screen u w e f =
    let p : u ≡ record u { main_window = some w; current_screen = foyer } =
      λ i. record u { main_window = e i; current_screen = f i } in
    ap (render screen) p ∙ ap (λ (u' : Terminal). record u' { error_message = [] }) (sym p)

-- With nothing from the network, the application's round is its first event.
pub application_round-event :
    (J : JsonLib) (o : Outside) (a : Application) (event : Str) (rest : List Str)
    → a.network_inbound ≡ new_queue
    → a.input_events ≡ record { items = event ∷ rest; stopped = false }
    → application_round J o a
      ≡ some (
          process_input_event J
            (record a { input_events = record { items = rest; stopped = false } })
            o
            event)
unfolding application_round try_pop empty take_front
application_round-event J o a event rest e f =
    ap (application_round J o) quiet
    ∙ ap (λ x. some (process_input_event J x o event))
        (sym (λ i. record a {
          network_inbound = e i;
          input_events = record { items = rest; stopped = false };
        }))
  where
    quiet : a ≡ record a {
      network_inbound = new_queue;
      input_events = record { items = event ∷ rest; stopped = false };
    }
    quiet = λ i. record a { network_inbound = e i; input_events = f i }

-- A network thread that is up sends the one text that is queued, if the socket takes it.
pub network_round-sends :
    (goes : ℕ → Bool) (l : Link) (text : Str)
    → l.network.running ≡ true
    → l.network.connected ≡ true
    → l.outbound_queue ≡ record { items = text ∷ []; stopped = false }
    → goes 0 ≡ true
    → network_round goes none l
      ≡ record l { outbound_queue = new_queue; sent = l.sent ++ (text ∷ []) }
unfolding network_round send_data send_loop Queue.try_pop_immediate empty take_front size
network_round-sends goes l text r c e g =
    let p : l ≡ record l {
      network = record l.network { running = true; connected = true };
      outbound_queue = record { items = text ∷ []; stopped = false };
    } =
      λ i. record l {
        network = record l.network { running = r i; connected = c i };
        outbound_queue = e i;
      } in
    ap (network_round goes none) p
    ∙ (rw g refl
        ∙ ap
            (λ (l' : Link). record l' { outbound_queue = new_queue; sent = l'.sent ++ (text ∷ []) })
            (sym p))

-- What drawing leaves alone, whatever it sets up.
abbrev pub Kept : Terminal → Terminal → Type 0
Kept u u' =
    (u'.input_events ≡ u.input_events) × (u'.ui_commands ≡ u.ui_commands) × (u'.running ≡ u.running)

set_up-Kept :
    (screen : ScreenSize) (u : Terminal) (o : Option (Window Part)) (s : Screen)
    → Kept u (elim o [
      | some w ↦ u
      | none ↦ elim s [
        | login ↦ setup_login_ui u
        | foyer ↦ setup_foyer_ui screen u
        | chatroom ↦ setup_chatroom_ui screen u
      ]
    ])
unfolding setup_login_ui setup_foyer_ui setup_chatroom_ui add_parts add_child Window.focus_child
    Window.unfocus set_focus Menu.set_items
set_up-Kept screen u (some w) s = (refl, refl, refl)
set_up-Kept screen u none login = (refl, refl, refl)
set_up-Kept screen u none foyer = (refl, refl, refl)
set_up-Kept screen u none chatroom = (refl, refl, refl)

members-Kept :
    (u : Terminal) (s : Screen)
    → Kept u (elim s [
      | login ↦ u
      | foyer ↦ u
      | chatroom ↦ record u {
        member_list_box = map_option (λ b. ListBox.set_items b u.participants) u.member_list_box;
      }
    ])
members-Kept u login = (refl, refl, refl)
members-Kept u foyer = (refl, refl, refl)
members-Kept u chatroom = (refl, refl, refl)

pub render-Kept : (screen : ScreenSize) (u : Terminal) → Kept u (render screen u)
unfolding render set_up list_members
render-Kept screen u =
    let a = set_up-Kept screen u u.main_window u.current_screen in
    let b = members-Kept (set_up screen u) (set_up screen u).current_screen in
    (b.0 ∙ a.0, b.1 ∙ a.1, b.2 ∙ a.2)
