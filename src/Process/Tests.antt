-- ===== src/Process/Tests.antt =====
-- The client's process at concrete queues.
use booking.Prelude.{
  arith, ◌≡◌, refl, true, false, [], ◌∷◌, ◌++◌, none, some, replicate, if◌then◌else◌, get_elem?,
  ◌+◌, List,
}
use booking.Prelude.Text.{Str, codes, str_eq}
use booking.Queue.{Queue, new_queue, push}
use booking.Json.Sample.{sample, sample-JsonLaws}
use booking.Message.{serialize, create_join_room}
use booking.Server.Manager
use booking.Server.Manager.{Server, ClientInfo, Surroundings, new_manager}
use booking.Server.Thread.{again, leaves, round, refuse, foyer_dispatch}
use booking.Client.Command.{RoomInfo, UiCommand, show_error, error_data}
use booking.Client.State.{new_state, set_token, foyer, chatroom}
use booking.Client.Network.{no_socket}
use booking.Prelude.Streams.{split_first}
use booking.Client.Application.{Application, Outside, process_input_event, login_event, split_event}
use booking.Client.Application.Rooms.{event, handle_all}
use booking.Ui.{key_down, key_enter, set_focus}
use booking.Ui.Menu
use booking.Ui.Window
use booking.Ui.Window.{add_child}
use booking.Terminal.{Terminal, ScreenSize, new_terminal, Frame, map_option}
use booking.Terminal.Screens.{room_item, setup_foyer_ui, add_parts, setup_chatroom_ui}
use booking.Wire.{receives}
use booking.Process.{Process, new_process, application_step, network_step, ui_step, ui_of}
use booking.Process.Choice.{InFoyer, ui_steps}
use booking.Process.Joining.{Idle, choose_room-joins}
use booking.Process.Commands.{Drained, process_commands-fits}
use booking.Process.Ending.{application_steps, quit-ends}
use mathlib.Core.List.{Memᴰ}
use booking.Terminal.Draw.{Drawing, round_draws}
use booking.Process.Showing.{line_paint}
use booking.Process.Saying.{Typing, IsMessage, enter-shown}

abbrev room : Str → RoomInfo
room name = record { name = name; client_count = 0 }

abbrev screen : ScreenSize
screen = record { max_y = 24; max_x = 80 }

abbrev two_rooms : Terminal
two_rooms = record (new_terminal new_queue new_queue) {
  rooms = room (codes "general") ∷ room (codes "random") ∷ [];
  current_screen = foyer;
  running = true;
}

-- A client that is logged in, in the foyer.
abbrev in_foyer : Process
in_foyer = record new_process {
  application = record new_process.application { state = set_token new_state (codes "k") };
  ui = setup_foyer_ui screen two_rooms;
  link = record new_process.link {
    network = record { socket = some 3; connected = true; running = true; joinable = true };
  };
}

in_foyer-InFoyer : InFoyer in_foyer 0
unfolding new_process new_terminal setup_foyer_ui add_parts add_child Window.focus_child
    Window.unfocus Menu.set_items Menu.next_enabled room_item set_focus
in_foyer-InFoyer = record {
  runs = refl;
  quiet = refl;
  screen = refl;
  at_room = record {
    menu = _;
    window = _;
    no_box = refl;
    in_window = refl;
    on_menu = refl;
    of_menu = refl;
    shown = refl;
    flagged = refl;
    items = refl;
    selection = refl;
  };
}

abbrev outside : Outside
outside = record { timestamp = []; exchange = λ c. c; attempt = no_socket; send_works = true }

abbrev info : ClientInfo
info = record { fd = 4; name = codes "A"; ip = codes "i"; current_room = []; token = codes "k" }

abbrev valid : Surroundings
valid = record { now = 7; timestamp = []; exchange = λ c. codes "VALID\n" }

in_foyer-Idle : Idle in_foyer
unfolding new_process new_terminal setup_foyer_ui add_parts add_child Window.focus_child
    Window.unfocus Menu.set_items Menu.next_enabled room_item set_focus
in_foyer-Idle = record {
  events = refl;
  inbound = refl;
  outbound = refl;
  application_runs = refl;
  network_runs = refl;
  connected = refl;
}

found : get_elem? in_foyer.ui.rooms (0 + 1) ≡ some (room (codes "random"))
unfolding new_process new_terminal setup_foyer_ui add_parts add_child Window.focus_child
    Window.unfocus Menu.set_items Menu.next_enabled room_item set_focus
found = refl

choose_room-joins_example :
    let text =
      serialize sample
        (create_join_room sample [] in_foyer.application.state.token (codes "random")) in
    let (s₁, ok) = Manager.validate_token new_manager valid in_foyer.application.state.token in
    let (s₂, info', joined) = Manager.join_room sample s₁ valid 4 info (codes "random") in
    (p₁ : Process) × (p₂ : Process) × (ui_steps screen
        (replicate 1 key_down ++ (key_enter ∷ []))
        in_foyer
      ≡ some p₁)
    × (application_step sample outside p₁ ≡ some p₂)
    × ((network_step (λ i. true) none p₂).link.sent ≡ in_foyer.link.sent ++ (text ∷ []))
    × (round sample (foyer_dispatch sample) new_manager 4 info (receives text valid) ≡ (
        if ok
        then if joined
          then some (s₂, info', leaves)
          else some (refuse sample s₂ valid 4 (codes "Room not found"), info', again)
        else some (refuse sample s₁ valid 4 (codes "Invalid or expired token"), info, leaves)))
choose_room-joins_example =
    choose_room-joins sample sample-JsonLaws screen in_foyer 0 1 (room (codes "random")) outside
      (λ i. true) new_manager 4 info valid in_foyer-InFoyer found in_foyer-Idle refl

abbrev leaving : Process
leaving = record in_foyer {
  input_events = record { items = codes "LOGOUT" ∷ codes "QUIT" ∷ []; stopped = false };
}

leaving_quiet : ◌≡◌ {A = Queue UiCommand} leaving.ui_commands new_queue
unfolding new_process
leaving_quiet = refl

quit-ends_example :
    (p₁ : Process) × (p₂ : Process) × (application_steps sample (outside ∷ outside ∷ []) leaving
      ≡ some p₁)
    × (ui_step screen (some key_down) [] p₁ ≡ some p₂)
    × (p₂.application.running ≡ false)
    × (p₂.ui.running ≡ false)
quit-ends_example =
    quit-ends sample screen (some key_down) [] (codes "LOGOUT" ∷ []) (outside ∷ outside ∷ [])
      leaving refl in_foyer-Idle.application_runs in_foyer-Idle.inbound refl leaving_quiet

abbrev application : Application
application = record {
  network_inbound = new_queue;
  network_outbound = new_queue;
  ui_commands = new_queue;
  input_events = new_queue;
  network_manager = none;
  state = new_state;
  running = true;
  in_room = false;
  sent = [];
}

abbrev waiting : UiCommand
waiting = record { type = show_error; payload = error_data (codes "Invalid login format") }

handled :
    handle_all sample application (event outside (codes "LOGIN:ada") ∷ [])
    ≡ some (record application { ui_commands = record { items = waiting ∷ []; stopped = false } })
unfolding handle_all process_input_event login_event split_event split_first str_eq push
handled = refl

process_commands-fits_example :
    Drained screen
      (record two_rooms { ui_commands = record { items = waiting ∷ []; stopped = false } })
      (waiting ∷ [])
process_commands-fits_example =
    process_commands-fits sample screen application
      (record application { ui_commands = record { items = waiting ∷ []; stopped = false } })
      (event outside (codes "LOGIN:ada") ∷ [])
      (record two_rooms { ui_commands = record { items = waiting ∷ []; stopped = false } }) refl
      handled refl

abbrev one_line : Terminal
one_line = record (new_terminal new_queue new_queue) {
  chat_messages = codes "[eve] hi" ∷ [];
  current_screen = chatroom;
  running = true;
}

-- A client in a room, with a message in the input.
abbrev talking : Process
talking = record in_foyer {
  ui = record (setup_chatroom_ui screen one_line) {
    chat_input =
        map_option (λ t. record t { text = codes "hello"; cursor_pos = 5 })
          (setup_chatroom_ui screen one_line).chat_input;
  };
}

abbrev chat_frame : Frame
chat_frame = record { height = 21; width = 59; bordered = true; title = codes "  " }

hello-IsMessage : IsMessage (codes "hello")
unfolding str_eq
hello-IsMessage = record { nonempty = refl; stays = refl; goes_on = refl }

talking-Typing : Typing talking (codes "hello") chat_frame
unfolding new_process new_terminal setup_chatroom_ui add_parts add_child Window.focus_child
    Window.unfocus set_focus
talking-Typing = record {
  at_input = record {
    input = _;
    window = _;
    screen = refl;
    no_box = refl;
    in_window = refl;
    on_input = refl;
    of_input = refl;
    shown = refl;
    flagged = refl;
    holds = refl;
  };
  display = refl;
  roomy = omega arith;
  runs = refl;
  application_runs = refl;
  quiet = refl;
  events = refl;
  inbound = refl;
}

enter-shown_example :
    (p₁ : Process) × (p₂ : Process) × (ds : List Drawing) × (ui_step screen
        (some key_enter)
        []
        talking
      ≡ some p₁)
    × (application_step sample outside p₁ ≡ some p₂)
    × (round_draws true true screen none [] (ui_of p₂) ≡ some ds)
    × Memᴰ (line_paint chat_frame 1 (codes "[You] hello")) ds
unfolding new_process new_terminal setup_chatroom_ui add_parts add_child Window.focus_child
    Window.unfocus set_focus
enter-shown_example =
    enter-shown sample true true screen talking (codes "hello") chat_frame outside talking-Typing
      hello-IsMessage
