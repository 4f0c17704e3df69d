-- ===== src/Process.antt =====
-- The client's process (src/client/client.cpp): the three threads and the four queues that they
-- share. A step is one round of a thread's loop; `none` is an exception that ends the process.
pub mod Rounds
pub mod Choice
pub mod Joining
pub mod Fitting
pub mod Commands
pub mod Quit
pub mod Ending
pub mod Showing
pub mod Saying
mod Tests
use booking.Prelude.{ℕ, Bool, true, false, List, [], Option, none, some, ◌>>=◌, if◌then◌else◌}
use booking.Prelude.Text.{Str, codes}
use booking.Json.{JsonLib}
use booking.Queue.{Queue, new_queue, push}
use booking.Client.Command.{UiCommand}
use booking.Client.State.{new_state}
use booking.Client.Network
use booking.Client.Network.{Link, Received, new_network, network_round}
use booking.Client.Application.{Application, Outside, application_round}
use booking.Ui.{Key}
use booking.Terminal.{Terminal, ScreenSize, new_terminal}
use booking.Terminal.Keys.{ui_round}

-- The queues stand here; those in the managers are references to them, as is the application's
-- pointer to the network manager.
pub record Process : Type 0 where
  pub network_inbound : Queue Str
  pub network_outbound : Queue Str
  pub ui_commands : Queue UiCommand
  pub input_events : Queue Str
  pub application : Application
  pub ui : Terminal
  pub link : Link

-- The managers, each with what it refers to.
abbrev pub application_of : Process → Application
application_of p = record p.application {
  network_inbound = p.network_inbound;
  network_outbound = p.network_outbound;
  ui_commands = p.ui_commands;
  input_events = p.input_events;
  network_manager = some p.link.network;
}

abbrev pub ui_of : Process → Terminal
ui_of p = record p.ui { ui_commands = p.ui_commands; input_events = p.input_events }

abbrev pub link_of : Process → Link
link_of p = record p.link { inbound_queue = p.network_inbound; outbound_queue = p.network_outbound }

-- The process after a manager's round.
abbrev pub network_or : Link → Option Network.Network → Link
network_or l none = l
network_or l (some n) = record l { network = n }

abbrev pub with_application : Process → Application → Process
with_application p a = record p {
  network_inbound = a.network_inbound;
  network_outbound = a.network_outbound;
  ui_commands = a.ui_commands;
  input_events = a.input_events;
  application = a;
  link = network_or p.link a.network_manager;
}

abbrev pub with_ui : Process → Terminal → Process
with_ui p u = record p { ui_commands = u.ui_commands; input_events = u.input_events; ui = u }

abbrev pub with_link : Process → Link → Process
with_link p l = record p {
  network_inbound = l.inbound_queue;
  network_outbound = l.outbound_queue;
  link = l;
}

-- `main`, up to the threads: the queues and the managers, with both loops about to run.
unfoldable pub new_process : Process
unfolding new_terminal
new_process = record {
  network_inbound = new_queue;
  network_outbound = new_queue;
  ui_commands = new_queue;
  input_events = new_queue;
  application = record {
    network_inbound = new_queue;
    network_outbound = new_queue;
    ui_commands = new_queue;
    input_events = new_queue;
    network_manager = some new_network;
    state = new_state;
    running = true;
    in_room = false;
    sent = [];
  };
  ui = record (new_terminal new_queue new_queue) { running = true };
  link = record {
    network = new_network;
    inbound_queue = new_queue;
    outbound_queue = new_queue;
    sent = [];
  };
}

-- `while (running_)` of `UIManager::run`, one round.
unfoldable pub ui_step : ScreenSize → Option Key → List Key → Process → Option Process
ui_step size k dialog p =
    if p.ui.running then (do u ← ui_round size k dialog (ui_of p); some (with_ui p u)) else some p

module _ (J : JsonLib) where
  unfoldable pub application_step : Outside → Process → Option Process
  application_step o p =
      if p.application.running
      then (do a ← application_round J o (application_of p); some (with_application p a))
      else some p

unfoldable pub network_step : (ℕ → Bool) → Option Received → Process → Process
network_step goes readable p = with_link p (network_round goes readable (link_of p))

-- `signal_handler` at SIGINT.
unfoldable pub interrupt : Process → Process
interrupt p = record p {
  network_outbound = push p.network_outbound (codes "/quit\n");
  ui = record p.ui { running = false };
}

-- `main` behind `ui.run()`: the server is told, and the other threads are stopped.
unfoldable pub shut_down : Process → Process
shut_down p = record p {
  network_outbound =
      if p.link.network.connected
      then push p.network_outbound (codes "/quit\n")
      else p.network_outbound;
  application = record p.application { running = false };
  link = record p.link { network = Network.stop p.link.network };
}
