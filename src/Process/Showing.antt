-- ===== src/Process/Showing.antt =====
-- A chat message from the input event to the screen.
use booking.Prelude.{
  refl, false, none, true, ℕ, ◌+◌, ◌-◌, ◌≤◌, ◌≡◌, ap, ◌∙◌, Bool, List, [], ◌∷◌, ◌++◌, length, take,
  min, Option, some, ◌>>=◌,
}
use mathlib.Core.List.{Memᴰ}
use booking.Json.{JsonLib}
use booking.Queue
use booking.Queue.{Queue, new_queue, push, try_pop, empty, take_front}
use booking.Prelude.Text.{codes, str_eq, Str}
use booking.Prelude.Streams.{split_first}
use booking.Client.Application.{Outside, process_input_event, split_event}
use booking.Client.Command.{UiCommand, add_chat_message_line, chat_message_data}
use booking.Terminal.Commands.{process_commands, process_command, commands_loop}
use booking.Terminal.Keys.{poll_input, set_up, list_members}
use booking.Terminal.Draw.{
  round_draws, chatroom_around, before_chat, behind_chat, on_top, Drawing, stdscr, chat_surface,
  paints, draw_input, render_chatroom, render_screen, draw,
}
use booking.Process.{Process, application_step, ui_of}
use booking.Process.Ending.{after_event, application_step-event}
use mathlib.Core.List.Memᴰ as Within
use booking.Ui.Paint.{werase, mvwprintw}
use booking.Ui.Window.{Window}
use booking.Client.State.{chatroom}
use booking.Terminal.{Terminal, ScreenSize, Frame, Part}
use booking.Terminal.Shown.{draw_chat-last}

-- A chat room that is set up, with a window for the chat in which a line has room, and an input that
-- can be drawn.
pub record InChat (u : Terminal) (f : Frame) : Type 0 where
  pub window : Window Part
  pub set : u.main_window ≡ some window
  pub screen : u.current_screen ≡ chatroom
  pub display : u.chat_display ≡ some f
  pub roomy : 3 ≤ f.height
  pub input : List Drawing
  pub drawn : draw_input stdscr u.chat_input ≡ some input

-- Where a line stands that comes behind this many.
abbrev pub line_paint : Frame → ℕ → Str → Drawing
line_paint f n line =
    paints chat_surface (mvwprintw (1 + min n (f.height - 3)) 1 (take (f.width - 2) line))

-- The terminal with these fields.
abbrev chat_set : Terminal → Window Part → Frame → List Str → Terminal
chat_set u w f messages = record u {
  main_window = some w;
  current_screen = chatroom;
  chat_display = some f;
  chat_messages = messages;
}

around-line :
    (u : Terminal) (w : Window Part) (f : Frame) (messages : List Str) (line : Str)
    (input : List Drawing)
    → 3 ≤ f.height
    → Memᴰ
        (line_paint f (length messages) line)
        (chatroom_around (list_members (chat_set u w f (messages ++ (line ∷ [])))) input)
unfolding list_members
around-line u w f messages line input h =
    let v = list_members (chat_set u w f (messages ++ (line ∷ []))) in
    Within.append_right (before_chat v input) (
      Within.append_left (behind_chat v)
        (Within.map (paints chat_surface) (draw_chat-last u.current_room messages line f h)))

draw-set :
    (has_colors opened : Bool) (size : ScreenSize) (u : Terminal) (w : Window Part) (f : Frame)
    (messages : List Str) (input : List Drawing)
    → draw_input stdscr u.chat_input ≡ some input
    → let v = chat_set u w f messages in
      draw has_colors opened size v
      ≡ some (
          paints stdscr werase
          ∷ (chatroom_around (list_members v) input ++ on_top has_colors opened size v))
unfolding draw set_up list_members render_screen render_chatroom
draw-set has_colors opened size u w f messages input e =
    let v = chat_set u w f messages in
    ap
      (λ (o : Option (List Drawing)).
        (do i ← o; some (chatroom_around (list_members v) i)) >>= λ screen.
        some (paints stdscr werase ∷ (screen ++ on_top has_colors opened size v)))
      e

draw-line :
    (has_colors opened : Bool) (size : ScreenSize) (u : Terminal) (f : Frame) (messages : List Str)
    (line : Str)
    → InChat u f
    → u.chat_messages ≡ messages ++ (line ∷ [])
    → (ds : List Drawing) × (draw has_colors opened size u ≡ some ds)
      × Memᴰ (line_paint f (length messages) line) ds
draw-line has_colors opened size u f messages line c e =
    let v = chat_set u c.window f (messages ++ (line ∷ [])) in
    let same : u ≡ v = λ i. record u {
      main_window = c.set i;
      current_screen = c.screen i;
      chat_display = c.display i;
      chat_messages = e i;
    } in
    (
      paints stdscr werase
          ∷ (chatroom_around (list_members v) c.input ++ on_top has_colors opened size v),
      ap (draw has_colors opened size) same
          ∙ draw-set has_colors opened size u c.window f (messages ++ (line ∷ [])) c.input c.drawn,
      Memᴰ.tail (
          Within.append_left (on_top has_colors opened size v)
            (around-line u c.window f messages line c.input c.roomy)),
    )

-- A round of the terminal with one command, which adds a line to the chat.
round_draws-line :
    (has_colors opened : Bool) (size : ScreenSize) (u : Terminal) (line : Str)
    → u.ui_commands
      ≡ push new_queue (record { type = add_chat_message_line; payload = chat_message_data line })
    → round_draws has_colors opened size none [] u
      ≡ draw has_colors opened size
          (record u { ui_commands = new_queue; chat_messages = u.chat_messages ++ (line ∷ []) })
unfolding round_draws process_commands process_command commands_loop poll_input push try_pop empty
    take_front Queue.size
round_draws-line has_colors opened size u line e =
    ap (round_draws has_colors opened size none []) (λ i. record u { ui_commands = e i })

-- A message that the user has sent from a chat room, once its event waits for the application, with
-- no message from the network and no command waiting: after one round of the application, the
-- terminal's next round without a key draws it, as "[You] message", in the window of the chat: in
-- the row below those of the lines before it, of which there are as many as fit, cut to the columns
-- between the borders. The window must have three rows, and the input be drawn without an
-- exception.
pub chat_message-shown :
    (J : JsonLib) (has_colors opened : Bool) (size : ScreenSize) (p : Process) (f : Frame)
    (o : Outside) (text : Str)
    → p.application.running ≡ true
    → p.network_inbound ≡ new_queue
    → p.ui_commands ≡ new_queue
    → p.input_events ≡ record { items = (codes "CHAT_MESSAGE:" ++ text) ∷ []; stopped = false }
    → InChat p.ui f
    → (p' : Process) × (ds : List Drawing) × (application_step J o p ≡ some p')
      × (round_draws has_colors opened size none [] (ui_of p') ≡ some ds)
      × Memᴰ (line_paint f (length p.ui.chat_messages) (codes "[You] " ++ text)) ds
unfolding process_input_event split_event split_first str_eq
chat_message-shown J has_colors opened size p f o text r n c e h =
    let event = codes "CHAT_MESSAGE:" ++ text in
    let line = codes "[You] " ++ text in
    let p' = after_event J o p event [] in
    let command : ◌≡◌ {A = Queue UiCommand} (ui_of p').ui_commands (
        push new_queue
          (record { type = add_chat_message_line; payload = chat_message_data line })) =
      ap (λ q. push q (record { type = add_chat_message_line; payload = chat_message_data line }))
        c in
    let u = record (ui_of p') {
      ui_commands = new_queue;
      chat_messages = p.ui.chat_messages ++ (line ∷ []);
    } in
    let in_chat : InChat u f = record {
      window = h.window;
      set = h.set;
      screen = h.screen;
      display = h.display;
      roomy = h.roomy;
      input = h.input;
      drawn = h.drawn;
    } in
    let (ds, done, within) =
      draw-line has_colors opened size u f p.ui.chat_messages line in_chat refl in
    (
      p',
      ds,
      application_step-event J o p event [] r n e,
      round_draws-line has_colors opened size (ui_of p') line command ∙ done,
      within,
    )
