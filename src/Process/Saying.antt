-- ===== src/Process/Saying.antt =====
-- A chat message from "Enter" to the screen.
use booking.Prelude.{
  ◌&&◌, not, replicate, arith, if◌then◌else◌, refl, ℕ, ◌≤◌, ◌≡◌, sym, ap, ◌∙◌, true, false, List,
  [], ◌∷◌, ◌++◌, length, Option, none, some, ◌>>=◌, Bool,
}
use mathlib.Core.List.{Memᴰ}
use booking.Json.{JsonLib}
use booking.Queue.{new_queue, push}
use booking.Prelude.Text.{Str, codes, str_eq, is_empty}
use booking.Client.State.{chatroom}
use booking.Client.Application.{Outside}
use booking.Ui.{key_enter}
use booking.Ui.TextInput
use booking.Ui.TextInput.{TextInput, submitted, visible_width, get_display_text, get_visible_text}
use booking.Ui.TextInput.Draw as InputDraw
use booking.Ui.TextInput.Draw.{contents}
use booking.Terminal.Draw.{on, Drawing, stdscr, round_draws}
use booking.Ui.ListBox
use booking.Ui.Window.{Window}
use booking.Terminal.{Terminal, ScreenSize, Frame, Part, chat_part, map_option}
use booking.Terminal.Screens.{part_handle, input_calls, chat_submitted, say, cleared}
use booking.Terminal.Keys.{
  ui_round, box_open, pressed, asks_quit, poll_input, render, set_up, list_members,
}
use booking.Terminal.Keys.Forward.{handle_event-child, forward-some}
use booking.Process.{Process, application_step, ui_step, ui_of, with_ui}
use booking.Process.Rounds.{ui_round-quiet}
use booking.Process.Showing.{InChat, line_paint, chat_message-shown}

-- A chat room, with the window's focus on the input, which holds this text.
pub record AtInput (u : Terminal) (text : Str) : Type 0 where
  pub input : TextInput
  pub window : Window Part
  pub screen : u.current_screen ≡ chatroom
  pub no_box : box_open u.message_box ≡ false
  pub in_window : u.main_window ≡ some window
  pub on_input : window.focused_child ≡ some chat_part
  pub of_input : u.chat_input ≡ some input
  pub shown : input.widget.visible ≡ true
  pub flagged : input.widget.focused ≡ true
  pub holds : input.text ≡ text

-- A text that is a message: not empty, and none of the two commands.
pub record IsMessage (text : Str) : Type 0 where
  pub nonempty : is_empty text ≡ false
  pub stays : str_eq text (codes "/leave") ≡ false
  pub goes_on : str_eq text (codes "/quit") ≡ false

module _ (u : Terminal) (text : Str) (h : AtInput u text) (m : IsMessage text) where
  -- The terminal behind "Enter".
  abbrev after_enter : Terminal
  after_enter = record (say u (codes "CHAT_MESSAGE:" ++ text)) {
    chat_input = some (cleared h.input);
    main_window = some h.window;
  }

  submitted-says :
      chat_submitted (record u { chat_input = some h.input }) h.input.text
      ≡ record (say u (codes "CHAT_MESSAGE:" ++ text)) { chat_input = some (cleared h.input) }
  unfolding chat_submitted
  submitted-says =
      ap (chat_submitted (record u { chat_input = some h.input })) h.holds
      ∙ rw (m.nonempty, m.stays, m.goes_on) refl

  taken :
      TextInput.handle_event h.input (pressed key_enter)
      ≡ some (h.input, submitted h.input.text ∷ [])
  unfolding TextInput.handle_event TextInput.handle_key
  taken = simp (h.shown, h.flagged)

  part_enter :
      part_handle u chat_part (pressed key_enter)
      ≡ some
          (record (say u (codes "CHAT_MESSAGE:" ++ text)) { chat_input = some (cleared h.input) })
  unfolding part_handle
  part_enter = ap at_input h.of_input ∙ (ap answered taken ∙ ap some submitted-says)
    where
      answered : Option (TextInput × List TextInput.Call) → Option Terminal
      answered o = elim o [
        | none ↦ none
        | some (t, calls) ↦
            some (input_calls chat_submitted (record u { chat_input = some t }) calls)
      ]

      at_input : Option TextInput → Option Terminal
      at_input o = elim o [
        | none ↦ none
        | some t ↦ answered (TextInput.handle_event t (pressed key_enter))
      ]

  poll_enter : poll_input u (some key_enter) [] ≡ after_enter
  unfolding poll_input asks_quit
  poll_enter =
      (rw (h.no_box, h.screen) refl)
      ∙ forward-some u _ h.window h.window key_enter h.in_window
          (handle_event-child u _ h.window chat_part (pressed key_enter) h.on_input part_enter)

-- An input that is cleared is drawn.
display-cleared : (t : TextInput) → get_display_text (cleared t) ≡ []
unfolding get_display_text TextInput.clear
display-cleared t = masked t.password_mode
  where
    masked : (b : Bool) → (if b && not (is_empty []) then replicate {A = ℕ} 0 42 else []) ≡ []
    masked true = refl
    masked false = refl

visible-cleared : (t : TextInput) → get_visible_text (cleared t) ≡ some []
unfolding get_visible_text
visible-cleared t = rw (display-cleared t) (ground arith)

render-cleared :
    (t : TextInput)
    → t.widget.visible ≡ true
    → InputDraw.render (cleared t) ≡ some (contents (cleared t) [])
unfolding InputDraw.render TextInput.clear
render-cleared t v =
    ap
      (λ b.
        if b
        then elim (get_visible_text (cleared t)) [
          | none ↦ none
          | some shown ↦ some (contents (cleared t) shown)
        ]
        else some [])
      v
    ∙ ap
        (λ (o : Option Str). elim o [
          | none ↦ none
          | some shown ↦ some (contents (cleared t) shown)
        ])
        (visible-cleared t)

-- Drawing changes a chat room that is set up by the list of its members and by the error.
render-chatroom :
    (size : ScreenSize) (u : Terminal) (w : Window Part)
    → u.main_window ≡ some w
    → u.current_screen ≡ chatroom
    → render size u ≡ record u {
      member_list_box = map_option (λ b. ListBox.set_items b u.participants) u.member_list_box;
      error_message = [];
    }
unfolding render set_up list_members
render-chatroom size u w e f =
    let p : u ≡ record u { main_window = some w; current_screen = chatroom } =
      λ i. record u { main_window = e i; current_screen = f i } in
    ap (render size) p
    ∙ ap
        (λ (u' : Terminal). record u' {
          member_list_box =
              map_option (λ b. ListBox.set_items b u'.participants) u'.member_list_box;
          error_message = [];
        })
        (sym p)

-- The terminal at rest in a chat room, with a text in its input and room for the chat, and the
-- application at rest.
pub record Typing (p : Process) (text : Str) (f : Frame) : Type 0 where
  pub at_input : AtInput (ui_of p) text
  pub display : p.ui.chat_display ≡ some f
  pub roomy : 3 ≤ f.height
  pub runs : p.ui.running ≡ true
  pub application_runs : p.application.running ≡ true
  pub quiet : p.ui_commands ≡ new_queue
  pub events : p.input_events ≡ new_queue
  pub inbound : p.network_inbound ≡ new_queue

-- The process behind "Enter".
sent : (p : Process) (text : Str) → AtInput (ui_of p) text → IsMessage text → Process
sent p text h m =
    let u = after_enter (ui_of p) text h m in
    with_ui p (record u {
      member_list_box = map_option (λ b. ListBox.set_items b u.participants) u.member_list_box;
      error_message = [];
    })

ui_step-sent :
    (size : ScreenSize) (p : Process) (text : Str) (f : Frame) (t : Typing p text f)
    (m : IsMessage text)
    → ui_step size (some key_enter) [] p ≡ some (sent p text t.at_input m)
unfolding ui_step sent
ui_step-sent size p text f t m =
    let u = after_enter (ui_of p) text t.at_input m in
    ap
      (λ b.
        if b
        then (ui_round size (some key_enter) [] (ui_of p) >>= λ v. some (with_ui p v))
        else some p)
      t.runs
    ∙ ap (λ o. o >>= λ v. some (with_ui p v))
        (ui_round-quiet size (some key_enter) [] (ui_of p) t.quiet
          ∙ ap some (
              ap (render size) (poll_enter (ui_of p) text t.at_input m)
              ∙ render-chatroom size u t.at_input.window refl t.at_input.screen))

-- In a chat room at rest, with the focus on the input, a text in it that is a message, and a window
-- for the chat of at least three rows: after "Enter", a round of the application and a round of the
-- terminal without a key, the screen that is drawn has the line "[You] message" in the window of
-- the chat: in the row below those of the lines before it, of which there are as many as fit, cut
-- to the columns between the borders. No exception is thrown on the way.
pub enter-shown :
    (J : JsonLib) (has_colors opened : Bool) (size : ScreenSize) (p : Process) (text : Str)
    (f : Frame) (o : Outside)
    → Typing p text f
    → IsMessage text
    → (p₁ : Process) × (p₂ : Process) × (ds : List Drawing) × (ui_step size (some key_enter) [] p
        ≡ some p₁)
      × (application_step J o p₁ ≡ some p₂)
      × (round_draws has_colors opened size none [] (ui_of p₂) ≡ some ds)
      × Memᴰ (line_paint f (length p.ui.chat_messages) (codes "[You] " ++ text)) ds
unfolding sent push
enter-shown J has_colors opened size p text f o t m =
    let h = t.at_input in
    let p₁ = sent p text h m in
    let in_chat : InChat p₁.ui f = record {
      window = h.window;
      set = refl;
      screen = h.screen;
      display = t.display;
      roomy = t.roomy;
      input = on stdscr (contents (cleared h.input) []);
      drawn = ap (λ o. o >>= λ ps. some (on stdscr ps)) (render-cleared h.input h.shown);
    } in
    let (p₂, ds, step, draws, shown) =
      chat_message-shown J has_colors opened size p₁ f o text t.application_runs t.inbound t.quiet
        (ap (λ q. push q (codes "CHAT_MESSAGE:" ++ text)) t.events) in_chat in
    (p₁, p₂, ds, ui_step-sent size p text f t m, step, draws, shown)
