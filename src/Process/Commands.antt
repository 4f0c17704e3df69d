-- ===== src/Process/Commands.antt =====
-- The terminal at the commands that the application queues.
use booking.Prelude.{
  sym, ◌≡◌, refl, ap, ◌∙◌, Bool, true, false, List, [], ◌∷◌, some, ◌>>=◌, All, any_of,
  if◌then◌else◌,
}
use mathlib.Core.Path.{subst}
use booking.Json.{JsonLib}
use booking.Queue.{Queue, new_queue}
use booking.Client.Command.{
  UiCommand, UiCommandType, UiData, show_login, show_foyer, show_chatroom, update_room_list,
  add_chat_message_line, update_participants, show_error, show_status, clear_input, quit, monostate,
  room_list_data, chat_message_data, participants_data, error_data, status_data, string_data,
}
use booking.Client.Application.{Application}
use booking.Client.Application.Rooms.{Happening, handle_all}
use booking.Terminal.{Terminal, ScreenSize, map_option}
use booking.Ui.{set_focus}
use booking.Ui.Menu
use booking.Ui.Window
use booking.Ui.Window.{add_child}
use booking.Terminal.Screens.{setup_login_ui, setup_foyer_ui, setup_chatroom_ui, add_parts}
use booking.Terminal.Commands.{update_rooms, process_command, process_commands}
use booking.Terminal.Commands.Drain
use booking.Terminal.Commands.Drain.{with_queue, process_commands-all}
use booking.Process.Fitting.{fits, Fits, handle_all-Fitting}

-- A command with its own data is carried out, and only `quit` ends the terminal's loop.
abbrev pub is_quit : UiCommandType → Bool
is_quit quit = true
is_quit t = false

abbrev pub CarriedOut : ScreenSize → Terminal → UiCommandType → UiData → Type 0
CarriedOut size u t d =
    (u' : Terminal) × (process_command size u t d ≡ some u')
    × (u'.running ≡ (if is_quit t then false else u.running))

process_command-fits :
    (size : ScreenSize) (u : Terminal) (t : UiCommandType) (d : UiData)
    → fits t d ≡ true
    → CarriedOut size u t d
unfolding process_command update_rooms setup_login_ui setup_foyer_ui setup_chatroom_ui add_parts
    add_child Window.focus_child Window.unfocus set_focus Menu.set_items
process_command-fits size u show_login d h = (_, refl, refl)
process_command-fits size u clear_input d h = (_, refl, refl)
process_command-fits size u quit d h = (_, refl, refl)
process_command-fits size u show_foyer monostate h = (_, refl, refl)
process_command-fits size u show_foyer (string_data s) h = (_, refl, refl)
process_command-fits size u show_chatroom monostate h = (_, refl, refl)
process_command-fits size u show_chatroom (string_data s) h = (_, refl, refl)
process_command-fits size u update_room_list monostate h = (_, refl, refl)
process_command-fits size u update_room_list (room_list_data r) h = (_, refl, refl)
process_command-fits size u add_chat_message_line monostate h = (_, refl, refl)
process_command-fits size u add_chat_message_line (chat_message_data m) h = (_, refl, refl)
process_command-fits size u update_participants monostate h = (_, refl, refl)
process_command-fits size u update_participants (participants_data n) h = (_, refl, refl)
process_command-fits size u show_error monostate h = (_, refl, refl)
process_command-fits size u show_error (error_data e) h = (_, refl, refl)
process_command-fits size u show_status monostate h = (_, refl, refl)
process_command-fits size u show_status (status_data s) h = (_, refl, refl)
process_command-fits size u t d h = absurd (cc)

-- Whether a command ends the loop.
unfoldable pub quits : List UiCommand → Bool
quits cs = any_of (λ c. is_quit c.type) cs

still_running :
    (b q r x : Bool)
    → x ≡ (if b then false else r)
    → (if q then false else x) ≡ (if (if b then true else q) then false else r)
still_running true true r x e = refl
still_running true false r x e = e
still_running false true r x e = refl
still_running false false r x e = e

handle_all-Fits :
    (size : ScreenSize) (cs : List UiCommand) (u : Terminal)
    → All Fits cs
    → (u' : Terminal) × (Drain.handle_all size cs u ≡ some u')
      × (u'.running ≡ (if quits cs then false else u.running))
unfolding Drain.handle_all quits
handle_all-Fits size [] u h = (u, refl, refl)
handle_all-Fits size (c ∷ cs) u h =
    let (v, done, runs) = process_command-fits size u c.type c.payload h.0 in
    let (u', all, ends) = handle_all-Fits size cs v h.1 in
    (
      u',
      ap (λ o. o >>= Drain.handle_all size cs) done ∙ all,
      ends ∙ still_running (is_quit c.type) (quits cs) u.running v.running runs,
    )

-- What the terminal makes of commands that fit.
abbrev pub Drained : ScreenSize → Terminal → List UiCommand → Type 0
Drained size u cs =
    (u' : Terminal) × (process_commands size u ≡ some u')
    × (u'.ui_commands.items ≡ [])
    × (u'.running ≡ (if quits cs then false else u.running))

pub process_commands-fitting :
    (size : ScreenSize) (u : Terminal)
    → All Fits u.ui_commands.items
    → Drained size u u.ui_commands.items
unfolding with_queue
process_commands-fitting size u h =
    let (u', done, runs) = handle_all-Fits size u.ui_commands.items u h in
    (
      with_queue u.ui_commands.stopped [] u',
      process_commands-all size u ∙ ap (map_option (with_queue u.ui_commands.stopped [])) done,
      refl,
      runs,
    )

-- Whatever messages and events the application has handled, from an empty queue of commands: the
-- terminal carries out all the commands that wait for it then, none of which has data of another
-- type than its own, and leaves the queue empty; its loop ends if one of them is `quit`, and else
-- goes on.
pub process_commands-fits :
    (J : JsonLib) (size : ScreenSize) (a a' : Application) (hs : List Happening) (u : Terminal)
    → a.ui_commands ≡ new_queue
    → handle_all J a hs ≡ some a'
    → u.ui_commands ≡ a'.ui_commands
    → Drained size u a'.ui_commands.items
process_commands-fits J size a a' hs u e h f =
    let fit = λ (q : Queue UiCommand). All Fits q.items in
    subst (λ (q : Queue UiCommand). Drained size u q.items) f
      (process_commands-fitting size u
        (subst fit (sym f) (handle_all-Fitting J a a' hs (subst fit (sym e) tt) h)))
