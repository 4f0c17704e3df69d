-- ===== src/Terminal/Commands/Drain.antt =====
-- One call of `process_commands` takes every command that is in the queue, in order.
use booking.Prelude.{
  ℕ, zero, suc, ◌<◌, ◌≡◌, refl, ap, ◌∙◌, Bool, true, false, List, [], ◌∷◌, Option, none, some,
  length, arith, ◌>>=◌,
}
use booking.Queue.{size, try_pop, empty, take_front}
use booking.Client.Command.{
  UiCommand, UiCommandType, UiData, show_login, show_foyer, show_chatroom, update_room_list,
  add_chat_message_line, update_participants, show_error, show_status, clear_input, quit, monostate,
  room_list_data, chat_message_data, participants_data, error_data, status_data, string_data,
}
use booking.Ui.{set_focus}
use booking.Ui.Menu
use booking.Ui.Window
use booking.Ui.Window.{add_child}
use booking.Terminal.{Terminal, ScreenSize, map_option}
use booking.Terminal.Screens.{add_parts, setup_login_ui, setup_foyer_ui, setup_chatroom_ui}
use booking.Terminal.Commands.{update_rooms, process_command, commands_loop, process_commands}

-- The commands one after the other, without a queue.
unfoldable pub handle_all : ScreenSize → List UiCommand → Terminal → Option Terminal
handle_all screen [] u = some u
handle_all screen (c ∷ cs) u = process_command screen u c.type c.payload >>= handle_all screen cs

-- The terminal with these commands in its queue.
unfoldable pub with_queue : Bool → List UiCommand → Terminal → Terminal
with_queue stopped cs u = record u { ui_commands = record { items = cs; stopped = stopped } }

-- No command looks at the queue.
abbrev Commutes : ScreenSize → Bool → List UiCommand → Terminal → UiCommandType → UiData → Type 0
Commutes screen b cs u t p =
    process_command screen (with_queue b cs u) t p
    ≡ map_option (with_queue b cs) (process_command screen u t p)

process_command-queue :
    (screen : ScreenSize) (b : Bool) (cs : List UiCommand) (u : Terminal) (t : UiCommandType)
    (p : UiData)
    → Commutes screen b cs u t p
unfolding with_queue process_command setup_login_ui setup_foyer_ui setup_chatroom_ui add_parts
    add_child Window.focus_child Window.unfocus set_focus update_rooms Menu.set_items
process_command-queue screen b cs u show_login p = refl
process_command-queue screen b cs u show_foyer p = elim p as (Commutes screen b cs u show_foyer) [
  | monostate ↦ refl
  | string_data x ↦ refl
  | room_list_data x ↦ refl
  | chat_message_data x ↦ refl
  | participants_data x ↦ refl
  | error_data x ↦ refl
  | status_data x ↦ refl
]
process_command-queue screen b cs u show_chatroom p =
    elim p as (Commutes screen b cs u show_chatroom) [
      | monostate ↦ refl
      | string_data x ↦ refl
      | room_list_data x ↦ refl
      | chat_message_data x ↦ refl
      | participants_data x ↦ refl
      | error_data x ↦ refl
      | status_data x ↦ refl
    ]
process_command-queue screen b cs u update_room_list p =
    elim p as (Commutes screen b cs u update_room_list) [
      | monostate ↦ refl
      | string_data x ↦ refl
      | room_list_data x ↦ refl
      | chat_message_data x ↦ refl
      | participants_data x ↦ refl
      | error_data x ↦ refl
      | status_data x ↦ refl
    ]
process_command-queue screen b cs u add_chat_message_line p =
    elim p as (Commutes screen b cs u add_chat_message_line) [
      | monostate ↦ refl
      | string_data x ↦ refl
      | room_list_data x ↦ refl
      | chat_message_data x ↦ refl
      | participants_data x ↦ refl
      | error_data x ↦ refl
      | status_data x ↦ refl
    ]
process_command-queue screen b cs u update_participants p =
    elim p as (Commutes screen b cs u update_participants) [
      | monostate ↦ refl
      | string_data x ↦ refl
      | room_list_data x ↦ refl
      | chat_message_data x ↦ refl
      | participants_data x ↦ refl
      | error_data x ↦ refl
      | status_data x ↦ refl
    ]
process_command-queue screen b cs u show_error p = elim p as (Commutes screen b cs u show_error) [
  | monostate ↦ refl
  | string_data x ↦ refl
  | room_list_data x ↦ refl
  | chat_message_data x ↦ refl
  | participants_data x ↦ refl
  | error_data x ↦ refl
  | status_data x ↦ refl
]
process_command-queue screen b cs u show_status p = elim p as (Commutes screen b cs u show_status) [
  | monostate ↦ refl
  | string_data x ↦ refl
  | room_list_data x ↦ refl
  | chat_message_data x ↦ refl
  | participants_data x ↦ refl
  | error_data x ↦ refl
  | status_data x ↦ refl
]
process_command-queue screen b cs u clear_input p = refl
process_command-queue screen b cs u quit p = refl

commands_loop-queue :
    (screen : ScreenSize) (k : ℕ) (b : Bool) (cs : List UiCommand) (u : Terminal)
    → length cs < k
    → commands_loop screen k (with_queue b cs u)
      ≡ map_option (with_queue b []) (handle_all screen cs u)
unfolding commands_loop with_queue handle_all try_pop empty take_front
commands_loop-queue screen zero b cs u h = absurd (omega (arith, h))
commands_loop-queue screen (suc k) b [] u h = nothing b
  where
    nothing :
        (b : Bool)
        → commands_loop screen (suc k) (with_queue b [] u)
          ≡ map_option (with_queue b []) (handle_all screen [] u)
    nothing true = refl
    nothing false = refl
commands_loop-queue screen (suc k) b (c ∷ cs) u h =
    taken b
    ∙ (ap (λ o. o >>= commands_loop screen k) (process_command-queue screen b cs u c.type c.payload)
        ∙ rest (process_command screen u c.type c.payload)
            (λ v. commands_loop-queue screen k b cs v (omega (arith, h))))
  where
    taken :
        (b : Bool)
        → commands_loop screen (suc k) (with_queue b (c ∷ cs) u)
          ≡ (process_command screen (with_queue b cs u) c.type c.payload >>= commands_loop screen k)
    taken true = refl
    taken false = refl

    rest :
        (o : Option Terminal)
        → ((v : Terminal)
            → commands_loop screen k (with_queue b cs v)
              ≡ map_option (with_queue b []) (handle_all screen cs v))
        → (map_option (with_queue b cs) o >>= commands_loop screen k)
          ≡ map_option (with_queue b []) (o >>= handle_all screen cs)
    rest none ih = refl
    rest (some v) ih = ih v

-- One call handles every command that is in the queue, in the order in which they came, each on the
-- terminal that the one before left, and leaves the queue empty, stopped or not. It fails only
-- where a command does: one more round than there are commands is enough.
pub process_commands-all :
    (screen : ScreenSize) (u : Terminal)
    → process_commands screen u
      ≡ map_option (with_queue u.ui_commands.stopped []) (handle_all screen u.ui_commands.items u)
unfolding process_commands size with_queue
process_commands-all screen u =
    same
    ∙ commands_loop-queue screen (suc (length u.ui_commands.items)) u.ui_commands.stopped
        u.ui_commands.items u (omega arith)
  where
    same :
        process_commands screen u
        ≡ commands_loop screen
            (suc (length u.ui_commands.items))
            (with_queue u.ui_commands.stopped u.ui_commands.items u)
    same = refl
