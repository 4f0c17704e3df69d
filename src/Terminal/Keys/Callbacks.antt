-- ===== src/Terminal/Keys/Callbacks.antt =====
-- The callbacks of the widgets leave the terminal's loop alone.
use booking.Prelude.{
  ℕ, ◌≡◌, refl, ◌∙◌, Bool, true, false, ◌||◌, List, [], ◌∷◌, ◌++◌, Option, none, some, get_elem?,
  if◌then◌else◌,
}
use booking.Prelude.Text.{Str, codes, is_empty}
use booking.Ui.{Event}
use booking.Ui.TextInput
use booking.Ui.TextInput.{TextInput, Call, submitted, changed}
use booking.Ui.Menu
use booking.Ui.Menu.{Menu, activated, selected}
use booking.Terminal.{
  Terminal, Part, login_part, password_part, menu_part, chat_part, title_part, welcome_part,
  help_part, display_part, members_part,
}
use booking.Terminal.Screens.{
  part_handle, input_calls, menu_calls, login_submitted, password_submitted, chat_submitted,
  room_activated, text_of, say,
}

-- The loop goes on in the one as in the other.
abbrev pub SameLoop : Terminal → Terminal → Type 0
SameLoop u u' = u'.running ≡ u.running

pub if-SameLoop :
    (u : Terminal) (b : Bool) (x y : Terminal)
    → SameLoop u x
    → SameLoop u y
    → SameLoop u (if b then x else y)
if-SameLoop u true x y h k = h
if-SameLoop u false x y h k = k

input_calls-SameLoop :
    (on_submit : Terminal → Str → Terminal)
    → ((u : Terminal) (s : Str) → SameLoop u (on_submit u s))
    → (u : Terminal) (calls : List Call) → SameLoop u (input_calls on_submit u calls)
input_calls-SameLoop f h u [] = refl
input_calls-SameLoop f h u (submitted text ∷ calls) =
    input_calls-SameLoop f h (f u text) calls ∙ h u text
input_calls-SameLoop f h u (changed text ∷ calls) = input_calls-SameLoop f h u calls

name-SameLoop : (u : Terminal) (s : Str) → SameLoop u (login_submitted u s)
unfolding login_submitted
name-SameLoop u s = if-SameLoop u (is_empty s) _ _ refl refl

password-SameLoop : (u : Terminal) (s : Str) → SameLoop u (password_submitted u s)
unfolding password_submitted
password-SameLoop u s = if-SameLoop u (is_empty (text_of u.login_input) || is_empty s) _ _ refl refl

chat-SameLoop : (u : Terminal) (s : Str) → SameLoop u (chat_submitted u s)
unfolding chat_submitted
chat-SameLoop u s = if-SameLoop u (is_empty s) _ _ refl refl

activated-SameLoop : (u : Terminal) (i : ℕ) → SameLoop u (room_activated u i)
unfolding room_activated
activated-SameLoop u i =
    elim (get_elem? u.rooms i)
      as (λ o.
        SameLoop u
          (elim o [ none ↦ u | some room ↦ say u (codes "ROOM_SELECTED:" ++ room.name) ])) [
            | none ↦ refl
            | some room ↦ refl
          ]

menu_calls-SameLoop : (u : Terminal) (calls : List Menu.Call) → SameLoop u (menu_calls u calls)
menu_calls-SameLoop u [] = refl
menu_calls-SameLoop u (activated i item ∷ calls) =
    menu_calls-SameLoop (room_activated u i) calls ∙ activated-SameLoop u i
menu_calls-SameLoop u (selected i item ∷ calls) = menu_calls-SameLoop u calls

-- Where the event is handled at all.
abbrev pub OrNone : Terminal → Option Terminal → Type 0
OrNone u none = Unit
OrNone u (some u') = SameLoop u u'

input-OrNone :
    (u : Terminal) (on_submit : Terminal → Str → Terminal) (put : TextInput → Terminal)
    → ((u : Terminal) (s : Str) → SameLoop u (on_submit u s))
    → ((t : TextInput) → SameLoop u (put t))
    → (o : Option TextInput) (event : Event)
    → OrNone u (elim o [
      | none ↦ none
      | some t ↦ elim (TextInput.handle_event t event) [
        | none ↦ none
        | some (t', calls) ↦ some (input_calls on_submit (put t') calls)
      ]
    ])
input-OrNone u f put h k none event = tt
input-OrNone u f put h k (some t) event =
    elim (TextInput.handle_event t event)
      as (λ r.
        OrNone u
          (elim r [ none ↦ none | some (t', calls) ↦ some (input_calls f (put t') calls) ])) [
            | none ↦ tt
            | some (t', calls) ↦ input_calls-SameLoop f h (put t') calls ∙ k t'
          ]

menu-OrNone :
    (u : Terminal) (o : Option Menu) (event : Event)
    → OrNone u (elim o [
      | none ↦ none
      | some m ↦ elim (Menu.handle_event m event) [
        | none ↦ none
        | some (m', calls) ↦ some (menu_calls (record u { room_menu = some m' }) calls)
      ]
    ])
menu-OrNone u none event = tt
menu-OrNone u (some m) event =
    elim (Menu.handle_event m event)
      as (λ r. OrNone u (elim r [
        | none ↦ none
        | some (m', calls) ↦ some (menu_calls (record u { room_menu = some m' }) calls)
      ])) [
        | none ↦ tt
        | some (m', calls) ↦ menu_calls-SameLoop (record u { room_menu = some m' }) calls
      ]

pub part_handle-OrNone :
    (u : Terminal) (p : Part) (event : Event) → OrNone u (part_handle u p event)
unfolding part_handle
part_handle-OrNone u login_part event =
    input-OrNone u login_submitted (λ t. record u { login_input = some t }) name-SameLoop
      (λ t. refl) u.login_input event
part_handle-OrNone u password_part event =
    input-OrNone u password_submitted (λ t. record u { password_input = some t }) password-SameLoop
      (λ t. refl) u.password_input event
part_handle-OrNone u chat_part event =
    input-OrNone u chat_submitted (λ t. record u { chat_input = some t }) chat-SameLoop (λ t. refl)
      u.chat_input event
part_handle-OrNone u menu_part event = menu-OrNone u u.room_menu event
part_handle-OrNone u title_part event = tt
part_handle-OrNone u welcome_part event = tt
part_handle-OrNone u help_part event = tt
part_handle-OrNone u display_part event = tt
part_handle-OrNone u members_part event = tt
