-- ===== src/Terminal/Keys/Running.antt =====
-- No key ends the terminal's loop: only a command does.
use booking.Prelude.{
  inl, inr, Option-cases, Bool-cases, ℕ, ◌≡◌, refl, ◌∙◌, Bool, true, false, ◌&&◌, ◌||◌, List, [],
  ◌∷◌, ◌++◌, Option, none, some, get_elem?, if◌then◌else◌,
}
use booking.Prelude.Text.{codes}
use booking.Client.State.{login, foyer}
use booking.Ui.{Event, Key}
use booking.Ui.TextInput.{TextInput}
use booking.Ui.Window
use booking.Ui.Window.{Window, is_tab}
use booking.Ui.MessageBox
use booking.Ui.MessageBox.{MessageBox}
use booking.Terminal.{
  part_set_focus, part_can_focus, Terminal, Part, login_part, password_part, menu_part, chat_part,
  title_part, welcome_part, help_part, display_part, members_part,
}
use booking.Terminal.Screens.{parts, say}
use booking.Terminal.Keys.{
  DialogState, reading, cancelled, created, is_character, is_on, box_open, pressed, dialog_loop,
  show_create_room_dialog, asks_quit, switch_field, forward, close_box, poll_input,
}
use booking.Terminal.Keys.Callbacks.{SameLoop, if-SameLoop, OrNone, part_handle-OrNone}

set_focus-SameLoop : (u : Terminal) (p : Part) (b : Bool) → SameLoop u (part_set_focus u p b)
set_focus-SameLoop u login_part b = refl
set_focus-SameLoop u password_part b = refl
set_focus-SameLoop u menu_part b = refl
set_focus-SameLoop u chat_part b = refl
set_focus-SameLoop u title_part b = refl
set_focus-SameLoop u welcome_part b = refl
set_focus-SameLoop u help_part b = refl
set_focus-SameLoop u display_part b = refl
set_focus-SameLoop u members_part b = refl

unfocus-SameLoop : (u : Terminal) (o : Option Part) → SameLoop u (Window.unfocus parts u o)
unfolding Window.unfocus
unfocus-SameLoop u none = refl
unfocus-SameLoop u (some p) = set_focus-SameLoop u p false

both-SameLoop :
    (u : Terminal) (b : Bool) (x y : Terminal × Window Part)
    → SameLoop u x.0
    → SameLoop u y.0
    → SameLoop u (if b then x else y).0
both-SameLoop u true x y h k = h
both-SameLoop u false x y h k = k

given-SameLoop :
    (u : Terminal) (o : Option Part) (p : Part)
    → SameLoop u (part_set_focus (Window.unfocus parts u o) p true)
given-SameLoop u o p = set_focus-SameLoop (Window.unfocus parts u o) p true ∙ unfocus-SameLoop u o

focus_child-SameLoop :
    (u : Terminal) (w : Window Part) (p : Part) → SameLoop u (Window.focus_child parts u w p).0
unfolding Window.focus_child
focus_child-SameLoop u w p =
    both-SameLoop u (part_can_focus u p) _ _ (given-SameLoop u w.focused_child p) refl

focus_first-SameLoop :
    (u : Terminal) (w : Window Part) (is : List ℕ) → SameLoop u (Window.focus_first parts u w is).0
unfolding Window.focus_first
focus_first-SameLoop u w [] = refl
focus_first-SameLoop u w (i ∷ is) = elim (Option-cases (get_elem? w.children i)) [
  | inl e ↦ rw (Window.focus_first, e) (focus_first-SameLoop u w is)
  | inr (p, e) ↦ elim (Bool-cases (part_can_focus u p)) [
    | inl c ↦ rw (Window.focus_first, e, c) (given-SameLoop u w.focused_child p)
    | inr c ↦ rw (Window.focus_first, e, c) (focus_first-SameLoop u w is)
  ]
]

window-SameLoop :
    (u : Terminal) (w : Window Part) (o : Option Terminal) (b : Bool)
    → OrNone u o
    → SameLoop u
        (elim (elim o as (λ _. Option (Terminal × Window Part)) [
          | some u' ↦ some (u', w)
          | none ↦ if b then some (Window.focus_next_child parts u w) else none
        ]) [ none ↦ u | some (u', w') ↦ record u' { main_window = some w' } ])
unfolding Window.focus_next_child
window-SameLoop u w (some u') b h = h
window-SameLoop u w none true h = focus_first-SameLoop u w _
window-SameLoop u w none false h = refl

offer-OrNone :
    (u : Terminal) (o : Option Part) (event : Event) → OrNone u (Window.offer parts u o event)
unfolding Window.offer
offer-OrNone u none event = tt
offer-OrNone u (some p) event = part_handle-OrNone u p event

forward-SameLoop :
    (u : Terminal) (k : Key) (o : Option (Window Part))
    → SameLoop u (elim o [
      | none ↦ u
      | some w ↦ elim (Window.handle_event parts u w (pressed k)) [
        | none ↦ u
        | some (u', w') ↦ record u' { main_window = some w' }
      ]
    ])
unfolding Window.handle_event
forward-SameLoop u k none = refl
forward-SameLoop u k (some w) =
    window-SameLoop u w (Window.offer parts u w.focused_child (pressed k)) (is_tab k)
      (offer-OrNone u w.focused_child (pressed k))

dialog-SameLoop :
    (u : Terminal) (d : DialogState)
    → SameLoop u (elim d [
      | reading name ↦ u
      | cancelled ↦ u
      | created name ↦ say u (codes "CREATE_ROOM:" ++ name)
    ])
dialog-SameLoop u (reading name) = refl
dialog-SameLoop u cancelled = refl
dialog-SameLoop u (created name) = refl

box-SameLoop :
    (u : Terminal) (k : Key) (o : Option MessageBox)
    → SameLoop u (elim o [
      | none ↦ u
      | some b ↦ record u { message_box = some (MessageBox.handle_event b (pressed k)).0 }
    ])
box-SameLoop u k none = refl
box-SameLoop u k (some b) = refl

switch-SameLoop :
    (u : Terminal) (w : Option (Window Part)) (l p : Option TextInput)
    → SameLoop u (elim w [
      | none ↦ u
      | some w ↦ elim l [
        | none ↦ u
        | some l ↦ elim p [
          | none ↦ u
          | some p ↦
              let part = if l.widget.focused then password_part else login_part in
              let (u', w') = Window.focus_child parts u w part in
              record u' { main_window = some w' }
        ]
      ]
    ])
switch-SameLoop u none l p = refl
switch-SameLoop u (some w) none p = refl
switch-SameLoop u (some w) (some l) none = refl
switch-SameLoop u (some w) (some l) (some p) =
    focus_child-SameLoop u w (if l.widget.focused then password_part else login_part)

-- Whatever key is pressed and whatever is typed in the dialog, the loop goes on as before.
pub poll_input-running :
    (u : Terminal) (k : Option Key) (dialog : List Key)
    → (poll_input u k dialog).running ≡ u.running
unfolding poll_input close_box switch_field show_create_room_dialog forward
poll_input-running u none dialog = refl
poll_input-running u (some k) dialog =
    if-SameLoop u (box_open u.message_box) _ _ (box-SameLoop u k u.message_box) (
      if-SameLoop u (asks_quit u k) _ _ refl (
        if-SameLoop u (is_character k b'\t' && is_on u.current_screen login) _ _
          (switch-SameLoop u u.main_window u.login_input u.password_input)
          (if-SameLoop u
            ((is_character k b'c' || is_character k b'C') && is_on u.current_screen foyer) _ _
            (dialog-SameLoop u (dialog_loop [] dialog).0) (forward-SameLoop u k u.main_window))))
