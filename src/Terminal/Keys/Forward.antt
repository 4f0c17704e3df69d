-- ===== src/Terminal/Keys/Forward.antt =====
-- A key that goes through the window to its focused child.
use booking.Prelude.{◌≡◌, refl, sym, ap, ◌∙◌, false, ◌&&◌, List, [], ◌∷◌, Option, none, some}
use mathlib.Core.Path.{subst}
use booking.Ui.{Event, Key, is_key_press}
use booking.Ui.Window
use booking.Ui.Window.{Window}
use booking.Terminal.{Terminal, Part}
use booking.Terminal.Screens.{parts, part_handle}
use booking.Terminal.Keys.{pressed, forward, poll_input}

-- The terminal after some keys, when no dialog opens.
unfoldable pub type_keys : Terminal → List Key → Terminal
type_keys u [] = u
type_keys u (k ∷ ks) = type_keys (poll_input u (some k) []) ks

offer-child :
    (u : Terminal) (w : Window Part) (p : Part) (e : Event) (o : Option Terminal)
    → w.focused_child ≡ some p
    → part_handle u p e ≡ o
    → Window.offer parts u w.focused_child e ≡ o
unfolding Window.offer
offer-child u w p e o f h = ap (λ c. Window.offer parts u c e) f ∙ h

pub handle_event-child :
    (u u' : Terminal) (w : Window Part) (p : Part) (e : Event)
    → w.focused_child ≡ some p
    → part_handle u p e ≡ some u'
    → Window.handle_event parts u w e ≡ some (u', w)
unfolding Window.handle_event
handle_event-child u u' w p e f h = rw (Window.handle_event, offer-child u w p e (some u') f h) refl

pub handle_event-none :
    (u : Terminal) (w : Window Part) (p : Part) (e : Event)
    → w.focused_child ≡ some p
    → part_handle u p e ≡ none
    → (is_key_press e && Window.is_tab e.key) ≡ false
    → Window.handle_event parts u w e ≡ none
unfolding Window.handle_event
handle_event-none u w p e f h t = rw (Window.handle_event, offer-child u w p e none f h, t) refl

through : Terminal → Key → Option (Window Part) → Terminal
through u k o = elim o [
  | none ↦ u
  | some w ↦ elim (Window.handle_event parts u w (pressed k)) [
    | none ↦ u
    | some (u', w') ↦ record u' { main_window = some w' }
  ]
]

pub forward-none :
    (u : Terminal) (w : Window Part) (k : Key)
    → u.main_window ≡ some w
    → Window.handle_event parts u w (pressed k) ≡ none
    → forward u k ≡ u
unfolding forward through
forward-none u w k e h =
    subst (λ o. through u k o ≡ u) (sym e)
      (ap (λ r. elim r [ none ↦ u | some (u', w') ↦ record u' { main_window = some w' } ]) h)

pub forward-some :
    (u u' : Terminal) (w w' : Window Part) (k : Key)
    → u.main_window ≡ some w
    → Window.handle_event parts u w (pressed k) ≡ some (u', w')
    → forward u k ≡ record u' { main_window = some w' }
unfolding forward through
forward-some u u' w w' k e h =
    subst (λ o. through u k o ≡ record u' { main_window = some w' }) (sym e)
      (ap (λ r. elim r [ none ↦ u | some (u'', w'') ↦ record u'' { main_window = some w'' } ]) h)
