-- ===== src/Ui/Tests.antt =====
-- The widgets at concrete texts and keys.
use booking.Prelude.{
  ℕ, ◌≡◌, refl, ◌≤◌, arith, true, false, List, [], ◌∷◌, some, length, take, drop, All, Bool, not,
  ◌==◌, ==_iff, none, if◌then◌else◌, ◌++◌, find_if, zero, suc, get_elem?, some-injective,
}
use booking.Prelude.Text.{Str, codes}
use booking.Ui.{Event, Rect, key_press, Key, character, key_home, key_end, key_down, key_backspace}
use booking.Ui.TextInput.{TextInput, new_text_input, visible_width, get_visible_text}
use booking.Ui.TextInput.Scroll.{InView}
use booking.Ui.TextInput.Visible.{after_events, after_events-shown}
use booking.Ui.TextInput.Editor.{editor, press}
use booking.Ui.TextInput.Edit.{Holds, after_key, press-Holds}
use booking.Ui.Menu.{MenuItem, Menu, new_menu, get_content_width}
use booking.Ui.Menu.Range.{InRange, adds, removes, presses, operate_all, operate_all-InRange}
use mathlib.Core.Path.{subst}
use booking.Ui.Paint.Inside.{Inside}
use booking.Ui.Menu.Draw.{row_prefix, render}
use booking.Ui.Menu.Bounds.{Roomy, render-Inside}
use booking.Ui.Window.{Children, Window, new_window, find_child, focus_next_child}
use booking.Ui.Window.Focus.{
  ChildrenLaws, Sole, Move, adds, focuses, tabs, tabs_back, move_all, move_all-Sole,
}
use booking.Ui.Window.Tab.{or_else, focus_next_child-cycles}
use booking.Ui.Wrap.{words}
use booking.Ui.Wrap.Words.{spaced, Fits}
use booking.Ui.MessageBox.{wrap_text}
use booking.Ui.MessageBox.Wrapped.{wrap_text-keeps}
use booking.Ui.Paint.{a_bold, mvwprintw}
use booking.Ui.Window.Pane.{
  Pane, Call, newwin, delwin, paint, attr_on, attr_off, new_pane, set_bounds, recreate, destroy,
  draw_text_attr,
}
use booking.Ui.Window.Pane.Follow.{follow_all}
use booking.Ui.Window.Pane.Lifetime.{
  bounded, titles, writes, perform, perform_all, perform_all-deletes,
}

-- An input of eight columns with the focus and a text that it does not show whole.
abbrev name_field : TextInput
name_field = record (new_text_input 2 3 8) {
  widget = record {
    bounds = record { left = 2; top = 3; width = 8; height = 1 };
    visible = true;
    focusable = true;
    focused = true;
  };
  text = codes "ada lovelace";
  cursor_pos = 12;
  scroll_offset = 5;
}

abbrev key_event : Key → Event
key_event k = record { type = key_press; key = k }

abbrev some_keys : List Event
some_keys =
    key_event (character 33) ∷ key_event key_home ∷ key_event key_end ∷ key_event key_backspace ∷ []

name_field-InView : InView 8 name_field
unfolding visible_width
name_field-InView = record {
  width = refl;
  in_text = omega arith;
  not_left = omega arith;
  not_right = omega arith;
}

after_events-shown_example :
    InView 8 (after_events name_field some_keys)
    × ((s : Str) × (get_visible_text (after_events name_field some_keys) ≡ some s) × (length s ≤ 8))
after_events-shown_example =
    after_events-shown 8 name_field some_keys name_field-InView (omega arith) (omega arith)
      (omega arith)

abbrev two_letters : TextInput
two_letters = record name_field { text = codes "ab"; cursor_pos = 1; scroll_offset = 0 }

press-Holds_example :
    Holds
      (press 0 key_backspace (editor (codes "a") (codes "b")))
      (after_key two_letters key_backspace)
press-Holds_example =
    press-Holds (editor (codes "a") (codes "b")) two_letters key_backspace
      (record { text = refl; cursor = refl })

abbrev item : Str → MenuItem
item text = record { text = text; secondary_text = []; enabled = true }

abbrev frame : Rect
frame = record { left = 0; top = 0; width = 20; height = 2 }

abbrev three_rooms : Menu
three_rooms = record (new_menu frame) {
  items = item (codes "general") ∷ item (codes "random") ∷ item (codes "lobby") ∷ [];
  selected_index = some 0;
}

operate_all-InRange_example :
    InRange
      (operate_all three_rooms (presses key_down ∷ removes 0 ∷ adds (item (codes "new")) ∷ []))
operate_all-InRange_example =
    operate_all-InRange three_rooms (presses key_down ∷ removes 0 ∷ adds (item (codes "new")) ∷ [])
      (omega arith)

wrap_text-keeps_example :
    (spaced (wrap_text (codes "no such room") 7) ≡ spaced (words [] (codes "no such room")))
    × All (Fits 7 (words [] (codes "no such room"))) (wrap_text (codes "no such room") 7)
wrap_text-keeps_example = wrap_text-keeps (codes "no such room") 7

-- Three children with flags of their own, of which the child 1 cannot have the focus.
abbrev flags : Children (ℕ → Bool) ℕ
flags = record {
  same = λ a b. a == b;
  can_focus = λ s r. not (r == 1);
  set_focus = λ s r b. λ q. if r == q then b else s q;
  handle = λ s r e. none;
}

abbrev is_focused : (ℕ → Bool) → ℕ → Bool
is_focused s r = s r

flags-ChildrenLaws : ChildrenLaws flags is_focused
flags-ChildrenLaws = record {
  same_iff = ==_iff;
  focused-set_focus = λ s r b q c. refl;
  can_focus-set_focus = λ s r b q. refl;
}

abbrev no_flags : ℕ → Bool
no_flags r = false

abbrev moves : List (Move ℕ)
moves = adds 0 ∷ adds 1 ∷ adds 2 ∷ tabs ∷ tabs_back ∷ focuses 2 ∷ []

move_all-Sole_example :
    Sole flags is_focused
      (move_all flags (no_flags, new_window flags) moves).0
      (move_all flags (no_flags, new_window flags) moves).1.focused_child
move_all-Sole_example =
    move_all-Sole flags is_focused flags-ChildrenLaws (no_flags, new_window flags) moves
      (record { flagged = λ r e. absurd (cc); held = λ r e. absurd (cc) })

abbrev three_children : Window ℕ
three_children = record { children = 0 ∷ 1 ∷ 2 ∷ []; focused_child = some 0 }

second : find_child flags 0 three_children.children ≡ some 0
unfolding find_child
second = refl

focus_next_child-cycles_example :
    (focus_next_child flags no_flags three_children).1.focused_child
    ≡ or_else
        (find_if
          (λ r. not (r == 1))
          (drop 1 three_children.children ++ take 1 three_children.children))
        (some 0)
focus_next_child-cycles_example =
    focus_next_child-cycles flags no_flags three_children 0 0 refl second (omega arith)

-- A bordered menu of two items, one of which is longer than its row.
abbrev narrow : Menu
narrow = record (new_menu (record { left = 2; top = 3; width = 12; height = 4 })) {
  items = item (codes "a room with a long name") ∷ item (codes "lobby") ∷ [];
  selected_index = some 0;
  bordered = true;
  title = codes " Available Rooms ";
}

narrow-Roomy : (i : ℕ) (x : MenuItem) → get_elem? narrow.items i ≡ some x → Roomy narrow i x
unfolding row_prefix get_content_width
narrow-Roomy zero x e = subst (Roomy narrow 0) (some-injective _ x e) (omega arith)
narrow-Roomy (suc zero) x e = subst (Roomy narrow 1) (some-injective _ x e) (omega arith)
narrow-Roomy (suc (suc i)) x e = absurd (cc)

render-Inside_example : All (Inside narrow.widget.bounds) (render narrow)
render-Inside_example =
    render-Inside narrow (record {
      wide = omega arith;
      high = omega arith;
      of_int = omega arith;
      roomy = narrow-Roomy;
    })

abbrev resized : Rect
resized = record { left = 1; top = 2; width = 12; height = 4 }

abbrev resized_pane : Pane
resized_pane = record {
  bounds = resized;
  visible = true;
  window = some 8;
  title = codes "T";
  bordered = false;
}

abbrev pane_calls : List Call
pane_calls =
    delwin 7
    ∷ newwin resized (some 8)
    ∷ attr_on (some 8) (a_bold ∷ [])
    ∷ paint (some 8) (mvwprintw 1 3 (codes "hi"))
    ∷ attr_off (some 8) (a_bold ∷ [])
    ∷ []

perform_all-deletes_example :
    follow_all none (
      (new_pane true (record { left = 1; top = 2; width = 9; height = 4 }) (some 7)).1
      ++ (pane_calls ++ destroy resized_pane))
    ≡ some none
unfolding perform_all perform new_pane set_bounds recreate destroy draw_text_attr
perform_all-deletes_example =
    perform_all-deletes true (record { left = 1; top = 2; width = 9; height = 4 }) (some 7)
      (bounded resized (some 8) ∷ titles (codes "T") ∷ writes 3 1 (codes "hi") (a_bold ∷ []) ∷ [])
      resized_pane pane_calls refl
