-- ===== src/Ui/MessageBox.antt =====
-- The message box (lib/ui/include/ui/MessageBox.h, lib/ui/src/MessageBox.cpp). Its own `visible_`
-- hides the base class's.
pub mod Wrapped
pub mod Draw
use booking.Prelude.{
  ℕ, Bool, true, false, not, ◌||◌, List, [], ◌∷◌, Option, none, some, ◌==◌, if◌then◌else◌,
}
use booking.Prelude.Text.{Str}
use booking.Ui.{Event, Key, character, key_enter, is_key_press}
use booking.Ui.Wrap.{words, pack}

pub record MessageBox : Type 0 where
  pub title : Str
  pub message : Str
  pub width : ℕ
  pub height : ℕ
  pub visible : Bool

unfoldable pub new_message_box : ℕ → ℕ → Str → Str → MessageBox
new_message_box width height title message = record {
  title = title;
  message = message;
  width = width;
  height = height;
  visible = false;
}

abbrev pub is_enter : Key → Bool
is_enter (character c) = (c == b'\n') || (c == 13)
is_enter key_enter = true
is_enter k = false

-- Whether it takes the event, and whether it calls `on_close_`.
unfoldable pub handle_event : MessageBox → Event → MessageBox × Bool × Bool
handle_event b event =
    if not b.visible
    then (b, false, false)
    else if is_key_press event
    then (if is_enter event.key
        then (record b { visible = false }, true, true)
        else (b, true, false))
    else (b, true, false)

unfoldable pub wrap_text : Str → ℕ → List Str
wrap_text text max_width = pack max_width [] (words [] text)
