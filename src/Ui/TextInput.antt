-- ===== src/Ui/TextInput.antt =====
-- The single-line input (lib/ui/include/ui/TextInput.h, lib/ui/src/TextInput.cpp). A position is a
-- `size_t`; the visible width is what the code's `int` is as a `size_t`, for labels and widths below
-- 2^31. `insert` and `erase` of a string throw behind its end, where the cursor never is.
pub mod Draw
pub mod Scroll
pub mod Visible
pub mod Editor
pub mod Edit
use booking.Prelude.{
  ℕ, suc, ◌+◌, ◌-◌, ◌%◌, Bool, true, false, not, ◌&&◌, ◌||◌, List, [], ◌∷◌, ◌++◌, Option, none,
  some, length, take, drop, replicate, min, ltb, leb, ◌==◌, if◌then◌else◌,
}
use booking.Prelude.Text.{Str, is_empty}
use Prim.Native.Nat.{◌^◌}
use booking.Ui.{
  Rect, Widget, Event, Key, character, key_enter, key_backspace, key_dc, key_left, key_right,
  key_up, key_down, key_home, key_end, key_other, is_key_press, is_printable, sub_size,
}

pub record TextInput : Type 0 where
  pub widget : Widget
  pub text : Str
  pub placeholder : Str
  pub label : Str
  pub cursor_pos : ℕ
  pub scroll_offset : ℕ
  pub max_length : ℕ
  pub password_mode : Bool

-- The calls of `on_submit_` and `on_change_`.
pub data Call : Type 0 where
  submitted changed : Str → Call

abbrev pub new_text_input : ℕ → ℕ → ℕ → TextInput
new_text_input x y width = record {
  widget = record {
    bounds = record { left = x; top = y; width = width; height = 1 };
    visible = true;
    focusable = true;
    focused = false;
  };
  text = [];
  placeholder = [];
  label = [];
  cursor_pos = 0;
  scroll_offset = 0;
  max_length = 0;
  password_mode = false;
}

unfoldable pub set_text : TextInput → Str → TextInput × List Call
set_text t text =
    let text' =
      if ltb 0 t.max_length && ltb t.max_length (length text)
      then take t.max_length text
      else text in
    (record t { text = text'; cursor_pos = min t.cursor_pos (length text') }, changed text' ∷ [])

unfoldable pub clear : TextInput → TextInput × List Call
clear t = (record t { text = []; cursor_pos = 0; scroll_offset = 0 }, changed [] ∷ [])

-- The width of the bounds less the label's length, as a `size_t`.
unfoldable pub visible_width : TextInput → ℕ
visible_width t =
    if is_empty t.label
    then t.widget.bounds.width
    else sub_size t.widget.bounds.width (length t.label)

-- "Adjust scroll if cursor goes off screen".
unfoldable pub follow_cursor : TextInput → TextInput
follow_cursor t =
    if leb (visible_width t) (sub_size t.cursor_pos t.scroll_offset)
    then record t { scroll_offset = (sub_size t.cursor_pos (visible_width t) + 1) % 2 ^ 64 }
    else t

unfoldable pub insert_char : TextInput → ℕ → TextInput × List Call
insert_char t ch =
    let text = take t.cursor_pos t.text ++ (ch ∷ drop t.cursor_pos t.text) in
    if ltb 0 t.max_length && leb t.max_length (length t.text) then (t, []) else (
      follow_cursor (record t { text = text; cursor_pos = t.cursor_pos + 1 }),
      changed text ∷ [],
    )

unfoldable pub delete_char_before : TextInput → TextInput × List Call
delete_char_before t =
    let pos = t.cursor_pos - 1 in
    let text = take pos t.text ++ drop t.cursor_pos t.text in
    if ltb 0 t.cursor_pos
    then (
      record t {
        text = text;
        cursor_pos = pos;
        scroll_offset =
            if ltb 0 t.scroll_offset && ltb pos t.scroll_offset then pos else t.scroll_offset;
      },
      changed text ∷ [],
    )
    else (t, [])

unfoldable pub delete_char_at : TextInput → TextInput × List Call
delete_char_at t =
    let text = take t.cursor_pos t.text ++ drop (t.cursor_pos + 1) t.text in
    if ltb t.cursor_pos (length t.text)
    then (record t { text = text }, changed text ∷ [])
    else (t, [])

unfoldable pub move_cursor_left : TextInput → TextInput
move_cursor_left t =
    let pos = t.cursor_pos - 1 in
    if ltb 0 t.cursor_pos
    then record t {
      cursor_pos = pos;
      scroll_offset = if ltb pos t.scroll_offset then pos else t.scroll_offset;
    }
    else t

unfoldable pub move_cursor_right : TextInput → TextInput
move_cursor_right t =
    if ltb t.cursor_pos (length t.text)
    then follow_cursor (record t { cursor_pos = t.cursor_pos + 1 })
    else t

unfoldable pub move_cursor_home : TextInput → TextInput
move_cursor_home t = record t { cursor_pos = 0; scroll_offset = 0 }

unfoldable pub move_cursor_end : TextInput → TextInput
move_cursor_end t = record t {
  cursor_pos = length t.text;
  scroll_offset =
      if ltb (visible_width t) (length t.text)
      then sub_size (length t.text) (visible_width t)
      else t.scroll_offset;
}

unfoldable pub get_display_text : TextInput → Str
get_display_text t =
    if t.password_mode && not (is_empty t.text) then replicate (length t.text) b'*' else t.text

-- `substr` throws where it starts behind the end.
unfoldable pub get_visible_text : TextInput → Option Str
get_visible_text t =
    let display = get_display_text t in
    if leb (length display) (visible_width t)
    then some display
    else if ltb (length display) t.scroll_offset
    then none
    else some (take (visible_width t) (drop t.scroll_offset display))

-- A key that is handled, with the calls that it makes, or a key that is not.
abbrev pub moved : TextInput → Option (TextInput × List Call)
moved t = some (t, [])

unfoldable pub handle_key : TextInput → Key → Option (TextInput × List Call)
handle_key t (character c) =
    if c == b'\n'
    then some (t, submitted t.text ∷ [])
    else if (c == 127) || (c == 8)
    then some (delete_char_before t)
    else if is_printable c
    then some (insert_char t c)
    else none
handle_key t key_enter = some (t, submitted t.text ∷ [])
handle_key t key_backspace = some (delete_char_before t)
handle_key t key_dc = some (delete_char_at t)
handle_key t key_left = moved (move_cursor_left t)
handle_key t key_right = moved (move_cursor_right t)
handle_key t key_home = moved (move_cursor_home t)
handle_key t key_end = moved (move_cursor_end t)
handle_key t key_up = none
handle_key t key_down = none
handle_key t key_other = none

-- `none` where the event is not handled.
unfoldable pub handle_event : TextInput → Event → Option (TextInput × List Call)
handle_event t event =
    if not t.widget.visible || (not t.widget.focused || not (is_key_press event))
    then none
    else handle_key t event.key
