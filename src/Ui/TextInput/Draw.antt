-- ===== src/Ui/TextInput/Draw.antt =====
-- What an input draws (lib/ui/src/TextInput.cpp, `render`).
use booking.Prelude.{
  ℕ, ◌+◌, ◌-◌, ◌%◌, ◌&&◌, not, List, [], ◌∷◌, ◌++◌, Option, none, some, length, take, replicate,
  ltb, if◌then◌else◌,
}
use Prim.Native.Nat.{◌^◌}
use booking.Prelude.Text.{Str, is_empty}
use booking.Ui.{sub_size}
use booking.Ui.Paint.{Paint, a_dim, a_reverse, mvwprintw, wattron, wattroff, wmove}
use booking.Ui.TextInput.{TextInput, get_visible_text}

-- The columns that the label takes, with the space behind it.
abbrev pub label_columns : TextInput → ℕ
label_columns t = if is_empty t.label then 0 else length t.label + 1

abbrev pub input_left : TextInput → ℕ
input_left t = t.widget.bounds.left + label_columns t

-- "%*s" of no text and "%.*s", at a precision that may be negative: the blanks are then as many as
-- its absolute value, and the text is not cut.
abbrev pub blanks : TextInput → Str
blanks t =
    replicate
      ((t.widget.bounds.width - label_columns t) + (label_columns t - t.widget.bounds.width)) b' '

abbrev pub cut : TextInput → Str → Str
cut t s =
    if ltb t.widget.bounds.width (label_columns t)
    then s
    else take (t.widget.bounds.width - label_columns t) s

abbrev pub draw_label : TextInput → List Paint
draw_label t =
    if is_empty t.label then [] else mvwprintw t.widget.bounds.top t.widget.bounds.left t.label ∷ []

-- The text over blanks; with the focus in reverse, and with the cursor.
unfoldable pub draw_text : TextInput → Str → List Paint
draw_text t shown =
    let y = t.widget.bounds.top in
    let texts =
      mvwprintw y (input_left t) (blanks t) ∷ mvwprintw y (input_left t) (cut t shown) ∷ [] in
    let column = (input_left t + sub_size t.cursor_pos t.scroll_offset) % 2 ^ 32 in
    if t.widget.focused
    then wattron a_reverse ∷ (texts ++ (wattroff a_reverse ∷ wmove y column ∷ []))
    else texts

unfoldable pub draw_placeholder : TextInput → List Paint
draw_placeholder t =
    wattron a_dim
    ∷ mvwprintw t.widget.bounds.top (input_left t) (cut t t.placeholder)
    ∷ wattroff a_dim
    ∷ []

-- The label, then the placeholder or the text.
abbrev pub contents : TextInput → Str → List Paint
contents t shown =
    let holds = is_empty t.text && (not t.widget.focused && not (is_empty t.placeholder)) in
    draw_label t ++ (if holds then draw_placeholder t else draw_text t shown)

-- `none` where taking the visible text throws.
unfoldable pub render : TextInput → Option (List Paint)
unfolding draw_text draw_placeholder
render t =
    if t.widget.visible
    then elim (get_visible_text t) [ none ↦ none | some shown ↦ some (contents t shown) ]
    else some []
