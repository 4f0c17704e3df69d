-- ===== src/Ui/Menu/Draw.antt =====
-- What a menu draws (lib/ui/src/Menu.cpp, `render`).
use booking.Prelude.{
  ℕ, suc, ◌+◌, ◌-◌, Bool, false, ◌&&◌, List, [], ◌∷◌, ◌++◌, Option, none, some, length, take, drop,
  replicate, ltb, leb, ◌==◌, if◌then◌else◌,
}
use booking.Prelude.Text.{Str, codes, is_empty, to_string}
use booking.Ui.Paint.{
  Paint, Attr, a_bold, a_dim, a_reverse, mvwprintw, with_attr, draw_frame, sub_int,
}
use booking.Ui.Menu.{Menu, MenuItem, get_visible_height, get_content_width}

abbrev pub is_selected : Menu → ℕ → Bool
is_selected m index = elim m.selected_index [ none ↦ false | some i ↦ index == i ]

unfoldable pub row_attr : Menu → ℕ → MenuItem → Option Attr
row_attr m index item =
    if is_selected m index && m.widget.focused
    then some a_reverse
    else if is_selected m index
    then some a_bold
    else if item.enabled
    then none
    else some a_dim

unfoldable pub row_prefix : Menu → ℕ → Str
row_prefix m index =
    if m.numbered
    then to_string (index + 1) ++ codes ". "
    else if is_selected m index
    then codes "> "
    else codes "  "

-- The columns that a secondary text takes, with the space before it.
abbrev pub secondary_width : MenuItem → ℕ
secondary_width item = if is_empty item.secondary_text then 0 else length item.secondary_text + 1

-- A text in `width` columns of which `used` are taken. Where fewer than three are left, the length
-- that `substr` is given is a huge `size_t`, and nothing is cut off.
unfoldable pub fit_text : ℕ → ℕ → Str → Str
fit_text width used text =
    let kept = if leb (used + 3) width then take (width - used - 3) text else text in
    if ltb width (used + length text) then kept ++ codes "..." else text

-- The row of an item: blanked, then its text, then its secondary text at the right.
unfoldable pub draw_row : Menu → ℕ → ℕ → ℕ → MenuItem → List Paint
unfolding row_attr row_prefix fit_text
draw_row m x y index item =
    let width = get_content_width m in
    let prefix = row_prefix m index in
    let text = fit_text width (length prefix + secondary_width item) item.text in
    let secondary =
      if is_empty item.secondary_text
      then []
      else mvwprintw y (sub_int (x + width) (length item.secondary_text)) item.secondary_text
        ∷ [] in
    mvwprintw y x (replicate width b' ')
    ∷ with_attr (row_attr m index item) (mvwprintw y x (prefix ++ text) ∷ secondary)

-- The rows of some items, the first of which has this index and stands in row `y`.
unfoldable pub draw_rows : Menu → ℕ → ℕ → ℕ → List MenuItem → List Paint
unfolding draw_row
draw_rows m x y index [] = []
draw_rows m x y index (item ∷ items) =
    draw_row m x y index item ++ draw_rows m x (suc y) (suc index) items

abbrev pub content_left : Menu → ℕ
content_left m = if m.bordered then m.widget.bounds.left + 1 else m.widget.bounds.left

abbrev pub content_top : Menu → ℕ
content_top m = if m.bordered then m.widget.bounds.top + 1 else m.widget.bounds.top

unfoldable pub scroll_marks : Menu → List Paint
scroll_marks m =
    let height = get_visible_height m in
    let column = m.widget.bounds.left + m.widget.bounds.width - 2 in
    let above =
      if ltb 0 m.scroll_offset then mvwprintw (content_top m - 1) column (codes "^") ∷ [] else [] in
    let below =
      if ltb (m.scroll_offset + height) (length m.items)
      then mvwprintw (content_top m + height) column (codes "v") ∷ []
      else [] in
    if m.bordered && ltb height (length m.items) then above ++ below else []

-- The items that have a row.
abbrev pub shown_items : Menu → List MenuItem
shown_items m = take (get_visible_height m) (drop m.scroll_offset m.items)

unfoldable pub render : Menu → List Paint
unfolding draw_rows scroll_marks draw_frame
render m =
    let frame = if m.bordered then draw_frame m.widget.bounds m.title else [] in
    let rows = draw_rows m (content_left m) (content_top m) m.scroll_offset (shown_items m) in
    if m.widget.visible then frame ++ (rows ++ scroll_marks m) else []
