-- ===== src/Ui/ListBox.antt =====
-- The list box (lib/ui/include/ui/ListBox.h, lib/ui/src/ListBox.cpp). Nothing sets `scroll_offset_`
-- to anything but 0.
use booking.Prelude.{
  ℕ, suc, ◌+◌, ◌-◌, Bool, true, false, List, [], ◌∷◌, ◌++◌, length, take, drop, replicate, map, ltb,
  if◌then◌else◌,
}
use booking.Prelude.Text.{Str, codes}
use booking.Ui.{Rect, Widget}
use booking.Ui.Paint.{Paint, mvwprintw, draw_frame}

pub record ListBox : Type 0 where
  pub widget : Widget
  pub items : List Str
  pub bordered : Bool
  pub title : Str
  pub scroll_offset : ℕ

abbrev pub new_list_box : Rect → ListBox
new_list_box bounds = record {
  widget = record { bounds = bounds; visible = true; focusable = false; focused = false };
  items = [];
  bordered = false;
  title = [];
  scroll_offset = 0;
}

unfoldable pub set_items : ListBox → List Str → ListBox
set_items b items = record b { items = items; scroll_offset = 0 }

unfoldable pub add_item : ListBox → Str → ListBox
add_item b item = record b { items = b.items ++ (item ∷ []) }

unfoldable pub clear : ListBox → ListBox
clear b = record b { items = []; scroll_offset = 0 }

unfoldable pub get_visible_height : ListBox → ℕ
get_visible_height b = if b.bordered then b.widget.bounds.height - 2 else b.widget.bounds.height

unfoldable pub content_width : ListBox → ℕ
content_width b = if b.bordered then b.widget.bounds.width - 2 else b.widget.bounds.width

-- An item that is too long is cut. Where the width has no room for the dots, `width - 3` is a huge
-- `size_t`, and nothing is cut off.
unfoldable pub draw_item : ℕ → Str → Str
draw_item width item =
    let kept = if ltb width 3 then item else take (width - 3) item in
    if ltb width (length item) then kept ++ codes "..." else item

-- The items drawn, row by row, and the rows that are left blank.
unfoldable pub draw : ListBox → List Str
unfolding get_visible_height content_width draw_item
draw b =
    let height = get_visible_height b in
    let width = content_width b in
    let shown = take height (drop b.scroll_offset b.items) in
    map (draw_item width) shown ++ replicate (height - length shown) (replicate width b' ')

-- A row for each item, blanked first.
unfoldable pub draw_items : ℕ → ℕ → ℕ → List Str → List Paint
draw_items width x y [] = []
draw_items width x y (item ∷ items) =
    mvwprintw y x (replicate width b' ')
    ∷ mvwprintw y x (draw_item width item)
    ∷ draw_items width x (suc y) items

-- "Clear remaining lines if list is shorter than visible area".
unfoldable pub blank_rows : ℕ → ℕ → List Str → List Paint
blank_rows x y [] = []
blank_rows x y (row ∷ rows) = mvwprintw y x row ∷ blank_rows x (suc y) rows

unfoldable pub render : ListBox → List Paint
unfolding get_visible_height content_width draw_item draw_items blank_rows draw_frame
render b =
    let frame = if b.bordered then draw_frame b.widget.bounds b.title else [] in
    let x = if b.bordered then b.widget.bounds.left + 1 else b.widget.bounds.left in
    let y = if b.bordered then b.widget.bounds.top + 1 else b.widget.bounds.top in
    let width = content_width b in
    let height = get_visible_height b in
    let shown = take height (drop b.scroll_offset b.items) in
    let rest = replicate (height - length shown) (replicate width b' ') in
    if b.widget.visible
    then frame ++ (draw_items width x y shown ++ blank_rows x (y + length shown) rest)
    else []
