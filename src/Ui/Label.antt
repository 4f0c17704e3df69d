-- ===== src/Ui/Label.antt =====
-- The label (lib/ui/include/ui/Label.h, lib/ui/src/Label.cpp). Attributes of no bits are none, and the
-- colour pair 0 is no pair.
use booking.Prelude.{
  ℕ, suc, Option, none, some, Bool, true, false, ◌&&◌, not, List, [], ◌∷◌, ◌++◌, length, take, map,
  ltb, ◌==◌, ◌-◌, ◌+◌, ◌/◌, if◌then◌else◌,
}
use booking.Prelude.Text.{Str, is_empty}
use booking.Ui.{Rect, Widget}
use booking.Ui.Paint.{Paint, Attr, color_pair, mvwprintw, wattron, wattroff, wmove, wclrtoeol}
use booking.Ui.Wrap.{words, lines, pack}

pub data Alignment : Type 0 where
  left center right : Alignment

pub record Label : Type 0 where
  pub widget : Widget
  pub text : Str
  pub alignment : Alignment
  pub word_wrap : Bool
  pub attributes : Option Attr
  pub pair : ℕ

unfoldable pub new_label : ℕ → ℕ → Str → Label
new_label x y text = record {
  widget = record {
    bounds = record { left = x; top = y; width = length text; height = 1 };
    visible = true;
    focusable = false;
    focused = false;
  };
  text = text;
  alignment = left;
  word_wrap = false;
  attributes = none;
  pair = 0;
}

unfoldable pub new_wrapped_label : Rect → Str → Label
new_wrapped_label bounds text = record {
  widget = record { bounds = bounds; visible = true; focusable = false; focused = false };
  text = text;
  alignment = left;
  word_wrap = true;
  attributes = none;
  pair = 0;
}

unfoldable pub set_text : Label → Str → Label
set_text l text =
    let l' = record l { text = text } in
    let bounds = record l.widget.bounds { width = length text } in
    if (l.widget.bounds.height == 1) && not l.word_wrap
    then record l' { widget = record l.widget { bounds = bounds } }
    else l'

unfoldable pub wrap_line : ℕ → Str → List Str
wrap_line width line = if is_empty line then [] ∷ [] else pack width [] (words [] line)

unfoldable pub wrap_lines : ℕ → List Str → List Str
unfolding wrap_line
wrap_lines width [] = []
wrap_lines width (line ∷ ls) = wrap_line width line ++ wrap_lines width ls

unfoldable pub wrap_text : Str → ℕ → List Str
unfolding wrap_lines
wrap_text text width = if width == 0 then [] else wrap_lines width (lines [] text)

unfoldable pub get_lines : Label → List Str
unfolding wrap_text
get_lines l =
    if l.word_wrap && ltb 0 l.widget.bounds.width
    then wrap_text l.text l.widget.bounds.width
    else elim (lines [] l.text) [
      | [] ↦ if is_empty l.text then [] else l.text ∷ []
      | line ∷ ls ↦ line ∷ ls
    ]

unfoldable pub get_preferred_size : Label → ℕ × ℕ
get_preferred_size l =
    if l.word_wrap then (l.widget.bounds.width, l.widget.bounds.height) else (length l.text, 1)

-- The column at which a line is drawn, and what of it.
unfoldable pub draw_line : Label → Str → ℕ × Str
draw_line l line =
    let width = l.widget.bounds.width in
    let shown = if ltb width (length line) then take width line else line in
    let x = l.widget.bounds.left in
    (
      elim l.alignment [
        | left ↦ x
        | center ↦ x + (width - length shown) / 2
        | right ↦ x + (width - length shown)
      ],
      shown,
    )

-- The lines that `render` draws: as many as the height allows.
unfoldable pub draw : Label → List (ℕ × Str)
unfolding get_lines draw_line
draw l =
    if l.widget.visible then map (draw_line l) (take l.widget.bounds.height (get_lines l)) else []

-- The lines, one to a row, each behind a cleared row.
unfoldable pub place_lines : ℕ → ℕ → List (ℕ × Str) → List Paint
place_lines x y [] = []
place_lines x y ((column, shown) ∷ ls) =
    wmove y x ∷ wclrtoeol ∷ mvwprintw y column shown ∷ place_lines x (suc y) ls

-- The attributes that a label switches on, and off again in the same order.
abbrev pub label_attrs : Label → List Attr
label_attrs l =
    let colour = if ltb 0 l.pair then color_pair l.pair ∷ [] else [] in
    elim l.attributes [ none ↦ colour | some a ↦ a ∷ colour ]

unfoldable pub render : Label → List Paint
unfolding draw place_lines
render l =
    let rows = place_lines l.widget.bounds.left l.widget.bounds.top (draw l) in
    if l.widget.visible
    then map wattron (label_attrs l) ++ (rows ++ map wattroff (label_attrs l))
    else []
