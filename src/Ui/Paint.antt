-- ===== src/Ui/Paint.antt =====
-- What a widget asks ncurses to draw, call by call: rows and columns are those of the window, and an
-- `int` that may be negative stands as its bit pattern. The frame is that of lib/ui/src/Menu.cpp and
-- of lib/ui/src/ListBox.cpp, which are the same text.
pub mod Inside
use booking.Prelude.{
  ℕ, zero, suc, ◌+◌, ◌-◌, ◌%◌, ◌&&◌, not, List, [], ◌∷◌, ◌++◌, Option, none, some, length, take,
  min, ltb, if◌then◌else◌,
}
use Prim.Native.Nat.{◌^◌}
use booking.Prelude.Text.{Str, codes, is_empty}
use booking.Ui.{Rect}

pub data Attr : Type 0 where
  a_bold a_dim a_underline a_reverse a_blink : Attr
  color_pair bold_color_pair : ℕ → Attr

-- `mvwprintw` with its row, its column and the text that its format makes.
pub data Paint : Type 0 where
  mvwprintw : ℕ → ℕ → Str → Paint
  wattron wattroff wbkgd : Attr → Paint
  wmove : ℕ → ℕ → Paint
  wclrtoeol box werase touchwin wnoutrefresh wrefresh delwin : Paint

-- A difference as an `int`.
abbrev pub sub_int : ℕ → ℕ → ℕ
sub_int a b = (a + 2 ^ 32 - b) % 2 ^ 32

-- Some paint between switching an attribute on and off.
abbrev pub with_attr : Option Attr → List Paint → List Paint
with_attr none ps = ps
with_attr (some a) ps = wattron a ∷ (ps ++ (wattroff a ∷ []))

-- The rows of the sides, and the columns of the top and the bottom, from one on.
unfoldable pub frame_sides : Rect → ℕ → ℕ → List Paint
frame_sides b i zero = []
frame_sides b i (suc k) =
    mvwprintw (b.top + i) b.left (codes "|")
    ∷ mvwprintw (b.top + i) (b.left + b.width - 1) (codes "|")
    ∷ frame_sides b (suc i) k

unfoldable pub frame_edges : Rect → ℕ → ℕ → List Paint
frame_edges b i zero = []
frame_edges b i (suc k) =
    mvwprintw b.top (b.left + i) (codes "-")
    ∷ mvwprintw (b.top + b.height - 1) (b.left + i) (codes "-")
    ∷ frame_edges b (suc i) k

unfoldable pub frame_corners : Rect → List Paint
frame_corners b =
    mvwprintw b.top b.left (codes "+")
    ∷ mvwprintw b.top (b.left + b.width - 1) (codes "+")
    ∷ mvwprintw (b.top + b.height - 1) b.left (codes "+")
    ∷ mvwprintw (b.top + b.height - 1) (b.left + b.width - 1) (codes "+")
    ∷ []

unfoldable pub frame_title : Rect → Str → List Paint
frame_title b title =
    if not (is_empty title) && ltb 4 b.width
    then mvwprintw b.top (b.left + 2)
        (codes " " ++ (take (min (length title) (b.width - 4)) title ++ codes " "))
      ∷ []
    else []

unfoldable pub draw_frame : Rect → Str → List Paint
unfolding frame_sides frame_edges frame_corners frame_title
draw_frame b title =
    frame_sides b 0 b.height
    ++ (frame_edges b 0 b.width ++ (frame_corners b ++ frame_title b title))
