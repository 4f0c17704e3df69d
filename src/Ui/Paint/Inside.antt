-- ===== src/Ui/Paint/Inside.antt =====
-- Texts within a rectangle, and the frame of a menu or a list box within its own.
use booking.Prelude.{
  ℕ, zero, suc, ◌+◌, ◌-◌, ◌≤◌, ◌<◌, ◌≡◌, inl, inr, true, ◌&&◌, not, List, [], ◌∷◌, ◌++◌, Option,
  none, some, length, length-append, length-take, take, All, All-append, arith, Bool-cases, ltb,
  min,
}
use booking.Prelude.Text.{Str, codes, is_empty}
use booking.Ui.{Rect}
use booking.Ui.Paint.{
  Paint, Attr, mvwprintw, wattron, wattroff, wbkgd, wmove, wclrtoeol, box, werase, touchwin,
  wnoutrefresh, wrefresh, delwin, with_attr, frame_sides, frame_edges, frame_corners, frame_title,
  draw_frame,
}

-- A text lies within a rectangle: its row and all its columns do.
abbrev pub Inside : Rect → Paint → Type 0
Inside b (mvwprintw y x s) =
    (b.top ≤ y) × (y < b.top + b.height) × (b.left ≤ x) × (x + length s ≤ b.left + b.width)
Inside b (wattron a) = Unit
Inside b (wattroff a) = Unit
Inside b (wbkgd a) = Unit
Inside b (wmove y x) = Unit
Inside b wclrtoeol = Unit
Inside b box = Unit
Inside b werase = Unit
Inside b touchwin = Unit
Inside b wnoutrefresh = Unit
Inside b wrefresh = Unit
Inside b delwin = Unit

pub with_attr-Inside :
    (b : Rect) (a : Option Attr) (ps : List Paint)
    → All (Inside b) ps
    → All (Inside b) (with_attr a ps)
with_attr-Inside b none ps h = h
with_attr-Inside b (some a) ps h = (tt, All-append (Inside b) ps (wattroff a ∷ []) h (tt, tt))

module _ (b : Rect) (wide : 1 ≤ b.width) (high : 1 ≤ b.height) where
  sides-Inside : (i k : ℕ) → i + k ≤ b.height → All (Inside b) (frame_sides b i k)
  unfolding frame_sides
  sides-Inside i zero h = tt
  sides-Inside i (suc k) h = (omega arith, (omega arith, sides-Inside (suc i) k (omega arith)))

  edges-Inside : (i k : ℕ) → i + k ≤ b.width → All (Inside b) (frame_edges b i k)
  unfolding frame_edges
  edges-Inside i zero h = tt
  edges-Inside i (suc k) h = (omega arith, (omega arith, edges-Inside (suc i) k (omega arith)))

  corners-Inside : All (Inside b) (frame_corners b)
  unfolding frame_corners
  corners-Inside = omega arith

  title-length :
      (title : Str) (n : ℕ)
      → length (codes " " ++ (take (min (length title) n) title ++ codes " ")) ≤ n + 2
  title-length title n = omega (
    arith,
    length-append (take (min (length title) n) title) (codes " "),
    length-take (min (length title) n) title,
  )

  title-Inside : (title : Str) → All (Inside b) (frame_title b title)
  unfolding frame_title
  title-Inside title = elim (Bool-cases (not (is_empty title) && ltb 4 b.width)) [
    | inl e ↦ rw e (omega (arith, title-length title (b.width - 4), fits e))
    | inr e ↦ rw e tt
  ]
    where
      fits : (not (is_empty title) && ltb 4 b.width) ≡ true → 4 < b.width
      fits e = ground (arith, e)

  pub frame-Inside : (title : Str) → All (Inside b) (draw_frame b title)
  unfolding draw_frame
  frame-Inside title =
      All-append (Inside b) (frame_sides b 0 b.height) _ (sides-Inside 0 b.height (omega arith)) (
        All-append (Inside b) (frame_edges b 0 b.width) _ (edges-Inside 0 b.width (omega arith))
          (All-append (Inside b) (frame_corners b) _ corners-Inside (title-Inside title)))
