-- ===== src/Ui/MessageBox/Draw.antt =====
-- What a message box draws (lib/ui/src/MessageBox.cpp, `render`). Whether the terminal has colours and
-- whether `derwin` makes the window of the box are arguments. Differences with a length are of type
-- `size_t`, which a column or a row takes as an `int`.
use booking.Prelude.{
  ℕ, suc, ◌+◌, ◌-◌, ◌/◌, ◌%◌, Bool, not, ◌||◌, List, [], ◌∷◌, ◌++◌, length, take, if◌then◌else◌,
}
use Prim.Native.Nat.{◌^◌}
use booking.Prelude.Text.{Str, codes}
use booking.Ui.{sub_size}
use booking.Ui.Paint.{
  Paint, a_dim, color_pair, bold_color_pair, mvwprintw, wattron, wattroff, wbkgd, box, wrefresh,
  delwin,
}
use booking.Ui.MessageBox.{MessageBox, wrap_text}

-- `(a - b) / 2` in `size_t`, as an `int`.
abbrev pub half_gap : ℕ → ℕ → ℕ
half_gap a b = (sub_size a b / 2) % 2 ^ 32

unfoldable pub draw_lines : ℕ → ℕ → ℕ → List Str → List Paint
draw_lines width start i [] = []
draw_lines width start i (line ∷ lines) =
    mvwprintw ((start + i + 1) % 2 ^ 32) (half_gap width (length line)) line
    ∷ draw_lines width start (suc i) lines

-- The lines that are drawn, and the row before the first one.
abbrev pub box_lines : MessageBox → List Str
box_lines b = wrap_text b.message (sub_size b.width 4)

unfoldable pub message_start : MessageBox → ℕ
message_start b = half_gap (sub_size b.height (length (box_lines b))) 2

unfoldable pub box_contents : MessageBox → List Paint
unfolding draw_lines message_start
box_contents b =
    let lines = take (sub_size b.height 4) (box_lines b) in
    let instruction = codes "Press Enter to close" in
    box
    ∷ mvwprintw 0 (half_gap (sub_size b.width (length b.title)) 4)
        (codes "[ " ++ (b.title ++ codes " ]"))
    ∷ (draw_lines b.width (message_start b) 0 lines
        ++ (wattron a_dim
            ∷ mvwprintw (b.height - 2) (half_gap b.width (length instruction)) instruction
            ∷ wattroff a_dim
            ∷ []))

unfoldable pub render : Bool → Bool → MessageBox → List Paint
unfolding box_contents
render has_colors opened b =
    if not b.visible || not opened
    then []
    else if has_colors
    then wbkgd (color_pair 2)
      ∷ wattron (bold_color_pair 2)
      ∷ (box_contents b ++ (wattroff (bold_color_pair 2) ∷ wrefresh ∷ delwin ∷ []))
    else box_contents b ++ (wrefresh ∷ delwin ∷ [])
