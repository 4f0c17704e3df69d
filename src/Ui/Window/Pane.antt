-- ===== src/Ui/Window/Pane.antt =====
-- The window of ncurses that a `ui::Window` keeps (lib/ui/src/Window.cpp): when it is made and
-- deleted, and what is drawn in it. What `newwin` answers is an argument: the number of the new
-- window, or none, where the code goes on with `stdscr`. The logs are left out.
pub mod Follow
pub mod Stays
pub mod Lifetime
use booking.Prelude.{
  false, ℕ, ◌-◌, ◌+◌, ◌==◌, Bool, true, not, ◌&&◌, List, [], ◌∷◌, ◌++◌, map, length, take, min, ltb,
  Option, none, some, ◌>>=◌, if◌then◌else◌,
}
use booking.Prelude.Text.{Str, codes, is_empty}
use booking.Ui.{Rect}
use booking.Ui.Paint.{
  Attr, a_bold, a_dim, a_underline, a_reverse, a_blink, color_pair, Paint, mvwprintw, wbkgd, wmove,
  box, werase, wrefresh, wnoutrefresh,
}
use booking.Ui.TextInput.{TextInput}
use booking.Ui.TextInput.Draw as InputDraw
use booking.Ui.Menu.{Menu}
use booking.Ui.Menu.Draw as MenuDraw
use booking.Ui.Label
use booking.Ui.Label.{Label}

-- A call of ncurses; the window that it is made for is a number, or none for `stdscr`.
pub data Call : Type 0 where
  newwin : Rect → Option ℕ → Call
  delwin : ℕ → Call
  mvwin : Option ℕ → ℕ → ℕ → Call
  paint : Option ℕ → Paint → Call
  attr_on attr_off : Option ℕ → List Attr → Call
  scrollok : Option ℕ → Bool → Call
  wclear : Option ℕ → Call
  curs_set : ℕ → Call
  printw : Str → Call
  refresh : Call

pub record Pane : Type 0 where
  pub bounds : Rect
  pub visible : Bool
  pub window : Option ℕ
  pub title : Str
  pub bordered : Bool

-- The constructor.
unfoldable pub new_pane : Bool → Rect → Option ℕ → Pane × List Call
new_pane has_colors bounds answer = (
  record { bounds = bounds; visible = true; window = answer; title = []; bordered = false },
  newwin bounds answer ∷ (if has_colors then paint answer (wbkgd (color_pair 1)) ∷ [] else []),
)

-- `delwin`, but not of `stdscr`. The destructor does no more.
unfoldable pub destroy : Pane → List Call
destroy p = elim p.window [ none ↦ [] | some n ↦ delwin n ∷ [] ]

unfoldable pub get_content_rect : Pane → Rect
get_content_rect p =
    if p.bordered
    then record {
      left = p.bounds.left + 1;
      top = p.bounds.top + 1;
      width = p.bounds.width - 2;
      height = p.bounds.height - 2;
    }
    else p.bounds

-- `recreate_window`, which is what `on_resize` does.
unfoldable pub recreate : Option ℕ → Pane → Pane × List Call
unfolding destroy
recreate answer p = (record p { window = answer }, destroy p ++ (newwin p.bounds answer ∷ []))

unfoldable pub set_bounds : Rect → Option ℕ → Pane → Pane × List Call
unfolding recreate
set_bounds bounds answer p =
    let p' = record p { bounds = bounds } in
    if (p.bounds.width == bounds.width) && (p.bounds.height == bounds.height)
    then (p', mvwin p.window bounds.top bounds.left ∷ [])
    else recreate answer p'

-- `set_size` and `set_position` of the base class.
unfoldable pub set_size : ℕ → ℕ → Option ℕ → Pane → Pane × List Call
unfolding recreate
set_size width height answer p =
    recreate answer (record p { bounds = record p.bounds { width = width; height = height } })

abbrev pub set_position : ℕ → ℕ → Pane → Pane
set_position x y p = record p { bounds = record p.bounds { left = x; top = y } }

abbrev pub title_call : Pane → Call
title_call p = paint p.window (
    mvwprintw 0 2
      (codes " " ++ (take (min (length p.title) (p.bounds.width - 4)) p.title ++ codes " ")))

unfoldable pub draw_border : Pane → List Call
draw_border p =
    paint p.window box
    ∷ (if not (is_empty p.title) && ltb 4 p.bounds.width then title_call p ∷ [] else [])

-- The bits of `Style::attributes`.
pub record Style : Type 0 where
  pub bold : Bool
  pub dim : Bool
  pub underline : Bool
  pub reverse : Bool
  pub blink : Bool

abbrev pub style_attrs : Style → List Attr
style_attrs s =
    (if s.bold then a_bold ∷ [] else [])
    ++ ((if s.dim then a_dim ∷ [] else [])
        ++ ((if s.underline then a_underline ∷ [] else [])
            ++ ((if s.reverse then a_reverse ∷ [] else [])
                ++ (if s.blink then a_blink ∷ [] else []))))

-- `draw_text_attr`; `draw_text` is the same with no attributes, or with those of a style.
unfoldable pub draw_text_attr : ℕ → ℕ → Str → List Attr → Pane → List Call
draw_text_attr x y text [] p = paint p.window (mvwprintw y x text) ∷ []
draw_text_attr x y text (a ∷ attrs) p =
    attr_on p.window (a ∷ attrs)
    ∷ paint p.window (mvwprintw y x text)
    ∷ attr_off p.window (a ∷ attrs)
    ∷ []

abbrev pub clear : Pane → List Call
clear p = wclear p.window ∷ []

abbrev pub erase : Pane → List Call
erase p = paint p.window werase ∷ []

abbrev pub move_cursor : ℕ → ℕ → Pane → List Call
move_cursor x y p = paint p.window (wmove y x) ∷ []

abbrev pub set_cursor_visible : ℕ → Pane → List Call
set_cursor_visible visibility p = curs_set visibility ∷ []

abbrev pub set_scrollable : Bool → Pane → List Call
set_scrollable scrollable p = scrollok p.window scrollable ∷ []

abbrev pub refresh_now : Pane → List Call
refresh_now p = paint p.window wrefresh ∷ []

-- A child by what `render_children` casts it to; any other widget by its visibility and by what its
-- own `render` draws, which is on `stdscr`.
pub data Child : Type 0 where
  text_input : TextInput → Child
  menu : Menu → Child
  label : Label → Child
  other : Bool → List Paint → Child

unfoldable pub render_child : Option ℕ → Child → Option (List Call)
render_child w (text_input t) =
    if t.widget.visible then (InputDraw.render t >>= λ ps. some (map (paint w) ps)) else some []
render_child w (menu m) = some (if m.widget.visible then map (paint w) (MenuDraw.render m) else [])
render_child w (label l) = some (if l.widget.visible then map (paint w) (Label.render l) else [])
render_child w (other visible ps) = some (if visible then map (paint none) ps else [])

unfoldable pub render_children : Option ℕ → List Child → Option (List Call)
unfolding render_child
render_children w [] = some []
render_children w (c ∷ cs) = do
  first ← render_child w c
  rest ← render_children w cs
  some (first ++ rest)

abbrev pub shown : Pane → List Child → Option (List Call)
shown p children = do
  cs ← render_children p.window children
  let border = if p.bordered then draw_border p else []
  some (erase p ++ (border ++ (cs ++ (paint p.window wnoutrefresh ∷ []))))

-- `render`, with the text that it writes to the screen whatever the window is.
unfoldable pub render : Pane → List Child → Option (List Call)
unfolding draw_border render_children
render p children = do
  cs ← if p.visible then shown p children else some []
  some (printw (codes "WINDOW_RENDER_CALLED!") ∷ refresh ∷ cs)
