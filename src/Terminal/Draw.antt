-- ===== src/Terminal/Draw.antt =====
-- `render` of src/client/UIManager.cpp and what it calls: the calls of ncurses in their order, each
-- with the window that it draws in. Whether the terminal has colours, and whether the message box
-- gets its window, are arguments. `none` is an exception.
use booking.Prelude.{
  ℕ, suc, ◌+◌, ◌-◌, ◌%◌, Bool, List, [], ◌∷◌, ◌++◌, map, length, take, Option, none, some, ◌>>=◌,
  if◌then◌else◌,
}
use Prim.Native.Nat.{◌^◌}
use booking.Prelude.Text.{Str, codes, is_empty, to_string}
use booking.Client.State.{login, foyer, chatroom}
use booking.Ui.{sub_size, Key}
use booking.Ui.Paint.{
  Paint, a_reverse, mvwprintw, wattron, wattroff, wmove, box, werase, touchwin, wnoutrefresh,
}
use booking.Ui.TextInput.{TextInput}
use booking.Ui.TextInput.Draw
use booking.Ui.Menu.Draw as MenuDraw
use booking.Ui.Label
use booking.Ui.Label.{Label}
use booking.Ui.ListBox
use booking.Ui.ListBox.{ListBox}
use booking.Ui.MessageBox.Draw as BoxDraw
use booking.Terminal.{
  Terminal, ScreenSize, Frame, Part, login_part, password_part, menu_part, chat_part, title_part,
  welcome_part, help_part, display_part, members_part,
}
use booking.Terminal.Commands.{process_commands}
use booking.Terminal.Keys.{poll_input, set_up, list_members, shown_messages}

pub data Surface : Type 0 where
  stdscr main_surface chat_surface box_surface : Surface

pub data Drawing : Type 0 where
  paints : Surface → Paint → Drawing
  curs_set : ℕ → Drawing
  doupdate : Drawing

abbrev pub on : Surface → List Paint → List Drawing
on s ps = map (paints s) ps

-- A pointer that may be null is not drawn then.
abbrev pub draw_input : Surface → Option TextInput → Option (List Drawing)
draw_input s none = some []
draw_input s (some t) = Draw.render t >>= λ ps. some (on s ps)

abbrev pub draw_some {ℓ} : {A : Type ℓ} → Surface → (A → List Paint) → Option A → List Drawing
draw_some s f none = []
draw_some s f (some a) = on s (f a)

-- The cursor of an input with the focus: behind the label and its space, by `shown` columns.
abbrev pub place_cursor : Surface → TextInput → ℕ → List Drawing
place_cursor s t shown =
    paints s
      (wmove t.widget.bounds.top ((t.widget.bounds.left + length t.label + 1 + shown) % 2 ^ 32))
    ∷ curs_set 1
    ∷ []

abbrev pub window_frame : Option Frame → List Paint
window_frame none = []
window_frame (some f) =
    if f.bordered then box ∷ (if is_empty f.title then [] else mvwprintw 0 2 f.title ∷ []) else []

-- In the login window a field's cursor stands by its position in the text.
unfoldable pub login_cursor : Option TextInput → Option TextInput → List Drawing
login_cursor name password =
    let hidden = curs_set 0 ∷ [] in
    let at_password : List Drawing = elim password [
      | none ↦ hidden
      | some t ↦ if t.widget.focused then place_cursor main_surface t t.cursor_pos else hidden
    ] in
    elim name [
      | none ↦ at_password
      | some t ↦ if t.widget.focused then place_cursor main_surface t t.cursor_pos else at_password
    ]

-- `render_login` with its window set up.
unfoldable pub render_login : Terminal → Option (List Drawing)
unfolding login_cursor
render_login u = do
  name ← draw_input main_surface u.login_input
  password ← draw_input main_surface u.password_input
  let help = draw_some main_surface Label.render u.help_label
  let cursor = login_cursor u.login_input u.password_input
  some (
      on main_surface (werase ∷ window_frame u.main_frame)
      ++ (name
          ++ (password ++ (help ++ (cursor ++ on main_surface (touchwin ∷ wnoutrefresh ∷ []))))))

-- A child of the foyer's window, which draws labels and menus.
abbrev pub foyer_child : Terminal → Part → List Drawing
foyer_child u title_part = draw_some stdscr Label.render u.title_label
foyer_child u welcome_part = draw_some stdscr Label.render u.welcome_label
foyer_child u help_part = draw_some stdscr Label.render u.help_label
foyer_child u menu_part = draw_some stdscr MenuDraw.render u.room_menu
foyer_child u login_part = []
foyer_child u password_part = []
foyer_child u chat_part = []
foyer_child u display_part = []
foyer_child u members_part = []

unfoldable pub foyer_children : Terminal → List Part → List Drawing
foyer_children u [] = []
foyer_children u (p ∷ ps) = foyer_child u p ++ foyer_children u ps

unfoldable pub render_foyer : Terminal → List Drawing
unfolding foyer_children
render_foyer u = elim u.main_window [ none ↦ [] | some w ↦ foyer_children u w.children ]

-- "Debug: Always show participant info": how many there are, and the first three.
unfoldable pub debug_names : ℕ → List Str → List Paint
debug_names i [] = []
debug_names i (name ∷ names) = mvwprintw (i + 1) 0 name ∷ debug_names (suc i) names

-- The lines of the chat, one to a row.
unfoldable pub chat_rows : ℕ → List Str → List Paint
chat_rows y [] = []
chat_rows y (line ∷ lines) = mvwprintw y 1 line ∷ chat_rows (suc y) lines

unfoldable pub draw_chat : Str → List Str → Frame → List Paint
unfolding chat_rows shown_messages
draw_chat room messages f =
    let title = codes " " ++ (room ++ codes " ") in
    werase
    ∷ box
    ∷ ((if is_empty room then [] else mvwprintw 0 2 title ∷ [])
        ++ (chat_rows 1 (shown_messages f.height f.width messages)
            ++ (touchwin ∷ wnoutrefresh ∷ [])))

-- The cursor of the chat input, by the columns that are shown before it; `staged` follows it.
unfoldable pub chat_cursor : Option TextInput → List Drawing → List Drawing
chat_cursor none staged = curs_set 0 ∷ []
chat_cursor (some t) staged =
    if t.widget.focused
    then place_cursor stdscr t (sub_size t.cursor_pos t.scroll_offset) ++ staged
    else curs_set 0 ∷ []

-- `render_chatroom` with its window set up and the members listed, by what its input draws: what
-- comes before the window of the chat, and what comes behind it. The members are drawn twice.
unfoldable pub before_chat : Terminal → List Drawing → List Drawing
unfolding debug_names chat_cursor
before_chat u input =
    let debug = on stdscr (
      mvwprintw 0 0 (codes "P:" ++ to_string (length u.participants))
      ∷ debug_names 0 (take 3 u.participants)) in
    let members = draw_some stdscr ListBox.render u.member_list_box in
    let staged = paints stdscr wnoutrefresh ∷ [] in
    debug ++ (input ++ (members ++ (chat_cursor u.chat_input [] ++ staged)))

unfoldable pub behind_chat : Terminal → List Drawing
unfolding chat_cursor
behind_chat u =
    draw_some stdscr ListBox.render u.member_list_box
    ++ chat_cursor u.chat_input (paints stdscr wnoutrefresh ∷ [])

abbrev pub chatroom_around : Terminal → List Drawing → List Drawing
chatroom_around u input =
    let chat = draw_some chat_surface (draw_chat u.current_room u.chat_messages) u.chat_display in
    before_chat u input ++ (chat ++ behind_chat u)

unfoldable pub render_chatroom : Terminal → Option (List Drawing)
unfolding draw_chat before_chat behind_chat
render_chatroom u = do input ← draw_input stdscr u.chat_input; some (chatroom_around u input)

-- The screen of a manager that is set up.
unfoldable pub render_screen : Terminal → Option (List Drawing)
unfolding render_login render_foyer render_chatroom
render_screen u =
    let staged = paints stdscr wnoutrefresh ∷ [] in
    elim u.current_screen [
      | login ↦ render_login u >>= λ ds. some (staged ++ ds)
      | foyer ↦ some (render_foyer u ++ staged)
      | chatroom ↦ render_chatroom u
    ]

-- The last line of the screen.
unfoldable pub draw_error : ScreenSize → Str → List Drawing
draw_error size message =
    if is_empty message
    then []
    else on stdscr (
        wattron a_reverse
        ∷ mvwprintw (size.max_y - 1) 0 (codes "ERROR: " ++ message)
        ∷ wattroff a_reverse
        ∷ wnoutrefresh
        ∷ [])

-- What stands over the screen: an error, and the message box.
abbrev pub on_top : Bool → Bool → ScreenSize → Terminal → List Drawing
on_top has_colors opened size u =
    draw_error size u.error_message
    ++ (draw_some box_surface (BoxDraw.render has_colors opened) u.message_box ++ (doupdate ∷ []))

-- What `render` draws; what it changes is `render` of the keys.
unfoldable pub draw : Bool → Bool → ScreenSize → Terminal → Option (List Drawing)
unfolding render_screen draw_error
draw has_colors opened size u = do
  screen ← render_screen (list_members (set_up size u))
  some (paints stdscr werase ∷ (screen ++ on_top has_colors opened size u))

-- What a round of the loop draws.
unfoldable pub round_draws :
    Bool → Bool → ScreenSize → Option Key → List Key → Terminal → Option (List Drawing)
unfolding draw
round_draws has_colors opened size k dialog u = do
  u' ← process_commands size u
  draw has_colors opened size (poll_input u' k dialog)
