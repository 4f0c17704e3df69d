-- ===== src/Terminal/Keys/Login.antt =====
-- "Enter" on the user name: both widgets get new flags, and the window keeps its focused child.
use booking.Prelude.{
  ◌≡◌, refl, sym, ◌∙◌, Bool, true, false, ◌&&◌, ◌||◌, List, [], ◌∷◌, none, some, All, arith,
  if◌then◌else◌,
}
use booking.Prelude.Text.{is_empty}
use mathlib.Core.Path.{subst}
use booking.Client.State.{login, foyer}
use booking.Ui.{
  Widget, set_focus, Key, character, key_enter, key_backspace, key_dc, key_left, key_right, key_up,
  key_down, key_home, key_end, key_other,
}
use booking.Ui.TextInput
use booking.Ui.TextInput.{TextInput}
use booking.Ui.Window
use booking.Ui.Window.{Window}
use booking.Terminal.{Terminal, Part, login_part, focus_input, map_option}
use booking.Terminal.Screens.{part_handle, login_submitted}
use booking.Terminal.Keys.Forward.{
  type_keys, handle_event-child, handle_event-none, forward-none, forward-some,
}
use booking.Terminal.Keys.{
  is_character, is_on, has_focus, box_open, pressed, show_create_room_dialog, asks_quit, forward,
  poll_input,
}

-- The login screen, with the window's focus on a user name that has this text and this flag.
pub record OnName (u : Terminal) (flag : Bool) : Type 0 where
  pub field : TextInput
  pub window : Window Part
  pub screen : u.current_screen ≡ login
  pub no_box : box_open u.message_box ≡ false
  pub in_window : u.main_window ≡ some window
  pub on_field : window.focused_child ≡ some login_part
  pub of_field : u.login_input ≡ some field
  pub shown : field.widget.visible ≡ true
  pub takes_focus : field.widget.focusable ≡ true
  pub flagged : field.widget.focused ≡ flag
  pub filled : is_empty field.text ≡ false

is_tab-is_character : (k : Key) → Window.is_tab k ≡ is_character k b'\t'
is_tab-is_character (character c) = refl
is_tab-is_character key_enter = refl
is_tab-is_character key_backspace = refl
is_tab-is_character key_dc = refl
is_tab-is_character key_left = refl
is_tab-is_character key_right = refl
is_tab-is_character key_up = refl
is_tab-is_character key_down = refl
is_tab-is_character key_home = refl
is_tab-is_character key_end = refl
is_tab-is_character key_other = refl

part_lost : (u : Terminal) (k : Key) → OnName u false → part_handle u login_part (pressed k) ≡ none
unfolding part_handle TextInput.handle_event
part_lost u k h = rw (h.of_field, h.shown, h.flagged) refl

forward_lost :
    (u : Terminal) (k : Key) → OnName u false → is_character k b'\t' ≡ false → forward u k ≡ u
forward_lost u k h t = forward-none u h.window k h.in_window (
    handle_event-none u h.window login_part (pressed k) h.on_field (part_lost u k h)
      (is_tab-is_character k ∙ t))

stays_open : (u : Terminal) (k : Key) → OnName u false → asks_quit u k ≡ false
unfolding asks_quit
stays_open u k h = rw (h.screen, h.of_field, h.filled) (ground arith)

if_off : (b : Bool) (x y : Terminal) → (if b && false then x else y) ≡ y
if_off true x y = refl
if_off false x y = refl

not_foyer : (u : Terminal) → OnName u false → is_on u.current_screen foyer ≡ false
not_foyer u h = rw h.screen refl

key_lost :
    (u : Terminal) (k : Key)
    → OnName u false
    → is_character k b'\t' ≡ false
    → poll_input u (some k) [] ≡ u
unfolding poll_input
key_lost u k h t =
    rw
      (
        h.no_box,
        stays_open u k h,
        t,
        not_foyer u h,
        if_off (is_character k b'c' || is_character k b'C') (show_create_room_dialog u [])
            (forward u k),
      )
      (forward_lost u k h t)

keys_lost :
    (u : Terminal) (ks : List Key)
    → OnName u false
    → All (λ k. is_character k b'\t' ≡ false) ks
    → type_keys u ks ≡ u
unfolding type_keys
keys_lost u [] h t = refl
keys_lost u (k ∷ ks) h t = rw (key_lost u k h t.0) (keys_lost u ks h t.1)

-- What "Enter" makes of it.
entered : Terminal → TextInput → Window Part → Terminal
entered u l w = record (login_submitted (record u { login_input = some l }) l.text) {
  main_window = some w;
}

part_enter :
    (u : Terminal) (h : OnName u true)
    → part_handle u login_part (pressed key_enter)
      ≡ some (login_submitted (record u { login_input = some h.field }) h.field.text)
unfolding part_handle TextInput.handle_event TextInput.handle_key
part_enter u h = rw (h.of_field, h.shown, h.flagged) refl

forward_enter :
    (u : Terminal) (h : OnName u true) → forward u key_enter ≡ entered u h.field h.window
unfolding entered
forward_enter u h =
    forward-some u _ h.window h.window key_enter h.in_window
      (handle_event-child u _ h.window login_part (pressed key_enter) h.on_field (part_enter u h))

poll_enter :
    (u : Terminal) (h : OnName u true)
    → poll_input u (some key_enter) [] ≡ entered u h.field h.window
unfolding poll_input asks_quit
poll_enter u h = rw h.no_box (forward_enter u h)

set_focus-focused : (w : Widget) (b : Bool) → w.focusable ≡ true → (set_focus w b).focused ≡ b
unfolding set_focus
set_focus-focused w true h = ground (arith, h)
set_focus-focused w false h = ground (arith, h)

set_focus-kept :
    (w : Widget) (b : Bool)
    → ((set_focus w b).visible ≡ w.visible) × ((set_focus w b).focusable ≡ w.focusable)
unfolding set_focus
set_focus-kept w b = ground arith

entered-OnName : (u : Terminal) (h : OnName u true) → OnName (entered u h.field h.window) false
unfolding entered login_submitted
entered-OnName u h =
    rw (login_submitted, h.filled)
      (record {
        field = focus_input false h.field;
        window = h.window;
        screen = h.screen;
        no_box = h.no_box;
        in_window = refl;
        on_field = h.on_field;
        of_field = refl;
        shown = (set_focus-kept h.field.widget false).0 ∙ h.shown;
        takes_focus = (set_focus-kept h.field.widget false).1 ∙ h.takes_focus;
        flagged = set_focus-focused h.field.widget false h.takes_focus;
        filled = h.filled;
      })

entered-password :
    (u : Terminal) (h : OnName u true) (p : TextInput)
    → u.password_input ≡ some p
    → p.widget.focusable ≡ true
    → has_focus (entered u h.field h.window).password_input ≡ true
unfolding entered login_submitted
entered-password u h p e f = rw h.filled (
    subst (λ o. has_focus (map_option (focus_input true) o) ≡ true) (sym e)
      (set_focus-focused p.widget true f))

-- "Enter" on a user name that is not empty, with the window's focus on it and no box open, takes the
-- focus flag from the user name and gives the password field one; but the window's focus stays
-- where it is, so that whatever keys but "Tab" come after it change nothing: no character of a
-- password is taken.
pub enter_name-lost :
    (u : Terminal) (h : OnName u true) (p : TextInput) (ks : List Key)
    → u.password_input ≡ some p
    → p.widget.focusable ≡ true
    → All (λ k. is_character k b'\t' ≡ false) ks
    → (has_focus (type_keys u (key_enter ∷ [])).login_input ≡ false)
      × (has_focus (type_keys u (key_enter ∷ [])).password_input ≡ true)
      × (type_keys u (key_enter ∷ ks) ≡ type_keys u (key_enter ∷ []))
unfolding type_keys
enter_name-lost u h p ks e f t =
    let after = entered-OnName u h in
    rw (poll_enter u h) (
      rw after.of_field after.flagged,
      entered-password u h p e f,
      keys_lost (entered u h.field h.window) ks after t,
    )
