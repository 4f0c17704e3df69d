-- ===== src/Ui.antt =====
-- The terminal widgets (lib/ui): what each keeps, how it answers keys, and what it asks ncurses to
-- draw.
pub mod Paint
pub mod TextInput
pub mod Menu
pub mod Wrap
pub mod Label
pub mod MessageBox
pub mod ListBox
pub mod Window
mod Tests
use Prim.Native.Nat.{◌^◌}
use booking.Prelude.{ℕ, ◌+◌, ◌-◌, ◌%◌, leb, ltb, Bool, true, false, ◌&&◌, ◌==◌, not, if◌then◌else◌}

-- `Rect`, for bounds within the screen.
pub record Rect : Type 0 where
  pub left : ℕ
  pub top : ℕ
  pub width : ℕ
  pub height : ℕ

-- What `getch` answers: a character, or one of the keys that ncurses tells apart.
pub data Key : Type 0 where
  character : ℕ → Key
  key_enter key_backspace key_dc key_left key_right key_up key_down key_home key_end : Key
  key_other : Key

pub data EventType : Type 0 where
  key_press mouse_click mouse_move focus_in focus_out resize : EventType

pub record Event : Type 0 where
  pub type : EventType
  pub key : Key

abbrev pub is_key_press : Event → Bool
is_key_press e = elim e.type [
  | key_press ↦ true
  | mouse_click ↦ false
  | mouse_move ↦ false
  | focus_in ↦ false
  | focus_out ↦ false
  | resize ↦ false
]

-- The part of a widget that its base class keeps.
pub record Widget : Type 0 where
  pub bounds : Rect
  pub visible : Bool
  pub focusable : Bool
  pub focused : Bool

abbrev pub same_flag : Bool → Bool → Bool
same_flag true b = b
same_flag false b = not b

unfoldable pub set_focus : Widget → Bool → Widget
set_focus w focus =
    if not (same_flag w.focused focus) && w.focusable then record w { focused = focus } else w

-- `static_cast<size_t>` of a difference, and differences of `size_t`.
abbrev pub sub_size : ℕ → ℕ → ℕ
sub_size a b = (a + 2 ^ 64 - b) % 2 ^ 64

-- `key >= 32 && key < 127`.
abbrev pub is_printable : ℕ → Bool
is_printable c = leb 32 c && ltb c 127
