-- ===== src/Ui/MessageBox/Wrapped.antt =====
-- What the lines of a message box keep of its message.
use booking.Prelude.{ℕ, ◌≡◌, All, []}
use booking.Prelude.Text.{Str}
use booking.Ui.Wrap.{words}
use booking.Ui.Wrap.Words.{spaced, Fits, pack_lem}
use booking.Ui.MessageBox.{wrap_text}

-- Wrapping loses no word, adds none and keeps their order: with spaces for the ends of lines, the
-- lines read as the words of the text do. And a line is longer than the width only where it is a
-- single word of the text.
pub wrap_text-keeps :
    (text : Str) (max_width : ℕ)
    → (spaced (wrap_text text max_width) ≡ spaced (words [] text))
      × All (Fits max_width (words [] text)) (wrap_text text max_width)
unfolding wrap_text
wrap_text-keeps text max_width = pack_lem max_width text
