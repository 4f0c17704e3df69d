-- ===== src/Ui/Wrap.antt =====
-- Words packed into lines: the loop that `wrap_text` of lib/ui/src/MessageBox.cpp and of
-- lib/ui/src/Label.cpp share, and `std::istringstream` read word by word and line by line.
pub mod Words
use booking.Prelude.{
  ℕ, ◌+◌, Bool, true, false, List, [], ◌∷◌, ◌++◌, length, leb, ◌==◌, if◌then◌else◌,
}
use booking.Prelude.Text.{Str, is_empty}
use booking.Prelude.Streams.{is_space}

-- `while (stream >> word)`; the first argument is the word so far.
unfoldable pub words : Str → Str → List Str
words word [] = if is_empty word then [] else word ∷ []
words word (c ∷ s) =
    let more = words [] s in
    let go = words (word ++ (c ∷ [])) s in
    if is_space c then (if is_empty word then more else word ∷ more) else go

-- `while (std::getline(stream, line))`; a newline at the end starts no line.
unfoldable pub lines : Str → Str → List Str
lines line [] = if is_empty line then [] else line ∷ []
lines line (c ∷ s) =
    let more = lines [] s in
    let go = lines (line ++ (c ∷ [])) s in if c == b'\n' then line ∷ more else go

-- The loop over the words, from a current line.
unfoldable pub pack : ℕ → Str → List Str → List Str
pack max_width current_line [] = if is_empty current_line then [] else current_line ∷ []
pack max_width current_line (word ∷ ws) =
    let first = pack max_width word ws in
    let longer = pack max_width (current_line ++ (b' ' ∷ word)) ws in
    if is_empty current_line
    then first
    else if leb (length current_line + 1 + length word) max_width
    then longer
    else current_line ∷ first
