-- ===== src/Prelude/Streams.antt =====
-- `std::istringstream` read by `>>`, `std::ws` and `getline`, and `find` and `rfind` of a character.
-- A read that meets the end leaves its target empty, as the program's targets start.
use Prim.Native.Nat.{ℕ, zero, suc, ◌≤◌}
use mathlib.Core.Path.{◌≡◌, refl, ap, sym, ◌∙◌}
use mathlib.Core.Bool.{Bool, true, false, ◌&&◌, ◌||◌}
use mathlib.Core.List.{List, [], ◌∷◌, ◌++◌, append_assoc, append-nil}
use mathlib.Core.Option.{Option, none, some}
use native.Mathlib.Omega.{arith}
use booking.Prelude.Tests.{◌==◌, leb, if◌then◌else◌}
use booking.Prelude.Text.{Str, is_empty, c_string, read_buffer}
use booking.Prelude.Lists.{All, length, take-whole}

abbrev pub is_space : ℕ → Bool
is_space c = (c == b' ') || (leb 9 c && leb c 13)

-- `stream >> std::ws`.
unfoldable pub skip_ws : Str → Str
skip_ws [] = []
skip_ws (c ∷ s) = if is_space c then skip_ws s else c ∷ s

-- The text up to the first character of a kind, and the rest from that character on.
unfoldable pub until : (ℕ → Bool) → Str → Str × Str
until p [] = ([], [])
until p (c ∷ s) = let (a, b) = until p s in if p c then ([], c ∷ s) else (c ∷ a, b)

-- `stream >> text`: the word, and the stream behind it.
unfoldable pub word : Str → Str × Str
unfolding skip_ws until
word s = until is_space (skip_ws s)

-- `std::getline(stream >> std::ws, text)`, of the stream that is left.
unfoldable pub line : Str → Str
unfolding skip_ws until
line s = (until (λ c. c == b'\n') (skip_ws s)).0

-- `s.find(c)`: the texts before and behind the first `c`.
unfoldable pub split_first : ℕ → Str → Option (Str × Str)
split_first c [] = none
split_first c (d ∷ s) =
    if d == c
    then some ([], s)
    else elim (split_first c s) [ none ↦ none | some (a, b) ↦ some (d ∷ a, b) ]

-- `s.rfind(c)`: the texts before and behind the last `c`.
unfoldable pub split_last : ℕ → Str → Option (Str × Str)
split_last c [] = none
split_last c (d ∷ s) = elim (split_last c s) [
  | none ↦ if d == c then some ([], s) else none
  | some (a, b) ↦ some (d ∷ a, b)
]

-- The pieces that `std::getline(stream, piece, c)` reads in turn, without the empty ones.
unfoldable pub pieces : ℕ → Str → Str → List Str
pieces c piece [] = if is_empty piece then [] else piece ∷ []
pieces c piece (d ∷ s) =
    let more = pieces c [] s in
    let go = pieces c (piece ++ (d ∷ [])) s in
    if d == c then (if is_empty piece then more else piece ∷ more) else go

-- No character of the kind.
abbrev pub Free : (ℕ → Bool) → Str → Type 0
Free p s = All (λ c. p c ≡ false) s

pub until-append :
    (p : ℕ → Bool) (s : Str) (c : ℕ) (r : Str)
    → Free p s
    → p c ≡ true
    → until p (s ++ (c ∷ r)) ≡ (s, c ∷ r)
unfolding until
until-append p [] c r f h = ground arith
until-append p (d ∷ s) c r f h = ground (arith, until-append p s c r f.1 h)

pub until_all : (p : ℕ → Bool) (s : Str) → Free p s → until p s ≡ (s, [])
unfolding until
until_all p [] f = refl
until_all p (d ∷ s) f = ground (arith, until_all p s f.1)

-- A text that `>>` reads whole.
pub record IsWord (s : Str) : Type 0 where
  pub free : Free is_space s
  pub nonempty : is_empty s ≡ false

-- A text that `std::ws` leaves whole.
abbrev pub starts_free : Str → Bool
starts_free [] = false
starts_free (c ∷ s) = if is_space c then false else true

pub skip_ws-solid : (s r : Str) → starts_free s ≡ true → skip_ws (s ++ r) ≡ s ++ r
unfolding skip_ws
skip_ws-solid [] r h = cc
skip_ws-solid (c ∷ s) r h = ground arith

pub word-starts_free : (s : Str) → IsWord s → starts_free s ≡ true
word-starts_free [] w = absurd (ground (arith, w.nonempty))
word-starts_free (c ∷ s) w = ground (arith, w.free)

pub word-append :
    (s : Str) (c : ℕ) (r : Str) → IsWord s → is_space c ≡ true → word (s ++ (c ∷ r)) ≡ (s, c ∷ r)
unfolding word
word-append s c r w h =
    ground
      (arith, skip_ws-solid s (c ∷ r) (word-starts_free s w), until-append is_space s c r w.free h)

pub word_whole : (s : Str) → IsWord s → word s ≡ (s, [])
unfolding word skip_ws
word_whole [] w = refl
word_whole (c ∷ s) w = ground (arith, w.free, until_all is_space (c ∷ s) w.free)

pub word-skip : (c : ℕ) (s : Str) → is_space c ≡ true → word (c ∷ s) ≡ word s
unfolding word skip_ws
word-skip c s h = ground arith

pub line-skip : (c : ℕ) (s : Str) → is_space c ≡ true → line (c ∷ s) ≡ line s
unfolding line skip_ws
line-skip c s h = ground arith

pub Free-weaken :
    (p q : ℕ → Bool) (s : Str) → ((c : ℕ) → p c ≡ false → q c ≡ false) → Free p s → Free q s
Free-weaken p q [] w f = tt
Free-weaken p q (c ∷ s) w f = (w c f.0, Free-weaken p q s w f.1)

split_last-Free : (c : ℕ) (b : Str) → Free (λ d. d == c) b → split_last c b ≡ none
unfolding split_last
split_last-Free c [] f = refl
split_last-Free c (d ∷ b) f = ground (arith, split_last-Free c b f.1)

-- The last separator is the one that we wrote, if the text behind it has none.
pub split_last-append :
    (c : ℕ) (a b : Str) → Free (λ d. d == c) b → split_last c (a ++ (c ∷ b)) ≡ some (a, b)
unfolding split_last
split_last-append c [] b f = ground (arith, split_last-Free c b f)
split_last-append c (d ∷ a) b f = ground (arith, split_last-append c a b f)

-- The first separator is the one that we wrote, if the text before it has none.
pub split_first-append :
    (c : ℕ) (a b : Str) → Free (λ d. d == c) a → split_first c (a ++ (c ∷ b)) ≡ some (a, b)
unfolding split_first
split_first-append c [] b f = ground arith
split_first-append c (d ∷ a) b f = ground (arith, split_first-append c a b f.1)

pub pieces-append :
    (c : ℕ) (acc r rest : Str)
    → Free (λ d. d == c) r
    → pieces c acc (r ++ rest) ≡ pieces c (acc ++ r) rest
unfolding pieces
pieces-append c acc [] rest f = ap (λ a. pieces c a rest) (sym (append-nil acc))
pieces-append c acc (d ∷ r) rest f =
    ground (arith, pieces-append c (acc ++ (d ∷ [])) r rest f.1, append_assoc acc (d ∷ []) r)

-- A text without a zero byte is what C reads of it.
pub c_string_whole : (s : Str) → All (λ c. (c == 0) ≡ false) s → c_string s ≡ s
unfolding c_string
c_string_whole [] f = refl
c_string_whole (zero ∷ s) f = absurd (ground (arith, f.0))
c_string_whole (suc c ∷ s) f = rw (c_string_whole s f.1)

-- A text without a zero byte that fits into the buffer is read whole.
pub read_buffer-whole : (s : Str) → Free (λ c. c == 0) s → length s ≤ 4095 → read_buffer s ≡ s
unfolding read_buffer
read_buffer-whole s f h = ap c_string (take-whole 4095 s h) ∙ c_string_whole s f
