-- ===== src/Ui/TextInput/Editor.antt =====
-- The editor of two stacks that an input is compared with, and the text that it holds.
use booking.Prelude.{
  ℕ, ◌+◌, ◌≡◌, refl, sym, ap, ◌∙◌, [], ◌∷◌, ◌++◌, length, take, drop, arith, ltb, leb, ◌==◌,
  if◌then◌else◌, ◌&&◌, ◌||◌,
}
use booking.Prelude.Text.{Str}
use booking.Ui.{
  Key, is_printable, character, key_enter, key_backspace, key_dc, key_left, key_right, key_up,
  key_down, key_home, key_end, key_other,
}
use booking.Ui.TextInput.{}

-- The characters before the cursor, the nearest first, and those behind it.
pub record Editor : Type 0 where
  pub before : Str
  pub after : Str

abbrev pub editor : Str → Str → Editor
editor l r = record { before = l; after = r }

-- `before` turned round, in front of a text.
abbrev pub onto : Str → Str → Str
onto [] r = r
onto (c ∷ l) r = onto l (c ∷ r)

abbrev pub whole : Editor → Str
whole e = onto e.before e.after

abbrev pub erase_left : Editor → Editor
erase_left e = elim e.before [ [] ↦ e | c ∷ l ↦ editor l e.after ]

abbrev pub erase_right : Editor → Editor
erase_right e = elim e.after [ [] ↦ e | c ∷ r ↦ editor e.before r ]

abbrev pub go_left : Editor → Editor
go_left e = elim e.before [ [] ↦ e | c ∷ l ↦ editor l (c ∷ e.after) ]

abbrev pub go_right : Editor → Editor
go_right e = elim e.after [ [] ↦ e | c ∷ r ↦ editor (c ∷ e.before) r ]

-- A bound of zero is no bound.
abbrev pub put : ℕ → ℕ → Editor → Editor
put bound c e =
    if ltb 0 bound && leb bound (length (whole e)) then e else editor (c ∷ e.before) e.after

-- What a key means.
abbrev pub press : ℕ → Key → Editor → Editor
press bound (character c) e =
    if c == b'\n'
    then e
    else if (c == 127) || (c == 8)
    then erase_left e
    else if is_printable c
    then put bound c e
    else e
press bound key_backspace e = erase_left e
press bound key_dc e = erase_right e
press bound key_left e = go_left e
press bound key_right e = go_right e
press bound key_home e = editor [] (whole e)
press bound key_end e = editor (onto (whole e) []) []
press bound key_enter e = e
press bound key_up e = e
press bound key_down e = e
press bound key_other e = e

pub length-onto : (l r : Str) → length (onto l r) ≡ length l + length r
length-onto [] r = omega arith
length-onto (c ∷ l) r = omega (arith, length-onto l (c ∷ r))

pub onto-append : (l r s : Str) → onto l (r ++ s) ≡ onto l r ++ s
onto-append [] r s = refl
onto-append (c ∷ l) r s = onto-append l (c ∷ r) s

pub take-append : (l r : Str) → take (length l) (l ++ r) ≡ l
take-append [] r = refl
take-append (c ∷ l) r = ap (◌∷◌ c) (take-append l r)

pub drop_exact : (l r : Str) → drop (length l) (l ++ r) ≡ r
drop_exact [] r = refl
drop_exact (c ∷ l) r = drop_exact l r

pub length-front : (l : Str) → length (onto l []) ≡ length l
length-front l = omega (arith, length-onto l [])

pub take-onto : (l r : Str) → take (length l) (onto l r) ≡ onto l []
take-onto l r =
    ap (take (length l)) (onto-append l [] r)
    ∙ ap (λ n. take n (onto l [] ++ r)) (sym (length-front l))
    ∙ take-append (onto l []) r

pub drop-onto : (l r : Str) → drop (length l) (onto l r) ≡ r
drop-onto l r =
    ap (drop (length l)) (onto-append l [] r)
    ∙ ap (λ n. drop n (onto l [] ++ r)) (sym (length-front l))
    ∙ drop_exact (onto l []) r

pub onto-onto : (l r : Str) → onto (onto l r) [] ≡ onto r l
onto-onto [] r = refl
onto-onto (c ∷ l) r = onto-onto l (c ∷ r)

pub joined : (l r : Str) → take (length l) (onto l r) ++ drop (length l) (onto l r) ≡ onto l r
joined l r = rw (take-onto l r, drop-onto l r) (sym (onto-append l [] r))
