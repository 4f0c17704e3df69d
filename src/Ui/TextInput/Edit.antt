-- ===== src/Ui/TextInput/Edit.antt =====
-- The text and the cursor of an input against an editor of two stacks.
use booking.Prelude.{
  ℕ, suc, ◌+◌, ◌-◌, ◌≡◌, refl, sym, ap, ◌∙◌, inl, inr, Bool, true, false, List, [], ◌∷◌, Option,
  none, some, length, take, drop, replicate, arith, ltb, leb, ◌==◌, Bool-cases, if◌then◌else◌, ◌&&◌,
  ◌||◌,
}
use mathlib.Core.Path.{subst}
use booking.Prelude.Text.{Str, is_empty}
use booking.Ui.{
  Key, is_printable, character, key_enter, key_backspace, key_dc, key_left, key_right, key_up,
  key_down, key_home, key_end, key_other,
}
use booking.Ui.TextInput.{
  TextInput, Call, submitted, follow_cursor, visible_width, insert_char, delete_char_before,
  delete_char_at, move_cursor_left, move_cursor_right, move_cursor_home, move_cursor_end,
  get_display_text, get_visible_text, handle_key,
}
use booking.Ui.TextInput.Editor.{
  Editor, editor, onto, whole, erase_left, erase_right, go_left, go_right, put, press, length-onto,
  onto-append, length-front, take-onto, drop-onto, onto-onto,
}

-- The input holds the editor's text with the editor's cursor.
pub record Holds (e : Editor) (t : TextInput) : Type 0 where
  pub text : t.text ≡ whole e
  pub cursor : t.cursor_pos ≡ length e.before

-- The input with the editor's text and cursor.
abbrev holding : TextInput → Str → Str → TextInput
holding t l r = record t { text = onto l r; cursor_pos = length l }

pred_suc : (n : ℕ) → suc n - 1 ≡ n
pred_suc n = omega arith

some_left : (n : ℕ) → ltb 0 (suc n) ≡ true
some_left n = ground arith

module _ (t : TextInput) where
  erase_left-Holds :
      (l r : Str) → Holds (erase_left (editor l r)) (delete_char_before (holding t l r)).0
  unfolding delete_char_before
  erase_left-Holds [] r = record { text = refl; cursor = refl }
  erase_left-Holds (c ∷ l) r =
      rw
        (
          delete_char_before,
          some_left (length l),
          pred_suc (length l),
          take-onto l (c ∷ r),
          drop-onto (c ∷ l) r,
        )
        (record { text = sym (onto-append l [] r); cursor = refl })

  at_end : (l : Str) → ltb (length l) (length (onto l [])) ≡ false
  at_end l = ground (arith, length-onto l [])

  inside : (l : Str) (c : ℕ) (r : Str) → ltb (length l) (length (onto l (c ∷ r))) ≡ true
  inside l c r = ground (arith, length-onto l (c ∷ r))

  drop_one : (l : Str) (c : ℕ) (r : Str) → drop (length l + 1) (onto l (c ∷ r)) ≡ r
  drop_one l c r =
      ap (λ n. drop n (onto (c ∷ l) r)) (let e : length l + 1 ≡ suc (length l) = omega arith in e)
      ∙ drop-onto (c ∷ l) r

  erase_right-Holds :
      (l r : Str) → Holds (erase_right (editor l r)) (delete_char_at (holding t l r)).0
  unfolding delete_char_at
  erase_right-Holds l [] = rw (delete_char_at, at_end l) (record { text = refl; cursor = refl })
  erase_right-Holds l (c ∷ r) =
      rw (delete_char_at, inside l c r)
        (record {
          text = rw (take-onto l (c ∷ r), drop_one l c r) (sym (onto-append l [] r));
          cursor = refl;
        })

  go_left-Holds : (l r : Str) → Holds (go_left (editor l r)) (move_cursor_left (holding t l r))
  unfolding move_cursor_left
  go_left-Holds [] r = record { text = refl; cursor = refl }
  go_left-Holds (c ∷ l) r =
      rw (move_cursor_left, some_left (length l), pred_suc (length l))
        (record { text = refl; cursor = refl })

  follow-Holds : (e : Editor) (u : TextInput) → Holds e u → Holds e (follow_cursor u)
  unfolding follow_cursor
  follow-Holds e u h = record { text = ground (arith, h.text); cursor = ground (arith, h.cursor) }

  go_right-Holds : (l r : Str) → Holds (go_right (editor l r)) (move_cursor_right (holding t l r))
  unfolding move_cursor_right
  go_right-Holds l [] = rw (move_cursor_right, at_end l) (record { text = refl; cursor = refl })
  go_right-Holds l (c ∷ r) =
      rw (move_cursor_right, inside l c r)
        (follow-Holds (editor (c ∷ l) r) _ (record { text = refl; cursor = omega arith }))

  put-Holds :
      (l r : Str) (c : ℕ)
      → Holds (put t.max_length c (editor l r)) (insert_char (holding t l r) c).0
  unfolding insert_char
  put-Holds l r c = elim (Bool-cases (ltb 0 t.max_length && leb t.max_length (length (onto l r)))) [
    | inl h ↦ rw (insert_char, h) (record { text = refl; cursor = refl })
    | inr h ↦
        rw (insert_char, h)
          (follow-Holds (editor (c ∷ l) r) _ (record {
            text = rw (take-onto l r, drop-onto l r) (sym (onto-append l [] (c ∷ r)));
            cursor = omega arith;
          }))
  ]

  end-Holds : (l r : Str) → Holds (editor (onto (onto l r) []) []) (move_cursor_end (holding t l r))
  unfolding move_cursor_end
  end-Holds l r = record {
    text = sym (onto-onto (onto l r) []);
    cursor = sym (length-front (onto l r));
  }

-- The input after a key, which it need not handle.
unfoldable pub after_key : TextInput → Key → TextInput
after_key t k = elim (handle_key t k) [ none ↦ t | some (t', calls) ↦ t' ]

abbrev outcome : TextInput → Option (TextInput × List Call) → TextInput
outcome t o = elim o [ none ↦ t | some (t', calls) ↦ t' ]

module _ (t : TextInput) (l r : Str) where
  abbrev held : TextInput
  held = holding t l r

  idle : Holds (editor l r) held
  idle = record { text = refl; cursor = refl }

  Holds-if :
      (b : Bool) (e e' : Editor) (x y : Option (TextInput × List Call))
      → Holds e (outcome held x)
      → Holds e' (outcome held y)
      → Holds (if b then e else e') (outcome held (if b then x else y))
  Holds-if true e e' x y h k = h
  Holds-if false e e' x y h k = k

  press-holding :
      (k : Key) → Holds (press t.max_length k (editor l r)) (outcome held (handle_key held k))
  unfolding handle_key
  press-holding (character c) =
      let e = editor l r in
      Holds-if (c == b'\n') e _ (some (held, submitted held.text ∷ [])) _ idle (
        Holds-if ((c == 127) || (c == 8)) (erase_left e) _ (some (delete_char_before held)) _
          (erase_left-Holds t l r)
          (Holds-if (is_printable c) (put t.max_length c e) e (some (insert_char held c)) none
            (put-Holds t l r c) idle))
  press-holding key_enter = idle
  press-holding key_backspace = erase_left-Holds t l r
  press-holding key_dc = erase_right-Holds t l r
  press-holding key_left = go_left-Holds t l r
  press-holding key_right = go_right-Holds t l r
  press-holding key_home = unfold move_cursor_home in record { text = refl; cursor = refl }
  press-holding key_end = end-Holds t l r
  press-holding key_up = idle
  press-holding key_down = idle
  press-holding key_other = idle

-- The input is an editor: if it holds an editor's text and cursor, then after any key it holds what
-- the key makes of the editor. A character goes in at the cursor, unless the text is full, the
-- erasing keys take the character before or behind it, the arrows carry one character over it, and
-- the keys for the ends carry all; every other key changes neither text nor cursor.
pub press-Holds :
    (e : Editor) (t : TextInput) (k : Key)
    → Holds e t
    → Holds (press t.max_length k e) (after_key t k)
unfolding after_key
press-Holds e t k h =
    subst (λ u. Holds (press t.max_length k e) (outcome u (handle_key u k)))
      (λ i. record t { text = sym h.text i; cursor_pos = sym h.cursor i })
      (press-holding t e.before e.after k)

empty_stars : (s : Str) → is_empty s ≡ true → s ≡ replicate (length s) b'*'
empty_stars [] e = refl
empty_stars (c ∷ s) e = absurd (ground (arith, e))

stars :
    (t : TextInput) → t.password_mode ≡ true → get_display_text t ≡ replicate (length t.text) b'*'
unfolding get_display_text
stars t p = elim (Bool-cases (is_empty t.text)) [
  | inl e ↦ rw (p, e) (empty_stars t.text e)
  | inr e ↦ rw (p, e) refl
]

-- A password's characters are not drawn: in password mode what is shown depends on nothing of the
-- text but its length.
pub password_hidden :
    (t : TextInput) (text : Str)
    → t.password_mode ≡ true
    → length text ≡ length t.text
    → get_visible_text (record t { text = text }) ≡ get_visible_text t
unfolding get_visible_text visible_width
password_hidden t text p e =
    ap
      (λ (d : Str).
        if leb (length d) (visible_width t)
        then some d
        else if ltb (length d) t.scroll_offset
        then none
        else some (take (visible_width t) (drop t.scroll_offset d)))
      (stars (record t { text = text }) p ∙ ap (λ n. replicate n b'*') e ∙ sym (stars t p))
