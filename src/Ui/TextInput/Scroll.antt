-- ===== src/Ui/TextInput/Scroll.antt =====
-- The cursor and the scroll position under every sequence of keys.
use booking.Prelude.{
  ℕ, suc, ◌+◌, ◌-◌, ◌≤◌, ◌<◌, ◌≡◌, refl, ◌∙◌, inl, inr, true, false, ◌∷◌, ◌++◌, length, take, drop,
  length-append, length-take, length-drop, arith, ltb, leb, ltb→lt, Bool-cases, ◌&&◌,
}
use Prim.Native.Nat.{◌^◌}
use booking.Prelude.Text.{Str}
use booking.Ui.{sub_size}
use booking.Ui.TextInput.{
  TextInput, visible_width, follow_cursor, insert_char, delete_char_before, delete_char_at,
  move_cursor_left, move_cursor_right, move_cursor_home, move_cursor_end,
}

-- The cursor is within the text, and at most one column behind the visible part.
pub record InView (w : ℕ) (t : TextInput) : Type 0 where
  pub width : visible_width t ≡ w
  pub in_text : t.cursor_pos ≤ length t.text
  pub not_left : t.scroll_offset ≤ t.cursor_pos
  pub not_right : t.cursor_pos ≤ t.scroll_offset + w

-- The width counts at least one column, and no position comes near the end of `size_t`.
pub record Room (w : ℕ) (t : TextInput) : Type 0 where
  pub some_width : 1 ≤ w
  pub narrow : w < 2 ^ 31
  pub short : length t.text < 2 ^ 63

module _ (w : ℕ) where
  sub_size-exact : (a b : ℕ) → b ≤ a → a < 2 ^ 64 → sub_size a b ≡ a - b
  sub_size-exact a b h k = omega arith

  leb→le : (a b : ℕ) → leb a b ≡ true → a ≤ b
  leb→le a b h = ground (arith, h)

  not_leb→lt : (a b : ℕ) → leb a b ≡ false → b < a
  not_leb→lt a b h = ground (arith, h)

  -- The other fields do not bear on the width.
  width-edited :
      (t : TextInput) (x : Str) (c s : ℕ)
      → visible_width (record t { text = x; cursor_pos = c; scroll_offset = s }) ≡ visible_width t
  unfolding visible_width
  width-edited t x c s = refl

  follow-InView :
      (t : TextInput)
      → visible_width t ≡ w
      → 1 ≤ w
      → t.cursor_pos ≤ length t.text
      → length t.text < 2 ^ 64 - 1
      → t.scroll_offset ≤ t.cursor_pos
      → t.cursor_pos ≤ t.scroll_offset + w + 1
      → InView w (follow_cursor t)
  unfolding follow_cursor
  follow-InView t e p c s l r =
      let far = sub_size-exact t.cursor_pos t.scroll_offset l (omega (arith, c, s)) in
      elim (Bool-cases (leb w (sub_size t.cursor_pos t.scroll_offset))) [
        | inl h ↦
            let d : w ≤ t.cursor_pos - t.scroll_offset = leb→le _ _ (rw (← far) h) in
            let m = sub_size-exact t.cursor_pos w (omega (arith, d)) (omega (arith, c, s)) in
            rw (follow_cursor, e, h)
              (record {
                width = width-edited t _ _ _ ∙ e;
                in_text = c;
                not_left = omega (arith, m, d, p, c, s);
                not_right = omega (arith, m, d, p, c, s);
              })
        | inr h ↦
            let d = not_leb→lt w _ h in
            rw (follow_cursor, e, h)
              (record { width = e; in_text = c; not_left = l; not_right = omega (arith, far, d) })
      ]

  module _ (t : TextInput) (v : InView w t) (r : Room w t) where
    -- The length of a text with one more character at the cursor, and with one less.
    pub inserted :
        (c : ℕ)
        → length (take t.cursor_pos t.text ++ (c ∷ drop t.cursor_pos t.text)) ≡ suc (length t.text)
    inserted c = omega (
      arith,
      length-append (take t.cursor_pos t.text) (c ∷ drop t.cursor_pos t.text),
      length-take t.cursor_pos t.text,
      length-drop t.cursor_pos t.text,
      v.in_text,
    )

    pub removed :
        (p q : ℕ)
        → p ≤ t.cursor_pos
        → q ≤ length t.text
        → length (take p t.text ++ drop q t.text) ≡ p + (length t.text - q)
    removed p q h k = omega (
      arith,
      length-append (take p t.text) (drop q t.text),
      length-take p t.text,
      length-drop q t.text,
      v.in_text,
      h,
    )

    pub insert-InView : (c : ℕ) → InView w (insert_char t c).0
    unfolding insert_char
    insert-InView c = elim (Bool-cases (ltb 0 t.max_length && leb t.max_length (length t.text))) [
      | inl h ↦ rw (insert_char, h) v
      | inr h ↦
          rw (insert_char, h)
            (follow-InView _ (width-edited t _ _ _ ∙ v.width) r.some_width
              (omega (arith, inserted c, v.in_text)) (omega (arith, inserted c, r.short))
              (omega (arith, v.not_left)) (omega (arith, v.not_right)))
    ]

    pub before-InView : InView w (delete_char_before t).0
    unfolding delete_char_before
    before-InView = elim (Bool-cases (ltb 0 t.cursor_pos)) [
      | inr h ↦ rw (delete_char_before, h) v
      | inl h ↦
          let p = ltb→lt 0 t.cursor_pos h in
          let n = removed (t.cursor_pos - 1) t.cursor_pos (omega arith) v.in_text in
          rw (delete_char_before, h)
            (record {
              width = width-edited t _ _ _ ∙ v.width;
              in_text = omega (arith, n);
              not_left = ground (arith, v.not_left, v.not_right, p);
              not_right = ground (arith, v.not_left, v.not_right, p);
            })
    ]

    pub at-InView : InView w (delete_char_at t).0
    unfolding delete_char_at
    at-InView = elim (Bool-cases (ltb t.cursor_pos (length t.text))) [
      | inr h ↦ rw (delete_char_at, h) v
      | inl h ↦
          let p = ltb→lt t.cursor_pos (length t.text) h in
          let n = removed t.cursor_pos (t.cursor_pos + 1) (omega arith) (omega (arith, p)) in
          rw (delete_char_at, h)
            (record {
              width = width-edited t _ _ _ ∙ v.width;
              in_text = omega (arith, n, p);
              not_left = v.not_left;
              not_right = v.not_right;
            })
    ]

    pub left-InView : InView w (move_cursor_left t)
    unfolding move_cursor_left
    left-InView = elim (Bool-cases (ltb 0 t.cursor_pos)) [
      | inr h ↦ rw (move_cursor_left, h) v
      | inl h ↦
          let p = ltb→lt 0 t.cursor_pos h in
          rw (move_cursor_left, h)
            (record {
              width = width-edited t _ _ _ ∙ v.width;
              in_text = omega (arith, v.in_text);
              not_left = ground (arith, v.not_left, v.not_right, p);
              not_right = ground (arith, v.not_left, v.not_right, p);
            })
    ]

    pub right-InView : InView w (move_cursor_right t)
    unfolding move_cursor_right
    right-InView = elim (Bool-cases (ltb t.cursor_pos (length t.text))) [
      | inr h ↦ rw (move_cursor_right, h) v
      | inl h ↦
          let p = ltb→lt t.cursor_pos (length t.text) h in
          rw (move_cursor_right, h)
            (follow-InView (record t { cursor_pos = t.cursor_pos + 1 })
              (width-edited t _ _ _ ∙ v.width) r.some_width (omega (arith, p))
              (omega (arith, r.short)) (omega (arith, v.not_left)) (omega (arith, v.not_right)))
    ]

    pub home-InView : InView w (move_cursor_home t)
    unfolding move_cursor_home
    home-InView = record {
      width = width-edited t _ _ _ ∙ v.width;
      in_text = omega arith;
      not_left = omega arith;
      not_right = omega arith;
    }

    pub end-InView : InView w (move_cursor_end t)
    unfolding move_cursor_end
    end-InView = elim (Bool-cases (ltb w (length t.text))) [
      | inr h ↦
          let p : length t.text ≤ w = ground (arith, h) in
          rw (move_cursor_end, v.width, h)
            (record {
              width = width-edited t _ _ _ ∙ v.width;
              in_text = omega arith;
              not_left = omega (arith, v.not_left, v.in_text);
              not_right = omega (arith, p);
            })
      | inl h ↦
          let p = ltb→lt w (length t.text) h in
          let m = sub_size-exact (length t.text) w (omega (arith, p)) (omega (arith, r.short)) in
          rw (move_cursor_end, v.width, h)
            (record {
              width = width-edited t _ _ _ ∙ v.width;
              in_text = omega arith;
              not_left = omega (arith, m);
              not_right = omega (arith, m, p);
            })
    ]
