-- ===== src/Ui/TextInput/Visible.antt =====
-- What is shown of the text, under every sequence of keys.
use booking.Prelude.{
  ℕ, zero, suc, ◌+◌, ◌-◌, ◌≤◌, ◌<◌, ◌≡◌, refl, ap, inl, inr, Bool, true, false, List, [], ◌∷◌,
  Option, none, some, length, take, drop, replicate, length-take, arith, ltb, leb, ◌==◌, ltb→lt,
  Bool-cases, Option-cases, if◌then◌else◌, ◌&&◌, ◌||◌,
}
use mathlib.Core.Path.{subst}
use Prim.Native.Nat.{◌^◌}
use booking.Prelude.Text.{Str}
use booking.Ui.{
  Event, Key, is_printable, character, key_enter, key_backspace, key_dc, key_left, key_right,
  key_up, key_down, key_home, key_end, key_other,
}
use booking.Ui.TextInput.{
  TextInput, Call, insert_char, delete_char_before, delete_char_at, move_cursor_left, follow_cursor,
  move_cursor_right, move_cursor_home, move_cursor_end, get_display_text, get_visible_text,
  handle_key, handle_event,
}
use booking.Ui.TextInput.Scroll.{
  InView, Room, inserted, removed, insert-InView, before-InView, at-InView, left-InView,
  right-InView, home-InView, end-InView,
}

-- After a key: the view is kept, and the text has grown by one character at most.
record Kept (w : ℕ) (t t' : TextInput) : Type 0 where
  view : InView w t'
  grows : length t'.text ≤ suc (length t.text)

-- The same of a key's outcome, if it was handled.
abbrev KeptBy : ℕ → TextInput → Option (TextInput × List Call) → Type 0
KeptBy w t none = Unit
KeptBy w t (some (t', calls)) = Kept w t t'

module _ (w : ℕ) (t : TextInput) (v : InView w t) (r : Room w t) where
  follow-text : (u : TextInput) → (follow_cursor u).text ≡ u.text
  unfolding follow_cursor
  follow-text u = ground arith

  insert-Kept : (c : ℕ) → Kept w t (insert_char t c).0
  insert-Kept c = record {
    view = insert-InView w t v r c;
    grows = elim (Bool-cases (ltb 0 t.max_length && leb t.max_length (length t.text))) [
      | inl h ↦ unfold insert_char in rw h (omega arith)
      | inr h ↦ unfold insert_char in rw (h, follow-text _) (omega (arith, inserted w t v r c))
    ];
  }

  before-Kept : Kept w t (delete_char_before t).0
  before-Kept = record {
    view = before-InView w t v r;
    grows = elim (Bool-cases (ltb 0 t.cursor_pos)) [
      | inr h ↦ unfold delete_char_before in rw h (omega arith)
      | inl h ↦
          unfold delete_char_before in
          rw h
            (omega (arith, removed w t v r (t.cursor_pos - 1) t.cursor_pos (omega arith) v.in_text))
    ];
  }

  at-Kept : Kept w t (delete_char_at t).0
  at-Kept = record {
    view = at-InView w t v r;
    grows = elim (Bool-cases (ltb t.cursor_pos (length t.text))) [
      | inr h ↦ unfold delete_char_at in rw h (omega arith)
      | inl h ↦
          let p = ltb→lt t.cursor_pos (length t.text) h in
          unfold delete_char_at in
          rw h (
            omega (
              arith,
              removed w t v r t.cursor_pos (t.cursor_pos + 1) (omega arith) (omega (arith, p)),
            ))
    ];
  }

  left-text : (move_cursor_left t).text ≡ t.text
  unfolding move_cursor_left
  left-text = ground arith

  right-text : (move_cursor_right t).text ≡ t.text
  unfolding move_cursor_right follow_cursor
  right-text = ground arith

  if-KeptBy :
      (b : Bool) (x y : Option (TextInput × List Call))
      → KeptBy w t x
      → KeptBy w t y
      → KeptBy w t (if b then x else y)
  if-KeptBy true x y h k = h
  if-KeptBy false x y h k = k

  stays : Kept w t t
  stays = record { view = v; grows = omega arith }

  handle_key-Kept : (k : Key) → KeptBy w t (handle_key t k)
  unfolding handle_key
  handle_key-Kept (character c) = if-KeptBy (c == b'\n') (some (t, _)) _ stays (
      if-KeptBy ((c == 127) || (c == 8)) (some (delete_char_before t)) _ before-Kept
        (if-KeptBy (is_printable c) (some (insert_char t c)) none (insert-Kept c) tt))
  handle_key-Kept key_enter = stays
  handle_key-Kept key_backspace = before-Kept
  handle_key-Kept key_dc = at-Kept
  handle_key-Kept key_left = record {
    view = left-InView w t v r;
    grows = rw left-text (omega arith);
  }
  handle_key-Kept key_right = record {
    view = right-InView w t v r;
    grows = rw right-text (omega arith);
  }
  handle_key-Kept key_home = record {
    view = home-InView w t v r;
    grows = unfold move_cursor_home in omega arith;
  }
  handle_key-Kept key_end = record {
    view = end-InView w t v r;
    grows = unfold move_cursor_end in omega arith;
  }
  handle_key-Kept key_up = tt
  handle_key-Kept key_down = tt
  handle_key-Kept key_other = tt

  handle_event-Kept : (e : Event) → KeptBy w t (handle_event t e)
  unfolding handle_event
  handle_event-Kept e = if-KeptBy _ none (handle_key t e.key) tt (handle_key-Kept e.key)

-- The input after an event, which a key that is not handled leaves as it was, and after several.
unfoldable pub after_event : TextInput → Event → TextInput
after_event t e = elim (handle_event t e) [ none ↦ t | some (t', calls) ↦ t' ]

unfoldable pub after_events : TextInput → List Event → TextInput
unfolding after_event
after_events t [] = t
after_events t (e ∷ es) = after_events (after_event t e) es

after_event-Kept :
    (w : ℕ) (t : TextInput) (e : Event) → InView w t → Room w t → Kept w t (after_event t e)
unfolding after_event
after_event-Kept w t e v r = elim (Option-cases (handle_event t e)) [
  | inl h ↦ rw (after_event, h) (record { view = v; grows = omega arith })
  | inr ((t', calls), h) ↦ rw (after_event, h) (subst (KeptBy w t) h (handle_event-Kept w t v r e))
]

after_events-InView :
    (w : ℕ) (t : TextInput) (es : List Event)
    → InView w t
    → 1 ≤ w
    → w < 2 ^ 31
    → length t.text + length es < 2 ^ 63
    → InView w (after_events t es)
unfolding after_events
after_events-InView w t [] v p q s = v
after_events-InView w t (e ∷ es) v p q s =
    let room : Room w t = record { some_width = p; narrow = q; short = omega (arith, s) } in
    let kept = after_event-Kept w t e v room in
    after_events-InView w (after_event t e) es kept.view p q (omega (arith, kept.grows, s))

length-replicate : (n c : ℕ) → length (replicate n c) ≡ n
length-replicate zero c = refl
length-replicate (suc n) c = ap suc (length-replicate n c)

length-get_display_text : (t : TextInput) → length (get_display_text t) ≡ length t.text
unfolding get_display_text
length-get_display_text t = ground (arith, length-replicate (length t.text) b'*')

shown :
    (w : ℕ) (t : TextInput)
    → InView w t
    → (s : Str) × (get_visible_text t ≡ some s) × (length s ≤ w)
unfolding get_visible_text
shown w t v =
    let d = get_display_text t in
    elim (Bool-cases (leb (length d) w)) [
      | inl h ↦ (d, rw (get_visible_text, v.width, h) refl, ground (arith, h))
      | inr h ↦
          let far : ltb (length d) t.scroll_offset ≡ false =
            ground (arith, length-get_display_text t, v.in_text, v.not_left) in
          (
            take w (drop t.scroll_offset d),
            rw (get_visible_text, v.width, h, far) refl,
            omega (arith, length-take w (drop t.scroll_offset d)),
          )
    ]

-- From an input whose cursor is in view, whatever keys come: the cursor stays within the text and
-- within the visible columns or one behind them, and drawing never takes a part of the text behind
-- its end, which would throw, nor shows more than the visible columns. The visible width must be at
-- least one column and below 2^31, and the text and the keys fewer than 2^63.
pub after_events-shown :
    (w : ℕ) (t : TextInput) (es : List Event)
    → InView w t
    → 1 ≤ w
    → w < 2 ^ 31
    → length t.text + length es < 2 ^ 63
    → InView w (after_events t es)
      × ((s : Str) × (get_visible_text (after_events t es) ≡ some s) × (length s ≤ w))
after_events-shown w t es v p q s =
    let v' = after_events-InView w t es v p q s in (v', shown w (after_events t es) v')
