-- ===== src/Terminal/Shown.antt =====
-- The chat on the screen: its last line stands in the window of the chat, below the lines before it.
use booking.Prelude.{
  ℕ, suc, ◌+◌, ◌-◌, ◌≤◌, ◌≡◌, refl, sym, ap, ◌∙◌, List, [], ◌∷◌, ◌++◌, map, length, length-append,
  length-drop, drop-append, take, take-whole, drop, min, arith,
}
use mathlib.Core.List.{Memᴰ}
use mathlib.Core.List.Memᴰ as Within
use mathlib.Core.Path.{subst}
use booking.Prelude.Text.{Str}
use booking.Ui.Paint.{mvwprintw}
use booking.Terminal.{Frame}
use booking.Terminal.Keys.{shown_messages}
use booking.Terminal.Draw.{chat_rows, draw_chat}

-- The last of some rows.
chat_rows-last :
    (y : ℕ) (lines : List Str) (line : Str)
    → Memᴰ (mvwprintw (y + length lines) 1 line) (chat_rows y (lines ++ (line ∷ [])))
unfolding chat_rows
chat_rows-last y [] line =
    Memᴰ.head (ap (λ n. mvwprintw n 1 line) (let p : y + 0 ≡ y = omega arith in p))
chat_rows-last y (l ∷ lines) line = Memᴰ.tail (
    Within.cast
      (ap (λ n. mvwprintw n 1 line)
        (let p : y + suc (length lines) ≡ suc y + length lines = omega arith in p))
      (chat_rows-last (suc y) lines line))

map-append_one :
    (f : Str → Str) (xs : List Str) (x : Str) → map f (xs ++ (x ∷ [])) ≡ map f xs ++ (f x ∷ [])
map-append_one f [] x = refl
map-append_one f (y ∷ xs) x = ap (◌∷◌ (f y)) (map-append_one f xs x)

length-map : (f : Str → Str) (xs : List Str) → length (map f xs) ≡ length xs
length-map f [] = refl
length-map f (x ∷ xs) = ap suc (length-map f xs)

-- The lines that are shown before the last one.
abbrev earlier : ℕ → List Str → List Str
earlier height messages = drop (suc (length messages) - (height - 2)) messages

shown_messages-last :
    (height width : ℕ) (messages : List Str) (line : Str)
    → 3 ≤ height
    → shown_messages height width (messages ++ (line ∷ []))
      ≡ map (take (width - 2)) (earlier height messages) ++ (take (width - 2) line ∷ [])
unfolding shown_messages
shown_messages-last height width messages line h =
    ap (λ n. shown_from (n - (height - 2))) (length-append messages (line ∷ []) ∙ one)
    ∙ (ap (λ ls. map (take (width - 2)) (take (height - 2) ls))
          (drop-append (suc (length messages) - (height - 2)) messages (line ∷ [])
            (omega (arith, h)))
        ∙ (ap (map (take (width - 2)))
              (take-whole (height - 2) (earlier height messages ++ (line ∷ [])) fits)
            ∙ map-append_one (take (width - 2)) (earlier height messages) line))
  where
    shown_from : ℕ → List Str
    shown_from n = map (take (width - 2)) (take (height - 2) (drop n (messages ++ (line ∷ []))))

    one : length messages + 1 ≡ suc (length messages)
    one = omega arith

    fits : length (earlier height messages ++ (line ∷ [])) ≤ height - 2
    fits = omega (
      arith,
      h,
      length-append (earlier height messages) (line ∷ []),
      length-drop (suc (length messages) - (height - 2)) messages,
    )

-- A window of at least three rows shows the last line of the chat: in the row below those of the
-- lines before it, of which there are as many as fit, cut to the columns between the borders.
pub draw_chat-last :
    (room : Str) (messages : List Str) (line : Str) (f : Frame)
    → 3 ≤ f.height
    → Memᴰ
        (mvwprintw (1 + min (length messages) (f.height - 3)) 1 (take (f.width - 2) line))
        (draw_chat room (messages ++ (line ∷ [])) f)
unfolding draw_chat
draw_chat-last room messages line f h =
    let before = map (take (f.width - 2)) (earlier f.height messages) in
    let row : 1 + min (length messages) (f.height - 3) ≡ 1 + length before = omega (
      arith,
      h,
      length-map (take (f.width - 2)) (earlier f.height messages),
      length-drop (suc (length messages) - (f.height - 2)) messages,
    ) in
    Memᴰ.tail (
      Memᴰ.tail (
        Within.append_right _ (
          Within.append_left _ (
            Within.cast (ap (λ n. mvwprintw n 1 (take (f.width - 2) line)) row) (
              subst
                (λ ls.
                  Memᴰ (mvwprintw (1 + length before) 1 (take (f.width - 2) line)) (chat_rows 1 ls))
                (sym (shown_messages-last f.height f.width messages line h))
                (chat_rows-last 1 before (take (f.width - 2) line)))))))
