-- ===== src/Ui/Wrap/Words.antt =====
-- What packing keeps of the words, and how long its lines are.
use booking.Prelude.{
  ℕ, ◌+◌, ◌≤◌, ◌≡◌, refl, ap, ◌∙◌, ◌⊎◌, inl, inr, true, false, List, [], ◌∷◌, ◌++◌, append_assoc,
  All, length, length-append, any_of, arith, leb, Bool-cases,
}
use booking.Prelude.Text.{Str, is_empty, str_eq, str_eq_refl}
use booking.Prelude.Streams.{is_space}
use booking.Ui.Wrap.{words, pack}

-- The texts with a space between them.
abbrev pub spaced : List Str → Str
spaced [] = []
spaced (w ∷ []) = w
spaced (w ∷ v ∷ ws) = w ++ (b' ' ∷ spaced (v ∷ ws))

abbrev pub Filled : List Str → Type 0
Filled = All (λ (w : Str). is_empty w ≡ false)

words-Filled : (w s : Str) → Filled (words w s)
unfolding words
words-Filled w [] = elim (Bool-cases (is_empty w)) [ inl e ↦ rw e tt | inr e ↦ rw e (e, tt) ]
words-Filled w (c ∷ s) = elim (Bool-cases (is_space c)) [
  | inr h ↦ rw h (words-Filled (w ++ (c ∷ [])) s)
  | inl h ↦ elim (Bool-cases (is_empty w)) [
    | inl e ↦ rw (h, e) (words-Filled [] s)
    | inr e ↦ rw (h, e) (e, words-Filled [] s)
  ]
]

filled_join : (l w : Str) → is_empty (l ++ (b' ' ∷ w)) ≡ false
filled_join [] w = refl
filled_join (c ∷ l) w = refl

spaced-join : (l w : Str) (ws : List Str) → spaced ((l ++ (b' ' ∷ w)) ∷ ws) ≡ spaced (l ∷ w ∷ ws)
spaced-join l w [] = refl
spaced-join l w (v ∷ ws) = append_assoc l (b' ' ∷ w) (b' ' ∷ spaced (v ∷ ws))

-- The first text of packed lines, split off.
spaced-cons : (w : Str) (ls ms : List Str) → ls ≡ [] → spaced (w ∷ ls) ≡ w
spaced-cons w ls ms e = ap (λ l. spaced (w ∷ l)) e

pack-nonempty :
    (n : ℕ) (l : Str) (ws : List Str)
    → is_empty l ≡ false
    → (r : Str) → spaced (r ∷ pack n l ws) ≡ r ++ (b' ' ∷ spaced (pack n l ws))
unfolding pack
pack-nonempty n l [] e r = rw e refl
pack-nonempty n l (w ∷ ws) e r = elim (Bool-cases (leb (length l + 1 + length w) n)) [
  | inl h ↦ rw (e, h) (pack-nonempty n (l ++ (b' ' ∷ w)) ws (filled_join l w) r)
  | inr h ↦ rw (e, h) refl
]

spaced-pack :
    (n : ℕ) (l : Str) (ws : List Str)
    → is_empty l ≡ false
    → Filled ws
    → spaced (pack n l ws) ≡ spaced (l ∷ ws)
unfolding pack
spaced-pack n l [] e f = rw e refl
spaced-pack n l (w ∷ ws) e f = elim (Bool-cases (leb (length l + 1 + length w) n)) [
  | inl h ↦
      rw (e, h) (spaced-pack n (l ++ (b' ' ∷ w)) ws (filled_join l w) f.1 ∙ spaced-join l w ws)
  | inr h ↦
      rw (e, h)
        (pack-nonempty n w ws f.0 l ∙ ap (λ x. l ++ (b' ' ∷ x)) (spaced-pack n w ws f.0 f.1))
]

-- A line is short enough, or a word.
abbrev pub Fits : ℕ → List Str → Str → Type 0
Fits n ws l = (length l ≤ n) ⊎ (any_of (str_eq l) ws ≡ true)

Fits-cons : (n : ℕ) (w : Str) (ws : List Str) (l : Str) → Fits n ws l → Fits n (w ∷ ws) l
Fits-cons n w ws l (inl h) = inl h
Fits-cons n w ws l (inr h) = inr (ground (arith, h))

Fits-All : (n : ℕ) (w : Str) (ws ls : List Str) → All (Fits n ws) ls → All (Fits n (w ∷ ws)) ls
Fits-All n w ws [] h = tt
Fits-All n w ws (l ∷ ls) h = (Fits-cons n w ws l h.0, Fits-All n w ws ls h.1)

-- The words are those read and those to come.
pack-Fits :
    (n : ℕ) (l : Str) (ws vs : List Str)
    → Fits n vs l
    → All (λ w. any_of (str_eq w) vs ≡ true) ws
    → All (Fits n vs) (pack n l ws)
unfolding pack
pack-Fits n l [] vs f h = elim (Bool-cases (is_empty l)) [ inl e ↦ rw e tt | inr e ↦ rw e (f, tt) ]
pack-Fits n l (w ∷ ws) vs f h = elim (Bool-cases (is_empty l)) [
  | inl e ↦ rw e (pack-Fits n w ws vs (inr h.0) h.1)
  | inr e ↦ elim (Bool-cases (leb (length l + 1 + length w) n)) [
    | inl k ↦
        rw (e, k)
          (pack-Fits n (l ++ (b' ' ∷ w)) ws vs (inl (ground (arith, k, length-append l (b' ' ∷ w))))
            h.1)
    | inr k ↦ rw (e, k) (f, pack-Fits n w ws vs (inr h.0) h.1)
  ]
]

among_cons :
    (w : Str) (vs ws : List Str)
    → All (λ v. any_of (str_eq v) vs ≡ true) ws
    → All (λ v. any_of (str_eq v) (w ∷ vs) ≡ true) ws
among_cons w vs [] h = tt
among_cons w vs (v ∷ ws) h = (ground (arith, h.0), among_cons w vs ws h.1)

among_self : (ws : List Str) → All (λ v. any_of (str_eq v) ws ≡ true) ws
among_self [] = tt
among_self (w ∷ ws) = (rw (str_eq_refl w) refl, among_cons w ws ws (among_self ws))

-- Packing loses no word, adds none and keeps their order: with spaces for the ends of lines, the
-- lines read as the words do. And a line is longer than the width only where it is a single word.
pub pack_lem :
    (n : ℕ) (s : Str)
    → (spaced (pack n [] (words [] s)) ≡ spaced (words [] s))
      × All (Fits n (words [] s)) (pack n [] (words [] s))
pack_lem n s = (
  from_none (words [] s) (words-Filled [] s),
  pack-Fits n [] (words [] s) (words [] s) (inl (omega arith)) (among_self (words [] s)),
)
  where
    from_none : (ws : List Str) → Filled ws → spaced (pack n [] ws) ≡ spaced ws
    from_none [] f = unfold pack in refl
    from_none (w ∷ ws) f = unfold pack in (spaced-pack n w ws f.0 f.1)
