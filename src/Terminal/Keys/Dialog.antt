-- ===== src/Terminal/Keys/Dialog.antt =====
-- The dialog for a new room: which names it makes, and that it makes the name that is typed.
use booking.Prelude.{
  ℕ, ◌+◌, ◌≤◌, ◌<◌, ◌≡◌, refl, sym, ap, ◌⊎◌, inl, inr, Bool, true, false, List, [], ◌∷◌, ◌++◌,
  append_assoc, append-nil, map, length, length-append, All, All-append, ltb, arith, Bool-cases,
  if◌then◌else◌,
}
use mathlib.Core.Path.{subst}
use booking.Prelude.Text.{Str, codes, is_empty}
use booking.Ui.{
  Key, character, key_enter, key_backspace, key_dc, key_left, key_right, key_up, key_down, key_home,
  key_end, key_other, is_printable,
}
use booking.Terminal.{Terminal}
use booking.Terminal.Screens.{say}
use booking.Terminal.Keys.{
  DialogState, reading, cancelled, created, is_character, is_enter_key, is_backspace_key, pop_back,
  extend, dialog_key, dialog_loop, show_create_room_dialog,
}

-- What can stand in the dialog.
record Typed (s : Str) : Type 0 where
  short : length s ≤ 30
  printable : All (λ c. is_printable c ≡ true) s

abbrev Good : DialogState → Type 0
Good (reading s) = Typed s
Good cancelled = Unit
Good (created s) = Typed s × (1 ≤ length s)

pop_back-length : (s : Str) → length (pop_back s) ≤ length s
pop_back-length [] = omega arith
pop_back-length (c ∷ []) = omega arith
pop_back-length (c ∷ d ∷ s) = omega (arith, pop_back-length (d ∷ s))

pop_back-printable :
    (s : Str) → All (λ c. is_printable c ≡ true) s → All (λ c. is_printable c ≡ true) (pop_back s)
pop_back-printable [] h = tt
pop_back-printable (c ∷ []) h = tt
pop_back-printable (c ∷ d ∷ s) h = (h.0, pop_back-printable (d ∷ s) h.1)

nonempty : (s : Str) → is_empty s ≡ false → 1 ≤ length s
nonempty [] h = absurd (ground (arith, h))
nonempty (c ∷ s) h = omega arith

extend-Typed : (s : Str) (k : Key) → Typed s → Typed (extend s k)
extend-Typed s (character c) t = elim (Bool-cases (is_printable c)) [
  | inl p ↦ elim (Bool-cases (ltb (length s) 30)) [
    | inl q ↦
        rw (p, q)
          (record {
            short = ground (arith, q, length-append s (c ∷ []));
            printable = All-append (λ c. is_printable c ≡ true) s (c ∷ []) t.printable (p, tt);
          })
    | inr q ↦ rw (p, q) t
  ]
  | inr p ↦ rw p t
]
extend-Typed s key_enter t = t
extend-Typed s key_backspace t = t
extend-Typed s key_dc t = t
extend-Typed s key_left t = t
extend-Typed s key_right t = t
extend-Typed s key_up t = t
extend-Typed s key_down t = t
extend-Typed s key_home t = t
extend-Typed s key_end t = t
extend-Typed s key_other t = t

if-Good : (b : Bool) (x y : DialogState) → Good x → Good y → Good (if b then x else y)
if-Good true x y h k = h
if-Good false x y h k = k

dialog_key-Good : (s : Str) (k : Key) → Typed s → Good (dialog_key s k)
unfolding dialog_key
dialog_key-Good s k t = if-Good (is_character k 27) cancelled _ tt (
    if-Good (is_enter_key k) _ _ entered (
      if-Good (is_backspace_key k) (reading (pop_back s)) (reading (extend s k)) popped
        (extend-Typed s k t)))
  where
    entered : Good (if is_empty s then reading s else created s)
    entered = elim (Bool-cases (is_empty s)) [ inl e ↦ rw e t | inr e ↦ rw e (t, nonempty s e) ]

    popped : Typed (pop_back s)
    popped = record {
      short = omega (arith, pop_back-length s, t.short);
      printable = pop_back-printable s t.printable;
    }

ended : List Key → DialogState → DialogState × List Key
ended ks d = elim d [
  | reading name ↦ dialog_loop name ks
  | cancelled ↦ (cancelled, ks)
  | created name ↦ (created name, ks)
]

dialog_loop-Good : (s : Str) (ks : List Key) → Typed s → Good (dialog_loop s ks).0
unfolding dialog_loop ended
dialog_loop-Good s [] t = t
dialog_loop-Good s (k ∷ ks) t =
    split (dialog_key s k) (dialog_key-Good s k t) (λ name. dialog_loop-Good name ks)
  where
    split :
        (d : DialogState)
        → Good d
        → ((name : Str) → Typed name → Good (dialog_loop name ks).0)
        → Good (ended ks d).0
    split (reading name) g rest = rest name g
    split cancelled g rest = tt
    split (created name) g rest = g

-- Whatever is typed, the dialog either sends nothing or asks for one room, whose name has from 1 to
-- 30 characters, all of them printable.
pub show_create_room_dialog-event :
    (u : Terminal) (keys : List Key)
    → (show_create_room_dialog u keys ≡ u)
      ⊎ ((name : Str) × (show_create_room_dialog u keys ≡ say u (codes "CREATE_ROOM:" ++ name))
          × (1 ≤ length name)
          × (length name ≤ 30)
          × All (λ c. is_printable c ≡ true) name)
unfolding show_create_room_dialog
show_create_room_dialog-event u keys =
    split (dialog_loop [] keys).0
      (dialog_loop-Good [] keys (record { short = omega arith; printable = tt }))
  where
    shown : DialogState → Terminal
    shown d = elim d [
      | reading name ↦ u
      | cancelled ↦ u
      | created name ↦ say u (codes "CREATE_ROOM:" ++ name)
    ]

    split :
        (d : DialogState)
        → Good d
        → (shown d ≡ u)
          ⊎ ((name : Str) × (shown d ≡ say u (codes "CREATE_ROOM:" ++ name))
              × (1 ≤ length name)
              × (length name ≤ 30)
              × All (λ c. is_printable c ≡ true) name)
    split (reading name) g = inl refl
    split cancelled g = inl refl
    split (created name) g = inr (name, refl, g.1, g.0.short, g.0.printable)

type_character :
    (s : Str) (c : ℕ)
    → is_printable c ≡ true
    → length s < 30
    → dialog_key s (character c) ≡ reading (s ++ (c ∷ []))
unfolding dialog_key
type_character s c p h = ground (arith, p, h)

type_name :
    (s name : Str) (ks : List Key)
    → All (λ c. is_printable c ≡ true) name
    → length s + length name ≤ 30
    → 1 ≤ length s + length name
    → dialog_loop s (map character name ++ (key_enter ∷ ks)) ≡ (created (s ++ name), ks)
unfolding dialog_loop
type_name [] [] ks p h k = absurd (omega (arith, k))
type_name (d ∷ s) [] ks p h k =
    unfold dialog_key in ap (λ t. (created t, ks)) (sym (append-nil (d ∷ s)))
type_name s (c ∷ name) ks p h k =
    rw (dialog_loop, type_character s c p.0 (omega (arith, h)))
      (subst
        (λ t.
          dialog_loop (s ++ (c ∷ [])) (map character name ++ (key_enter ∷ ks)) ≡ (created t, ks))
        (append_assoc s (c ∷ []) name)
        (type_name (s ++ (c ∷ [])) name ks p.1 (omega (arith, h, length-append s (c ∷ [])))
          (omega (arith, h, length-append s (c ∷ [])))))

-- Typing a name of 1 to 30 printable characters and "Enter" asks for the room of that name.
pub show_create_room_dialog-typed :
    (u : Terminal) (name : Str) (ks : List Key)
    → All (λ c. is_printable c ≡ true) name
    → 1 ≤ length name
    → length name ≤ 30
    → show_create_room_dialog u (map character name ++ (key_enter ∷ ks))
      ≡ say u (codes "CREATE_ROOM:" ++ name)
unfolding show_create_room_dialog
show_create_room_dialog-typed u name ks p h k =
    rw (show_create_room_dialog, type_name [] name ks p (omega (arith, k)) (omega (arith, h))) refl
