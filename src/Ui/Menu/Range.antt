-- ===== src/Ui/Menu/Range.antt =====
-- The selection of a menu under every sequence of operations.
use booking.Prelude.{
  ℕ, zero, suc, ◌+◌, ◌-◌, ◌≤◌, ◌<◌, ◌≡◌, refl, sym, ap, inl, inr, List, [], ◌∷◌, ◌++◌, Option, none,
  some, length, take, drop, get_elem?, length-append, length-take, length-drop, arith, leb, ◌==◌,
  Bool-cases, Option-cases, ◌&&◌,
}
use mathlib.Core.Path.{subst}
use booking.Ui.{
  Key, character, key_enter, key_backspace, key_dc, key_left, key_right, key_up, key_down, key_home,
  key_end, key_other,
}
use booking.Ui.Menu.{
  MenuItem, Menu, Call, add_item, insert_item, erase_at, remove_item, clear_items, next_enabled,
  set_items, set_at, set_item, ensure_selection_visible, set_selected_index, select_found,
  select_above, move_selection_up, move_selection_down, move_selection_home, move_selection_end,
  press_number, handle_key, enabled_at,
}

-- An index that is none or below a bound.
abbrev pub Below : ℕ → Option ℕ → Type 0
Below n none = Unit
Below n (some i) = i < n

abbrev pub InRange : Menu → Type 0
InRange m = Below (length m.items) m.selected_index

pub length-erase_at :
    (n : ℕ) (xs : List MenuItem) → n < length xs → suc (length (erase_at n xs)) ≡ length xs
length-erase_at n [] h = absurd (omega (arith, h))
length-erase_at zero (x ∷ xs) h = refl
length-erase_at (suc n) (x ∷ xs) h = omega (arith, length-erase_at n xs (omega (arith, h)))

length-set_at : (n : ℕ) (a : MenuItem) (xs : List MenuItem) → length (set_at n a xs) ≡ length xs
length-set_at n a [] = refl
length-set_at zero a (x ∷ xs) = refl
length-set_at (suc n) a (x ∷ xs) = ap suc (length-set_at n a xs)

get_elem?-lt : (i : ℕ) (xs : List MenuItem) (x : MenuItem) → get_elem? xs i ≡ some x → i < length xs
get_elem?-lt i [] x e = absurd (ground (arith, e))
get_elem?-lt zero (y ∷ xs) x e = omega arith
get_elem?-lt (suc i) (y ∷ xs) x e = omega (arith, get_elem?-lt i xs x e)

next-Below : (xs : List MenuItem) (k : ℕ) → Below (k + length xs) (next_enabled xs k)
unfolding next_enabled
next-Below [] k = tt
next-Below (x ∷ xs) k = elim (Bool-cases x.enabled) [
  | inl e ↦ rw e (omega arith)
  | inr e ↦ rw e (
      subst (λ n. Below n (next_enabled xs (suc k)))
        (let p : suc k + length xs ≡ k + length (x ∷ xs) = omega arith in p)
        (next-Below xs (suc k)))
]

Below-le : (m n : ℕ) (o : Option ℕ) → m ≤ n → Below m o → Below n o
Below-le m n none h b = tt
Below-le m n (some i) h b = omega (arith, h, b)

-- The moves keep the items, and the selection in range.
record Moves (m m' : Menu) : Type 0 where
  items : m'.items ≡ m.items
  range : InRange m'

set_selected-Moves : (m : Menu) (o : Option ℕ) → InRange m → Moves m (set_selected_index m o).0
unfolding set_selected_index ensure_selection_visible
set_selected-Moves m none r = record { items = refl; range = tt }
set_selected-Moves m (some i) r = elim (Option-cases (get_elem? m.items i)) [
  | inl e ↦ rw (set_selected_index, e) (record { items = refl; range = r })
  | inr (x, e) ↦ elim (Bool-cases x.enabled) [
    | inl h ↦
        rw (set_selected_index, e, h) (record { items = refl; range = get_elem?-lt i m.items x e })
    | inr h ↦ rw (set_selected_index, e, h) (record { items = refl; range = r })
  ]
]

found-Moves : (m : Menu) (o : Option ℕ) → InRange m → Moves m (select_found m o).0
found-Moves m none r = record { items = refl; range = r }
found-Moves m (some i) r = set_selected-Moves m (some i) r

above-Moves : (m : Menu) (o : Option ℕ) → InRange m → Moves m (select_above m o).0
above-Moves m none r = record { items = refl; range = r }
above-Moves m (some i) r = found-Moves m _ r

abbrev MovesBy : Menu → Option (Menu × List Call) → Type 0
MovesBy m none = Unit
MovesBy m (some (m', calls)) = Moves m m'

number-Moves : (m : Menu) (c : ℕ) → InRange m → MovesBy m (press_number m c)
unfolding press_number
number-Moves m c r =
    elim (Bool-cases
      (m.numbered && (leb b'1' c && (leb c b'9' && enabled_at m.items (c - b'1'))))) [
        | inl e ↦ rw (press_number, e) (set_selected-Moves m (some (c - b'1')) r)
        | inr e ↦ rw (press_number, e) tt
      ]

handle_key-Moves : (m : Menu) (k : Key) → InRange m → MovesBy m (handle_key m k)
unfolding handle_key move_selection_up move_selection_down move_selection_home move_selection_end
handle_key-Moves m key_up r = above-Moves m m.selected_index r
handle_key-Moves m key_down r = found-Moves m _ r
handle_key-Moves m key_home r = found-Moves m _ r
handle_key-Moves m key_end r = found-Moves m _ r
handle_key-Moves m key_enter r = record { items = refl; range = r }
handle_key-Moves m (character c) r = elim (Bool-cases (c == b'\n')) [
  | inl e ↦ rw (handle_key, e) (record { items = refl; range = r })
  | inr e ↦ rw (handle_key, e) (number-Moves m c r)
]
handle_key-Moves m key_backspace r = tt
handle_key-Moves m key_dc r = tt
handle_key-Moves m key_left r = tt
handle_key-Moves m key_right r = tt
handle_key-Moves m key_other r = tt

-- The operations on a menu.
pub data Operation : Type 0 where
  adds : MenuItem → Operation
  inserts : ℕ → MenuItem → Operation
  removes : ℕ → Operation
  clears : Operation
  sets_items : List MenuItem → Operation
  sets_item : ℕ → MenuItem → Operation
  selects : Option ℕ → Operation
  presses : Key → Operation

abbrev pub operate : Menu → Operation → Menu
operate m (adds item) = add_item m item
operate m (inserts index item) = insert_item m index item
operate m (removes index) = remove_item m index
operate m clears = clear_items m
operate m (sets_items items) = set_items m items
operate m (sets_item index item) = set_item m index item
operate m (selects index) = (set_selected_index m index).0
operate m (presses key) = elim (handle_key m key) [ none ↦ m | some (m', calls) ↦ m' ]

abbrev pub operate_all : Menu → List Operation → Menu
operate_all m [] = m
operate_all m (o ∷ os) = operate_all (operate m o) os

abbrev at : Menu → Option ℕ → Menu
at m o = record m { selected_index = o }

add_at-InRange :
    (m : Menu) (item : MenuItem) (o : Option ℕ)
    → Below (length m.items) o
    → InRange (add_item (at m o) item)
unfolding add_item
add_at-InRange m item (some i) r = omega (arith, r, length-append m.items (item ∷ []))
add_at-InRange m item none r = elim (Bool-cases item.enabled) [
  | inl e ↦ simp (e) (omega (arith, length-append m.items (item ∷ [])))
  | inr e ↦ simp (e) tt
]

add-InRange : (m : Menu) (item : MenuItem) → InRange m → InRange (add_item m item)
add-InRange m item r = add_at-InRange m item m.selected_index r

length-inserted :
    (m : Menu) (index : ℕ) (item : MenuItem)
    → length (take index m.items ++ (item ∷ drop index m.items)) ≡ suc (length m.items)
length-inserted m index item = omega (
  arith,
  length-append (take index m.items) (item ∷ drop index m.items),
  length-take index m.items,
  length-drop index m.items,
)

insert_at-InRange :
    (m : Menu) (index : ℕ) (item : MenuItem) (o : Option ℕ)
    → Below (length m.items) o
    → InRange (insert_item (at m o) index item)
unfolding insert_item
insert_at-InRange m index item none r = elim (Bool-cases (leb (length m.items) index)) [
  | inl e ↦ rw (e) (add_at-InRange m item none tt)
  | inr e ↦ rw (e) tt
]
insert_at-InRange m index item (some i) r = elim (Bool-cases (leb (length m.items) index)) [
  | inl e ↦ rw (e) (add_at-InRange m item (some i) r)
  | inr e ↦ rw (e) (ground (arith, r, length-inserted m index item))
]

insert-InRange :
    (m : Menu) (index : ℕ) (item : MenuItem) → InRange m → InRange (insert_item m index item)
insert-InRange m index item r = insert_at-InRange m index item m.selected_index r

last-Below :
    (items : List MenuItem)
    → Below (length items) (elim items [ [] ↦ none | x ∷ xs ↦ some (length xs) ])
last-Below [] = tt
last-Below (x ∷ xs) = omega arith

remove_at-InRange :
    (m : Menu) (index : ℕ) (o : Option ℕ)
    → Below (length m.items) o
    → InRange (remove_item (at m o) index)
unfolding remove_item
remove_at-InRange m index none r = elim (Bool-cases (leb (length m.items) index)) [
  | inl e ↦ rw (e) tt
  | inr e ↦ rw (e) tt
]
remove_at-InRange m index (some i) r = elim (Bool-cases (leb (length m.items) index)) [
  | inl e ↦ rw (e) r
  | inr e ↦ elim (Bool-cases (leb (length (erase_at index m.items)) i)) [
    | inl k ↦ rw (e, k) (last-Below (erase_at index m.items))
    | inr k ↦ rw (e, k) (ground (arith, k))
  ]
]

remove-InRange : (m : Menu) (index : ℕ) → InRange m → InRange (remove_item m index)
remove-InRange m index r = remove_at-InRange m index m.selected_index r

handled-InRange :
    (m : Menu) (o : Option (Menu × List Call))
    → InRange m
    → MovesBy m o
    → InRange (elim o [ none ↦ m | some (m', calls) ↦ m' ])
handled-InRange m none r h = r
handled-InRange m (some (m', calls)) r h = h.range

press-InRange : (m : Menu) (key : Key) → InRange m → InRange (operate m (presses key))
press-InRange m key r = handled-InRange m (handle_key m key) r (handle_key-Moves m key r)

operate-InRange : (m : Menu) (o : Operation) → InRange m → InRange (operate m o)
unfolding clear_items set_items set_item
operate-InRange m (adds item) r = add-InRange m item r
operate-InRange m (inserts index item) r = insert-InRange m index item r
operate-InRange m (removes index) r = remove-InRange m index r
operate-InRange m clears r = tt
operate-InRange m (sets_items items) r =
    subst (λ n. Below n (next_enabled items 0))
      (let p : 0 + length items ≡ length items = omega arith in p) (next-Below items 0)
operate-InRange m (sets_item index item) r =
    subst (λ n. Below n m.selected_index) (sym (length-set_at index item m.items)) r
operate-InRange m (selects index) r = (set_selected-Moves m index r).range
operate-InRange m (presses key) r = press-InRange m key r

-- Whatever is done to a menu whose selection is none or the index of one of its items, its
-- selection stays so: no access to the selected item is out of range.
pub operate_all-InRange : (m : Menu) (os : List Operation) → InRange m → InRange (operate_all m os)
operate_all-InRange m [] r = r
operate_all-InRange m (o ∷ os) r = operate_all-InRange (operate m o) os (operate-InRange m o r)
