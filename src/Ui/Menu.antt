-- ===== src/Ui/Menu.antt =====
-- The menu (lib/ui/include/ui/Menu.h, lib/ui/src/Menu.cpp). The index -1 is none; a smaller one,
-- which `set_selected_index` ignores, no caller has. `user_data`, which nothing reads, is left out.
pub mod Draw
pub mod Bounds
pub mod Range
pub mod Next
use booking.Prelude.{
  ℕ, zero, suc, ◌+◌, ◌-◌, Bool, true, false, not, ◌&&◌, ◌||◌, List, [], ◌∷◌, ◌++◌, Option, none,
  some, length, take, drop, get_elem?, max, ltb, leb, ◌==◌, if◌then◌else◌,
}
use booking.Prelude.Text.{Str, is_empty}
use booking.Ui.{
  Rect, Widget, Event, Key, character, key_enter, key_backspace, key_dc, key_left, key_right,
  key_up, key_down, key_home, key_end, key_other, is_key_press,
}

pub record MenuItem : Type 0 where
  pub text : Str
  pub secondary_text : Str
  pub enabled : Bool

pub record Menu : Type 0 where
  pub widget : Widget
  pub items : List MenuItem
  pub selected_index : Option ℕ
  pub scroll_offset : ℕ
  pub bordered : Bool
  pub numbered : Bool
  pub title : Str

-- The calls of `on_select_` and `on_activate_`.
pub data Call : Type 0 where
  selected activated : ℕ → MenuItem → Call

abbrev pub new_menu : Rect → Menu
new_menu bounds = record {
  widget = record { bounds = bounds; visible = true; focusable = true; focused = false };
  items = [];
  selected_index = none;
  scroll_offset = 0;
  bordered = false;
  numbered = false;
  title = [];
}

abbrev pub is_enabled : MenuItem → Bool
is_enabled item = item.enabled

-- `items_[index].enabled`, of an index in range.
abbrev pub enabled_at : List MenuItem → ℕ → Bool
enabled_at items index = elim (get_elem? items index) [ none ↦ false | some item ↦ item.enabled ]

unfoldable pub add_item : Menu → MenuItem → Menu
add_item m item =
    let m' = record m { items = m.items ++ (item ∷ []) } in
    elim m.selected_index [
      | some i ↦ m'
      | none ↦
          if item.enabled then record m' { selected_index = some (length m'.items - 1) } else m'
    ]

unfoldable pub insert_item : Menu → ℕ → MenuItem → Menu
insert_item m index item =
    let m' = record m { items = take index m.items ++ (item ∷ drop index m.items) } in
    if leb (length m.items) index then add_item m item else elim m.selected_index [
      | none ↦ m'
      | some i ↦ record m' { selected_index = some (if leb index i then i + 1 else i) }
    ]

-- `items_.erase(items_.begin() + index)`.
abbrev pub erase_at {ℓ} : {A : Type ℓ} → ℕ → List A → List A
erase_at n [] = []
erase_at zero (x ∷ xs) = xs
erase_at (suc n) (x ∷ xs) = x ∷ erase_at n xs

unfoldable pub remove_item : Menu → ℕ → Menu
remove_item m index =
    let items = erase_at index m.items in
    let m' = record m { items = items } in
    if leb (length m.items) index then m else elim m.selected_index [
      | none ↦ m'
      | some i ↦
          if leb (length items) i
          then record m' { selected_index = elim items [ [] ↦ none | x ∷ xs ↦ some (length xs) ] }
          else m'
    ]

unfoldable pub clear_items : Menu → Menu
clear_items m = record m { items = []; selected_index = none; scroll_offset = 0 }

-- The loops that look for an enabled item: upwards through the items from an index on, and
-- downwards below an index.
unfoldable pub next_enabled : List MenuItem → ℕ → Option ℕ
next_enabled [] index = none
next_enabled (item ∷ items) index =
    let rest = next_enabled items (suc index) in if item.enabled then some index else rest

unfoldable pub previous_enabled : List MenuItem → ℕ → Option ℕ
previous_enabled items zero = none
previous_enabled items (suc index) =
    let rest = previous_enabled items index in if enabled_at items index then some index else rest

unfoldable pub set_items : Menu → List MenuItem → Menu
unfolding next_enabled
set_items m items = record m {
  items = items;
  selected_index = next_enabled items 0;
  scroll_offset = 0;
}

abbrev pub set_at {ℓ} : {A : Type ℓ} → ℕ → A → List A → List A
set_at n a [] = []
set_at zero a (x ∷ xs) = a ∷ xs
set_at (suc n) a (x ∷ xs) = x ∷ set_at n a xs

unfoldable pub set_item : Menu → ℕ → MenuItem → Menu
set_item m index item = record m { items = set_at index item m.items }

unfoldable pub get_visible_height : Menu → ℕ
get_visible_height m =
    max 1 (if m.bordered then m.widget.bounds.height - 2 else m.widget.bounds.height)

unfoldable pub get_content_width : Menu → ℕ
get_content_width m =
    max 1 (if m.bordered then m.widget.bounds.width - 2 else m.widget.bounds.width)

-- The first row to show, where row `offset` was: upwards to the index, then downwards to it.
unfoldable pub scroll_to : ℕ → ℕ → ℕ → ℕ
scroll_to i offset height =
    let up = if ltb i offset then i else offset in
    if leb (up + height) i then (i + 1) - height else up

unfoldable pub ensure_selection_visible : Menu → Menu
ensure_selection_visible m = elim m.selected_index [
  | none ↦ m
  | some i ↦ record m { scroll_offset = scroll_to i m.scroll_offset (get_visible_height m) }
]

abbrev pub differs : Option ℕ → ℕ → Bool
differs none i = true
differs (some j) i = not (j == i)

unfoldable pub set_selected_index : Menu → Option ℕ → Menu × List Call
unfolding ensure_selection_visible
set_selected_index m none = (record m { selected_index = none }, [])
set_selected_index m (some i) = elim (get_elem? m.items i) [
  | none ↦ (m, [])
  | some item ↦
      if item.enabled
      then (
        ensure_selection_visible (record m { selected_index = some i }),
        if differs m.selected_index i then selected i item ∷ [] else [],
      )
      else (m, [])
]

unfoldable pub get_selected_item : Menu → Option MenuItem
get_selected_item m = elim m.selected_index [ none ↦ none | some i ↦ get_elem? m.items i ]

-- `set_selected_index` where a search found an item.
abbrev pub select_found : Menu → Option ℕ → Menu × List Call
select_found m none = (m, [])
select_found m (some i) = set_selected_index m (some i)

abbrev pub select_above : Menu → Option ℕ → Menu × List Call
select_above m none = (m, [])
select_above m (some i) = select_found m (previous_enabled m.items i)

unfoldable pub move_selection_up : Menu → Menu × List Call
move_selection_up m = select_above m m.selected_index

unfoldable pub move_selection_down : Menu → Menu × List Call
move_selection_down m =
    let start : ℕ = elim m.selected_index [ none ↦ 0 | some i ↦ suc i ] in
    select_found m (next_enabled (drop start m.items) start)

unfoldable pub move_selection_home : Menu → Menu × List Call
move_selection_home m = select_found m (next_enabled m.items 0)

unfoldable pub move_selection_end : Menu → Menu × List Call
move_selection_end m = select_found m (previous_enabled m.items (length m.items))

unfoldable pub activate_selected : Menu → List Call
activate_selected m = elim m.selected_index [
  | none ↦ []
  | some i ↦ elim (get_elem? m.items i) [
    | none ↦ []
    | some item ↦ if item.enabled then activated i item ∷ [] else []
  ]
]

-- A digit of a numbered menu.
unfoldable pub press_number : Menu → ℕ → Option (Menu × List Call)
press_number m c =
    let index = c - b'1' in
    let (m', calls) = set_selected_index m (some index) in
    if m.numbered && (leb b'1' c && (leb c b'9' && enabled_at m.items index))
    then some (m', calls ++ activate_selected m')
    else none

unfoldable pub handle_key : Menu → Key → Option (Menu × List Call)
handle_key m key_up = some (move_selection_up m)
handle_key m key_down = some (move_selection_down m)
handle_key m key_home = some (move_selection_home m)
handle_key m key_end = some (move_selection_end m)
handle_key m key_enter = some (m, activate_selected m)
handle_key m (character c) = if c == b'\n' then some (m, activate_selected m) else press_number m c
handle_key m key_backspace = none
handle_key m key_dc = none
handle_key m key_left = none
handle_key m key_right = none
handle_key m key_other = none

-- `none` where the event is not handled.
unfoldable pub handle_event : Menu → Event → Option (Menu × List Call)
handle_event m event =
    if not m.widget.visible || (not m.widget.focused || not (is_key_press event))
    then none
    else handle_key m event.key

-- The largest width that an item takes.
unfoldable pub widest : List MenuItem → ℕ
widest [] = 0
widest (item ∷ items) =
    max
      (length item.text
        + (if is_empty item.secondary_text then 0 else length item.secondary_text + 1))
      (widest items)

unfoldable pub get_preferred_size : Menu → ℕ × ℕ
unfolding widest
get_preferred_size m =
    let margin : ℕ = if m.numbered then 4 else 2 in
    let frame : ℕ = if m.bordered then 2 else 0 in
    (
      max (widest m.items + margin + frame) m.widget.bounds.width,
      max (length m.items + frame) m.widget.bounds.height,
    )
