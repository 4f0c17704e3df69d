-- ===== src/Ui/Menu/Next.antt =====
-- Where the keys take the selection of a menu, and where removing an item leaves it.
use booking.Prelude.{
  ℕ, zero, suc, ◌+◌, ◌≤◌, ◌<◌, ◌≡◌, refl, sym, ap, ◌∙◌, ◌⊎◌, inl, inr, true, false, List, [], ◌∷◌,
  Option, none, some, length, take, drop, get_elem?, any_of, arith, Bool-cases, Option-cases,
}
use mathlib.Core.Path.{subst}
use booking.Ui.Menu.Range.{length-erase_at}
use booking.Ui.Menu.{
  MenuItem, Menu, enabled_at, is_enabled, erase_at, remove_item, next_enabled, get_visible_height,
  scroll_to, ensure_selection_visible, set_selected_index, select_found, get_selected_item,
  move_selection_down,
}

-- The rows of the menu that are shown hold the index.
pub record Shows (m : Menu) (i : ℕ) : Type 0 where
  pub not_above : m.scroll_offset ≤ i
  pub not_below : i < m.scroll_offset + get_visible_height m

-- What a search upwards finds: nothing, where nothing is enabled, or the first that is.
Found : List MenuItem → ℕ → Option ℕ → Type 0
Found xs k o =
    ((any_of is_enabled xs ≡ false) × (o ≡ none))
    ⊎ ((d : ℕ) × (o ≡ some (k + d))
        × (enabled_at xs d ≡ true)
        × (any_of is_enabled (take d xs) ≡ false))

next_enabled-Found : (xs : List MenuItem) (k : ℕ) → Found xs k (next_enabled xs k)
unfolding next_enabled Found
next_enabled-Found [] k = inl (refl, refl)
next_enabled-Found (x ∷ xs) k = elim (Bool-cases x.enabled) [
  | inl e ↦ inr (0, ground (arith, e), e, refl)
  | inr e ↦ elim (next_enabled-Found xs (suc k)) [
    | inl (n, h) ↦ inl (ground (arith, e, n), ground (arith, e, h))
    | inr (d, h, on, off) ↦ inr (suc d, ground (arith, e, h), on, ground (arith, e, off))
  ]
]

get_elem?-drop : (n d : ℕ) (xs : List MenuItem) → get_elem? (drop n xs) d ≡ get_elem? xs (n + d)
get_elem?-drop zero d xs = ap (get_elem? xs) (let e : d ≡ zero + d = omega arith in e)
get_elem?-drop (suc n) d [] = refl
get_elem?-drop (suc n) d (x ∷ xs) =
    get_elem?-drop n d xs
    ∙ ap (get_elem? (x ∷ xs)) (let e : suc (n + d) ≡ suc n + d = omega arith in e)

height-scrolled :
    (m : Menu) (o : Option ℕ) (s : ℕ)
    → get_visible_height (record m { selected_index = o; scroll_offset = s }) ≡ get_visible_height m
unfolding get_visible_height
height-scrolled m o s = refl

some_height : (m : Menu) → 1 ≤ get_visible_height m
unfolding get_visible_height
some_height m = ground arith

scroll_to-shows :
    (i offset height : ℕ)
    → 1 ≤ height
    → (scroll_to i offset height ≤ i) × (i < scroll_to i offset height + height)
unfolding scroll_to
scroll_to-shows i offset height h = ground (arith, h)

ensure-Shows :
    (m : Menu) (i : ℕ) → Shows (ensure_selection_visible (record m { selected_index = some i })) i
unfolding ensure_selection_visible get_visible_height
ensure-Shows m i =
    let (l, r) = scroll_to-shows i m.scroll_offset (get_visible_height m) (some_height m) in
    record { not_above = l; not_below = r }

-- Where the search's answer takes the selection.
abbrev Selects : Menu → ℕ → Menu → Type 0
Selects m j m' = (m'.selected_index ≡ some j) × (m'.items ≡ m.items) × Shows m' j

set_selected-Selects :
    (m : Menu) (j : ℕ) → enabled_at m.items j ≡ true → Selects m j (set_selected_index m (some j)).0
unfolding set_selected_index
set_selected-Selects m j on = elim (Option-cases (get_elem? m.items j)) [
  | inl e ↦ absurd (ground (arith, e, on))
  | inr (x, e) ↦
      let h : x.enabled ≡ true = ground (arith, e, on) in
      rw (set_selected_index, e, h)
        (
          unfold ensure_selection_visible in refl,
          unfold ensure_selection_visible in refl,
          ensure-Shows m j,
        )
]

-- "Down", from a selected item: if an item behind it is enabled, the first such item becomes the
-- selection, and the rows are scrolled to show it; if none is, nothing changes.
pub move_selection_down-next :
    (m : Menu) (i : ℕ)
    → m.selected_index ≡ some i
    → ((any_of is_enabled (drop (suc i) m.items) ≡ false) × (move_selection_down m ≡ (m, [])))
      ⊎ ((d : ℕ) × (enabled_at m.items (suc i + d) ≡ true)
          × (any_of is_enabled (take d (drop (suc i) m.items)) ≡ false)
          × ((move_selection_down m).0.selected_index ≡ some (suc i + d))
          × ((move_selection_down m).0.items ≡ m.items)
          × Shows (move_selection_down m).0 (suc i + d))
unfolding Found
move_selection_down-next m i s = elim (next_enabled-Found (drop (suc i) m.items) (suc i)) [
  | inl (off, e) ↦ inl (off, moves s ∙ ap (select_found m) e)
  | inr (d, e, on, off) ↦
      let on' : enabled_at m.items (suc i + d) ≡ true =
        ap (λ o. elim o [ none ↦ false | some item ↦ item.enabled ])
          (sym (get_elem?-drop (suc i) d m.items))
        ∙ on in
      let (a, b, c) =
        subst (λ r. Selects m (suc i + d) r.0) (sym (moves s ∙ ap (select_found m) e))
          (set_selected-Selects m (suc i + d) on') in
      inr (d, on', off, a, b, c)
]
  where
    moves :
        m.selected_index ≡ some i
        → move_selection_down m ≡ select_found m (next_enabled (drop (suc i) m.items) (suc i))
    moves e = unfold move_selection_down in simp e

get_elem?-erase_at :
    (k i : ℕ) (xs : List MenuItem) → k ≤ i → get_elem? (erase_at k xs) i ≡ get_elem? xs (suc i)
get_elem?-erase_at k i [] h = refl
get_elem?-erase_at zero i (x ∷ xs) h = refl
get_elem?-erase_at (suc k) zero (x ∷ xs) h = absurd (omega (arith, h))
get_elem?-erase_at (suc k) (suc i) (x ∷ xs) h = get_elem?-erase_at k i xs (omega (arith, h))

-- Removing an item before the selected one, or the selected one, makes the item behind the selected
-- one the selection, as long as there is one: the index stays and the items move.
pub remove_item-shifts :
    (m : Menu) (index i : ℕ)
    → m.selected_index ≡ some i
    → index ≤ i
    → suc i < length m.items
    → get_selected_item (remove_item m index) ≡ get_elem? m.items (suc i)
unfolding get_selected_item remove_item
remove_item-shifts m index i s h k = ground (
  arith,
  s,
  length-erase_at index m.items (omega (arith, h, k)),
  get_elem?-erase_at index i m.items h,
)
