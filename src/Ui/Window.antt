-- ===== src/Ui/Window.antt =====
-- The children of a window and the focus among them (lib/ui/include/ui/Window.h,
-- lib/ui/src/Window.cpp). Widgets are shared, so a window holds their identities, and the widgets
-- themselves stand in a store of its owner.
pub mod Focus
pub mod Tab
pub mod Pane
use booking.Prelude.{
  ℕ, zero, suc, ◌+◌, ◌-◌, ◌%◌, Bool, true, false, ◌&&◌, List, [], ◌∷◌, ◌++◌, Option, none, some,
  length, get_elem?, ◌==◌, if◌then◌else◌,
}
use Prim.Native.Nat.{◌^◌}
use booking.Ui.{Event, Key, character, is_key_press}

-- What a window asks of its children. A child that does not handle an event answers none.
pub record Children (S Ref : Type 0) : Type 0 where
  pub same : Ref → Ref → Bool
  pub can_focus : S → Ref → Bool
  pub set_focus : S → Ref → Bool → S
  pub handle : S → Ref → Event → Option S

pub record Window (Ref : Type 0) : Type 0 where
  pub children : List Ref
  pub focused_child : Option Ref

abbrev pub is_tab : Key → Bool
is_tab (character c) = c == b'\t'
is_tab k = false

module _ {S Ref : Type 0} (C : Children S Ref) where
  abbrev pub new_window : Window Ref
  new_window = record { children = []; focused_child = none }

  unfoldable pub unfocus : S → Option Ref → S
  unfocus s none = s
  unfocus s (some old) = C.set_focus s old false

  unfoldable pub focus_child : S → Window Ref → Ref → S × Window Ref
  unfolding unfocus
  focus_child s w child =
      if C.can_focus s child
      then (
        C.set_focus (unfocus s w.focused_child) child true,
        record w { focused_child = some child },
      )
      else (s, w)

  -- The first child that can have the focus gets it.
  unfoldable pub add_child : S → Window Ref → Ref → S × Window Ref
  unfolding focus_child
  add_child s w child =
      let w' = record w { children = w.children ++ (child ∷ []) } in
      elim w.focused_child [ some old ↦ (s, w') | none ↦ focus_child s w' child ]

  unfoldable pub find_child : Ref → List Ref → Option ℕ
  find_child child [] = none
  find_child child (c ∷ cs) =
      if C.same c child
      then some 0
      else elim (find_child child cs) [ none ↦ none | some i ↦ some (suc i) ]

  unfoldable pub drop_child : Ref → List Ref → List Ref
  drop_child child [] = []
  drop_child child (c ∷ cs) = if C.same c child then cs else c ∷ drop_child child cs

  unfoldable pub remove_child : Window Ref → Ref → Window Ref
  unfolding find_child drop_child
  remove_child w child = elim (find_child child w.children) [
    | none ↦ w
    | some i ↦ record {
      children = drop_child child w.children;
      focused_child = elim w.focused_child [
        | none ↦ none
        | some c ↦ if C.same c child then none else some c
      ];
    }
  ]

  unfoldable pub clear_children : Window Ref → Window Ref
  clear_children w = record { children = []; focused_child = none }

  -- The index of the child with the focus as an `int` in `size_t` arithmetic, -1 where there is none.
  unfoldable pub current_index : Window Ref → ℕ
  unfolding find_child
  current_index w = elim w.focused_child [
    | none ↦ 2 ^ 64 - 1
    | some child ↦ elim (find_child child w.children) [ none ↦ 2 ^ 64 - 1 | some i ↦ i ]
  ]

  -- The children at the indices from `index` on, in turn, until one can have the focus.
  unfoldable pub focus_first : S → Window Ref → List ℕ → S × Window Ref
  unfolding focus_child
  focus_first s w [] = (s, w)
  focus_first s w (i ∷ is) =
      let rest = focus_first s w is in
      elim (get_elem? w.children i) [
        | none ↦ rest
        | some child ↦ if C.can_focus s child then focus_child s w child else rest
      ]

  -- `(current_index + i) % n` and `(current_index - i + n) % n`, for i from 1 to n.
  unfoldable pub following : ℕ → ℕ → ℕ → ℕ → List ℕ
  following current n i zero = []
  following current n i (suc k) = ((current + i) % 2 ^ 64) % n ∷ following current n (suc i) k

  unfoldable pub preceding : ℕ → ℕ → ℕ → ℕ → List ℕ
  preceding current n i zero = []
  preceding current n i (suc k) =
      ((((current + 2 ^ 64) - i) + n) % 2 ^ 64) % n ∷ preceding current n (suc i) k

  unfoldable pub focus_next_child : S → Window Ref → S × Window Ref
  unfolding current_index focus_first following
  focus_next_child s w =
      let n = length w.children in focus_first s w (following (current_index w) n 1 n)

  unfoldable pub focus_previous_child : S → Window Ref → S × Window Ref
  unfolding current_index focus_first preceding
  focus_previous_child s w =
      let n = length w.children in focus_first s w (preceding (current_index w) n 1 n)

  -- The child with the focus has the event first.
  unfoldable pub offer : S → Option Ref → Event → Option S
  offer s none event = none
  offer s (some child) event = C.handle s child event

  unfoldable pub handle_event : S → Window Ref → Event → Option (S × Window Ref)
  unfolding offer focus_next_child
  handle_event s w event = elim (offer s w.focused_child event) [
    | some s' ↦ some (s', w)
    | none ↦ if is_key_press event && is_tab event.key then some (focus_next_child s w) else none
  ]
