-- ===== src/Ui/Menu/Bounds.antt =====
-- Where a menu draws: every text that it gives to ncurses lies within its bounds.
use booking.Prelude.{
  get_elem?-take, All-if, length-replicate, get_elem?-drop, ℕ, suc, ◌+◌, ◌-◌, ◌≤◌, ◌<◌, ◌≡◌, refl,
  inl, inr, true, false, List, [], ◌∷◌, ◌++◌, some, length, length-append, length-take, take, drop,
  get_elem?, All, All-append, arith, Bool-cases, ltb, leb, if◌then◌else◌,
}
use Prim.Native.Nat.{◌^◌}
use mathlib.Core.Path.{subst}
use booking.Prelude.Text.{Str, codes, is_empty}
use booking.Ui.Paint.Inside.{Inside, with_attr-Inside, frame-Inside}
use booking.Ui.Paint.{mvwprintw, sub_int}
use booking.Ui.Menu.{Menu, MenuItem, get_visible_height, get_content_width}
use booking.Ui.Menu.Draw.{
  row_attr, row_prefix, secondary_width, fit_text, draw_row, draw_rows, content_left, content_top,
  scroll_marks, shown_items, render,
}

fit_text-le :
    (width used : ℕ) (text : Str)
    → used + 3 ≤ width
    → used + length (fit_text width used text) ≤ width
unfolding fit_text
fit_text-le width used text h = elim (Bool-cases (ltb width (used + length text))) [
  | inl e ↦ rw (e, roomy) (omega (arith, dotted))
  | inr e ↦ rw e (not_more e)
]
  where
    roomy : leb (used + 3) width ≡ true
    roomy = ground arith

    dotted : used + length (take (width - used - 3) text ++ codes "...") ≤ width
    dotted = omega (
      arith,
      length-append (take (width - used - 3) text) (codes "..."),
      length-take (width - used - 3) text,
    )

    not_more : ltb width (used + length text) ≡ false → used + length text ≤ width
    not_more e = ground (arith, e)

-- An item has room for its prefix, for its secondary text and for three more columns.
abbrev pub Roomy : Menu → ℕ → MenuItem → Type 0
Roomy m index item = length (row_prefix m index) + secondary_width item + 3 ≤ get_content_width m

-- The content's columns lie within the bounds, whose columns are numbers of type `int`.
pub record Columns (m : Menu) (x : ℕ) : Type 0 where
  pub not_left : m.widget.bounds.left ≤ x
  pub not_right : x + get_content_width m ≤ m.widget.bounds.left + m.widget.bounds.width
  pub of_int : m.widget.bounds.left + m.widget.bounds.width < 2 ^ 31

module _ (m : Menu) (x : ℕ) (cols : Columns m x) where
  secondary-Inside :
      (y : ℕ) (item : MenuItem)
      → m.widget.bounds.top ≤ y
      → y < m.widget.bounds.top + m.widget.bounds.height
      → secondary_width item ≤ get_content_width m
      → All (Inside m.widget.bounds) (
          if is_empty item.secondary_text
          then []
          else mvwprintw y
              (sub_int (x + get_content_width m) (length item.secondary_text))
              item.secondary_text
            ∷ [])
  secondary-Inside y item a b h = elim (Bool-cases (is_empty item.secondary_text)) [
    | inl e ↦ rw e tt
    | inr e ↦ rw e (omega (arith, column e, cols.not_left, cols.not_right, a, b, short e))
  ]
    where
      short :
          is_empty item.secondary_text ≡ false
          → length item.secondary_text + 1 ≤ get_content_width m
      short e = ground (arith, e, h)

      column :
          is_empty item.secondary_text ≡ false
          → sub_int (x + get_content_width m) (length item.secondary_text)
            ≡ x + get_content_width m - length item.secondary_text
      column e = omega (arith, short e, cols.not_right, cols.of_int)

  row-Inside :
      (y index : ℕ) (item : MenuItem)
      → m.widget.bounds.top ≤ y
      → y < m.widget.bounds.top + m.widget.bounds.height
      → Roomy m index item
      → All (Inside m.widget.bounds) (draw_row m x y index item)
  unfolding draw_row
  row-Inside y index item a b h =
      let W = get_content_width m in
      let prefix = row_prefix m index in
      let text = fit_text W (length prefix + secondary_width item) item.text in
      (
        omega (arith, length-replicate {A = ℕ} W b' ', cols.not_left, cols.not_right),
        with_attr-Inside m.widget.bounds (row_attr m index item) _ (
          omega (
            arith,
            length-append prefix text,
            fit_text-le W (length prefix + secondary_width item) item.text h,
            cols.not_left,
            cols.not_right,
          ),
          secondary-Inside y item a b (omega (arith, h)),
        ),
      )

  rows-Inside :
      (y index : ℕ) (items : List MenuItem)
      → m.widget.bounds.top ≤ y
      → y + length items ≤ m.widget.bounds.top + m.widget.bounds.height
      → ((j : ℕ) (item : MenuItem) → get_elem? items j ≡ some item → Roomy m (index + j) item)
      → All (Inside m.widget.bounds) (draw_rows m x y index items)
  unfolding draw_rows
  rows-Inside y index [] a b h = tt
  rows-Inside y index (item ∷ items) a b h =
      All-append (Inside m.widget.bounds) (draw_row m x y index item) _
        (row-Inside y index item a (omega (arith, b)) (
          subst (λ n. Roomy m n item) (let p : index + 0 ≡ index = omega arith in p)
            (h 0 item refl)))
        (rows-Inside (suc y) (suc index) items (omega (arith, a)) (omega (arith, b)) (λ j i e.
          subst (λ n. Roomy m n i) (let p : index + suc j ≡ suc index + j = omega arith in p)
            (h (suc j) i e)))

-- A menu that is at least one column wide and one row high, or two and three with a border, on a
-- screen whose columns are of type `int`, and in which every item has room.
pub record Drawable (m : Menu) : Type 0 where
  pub wide : (if m.bordered then 2 else 1) ≤ m.widget.bounds.width
  pub high : (if m.bordered then 3 else 1) ≤ m.widget.bounds.height
  pub of_int : m.widget.bounds.left + m.widget.bounds.width < 2 ^ 31
  pub roomy : (i : ℕ) (item : MenuItem) → get_elem? m.items i ≡ some item → Roomy m i item

module _ (m : Menu) (d : Drawable m) where
  at_least_one : (1 ≤ m.widget.bounds.width) × (1 ≤ m.widget.bounds.height)
  at_least_one = ground (arith, d.wide, d.high)

  content-Columns : Columns m (content_left m)
  unfolding get_content_width
  content-Columns = record {
    not_left = ground (arith, d.wide);
    not_right = ground (arith, d.wide);
    of_int = d.of_int;
  }

  content_rows :
      (m.widget.bounds.top ≤ content_top m)
      × (content_top m + get_visible_height m ≤ m.widget.bounds.top + m.widget.bounds.height)
  unfolding get_visible_height
  content_rows = ground (arith, d.high)

  marks-Inside : All (Inside m.widget.bounds) (scroll_marks m)
  unfolding scroll_marks get_visible_height
  marks-Inside = ground (arith, d.wide, d.high)

  shown-Roomy :
      (j : ℕ) (item : MenuItem)
      → get_elem? (shown_items m) j ≡ some item
      → Roomy m (m.scroll_offset + j) item
  shown-Roomy j item e = d.roomy (m.scroll_offset + j) item (
      get_elem?-drop m.scroll_offset m.items j item
        (get_elem?-take (get_visible_height m) (drop m.scroll_offset m.items) j item e))

  shown-rows : content_top m + length (shown_items m) ≤ m.widget.bounds.top + m.widget.bounds.height
  shown-rows =
      omega (arith, content_rows, length-take (get_visible_height m) (drop m.scroll_offset m.items))

  -- A menu whose items have room draws no text outside its bounds: not its frame with the title, not
  -- the rows of its items, however long these are, nor the marks for more items.
  pub render-Inside : All (Inside m.widget.bounds) (render m)
  unfolding render
  render-Inside = All-if (Inside m.widget.bounds) m.widget.visible _ (
      All-append (Inside m.widget.bounds) _ _
        (All-if (Inside m.widget.bounds) m.bordered _
          (frame-Inside m.widget.bounds at_least_one.0 at_least_one.1 m.title))
        (All-append (Inside m.widget.bounds) _ _
          (rows-Inside m (content_left m) content-Columns (content_top m) m.scroll_offset
            (shown_items m) content_rows.0 shown-rows shown-Roomy)
          marks-Inside))
