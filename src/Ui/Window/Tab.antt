-- ===== src/Ui/Window/Tab.antt =====
-- Where Tab takes the focus: the search by indices against a search through the children in turn.
use booking.Prelude.{
  ℕ, zero, suc, ◌+◌, ◌-◌, ◌%◌, ◌≤◌, ◌<◌, ◌≡◌, refl, sym, ap, ◌∙◌, inl, inr, List, [], ◌∷◌, ◌++◌,
  Option, none, some, length, length-drop, take, drop, get_elem?, find_if, arith, Bool-cases,
  Option-cases,
}
use Prim.Native.Nat.{◌^◌}
use native.Mathlib.Nat.{mod-eq_of_lt, add-mod_left}
use booking.Ui.Window.{
  Children, Window, focus_child, find_child, current_index, focus_first, following,
  focus_next_child,
}

module _ {Ref : Type 0} where
  abbrev pub or_else : Option Ref → Option Ref → Option Ref
  or_else none o = o
  or_else (some c) o = some c

  -- The children at some indices.
  abbrev picked : List Ref → List ℕ → List Ref
  picked cs [] = []
  picked cs (i ∷ is) = elim (get_elem? cs i) [ none ↦ picked cs is | some c ↦ c ∷ picked cs is ]

  picked-append :
      (cs : List Ref) (is js : List ℕ) → picked cs (is ++ js) ≡ picked cs is ++ picked cs js
  picked-append cs [] js = refl
  picked-append cs (i ∷ is) js = elim (Option-cases (get_elem? cs i)) [
    | inl e ↦ rw (picked, e) (picked-append cs is js)
    | inr (c, e) ↦ rw (picked, e) (ap (◌∷◌ c) (picked-append cs is js))
  ]

  drop-get :
      (i : ℕ) (cs : List Ref)
      → i < length cs
      → (c : Ref) × (get_elem? cs i ≡ some c) × (drop i cs ≡ c ∷ drop (suc i) cs)
  drop-get i [] h = absurd (omega (arith, h))
  drop-get zero (c ∷ cs) h = (c, refl, refl)
  drop-get (suc i) (c ∷ cs) h = drop-get i cs (omega (arith, h))

-- The first indices of the walk stay below the number of children, the others start again.
below_index : (i n k : ℕ) → i + k < n → n < 2 ^ 63 → ((i + k) % 2 ^ 64) % n ≡ i + k
below_index i n k h b = ap (λ m. m % n) (mod-eq_of_lt (omega (arith, h, b))) ∙ mod-eq_of_lt h

around_index : (i n k j : ℕ) → i + k ≡ n + j → j < n → n < 2 ^ 63 → ((i + k) % 2 ^ 64) % n ≡ j
around_index i n k j e h b =
    ap (λ m. m % n) (mod-eq_of_lt (omega (arith, e, h, b)) ∙ e)
    ∙ (add-mod_left n j ∙ mod-eq_of_lt h)

module _ {S Ref : Type 0} (C : Children S Ref) where
  following-append :
      (i n k a b : ℕ) → following C i n k (a + b) ≡ following C i n k a ++ following C i n (k + a) b
  unfolding following
  following-append i n k zero b =
      ap (following C i n k) (let p : 0 + b ≡ b = omega arith in p)
      ∙ ap (λ q. following C i n q b) (let p : k ≡ k + 0 = omega arith in p)
  following-append i n k (suc a) b =
      ap (following C i n k) (let p : suc a + b ≡ suc (a + b) = omega arith in p)
      ∙ ap (◌∷◌ (((i + k) % 2 ^ 64) % n)) (
          following-append i n (suc k) a b
          ∙ ap (λ q. following C i n (suc k) a ++ following C i n q b)
              (let p : suc k + a ≡ k + suc a = omega arith in p))

  -- A stretch of the walk that meets the children from index j on.
  stretch :
      (cs : List Ref) (i k j m : ℕ)
      → ((d : ℕ) → d < m → ((i + (k + d)) % 2 ^ 64) % length cs ≡ j + d)
      → j + m ≤ length cs
      → picked cs (following C i (length cs) k m) ≡ take m (drop j cs)
  unfolding following
  stretch cs i k j zero f h = refl
  stretch cs i k j (suc m) f h =
      let (c, e, d) = drop-get j cs (omega (arith, h)) in
      let at : ((i + k) % 2 ^ 64) % length cs ≡ j =
        ap (λ q. ((i + q) % 2 ^ 64) % length cs) (let p : k ≡ k + 0 = omega arith in p)
        ∙ (f 0 (omega arith) ∙ (let p : j + 0 ≡ j = omega arith in p)) in
      let rest : picked cs (following C i (length cs) (suc k) m) ≡ take m (drop (suc j) cs) =
        stretch cs i (suc k) (suc j) m
          (λ d q.
            ap (λ r. ((i + r) % 2 ^ 64) % length cs)
              (let p : suc k + d ≡ k + suc d = omega arith in p)
            ∙ (f (suc d) (omega (arith, q)) ∙ (let p : j + suc d ≡ suc j + d = omega arith in p)))
          (omega (arith, h)) in
      ap
        (λ o. elim o [
          | none ↦ picked cs (following C i (length cs) (suc k) m)
          | some c' ↦ c' ∷ picked cs (following C i (length cs) (suc k) m)
        ])
        (ap (get_elem? cs) at ∙ e)
      ∙ (ap (◌∷◌ c) rest ∙ ap (take (suc m)) (sym d))

  -- The whole walk from the child at index i: the children behind it, then those up to it.
  walk :
      (cs : List Ref) (i : ℕ)
      → i < length cs
      → length cs < 2 ^ 63
      → picked cs (following C i (length cs) 1 (length cs)) ≡ drop (suc i) cs ++ take (suc i) cs
  walk cs i h b =
      let n = length cs in
      let a = n - suc i in
      ap (λ m. picked cs (following C i n 1 m)) (let p : n ≡ a + suc i = omega (arith, h) in p)
      ∙ (ap (picked cs) (following-append i n 1 a (suc i))
          ∙ (picked-append cs (following C i n 1 a) (following C i n (1 + a) (suc i))
              ∙ (ap (λ xs. xs ++ picked cs (following C i n (1 + a) (suc i)))
                    (stretch cs i 1 (suc i) a
                        (λ d q.
                          below_index i n (1 + d) (omega (arith, q)) b
                          ∙ (let p : i + (1 + d) ≡ suc i + d = omega arith in p))
                        (omega (arith, h))
                      ∙ take_rest (drop (suc i) cs) a (length-drop (suc i) cs))
                  ∙ ap (λ xs. drop (suc i) cs ++ xs)
                      (stretch cs i (1 + a) 0 (suc i)
                        (λ d q.
                          around_index i n (1 + a + d) d (omega (arith, h)) (omega (arith, q, h)) b
                          ∙ (let p : d ≡ 0 + d = omega arith in p))
                        (omega (arith, h))))))
    where
      take_rest : (xs : List Ref) (a : ℕ) → length xs ≡ a → take a xs ≡ xs
      take_rest [] zero e = refl
      take_rest [] (suc a) e = refl
      take_rest (x ∷ xs) zero e = absurd (omega (arith, e))
      take_rest (x ∷ xs) (suc a) e = ap (◌∷◌ x) (take_rest xs a (omega (arith, e)))

  -- The search by indices takes the first of the children met that can have the focus.
  focus_first-picked :
      (s : S) (w : Window Ref) (is : List ℕ)
      → (focus_first C s w is).1.focused_child
        ≡ or_else (find_if (C.can_focus s) (picked w.children is)) w.focused_child
  unfolding focus_first focus_child
  focus_first-picked s w [] = refl
  focus_first-picked s w (i ∷ is) = elim (Option-cases (get_elem? w.children i)) [
    | inl e ↦ rw (focus_first, picked, e) (focus_first-picked s w is)
    | inr (c, e) ↦ elim (Bool-cases (C.can_focus s c)) [
      | inl f ↦ rw (focus_first, picked, e, f) refl
      | inr f ↦ rw (focus_first, picked, e, f) (focus_first-picked s w is)
    ]
  ]

  find_child-lt :
      (child : Ref) (cs : List Ref) (i : ℕ) → find_child C child cs ≡ some i → i < length cs
  unfolding find_child
  find_child-lt child [] i e = absurd (ground (arith, e))
  find_child-lt child (c ∷ cs) i e = elim (Bool-cases (C.same c child)) [
    | inl h ↦ ground (arith, h, e)
    | inr h ↦ elim (Option-cases (find_child C child cs)) [
      | inl n ↦ absurd (ground (arith, h, n, e))
      | inr (j, m) ↦ ground (arith, h, m, e, find_child-lt child cs j m)
    ]
  ]

  -- Tab, from the child at index i, of fewer than 2^63: the focus goes to the first child that can
  -- have it, of those behind it in order, then of those from the first to itself; where none can,
  -- it stays.
  pub focus_next_child-cycles :
      (s : S) (w : Window Ref) (child : Ref) (i : ℕ)
      → w.focused_child ≡ some child
      → find_child C child w.children ≡ some i
      → length w.children < 2 ^ 63
      → (focus_next_child C s w).1.focused_child
        ≡ or_else
            (find_if (C.can_focus s) (drop (suc i) w.children ++ take (suc i) w.children))
            (some child)
  unfolding focus_next_child current_index
  focus_next_child-cycles s w child i f e b =
      let n = length w.children in
      let h = find_child-lt child w.children i e in
      focus_first-picked s w (following C (current_index C w) n 1 n)
      ∙ (ap
            (λ c.
              or_else (find_if (C.can_focus s) (picked w.children (following C c n 1 n)))
                w.focused_child)
            (index f e)
          ∙ (ap (λ xs. or_else (find_if (C.can_focus s) xs) w.focused_child) (walk w.children i h b)
              ∙ ap
                  (or_else
                    (find_if (C.can_focus s) (drop (suc i) w.children ++ take (suc i) w.children)))
                  f))
    where
      index :
          w.focused_child ≡ some child
          → find_child C child w.children ≡ some i
          → current_index C w ≡ i
      index f e =
          ap
            (λ o. elim o [
              | none ↦ 2 ^ 64 - 1
              | some child ↦ elim (find_child C child w.children) [ none ↦ 2 ^ 64 - 1 | some i ↦ i ]
            ])
            f
          ∙ ap (λ o. elim o [ none ↦ 2 ^ 64 - 1 | some i ↦ i ]) e
