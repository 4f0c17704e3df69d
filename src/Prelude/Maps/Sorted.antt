-- ===== src/Prelude/Maps/Sorted.antt =====
-- Maps whose keys ascend, so that no key stands twice. `insert` and `erase` keep them so.
use booking.Prelude.{
  ◌≡◌, refl, ap, Bool, true, false, [], ◌∷◌, none, some, arith, remove_if, if◌then◌else◌,
  Bool-cases, inl, inr,
}
use booking.Prelude.Text.{Str, str_eq, str_ltb, str_eq_iff}
use booking.Prelude.Maps.{Map, lookup, insert, erase}

str_ltb_trans : (a b c : Str) → str_ltb a b ≡ true → str_ltb b c ≡ true → str_ltb a c ≡ true
unfolding str_ltb
str_ltb_trans [] [] c h k = cc
str_ltb_trans [] (y ∷ b) [] h k = cc
str_ltb_trans [] (y ∷ b) (z ∷ c) h k = refl
str_ltb_trans (x ∷ a) [] c h k = cc
str_ltb_trans (x ∷ a) (y ∷ b) [] h k = cc
str_ltb_trans (x ∷ a) (y ∷ b) (z ∷ c) h k = ground (arith, str_ltb_trans a b c)

str_ltb_irrefl : (a : Str) → str_ltb a a ≡ false
unfolding str_ltb
str_ltb_irrefl [] = refl
str_ltb_irrefl (x ∷ a) = ground (arith, str_ltb_irrefl a)

-- Of two texts that differ, one comes first.
str_ltb_total : (a b : Str) → str_eq a b ≡ false → str_ltb b a ≡ false → str_ltb a b ≡ true
unfolding str_ltb str_eq
str_ltb_total [] [] h k = cc
str_ltb_total [] (y ∷ b) h k = refl
str_ltb_total (x ∷ a) [] h k = cc
str_ltb_total (x ∷ a) (y ∷ b) h k = ground (arith, str_ltb_total a b)

module _ {ℓ} {V : Type ℓ} where
  -- All keys come after this one.
  abbrev pub Above : Str → Map V → Type 0
  Above k [] = Unit
  Above k ((j, v) ∷ m) = (str_ltb k j ≡ true) × Above k m

  abbrev pub IsSorted : Map V → Type 0
  IsSorted [] = Unit
  IsSorted ((k, v) ∷ m) = Above k m × IsSorted m

  Above-trans : (k j : Str) (m : Map V) → str_ltb k j ≡ true → Above j m → Above k m
  Above-trans k j [] h a = tt
  Above-trans k j ((i, v) ∷ m) h a = (str_ltb_trans k j i h a.0, Above-trans k j m h a.1)

  Above-insert :
      (k j : Str) (v : V) (m : Map V) → str_ltb k j ≡ true → Above k m → Above k (insert j v m)
  unfolding insert
  Above-insert k j v [] h a = (h, tt)
  Above-insert k j v ((i, w) ∷ m) h a = ground (arith, Above-insert k j v m)

  pub insert-IsSorted : (k : Str) (v : V) (m : Map V) → IsSorted m → IsSorted (insert k v m)
  unfolding insert
  insert-IsSorted k v [] s = (tt, tt)
  insert-IsSorted k v ((j, w) ∷ m) s = elim (Bool-cases (str_eq j k)) [
    | inl e ↦ rw (e, ← (str_eq_iff j k).0 e) s
    | inr e ↦ elim (Bool-cases (str_ltb k j)) [
      | inl l ↦ rw (e, l) ((l, Above-trans k j m l s.0), s)
      | inr l ↦
          rw (e, l) (Above-insert j k v m (str_ltb_total j k e l) s.0, insert-IsSorted k v m s.1)
    ]
  ]

  -- An entry list without some of its entries.
  Above-remove_if : (p : Str × V → Bool) (k : Str) (m : Map V) → Above k m → Above k (remove_if p m)
  Above-remove_if p k [] a = tt
  Above-remove_if p k (e ∷ m) a = elim (Bool-cases (p e)) [
    | inl h ↦ rw h (Above-remove_if p k m a.1)
    | inr h ↦ rw h (a.0, Above-remove_if p k m a.1)
  ]

  pub remove_if-IsSorted : (p : Str × V → Bool) (m : Map V) → IsSorted m → IsSorted (remove_if p m)
  remove_if-IsSorted p [] s = tt
  remove_if-IsSorted p ((k, v) ∷ m) s = elim (Bool-cases (p (k, v))) [
    | inl h ↦ rw h (remove_if-IsSorted p m s.1)
    | inr h ↦ rw h (Above-remove_if p k m s.0, remove_if-IsSorted p m s.1)
  ]

  erase-remove_if : (k : Str) (m : Map V) → erase k m ≡ remove_if (λ e. str_eq e.0 k) m
  unfolding erase
  erase-remove_if k [] = refl
  erase-remove_if k ((j, v) ∷ m) = ground (arith, erase-remove_if k m)

  pub erase-IsSorted : (k : Str) (m : Map V) → IsSorted m → IsSorted (erase k m)
  erase-IsSorted k m s = rw (erase-remove_if k m) (remove_if-IsSorted _ m s)

  lookup-Above : (k : Str) (m : Map V) → Above k m → lookup k m ≡ none
  unfolding lookup
  lookup-Above k [] a = refl
  lookup-Above k ((j, v) ∷ m) a = ground (arith, str_eq_iff j k, str_ltb_irrefl k, lookup-Above k m)

  -- Dropping entries of a sorted map by a test drops the entry that a key finds, or none.
  pub lookup-remove_if :
      (p : Str × V → Bool) (k : Str) (m : Map V)
      → IsSorted m
      → lookup k (remove_if p m)
        ≡ elim (lookup k m) [ none ↦ none | some v ↦ if p (k, v) then none else some v ]
  unfolding lookup
  lookup-remove_if p k [] s = refl
  lookup-remove_if p k ((j, v) ∷ m) s = elim (Bool-cases (str_eq j k)) [
    | inl e ↦
        let gone : lookup k m ≡ none = rw (← (str_eq_iff j k).0 e) (lookup-Above j m s.0) in
        let same : p (j, v) ≡ p (k, v) = ap (λ l. p (l, v)) ((str_eq_iff j k).0 e) in
        rw (e, same)
          (elim (Bool-cases (p (k, v))) [
            | inl h ↦ rw (h, lookup-remove_if p k m s.1, gone) refl
            | inr h ↦ rw (h, e) refl
          ])
    | inr e ↦ rw e (elim (Bool-cases (p (j, v))) [
      | inl h ↦ rw h (lookup-remove_if p k m s.1)
      | inr h ↦ rw (h, e) (lookup-remove_if p k m s.1)
    ])
  ]
