-- ===== src/Ui/Window/Focus.antt =====
-- The focus among the children of a window: one child at most has it, and the window knows which.
use booking.Prelude.{
  some-injective, ℕ, ◌≡◌, refl, ap, ◌∙◌, ◌↔◌, ◌⊎◌, inl, inr, Bool, true, false, List, [], ◌∷◌, ◌++◌,
  Option, none, some, get_elem?, arith, Bool-cases, Option-cases, if◌then◌else◌,
}
use mathlib.Core.Path.{subst}
use booking.Ui.Window.{
  Children, Window, unfocus, focus_child, add_child, focus_first, focus_next_child,
  focus_previous_child,
}

-- What a window relies on: the flag of a child, which only setting it changes, where the child can
-- have the focus; and a test of identity.
pub record ChildrenLaws {S Ref : Type 0} (C : Children S Ref) (focused : S → Ref → Bool)
    : Type 0 where
  pub same_iff : (a b : Ref) → (C.same a b ≡ true) ↔ (a ≡ b)
  pub focused-set_focus :
      (s : S) (r : Ref) (b : Bool) (q : Ref)
      → C.can_focus s r ≡ true
      → focused (C.set_focus s r b) q ≡ (if C.same r q then b else focused s q)
  pub can_focus-set_focus :
      (s : S) (r : Ref) (b : Bool) (q : Ref) → C.can_focus (C.set_focus s r b) q ≡ C.can_focus s q

-- The child that the window has as focused, and no other, has the flag, and it can have it.
pub record Sole {S Ref : Type 0} (C : Children S Ref) (focused : S → Ref → Bool) (s : S)
    (o : Option Ref) : Type 0 where
  pub flagged : (r : Ref) → focused s r ≡ true → o ≡ some r
  pub held : (r : Ref) → o ≡ some r → (focused s r ≡ true) × (C.can_focus s r ≡ true)

-- What moves the focus.
pub data Move (Ref : Type 0) : Type 0 where
  adds focuses : Ref → Move Ref
  tabs tabs_back : Move Ref

module _ {S Ref : Type 0} (C : Children S Ref) where
  unfoldable pub move : S × Window Ref → Move Ref → S × Window Ref
  move (s, w) (adds child) = add_child C s w child
  move (s, w) (focuses child) = focus_child C s w child
  move (s, w) tabs = focus_next_child C s w
  move (s, w) tabs_back = focus_previous_child C s w

  unfoldable pub move_all : S × Window Ref → List (Move Ref) → S × Window Ref
  unfolding move
  move_all u [] = u
  move_all u (m ∷ ms) = move_all (move u m) ms

module _ {S Ref : Type 0} (C : Children S Ref) (focused : S → Ref → Bool)
    (laws : ChildrenLaws C focused) where
  unfocus-none :
      (s : S) (o : Option Ref) (q : Ref) → Sole C focused s o → focused (unfocus C s o) q ≡ false
  unfolding unfocus
  unfocus-none s none q h = elim (Bool-cases (focused s q)) [
    | inl e ↦ absurd (ground (arith, h.flagged q e))
    | inr e ↦ e
  ]
  unfocus-none s (some old) q h =
      laws.focused-set_focus s old false q (h.held old refl).1
      ∙ others (Bool-cases (C.same old q)) (Bool-cases (focused s q))
    where
      others :
          (C.same old q ≡ true) ⊎ (C.same old q ≡ false)
          → (focused s q ≡ true) ⊎ (focused s q ≡ false)
          → (if C.same old q then false else focused s q) ≡ false
      others (inl e) f = rw e refl
      others (inr e) (inr f) = rw (e, f) refl
      others (inr e) (inl f) =
          absurd (ground (arith, e, (laws.same_iff old q).1 (some-injective old q (h.flagged q f))))

  unfocus-can_focus :
      (s : S) (o : Option Ref) (q : Ref) → C.can_focus (unfocus C s o) q ≡ C.can_focus s q
  unfolding unfocus
  unfocus-can_focus s none q = refl
  unfocus-can_focus s (some old) q = laws.can_focus-set_focus s old false q

  focused_now :
      (s : S) (o : Option Ref) (child : Ref)
      → Sole C focused s o
      → C.can_focus s child ≡ true
      → Sole C focused (C.set_focus (unfocus C s o) child true) (some child)
  focused_now s o child h c = record {
    flagged = λ r f. ap some (only r f (Bool-cases (C.same child r)));
    held = λ r e. (
      flag r
          ∙ ap (λ b. if b then true else focused (unfocus C s o) r)
              ((laws.same_iff child r).1 (some-injective child r e)),
      laws.can_focus-set_focus (unfocus C s o) child true r
          ∙ (unfocus-can_focus s o r
              ∙ subst (λ q. C.can_focus s q ≡ true) (some-injective child r e) c),
    );
  }
    where
      flag :
          (r : Ref)
          → focused (C.set_focus (unfocus C s o) child true) r
            ≡ (if C.same child r then true else focused (unfocus C s o) r)
      flag r = laws.focused-set_focus (unfocus C s o) child true r (unfocus-can_focus s o child ∙ c)

      only :
          (r : Ref)
          → focused (C.set_focus (unfocus C s o) child true) r ≡ true
          → (C.same child r ≡ true) ⊎ (C.same child r ≡ false)
          → child ≡ r
      only r f (inl e) = (laws.same_iff child r).0 e
      only r f (inr e) = absurd (ground (arith, f, flag r, e, unfocus-none s o r h))

  focus_child-Sole :
      (s : S) (w : Window Ref) (child : Ref)
      → Sole C focused s w.focused_child
      → Sole C focused (focus_child C s w child).0 (focus_child C s w child).1.focused_child
  unfolding focus_child
  focus_child-Sole s w child h = elim (Bool-cases (C.can_focus s child)) [
    | inl e ↦ rw (focus_child, e) (focused_now s w.focused_child child h e)
    | inr e ↦ rw (focus_child, e) h
  ]

  added-Sole :
      (s : S) (cs : List Ref) (o : Option Ref) (child : Ref)
      → Sole C focused s o
      → Sole C focused
          (add_child C s (record { children = cs; focused_child = o }) child).0
          (add_child C s (record { children = cs; focused_child = o }) child).1.focused_child
  unfolding add_child
  added-Sole s cs none child h =
      focus_child-Sole s (record { children = cs ++ (child ∷ []); focused_child = none }) child h
  added-Sole s cs (some old) child h = h

  focus_first-Sole :
      (s : S) (w : Window Ref) (is : List ℕ)
      → Sole C focused s w.focused_child
      → Sole C focused (focus_first C s w is).0 (focus_first C s w is).1.focused_child
  unfolding focus_first
  focus_first-Sole s w [] h = h
  focus_first-Sole s w (i ∷ is) h = elim (Option-cases (get_elem? w.children i)) [
    | inl e ↦ rw (focus_first, e) (focus_first-Sole s w is h)
    | inr (child, e) ↦ elim (Bool-cases (C.can_focus s child)) [
      | inl c ↦ rw (focus_first, e, c) (focused_now s w.focused_child child h c)
      | inr c ↦ rw (focus_first, e, c) (focus_first-Sole s w is h)
    ]
  ]

  move-Sole :
      (u : S × Window Ref) (m : Move Ref)
      → Sole C focused u.0 u.1.focused_child
      → Sole C focused (move C u m).0 (move C u m).1.focused_child
  unfolding move focus_next_child focus_previous_child
  move-Sole (s, w) (adds child) h = added-Sole s w.children w.focused_child child h
  move-Sole (s, w) (focuses child) h = focus_child-Sole s w child h
  move-Sole (s, w) tabs h = focus_first-Sole s w _ h
  move-Sole (s, w) tabs_back h = focus_first-Sole s w _ h

  -- If the focused child of a window, and no other, has the focus flag, then so it is after any
  -- children are added or given the focus and after any steps by Tab, forwards or backwards.
  pub move_all-Sole :
      (u : S × Window Ref) (ms : List (Move Ref))
      → Sole C focused u.0 u.1.focused_child
      → Sole C focused (move_all C u ms).0 (move_all C u ms).1.focused_child
  unfolding move_all
  move_all-Sole u [] h = h
  move_all-Sole u (m ∷ ms) h = move_all-Sole (move C u m) ms (move-Sole u m h)
