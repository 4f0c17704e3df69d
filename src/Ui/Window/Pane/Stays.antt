-- ===== src/Ui/Window/Pane/Stays.antt =====
-- What a window draws, it draws in the window of ncurses that it keeps, or on the standard screen.
use booking.Prelude.{
  All-append, ℕ, ◌≡◌, refl, Bool, true, false, List, [], ◌∷◌, ◌++◌, map, All, All-if, Option, none,
  some, ◌>>=◌, if◌then◌else◌,
}
use booking.Prelude.Text.{Str}
use booking.Ui.Paint.{Attr, Paint}
use booking.Ui.TextInput.Draw as InputDraw
use booking.Ui.Menu.Draw as MenuDraw
use booking.Ui.Label
use booking.Ui.Window.Pane.{
  shown, other, label, menu, text_input, render_child, render_children, Call, paint, Pane,
  title_call, draw_border, draw_text_attr, Child, render,
}
use booking.Ui.Window.Pane.Follow.{Stays, holds, map-Stays, if_holds, holds_refl, holds_stdscr}

module _ (p : Pane) where
  pub on_own : (if holds p.window p.window then some p.window else none) ≡ some p.window
  on_own = if_holds p.window p.window (holds_refl p.window)

  pub border-Stays : All (Stays p.window) (draw_border p)
  unfolding draw_border
  border-Stays = (on_own, All-if (Stays p.window) _ (title_call p ∷ []) (on_own, tt))

  pub text-Stays :
      (x y : ℕ) (t : Str) (attrs : List Attr) → All (Stays p.window) (draw_text_attr x y t attrs p)
  unfolding draw_text_attr
  text-Stays x y t [] = (on_own, tt)
  text-Stays x y t (a ∷ attrs) = (on_own, (on_own, (on_own, tt)))

-- The same where the window is not changed.
abbrev pub AllStay : Option ℕ → Option (List Call) → Type 0
AllStay w none = Unit
AllStay w (some cs) = All (Stays w) cs

append-AllStay :
    (w : Option ℕ) (a b : Option (List Call))
    → AllStay w a
    → AllStay w b
    → AllStay w (do xs ← a; ys ← b; some (xs ++ ys))
append-AllStay w none b h k = tt
append-AllStay w (some xs) none h k = tt
append-AllStay w (some xs) (some ys) h k = All-append (Stays w) xs ys h k

then-AllStay :
    (w : Option ℕ) (o : Option (List Call)) (f : List Call → List Call)
    → ((xs : List Call) → All (Stays w) xs → All (Stays w) (f xs))
    → AllStay w o
    → AllStay w (do xs ← o; some (f xs))
then-AllStay w none f k h = tt
then-AllStay w (some xs) f k h = k xs h

if-AllStay :
    (w : Option ℕ) (b : Bool) (o : Option (List Call))
    → AllStay w o
    → AllStay w (if b then o else some [])
if-AllStay w true o h = h
if-AllStay w false o h = tt

drawn-AllStay :
    (w : Option ℕ) (o : Option (List Paint)) → AllStay w (do ps ← o; some (map (paint w) ps))
drawn-AllStay w none = tt
drawn-AllStay w (some ps) = map-Stays w w (holds_refl w) ps

child-AllStay : (w : Option ℕ) (c : Child) → AllStay w (render_child w c)
unfolding render_child
child-AllStay w (text_input t) =
    if-AllStay w t.widget.visible _ (drawn-AllStay w (InputDraw.render t))
child-AllStay w (menu m) =
    All-if (Stays w) m.widget.visible _ (map-Stays w w (holds_refl w) (MenuDraw.render m))
child-AllStay w (label l) =
    All-if (Stays w) l.widget.visible _ (map-Stays w w (holds_refl w) (Label.render l))
child-AllStay w (other b ps) = All-if (Stays w) b _ (map-Stays w none (holds_stdscr w) ps)

children-AllStay : (w : Option ℕ) (cs : List Child) → AllStay w (render_children w cs)
unfolding render_children
children-AllStay w [] = tt
children-AllStay w (c ∷ cs) =
    append-AllStay w (render_child w c) (render_children w cs) (child-AllStay w c)
      (children-AllStay w cs)

module _ (p : Pane) (cs : List Child) where
  shown-AllStay : AllStay p.window (shown p cs)
  shown-AllStay =
      then-AllStay p.window (render_children p.window cs) _
        (λ xs h. (
          on_own p,
          All-append (Stays p.window) (if p.bordered then draw_border p else []) _
              (All-if (Stays p.window) p.bordered (draw_border p) (border-Stays p))
              (All-append (Stays p.window) xs _ h (on_own p, tt)),
        ))
        (children-AllStay p.window cs)

  pub render-AllStay : AllStay p.window (render p cs)
  unfolding render
  render-AllStay =
      then-AllStay p.window (if p.visible then shown p cs else some []) _
        (λ xs h. (refl, (refl, h))) (if-AllStay p.window p.visible (shown p cs) shown-AllStay)
