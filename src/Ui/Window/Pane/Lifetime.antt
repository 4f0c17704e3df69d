-- ===== src/Ui/Window/Pane/Lifetime.antt =====
-- How long the windows of ncurses live that a `ui::Window` makes.
use booking.Prelude.Runs.{run_all, run_all-append}
use booking.Ui.Window.Pane.Follow.{follow, follow_all, follow_all-Stays, holds_refl}
use booking.Prelude.{
  ℕ, ==_refl, ◌≡◌, refl, Bool, true, false, List, [], ◌∷◌, ◌++◌, Option, none, some, ◌>>=◌,
  if◌then◌else◌,
}
use mathlib.Core.Path.{subst, ◌∙◌}
use booking.Prelude.Text.{Str}
use booking.Ui.{Rect}
use booking.Ui.Paint.{Attr}
use booking.Ui.Window.Pane.{
  new_pane, destroy, Call, newwin, mvwin, Pane, recreate, set_bounds, set_size, set_position,
  draw_border, draw_text_attr, clear, erase, move_cursor, set_cursor_visible, set_scrollable,
  refresh_now, Child, render,
}
use booking.Ui.Window.Pane.Stays.{AllStay, on_own, border-Stays, text-Stays, render-AllStay}

-- What is done to a window between its constructor and its destructor.
pub data Operation : Type 0 where
  bounded : Rect → Option ℕ → Operation
  size : ℕ → ℕ → Option ℕ → Operation
  position : ℕ → ℕ → Operation
  resize : Option ℕ → Operation
  titles : Str → Operation
  bordered visible : Bool → Operation
  border clears erases refreshes : Operation
  writes : ℕ → ℕ → Str → List Attr → Operation
  cursor : ℕ → ℕ → Operation
  cursor_visible : ℕ → Operation
  scrollable : Bool → Operation
  renders : List Child → Operation

-- The window with what it asks of ncurses; none is an exception.
unfoldable pub perform : Pane → Operation → Option (Pane × List Call)
perform p (bounded r answer) = some (set_bounds r answer p)
perform p (size width height answer) = some (set_size width height answer p)
perform p (position x y) = some (set_position x y p, [])
perform p (resize answer) = some (recreate answer p)
perform p (titles t) = some (record p { title = t }, [])
perform p (bordered b) = some (record p { bordered = b }, [])
perform p (visible b) = some (record p { visible = b }, [])
perform p border = some (p, draw_border p)
perform p clears = some (p, clear p)
perform p erases = some (p, erase p)
perform p refreshes = some (p, refresh_now p)
perform p (writes x y t attrs) = some (p, draw_text_attr x y t attrs p)
perform p (cursor x y) = some (p, move_cursor x y p)
perform p (cursor_visible visibility) = some (p, set_cursor_visible visibility p)
perform p (scrollable b) = some (p, set_scrollable b p)
perform p (renders children) = render p children >>= λ cs. some (p, cs)

unfoldable pub perform_all : Pane → List Operation → Option (Pane × List Call)
unfolding perform
perform_all p [] = some (p, [])
perform_all p (o ∷ os) = do
  (p₁, first) ← perform p o
  (p₂, rest) ← perform_all p₁ os
  some (p₂, first ++ rest)

-- What an operation leaves and asks for: the window that there is behind its calls is the one that
-- it keeps. An exception asks for nothing more.
abbrev Follows : Pane → Option (Pane × List Call) → Type 0
Follows p none = Unit
Follows p (some (p', cs)) = follow_all p.window cs ≡ some p'.window

-- The window is deleted before the next is made.
destroyed :
    (p : Pane) (w : Option ℕ) (b : Rect) (answer : Option ℕ)
    → follow_all w (destroy (record p { window = w }) ++ (newwin b answer ∷ [])) ≡ some answer
unfolding destroy run_all
destroyed p none b answer = refl
destroyed p (some n) b answer = rw (==_refl n) refl

recreate-Follows : (answer : Option ℕ) (p : Pane) → Follows p (some (recreate answer p))
unfolding recreate
recreate-Follows answer p = destroyed p p.window p.bounds answer

set_bounds-Follows :
    (b : Rect) (answer : Option ℕ) (p : Pane) → Follows p (some (set_bounds b answer p))
unfolding set_bounds
set_bounds-Follows b answer p = same _
  where
    same :
        (t : Bool)
        → Follows p (
            some (
              if t
              then (record p { bounds = b }, mvwin p.window b.top b.left ∷ [])
              else recreate answer (record p { bounds = b })))
    same true = follow_all-Stays p.window _ (on_own p, tt)
    same false = recreate-Follows answer (record p { bounds = b })

set_size-Follows :
    (width height : ℕ) (answer : Option ℕ) (p : Pane)
    → Follows p (some (set_size width height answer p))
unfolding set_size
set_size-Follows width height answer p =
    recreate-Follows answer
      (record p { bounds = record p.bounds { width = width; height = height } })

stay-Follows :
    (p : Pane) (o : Option (List Call)) → AllStay p.window o → Follows p (do cs ← o; some (p, cs))
stay-Follows p none h = tt
stay-Follows p (some cs) h = follow_all-Stays p.window cs h

perform-Follows : (p : Pane) (o : Operation) → Follows p (perform p o)
unfolding perform run_all
perform-Follows p (bounded r answer) = set_bounds-Follows r answer p
perform-Follows p (size width height answer) = set_size-Follows width height answer p
perform-Follows p (position x y) = refl
perform-Follows p (resize answer) = recreate-Follows answer p
perform-Follows p (titles t) = refl
perform-Follows p (bordered b) = refl
perform-Follows p (visible b) = refl
perform-Follows p border = stay-Follows p (some (draw_border p)) (border-Stays p)
perform-Follows p clears = stay-Follows p (some (clear p)) (on_own p, tt)
perform-Follows p erases = stay-Follows p (some (erase p)) (on_own p, tt)
perform-Follows p refreshes = stay-Follows p (some (refresh_now p)) (on_own p, tt)
perform-Follows p (writes x y t attrs) =
    stay-Follows p (some (draw_text_attr x y t attrs p)) (text-Stays p x y t attrs)
perform-Follows p (cursor x y) = stay-Follows p (some (move_cursor x y p)) (on_own p, tt)
perform-Follows p (cursor_visible visibility) = refl
perform-Follows p (scrollable b) = stay-Follows p (some (set_scrollable b p)) (on_own p, tt)
perform-Follows p (renders cs) = stay-Follows p (render p cs) (render-AllStay p cs)

join-Follows :
    (p q : Pane) (cs : List Call) (r : Option (Pane × List Call))
    → follow_all p.window cs ≡ some q.window
    → Follows q r
    → Follows p (do (p', ds) ← r; some (p', cs ++ ds))
join-Follows p q cs none h k = tt
join-Follows p q cs (some (p', ds)) h k = run_all-append follow cs p.window q.window ds h ∙ k

perform_all-Follows : (p : Pane) (os : List Operation) → Follows p (perform_all p os)
unfolding perform_all run_all
perform_all-Follows p [] = refl
perform_all-Follows p (o ∷ os) =
    first (perform p o) (perform-Follows p o) (λ q. perform_all-Follows q os)
  where
    first :
        (r : Option (Pane × List Call))
        → Follows p r
        → ((q : Pane) → Follows q (perform_all q os))
        → Follows p (do (p₁, cs) ← r; (p₂, ds) ← perform_all p₁ os; some (p₂, cs ++ ds))
    first none h k = tt
    first (some (q, cs)) h k = join-Follows p q cs (perform_all q os) h (k q)

new_pane-follows :
    (has_colors : Bool) (r : Rect) (answer : Option ℕ)
    → follow_all none (new_pane has_colors r answer).1 ≡ some answer
unfolding new_pane run_all
new_pane-follows true r answer = rw (holds_refl answer) refl
new_pane-follows false r answer = refl

destroy-follows :
    (p : Pane) (w : Option ℕ) → follow_all w (destroy (record p { window = w })) ≡ some none
unfolding destroy run_all
destroy-follows p none = refl
destroy-follows p (some n) = rw (==_refl n) refl

-- A window of the widget library, from its constructor through any operations, at whatever `newwin`
-- answers, to its destructor: each window of ncurses that is made is deleted before the next is
-- made, and the last by the destructor; none is deleted twice; and nothing is drawn in a window
-- that is not there.
pub perform_all-deletes :
    (has_colors : Bool) (r : Rect) (answer : Option ℕ) (os : List Operation) (p : Pane)
    (calls : List Call)
    → perform_all (new_pane has_colors r answer).0 os ≡ some (p, calls)
    → follow_all none ((new_pane has_colors r answer).1 ++ (calls ++ destroy p)) ≡ some none
unfolding new_pane
perform_all-deletes has_colors r answer os p calls h =
    let q = (new_pane has_colors r answer).0 in
    run_all-append follow (new_pane has_colors r answer).1 none answer (calls ++ destroy p)
      (new_pane-follows has_colors r answer)
    ∙ (run_all-append follow calls answer p.window (destroy p)
          (subst (Follows q) h (perform_all-Follows q os))
        ∙ destroy-follows p p.window)
