-- ===== src/Ui/Window/Pane/Follow.antt =====
-- The windows of ncurses that there are along some calls.
use booking.Prelude.Runs.{run_all}
use booking.Prelude.{
  ℕ, ◌==◌, ==_refl, ◌≡◌, refl, Bool, true, false, List, [], ◌∷◌, map, All, Option, none, some,
  ◌>>=◌, if◌then◌else◌,
}
use mathlib.Core.Path.{◌∙◌, ap}
use booking.Ui.Paint.{Paint}
use booking.Ui.Window.Pane.{
  Call, newwin, delwin, mvwin, paint, attr_on, attr_off, scrollok, wclear, curs_set, printw,
  refresh,
}

-- Whether a call may be made for this window while `live` is the one that there is.
abbrev pub holds : Option ℕ → Option ℕ → Bool
holds live none = true
holds none (some n) = false
holds (some m) (some n) = m == n

-- The window that there is after a call. It is none where the call makes a second window, deletes
-- a window that there is not, or is made for one.
abbrev pub follow : Call → Option ℕ → Option (Option ℕ)
follow (newwin bounds answer) none = some answer
follow (newwin bounds answer) (some m) = none
follow (delwin n) none = none
follow (delwin n) (some m) = if m == n then some none else none
follow (mvwin w y x) live = if holds live w then some live else none
follow (paint w p) live = if holds live w then some live else none
follow (attr_on w attrs) live = if holds live w then some live else none
follow (attr_off w attrs) live = if holds live w then some live else none
follow (scrollok w scrollable) live = if holds live w then some live else none
follow (wclear w) live = if holds live w then some live else none
follow (curs_set visibility) live = some live
follow (printw text) live = some live
follow refresh live = some live

abbrev pub follow_all : Option ℕ → List Call → Option (Option ℕ)
follow_all = run_all follow

-- A call that makes and deletes no window and is made for the one that there is, or for `stdscr`.
abbrev pub Stays : Option ℕ → Call → Type 0
Stays live c = follow c live ≡ some live

pub follow_all-Stays :
    (live : Option ℕ) (cs : List Call) → All (Stays live) cs → follow_all live cs ≡ some live
unfolding run_all
follow_all-Stays live [] h = refl
follow_all-Stays live (c ∷ cs) h =
    ap (λ (o : Option (Option ℕ)). o >>= λ l. follow_all l cs) h.0 ∙ follow_all-Stays live cs h.1

module _ (live w : Option ℕ) (h : holds live w ≡ true) where
  pub if_holds : (if holds live w then some live else none) ≡ some live
  if_holds = rw h refl

  pub map-Stays : (ps : List Paint) → All (Stays live) (map (paint w) ps)
  map-Stays [] = tt
  map-Stays (p ∷ ps) = (if_holds, map-Stays ps)

pub holds_stdscr : (w : Option ℕ) → holds w none ≡ true
holds_stdscr w = refl

pub holds_refl : (w : Option ℕ) → holds w w ≡ true
holds_refl none = refl
holds_refl (some n) = ==_refl n
