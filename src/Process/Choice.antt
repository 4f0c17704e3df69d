-- ===== src/Process/Choice.antt =====
-- Choosing a room at the terminal, round by round.
use booking.Prelude.{
  ℕ, zero, suc, ◌+◌, ◌≡◌, refl, ap, ◌∙◌, true, List, [], ◌∷◌, ◌++◌, Option, some, ◌>>=◌, get_elem?,
  replicate, arith, if◌then◌else◌,
}
use booking.Prelude.Text.{codes}
use booking.Queue.{new_queue, push}
use booking.Client.Command.{RoomInfo}
use booking.Client.State.{foyer}
use booking.Ui.{Key, key_down, key_enter}
use booking.Terminal.{Terminal, ScreenSize}
use booking.Terminal.Keys.{ui_round, poll_input, render}
use booking.Terminal.Keys.Foyer.{AtRoom, below, step_down, step_enter, below-AtRoom, get_elem?-some}
use booking.Process.{Process, ui_of, with_ui, ui_step}
use booking.Process.Rounds.{render-Kept, ui_round-quiet, render-foyer}

-- Rounds of the terminal, one for each key, in which no dialog opens.
unfoldable pub ui_steps : ScreenSize → List Key → Process → Option Process
ui_steps size [] p = some p
ui_steps size (k ∷ ks) p = ui_step size (some k) [] p >>= ui_steps size ks

-- The terminal runs and shows the foyer with this room selected, and no command waits for it.
pub record InFoyer (p : Process) (i : ℕ) : Type 0 where
  pub runs : p.ui.running ≡ true
  pub quiet : p.ui_commands ≡ new_queue
  pub screen : p.ui.current_screen ≡ foyer
  pub at_room : AtRoom (ui_of p) i

-- A round that leaves the terminal so.
abbrev pub rendered : Process → Terminal → Process
rendered p u = with_ui p (record u { error_message = [] })

ui_step-quiet :
    (size : ScreenSize) (k : Key) (p : Process) (i : ℕ)
    → InFoyer p i
    → ui_step size (some k) [] p ≡ some (with_ui p (render size (poll_input (ui_of p) (some k) [])))
unfolding ui_step
ui_step-quiet size k p i h =
    ap
      (λ b. if b then (ui_round size (some k) [] (ui_of p) >>= λ u. some (with_ui p u)) else some p)
      h.runs
    ∙ ap (λ o. o >>= λ u. some (with_ui p u)) (ui_round-quiet size (some k) [] (ui_of p) h.quiet)

-- "Down" goes to the next room.
lower : (p : Process) (i : ℕ) → InFoyer p i → Process
lower p i h = rendered p (below (ui_of p) i h.at_room)

ui_step-down :
    (size : ScreenSize) (p : Process) (i : ℕ) (h : InFoyer p i) (room : RoomInfo)
    → get_elem? p.ui.rooms (suc i) ≡ some room
    → ui_step size (some key_down) [] p ≡ some (lower p i h)
unfolding lower below
ui_step-down size p i h room e =
    ui_step-quiet size key_down p i h
    ∙ ap (λ u. some (with_ui p u))
        (ap (render size) (step_down (ui_of p) i h.at_room room e)
          ∙ render-foyer size (below (ui_of p) i h.at_room) h.at_room.window refl h.screen)

lower-InFoyer : (p : Process) (i : ℕ) (h : InFoyer p i) → InFoyer (lower p i h) (suc i)
unfolding lower below
lower-InFoyer p i h = record {
  runs = h.runs;
  quiet = h.quiet;
  screen = h.screen;
  at_room =
      let b = below-AtRoom (ui_of p) i h.at_room in
      record {
        menu = b.menu;
        window = b.window;
        no_box = b.no_box;
        in_window = b.in_window;
        on_menu = b.on_menu;
        of_menu = b.of_menu;
        shown = b.shown;
        flagged = b.flagged;
        items = b.items;
        selection = b.selection;
      };
}

-- What choosing a room makes of the process: an event, and what the terminal keeps to itself.
pub record Chosen (p p' : Process) (room : RoomInfo) : Type 0 where
  pub event : p'.input_events ≡ push p.input_events (codes "ROOM_SELECTED:" ++ room.name)
  pub application : p'.application ≡ p.application
  pub link : p'.link ≡ p.link
  pub inbound : p'.network_inbound ≡ p.network_inbound
  pub outbound : p'.network_outbound ≡ p.network_outbound

pub ui_steps-choose :
    (size : ScreenSize) (p : Process) (i k : ℕ) (room : RoomInfo)
    → InFoyer p i
    → get_elem? p.ui.rooms (i + k) ≡ some room
    → (p' : Process) × (ui_steps size (replicate k key_down ++ (key_enter ∷ [])) p ≡ some p')
      × Chosen p p' room
unfolding ui_steps lower below
ui_steps-choose size p i zero room h e =
    let p' = with_ui p (render size (poll_input (ui_of p) (some key_enter) [])) in
    let found = ap (get_elem? p.ui.rooms) (let q : i ≡ i + zero = omega arith in q) ∙ e in
    (
      p',
      ap (λ o. o >>= ui_steps size []) (ui_step-quiet size key_enter p i h),
      record {
        event =
            (render-Kept size (poll_input (ui_of p) (some key_enter) [])).0
            ∙ step_enter (ui_of p) i h.at_room room found;
        application = refl;
        link = refl;
        inbound = refl;
        outbound = refl;
      },
    )
ui_steps-choose size p i (suc k) room h e =
    let e' : get_elem? p.ui.rooms (suc (i + k)) ≡ some room =
      ap (get_elem? p.ui.rooms) (let q : suc (i + k) ≡ i + suc k = omega arith in q) ∙ e in
    let (r, found) = get_elem?-some p.ui.rooms i k room e' in
    let rest =
      ui_steps-choose size (lower p i h) (suc i) k room (lower-InFoyer p i h)
        (ap (get_elem? p.ui.rooms) (let q : suc i + k ≡ suc (i + k) = omega arith in q) ∙ e') in
    let c = rest.2 in
    (
      rest.0,
      ap (λ o. o >>= ui_steps size (replicate k key_down ++ (key_enter ∷ [])))
            (ui_step-down size p i h r found)
          ∙ rest.1,
      record {
        event = c.event;
        application = c.application;
        link = c.link;
        inbound = c.inbound;
        outbound = c.outbound;
      },
    )
