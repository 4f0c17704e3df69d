-- ===== src/Terminal/Keys/Foyer.antt =====
-- Choosing a room in the foyer, from the screen's setup to the event for the application.
use booking.Prelude.{
  ℕ, zero, suc, ◌+◌, ◌≡◌, refl, ap, ◌∙◌, true, false, List, [], ◌∷◌, ◌++◌, some, map, get_elem?,
  replicate, arith,
}
use booking.Prelude.Text.{codes}
use booking.Queue.{push}
use booking.Client.Command.{RoomInfo}
use booking.Ui.{set_focus, key_enter, key_down}
use booking.Ui.Menu
use booking.Ui.Menu.{Menu, MenuItem}
use booking.Ui.Window
use booking.Ui.Window.{Window, add_child}
use booking.Terminal.{Terminal, ScreenSize, Part, menu_part}
use booking.Terminal.Screens.{part_handle, add_parts, room_item, say, setup_foyer_ui}
use booking.Terminal.Keys.Forward.{type_keys, handle_event-child, forward-some}
use booking.Terminal.Keys.{box_open, pressed, asks_quit, forward, poll_input}
use booking.Terminal.Keys.Rooms.{
  get_elem?-rooms, next_enabled-rooms, lowered, move_selection_down-rooms, part_menu,
  activate_selected-rooms, room_activated-room,
}

-- The foyer, with the window's focus on the menu of the rooms, and the room of this index selected.
pub record AtRoom (u : Terminal) (i : ℕ) : Type 0 where
  pub menu : Menu
  pub window : Window Part
  pub no_box : box_open u.message_box ≡ false
  pub in_window : u.main_window ≡ some window
  pub on_menu : window.focused_child ≡ some menu_part
  pub of_menu : u.room_menu ≡ some menu
  pub shown : menu.widget.visible ≡ true
  pub flagged : menu.widget.focused ≡ true
  pub items : menu.items ≡ map room_item u.rooms
  pub selection : menu.selected_index ≡ some i

part_down :
    (u : Terminal) (i : ℕ) (h : AtRoom u i) (room : RoomInfo)
    → get_elem? u.rooms (suc i) ≡ some room
    → part_handle u menu_part (pressed key_down)
      ≡ some (record u { room_menu = some (lowered h.menu i) })
part_down u i h room e =
    part_menu u h.menu (lowered h.menu i) (Menu.selected (suc i) (room_item room) ∷ []) key_down
      h.of_menu h.shown h.flagged
      (unfold Menu.handle_key in
        ap some (move_selection_down-rooms h.menu u.rooms i room h.items h.selection e))

part_enter :
    (u : Terminal) (i : ℕ) (h : AtRoom u i) (room : RoomInfo)
    → get_elem? u.rooms i ≡ some room
    → part_handle u menu_part (pressed key_enter)
      ≡ some (say (record u { room_menu = some h.menu }) (codes "ROOM_SELECTED:" ++ room.name))
part_enter u i h room e =
    part_menu u h.menu h.menu (Menu.activated i (room_item room) ∷ []) key_enter h.of_menu h.shown
      h.flagged
      (unfold Menu.handle_key in
        ap (λ calls. some (h.menu, calls))
          (activate_selected-rooms h.menu i room h.selection
            (ap (λ xs. get_elem? xs i) h.items ∙ get_elem?-rooms u.rooms i room e)))
    ∙ ap some (room_activated-room (record u { room_menu = some h.menu }) i room e)

poll_down :
    (u : Terminal) (i : ℕ) → AtRoom u i → poll_input u (some key_down) [] ≡ forward u key_down
unfolding poll_input asks_quit
poll_down u i h = rw h.no_box refl

poll_enter :
    (u : Terminal) (i : ℕ) → AtRoom u i → poll_input u (some key_enter) [] ≡ forward u key_enter
unfolding poll_input asks_quit
poll_enter u i h = rw h.no_box refl

-- The terminal after "Down", and after "Enter".
unfoldable pub below : (u : Terminal) (i : ℕ) → AtRoom u i → Terminal
below u i h = record u { room_menu = some (lowered h.menu i); main_window = some h.window }

pub step_down :
    (u : Terminal) (i : ℕ) (h : AtRoom u i) (room : RoomInfo)
    → get_elem? u.rooms (suc i) ≡ some room
    → poll_input u (some key_down) [] ≡ below u i h
unfolding below
step_down u i h room e =
    poll_down u i h
    ∙ forward-some u _ h.window h.window key_down h.in_window (
        handle_event-child u _ h.window menu_part (pressed key_down) h.on_menu
          (part_down u i h room e))

pub step_enter :
    (u : Terminal) (i : ℕ) (h : AtRoom u i) (room : RoomInfo)
    → get_elem? u.rooms i ≡ some room
    → (poll_input u (some key_enter) []).input_events
      ≡ push u.input_events (codes "ROOM_SELECTED:" ++ room.name)
step_enter u i h room e =
    ap (λ (u' : Terminal). u'.input_events)
      (poll_enter u i h
        ∙ forward-some u _ h.window h.window key_enter h.in_window (
            handle_event-child u _ h.window menu_part (pressed key_enter) h.on_menu
              (part_enter u i h room e)))

pub below-AtRoom : (u : Terminal) (i : ℕ) (h : AtRoom u i) → AtRoom (below u i h) (suc i)
unfolding below lowered Menu.ensure_selection_visible
below-AtRoom u i h = record {
  menu = lowered h.menu i;
  window = h.window;
  no_box = h.no_box;
  in_window = refl;
  on_menu = h.on_menu;
  of_menu = refl;
  shown = h.shown;
  flagged = h.flagged;
  items = h.items;
  selection = refl;
}

below-same :
    (u : Terminal) (i : ℕ) (h : AtRoom u i)
    → ((below u i h).rooms ≡ u.rooms) × ((below u i h).input_events ≡ u.input_events)
unfolding below
below-same u i h = (refl, refl)

pub get_elem?-some :
    (rooms : List RoomInfo) (i k : ℕ) (room : RoomInfo)
    → get_elem? rooms (suc (i + k)) ≡ some room
    → (r : RoomInfo) × (get_elem? rooms (suc i) ≡ some r)
get_elem?-some [] i k room h = absurd (ground (arith, h))
get_elem?-some (r ∷ []) i k room h = absurd (ground (arith, h))
get_elem?-some (r ∷ s ∷ rooms) zero k room h = (s, refl)
get_elem?-some (r ∷ s ∷ rooms) (suc i) k room h =
    get_elem?-some (s ∷ rooms) i k room
      (ap (get_elem? (s ∷ rooms)) (let p : suc (i + k) ≡ suc i + k = omega arith in p) ∙ h)

choose :
    (u : Terminal) (i k : ℕ) (room : RoomInfo)
    → AtRoom u i
    → get_elem? u.rooms (i + k) ≡ some room
    → (type_keys u (replicate k key_down ++ (key_enter ∷ []))).input_events
      ≡ push u.input_events (codes "ROOM_SELECTED:" ++ room.name)
unfolding type_keys below
choose u i zero room h e =
    step_enter u i h room (ap (get_elem? u.rooms) (let p : i ≡ i + zero = omega arith in p) ∙ e)
choose u i (suc k) room h e =
    let e' : get_elem? u.rooms (suc (i + k)) ≡ some room =
      ap (get_elem? u.rooms) (let p : suc (i + k) ≡ i + suc k = omega arith in p) ∙ e in
    let (r, found) = get_elem?-some u.rooms i k room e' in
    rw (type_keys, step_down u i h r found)
      (choose (below u i h) (suc i) k room (below-AtRoom u i h)
        (ap (get_elem? u.rooms) (let p : suc i + k ≡ suc (i + k) = omega arith in p) ∙ e'))

pub setup_foyer_ui-AtRoom :
    (size : ScreenSize) (u : Terminal) (room : RoomInfo) (rooms : List RoomInfo)
    → box_open u.message_box ≡ false
    → u.rooms ≡ room ∷ rooms
    → AtRoom (setup_foyer_ui size u) 0
unfolding setup_foyer_ui add_parts add_child Window.focus_child Window.unfocus Menu.set_items
    Menu.next_enabled set_focus
setup_foyer_ui-AtRoom size u room rooms b e = record {
  menu = _;
  window = _;
  no_box = b;
  in_window = refl;
  on_menu = refl;
  of_menu = refl;
  shown = refl;
  flagged = refl;
  items = refl;
  selection =
      ap (λ rs. Menu.next_enabled (map room_item rs) 0) e
      ∙ next_enabled-rooms (room ∷ rooms) 0 0 room refl;
}

setup_foyer_ui-same :
    (size : ScreenSize) (u : Terminal)
    → ((setup_foyer_ui size u).rooms ≡ u.rooms)
      × ((setup_foyer_ui size u).input_events ≡ u.input_events)
unfolding setup_foyer_ui add_parts add_child Window.focus_child Window.unfocus Menu.set_items
    Menu.next_enabled set_focus
setup_foyer_ui-same size u = (refl, refl)

some_rooms :
    (rooms : List RoomInfo) (k : ℕ) (room : RoomInfo)
    → get_elem? rooms k ≡ some room
    → (r : RoomInfo) × (rs : List RoomInfo) × (rooms ≡ r ∷ rs)
some_rooms [] k room e = absurd (ground (arith, e))
some_rooms (r ∷ rs) k room e = (r, rs, refl)

-- In the foyer, with no box open: from the screen that the setup makes, as many times "Down" as
-- there are rooms before a room and then "Enter" send the application one event, that this room
-- is selected.
pub foyer-chooses :
    (size : ScreenSize) (u : Terminal) (k : ℕ) (room : RoomInfo)
    → box_open u.message_box ≡ false
    → get_elem? u.rooms k ≡ some room
    → (type_keys (setup_foyer_ui size u) (replicate k key_down ++ (key_enter ∷ []))).input_events
      ≡ push u.input_events (codes "ROOM_SELECTED:" ++ room.name)
foyer-chooses size u k room b e =
    let (r, rs, first) = some_rooms u.rooms k room e in
    choose (setup_foyer_ui size u) 0 k room (setup_foyer_ui-AtRoom size u r rs b first) (
      ap (λ rooms. get_elem? rooms (0 + k)) (setup_foyer_ui-same size u).0
      ∙ (ap (get_elem? u.rooms) (let p : 0 + k ≡ k = omega arith in p) ∙ e))
    ∙ ap (λ events. push events (codes "ROOM_SELECTED:" ++ room.name))
        (setup_foyer_ui-same size u).1
