-- ===== src/Terminal/Keys/Rooms.antt =====
-- The menu of the rooms: what its keys make of it, and what the application is told.
use booking.Prelude.{
  ℕ, zero, suc, ◌≡◌, refl, ap, ◌∙◌, true, List, [], ◌∷◌, ◌++◌, Option, none, some, map, drop,
  get_elem?, arith,
}
use booking.Prelude.Text.{codes}
use booking.Client.Command.{RoomInfo}
use booking.Ui.{Key}
use booking.Ui.Menu
use booking.Ui.Menu.{Menu, MenuItem}
use booking.Terminal.{Terminal, menu_part}
use booking.Terminal.Screens.{part_handle, menu_calls, room_item, room_activated, say}
use booking.Terminal.Keys.{pressed}

pub get_elem?-rooms :
    (rooms : List RoomInfo) (i : ℕ) (room : RoomInfo)
    → get_elem? rooms i ≡ some room
    → get_elem? (map room_item rooms) i ≡ some (room_item room)
get_elem?-rooms [] i room h = absurd (ground (arith, h))
get_elem?-rooms (r ∷ rooms) zero room h =
    ap (λ o. elim o [ none ↦ none | some r' ↦ some (room_item r') ]) h
get_elem?-rooms (r ∷ rooms) (suc i) room h = get_elem?-rooms rooms i room h

-- Every room's item is enabled, so that a search for one stops where it starts.
pub next_enabled-rooms :
    (rooms : List RoomInfo) (i k : ℕ) (room : RoomInfo)
    → get_elem? rooms i ≡ some room
    → Menu.next_enabled (drop i (map room_item rooms)) k ≡ some k
unfolding Menu.next_enabled room_item
next_enabled-rooms [] i k room h = absurd (ground (arith, h))
next_enabled-rooms (r ∷ rooms) zero k room h = refl
next_enabled-rooms (r ∷ rooms) (suc i) k room h = next_enabled-rooms rooms i k room h

-- The menu after "Down".
unfoldable pub lowered : Menu → ℕ → Menu
lowered m i = Menu.ensure_selection_visible (record m { selected_index = some (suc i) })

differs-suc : (i : ℕ) → Menu.differs (some i) (suc i) ≡ true
differs-suc i = ground arith

select-lowered :
    (m : Menu) (i : ℕ) (x : MenuItem)
    → m.selected_index ≡ some i
    → get_elem? m.items (suc i) ≡ some x
    → x.enabled ≡ true
    → Menu.set_selected_index m (some (suc i)) ≡ (lowered m i, Menu.selected (suc i) x ∷ [])
unfolding lowered Menu.set_selected_index
select-lowered m i x s e on =
    rw (Menu.set_selected_index, e, on)
      (rw (ap (λ o. Menu.differs o (suc i)) s ∙ differs-suc i) refl)

pub move_selection_down-rooms :
    (m : Menu) (rooms : List RoomInfo) (i : ℕ) (room : RoomInfo)
    → m.items ≡ map room_item rooms
    → m.selected_index ≡ some i
    → get_elem? rooms (suc i) ≡ some room
    → Menu.move_selection_down m ≡ (lowered m i, Menu.selected (suc i) (room_item room) ∷ [])
move_selection_down-rooms m rooms i room e s h =
    start s
    ∙ ap (Menu.select_found m) (
        ap (λ xs. Menu.next_enabled (drop (suc i) xs) (suc i)) e
        ∙ next_enabled-rooms rooms (suc i) (suc i) room h)
    ∙ select-lowered m i (room_item room) s
        (ap (λ xs. get_elem? xs (suc i)) e ∙ get_elem?-rooms rooms (suc i) room h)
        (unfold room_item in refl)
  where
    start :
        m.selected_index ≡ some i
        → Menu.move_selection_down m
          ≡ Menu.select_found m (Menu.next_enabled (drop (suc i) m.items) (suc i))
    start s = unfold Menu.move_selection_down in simp s

pub part_menu :
    (u : Terminal) (m m' : Menu) (calls : List Menu.Call) (k : Key)
    → u.room_menu ≡ some m
    → m.widget.visible ≡ true
    → m.widget.focused ≡ true
    → Menu.handle_key m k ≡ some (m', calls)
    → part_handle u menu_part (pressed k)
      ≡ some (menu_calls (record u { room_menu = some m' }) calls)
unfolding part_handle
part_menu u m m' calls k e v f h = ap (at_menu u k) e ∙ ap (answered u) (taken v f ∙ h)
  where
    answered : Terminal → Option (Menu × List Menu.Call) → Option Terminal
    answered u o = elim o [
      | none ↦ none
      | some (m', calls) ↦ some (menu_calls (record u { room_menu = some m' }) calls)
    ]

    at_menu : Terminal → Key → Option Menu → Option Terminal
    at_menu u k o = elim o [
      | none ↦ none
      | some m'' ↦ answered u (Menu.handle_event m'' (pressed k))
    ]

    taken :
        m.widget.visible ≡ true
        → m.widget.focused ≡ true
        → Menu.handle_event m (pressed k) ≡ Menu.handle_key m k
    taken v f = unfold Menu.handle_event in simp (v, f)

pub activate_selected-rooms :
    (m : Menu) (i : ℕ) (room : RoomInfo)
    → m.selected_index ≡ some i
    → get_elem? m.items i ≡ some (room_item room)
    → Menu.activate_selected m ≡ Menu.activated i (room_item room) ∷ []
unfolding Menu.activate_selected room_item
activate_selected-rooms m i room s e = simp (Menu.activate_selected, s, e)

pub room_activated-room :
    (u : Terminal) (i : ℕ) (room : RoomInfo)
    → get_elem? u.rooms i ≡ some room
    → room_activated u i ≡ say u (codes "ROOM_SELECTED:" ++ room.name)
unfolding room_activated
room_activated-room u i room e = simp (room_activated, e)
