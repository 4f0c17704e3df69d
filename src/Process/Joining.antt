-- ===== src/Process/Joining.antt =====
-- Choosing a room, from the keys at the terminal to the bytes at the server.
use booking.Prelude.{
  ℕ, ◌+◌, ◌≡◌, ap, ◌∙◌, Bool, true, [], ◌∷◌, ◌++◌, none, some, ◌>>=◌, get_elem?, replicate,
  if◌then◌else◌,
}
use booking.Prelude.Text.{Str, codes, str_eq}
use booking.Queue.{new_queue, push}
use booking.Json.{JsonLib, JsonLaws}
use booking.Message.{serialize, create_join_room}
use booking.Client.Command.{RoomInfo}
use booking.Client.Application.{application_round, process_input_event, Application, Outside}
use booking.Server.Manager
use booking.Server.Manager.{Server, ClientInfo, Surroundings}
use booking.Server.Thread.{again, leaves, round, refuse, foyer_dispatch}
use booking.Client.Network.{Link}
use booking.Prelude.Streams.{split_first}
use booking.Wire.{receives, room_selected-joins}
use booking.Ui.{key_down, key_enter}
use booking.Terminal.{ScreenSize}
use booking.Process.{
  Process, with_application, application_step, network_step, application_of, link_of,
}
use booking.Process.Rounds.{application_round-event, network_round-sends}
use booking.Process.Choice.{ui_steps, InFoyer, ui_steps-choose}

-- The other queues are empty, and the threads and the connection are up.
pub record Idle (p : Process) : Type 0 where
  pub events : p.input_events ≡ new_queue
  pub inbound : p.network_inbound ≡ new_queue
  pub outbound : p.network_outbound ≡ new_queue
  pub application_runs : p.application.running ≡ true
  pub network_runs : p.link.network.running ≡ true
  pub connected : p.link.network.connected ≡ true

module _ (J : JsonLib) where
  -- The process after the application's round on the choice.
  asked : Process → Outside → Str → Process
  asked p o name =
      let text = serialize J (create_join_room J o.timestamp p.application.state.token name) in
      with_application p (record (application_of p) {
        input_events = new_queue;
        network_outbound = push p.network_outbound text;
      })

  application_step-asks :
      (p : Process) (o : Outside) (name : Str)
      → p.application.running ≡ true
      → p.network_inbound ≡ new_queue
      → p.input_events ≡ push new_queue (codes "ROOM_SELECTED:" ++ name)
      → application_step J o p ≡ some (asked p o name)
  unfolding application_step asked push process_input_event split_first str_eq
  application_step-asks p o name r e f =
      ap
        (λ b.
          if b
          then (application_round J o (application_of p) >>= λ a. some (with_application p a))
          else some p)
        r
      ∙ ap (λ x. x >>= λ a. some (with_application p a))
          (application_round-event J o (application_of p) (codes "ROOM_SELECTED:" ++ name) [] e f)

  asked-sends :
      (p : Process) (o : Outside) (name : Str) (goes : ℕ → Bool)
      → p.link.network.running ≡ true
      → p.link.network.connected ≡ true
      → p.network_outbound ≡ new_queue
      → goes 0 ≡ true
      → (network_step goes none (asked p o name)).link.sent
        ≡ p.link.sent
          ++ (serialize J (create_join_room J o.timestamp p.application.state.token name) ∷ [])
  unfolding network_step asked push
  asked-sends p o name goes r c e g =
      let text = serialize J (create_join_room J o.timestamp p.application.state.token name) in
      ap (λ (l : Link). l.sent)
        (network_round-sends goes (link_of (asked p o name)) text r c (ap (λ q. push q text) e) g)

module _ (J : JsonLib) (laws : JsonLaws J) where
  -- From the foyer at rest, with the connection up and no queue holding anything: as many times "Down"
  -- as there are rooms between the selected one and another, then "Enter", one round of the
  -- application and one of the network thread send the server one text, and the server, when the
  -- client's thread receives this text in the foyer, validates the client's token and joins the room
  -- of that name: it leaves the foyer if there is such a room, says that there is none and stays if
  -- not, and refuses and leaves if the token is not valid. The json library is as documented, and the
  -- socket takes the text.
  pub choose_room-joins :
      (size : ScreenSize) (p : Process) (i k : ℕ) (room : RoomInfo) (o : Outside) (goes : ℕ → Bool)
      (s : Server) (fd : ℕ) (info : ClientInfo) (w : Surroundings)
      → InFoyer p i
      → get_elem? p.ui.rooms (i + k) ≡ some room
      → Idle p
      → goes 0 ≡ true
      → let text =
          serialize J (create_join_room J o.timestamp p.application.state.token room.name) in
        let (s₁, valid) = Manager.validate_token s w p.application.state.token in
        let (s₂, info', joined) = Manager.join_room J s₁ w fd info room.name in
        (p₁ : Process) × (p₂ : Process) × (ui_steps size
            (replicate k key_down ++ (key_enter ∷ []))
            p
          ≡ some p₁)
        × (application_step J o p₁ ≡ some p₂)
        × ((network_step goes none p₂).link.sent ≡ p.link.sent ++ (text ∷ []))
        × (round J (foyer_dispatch J) s fd info (receives text w) ≡ (
            if valid
            then if joined
              then some (s₂, info', leaves)
              else some (refuse J s₂ w fd (codes "Room not found"), info', again)
            else some (refuse J s₁ w fd (codes "Invalid or expired token"), info, leaves)))
  choose_room-joins size p i k room o goes s fd info w h e idle g =
      let (p₁, steps, c) = ui_steps-choose size p i k room h e in
      let token : p₁.application.state.token ≡ p.application.state.token =
        ap (λ (a : Application). a.state.token) c.application in
      let text = λ (t : Str). serialize J (create_join_room J o.timestamp t room.name) in
      (
        p₁,
        asked J p₁ o room.name,
        steps,
        application_step-asks J p₁ o room.name
            (ap (λ (a : Application). a.running) c.application ∙ idle.application_runs)
            (c.inbound ∙ idle.inbound)
            (c.event ∙ ap (λ q. push q (codes "ROOM_SELECTED:" ++ room.name)) idle.events),
        asked-sends J p₁ o room.name goes
              (ap (λ (l : Link). l.network.running) c.link ∙ idle.network_runs)
              (ap (λ (l : Link). l.network.connected) c.link ∙ idle.connected)
              (c.outbound ∙ idle.outbound) g
            ∙ (ap (λ (l : Link). l.sent ++ (text p₁.application.state.token ∷ [])) c.link
                ∙ ap (λ t. p.link.sent ++ (text t ∷ [])) token),
        (room_selected-joins J laws (application_of p) o room.name s fd info w).1,
      )
