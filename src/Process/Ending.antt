-- ===== src/Process/Ending.antt =====
-- Leaving the program: the event "QUIT" ends the loops of the application and of the terminal.
use booking.Prelude.{
  suc, ◌≡◌, refl, sym, ap, ◌∙◌, inl, inr, Bool, true, false, List, [], ◌∷◌, ◌++◌, Option, some,
  ◌>>=◌, All, length, Bool-cases, arith, if◌then◌else◌,
}
use mathlib.Core.Path.{subst}
use booking.Prelude.Text.{Str, codes, str_eq}
use booking.Prelude.Streams.{split_first}
use booking.Json.{JsonLib}
use booking.Queue.{Queue, new_queue}
use booking.Client.Application.{
  Application, Outside, split_event, process_input_event, application_round,
}
use booking.Client.Command.{UiCommand}
use booking.Ui.{Key}
use booking.Terminal.{ScreenSize}
use booking.Terminal.Keys.{ui_round, poll_input, render}
use booking.Terminal.Keys.Running.{poll_input-running}
use booking.Process.{
  Process, application_of, with_application, application_step, ui_of, with_ui, ui_step,
}
use booking.Process.Rounds.{application_round-event, render-Kept}
use booking.Process.Fitting.{Fits, event-Fitting}
use booking.Process.Commands.{quits, process_commands-fitting}
use booking.Process.Quit.{push-quits, event-Handled}

-- Rounds of the application, in which no message comes.
unfoldable pub application_steps : JsonLib → List Outside → Process → Option Process
application_steps J [] p = some p
application_steps J (o ∷ os) p = application_step J o p >>= application_steps J os

-- The application's loop has ended, and the terminal is told.
record Ended (p : Process) : Type 0 where
  stands : p.application.running ≡ false
  told : quits p.ui_commands.items ≡ true
  fit : All Fits p.ui_commands.items

application_step-ended :
    (J : JsonLib) (o : Outside) (p : Process)
    → p.application.running ≡ false
    → application_step J o p ≡ some p
unfolding application_step
application_step-ended J o p e =
    ap
      (λ b.
        if b
        then (application_round J o (application_of p) >>= λ a. some (with_application p a))
        else some p)
      e

application_steps-ended :
    (J : JsonLib) (os : List Outside) (p : Process)
    → p.application.running ≡ false
    → application_steps J os p ≡ some p
unfolding application_steps
application_steps-ended J [] p e = refl
application_steps-ended J (o ∷ os) p e =
    ap (λ x. x >>= application_steps J os) (application_step-ended J o p e)
    ∙ application_steps-ended J os p e

-- The application behind its round on the first event.
abbrev pub with_events : Process → List Str → Application
with_events p events = record (application_of p) {
  input_events = record { items = events; stopped = false };
}

abbrev pub after_event : JsonLib → Outside → Process → Str → List Str → Process
after_event J o p event rest =
    with_application p (process_input_event J (with_events p rest) o event)

pub application_step-event :
    (J : JsonLib) (o : Outside) (p : Process) (event : Str) (rest : List Str)
    → p.application.running ≡ true
    → p.network_inbound ≡ new_queue
    → p.input_events ≡ record { items = event ∷ rest; stopped = false }
    → application_step J o p ≡ some (after_event J o p event rest)
unfolding application_step
application_step-event J o p event rest r e f =
    ap
      (λ b.
        if b
        then (application_round J o (application_of p) >>= λ a. some (with_application p a))
        else some p)
      r
    ∙ ap (λ x. x >>= λ a. some (with_application p a))
        (application_round-event J o (application_of p) event rest e f)

quit-told :
    (J : JsonLib) (o : Outside) (a : Application)
    → a.ui_commands.stopped ≡ false
    → ((process_input_event J a o (codes "QUIT")).running ≡ false)
      × (quits (process_input_event J a o (codes "QUIT")).ui_commands.items ≡ true)
unfolding process_input_event split_event split_first str_eq
quit-told J o a h = (refl, push-quits a.ui_commands h)

-- The application reaches "QUIT" behind some other events, unless one of these ends its loop.
reaches_quit :
    (J : JsonLib) (es : List Str) (os : List Outside) (p : Process)
    → length os ≡ suc (length es)
    → p.application.running ≡ true
    → p.network_inbound ≡ new_queue
    → p.input_events ≡ record { items = es ++ (codes "QUIT" ∷ []); stopped = false }
    → p.ui_commands.stopped ≡ false
    → All Fits p.ui_commands.items
    → (p' : Process) × (application_steps J os p ≡ some p') × Ended p' × (p'.ui ≡ p.ui)
unfolding application_steps
reaches_quit J [] [] p n r i e c f = absurd (omega (arith, n))
reaches_quit J (x ∷ es) [] p n r i e c f = absurd (omega (arith, n))
reaches_quit J [] (o ∷ os) p n r i e c f =
    let p' = after_event J o p (codes "QUIT") [] in
    let told = quit-told J o (with_events p []) c in
    (
      p',
      ap (λ x. x >>= application_steps J os) (application_step-event J o p (codes "QUIT") [] r i e)
          ∙ application_steps-ended J os p' told.0,
      record {
        stands = told.0;
        told = told.1;
        fit = event-Fitting J (with_events p []) f o (codes "QUIT");
      },
      refl,
    )
reaches_quit J (x ∷ es) (o ∷ os) p n r i e c f =
    let rest = es ++ (codes "QUIT" ∷ []) in
    let p' = after_event J o p x rest in
    let h = event-Handled J (with_events p rest) o x c in
    let fit = event-Fitting J (with_events p rest) f o x in
    let first =
      ap (λ y. y >>= application_steps J os) (application_step-event J o p x rest r i e) in
    elim h.loop [
      | inl same ↦
          (let (q, steps, ended, ui) =
              reaches_quit J es os p' (omega (arith, n)) (same ∙ r) (h.inbound ∙ i) h.events
                (h.open_queue ∙ c) fit in
            (q, first ∙ steps, ended, ui))
      | inr (stands, told) ↦ (
        p',
        first ∙ application_steps-ended J os p' stands,
        record { stands = stands; told = told; fit = fit },
        refl,
      )
    ]

-- A round of the terminal at commands of which one is `quit`.
ui_step-ends :
    (size : ScreenSize) (k : Option Key) (dialog : List Key) (p : Process)
    → quits p.ui_commands.items ≡ true
    → All Fits p.ui_commands.items
    → (p' : Process) × (ui_step size k dialog p ≡ some p')
      × (p'.ui.running ≡ false)
      × (p'.application ≡ p.application)
unfolding ui_step ui_round
ui_step-ends size k dialog p q f = elim (Bool-cases p.ui.running) [
  | inr e ↦ (p, ap (turn p) e, e, refl)
  | inl e ↦
      (let (u, done, empty, runs) = process_commands-fitting size (ui_of p) f in
        let u' = render size (poll_input u k dialog) in
        (
          with_ui p u',
          ap (turn p) e
              ∙ ap
                  (λ o. (o >>= λ u. some (render size (poll_input u k dialog))) >>= λ u.
                    some (with_ui p u))
                  done,
          (render-Kept size (poll_input u k dialog)).2
              ∙ (poll_input-running u k dialog
                  ∙ (runs ∙ ap (λ b. if b then false else p.ui.running) q)),
          refl,
        ))
]
  where
    turn : Process → Bool → Option Process
    turn p b = if b then (ui_round size k dialog (ui_of p) >>= λ u. some (with_ui p u)) else some p

-- The event "QUIT" ends the client's loops: once it waits for the application, behind whatever
-- other events, with no message from the network and no command waiting, as many rounds of the
-- application as there are events, and then one round of the terminal at whatever key, leave
-- neither loop running. No exception stops them.
pub quit-ends :
    (J : JsonLib) (size : ScreenSize) (k : Option Key) (dialog : List Key) (es : List Str)
    (os : List Outside) (p : Process)
    → length os ≡ suc (length es)
    → p.application.running ≡ true
    → p.network_inbound ≡ new_queue
    → p.input_events ≡ record { items = es ++ (codes "QUIT" ∷ []); stopped = false }
    → p.ui_commands ≡ new_queue
    → (p₁ : Process) × (p₂ : Process) × (application_steps J os p ≡ some p₁)
      × (ui_step size k dialog p₁ ≡ some p₂)
      × (p₂.application.running ≡ false)
      × (p₂.ui.running ≡ false)
quit-ends J size k dialog es os p n r i e c =
    let (p₁, steps, ended, ui) =
      reaches_quit J es os p n r i e (ap (λ (q : Queue UiCommand). q.stopped) c)
        (subst (λ (q : Queue UiCommand). All Fits q.items) (sym c) tt) in
    let (p₂, done, ends, same) = ui_step-ends size k dialog p₁ ended.told ended.fit in
    (p₁, p₂, steps, done, ap (λ (a : Application). a.running) same ∙ ended.stands, ends)
