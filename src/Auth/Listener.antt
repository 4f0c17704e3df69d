-- ===== src/Auth/Listener.antt =====
-- The authentication server around its requests (lib/auth/src/AuthServer.cpp): the socket that it
-- listens on, and a client that it has accepted. The results of the system's calls are arguments.
-- The thread of the loop runs exactly while `running_` is set, since `stop` joins it.
pub mod Closing
use booking.Prelude.{ℕ, Bool, true, false, List, [], ◌∷◌, Option, none, some, if◌then◌else◌}
use booking.Prelude.Text.{Str, read_buffer}
use booking.Auth.Repository.{UserRepository}
use booking.Auth.Manager.{Manager}
use booking.Auth.Server.{Moment, process_request}

pub record Listener : Type 0 where
  pub server_fd : Option ℕ
  pub running : Bool

abbrev pub new_listener : Listener
new_listener = record { server_fd = none; running = false }

-- What the system answers: `socket` a descriptor or an error, the others whether they succeed.
pub record Opening : Type 0 where
  pub socket : Option ℕ
  pub bound : Bool
  pub listens : Bool

-- A call that opens or closes a descriptor.
pub data Call : Type 0 where
  opened closed : ℕ → Call

unfoldable pub start : Opening → Listener → Listener × List Call
start a l = if l.running then (l, []) else elim a.socket [
  | none ↦ (record l { server_fd = none }, [])
  | some fd ↦
      let fails : Listener × List Call =
        (record l { server_fd = none }, opened fd ∷ closed fd ∷ []) in
      if a.bound
      then if a.listens
        then (record { server_fd = some fd; running = true }, opened fd ∷ [])
        else fails
      else fails
]

unfoldable pub stop : Listener → Listener × List Call
stop l =
    if l.running
    then elim l.server_fd [
      | none ↦ (record l { running = false }, [])
      | some fd ↦ (record { server_fd = none; running = false }, closed fd ∷ [])
    ]
    else (l, [])

module _ {R : Type 0} (repo : UserRepository R) (hash : Str → Str) where
  -- `handle_client`: what has arrived when `recv` returns, none for an end, an error or a timeout;
  -- it takes at most 4095 bytes, and the text ends at the first zero byte. Some
  -- answer is sent where something was received.
  unfoldable pub handle_client : Manager R → Moment → Option Str → Manager R × Option Str
  handle_client a at none = (a, none)
  handle_client a at (some bytes) =
      let (a', answer) = process_request repo hash a at (read_buffer bytes) in (a', some answer)
