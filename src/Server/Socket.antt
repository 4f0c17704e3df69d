-- ===== src/Server/Socket.antt =====
-- The socket that the chat server listens on (include/ServerSocket.h, src/server/ServerSocket.cpp).
-- The results of the system's calls are arguments; a call of `close` is an entry of a list.
pub mod Closing
use booking.Prelude.{ℕ, Bool, true, false, List, [], ◌∷◌, Option, none, some, if◌then◌else◌}
use booking.Prelude.Text.{Str, codes}

pub record ServerSocket : Type 0 where
  pub server_fd : Option ℕ
  pub port : ℕ
  pub listening : Bool

unfoldable pub new_socket : ℕ → ServerSocket
new_socket port = record { server_fd = none; port = port; listening = false }

-- What the system answers: `socket` a descriptor or an error, the others whether they succeed.
pub record Setup : Type 0 where
  pub socket : Option ℕ
  pub options_set : Bool
  pub bound : Bool
  pub listens : Bool

-- How `initialize` ends, with its message where it fails and the descriptors that it closes.
pub record Initialized : Type 0 where
  pub socket : ServerSocket
  pub error : Option Str
  pub closed : List ℕ

abbrev pub failed : ServerSocket → ℕ → Str → Initialized
failed s fd message = record { socket = s; error = some message; closed = fd ∷ [] }

unfoldable pub initialize : Setup → ServerSocket → Initialized
initialize a s = elim a.socket [
  | none ↦ record {
    socket = record s { server_fd = none };
    error = some (codes "Failed to create socket");
    closed = [];
  }
  | some fd ↦
      let s' = record s { server_fd = some fd } in
      if a.options_set
      then if a.bound
        then if a.listens
          then record { socket = record s' { listening = true }; error = none; closed = [] }
          else failed s' fd (codes "Failed to listen on socket")
        else failed s' fd (codes "Failed to bind to port")
      else failed s' fd (codes "Failed to set socket options")
]

-- A round of the loop: what `accept` answers, none for an error, and whether the socket still
-- listens when the round begins. The list ends where no round follows.
pub record Accept : Type 0 where
  pub listening : Bool
  pub client : Option (ℕ × Str)

-- The calls of `on_client_connected`.
unfoldable pub accept_connections : List Accept → List (ℕ × Str)
accept_connections [] = []
accept_connections (a ∷ rounds) =
    let rest = accept_connections rounds in
    if a.listening then elim a.client [ none ↦ rest | some c ↦ c ∷ rest ] else []

-- `shutdown`, which the destructor calls too, with the descriptors that it closes.
unfoldable pub shutdown : ServerSocket → ServerSocket × List ℕ
shutdown s = elim s.server_fd [
  | none ↦ (s, [])
  | some fd ↦ (record s { server_fd = none; listening = false }, fd ∷ [])
]
