-- ===== src/Server/Socket/Closing.antt =====
-- Which descriptors are closed, and how often.
use booking.Prelude.{
  ℕ, ◌≡◌, refl, Bool, true, false, [], ◌∷◌, ◌++◌, Option, none, some, if◌then◌else◌,
}
use booking.Server.Socket.{new_socket, Setup, initialize, shutdown}

abbrev pub succeeds : Setup → Bool
succeeds a = if a.options_set then if a.bound then a.listens else false else false

-- What `initialize` and a shutdown close, whether the socket listens in between, and what a second
-- shutdown closes.
abbrev Ends : Setup → ℕ → Type 0
Ends a port =
    let r = initialize a (new_socket port) in
    (r.closed ++ (shutdown r.socket).1
      ≡ elim a.socket [ none ↦ [] | some fd ↦ if succeeds a then fd ∷ [] else fd ∷ fd ∷ [] ])
    × (r.socket.listening ≡ elim a.socket [ none ↦ false | some fd ↦ succeeds a ])
    × ((shutdown (shutdown r.socket).0).1 ≡ [])

abbrev setup : Option ℕ → Bool → Bool → Bool → Setup
setup fd o b l = record { socket = fd; options_set = o; bound = b; listens = l }

ends : (port : ℕ) (fd : Option ℕ) (o b l : Bool) → Ends (setup fd o b l) port
unfolding initialize shutdown new_socket
ends port none o b l = (refl, refl, refl)
ends port (some fd) true true true = (refl, refl, refl)
ends port (some fd) true true false = (refl, refl, refl)
ends port (some fd) true false l = (refl, refl, refl)
ends port (some fd) false b l = (refl, refl, refl)

-- From a new socket, through `initialize` and then the shutdown: the descriptor that `socket` gave
-- is closed once where `initialize` succeeds, and twice where it fails behind `socket`, by
-- `initialize` and again by the shutdown; where there is none nothing is closed. The socket listens
-- in between exactly where `initialize` succeeds, and a second shutdown closes nothing.
pub initialize-shutdown :
    (a : Setup) (port : ℕ)
    → let r = initialize a (new_socket port) in
      (r.closed ++ (shutdown r.socket).1
        ≡ elim a.socket [ none ↦ [] | some fd ↦ if succeeds a then fd ∷ [] else fd ∷ fd ∷ [] ])
      × (r.socket.listening ≡ elim a.socket [ none ↦ false | some fd ↦ succeeds a ])
      × ((shutdown (shutdown r.socket).0).1 ≡ [])
initialize-shutdown a port = ends port a.socket a.options_set a.bound a.listens
