-- ===== src/Client/Network.antt =====
-- The client's socket and its thread (src/client/NetworkManager.cpp). The results of the system's
-- calls are arguments.
pub mod Sending
use booking.Prelude.{
  ℕ, zero, suc, Bool, true, false, not, ◌||◌, List, [], ◌∷◌, ◌++◌, Option, none, some,
  if◌then◌else◌,
}
use booking.Prelude.Text.{Str, codes, c_string}
use booking.Queue.{Queue, push, try_pop_immediate, size}

-- `joinable` says whether `network_thread_` is a thread that was not joined, ended or not.
pub record Network : Type 0 where
  pub socket : Option ℕ
  pub connected : Bool
  pub running : Bool
  pub joinable : Bool

abbrev pub new_network : Network
new_network = record { socket = none; connected = false; running = false; joinable = false }

-- What `socket`, `inet_pton` and `::connect` answer in turn.
pub data Attempt : Type 0 where
  no_socket invalid_address unreachable : Attempt
  established : ℕ → Attempt

unfoldable pub connect : Network → Attempt → Network × Option Str
connect n no_socket =
    (record n { socket = none; connected = false }, some (codes "Failed to create socket"))
connect n invalid_address =
    (record n { socket = none; connected = false }, some (codes "Invalid address"))
connect n unreachable =
    (record n { socket = none; connected = false }, some (codes "Failed to connect to server"))
connect n (established fd) = (record n { socket = some fd; connected = true }, none)

unfoldable pub start : Network → Network
start n =
    if n.running || not n.connected
    then n
    else if n.joinable
    then n
    else record n { running = true; joinable = true }

unfoldable pub stop : Network → Network
stop n = record n { socket = none; connected = false; running = false; joinable = false }

-- The manager with its two queues, and the bytes that it handed to the socket.
pub record Link : Type 0 where
  pub network : Network
  pub inbound_queue : Queue Str
  pub outbound_queue : Queue Str
  pub sent : List Str

abbrev pub set_down : Network → Network
set_down n = record n { connected = false; running = false }

-- What `recv` answers.
pub data Received : Type 0 where
  closed_by_peer failed : Received
  bytes : Str → Received

unfoldable pub receive_data : Link → Received → Link
receive_data l closed_by_peer = record l {
  network = set_down l.network;
  inbound_queue = push l.inbound_queue (codes "SERVER_DISCONNECTED\n");
}
receive_data l failed = record l {
  network = set_down l.network;
  inbound_queue = push l.inbound_queue (codes "CONNECTION_ERROR\n");
}
receive_data l (bytes buffer) = record l { inbound_queue = push l.inbound_queue (c_string buffer) }

-- `goes` says of each call of `send`, counted from 0 on, whether it succeeds. Each round takes one
-- message, so that the number of the queued ones, and one round to find the queue empty, are
-- enough.
unfoldable pub send_loop : (ℕ → Bool) → ℕ → Link → Link
send_loop goes zero l = l
send_loop goes (suc k) l =
    let (queue, taken) = try_pop_immediate l.outbound_queue in
    let l' = record l { outbound_queue = queue } in
    let rest =
      λ (m : Str). send_loop (λ i. goes (suc i)) k (record l' { sent = l'.sent ++ (m ∷ []) }) in
    elim taken [
      | none ↦ l'
      | some message ↦
          if not l.network.connected then l' else if goes 0 then rest message else record l' {
            network = set_down l.network;
            inbound_queue = push l.inbound_queue (codes "CONNECTION_ERROR\n");
          }
    ]

unfoldable pub send_data : (ℕ → Bool) → Link → Link
unfolding send_loop
send_data goes l = send_loop goes (suc (size l.outbound_queue)) l

-- One round of the loop, where the socket is readable or not.
unfoldable pub network_round : (ℕ → Bool) → Option Received → Link → Link
unfolding receive_data send_data
network_round goes readable l =
    if l.network.running
    then (let l' : Link = elim readable [ none ↦ l | some r ↦ receive_data l r ] in
        send_data goes l')
    else l
