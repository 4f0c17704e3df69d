-- ===== src/Server/Room/Members.antt =====
-- Who is in a room, and who a broadcast reaches.
use booking.Prelude.{
  ℕ, ◌≡◌, refl, Bool, false, ◌||◌, List, [], ◌∷◌, ◌++◌, map, arith, any_of, remove_if, ◌==◌,
  if◌then◌else◌, ◌∙◌,
}
use booking.Prelude.Text.{Str, codes}
use booking.Server.Room.{
  RoomClient, ChatRoom, add_client, remove_client, has_client, broadcast_message, send_to_others,
  get_client_fds,
}

any_of-append {ℓ} :
    {A : Type ℓ} (p : A → Bool) (xs ys : List A)
    → any_of p (xs ++ ys) ≡ (any_of p xs || any_of p ys)
any_of-append p [] ys = refl
any_of-append p (x ∷ xs) ys = ground (arith, any_of-append p xs ys)

-- Joining adds the socket and no other.
pub has_client-add_client :
    (r : ChatRoom) (fd fd' : ℕ) (name ip : Str)
    → has_client (add_client r fd name ip) fd' ≡ (has_client r fd' || (fd == fd'))
unfolding has_client add_client
has_client-add_client r fd fd' name ip = any_of-append (λ c. c.fd == fd') r.clients _ ∙ ground arith

any-remove_if :
    (fd fd' : ℕ) (cs : List RoomClient)
    → any_of (λ c. c.fd == fd') (remove_if (λ c. c.fd == fd) cs)
      ≡ (if fd == fd' then false else any_of (λ c. c.fd == fd') cs)
any-remove_if fd fd' [] = ground arith
any-remove_if fd fd' (c ∷ cs) = ground (arith, any-remove_if fd fd' cs)

-- Leaving removes the socket, however often it joined, and no other.
pub has_client-remove_client :
    (r : ChatRoom) (fd fd' : ℕ)
    → has_client (remove_client r fd) fd' ≡ (if fd == fd' then false else has_client r fd')
unfolding has_client remove_client
has_client-remove_client r fd fd' = any-remove_if fd fd' r.clients

pub has_client-broadcast :
    (r : ChatRoom) (text : Str) (sender fd : ℕ)
    → has_client (broadcast_message r text sender).0 fd ≡ has_client r fd
unfolding has_client broadcast_message
has_client-broadcast r text sender fd = refl

-- The members but the sender.
abbrev pub others : ℕ → List ℕ → List ℕ
others fd = remove_if (λ f. f == fd)

send_to_others-map :
    (text : Str) (sender : ℕ) (cs : List RoomClient)
    → send_to_others text sender cs ≡ map (λ fd. (fd, text)) (others sender (map (λ c. c.fd) cs))
unfolding send_to_others
send_to_others-map text sender [] = refl
send_to_others-map text sender (c ∷ cs) = ground (arith, send_to_others-map text sender cs)

-- A broadcast sends the prefixed message once to each member but the sender, in the order in which
-- they joined.
pub broadcast_message-sends :
    (r : ChatRoom) (text : Str) (sender : ℕ)
    → (broadcast_message r text sender).1
      ≡ map (λ fd. (fd, codes "BROADCAST:" ++ text)) (others sender (get_client_fds r))
unfolding broadcast_message get_client_fds
broadcast_message-sends r text sender =
    send_to_others-map (codes "BROADCAST:" ++ text) sender r.clients
