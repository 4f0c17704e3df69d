-- ===== src/Client/Application/Login.antt =====
-- How a LOGIN event ends.
use booking.Prelude.{
  ◌≡◌, refl, inl, inr, Bool, true, false, ◌&&◌, ◌||◌, not, [], ◌∷◌, ◌++◌, Option, none, some,
  Bool-cases, Option-cases, ◌⊎◌, if◌then◌else◌,
}
use booking.Prelude.Text.{Str}
use booking.Json.{JsonLib}
use booking.Message.{serialize, create_auth}
use booking.Queue.{push}
use booking.Auth.Client
use booking.Client.Command.{show_error, error_data}
use booking.Client.Network.{
  Network, Attempt, connect, no_socket, invalid_address, unreachable, established,
}
use booking.Client.Application.{Application, Outside, login_with, open_chat}

abbrev pub has_network : Option Network → Bool
has_network none = false
has_network (some n) = true

-- Whether a connection comes about.
abbrev pub is_established : Attempt → Bool
is_established no_socket = false
is_established invalid_address = false
is_established unreachable = false
is_established (established fd) = true

-- The connection is reported as failed exactly where it does not come about.
connect-cases :
    (n : Network) (t : Attempt)
    → ((is_established t ≡ true) × ((connect n t).1 ≡ none))
      ⊎ ((is_established t ≡ false) × ((p : Str) × ((connect n t).1 ≡ some p)))
unfolding connect
connect-cases n no_socket = inr (refl, (_, refl))
connect-cases n invalid_address = inr (refl, (_, refl))
connect-cases n unreachable = inr (refl, (_, refl))
connect-cases n (established fd) = inl (refl, refl)

module _ (J : JsonLib) where
  -- A login goes through exactly where the authentication server accepts it and, if there is a
  -- network manager, the connection comes about and the token is sent: then the state holds the
  -- token and the display name that the server answered, the client counts as connected, and no
  -- error is shown. Otherwise the state stays as it was and one error is shown. The token is handed
  -- to the socket exactly where the server accepts, there is a network manager and the connection
  -- comes about.
  pub login_with-outcome :
      (a : Application) (w : Outside) (username password : Str)
      → let a' = login_with J a w username password in
        let r = Client.authenticate w.exchange username password in
        let networked = has_network a.network_manager in
        let works = r.success && (not networked || (is_established w.attempt && w.send_works)) in
        let goes_out = r.success && (networked && is_established w.attempt) in
        (a'.state ≡ (
          if works
          then record a.state { token = r.token; username = r.display_name; connected = true }
          else a.state))
        × ((text : Str) × (a'.ui_commands ≡ (
              if works
              then a.ui_commands
              else push a.ui_commands (record { type = show_error; payload = error_data text }))))
        × (a'.sent ≡ (
            if goes_out
            then a.sent ++ (serialize J (create_auth J w.timestamp r.token) ∷ [])
            else a.sent))
  unfolding login_with open_chat
  login_with-outcome a w username password =
      let r = Client.authenticate w.exchange username password in
      elim (Bool-cases r.success) [
        | inr e ↦ rw (login_with, e) (refl, (_, refl), refl)
        | inl e ↦ elim (Option-cases a.network_manager) [
          | inl n ↦ rw (login_with, e, n) (refl, ([], refl), refl)
          | inr (n, h) ↦ elim (connect-cases n w.attempt) [
            | inr (u, (p, k)) ↦ rw (login_with, e, h, open_chat, k, u) (refl, (_, refl), refl)
            | inl (u, k) ↦ elim (Bool-cases w.send_works) [
              | inl g ↦ rw (login_with, e, h, open_chat, k, u, g) (refl, ([], refl), refl)
              | inr g ↦ rw (login_with, e, h, open_chat, k, u, g) (refl, (_, refl), refl)
            ]
          ]
        ]
      ]
