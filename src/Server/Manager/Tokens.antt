-- ===== src/Server/Manager/Tokens.antt =====
-- The cache of validated tokens.
use booking.Prelude.{
  ℕ, ◌-◌, ◌/◌, ◌≡◌, refl, ◌⊎◌, inl, inr, Bool, true, false, List, [], ◌∷◌, some, arith, ltb,
  Option-cases, Bool-cases,
}
use booking.Prelude.Text.{Str, str_eq_iff, str_eq_refl}
use booking.Prelude.Maps.{lookup, lookup-insert}
use booking.Auth.Client
use booking.Server.Manager.{
  Server, Surroundings, is_cached, validate_token, token_cache_seconds, second,
}

-- The authentication server's answer, asked now.
abbrev pub confirms : Surroundings → Str → Bool
confirms w token = Client.validate_token w.exchange token

-- Whether a reading of the clock lies within the cache's window of an earlier one.
abbrev pub in_window : ℕ → ℕ → Bool
in_window now t = ltb ((now - t) / second) token_cache_seconds

now_in_window : (t : ℕ) → in_window t t ≡ true
now_in_window t = let e : (t - t) / second ≡ 0 = omega arith in ground arith

-- A token that neither the cache nor the authentication server vouches for is refused, and the
-- server stays as it was.
pub validate_refused :
    (s : Server) (w : Surroundings) (token : Str)
    → (validate_token s w token).1 ≡ false
    → (validate_token s w token).0 ≡ s
unfolding validate_token
validate_refused s w token h = ground arith

-- What validation leaves alone.
pub validate_keeps :
    (s : Server) (w : Surroundings) (token : Str)
    → (((validate_token s w token).0).chat_rooms ≡ s.chat_rooms)
      × (((validate_token s w token).0).connected_clients ≡ s.connected_clients)
      × (((validate_token s w token).0).sent ≡ s.sent)
unfolding validate_token
validate_keeps s w token = ground arith

-- After the authentication server has confirmed a token that was not cached, a later call at which
-- it refuses the token answers by the clock alone: yes while fewer than thirty whole seconds have
-- passed since the confirmation, no from then on. So a revoked or expired token keeps being
-- accepted for up to thirty seconds, and not longer.
pub validate_window :
    (s : Server) (w w' : Surroundings) (token : Str)
    → is_cached s w.now token ≡ false
    → confirms w token ≡ true
    → confirms w' token ≡ false
    → ((validate_token s w token).1 ≡ true)
      × ((validate_token (validate_token s w token).0 w' token).1 ≡ in_window w'.now w.now)
unfolding validate_token
validate_window s w w' token cold yes_ no_ =
    ground (arith, lookup-insert token token w.now s.token_cache, str_eq_refl token)

-- The server after a history of validations, newest first.
unfoldable pub after : Server → List (Surroundings × Str) → Server
after s [] = s
after s ((w, token) ∷ hs) = (validate_token (after s hs) w token).0

-- Some call of the history had the token confirmed by the authentication server at that time.
abbrev pub Confirmed : Str → ℕ → List (Surroundings × Str) → Type 0
Confirmed token t [] = ⊥
Confirmed token t ((w, k) ∷ hs) =
    ((k ≡ token) × (w.now ≡ t) × (confirms w k ≡ true)) ⊎ Confirmed token t hs

-- Where an entry of the cache comes from.
cache_step :
    (s : Server) (w : Surroundings) (k token : Str) (t : ℕ)
    → lookup token ((validate_token s w k).0).token_cache ≡ some t
    → ((k ≡ token) × (w.now ≡ t) × (confirms w k ≡ true)) ⊎ (lookup token s.token_cache ≡ some t)
unfolding validate_token
cache_step s w k token t h =
    ground (arith, lookup-insert k token w.now s.token_cache, str_eq_iff k token)

-- Why a token is accepted.
accepted_by :
    (s : Server) (w : Surroundings) (token : Str)
    → (validate_token s w token).1 ≡ true
    → (confirms w token ≡ true)
      ⊎ ((t : ℕ) × (lookup token s.token_cache ≡ some t) × (in_window w.now t ≡ true))
accepted_by s w token h = elim (Option-cases (lookup token s.token_cache)) [
  | inl e ↦ inl (unfold validate_token is_cached in ground arith)
  | inr (t, e) ↦ elim (Bool-cases (in_window w.now t)) [
    | inl fresh ↦ inr (t, e, fresh)
    | inr stale ↦ inl (unfold validate_token is_cached in ground arith)
  ]
]

cached-Confirmed :
    (s : Server) (hs : List (Surroundings × Str))
    → s.token_cache ≡ []
    → (token : Str) (t : ℕ) → lookup token (after s hs).token_cache ≡ some t
    → Confirmed token t hs
unfolding after
cached-Confirmed s [] e token t h = unfold lookup in ground arith
cached-Confirmed s ((w, k) ∷ hs) e token t h = elim (cache_step (after s hs) w k token t h) [
  | inl c ↦ inl c
  | inr old ↦ inr (cached-Confirmed s hs e token t old)
]

-- Under any history of validations from an empty cache, a token is accepted only if some call of
-- that history, or this one, had it confirmed by the authentication server less than thirty whole
-- seconds before.
pub validate_backed :
    (s : Server) (hs : List (Surroundings × Str)) (w : Surroundings) (token : Str)
    → s.token_cache ≡ []
    → (validate_token (after s hs) w token).1 ≡ true
    → (t : ℕ) × Confirmed token t ((w, token) ∷ hs) × (in_window w.now t ≡ true)
validate_backed s hs w token e h = elim (accepted_by (after s hs) w token h) [
  | inl c ↦ (w.now, inl (refl, refl, c), now_in_window w.now)
  | inr (t, c, fresh) ↦ (t, inr (cached-Confirmed s hs e token t c), fresh)
]
