-- ===== src/Auth/Manager/Tokens.antt =====
-- The life of a token: issued, valid for an hour, revoked or cleaned up.
use booking.Prelude.{
  ℕ, ◌+◌, ◌*◌, ◌≤◌, ◌≡◌, Bool, false, not, ◌&&◌, List, none, some, arith, ltb, if◌then◌else◌,
  Bool-cases, Option-cases, inl, inr,
}
use booking.Prelude.Text.{Str, str_eq, str_eq_iff}
use booking.Prelude.Maps.{lookup, lookup-insert, lookup-erase}
use booking.Prelude.Maps.Sorted.{
  IsSorted, insert-IsSorted, erase-IsSorted, remove_if-IsSorted, lookup-remove_if,
}
use booking.Auth.Repository.{UserRepository}
use booking.Auth.Manager.{
  Manager, minute, new_token, is_expired, generate_token, hash_password, issue, authenticate, live,
  validate_token, revoke_token, register_user, cleanup_expired_tokens,
}

module _ {R : Type 0} where
  -- What the manager answers for a token at a time.
  abbrev pub accepts : Manager R → ℕ → Str → Bool
  accepts a now token = (validate_token a now token).1

  -- Whether the repository has the user with the hash of that password.
  abbrev pub knows : UserRepository R → (Str → Str) → Manager R → Str → Str → Bool
  knows repo hash a username password = elim (repo.find_user a.user_repository username) [
    | none ↦ false
    | some user ↦ str_eq user.password_hash (hash_password hash password)
  ]

  -- Authentication hands out a valid token exactly when the repository has the user with the hash
  -- of that password. The token is then accepted for sixty minutes, the last instant included, and
  -- no longer. Every other token, and after a failure every token, is answered for as before.
  pub authenticate-accepts :
      (repo : UserRepository R) (hash : Str → Str) (a : Manager R) (now : ℕ) (bytes : List ℕ)
      (username password : Str) (later : ℕ) (other : Str)
      → ((authenticate repo hash a now bytes username password).1.is_valid
          ≡ knows repo hash a username password)
        × (accepts (authenticate repo hash a now bytes username password).0 later other ≡ (
            if knows repo hash a username password && str_eq (generate_token bytes) other
            then not (ltb (now + 60 * minute) later)
            else accepts a later other))
  unfolding authenticate issue validate_token is_expired new_token
  authenticate-accepts repo hash a now bytes username password later other =
      elim (Option-cases (repo.find_user a.user_repository username)) [
        | inl e ↦ (ground arith, ground arith)
        | inr (user, e) ↦ (
          ground arith,
          ground (
            arith,
            lookup-insert (generate_token bytes) other
                (new_token now (generate_token bytes) username user.display_name user.roles)
                a.active_tokens,
          ),
        )
      ]

  -- A revoked token is refused from then on, and every other token is answered for as before.
  pub revoke_token-accepts :
      (a : Manager R) (now : ℕ) (token other : Str)
      → accepts (revoke_token a token) now other
        ≡ (if str_eq token other then false else accepts a now other)
  unfolding validate_token revoke_token
  revoke_token-accepts a now token other = ground (arith, lookup-erase token other a.active_tokens)

  -- Asking for a token at one time changes no answer at that time or later.
  pub validate_token-accepts :
      (a : Manager R) (now later : ℕ) (token other : Str)
      → now ≤ later
      → accepts (validate_token a now token).0 later other ≡ accepts a later other
  unfolding validate_token is_expired
  validate_token-accepts a now later token other h =
      ground (arith, lookup-erase token other a.active_tokens, str_eq_iff token other)

  authenticate-IsSorted :
      (repo : UserRepository R) (hash : Str → Str) (a : Manager R) (now : ℕ) (bytes : List ℕ)
      (s s' : Str)
      → IsSorted a.active_tokens
      → IsSorted ((authenticate repo hash a now bytes s s').0).active_tokens
  unfolding authenticate issue
  authenticate-IsSorted repo hash a now bytes s s' h =
      elim (Option-cases (repo.find_user a.user_repository s)) [
        | inl e ↦ rw (e, authenticate) h
        | inr (user, e) ↦
            rw (e, authenticate)
              (elim (Bool-cases (str_eq user.password_hash (hash_password hash s'))) [
                | inl g ↦ rw g (insert-IsSorted _ _ a.active_tokens h)
                | inr g ↦ rw g h
              ])
      ]

  live-IsSorted :
      (a : Manager R) (now : ℕ) (token : Str)
      → IsSorted a.active_tokens
      → IsSorted ((validate_token a now token).0).active_tokens
  unfolding validate_token
  live-IsSorted a now token h = elim (Option-cases (lookup token a.active_tokens)) [
    | inl e ↦ rw (e, live) h
    | inr (t, e) ↦
        rw (e, live)
          (elim (Bool-cases (is_expired now t)) [
            | inl g ↦ rw g (erase-IsSorted token a.active_tokens h)
            | inr g ↦ rw g h
          ])
  ]

  -- On a map of tokens whose keys ascend, cleaning up changes no answer at that time or later: it
  -- drops expired tokens only.
  pub cleanup-accepts :
      (a : Manager R) (now later : ℕ) (token : Str)
      → IsSorted a.active_tokens
      → now ≤ later
      → accepts (cleanup_expired_tokens a now) later token ≡ accepts a later token
  unfolding validate_token cleanup_expired_tokens is_expired
  cleanup-accepts a now later token s h =
      ground (arith, lookup-remove_if (λ e. is_expired now e.1) token a.active_tokens s)

  -- The tokens stay a map whose keys ascend, so that none stands twice: every operation of the
  -- manager keeps it so.
  pub tokens-IsSorted :
      (repo : UserRepository R) (hash : Str → Str) (a : Manager R) (now : ℕ) (bytes : List ℕ)
      (s s' s'' : Str)
      → IsSorted a.active_tokens
      → IsSorted ((authenticate repo hash a now bytes s s').0).active_tokens
        × IsSorted ((validate_token a now s).0).active_tokens
        × IsSorted (revoke_token a s).active_tokens
        × IsSorted ((register_user repo hash a s s' s'').0).active_tokens
        × IsSorted (cleanup_expired_tokens a now).active_tokens
  unfolding revoke_token register_user cleanup_expired_tokens
  tokens-IsSorted repo hash a now bytes s s' s'' h = (
    authenticate-IsSorted repo hash a now bytes s s' h,
    live-IsSorted a now s h,
    erase-IsSorted s a.active_tokens h,
    h,
    remove_if-IsSorted _ a.active_tokens h,
  )
