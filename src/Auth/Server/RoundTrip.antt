-- ===== src/Auth/Server/RoundTrip.antt =====
-- The client's questions, answered by the server: the texts that one writes, the other reads.
use booking.Prelude.{ℕ, ◌≡◌, Bool, true, false, ◌||◌, [], ◌∷◌, ◌++◌, none, some, All, ◌==◌}
use booking.Prelude.Text.{Str, codes, is_empty}
use booking.Prelude.Streams.{is_space, Free, IsWord, starts_free}
use booking.Auth.Client
use booking.Auth.Client.{UserInfo}
use booking.Auth.Repository.{UserRepository}
use booking.Auth.Manager
use booking.Auth.Manager.{Manager, AuthToken}
use booking.Auth.Listener.{handle_client}
use booking.Auth.Server.{Moment, join_roles}

-- A zero byte ends what either side reads from its buffer.
abbrev pub is_zero : ℕ → Bool
is_zero c = c == 0

abbrev pub ends_line : ℕ → Bool
ends_line c = (c == 0) || (c == b'\n')

abbrev pub ends_role : ℕ → Bool
ends_role c = (c == 0) || (is_space c || (c == b';'))

-- A role that can stand in the answer: not empty, without white space, semicolon or zero byte.
pub record IsRole (r : Str) : Type 0 where
  pub free : Free ends_role r
  pub nonempty : is_empty r ≡ false

-- A token whose fields can stand in the answer.
pub record Printable (t : AuthToken) : Type 0 where
  pub name_word : IsWord t.username
  pub name_zero : Free is_zero t.username
  pub shown_starts : starts_free t.display_name ≡ true
  pub shown_line : Free ends_line t.display_name
  pub roles : All IsRole t.roles

-- The answer without its newline.
abbrev answer : AuthToken → Str
answer t = codes "USER " ++ (t.username ++ (b' ' ∷ (t.display_name ++ (b' ' ∷ join_roles t.roles))))

abbrev NonZero : ℕ → Type 0
NonZero c = is_zero c ≡ false

module _ {R : Type 0} (repo : UserRepository R) (hash : Str → Str) where
  -- What comes back for a command that has arrived whole at the server.
  unfoldable pub served : Manager R → Moment → Str → Str
  unfolding handle_client
  served a at command = elim (handle_client repo hash a at (some command)).1 [
    | none ↦ []
    | some text ↦ text
  ]
