-- ===== src/Auth/Tests.antt =====
-- The authentication service at a concrete user and token.
use booking.Prelude.{
  false, ◌+◌, ◌*◌, ◌&&◌, ◌≡◌, refl, sym, ◌∙◌, true, not, [], ◌∷◌, some, none, List, All, Bool-cases,
  inl, inr, ltb, if◌then◌else◌, arith, ◌++◌,
}
use booking.Prelude.Text.{Str, codes, str_eq, str_eq_refl, str_eq_iff}
use booking.Prelude.Maps.{Map, lookup, insert, erase, lookup-erase}
use booking.Json.Sample.{sample, sample-JsonLaws}
use booking.Auth.FileRepository
use booking.Auth.FileRepository.{Distinct, Walks, new_file_repository}
use booking.Auth.FileRepository.Restart.{
  Write, creates, updates, deletes, write_all, restart-find_user,
}
use booking.Auth.Repository.{User, in_memory, find_user, in_memory_repository}
use booking.Auth.Client
use booking.Auth.Manager.{Manager, AuthToken, minute, generate_token, hash_password, authenticate}
use booking.Auth.Manager.Tokens.{accepts, knows, authenticate-accepts}
use booking.Auth.Server.{Moment}
use booking.Auth.Listener.{new_listener, stop}
use booking.Auth.Listener.Closing.{Operation, starts, operate_all, follow_all, operate_all-closes}

-- A stand-in for `std::hash`.
abbrev same_text : Str → Str
same_text s = s

abbrev held : AuthToken
held = record {
  token = codes "a1";
  username = codes "ada";
  display_name = codes "Ada L";
  roles = codes "admin" ∷ codes "ops" ∷ [];
  issued_at = 5;
  expires_at = 5 + 60 * minute;
  is_valid = true;
}

abbrev service : Manager (Map User)
service = record { user_repository = in_memory same_text; active_tokens = (codes "a1", held) ∷ [] }

abbrev moment : Moment
moment = record { now = 9; bytes = [] }

authenticate-accepts_example :
    ((authenticate in_memory_repository same_text service 9
        (18 ∷ 171 ∷ [])
        (codes "test")
        (codes "test123")).1.is_valid
      ≡ knows in_memory_repository same_text service (codes "test") (codes "test123"))
    × (accepts
          (authenticate in_memory_repository same_text service 9
            (18 ∷ 171 ∷ [])
            (codes "test")
            (codes "test123")).0
          10
          (codes "12ab")
        ≡ (if knows in_memory_repository same_text service (codes "test") (codes "test123")
              && str_eq (generate_token (18 ∷ 171 ∷ [])) (codes "12ab")
            then not (ltb (9 + 60 * minute) 10)
            else accepts service 10 (codes "12ab")))
authenticate-accepts_example =
    authenticate-accepts in_memory_repository same_text service 9 (18 ∷ 171 ∷ []) (codes "test")
      (codes "test123") 10 (codes "12ab")

knows_test : knows in_memory_repository same_text service (codes "test") (codes "test123") ≡ true
unfolding find_user hash_password lookup str_eq in_memory insert
knows_test = refl

-- A walk of the users that leaves out what an earlier entry hides.
walk_once : Map User → Map User
walk_once [] = []
walk_once ((k, u) ∷ m) = (k, u) ∷ erase k (walk_once m)

lookup-walk_once : (m : Map User) (k : Str) → lookup k (walk_once m) ≡ lookup k m
unfolding walk_once lookup
lookup-walk_once [] k = refl
lookup-walk_once ((j, u) ∷ m) k =
    ground (arith, lookup-erase j k (walk_once m), lookup-walk_once m k)

erase-Distinct : (k : Str) (m : Map User) → Distinct m → Distinct (erase k m)
unfolding erase
erase-Distinct k [] d = tt
erase-Distinct k ((j, u) ∷ m) d = elim (Bool-cases (str_eq j k)) [
  | inl e ↦ rw e (erase-Distinct k m d.1)
  | inr e ↦ rw e (ground (arith, lookup-erase k j m, d.0), erase-Distinct k m d.1)
]

walk_once-Distinct : (m : Map User) → Distinct (walk_once m)
unfolding walk_once
walk_once-Distinct [] = tt
walk_once-Distinct ((k, u) ∷ m) = (
  ground (arith, lookup-erase k k (walk_once m), str_eq_refl k),
  erase-Distinct k (walk_once m) (walk_once-Distinct m),
)

-- The entries of a map without doubles are what it answers.
abbrev Answers : Map User → Map User → Type 0
Answers m xs = All (λ e. lookup e.0 m ≡ some e.1) xs

skip-Answers :
    (j : Str) (u : User) (m xs : Map User)
    → lookup j xs ≡ none
    → Answers m xs
    → Answers ((j, u) ∷ m) xs
unfolding lookup
skip-Answers j u m [] h a = tt
skip-Answers j u m ((k, v) ∷ xs) h a = elim (Bool-cases (str_eq k j)) [
  | inl e ↦ absurd (ground (arith, h, e))
  | inr e ↦ (
    ground (arith, e, str_eq_iff k j, str_eq_iff j k, a.0),
    skip-Answers j u m xs (ground (arith, h, e)) a.1,
  )
]

Distinct-Answers : (m : Map User) → Distinct m → Answers m m
unfolding lookup
Distinct-Answers [] d = tt
Distinct-Answers ((k, u) ∷ m) d =
    (rw (str_eq_refl k) refl, skip-Answers k u m m d.0 (Distinct-Answers m d.1))

walked-Answers : (m xs : Map User) → Answers (walk_once m) xs → Answers m xs
walked-Answers m [] a = tt
walked-Answers m ((k, u) ∷ xs) a = (sym (lookup-walk_once m k) ∙ a.0, walked-Answers m xs a.1)

walk_once-Walks : Walks walk_once
walk_once-Walks = record {
  of_map =
      λ m. walked-Answers m (walk_once m) (Distinct-Answers (walk_once m) (walk_once-Distinct m));
  whole = lookup-walk_once;
  once = walk_once-Distinct;
}

abbrev grace : User
grace = record {
  username = codes "grace";
  password_hash = codes "1f";
  display_name = codes "Grace H";
  roles = codes "admin" ∷ codes "ops" ∷ [];
}

abbrev some_writes : List Write
some_writes =
    creates grace
    ∷ creates (record grace { username = codes "ada" })
    ∷ updates (record grace { roles = [] })
    ∷ deletes (codes "ada")
    ∷ []

restart-find_user_example :
    FileRepository.find_user sample
      (new_file_repository sample
        (write_all sample walk_once (new_file_repository sample none) some_writes).file)
      (codes "grace")
    ≡ FileRepository.find_user sample
        (write_all sample walk_once (new_file_repository sample none) some_writes)
        (codes "grace")
restart-find_user_example =
    restart-find_user sample sample-JsonLaws walk_once walk_once-Walks none some_writes
      (codes "grace") (refl, (refl, (refl, (refl, tt))))

-- A server that is started twice, the first time on a port that is taken.
abbrev two_starts : List Operation
two_starts =
    starts (record { socket = some 3; bound = false; listens = true })
    ∷ starts (record { socket = some 4; bound = true; listens = true })
    ∷ []

operate_all-closes_example :
    let (l, calls) = operate_all two_starts new_listener in
    follow_all none (calls ++ (stop l).1) ≡ some none
operate_all-closes_example = operate_all-closes two_starts
