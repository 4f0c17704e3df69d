-- ===== src/Auth/FileRepository/Saved.antt =====
-- What loading gives of users that were saved.
use booking.Prelude.{
  ◌≡◌, refl, sym, ap, ◌∙◌, ◌⊎◌, inl, inr, true, false, List, [], ◌∷◌, Option, none, some, map,
  arith, All, Bool-cases, Option-cases, if◌then◌else◌,
}
use mathlib.Core.Path.{subst}
use booking.Prelude.Text.{Str, codes, is_empty, str_eq, str_eq_iff}
use booking.Prelude.Maps.{Map, lookup, insert, erase, values, lookup-insert, lookup-erase}
use booking.Json.{JsonLib, JsonLaws}
use booking.Auth.Repository.{User}
use booking.Auth.FileRepository.{
  Distinct, Walks, load_roles, load_user, load_users, users_of, load_from_file, user_json,
}

-- A user under its own name, which is not empty.
pub record IsFiled (k : Str) (user : User) : Type 0 where
  pub own : user.username ≡ k
  pub nonempty : is_empty user.username ≡ false

unfoldable pub Named : Map User → Type 0
Named m = (k : Str) (user : User) → lookup k m ≡ some user → IsFiled k user

-- What a table answers, and else another.
or_else : Option User → Option User → Option User
or_else none o = o
or_else (some u) o = some u

pub Named-insert :
    (m : Map User) (user : User)
    → is_empty user.username ≡ false
    → Named m
    → Named (insert user.username user m)
unfolding Named
Named-insert m user ne h k found e = elim (Bool-cases (str_eq user.username k)) [
  | inl eq ↦
      let same : some user ≡ some found =
        subst (λ b. (if b then some user else lookup k m) ≡ some found) eq
          (sym (lookup-insert user.username k user m) ∙ e) in
      record {
        own = ground (arith, same, (str_eq_iff user.username k).0 eq);
        nonempty = ground (arith, same, ne);
      }
  | inr ne' ↦ h k found (
      subst (λ b. (if b then some user else lookup k m) ≡ some found) ne'
        (sym (lookup-insert user.username k user m) ∙ e))
]

pub Named-erase : (m : Map User) (j : Str) → Named m → Named (erase j m)
unfolding Named
Named-erase m j h k found e = elim (Bool-cases (str_eq j k)) [
  | inl eq ↦ absurd (ground (arith, lookup-erase j k m, eq, e))
  | inr ne ↦
      h k found (
        subst (λ b. (if b then none else lookup k m) ≡ some found) ne
          (sym (lookup-erase j k m) ∙ e))
]

module _ (J : JsonLib) (laws : JsonLaws J) where
  load_roles-strings : (roles : List Str) → load_roles J (map J.string roles) ≡ some roles
  unfolding load_roles
  load_roles-strings [] = refl
  load_roles-strings (r ∷ rs) = rw (laws.get_string-string r, load_roles-strings rs) refl

  abbrev entries : User → List (Str × J.Json)
  entries user =
      (codes "username", J.string user.username)
      ∷ (codes "password_hash", J.string user.password_hash)
      ∷ (codes "display_name", J.string user.display_name)
      ∷ (codes "roles", J.array (map J.string user.roles))
      ∷ []

  load_user-user_json : (user : User) → load_user J (user_json J user) ≡ some user
  unfolding load_user user_json lookup str_eq
  load_user-user_json user =
      rw
        (
          laws.value_string-object (entries user) (codes "username") user.username [] refl,
          laws.value_string-object (entries user) (codes "password_hash") user.password_hash []
              refl,
          laws.value_string-object (entries user) (codes "display_name") user.display_name [] refl,
          laws.contains-object (entries user) (codes "roles") (J.array (map J.string user.roles))
              refl,
          laws.at-object (entries user) (codes "roles") (J.array (map J.string user.roles)) refl,
          laws.elements-array (map J.string user.roles),
          load_roles-strings user.roles,
        )
        refl

  abbrev keep : User → Map User → Map User
  keep user m = if is_empty user.username then m else insert user.username user m

  Named-keep : (user : User) (m : Map User) → Named m → Named (keep user m)
  Named-keep user m h = elim (Bool-cases (is_empty user.username)) [
    | inl e ↦ rw e h
    | inr e ↦ rw e (Named-insert m user e h)
  ]

  Named-load_users : (js : List J.Json) (m : Map User) → Named m → Named (load_users J js m)
  unfolding load_users
  Named-load_users [] m h = h
  Named-load_users (j ∷ js) m h = elim (Option-cases (load_user J j)) [
    | inl e ↦ rw (load_users, e) h
    | inr (user, e) ↦ rw (load_users, e) (Named-load_users js (keep user m) (Named-keep user m h))
  ]

  Named-none : Named []
  unfolding Named lookup
  Named-none k user e = absurd (ground (arith, e))

  pub Named-load_from_file : (file : Option Str) → Named (load_from_file J file)
  unfolding load_from_file
  Named-load_from_file none = Named-none
  Named-load_from_file (some text) = elim (Option-cases (J.read text)) [
    | inl e ↦ rw (load_from_file, e) Named-none
    | inr (j, e) ↦ rw (load_from_file, e) (Named-load_users (users_of J j) [] Named-none)
  ]

  step_filed :
      (u : User) (js : List J.Json) (m : Map User)
      → is_empty u.username ≡ false
      → load_users J (user_json J u ∷ js) m ≡ load_users J js (insert u.username u m)
  unfolding load_users
  step_filed u js m ne = rw (load_users, load_user-user_json u, ne) refl

  -- Loading what was saved: the walked entries are inserted in turn.
  load_users-filed :
      (xs m : Map User) (k : Str)
      → Distinct xs
      → All (λ e. IsFiled e.0 e.1) xs
      → lookup k (load_users J (map (user_json J) (values xs)) m)
        ≡ or_else (lookup k xs) (lookup k m)
  unfolding load_users lookup or_else
  load_users-filed [] m k d f = refl
  load_users-filed ((j, u) ∷ xs) m k d f =
      ap (lookup k) (step_filed u (map (user_json J) (values xs)) m f.0.nonempty)
      ∙ (load_users-filed xs (insert u.username u m) k d.1 f.1
          ∙ (ap (or_else (lookup k xs)) (
                lookup-insert u.username k u m
                ∙ ap (λ n. if str_eq n k then some u else lookup k m) f.0.own)
              ∙ first (Bool-cases (str_eq j k))))
    where
      first :
          (str_eq j k ≡ true) ⊎ (str_eq j k ≡ false)
          → or_else (lookup k xs) (if str_eq j k then some u else lookup k m)
            ≡ or_else (if str_eq j k then some u else lookup k xs) (lookup k m)
      first (inl e) = rw (e, subst (λ i. lookup i xs ≡ none) ((str_eq_iff j k).0 e) d.0) refl
      first (inr e) = rw e refl

  or_else-none : (o : Option User) → or_else o none ≡ o
  unfolding or_else
  or_else-none none = refl
  or_else-none (some u) = refl

  module _ (walk : Map User → Map User) (walks : Walks walk) where
    abbrev pub saved : Map User → J.Json
    saved users = J.object ((codes "users", J.array (map (user_json J) (values (walk users)))) ∷ [])

    users_of-saved :
        (users : Map User) → users_of J (saved users) ≡ map (user_json J) (values (walk users))
    unfolding users_of lookup str_eq
    users_of-saved users =
        let js = map (user_json J) (values (walk users)) in
        rw
          (
            users_of,
            laws.contains-object ((codes "users", J.array js) ∷ []) (codes "users") (J.array js)
                refl,
            laws.at-object ((codes "users", J.array js) ∷ []) (codes "users") (J.array js) refl,
            laws.elements-array js,
          )
          refl

    filed :
        (users xs : Map User)
        → Named users
        → All (λ e. lookup e.0 users ≡ some e.1) xs
        → All (λ e. IsFiled e.0 e.1) xs
    unfolding Named
    filed users [] n h = tt
    filed users ((k, u) ∷ xs) n h = (n k u h.0, filed users xs n h.1)

    pub load-saved :
        (users : Map User) (k : Str)
        → Named users
        → lookup k (load_from_file J (some (J.dump_indented (saved users)))) ≡ lookup k users
    unfolding load_from_file lookup
    load-saved users k n =
        rw (load_from_file, laws.read-dump_indented (saved users), users_of-saved users)
          (load_users-filed (walk users) [] k (walks.once users)
              (filed users (walk users) n (walks.of_map users))
            ∙ (or_else-none (lookup k (walk users)) ∙ walks.whole users k))
