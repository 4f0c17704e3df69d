-- ===== src/Auth/FileRepository/Restart.antt =====
-- The users that a program finds when it opens the file again.
use booking.Prelude.{
  ◌≡◌, refl, sym, ap, ◌∙◌, ◌⊎◌, inl, inr, Bool, true, false, List, [], ◌∷◌, Option, none, All,
  Bool-cases, Option-cases, if◌then◌else◌,
}
use mathlib.Core.Path.{subst}
use booking.Prelude.Text.{Str, is_empty, str_eq, str_eq_iff}
use booking.Prelude.Maps.{Map, lookup, insert, erase, lookup-erase}
use booking.Json.{JsonLib, JsonLaws}
use booking.Auth.Repository.{User, has_value}
use booking.Auth.FileRepository.{
  FileRepository, Walks, load_from_file, new_file_repository, find_user, save_to_file, create_user,
  update_user, delete_user,
}
use booking.Auth.FileRepository.Saved.{
  Named, Named-insert, Named-erase, Named-load_from_file, load-saved,
}

-- A writing call.
pub data Write : Type 0 where
  creates updates : User → Write
  deletes : Str → Write

abbrev pub name_of : Write → Str
name_of (creates user) = user.username
name_of (updates user) = user.username
name_of (deletes username) = username

module _ (J : JsonLib) (walk : Map User → Map User) where
  -- A writing call, with the file open for writing, and several.
  unfoldable pub write : FileRepository → Write → FileRepository
  write r (creates user) = (create_user J walk true r user).0
  write r (updates user) = (update_user J walk true r user).0
  write r (deletes username) = (delete_user J walk true r username).0

  unfoldable pub write_all : FileRepository → List Write → FileRepository
  unfolding write
  write_all r [] = r
  write_all r (w ∷ ws) = write_all (write r w) ws

module _ (J : JsonLib) (laws : JsonLaws J) where
  module _ (walk : Map User → Map User) (walks : Walks walk) where
    -- The file holds the users.
    record Synced (r : FileRepository) : Type 0 where
      named : Named r.users
      synced : (k : Str) → lookup k (load_from_file J r.file) ≡ lookup k r.users

    save_to_file-Synced :
        (file : Option Str) (users : Map User)
        → Named users
        → Synced (save_to_file J walk true (record { file = file; users = users }))
    unfolding save_to_file
    save_to_file-Synced file users n = record {
      named = n;
      synced = λ k. load-saved J laws walk walks users k n;
    }

    if-Synced :
        (b : Bool) (x y : FileRepository × Bool)
        → Synced x.0
        → Synced y.0
        → Synced (if b then x else y).0
    if-Synced true x y h k = h
    if-Synced false x y h k = k

    write-Synced :
        (r : FileRepository) (w : Write)
        → is_empty (name_of w) ≡ false
        → Synced r
        → Synced (write J walk r w)
    unfolding write create_user update_user delete_user
    write-Synced r (creates user) ne h =
        if-Synced (has_value (lookup user.username r.users)) (r, false) (_, true) h
          (save_to_file-Synced r.file (insert user.username user r.users)
            (Named-insert r.users user ne h.named))
    write-Synced r (updates user) ne h =
        if-Synced (has_value (lookup user.username r.users)) (_, true) (r, false)
          (save_to_file-Synced r.file (insert user.username user r.users)
            (Named-insert r.users user ne h.named))
          h
    write-Synced r (deletes username) ne h = elim (Option-cases (lookup username r.users)) [
      | inl e ↦
          rw (write, delete_user, e)
            (record {
              named = Named-erase r.users username h.named;
              synced = λ k. h.synced k ∙ absent e k (Bool-cases (str_eq username k));
            })
      | inr (u, e) ↦
          rw (write, delete_user, e)
            (save_to_file-Synced r.file (erase username r.users)
              (Named-erase r.users username h.named))
    ]
      where
        absent :
            lookup username r.users ≡ none
            → (k : Str) → (str_eq username k ≡ true) ⊎ (str_eq username k ≡ false)
            → lookup k r.users ≡ lookup k (erase username r.users)
        absent e k (inl eq) =
            subst (λ i. lookup i r.users ≡ none) ((str_eq_iff username k).0 eq) e
            ∙ sym (
                lookup-erase username k r.users ∙ ap (λ b. if b then none else lookup k r.users) eq)
        absent e k (inr ne) =
            sym
              (lookup-erase username k r.users ∙ ap (λ b. if b then none else lookup k r.users) ne)

    write_all-Synced :
        (r : FileRepository) (ws : List Write)
        → All (λ w. is_empty (name_of w) ≡ false) ws
        → Synced r
        → Synced (write_all J walk r ws)
    unfolding write_all
    write_all-Synced r [] ne h = h
    write_all-Synced r (w ∷ ws) ne h =
        write_all-Synced (write J walk r w) ws ne.1 (write-Synced r w ne.0 h)

    -- Whatever the file held at the start, and whatever users are then created, updated and deleted
    -- under names that are not empty, with the file open for writing each time: a program that
    -- starts again finds by each name the user that this one finds.
    pub restart-find_user :
        (file : Option Str) (ws : List Write) (k : Str)
        → All (λ w. is_empty (name_of w) ≡ false) ws
        → find_user J
            (new_file_repository J (write_all J walk (new_file_repository J file) ws).file)
            k
          ≡ find_user J (write_all J walk (new_file_repository J file) ws) k
    unfolding find_user new_file_repository
    restart-find_user file ws k ne =
        (write_all-Synced (new_file_repository J file) ws ne start).synced k
      where
        start : Synced (new_file_repository J file)
        start = record { named = Named-load_from_file J laws file; synced = λ k. refl }
