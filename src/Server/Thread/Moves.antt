-- ===== src/Server/Thread/Moves.antt =====
-- What one round of a handler's loop can do to the rooms: the client of the thread stays where it
-- is, joins a room, or leaves its room; nobody else moves, and no room goes away.
use booking.Prelude.{
  ℕ, ◌≡◌, refl, ◌∙◌, Bool, true, false, [], Option, none, some, ◌==◌, ◌>>=◌, if◌then◌else◌,
}
use booking.Prelude.Text.{Str}
use booking.Server.Manager.{Server, ClientInfo}
use booking.Server.Manager.Sends.{OnlySends}
use booking.Server.Manager.Rooms.{is_member}
use booking.Server.Manager.Keeps.{Keeps, Keeps-trans, OnlySends-Keeps}
use booking.Server.Thread.{Turn, leaves}

-- The memberships of the two states are the same.
abbrev pub SameMembers : Server → Server → Type 0
SameMembers s s' = (n : Str) (fd : ℕ) → is_member s'.chat_rooms n fd ≡ is_member s.chat_rooms n fd

pub data Move (s : Server) (fd : ℕ) (info : ClientInfo) (s' : Server) (info' : ClientInfo)
    : Turn → Type 0 where
  stays :
      {turn : Turn}
      → info' ≡ info
      → ((n : Str) → is_member s'.chat_rooms n fd ≡ is_member s.chat_rooms n fd)
      → Move s fd info s' info' turn
  joins : is_member s'.chat_rooms info'.current_room fd ≡ true → Move s fd info s' info' leaves
  departs : info'.current_room ≡ [] → Move s fd info s' info' leaves

pub record Facts (s : Server) (fd : ℕ) (info : ClientInfo) (r : Server × ClientInfo × Turn)
    : Type 0 where
  pub keeps : Keeps s r.0
  pub others :
      (n : Str) (fd' : ℕ)
      → (fd == fd') ≡ false
      → is_member (r.0).chat_rooms n fd' ≡ is_member s.chat_rooms n fd'
  pub move : Move s fd info r.0 r.1 r.2

-- If the handler returns or goes on, and no exception leaves it, its result has the property.
pub data Sat {ℓ κ} {A : Type ℓ} (P : A → Type κ) : Option A → Type (ℓ ⊔ κ) where
  raises : Sat P none
  gives : {a : A} → P a → Sat P (some a)

pub Sat-if {ℓ κ} :
    {A : Type ℓ} {P : A → Type κ} (b : Bool) {x y : Option A}
    → Sat P x
    → Sat P y
    → Sat P (if b then x else y)
Sat-if true h k = h
Sat-if false h k = k

pub Sat-bind {ℓ κ ι} :
    {A : Type ℓ} {B : Type ι} {P : B → Type κ} (m : Option A) {f : A → Option B}
    → ((a : A) → Sat P (f a))
    → Sat P (m >>= f)
Sat-bind none h = raises
Sat-bind (some a) h = h a

pub quiet :
    (s s' : Server) (fd : ℕ) (info : ClientInfo) (turn : Turn)
    → Keeps s s'
    → SameMembers s s'
    → Facts s fd info (s', info, turn)
quiet s s' fd info turn k same = record {
  keeps = k;
  others = λ n fd' _. same n fd';
  move = stays refl (λ n. same n fd);
}

pub only_sends :
    (s s' : Server) (fd : ℕ) (info : ClientInfo) (turn : Turn)
    → OnlySends s s'
    → Facts s fd info (s', info, turn)
only_sends s s' fd info turn h =
    quiet s s' fd info turn (OnlySends-Keeps s s' h) (λ n fd'. rw h.rooms)

-- A first part that moves nobody can be put in front.
Move-from :
    (s s₁ : Server) (fd : ℕ) (info : ClientInfo) (s' : Server) (info' : ClientInfo) (turn : Turn)
    → SameMembers s s₁
    → Move s₁ fd info s' info' turn
    → Move s fd info s' info' turn
Move-from s s₁ fd info s' info' turn same (stays e h) = stays e (λ n. h n ∙ same n fd)
Move-from s s₁ fd info s' info' leaves same (joins h) = joins h
Move-from s s₁ fd info s' info' leaves same (departs h) = departs h

pub Facts-from :
    (s s₁ : Server) (fd : ℕ) (info : ClientInfo) (r : Server × ClientInfo × Turn)
    → Keeps s s₁
    → SameMembers s s₁
    → Facts s₁ fd info r
    → Facts s fd info r
Facts-from s s₁ fd info r k same f = record {
  keeps = Keeps-trans _ _ _ k f.keeps;
  others = λ n fd' e. f.others n fd' e ∙ same n fd';
  move = Move-from s s₁ fd info r.0 r.1 r.2 same f.move;
}
