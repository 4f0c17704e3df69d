-- ===== src/Auth/Listener/Closing.antt =====
-- Which descriptors are closed, and how often.
use booking.Prelude.Runs.{run_all, run_all-append}
use booking.Prelude.{
  ℕ, ◌≡◌, refl, ◌∙◌, ◌==◌, ==_refl, Bool, true, false, List, [], ◌∷◌, ◌++◌, Option, none, some,
  if◌then◌else◌,
}
use booking.Auth.Listener.{Listener, new_listener, Opening, Call, opened, closed, start, stop}

-- The descriptor that is held after a call. It is none where a second is opened, or one is closed
-- that is not held.
abbrev pub follow : Call → Option ℕ → Option (Option ℕ)
follow (opened fd) none = some (some fd)
follow (opened fd) (some g) = none
follow (closed fd) none = none
follow (closed fd) (some g) = if g == fd then some none else none

abbrev pub follow_all : Option ℕ → List Call → Option (Option ℕ)
follow_all = run_all follow

pub data Operation : Type 0 where
  starts : Opening → Operation
  stops : Operation

unfoldable pub operate : Operation → Listener → Listener × List Call
operate (starts a) l = start a l
operate stops l = stop l

unfoldable pub operate_all : List Operation → Listener → Listener × List Call
unfolding operate
operate_all [] l = (l, [])
operate_all (o ∷ os) l =
    let (l₁, first) = operate o l in let (l₂, rest) = operate_all os l₁ in (l₂, first ++ rest)

abbrev listener : Option ℕ → Bool → Listener
listener fd running = record { server_fd = fd; running = running }

abbrev opening : Option ℕ → Bool → Bool → Opening
opening fd bound listens = record { socket = fd; bound = bound; listens = listens }

-- A server that runs holds its socket, and one that does not run holds none.
abbrev Held : Listener → Type 0
Held l = elim l.server_fd [ none ↦ l.running ≡ false | some fd ↦ l.running ≡ true ]

abbrev Goes : Option ℕ → Listener × List Call → Type 0
Goes held r = Held r.0 × (follow_all held r.1 ≡ some r.0.server_fd)

start-Goes : (fd : Option ℕ) (b l : Bool) → Goes none (start (opening fd b l) (listener none false))
unfolding start run_all
start-Goes none b l = (refl, refl)
start-Goes (some fd) true true = (refl, refl)
start-Goes (some fd) true false = (refl, rw (==_refl fd) refl)
start-Goes (some fd) false l = (refl, rw (==_refl fd) refl)

operate-Goes :
    (o : Operation) (fd : Option ℕ) (r : Bool)
    → Held (listener fd r)
    → Goes fd (operate o (listener fd r))
unfolding operate start stop run_all
operate-Goes (starts a) none true h = cc h
operate-Goes (starts a) none false h = start-Goes a.socket a.bound a.listens
operate-Goes (starts a) (some fd) true h = (refl, refl)
operate-Goes (starts a) (some fd) false h = cc h
operate-Goes stops none true h = cc h
operate-Goes stops none false h = (refl, refl)
operate-Goes stops (some fd) true h = (refl, rw (==_refl fd) refl)
operate-Goes stops (some fd) false h = cc h

operate_all-Goes :
    (os : List Operation) (l : Listener) → Held l → Goes l.server_fd (operate_all os l)
unfolding operate_all run_all
operate_all-Goes [] l h = (h, refl)
operate_all-Goes (o ∷ os) l h =
    let (held, first) = operate-Goes o l.server_fd l.running h in
    let (ends, rest) = operate_all-Goes os (operate o l).0 held in
    (
      ends,
      run_all-append follow (operate o l).1 l.server_fd (operate o l).0.server_fd _ first ∙ rest,
    )

-- However the authentication server is started and stopped, whatever of it fails, and then stopped
-- once more: each descriptor that is opened is closed once, and before the next is opened.
pub operate_all-closes :
    (os : List Operation)
    → let (l, calls) = operate_all os new_listener in
      follow_all none (calls ++ (stop l).1) ≡ some none
unfolding stop run_all
operate_all-closes os =
    let (held, along) = operate_all-Goes os new_listener refl in
    let l = (operate_all os new_listener).0 in
    run_all-append follow (operate_all os new_listener).1 none l.server_fd (stop l).1 along
    ∙ last l.server_fd l.running held
  where
    last :
        (fd : Option ℕ) (r : Bool)
        → Held (listener fd r)
        → follow_all fd (stop (listener fd r)).1 ≡ some none
    last none true h = cc h
    last none false h = refl
    last (some fd) true h = rw (==_refl fd) refl
    last (some fd) false h = cc h
