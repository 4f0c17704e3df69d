-- ===== src/Client/Network/Sending.antt =====
-- What `send_data` makes of the queued messages, and when the network thread runs again.
use booking.Prelude.{
  ◌<◌, ℕ, zero, suc, ◌≤◌, ◌≡◌, refl, sym, ap, ◌∙◌, ◌⊎◌, inl, inr, Bool, true, false, List, [], ◌∷◌,
  ◌++◌, append_assoc, append-nil, arith, Bool-cases, length,
}
use mathlib.Core.Path.{subst}
use booking.Prelude.Text.{Str, codes}
use booking.Queue.{push, try_pop_immediate, size, take_front, empty}
use booking.Client.Network.{
  Network, Attempt, Link, connect, start, no_socket, invalid_address, unreachable, established,
  send_loop, send_data,
}

-- What the application does to the manager, short of `stop`.
pub data Use : Type 0 where
  connects : Attempt → Use
  starts : Use

abbrev pub use_all : Network → List Use → Network
use_all n [] = n
use_all n (connects a ∷ us) = use_all (connect n a).0 us
use_all n (starts ∷ us) = use_all (start n) us

-- Once the network thread has ended by itself, which leaves it unjoined, no sequence of calls of
-- `connect` and `start` makes it run again.
pub ended_stays :
    (n : Network) (us : List Use)
    → n.joinable ≡ true
    → n.running ≡ false
    → (use_all n us).running ≡ false
unfolding connect start
ended_stays n [] j r = r
ended_stays n (connects no_socket ∷ us) j r = ended_stays _ us j r
ended_stays n (connects invalid_address ∷ us) j r = ended_stays _ us j r
ended_stays n (connects unreachable ∷ us) j r = ended_stays _ us j r
ended_stays n (connects (established fd) ∷ us) j r = ended_stays _ us j r
ended_stays n (starts ∷ us) j r = ended_stays (start n) us (ground arith) (ground arith)

-- The messages that went out, the one that was taken and not sent, and what is left.
pub record Split (goes : ℕ → Bool) (before after : Link) : Type 0 where
  went : List Str
  lost : List Str
  sent : after.sent ≡ before.sent ++ went
  kept : before.outbound_queue.items ≡ went ++ (lost ++ after.outbound_queue.items)
  good : (i : ℕ) → i < length went → goes i ≡ true
  few : length lost ≤ 1
  ended : ((lost ≡ []) × (after.outbound_queue.items ≡ [])) ⊎ (after.network.connected ≡ false)

abbrev queued : Link → List Str → Link
queued l items = record l { outbound_queue = record { items = items; stopped = false } }

abbrev gone : Link → Str → Link
gone l m = record l { sent = l.sent ++ (m ∷ []) }

abbrev broken : Link → Link
broken l = record l {
  network = record l.network { connected = false; running = false };
  inbound_queue = push l.inbound_queue (codes "CONNECTION_ERROR\n");
}

-- The outcomes of the calls behind the first.
abbrev later : (ℕ → Bool) → ℕ → Bool
later goes i = goes (suc i)

loop-empty :
    (goes : ℕ → Bool) (k : ℕ) (l : Link) → send_loop goes (suc k) (queued l []) ≡ queued l []
unfolding send_loop try_pop_immediate empty take_front
loop-empty goes k l = refl

module _ (goes : ℕ → Bool) (k : ℕ) (l : Link) (m : Str) (ms : List Str) where
  loop_down : l.network.connected ≡ false → send_loop goes (suc k) (queued l (m ∷ ms)) ≡ queued l ms
  unfolding send_loop try_pop_immediate empty take_front
  loop_down c = rw (c)

  loop_goes :
      l.network.connected ≡ true
      → goes 0 ≡ true
      → send_loop goes (suc k) (queued l (m ∷ ms)) ≡ send_loop (later goes) k (queued (gone l m) ms)
  unfolding send_loop try_pop_immediate empty take_front
  loop_goes c g = rw (c, g)

  loop_breaks :
      l.network.connected ≡ true
      → goes 0 ≡ false
      → send_loop goes (suc k) (queued l (m ∷ ms)) ≡ queued (broken l) ms
  unfolding send_loop try_pop_immediate empty take_front
  loop_breaks c g = rw (c, g)

after_gone :
    (goes : ℕ → Bool) (l : Link) (m : Str) (ms : List Str) (after : Link)
    → goes 0 ≡ true
    → Split (later goes) (queued (gone l m) ms) after
    → Split goes (queued l (m ∷ ms)) after
after_gone goes l m ms after g s = record {
  went = m ∷ s.went;
  lost = s.lost;
  sent = s.sent ∙ append_assoc l.sent (m ∷ []) s.went;
  kept = ap (◌∷◌ m) s.kept;
  good = first;
  few = s.few;
  ended = s.ended;
}
  where
    first : (i : ℕ) → i < length (m ∷ s.went) → goes i ≡ true
    first zero h = g
    first (suc i) h = s.good i (omega (arith, h))

one_lost :
    (goes : ℕ → Bool) (l after : Link) (m : Str) (ms : List Str)
    → after.sent ≡ l.sent
    → after.outbound_queue.items ≡ ms
    → after.network.connected ≡ false
    → Split goes (queued l (m ∷ ms)) after
one_lost goes l after m ms s i c = record {
  went = [];
  lost = m ∷ [];
  sent = s ∙ sym (append-nil l.sent);
  kept = ap (◌∷◌ m) (sym i);
  good = λ i h. absurd (omega (arith, h));
  few = omega arith;
  ended = inr c;
}

send_loop-Split :
    (goes : ℕ → Bool) (k : ℕ) (items : List Str) (l : Link)
    → length items ≤ k
    → Split goes (queued l items) (send_loop goes (suc k) (queued l items))
send_loop-Split goes k [] l h = record {
  went = [];
  lost = [];
  sent = ap (λ x. x.sent) (loop-empty goes k l) ∙ sym (append-nil l.sent);
  kept = ap (λ x. x.outbound_queue.items) (sym (loop-empty goes k l));
  good = λ i h. absurd (omega (arith, h));
  few = omega arith;
  ended = inl (refl, ap (λ x. x.outbound_queue.items) (loop-empty goes k l));
}
send_loop-Split goes zero (m ∷ ms) l h = absurd (omega (arith, h))
send_loop-Split goes (suc k) (m ∷ ms) l h = elim (Bool-cases l.network.connected) [
  | inr c ↦
      subst (Split goes (queued l (m ∷ ms))) (sym (loop_down goes (suc k) l m ms c))
        (one_lost goes l (queued l ms) m ms refl refl c)
  | inl c ↦ elim (Bool-cases (goes 0)) [
    | inl g ↦ subst (Split goes (queued l (m ∷ ms))) (sym (loop_goes goes (suc k) l m ms c g)) (
        after_gone goes l m ms _ g
          (send_loop-Split (later goes) k ms (gone l m) (omega (arith, h))))
    | inr g ↦
        subst (Split goes (queued l (m ∷ ms))) (sym (loop_breaks goes (suc k) l m ms c g))
          (one_lost goes l (queued (broken l) ms) m ms refl refl refl)
  ]
]

-- A call of `send_data` on a queue that was not stopped sends a first part of the queued
-- messages, in order, each by a call of `send` that succeeds, takes at most one more message and
-- loses it, and leaves the others queued; it loses none and leaves none unless the connection is
-- down when it returns.
pub send_data-Split :
    (goes : ℕ → Bool) (l : Link)
    → l.outbound_queue.stopped ≡ false
    → Split goes l (send_data goes l)
unfolding send_data size
send_data-Split goes l h =
    subst (λ x. Split goes x (send_loop goes (suc (length l.outbound_queue.items)) x))
      (ap (λ (b : Bool). record l { outbound_queue = record l.outbound_queue { stopped = b } })
        (sym h))
      (send_loop-Split goes (length l.outbound_queue.items) l.outbound_queue.items l (omega arith))
