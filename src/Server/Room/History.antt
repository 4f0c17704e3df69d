-- ===== src/Server/Room/History.antt =====
-- The history of a room: at most a hundred messages, the latest, in order.
use booking.Prelude.{
  suc, ◌-◌, ◌≤◌, ◌≡◌, refl, ◌∙◌, sym, ap, List, [], ◌∷◌, ◌++◌, append_assoc, append-nil, arith,
  length, length-append, drop, ltb, Bool-cases, ltb→lt, inl, inr, if◌then◌else◌,
}
use booking.Prelude.Text.{Str}
use booking.Server.Room.{ChatRoom, add_message, max_history_size, pop_front}

-- The room after a run of messages.
unfoldable pub add_messages : ChatRoom → List Str → ChatRoom
add_messages r [] = r
add_messages r (m ∷ ms) = add_messages (add_message r m) ms

-- The last hundred of a list.
abbrev pub latest : List Str → List Str
latest ms = drop (length ms - max_history_size) ms

length-pop_front : (ms : List Str) → length (pop_front ms) ≡ length ms - 1
length-pop_front [] = refl
length-pop_front (m ∷ ms) = omega arith

pub add_message_bounded :
    (r : ChatRoom) (m : Str)
    → length r.chat_history ≤ max_history_size
    → length (add_message r m).chat_history ≤ max_history_size
unfolding add_message
add_message_bounded r m h =
    ground
      (arith, length-append r.chat_history (m ∷ []), length-pop_front (r.chat_history ++ (m ∷ [])))

latest-add :
    (h : List Str) (m : Str) (ms : List Str)
    → length h ≤ max_history_size
    → latest (
        (if ltb max_history_size (length (h ++ (m ∷ [])))
          then pop_front (h ++ (m ∷ []))
          else (h ++ (m ∷ [])))
        ++ ms)
      ≡ latest (h ++ (m ∷ ms))
latest-add [] m ms h = refl
latest-add (x ∷ t) m ms h =
    elim (Bool-cases (ltb max_history_size (suc (length (t ++ (m ∷ [])))))) [
      | inl full ↦
          let l = t ++ (m ∷ ms) in
          let e : suc (length l) - max_history_size ≡ suc (length l - max_history_size) =
            omega (arith, length-append t (m ∷ ms), length-append t (m ∷ []), ltb→lt _ _ full) in
          rw (full, append_assoc t (m ∷ []) ms) (sym (ap (λ n. drop n (x ∷ l)) e))
      | inr room ↦ rw (room, append_assoc t (m ∷ []) ms) refl
    ]

latest-within : (h : List Str) → length h ≤ max_history_size → h ≡ latest (h ++ [])
latest-within h b =
    let e : length h - max_history_size ≡ 0 = omega arith in
    rw (append-nil h) (sym (ap (λ n. drop n h) e))

-- From a room whose history is within the bound, any run of messages leaves the latest hundred of
-- the old history and the new messages, in order, and so never more than a hundred.
pub add_messages-latest :
    (r : ChatRoom) (ms : List Str)
    → length r.chat_history ≤ max_history_size
    → ((add_messages r ms).chat_history ≡ latest (r.chat_history ++ ms))
      × (length (add_messages r ms).chat_history ≤ max_history_size)
unfolding add_messages
add_messages-latest r [] h = (latest-within r.chat_history h, h)
add_messages-latest r (m ∷ ms) h =
    let (e, b) = add_messages-latest (add_message r m) ms (add_message_bounded r m h) in
    (e ∙ unfold add_message in latest-add r.chat_history m ms h, b)

-- One message changes the history alone.
pub add_message-latest :
    (r : ChatRoom) (m : Str)
    → length r.chat_history ≤ max_history_size
    → add_message r m ≡ record r { chat_history = latest (r.chat_history ++ (m ∷ [])) }
unfolding add_messages add_message
add_message-latest r m h =
    ap (λ (ms : List Str). record r { chat_history = ms }) (add_messages-latest r (m ∷ []) h).0
