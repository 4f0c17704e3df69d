-- ===== src/Queue/Fifo.antt =====
-- ThreadSafeQueue.h under any interleaving of its methods: what comes out, and in which order.
use booking.Prelude.{
  Bool, true, false, ◌≡◌, refl, ◌∙◌, ap, sym, List, [], ◌∷◌, ◌++◌, append_assoc, append-nil, Option,
  none, some, arith,
}
use booking.Queue.{
  Queue, Outcome, waits, returned, empty, take_front, push, try_pop_immediate, try_pop, pop, stop,
}

-- A method call by some thread, but `clear`.
pub data Call {ℓ} (T : Type ℓ) : Type ℓ where
  pushes : T → Call T
  pops_immediate pops stops : Call T
  pops_timed : Bool → Call T

module _ {ℓ} {T : Type ℓ} where
  -- The items that a call hands to its caller.
  abbrev pub out_of : Outcome T → List T
  out_of waits = []
  out_of (returned none) = []
  out_of (returned (some x)) = x ∷ []

  -- One call: the queue after it, and the item that it handed out, if any.
  unfoldable pub call : Queue T → Call T → Queue T × List T
  unfolding push try_pop_immediate try_pop pop stop
  call q (pushes x) = (push q x, [])
  call q pops_immediate = let (q', r) = try_pop_immediate q in (q', out_of (returned r))
  call q pops = let (q', r) = pop q in (q', out_of r)
  call q (pops_timed late) = let (q', r) = try_pop q late in (q', out_of r)
  call q stops = (stop q, [])

  -- A history of calls, in the order in which they took the mutex: the queue at the end, and the
  -- items handed out, oldest first.
  unfoldable pub run : Queue T → List (Call T) → Queue T × List T
  run q [] = (q, [])
  run q (c ∷ cs) = let (q', x) = call q c in let (q'', xs) = run q' cs in (q'', x ++ xs)

  -- The items whose push came before the first stop, in order.
  unfoldable pub accepted : List (Call T) → List T
  accepted [] = []
  accepted (stops ∷ cs) = []
  accepted (pushes x ∷ cs) = x ∷ accepted cs
  accepted (c ∷ cs) = accepted cs

  stopped_keeps : (q : Queue T) (c : Call T) → q.stopped ≡ true → ((call q c).0).stopped ≡ true
  unfolding call empty take_front
  stopped_keeps q (pushes x) h = ground arith
  stopped_keeps q pops_immediate h = ground arith
  stopped_keeps q pops h = ground arith
  stopped_keeps q (pops_timed late) h = ground arith
  stopped_keeps q stops h = refl

  -- One call neither loses nor reorders: what it hands out was at the front.
  call-stopped :
      (q : Queue T) (c : Call T) → q.stopped ≡ true → (call q c).1 ++ ((call q c).0).items ≡ q.items
  unfolding call empty take_front
  call-stopped q (pushes x) h = ground arith
  call-stopped q pops_immediate h = ground arith
  call-stopped q pops h = ground arith
  call-stopped q (pops_timed late) h = ground arith
  call-stopped q stops h = refl

  run-stopped :
      (q : Queue T) (cs : List (Call T))
      → q.stopped ≡ true
      → (run q cs).1 ++ ((run q cs).0).items ≡ q.items
  unfolding run
  run-stopped q [] h = refl
  run-stopped q (c ∷ cs) h =
      append_assoc (call q c).1 (run (call q c).0 cs).1 _
      ∙ ap (◌++◌ (call q c).1) (run-stopped (call q c).0 cs (stopped_keeps q c h))
      ∙ call-stopped q c h

  -- What a call brings in, where the queue has not been stopped.
  abbrev brought : Call T → List T
  brought (pushes x) = x ∷ []
  brought c = []

  abbrev is_stop : Call T → Bool
  is_stop stops = true
  is_stop c = false

  call-open :
      (q : Queue T) (c : Call T)
      → q.stopped ≡ false
      → (call q c).1 ++ ((call q c).0).items ≡ q.items ++ brought c
  unfolding call empty take_front
  call-open q (pushes x) h = ground arith
  call-open q pops_immediate h = ground (arith, append-nil q.items)
  call-open q pops h = ground (arith, append-nil q.items)
  call-open q (pops_timed late) h = ground (arith, append-nil q.items)
  call-open q stops h = sym (append-nil q.items)

  still_open :
      (q : Queue T) (c : Call T)
      → q.stopped ≡ false
      → is_stop c ≡ false
      → ((call q c).0).stopped ≡ false
  unfolding call empty take_front
  still_open q (pushes x) h e = ground arith
  still_open q pops_immediate h e = ground arith
  still_open q pops h e = ground arith
  still_open q (pops_timed late) h e = ground arith
  still_open q stops h e = cc

  run-step :
      (q : Queue T) (c : Call T) (cs : List (Call T)) (a : List T)
      → q.stopped ≡ false
      → (run (call q c).0 cs).1 ++ ((run (call q c).0 cs).0).items ≡ ((call q c).0).items ++ a
      → (run q (c ∷ cs)).1 ++ ((run q (c ∷ cs)).0).items ≡ q.items ++ (brought c ++ a)
  unfolding run
  run-step q c cs a h ih =
      append_assoc (call q c).1 (run (call q c).0 cs).1 _
      ∙ ap (◌++◌ (call q c).1) ih
      ∙ sym (append_assoc (call q c).1 ((call q c).0).items a)
      ∙ ap (λ l. l ++ a) (call-open q c h)
      ∙ append_assoc q.items (brought c) a

  -- Under every interleaving of pushes, pops and stops, the items handed out, followed by those
  -- still in the queue, are the items that were in it at first, followed by the items pushed
  -- before the first stop: nothing is lost, made up, handed out twice or reordered.
  pub run-fifo :
      (q : Queue T) (cs : List (Call T))
      → q.stopped ≡ false
      → (run q cs).1 ++ ((run q cs).0).items ≡ q.items ++ accepted cs
  unfolding accepted
  run-fifo q [] h = unfold run in sym (append-nil q.items)
  run-fifo q (pushes x ∷ cs) h =
      run-step q (pushes x) cs (accepted cs) h
        (run-fifo (call q (pushes x)).0 cs (still_open q (pushes x) h refl))
  run-fifo q (pops_immediate ∷ cs) h =
      run-step q pops_immediate cs (accepted cs) h
        (run-fifo (call q pops_immediate).0 cs (still_open q pops_immediate h refl))
  run-fifo q (pops ∷ cs) h =
      run-step q pops cs (accepted cs) h (run-fifo (call q pops).0 cs (still_open q pops h refl))
  run-fifo q (pops_timed late ∷ cs) h =
      run-step q (pops_timed late) cs (accepted cs) h
        (run-fifo (call q (pops_timed late)).0 cs (still_open q (pops_timed late) h refl))
  run-fifo q (stops ∷ cs) h =
      unfold run in unfold call in run-stopped (stop q) cs refl ∙ sym (append-nil q.items)

  abbrev front : List T → Option T
  front [] = none
  front (x ∷ xs) = some x

  abbrev rest : List T → List T
  rest [] = []
  rest (x ∷ xs) = xs

  -- On a stopped queue no call waits and no push is taken. `pop` and `try_pop` still hand out the
  -- items that are left, front first, and answer nothing only when there are none;
  -- `try_pop_immediate` hands out nothing, whatever is left.
  pub stopped_drains :
      (q : Queue T) (x : T) (late : Bool)
      → q.stopped ≡ true
      → ((pop q).1 ≡ returned (front q.items))
        × (((pop q).0).items ≡ rest q.items)
        × ((try_pop q late).1 ≡ returned (front q.items))
        × (((try_pop q late).0).items ≡ rest q.items)
        × (try_pop_immediate q ≡ (q, none))
        × (push q x ≡ q)
  unfolding pop try_pop try_pop_immediate push empty take_front
  stopped_drains q x late h =
      (ground arith, ground arith, ground arith, ground arith, ground arith, ground arith)
