-- ===== src/Queue/Tests.antt =====
-- The queue at concrete histories.
use booking.Prelude.{ℕ, ◌≡◌, refl, true, false, List, [], ◌∷◌, ◌++◌, none, some}
use booking.Queue.{Queue, new_queue, returned, pop, try_pop, try_pop_immediate, push}
use booking.Queue.Fifo.{
  Call, pushes, pops, pops_immediate, stops, run, accepted, run-fifo, stopped_drains, call,
}

abbrev history : List (Call ℕ)
history = pops ∷ pushes 4 ∷ pushes 5 ∷ pops_immediate ∷ pushes 6 ∷ stops ∷ pushes 7 ∷ pops ∷ []

handed_out : (run new_queue history).1 ≡ 4 ∷ 5 ∷ []
unfolding run call
handed_out = refl

run-fifo_example : (run new_queue history).1 ++ ((run new_queue history).0).items ≡ 4 ∷ 5 ∷ 6 ∷ []
unfolding accepted
run-fifo_example = run-fifo new_queue history refl

abbrev closing : Queue ℕ
closing = record { items = 8 ∷ 9 ∷ []; stopped = true }

stopped_drains_example :
    ((pop closing).1 ≡ returned (some 8))
    × (((pop closing).0).items ≡ 9 ∷ [])
    × ((try_pop closing false).1 ≡ returned (some 8))
    × (((try_pop closing false).0).items ≡ 9 ∷ [])
    × (try_pop_immediate closing ≡ (closing, none))
    × (push closing 1 ≡ closing)
stopped_drains_example = stopped_drains closing 1 false refl
