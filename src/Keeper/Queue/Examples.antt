-- ===== src/Keeper/Queue/Examples.antt =====
-- keeper/keeper.mjs, the queue of submissions: the theorem on a short run.
use perps_litvm.Base.{[], ◌∷◌}
use perps_litvm.Keeper.WorkingSet.{has, add}
use perps_litvm.Keeper.Queue.{
  Queue, flying, nothing, empty_queue, enqueue, executes, starts, Reachable, at_start, then_step,
}
use perps_litvm.Keeper.Queue.Once.{IsOnce, Reachable-IsOnce}

-- 4 flies and 6 waits; 4 has been asked for twice.
abbrev four_flies : Queue
four_flies = record { in_flight = 4 ∷ 6 ∷ []; running = flying 4; waiting = 6 ∷ [] }

abbrev both_wait : Queue
both_wait = record { in_flight = 4 ∷ 6 ∷ []; running = nothing; waiting = 4 ∷ 6 ∷ [] }

four_flies-Reachable : Reachable four_flies
unfolding empty_queue enqueue has add
four_flies-Reachable =
    let one = then_step empty_queue (enqueue empty_queue 4) at_start (executes empty_queue 4) in
    let two =
      then_step (enqueue empty_queue 4) (enqueue (enqueue empty_queue 4) 6) one
        (executes (enqueue empty_queue 4) 6) in
    let again =
      then_step (enqueue (enqueue empty_queue 4) 6) both_wait two
        (executes (enqueue (enqueue empty_queue 4) 6) 4) in
    then_step both_wait four_flies again (starts (4 ∷ 6 ∷ []) (6 ∷ []) 4)

Reachable-IsOnce_example : IsOnce four_flies
Reachable-IsOnce_example = Reachable-IsOnce four_flies four_flies-Reachable
