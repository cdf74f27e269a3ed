-- ===== src/Keeper/Queue.antt =====
-- keeper/keeper.mjs: `execute` and `makeSerialQueue`, as the steps that they and the submissions
-- take. A task that is chained to a promise starts once that promise has settled.
pub mod Once
mod Examples
use perps_litvm.Base.{ℕ, ◌≡◌, Bool, true, false, List, [], ◌∷◌, ◌++◌}
use perps_litvm.Keeper.WorkingSet.{has, add, remove}

-- The task at the head of the chain: none, one before `inFlight.delete`, or one after it, which
-- still waits for its `reconcile`.
pub data Running : Type 0 where
  nothing ending : Running
  flying : ℕ → Running

pub record Queue : Type 0 where
  pub in_flight : List ℕ
  pub running : Running
  pub waiting : List ℕ

pub empty_queue : Queue
empty_queue = record { in_flight = []; running = nothing; waiting = [] }

-- `execute`, up to its first wait.
pub enqueue : Queue → ℕ → Queue
enqueue q key = elim (has key q.in_flight) [
  | true ↦ q
  | false ↦ record q { in_flight = add key q.in_flight; waiting = q.waiting ++ key ∷ [] }
]

pub data Step : Queue → Queue → Type 0 where
  executes : (q : Queue) (key : ℕ) → Step q (enqueue q key)
  starts :
      (flights rest : List ℕ) (key : ℕ)
      → Step
          (record { in_flight = flights; running = nothing; waiting = key ∷ rest })
          (record { in_flight = flights; running = flying key; waiting = rest })
  releases :
      (flights rest : List ℕ) (key : ℕ)
      → Step
          (record { in_flight = flights; running = flying key; waiting = rest })
          (record { in_flight = remove key flights; running = ending; waiting = rest })
  -- Whether the task resolves or rejects, the chain goes on.
  settles :
      (flights rest : List ℕ)
      → Step
          (record { in_flight = flights; running = ending; waiting = rest })
          (record { in_flight = flights; running = nothing; waiting = rest })

pub data Reachable : Queue → Type 0 where
  at_start : Reachable empty_queue
  then_step : (q q' : Queue) → Reachable q → Step q q' → Reachable q'
