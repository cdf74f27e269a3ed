-- ===== src/Keeper/Sweep.antt =====
-- keeper/keeper.mjs: the bounded sweep over the request ids, `planSweep` and `admits`.
-- Ids are handed out from 0 by the contract's counter, so cursor and counter are numbers; a
-- counter that is not finite is the 0 of `plan_sweep`.
pub mod Rotation
use perps_litvm.Base.{
  ℕ, zero, suc, ◌+◌, Bool, true, false, List, [], ◌∷◌, min, ltb, leb, if◌then◌else◌,
}

pub record SweepPlan : Type 0 where
  pub ids : List ℕ
  pub next_cursor : ℕ

-- One round of the loop moves the cursor on, and wraps to the oldest id.
pub advance_cursor : ℕ → ℕ → ℕ
advance_cursor next c = if leb next (c + 1) then 0 else c + 1

-- The loop of `planSweep`, with the rounds that are left.
pub sweep_loop : ℕ → ℕ → ℕ → SweepPlan
sweep_loop next c zero = record { ids = []; next_cursor = c }
sweep_loop next c (suc count) =
    let rest = sweep_loop next (advance_cursor next c) count in
    record { ids = c ∷ rest.ids; next_cursor = rest.next_cursor }

unfoldable pub plan_sweep : ℕ → ℕ → ℕ → SweepPlan
unfolding sweep_loop advance_cursor
plan_sweep cursor next batch =
    if leb next 0
    then record { ids = []; next_cursor = 0 }
    else sweep_loop next (if leb next cursor then 0 else cursor) (min batch next)

unfoldable pub admits : ℕ → Bool → ℕ → Bool
admits active_size is_trigger max_active = if is_trigger then ltb active_size max_active else true
