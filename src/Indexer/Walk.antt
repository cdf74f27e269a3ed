-- ===== src/Indexer/Walk.antt =====
-- quest-indexer/lib/walk.mjs: `walkDown`, the settler's backward walk.
-- `top` is the source's `hi` plus 1, so that a walk which has read block 0 has `top` 0 where the
-- source has a `hi` of -1. The world's clock and its `eth_getLogs` are parameters.
pub mod Coverage
pub mod Frame
use perps_litvm.Base.{
  ℕ, zero, suc, ◌+◌, ◌-◌, max, Bool, true, false, Option, none, some, List, [], ◌∷◌, ltb, leb,
  if◌then◌else◌, Error, Try, ok, throw, Ask, Call,
}

-- CHUNK_BLOCKS
abbrev pub chunk_blocks : ℕ
chunk_blocks = 10000

-- Why a walk ended. `out_of_fuel` is the model's own.
pub data Stopped : Type 0 where
  found floor budget error out_of_fuel : Stopped

pub record Walk : Type 0 where
  pub found : Bool
  pub hit_block : Option ℕ
  pub frontier : ℕ
  pub chunks : ℕ
  pub stopped : Stopped
  pub error : Option Error

-- The variables of the loop.
pub record WalkState : Type 0 where
  pub frontier : ℕ
  pub chunks : ℕ
  pub top : ℕ

pub data WalkTurn : Type 0 where
  stop : Walk → WalkTurn
  next : WalkState → WalkTurn

-- `a ?? b`
abbrev pub or_else {ℓ} : {A : Type ℓ} → Option A → A → A
or_else none b = b
or_else (some a) b = a

module _ {S Log : Type 0} (block_number : Log → Option ℕ) (now : Ask S ℕ)
    (get_logs_for : ℕ → ℕ → Call S (List Log)) (lowest : ℕ) (chunk : ℕ) where
  -- What a chunk from `lo` leads to, once `getLogsFor` has answered.
  pub after_read : WalkState → ℕ → Try (List Log) → WalkTurn
  after_read w lo (throw e) = stop (record {
    found = false;
    hit_block = none;
    frontier = w.frontier;
    chunks = w.chunks;
    stopped = error;
    error = some e;
  })
  after_read w lo (ok (log ∷ logs)) = stop (record {
    found = true;
    hit_block = some (or_else (block_number log) lo);
    frontier = w.frontier;
    chunks = w.chunks + 1;
    stopped = found;
    error = none;
  })
  after_read w lo (ok []) = next (record { frontier = lo; chunks = w.chunks + 1; top = lo })

  ended : WalkState → Stopped → WalkTurn
  ended w why = stop (record {
    found = false;
    hit_block = none;
    frontier = w.frontier;
    chunks = w.chunks;
    stopped = why;
    error = none;
  })

  read_chunk : WalkState → S → WalkTurn × S
  unfolding after_read
  read_chunk w s =
      let lo = max lowest (w.top - chunk) in
      let (logs, s') = get_logs_for lo (w.top - 1) s in (after_read w lo logs, s')

  -- One round of the loop, its test included.
  pub walk_turn : ℕ → WalkState → S → WalkTurn × S
  unfolding read_chunk ended
  walk_turn deadline w s =
      if ltb lowest w.top
      then (let (t, s') = now s in if leb deadline t then (ended w budget, s') else read_chunk w s')
      else (ended w floor, s)

  pub walk_loop : ℕ → ℕ → WalkState → S → Walk × S
  unfolding walk_turn
  walk_loop zero deadline w s = (
    record {
      found = false;
      hit_block = none;
      frontier = w.frontier;
      chunks = w.chunks;
      stopped = out_of_fuel;
      error = none;
    },
    s,
  )
  walk_loop (suc fuel) deadline w s =
      let (turn, s') = walk_turn deadline w s in
      elim turn [ stop r ↦ (r, s') | next w' ↦ walk_loop fuel deadline w' s' ]

  -- Each round but the last lowers `top`, so `from + 2` rounds are enough.
  unfoldable pub walk_down : ℕ → ℕ → S → Walk × S
  unfolding walk_loop
  walk_down from budget_ms s =
      let (t, s') = now s in
      walk_loop (from + 2) (t + budget_ms)
        (record { frontier = from + 1; chunks = 0; top = from + 1 }) s'
