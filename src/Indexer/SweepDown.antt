-- ===== src/Indexer/SweepDown.antt =====
-- quest-indexer/lib/walk.mjs: `sweepDown`, the unfiltered sweep of the backfill.
-- As in the walk, `top` is the source's `hi` plus 1. Clock, `getLogsFor` and `onChunk` are
-- parameters.
pub mod Coverage
use perps_litvm.Base.{
  ℕ, zero, suc, ◌+◌, ◌-◌, ◌/◌, max, Option, none, some, List, length, ltb, leb, if◌then◌else◌,
  Error, Try, ok, throw, Ask, Call, Done,
}
use perps_litvm.Indexer.Walk.{Stopped, floor, budget, error, out_of_fuel}

-- BACKFILL_CHUNK_BLOCKS
abbrev pub backfill_chunk_blocks : ℕ
backfill_chunk_blocks = 25000

-- BACKFILL_MIN_CHUNK_BLOCKS
abbrev pub backfill_min_chunk_blocks : ℕ
backfill_min_chunk_blocks = 2500

pub record Sweep : Type 0 where
  pub frontier : ℕ
  pub chunks : ℕ
  pub logs : ℕ
  pub stopped : Stopped
  pub error : Option Error

pub record SweepState : Type 0 where
  pub frontier : ℕ
  pub chunks : ℕ
  pub seen : ℕ
  pub top : ℕ
  pub span : ℕ

pub data SweepTurn : Type 0 where
  stop : Sweep → SweepTurn
  next : SweepState → SweepTurn

pub ended : SweepState → Stopped → Option Error → Sweep
ended w why e = record {
  frontier = w.frontier;
  chunks = w.chunks;
  logs = w.seen;
  stopped = why;
  error = e;
}

module _ {S Log : Type 0} (now : Ask S ℕ) (get_logs_for : ℕ → ℕ → Call S (List Log))
    (on_chunk : List Log → ℕ → ℕ → Call S Done) (lowest : ℕ) (min_chunk : ℕ) where
  -- A chunk that is read and recorded moves the frontier.
  after_record : SweepState → ℕ → ℕ → Try Done → SweepTurn
  unfolding ended
  after_record w lo count (throw e) = stop (ended w error (some e))
  after_record w lo count (ok _) = next (record {
    frontier = lo;
    chunks = w.chunks + 1;
    seen = w.seen + count;
    top = lo;
    span = w.span;
  })

  -- A failed read halves the span, down to its minimum, and the same `hi` is tried again.
  pub after_read : SweepState → ℕ → Try (List Log) → S → SweepTurn × S
  unfolding after_record ended
  after_read w lo (throw e) s = (
    if ltb min_chunk w.span
        then next (record w { span = max min_chunk (w.span / 2) })
        else stop (ended w error (some e)),
    s,
  )
  after_read w lo (ok logs) s =
      let (recorded, s') = on_chunk logs lo (w.top - 1) s in
      (after_record w lo (length logs) recorded, s')

  read_chunk : SweepState → S → SweepTurn × S
  unfolding after_read
  read_chunk w s =
      let lo = max lowest (w.top - w.span) in
      let (logs, s') = get_logs_for lo (w.top - 1) s in after_read w lo logs s'

  -- One round of the loop, its test included.
  pub sweep_turn : ℕ → SweepState → S → SweepTurn × S
  unfolding read_chunk ended
  sweep_turn deadline w s =
      if ltb lowest w.top
      then (let (t, s') = now s in
          if leb deadline t then (stop (ended w budget none), s') else read_chunk w s')
      else (stop (ended w floor none), s)

  pub sweep_loop : ℕ → ℕ → SweepState → S → Sweep × S
  unfolding sweep_turn ended
  sweep_loop zero deadline w s = (ended w out_of_fuel none, s)
  sweep_loop (suc fuel) deadline w s =
      let (turn, s') = sweep_turn deadline w s in
      elim turn [ stop r ↦ (r, s') | next w' ↦ sweep_loop fuel deadline w' s' ]

  -- Each round but the last lowers `top + span`, so `from + chunk + 2` rounds are enough.
  unfoldable pub sweep_down : ℕ → ℕ → ℕ → S → Sweep × S
  unfolding sweep_loop
  sweep_down chunk from budget_ms s =
      let (t, s') = now s in
      sweep_loop (from + chunk + 2) (t + budget_ms)
        (record { frontier = from + 1; chunks = 0; seen = 0; top = from + 1; span = chunk }) s'
