-- ===== src/Indexer/Examples.antt =====
-- quest-indexer/: the theorems at concrete inputs, in a small world with a clock and a database.
mod Database
mod Settling
use perps_litvm.Base.{
  ℕ, zero, suc, ◌+◌, ◌-◌, ◌≤◌, ◌<◌, ◌≡◌, ◌≢◌, ◌⊎◌, inl, inr, refl, String, Bool, true, false, ◌&&◌,
  Option, none, some, List, [], ◌∷◌, ◌++◌, leb, min, if◌then◌else◌, Error, Try, ok, throw, Ask,
  Call, Done, arith, All, All-map, Bool-cases,
}
use perps_litvm.Indexer.Sources.{
  Source, Log, AllWalletsFilter, SourceTable, DailyRow, CompletionRow,
}
use perps_litvm.Indexer.Range.{BlockRange, range_for}
use perps_litvm.Indexer.Range.Laws.{
  range_for_no_gap, range_for-eq-none_iff, range_for_progress, range_for_stalls,
}
use perps_litvm.Indexer.Run.{Writer, Settings}
use perps_litvm.Indexer.Run.Order.{View, IsSteady, KeepsFacts, WriterLaws, index_range-Safe}
use perps_litvm.Indexer.Walk.{Stopped, walk_down}
use perps_litvm.Indexer.Walk.Coverage.{IsTruthful, walk_down-Sound}
use perps_litvm.Indexer.SweepDown.{sweep_down}
use perps_litvm.Indexer.SweepDown.Coverage.{KeepsRecords, sweep_down-Sound}
use perps_litvm.Indexer.Scheduler.{TickResult, is_healthy, round}
use perps_litvm.Indexer.Scheduler.Priority.{fill_end, round_unhealthy, round_fills}

-- A clock that ticks at each reading.
abbrev tick_clock : Ask ℕ ℕ
tick_clock s = (s, suc s)

-- A chain whose only log is in block 5.
abbrev logs_of_five : ℕ → ℕ → Call ℕ (List ℕ)
logs_of_five lo hi s = (ok (if leb lo 5 && leb 5 hi then 5 ∷ [] else []), s)

five_truthful : IsTruthful {Log = ℕ} some tick_clock logs_of_five (λ b. b ≡ 5)
five_truthful lo hi s h = elim (Bool-cases (leb lo 5 && leb 5 hi)) [
  | inl e ↦ rw e (5, ground arith, ground arith, refl)
  | inr e ↦ rw e (λ b p q same. ground arith)
]

-- The walk from block 30 in chunks of 10 finds the log in its third chunk.
walk_down-Sound_example :
    let r = (walk_down {Log = ℕ} some tick_clock logs_of_five 2 10 30 1000 0).0 in
    (r.stopped ≢ Stopped.out_of_fuel)
    × ((b : ℕ) → r.frontier ≤ b → b ≤ 30 → b ≢ 5)
    × ((r.found ≡ false) ⊎ ((b : ℕ) × (2 ≤ b) × (b ≤ 30) × (b ≡ 5)))
    × ((r.stopped ≢ Stopped.floor) ⊎ ((r.frontier ≤ 2) × (r.found ≡ false)))
    × (r.frontier ≤ 31)
walk_down-Sound_example =
    walk_down-Sound some tick_clock logs_of_five (λ b. b ≡ 5) five_truthful 2 10 30 (omega arith)
      1000 0

walk_finds_five : (walk_down {Log = ℕ} some tick_clock logs_of_five 2 10 30 1000 0).0 ≡ record {
  found = true;
  hit_block = some 5;
  frontier = 11;
  chunks = 3;
  stopped = Stopped.found;
  error = none;
}
unfolding walk_down
walk_finds_five = refl

-- A world that remembers the lowest block that was recorded.
record Recorder : Type 0 where
  time : ℕ
  low : ℕ

abbrev recorder_clock : Ask Recorder ℕ
recorder_clock s = (s.time, record s { time = s.time + 1 })

-- A read of more than 8 blocks times out.
abbrev short_reads : ℕ → ℕ → Call Recorder (List ℕ)
short_reads lo hi s = (if leb hi (lo + 7) then ok [] else throw "timeout", s)

abbrev record_chunk : List ℕ → ℕ → ℕ → Call Recorder Done
record_chunk logs lo hi s = (ok tt, record s { low = min lo s.low })

recorder_keeps : KeepsRecords recorder_clock short_reads record_chunk (λ s b. s.low ≤ b)
recorder_keeps = record {
  now_keeps = λ s b h. h;
  read_keeps = λ lo hi s b h. h;
  chunk_keeps = λ logs lo hi s b h. omega arith;
  chunk_records = λ logs lo hi s e f b p q. omega arith;
}

sweep_down-Sound_example :
    let r =
      sweep_down recorder_clock short_reads record_chunk 0 4 20 40 1000
        (record { time = 0; low = 41 }) in
    (r.0.stopped ≢ Stopped.out_of_fuel)
    × ((b : ℕ) → r.0.frontier ≤ b → b ≤ 40 → r.1.low ≤ b)
    × ((r.0.stopped ≢ Stopped.floor) ⊎ (r.0.frontier ≤ 0))
    × (r.0.frontier ≤ 41)
sweep_down-Sound_example =
    sweep_down-Sound recorder_clock short_reads record_chunk (λ s b. s.low ≤ b) recorder_keeps 0 4
      40 (omega arith) 20 1000 (record { time = 0; low = 41 }) (omega arith)

-- The halved span gets to the floor.
sweep_reaches_floor :
    (sweep_down recorder_clock short_reads record_chunk 0 4 20 40 1000
      (record { time = 0; low = 41 })).0
    ≡ record { frontier = 0; chunks = 9; logs = 0; stopped = Stopped.floor; error = none }
unfolding sweep_down
sweep_reaches_floor = refl

abbrev first_range : BlockRange
first_range = record { from = 81; to = 180 }

range_for_no_gap_example : (81 ≤ 101) × (81 ≤ 180) × (180 + 20 ≤ 500) × (180 < 81 + 100)
range_for_no_gap_example =
    range_for_no_gap 100 500 20 100 first_range (omega arith) (unfold range_for in refl)

range_for-eq-none_iff_example :
    ((range_for (some 100) 500 20 100 ≡ none) × (500 ≤ 100 + 20))
    ⊎ ((r : BlockRange) × (range_for (some 100) 500 20 100 ≡ some r) × (100 + 20 < 500))
range_for-eq-none_iff_example = range_for-eq-none_iff 100 500 20 100

range_for_progress_example : 100 < 180
range_for_progress_example =
    range_for_progress 100 500 20 100 first_range (omega arith) (unfold range_for in refl)

-- With 20 confirmations and ranges of 10 blocks the index stands still.
range_for_stalls_example : 90 ≤ 100
range_for_stalls_example =
    range_for_stalls 100 500 20 10 (record { from = 81; to = 90 }) (omega arith) (omega arith)
      (omega arith) (unfold range_for in refl)

abbrev sick_tick : ℕ → Call ℕ (Option TickResult)
sick_tick deadline s = (ok (some (record { failed = 1; caught_up = some true })), s + 10)

abbrev well_tick : ℕ → Call ℕ (Option TickResult)
well_tick deadline s = (ok (some (record { failed = 0; caught_up = some true })), s + 10)

abbrev long_fill : ℕ → Bool → Call ℕ Done
long_fill budget healthy s = (ok tt, s + budget)

abbrev nap : ℕ → Ask ℕ Done
nap ms s = (tt, s + ms)

abbrev go_on : Ask ℕ Bool
go_on s = (false, s)

round_unhealthy_example :
    round tick_clock sick_tick (some long_fill) nap go_on 60 5 0
    ≡ round tick_clock sick_tick none nap go_on 60 5 0
round_unhealthy_example =
    round_unhealthy tick_clock sick_tick nap go_on 60 5 long_fill 0 (unfold is_healthy in refl)

round_fills_example :
    (ms : ℕ) × (0 < ms)
    × (11 + ms + 5 ≡ 0 + 60)
    × (round tick_clock well_tick (some long_fill) nap go_on 60 5 0
        ≡ (fill_end ms (long_fill ms true 12).0, (long_fill ms true 12).1))
round_fills_example =
    round_fills tick_clock well_tick nap go_on 60 5 long_fill 0 (unfold is_healthy in refl) refl
      (omega arith)
