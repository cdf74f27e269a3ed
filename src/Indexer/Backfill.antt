-- ===== src/Indexer/Backfill.antt =====
-- quest-indexer/lib/backfill.mjs: `planBackfill`, `completionsFrom` and `runBackfill`.
-- The chain and the database are calls of a world `S`; the counter that `onChunk` shares with the
-- job stands beside the world. An item's `remaining` is `above` less its floor, with the sign that
-- the source's subtraction has.
pub mod Plan
use text.Mathlib.Text.{◌==◌}
use perps_litvm.Base.{
  ℕ, ◌+◌, ◌-◌, String, Bool, true, false, not, ◌&&◌, ◌||◌, Option, none, some, List, [], ◌∷◌, ◌++◌,
  leb, ltb, if◌then◌else◌, length, all, any, Error, Try, ok, throw, Ask, Call, Done, ◌>>=◌, ◌>>◌,
  answer, and_then,
}
use perps_litvm.Base.{◌==◌ as num_eq}
use perps_litvm.Indexer.Sources.{Source, Log, AllWalletsFilter, SourceTable, CompletionRow}
use perps_litvm.Indexer.Run.Rows.{add_completions}
use perps_litvm.Indexer.Run.{lookup}
use perps_litvm.Indexer.Walk.{Stopped}
use perps_litvm.Indexer.SweepDown.{Sweep, sweep_down, backfill_min_chunk_blocks}

-- A row of quest_backfill, as `loadBackfill` returns it.
pub record BackfillRow : Type 0 where
  pub floor_block : ℕ
  pub covered_from : ℕ
  pub covered_to : ℕ

pub data PassState : Type 0 where
  fresh floor_changed resume complete : PassState

pub record PlanItem : Type 0 where
  pub source : Source
  pub address : String
  pub floor : ℕ
  pub state : PassState
  pub from : ℕ
  pub above : ℕ

-- `prior.floorBlock === floor && prior.coveredTo >= floor`
pub is_usable : ℕ → BackfillRow → Bool
is_usable floor prior = num_eq prior.floor_block floor && leb floor prior.covered_to

-- What one source needs, given its stored coverage.
unfoldable pub plan_item : Source → String → ℕ → ℕ → Option BackfillRow → PlanItem
unfolding is_usable
plan_item source address floor head none = record {
  source = source;
  address = address;
  floor = floor;
  state = fresh;
  from = head;
  above = head;
}
plan_item source address floor head (some prior) =
    if is_usable floor prior
    then (if num_eq prior.covered_to floor
        then record {
          source = source;
          address = address;
          floor = floor;
          state = complete;
          from = floor;
          above = floor;
        }
        else record {
          source = source;
          address = address;
          floor = floor;
          state = resume;
          from = prior.covered_to - 1;
          above = prior.covered_to;
        })
    else record {
      source = source;
      address = address;
      floor = floor;
      state = floor_changed;
      from = head;
      above = head;
    }

-- `a.remaining <= b.remaining`
pub leb_remaining : PlanItem → PlanItem → Bool
leb_remaining a b = leb (a.above + b.floor) (b.above + a.floor)

-- `plan.sort((a, b) => a.remaining - b.remaining)`: JavaScript's `sort`, which is stable, stands as an
-- insertion sort, with the program's comparison.
pub insert_item : PlanItem → List PlanItem → List PlanItem
unfolding leb_remaining
insert_item item [] = item ∷ []
insert_item item (other ∷ items) =
    if leb_remaining item other then item ∷ other ∷ items else other ∷ insert_item item items

pub sort_items : List PlanItem → List PlanItem
unfolding insert_item
sort_items [] = []
sort_items (item ∷ items) = insert_item item (sort_items items)

module _ (table : SourceTable) where
  pub plan_items : List Source → List (String × BackfillRow) → ℕ → Try (List PlanItem)
  unfolding plan_item lookup
  plan_items [] coverage head = ok []
  plan_items (source ∷ sources) coverage head = and_then (table.source_address source) λ address.
      and_then (table.source_floor source) λ floor.
        and_then (plan_items sources coverage head)
          λ rest. ok (plan_item source address floor head (lookup address coverage) ∷ rest)

  unfoldable pub plan_backfill : List Source → List (String × BackfillRow) → ℕ → Try (List PlanItem)
  unfolding plan_items sort_items
  plan_backfill sources coverage head =
      and_then (plan_items sources coverage head) λ items. ok (sort_items items)

  -- The loop of `completionsFrom` over the logs.
  pub completions_loop : Source → ℕ → List Log → List CompletionRow → Try (List CompletionRow)
  unfolding add_completions
  completions_loop source chain_id [] rows = ok rows
  completions_loop source chain_id (log ∷ logs) rows =
      and_then (table.wallet_from_log source log) λ wallet. completions_loop source chain_id logs (
        add_completions chain_id wallet log.block_number "backfill"
          (table.quests_by_source source.key) rows)

  pub completions_from : Source → List Log → ℕ → Try (List CompletionRow)
  unfolding completions_loop
  completions_from source logs chain_id = elim (table.quests_by_source source.key) [
    | [] ↦ ok []
    | _ ∷ _ ↦ completions_loop source chain_id logs []
  ]

  pub addresses : List Source → Try (List String)
  addresses [] = ok []
  addresses (source ∷ sources) =
      and_then (table.source_address source)
        λ address. and_then (addresses sources) λ rest. ok (address ∷ rest)

pub is_complete : PassState → Bool
is_complete complete = true
is_complete _ = false

pub is_resume : PassState → Bool
is_resume resume = true
is_resume _ = false

pub is_floor : Stopped → Bool
is_floor Stopped.floor = true
is_floor _ = false

-- lib/supabase.mjs, as this job calls it.
pub record Writer (S : Type 0) : Type 0 where
  pub load_backfill : List String → Call S (List (String × BackfillRow))
  pub start_backfill : String → ℕ → ℕ → Call S Done
  pub write_completions : List CompletionRow → Call S Done
  pub extend_backfill_down : String → ℕ → ℕ → Call S Done

pub record SourceReport : Type 0 where
  pub key : String
  pub from : ℕ
  pub frontier : ℕ
  pub chunks : ℕ
  pub logs : ℕ
  pub stopped : Stopped

pub data Reason : Type 0 where
  already_complete chunk_error budget complete partial : Reason

pub record Slice : Type 0 where
  pub complete : Bool
  pub swept : ℕ
  pub chunks : ℕ
  pub completions : ℕ
  pub sources : List SourceReport
  pub reason : Reason

-- `report` and `chunks` of a slice, its completions being counted beside the world.
pub record Progress : Type 0 where
  pub report : List SourceReport
  pub chunks : ℕ

-- `report.some((r) => r.key === p.source.key && r.stopped === "floor")`
pub reached_floor : String → List SourceReport → Bool
unfolding is_floor
reached_floor key [] = false
reached_floor key (r ∷ rs) = (r.key == key && is_floor r.stopped) || reached_floor key rs

pub all_done : List PlanItem → List SourceReport → Bool
unfolding reached_floor is_complete
all_done [] report = true
all_done (p ∷ plan) report =
    (is_complete p.state || reached_floor p.source.key report) && all_done plan report

module _ {S : Type 0} (writer : Writer S) (table : SourceTable)
    (get_logs : AllWalletsFilter → Call S (List Log)) (now : Ask S ℕ)
    (chain_id head chunk_blocks : ℕ) where
  -- A call of the world, beside the counter.
  pub beside : {A : Type 0} → Call S A → Call (S × ℕ) A
  beside m (s, count) = let (r, s') = m s in (r, (s', count))

  pub clock : Ask (S × ℕ) ℕ
  clock (s, count) = let (t, s') = now s in (t, (s', count))

  add_count : ℕ → Call (S × ℕ) Done
  add_count n (s, count) = (ok tt, (s, count + n))

  -- `getLogsFor` and `onChunk` of an item's sweep: completions land before the frontier.
  pub logs_for : PlanItem → ℕ → ℕ → Call (S × ℕ) (List Log)
  unfolding beside
  logs_for item lo hi = beside (
      get_logs
        (record { source = item.source; address = item.address; from_block = lo; to_block = hi }))

  record_logs : PlanItem → List Log → Call (S × ℕ) Done
  unfolding completions_from beside add_count
  record_logs item [] = answer (ok tt)
  record_logs item (log ∷ logs) = do
    rows ← answer (completions_from table item.source (log ∷ logs) chain_id)
    beside (writer.write_completions rows)
    add_count (length rows)

  pub on_chunk : PlanItem → List Log → ℕ → ℕ → Call (S × ℕ) Done
  unfolding record_logs beside
  on_chunk item logs lo hi = do
    record_logs item logs
    beside (writer.extend_backfill_down item.address item.floor lo)

  -- Opening the pass fixes its ceiling, before the first chunk.
  pub open_pass : PlanItem → Call (S × ℕ) Done
  unfolding beside is_resume
  open_pass item =
      if is_resume item.state
      then answer (ok tt)
      else beside (writer.start_backfill item.address item.floor item.from)

  pub sweep_item : ℕ → PlanItem → Ask (S × ℕ) Sweep
  unfolding clock logs_for on_chunk sweep_down
  sweep_item deadline item w =
      let (t, w') = clock w in
      sweep_down clock (logs_for item) (on_chunk item) item.floor backfill_min_chunk_blocks
        chunk_blocks item.from (deadline - t) w'

  pub add_sweep : Progress → PlanItem → Sweep → Progress
  add_sweep p item r = record {
    report =
        p.report
        ++ record {
          key = item.source.key;
          from = item.from;
          frontier = r.frontier;
          chunks = r.chunks;
          logs = r.logs;
          stopped = r.stopped;
        }
          ∷ [];
    chunks = p.chunks + r.chunks;
  }

  pub early : Progress → ℕ → Reason → Slice
  early p count why = record {
    complete = false;
    swept = length p.report;
    chunks = p.chunks;
    completions = count;
    sources = p.report;
    reason = why;
  }

  -- After the loop, or its `break`.
  pub finished : List PlanItem → Progress → ℕ → Slice
  unfolding all_done
  finished plan p count = record {
    complete = all_done plan p.report;
    swept = length p.report;
    chunks = p.chunks;
    completions = count;
    sources = p.report;
    reason = if all_done plan p.report then Reason.complete else partial;
  }

  -- The loop over the items that are left of `plan`.
  pub sweep_items : ℕ → List PlanItem → List PlanItem → Progress → Call (S × ℕ) Slice
  unfolding clock open_pass sweep_item add_sweep early finished is_complete
  sweep_items deadline plan [] p w = (ok (finished plan p w.1), w)
  sweep_items deadline plan (item ∷ items) p w =
      let skip = sweep_items deadline plan items p w in
      if is_complete item.state
      then skip
      else (let (t, w₁) = clock w in
          if leb deadline t
          then (ok (finished plan p w₁.1), w₁)
          else (let (opened, w₂) = open_pass item w₁ in
              elim opened [
                | throw e ↦ (throw e, w₂)
                | ok _ ↦
                    let (r, w₃) = sweep_item deadline item w₂ in
                    elim r.stopped [
                      | Stopped.error ↦ (ok (early (add_sweep p item r) w₃.1 chunk_error), w₃)
                      | Stopped.budget ↦ (ok (early (add_sweep p item r) w₃.1 budget), w₃)
                      | other ↦ sweep_items deadline plan items (add_sweep p item r) w₃
                    ]
              ]))

  pub run_plan : ℕ → List PlanItem → Call (S × ℕ) Slice
  unfolding sweep_items is_complete
  run_plan deadline plan =
      if all (λ p. is_complete p.state) plan
      then answer (
          ok (record {
            complete = true;
            swept = 0;
            chunks = 0;
            completions = 0;
            sources = [];
            reason = already_complete;
          }))
      else sweep_items deadline plan plan (record { report = []; chunks = 0 })

  pub run_backfill : List Source → ℕ → Call (S × ℕ) Slice
  unfolding clock addresses beside plan_backfill run_plan
  run_backfill sources budget_ms w =
      let (t, w') = clock w in
      (do
        list ← answer (addresses table sources)
        coverage ← beside (writer.load_backfill list)
        plan ← answer (plan_backfill table sources coverage head)
        run_plan (t + budget_ms) plan)
        w'
