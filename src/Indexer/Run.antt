-- ===== src/Indexer/Run.antt =====
-- quest-indexer/lib/indexer.mjs: `runIndexer`, one pass of the forward index over the sources.
-- The chain, the database and the day resolver are calls of a world `S`. Maps keyed by
-- `${wallet}:${day}` are lists with the pair for a key, in the order of insertion.
pub mod Rows
pub mod Order
use text.Mathlib.Text.{◌==◌}
use perps_litvm.Base.{
  ℕ, ◌+◌, ◌-◌, String, Bool, true, false, ◌&&◌, ◌||◌, Option, none, some, List, [], ◌∷◌, ◌++◌, leb,
  if◌then◌else◌, length, all, Error, Try, ok, throw, Ask, Call, Done, ◌>>=◌, ◌>>◌, answer,
}
use perps_litvm.Base.{◌==◌ as num_eq}
use perps_litvm.Indexer.Sources.{
  Source, Log, AllWalletsFilter, SourceTable, DailyRow, CompletionRow,
}
use perps_litvm.Indexer.Range.{BlockRange, range_for}
use perps_litvm.Indexer.Run.Rows.{Batch, collect}

-- A row of indexer_state, as `loadState` returns it.
pub record StateRow : Type 0 where
  pub last_block : ℕ
  pub completion_from : Option ℕ

-- lib/supabase.mjs, as this job calls it.
pub record Writer (S : Type 0) : Type 0 where
  pub load_state : List String → Call S (List (String × StateRow))
  pub write_daily : List DailyRow → Call S Done
  pub write_completions : List CompletionRow → Call S Done
  pub claim_completion_from : String → ℕ → Call S Done
  pub advance : String → ℕ → Call S Done

-- The settings of a run.
pub record Settings : Type 0 where
  pub chain_id : ℕ
  pub head : ℕ
  pub deadline : ℕ
  pub conf : ℕ
  pub max_range : ℕ

pub data Report : Type 0 where
  skipped : String → String → Report
  idle : String → String → Option ℕ → Report
  idle_failed : String → String → Error → Report
  indexed : String → String → BlockRange → ℕ → ℕ → ℕ → Report
  failed : String → String → BlockRange → Error → Report

pub record Outcome : Type 0 where
  pub sources : List Report
  pub wrote : ℕ
  pub failed : ℕ
  pub caught_up : Bool

unfoldable pub lookup {ℓ} : {V : Type ℓ} → String → List (String × V) → Option V
lookup k [] = none
lookup k ((j, v) ∷ m) = if j == k then some v else lookup k m

-- `prior?.lastBlock ?? null`, and `prior?.completionFrom`
pub last_block_of : Option StateRow → Option ℕ
last_block_of none = none
last_block_of (some row) = some row.last_block

pub completion_from_of : Option StateRow → Option ℕ
completion_from_of none = none
completion_from_of (some row) = row.completion_from

module _ {S : Type 0} (writer : Writer S) (table : SourceTable)
    (get_logs : AllWalletsFilter → Call S (List Log))
    (resolve_days : List Log → BlockRange → Call S (List (ℕ × String))) (now : Ask S ℕ)
    (set : Settings) where
  -- `if (prior?.completionFrom == null) await writer.claimCompletionFrom(…)`
  pub claim : String → Option ℕ → ℕ → Call S Done
  claim address none block = writer.claim_completion_from address block
  claim address (some _) block = answer (ok tt)

  -- The end of the `try` of a source with a range: every fact first, then the watermark.
  pub publish : Source → String → Option StateRow → BlockRange → ℕ → Batch → Call S Report
  unfolding claim
  publish source address prior range count batch = do
    claim address (completion_from_of prior) range.from
    writer.advance address range.to
    answer
        (ok (indexed source.key address range count (length batch.rows) (length batch.completions)))

  pub store : Source → String → Option StateRow → BlockRange → ℕ → Batch → Call S Report
  unfolding publish
  store source address prior range count batch = do
    writer.write_daily batch.rows
    writer.write_completions batch.completions
    publish source address prior range count batch

  pub filter_of : Source → String → BlockRange → AllWalletsFilter
  filter_of source address range = record {
    source = source;
    address = address;
    from_block = range.from;
    to_block = range.to;
  }

  -- The body of that `try`.
  pub index_range : Source → String → Option StateRow → BlockRange → Call S Report
  unfolding store filter_of
  index_range source address prior range = do
    logs ← get_logs (filter_of source address range)
    day_by_block ← resolve_days logs range
    batch ← answer (collect table set.chain_id source day_by_block logs)
    store source address prior range (length logs) batch

  -- The `catch` of a source with a range.
  pub caught : Source → String → BlockRange → Try Report → Report
  caught source address range (ok report) = report
  caught source address range (throw e) = failed source.key address range e

  -- A source with nothing new still touches its row.
  pub touch : Source → String → Option StateRow → S → Report × S
  touch source address none s = (idle source.key address none, s)
  touch source address (some row) s =
      let (r, s') = writer.advance address row.last_block s in
      (
        elim r [
          | ok _ ↦ idle source.key address (some row.last_block)
          | throw e ↦ idle_failed source.key address e
        ],
        s',
      )

  -- One round of the loop.
  pub index_source : List (String × StateRow) → Source × String → S → Report × S
  unfolding index_range caught touch lookup last_block_of
  index_source state (source, address) s =
      let (t, s') = now s in
      if leb set.deadline t
      then (skipped source.key address, s')
      else (elim (range_for (last_block_of (lookup address state)) set.head set.conf
          set.max_range) [
            | none ↦ touch source address (lookup address state) s'
            | some range ↦
                let (r, s'') = index_range source address (lookup address state) range s' in
                (caught source address range r, s'')
          ])

  pub index_sources : List (String × StateRow) → List (Source × String) → S → List Report × S
  unfolding index_source
  index_sources state [] s = ([], s)
  index_sources state (item ∷ items) s =
      let (report, s') = index_source state item s in
      let (reports, s'') = index_sources state items s' in (report ∷ reports, s'')

  -- What the run's counters take from a report.
  pub rows_wrote : List Report → ℕ
  rows_wrote [] = 0
  rows_wrote (indexed _ _ _ _ rows _ ∷ rs) = rows + rows_wrote rs
  rows_wrote (_ ∷ rs) = rows_wrote rs

  pub failures : List Report → ℕ
  failures [] = 0
  failures (idle_failed _ _ _ ∷ rs) = 1 + failures rs
  failures (failed _ _ _ _ ∷ rs) = 1 + failures rs
  failures (_ ∷ rs) = failures rs

  -- `r.idle || r.skipped == null` and `r.idle || r.to >= safeHead`; a report with no `to`
  -- compares as false.
  pub is_started : Report → Bool
  is_started (skipped _ _) = false
  is_started _ = true

  pub is_at_head : Report → Bool
  is_at_head (idle _ _ _) = true
  is_at_head (indexed _ _ range _ _ _) = leb set.head (range.to + set.conf)
  is_at_head (failed _ _ range _) = leb set.head (range.to + set.conf)
  is_at_head _ = false

  pub outcome : List Report → Outcome
  unfolding rows_wrote failures is_started is_at_head
  outcome reports = record {
    sources = reports;
    wrote = rows_wrote reports;
    failed = failures reports;
    caught_up = num_eq (failures reports) 0 && (all is_started reports && all is_at_head reports);
  }

  -- Every address resolves before any state is read.
  pub resolve_addresses : List Source → Try (List (Source × String))
  resolve_addresses [] = ok []
  resolve_addresses (source ∷ sources) = elim (table.source_address source) [
    | throw e ↦ throw e
    | ok address ↦ elim (resolve_addresses sources) [
      | throw e ↦ throw e
      | ok rest ↦ ok ((source, address) ∷ rest)
    ]
  ]

  pub addresses_of : List (Source × String) → List String
  addresses_of [] = []
  addresses_of ((_, address) ∷ items) = address ∷ addresses_of items

  pub run_indexer : List Source → Call S Outcome
  unfolding index_sources outcome resolve_addresses addresses_of
  run_indexer sources = do
    resolved ← answer (resolve_addresses sources)
    state ← writer.load_state (addresses_of resolved)
    λ s. let (reports, s') = index_sources state resolved s in (ok (outcome reports), s')
