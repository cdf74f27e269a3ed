-- ===== src/Indexer/Run/Rows.antt =====
-- quest-indexer/lib/indexer.mjs, `runIndexer`: the rows that one source's logs give, one for each
-- wallet and day and one for each wallet and quest, the first sighting kept.
pub mod Complete
use text.Mathlib.Text.{◌==◌}
use perps_litvm.Base.{
  ℕ, String, Bool, true, false, ◌&&◌, ◌||◌, Option, none, some, List, [], ◌∷◌, ◌++◌, if◌then◌else◌,
  Try, ok, throw, and_then, or_throw,
}
use perps_litvm.Base.{◌==◌ as num_eq}
use perps_litvm.Indexer.Sources.{Source, Log, SourceTable, DailyRow, CompletionRow}

pub record Batch : Type 0 where
  pub rows : List DailyRow
  pub completions : List CompletionRow

-- `dayByBlock.get(block)`
pub day_of : ℕ → List (ℕ × String) → Option String
day_of block [] = none
day_of block ((b, day) ∷ days) = if num_eq b block then some day else day_of block days

unfoldable pub has_day : String → String → List DailyRow → Bool
has_day wallet day [] = false
has_day wallet day (row ∷ rows) =
    (row.wallet == wallet && row.day == day) || has_day wallet day rows

unfoldable pub has_quest : String → String → List CompletionRow → Bool
has_quest wallet quest [] = false
has_quest wallet quest (row ∷ rows) =
    (row.wallet == wallet && row.quest == quest) || has_quest wallet quest rows

pub add_daily : DailyRow → List DailyRow → List DailyRow
unfolding has_day
add_daily row rows = if has_day row.wallet row.day rows then rows else rows ++ row ∷ []

pub add_completion : CompletionRow → List CompletionRow → List CompletionRow
unfolding has_quest
add_completion row rows = if has_quest row.wallet row.quest rows then rows else rows ++ row ∷ []

-- The loop over a log's quests; `via` is the row's `source`.
unfoldable pub add_completions :
    ℕ → String → ℕ → String → List String → List CompletionRow → List CompletionRow
unfolding add_completion
add_completions chain_id wallet block via [] rows = rows
add_completions chain_id wallet block via (quest ∷ quests) rows =
    add_completions chain_id wallet block via quests (
      add_completion
        (record {
          chain_id = chain_id;
          wallet = wallet;
          quest = quest;
          checked_through_block = block;
          source = via;
        })
        rows)

-- One log, which fails the whole batch if it has no wallet or no day.
pub add_log : SourceTable → ℕ → Source → List (ℕ × String) → Log → Batch → Try Batch
unfolding add_daily add_completions day_of
add_log table chain_id source days log batch = and_then (table.wallet_from_log source log) λ wallet.
    and_then (or_throw (day_of log.block_number days) "no day resolved for block") λ day.
      ok (record {
        rows =
            add_daily
              (record {
                chain_id = chain_id;
                wallet = wallet;
                day = day;
                first_seen_block = log.block_number;
                first_seen_via = source.event_name;
              })
              batch.rows;
        completions =
            add_completions chain_id wallet log.block_number "indexer"
              (table.quests_by_source source.key) batch.completions;
      })

-- The loop over the logs.
pub collect_from : SourceTable → ℕ → Source → List (ℕ × String) → List Log → Batch → Try Batch
unfolding add_log
collect_from table chain_id source days [] batch = ok batch
collect_from table chain_id source days (log ∷ logs) batch =
    and_then (add_log table chain_id source days log batch)
      λ longer. collect_from table chain_id source days logs longer

pub collect : SourceTable → ℕ → Source → List (ℕ × String) → List Log → Try Batch
unfolding collect_from
collect table chain_id source days logs =
    collect_from table chain_id source days logs (record { rows = []; completions = [] })
