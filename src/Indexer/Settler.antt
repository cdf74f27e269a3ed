-- ===== src/Indexer/Settler.antt =====
-- quest-indexer/lib/settler.mjs: `runSettler` and `settleOne`. Making a wallet's filter is part of
-- the call `get_logs`, since the walk catches what either throws. A walk starts under a row's
-- `scanned_to`, which is above its floor for a planned row, so above 0.
pub mod Laws
pub mod Truth
use perps_litvm.Base.{
  ℕ, ◌+◌, ◌-◌, String, Bool, true, false, Option, none, some, List, [], ◌∷◌, leb, ltb,
  if◌then◌else◌, Try, ok, throw, Ask, Call, Done, ◌>>=◌, ◌>>◌, answer,
}
use perps_litvm.Indexer.Sources.{Source, Log, SourceTable}
use perps_litvm.Indexer.Walk.{Stopped, Walk, walk_down, chunk_blocks}
use perps_litvm.Indexer.SettlerPlan.{CursorRow, Group, plan_work}

-- CANDIDATE_PAGE
abbrev pub candidate_page : ℕ
candidate_page = 200

-- The arguments of `walletFilter`.
pub record WalletFilter : Type 0 where
  pub source : Source
  pub address : String
  pub wallet : String
  pub from_block : ℕ
  pub to_block : ℕ

-- The arguments of `writeCompletion` and `extendCursorDown`.
pub record Completion : Type 0 where
  pub wallet : String
  pub quest : String
  pub checked_through_block : ℕ

pub record Extension : Type 0 where
  pub wallet : String
  pub quest : String
  pub source_key : String
  pub scanned_to : ℕ

-- lib/supabase.mjs, as this job calls it for its chain.
pub record Writer (S : Type 0) : Type 0 where
  pub pick_cursor_candidates : ℕ → Call S (List CursorRow)
  pub has_completion : String → String → Call S Bool
  pub write_completion : Completion → Call S Done
  pub extend_cursor_down : Extension → Call S Done

pub data Reason : Type 0 where
  nothing_to_settle budget all_completed found chunk_error extended : Reason

pub record Settled : Type 0 where
  pub worked : ℕ
  pub found : ℕ
  pub extended : ℕ
  pub skipped : ℕ
  pub reason : Reason

pub idle : ℕ → Reason → Settled
idle skipped why = record { worked = 0; found = 0; extended = 0; skipped = skipped; reason = why }

pub worked : ℕ → ℕ → ℕ → Reason → Settled
worked hits count skipped why = record {
  worked = 1;
  found = hits;
  extended = count;
  skipped = skipped;
  reason = why;
}

module _ {S : Type 0} (writer : Writer S) (table : SourceTable)
    (get_logs : WalletFilter → Call S (List Log)) (now : Ask S ℕ) where
  -- `getLogsFor` of a row's walk.
  abbrev pub logs_for : Source → String → String → ℕ → ℕ → Call S (List Log)
  logs_for source address wallet lo hi = get_logs (record {
    source = source;
    address = address;
    wallet = wallet;
    from_block = lo;
    to_block = hi;
  })

  pub walk_row : ℕ → String → CursorRow → Source → String → ℕ → Ask S Walk
  unfolding walk_down
  walk_row deadline wallet row source address floor s =
      let (t, s') = now s in
      walk_down (λ log. some log.block_number) now (logs_for source address wallet) floor
        chunk_blocks (row.scanned_to - 1) (deadline - t) s'

  pub extend_row : Group → CursorRow → Walk → Call S Done
  extend_row group row walk = writer.extend_cursor_down (record {
    wallet = group.wallet;
    quest = group.quest;
    source_key = row.source_key;
    scanned_to = walk.frontier;
  })

  pub prove_quest : Group → CursorRow → Call S Done
  prove_quest group row = writer.write_completion (record {
    wallet = group.wallet;
    quest = group.quest;
    checked_through_block = row.scanned_from;
  })

  -- A failed chunk ends the group; the blocks covered before it are kept.
  pub after_error : Group → ℕ → CursorRow → ℕ → Walk → Call S Settled
  unfolding extend_row worked
  after_error group skipped row count walk =
      if ltb walk.frontier row.scanned_to
      then (do extend_row group row walk; answer (ok (worked 0 (count + 1) skipped chunk_error)))
      else answer (ok (worked 0 count skipped chunk_error))

  -- A walk that was stopped by the floor or the budget; `continue` takes the new count.
  pub after_stop : Group → CursorRow → ℕ → Walk → (ℕ → Call S Settled) → Call S Settled
  unfolding extend_row
  after_stop group row count walk continue =
      if leb row.scanned_to walk.frontier
      then continue count
      else extend_row group row walk >> continue (count + 1)

  pub after_walk : Group → ℕ → CursorRow → ℕ → Walk → (ℕ → Call S Settled) → Call S Settled
  unfolding prove_quest after_error after_stop worked
  after_walk group skipped row count walk continue =
      if walk.found
      then (do prove_quest group row; answer (ok (worked 1 count skipped Reason.found)))
      else (elim walk.stopped [
        | Stopped.error ↦ after_error group skipped row count walk
        | _ ↦ after_stop group row count walk continue
      ])

  pub walk_source :
      ℕ → Group → ℕ → CursorRow → Source → ℕ → (ℕ → Call S Settled) → String → ℕ → Call S Settled
  unfolding walk_row after_walk
  walk_source deadline group skipped row source count continue address floor s =
      let (walk, s') = walk_row deadline group.wallet row source address floor s in
      after_walk group skipped row count walk continue s'

  pub settle_row : ℕ → Group → ℕ → CursorRow → Source → ℕ → (ℕ → Call S Settled) → Call S Settled
  unfolding walk_source
  settle_row deadline group skipped row source count continue = do
    address ← answer (table.source_address source)
    floor ← answer (table.source_floor source)
    walk_source deadline group skipped row source count continue address floor

  -- The loop over the sources of a group, with the count of extended rows.
  pub settle_sources : ℕ → Group → ℕ → List (CursorRow × Source) → ℕ → Call S Settled
  unfolding settle_row worked
  settle_sources deadline group skipped [] count s =
      (ok (worked 0 count skipped Reason.extended), s)
  settle_sources deadline group skipped ((row, source) ∷ rest) count s =
      let (t, s') = now s in
      if leb deadline t
      then (ok (worked 0 count skipped Reason.extended), s')
      else settle_row deadline group skipped row source count
          (settle_sources deadline group skipped rest) s'

  pub settle_one : ℕ → Group → ℕ → Call S Settled
  unfolding settle_sources
  settle_one deadline group skipped = settle_sources deadline group skipped group.sources 0

  -- The loop over the groups: the first that is not proven yet is worked on.
  pub settle_groups : ℕ → List Group → ℕ → Call S Settled
  unfolding settle_one idle
  settle_groups deadline [] skipped s = (ok (idle skipped all_completed), s)
  settle_groups deadline (group ∷ groups) skipped s =
      let (t, s₁) = now s in
      if leb deadline t
      then (ok (idle skipped budget), s₁)
      else (writer.has_completion group.wallet group.quest >>= λ proven.
            if proven
            then settle_groups deadline groups (skipped + 1)
            else settle_one deadline group skipped)
          s₁

  pub settle_work : ℕ → List Group → Call S Settled
  unfolding settle_groups idle
  settle_work deadline [] = answer (ok (idle 0 nothing_to_settle))
  settle_work deadline (group ∷ groups) = settle_groups deadline (group ∷ groups) 0

  unfoldable pub run_settler : List Source → (String → String) → ℕ → ℕ → Call S Settled
  unfolding settle_work
  run_settler sources lower page budget_ms s =
      let (t, s₁) = now s in
      (do
        rows ← writer.pick_cursor_candidates page
        work ← answer (plan_work sources table lower rows)
        settle_work (t + budget_ms) work)
        s₁
