-- ===== src/Indexer/Settler/Laws.antt =====
-- quest-indexer/lib/settler.mjs: what its theorem takes of the database, the node and the clock.
use perps_litvm.Base.{ℕ, ◌≤◌, ◌<◌, ◌≡◌, String, true, some, List, ok, Ask, Call, All}
use perps_litvm.Indexer.Sources.{Source, Log, SourceTable}
use perps_litvm.Indexer.Walk.Coverage.{ReadsRange}
use perps_litvm.Indexer.SettlerPlan.{CursorRow, is_at}
use perps_litvm.Indexer.SettlerPlan.Pending.{Proves}
use perps_litvm.Indexer.Settler.{WalletFilter, Completion, Extension, Writer, logs_for}

-- The chain's logs by source, wallet and block; whether all that the database says of them is true;
-- and whether it has a row's coverage, or more of it.
pub record View (S : Type 0) : Type 1 where
  pub HasLog : Source → String → ℕ → Type 0
  pub IsTrue : S → Type 0
  pub Holds : S → CursorRow → Type 0

abbrev pub Keeps : {S : Type 0} → View S → S → S → Type 0
Keeps v s s' = (v.IsTrue s → v.IsTrue s') × ((row : CursorRow) → v.Holds s row → v.Holds s' row)

abbrev pub Keeps-trans :
    {S : Type 0} (v : View S) (a b c : S) → Keeps v a b → Keeps v b c → Keeps v a c
Keeps-trans v a b c h k = ((λ t. k.0 (h.0 t)), λ row t. k.1 row (h.1 row t))

-- What the calls do. A statement of the database that fails may have been carried out.
pub record Laws {S : Type 0} (v : View S) (writer : Writer S) (sources : List Source)
    (table : SourceTable) (lower : String → String) (get_logs : WalletFilter → Call S (List Log))
    (now : Ask S ℕ) : Type 0 where
  pub clock : (s : S) → Keeps v s (now s).1
  pub reads : (f : WalletFilter) (s : S) → Keeps v s (get_logs f s).1
  -- The node answers for the address that it is asked about.
  pub answers :
      (source : Source) (address wallet : String)
      → table.source_address source ≡ ok address
      → (lo hi : ℕ) (s : S) → lo ≤ hi
      → ReadsRange
          (λ log. some log.block_number)
          now
          (logs_for writer table get_logs now source address wallet)
          (v.HasLog source wallet)
          lo
          hi
          (logs_for writer table get_logs now source address wallet lo hi s).0
  pub picks : (n : ℕ) (s : S) → Keeps v s (writer.pick_cursor_candidates n s).1
  pub picked :
      (n : ℕ) (s : S) (rows : List CursorRow)
      → (writer.pick_cursor_candidates n s).0 ≡ ok rows
      → All (v.Holds (writer.pick_cursor_candidates n s).1) rows
  pub asks : (wallet quest : String) (s : S) → Keeps v s (writer.has_completion wallet quest s).1
  -- A completion is true if the wallet has a log of a source that proves the quest.
  pub completes :
      (c : Completion) (source : Source) (b : ℕ) (s : S)
      → Proves source c.quest
      → v.HasLog source c.wallet b
      → Keeps v s (writer.write_completion c s).1
  -- Coverage that the database has may grow by blocks in which the source has no log of the wallet.
  pub extends :
      (row : CursorRow) (source : Source) (e : Extension) (s : S)
      → v.Holds s row
      → e.wallet ≡ row.wallet
      → e.quest ≡ row.quest
      → e.source_key ≡ row.source_key
      → is_at sources table lower row.source_key source ≡ true
      → ((b : ℕ) → e.scanned_to ≤ b → b < row.scanned_to → ¬ v.HasLog source row.wallet b)
      → Keeps v s (writer.extend_cursor_down e s).1
