-- ===== src/Quest/Cursor/Examples.antt =====
-- frontend/api/_lib/quest/cursor.js: the theorems on a store that holds rows, and a small chain.
use perps_litvm.Base.{
  ℕ, ◌+◌, ◌≡◌, ◌≢◌, refl, sym, ◌∙◌, inl, inr, String, Bool, true, false, ◌&&◌, Option, none, some,
  List, [], ◌∷◌, leb, if◌then◌else◌, ok, ok-injective, Ask, Call, All, All-map, arith, Bool-cases,
  subst,
}
use perps_litvm.Quest.Sources.{Source, source_key_of}
use perps_litvm.Quest.Scan.{CoverageRow, Limits, by_key, coverage_proves_absence}
use perps_litvm.Quest.Scan.Walk.{NoLog, IsTruthful}
use perps_litvm.Quest.Poll.{scan_for_event}
use perps_litvm.Quest.Poll.Absence.{IsAnswer}
use perps_litvm.Quest.Cursor.{
  number, written, RawRow, Identity, Driver, as_raws, valid_rows, scan_resumed, save_rows,
  load_rows,
}
use perps_litvm.Quest.Cursor.Rows.{IsValidRow, valid_rows-IsValidRow, valid_rows-as_raws}
use perps_litvm.Quest.Cursor.Store.{memory_cursor_driver, load_rows-memory_cursor_driver}
use perps_litvm.Quest.Cursor.Resume.{IsTrueOf, scan_resumed-IsAnswer}

abbrev pool : Source
pool = record { source_key = none; address = some "0xab"; contract_address = none; floor = 2 }

abbrev HasLog : Source → ℕ → Type 0
HasLog source b = b ≡ 50

abbrev as_is : String → String
as_is s = s

abbrev no_number : String → Option ℕ
no_number t = none

abbrev frozen_clock : Ask (List RawRow) ℕ
frozen_clock s = (7, s)

abbrev logs_of_fifty : Source → ℕ → ℕ → Call (List RawRow) (List ℕ)
logs_of_fifty source lo hi s = (ok (if leb lo 50 && leb 50 hi then 50 ∷ [] else []), s)

abbrev under_fifty : Source → Call (List RawRow) Bool
under_fifty source s = (ok (leb source.floor 50), s)

abbrev table : Driver (List RawRow)
table = record { load = λ id s. (ok (some s), s); save = λ id rows s. (ok tt, as_raws rows) }

abbrev forty : Limits
forty = record { head = 40; chunk_blocks = 10; max_chunks = 12; time_budget_ms = 1000 }

abbrev wallet_id : Identity
wallet_id = record { chain_id = 1; wallet = "0xcd"; quest = "first_trade" }

logs_of_fifty-IsTruthful : IsTruthful HasLog logs_of_fifty
logs_of_fifty-IsTruthful source lo hi s up h = elim (Bool-cases (leb lo 50 && leb 50 hi)) [
  | inl e ↦ rw e (50, refl)
  | inr e ↦ rw e (λ b p q same. ground arith)
]

under_fifty-NoLog :
    (src : Source) (s : List RawRow)
    → (under_fifty src s).0 ≡ ok true
    → NoLog HasLog src 0 src.floor
under_fifty-NoLog src s h b p q same =
    let low : leb src.floor 50 ≡ true = ok-injective h in ground arith

-- What is in the table is true of the pool.
abbrev Held : List RawRow → Type 0
Held s = All (IsTrueOf HasLog as_is (pool ∷ [])) (valid_rows as_is as_is no_number s)

table-load :
    (raws s : List RawRow) → Held s → (table.load wallet_id s).0 ≡ ok (some raws) → Held raws
table-load raws s h e = let same : s ≡ raws = cc e in subst Held same h

table-save :
    (rows : List CoverageRow) → All (IsTrueOf HasLog as_is (pool ∷ [])) rows → Held (as_raws rows)
table-save rows h =
    valid_rows-as_raws as_is as_is no_number (IsTrueOf HasLog as_is (pool ∷ [])) rows (
      All-map rows
        (λ row t r k floors f e.
          ((λ keyed low. rw (f, e) (t.0 (sym k ∙ keyed) (sym floors ∙ low))), tt))
        h)

-- The first poll of a wallet, on an empty table: blocks 2 to 40 in four reads, and a row to keep.
scan_resumed_first :
    let r =
      scan_resumed as_is as_is no_number table forty frozen_clock logs_of_fifty under_fifty
        (pool ∷ [])
        wallet_id
        [] in
    (r.0.complete ≡ true) × (r.0.chunks_used ≡ 4) × (valid_rows as_is as_is no_number r.1 ≢ [])
unfolding scan_resumed valid_rows scan_for_event by_key coverage_proves_absence source_key_of
scan_resumed_first = (refl, refl, λ e. cc e)

scan_resumed-IsAnswer_example :
    IsAnswer HasLog as_is 40
      (pool ∷ [])
      (scan_resumed as_is as_is no_number table forty frozen_clock logs_of_fifty under_fifty
        (pool ∷ [])
        wallet_id
        []).0
    × Held
        (scan_resumed as_is as_is no_number table forty frozen_clock logs_of_fifty under_fifty
          (pool ∷ [])
          wallet_id
          []).1
unfolding valid_rows
scan_resumed-IsAnswer_example =
    scan_resumed-IsAnswer as_is as_is no_number table forty frozen_clock logs_of_fifty under_fifty
      HasLog logs_of_fifty-IsTruthful under_fifty-NoLog (omega arith) (pool ∷ [])
      (((λ e lo hi h. h), tt), tt) (λ t. refl) wallet_id Held (λ s h. h) (λ source lo hi s h. h)
      (λ source s h. h) (λ s h. h) (λ raws s h e. table-load raws s h e)
      (λ rows s h t. table-save rows t) [] tt

abbrev raw_row : RawRow
raw_row = record {
  source_key = written "0xab";
  floor_block = number 2;
  scanned_from = number 30;
  scanned_to = number 12;
}

valid_rows-IsValidRow_example :
    All (IsValidRow as_is) (valid_rows as_is as_is no_number (raw_row ∷ []))
valid_rows-IsValidRow_example =
    valid_rows-IsValidRow as_is as_is no_number (λ t. refl) (raw_row ∷ [])

abbrev scanned_row : CoverageRow
scanned_row = record {
  source_key = "0xab";
  floor_block = 2;
  scanned_from = 30;
  scanned_to = 12;
  dirty = true;
}

abbrev other_row : CoverageRow
other_row = record scanned_row { source_key = "0xabc"; scanned_to = 30 }

abbrev one_code : ℕ → List ℕ
one_code n = (48 + n) ∷ []

load_rows-memory_cursor_driver_example :
    let driver = memory_cursor_driver one_code in
    let done = save_rows as_is as_is no_number driver wallet_id (scanned_row ∷ other_row ∷ []) [] in
    (done.0 ≡ 2)
    × ((load_rows as_is as_is no_number driver wallet_id done.1).0
        ≡ record scanned_row { dirty = false } ∷ record other_row { dirty = false } ∷ [])
load_rows-memory_cursor_driver_example =
    load_rows-memory_cursor_driver as_is as_is no_number one_code wallet_id scanned_row
      (other_row ∷ []) (((λ e. cc e), tt), (tt, tt))
      (
        ((λ e. cc e), refl, omega arith, omega arith),
        (((λ e. cc e), refl, omega arith, omega arith), tt),
      )
