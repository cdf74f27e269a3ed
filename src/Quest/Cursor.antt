-- ===== src/Quest/Cursor.antt =====
-- frontend/api/_lib/quest/cursor.js: the store of coverage, and `scanWithResume`.
-- `trim`, `lower` and `parse_int` are JavaScript's: `parse_int` gives the natural number that
-- `Number.parseInt` reads, and nothing for a negative one or none.
pub mod Rows
pub mod Resume
pub mod RoundTrip
pub mod Store
mod Examples
use text.Mathlib.Text.{◌==◌}
use perps_litvm.Base.{
  ℕ, ◌+◌, String, Bool, true, false, not, ◌&&◌, ◌||◌, Option, none, some, List, [], ◌∷◌, leb, ltb,
  if◌then◌else◌, length, all, Try, ok, throw, Ask, Call, Done, codes,
}
use perps_litvm.Base.{◌==◌ as num_eq}
use perps_litvm.Quest.Sources.{Source}
use perps_litvm.Quest.Scan.{CoverageRow, Limits, by_key}
use perps_litvm.Quest.Poll.{Scan, scan_for_event}

-- A value of unknown type, as it comes from a request or from storage.
pub data Value : Type 0 where
  number : ℕ → Value
  written : String → Value
  -- A number that is negative or no integer, and all else.
  other_number absent : Value

pub record RawId : Type 0 where
  pub chain_id : Value
  pub wallet : Value
  pub quest : Value

pub record Identity : Type 0 where
  pub chain_id : ℕ
  pub wallet : String
  pub quest : String

pub record RawRow : Type 0 where
  pub source_key : Value
  pub floor_block : Value
  pub scanned_from : Value
  pub scanned_to : Value

-- WALLET_RE, /^0x[0-9a-f]{40}$/
pub is_hex : ℕ → Bool
is_hex c = (leb 48 c && leb c 57) || (leb 97 c && leb c 102)

pub is_wallet_codes : List ℕ → Bool
unfolding is_hex
is_wallet_codes (a ∷ b ∷ rest) =
    num_eq a 48 && (num_eq b 120 && (num_eq (length rest) 40 && all is_hex rest))
is_wallet_codes _ = false

module _ (trim lower : String → String) (parse_int : String → Option ℕ) where
  pub to_block : Value → Option ℕ
  to_block (number n) = some n
  to_block (written t) = parse_int t
  to_block other_number = none
  to_block absent = none

  pub text_of : Value → String
  text_of (written t) = t
  text_of v = ""

  pub identity_of : Option ℕ → String → String → Option Identity
  unfolding is_wallet_codes
  identity_of none wallet quest = none
  identity_of (some chain_id) wallet quest =
      if leb chain_id 0
      then none
      else (if not (is_wallet_codes (codes wallet))
          then none
          else (if quest == ""
              then none
              else some (record { chain_id = chain_id; wallet = wallet; quest = quest })))

  pub normalize_identity : RawId → Option Identity
  unfolding to_block text_of identity_of
  normalize_identity id =
      identity_of (to_block id.chain_id) (lower (trim (text_of id.wallet)))
        (trim (text_of id.quest))

  pub interval_of : String → Option ℕ → Option ℕ → Option ℕ → Option CoverageRow
  interval_of key (some floor) (some from) (some to) =
      if ltb to floor
      then none
      else (if ltb from to
          then none
          else some (record {
            source_key = key;
            floor_block = floor;
            scanned_from = from;
            scanned_to = to;
            dirty = false;
          }))
  interval_of key (some floor) (some from) none = none
  interval_of key (some floor) none to = none
  interval_of key none from to = none

  pub normalize_coverage_row : RawRow → Option CoverageRow
  unfolding to_block text_of interval_of
  normalize_coverage_row row =
      let key = lower (trim (text_of row.source_key)) in
      if key == ""
      then none
      else interval_of key (to_block row.floor_block) (to_block row.scanned_from)
          (to_block row.scanned_to)

  -- The rows that pass.
  pub valid_rows : List RawRow → List CoverageRow
  unfolding normalize_coverage_row
  valid_rows [] = []
  valid_rows (raw ∷ raws) =
      let rest = valid_rows raws in
      elim (normalize_coverage_row raw) [ none ↦ rest | some row ↦ row ∷ rest ]

-- A row that a scan returned, as the store takes it.
pub as_raw : CoverageRow → RawRow
as_raw row = record {
  source_key = written row.source_key;
  floor_block = number row.floor_block;
  scanned_from = number row.scanned_from;
  scanned_to = number row.scanned_to;
}

pub as_raws : List CoverageRow → List RawRow
unfolding as_raw
as_raws [] = []
as_raws (row ∷ rows) = as_raw row ∷ as_raws rows

pub keep_if : Bool → CoverageRow → List CoverageRow → List CoverageRow
keep_if true row rest = row ∷ rest
keep_if false row rest = rest

pub only_dirty : List CoverageRow → List CoverageRow
unfolding keep_if
only_dirty [] = []
only_dirty (row ∷ rows) = keep_if row.dirty row (only_dirty rows)

-- A driver; what it loads may be no array.
pub record Driver (S : Type 0) : Type 0 where
  pub load : Identity → Call S (Option (List RawRow))
  pub save : Identity → List CoverageRow → Call S Done

module _ {S : Type 0} (trim lower : String → String) (parse_int : String → Option ℕ)
    (driver : Driver S) where
  pub loaded : Try (Option (List RawRow)) → List CoverageRow
  unfolding valid_rows
  loaded (ok (some raws)) = valid_rows trim lower parse_int raws
  loaded (ok none) = []
  loaded (throw e) = []

  -- `load` and `save` of a store. The identity has been normalised, which changes it no more.
  pub load_rows : Identity → Ask S (List CoverageRow)
  unfolding loaded
  load_rows id s = let (r, s') = driver.load id s in (loaded r, s')

  pub saved : ℕ → Try Done → ℕ
  saved count (ok _) = count
  saved count (throw e) = 0

  pub save_valid : Identity → List CoverageRow → Ask S ℕ
  unfolding saved
  save_valid id [] s = (0, s)
  save_valid id (row ∷ rows) s =
      let (r, s') = driver.save id (row ∷ rows) s in (saved (length (row ∷ rows)) r, s')

  pub save_rows : Identity → List CoverageRow → Ask S ℕ
  unfolding save_valid valid_rows as_raws
  save_rows id rows = save_valid id (valid_rows trim lower parse_int (as_raws rows))

  -- After a scan for an identity: keep what this poll has moved.
  pub persist : Identity → Scan → Ask S Scan
  unfolding save_rows only_dirty
  persist id scan s =
      if scan.found then (scan, s) else (scan, (save_rows id (only_dirty scan.coverage) s).1)

  module _ {Log : Type 0} (limits : Limits) (now : Ask S ℕ)
      (query : Source → ℕ → ℕ → Call S (List Log)) (verify_floor : Source → Call S Bool) where
    pub scan_plain : List Source → (String → Option CoverageRow) → Ask S Scan
    scan_plain sources prior =
        scan_for_event (λ raw. lower (trim raw)) limits now query verify_floor sources prior

    pub scan_resumed : List Source → Identity → Ask S Scan
    unfolding load_rows persist scan_plain
    scan_resumed sources id s =
        let (rows, s₁) = load_rows id s in
        let (scan, s₂) = scan_plain sources (by_key rows) s₁ in persist id scan s₂

    pub scan_as : List Source → Option Identity → Ask S Scan
    unfolding scan_resumed scan_plain
    scan_as sources none = scan_plain sources (λ key. none)
    scan_as sources (some id) = scan_resumed sources id

    -- `scanWithResume` with a store; without one the identity counts as missing.
    pub scan_with_resume : List Source → RawId → Ask S Scan
    unfolding scan_as normalize_identity
    scan_with_resume sources raw = scan_as sources (normalize_identity trim lower parse_int raw)
