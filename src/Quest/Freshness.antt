-- ===== src/Quest/Freshness.antt =====
-- frontend/api/_lib/quest/indexerState.js: the freshness gate, `readFreshness`.
-- A stored number is a natural number, or `none` if it cannot be read as one; `date_of` is
-- `Date.parse`, in milliseconds. The head is a block number by its type.
pub mod Gate
use text.Mathlib.Text.{◌==◌}
use perps_litvm.Base.{
  ℕ, ◌+◌, ◌-◌, ◌/◌, max, min, String, Bool, true, false, Option, none, some, List, [], ◌∷◌, leb,
  ◌⊎◌, inl, inr, ltb, if◌then◌else◌, length, Try, ok, throw, Ask, Call,
}
use perps_litvm.Base.{◌==◌ as num_eq}

-- A value of `completion_from` as it is stored.
pub data Stored : Type 0 where
  number : ℕ → Stored
  written : String → Stored
  null unreadable : Stored

pub record RawState : Type 0 where
  pub source_key : Option String
  pub last_block : Option ℕ
  pub updated_at : Option ℕ
  pub completion_from : Stored

pub record StateRow : Type 0 where
  pub source_key : String
  pub last_block : ℕ
  pub updated_at : ℕ
  pub completion_from : Option ℕ

pub data Detail : Type 0 where
  no_required_sources read_failed source_count_mismatch head_behind_watermark : Detail
  updated_at_stale block_lag : Detail
  missing_source : String → Detail

pub data Freshness : Type 0 where
  stale : Detail → Freshness
  fresh : ℕ → List StateRow → Freshness

-- `maxLagBlocks`, from a lag and a block time above 0.
pub max_lag_blocks : ℕ → ℕ → ℕ
max_lag_blocks lag_ms block_ms = max 1 ((lag_ms + block_ms - 1) / block_ms)

-- `positiveInt` of a parsed setting.
unfoldable pub positive_int : Option ℕ → ℕ → ℕ
positive_int none fallback = fallback
positive_int (some n) fallback = if ltb 0 n then n else fallback

module _ (tidy : String → String) (to_number : String → Option ℕ) where
  -- NULL is not zero, and neither is a blank text.
  pub completion_from_of : Stored → Option ℕ
  completion_from_of (number n) = some n
  completion_from_of (written t) = if tidy t == "" then none else to_number t
  completion_from_of null = none
  completion_from_of unreadable = none

  pub keyed_row : RawState → String → Option StateRow
  unfolding completion_from_of
  keyed_row raw key = if key == "" then none else (elim raw.last_block [
    | none ↦ none
    | some last_block ↦ elim raw.updated_at [
      | none ↦ none
      | some updated_at ↦ some (record {
        source_key = key;
        last_block = last_block;
        updated_at = updated_at;
        completion_from = completion_from_of raw.completion_from;
      })
    ]
  ])

  pub read_row : RawState → Option StateRow
  unfolding keyed_row
  read_row raw = elim raw.source_key [ none ↦ none | some key ↦ keyed_row raw (tidy key) ]

  -- The rows that can be read, in order.
  unfoldable pub read_rows : List RawState → List StateRow
  unfolding read_row
  read_rows [] = []
  read_rows (raw ∷ raws) =
      let rest = read_rows raws in elim (read_row raw) [ none ↦ rest | some row ↦ row ∷ rest ]

  -- `byKey.get`: the last row that was set.
  pub row_at : List StateRow → String → Option StateRow
  row_at [] key = none
  row_at (row ∷ rows) key =
      let later = row_at rows key in
      elim later [ some r ↦ some r | none ↦ if row.source_key == key then some row else none ]

  pub with_row : StateRow → Detail ⊎ List StateRow → Detail ⊎ List StateRow
  with_row row (inl detail) = inl detail
  with_row row (inr rows) = inr (row ∷ rows)

  -- The row of each required source, or the first that is missing.
  pub require_rows : List StateRow → List String → Detail ⊎ List StateRow
  unfolding row_at with_row
  require_rows rows [] = inr []
  require_rows rows (key ∷ keys) = elim (row_at rows (tidy key)) [
    | none ↦ inl (missing_source (tidy key))
    | some row ↦ with_row row (require_rows rows keys)
  ]

  pub least_block : StateRow → List StateRow → ℕ
  least_block row [] = row.last_block
  least_block row (other ∷ rows) = min row.last_block (least_block other rows)

  pub oldest_update : StateRow → List StateRow → ℕ
  oldest_update row [] = row.updated_at
  oldest_update row (other ∷ rows) = min row.updated_at (oldest_update other rows)

  module _ {S : Type 0} (load : List String → Call S (Option (List RawState))) (now : Ask S ℕ)
      (lag_ms lag_blocks head : ℕ) where
    -- Conditions 6, 4 and 5, in this order.
    pub gate : StateRow → List StateRow → Ask S Freshness
    unfolding least_block oldest_update
    gate row rows s =
        let through = least_block row rows in
        if ltb head through
        then (stale head_behind_watermark, s)
        else (let (t, s') = now s in
            if ltb (lag_ms + oldest_update row rows) t
            then (stale updated_at_stale, s')
            else (if ltb (lag_blocks + through) head
                then (stale block_lag, s')
                else (fresh through (row ∷ rows), s')))

    pub gate_all : ℕ → List StateRow → Ask S Freshness
    unfolding gate
    gate_all wanted [] s = (stale no_required_sources, s)
    gate_all wanted (row ∷ rows) s =
        if num_eq (length (row ∷ rows)) wanted
        then gate row rows s
        else (stale source_count_mismatch, s)

    -- What a read of the rows leads to.
    pub after_load : List String → Try (Option (List RawState)) → Ask S Freshness
    unfolding read_rows require_rows gate_all
    after_load keys (throw e) s = (stale read_failed, s)
    after_load keys (ok none) s = (stale read_failed, s)
    after_load keys (ok (some raws)) s = elim (require_rows (read_rows raws) keys) [
      | inl detail ↦ (stale detail, s)
      | inr rows ↦ gate_all (length keys) rows s
    ]

    unfoldable pub read_freshness : List String → Ask S Freshness
    unfolding after_load
    read_freshness [] s = (stale no_required_sources, s)
    read_freshness (key ∷ keys) s =
        let (r, s') = load (key ∷ keys) s in after_load (key ∷ keys) r s'
