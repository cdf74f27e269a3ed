-- ===== src/Indexer/Range.antt =====
-- quest-indexer/lib/indexer.mjs: `rangeFor`, the blocks that a run reads for one source.
-- Blocks are numbers, so a safe head below 0 is a head below the confirmations. `maxRange` is
-- positive in the source, as `positiveInt` makes it.
pub mod Laws
use perps_litvm.Base.{ℕ, ◌+◌, ◌-◌, min, Bool, Option, none, some, ltb, leb, if◌then◌else◌}

pub record BlockRange : Type 0 where
  pub from : ℕ
  pub to : ℕ

-- `lastBlock != null && lastBlock >= safeHead`
pub is_current : Option ℕ → ℕ → Bool
is_current none safe_head = Bool.false
is_current (some last) safe_head = leb safe_head last

-- Where a run starts: at the safe head with no watermark, else with an overlap under it.
pub resume_from : Option ℕ → ℕ → ℕ → ℕ
resume_from none safe_head conf = safe_head
resume_from (some last) safe_head conf = last + 1 - conf

unfoldable pub range_for : Option ℕ → ℕ → ℕ → ℕ → Option BlockRange
unfolding is_current resume_from
range_for last_block head conf max_range =
    if ltb head conf
    then none
    else (if is_current last_block (head - conf)
        then none
        else (let from = resume_from last_block (head - conf) conf in
            some (record { from = from; to = min (head - conf) (from + max_range - 1) })))
