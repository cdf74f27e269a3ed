-- ===== src/Indexer/Range/Laws.antt =====
-- quest-indexer/lib/indexer.mjs, `rangeFor`: no gap above the watermark, and when a run moves on.
use perps_litvm.Base.{ℕ, ◌+◌, ◌≤◌, ◌<◌, ◌≡◌, ◌⊎◌, none, some, arith}
use perps_litvm.Indexer.Range.{BlockRange, range_for}

-- A range leaves no block between the watermark and itself unread, lies at or under the safe head
-- and holds a block, if the largest range is positive.
pub range_for_no_gap :
    (last head conf max_range : ℕ) (r : BlockRange)
    → 0 < max_range
    → range_for (some last) head conf max_range ≡ some r
    → (r.from ≤ last + 1) × (r.from ≤ r.to) × (r.to + conf ≤ head) × (r.to < r.from + max_range)
unfolding range_for
range_for_no_gap last head conf max_range r h e = ground arith

-- With a watermark there is a range exactly when the watermark is under the safe head.
pub range_for-eq-none_iff :
    (last head conf max_range : ℕ)
    → ((range_for (some last) head conf max_range ≡ none) × (head ≤ last + conf))
      ⊎ ((r : BlockRange) × (range_for (some last) head conf max_range ≡ some r)
          × (last + conf < head))
unfolding range_for
range_for-eq-none_iff last head conf max_range = ground arith

-- The run that reads a range passes the watermark if the largest range is above the confirmations.
pub range_for_progress :
    (last head conf max_range : ℕ) (r : BlockRange)
    → conf < max_range
    → range_for (some last) head conf max_range ≡ some r
    → last < r.to
unfolding range_for
range_for_progress last head conf max_range r h e = ground arith

-- If the largest range is positive and at most the confirmations, and the watermark is not under
-- the confirmations, the range ends at or under the watermark: such a run never gets on.
pub range_for_stalls :
    (last head conf max_range : ℕ) (r : BlockRange)
    → 0 < max_range
    → max_range ≤ conf
    → conf ≤ last + 1
    → range_for (some last) head conf max_range ≡ some r
    → r.to ≤ last
unfolding range_for
range_for_stalls last head conf max_range r p h k e = ground arith
