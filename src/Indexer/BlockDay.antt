-- ===== src/Indexer/BlockDay.antt =====
-- quest-indexer/lib/blockDay.mjs: the UTC day of each block that has a log.
-- A day is its number since 1970-01-01: the texts `YYYY-MM-DD` are ordered as the days are. The state
-- is the resolver's memory of timestamps with the world. `Set` and `sort` make a list of distinct
-- blocks in order. A bisection gets its span as fuel. The count of
-- calls, which only a log line reads, is left out.
pub mod Dating
pub mod Days
mod Tests
use perps_litvm.Base.{
  ℕ, zero, suc, ◌+◌, ◌-◌, ◌/◌, ◌^◌, max, Bool, true, false, Option, none, some, List, [], ◌∷◌, leb,
  ltb, if◌then◌else◌, length, map, Try, ok, throw, Call, ◌>>=◌, answer,
}
use perps_litvm.Base.{◌==◌ as num_eq}

-- `dayFromTimestamp`, of a timestamp that is a number from 0 on.
unfoldable pub day_from_timestamp : ℕ → ℕ
day_from_timestamp seconds = seconds / 86400

-- The map of timestamps, latest first, and a log's day.
abbrev pub Memo : Type 0
Memo = List (ℕ × ℕ)

unfoldable pub recall : Memo → ℕ → Option ℕ
recall [] block = none
recall ((b, t) ∷ memo) block = if num_eq b block then some t else recall memo block

-- Distinct blocks in order.
unfoldable pub insert_block : ℕ → List ℕ → List ℕ
insert_block b [] = b ∷ []
insert_block b (c ∷ cs) =
    let rest = insert_block b cs in
    if ltb b c then b ∷ c ∷ cs else (if num_eq b c then c ∷ cs else c ∷ rest)

-- The blocks of the logs, or an error if a log has none.
unfoldable pub log_blocks : List (Option ℕ) → Try (List ℕ)
unfolding insert_block
log_blocks [] = ok []
log_blocks (none ∷ logs) = throw "log has no usable blockNumber"
log_blocks (some b ∷ logs) =
    let rest = log_blocks logs in
    elim rest [ ok blocks ↦ ok (insert_block b blocks) | throw e ↦ throw e ]

-- The least `k` from a start on with `n ≤ 2 ^ k`.
unfoldable pub log2_up : ℕ → ℕ → ℕ → ℕ
log2_up zero k n = k
log2_up (suc fuel) k n = let rest = log2_up fuel (k + 1) n in if leb n (2 ^ k) then k else rest

unfoldable pub bisection_cost : ℕ → ℕ → ℕ
unfolding log2_up
bisection_cost from to = let span = max (to - from) 2 in log2_up span 0 span

module _ {S : Type 0} (get_block : ℕ → Call S (Option ℕ)) where
  -- What a header leads to.
  pub remembered : ℕ → Memo → Try (Option ℕ) → S → Try ℕ × (Memo × S)
  remembered block memo (ok (some t)) s = (ok t, (((block, t) ∷ memo), s))
  remembered block memo (ok none) s = (throw "getBlock returned no timestamp", (memo, s))
  remembered block memo (throw e) s = (throw e, (memo, s))

  unfoldable pub timestamp_of : ℕ → Call (Memo × S) ℕ
  unfolding recall remembered
  timestamp_of block (memo, s) = elim (recall memo block) [
    | some t ↦ (ok t, (memo, s))
    | none ↦ let (r, s') = get_block block s in remembered block memo r s'
  ]

  -- The loop of `firstBlockOnOrAfterDay`.
  unfoldable pub bisect : ℕ → ℕ → ℕ → ℕ → Call (Memo × S) ℕ
  unfolding timestamp_of day_from_timestamp
  bisect zero target low high = elim (ltb 1 (high - low)) [
    | true ↦ answer (throw "out of fuel")
    | false ↦ answer (ok high)
  ]
  bisect (suc fuel) target low high = elim (ltb 1 (high - low)) [
    | false ↦ answer (ok high)
    | true ↦
        let mid = (low + high) / 2 in
        timestamp_of mid >>= λ t. elim (leb target (day_from_timestamp t)) [
          | true ↦ bisect fuel target low mid
          | false ↦ bisect fuel target mid high
        ]
  ]

  unfoldable pub first_block_on_or_after_day : ℕ → ℕ → ℕ → Call (Memo × S) ℕ
  unfolding bisect
  first_block_on_or_after_day low high target = bisect (high - low) target low high

  -- Step 2.
  unfoldable pub name_each : List ℕ → Call (Memo × S) (List (ℕ × ℕ))
  unfolding timestamp_of day_from_timestamp
  name_each [] = answer (ok [])
  name_each (b ∷ blocks) = timestamp_of b >>= λ t.
      name_each blocks >>= λ rest. answer (ok ((b, day_from_timestamp t) ∷ rest))

  -- Step 3, where it is cheaper.
  unfoldable pub straddle : Option ℕ → ℕ → ℕ → ℕ → ℕ → List ℕ → Call (Memo × S) (List (ℕ × ℕ))
  unfolding bisection_cost first_block_on_or_after_day name_each
  straddle most from to lo_day hi_day blocks =
      let threshold : ℕ = elim most [ some n ↦ n | none ↦ bisection_cost from to ] in
      elim (ltb threshold (length blocks)) [
        | true ↦ first_block_on_or_after_day from to hi_day >>= λ boundary.
            answer (ok (map (λ b. (b, (if leb boundary b then hi_day else lo_day))) blocks))
        | false ↦ name_each blocks
      ]

  -- Steps 1 to 3 for the timestamps of the range's ends.
  unfoldable pub by_ends : Option ℕ → ℕ → ℕ → ℕ → ℕ → List ℕ → Call (Memo × S) (List (ℕ × ℕ))
  unfolding straddle name_each day_from_timestamp
  by_ends most from to lo_ts hi_ts blocks =
      let lo_day = day_from_timestamp lo_ts in
      let hi_day = day_from_timestamp hi_ts in
      if leb lo_ts hi_ts
      then (if num_eq lo_day hi_day
          then answer (ok (map (λ b. (b, lo_day)) blocks))
          else straddle most from to lo_day hi_day blocks)
      else name_each blocks

  unfoldable pub date_blocks : Option ℕ → ℕ → ℕ → Try (List ℕ) → Call (Memo × S) (List (ℕ × ℕ))
  unfolding by_ends timestamp_of
  date_blocks most from to (throw e) = answer (throw e)
  date_blocks most from to (ok blocks) = timestamp_of from >>= λ lo_ts.
      timestamp_of to >>= λ hi_ts. by_ends most from to lo_ts hi_ts blocks

  -- `resolve`; no logs, no calls.
  unfoldable pub resolve_days : Option ℕ → List (Option ℕ) → ℕ → ℕ → Call (Memo × S) (List (ℕ × ℕ))
  unfolding date_blocks log_blocks
  resolve_days most [] from to = answer (ok [])
  resolve_days most (log ∷ logs) from to = date_blocks most from to (log_blocks (log ∷ logs))
