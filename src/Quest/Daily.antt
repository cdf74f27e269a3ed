-- ===== src/Quest/Daily.antt =====
-- frontend/api/_lib/quest/checks.js and dailySources.js: the tiers of `daily_active`.
-- `now` reads the clock in milliseconds since 1970; `utc_day` is the text of a time's day.
pub mod Truth
use perps_litvm.Base.{
  ℕ, ◌+◌, ◌%◌, String, Bool, true, false, ◌&&◌, Option, none, some, List, [], ◌∷◌, ltb,
  if◌then◌else◌, map, Try, ok, throw, Ask, Call, ◌>>=◌, answer, and_then,
}
use perps_litvm.Quest.Sources.{Source, or_else}
use perps_litvm.Quest.Scan.{Limits}
use perps_litvm.Quest.Poll.{Scan, scan_for_event}
use perps_litvm.Quest.Freshness.{RawState, Freshness, stale, fresh, read_freshness}
use perps_litvm.Quest.Quests.{Tier1, read, declined}
use perps_litvm.Quest.Chain.{
  Contract, position_manager, liquidity_pool, prediction_factory, prediction_factory_old,
  require_address,
}
use perps_litvm.Quest.Checks.{source_at, is_read}

-- DAILY_SOURCES
pub daily_contracts : List Contract
daily_contracts =
    position_manager ∷ liquidity_pool ∷ prediction_factory ∷ prediction_factory_old ∷ []

abbrev pub day_ms : ℕ
day_ms = 86400000

-- `withinDayBoundaryGrace`
unfoldable pub within_day_boundary_grace : ℕ → ℕ → Bool
within_day_boundary_grace now grace_ms = ltb (now % day_ms) grace_ms

-- What the read of a wallet's row comes to.
pub row_read : ℕ → ℕ → Try Bool → Tier1
row_read head through (ok has_row) = read has_row true head (some through)
row_read head through (throw e) = declined "index_unreadable"

-- There is no tail to scan.
pub no_tail : ℕ → Scan
no_tail head = record {
  found = false;
  complete = true;
  exhausted = false;
  chunks_used = 0;
  scanned_from = head;
  scanned_down_to = none;
  coverage = [];
  reason = none;
}

module _ (trim lower : String → String) (parse_int : String → Option ℕ)
    (env : String → Option String) where
  pub contract_addresses : List Contract → Try (List String)
  contract_addresses [] = ok []
  contract_addresses (c ∷ cs) =
      and_then (require_address trim parse_int env c)
        (λ address. and_then (contract_addresses cs) (λ rest. ok (address ∷ rest)))

  unfoldable pub daily_addresses : Try (List String)
  unfolding contract_addresses daily_contracts require_address
  daily_addresses = contract_addresses daily_contracts

  pub required_source_keys : Try (List String)
  unfolding daily_addresses
  required_source_keys = and_then daily_addresses (λ addresses. ok (map lower addresses))

  pub sources_at : ℕ → List String → List Source
  unfolding source_at
  sources_at floor addresses = map (λ address. source_at address floor) addresses

  pub tail_scan_sources : ℕ → Try (List Source)
  unfolding daily_addresses sources_at
  tail_scan_sources floor = and_then daily_addresses (λ addresses. ok (sources_at floor addresses))

  module _ {S Log : Type 0} (head_block : Call S ℕ) (now : Ask S ℕ) (utc_day : ℕ → String)
      (load : List String → Call S (Option (List RawState))) (to_number : String → Option ℕ)
      (has_daily_row : String → String → Call S Bool) (lag_ms lag_blocks grace_ms : ℕ)
      (query : String → Source → ℕ → ℕ → Call S (List Log)) where
    abbrev pub tidy : String → String
    tidy t = lower (trim t)

    pub after_freshness : String → ℕ → Freshness → Call S Tier1
    unfolding row_read
    after_freshness address head (stale detail) s = (ok (declined "indexer_stale"), s)
    after_freshness address head (fresh through rows) s =
        let (t, s₁) = now s in
        let (r, s₂) = has_daily_row address (utc_day t) s₁ in (ok (row_read head through r), s₂)

    pub with_keys : String → ℕ → Try (List String) → Call S Tier1
    unfolding after_freshness
    with_keys address head (throw e) s = (throw e, s)
    with_keys address head (ok keys) s =
        let (f, s') = read_freshness tidy to_number load now lag_ms lag_blocks head keys s in
        after_freshness address head f s'

    -- After the head: the clock, then the index.
    pub after_head : String → ℕ → Call S Tier1
    unfolding with_keys required_source_keys
    after_head address head s =
        let (t, s') = now s in
        elim (within_day_boundary_grace t grace_ms) [
          | true ↦ (ok (declined "day_boundary"), s')
          | false ↦ with_keys address head required_source_keys s'
        ]

    unfoldable pub daily_active_tier1 : String → Call S Tier1
    unfolding after_head
    daily_active_tier1 address = head_block >>= after_head address

    pub tail_limits : ℕ → Limits
    tail_limits head = record {
      head = head;
      chunk_blocks = lag_blocks;
      max_chunks = 8;
      time_budget_ms = 8000;
    }

    -- The floor of the tail is the block after the index, if the first tier has proved it.
    pub floor_proved : Bool → Option ℕ → Source → Call S Bool
    floor_proved reliable through source = answer (ok (reliable && is_read through))

    pub scan_tail : String → Bool → ℕ → Option ℕ → Try (List Source) → Call S Scan
    unfolding tail_limits floor_proved
    scan_tail address reliable head through (throw e) s = (throw e, s)
    scan_tail address reliable head through (ok sources) s =
        let (scan, s') =
          scan_for_event tidy (tail_limits head) now (query address) (floor_proved reliable through)
            sources (λ key. none) s in
        (ok scan, s')

    unfoldable pub daily_active_tier2 : String → Tier1 → Call S Scan
    unfolding scan_tail no_tail tail_scan_sources
    daily_active_tier2 address (declined why) = answer (throw "no head")
    daily_active_tier2 address (read completed reliable head through) =
        let floor = or_else through head + 1 in
        elim (ltb head floor) [
          | true ↦ answer (ok (no_tail head))
          | false ↦ scan_tail address reliable head through (tail_scan_sources floor)
        ]
