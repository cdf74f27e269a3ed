-- ===== src/Quest/Checks.antt =====
-- frontend/api/_lib/quest/checks.js: the tiers of the one-time quests.
-- `positionKey` with `marketKey`, the aggregate call and the decoders are parameters: ethers' and
-- the contract's; a contract that is not configured is an error of its calls. A source's filter is bound to the wallet by the query that is made for it. A second
-- tier is only called with a result that was read; the model answers for one that was declined with
-- an error.
pub mod Tail
pub mod Proof
mod Examples
use perps_litvm.Base.{
  ℕ, zero, suc, ◌+◌, ◌-◌, String, Bool, true, false, ◌&&◌, ◌||◌, Option, none, some, List, [], ◌∷◌,
  ltb, all, any, if◌then◌else◌, map, Try, ok, throw, Ask, Call, ◌>>=◌, answer, and_then,
}
use perps_litvm.Base.{◌==◌ as num_eq}
use perps_litvm.Quest.Sources.{Source}
use perps_litvm.Quest.Scan.{Limits, chunk_blocks, max_chunks, time_budget_ms}
use perps_litvm.Quest.Poll.{Scan}
use perps_litvm.Quest.Cursor.{Value, number, written, RawId, Driver, scan_with_resume}
use perps_litvm.Quest.Quests.{Tier1, read, declined}
use perps_litvm.Quest.Chain.{
  ReadCall, positions, market_count, stake_of, balance_of, batch_read, Contract, position_manager,
  liquidity_pool, prediction_factory, prediction_factory_old, require_address, deploy_block,
  chain_id,
}

-- PREDICTION_TAIL
abbrev pub prediction_tail : ℕ
prediction_tail = 48

-- TRADE_MARKETS, each long and short.
pub trade_positions : List (String × Bool)
trade_positions = ("BTC", true) ∷ ("BTC", false) ∷ ("ETH", true) ∷ ("ETH", false) ∷ []

-- The loop over `id` from the newest down, for a number of ids.
pub ids_down : ℕ → ℕ → List ℕ
ids_down zero id = []
ids_down (suc n) id = id ∷ ids_down n (id - 1)

-- The ids from `newest` down to `oldest`, of a market count above 0. The source takes the maximum
-- of 0 and a difference, which the difference of natural numbers is.
pub tail_ids : ℕ → List ℕ
unfolding ids_down
tail_ids count =
    let newest = count - 1 in
    let oldest = newest + 1 - prediction_tail in ids_down (newest + 1 - oldest) newest

unfoldable pub is_read : {A : Type 0} → Option A → Bool
is_read none = false
is_read (some a) = true

-- `r.ok && r.value.sizeUsd.gt(0)`, and the test of the two stakes.
pub is_above_zero : Option ℕ → Bool
is_above_zero none = false
is_above_zero (some n) = ltb 0 n

pub is_staked : Option (ℕ × ℕ) → Bool
is_staked none = false
is_staked (some (up, down)) = ltb 0 up || ltb 0 down

-- `{ completed, reliable, checkedThroughBlock }` of a batch.
pub judged : {A : Type 0} → (Option A → Bool) → ℕ → List (Option A) → Tier1
unfolding is_read
judged proves head results =
    let completed = any proves results in
    read completed (completed || all is_read results) head none

-- What a batch of one read is destructured to; a batch that answers with none is an error.
pub first_result : {A : Type 0} → List (Option A) → Try (Option A)
first_result [] = throw "TypeError: reading 'ok' of undefined"
first_result (r ∷ rs) = ok r

module _ {S Data : Type 0} (head_block : Call S ℕ)
    (aggregate3 : List ReadCall → Call S (List (Bool × Data)))
    (position_key : String → String → Bool → String) (decode_size : Data → Option ℕ)
    (decode_count : Data → Option ℕ) (decode_stakes : Data → Option (ℕ × ℕ))
    (decode_balance : Data → Option ℕ) where
  pub position_calls : String → List ReadCall
  unfolding trade_positions
  position_calls address =
      map (λ (p : String × Bool). positions (position_key address p.0 p.1)) trade_positions

  unfoldable pub first_trade_tier1 : String → Call S Tier1
  unfolding position_calls judged is_above_zero
  first_trade_tier1 address = head_block >>= λ head.
      batch_read aggregate3 decode_size (position_calls address) >>= λ results.
      answer (ok (judged is_above_zero head results))

  pub stake_calls : String → List ℕ → List ReadCall
  stake_calls address ids = map (λ id. stake_of id address) ids

  -- After the count of the markets.
  pub after_count : String → ℕ → Option ℕ → Call S Tier1
  unfolding stake_calls tail_ids judged is_staked
  after_count address head none = answer (ok (read false false head none))
  after_count address head (some zero) = answer (ok (read false true head none))
  after_count address head (some (suc n)) =
      batch_read aggregate3 decode_stakes (stake_calls address (tail_ids (suc n))) >>= λ results.
      answer (ok (judged is_staked head results))

  unfoldable pub first_prediction_tier1 : String → Call S Tier1
  unfolding first_result after_count
  first_prediction_tier1 address = head_block >>= λ head.
      batch_read aggregate3 decode_count (market_count ∷ []) >>= λ results.
      answer (first_result results) >>= after_count address head

  pub after_balance : ℕ → Option ℕ → Tier1
  after_balance head none = read false false head none
  after_balance head (some shares) = read (ltb 0 shares) true head none

  unfoldable pub provide_liquidity_tier1 : String → Call S Tier1
  unfolding first_result after_balance
  provide_liquidity_tier1 address = head_block >>= λ head.
      batch_read aggregate3 decode_balance (balance_of address ∷ []) >>= λ results.
      answer (first_result results) >>= λ shares. answer (ok (after_balance head shares))

unfoldable pub source_at : String → ℕ → Source
source_at address floor = record {
  source_key = none;
  address = some address;
  contract_address = some address;
  floor = floor;
}

module _ (trim : String → String) (parse_int : String → Option ℕ)
    (env : String → Option String) where
  -- A contract's source, whose address is read first.
  pub source_of : Contract → Try Source
  unfolding source_at
  source_of c = and_then (require_address trim parse_int env c) (λ address.
      and_then (deploy_block trim parse_int env c) (λ floor. ok (source_at address floor)))

  pub first_trade_sources : Try (List Source)
  unfolding source_of
  first_trade_sources = and_then (source_of position_manager) (λ s. ok (s ∷ []))

  pub first_prediction_sources : Try (List Source)
  unfolding source_of
  first_prediction_sources =
      and_then (require_address trim parse_int env prediction_factory) (λ live.
        and_then (require_address trim parse_int env prediction_factory_old) (λ old.
          and_then (deploy_block trim parse_int env prediction_factory) (λ floor.
            and_then (deploy_block trim parse_int env prediction_factory_old)
              (λ old_floor. ok (source_at live floor ∷ source_at old old_floor ∷ [])))))

  pub provide_liquidity_sources : Try (List Source)
  unfolding source_of
  provide_liquidity_sources = and_then (source_of liquidity_pool) (λ s. ok (s ∷ []))

  module _ {S Log : Type 0} (lower : String → String) (driver : Driver S) (now : Ask S ℕ)
      (query : String → Source → ℕ → ℕ → Call S (List Log))
      (verify_floor : Source → Call S Bool) where
    pub scan_limits : ℕ → Limits
    scan_limits head = record {
      head = head;
      chunk_blocks = chunk_blocks;
      max_chunks = max_chunks;
      time_budget_ms = time_budget_ms;
    }

    -- The second tier of a quest with sources: `opts` has the head, the chain and the quest.
    pub scan_sources : Try (List Source) → String → String → ℕ → Call S Scan
    unfolding scan_limits
    scan_sources (throw e) quest address head s = (throw e, s)
    scan_sources (ok sources) quest address head s =
        let (scan, s') =
          scan_with_resume trim lower parse_int driver (scan_limits head) now (query address)
            verify_floor sources
            (record {
              chain_id = number (chain_id trim parse_int env);
              wallet = written address;
              quest = written quest;
            })
            s in
        (ok scan, s')

    pub tier2_of : Try (List Source) → String → String → Tier1 → Call S Scan
    unfolding scan_sources
    tier2_of sources quest address (declined why) = answer (throw "no head")
    tier2_of sources quest address (read completed reliable head through) =
        scan_sources sources quest address head

    unfoldable pub first_trade_tier2 : String → Tier1 → Call S Scan
    unfolding tier2_of first_trade_sources
    first_trade_tier2 = tier2_of first_trade_sources "first_trade"

    unfoldable pub first_prediction_tier2 : String → Tier1 → Call S Scan
    unfolding tier2_of first_prediction_sources
    first_prediction_tier2 = tier2_of first_prediction_sources "first_prediction"

    unfoldable pub provide_liquidity_tier2 : String → Tier1 → Call S Scan
    unfolding tier2_of provide_liquidity_sources
    provide_liquidity_tier2 = tier2_of provide_liquidity_sources "provide_liquidity"
