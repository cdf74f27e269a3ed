-- ===== src/Quest/Chain.antt =====
-- frontend/api/_lib/quest/chain.js: the settings of the contracts, and a batch of reads.
-- `env` is `process.env`, and `parse_int` is `Number.parseInt` where that is a natural number. An
-- error's text is shortened to what tells it from the others.
use text.Mathlib.Text.{◌==◌}
use perps_litvm.Base.{
  ℕ, String, Bool, false, ◌&&◌, ◌||◌, Option, none, some, List, [], ◌∷◌, leb, ltb, if◌then◌else◌,
  length, all, map, Try, ok, throw, Call, ◌>>=◌, answer, codes,
}
use perps_litvm.Base.{◌==◌ as num_eq}

-- ADDRESS_RE, /^0x[0-9a-fA-F]{40}$/
pub is_hex_digit : ℕ → Bool
is_hex_digit c = (leb 48 c && leb c 57) || ((leb 97 c && leb c 102) || (leb 65 c && leb c 70))

unfoldable pub is_address_codes : List ℕ → Bool
unfolding is_hex_digit
is_address_codes (z ∷ x ∷ digits) =
    num_eq z 48 && (num_eq x 120 && (num_eq (length digits) 40 && all is_hex_digit digits))
is_address_codes (z ∷ []) = false
is_address_codes [] = false

-- The contracts that have an address and a deploy block in the settings.
pub data Contract : Type 0 where
  position_manager liquidity_pool prediction_factory prediction_factory_old : Contract

-- DEFAULT_DEPLOY_BLOCKS
pub default_floor : Contract → ℕ
default_floor position_manager = 23302630
default_floor liquidity_pool = 23302630
default_floor prediction_factory = 32222320
default_floor prediction_factory_old = 30665562

pub floor_setting : Contract → String
floor_setting position_manager = "QUEST_POSITION_MANAGER_DEPLOY_BLOCK"
floor_setting liquidity_pool = "QUEST_LIQUIDITY_POOL_DEPLOY_BLOCK"
floor_setting prediction_factory = "QUEST_PREDICTION_FACTORY_DEPLOY_BLOCK"
floor_setting prediction_factory_old = "QUEST_PREDICTION_FACTORY_OLD_DEPLOY_BLOCK"

pub address_setting : Contract → String
address_setting position_manager = "QUEST_POSITION_MANAGER_ADDRESS"
address_setting liquidity_pool = "QUEST_LIQUIDITY_POOL_ADDRESS"
address_setting prediction_factory = "QUEST_PREDICTION_FACTORY_ADDRESS"
address_setting prediction_factory_old = "QUEST_PREDICTION_FACTORY_OLD_ADDRESS"

-- `process.env[name] || ""`
pub or_empty : Option String → String
or_empty none = ""
or_empty (some t) = t

module _ (trim : String → String) (parse_int : String → Option ℕ)
    (env : String → Option String) where
  unfoldable pub require_address : Contract → Try String
  unfolding is_address_codes address_setting or_empty
  require_address var =
      let raw = trim (or_empty (env (address_setting var))) in
      if raw == ""
      then throw "ConfigError: not set"
      else (if is_address_codes (codes raw)
          then ok raw
          else throw "ConfigError: not a valid address")

  -- A setting that is there and no number.
  pub unread_floor : Option String → ℕ → Try ℕ
  unread_floor none default = ok default
  unread_floor (some raw) default =
      if trim raw == "" then ok default else throw "ConfigError: not a block number"

  unfoldable pub deploy_block : Contract → Try ℕ
  unfolding unread_floor default_floor floor_setting or_empty
  deploy_block var =
      let raw = env (floor_setting var) in
      elim (parse_int (or_empty raw)) [
        | some n ↦ ok n
        | none ↦ unread_floor raw (default_floor var)
      ]

  unfoldable pub chain_id : ℕ
  unfolding or_empty
  chain_id = elim (parse_int (or_empty (env "QUEST_CHAIN_ID"))) [
    | none ↦ 4441
    | some n ↦ if ltb 0 n then n else 4441
  ]

-- A call of a contract's function, of which a batch has several.
pub data ReadCall : Type 0 where
  positions : String → ReadCall
  market_count : ReadCall
  stake_of : ℕ → String → ReadCall
  balance_of : String → ReadCall

-- The outcome of a call of a batch; nothing where it failed or its answer does not decode.
unfoldable pub read_of : {A Data : Type 0} → (Data → Option A) → Bool × Data → Option A
read_of decode (success, data_) = if success then decode data_ else none

module _ {S Data : Type 0} (aggregate3 : List ReadCall → Call S (List (Bool × Data))) where
  -- `batchRead`; `aggregate3` is the contract's under `withRetry`, and `decode` is
  -- `decodeFunctionResult`, which gives nothing where it throws.
  unfoldable pub batch_read :
      {A : Type 0} → (Data → Option A) → List ReadCall → Call S (List (Option A))
  unfolding read_of
  batch_read decode [] = answer (ok [])
  batch_read decode (call ∷ calls) =
      aggregate3 (call ∷ calls) >>= λ results. answer (ok (map (read_of decode) results))
