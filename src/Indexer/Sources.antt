-- ===== src/Indexer/Sources.antt =====
-- quest-indexer/lib/definitions.mjs and sources.mjs: the descriptor of a source, and what the jobs
-- take from them. Logs are those of `eth_getLogs`, with the fields that the jobs read.
use perps_litvm.Base.{ℕ, String, List, Try}

-- A member of SOURCES.
pub record Source : Type 0 where
  pub key : String
  pub label : String
  pub address_var : String
  pub deploy_block_var : String
  pub event : String
  pub event_name : String
  pub wallet_topic : ℕ

pub record Log : Type 0 where
  pub block_number : ℕ
  pub topics : List String

-- A filter for every wallet's events of a source, as `allWalletsFilter` makes it.
pub record AllWalletsFilter : Type 0 where
  pub source : Source
  pub address : String
  pub from_block : ℕ
  pub to_block : ℕ

-- The functions of sources.mjs and QUESTS_BY_SOURCE, with the environment put in.
pub record SourceTable : Type 0 where
  pub source_address : Source → Try String
  pub source_floor : Source → Try ℕ
  pub wallet_from_log : Source → Log → Try String
  pub quests_by_source : String → List String

-- Rows of quest_daily and quest_completion.
pub record DailyRow : Type 0 where
  pub chain_id : ℕ
  pub wallet : String
  pub day : String
  pub first_seen_block : ℕ
  pub first_seen_via : String

pub record CompletionRow : Type 0 where
  pub chain_id : ℕ
  pub wallet : String
  pub quest : String
  pub checked_through_block : ℕ
  pub source : String
