-- ===== src/Quest/Quests.antt =====
-- frontend/api/_lib/quest/quests.js: what a quest and a verdict are, and the lookup of a quest.
-- A result of the first tier either was read, with the head and, for `daily_active`, the block that
-- the index has reached, or declines with its own reason and no block.
use text.Mathlib.Text.{◌==◌}
use perps_litvm.Base.{
  ℕ, String, Bool, true, Option, none, some, List, [], ◌∷◌, if◌then◌else◌, Try, Call,
}
use perps_litvm.Quest.Sources.{Source}
use perps_litvm.Quest.Poll.{Scan}
use perps_litvm.Quest.Scan.{CoverageRow}
use perps_litvm.Quest.IndexProof.{Join}

pub data Status : Type 0 where
  confirmed indeterminate unavailable : Status

pub data Origin : Type 0 where
  tier1 tier2 cache composed index : Origin

pub data Kind : Type 0 where
  one_time daily composite : Kind

-- A verdict; coverage and joins that the source leaves out are empty here.
pub record Verdict : Type 0 where
  pub completed : Bool
  pub status : Status
  pub source : Option Origin
  pub checked_through : Option ℕ
  pub reason : Option String
  pub coverage : List CoverageRow
  pub joins : List Join

pub data Tier1 : Type 0 where
  read : Bool → Bool → ℕ → Option ℕ → Tier1
  declined : String → Tier1

pub record Quest (S : Type 0) : Type 0 where
  pub id : String
  pub kind : Kind
  pub available : Bool
  pub unavailable_reason : Option String
  pub parts : List String
  pub tier1 : Option (String → Call S Tier1)
  pub tier2 : Option (String → Tier1 → Call S Scan)
  pub index_sources : Option (Try (List Source))

-- `getQuest`
unfoldable pub get_quest : {S : Type 0} → List (Quest S) → String → Option (Quest S)
get_quest [] id = none
get_quest (quest ∷ quests) id =
    let rest = get_quest quests id in if quest.id == id then some quest else rest

-- The functions of checks.js, as the registry takes them.
pub record Checks (S : Type 0) : Type 0 where
  pub first_trade_tier1 : String → Call S Tier1
  pub first_trade_tier2 : String → Tier1 → Call S Scan
  pub first_trade_sources : Try (List Source)
  pub first_prediction_tier1 : String → Call S Tier1
  pub first_prediction_tier2 : String → Tier1 → Call S Scan
  pub first_prediction_sources : Try (List Source)
  pub provide_liquidity_tier1 : String → Call S Tier1
  pub provide_liquidity_tier2 : String → Tier1 → Call S Scan
  pub daily_active_tier1 : String → Call S Tier1
  pub daily_active_tier2 : String → Tier1 → Call S Scan

-- A quest with tiers of its own.
unfoldable pub checked :
    {S : Type 0}
    → String
    → Kind
    → (String → Call S Tier1)
    → (String → Tier1 → Call S Scan)
    → Option (Try (List Source))
    → Quest S
checked id kind tier1_of tier2_of sources = record {
  id = id;
  kind = kind;
  available = true;
  unavailable_reason = none;
  parts = [];
  tier1 = some tier1_of;
  tier2 = some tier2_of;
  index_sources = sources;
}

-- `QUESTS`
unfoldable pub all_quests : {S : Type 0} → Checks S → List (Quest S)
unfolding checked
all_quests c =
    checked "first_trade" one_time c.first_trade_tier1 c.first_trade_tier2
      (some c.first_trade_sources)
    ∷ checked "first_prediction" one_time c.first_prediction_tier1 c.first_prediction_tier2
        (some c.first_prediction_sources)
    ∷ checked "provide_liquidity" one_time c.provide_liquidity_tier1 c.provide_liquidity_tier2 none
    ∷ record {
      id = "both_products";
      kind = composite;
      available = true;
      unavailable_reason = none;
      parts = "first_trade" ∷ "first_prediction" ∷ [];
      tier1 = none;
      tier2 = none;
      index_sources = none;
    }
    ∷ checked "daily_active" daily c.daily_active_tier1 c.daily_active_tier2 none
    ∷ []
