-- ===== src/Indexer/SettlerPlan.antt =====
-- quest-indexer/lib/settler.mjs, `planWork`, and SETTLEABLE_QUESTS of lib/definitions.mjs.
-- The counts of skipped rows are only logged, and left out. A group's key `wallet:quest` is the
-- pair, since no settleable quest's name has a colon. `lower` is JavaScript's `toLowerCase`.
pub mod Pending
use text.Mathlib.Text.{◌==◌}
use perps_litvm.Base.{
  ℕ, ◌+◌, ◌-◌, String, Bool, true, false, not, ◌&&◌, Option, none, some, List, [], ◌∷◌, ◌++◌, leb,
  if◌then◌else◌, any, Try, ok, throw, and_then,
}
use perps_litvm.Base.{◌==◌ as num_eq}
use perps_litvm.Indexer.Sources.{Source, SourceTable}

-- A row of quest_cursor.
pub record CursorRow : Type 0 where
  pub wallet : String
  pub quest : String
  pub source_key : String
  pub floor_block : ℕ
  pub scanned_from : ℕ
  pub scanned_to : ℕ

-- SETTLEABLE_QUESTS: the keys of the sources that prove a quest. A row whose quest is named like a
-- property of every JavaScript object is taken for an unknown one.
pub settleable_quests : String → Option (List String)
settleable_quests quest =
    if quest == "first_trade"
    then some ("positionManager" ∷ [])
    else (if quest == "first_prediction"
        then some ("predictionFactory" ∷ "predictionFactoryOld" ∷ [])
        else (if quest == "provide_liquidity" then some ("liquidityPool" ∷ []) else none))

pub includes : List String → String → Bool
includes keys key = any (λ k. k == key) keys

-- The rows of one wallet and quest that are to be walked.
pub record Group : Type 0 where
  pub wallet : String
  pub quest : String
  pub sources : List (CursorRow × Source)
  pub remaining : ℕ

-- What a row comes to.
pub data Triage : Type 0 where
  unknown stale_floor settled : Triage
  pending : Source → Triage

pub is_group : CursorRow → Group → Bool
is_group row g = g.wallet == row.wallet && g.quest == row.quest

pub extend_group : CursorRow → Source → Group → Group
extend_group row source g = record g {
  sources = g.sources ++ (row, source) ∷ [];
  remaining = g.remaining + (row.scanned_to - row.floor_block);
}

-- `groups.get(key)`, made at the end of the map if it is missing.
pub add_row : CursorRow → Source → List Group → List Group
unfolding is_group extend_group
add_row row source [] =
    extend_group row source
      (record { wallet = row.wallet; quest = row.quest; sources = []; remaining = 0 })
    ∷ []
add_row row source (g ∷ groups) =
    let rest = add_row row source groups in
    if is_group row g then extend_group row source g ∷ groups else g ∷ rest

-- `sort((a, b) => a.remaining - b.remaining)`, which is stable.
pub insert_group : Group → List Group → List Group
insert_group g [] = g ∷ []
insert_group g (h ∷ groups) =
    let rest = insert_group g groups in
    if leb g.remaining h.remaining then g ∷ h ∷ groups else h ∷ rest

pub sort_groups : List Group → List Group
unfolding insert_group
sort_groups [] = []
sort_groups (g ∷ groups) = insert_group g (sort_groups groups)

module _ (sources : List Source) (table : SourceTable) (lower : String → String) where
  -- A source whose address cannot be read is no match.
  pub is_at : String → Source → Bool
  is_at key source = elim (table.source_address source) [
    | ok address ↦ address == lower key
    | throw _ ↦ false
  ]

  pub find_source : String → List Source → Option Source
  unfolding is_at
  find_source key [] = none
  find_source key (source ∷ rest) =
      let later = find_source key rest in if is_at key source then some source else later

  pub triage_source : CursorRow → List String → Option Source → Try Triage
  unfolding includes
  triage_source row quest none = ok unknown
  triage_source row quest (some source) =
      if not (includes quest source.key)
      then ok unknown
      else and_then (table.source_floor source) λ floor. ok (
          if not (num_eq row.floor_block floor)
          then stale_floor
          else (if leb row.scanned_to row.floor_block then settled else pending source))

  pub triage : CursorRow → Try Triage
  unfolding settleable_quests find_source triage_source
  triage row = elim (settleable_quests row.quest) [
    | none ↦ ok unknown
    | some quest ↦ triage_source row quest (find_source row.source_key sources)
  ]

  pub add_triaged : CursorRow → Triage → List Group → List Group
  unfolding add_row
  add_triaged row (pending source) groups = add_row row source groups
  add_triaged row _ groups = groups

  pub plan_loop : List CursorRow → List Group → Try (List Group)
  unfolding triage add_triaged
  plan_loop [] groups = ok groups
  plan_loop (row ∷ rows) groups =
      and_then (triage row) λ t. plan_loop rows (add_triaged row t groups)

  unfoldable pub plan_work : List CursorRow → Try (List Group)
  unfolding plan_loop sort_groups
  plan_work rows = and_then (plan_loop rows []) λ groups. ok (sort_groups groups)
