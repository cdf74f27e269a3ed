-- ===== src/Indexer/Backfill/Plan.antt =====
-- quest-indexer/lib/backfill.mjs, `planBackfill`: what a plan says of its sources, and its order.
use mathlib.Core.List.Perm
use mathlib.Core.List.{Perm}
use perps_litvm.Base.{
  ℕ, ◌+◌, ◌≤◌, ◌<◌, ◌≡◌, ◌⊎◌, inl, refl, String, Option, none, some, List, [], ◌∷◌, arith, All,
}
use perps_litvm.Indexer.Sources.{Source}
use perps_litvm.Indexer.Backfill.{
  BackfillRow, fresh, floor_changed, resume, complete, PlanItem, is_usable, plan_item,
}

-- The coverage of a row is that of a source with this floor and above it.
abbrev IsTrusted : ℕ → BackfillRow → Type 0
IsTrusted floor row = (row.floor_block ≡ floor) × (floor ≤ row.covered_to)

-- What a plan item may say: a pass from the head, when no coverage can be trusted; nothing left,
-- when trusted coverage is at the floor; or to go on at the block right below trusted coverage.
abbrev pub FitsCoverage : ℕ → ℕ → Option BackfillRow → PlanItem → Type 0
FitsCoverage floor head prior item =
    (item.floor ≡ floor)
    × (((prior ≡ none) × (item.state ≡ fresh) × (item.from ≡ head))
        ⊎ ((row : BackfillRow) × (prior ≡ some row)
            × ((¬ IsTrusted floor row × (item.state ≡ floor_changed) × (item.from ≡ head))
                ⊎ (IsTrusted floor row × (row.covered_to ≡ floor) × (item.state ≡ complete))
                ⊎ (IsTrusted floor row
                    × (floor < row.covered_to)
                    × (item.state ≡ resume)
                    × (item.from + 1 ≡ row.covered_to)))))

-- For every stored coverage the item of a source is of the kind that the coverage calls for, and a
-- pass that goes on starts at the block right below what is covered.
pub plan_item-FitsCoverage :
    (source : Source) (address : String) (floor head : ℕ) (prior : Option BackfillRow)
    → FitsCoverage floor head prior (plan_item source address floor head prior)
unfolding plan_item is_usable
plan_item-FitsCoverage source address floor head none = (refl, inl (refl, refl, refl))
plan_item-FitsCoverage source address floor head (some row) = ground arith

-- What is left of the first is at most what is left of the second, each from its floor up.
abbrev pub IsNoLonger : PlanItem → PlanItem → Type 0
IsNoLonger a b = a.above + b.floor ≤ b.above + a.floor

abbrev pub IsSorted : List PlanItem → Type 0
IsSorted [] = Unit
IsSorted (item ∷ items) = All (IsNoLonger item) items × IsSorted items
