-- ===== src/Quest/Verify/Examples.antt =====
-- frontend/api/quest/verify.js on a small registry: a wallet that has traded and done nothing else.
use text.Mathlib.Text.{◌==◌}
use perps_litvm.Base.{
  ℕ, ◌+◌, ◌≡◌, ◌↔◌, inl, inr, refl, subst, String, Bool, true, false, none, some, [], ◌∷◌, ok, Call,
  All, Gives, some-injective, Bool-cases,
}
use perps_litvm.Quest.Poll.{Scan}
use perps_litvm.Quest.Quests.{
  composite, composed, Tier1, read, Quest, get_quest, Checks, all_quests,
}
use perps_litvm.Quest.Cache.{null_cache_driver, cache_key, cache_get, is_confirmed, cache_set}
use perps_litvm.Quest.Verify.{Services, bucket_of, resolve_quest, settled}
use perps_litvm.Quest.Verify.Truth.{IsTrue, ScanIsTrue, PositiveIsTrue}
use perps_litvm.Quest.Verify.Tiers.{Sound}
use perps_litvm.Quest.Verify.Resolve.{resolve_quest-IsTrue}
use perps_litvm.Quest.Verify.Depth.{get_quest-All, resolve_quest-Ends}

abbrev did : String → Bool
did id = id == "first_trade"

-- The world counts the calls.
abbrev open_nothing : String → Call ℕ Tier1
open_nothing address n = (ok (read false true 10 none), n + 1)

abbrev history : Bool → Scan
history hit = record {
  found = hit;
  complete = true;
  exhausted = false;
  chunks_used = 1;
  scanned_from = 10;
  scanned_down_to = some 0;
  coverage = [];
  reason = none;
}

abbrev walk_of : Bool → String → Tier1 → Call ℕ Scan
walk_of hit address r n = (ok (history hit), n + 1)

abbrev checks : Checks ℕ
checks = record {
  first_trade_tier1 = open_nothing;
  first_trade_tier2 = walk_of true;
  first_trade_sources = ok [];
  first_prediction_tier1 = open_nothing;
  first_prediction_tier2 = walk_of false;
  first_prediction_sources = ok [];
  provide_liquidity_tier1 = open_nothing;
  provide_liquidity_tier2 = walk_of false;
  daily_active_tier1 = open_nothing;
  daily_active_tier2 = walk_of false;
}

abbrev as_text : String → String
as_text t = t

abbrev services : Services ℕ
services = record {
  chain_text = "97";
  today = λ n. ("2026-01-01", n);
  cache_driver = null_cache_driver;
  index_proof = none;
  quests = all_quests checks;
}

abbrev both : Quest ℕ
both = record {
  id = "both_products";
  kind = composite;
  available = true;
  unavailable_reason = none;
  parts = "first_trade" ∷ "first_prediction" ∷ [];
  tier1 = none;
  tier2 = none;
  index_sources = none;
}

-- The wallet has traded but not predicted: four calls, and a composite that is missing.
both_run :
    resolve_quest as_text services 2 both "0xa" 0 ≡ (ok (settled false composed (some 10)), 4)
unfolding all_quests get_quest null_cache_driver resolve_quest settled cache_get is_confirmed
    cache_set
both_run = refl

both_listed : get_quest (all_quests checks) "both_products" ≡ some both
unfolding all_quests get_quest
both_listed = refl

resolve_quest-Ends_example :
    resolve_quest as_text services 7 both "0xa" 0 ≡ resolve_quest as_text services 2 both "0xa" 0
resolve_quest-Ends_example =
    resolve_quest-Ends as_text services "0xa" checks 5 both 0 refl both_listed

abbrev DidIt : String → Type 0
DidIt id = did id ≡ true

abbrev Missing : String → ℕ → Type 0
Missing id b = did id ≡ false

abbrev KeyDone : String → Type 0
KeyDone key = (key == "97:first_trade:0xa") ≡ true

abbrev Anything : String → Tier1 → Type 0
Anything id r = Unit

abbrev Always : ℕ → Type 0
Always n = Unit

abbrev IsIdle : Quest ℕ → Type 0
IsIdle q = (check : String → Call ℕ Tier1) → q.tier1 ≡ some check → open_nothing ≡ check

abbrev HasWalk : Quest ℕ → Type 0
HasWalk q = (scan : String → Tier1 → Call ℕ Scan) → q.tier2 ≡ some scan → walk_of (did q.id) ≡ scan

abbrev HasKey : Quest ℕ → Type 0
HasKey q =
    (n : ℕ)
    → KeyDone (cache_key as_text "97" q.id "0xa" (bucket_of as_text services q.kind n).0)
      ↔ DidIt q.id

abbrev HasParts : Quest ℕ → Type 0
HasParts q =
    q.kind ≡ composite
    → (All DidIt q.parts → DidIt q.id) × All (λ i. (b : ℕ) → Missing i b → Missing q.id b) q.parts

idle : All IsIdle (all_quests checks)
unfolding all_quests
idle = ((λ c e. cc), ((λ c e. cc), ((λ c e. cc), ((λ c e. cc), ((λ c e. cc), tt)))))

walks : All HasWalk (all_quests checks)
unfolding all_quests
walks = (
  (λ c e. some-injective e),
  (
    (λ c e. some-injective e),
    ((λ c e. some-injective e), ((λ c e. cc), ((λ c e. some-injective e), tt))),
  ),
)

keys : All HasKey (all_quests checks)
unfolding all_quests bucket_of cache_key
keys = (
  (λ n. ((λ h. h), (λ h. h))),
  (
    (λ n. ((λ h. h), (λ h. h))),
    ((λ n. ((λ h. h), (λ h. h))), ((λ n. ((λ h. h), (λ h. h))), ((λ n. ((λ h. h), (λ h. h))), tt))),
  ),
)

parted : All HasParts (all_quests checks)
unfolding all_quests
parted = (
  (λ e. cc),
  (
    (λ e. cc),
    ((λ e. cc), ((λ e. ((λ h. h.1.0), ((λ b h. refl), ((λ b h. refl), tt)))), ((λ e. cc), tt))),
  ),
)

walk_true : (id : String) (head : ℕ) → ScanIsTrue DidIt Missing id head (history (did id))
walk_true id head = elim (Bool-cases (did id)) [
  | inl done ↦ (inr done, inl done)
  | inr undone ↦ (inl undone, inr (inr undone))
]

sound : Sound as_text services "0xa" DidIt Missing KeyDone Anything Always
unfolding null_cache_driver
sound = record {
  today_keeps = λ s i. tt;
  hit_true = λ key s i. ((λ v e. cc), tt);
  set_keeps = λ key v s i k done. tt;
  means = λ quest s known i. get_quest-All HasKey services.quests quest.id quest keys known s;
  tier1_true = λ quest check s known e i.
      subst
        (λ c.
          Gives (λ r. Anything quest.id r × PositiveIsTrue DidIt Missing quest.id r) Always
            (c "0xa" s))
        (get_quest-All IsIdle services.quests quest.id quest idle known check e) ((tt, tt), tt);
  index_true = λ quest sources proof head s known e f i. cc;
  tier2_true = λ quest scan head through s known e w i.
      subst
        (λ c.
          Gives (ScanIsTrue DidIt Missing quest.id head) Always
            (c "0xa" (read false true head through) s))
        (get_quest-All HasWalk services.quests quest.id quest walks known scan e)
        (walk_true quest.id head, tt);
  parts_done =
      λ quest known k. get_quest-All HasParts services.quests quest.id quest parted known k;
  below = λ i b c h le. h;
}

resolve_quest-IsTrue_example :
    Gives
      (IsTrue DidIt Missing "both_products")
      Always
      (resolve_quest as_text services 2 both "0xa" 0)
resolve_quest-IsTrue_example =
    resolve_quest-IsTrue as_text services "0xa" DidIt Missing KeyDone Anything Always sound 2 both 0
      both_listed tt
