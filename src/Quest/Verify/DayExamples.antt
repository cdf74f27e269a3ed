-- ===== src/Quest/Verify/DayExamples.antt =====
-- frontend/api/quest/verify.js: a wallet whose only log is in the tail that the index has not reached.
use perps_litvm.Base.{
  ℕ, ◌≤◌, ◌≡◌, inl, inr, refl, subst, String, Bool, true, false, ◌&&◌, Option, none, some, List, [],
  ◌∷◌, leb, if◌then◌else◌, ok, throw, Ask, Call, answer, All, arith, Bool-cases,
}
use perps_litvm.Quest.Sources.{Source}
use perps_litvm.Quest.Scan.Walk.{Answers, IsTruthful}
use perps_litvm.Quest.Poll.{scan_for_event}
use perps_litvm.Quest.Freshness.{RawState, null, read_rows, read_freshness}
use perps_litvm.Quest.Quests.{Verdict, Quest, checked, tier2}
use perps_litvm.Quest.Cache.{null_cache_driver}
use perps_litvm.Quest.Daily.{
  daily_addresses, within_day_boundary_grace, daily_active_tier1, daily_active_tier2,
}
use perps_litvm.Quest.Verify.{Services, verify_quest, settled}
use perps_litvm.Quest.Verify.Day.{daily_quest, IsRight, daily_active-IsRight}

abbrev contract : String
contract = "0x00000000000000000000000000000000000000aA"

abbrev same : String → String
same t = t

abbrev no_number : String → Option ℕ
no_number t = none

abbrev settings : String → Option String
settings name = some contract

abbrev contracts : List String
contracts = contract ∷ contract ∷ contract ∷ contract ∷ []

-- The world is the time.
abbrev time_now : Ask ℕ ℕ
time_now t = (t, t)

abbrev head_at : Call ℕ ℕ
head_at t = (ok 45, t)

abbrev one_day : ℕ → String
one_day t = "2026-01-01"

abbrev stored : RawState
stored = record {
  source_key = some contract;
  last_block = some 40;
  updated_at = some 900;
  completion_from = null;
}

abbrev load_stored : List String → Call ℕ (Option (List RawState))
load_stored keys t = (ok (some (stored ∷ [])), t)

abbrev no_row : String → String → Call ℕ Bool
no_row wallet day t = (ok false, t)

abbrev logs_at : Option String → ℕ → ℕ → List ℕ
logs_at none lo hi = []
logs_at (some a) lo hi = if leb lo 43 && leb 43 hi then 1 ∷ [] else []

abbrev query_tail : String → Source → ℕ → ℕ → Call ℕ (List ℕ)
query_tail wallet src lo hi t = (ok (logs_at src.address lo hi), t)

abbrev ActAt : String → ℕ → Type 0
ActAt a b = b ≡ 43

abbrev ThatDay : ℕ → Type 0
ThatDay b = Unit

abbrev UpToForty : String → ℕ → Type 0
UpToForty key n = n ≤ 40

abbrev TailAct : Source → ℕ → Type 0
TailAct src b = (a : String) × (src.address ≡ some a) × ActAt a b × (src.floor ≤ b)

abbrev day_services : Services ℕ
day_services = record {
  chain_text = "4441";
  today = λ t. ("2026-01-01", t);
  cache_driver = null_cache_driver;
  index_proof = none;
  quests = [];
}

abbrev no_part : Quest ℕ → Call ℕ Verdict
no_part part = answer (throw "no part")

configured : daily_addresses same same no_number settings ≡ ok contracts
unfolding daily_addresses
configured = refl

stored_true :
    (keys : List String) (s : ℕ) (raws : List RawState)
    → (load_stored keys s).0 ≡ ok (some raws)
    → All (λ row. UpToForty row.source_key row.last_block) (read_rows (λ t. t) no_number raws)
stored_true keys s raws e =
    let same_rows : stored ∷ [] ≡ raws = cc e in
    subst
      (λ list.
        All (λ row. UpToForty row.source_key row.last_block) (read_rows (λ t. t) no_number list))
      same_rows (unfold read_rows in (omega arith, tt))

truthful : IsTruthful TailAct (query_tail "0xb")
truthful source lo hi s up h = go source.address refl
  where
    go :
        (a : Option String)
        → source.address ≡ a
        → Answers TailAct source lo hi (ok (logs_at a lo hi))
    go none e = λ b p q (x, here, act, over). cc (e, here)
    go (some a) e = elim (Bool-cases (leb lo 43 && leb 43 hi)) [
      | inl hit ↦ rw hit (43, (a, e, refl, ground arith))
      | inr miss ↦ rw miss (λ b p q (x, here, act, over). ground arith)
    ]

-- The tail scan finds the log of block 43.
tail_run :
    verify_quest same day_services no_part
      (daily_quest same same no_number settings head_at time_now one_day load_stored no_number
        no_row 300 10 500 query_tail "0xb" "2026-01-01" ActAt ThatDay UpToForty contracts)
      "0xb"
      1000
    ≡ (ok (settled true tier2 (some 45)), 1000)
unfolding verify_quest settled checked daily_active_tier1 within_day_boundary_grace read_freshness
    daily_active_tier2 scan_for_event
tail_run = refl

daily_active-IsRight_example :
    IsRight same same no_number settings head_at time_now one_day load_stored no_number no_row 300
      10 500 query_tail "0xb" "2026-01-01" ActAt ThatDay UpToForty contracts
      (verify_quest same day_services no_part
        (daily_quest same same no_number settings head_at time_now one_day load_stored no_number
          no_row 300 10 500 query_tail "0xb" "2026-01-01" ActAt ThatDay UpToForty contracts)
        "0xb"
        1000).0
daily_active-IsRight_example =
    daily_active-IsRight same same no_number settings head_at time_now one_day load_stored no_number
      no_row 300 10 500 query_tail "0xb" "2026-01-01" ActAt ThatDay UpToForty contracts configured
      (λ s. refl) stored_true (λ s e. cc) (λ a n s h e b p d act. absurd (omega arith)) truthful
      (omega arith) (λ a a' e b act. act) day_services no_part 1000
