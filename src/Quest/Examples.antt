-- ===== src/Quest/Examples.antt =====
-- frontend/api/_lib/quest/: the theorems on a small chain, whose only log is in block 50.
use perps_litvm.Base.{
  some-injective, ℕ, suc, ◌≤◌, ◌≡◌, ◌≢◌, inl, inr, refl, ap, ◌∙◌, String, Bool, true, false, ◌&&◌,
  Option, none, some, List, [], ◌∷◌, leb, if◌then◌else◌, ok, ok-injective, Ask, Call, All, arith,
  Bool-cases, subst, ◌↔◌,
}
use perps_litvm.Quest.Sources.{Source, source_key_of}
use perps_litvm.Quest.Scan.{CoverageRow, Limits, coverage_proves_absence, by_key}
use perps_litvm.Quest.Scan.Walk.{NoLog, IsTruthful}
use perps_litvm.Quest.Poll.{scan_for_event}
use perps_litvm.Quest.Poll.Absence.{IsAnswer, scan_for_event-IsAnswer}
use perps_litvm.Quest.Freshness.{RawState, StateRow, number, read_rows, read_freshness}
use perps_litvm.Quest.Freshness.Gate.{IsCurrent, read_freshness-IsCurrent}
use perps_litvm.Quest.IndexProof.{BackfillRow, union_covers, resolve}
use perps_litvm.Quest.IndexProof.Union.{Succeeds, IsUnited, union_covers_iff}
use perps_litvm.Quest.IndexProof.Absence.{IsRight, IsIndexed, resolve-IsRight}

abbrev pool : Source
pool = record { source_key = none; address = some "0xab"; contract_address = none; floor = 2 }

abbrev HasLog : Source → ℕ → Type 0
HasLog source b = b ≡ 50

abbrev as_is : String → String
as_is s = s

abbrev tick : Ask ℕ ℕ
tick s = (s, suc s)

abbrev logs_of_fifty : Source → ℕ → ℕ → Call ℕ (List ℕ)
logs_of_fifty source lo hi s = (ok (if leb lo 50 && leb 50 hi then 50 ∷ [] else []), s)

abbrev under_fifty : Source → Call ℕ Bool
under_fifty source s = (ok (leb source.floor 50), s)

logs_of_fifty-IsTruthful : IsTruthful HasLog logs_of_fifty
logs_of_fifty-IsTruthful source lo hi s up h = elim (Bool-cases (leb lo 50 && leb 50 hi)) [
  | inl e ↦ rw e (50, refl)
  | inr e ↦ rw e (λ b p q same. ground arith)
]

under_fifty-NoLog :
    (src : Source) (s : ℕ) → (under_fifty src s).0 ≡ ok true → NoLog HasLog src 0 src.floor
under_fifty-NoLog src s h b p q same =
    let low : leb src.floor 50 ≡ true = ok-injective h in ground arith

abbrev forty : Limits
forty = record { head = 40; chunk_blocks = 10; max_chunks = 12; time_budget_ms = 1000 }

abbrev swept_to_twelve : String → Option CoverageRow
swept_to_twelve key = some (record {
  source_key = "0xab";
  floor_block = 2;
  scanned_from = 30;
  scanned_to = 12;
  dirty = false;
})

abbrev from_of : Option CoverageRow → ℕ
from_of none = 0
from_of (some row) = row.scanned_from

-- Block 31 to 40, and then 2 to 11: complete, and nothing found.
scan_for_event_negative :
    let r =
      (scan_for_event as_is forty tick logs_of_fifty under_fifty (pool ∷ []) swept_to_twelve 0).0 in
    (r.found ≡ false) × (r.complete ≡ true) × (r.chunks_used ≡ 2)
unfolding scan_for_event coverage_proves_absence by_key source_key_of
scan_for_event_negative = (refl, refl, refl)

scan_for_event-IsAnswer_example :
    IsAnswer HasLog as_is 40
      (pool ∷ [])
      (scan_for_event as_is forty tick logs_of_fifty under_fifty (pool ∷ []) swept_to_twelve 0).0
scan_for_event-IsAnswer_example =
    scan_for_event-IsAnswer as_is forty tick logs_of_fifty under_fifty HasLog
      logs_of_fifty-IsTruthful under_fifty-NoLog (omega arith) (pool ∷ [])
      (((λ e lo hi h. h), tt), tt) swept_to_twelve 0
      (
        (λ row e f b p q same.
            let top : 30 ≡ row.scanned_from = ap (λ (o : Option CoverageRow). from_of o) e in
            omega arith),
        tt,
      )

abbrev stored_state : RawState
stored_state = record {
  source_key = some "0xab";
  last_block = some 40;
  updated_at = some 1000;
  completion_from = number 31;
}

abbrev load_state : List String → Call ℕ (Option (List RawState))
load_state keys s = (ok (some (stored_state ∷ [])), s)

stored-All :
    (P : StateRow → Type 0) (raws : List RawState)
    → All P (read_rows as_is (λ t. none) (stored_state ∷ []))
    → (load_state ("0xab" ∷ []) 0).0 ≡ ok (some raws)
    → All P (read_rows as_is (λ t. none) raws)
stored-All P raws h e =
    let same : stored_state ∷ [] ≡ raws = cc e in
    subst (λ list. All P (read_rows as_is (λ t. none) list)) same h

read_freshness-IsCurrent_example :
    IsCurrent as_is
      (λ t. none)
      load_state
      tick
      300
      10
      45
      (λ row. row.last_block ≡ 40)
      ("0xab" ∷ [])
      (read_freshness as_is (λ t. none) load_state tick 300 10 45 ("0xab" ∷ []) 1100).0
read_freshness-IsCurrent_example =
    read_freshness-IsCurrent as_is (λ t. none) load_state tick 300 10 45
      (λ row. row.last_block ≡ 40) ("0xab" ∷ []) 1100
      (λ raws e. stored-All (λ row. row.last_block ≡ 40) raws (unfold read_rows in (refl, tt)) e)

abbrev backfill_row : BackfillRow
backfill_row = record { floor_block = some 2; covered_from = some 30; covered_to = some 2 }

abbrev backfill_of : String → Option BackfillRow
backfill_of key = some backfill_row

abbrev state_of : String → Option StateRow
state_of key =
    some (record {
      source_key = "0xab";
      last_block = 40;
      updated_at = 1000;
      completion_from = some 31;
    })

union_covers_iff_example :
    Succeeds (union_covers as_is backfill_of state_of (pool ∷ []))
    ↔ ((pool ∷ [] ≢ []) × All (IsUnited as_is backfill_of state_of) (pool ∷ []))
union_covers_iff_example = union_covers_iff as_is backfill_of state_of (pool ∷ [])

backfill_short :
    (c : String → Option BackfillRow)
    → backfill_of ≡ c
    → (cov : BackfillRow) (from : ℕ) → c (source_key_of as_is pool) ≡ some cov
    → cov.covered_from ≡ some from
    → (b : ℕ) → b ≤ from
    → b ≢ 50
backfill_short c same cov from at_cov hf b le e =
    let known : backfill_row ≡ cov =
      some-injective
        (ap (λ (f : String → Option BackfillRow). f (source_key_of as_is pool)) same ∙ at_cov) in
    let top : 30 ≡ from = some-injective (ap (λ (r : BackfillRow). r.covered_from) known ∙ hf) in
    omega arith

resolve-IsRight_example :
    IsRight HasLog ⊥ as_is
      (pool ∷ [])
      (resolve as_is
        (λ t. none)
        (λ s. (ok none, s))
        (λ keys s. (ok backfill_of, s))
        (read_freshness as_is (λ t. none) load_state tick 300 10 45)
        under_fifty
        (pool ∷ [])
        1100).0
resolve-IsRight_example =
    resolve-IsRight as_is (λ t. none) (λ s. (ok none, s)) (λ keys s. (ok backfill_of, s)) load_state
      tick 300 10 45 under_fifty HasLog ⊥ (pool ∷ []) 1100 under_fifty-NoLog (λ row s e. cc e)
      (λ s e absurdity. absurdity)
      (λ keys s c e. (
        (λ cov from to at_cov hf ht b p q same.
            backfill_short c (cc e) cov from at_cov hf b q same),
        tt,
      ))
      (λ keys s raws e.
        stored-All (IsIndexed HasLog ⊥ as_is (pool ∷ [])) raws
          (unfold read_rows in (((λ start k hs b p q same. omega arith), tt), tt)) e)
