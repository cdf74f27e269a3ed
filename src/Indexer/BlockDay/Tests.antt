-- ===== src/Indexer/BlockDay/Tests.antt =====
-- quest-indexer/lib/blockDay.mjs on a range over midnight.
use perps_litvm.Base.{
  ℕ, zero, suc, ◌+◌, ◌*◌, ◌≤◌, ◌≡◌, ◌⊎◌, inl, inr, refl, Option, some, List, [], ◌∷◌, Call, ok,
  arith, ok-injective, some-injective, sym,
}
use perps_litvm.Indexer.BlockDay.{day_from_timestamp, resolve_days}
use perps_litvm.Indexer.BlockDay.Dating.{day_at, Ends}
use perps_litvm.Indexer.BlockDay.Days.{HasDays, resolve_days-Ends}

-- A block every fifty seconds from shortly before midnight; the world counts the reads.
abbrev time_at : ℕ → ℕ
time_at b = 86300 + 50 * b

abbrev header : ℕ → Call ℕ (Option ℕ)
header b s = (ok (some (time_at b)), suc s)

abbrev few_logs : List (Option ℕ)
few_logs = some 3 ∷ some 1 ∷ some 3 ∷ some 4 ∷ []

-- Both ends and a bisection of two more reads.
bisected :
    (resolve_days header (some 0) few_logs 0 4 ([], 0)).0 ≡ ok ((1, 0) ∷ (3, 1) ∷ (4, 1) ∷ [])
unfolding resolve_days
bisected = refl

-- A range over two midnights: the block of the middle day gets the first day.
abbrev daily_header : ℕ → Call ℕ (Option ℕ)
daily_header b s = (ok (some (86400 * b)), suc s)

three_days : (resolve_days daily_header (some 0) (some 1 ∷ []) 0 2 ([], 0)).0 ≡ ok ((1, 0) ∷ [])
unfolding resolve_days
three_days = refl

two_days :
    (b : ℕ)
    → 0 ≤ b
    → b ≤ 4
    → (day_at header time_at b ≡ day_at header time_at 0)
      ⊎ (day_at header time_at b ≡ day_at header time_at 4)
unfolding day_from_timestamp
two_days zero p q = inl refl
two_days (suc zero) p q = inl refl
two_days (suc (suc zero)) p q = inr refl
two_days (suc (suc (suc zero))) p q = inr refl
two_days (suc (suc (suc (suc zero)))) p q = inr refl
two_days (suc (suc (suc (suc (suc b))))) p q = absurd (omega arith)

resolve_days-Ends_example :
    Ends header time_at
      (λ b. (0 ≤ b) × (b ≤ 4))
      (HasDays header time_at few_logs)
      (resolve_days header (some 0) few_logs 0 4 ([], 0))
resolve_days-Ends_example =
    resolve_days-Ends header time_at (λ b s t e. sym (some-injective (ok-injective e))) 0 4
      (omega arith) (λ up b c p q r. omega arith) two_days (some 0) few_logs ([], 0)
      (
        (3, refl, (omega arith, omega arith)),
        (
          (1, refl, (omega arith, omega arith)),
          ((3, refl, (omega arith, omega arith)), ((4, refl, (omega arith, omega arith)), tt)),
        ),
      )
      tt
