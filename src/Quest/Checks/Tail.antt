-- ===== src/Quest/Checks/Tail.antt =====
-- frontend/api/_lib/quest/checks.js: the ids of the newest markets.
use perps_litvm.Base.{
  ℕ, zero, suc, ◌+◌, ◌-◌, ◌≤◌, ◌<◌, ◌≡◌, inl, inr, subst, ltb, arith, All, All-map, Bool-cases,
  ltb→lt, ltb-false→le,
}
use perps_litvm.Quest.Checks.{prediction_tail, ids_down, tail_ids}

ids_down-All : (n id : ℕ) → n ≤ id + 1 → All (λ i. (i ≤ id) × (id < i + n)) (ids_down n id)
unfolding ids_down
ids_down-All zero id h = tt
ids_down-All (suc zero) id h = ((omega arith, omega arith), tt)
ids_down-All (suc (suc n)) id h = (
  (omega arith, omega arith),
  All-map (ids_down (suc n) (id - 1)) (λ i k. let (low, high) = k in (omega arith, omega arith))
      (ids_down-All (suc n) (id - 1) (omega arith)),
)

ids_down-each : (P : ℕ → Type 0) (n id i : ℕ) → All P (ids_down n id) → i ≤ id → id < i + n → P i
unfolding ids_down
ids_down-each P zero id i h low high = absurd (omega arith)
ids_down-each P (suc n) id i (h, hs) low high = elim (Bool-cases (ltb i id)) [
  | inr at_end ↦
      let q = ltb-false→le i id at_end in let same : id ≡ i = omega arith in subst P same h
  | inl under ↦
      let q = ltb→lt i id under in ids_down-each P n (id - 1) i hs (omega arith) (omega arith)
]

-- The ids of the markets that a batch reads: the newest of them, at most PREDICTION_TAIL.
abbrev pub IsNewest : ℕ → ℕ → Type 0
IsNewest count id = (id < count) × (count ≤ id + prediction_tail)

pub tail_ids-All : (count : ℕ) → 0 < count → All (IsNewest count) (tail_ids count)
unfolding tail_ids
tail_ids-All count h =
    let newest = count - 1 in
    let oldest = newest + 1 - prediction_tail in
    All-map (ids_down (newest + 1 - oldest) newest)
      (λ i k. let (low, high) = k in (omega arith, omega arith))
      (ids_down-All (newest + 1 - oldest) newest (omega arith))

pub tail_ids-each :
    (P : ℕ → Type 0) (count id : ℕ) → All P (tail_ids count) → IsNewest count id → P id
unfolding tail_ids
tail_ids-each P count id h (low, high) =
    let newest = count - 1 in
    let oldest = newest + 1 - prediction_tail in
    ids_down-each P (newest + 1 - oldest) newest id h (omega arith) (omega arith)
