-- ===== src/Quest/Checks/Examples.antt =====
-- frontend/api/_lib/quest/checks.js on a chain with fifty markets, a stake in one, and no position.
use perps_litvm.Base.{
  ℕ, ◌≡◌, ◌⊎◌, refl, subst, String, Bool, true, false, Option, none, some, List, [], ◌∷◌,
  if◌then◌else◌, map, ok, Call, ok-injective,
}
use perps_litvm.Base.{◌==◌ as num_eq}
use perps_litvm.Quest.Quests.{read}
use perps_litvm.Quest.Chain.{
  ReadCall, positions, market_count, stake_of, balance_of, read_of, batch_read,
}
use perps_litvm.Quest.Checks.{
  is_above_zero, is_staked, trade_positions, first_trade_tier1, first_prediction_tier1,
  provide_liquidity_tier1,
}
use perps_litvm.Quest.Checks.Tail.{IsNewest}
use perps_litvm.Quest.Checks.Proof.{
  AreResults, Tells, is_above_zero-none, is_staked-none, first_prediction_tier1-IsRight,
  first_trade_tier1-IsRight,
}

abbrev stakes : ℕ → ℕ × ℕ
stakes id = if num_eq id 7 then (0, 3) else (0, 0)

abbrev sizes : String × Bool → ℕ
sizes p = 0

-- An answer is a pair of words.
abbrev answer_of : ReadCall → Bool × (ℕ × ℕ)
answer_of (positions key) = (true, (0, 0))
answer_of market_count = (true, (50, 0))
answer_of (stake_of id wallet) = (true, stakes id)
answer_of (balance_of wallet) = (false, (0, 0))

abbrev aggregate : List ReadCall → Call ℕ (List (Bool × (ℕ × ℕ)))
aggregate calls s = (ok (map answer_of calls), s)

abbrev head_ten : Call ℕ ℕ
head_ten s = (ok 10, s)

abbrev key_of : String → String → Bool → String
key_of wallet market is_long = market

abbrev first_word : ℕ × ℕ → Option ℕ
first_word p = some p.0

abbrev both_words : ℕ × ℕ → Option (ℕ × ℕ)
both_words p = some p

prediction_run :
    first_prediction_tier1 head_ten aggregate key_of first_word first_word both_words first_word
      "0xa" 0
    ≡ (ok (read true true 10 none), 0)
unfolding first_prediction_tier1 batch_read
prediction_run = refl

-- A read that failed is no answer.
liquidity_run :
    provide_liquidity_tier1 head_ten aggregate key_of first_word first_word both_words first_word
      "0xa" 0
    ≡ (ok (read false false 10 none), 0)
unfolding provide_liquidity_tier1 batch_read
liquidity_run = refl

counted :
    (s : ℕ) (rs : List (Bool × (ℕ × ℕ)))
    → (aggregate (market_count ∷ []) s).0 ≡ ok rs
    → AreResults (λ (call : ReadCall). 50) (market_count ∷ []) (map (read_of first_word) rs)
counted s rs e =
    subst
      (λ list.
        AreResults (λ (call : ReadCall). 50) (market_count ∷ []) (map (read_of first_word) list))
      (ok-injective e) (unfold read_of in ((λ n f. cc), tt))

stakes_read :
    (ids : List ℕ)
    → AreResults stakes ids
        (map (read_of both_words) (map answer_of (map (λ id. stake_of id "0xa") ids)))
stakes_read [] = tt
stakes_read (id ∷ ids) = (unfold read_of in (λ p e. cc), stakes_read ids)

sizes_read :
    (list : List (String × Bool))
    → AreResults sizes list (
        map
          (read_of first_word)
          (map answer_of (map (λ (p : String × Bool). positions (key_of "0xa" p.0 p.1)) list)))
sizes_read [] = tt
sizes_read (p ∷ list) = (unfold read_of in (λ n e. cc), sizes_read list)

first_prediction_tier1-IsRight_example :
    Tells stakes is_staked is_staked-none
      (IsNewest 50)
      (first_prediction_tier1 head_ten aggregate key_of first_word first_word both_words first_word
        "0xa" 0).0
first_prediction_tier1-IsRight_example =
    first_prediction_tier1-IsRight head_ten aggregate key_of first_word first_word both_words
      first_word "0xa" 50 stakes 0 counted
      (λ ids s rs e.
        subst (λ list. AreResults stakes ids (map (read_of both_words) list)) (ok-injective e)
          (stakes_read ids))

first_trade_tier1-IsRight_example :
    Tells sizes is_above_zero is_above_zero-none
      (λ p. (p.0 ≡ "BTC") ⊎ (p.0 ≡ "ETH"))
      (first_trade_tier1 head_ten aggregate key_of first_word first_word both_words first_word "0xa"
        0).0
first_trade_tier1-IsRight_example =
    first_trade_tier1-IsRight head_ten aggregate key_of first_word first_word both_words first_word
      "0xa" sizes 0
      (λ s rs e.
        subst (λ list. AreResults sizes trade_positions (map (read_of first_word) list))
          (ok-injective e) (sizes_read trade_positions))
