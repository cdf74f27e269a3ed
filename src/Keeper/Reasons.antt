-- ===== src/Keeper/Reasons.antt =====
-- keeper/keeper.mjs: what the keeper reads off a decoded revert reason. The patterns of the source
-- are alternations of plain words, looked for anywhere in the text; texts are lists of code points.
use perps_litvm.Base.{String, codes}
use perps_litvm.Base.{◌≡◌, refl}
use perps_litvm.Base.{
  ℕ, ◌+◌, ◌-◌, ◌*◌, Bool, true, false, ◌&&◌, ◌||◌, Option, none, some, List, [], ◌∷◌, leb,
  if◌then◌else◌, any, max,
}
use perps_litvm.Base.{◌==◌}

unfoldable pub starts_with : List ℕ → List ℕ → Bool
starts_with [] text = true
starts_with (c ∷ word) [] = false
starts_with (c ∷ word) (d ∷ text) = c == d && starts_with word text

pub contains : List ℕ → List ℕ → Bool
unfolding starts_with
contains word [] = starts_with word []
contains word (d ∷ text) = starts_with word (d ∷ text) || contains word text

unfoldable pub contains_any : List String → List ℕ → Bool
unfolding contains
contains_any words text = any (λ w. contains (codes w) text) words

-- /RequestNotActive/, /TriggerNotMet/, PERMANENT_REVERT and TEMPORARY_TRIGGER_REVERT
unfoldable pub is_not_active : List ℕ → Bool
unfolding contains_any
is_not_active reason = contains_any ("RequestNotActive" ∷ []) reason

pub is_trigger_not_met : List ℕ → Bool
unfolding contains_any
is_trigger_not_met reason = contains_any ("TriggerNotMet" ∷ []) reason

unfoldable pub is_permanent : List ℕ → Bool
unfolding contains_any
is_permanent reason =
    contains_any
      ("MarketNotSupported" ∷ "CollateralTooLow" ∷ "LeverageOutOfRange" ∷ "InvalidAcceptablePrice"
        ∷ "InvalidCloseBps" ∷ "InvalidTriggerPrice" ∷ "SecondaryDecimalsTooHigh" ∷ [])
      reason

pub is_temporary : List ℕ → Bool
unfolding contains_any
is_temporary reason =
    contains_any
      ("ExceedsUtilization" ∷ "ExceedsMaxOI" ∷ "PriceTooStale" ∷ "PriceFromFuture"
        ∷ "PriceBeforeRequest" ∷ "BreakerTripped" ∷ "Paused" ∷ "TooEarlyToExecute" ∷ [])
      reason

-- `reason.split("(")[0]`
unfoldable pub name_of : List ℕ → List ℕ
name_of [] = []
name_of (c ∷ text) = elim (c == b'(') [ true ↦ [] | false ↦ c ∷ name_of text ]

unfoldable pub same_text : List ℕ → List ℕ → Bool
same_text [] [] = true
same_text (c ∷ s) (d ∷ t) = c == d && same_text s t
same_text _ _ = false

is_digit : ℕ → Bool
is_digit c = leb b'0' c && leb c b'9'

-- `(\d+)`: the number and the rest, once a first digit has been read.
digits_from : ℕ → List ℕ → ℕ × List ℕ
unfolding is_digit
digits_from n [] = (n, [])
digits_from n (c ∷ text) = elim (is_digit c) [
  | true ↦ digits_from (10 * n + (c - b'0')) text
  | false ↦ (n, c ∷ text)
]

digits : List ℕ → Option (ℕ × List ℕ)
unfolding digits_from
digits [] = none
digits (c ∷ text) = if is_digit c then some (digits_from (c - b'0') text) else none

after_word : List ℕ → List ℕ → Option (List ℕ)
after_word [] text = some text
after_word (c ∷ word) [] = none
after_word (c ∷ word) (d ∷ text) = if c == d then after_word word text else none

skip_spaces : List ℕ → List ℕ
skip_spaces [] = []
skip_spaces (c ∷ text) = elim (c == b' ') [ true ↦ skip_spaces text | false ↦ c ∷ text ]

-- `TriggerNotMet\((\d+),\s*(\d+)` at the head of the text, and at its first match.
match_prices_here : List ℕ → Option (ℕ × ℕ)
unfolding digits after_word skip_spaces
match_prices_here text = elim (after_word (codes "TriggerNotMet(") text) [
  | none ↦ none
  | some args ↦ elim (digits args) [
    | none ↦ none
    | some (price, rest) ↦ elim (after_word (codes ",") rest) [
      | none ↦ none
      | some more ↦ elim (digits (skip_spaces more)) [
        | none ↦ none
        | some (trigger, _) ↦ some (price, trigger)
      ]
    ]
  ]
]

pub match_prices : List ℕ → Option (ℕ × ℕ)
unfolding match_prices_here
match_prices [] = none
match_prices (c ∷ text) = elim (match_prices_here (c ∷ text)) [
  | some found ↦ some found
  | none ↦ match_prices text
]

-- TRIGGER_NEAR_BAND_BPS
abbrev pub trigger_near_band_bps : ℕ
trigger_near_band_bps = 50

-- `triggerNotMetBps(reason) <= TRIGGER_NEAR_BAND_BPS`, with the division multiplied out: the
-- distance is infinite where the reason has no prices or its level is 0.
unfoldable pub is_near : List ℕ → Bool
unfolding match_prices
is_near reason = elim (match_prices reason) [
  | none ↦ false
  | some (price, trigger) ↦
      if trigger == 0
      then false
      else leb ((max price trigger - (price + trigger - max price trigger)) * 10000)
          (trigger_near_band_bps * trigger)
]

near_reason : is_near (codes "TriggerNotMet(9960, 10000, true)") ≡ true
unfolding is_near
near_reason = refl

far_reason : is_near (codes "TriggerNotMet(9940, 10000, true)") ≡ false
unfolding is_near
far_reason = refl
