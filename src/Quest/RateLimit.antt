-- ===== src/Quest/RateLimit.antt =====
-- frontend/api/_lib/rateLimit.js: the sliding windows of the endpoint, and their store in memory.
-- The store's map is a function with the list of its keys, a missing key being an empty list. A check
-- reads and writes between two events of the process, so that checks come one after the other. Times
-- are of the process's clock, in milliseconds.
pub mod Counts
pub mod Window
mod Tests
use text.Mathlib.Text.{◌==◌}
use perps_litvm.Base.{
  ℕ, ◌+◌, ◌-◌, ◌/◌, max, String, Bool, true, false, not, ◌&&◌, ◌||◌, Option, none, some, List, [],
  ◌∷◌, ◌++◌, leb, ltb, if◌then◌else◌, length, any,
}

-- MINUTE_MS, HOUR_MS, MAX_TRACKED_KEYS
abbrev pub minute_ms : ℕ
minute_ms = 60000

abbrev pub hour_ms : ℕ
hour_ms = 3600000

abbrev pub max_tracked_keys : ℕ
max_tracked_keys = 10000

pub record Hits : Type 0 where
  pub stamps : String → List ℕ
  pub tracked : List String

unfoldable pub no_hits : Hits
no_hits = record { stamps = λ key. []; tracked = [] }

-- The last of a list's times, the newest.
pub newest : ℕ → List ℕ → ℕ
newest else_ [] = else_
newest else_ (s ∷ ss) = newest s ss

-- A list without times, or whose newest is before the cutoff.
pub is_aged : ℕ → List ℕ → Bool
unfolding newest
is_aged cutoff [] = true
is_aged cutoff (s ∷ ss) = ltb (newest s ss) cutoff

pub unstale : ℕ → List ℕ → List ℕ
unfolding is_aged
unstale cutoff stamps = if is_aged cutoff stamps then [] else stamps

pub fresh_keys : ℕ → (String → List ℕ) → List String → List String
unfolding is_aged
fresh_keys cutoff stamps [] = []
fresh_keys cutoff stamps (key ∷ keys) =
    let rest = fresh_keys cutoff stamps keys in
    if is_aged cutoff (stamps key) then rest else key ∷ rest

pub drop_stale : ℕ → Hits → Hits
unfolding unstale fresh_keys
drop_stale cutoff hits = record {
  stamps = λ key. unstale cutoff (hits.stamps key);
  tracked = fresh_keys cutoff hits.stamps hits.tracked;
}

pub set_stamps : String → List ℕ → Hits → Hits
set_stamps key list hits = record {
  stamps = λ k. if k == key then list else hits.stamps k;
  tracked = if any (λ k. k == key) hits.tracked then hits.tracked else key ∷ hits.tracked;
}

-- `write` of the store, at a time.
pub write_stamps : ℕ → String → List ℕ → Hits → Hits
unfolding set_stamps drop_stale
write_stamps now key list hits =
    let set = set_stamps key list hits in
    if ltb max_tracked_keys (length set.tracked) then drop_stale (now - hour_ms) set else set

-- `t - s < window`, and the times that pass it.
pub recent : ℕ → ℕ → List ℕ → List ℕ
recent window t [] = []
recent window t (s ∷ ss) =
    let rest = recent window t ss in if ltb (t - s) window then s ∷ rest else rest

pub data Scope : Type 0 where
  minute hour : Scope

-- Allowed with what is left in both windows, or blocked with the seconds to wait; the source's
-- number of seconds is no number where a limit of 0 blocks with no time in the window.
pub data Verdict : Type 0 where
  allowed : ℕ → ℕ → Verdict
  blocked : Scope → Option ℕ → Verdict

pub seconds_until_free : ℕ → ℕ → List ℕ → Option ℕ
seconds_until_free now window [] = none
seconds_until_free now window (oldest ∷ stamps) =
    some (max 1 ((window + oldest - now + 999) / 1000))

module _ (per_minute per_hour : ℕ) where
  pub check_stamps : String → ℕ → List ℕ → List ℕ → Hits → Verdict × Hits
  unfolding seconds_until_free write_stamps
  check_stamps key t in_hour in_minute hits =
      if leb per_minute (length in_minute)
      then (blocked minute (seconds_until_free t minute_ms in_minute), hits)
      else (if leb per_hour (length in_hour)
          then (blocked hour (seconds_until_free t hour_ms in_hour), hits)
          else (
            allowed (per_minute - length in_minute - 1) (per_hour - length (in_hour ++ (t ∷ []))),
            write_stamps t key (in_hour ++ (t ∷ [])) hits,
          ))

  -- `check`, at a time.
  unfoldable pub check : String → ℕ → Hits → Verdict × Hits
  unfolding check_stamps recent
  check key t hits =
      let in_hour = recent hour_ms t (hits.stamps key) in
      check_stamps key t in_hour (recent minute_ms t in_hour) hits

  pub is_allowed : Verdict → Bool
  is_allowed (allowed left_minute left_hour) = true
  is_allowed (blocked scope wait) = false

  -- The store after a history of requests, the latest first, and the requests that were allowed.
  pub served : List (String × ℕ) → Hits × List (String × ℕ)
  unfolding check no_hits is_allowed
  served [] = (no_hits, [])
  served ((key, t) ∷ earlier) =
      let (hits, granted) = served earlier in
      let (verdict, hits') = check key t hits in
      (hits', (if is_allowed verdict then (key, t) ∷ granted else granted))
