-- ===== src/Quest/Verify/Day.antt =====
-- frontend/api/quest/verify.js and _lib/quest/checks.js: the verdict of `daily_active`.
use perps_litvm.Base.{
  ℕ, ◌+◌, ◌≤◌, ◌<◌, ◌≡◌, ◌⊎◌, inl, inr, refl, sym, subst, String, Bool, true, false, Option, none,
  some, List, Try, ok, throw, Ask, Call, ◌>>=◌, answer, All, Bool-cases, >>=-elim, some-injective,
}
use perps_litvm.Quest.Sources.{Source}
use perps_litvm.Quest.Scan.Walk.{IsTruthful}
use perps_litvm.Quest.Poll.{Scan}
use perps_litvm.Quest.Freshness.{RawState, read_rows}
use perps_litvm.Quest.Quests.{Verdict, Tier1, read, declined, daily, Quest, checked}
use perps_litvm.Quest.Cache.{is_confirmed}
use perps_litvm.Quest.Daily.{daily_addresses, daily_active_tier1, daily_active_tier2}
use perps_litvm.Quest.Daily.Truth.{
  Tier1IsRight, TailIsRight, daily_active_tier1-IsRight, daily_active_tier2-IsRight,
}
use perps_litvm.Quest.Verify.{
  settled, unsettled, scanned, is_proven_false, Services, ask_index, resolve_from_index, run_tier2,
  after_index, after_tier1, run_tier1, verify_kind, verify_quest,
}

module _ (trim lower : String → String) (parse_int : String → Option ℕ)
    (env : String → Option String) {S Log : Type 0} (head_block : Call S ℕ) (now : Ask S ℕ)
    (utc_day : ℕ → String) (load : List String → Call S (Option (List RawState)))
    (to_number : String → Option ℕ) (has_daily_row : String → String → Call S Bool)
    (lag_ms lag_blocks grace_ms : ℕ) (query : String → Source → ℕ → ℕ → Call S (List Log))
    (wallet day : String) (Act : String → ℕ → Type 0) (OfDay : ℕ → Type 0)
    (Indexed : String → ℕ → Type 0) (addresses : List String) where
  abbrev tail_of : String → Tier1 → Call S Scan
  tail_of =
      daily_active_tier2 trim lower parse_int env head_block now utc_day load to_number
        has_daily_row lag_ms lag_blocks grace_ms query

  abbrev pub daily_quest : Quest S
  daily_quest =
      checked "daily_active" daily
        (daily_active_tier1 trim lower parse_int env head_block now utc_day load to_number
          has_daily_row lag_ms lag_blocks grace_ms query)
        (daily_active_tier2 trim lower parse_int env head_block now utc_day load to_number
          has_daily_row lag_ms lag_blocks grace_ms query)
        none

  -- No log of the day up to a block, at any of the contracts.
  abbrev pub AllQuiet : ℕ → Type 0
  AllQuiet h = All (λ a. (b : ℕ) → b ≤ h → OfDay b → ¬ Act a b) addresses

  abbrev pub IsRight : Try Verdict → Type 0
  IsRight (throw e) = Unit
  IsRight (ok v) =
      ((v.completed ≡ false)
        ⊎ ((a : String) × (b : ℕ) × Act a b × OfDay b)
        ⊎ ((a : String) × (b : ℕ) × (h : ℕ) × Act a b
            × (v.checked_through ≡ some h)
            × (h < b + 1 + lag_blocks)))
      × ((is_proven_false v ≡ false) ⊎ ((h : ℕ) × (v.checked_through ≡ some h) × AllQuiet h))

  abbrev Right : ℕ → Try Scan → Type 0
  Right =
      TailIsRight trim lower parse_int env head_block now utc_day load to_number has_daily_row
        lag_ms lag_blocks grace_ms query wallet day Act OfDay Indexed addresses

  module _ (configured : daily_addresses trim lower parse_int env ≡ ok addresses)
      (today : (s : S) → utc_day (now s).0 ≡ day)
      (loaded : (keys : List String) (s : S) (raws : List RawState)
        → (load keys s).0 ≡ ok (some raws)
        → All
            (λ row. Indexed row.source_key row.last_block)
            (read_rows (λ t. lower (trim t)) to_number raws))
      (present : (s : S)
        → (has_daily_row wallet day s).0 ≡ ok true
        → (a : String) × (b : ℕ) × Act a b × OfDay b)
      (absent : (a : String) (n : ℕ) (s : S)
        → Indexed (lower (trim (lower a))) n
        → (has_daily_row wallet day s).0 ≡ ok false
        → (b : ℕ) → b ≤ n
        → OfDay b
        → ¬ Act a b)
      (truthful : IsTruthful
        (λ src b. (a : String) × (src.address ≡ some a) × Act a b × (src.floor ≤ b))
        (query wallet))
      (chunk_pos : 0 < lag_blocks)
      (same_contract : (a a' : String)
        → lower (trim a) ≡ lower (trim a')
        → (b : ℕ) → Act a b
        → Act a' b)
      (services : Services S) (part_of : Quest S → Call S Verdict) where
    scanned-IsRight :
        (head : ℕ) (scan : Scan) → Right head (ok scan) → IsRight (ok (scanned head scan))
    unfolding scanned settled unsettled is_proven_false is_confirmed
    scanned-IsRight head scan (pos, neg) = elim (Bool-cases scan.found) [
      | inl hit ↦
          rw (hit, scanned)
            (
              elim pos [
                | inl miss ↦ absurd (cc (hit, miss))
                | inr (a, b, act, near) ↦ inr (inr (a, b, head, act, refl, near))
              ],
              inl refl,
            )
      | inr miss ↦ elim (Bool-cases scan.complete) [
        | inr short ↦ rw (miss, short, scanned) (inl refl, inl refl)
        | inl whole ↦
            rw (miss, whole, scanned)
              (
                inl refl,
                elim neg [
                  | inl hit ↦ absurd (cc (hit, miss))
                  | inr (inl short) ↦ absurd (cc (short, whole))
                  | inr (inr quiet) ↦ inr (head, refl, quiet)
                ],
              )
      ]
    ]

    tail-IsRight :
        (head m : ℕ) (s : S)
        → Right head (tail_of wallet (read false true head (some m)) s).0
        → IsRight
            ((tail_of wallet (read false true head (some m)) >>= λ scan.
                answer (ok (scanned head scan)))
              s).0
    tail-IsRight head m s h =
        >>=-elim (λ p. IsRight p.0) (tail_of wallet (read false true head (some m)))
          (λ scan. answer (ok (scanned head scan))) s (λ x y. tt)
          (λ scan y. scanned-IsRight head scan (subst (Right head) y h))

    after_tier1-IsRight :
        (r : Tier1) (s : S)
        → Tier1IsRight trim lower parse_int env head_block now utc_day load to_number has_daily_row
            lag_ms lag_blocks grace_ms query wallet day Act OfDay Indexed addresses
            (ok r)
        → IsRight (after_tier1 lower services daily_quest wallet r s).0
    unfolding after_tier1 resolve_from_index ask_index after_index run_tier2 settled unsettled
        is_proven_false is_confirmed checked
    after_tier1-IsRight (declined why) s h = (inl refl, inl refl)
    after_tier1-IsRight (read true reliable head through) s h = (inr (inl h), inl refl)
    after_tier1-IsRight (read false false head through) s h = (inl refl, inl refl)
    after_tier1-IsRight (read false true head none) s (n, e, low, near, quiet) = cc
    after_tier1-IsRight (read false true head (some m)) s (n, e, low, near, quiet) =
        let same : m ≡ n = some-injective e in
        tail-IsRight head m s (
          daily_active_tier2-IsRight trim lower parse_int env head_block now utc_day load to_number
            has_daily_row lag_ms lag_blocks grace_ms query wallet day Act OfDay Indexed addresses
            configured truthful chunk_pos same_contract head m s
            (subst (λ x. x ≤ head) (sym same) low)
            (subst (λ x. head ≤ lag_blocks + x) (sym same) near)
            (subst (λ x. AllQuiet x) (sym same) quiet))

    -- If the contracts are configured, the clock reads times of one day, the index's watermarks are
    -- true, a row of the daily table stands for a log of that day and its absence for none in the
    -- indexed blocks, and the node answers truthfully above a source's floor: a verdict of completed
    -- has a log of that day, or one within the allowed lag of the head; a confirmed negative, through a
    -- block, has no log of the day up to that block at any of the contracts.
    pub daily_active-IsRight :
        (s : S) → IsRight (verify_quest lower services part_of daily_quest wallet s).0
    unfolding verify_quest verify_kind run_tier1 checked
    daily_active-IsRight s =
        >>=-elim (λ p. IsRight p.0)
          (daily_active_tier1 trim lower parse_int env head_block now utc_day load to_number
            has_daily_row lag_ms lag_blocks grace_ms query wallet)
          (after_tier1 lower services daily_quest wallet) s (λ e x. tt)
          (λ r e. after_tier1-IsRight r _ (
            subst
              (Tier1IsRight trim lower parse_int env head_block now utc_day load to_number
                has_daily_row lag_ms lag_blocks grace_ms query wallet day Act OfDay Indexed
                addresses)
              e
              (daily_active_tier1-IsRight trim lower parse_int env head_block now utc_day load
                to_number has_daily_row lag_ms lag_blocks grace_ms query wallet day Act OfDay
                Indexed addresses configured today loaded present absent s)))
