-- ===== src/Quest/Daily/Truth.antt =====
-- frontend/api/_lib/quest/checks.js: the index and the scan of its tail make up the day.
use perps_litvm.Base.{
  ℕ, ◌+◌, ◌≤◌, ◌<◌, ◌≡◌, ◌⊎◌, inl, inr, refl, sym, subst, String, Bool, true, false, Option, none,
  some, List, [], ◌∷◌, ltb, map, Try, ok, throw, Ask, Call, arith, All, Bool-cases, ltb→lt,
  ltb-false→le, >>=-elim, some-injective,
}
use perps_litvm.Quest.Sources.{Source, source_key_of}
use perps_litvm.Quest.Scan.Walk.{NoLog, IsTruthful}
use perps_litvm.Quest.Poll.{Scan, scan_for_event}
use perps_litvm.Quest.Poll.Rows.{AgreeWith, SomeLog, IsTruePrior}
use perps_litvm.Quest.Poll.Absence.{IsAnswer, scan_for_event-IsAnswer}
use perps_litvm.Quest.Freshness.{
  RawState, StateRow, Freshness, stale, fresh, read_rows, read_freshness,
}
use perps_litvm.Quest.Freshness.Gate.{IsCurrent, IsKeyed, read_freshness-IsCurrent}
use perps_litvm.Quest.Quests.{Tier1, read, declined}
use perps_litvm.Quest.Checks.{source_at}
use perps_litvm.Quest.Daily.{
  within_day_boundary_grace, row_read, no_tail, daily_addresses, required_source_keys, sources_at,
  tail_scan_sources, after_freshness, with_keys, after_head, daily_active_tier1, tail_limits,
  floor_proved, scan_tail, daily_active_tier2,
}

-- `Act a b` says that the wallet has a log at contract `a` in block `b`, `OfDay b` that the block is
-- of the day, and `Indexed key n` that the logs of a key up to block `n` are in the daily table.
module _ (trim lower : String → String) (parse_int : String → Option ℕ)
    (env : String → Option String) {S Log : Type 0} (head_block : Call S ℕ) (now : Ask S ℕ)
    (utc_day : ℕ → String) (load : List String → Call S (Option (List RawState)))
    (to_number : String → Option ℕ) (has_daily_row : String → String → Call S Bool)
    (lag_ms lag_blocks grace_ms : ℕ) (query : String → Source → ℕ → ℕ → Call S (List Log))
    (wallet day : String) (Act : String → ℕ → Type 0) (OfDay : ℕ → Type 0)
    (Indexed : String → ℕ → Type 0) where
  abbrev tidy : String → String
  tidy t = lower (trim t)

  -- A log of a source, from its floor on.
  abbrev pub TailLog : Source → ℕ → Type 0
  TailLog src b = (a : String) × (src.address ≡ some a) × Act a b × (src.floor ≤ b)

  -- No log of the day up to a block.
  abbrev pub Quiet : ℕ → String → Type 0
  Quiet n a = (b : ℕ) → b ≤ n → OfDay b → ¬ Act a b

  abbrev pub ActiveThatDay : Type 0
  ActiveThatDay = (a : String) × (b : ℕ) × Act a b × OfDay b

  -- What a result of the first tier says, with the contracts' addresses.
  abbrev pub Tier1IsRight : List String → Try Tier1 → Type 0
  Tier1IsRight addresses (throw e) = Unit
  Tier1IsRight addresses (ok (declined why)) = Unit
  Tier1IsRight addresses (ok (read true reliable head through)) = ActiveThatDay
  Tier1IsRight addresses (ok (read false reliable head through)) =
      (n : ℕ) × (through ≡ some n) × (n ≤ head) × (head ≤ lag_blocks + n) × All (Quiet n) addresses

  -- What the scan of the tail says.
  abbrev pub TailIsRight : List String → ℕ → Try Scan → Type 0
  TailIsRight addresses head (throw e) = Unit
  TailIsRight addresses head (ok r) =
      ((r.found ≡ false) ⊎ ((a : String) × (b : ℕ) × Act a b × (head < b + 1 + lag_blocks)))
      × ((r.found ≡ true) ⊎ (r.complete ≡ false) ⊎ All (Quiet head) addresses)

  module _ (addresses : List String)
      (configured : daily_addresses trim lower parse_int env ≡ ok addresses)
      (today : (s : S) → utc_day (now s).0 ≡ day)
      (loaded : (keys : List String) (s : S) (raws : List RawState)
        → (load keys s).0 ≡ ok (some raws)
        → All (λ row. Indexed row.source_key row.last_block) (read_rows tidy to_number raws))
      (present : (s : S) → (has_daily_row wallet day s).0 ≡ ok true → ActiveThatDay)
      (absent : (a : String) (n : ℕ) (s : S)
        → Indexed (tidy (lower a)) n
        → (has_daily_row wallet day s).0 ≡ ok false
        → Quiet n a) where
    abbrev IsHere : StateRow → Type 0
    IsHere row = Indexed row.source_key row.last_block

    keyed-Quiet :
        (through : ℕ) (list : List String) (rows : List StateRow) (s : S)
        → IsKeyed tidy (map lower list) rows
        → All (λ row. IsHere row × (through ≤ row.last_block)) rows
        → (has_daily_row wallet day s).0 ≡ ok false
        → All (Quiet through) list
    keyed-Quiet through [] rows s k h e = tt
    keyed-Quiet through (a ∷ list) [] s k h e = elim k [ ]
    keyed-Quiet through (a ∷ list) (row ∷ rows) s (k, ks) (h, hs) e = (
      λ b p.
          absent a row.last_block s (subst (λ key. Indexed key row.last_block) k h.0) e b
            (omega arith),
      keyed-Quiet through list rows s ks hs e,
    )

    row_read-IsRight :
        (head through : ℕ) (rows : List StateRow) (r : Try Bool) (s : S)
        → (has_daily_row wallet day s).0 ≡ r
        → IsCurrent tidy to_number load now lag_ms lag_blocks head IsHere
            (map lower addresses)
            (fresh through rows)
        → Tier1IsRight addresses (ok (row_read head through r))
    unfolding row_read
    row_read-IsRight head through rows (throw x) s e h = tt
    row_read-IsRight head through rows (ok true) s e h = present s e
    row_read-IsRight head through rows (ok false) s e (h, k, low, near) =
        (through, refl, low, near, keyed-Quiet through addresses rows s k h e)

    abbrev tier1_rest : ℕ → Freshness → Call S Tier1
    tier1_rest =
        after_freshness trim lower parse_int env head_block now utc_day load to_number has_daily_row
          lag_ms lag_blocks grace_ms query wallet

    after_freshness-IsRight :
        (head : ℕ) (f : Freshness) (s : S)
        → IsCurrent tidy to_number load now lag_ms lag_blocks head IsHere (map lower addresses) f
        → Tier1IsRight addresses (tier1_rest head f s).0
    unfolding after_freshness
    after_freshness-IsRight head (stale detail) s h = tt
    after_freshness-IsRight head (fresh through rows) s h =
        rw (today s) (
          row_read-IsRight head through rows (has_daily_row wallet day (now s).1).0 (now s).1 refl
            h)

    required_source_keys-eq :
        required_source_keys trim lower parse_int env ≡ ok (map lower addresses)
    unfolding required_source_keys
    required_source_keys-eq = rw configured refl

    after_head-IsRight :
        (head : ℕ) (s : S)
        → Tier1IsRight addresses
            (after_head trim lower parse_int env head_block now utc_day load to_number has_daily_row
              lag_ms lag_blocks grace_ms query wallet head s).0
    unfolding after_head with_keys
    after_head-IsRight head s = elim (Bool-cases (within_day_boundary_grace (now s).0 grace_ms)) [
      | inl early ↦ rw (early, after_head) tt
      | inr settled ↦
          let fresh_from = read_freshness tidy to_number load now lag_ms lag_blocks head in
          rw (settled, required_source_keys-eq, after_head)
            (after_freshness-IsRight head (fresh_from (map lower addresses) (now s).1).0
              (fresh_from (map lower addresses) (now s).1).1
              (read_freshness-IsCurrent tidy to_number load now lag_ms lag_blocks head IsHere
                (map lower addresses) (now s).1 (loaded (map lower addresses) (now s).1)))
    ]

    pub daily_active_tier1-IsRight :
        (s : S)
        → Tier1IsRight addresses
            (daily_active_tier1 trim lower parse_int env head_block now utc_day load to_number
              has_daily_row lag_ms lag_blocks grace_ms query wallet s).0
    unfolding daily_active_tier1
    daily_active_tier1-IsRight s =
        >>=-elim (λ p. Tier1IsRight addresses p.0) head_block
          (after_head trim lower parse_int env head_block now utc_day load to_number has_daily_row
            lag_ms lag_blocks grace_ms query wallet)
          s (λ e x. tt) (λ head x. after_head-IsRight head (head_block s).1)

  module _ (addresses : List String)
      (configured : daily_addresses trim lower parse_int env ≡ ok addresses)
      (truthful : IsTruthful TailLog (query wallet)) (chunk_pos : 0 < lag_blocks)
      (same_contract : (a a' : String) → tidy a ≡ tidy a' → (b : ℕ) → Act a b → Act a' b) where
    abbrev tail_at : ℕ → List String → List Source
    tail_at floor list = sources_at trim lower parse_int env floor list

    some_tail :
        (floor : ℕ) (list : List String)
        → SomeLog TailLog tidy (tail_at floor list)
        → (a : String) × (b : ℕ) × Act a b × (floor ≤ b)
    unfolding sources_at source_at
    some_tail floor [] h = elim h [ ]
    some_tail floor (x ∷ list) (inl (b, (a, e, act, up))) = (a, b, act, up)
    some_tail floor (x ∷ list) (inr h) = some_tail floor list h

    tail_joined :
        (n head : ℕ) (list : List String)
        → All (Quiet n) list
        → All (λ src. NoLog TailLog src 0 (head + 1)) (tail_at (n + 1) list)
        → All (Quiet head) list
    unfolding sources_at source_at
    tail_joined n head [] h k = tt
    tail_joined n head (a ∷ list) (h, hs) (k, ks) = (
      λ b p d act. elim (Bool-cases (ltb n b)) [
        | inr old ↦ h b (ltb-false→le n b old) d act
        | inl new ↦
            k b (omega arith) (omega arith) (a, refl, act, (let q = ltb→lt n b new in omega arith))
      ],
      tail_joined n head list hs ks,
    )

    agree_with :
        (floor : ℕ) (y : String) (list : List String)
        → AgreeWith TailLog tidy (tail_at floor list) (source_at y floor)
    unfolding sources_at source_at source_key_of
    agree_with floor y [] = tt
    agree_with floor y (x ∷ list) = (
      λ e lo hi none_there b p q (c, here, act, up). none_there b p q (
        x,
        refl,
        same_contract y x (sym e) b (subst (λ z. Act z b) (sym (some-injective here)) act),
        up,
      ),
      agree_with floor y list,
    )

    agree_all :
        (floor : ℕ) (listed list : List String)
        → All (AgreeWith TailLog tidy (tail_at floor listed)) (tail_at floor list)
    unfolding sources_at
    agree_all floor listed [] = tt
    agree_all floor listed (y ∷ list) = (agree_with floor y listed, agree_all floor listed list)

    nothing_stored : (sources : List Source) → IsTruePrior TailLog tidy (λ key. none) sources
    nothing_stored [] = tt
    nothing_stored (src ∷ sources) = ((λ row e f. cc), nothing_stored sources)

    abbrev answer_of : ℕ → ℕ → List Source → S → Scan
    answer_of head n sources s =
        (scan_for_event tidy
          (tail_limits trim lower parse_int env head_block now utc_day load to_number has_daily_row
            lag_ms lag_blocks grace_ms query head)
          now (query wallet)
          (floor_proved trim lower parse_int env head_block now utc_day load to_number has_daily_row
            lag_ms lag_blocks grace_ms query true (some n))
          sources (λ key. none) s).0

    answer_of-IsAnswer :
        (head n : ℕ) (s : S)
        → IsAnswer TailLog tidy head
            (tail_at (n + 1) addresses)
            (answer_of head n (tail_at (n + 1) addresses) s)
    unfolding tail_limits
    answer_of-IsAnswer head n s =
        scan_for_event-IsAnswer tidy
          (tail_limits trim lower parse_int env head_block now utc_day load to_number has_daily_row
            lag_ms lag_blocks grace_ms query head)
          now (query wallet)
          (floor_proved trim lower parse_int env head_block now utc_day load to_number has_daily_row
            lag_ms lag_blocks grace_ms query true (some n))
          TailLog truthful (λ src s' e b p q (a, e', act, up). absurd (omega arith)) chunk_pos
          (tail_at (n + 1) addresses) (agree_all (n + 1) addresses addresses) (λ key. none) s
          (nothing_stored (tail_at (n + 1) addresses))

    pub daily_active_tier2-IsRight :
        (head n : ℕ) (s : S)
        → n ≤ head
        → head ≤ lag_blocks + n
        → All (Quiet n) addresses
        → TailIsRight addresses head
            (daily_active_tier2 trim lower parse_int env head_block now utc_day load to_number
              has_daily_row lag_ms lag_blocks grace_ms query wallet
              (read false true head (some n))
              s).0
    unfolding daily_active_tier2 scan_tail no_tail tail_scan_sources
    daily_active_tier2-IsRight head n s low near quiet = elim (Bool-cases (ltb head (n + 1))) [
      | inl all_read ↦
          let q = ltb→lt head (n + 1) all_read in
          let same : n ≡ head = omega arith in
          rw (all_read, daily_active_tier2)
            (inl refl, inr (inr (subst (λ m. All (Quiet m) addresses) same quiet)))
      | inr left ↦
          let a = answer_of-IsAnswer head n s in
          rw (left, configured, daily_active_tier2)
            (
              elim a.0 [
                | inl miss ↦ inl miss
                | inr hit ↦
                    let (c, b, act, up) = some_tail (n + 1) addresses hit in
                    inr (c, b, act, omega arith)
              ],
              elim a.1 [
                | inl hit ↦ inl hit
                | inr (inl short) ↦ inr (inl short)
                | inr (inr none_there) ↦ inr (inr (tail_joined n head addresses quiet none_there))
              ],
            )
    ]
