-- ===== src/Quest/IndexProof/Absence.antt =====
-- frontend/api/_lib/quest/indexProof.js, `resolve`: the index answers no only where there is nothing.
use text.Mathlib.Text.{◌==◌}
use perps_litvm.Base.{
  ℕ, ◌+◌, ◌≤◌, ◌≡◌, ◌⊎◌, inl, inr, refl, sym, subst, String, Bool, true, false, Option, none, some,
  List, [], ◌∷◌, leb, any, map, Try, ok, throw, Ask, Call, arith, All, All-map, Bool-cases,
  Option-cases, leb→le,
}
use perps_litvm.Quest.Sources.{Source, source_key_of}
use perps_litvm.Quest.Scan.Walk.{All-NoLog_join, NoLog}
use perps_litvm.Quest.Freshness.{
  RawState, StateRow, Freshness, stale, fresh, row_at, read_rows, read_freshness,
}
use perps_litvm.Quest.Freshness.Gate.{row_at-All, IsCurrent, read_freshness-IsCurrent}
use perps_litvm.Quest.IndexProof.{
  BackfillRow, Join, Detail, union_covers, Answer, completed, absent, unproven, Completion,
  floor_ok, bad_floor, check_floors, decide_union, decide_fresh, decide_coverage, decide,
  resolve_keyed, resolve,
}
use perps_litvm.Quest.IndexProof.Union.{Succeeds, IsUnited, union_covers_iff}

module _ (HasLog : Source → ℕ → Type 0) (Completed : Type 0) (tidy : String → String)
    (sources : List Source) where
  -- The backfill's row of a source: each log in its interval has been written as a completion.
  abbrev pub IsSwept : (String → Option BackfillRow) → Source → Type 0
  IsSwept coverage src =
      (cov : BackfillRow) (from to : ℕ)
      → coverage (source_key_of tidy src) ≡ some cov
      → cov.covered_from ≡ some from
      → cov.covered_to ≡ some to
      → (b : ℕ) → to ≤ b
      → b ≤ from
      → HasLog src b
      → Completed

  -- The forward index's row: the same for the blocks from its handoff up to its watermark.
  abbrev pub IsIndexed : StateRow → Type 0
  IsIndexed st =
      All
        (λ src.
          (start : ℕ)
          → source_key_of tidy src ≡ st.source_key
          → st.completion_from ≡ some start
          → (b : ℕ) → start ≤ b
          → b ≤ st.last_block
          → HasLog src b
          → Completed)
        sources

  -- What a freshness answer is worth.
  abbrev pub IsFreshRight : Freshness → Type 0
  IsFreshRight (stale detail) = Unit
  IsFreshRight (fresh through rows) = All (λ st. IsIndexed st × (through ≤ st.last_block)) rows

  abbrev pub IsRight : Answer → Type 0
  IsRight (completed block) = Completed
  IsRight (absent through joins) = All (λ src. NoLog HasLog src 0 (through + 1)) sources
  IsRight (unproven detail) = Unit

  united-NoLog :
      (to_number : String → Option ℕ) (coverage : String → Option BackfillRow)
      (rows : List StateRow) (through : ℕ) (src : Source)
      → (¬ Completed)
      → IsSwept coverage src
      → All
          (λ st.
            ((start : ℕ)
              → source_key_of tidy src ≡ st.source_key
              → st.completion_from ≡ some start
              → (b : ℕ) → start ≤ b
              → b ≤ st.last_block
              → HasLog src b
              → Completed)
            × (through ≤ st.last_block))
          rows
      → IsUnited tidy coverage (row_at tidy to_number rows) src
      → NoLog HasLog src src.floor (through + 1)
  united-NoLog to_number coverage rows through src not_completed swept indexed united b p q log =
      let (cov, st, from, start, at_cov, at_st, hf, ht, hfrom, hstart, touch) = united.1 in
      let ((current, reach), same_key) =
        row_at-All tidy to_number _ rows (source_key_of tidy src) st indexed at_st in
      not_completed (elim (Bool-cases (leb b from)) [
        | inl below ↦ swept cov from src.floor at_cov hfrom ht b p (leb→le b from below) log
        | inr above ↦ current start (sym same_key) hstart b (ground arith) (omega arith) log
      ])

  united-All-NoLog :
      (to_number : String → Option ℕ) (coverage : String → Option BackfillRow)
      (rows : List StateRow) (through : ℕ)
      → (¬ Completed)
      → All (IsSwept coverage) sources
      → All (λ st. IsIndexed st × (through ≤ st.last_block)) rows
      → All (IsUnited tidy coverage (row_at tidy to_number rows)) sources
      → All (λ src. NoLog HasLog src src.floor (through + 1)) sources
  united-All-NoLog to_number coverage rows through not_completed = go sources (λ row h. h)
    where
      go :
          (list : List Source)
          → ((st : StateRow)
              → IsIndexed st
              → All
                  (λ src.
                    (start : ℕ)
                    → source_key_of tidy src ≡ st.source_key
                    → st.completion_from ≡ some start
                    → (b : ℕ) → start ≤ b
                    → b ≤ st.last_block
                    → HasLog src b
                    → Completed)
                  list)
          → All (IsSwept coverage) list
          → All (λ st. IsIndexed st × (through ≤ st.last_block)) rows
          → All (IsUnited tidy coverage (row_at tidy to_number rows)) list
          → All (λ src. NoLog HasLog src src.floor (through + 1)) list
      go [] h a b c = tt
      go (src ∷ list) h (a, as_) b (c, cs) = (
        united-NoLog to_number coverage rows through src not_completed a
            (All-map rows (λ st k. ((h st k.0).0, k.1)) b) c,
        go list (λ st k. (h st k).1) as_ b cs,
      )

module _ {S : Type 0} (tidy : String → String) (to_number : String → Option ℕ)
    (read_completion : Call S (Option Completion))
    (load_backfill : List String → Call S (String → Option BackfillRow))
    (fresh_of : List String → Ask S Freshness) (verify_floor : Source → Call S Bool)
    (HasLog : Source → ℕ → Type 0) (Completed : Type 0)
    (verified : (src : Source) (s : S)
      → (verify_floor src s).0 ≡ ok true
      → NoLog HasLog src 0 src.floor) where
  floor_ok-NoLog :
      (src : Source) (s : S)
      → (floor_ok tidy to_number read_completion load_backfill fresh_of verify_floor src s).0 ≡ true
      → NoLog HasLog src 0 src.floor
  unfolding floor_ok
  floor_ok-NoLog src s h = go (verify_floor src s).0 refl
    where
      go : (r : Try Bool) → (verify_floor src s).0 ≡ r → NoLog HasLog src 0 src.floor
      go (ok true) e = verified src s e
      go (ok false) e = absurd (let h' = rw e at h in cc h')
      go (throw x) e = absurd (let h' = rw e at h in cc h')

  bad_floor-NoLog :
      (list : List Source) (s : S)
      → (bad_floor tidy to_number read_completion load_backfill fresh_of verify_floor list s).0
        ≡ none
      → All (λ src. NoLog HasLog src 0 src.floor) list
  unfolding bad_floor
  bad_floor-NoLog [] s h = tt
  bad_floor-NoLog (src ∷ list) s h =
      let good =
        floor_ok tidy to_number read_completion load_backfill fresh_of verify_floor src s in
      elim (Bool-cases good.0) [
        | inr bad ↦ absurd (let h' = rw (bad, bad_floor) at h in cc h')
        | inl fine ↦
            (floor_ok-NoLog src s fine, bad_floor-NoLog list good.1 (rw (fine, bad_floor) at h))
      ]

  module _ (sources : List Source) where
    check_floors-IsRight :
        (through : ℕ) (joins : List Join) (s : S)
        → All (λ src. NoLog HasLog src src.floor (through + 1)) sources
        → IsRight HasLog Completed tidy sources
            (check_floors tidy to_number read_completion load_backfill fresh_of verify_floor sources
              through joins s).0
    unfolding check_floors
    check_floors-IsRight through joins s h =
        let bad =
          bad_floor tidy to_number read_completion load_backfill fresh_of verify_floor sources s in
        elim (Option-cases bad.0) [
          | inr (src, e) ↦ rw (e, check_floors) tt
          | inl e ↦
              rw (e, check_floors)
                (All-NoLog_join HasLog (through + 1) sources (bad_floor-NoLog sources s e) h)
        ]

    decide_union-IsRight :
        (through : ℕ) (coverage : String → Option BackfillRow) (rows : List StateRow)
        (union : Detail ⊎ List Join) (s : S)
        → union_covers tidy coverage (row_at tidy to_number rows) sources ≡ union
        → (¬ Completed)
        → All (IsSwept HasLog Completed tidy sources coverage) sources
        → All (λ st. IsIndexed HasLog Completed tidy sources st × (through ≤ st.last_block)) rows
        → IsRight HasLog Completed tidy sources
            (decide_union tidy to_number read_completion load_backfill fresh_of verify_floor sources
              through union s).0
    unfolding decide_union
    decide_union-IsRight through coverage rows (inl detail) s e n a b = tt
    decide_union-IsRight through coverage rows (inr joins) s e n a b =
        let united =
          (union_covers_iff tidy coverage (row_at tidy to_number rows) sources).0
            (subst Succeeds (sym e) tt) in
        check_floors-IsRight through joins s (
          united-All-NoLog HasLog Completed tidy sources to_number coverage rows through n a b
            united.1)

    decide_fresh-IsRight :
        (coverage : String → Option BackfillRow) (freshness : Freshness) (s : S)
        → (¬ Completed)
        → All (IsSwept HasLog Completed tidy sources coverage) sources
        → IsFreshRight HasLog Completed tidy sources freshness
        → IsRight HasLog Completed tidy sources
            (decide_fresh tidy to_number read_completion load_backfill fresh_of verify_floor sources
              coverage freshness s).0
    unfolding decide_fresh
    decide_fresh-IsRight coverage (stale detail) s n a b = tt
    decide_fresh-IsRight coverage (fresh through rows) s n a b =
        decide_union-IsRight through coverage rows _ s refl n a b

    decide-IsRight :
        (completion : Try (Option Completion)) (coverage : Try (String → Option BackfillRow))
        (freshness : Freshness) (s : S)
        → ((row : Completion) → completion ≡ ok (some row) → Completed)
        → (completion ≡ ok none → ¬ Completed)
        → ((c : String → Option BackfillRow)
            → coverage ≡ ok c
            → All (IsSwept HasLog Completed tidy sources c) sources)
        → IsFreshRight HasLog Completed tidy sources freshness
        → IsRight HasLog Completed tidy sources
            (decide tidy to_number read_completion load_backfill fresh_of verify_floor sources
              completion coverage freshness s).0
    unfolding decide decide_coverage
    decide-IsRight (throw e) coverage freshness s y n a b = tt
    decide-IsRight (ok (some row)) coverage freshness s y n a b = y row refl
    decide-IsRight (ok none) (throw e) freshness s y n a b = tt
    decide-IsRight (ok none) (ok c) freshness s y n a b =
        decide_fresh-IsRight c freshness s (n refl) (a c refl) b

    pub resolve_keyed-IsRight :
        (s : S)
        → ((row : Completion) (s' : S) → (read_completion s').0 ≡ ok (some row) → Completed)
        → ((s' : S) → (read_completion s').0 ≡ ok none → ¬ Completed)
        → ((keys : List String) (s' : S) (c : String → Option BackfillRow)
            → (load_backfill keys s').0 ≡ ok c
            → All (IsSwept HasLog Completed tidy sources c) sources)
        → ((keys : List String) (s' : S)
            → IsFreshRight HasLog Completed tidy sources (fresh_of keys s').0)
        → IsRight HasLog Completed tidy sources
            (resolve_keyed tidy to_number read_completion load_backfill fresh_of verify_floor
              sources s).0
    unfolding resolve_keyed
    resolve_keyed-IsRight s y n a b =
        decide-IsRight _ _ _ _ (λ row. y row s) (n s) (λ c. a _ _ c) (b _ _)

module _ {S : Type 0} (tidy : String → String) (to_number : String → Option ℕ)
    (read_completion : Call S (Option Completion))
    (load_backfill : List String → Call S (String → Option BackfillRow))
    (load_state : List String → Call S (Option (List RawState))) (now : Ask S ℕ)
    (lag_ms lag_blocks head : ℕ) (verify_floor : Source → Call S Bool)
    (HasLog : Source → ℕ → Type 0) (Completed : Type 0) where
  abbrev fresh_from : List String → Ask S Freshness
  fresh_from = read_freshness tidy to_number load_state now lag_ms lag_blocks head

  IsCurrent-IsFreshRight :
      (sources : List Source) (keys : List String) (r : Freshness)
      → IsCurrent tidy to_number load_state now lag_ms lag_blocks head
          (IsIndexed HasLog Completed tidy sources)
          keys
          r
      → IsFreshRight HasLog Completed tidy sources r
  IsCurrent-IsFreshRight sources keys (stale detail) h = tt
  IsCurrent-IsFreshRight sources keys (fresh through rows) h = h.0

  -- If the completion read is truthful, each log in a stored backfill interval and each log from a
  -- stored handoff up to its watermark has been written as a completion, and a floor that is
  -- verified has no log below it, then, whichever reads fail: an answer of completed is true, and
  -- an answer of absent through a block means that no source of the quest has a log of the wallet
  -- in any block up to that one.
  pub resolve-IsRight :
      (sources : List Source) (s : S)
      → ((src : Source) (s' : S) → (verify_floor src s').0 ≡ ok true → NoLog HasLog src 0 src.floor)
      → ((row : Completion) (s' : S) → (read_completion s').0 ≡ ok (some row) → Completed)
      → ((s' : S) → (read_completion s').0 ≡ ok none → ¬ Completed)
      → ((keys : List String) (s' : S) (c : String → Option BackfillRow)
          → (load_backfill keys s').0 ≡ ok c
          → All (IsSwept HasLog Completed tidy sources c) sources)
      → ((keys : List String) (s' : S) (raws : List RawState)
          → (load_state keys s').0 ≡ ok (some raws)
          → All (IsIndexed HasLog Completed tidy sources) (read_rows tidy to_number raws))
      → IsRight HasLog Completed tidy sources
          (resolve tidy to_number read_completion load_backfill fresh_from verify_floor sources s).0
  unfolding resolve
  resolve-IsRight [] s v y n a b = tt
  resolve-IsRight (src ∷ sources) s v y n a b =
      elim (Bool-cases (any (λ key. key == "") (map (source_key_of tidy) (src ∷ sources)))) [
        | inl unkeyed ↦ rw unkeyed tt
        | inr keyed ↦ rw keyed (
            resolve_keyed-IsRight tidy to_number read_completion load_backfill fresh_from
              verify_floor HasLog Completed v (src ∷ sources) s y n a
              (λ keys s'. IsCurrent-IsFreshRight (src ∷ sources) keys (fresh_from keys s').0 (
                read_freshness-IsCurrent tidy to_number load_state now lag_ms lag_blocks head
                  (IsIndexed HasLog Completed tidy (src ∷ sources)) keys s' (b keys s'))))
      ]
