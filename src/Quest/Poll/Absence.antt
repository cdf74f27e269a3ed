-- ===== src/Quest/Poll/Absence.antt =====
-- frontend/api/_lib/quest/scan.js: a scan answers no only where there is nothing.
use perps_litvm.Base.{
  ℕ, ◌+◌, ◌≤◌, ◌<◌, ◌≡◌, ◌≢◌, ◌⊎◌, inl, inr, refl, String, Bool, true, false, Option, List, [], ◌∷◌,
  Try, ok, throw, Ask, Call, arith, All, Bool-cases, Option-cases,
}
use perps_litvm.Quest.Sources.{Source, source_key_of}
use perps_litvm.Quest.Scan.{
  CoverageRow, by_key, covers, all_covered, coverage_proves_absence, SourceState, Tally, Limits,
  found, done, error, budget, out_of_fuel,
}
use perps_litvm.Quest.Scan.Walk.{All-NoLog_join, NoLog, IsTruthful}
use perps_litvm.Quest.Poll.{
  Scan, Phase, close_gap, deepen, seeds, phase, rows_of, positive, unproven, negative, is_budget,
  floor_ok, floors_ok, verdict, unless_found, phase_b, scan_states, scan_for_event, fresh_tally,
}
use perps_litvm.Quest.Poll.States.{IsFine, StepSound, close_from-Sound, deepen-Sound}
use perps_litvm.Quest.Poll.Rows.{
  AllFine, SomeLog, PhaseSound, IsTrueRow, AgreeWith, IsTruePrior, phase-Sound, seeds-AllFine,
  rows_of-IsTrueRow, by_key-All, IsTrueRow-NoLog,
}

module _ (HasLog : Source → ℕ → Type 0) (tidy : String → String) (head : ℕ) where
  covers-NoLog :
      (listed : List Source) (rows : List CoverageRow) (src : Source)
      → All (IsTrueRow HasLog tidy listed) rows
      → AgreeWith HasLog tidy listed src
      → covers head src (by_key rows (source_key_of tidy src)) ≡ true
      → NoLog HasLog src src.floor (head + 1)
  unfolding covers
  covers-NoLog listed rows src h agree e =
      elim (Option-cases (by_key rows (source_key_of tidy src))) [
        | inl missing ↦ absurd (let e' = rw missing at e in cc e')
        | inr (row, there) ↦
            let (keyed, row_true) =
              by_key-All HasLog tidy (IsTrueRow HasLog tidy listed) rows (source_key_of tidy src)
                row h there in
            let clean = IsTrueRow-NoLog HasLog tidy listed row src agree keyed row_true in
            let e' = rw there at e in
            let at_floor : row.scanned_to ≡ src.floor = ground arith in
            let to_head : head ≤ row.scanned_from = ground arith in
            λ b p q. clean b (omega arith) (omega arith)
      ]

  all_covered-NoLog :
      (listed : List Source) (rows : List CoverageRow) (sources : List Source)
      → All (IsTrueRow HasLog tidy listed) rows
      → All (AgreeWith HasLog tidy listed) sources
      → all_covered tidy (by_key rows) head sources ≡ true
      → All (λ src. NoLog HasLog src src.floor (head + 1)) sources
  unfolding all_covered
  all_covered-NoLog listed rows [] h agree e = tt
  all_covered-NoLog listed rows (src ∷ sources) h (agree, rest) e =
      elim (Bool-cases (covers head src (by_key rows (source_key_of tidy src)))) [
        | inr short ↦ absurd (let e' = rw short at e in cc e')
        | inl enough ↦ (
          covers-NoLog listed rows src h agree enough,
          all_covered-NoLog listed rows sources h rest (let e' = rw enough at e in e'),
        )
      ]

  pub coverage_proves_absence-NoLog :
      (sources : List Source) (rows : List CoverageRow)
      → All (IsTrueRow HasLog tidy sources) rows
      → All (AgreeWith HasLog tidy sources) sources
      → coverage_proves_absence tidy sources (by_key rows) head ≡ true
      → All (λ src. NoLog HasLog src src.floor (head + 1)) sources
  unfolding coverage_proves_absence
  coverage_proves_absence-NoLog [] rows h agree e = tt
  coverage_proves_absence-NoLog (src ∷ sources) rows h agree e =
      all_covered-NoLog (src ∷ sources) rows (src ∷ sources) h agree e

-- What a scan's answer says: found, that a source has a log; complete and not found, that no block
-- up to the head has one; and each row of its coverage, that its blocks have none.
abbrev pub IsAnswer : (Source → ℕ → Type 0) → (String → String) → ℕ → List Source → Scan → Type 0
IsAnswer HasLog tidy head sources r =
    ((r.found ≡ false) ⊎ SomeLog HasLog tidy sources)
    × ((r.found ≡ true) ⊎ (r.complete ≡ false) ⊎ All (λ src. NoLog HasLog src 0 (head + 1)) sources)
    × All (IsTrueRow HasLog tidy sources) r.coverage

module _ {S Log : Type 0} (tidy : String → String) (limits : Limits) (now : Ask S ℕ)
    (query : Source → ℕ → ℕ → Call S (List Log)) (verify_floor : Source → Call S Bool)
    (HasLog : Source → ℕ → Type 0) (truthful : IsTruthful HasLog query)
    (verified : (src : Source) (s : S)
      → (verify_floor src s).0 ≡ ok true
      → NoLog HasLog src 0 src.floor)
    (chunk_pos : 0 < limits.chunk_blocks) (sources : List Source)
    (agree : All (AgreeWith HasLog tidy sources) sources) where
  floor_ok-NoLog :
      (src : Source) (s : S)
      → (floor_ok tidy limits now query verify_floor src s).0 ≡ true
      → NoLog HasLog src 0 src.floor
  unfolding floor_ok
  floor_ok-NoLog src s h = go (verify_floor src s).0 refl
    where
      go : (r : Try Bool) → (verify_floor src s).0 ≡ r → NoLog HasLog src 0 src.floor
      go (ok true) e = verified src s e
      go (ok false) e = absurd (let h' = rw e at h in cc h')
      go (throw x) e = absurd (let h' = rw e at h in cc h')

  floors_ok-NoLog :
      (list : List Source) (s : S)
      → (floors_ok tidy limits now query verify_floor list s).0 ≡ true
      → All (λ src. NoLog HasLog src 0 src.floor) list
  unfolding floors_ok
  floors_ok-NoLog [] s h = tt
  floors_ok-NoLog (src ∷ list) s h =
      elim (Bool-cases (floor_ok tidy limits now query verify_floor src s).0) [
        | inr bad ↦ absurd (let h' = rw (bad, floors_ok) at h in cc h')
        | inl good ↦ (
          floor_ok-NoLog src s good,
          floors_ok-NoLog list (floor_ok tidy limits now query verify_floor src s).1
              (rw (good, floors_ok) at h),
        )
      ]

  verdict-IsAnswer :
      (p : Phase) (s : S)
      → AllFine HasLog tidy sources p.states
      → IsAnswer HasLog tidy limits.head sources
          (verdict tidy limits now query verify_floor sources p s).0
  unfolding verdict unproven negative
  verdict-IsAnswer p s h =
      let rows = rows_of p.states in
      let rows_true = rows_of-IsTrueRow HasLog tidy sources p.states h in
      elim (Bool-cases (coverage_proves_absence tidy sources (by_key rows) limits.head)) [
        | inr short ↦ rw short (inl refl, inr (inl refl), rows_true)
        | inl enough ↦ elim (Bool-cases p.tally.had_chunk_error) [
          | inl failed ↦ rw (enough, failed) (inl refl, inr (inl refl), rows_true)
          | inr fine ↦
              elim (Bool-cases (floors_ok tidy limits now query verify_floor sources s).0) [
                | inr bad ↦ rw (enough, fine, bad) (inl refl, inr (inl refl), rows_true)
                | inl good ↦
                    rw (enough, fine, good)
                      (
                        inl refl,
                        inr (
                            inr (
                              All-NoLog_join HasLog (limits.head + 1) sources
                                (floors_ok-NoLog sources s good)
                                (coverage_proves_absence-NoLog HasLog tidy limits.head sources rows
                                  rows_true agree enough))),
                        rows_true,
                      )
              ]
        ]
      ]

  unless_found-IsAnswer :
      (p : Phase) (rest : Phase → Ask S Scan) (s : S)
      → PhaseSound HasLog tidy sources p
      → (AllFine HasLog tidy sources p.states
          → IsAnswer HasLog tidy limits.head sources (rest p s).0)
      → IsAnswer HasLog tidy limits.head sources
          (unless_found tidy limits now query verify_floor p rest s).0
  unfolding unless_found positive
  unless_found-IsAnswer p rest s (a, b, c) k =
      let go_on = λ (n : p.outcome ≢ found). k (elim c [ inl f ↦ absurd (n f) | inr g ↦ g ]) in
      (elim p.outcome
          as (λ o.
            p.outcome ≡ o
            → IsAnswer HasLog tidy limits.head sources
                (unless_found tidy limits now query verify_floor p rest s).0) [
                  | found ↦ λ e.
                      rw (unless_found, e)
                        (inr (elim b [ inl n ↦ absurd (n e) | inr l ↦ l ]), inl refl, tt)
                  | done ↦ λ e. rw (unless_found, e) (go_on (λ x. cc (e, x)))
                  | error ↦ λ e. rw (unless_found, e) (go_on (λ x. cc (e, x)))
                  | budget ↦ λ e. rw (unless_found, e) (go_on (λ x. cc (e, x)))
                  | out_of_fuel ↦ λ e. rw (unless_found, e) (go_on (λ x. cc (e, x)))
                ])
        refl

  close_gap-Sound :
      (started_at : ℕ) (src : Source) (st : SourceState) (tally : Tally) (s : S)
      → IsFine HasLog src (source_key_of tidy src) st
      → StepSound HasLog src
          (source_key_of tidy src)
          (close_gap tidy limits now query verify_floor started_at st tally s).0
  unfolding close_gap
  close_gap-Sound started_at src st tally s h =
      close_from-Sound tidy limits now query verify_floor HasLog truthful chunk_pos started_at src
        (source_key_of tidy src) st tally st.from s refl h

  phase_b-Sound :
      (started_at : ℕ) (a : Phase) (s : S)
      → PhaseSound HasLog tidy sources a
      → AllFine HasLog tidy sources a.states
      → PhaseSound HasLog tidy sources (phase_b tidy limits now query verify_floor started_at a s).0
  unfolding phase_b
  phase_b-Sound started_at a s p h = elim (Bool-cases (is_budget a.outcome)) [
    | inl spent ↦ rw spent p
    | inr left ↦ rw left (
        phase-Sound HasLog tidy (deepen tidy limits now query verify_floor started_at)
          (λ src st tally s' k.
            deepen-Sound tidy limits now query verify_floor HasLog truthful chunk_pos started_at src
              (source_key_of tidy src) st tally s' k)
          sources a.states a.tally s h)
  ]

  -- If the node answers truthfully from a floor on, the stored intervals of the sources are true,
  -- a floor that is verified has no log below it, sources of one key have the same logs and chunks
  -- are not empty, then whatever the clock, the budget and the failed reads do: a scan that says
  -- found has a source with a log; one that is complete and not found has none in any block up to
  -- the head; and every interval that it returns is of a source and has no log of it.
  pub scan_for_event-IsAnswer :
      (prior : String → Option CoverageRow) (s : S)
      → IsTruePrior HasLog tidy prior sources
      → IsAnswer HasLog tidy limits.head sources
          (scan_for_event tidy limits now query verify_floor sources prior s).0
  unfolding scan_for_event scan_states
  scan_for_event-IsAnswer prior s h =
      let (t, s₁) = now s in
      let states = seeds tidy prior sources in
      let gaps =
        phase (close_gap tidy limits now query verify_floor t) states
          (fresh_tally tidy limits now query verify_floor) s₁ in
      let a =
        phase-Sound HasLog tidy (close_gap tidy limits now query verify_floor t) (close_gap-Sound t)
          sources states (fresh_tally tidy limits now query verify_floor) s₁
          (seeds-AllFine HasLog tidy prior sources h) in
      unless_found-IsAnswer gaps.0
        (λ p s₂.
          unless_found tidy limits now query verify_floor
            (phase_b tidy limits now query verify_floor t p s₂).0
            (verdict tidy limits now query verify_floor sources)
            (phase_b tidy limits now query verify_floor t p s₂).1)
        gaps.1 a
        (λ fine.
          let b = phase_b-Sound t gaps.0 gaps.1 a fine in
          unless_found-IsAnswer (phase_b tidy limits now query verify_floor t gaps.0 gaps.1).0
            (verdict tidy limits now query verify_floor sources)
            (phase_b tidy limits now query verify_floor t gaps.0 gaps.1).1 b
            (λ fine_b. verdict-IsAnswer _ _ fine_b))
