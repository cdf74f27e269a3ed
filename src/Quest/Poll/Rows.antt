-- ===== src/Quest/Poll/Rows.antt =====
-- frontend/api/_lib/quest/scan.js: the phases of a scan and the rows that it returns.
use perps_litvm.Base.{
  ℕ, ◌+◌, ◌≤◌, ◌≡◌, ◌≢◌, ◌⊎◌, inl, inr, refl, sym, ap, subst, ◌∙◌, String, true, Option, some, List,
  [], ◌∷◌, Ask, arith, All, All-map, All-append, Bool-cases, Option-cases,
}
use text.Mathlib.Text.{◌==◌}
use text.Mathlib.TextEquality.{eq_iff}
use perps_litvm.Quest.Sources.{Source, source_key_of}
use perps_litvm.Quest.Scan.{
  CoverageRow, by_key, SourceState, Tally, found, out_of_fuel, seed, is_usable_prior,
}
use perps_litvm.Quest.Scan.Walk.{NoLog}
use perps_litvm.Quest.Poll.{Stepped, Phase, ends_phase, after_step, seeds, phase, row_of, rows_of}
use perps_litvm.Quest.Poll.States.{IsFine, AnyLog, StepSound}

module _ (HasLog : Source → ℕ → Type 0) (tidy : String → String) where
  -- The states are those of the sources, in order, and true.
  abbrev pub AllFine : List Source → List SourceState → Type 0
  AllFine [] [] = Unit
  AllFine (src ∷ sources) (st ∷ states) =
      IsFine HasLog src (source_key_of tidy src) st × AllFine sources states
  AllFine [] (st ∷ states) = ⊥
  AllFine (src ∷ sources) [] = ⊥

  -- One of the sources has a log.
  abbrev pub SomeLog : List Source → Type 0
  SomeLog [] = ⊥
  SomeLog (src ∷ sources) = AnyLog HasLog src ⊎ SomeLog sources

  abbrev pub PhaseSound : List Source → Phase → Type 0
  PhaseSound sources p =
      (p.outcome ≢ out_of_fuel)
      × ((p.outcome ≢ found) ⊎ SomeLog sources)
      × ((p.outcome ≡ found) ⊎ AllFine sources p.states)

  -- A row's interval has no log of the source, which has the row's key and floor.
  abbrev pub IsRowOf : CoverageRow → Source → Type 0
  IsRowOf row src =
      (source_key_of tidy src ≡ row.source_key)
      × (src.floor ≡ row.floor_block)
      × (row.scanned_to ≤ row.scanned_from)
      × NoLog HasLog src row.scanned_to (row.scanned_from + 1)

  abbrev pub IsTrueRow : List Source → CoverageRow → Type 0
  IsTrueRow [] row = ⊥
  IsTrueRow (src ∷ sources) row = IsRowOf row src ⊎ IsTrueRow sources row

  module _ {S : Type 0} (step : SourceState → Tally → Ask S Stepped)
      (sound : (src : Source) (st : SourceState) (tally : Tally) (s : S)
        → IsFine HasLog src (source_key_of tidy src) st
        → StepSound HasLog src (source_key_of tidy src) (step st tally s).0) where
    after_step-Sound :
        (src : Source) (sources : List Source) (states : List SourceState) (r : Stepped)
        (rest : Tally → Ask S Phase) (s : S)
        → StepSound HasLog src (source_key_of tidy src) r
        → AllFine sources states
        → PhaseSound sources (rest r.tally s).0
        → PhaseSound (src ∷ sources) (after_step r states rest s).0
    unfolding after_step
    after_step-Sound src sources states r rest s k h ih = elim (Bool-cases (ends_phase r.outcome)) [
      | inl ends ↦
          rw (ends, after_step)
            (
              k.0,
              elim k.1 [ inl n ↦ inl n | inr a ↦ inr (inl a) ],
              elim k.2 [ inl f ↦ inl f | inr g ↦ inr (g, h) ],
            )
      | inr goes ↦
          let fine : IsFine HasLog src (source_key_of tidy src) r.st = elim k.2 [
            | inl f ↦ absurd (let e = rw f at goes in unfold ends_phase in cc e)
            | inr g ↦ g
          ] in
          rw (goes, after_step)
            (
              ih.0,
              elim ih.1 [ inl n ↦ inl n | inr a ↦ inr (inr a) ],
              elim ih.2 [ inl f ↦ inl f | inr g ↦ inr (fine, g) ],
            )
    ]

    pub phase-Sound :
        (sources : List Source) (states : List SourceState) (tally : Tally) (s : S)
        → AllFine sources states
        → PhaseSound sources (phase step states tally s).0
    unfolding phase
    phase-Sound [] [] tally s h = ((λ x. cc), inl (λ x. cc), inr tt)
    phase-Sound [] (st ∷ states) tally s h = elim h [ ]
    phase-Sound (src ∷ sources) [] tally s h = elim h [ ]
    phase-Sound (src ∷ sources) (st ∷ states) tally s (h, hs) =
        after_step-Sound src sources states (step st tally s).0 (phase step states)
          (step st tally s).1 (sound src st tally s h) hs
          (phase-Sound sources states (step st tally s).0.tally (step st tally s).1 hs)

  -- The listed sources of a source's key have no logs where it has none.
  abbrev pub AgreeWith : List Source → Source → Type 0
  AgreeWith listed src =
      All
        (λ a.
          source_key_of tidy a ≡ source_key_of tidy src
          → (lo hi : ℕ) → NoLog HasLog a lo hi
          → NoLog HasLog src lo hi)
        listed

  -- The stored rows of the listed sources are true.
  abbrev pub IsTruePrior : (String → Option CoverageRow) → List Source → Type 0
  IsTruePrior prior sources =
      All
        (λ src.
          (row : CoverageRow)
          → prior (source_key_of tidy src) ≡ some row
          → row.floor_block ≡ src.floor
          → NoLog HasLog src row.scanned_to (row.scanned_from + 1))
        sources

  is_usable_prior-facts :
      (row : CoverageRow) (src : Source)
      → is_usable_prior (some row) src ≡ true
      → (row.floor_block ≡ src.floor)
        × (row.scanned_to ≤ row.scanned_from)
        × (src.floor ≤ row.scanned_to)
  unfolding is_usable_prior
  is_usable_prior-facts row src h = (ground arith, ground arith, ground arith)

  seed-IsFine :
      (prior : String → Option CoverageRow) (src : Source)
      → ((row : CoverageRow)
          → prior (source_key_of tidy src) ≡ some row
          → row.floor_block ≡ src.floor
          → NoLog HasLog src row.scanned_to (row.scanned_from + 1))
      → IsFine HasLog src (source_key_of tidy src) (seed tidy prior src)
  unfolding seed
  seed-IsFine prior src h =
      elim (Bool-cases (is_usable_prior (prior (source_key_of tidy src)) src)) [
        | inr unusable ↦ rw unusable (refl, refl, inl (refl, refl))
        | inl usable ↦ elim (Option-cases (prior (source_key_of tidy src))) [
          | inl missing ↦ rw (usable, missing) (refl, refl, inl (refl, refl))
          | inr (row, e) ↦
              let (floors, order, up) =
                is_usable_prior-facts row src
                  (subst (λ o. is_usable_prior o src ≡ true) e usable) in
              rw (usable, e)
                (
                  refl,
                  refl,
                  inr (row.scanned_from, row.scanned_to, refl, refl, order, up, h row e floors),
                )
        ]
      ]

  pub seeds-AllFine :
      (prior : String → Option CoverageRow) (sources : List Source)
      → IsTruePrior prior sources
      → AllFine sources (seeds tidy prior sources)
  unfolding seeds
  seeds-AllFine prior [] h = tt
  seeds-AllFine prior (src ∷ sources) (h, hs) =
      (seed-IsFine prior src h, seeds-AllFine prior sources hs)

  row_of-IsTrueRow :
      (src : Source) (sources : List Source) (st : SourceState)
      → IsFine HasLog src (source_key_of tidy src) st
      → All (IsTrueRow (src ∷ sources)) (row_of st st.from st.to)
  unfolding row_of
  row_of-IsTrueRow src sources st (s, k, inl (no_from, no_to)) = rw no_from tt
  row_of-IsTrueRow src sources st (s, k, inr (f, t, hf, ht, le, up, clean)) =
      rw (hf, ht)
        (elim (Bool-cases (st.key == "")) [
          | inl unkeyed ↦ rw unkeyed tt
          | inr keyed ↦ rw keyed (inl (sym k, ap (λ (x : Source). x.floor) (sym s), le, clean), tt)
        ])

  pub rows_of-IsTrueRow :
      (sources : List Source) (states : List SourceState)
      → AllFine sources states
      → All (IsTrueRow sources) (rows_of states)
  unfolding rows_of
  rows_of-IsTrueRow [] [] h = tt
  rows_of-IsTrueRow [] (st ∷ states) h = elim h [ ]
  rows_of-IsTrueRow (src ∷ sources) [] h = elim h [ ]
  rows_of-IsTrueRow (src ∷ sources) (st ∷ states) (h, hs) =
      All-append (IsTrueRow (src ∷ sources)) (row_of st st.from st.to) (rows_of states)
        (row_of-IsTrueRow src sources st h)
        (All-map (rows_of states) (λ x k. inr k) (rows_of-IsTrueRow sources states hs))

  pub by_key-All :
      (P : CoverageRow → Type 0) (rows : List CoverageRow) (key : String) (row : CoverageRow)
      → All P rows
      → by_key rows key ≡ some row
      → (row.source_key ≡ key) × P row
  unfolding by_key
  by_key-All P [] key row h e = cc
  by_key-All P (r ∷ rows) key row (h, hs) e = elim (Option-cases (by_key rows key)) [
    | inr (x, later) ↦ by_key-All P rows key row hs (let e' = rw later at e in later ∙ e')
    | inl nothing ↦ elim (Bool-cases (r.source_key == key)) [
      | inr other ↦ absurd (let e' = rw (nothing, other) at e in cc e')
      | inl same ↦
          let here : r ≡ row = let e' = rw (nothing, same) at e in cc e' in
          (
            ap (λ (x : CoverageRow). x.source_key) (sym here) ∙ (eq_iff r.source_key key).0 same,
            subst P here h,
          )
    ]
  ]

  -- The source of a row agrees with each source of its key.
  pub IsTrueRow-NoLog :
      (listed : List Source) (row : CoverageRow) (src : Source)
      → AgreeWith listed src
      → row.source_key ≡ source_key_of tidy src
      → IsTrueRow listed row
      → NoLog HasLog src row.scanned_to (row.scanned_from + 1)
  IsTrueRow-NoLog [] row src agree k h = elim h [ ]
  IsTrueRow-NoLog (a ∷ listed) row src (agree, rest) k (inl h) =
      agree (h.0 ∙ k) row.scanned_to (row.scanned_from + 1) h.3
  IsTrueRow-NoLog (a ∷ listed) row src (agree, rest) k (inr h) =
      IsTrueRow-NoLog listed row src rest k h
