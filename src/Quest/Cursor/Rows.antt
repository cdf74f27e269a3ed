-- ===== src/Quest/Cursor/Rows.antt =====
-- frontend/api/_lib/quest/cursor.js: what the rows that pass the validation are.
use text.Mathlib.Text.{◌==◌}
use perps_litvm.Base.{
  ℕ, ◌≤◌, ◌≡◌, ◌≢◌, inl, inr, refl, sym, ap, ◌∙◌, String, Bool, true, false, Option, none, some,
  List, [], ◌∷◌, ltb, arith, All, map, Bool-cases, Option-cases, ltb-false→le, le→ltb-false,
}
use text.Mathlib.TextEquality.{eq_iff}
use perps_litvm.Quest.Scan.{CoverageRow}
use perps_litvm.Quest.Cursor.{
  RawRow, to_block, text_of, interval_of, normalize_coverage_row, valid_rows, as_raw, as_raws,
  keep_if, only_dirty,
}

abbrev pub unmarked : CoverageRow → CoverageRow
unmarked row = record row { dirty = false }

-- A row that the table takes: a key in its normal form, and an interval down to the floor at most.
abbrev pub IsValidRow : (String → String) → CoverageRow → Type 0
IsValidRow tidy row =
    (row.source_key ≢ "")
    × (tidy row.source_key ≡ row.source_key)
    × (row.floor_block ≤ row.scanned_to)
    × (row.scanned_to ≤ row.scanned_from)

module _ (trim lower : String → String) (parse_int : String → Option ℕ) where
  abbrev tidy : String → String
  tidy t = lower (trim t)

  interval_of-some :
      (key : String) (a b c : Option ℕ) (row : CoverageRow)
      → interval_of trim lower parse_int key a b c ≡ some row
      → (row.source_key ≡ key)
        × (a ≡ some row.floor_block)
        × (b ≡ some row.scanned_from)
        × (c ≡ some row.scanned_to)
        × (row.floor_block ≤ row.scanned_to)
        × (row.scanned_to ≤ row.scanned_from)
  unfolding interval_of
  interval_of-some key none b c row e = cc
  interval_of-some key (some a) none c row e = cc
  interval_of-some key (some a) (some b) none row e = cc
  interval_of-some key (some a) (some b) (some c) row e = elim (Bool-cases (ltb c a)) [
    | inl under ↦ absurd (let e' = rw under at e in cc e')
    | inr over ↦ elim (Bool-cases (ltb b c)) [
      | inl turned ↦ absurd (let e' = rw (over, turned) at e in cc e')
      | inr straight ↦
          let e' = rw (over, straight) at e in
          let floors : a ≡ row.floor_block = cc e' in
          let tops : b ≡ row.scanned_from = cc e' in
          let ends : c ≡ row.scanned_to = cc e' in
          (
            cc e',
            ap some floors,
            ap some tops,
            ap some ends,
            omega (arith, ltb-false→le c a over),
            omega (arith, ltb-false→le b c straight),
          )
    ]
  ]

  normalize_coverage_row-some :
      (raw : RawRow) (row : CoverageRow)
      → normalize_coverage_row trim lower parse_int raw ≡ some row
      → (row.source_key ≡ tidy (text_of trim lower parse_int raw.source_key))
        × (row.source_key ≢ "")
        × (to_block trim lower parse_int raw.floor_block ≡ some row.floor_block)
        × (to_block trim lower parse_int raw.scanned_from ≡ some row.scanned_from)
        × (to_block trim lower parse_int raw.scanned_to ≡ some row.scanned_to)
        × (row.floor_block ≤ row.scanned_to)
        × (row.scanned_to ≤ row.scanned_from)
  unfolding normalize_coverage_row
  normalize_coverage_row-some raw row e =
      let key = tidy (text_of trim lower parse_int raw.source_key) in
      elim (Bool-cases (key == "")) [
        | inl unkeyed ↦ absurd (let e' = rw unkeyed at e in cc e')
        | inr keyed ↦
            let (a, b, c, d, f, g) =
              interval_of-some key (to_block trim lower parse_int raw.floor_block)
                (to_block trim lower parse_int raw.scanned_from)
                (to_block trim lower parse_int raw.scanned_to) row (rw keyed at e) in
            (
              a,
              λ no_key. absurd (let t = (eq_iff key "").1 (sym a ∙ no_key) in cc (t, keyed)),
              b,
              c,
              d,
              f,
              g,
            )
      ]

  -- If trimming and lowering a key again changes nothing, then whatever storage returns, the rows
  -- that pass the validation have a key in its normal form and an interval over their floor.
  pub valid_rows-IsValidRow :
      ((t : String) → tidy (tidy t) ≡ tidy t)
      → (raws : List RawRow) → All (IsValidRow tidy) (valid_rows trim lower parse_int raws)
  unfolding valid_rows
  valid_rows-IsValidRow twice [] = tt
  valid_rows-IsValidRow twice (raw ∷ raws) =
      let rest = valid_rows-IsValidRow twice raws in
      elim (Option-cases (normalize_coverage_row trim lower parse_int raw)) [
        | inl dropped ↦ rw (dropped, valid_rows) rest
        | inr (row, passed) ↦
            let (a, b, c, d, f, g, h) = normalize_coverage_row-some raw row passed in
            rw (passed, valid_rows) ((b, ap tidy a ∙ twice _ ∙ sym a, g, h), rest)
      ]

  -- What holds of all rows that a row may have become holds of the rows that pass.
  pub valid_rows-as_raws :
      (P : CoverageRow → Type 0) (rows : List CoverageRow)
      → All
          (λ row.
            (r : CoverageRow)
            → r.source_key ≡ tidy row.source_key
            → r.floor_block ≡ row.floor_block
            → r.scanned_from ≡ row.scanned_from
            → r.scanned_to ≡ row.scanned_to
            → P r)
          rows
      → All P (valid_rows trim lower parse_int (as_raws rows))
  unfolding valid_rows as_raws as_raw to_block text_of
  valid_rows-as_raws P [] h = tt
  valid_rows-as_raws P (row ∷ rows) (h, hs) =
      let rest = valid_rows-as_raws P rows hs in
      elim (Option-cases (normalize_coverage_row trim lower parse_int (as_raw row))) [
        | inl dropped ↦ rw (dropped, valid_rows) rest
        | inr (r, passed) ↦
            let (a, b, c, d, f, g, i) = normalize_coverage_row-some (as_raw row) r passed in
            rw (passed, valid_rows) (h r a (sym (cc c)) (sym (cc d)) (sym (cc f)), rest)
      ]

  interval_of-valid :
      (key : String) (a b c : ℕ)
      → a ≤ c
      → c ≤ b
      → interval_of trim lower parse_int key (some a) (some b) (some c)
        ≡ some (record {
          source_key = key;
          floor_block = a;
          scanned_from = b;
          scanned_to = c;
          dirty = false;
        })
  unfolding interval_of
  interval_of-valid key a b c p q =
      rw (le→ltb-false c a (omega (arith, p)), le→ltb-false b c (omega (arith, q))) refl

  -- A valid row that is written is read again as it was.
  normalize_coverage_row-as_raw :
      (row : CoverageRow)
      → IsValidRow tidy row
      → normalize_coverage_row trim lower parse_int (as_raw row)
        ≡ some (record row { dirty = false })
  unfolding normalize_coverage_row as_raw to_block text_of
  normalize_coverage_row-as_raw row (named, normal, low, high) =
      elim (Bool-cases (row.source_key == "")) [
        | inl unkeyed ↦ absurd (named ((eq_iff row.source_key "").0 unkeyed))
        | inr keyed ↦
            rw (normal, keyed)
              (interval_of-valid row.source_key row.floor_block row.scanned_from row.scanned_to low
                high)
      ]

  -- Valid rows pass the validation as they are, in the same order, each with no mark of a change.
  pub valid_rows-as_raws_id :
      (rows : List CoverageRow)
      → All (IsValidRow tidy) rows
      → valid_rows trim lower parse_int (as_raws rows) ≡ map unmarked rows
  unfolding valid_rows as_raws
  valid_rows-as_raws_id [] h = refl
  valid_rows-as_raws_id (row ∷ rows) (h, hs) =
      rw (normalize_coverage_row-as_raw row h, valid_rows)
        (ap (λ rest. unmarked row ∷ rest) (valid_rows-as_raws_id rows hs))

keep_if-All :
    (P : CoverageRow → Type 0) (moved : Bool) (row : CoverageRow) (rest : List CoverageRow)
    → P row
    → All P rest
    → All P (keep_if moved row rest)
unfolding keep_if
keep_if-All P true row rest h hs = (h, hs)
keep_if-All P false row rest h hs = hs

pub only_dirty-All :
    (P : CoverageRow → Type 0) (rows : List CoverageRow) → All P rows → All P (only_dirty rows)
unfolding only_dirty
only_dirty-All P [] h = tt
only_dirty-All P (row ∷ rows) (h, hs) =
    keep_if-All P row.dirty row (only_dirty rows) h (only_dirty-All P rows hs)
