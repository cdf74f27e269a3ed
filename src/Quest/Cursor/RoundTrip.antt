-- ===== src/Quest/Cursor/RoundTrip.antt =====
-- frontend/api/_lib/quest/cursor.js: rows that the store saves and then loads.
use perps_litvm.Base.{
  ℕ, ◌≡◌, refl, ap, ◌∙◌, String, Option, some, List, [], ◌∷◌, All, map, length, ok, suc,
}
use perps_litvm.Quest.Scan.{CoverageRow}
use perps_litvm.Quest.Cursor.{
  Identity, Driver, as_raws, save_valid, save_rows, load_rows, loaded, saved,
}
use perps_litvm.Quest.Cursor.Rows.{unmarked, IsValidRow, valid_rows-as_raws_id}

unmarked_twice : (rows : List CoverageRow) → map unmarked (map unmarked rows) ≡ map unmarked rows
unmarked_twice [] = refl
unmarked_twice (row ∷ rows) = ap (λ rest. unmarked row ∷ rest) (unmarked_twice rows)

length-unmarked : (rows : List CoverageRow) → length (map unmarked rows) ≡ length rows
length-unmarked [] = refl
length-unmarked (row ∷ rows) = ap suc (length-unmarked rows)

unmarked-IsValidRow :
    (tidy : String → String) (rows : List CoverageRow)
    → All (IsValidRow tidy) rows
    → All (IsValidRow tidy) (map unmarked rows)
unmarked-IsValidRow tidy [] h = tt
unmarked-IsValidRow tidy (row ∷ rows) (h, hs) = (h, unmarked-IsValidRow tidy rows hs)

module _ {S : Type 0} (trim lower : String → String) (parse_int : String → Option ℕ)
    (driver : Driver S) where
  -- What a store that has taken these rows loads: all of them, since they pass the validation again.
  loaded-unmarked :
      (rows : List CoverageRow)
      → All (IsValidRow (λ t. lower (trim t))) rows
      → loaded trim lower parse_int driver (ok (some (as_raws (map unmarked rows))))
        ≡ map unmarked rows
  unfolding loaded
  loaded-unmarked rows valid =
      valid_rows-as_raws_id trim lower parse_int (map unmarked rows)
        (unmarked-IsValidRow (λ t. lower (trim t)) rows valid)
      ∙ unmarked_twice rows

  -- If the driver takes the batch of some valid rows and then loads what it has taken, as it does for
  -- a wallet's first rows with a key each, then a save of the rows counts all of them, and the load
  -- after it gives the same rows in the same order, with no mark of a change.
  pub load_rows-save_rows :
      (id : Identity) (row : CoverageRow) (rows : List CoverageRow) (s : S)
      → (driver.save id (map unmarked (row ∷ rows)) s).0 ≡ ok tt
      → (driver.load id (driver.save id (map unmarked (row ∷ rows)) s).1).0
        ≡ ok (some (as_raws (map unmarked (row ∷ rows))))
      → All (IsValidRow (λ t. lower (trim t))) (row ∷ rows)
      → let done = save_rows trim lower parse_int driver id (row ∷ rows) s in
        (done.0 ≡ length (row ∷ rows))
        × ((load_rows trim lower parse_int driver id done.1).0 ≡ map unmarked (row ∷ rows))
  unfolding save_rows save_valid saved load_rows
  load_rows-save_rows id row rows s takes keeps valid =
      let passed = valid_rows-as_raws_id trim lower parse_int (row ∷ rows) valid in
      rw passed
        (rw takes (length-unmarked (row ∷ rows)), rw keeps (loaded-unmarked (row ∷ rows) valid))
