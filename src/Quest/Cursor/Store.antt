-- ===== src/Quest/Cursor/Store.antt =====
-- frontend/api/_lib/quest/cursor.js: `memoryCursorDriver`, a Map from the text of a wallet's prefix
-- and a source's key to the row. Texts are lists of code points; `decimal` is the text of a number.
use perps_litvm.Base.{
  ℕ, ◌≡◌, ◌≢◌, refl, sym, ap, ◌∙◌, String, Bool, true, false, ◌&&◌, Option, some, List, [], ◌∷◌,
  ◌++◌, if◌then◌else◌, All, map, length, ok, codes, Bool-cases, arith, inl, inr,
}
use perps_litvm.Base.{◌==◌ as num_eq}
use perps_litvm.Quest.Scan.{CoverageRow}
use perps_litvm.Quest.Cursor.{Identity, RawRow, Driver, as_raw, as_raws, save_rows, load_rows}
use perps_litvm.Quest.Cursor.Rows.{unmarked, IsValidRow}
use perps_litvm.Quest.Cursor.RoundTrip.{load_rows-save_rows}

pub same_key : List ℕ → List ℕ → Bool
same_key [] [] = true
same_key (c ∷ s) (d ∷ t) = num_eq c d && same_key s t
same_key _ _ = false

-- `k.startsWith(p)`
pub begins : List ℕ → List ℕ → Bool
begins [] text = true
begins (c ∷ word) [] = false
begins (c ∷ word) (d ∷ text) = num_eq c d && begins word text

abbrev pub MemoryRows : Type 0
MemoryRows = List (List ℕ × CoverageRow)

-- `rows.set(key, row)`, which keeps the place of a key that is there.
pub set_row : List ℕ → CoverageRow → MemoryRows → MemoryRows
unfolding same_key
set_row key row [] = (key, row) ∷ []
set_row key row ((k, old) ∷ s) =
    let rest = set_row key row s in if same_key k key then (k, row) ∷ s else (k, old) ∷ rest

pub set_rows : List ℕ → List CoverageRow → MemoryRows → MemoryRows
unfolding set_row
set_rows prefix [] s = s
set_rows prefix (row ∷ rows) s =
    set_rows prefix rows (set_row (prefix ++ codes row.source_key) row s)

pub rows_under : List ℕ → MemoryRows → List RawRow
unfolding begins
rows_under prefix [] = []
rows_under prefix ((k, row) ∷ s) =
    let rest = rows_under prefix s in if begins prefix k then as_raw row ∷ rest else rest

-- `${id.chainId}:${id.wallet}:${id.quest}:`
pub key_prefix : (ℕ → List ℕ) → Identity → List ℕ
key_prefix decimal id =
    decimal id.chain_id ++ (b':' ∷ codes id.wallet ++ (b':' ∷ codes id.quest ++ (b':' ∷ [])))

pub memory_cursor_driver : (ℕ → List ℕ) → Driver MemoryRows
unfolding set_rows rows_under key_prefix
memory_cursor_driver decimal = record {
  load = λ id s. (ok (some (rows_under (key_prefix decimal id) s)), s);
  save = λ id rows s. (ok tt, set_rows (key_prefix decimal id) rows s);
}

begins-append : (word text : List ℕ) → begins word (word ++ text) ≡ true
unfolding begins
begins-append [] text = refl
begins-append (c ∷ word) text = ground (arith, begins-append word text)

same_key→eq : (s t : List ℕ) → same_key s t ≡ true → s ≡ t
unfolding same_key
same_key→eq [] [] h = refl
same_key→eq (c ∷ s) (d ∷ t) h = ground (arith, same_key→eq s t)
same_key→eq [] (d ∷ t) h = cc
same_key→eq (c ∷ s) [] h = cc

same_key-append : (p s t : List ℕ) → s ≢ t → same_key (p ++ s) (p ++ t) ≡ false
unfolding same_key
same_key-append [] s t h = elim (Bool-cases (same_key s t)) [
  | inl same ↦ absurd (h (same_key→eq s t same))
  | inr other ↦ other
]
same_key-append (c ∷ p) s t h = ground (arith, same_key-append p s t h)

-- Rows of different sources.
abbrev pub AreDistinct : List CoverageRow → Type 0
AreDistinct [] = Unit
AreDistinct (row ∷ rows) =
    All (λ (other : CoverageRow). codes row.source_key ≢ codes other.source_key) rows
    × AreDistinct rows

abbrev entry : List ℕ → CoverageRow → List ℕ × CoverageRow
entry prefix row = (prefix ++ codes row.source_key, row)

-- A store that has none of the keys of these rows.
abbrev IsFree : List ℕ → CoverageRow → MemoryRows → Type 0
IsFree prefix row s =
    All (λ (e : List ℕ × CoverageRow). same_key e.0 (prefix ++ codes row.source_key) ≡ false) s

set_row-new :
    (prefix : List ℕ) (row : CoverageRow) (s : MemoryRows)
    → IsFree prefix row s
    → set_row (prefix ++ codes row.source_key) row s ≡ s ++ (entry prefix row ∷ [])
unfolding set_row
set_row-new prefix row [] h = refl
set_row-new prefix row ((k, old) ∷ s) (h, hs) =
    rw h (ap (λ rest. (k, old) ∷ rest) (set_row-new prefix row s hs))

IsFree-snoc :
    (prefix : List ℕ) (row other : CoverageRow) (s : MemoryRows)
    → codes row.source_key ≢ codes other.source_key
    → IsFree prefix other s
    → IsFree prefix other (s ++ (entry prefix row ∷ []))
IsFree-snoc prefix row other [] n h =
    (same_key-append prefix (codes row.source_key) (codes other.source_key) n, tt)
IsFree-snoc prefix row other (e ∷ s) n (h, hs) = (h, IsFree-snoc prefix row other s n hs)

AreFree-snoc :
    (prefix : List ℕ) (row : CoverageRow) (rows : List CoverageRow) (s : MemoryRows)
    → All (λ (other : CoverageRow). codes row.source_key ≢ codes other.source_key) rows
    → All (λ other. IsFree prefix other s) rows
    → All (λ other. IsFree prefix other (s ++ (entry prefix row ∷ []))) rows
AreFree-snoc prefix row [] s n h = tt
AreFree-snoc prefix row (other ∷ rows) s (n, ns) (h, hs) =
    (IsFree-snoc prefix row other s n h, AreFree-snoc prefix row rows s ns hs)

append-snoc {ℓ} :
    {A : Type ℓ} (xs : List A) (y : A) (ys : List A) → (xs ++ (y ∷ [])) ++ ys ≡ xs ++ (y ∷ ys)
append-snoc [] y ys = refl
append-snoc (x ∷ xs) y ys = ap (λ rest. x ∷ rest) (append-snoc xs y ys)

append_nil {ℓ} : {A : Type ℓ} (xs : List A) → xs ++ [] ≡ xs
append_nil [] = refl
append_nil (x ∷ xs) = ap (λ rest. x ∷ rest) (append_nil xs)

set_rows-new :
    (prefix : List ℕ) (rows : List CoverageRow) (s : MemoryRows)
    → AreDistinct rows
    → All (λ row. IsFree prefix row s) rows
    → set_rows prefix rows s ≡ s ++ map (entry prefix) rows
unfolding set_rows
set_rows-new prefix [] s d h = sym (append_nil s)
set_rows-new prefix (row ∷ rows) s (n, d) (h, hs) =
    ap (set_rows prefix rows) (set_row-new prefix row s h)
    ∙ set_rows-new prefix rows (s ++ (entry prefix row ∷ [])) d
        (AreFree-snoc prefix row rows s n hs)
    ∙ append-snoc s (entry prefix row) (map (entry prefix) rows)

rows_under-entries :
    (prefix : List ℕ) (rows : List CoverageRow)
    → rows_under prefix (map (entry prefix) rows) ≡ as_raws rows
unfolding rows_under as_raws
rows_under-entries prefix [] = refl
rows_under-entries prefix (row ∷ rows) =
    rw (begins-append prefix (codes row.source_key))
      (ap (λ rest. as_raw row ∷ rest) (rows_under-entries prefix rows))

AreFree-empty : (prefix : List ℕ) (rows : List CoverageRow) → All (λ row. IsFree prefix row []) rows
AreFree-empty prefix [] = tt
AreFree-empty prefix (row ∷ rows) = (tt, AreFree-empty prefix rows)

differs-unmarked :
    (row : CoverageRow) (rows : List CoverageRow)
    → All (λ (other : CoverageRow). codes row.source_key ≢ codes other.source_key) rows
    → All
        (λ (other : CoverageRow). codes row.source_key ≢ codes other.source_key)
        (map unmarked rows)
differs-unmarked row [] h = tt
differs-unmarked row (other ∷ rows) (h, hs) = (h, differs-unmarked row rows hs)

AreDistinct-unmarked :
    (rows : List CoverageRow) → AreDistinct rows → AreDistinct (map unmarked rows)
AreDistinct-unmarked [] d = tt
AreDistinct-unmarked (row ∷ rows) (n, d) =
    (differs-unmarked row rows n, AreDistinct-unmarked rows d)

-- A first batch of different sources is loaded as it was taken.
memory_cursor_driver-loads :
    (decimal : ℕ → List ℕ) (id : Identity) (rows : List CoverageRow)
    → AreDistinct rows
    → let driver = memory_cursor_driver decimal in
      (driver.load id (driver.save id rows []).1).0 ≡ ok (some (as_raws rows))
unfolding memory_cursor_driver
memory_cursor_driver-loads decimal id rows d =
    let prefix = key_prefix decimal id in
    ap (λ s. ok (some (rows_under prefix s)))
      (set_rows-new prefix rows [] d (AreFree-empty prefix rows))
    ∙ ap (λ raws. ok (some raws)) (rows_under-entries prefix rows)

-- From an empty driver in memory, valid rows of different sources that are saved are all counted,
-- and the load after the save gives the same rows in the same order, with no mark of a change.
pub load_rows-memory_cursor_driver :
    (trim lower : String → String) (parse_int : String → Option ℕ) (decimal : ℕ → List ℕ)
    (id : Identity) (row : CoverageRow) (rows : List CoverageRow)
    → AreDistinct (row ∷ rows)
    → All (IsValidRow (λ t. lower (trim t))) (row ∷ rows)
    → let driver = memory_cursor_driver decimal in
      let done = save_rows trim lower parse_int driver id (row ∷ rows) [] in
      (done.0 ≡ length (row ∷ rows))
      × ((load_rows trim lower parse_int driver id done.1).0 ≡ map unmarked (row ∷ rows))
load_rows-memory_cursor_driver trim lower parse_int decimal id row rows d valid =
    load_rows-save_rows trim lower parse_int (memory_cursor_driver decimal) id row rows []
      (unfold memory_cursor_driver in refl)
      (memory_cursor_driver-loads decimal id (map unmarked (row ∷ rows))
        (AreDistinct-unmarked (row ∷ rows) d))
      valid
