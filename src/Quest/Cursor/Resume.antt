-- ===== src/Quest/Cursor/Resume.antt =====
-- frontend/api/_lib/quest/cursor.js: what a resumed scan answers, and what it leaves in the store.
use perps_litvm.Base.{
  ℕ, ◌+◌, ◌<◌, ◌≡◌, inl, inr, refl, sym, ap, subst, ◌∙◌, String, Bool, true, Option, none, some,
  List, [], ◌∷◌, Try, ok, throw, Ask, Call, All, All-map, Bool-cases,
}
use perps_litvm.Quest.Sources.{Source, source_key_of}
use perps_litvm.Quest.Scan.{CoverageRow, Limits, by_key}
use perps_litvm.Quest.Scan.Walk.{NoLog, IsTruthful}
use perps_litvm.Quest.Poll.{Scan, scan_for_event}
use perps_litvm.Quest.Poll.Rows.{IsTrueRow, AgreeWith, IsTruePrior, by_key-All, IsTrueRow-NoLog}
use perps_litvm.Quest.Poll.Absence.{IsAnswer, scan_for_event-IsAnswer}
use perps_litvm.Quest.Poll.Frame.{scan_for_event-keeps}
use perps_litvm.Quest.Cursor.{
  RawRow, Identity, Driver, valid_rows, as_raws, only_dirty, loaded, load_rows, save_valid,
  save_rows, persist, scan_plain, scan_resumed,
}
use perps_litvm.Quest.Cursor.Rows.{valid_rows-as_raws, only_dirty-All}

-- A stored row is true of each source that it is used for.
abbrev pub IsTrueOf : (Source → ℕ → Type 0) → (String → String) → List Source → CoverageRow → Type 0
IsTrueOf HasLog tidy sources row =
    All
      (λ src.
        row.source_key ≡ source_key_of tidy src
        → row.floor_block ≡ src.floor
        → NoLog HasLog src row.scanned_to (row.scanned_from + 1))
      sources

module _ (HasLog : Source → ℕ → Type 0) (tidy : String → String) where
  IsTrueRow-tidy :
      ((t : String) → tidy (tidy t) ≡ tidy t)
      → (listed : List Source) (row : CoverageRow) → IsTrueRow HasLog tidy listed row
      → tidy row.source_key ≡ row.source_key
  unfolding source_key_of
  IsTrueRow-tidy twice [] row h = elim h [ ]
  IsTrueRow-tidy twice (a ∷ listed) row (inl h) = ap tidy (sym h.0) ∙ twice _ ∙ h.0
  IsTrueRow-tidy twice (a ∷ listed) row (inr h) = IsTrueRow-tidy twice listed row h

  -- A row that a scan returned is true when it is read again.
  IsTrueRow-IsTrueOf :
      ((t : String) → tidy (tidy t) ≡ tidy t)
      → (listed sources : List Source) (row r : CoverageRow)
      → All (AgreeWith HasLog tidy listed) sources
      → IsTrueRow HasLog tidy listed row
      → r.source_key ≡ tidy row.source_key
      → r.scanned_from ≡ row.scanned_from
      → r.scanned_to ≡ row.scanned_to
      → IsTrueOf HasLog tidy sources r
  IsTrueRow-IsTrueOf twice listed sources row r agree h k f t =
      All-map sources
        (λ src agrees keyed floors.
          let own = sym (IsTrueRow-tidy twice listed row h) ∙ sym k ∙ keyed in
          rw (f, t) (IsTrueRow-NoLog HasLog tidy listed row src agrees own h))
        agree

  by_key-IsTruePrior :
      (rows : List CoverageRow) (sources : List Source)
      → All (IsTrueOf HasLog tidy sources) rows
      → IsTruePrior HasLog tidy (by_key rows) sources
  by_key-IsTruePrior rows [] h = tt
  by_key-IsTruePrior rows (src ∷ sources) h = (
    λ row there floors.
        let (keyed, at_head) =
          by_key-All HasLog tidy (λ r. IsTrueOf HasLog tidy (src ∷ sources) r) rows
            (source_key_of tidy src) row h there in
        at_head.0 keyed floors,
    by_key-IsTruePrior rows sources (All-map rows (λ r k. k.1) h),
  )

module _ {S Log : Type 0} (trim lower : String → String) (parse_int : String → Option ℕ)
    (driver : Driver S) (limits : Limits) (now : Ask S ℕ)
    (query : Source → ℕ → ℕ → Call S (List Log)) (verify_floor : Source → Call S Bool)
    (HasLog : Source → ℕ → Type 0) (truthful : IsTruthful HasLog query)
    (verified : (src : Source) (s : S)
      → (verify_floor src s).0 ≡ ok true
      → NoLog HasLog src 0 src.floor)
    (chunk_pos : 0 < limits.chunk_blocks) (sources : List Source)
    (agree : All (AgreeWith HasLog (λ raw. lower (trim raw)) sources) sources)
    (twice : (t : String) → lower (trim (lower (trim t))) ≡ lower (trim t)) (id : Identity)
    (Inv : S → Type 0) (clock_keeps : (s : S) → Inv s → Inv (now s).1)
    (query_keeps : (source : Source) (lo hi : ℕ) (s : S) → Inv s → Inv (query source lo hi s).1)
    (verify_keeps : (source : Source) (s : S) → Inv s → Inv (verify_floor source s).1)
    (load_keeps : (s : S) → Inv s → Inv (driver.load id s).1)
    (load_true : (raws : List RawRow) (s : S)
      → Inv s
      → (driver.load id s).0 ≡ ok (some raws)
      → All
          (IsTrueOf HasLog (λ raw. lower (trim raw)) sources)
          (valid_rows trim lower parse_int raws))
    (save_keeps : (rows : List CoverageRow) (s : S)
      → Inv s
      → All (IsTrueOf HasLog (λ raw. lower (trim raw)) sources) rows
      → Inv (driver.save id rows s).1) where
  abbrev tidy : String → String
  tidy raw = lower (trim raw)

  loaded-IsTrueOf :
      (r : Try (Option (List RawRow)))
      → ((raws : List RawRow)
          → r ≡ ok (some raws)
          → All (IsTrueOf HasLog tidy sources) (valid_rows trim lower parse_int raws))
      → All (IsTrueOf HasLog tidy sources) (loaded trim lower parse_int driver r)
  unfolding loaded
  loaded-IsTrueOf (ok (some raws)) h = h raws refl
  loaded-IsTrueOf (ok none) h = tt
  loaded-IsTrueOf (throw e) h = tt

  save_valid-keeps :
      (rows : List CoverageRow) (s : S)
      → Inv s
      → All (IsTrueOf HasLog tidy sources) rows
      → Inv (save_valid trim lower parse_int driver id rows s).1
  unfolding save_valid
  save_valid-keeps [] s p h = p
  save_valid-keeps (row ∷ rows) s p h = save_keeps (row ∷ rows) s p h

  save_rows-keeps :
      (rows : List CoverageRow) (s : S)
      → Inv s
      → All (IsTrueRow HasLog tidy sources) rows
      → Inv (save_rows trim lower parse_int driver id rows s).1
  unfolding save_rows
  save_rows-keeps rows s p h =
      save_valid-keeps (valid_rows trim lower parse_int (as_raws rows)) s p (
        valid_rows-as_raws trim lower parse_int (IsTrueOf HasLog tidy sources) rows (
          All-map rows
            (λ row t r k floors f e.
              IsTrueRow-IsTrueOf HasLog tidy twice sources sources row r agree t k f e)
            h))

  persist-keeps :
      (scan : Scan) (s : S)
      → Inv s
      → All (IsTrueRow HasLog tidy sources) scan.coverage
      → Inv (persist trim lower parse_int driver id scan s).1
  unfolding persist
  persist-keeps scan s p h = elim (Bool-cases scan.found) [
    | inl hit ↦ rw hit p
    | inr miss ↦
        rw miss (save_rows-keeps (only_dirty scan.coverage) s p (only_dirty-All _ scan.coverage h))
  ]

  persist-same : (scan : Scan) (s : S) → (persist trim lower parse_int driver id scan s).0 ≡ scan
  unfolding persist
  persist-same scan s = elim (Bool-cases scan.found) [
    | inl hit ↦ rw hit refl
    | inr miss ↦ rw miss refl
  ]

  -- If the node and the floor check are truthful, sources of one key have the same logs, trimming
  -- and lowering a key again changes nothing, what the store returns for the identity is true in
  -- every reachable world, and a save of true rows leaves it so: a scan for that identity answers
  -- yes only with a log, a complete no only without one, and leaves a store of true rows to the
  -- next one.
  pub scan_resumed-IsAnswer :
      (s : S)
      → Inv s
      → IsAnswer HasLog tidy limits.head sources
          (scan_resumed trim lower parse_int driver limits now query verify_floor sources id s).0
        × Inv
            (scan_resumed trim lower parse_int driver limits now query verify_floor sources id s).1
  unfolding scan_resumed load_rows scan_plain
  scan_resumed-IsAnswer s p =
      let r = driver.load id s in
      let rows = loaded trim lower parse_int driver r.0 in
      let scan = scan_for_event tidy limits now query verify_floor sources (by_key rows) r.1 in
      let rows_true = loaded-IsTrueOf r.0 (λ raws e. load_true raws s p e) in
      let answer =
        scan_for_event-IsAnswer tidy limits now query verify_floor HasLog truthful verified
          chunk_pos sources agree (by_key rows) r.1
          (by_key-IsTruePrior HasLog tidy rows sources rows_true) in
      let kept =
        scan_for_event-keeps tidy limits now query verify_floor Inv clock_keeps query_keeps
          verify_keeps sources (by_key rows) r.1 (load_keeps s p) in
      (
        subst (IsAnswer HasLog tidy limits.head sources) (sym (persist-same scan.0 scan.1)) answer,
        persist-keeps scan.0 scan.1 kept answer.2,
      )
