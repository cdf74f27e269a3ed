-- ===== src/Indexer/Run/Rows/Complete.antt =====
-- quest-indexer/lib/indexer.mjs, `runIndexer`: no log is left out of the rows.
use text.Mathlib.TextPositions.{eq_refl}
use perps_litvm.Base.{
  ℕ, String, ◌≡◌, refl, true, ◌||◌, some, List, [], ◌∷◌, ◌++◌, inl, inr, ok, or_throw,
  and_then-eq-ok, or_throw-eq-ok, ok-injective, subst, arith, All, All-map, Bool-cases,
}
use perps_litvm.Indexer.Sources.{Source, Log, SourceTable, DailyRow, CompletionRow}
use perps_litvm.Indexer.Run.Rows.{
  Batch, day_of, has_day, has_quest, add_daily, add_completion, add_completions, add_log,
  collect_from, collect,
}

has_day-append :
    (wallet day : String) (rows more : List DailyRow)
    → has_day wallet day (rows ++ more) ≡ (has_day wallet day rows || has_day wallet day more)
unfolding has_day
has_day-append wallet day [] more = refl
has_day-append wallet day (row ∷ rows) more = ground (arith, has_day-append wallet day rows more)

has_quest-append :
    (wallet quest : String) (rows more : List CompletionRow)
    → has_quest wallet quest (rows ++ more)
      ≡ (has_quest wallet quest rows || has_quest wallet quest more)
unfolding has_quest
has_quest-append wallet quest [] more = refl
has_quest-append wallet quest (row ∷ rows) more =
    ground (arith, has_quest-append wallet quest rows more)

add_daily_self :
    (row : DailyRow) (rows : List DailyRow) → has_day row.wallet row.day (add_daily row rows) ≡ true
unfolding add_daily has_day
add_daily_self row rows = elim (Bool-cases (has_day row.wallet row.day rows)) [
  | inl old ↦ rw old old
  | inr new ↦ rw new (
      ground (
        arith,
        has_day-append row.wallet row.day rows (row ∷ []),
        eq_refl row.wallet,
        eq_refl row.day,
      ))
]

add_daily_keeps :
    (wallet day : String) (row : DailyRow) (rows : List DailyRow)
    → has_day wallet day rows ≡ true
    → has_day wallet day (add_daily row rows) ≡ true
unfolding add_daily
add_daily_keeps wallet day row rows h = ground (arith, has_day-append wallet day rows (row ∷ []))

add_completion_self :
    (row : CompletionRow) (rows : List CompletionRow)
    → has_quest row.wallet row.quest (add_completion row rows) ≡ true
unfolding add_completion has_quest
add_completion_self row rows = elim (Bool-cases (has_quest row.wallet row.quest rows)) [
  | inl old ↦ rw old old
  | inr new ↦ rw new (
      ground (
        arith,
        has_quest-append row.wallet row.quest rows (row ∷ []),
        eq_refl row.wallet,
        eq_refl row.quest,
      ))
]

add_completion_keeps :
    (wallet quest : String) (row : CompletionRow) (rows : List CompletionRow)
    → has_quest wallet quest rows ≡ true
    → has_quest wallet quest (add_completion row rows) ≡ true
unfolding add_completion
add_completion_keeps wallet quest row rows h =
    ground (arith, has_quest-append wallet quest rows (row ∷ []))

module _ (chain_id : ℕ) (wallet : String) (block : ℕ) (via : String) where
  add_completions_keeps :
      (w q : String) (quests : List String) (rows : List CompletionRow)
      → has_quest w q rows ≡ true
      → has_quest w q (add_completions chain_id wallet block via quests rows) ≡ true
  unfolding add_completions
  add_completions_keeps w q [] rows h = h
  add_completions_keeps w q (quest ∷ quests) rows h =
      add_completions_keeps w q quests _ (add_completion_keeps w q _ rows h)

  add_completions-All :
      (quests : List String) (rows : List CompletionRow)
      → All
          (λ q. has_quest wallet q (add_completions chain_id wallet block via quests rows) ≡ true)
          quests
  unfolding add_completions
  add_completions-All [] rows = tt
  add_completions-All (quest ∷ quests) rows = (
    add_completions_keeps wallet quest quests _ (add_completion_self _ rows),
    add_completions-All quests _,
  )

module _ (table : SourceTable) (chain_id : ℕ) (source : Source) (days : List (ℕ × String)) where
  -- The log has a wallet and a day, the rows hold that day for the wallet, and the completions
  -- hold each quest of the source for it.
  abbrev pub IsIn : Batch → Log → Type 0
  IsIn batch log =
      (wallet : String) × (table.wallet_from_log source log ≡ ok wallet)
      × (day : String) × (day_of log.block_number days ≡ some day)
      × (has_day wallet day batch.rows ≡ true)
      × All (λ q. has_quest wallet q batch.completions ≡ true) (table.quests_by_source source.key)

  -- All that a batch holds, another holds.
  abbrev Keeps : Batch → Batch → Type 0
  Keeps b c =
      ((w d : String) → has_day w d b.rows ≡ true → has_day w d c.rows ≡ true)
      × ((w q : String) → has_quest w q b.completions ≡ true → has_quest w q c.completions ≡ true)

  add_log-IsIn :
      (log : Log) (batch longer : Batch)
      → add_log table chain_id source days log batch ≡ ok longer
      → IsIn longer log × Keeps batch longer
  unfolding add_log
  add_log-IsIn log batch longer e =
      let (wallet, found, e') = and_then-eq-ok (table.wallet_from_log source log) _ e in
      let (day, dated, e'') = and_then-eq-ok (or_throw (day_of log.block_number days) _) _ e' in
      subst (λ b. IsIn b log × Keeps batch b) (ok-injective e'')
        (
          (
            wallet,
            found,
            day,
            or_throw-eq-ok (day_of log.block_number days) _ dated,
            add_daily_self _ batch.rows,
            add_completions-All chain_id wallet log.block_number "indexer"
                (table.quests_by_source source.key) batch.completions,
          ),
          (
            (λ w d h. add_daily_keeps w d _ batch.rows h),
            (λ w q h.
                add_completions_keeps chain_id wallet log.block_number "indexer" w q
                  (table.quests_by_source source.key) batch.completions h),
          ),
        )

  IsIn-Keeps : (b c : Batch) (log : Log) → Keeps b c → IsIn b log → IsIn c log
  IsIn-Keeps b c log k (wallet, found, day, dated, here, quests) = (
    wallet,
    found,
    day,
    dated,
    k.0 wallet day here,
    All-map (table.quests_by_source source.key) (λ q. k.1 wallet q) quests,
  )

  collect_from-All :
      (logs : List Log) (batch final : Batch)
      → collect_from table chain_id source days logs batch ≡ ok final
      → All (IsIn final) logs × Keeps batch final
  unfolding collect_from
  collect_from-All [] batch final e =
      (tt, subst (Keeps batch) (ok-injective e) ((λ w d h. h), (λ w q h. h)))
  collect_from-All (log ∷ logs) batch final e =
      let (longer, added, e') = and_then-eq-ok (add_log table chain_id source days log batch) _ e in
      let (here, kept) = add_log-IsIn log batch longer added in
      let (rest, later) = collect_from-All logs longer final e' in
      (
        (IsIn-Keeps longer final log later here, rest),
        ((λ w d h. later.0 w d (kept.0 w d h)), (λ w q h. later.1 w q (kept.1 w q h))),
      )

  -- A batch that is collected without an error holds every log.
  pub collect-IsIn :
      (logs : List Log) (batch : Batch)
      → collect table chain_id source days logs ≡ ok batch
      → All (IsIn batch) logs
  unfolding collect
  collect-IsIn logs batch e =
      (collect_from-All logs (record { rows = []; completions = [] }) batch e).0
