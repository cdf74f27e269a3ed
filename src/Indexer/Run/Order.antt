-- ===== src/Indexer/Run/Order.antt =====
-- quest-indexer/lib/indexer.mjs, `runIndexer`: the watermark moves only over recorded facts.
use text.Mathlib.Text.{◌==◌}
use text.Mathlib.TextEquality.{eq_iff}
use perps_litvm.Base.{
  ℕ, String, ◌≡◌, ◌≢◌, ◌⊎◌, ◌∙◌, inl, inr, refl, subst, true, ◌&&◌, Option, none, some, List, [],
  ◌∷◌, Try, ok, throw, length, Ask, Call, Done, ◌>>=◌, ◌>>◌, answer, >>=-elim, arith, All, All-map,
  Bool-cases,
}
use perps_litvm.Indexer.Sources.{
  Source, Log, AllWalletsFilter, SourceTable, DailyRow, CompletionRow,
}
use perps_litvm.Indexer.Range.{BlockRange}
use perps_litvm.Indexer.Run.Rows.{Batch, day_of, has_day, has_quest, collect}
use perps_litvm.Indexer.Run.Rows.Complete.{collect-IsIn}
use perps_litvm.Indexer.Run.{
  StateRow, Writer, Settings, Report, claim, publish, store, filter_of as range_filter, index_range,
  completion_from_of,
}

-- What the database is seen to hold: days, completions and watermarks.
pub record View (S : Type 0) : Type 1 where
  pub HasDaily : S → String → String → Type 0
  pub HasCompletion : S → String → String → Type 0
  pub watermark : S → String → Option ℕ

-- A call that moves no watermark, and one that loses no fact.
abbrev pub IsSteady : {S A : Type 0} → View S → Call S A → Type 0
IsSteady {S} v m = (s : S) (a : String) → v.watermark (m s).1 a ≡ v.watermark s a

abbrev pub KeepsFacts : {S A : Type 0} → View S → Call S A → Type 0
KeepsFacts {S} v m =
    ((s : S) (w d : String) → v.HasDaily s w d → v.HasDaily (m s).1 w d)
    × ((s : S) (w q : String) → v.HasCompletion s w q → v.HasCompletion (m s).1 w q)

-- What the statements of the database do. A statement that fails may have been carried out.
pub record WriterLaws {S : Type 0} (v : View S) (writer : Writer S) : Type 0 where
  pub daily_written :
      (rows : List DailyRow) (s : S)
      → (writer.write_daily rows s).0 ≡ ok tt
      → All (λ r. v.HasDaily (writer.write_daily rows s).1 r.wallet r.day) rows
  pub completions_written :
      (rows : List CompletionRow) (s : S)
      → (writer.write_completions rows s).0 ≡ ok tt
      → All (λ r. v.HasCompletion (writer.write_completions rows s).1 r.wallet r.quest) rows
  pub daily_steady : (rows : List DailyRow) → IsSteady v (writer.write_daily rows)
  pub completions_steady : (rows : List CompletionRow) → IsSteady v (writer.write_completions rows)
  pub claim_steady : (a : String) (b : ℕ) → IsSteady v (writer.claim_completion_from a b)
  pub completions_keep : (rows : List CompletionRow) → KeepsFacts v (writer.write_completions rows)
  pub claim_keeps : (a : String) (b : ℕ) → KeepsFacts v (writer.claim_completion_from a b)
  pub advance_keeps : (a : String) (b : ℕ) → KeepsFacts v (writer.advance a b)
  -- `advance` moves the one watermark to its block, or moves nothing.
  pub advance_self :
      (a : String) (b : ℕ) (s : S)
      → (v.watermark (writer.advance a b s).1 a ≡ v.watermark s a)
        ⊎ (v.watermark (writer.advance a b s).1 a ≡ some b)
  pub advance_other :
      (a b : String) (n : ℕ) (s : S)
      → a ≢ b
      → v.watermark (writer.advance a n s).1 b ≡ v.watermark s b

has_day→HasDaily :
    {S : Type 0} (v : View S) (s : S) (w d : String) (rows : List DailyRow)
    → has_day w d rows ≡ true
    → All (λ r. v.HasDaily s r.wallet r.day) rows
    → v.HasDaily s w d
unfolding has_day
has_day→HasDaily v s w d [] h k = cc
has_day→HasDaily v s w d (row ∷ rows) h (p, k) =
    elim (Bool-cases (row.wallet == w && row.day == d)) [
      | inl here ↦
          let same_wallet : row.wallet ≡ w = ground (arith, eq_iff row.wallet w) in
          let same_day : row.day ≡ d = ground (arith, eq_iff row.day d) in
          subst (λ x. v.HasDaily s x d) same_wallet (subst (v.HasDaily s row.wallet) same_day p)
      | inr there ↦ has_day→HasDaily v s w d rows (ground arith) k
    ]

has_quest→HasCompletion :
    {S : Type 0} (v : View S) (s : S) (w q : String) (rows : List CompletionRow)
    → has_quest w q rows ≡ true
    → All (λ r. v.HasCompletion s r.wallet r.quest) rows
    → v.HasCompletion s w q
unfolding has_quest
has_quest→HasCompletion v s w q [] h k = cc
has_quest→HasCompletion v s w q (row ∷ rows) h (p, k) =
    elim (Bool-cases (row.wallet == w && row.quest == q)) [
      | inl here ↦
          let same_wallet : row.wallet ≡ w = ground (arith, eq_iff row.wallet w) in
          let same_quest : row.quest ≡ q = ground (arith, eq_iff row.quest q) in
          subst (λ x. v.HasCompletion s x q) same_wallet
            (subst (v.HasCompletion s row.wallet) same_quest p)
      | inr there ↦ has_quest→HasCompletion v s w q rows (ground arith) k
    ]

module _ {S : Type 0} (v : View S) (writer : Writer S) (laws : WriterLaws v writer)
    (table : SourceTable) (get_logs : AllWalletsFilter → Call S (List Log))
    (resolve_days : List Log → BlockRange → Call S (List (ℕ × String)))
    (logs_steady : (f : AllWalletsFilter) → IsSteady v (get_logs f))
    (days_steady : (logs : List Log) (r : BlockRange) → IsSteady v (resolve_days logs r))
    (now : Ask S ℕ) (set : Settings) where
  -- The log's wallet is recorded for the log's day, and for each quest of the source.
  abbrev pub IsRecorded : Source → List (ℕ × String) → S → Log → Type 0
  IsRecorded source days s log =
      (wallet : String) × (table.wallet_from_log source log ≡ ok wallet)
      × (day : String) × (day_of log.block_number days ≡ some day)
      × v.HasDaily s wallet day
      × All (λ q. v.HasCompletion s wallet q) (table.quests_by_source source.key)

  Batched : Batch → S → Type 0
  Batched batch s =
      All (λ r. v.HasDaily s r.wallet r.day) batch.rows
      × All (λ r. v.HasCompletion s r.wallet r.quest) batch.completions

  Batched-keep :
      {A : Type 0} (m : Call S A) (batch : Batch) (s : S)
      → KeepsFacts v m
      → Batched batch s
      → Batched batch (m s).1
  unfolding Batched
  Batched-keep m batch s k (rows, completions) = (
    All-map batch.rows (λ r. k.0 s r.wallet r.day) rows,
    All-map batch.completions (λ r. k.1 s r.wallet r.quest) completions,
  )

  claim-IsSteady :
      (address : String) (o : Option ℕ) (b : ℕ)
      → IsSteady v (claim writer table get_logs resolve_days now set address o b)
  unfolding claim
  claim-IsSteady address none b = laws.claim_steady address b
  claim-IsSteady address (some _) b = λ s a. refl

  claim-KeepsFacts :
      (address : String) (o : Option ℕ) (b : ℕ)
      → KeepsFacts v (claim writer table get_logs resolve_days now set address o b)
  unfolding claim
  claim-KeepsFacts address none b = laws.claim_keeps address b
  claim-KeepsFacts address (some _) b = ((λ s w d h. h), (λ s w q h. h))

  module _ (source : Source) (address : String) (prior : Option StateRow) (range : BlockRange)
      (s₀ : S) where
    abbrev filter_of : AllWalletsFilter
    filter_of = range_filter writer table get_logs resolve_days now set source address range

    -- The watermark of the source stays, or it is the range's end and all that was read in the
    -- range is recorded.
    abbrev Safe : Try Report × S → Type 0
    Safe run =
        (v.watermark run.1 address ≡ v.watermark s₀ address)
        ⊎ ((v.watermark run.1 address ≡ some range.to)
            × (logs : List Log) × ((get_logs filter_of s₀).0 ≡ ok logs)
            × (days : List (ℕ × String)) × ((resolve_days logs range (get_logs filter_of s₀).1).0
                ≡ ok days)
            × All (IsRecorded source days run.1) logs)

    Batched-IsRecorded :
        (days : List (ℕ × String)) (logs : List Log) (batch : Batch) (s : S)
        → collect table set.chain_id source days logs ≡ ok batch
        → Batched batch s
        → All (IsRecorded source days s) logs
    unfolding Batched
    Batched-IsRecorded days logs batch s e (rows, completions) =
        All-map logs
          (λ log (wallet, found, day, dated, here, quests). (
            wallet,
            found,
            day,
            dated,
            has_day→HasDaily v s wallet day batch.rows here rows,
            All-map (table.quests_by_source source.key)
                (λ q h. has_quest→HasCompletion v s wallet q batch.completions h completions)
                quests,
          ))
          (collect-IsIn table set.chain_id source days logs batch e)

    abbrev claim_of : Call S Done
    claim_of =
        claim writer table get_logs resolve_days now set address (completion_from_of prior)
          range.from

    module _ (logs : List Log) (read : (get_logs filter_of s₀).0 ≡ ok logs)
        (days : List (ℕ × String))
        (dated : (resolve_days logs range (get_logs filter_of s₀).1).0 ≡ ok days) (batch : Batch)
        (collected : collect table set.chain_id source days logs ≡ ok batch) where
      advance-Safe :
          (s : S) (r : Try Report)
          → v.watermark s address ≡ v.watermark s₀ address
          → Batched batch s
          → Safe (r, (writer.advance address range.to s).1)
      advance-Safe s r w b = elim (laws.advance_self address range.to s) [
        | inl stays ↦ inl (stays ∙ w)
        | inr moves ↦ inr (
          moves,
          logs,
          read,
          days,
          dated,
          Batched-IsRecorded days logs batch (writer.advance address range.to s).1 collected (
              Batched-keep (writer.advance address range.to) batch s
                (laws.advance_keeps address range.to) b),
        )
      ]

      publish-Safe :
          (s : S) (n : ℕ)
          → v.watermark s address ≡ v.watermark s₀ address
          → Batched batch s
          → Safe (
              publish writer table get_logs resolve_days now set source address prior range n batch
                s)
      unfolding publish
      publish-Safe s n w b =
          let steady = claim-IsSteady address (completion_from_of prior) range.from s address ∙ w in
          let kept =
            Batched-keep claim_of batch s
              (claim-KeepsFacts address (completion_from_of prior) range.from) b in
          >>=-elim Safe claim_of
            (λ _.
              writer.advance address range.to
              >> answer (
                  ok (
                    Report.indexed source.key address range n (length batch.rows)
                      (length batch.completions))))
            s (λ e _. inl steady)
            λ _ _.
              >>=-elim Safe (writer.advance address range.to)
                (λ _. answer (
                  ok (
                    Report.indexed source.key address range n (length batch.rows)
                      (length batch.completions))))
                (claim_of s).1 (λ e _. advance-Safe (claim_of s).1 (throw e) steady kept)
                λ _ _.
                  advance-Safe (claim_of s).1
                    (ok (
                      Report.indexed source.key address range n (length batch.rows)
                        (length batch.completions)))
                    steady kept

      store-Safe :
          (s : S) (n : ℕ)
          → v.watermark s address ≡ v.watermark s₀ address
          → Safe (
              store writer table get_logs resolve_days now set source address prior range n batch s)
      unfolding store Batched
      store-Safe s n w =
          let s' = (writer.write_daily batch.rows s).1 in
          let w' = laws.daily_steady batch.rows s address ∙ w in
          let w'' = laws.completions_steady batch.completions s' address ∙ w' in
          >>=-elim Safe (writer.write_daily batch.rows)
            (λ _.
              writer.write_completions batch.completions
              >> publish writer table get_logs resolve_days now set source address prior range n
                  batch)
            s (λ e _. inl w')
            λ _ daily.
              >>=-elim Safe (writer.write_completions batch.completions)
                (λ _.
                  publish writer table get_logs resolve_days now set source address prior range n
                    batch)
                s' (λ e _. inl w'')
                λ _ done. publish-Safe (writer.write_completions batch.completions s').1 n w'' (
                  All-map batch.rows
                      (λ r. (laws.completions_keep batch.completions).0 s' r.wallet r.day)
                      (laws.daily_written batch.rows s daily),
                  laws.completions_written batch.completions s' done,
                )

    -- With whatever errors on the way: the watermark of a source stays where it is, or it moves to
    -- the end of the range that was read, and then the database holds, for every log that was read
    -- there, its wallet's row for the log's day and for each of the source's quests.
    pub index_range-Safe :
        Safe (index_range writer table get_logs resolve_days now set source address prior range s₀)
    unfolding index_range
    index_range-Safe =
        let s₁ = (get_logs filter_of s₀).1 in
        let w₁ = logs_steady filter_of s₀ address in
        >>=-elim Safe (get_logs filter_of)
          (λ logs. resolve_days logs range >>= λ days.
            answer (collect table set.chain_id source days logs) >>= λ batch.
            store writer table get_logs resolve_days now set source address prior range
              (length logs) batch)
          s₀ (λ e _. inl w₁)
          λ logs read.
            let w₂ = days_steady logs range s₁ address ∙ w₁ in
            >>=-elim Safe (resolve_days logs range)
              (λ days. answer (collect table set.chain_id source days logs) >>= λ batch.
                store writer table get_logs resolve_days now set source address prior range
                  (length logs) batch)
              s₁ (λ e _. inl w₂)
              λ days dated.
                >>=-elim Safe (answer (collect table set.chain_id source days logs))
                  (λ batch.
                    store writer table get_logs resolve_days now set source address prior range
                      (length logs) batch)
                  (resolve_days logs range s₁).1 (λ e _. inl w₂)
                  λ batch collected.
                    store-Safe logs read days dated batch collected (resolve_days logs range s₁).1
                      (length logs) w₂
