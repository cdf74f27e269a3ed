-- ===== src/Indexer/Settler/Truth.antt =====
-- quest-indexer/lib/settler.mjs: nothing false is written.
use perps_litvm.Base.{
  ℕ, ◌+◌, ◌-◌, ◌≤◌, ◌<◌, ◌≡◌, ◌⊎◌, inl, inr, refl, sym, subst, String, false, some, List, [], ◌∷◌,
  leb, ltb, if◌then◌else◌, ok, Ask, Call, Done, ◌>>=◌, answer, >>=-elim, All, Bool-cases, arith,
}
use perps_litvm.Indexer.Sources.{Source, Log, SourceTable}
use perps_litvm.Indexer.Walk.{Stopped, Walk, chunk_blocks}
use perps_litvm.Indexer.Walk.Coverage.{walk_down-Sound}
use perps_litvm.Indexer.Walk.Frame.{walk_down-keeps}
use perps_litvm.Indexer.SettlerPlan.{CursorRow, Group, plan_work}
use perps_litvm.Indexer.SettlerPlan.Pending.{IsPending, IsWork, plan_work-IsWork}
use perps_litvm.Indexer.Settler.{
  WalletFilter, Writer, Reason, Settled, worked, logs_for, walk_row, extend_row, prove_quest,
  after_error, after_stop, after_walk, walk_source, settle_row, settle_sources, settle_one,
  settle_groups, settle_work, run_settler,
}
use perps_litvm.Indexer.Settler.Laws.{View, Keeps, Keeps-trans, Laws}

module _ {S : Type 0} (v : View S) (writer : Writer S) (sources : List Source) (table : SourceTable)
    (lower : String → String) (get_logs : WalletFilter → Call S (List Log)) (now : Ask S ℕ)
    (laws : Laws v writer sources table lower get_logs now) where
  module _ (s₀ : S) where
    abbrev Pending : String → String → CursorRow × Source → Type 0
    Pending = IsPending sources table lower (v.Holds s₀)

    abbrev Kept : {A : Type 0} → A × S → Type 0
    Kept r = Keeps v s₀ r.1

    -- What a walk of a row has shown.
    abbrev Shown : CursorRow → Source → Walk → Type 0
    Shown row source walk =
        ((b : ℕ) → walk.frontier ≤ b → b < row.scanned_to → ¬ v.HasLog source row.wallet b)
        × ((walk.found ≡ false) ⊎ ((b : ℕ) × v.HasLog source row.wallet b))

    extend_row-Kept :
        (group : Group) (row : CursorRow) (source : Source) (walk : Walk) (s : S)
        → Pending group.wallet group.quest (row, source)
        → Shown row source walk
        → Keeps v s₀ s
        → Kept (extend_row writer table get_logs now group row walk s)
    unfolding extend_row
    extend_row-Kept group row source walk s p shown k =
        Keeps-trans v s₀ s _ k
          (laws.extends row source _ s (k.1 row p.6) (sym p.0) (sym p.1) refl p.3 shown.0)

    prove_quest-Kept :
        (group : Group) (row : CursorRow) (source : Source) (s : S) (b : ℕ)
        → Pending group.wallet group.quest (row, source)
        → v.HasLog source row.wallet b
        → Keeps v s₀ s
        → Kept (prove_quest writer table get_logs now group row s)
    unfolding prove_quest
    prove_quest-Kept group row source s b p h k =
        Keeps-trans v s₀ s _ k
          (laws.completes _ source b s p.2 (subst (λ w. v.HasLog source w b) p.0 h))

    -- A call that keeps what there is, and then the rest.
    chain :
        {A B : Type 0} (m : Call S A) (f : A → Call S B) (s : S)
        → Keeps v s₀ (m s).1
        → ((a : A) → (m s).0 ≡ ok a → Keeps v s₀ (f a (m s).1).1)
        → Keeps v s₀ ((m >>= f) s).1
    chain m f s k rest = >>=-elim (λ r. Keeps v s₀ r.1) m f s (λ e _. k) rest

    abbrev extension : Group → CursorRow → Walk → Call S Done
    extension = extend_row writer table get_logs now

    abbrev proof_of : Group → CursorRow → Call S Done
    proof_of = prove_quest writer table get_logs now

    after_error-Kept :
        (group : Group) (skipped : ℕ) (row : CursorRow) (source : Source) (count : ℕ) (walk : Walk)
        (s : S)
        → Pending group.wallet group.quest (row, source)
        → Shown row source walk
        → Keeps v s₀ s
        → Kept (after_error writer table get_logs now group skipped row count walk s)
    unfolding after_error
    after_error-Kept group skipped row source count walk s p shown k =
        elim (Bool-cases (ltb walk.frontier row.scanned_to)) [
          | inr e ↦ rw e k
          | inl e ↦
              let kept = extend_row-Kept group row source walk s p shown k in
              rw e (
                chain (extension group row walk)
                  (λ _. answer (ok (worked 0 (count + 1) skipped Reason.chunk_error))) s kept
                  (λ x _. kept))
        ]

    after_stop-Kept :
        (group : Group) (row : CursorRow) (source : Source) (count : ℕ) (walk : Walk)
        (continue : ℕ → Call S Settled) (s : S)
        → Pending group.wallet group.quest (row, source)
        → Shown row source walk
        → ((n : ℕ) (s' : S) → Keeps v s₀ s' → Kept (continue n s'))
        → Keeps v s₀ s
        → Kept (after_stop writer table get_logs now group row count walk continue s)
    unfolding after_stop
    after_stop-Kept group row source count walk continue s p shown ih k =
        elim (Bool-cases (leb row.scanned_to walk.frontier)) [
          | inl e ↦ rw e (ih count s k)
          | inr e ↦
              let kept = extend_row-Kept group row source walk s p shown k in
              rw e (
                chain (extension group row walk) (λ _. continue (count + 1)) s kept
                  (λ x _. ih (count + 1) _ kept))
        ]

    after_walk-Kept :
        (group : Group) (skipped : ℕ) (row : CursorRow) (source : Source) (count : ℕ) (walk : Walk)
        (continue : ℕ → Call S Settled) (s : S)
        → Pending group.wallet group.quest (row, source)
        → Shown row source walk
        → ((n : ℕ) (s' : S) → Keeps v s₀ s' → Kept (continue n s'))
        → Keeps v s₀ s
        → Kept (after_walk writer table get_logs now group skipped row count walk continue s)
    unfolding after_walk
    after_walk-Kept group skipped row source count walk continue s p shown ih k =
        elim (Bool-cases walk.found) [
          | inl hit ↦ elim shown.1 [
            | inl e ↦ absurd (cc (hit, e))
            | inr (b, h) ↦
                let kept = prove_quest-Kept group row source s b p h k in
                rw hit (
                  chain (proof_of group row)
                    (λ _. answer (ok (worked 1 count skipped Reason.found))) s kept (λ x _. kept))
          ]
          | inr miss ↦
              let on_stop = after_stop-Kept group row source count walk continue s p shown ih k in
              let on_error = after_error-Kept group skipped row source count walk s p shown k in
              (elim walk.stopped
                  as (λ why.
                    walk.stopped ≡ why
                    → Kept (
                        after_walk writer table get_logs now group skipped row count walk continue
                          s)) [
                            | Stopped.error ↦ λ e. rw (after_walk, miss, e) on_error
                            | Stopped.found ↦ λ e. rw (after_walk, miss, e) on_stop
                            | Stopped.floor ↦ λ e. rw (after_walk, miss, e) on_stop
                            | Stopped.budget ↦ λ e. rw (after_walk, miss, e) on_stop
                            | Stopped.out_of_fuel ↦ λ e. rw (after_walk, miss, e) on_stop
                          ])
                refl
        ]

    walk_row-Kept :
        (deadline : ℕ) (row : CursorRow) (source : Source) (wallet address : String) (floor : ℕ)
        (s : S)
        → row.wallet ≡ wallet
        → table.source_address source ≡ ok address
        → Keeps v s₀ s
        → Shown row source
            (walk_row writer table get_logs now deadline wallet row source address floor s).0
          × Kept (walk_row writer table get_logs now deadline wallet row source address floor s)
    unfolding walk_row
    walk_row-Kept deadline row source wallet address floor s same at_address k =
        let logs = logs_for writer table get_logs now source address wallet in
        let after_clock = Keeps-trans v s₀ s _ k (laws.clock s) in
        let sound =
          walk_down-Sound (λ log. some log.block_number) now logs (v.HasLog source wallet)
            (laws.answers source address wallet at_address) floor chunk_blocks (row.scanned_to - 1)
            (omega arith) (deadline - (now s).0) (now s).1 in
        (
          (
            subst
                (λ w.
                  (b : ℕ)
                  → (walk_row writer table get_logs now deadline wallet row source address floor
                      s).0.frontier
                    ≤ b
                  → b < row.scanned_to
                  → ¬ v.HasLog source w b)
                (sym same) (λ b p q. sound.1 b p (omega arith)),
            elim sound.2 [
              | inl miss ↦ inl miss
              | inr hit ↦ inr (hit.0, subst (λ w. v.HasLog source w hit.0) (sym same) hit.3)
            ],
          ),
          walk_down-keeps (λ log. some log.block_number) now logs floor chunk_blocks (Keeps v s₀)
              (λ x p. Keeps-trans v s₀ x _ p (laws.clock x))
              (λ lo hi x p. Keeps-trans v s₀ x _ p (laws.reads _ x)) (row.scanned_to - 1)
              (deadline - (now s).0) (now s).1 after_clock,
        )

    settle_row-Kept :
        (deadline : ℕ) (group : Group) (skipped : ℕ) (row : CursorRow) (source : Source) (count : ℕ)
        (continue : ℕ → Call S Settled) (s : S)
        → Pending group.wallet group.quest (row, source)
        → ((n : ℕ) (s' : S) → Keeps v s₀ s' → Kept (continue n s'))
        → Keeps v s₀ s
        → Kept (
            settle_row writer table get_logs now deadline group skipped row source count continue s)
    unfolding settle_row walk_source
    settle_row-Kept deadline group skipped row source count continue s p ih k =
        let walked =
          walk_source writer table get_logs now deadline group skipped row source count continue in
        chain (answer (table.source_address source))
          (λ address. answer (table.source_floor source) >>= λ floor. walked address floor) s k
          (λ address at_address.
            chain (answer (table.source_floor source)) (λ floor. walked address floor) s k
              (λ floor _.
                let (shown, kept) =
                  walk_row-Kept deadline row source group.wallet address floor s p.0 at_address k in
                after_walk-Kept group skipped row source count
                  (walk_row writer table get_logs now deadline group.wallet row source address floor
                    s).0
                  continue
                  (walk_row writer table get_logs now deadline group.wallet row source address floor
                    s).1
                  p shown ih kept))

    settle_sources-Kept :
        (deadline : ℕ) (group : Group) (skipped : ℕ) (rows : List (CursorRow × Source)) (count : ℕ)
        (s : S)
        → All (Pending group.wallet group.quest) rows
        → Keeps v s₀ s
        → Kept (settle_sources writer table get_logs now deadline group skipped rows count s)
    unfolding settle_sources
    settle_sources-Kept deadline group skipped [] count s p k = k
    settle_sources-Kept deadline group skipped ((row, source) ∷ rest) count s (p, ps) k =
        let kept = Keeps-trans v s₀ s _ k (laws.clock s) in
        elim (Bool-cases (leb deadline (now s).0)) [
          | inl late ↦ rw late kept
          | inr early ↦ rw early (
              settle_row-Kept deadline group skipped row source count
                (settle_sources writer table get_logs now deadline group skipped rest) (now s).1 p
                (λ n s' h. settle_sources-Kept deadline group skipped rest n s' ps h) kept)
        ]

    settle_groups-Kept :
        (deadline : ℕ) (groups : List Group) (skipped : ℕ) (s : S)
        → All (IsWork sources table lower (v.Holds s₀)) groups
        → Keeps v s₀ s
        → Kept (settle_groups writer table get_logs now deadline groups skipped s)
    unfolding settle_groups settle_one
    settle_groups-Kept deadline [] skipped s p k = k
    settle_groups-Kept deadline (group ∷ groups) skipped s (p, ps) k =
        let kept = Keeps-trans v s₀ s _ k (laws.clock s) in
        let asked = Keeps-trans v s₀ _ _ kept (laws.asks group.wallet group.quest (now s).1) in
        elim (Bool-cases (leb deadline (now s).0)) [
          | inl late ↦ rw late kept
          | inr early ↦ rw early (
              chain (writer.has_completion group.wallet group.quest)
                (λ proven.
                  if proven
                  then settle_groups writer table get_logs now deadline groups (skipped + 1)
                  else settle_one writer table get_logs now deadline group skipped)
                (now s).1 asked
                (λ proven _. elim (Bool-cases proven) [
                  | inl known ↦
                      rw known (settle_groups-Kept deadline groups (skipped + 1) _ ps asked)
                  | inr unproven ↦
                      rw unproven
                        (settle_sources-Kept deadline group skipped group.sources 0 _ p asked)
                ]))
        ]

    settle_work-Kept :
        (deadline : ℕ) (groups : List Group) (s : S)
        → All (IsWork sources table lower (v.Holds s₀)) groups
        → Keeps v s₀ s
        → Kept (settle_work writer table get_logs now deadline groups s)
    unfolding settle_work
    settle_work-Kept deadline [] s p k = k
    settle_work-Kept deadline (group ∷ groups) s p k =
        settle_groups-Kept deadline (group ∷ groups) 0 s p k

  -- If the node answers truthfully, and the database's statements keep what it says true when
  -- they are given a proven completion, or blocks without a log to extend a row by, then a slice
  -- of the settler, whatever fails in it, keeps what the database says true and loses no coverage.
  pub run_settler-Keeps :
      (page budget_ms : ℕ) (s : S)
      → Keeps v s (run_settler writer table get_logs now sources lower page budget_ms s).1
  unfolding run_settler
  run_settler-Keeps page budget_ms s =
      let deadline = (now s).0 + budget_ms in
      let start = (now s).1 in
      let after = (writer.pick_cursor_candidates page start).1 in
      let kept = Keeps-trans v s start after (laws.clock s) (laws.picks page start) in
      chain s (writer.pick_cursor_candidates page)
        (λ rows. answer (plan_work sources table lower rows) >>= λ work.
          settle_work writer table get_logs now deadline work)
        start kept
        (λ rows picked.
          chain s (answer (plan_work sources table lower rows))
            (λ work. settle_work writer table get_logs now deadline work) after kept
            (λ work planned. Keeps-trans v s after _ kept (
              settle_work-Kept after deadline work after
                (plan_work-IsWork sources table lower (v.Holds after) rows work
                  (laws.picked page start rows picked) planned)
                ((λ t. t), λ row h. h))))
