-- ===== src/Indexer/SweepDown/Coverage.antt =====
-- quest-indexer/lib/walk.mjs, `sweepDown`: all between its frontier and its start is recorded.
use perps_litvm.Base.{
  ℕ, zero, suc, ◌+◌, ◌-◌, ◌≤◌, ◌<◌, ◌≡◌, ◌≢◌, ◌⊎◌, inl, inr, refl, max, Option, none, some, List,
  length, ltb, leb, Error, Try, ok, throw, Ask, Call, Done, arith, Bool-cases, ltb→lt, ltb-false→le,
}
use perps_litvm.Indexer.Walk.{Stopped}
use perps_litvm.Indexer.SweepDown.{
  Sweep, SweepState, SweepTurn, stop, next, ended, after_record, after_read, read_chunk, sweep_turn,
  sweep_loop, sweep_down,
}

-- What the sweep's surroundings promise. `Recorded` says of the world that a block is recorded.
pub record KeepsRecords {S Log : Type 0} (now : Ask S ℕ) (get_logs_for : ℕ → ℕ → Call S (List Log))
    (on_chunk : List Log → ℕ → ℕ → Call S Done) (Recorded : S → ℕ → Type 0) : Type 0 where
  -- No call loses a record, whether it succeeds or fails.
  pub now_keeps : (s : S) (b : ℕ) → Recorded s b → Recorded (now s).1 b
  pub read_keeps : (lo hi : ℕ) (s : S) (b : ℕ) → Recorded s b → Recorded (get_logs_for lo hi s).1 b
  pub chunk_keeps :
      (logs : List Log) (lo hi : ℕ) (s : S) (b : ℕ)
      → Recorded s b
      → Recorded (on_chunk logs lo hi s).1 b
  -- A chunk whose logs were read, and whose recording succeeds, is recorded.
  pub chunk_records :
      (logs : List Log) (lo hi : ℕ) (s : S)
      → (get_logs_for lo hi s).0 ≡ ok logs
      → (on_chunk logs lo hi (get_logs_for lo hi s).1).0 ≡ ok tt
      → (b : ℕ) → lo ≤ b
      → b ≤ hi
      → Recorded (on_chunk logs lo hi (get_logs_for lo hi s).1).1 b

module _ {S Log : Type 0} (now : Ask S ℕ) (get_logs_for : ℕ → ℕ → Call S (List Log))
    (on_chunk : List Log → ℕ → ℕ → Call S Done) (Recorded : S → ℕ → Type 0)
    (keeps : KeepsRecords now get_logs_for on_chunk Recorded) (lowest min_chunk from : ℕ)
    (min_pos : 0 < min_chunk) where
  abbrev Covered : ℕ → S → Type 0
  Covered f s = (b : ℕ) → f ≤ b → b ≤ from → Recorded s b

  abbrev Sound : Sweep → S → Type 0
  Sound r s =
      (r.stopped ≢ Stopped.out_of_fuel)
      × Covered r.frontier s
      × ((r.stopped ≢ Stopped.floor) ⊎ (r.frontier ≤ lowest))
      × (r.frontier ≤ from + 1)

  abbrev Good : SweepState → S → Type 0
  Good w s = (w.frontier ≡ w.top) × (w.top ≤ from + 1) × (0 < w.span) × Covered w.frontier s

  abbrev Kept : ℕ → SweepTurn × S → Type 0
  Kept m (stop r, s) = Sound r s
  Kept m (next w, s) = Good w s × (w.top + w.span < m)

  ended-Sound :
      (w : SweepState) (why : Stopped) (e : Option Error) (s : S)
      → Good w s
      → why ≢ Stopped.out_of_fuel
      → (why ≢ Stopped.floor) ⊎ (w.top ≤ lowest)
      → Sound (ended w why e) s
  unfolding ended
  ended-Sound w why e s g n (inl f) = (n, g.3, inl f, omega arith)
  ended-Sound w why e s g n (inr k) = (n, g.3, inr (omega arith), omega arith)

  after_record-Kept :
      (w : SweepState) (lo count : ℕ) (r : Try Done) (s : S)
      → Good w s
      → lo < w.top
      → (r ≡ ok tt → (b : ℕ) → lo ≤ b → b ≤ w.top - 1 → Recorded s b)
      → Kept
          (w.top + w.span)
          (after_record now get_logs_for on_chunk lowest min_chunk w lo count r, s)
  unfolding after_record
  after_record-Kept w lo count (throw e) s g h rec =
      ended-Sound w Stopped.error (some e) s g (λ e. cc) (inl (λ e. cc))
  after_record-Kept w lo count (ok tt) s g h rec = ((refl, omega arith, g.2, covered), omega arith)
    where
      covered : Covered lo s
      covered x p q = elim (Bool-cases (ltb x w.top)) [
        | inl below ↦ rec refl x p (omega (arith, ltb→lt x w.top below))
        | inr above ↦ g.3 x (omega (arith, ltb-false→le x w.top above)) q
      ]

  after_read-Kept :
      (w : SweepState) (lo : ℕ) (s : S) (logs : Try (List Log))
      → (get_logs_for lo (w.top - 1) s).0 ≡ logs
      → Good w (get_logs_for lo (w.top - 1) s).1
      → lo < w.top
      → Kept (w.top + w.span) (
          after_read now get_logs_for on_chunk lowest min_chunk w lo logs
            (get_logs_for lo (w.top - 1) s).1)
  unfolding after_read
  after_read-Kept w lo s (throw e) same g h = elim (Bool-cases (ltb min_chunk w.span)) [
    | inl wide ↦
        let above = ltb→lt min_chunk w.span wide in
        rw wide ((g.0, g.1, omega arith, g.3), omega arith)
    | inr narrow ↦ rw narrow (
        ended-Sound w Stopped.error (some e) (get_logs_for lo (w.top - 1) s).1 g (λ e. cc)
          (inl (λ e. cc)))
  ]
  after_read-Kept w lo s (ok logs) same g h =
      let s' = (get_logs_for lo (w.top - 1) s).1 in
      after_record-Kept w lo (length logs) (on_chunk logs lo (w.top - 1) s').0
        (on_chunk logs lo (w.top - 1) s').1
        (g.0, g.1, g.2, λ b p q. keeps.chunk_keeps logs lo (w.top - 1) s' b (g.3 b p q)) h
        (λ e b p q. keeps.chunk_records logs lo (w.top - 1) s same e b p q)

  read_chunk-Kept :
      (w : SweepState) (s : S)
      → Good w s
      → lowest < w.top
      → Kept (w.top + w.span) (read_chunk now get_logs_for on_chunk lowest min_chunk w s)
  unfolding read_chunk
  read_chunk-Kept w s g h =
      let lo = max lowest (w.top - w.span) in
      after_read-Kept w lo s (get_logs_for lo (w.top - 1) s).0 refl
        (g.0, g.1, g.2, λ b p q. keeps.read_keeps lo (w.top - 1) s b (g.3 b p q)) (omega arith)

  sweep_turn-Kept :
      (deadline : ℕ) (w : SweepState) (s : S)
      → Good w s
      → Kept (w.top + w.span) (sweep_turn now get_logs_for on_chunk lowest min_chunk deadline w s)
  unfolding sweep_turn
  sweep_turn-Kept deadline w s g = elim (Bool-cases (ltb lowest w.top)) [
    | inr e ↦
        rw e (ended-Sound w Stopped.floor none s g (λ e. cc) (inr (ltb-false→le lowest w.top e)))
    | inl e ↦
        let g' : Good w (now s).1 = (g.0, g.1, g.2, λ b p q. keeps.now_keeps s b (g.3 b p q)) in
        elim (Bool-cases (leb deadline (now s).0)) [
          | inl late ↦
              rw (e, late)
                (ended-Sound w Stopped.budget none (now s).1 g' (λ e. cc) (inl (λ e. cc)))
          | inr early ↦ rw (e, early) (read_chunk-Kept w (now s).1 g' (ltb→lt lowest w.top e))
        ]
  ]

  abbrev SoundRun : Sweep × S → Type 0
  SoundRun run = Sound run.0 run.1

  sweep_loop-Sound :
      (fuel deadline : ℕ) (w : SweepState) (s : S)
      → Good w s
      → w.top + w.span < fuel
      → SoundRun (sweep_loop now get_logs_for on_chunk lowest min_chunk fuel deadline w s)
  unfolding sweep_loop
  sweep_loop-Sound zero deadline w s g h = absurd (omega arith)
  sweep_loop-Sound (suc fuel) deadline w s g h =
      go (sweep_turn now get_logs_for on_chunk lowest min_chunk deadline w s)
        (sweep_turn-Kept deadline w s g) (λ w' s'. sweep_loop-Sound fuel deadline w' s')
    where
      loop : SweepState → S → Sweep × S
      loop = sweep_loop now get_logs_for on_chunk lowest min_chunk fuel deadline

      go :
          (turn : SweepTurn × S)
          → Kept (w.top + w.span) turn
          → ((w' : SweepState) (s' : S)
              → Good w' s'
              → w'.top + w'.span < fuel
              → SoundRun (loop w' s'))
          → SoundRun (elim turn.0 [ stop r ↦ (r, turn.1) | next w' ↦ loop w' turn.1 ])
      go (stop r, s') k ih = k
      go (next w', s') k ih = ih w' s' k.0 (omega arith)

  -- Where reading a chunk and then recording it without an error does record its blocks, and no
  -- call loses a record: with positive chunk sizes a sweep ends, every block from its frontier up
  -- to `from` is recorded in the world that it leaves, a sweep that stops at the floor has its
  -- frontier at or under it, and the frontier never rises above `from + 1`.
  pub sweep_down-Sound :
      (chunk budget_ms : ℕ) (s : S)
      → 0 < chunk
      → SoundRun (sweep_down now get_logs_for on_chunk lowest min_chunk chunk from budget_ms s)
  unfolding sweep_down
  sweep_down-Sound chunk budget_ms s h =
      sweep_loop-Sound (from + chunk + 2) _ _ _
        (refl, omega arith, h, λ b p q. absurd (omega arith)) (omega arith)
