-- ===== src/Indexer/Walk/Coverage.antt =====
-- quest-indexer/lib/walk.mjs, `walkDown`: what its frontier says about the chain.
use perps_litvm.Base.{
  ℕ, zero, suc, ◌+◌, ◌-◌, ◌≤◌, ◌<◌, ◌≡◌, ◌≢◌, ◌⊎◌, inl, inr, refl, max, false, Option, List, [],
  ◌∷◌, ltb, leb, Try, ok, throw, Ask, Call, arith, Bool-cases, ltb→lt, ltb-false→le,
}
use perps_litvm.Indexer.Walk.{
  Stopped, Walk, WalkState, WalkTurn, stop, next, after_read, ended, read_chunk, walk_turn,
  walk_loop, walk_down,
}

module _ {S Log : Type 0} (block_number : Log → Option ℕ) (now : Ask S ℕ)
    (get_logs_for : ℕ → ℕ → Call S (List Log)) (HasLog : ℕ → Type 0) where
  -- `eth_getLogs` answers with the logs of the range: none only if no block of it has one, and
  -- some only if a block of it has one.
  abbrev pub ReadsRange : ℕ → ℕ → Try (List Log) → Type 0
  ReadsRange lo hi (throw e) = Unit
  ReadsRange lo hi (ok []) = (b : ℕ) → lo ≤ b → b ≤ hi → ¬ HasLog b
  ReadsRange lo hi (ok (log ∷ logs)) = (b : ℕ) × (lo ≤ b) × (b ≤ hi) × HasLog b

  abbrev pub IsTruthful : Type 0
  IsTruthful = (lo hi : ℕ) (s : S) → lo ≤ hi → ReadsRange lo hi (get_logs_for lo hi s).0

  module _ (truthful : IsTruthful) (lowest chunk from : ℕ) (chunk_pos : 0 < chunk) where
    abbrev Covered : ℕ → Type 0
    Covered f = (b : ℕ) → f ≤ b → b ≤ from → ¬ HasLog b

    abbrev Sound : Walk → Type 0
    Sound r =
        (r.stopped ≢ Stopped.out_of_fuel)
        × Covered r.frontier
        × ((r.found ≡ false) ⊎ ((b : ℕ) × (lowest ≤ b) × (b ≤ from) × HasLog b))
        × ((r.stopped ≢ Stopped.floor) ⊎ ((r.frontier ≤ lowest) × (r.found ≡ false)))
        × (r.frontier ≤ from + 1)

    abbrev Good : WalkState → Type 0
    Good w = (w.frontier ≡ w.top) × (w.top ≤ from + 1) × Covered w.frontier

    abbrev Kept : ℕ → WalkTurn → Type 0
    Kept t (stop r) = Sound r
    Kept t (next w) = Good w × (w.top < t)

    after_read-Kept :
        (w : WalkState) (lo : ℕ) (logs : Try (List Log))
        → Good w
        → lowest ≤ lo
        → lo < w.top
        → ReadsRange lo (w.top - 1) logs
        → Kept w.top (after_read block_number now get_logs_for lowest chunk w lo logs)
    unfolding after_read
    after_read-Kept w lo (throw e) g a b r = ((λ e. cc), g.2, inl refl, inl (λ e. cc), omega arith)
    after_read-Kept w lo (ok []) g a b r = ((refl, omega arith, covered), omega arith)
      where
        covered : Covered lo
        covered x p q h = elim (Bool-cases (ltb x w.top)) [
          | inl below ↦ r x p (omega (arith, ltb→lt x w.top below)) h
          | inr above ↦ g.2 x (omega (arith, ltb-false→le x w.top above)) q h
        ]
    after_read-Kept w lo (ok (log ∷ logs)) g a b r =
        ((λ e. cc), g.2, inr (r.0, omega arith, omega arith, r.3), inl (λ e. cc), omega arith)

    read_chunk-Kept :
        (w : WalkState) (s : S)
        → Good w
        → lowest < w.top
        → Kept w.top (read_chunk block_number now get_logs_for lowest chunk w s).0
    unfolding read_chunk
    read_chunk-Kept w s g h =
        let lo = max lowest (w.top - chunk) in
        after_read-Kept w lo (get_logs_for lo (w.top - 1) s).0 g (omega arith) (omega arith)
          (truthful lo (w.top - 1) s (omega arith))

    ended-Kept :
        (w : WalkState) (why : Stopped)
        → Good w
        → why ≢ Stopped.out_of_fuel
        → (why ≢ Stopped.floor) ⊎ (w.top ≤ lowest)
        → Kept w.top (ended block_number now get_logs_for lowest chunk w why)
    unfolding ended
    ended-Kept w why g n (inl f) = (n, g.2, inl refl, inl f, omega arith)
    ended-Kept w why g n (inr k) = (n, g.2, inl refl, inr (omega arith, refl), omega arith)

    walk_turn-Kept :
        (deadline : ℕ) (w : WalkState) (s : S)
        → Good w
        → Kept w.top (walk_turn block_number now get_logs_for lowest chunk deadline w s).0
    unfolding walk_turn
    walk_turn-Kept deadline w s g = elim (Bool-cases (ltb lowest w.top)) [
      | inr e ↦ rw e (ended-Kept w Stopped.floor g (λ e. cc) (inr (ltb-false→le lowest w.top e)))
      | inl e ↦ elim (Bool-cases (leb deadline (now s).0)) [
        | inl late ↦ rw (e, late) (ended-Kept w Stopped.budget g (λ e. cc) (inl (λ e. cc)))
        | inr early ↦ rw (e, early) (read_chunk-Kept w (now s).1 g (ltb→lt lowest w.top e))
      ]
    ]

    walk_loop-Sound :
        (fuel deadline : ℕ) (w : WalkState) (s : S)
        → Good w
        → w.top < fuel
        → Sound (walk_loop block_number now get_logs_for lowest chunk fuel deadline w s).0
    unfolding walk_loop
    walk_loop-Sound zero deadline w s g h = absurd (omega arith)
    walk_loop-Sound (suc fuel) deadline w s g h =
        go (walk_turn block_number now get_logs_for lowest chunk deadline w s).0 refl
          (walk_turn-Kept deadline w s g) (λ w'. walk_loop-Sound fuel deadline w' _)
      where
        go :
            (turn : WalkTurn)
            → (walk_turn block_number now get_logs_for lowest chunk deadline w s).0 ≡ turn
            → Kept w.top turn
            → ((w' : WalkState)
                → Good w'
                → w'.top < fuel
                → Sound
                    (walk_loop block_number now get_logs_for lowest chunk fuel deadline w'
                      (walk_turn block_number now get_logs_for lowest chunk deadline w s).1).0)
            → Sound (walk_loop block_number now get_logs_for lowest chunk (suc fuel) deadline w s).0
        go (stop r) e k ih = rw (e, walk_loop) k
        go (next w') e k ih = rw (e, walk_loop) (ih w' k.0 (omega arith))

    -- If `eth_getLogs` is truthful and chunks are not empty, then, whatever the clock and the
    -- failures do: the walk ends; no block from its frontier up to `from` has a matching log; a
    -- walk that says `found` has one in a block of its range; a walk that stops at the floor has a
    -- frontier at or under it, and found nothing; and the frontier never rises above `from + 1`.
    pub walk_down-Sound :
        (budget_ms : ℕ) (s : S)
        → Sound (walk_down block_number now get_logs_for lowest chunk from budget_ms s).0
    unfolding walk_down
    walk_down-Sound budget_ms s =
        walk_loop-Sound (from + 2) _ _ _ (refl, omega arith, λ b p q h. absurd (omega arith))
          (omega arith)
