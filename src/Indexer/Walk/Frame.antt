-- ===== src/Indexer/Walk/Frame.antt =====
-- quest-indexer/lib/walk.mjs, `walkDown`: a walk moves the world only by the clock and the reads.
use perps_litvm.Base.{
  ℕ, zero, suc, ◌+◌, ◌≡◌, refl, Option, List, leb, ltb, Ask, Call, Bool-cases, inl, inr,
}
use perps_litvm.Indexer.Walk.{
  WalkState, WalkTurn, stop, next, walk_turn, walk_loop, walk_down, read_chunk,
}

module _ {S Log : Type 0} (block_number : Log → Option ℕ) (now : Ask S ℕ)
    (get_logs_for : ℕ → ℕ → Call S (List Log)) (lowest : ℕ) (chunk : ℕ) (P : S → Type 0)
    (clock_keeps : (s : S) → P s → P (now s).1)
    (reads_keep : (lo hi : ℕ) (s : S) → P s → P (get_logs_for lo hi s).1) where
  walk_turn-keeps :
      (deadline : ℕ) (w : WalkState) (s : S)
      → P s
      → P (walk_turn block_number now get_logs_for lowest chunk deadline w s).1
  unfolding walk_turn read_chunk
  walk_turn-keeps deadline w s p = elim (Bool-cases (ltb lowest w.top)) [
    | inr e ↦ rw e p
    | inl e ↦ elim (Bool-cases (leb deadline (now s).0)) [
      | inl late ↦ rw (e, late) (clock_keeps s p)
      | inr early ↦ rw (e, early) (reads_keep _ _ _ (clock_keeps s p))
    ]
  ]

  walk_loop-keeps :
      (fuel deadline : ℕ) (w : WalkState) (s : S)
      → P s
      → P (walk_loop block_number now get_logs_for lowest chunk fuel deadline w s).1
  unfolding walk_loop
  walk_loop-keeps zero deadline w s p = p
  walk_loop-keeps (suc fuel) deadline w s p =
      go _ refl (walk_turn-keeps deadline w s p) (λ w' s' k. walk_loop-keeps fuel deadline w' s' k)
    where
      go :
          (t : WalkTurn)
          → (walk_turn block_number now get_logs_for lowest chunk deadline w s).0 ≡ t
          → P (walk_turn block_number now get_logs_for lowest chunk deadline w s).1
          → ((w' : WalkState) (s' : S)
              → P s'
              → P (walk_loop block_number now get_logs_for lowest chunk fuel deadline w' s').1)
          → P (walk_loop block_number now get_logs_for lowest chunk (suc fuel) deadline w s).1
      go (stop r) e k ih = rw (e, walk_loop) k
      go (next w') e k ih = rw (e, walk_loop) (ih w' _ k)

  pub walk_down-keeps :
      (from budget_ms : ℕ) (s : S)
      → P s
      → P (walk_down block_number now get_logs_for lowest chunk from budget_ms s).1
  unfolding walk_down
  walk_down-keeps from budget_ms s p = walk_loop-keeps (from + 2) _ _ _ (clock_keeps s p)
