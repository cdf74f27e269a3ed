-- ===== src/Quest/Scan/Frame.antt =====
-- frontend/api/_lib/quest/scan.js, `walkDown`: a walk moves the world only by the clock and the reads.
use perps_litvm.Base.{
  ℕ, zero, suc, ◌+◌, ◌≡◌, inl, inr, refl, Option, List, leb, ltb, Ask, Call, Bool-cases,
}
use perps_litvm.Quest.Sources.{Source}
use perps_litvm.Quest.Scan.{
  SourceState, Tally, Limits, Cursor, Turn, stop, next, budget_spent, read_chunk, walk_turn,
  walk_loop, walk_down,
}

module _ {S Log : Type 0} (limits : Limits) (now : Ask S ℕ)
    (query : Source → ℕ → ℕ → Call S (List Log)) (started_at : ℕ) (P : S → Type 0)
    (clock_keeps : (s : S) → P s → P (now s).1)
    (query_keeps : (source : Source) (lo hi : ℕ) (s : S) → P s → P (query source lo hi s).1)
    (on_chunk : Option ℕ → SourceState → SourceState) (floor : ℕ) where
  walk_turn-keeps :
      (c : Cursor) (s : S) → P s → P (walk_turn limits now query started_at on_chunk floor c s).1
  unfolding walk_turn budget_spent read_chunk
  walk_turn-keeps c s p = elim (Bool-cases (ltb floor c.top)) [
    | inr e ↦ rw e p
    | inl e ↦ elim (Bool-cases (leb limits.max_chunks c.tally.chunks_used)) [
      | inl full ↦ rw (e, full) p
      | inr free ↦ elim (Bool-cases (leb (started_at + limits.time_budget_ms) (now s).0)) [
        | inl late ↦ rw (e, free, late) (clock_keeps s p)
        | inr early ↦ rw (e, free, early) (query_keeps _ _ _ _ (clock_keeps s p))
      ]
    ]
  ]

  walk_loop-keeps :
      (fuel : ℕ) (c : Cursor) (s : S)
      → P s
      → P (walk_loop limits now query started_at fuel on_chunk floor c s).1
  unfolding walk_loop
  walk_loop-keeps zero c s p = p
  walk_loop-keeps (suc fuel) c s p =
      go _ refl (walk_turn-keeps c s p) (λ c' s' k. walk_loop-keeps fuel c' s' k)
    where
      go :
          (t : Turn)
          → (walk_turn limits now query started_at on_chunk floor c s).0 ≡ t
          → P (walk_turn limits now query started_at on_chunk floor c s).1
          → ((c' : Cursor) (s' : S)
              → P s'
              → P (walk_loop limits now query started_at fuel on_chunk floor c' s').1)
          → P (walk_loop limits now query started_at (suc fuel) on_chunk floor c s).1
      go (stop why c') e k ih = rw (e, walk_loop) k
      go (next c') e k ih = rw (e, walk_loop) (ih c' _ k)

  pub walk_down-keeps :
      (top : ℕ) (st : SourceState) (tally : Tally) (s : S)
      → P s
      → P (walk_down limits now query started_at on_chunk floor top st tally s).1
  unfolding walk_down
  walk_down-keeps top st tally s p = walk_loop-keeps (limits.max_chunks + 1) _ s p
