-- ===== src/Quest/Scan/Walk.antt =====
-- frontend/api/_lib/quest/scan.js, `walkDown`: it ends, and what is kept from chunk to chunk.
use perps_litvm.Base.{
  ℕ, zero, suc, ◌+◌, ◌-◌, ◌≤◌, ◌<◌, ◌≡◌, ◌≢◌, ◌⊎◌, inl, inr, refl, sym, subst, ◌∙◌, max, Option,
  none, some, List, [], ◌∷◌, leb, ltb, Try, ok, throw, Ask, Call, arith, Bool-cases, All, ltb→lt,
  ltb-false→le,
}
use perps_litvm.Quest.Sources.{Source}
use perps_litvm.Quest.Scan.{
  SourceState, Tally, Limits, Outcome, found, done, error, out_of_fuel, Cursor, Turn, stop, next,
  budget_spent, after_query, read_chunk, walk_turn, walk_loop, walk_down,
}

-- The blocks from `lo` up to `hi`, without `hi`, have no log of the source.
abbrev pub NoLog : (Source → ℕ → Type 0) → Source → ℕ → ℕ → Type 0
NoLog HasLog source lo hi = (b : ℕ) → lo ≤ b → b < hi → ¬ HasLog source b

-- `queryFilter` answers with the logs of its range, where that is not under the source's floor.
abbrev pub Answers :
    {Log : Type 0} → (Source → ℕ → Type 0) → Source → ℕ → ℕ → Try (List Log) → Type 0
Answers HasLog source lo hi (throw e) = Unit
Answers HasLog source lo hi (ok []) = NoLog HasLog source lo (hi + 1)
Answers HasLog source lo hi (ok (log ∷ logs)) = (b : ℕ) × HasLog source b

abbrev pub IsTruthful :
    {S Log : Type 0} → (Source → ℕ → Type 0) → (Source → ℕ → ℕ → Call S (List Log)) → Type 0
IsTruthful {S} HasLog query =
    (source : Source) (lo hi : ℕ) (s : S)
    → source.floor ≤ lo
    → lo ≤ hi
    → Answers HasLog source lo hi (query source lo hi s).0

-- Blocks under and over a floor make up all blocks.
pub All-NoLog_join :
    (HasLog : Source → ℕ → Type 0) (top : ℕ) (list : List Source)
    → All (λ src. NoLog HasLog src 0 src.floor) list
    → All (λ src. NoLog HasLog src src.floor top) list
    → All (λ src. NoLog HasLog src 0 top) list
All-NoLog_join HasLog top [] h k = tt
All-NoLog_join HasLog top (src ∷ list) (h, hs) (k, ks) = (
  λ b p q. elim (Bool-cases (ltb b src.floor)) [
    | inl below ↦ h b p (ltb→lt b src.floor below)
    | inr above ↦ k b (ltb-false→le b src.floor above) q
  ],
  All-NoLog_join HasLog top list hs ks,
)

module _ {S Log : Type 0} (limits : Limits) (now : Ask S ℕ)
    (query : Source → ℕ → ℕ → Call S (List Log)) (started_at : ℕ) (HasLog : Source → ℕ → Type 0)
    (truthful : IsTruthful HasLog query) (chunk_pos : 0 < limits.chunk_blocks)
    (on_chunk : Option ℕ → SourceState → SourceState)
    (keeps_source : (lo : Option ℕ) (st : SourceState) → (on_chunk lo st).source ≡ st.source)
    (src : Source) (floor : ℕ) (over : src.floor ≤ floor) (J : SourceState → ℕ → Outcome → Type 0)
    (read : (st : SourceState) (lo top : ℕ) (o : Outcome)
      → J st top o
      → floor ≤ lo
      → lo < top
      → NoLog HasLog src lo top
      → J (on_chunk (some lo) st) lo o)
    (lost : (st : SourceState) (lo top : ℕ) (o : Outcome)
      → J st top o
      → J (on_chunk none st) lo error) where
  abbrev Good : Cursor → Type 0
  Good c = (c.st.source ≡ src) × ((c.outcome ≡ done) ⊎ (c.outcome ≡ error)) × J c.st c.top c.outcome

  abbrev pub Ended : Outcome → Cursor → Type 0
  Ended why c =
      (why ≢ out_of_fuel)
      × ((why ≢ found) ⊎ ((b : ℕ) × HasLog src b))
      × ((why ≡ found) ⊎ Good c)
      × ((why ≢ done) ⊎ ((c.top ≤ floor) × (c.outcome ≡ done)))

  abbrev Kept : ℕ → Turn → Type 0
  Kept used (stop why c) = Ended why c
  Kept used (next c) = Good c × (c.tally.chunks_used ≡ used + 1) × (used < limits.max_chunks)

  after_query-Kept :
      (c : Cursor) (lo : ℕ) (logs : Try (List Log))
      → Good c
      → floor ≤ lo
      → lo < c.top
      → c.tally.chunks_used < limits.max_chunks
      → Answers HasLog c.st.source lo (c.top - 1) logs
      → Kept c.tally.chunks_used (after_query limits now query started_at on_chunk c lo logs)
  unfolding after_query
  after_query-Kept c lo (ok []) (src_eq, o, j) up h u a = (
    (
      keeps_source (some lo) c.st ∙ src_eq,
      o,
      read c.st lo c.top c.outcome j up h
          (λ b p q. subst (λ x. ¬ HasLog x b) src_eq (a b p (omega arith))),
    ),
    refl,
    u,
  )
  after_query-Kept c lo (ok (log ∷ logs)) (src_eq, o, j) up h u a =
      ((λ e. cc), inr (a.0, subst (λ x. HasLog x a.0) src_eq a.1), inl refl, inl (λ e. cc))
  after_query-Kept c lo (throw e) (src_eq, o, j) up h u a =
      ((keeps_source none c.st ∙ src_eq, inr refl, lost c.st lo c.top c.outcome j), refl, u)

  read_chunk-Kept :
      (c : Cursor) (s : S)
      → Good c
      → floor < c.top
      → c.tally.chunks_used < limits.max_chunks
      → Kept c.tally.chunks_used (read_chunk limits now query started_at on_chunk floor c s).0
  unfolding read_chunk
  read_chunk-Kept c s g h u =
      let lo = max floor (c.top - limits.chunk_blocks) in
      after_query-Kept c lo (query c.st.source lo (c.top - 1) s).0 g (omega arith) (omega arith) u (
        truthful c.st.source lo (c.top - 1) s
          (subst (λ (x : Source). x.floor ≤ lo) (sym g.0) (omega arith)) (omega arith))

  finished-Ended : (c : Cursor) → Good c → c.top ≤ floor → Ended c.outcome c
  finished-Ended c (a, inl e, j) h =
      (λ x. cc (e, x), inl (λ x. cc (e, x)), inr (a, inl e, j), inr (h, e))
  finished-Ended c (a, inr e, j) h =
      (λ x. cc (e, x), inl (λ x. cc (e, x)), inr (a, inr e, j), inl (λ x. cc (e, x)))

  walk_turn-Kept :
      (c : Cursor) (s : S)
      → Good c
      → Kept c.tally.chunks_used (walk_turn limits now query started_at on_chunk floor c s).0
  unfolding walk_turn budget_spent
  walk_turn-Kept c s g = elim (Bool-cases (ltb floor c.top)) [
    | inr e ↦ rw e (finished-Ended c g (ltb-false→le floor c.top e))
    | inl e ↦ elim (Bool-cases (leb limits.max_chunks c.tally.chunks_used)) [
      | inl full ↦ rw (e, full) ((λ x. cc), inl (λ x. cc), inr g, inl (λ x. cc))
      | inr free ↦ elim (Bool-cases (leb (started_at + limits.time_budget_ms) (now s).0)) [
        | inl late ↦ rw (e, free, late) ((λ x. cc), inl (λ x. cc), inr g, inl (λ x. cc))
        | inr early ↦
            rw (e, free, early)
              (read_chunk-Kept c (now s).1 g (ltb→lt floor c.top e) (ground arith))
      ]
    ]
  ]

  walk_loop-Ended :
      (fuel : ℕ) (c : Cursor) (s : S)
      → Good c
      → 0 < fuel
      → limits.max_chunks < c.tally.chunks_used + fuel
      → let r = walk_loop limits now query started_at fuel on_chunk floor c s in Ended r.0.0 r.0.1
  unfolding walk_loop
  walk_loop-Ended zero c s g p h = absurd (omega arith)
  walk_loop-Ended (suc fuel) c s g p h =
      go (walk_turn limits now query started_at on_chunk floor c s).0 refl (walk_turn-Kept c s g)
        (λ c'. walk_loop-Ended fuel c' _)
    where
      go :
          (turn : Turn)
          → (walk_turn limits now query started_at on_chunk floor c s).0 ≡ turn
          → Kept c.tally.chunks_used turn
          → ((c' : Cursor)
              → Good c'
              → 0 < fuel
              → limits.max_chunks < c'.tally.chunks_used + fuel
              → let r =
                  walk_loop limits now query started_at fuel on_chunk floor c'
                    (walk_turn limits now query started_at on_chunk floor c s).1 in
                Ended r.0.0 r.0.1)
          → let r = walk_loop limits now query started_at (suc fuel) on_chunk floor c s in
            Ended r.0.0 r.0.1
      go (stop why c') e k ih = rw (e, walk_loop) k
      go (next c') e k ih = rw (e, walk_loop) (ih c' k.0 (omega arith) (omega arith))

  pub walk_down-Ended :
      (top : ℕ) (st : SourceState) (tally : Tally) (s : S)
      → st.source ≡ src
      → J st top done
      → let r = walk_down limits now query started_at on_chunk floor top st tally s in
        Ended r.0.0 r.0.1
  unfolding walk_down
  walk_down-Ended top st tally s e j =
      walk_loop-Ended (limits.max_chunks + 1) _ s (e, inl refl, j) (omega arith) (omega arith)
