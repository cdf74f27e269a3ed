-- ===== src/Quest/Scan.antt =====
-- frontend/api/_lib/quest/scan.js: `scanForEvent`, its walks, phases and coverage.
-- `top` is the source's `cursor` plus 1. `query` is `queryFilter` under `withRetry`. A walk is
-- given a round for each chunk that the budget allows, and one more; `out_of_fuel` is the model's.
pub mod Walk
pub mod Frame
use perps_litvm.Base.{
  ℕ, zero, suc, ◌+◌, ◌-◌, max, min, String, Bool, true, false, not, ◌&&◌, Option, none, some, List,
  [], ◌∷◌, leb, ltb, if◌then◌else◌, Try, ok, throw, Ask, Call,
}
use perps_litvm.Base.{◌==◌ as num_eq}
use text.Mathlib.Text.{◌==◌}
use perps_litvm.Quest.Sources.{Source, source_key_of}

-- CHUNK_BLOCKS, MAX_CHUNKS, TIME_BUDGET_MS
abbrev pub chunk_blocks : ℕ
chunk_blocks = 10000

abbrev pub max_chunks : ℕ
max_chunks = 12

abbrev pub time_budget_ms : ℕ
time_budget_ms = 10000

-- A stored interval, with whether this poll has moved it.
pub record CoverageRow : Type 0 where
  pub source_key : String
  pub floor_block : ℕ
  pub scanned_from : ℕ
  pub scanned_to : ℕ
  pub dirty : Bool

-- `isUsablePrior`. The numbers of a row are integers by their type.
unfoldable pub is_usable_prior : Option CoverageRow → Source → Bool
is_usable_prior none source = false
is_usable_prior (some prior) source =
    num_eq prior.floor_block source.floor
    && (leb prior.floor_block prior.scanned_to && leb prior.scanned_to prior.scanned_from)

-- `Object.fromEntries` keeps the last entry of a key.
unfoldable pub by_key : List CoverageRow → String → Option CoverageRow
by_key [] key = none
by_key (row ∷ rows) key =
    let later = by_key rows key in
    elim later [ some r ↦ some r | none ↦ if row.source_key == key then some row else none ]

-- The test of one source in `coverageProvesAbsence`.
unfoldable pub covers : ℕ → Source → Option CoverageRow → Bool
covers head source none = false
covers head source (some cov) = num_eq cov.scanned_to source.floor && leb head cov.scanned_from

unfoldable pub all_covered :
    (String → String) → (String → Option CoverageRow) → ℕ → List Source → Bool
unfolding covers
all_covered tidy coverage head [] = true
all_covered tidy coverage head (source ∷ sources) =
    covers head source (coverage (source_key_of tidy source))
    && all_covered tidy coverage head sources

unfoldable pub coverage_proves_absence :
    (String → String) → List Source → (String → Option CoverageRow) → ℕ → Bool
unfolding all_covered
coverage_proves_absence tidy [] coverage head = false
coverage_proves_absence tidy (source ∷ sources) coverage head =
    all_covered tidy coverage head (source ∷ sources)

-- The state of one source in a scan, and what all sources share.
pub record SourceState : Type 0 where
  pub source : Source
  pub key : String
  pub from : Option ℕ
  pub to : Option ℕ
  pub frozen : Bool
  pub dirty : Bool

pub record Tally : Type 0 where
  pub chunks_used : ℕ
  pub scanned_down_to : ℕ
  pub had_chunk_error : Bool

pub record Limits : Type 0 where
  pub head : ℕ
  pub chunk_blocks : ℕ
  pub max_chunks : ℕ
  pub time_budget_ms : ℕ

pub data Outcome : Type 0 where
  found done error budget out_of_fuel : Outcome

-- The variables of `walkDown`'s loop, its callback's source among them.
pub record Cursor : Type 0 where
  pub st : SourceState
  pub tally : Tally
  pub top : ℕ
  pub outcome : Outcome

pub data Turn : Type 0 where
  stop : Outcome → Cursor → Turn
  next : Cursor → Turn

unfoldable pub seed : (String → String) → (String → Option CoverageRow) → Source → SourceState
unfolding is_usable_prior
seed tidy prior source =
    let key = source_key_of tidy source in
    let row = prior key in
    let usable = is_usable_prior row source in
    record {
      source = source;
      key = key;
      from = if usable then elim row [ none ↦ none | some r ↦ some r.scanned_from ] else none;
      to = if usable then elim row [ none ↦ none | some r ↦ some r.scanned_to ] else none;
      frozen = false;
      dirty = false;
    }

module _ {S Log : Type 0} (limits : Limits) (now : Ask S ℕ)
    (query : Source → ℕ → ℕ → Call S (List Log)) (started_at : ℕ) where
  pub budget_spent : Tally → Ask S Bool
  budget_spent tally s =
      if leb limits.max_chunks tally.chunks_used
      then (true, s)
      else (let (t, s') = now s in (leb (started_at + limits.time_budget_ms) t, s'))

  -- What a chunk from `lo` leads to; its callback gets `lo`, or nothing if the chunk is lost.
  pub after_query : (Option ℕ → SourceState → SourceState) → Cursor → ℕ → Try (List Log) → Turn
  after_query on_chunk c lo (ok []) = next (record {
    st = on_chunk (some lo) c.st;
    tally = record c.tally {
      chunks_used = c.tally.chunks_used + 1;
      scanned_down_to = min c.tally.scanned_down_to lo;
    };
    top = lo;
    outcome = c.outcome;
  })
  after_query on_chunk c lo (ok (log ∷ logs)) = stop found (record c {
    tally = record c.tally {
      chunks_used = c.tally.chunks_used + 1;
      scanned_down_to = min c.tally.scanned_down_to lo;
    };
  })
  after_query on_chunk c lo (throw e) = next (record {
    st = on_chunk none c.st;
    tally = record c.tally { chunks_used = c.tally.chunks_used + 1; had_chunk_error = true };
    top = lo;
    outcome = error;
  })

  pub read_chunk : (Option ℕ → SourceState → SourceState) → ℕ → Cursor → S → Turn × S
  unfolding after_query
  read_chunk on_chunk floor_of_walk c s =
      let lo = max floor_of_walk (c.top - limits.chunk_blocks) in
      let (logs, s') = query c.st.source lo (c.top - 1) s in (after_query on_chunk c lo logs, s')

  pub walk_turn : (Option ℕ → SourceState → SourceState) → ℕ → Cursor → S → Turn × S
  unfolding budget_spent read_chunk
  walk_turn on_chunk floor_of_walk c s =
      if ltb floor_of_walk c.top
      then (let (spent, s') = budget_spent c.tally s in
          if spent then (stop budget c, s') else read_chunk on_chunk floor_of_walk c s')
      else (stop c.outcome c, s)

  pub walk_loop :
      ℕ → (Option ℕ → SourceState → SourceState) → ℕ → Cursor → S → (Outcome × Cursor) × S
  unfolding walk_turn
  walk_loop zero on_chunk floor_of_walk c s = ((out_of_fuel, c), s)
  walk_loop (suc fuel) on_chunk floor_of_walk c s =
      let (turn, s') = walk_turn on_chunk floor_of_walk c s in
      elim turn [
        | stop why c' ↦ ((why, c'), s')
        | next c' ↦ walk_loop fuel on_chunk floor_of_walk c' s'
      ]

  -- `walkDown(source, top - 1, floorOfWalk, onChunk)`
  unfoldable pub walk_down :
      (Option ℕ → SourceState → SourceState)
      → ℕ
      → ℕ
      → SourceState
      → Tally
      → S
      → (Outcome × Cursor) × S
  unfolding walk_loop
  walk_down on_chunk floor_of_walk top st tally =
      walk_loop (limits.max_chunks + 1) on_chunk floor_of_walk
        (record { st = st; tally = tally; top = top; outcome = done })
