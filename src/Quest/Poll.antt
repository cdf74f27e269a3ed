-- ===== src/Quest/Poll.antt =====
-- frontend/api/_lib/quest/scan.js: `scanForEvent`, from its two phases to its verdict.
pub mod States
pub mod Rows
pub mod Absence
pub mod Frame
use perps_litvm.Base.{
  ℕ, zero, suc, ◌+◌, ◌-◌, max, min, String, Bool, true, false, not, ◌&&◌, ◌||◌, Option, none, some,
  List, [], ◌∷◌, ◌++◌, leb, ltb, if◌then◌else◌, Try, ok, throw, Ask, Call,
}
use text.Mathlib.Text.{◌==◌}
use perps_litvm.Quest.Sources.{Source, source_key_of}
use perps_litvm.Quest.Scan.{
  CoverageRow, by_key, coverage_proves_absence, SourceState, Tally, Limits, Outcome, found, done,
  error, budget, out_of_fuel, Cursor, seed, walk_down,
}

pub data Reason : Type 0 where
  chunk_error budget_exhausted coverage_incomplete floor_unverified : Reason

pub record Scan : Type 0 where
  pub found : Bool
  pub complete : Bool
  pub exhausted : Bool
  pub chunks_used : ℕ
  pub scanned_from : ℕ
  pub scanned_down_to : Option ℕ
  pub coverage : List CoverageRow
  pub reason : Option Reason

-- What one source's turn in a phase, and a whole phase, come to.
pub record Stepped : Type 0 where
  pub st : SourceState
  pub tally : Tally
  pub outcome : Outcome

pub record Phase : Type 0 where
  pub states : List SourceState
  pub tally : Tally
  pub outcome : Outcome

pub ends_phase : Outcome → Bool
ends_phase found = true
ends_phase budget = true
ends_phase out_of_fuel = true
ends_phase done = false
ends_phase error = false

-- `result`: no block is named if no chunk was read.
pub down_to : ℕ → ℕ → Option ℕ
down_to head scanned = if ltb head scanned then none else some scanned

-- The callback of phase B.
pub descend : ℕ → Option ℕ → SourceState → SourceState
descend head none st = record st { frozen = true }
descend head (some lo) st = if st.frozen then st else record st {
  from = elim st.from [ none ↦ some head | some f ↦ some f ];
  to = some lo;
  dirty = true;
}

-- Phase A's callback does nothing.
pub ignore : Option ℕ → SourceState → SourceState
ignore lo st = st

pub closed : ℕ → Outcome → SourceState → SourceState
closed head done st = record st { from = some head; dirty = true }
closed head why st = st

-- One row of the coverage that is returned, if the source has a key and an interval.
pub row_of : SourceState → Option ℕ → Option ℕ → List CoverageRow
row_of st (some from) (some to) =
    if st.key == ""
    then []
    else record {
      source_key = st.key;
      floor_block = st.source.floor;
      scanned_from = from;
      scanned_to = to;
      dirty = st.dirty;
    }
      ∷ []
row_of st (some from) none = []
row_of st none to = []

pub rows_of : List SourceState → List CoverageRow
unfolding row_of
rows_of [] = []
rows_of (st ∷ states) = row_of st st.from st.to ++ rows_of states

pub top_of : ℕ → Option ℕ → ℕ
top_of head none = head + 1
top_of head (some to) = to

pub seeds : (String → String) → (String → Option CoverageRow) → List Source → List SourceState
unfolding seed
seeds tidy prior [] = []
seeds tidy prior (source ∷ sources) = seed tidy prior source ∷ seeds tidy prior sources

pub positive : ℕ → Tally → Scan
unfolding down_to
positive head tally = record {
  found = true;
  complete = true;
  exhausted = false;
  chunks_used = tally.chunks_used;
  scanned_from = head;
  scanned_down_to = down_to head tally.scanned_down_to;
  coverage = [];
  reason = none;
}

pub unproven : ℕ → Tally → List CoverageRow → Reason → Scan
unfolding down_to
unproven head tally rows why = record {
  found = false;
  complete = false;
  exhausted = true;
  chunks_used = tally.chunks_used;
  scanned_from = head;
  scanned_down_to = down_to head tally.scanned_down_to;
  coverage = rows;
  reason = some why;
}

pub negative : ℕ → Tally → List CoverageRow → Scan
unfolding down_to
negative head tally rows = record {
  found = false;
  complete = true;
  exhausted = false;
  chunks_used = tally.chunks_used;
  scanned_from = head;
  scanned_down_to = down_to head tally.scanned_down_to;
  coverage = rows;
  reason = none;
}

pub is_budget : Outcome → Bool
is_budget budget = true
is_budget _ = false

pub why_unproven : Tally → Outcome → Reason
unfolding is_budget
why_unproven tally outcome =
    if tally.had_chunk_error
    then Reason.chunk_error
    else (if is_budget outcome then Reason.budget_exhausted else Reason.coverage_incomplete)

-- After a source's turn: the phase ends, or goes on with the others.
pub after_step : {S : Type 0} → Stepped → List SourceState → (Tally → Ask S Phase) → Ask S Phase
unfolding ends_phase
after_step r states rest s = elim (ends_phase r.outcome) [
  | true ↦ (record { states = r.st ∷ states; tally = r.tally; outcome = r.outcome }, s)
  | false ↦
      let (p, s') = rest r.tally s in
      (record { states = r.st ∷ p.states; tally = p.tally; outcome = p.outcome }, s')
]

-- The sources of a phase in turn, up to the first that found a log or met the budget.
pub phase :
    {S : Type 0} → (SourceState → Tally → Ask S Stepped) → List SourceState → Tally → Ask S Phase
unfolding after_step
phase step [] tally s = (record { states = []; tally = tally; outcome = done }, s)
phase step (st ∷ states) tally s =
    let (r, s') = step st tally s in after_step r states (phase step states) s'

module _ {S Log : Type 0} (tidy : String → String) (limits : Limits) (now : Ask S ℕ)
    (query : Source → ℕ → ℕ → Call S (List Log)) (verify_floor : Source → Call S Bool) where
  -- Phase A: read the blocks above a source's coverage.
  pub close_from : ℕ → SourceState → Tally → Option ℕ → Ask S Stepped
  unfolding closed ignore walk_down
  close_from started_at st tally none s = (record { st = st; tally = tally; outcome = done }, s)
  close_from started_at st tally (some from) s =
      if leb limits.head from
      then (record { st = st; tally = tally; outcome = done }, s)
      else (let ((why, c), s') =
            walk_down limits now query started_at ignore (from + 1) (limits.head + 1) st tally s in
          (record { st = closed limits.head why c.st; tally = c.tally; outcome = why }, s'))

  pub close_gap : ℕ → SourceState → Tally → Ask S Stepped
  unfolding close_from
  close_gap started_at st tally = close_from started_at st tally st.from

  -- Phase B: read down from a source's coverage, or from the head.
  pub deepen : ℕ → SourceState → Tally → Ask S Stepped
  unfolding descend walk_down top_of
  deepen started_at st tally s =
      let top = top_of limits.head st.to in
      if leb top st.source.floor
      then (record { st = st; tally = tally; outcome = done }, s)
      else (let ((why, c), s') =
            walk_down limits now query started_at (descend limits.head) st.source.floor top st tally
              s in
          (record { st = c.st; tally = c.tally; outcome = why }, s'))

  -- A floor whose check fails or throws is not verified.
  pub floor_ok : Source → Ask S Bool
  floor_ok source s =
      let (r, s') = verify_floor source s in (elim r [ ok b ↦ b | throw _ ↦ false ], s')

  pub floors_ok : List Source → Ask S Bool
  unfolding floor_ok
  floors_ok [] s = (true, s)
  floors_ok (source ∷ sources) s =
      let (good, s') = floor_ok source s in
      elim good [ true ↦ floors_ok sources s' | false ↦ (false, s') ]

  pub verdict : List Source → Phase → Ask S Scan
  unfolding rows_of floors_ok unproven negative why_unproven
  verdict sources p s =
      let rows = rows_of p.states in
      if not (coverage_proves_absence tidy sources (by_key rows) limits.head)
        || p.tally.had_chunk_error
      then (unproven limits.head p.tally rows (why_unproven p.tally p.outcome), s)
      else (let (verified, s') = floors_ok sources s in
          if verified
          then (negative limits.head p.tally rows, s')
          else (unproven limits.head p.tally rows floor_unverified, s'))

  -- After a phase: a found log, or what follows.
  pub unless_found : Phase → (Phase → Ask S Scan) → Ask S Scan
  unfolding positive
  unless_found p rest s = elim p.outcome [
    | found ↦ (positive limits.head p.tally, s)
    | _ ↦ rest p s
  ]

  -- Phase B is left out if phase A met the budget.
  pub phase_b : ℕ → Phase → Ask S Phase
  unfolding phase deepen is_budget
  phase_b started_at a s =
      if is_budget a.outcome then (a, s) else phase (deepen started_at) a.states a.tally s

  pub fresh_tally : Tally
  fresh_tally = record {
    chunks_used = 0;
    scanned_down_to = limits.head + 1;
    had_chunk_error = false;
  }

  pub scan_states : ℕ → List Source → List SourceState → Ask S Scan
  unfolding fresh_tally phase close_gap unless_found phase_b verdict
  scan_states started_at sources states s =
      let (a, s₁) = phase (close_gap started_at) states fresh_tally s in
      unless_found a
        (λ a' s₂. let (b, s₃) = phase_b started_at a' s₂ in unless_found b (verdict sources) s₃) s₁

  unfoldable pub scan_for_event : List Source → (String → Option CoverageRow) → Ask S Scan
  unfolding scan_states seeds
  scan_for_event sources prior s =
      let (t, s') = now s in scan_states t sources (seeds tidy prior sources) s'
