-- ===== src/Quest/Poll/Frame.antt =====
-- frontend/api/_lib/quest/scan.js, `scanForEvent`: a scan moves the world only by its calls.
use perps_litvm.Base.{
  ℕ, ◌+◌, ◌≡◌, inl, inr, refl, String, Bool, not, ◌||◌, Option, none, some, List, [], ◌∷◌, leb, Ask,
  Call, Bool-cases,
}
use perps_litvm.Quest.Sources.{Source}
use perps_litvm.Quest.Scan.{
  CoverageRow, by_key, coverage_proves_absence, SourceState, Tally, Limits, found, done, error,
  budget, out_of_fuel,
}
use perps_litvm.Quest.Scan.Frame.{walk_down-keeps}
use perps_litvm.Quest.Poll.{
  Scan, Stepped, Phase, ends_phase, descend, ignore, top_of, after_step, phase, close_from,
  close_gap, deepen, rows_of, floor_ok, floors_ok, verdict, unless_found, phase_b, scan_states,
  scan_for_event, is_budget, seeds, fresh_tally,
}

module _ {S Log : Type 0} (tidy : String → String) (limits : Limits) (now : Ask S ℕ)
    (query : Source → ℕ → ℕ → Call S (List Log)) (verify_floor : Source → Call S Bool)
    (P : S → Type 0) (clock_keeps : (s : S) → P s → P (now s).1)
    (query_keeps : (source : Source) (lo hi : ℕ) (s : S) → P s → P (query source lo hi s).1)
    (verify_keeps : (source : Source) (s : S) → P s → P (verify_floor source s).1) where
  abbrev Keeps : {A : Type 0} → Ask S A → Type 0
  Keeps m = (s : S) → P s → P (m s).1

  after_step-keeps :
      (r : Stepped) (states : List SourceState) (rest : Tally → Ask S Phase)
      → ((t : Tally) → Keeps (rest t))
      → Keeps (after_step r states rest)
  unfolding after_step
  after_step-keeps r states rest k s p = elim (Bool-cases (ends_phase r.outcome)) [
    | inl ends ↦ rw (ends, after_step) p
    | inr goes ↦ rw (goes, after_step) (k r.tally s p)
  ]

  phase-keeps :
      (step : SourceState → Tally → Ask S Stepped)
      → ((st : SourceState) (t : Tally) → Keeps (step st t))
      → (states : List SourceState) (t : Tally) → Keeps (phase step states t)
  unfolding phase
  phase-keeps step k [] t s p = p
  phase-keeps step k (st ∷ states) t s p =
      after_step-keeps (step st t s).0 states (phase step states) (phase-keeps step k states)
        (step st t s).1 (k st t s p)

  close_from-keeps :
      (started_at : ℕ) (st : SourceState) (t : Tally) (from : Option ℕ)
      → Keeps (close_from tidy limits now query verify_floor started_at st t from)
  unfolding close_from
  close_from-keeps started_at st t none s p = p
  close_from-keeps started_at st t (some from) s p = elim (Bool-cases (leb limits.head from)) [
    | inl current ↦ rw current p
    | inr behind ↦ rw behind (
        walk_down-keeps limits now query started_at P clock_keeps query_keeps ignore (from + 1)
          (limits.head + 1) st t s p)
  ]

  deepen-keeps :
      (started_at : ℕ) (st : SourceState) (t : Tally)
      → Keeps (deepen tidy limits now query verify_floor started_at st t)
  unfolding deepen
  deepen-keeps started_at st t s p =
      elim (Bool-cases (leb (top_of limits.head st.to) st.source.floor)) [
        | inl low ↦ rw low p
        | inr high ↦ rw high (
            walk_down-keeps limits now query started_at P clock_keeps query_keeps
              (descend limits.head) st.source.floor (top_of limits.head st.to) st t s p)
      ]

  floors_ok-keeps : (list : List Source) → Keeps (floors_ok tidy limits now query verify_floor list)
  unfolding floors_ok floor_ok
  floors_ok-keeps [] s p = p
  floors_ok-keeps (src ∷ list) s p =
      elim (Bool-cases (floor_ok tidy limits now query verify_floor src s).0) [
        | inl good ↦ rw (good, floors_ok) (floors_ok-keeps list _ (verify_keeps src s p))
        | inr bad ↦ rw (bad, floors_ok) (verify_keeps src s p)
      ]

  verdict-keeps :
      (sources : List Source) (p : Phase)
      → Keeps (verdict tidy limits now query verify_floor sources p)
  unfolding verdict
  verdict-keeps sources p s h =
      elim (Bool-cases (
        not (coverage_proves_absence tidy sources (by_key (rows_of p.states)) limits.head)
        || p.tally.had_chunk_error)) [
          | inl short ↦ rw short h
          | inr enough ↦
              elim (Bool-cases (floors_ok tidy limits now query verify_floor sources s).0) [
                | inl good ↦ rw (enough, good) (floors_ok-keeps sources s h)
                | inr bad ↦ rw (enough, bad) (floors_ok-keeps sources s h)
              ]
        ]

  unless_found-keeps :
      (p : Phase) (rest : Phase → Ask S Scan)
      → Keeps (rest p)
      → Keeps (unless_found tidy limits now query verify_floor p rest)
  unfolding unless_found
  unless_found-keeps p rest k s h =
      (elim p.outcome
          as (λ o. p.outcome ≡ o → P (unless_found tidy limits now query verify_floor p rest s).1) [
            | found ↦ λ e. rw (unless_found, e) h
            | done ↦ λ e. rw (unless_found, e) (k s h)
            | error ↦ λ e. rw (unless_found, e) (k s h)
            | budget ↦ λ e. rw (unless_found, e) (k s h)
            | out_of_fuel ↦ λ e. rw (unless_found, e) (k s h)
          ])
        refl

  phase_b-keeps :
      (started_at : ℕ) (a : Phase) → Keeps (phase_b tidy limits now query verify_floor started_at a)
  unfolding phase_b
  phase_b-keeps started_at a s p = elim (Bool-cases (is_budget a.outcome)) [
    | inl spent ↦ rw spent p
    | inr left ↦ rw left (
        phase-keeps (deepen tidy limits now query verify_floor started_at) (deepen-keeps started_at)
          a.states a.tally s p)
  ]

  -- What the clock, the reads and the floor checks keep, a scan keeps.
  pub scan_for_event-keeps :
      (sources : List Source) (prior : String → Option CoverageRow)
      → Keeps (scan_for_event tidy limits now query verify_floor sources prior)
  unfolding scan_for_event scan_states close_gap
  scan_for_event-keeps sources prior s p =
      let t = (now s).0 in
      let tally = fresh_tally tidy limits now query verify_floor in
      let gap = close_gap tidy limits now query verify_floor t in
      let a = phase gap (seeds tidy prior sources) tally (now s).1 in
      let b = phase_b tidy limits now query verify_floor t in
      unless_found-keeps a.0
        (λ p' s₂.
          unless_found tidy limits now query verify_floor (b p' s₂).0
            (verdict tidy limits now query verify_floor sources) (b p' s₂).1)
        (λ s₂ h.
          unless_found-keeps (b a.0 s₂).0 (verdict tidy limits now query verify_floor sources)
            (verdict-keeps sources (b a.0 s₂).0) (b a.0 s₂).1 (phase_b-keeps t a.0 s₂ h))
        a.1
        (phase-keeps gap (λ st x. close_from-keeps t st x st.from) (seeds tidy prior sources) tally
          (now s).1 (clock_keeps s p))
