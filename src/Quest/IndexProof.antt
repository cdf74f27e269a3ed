-- ===== src/Quest/IndexProof.antt =====
-- frontend/api/_lib/quest/indexProof.js: `unionCovers` and `resolve`.
-- A stored number is a natural number, or `none` if it is no integer. The three reads of `resolve`,
-- which run at once, are made one after the other, in the order in which they are listed.
pub mod Union
pub mod Absence
use text.Mathlib.Text.{◌==◌}
use perps_litvm.Base.{
  ℕ, ◌+◌, ◌-◌, String, Bool, true, false, not, ◌||◌, ◌⊎◌, inl, inr, Option, none, some, List, [],
  ◌∷◌, leb, ltb, if◌then◌else◌, any, map, Try, ok, throw, Ask, Call,
}
use perps_litvm.Base.{◌==◌ as num_eq}
use perps_litvm.Quest.Sources.{Source, source_key_of}
use perps_litvm.Quest.Freshness.{Detail as StaleDetail, StateRow, Freshness, stale, fresh, row_at}

-- A row of quest_backfill.
pub record BackfillRow : Type 0 where
  pub floor_block : Option ℕ
  pub covered_from : Option ℕ
  pub covered_to : Option ℕ

pub record Join : Type 0 where
  pub source : String
  pub floor : ℕ
  pub covered_from : ℕ
  pub completion_from : ℕ
  pub indexed_to : ℕ

pub data Detail : Type 0 where
  no_required_sources unkeyed_source : Detail
  no_backfill unreadable_backfill floor_changed not_at_floor : String → Detail
  no_indexer_state handoff_unset handoff_gap floor_unverified : String → Detail
  completion_read_failed backfill_read_failed : Detail
  indexer_stale : StaleDetail → Detail

-- Conditions 4 and 5, for a row whose coverage reaches down to the floor.
pub join_handoff : String → ℕ → ℕ → StateRow → Option ℕ → Detail ⊎ Join
join_handoff key floor covered_from st none = inl (handoff_unset key)
join_handoff key floor covered_from st (some completion_from) =
    if ltb (covered_from + 1) completion_from
    then inl (handoff_gap key)
    else inr (record {
      source = key;
      floor = floor;
      covered_from = covered_from;
      completion_from = completion_from;
      indexed_to = st.last_block;
    })

pub join_state : String → ℕ → ℕ → Option StateRow → Detail ⊎ Join
unfolding join_handoff
join_state key floor covered_from none = inl (no_indexer_state key)
join_state key floor covered_from (some st) =
    join_handoff key floor covered_from st st.completion_from

-- Conditions 2 and 3, for a row with three integers.
pub join_numbers : String → ℕ → Option StateRow → ℕ → ℕ → ℕ → Detail ⊎ Join
unfolding join_state
join_numbers key floor st floor_block covered_from covered_to =
    if not (num_eq floor_block floor)
    then inl (floor_changed key)
    else (if not (num_eq covered_to floor)
        then inl (not_at_floor key)
        else join_state key floor covered_from st)

pub join_fields : String → ℕ → Option StateRow → Option ℕ → Option ℕ → Option ℕ → Detail ⊎ Join
unfolding join_numbers
join_fields key floor st (some a) (some b) (some c) = join_numbers key floor st a b c
join_fields key floor st (some a) (some b) none = inl (unreadable_backfill key)
join_fields key floor st (some a) none c = inl (unreadable_backfill key)
join_fields key floor st none b c = inl (unreadable_backfill key)

pub join_row : String → ℕ → Option StateRow → Option BackfillRow → Detail ⊎ Join
unfolding join_fields
join_row key floor st none = inl (no_backfill key)
join_row key floor st (some cov) =
    join_fields key floor st cov.floor_block cov.covered_from cov.covered_to

pub join_keyed :
    (String → Option BackfillRow) → (String → Option StateRow) → String → ℕ → Detail ⊎ Join
unfolding join_row
join_keyed coverage state key floor =
    if key == "" then inl unkeyed_source else join_row key floor (state key) (coverage key)

pub with_join : Detail ⊎ Join → Detail ⊎ List Join → Detail ⊎ List Join
with_join (inl detail) rest = inl detail
with_join (inr join) (inl detail) = inl detail
with_join (inr join) (inr joins) = inr (join ∷ joins)

module _ (tidy : String → String) (coverage : String → Option BackfillRow)
    (state : String → Option StateRow) where
  pub join_all : List Source → Detail ⊎ List Join
  unfolding join_keyed with_join
  join_all [] = inr []
  join_all (source ∷ sources) =
      with_join (join_keyed coverage state (source_key_of tidy source) source.floor)
        (join_all sources)

  unfoldable pub union_covers : List Source → Detail ⊎ List Join
  unfolding join_all
  union_covers [] = inl no_required_sources
  union_covers (source ∷ sources) = join_all (source ∷ sources)

-- The answer for one wallet and quest; `completed` has the block of the row.
pub data Answer : Type 0 where
  completed : Option ℕ → Answer
  absent : ℕ → List Join → Answer
  unproven : Detail → Answer

pub record Completion : Type 0 where
  pub checked_through_block : Option ℕ

module _ {S : Type 0} (tidy : String → String) (to_number : String → Option ℕ)
    (read_completion : Call S (Option Completion))
    (load_backfill : List String → Call S (String → Option BackfillRow))
    (read_freshness : List String → Ask S Freshness) (verify_floor : Source → Call S Bool) where
  pub floor_ok : Source → Ask S Bool
  floor_ok source s =
      let (r, s') = verify_floor source s in (elim r [ ok b ↦ b | throw _ ↦ false ], s')

  -- Condition 7: the first source whose floor is not verified.
  pub bad_floor : List Source → Ask S (Option Source)
  unfolding floor_ok
  bad_floor [] s = (none, s)
  bad_floor (source ∷ sources) s =
      let (good, s') = floor_ok source s in
      elim good [ true ↦ bad_floor sources s' | false ↦ (some source, s') ]

  pub check_floors : List Source → ℕ → List Join → Ask S Answer
  unfolding bad_floor
  check_floors sources through joins s =
      let (bad, s') = bad_floor sources s in
      (
        elim bad [
          | none ↦ absent through joins
          | some source ↦ unproven (floor_unverified (source_key_of tidy source))
        ],
        s',
      )

  pub decide_union : List Source → ℕ → Detail ⊎ List Join → Ask S Answer
  unfolding check_floors
  decide_union sources through (inl detail) s = (unproven detail, s)
  decide_union sources through (inr joins) s = check_floors sources through joins s

  pub decide_fresh : List Source → (String → Option BackfillRow) → Freshness → Ask S Answer
  unfolding decide_union union_covers
  decide_fresh sources coverage (stale detail) s = (unproven (indexer_stale detail), s)
  decide_fresh sources coverage (fresh through rows) s =
      decide_union sources through (union_covers tidy coverage (row_at tidy to_number rows) sources)
        s

  pub decide_coverage : List Source → Try (String → Option BackfillRow) → Freshness → Ask S Answer
  unfolding decide_fresh
  decide_coverage sources (throw e) freshness s = (unproven backfill_read_failed, s)
  decide_coverage sources (ok coverage) freshness s = decide_fresh sources coverage freshness s

  pub decide :
      List Source
      → Try (Option Completion)
      → Try (String → Option BackfillRow)
      → Freshness
      → Ask S Answer
  unfolding decide_coverage
  decide sources (throw e) coverage freshness s = (unproven completion_read_failed, s)
  decide sources (ok (some row)) coverage freshness s = (completed row.checked_through_block, s)
  decide sources (ok none) coverage freshness s = decide_coverage sources coverage freshness s

  pub resolve_keyed : List Source → Ask S Answer
  unfolding decide
  resolve_keyed sources s =
      let keys = map (source_key_of tidy) sources in
      let (completion, s₁) = read_completion s in
      let (coverage, s₂) = load_backfill keys s₁ in
      let (freshness, s₃) = read_freshness keys s₂ in
      decide sources completion coverage freshness s₃

  unfoldable pub resolve : List Source → Ask S Answer
  unfolding resolve_keyed
  resolve [] s = (unproven no_required_sources, s)
  resolve (source ∷ sources) s =
      if any (λ key. key == "") (map (source_key_of tidy) (source ∷ sources))
      then (unproven unkeyed_source, s)
      else resolve_keyed (source ∷ sources) s
