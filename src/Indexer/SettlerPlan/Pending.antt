-- ===== src/Indexer/SettlerPlan/Pending.antt =====
-- quest-indexer/lib/settler.mjs, `planWork`: what is known of the rows that it plans.
use text.Mathlib.TextEquality.{eq_iff}
use perps_litvm.Base.{
  ℕ, ◌<◌, ◌≡◌, inl, inr, refl, sym, subst, String, true, not, Option, none, some, List, [], ◌∷◌,
  leb, if◌then◌else◌, ok, and_then-eq-ok, ok-injective, All, All-append, Bool-cases, Option-cases,
  arith, ==_iff,
}
use perps_litvm.Base.{◌==◌ as num_eq}
use perps_litvm.Indexer.Sources.{Source, SourceTable}
use perps_litvm.Indexer.SettlerPlan.{
  CursorRow, settleable_quests, includes, Group, Triage, unknown, stale_floor, settled, pending,
  is_group, add_row, insert_group, sort_groups, is_at, find_source, triage_source, triage,
  add_triaged, plan_loop, plan_work,
}

-- The source's logs are a proof of the quest.
abbrev pub Proves : Source → String → Type 0
Proves source quest =
    (keys : List String) × (settleable_quests quest ≡ some keys) × (includes keys source.key ≡ true)

module _ (sources : List Source) (table : SourceTable) (lower : String → String)
    (P : CursorRow → Type 0) where
  -- A row worth walking for a group's wallet and quest.
  abbrev pub IsPending : String → String → CursorRow × Source → Type 0
  IsPending wallet quest p =
      (p.0.wallet ≡ wallet)
      × (p.0.quest ≡ quest)
      × Proves p.1 quest
      × (is_at sources table lower p.0.source_key p.1 ≡ true)
      × (table.source_floor p.1 ≡ ok p.0.floor_block)
      × (p.0.floor_block < p.0.scanned_to)
      × P p.0

  abbrev pub IsWork : Group → Type 0
  IsWork g = All (IsPending g.wallet g.quest) g.sources

  pending_facts :
      (row : CursorRow) (s source : Source) (floor : ℕ)
      → (if not (num_eq row.floor_block floor)
          then stale_floor
          else (if leb row.scanned_to row.floor_block then settled else pending s))
        ≡ pending source
      → (s ≡ source) × (floor ≡ row.floor_block) × (row.floor_block < row.scanned_to)
  pending_facts row s source floor h = elim (Bool-cases (num_eq row.floor_block floor)) [
    | inr other ↦ absurd (let h' = rw other at h in cc h')
    | inl same ↦ elim (Bool-cases (leb row.scanned_to row.floor_block)) [
      | inl low ↦ absurd (let h' = rw (same, low) at h in cc h')
      | inr high ↦
          let h' = rw (same, high) at h in
          (cc h', sym ((==_iff row.floor_block floor).0 same), ground arith)
    ]
  ]

  triage_source-pending :
      (row : CursorRow) (keys : List String) (found : Option Source) (source : Source)
      → settleable_quests row.quest ≡ some keys
      → ((s : Source) → found ≡ some s → is_at sources table lower row.source_key s ≡ true)
      → P row
      → triage_source sources table lower row keys found ≡ ok (pending source)
      → IsPending row.wallet row.quest (row, source)
  unfolding triage_source
  triage_source-pending row keys none source k at_key p h = cc
  triage_source-pending row keys (some s) source k at_key p h =
      elim (Bool-cases (includes keys s.key)) [
        | inr other ↦ absurd (let h' = rw other at h in cc h')
        | inl listed ↦
            let h' = rw listed at h in
            let (floor, at_floor, r) = and_then-eq-ok (table.source_floor s) _ h' in
            let (same, floors, below) = pending_facts row s source floor (ok-injective r) in
            (
              refl,
              refl,
              (keys, k, subst (λ x. includes keys x.key ≡ true) same listed),
              subst (λ x. is_at sources table lower row.source_key x ≡ true) same (at_key s refl),
              cc (at_floor, same, floors),
              below,
              p,
            )
      ]

  find_source-is_at :
      (key : String) (list : List Source) (s : Source)
      → find_source sources table lower key list ≡ some s
      → is_at sources table lower key s ≡ true
  unfolding find_source
  find_source-is_at key [] s h = cc
  find_source-is_at key (source ∷ rest) s h =
      elim (Bool-cases (is_at sources table lower key source)) [
        | inl here ↦ let h' = rw here at h in cc (here, h')
        | inr there ↦ let h' = rw there at h in find_source-is_at key rest s h'
      ]

  triage-pending :
      (row : CursorRow) (source : Source)
      → P row
      → triage sources table lower row ≡ ok (pending source)
      → IsPending row.wallet row.quest (row, source)
  unfolding triage
  triage-pending row source p h = elim (Option-cases (settleable_quests row.quest)) [
    | inl none_known ↦ absurd (let h' = rw (none_known, triage) at h in cc h')
    | inr (keys, k) ↦
        let h' = rw (k, triage) at h in
        triage_source-pending row keys (find_source sources table lower row.source_key sources)
          source k (find_source-is_at row.source_key sources) p h'
  ]

  is_group-same :
      (row : CursorRow) (g : Group)
      → is_group row g ≡ true
      → (row.wallet ≡ g.wallet) × (row.quest ≡ g.quest)
  unfolding is_group
  is_group-same row g h =
      (ground (arith, eq_iff g.wallet row.wallet), ground (arith, eq_iff g.quest row.quest))

  add_row-IsWork :
      (row : CursorRow) (source : Source) (groups : List Group)
      → IsPending row.wallet row.quest (row, source)
      → All IsWork groups
      → All IsWork (add_row row source groups)
  unfolding add_row
  add_row-IsWork row source [] p h = ((p, tt), tt)
  add_row-IsWork row source (g ∷ groups) p (w, h) = elim (Bool-cases (is_group row g)) [
    | inr other ↦ rw other (w, add_row-IsWork row source groups p h)
    | inl same ↦ rw same (
      let (a, b) = is_group-same row g same in
          All-append (IsPending g.wallet g.quest) g.sources ((row, source) ∷ []) w (
            subst (λ x. IsPending x g.quest (row, source)) a
                (subst (λ x. IsPending row.wallet x (row, source)) b p),
            tt,
          ),
      h,
    )
  ]

  add_triaged-IsWork :
      (row : CursorRow) (t : Triage) (groups : List Group)
      → P row
      → All IsWork groups
      → triage sources table lower row ≡ ok t
      → All IsWork (add_triaged sources table lower row t groups)
  unfolding add_triaged
  add_triaged-IsWork row unknown groups p h e = h
  add_triaged-IsWork row stale_floor groups p h e = h
  add_triaged-IsWork row settled groups p h e = h
  add_triaged-IsWork row (pending source) groups p h e =
      add_row-IsWork row source groups (triage-pending row source p e) h

  insert_group-IsWork :
      (g : Group) (groups : List Group)
      → IsWork g
      → All IsWork groups
      → All IsWork (insert_group g groups)
  unfolding insert_group
  insert_group-IsWork g [] w h = (w, tt)
  insert_group-IsWork g (x ∷ groups) w (v, h) = elim (Bool-cases (leb g.remaining x.remaining)) [
    | inl e ↦ rw e (w, (v, h))
    | inr e ↦ rw e (v, insert_group-IsWork g groups w h)
  ]

  sort_groups-IsWork : (groups : List Group) → All IsWork groups → All IsWork (sort_groups groups)
  unfolding sort_groups
  sort_groups-IsWork [] h = tt
  sort_groups-IsWork (g ∷ groups) (w, h) =
      insert_group-IsWork g (sort_groups groups) w (sort_groups-IsWork groups h)

  plan_loop-IsWork :
      (rows : List CursorRow) (groups work : List Group)
      → All P rows
      → All IsWork groups
      → plan_loop sources table lower rows groups ≡ ok work
      → All IsWork work
  unfolding plan_loop
  plan_loop-IsWork [] groups work p h e = subst (All IsWork) (ok-injective e) h
  plan_loop-IsWork (row ∷ rows) groups work (p, ps) h e =
      let (t, triaged, rest) = and_then-eq-ok (triage sources table lower row) _ e in
      plan_loop-IsWork rows (add_triaged sources table lower row t groups) work ps
        (add_triaged-IsWork row t groups p h triaged) rest

  -- Whatever holds of the candidate rows holds of those planned, and each of them is of its
  -- group's wallet and quest, is of a source that proves the quest, was computed against the
  -- source's present floor, and has blocks left to walk above it.
  pub plan_work-IsWork :
      (rows : List CursorRow) (work : List Group)
      → All P rows
      → plan_work sources table lower rows ≡ ok work
      → All IsWork work
  unfolding plan_work
  plan_work-IsWork rows work p e =
      let (groups, planned, sorted) = and_then-eq-ok (plan_loop sources table lower rows []) _ e in
      subst (All IsWork) (ok-injective sorted)
        (sort_groups-IsWork groups (plan_loop-IsWork rows [] groups p tt planned))
