-- ===== src/Quest/IndexProof/Union.antt =====
-- frontend/api/_lib/quest/indexProof.js, `unionCovers`: exactly when the two halves cover a quest.
use text.Mathlib.Text.{◌==◌}
use text.Mathlib.TextEquality.{eq_iff}
use perps_litvm.Base.{
  ℕ, ◌+◌, ◌≤◌, ◌≡◌, ◌≢◌, ◌⊎◌, ◌↔◌, inl, inr, refl, sym, ap, ◌∙◌, ltb→lt, subst, String, Option,
  none, some, List, [], ◌∷◌, ltb, arith, All, Bool-cases, ltb-false→le, ==_iff,
}
use perps_litvm.Base.{◌==◌ as num_eq}
use perps_litvm.Quest.Sources.{Source, source_key_of}
use perps_litvm.Quest.Freshness.{StateRow}
use perps_litvm.Quest.IndexProof.{
  BackfillRow, Join, Detail, join_handoff, join_state, join_numbers, join_fields, join_row,
  join_keyed, with_join, join_all, union_covers,
}

-- A source's stored halves: the backfill covers from its floor up to `from`, the forward index has
-- written completions from `start` on, and no block lies between the two.
abbrev pub IsJoined :
    (String → Option BackfillRow) → (String → Option StateRow) → String → ℕ → Type 0
IsJoined coverage state key floor =
    (cov : BackfillRow) × (st : StateRow) × (from : ℕ) × (start : ℕ) × (coverage key ≡ some cov)
    × (state key ≡ some st)
    × (cov.floor_block ≡ some floor)
    × (cov.covered_to ≡ some floor)
    × (cov.covered_from ≡ some from)
    × (st.completion_from ≡ some start)
    × (start ≤ from + 1)

abbrev pub Succeeds {ℓ} : {A : Type ℓ} → Detail ⊎ A → Type 0
Succeeds (inl detail) = ⊥
Succeeds (inr a) = Unit

join_handoff_iff :
    (key : String) (floor from : ℕ) (st : StateRow) (o : Option ℕ)
    → Succeeds (join_handoff key floor from st o)
      ↔ ((start : ℕ) × (o ≡ some start) × (start ≤ from + 1))
unfolding join_handoff
join_handoff_iff key floor from st none = ((λ h. absurd h), λ h. absurd (cc h.1))
join_handoff_iff key floor from st (some start) = elim (Bool-cases (ltb (from + 1) start)) [
  | inl gap ↦ rw gap (
    λ h. absurd h,
    λ h. absurd (let same : start ≡ h.0 = cc h.1 in omega (arith, ltb→lt (from + 1) start gap)),
  )
  | inr touch ↦ rw touch ((λ h. (start, refl, ltb-false→le (from + 1) start touch)), λ h. tt)
]

join_state_iff :
    (key : String) (floor from : ℕ) (o : Option StateRow)
    → Succeeds (join_state key floor from o) ↔ (
        (st : StateRow) × (start : ℕ) × (o ≡ some st)
        × (st.completion_from ≡ some start)
        × (start ≤ from + 1))
unfolding join_state
join_state_iff key floor from none = ((λ h. absurd h), λ h. absurd (cc h.2))
join_state_iff key floor from (some st) =
    let iff = join_handoff_iff key floor from st st.completion_from in
    (
      λ h. let (start, e, le) = iff.0 h in (st, start, refl, e, le),
      λ h.
          let same : st ≡ h.0 = cc h.2 in
          iff.1 (h.1, subst (λ (x : StateRow). x.completion_from ≡ some h.1) (sym same) h.3, h.4),
    )

join_numbers_iff :
    (key : String) (floor : ℕ) (o : Option StateRow) (a b c : ℕ)
    → Succeeds (join_numbers key floor o a b c)
      ↔ ((a ≡ floor) × (c ≡ floor) × Succeeds (join_state key floor b o))
unfolding join_numbers
join_numbers_iff key floor o a b c = elim (Bool-cases (num_eq a floor)) [
  | inr other ↦
      rw other ((λ h. absurd h), λ h. absurd (let e = (==_iff a floor).1 h.0 in cc (e, other)))
  | inl same ↦ elim (Bool-cases (num_eq c floor)) [
    | inr other ↦
        rw (same, other)
          ((λ h. absurd h), λ h. absurd (let e = (==_iff c floor).1 h.1 in cc (e, other)))
    | inl low ↦
        rw (same, low) ((λ h. ((==_iff a floor).0 same, (==_iff c floor).0 low, h)), λ h. h.2)
  ]
]

join_fields_iff :
    (key : String) (floor : ℕ) (o : Option StateRow) (a b c : Option ℕ)
    → Succeeds (join_fields key floor o a b c) ↔ (
        (from : ℕ) × (a ≡ some floor)
        × (c ≡ some floor)
        × (b ≡ some from)
        × Succeeds (join_state key floor from o))
unfolding join_fields
join_fields_iff key floor o none b c = ((λ h. absurd h), λ h. absurd (cc h.1))
join_fields_iff key floor o (some a) none c = ((λ h. absurd h), λ h. absurd (cc h.3))
join_fields_iff key floor o (some a) (some b) none = ((λ h. absurd h), λ h. absurd (cc h.2))
join_fields_iff key floor o (some a) (some b) (some c) =
    let iff = join_numbers_iff key floor o a b c in
    (
      λ h. let (x, y, z) = iff.0 h in (b, ap some x, ap some y, refl, z),
      λ h.
          let same : h.0 ≡ b = cc h.3 in
          iff.1 (cc h.1, cc h.2, subst (λ f. Succeeds (join_state key floor f o)) same h.4),
    )

join_row_iff :
    (coverage : String → Option BackfillRow) (state : String → Option StateRow) (key : String)
    (floor : ℕ) (o : Option BackfillRow)
    → coverage key ≡ o
    → Succeeds (join_row key floor (state key) o) ↔ IsJoined coverage state key floor
unfolding join_row
join_row_iff coverage state key floor none e = ((λ h. absurd h), λ h. absurd (cc (e, h.4)))
join_row_iff coverage state key floor (some cov) e =
    let iff =
      join_fields_iff key floor (state key) cov.floor_block cov.covered_from cov.covered_to in
    (
      λ h.
          let (from, x, y, z, k) = iff.0 h in
          let (st, start, u, v, w) = (join_state_iff key floor from (state key)).0 k in
          (cov, st, from, start, e, u, x, y, z, v, w),
      λ h.
          let same : cov ≡ h.0 = cc (e, h.4) in
          iff.1 (
            h.2,
            ap (λ (c : BackfillRow). c.floor_block) same ∙ h.6,
            ap (λ (c : BackfillRow). c.covered_to) same ∙ h.7,
            ap (λ (c : BackfillRow). c.covered_from) same ∙ h.8,
            (join_state_iff key floor h.2 (state key)).1 (h.1, h.3, h.5, h.9, h.10),
          ),
    )

module _ (tidy : String → String) (coverage : String → Option BackfillRow)
    (state : String → Option StateRow) where
  -- The source has a key, and its halves are joined.
  abbrev pub IsUnited : Source → Type 0
  IsUnited source =
      (source_key_of tidy source ≢ "")
      × IsJoined coverage state (source_key_of tidy source) source.floor

  join_keyed_iff :
      (source : Source)
      → Succeeds (join_keyed coverage state (source_key_of tidy source) source.floor)
        ↔ IsUnited source
  unfolding join_keyed
  join_keyed_iff source =
      let key = source_key_of tidy source in
      let iff = join_row_iff coverage state key source.floor (coverage key) refl in
      elim (Bool-cases (key == "")) [
        | inl unkeyed ↦ rw unkeyed ((λ h. absurd h), λ h. absurd (h.0 ((eq_iff key "").0 unkeyed)))
        | inr keyed ↦ rw keyed (
          λ h. ((λ e. absurd (let t = (eq_iff key "").1 e in cc (t, keyed))), iff.0 h),
          λ h. iff.1 h.1,
        )
      ]

  with_join_iff :
      (j : Detail ⊎ Join) (rest : Detail ⊎ List Join)
      → Succeeds (with_join j rest) ↔ (Succeeds j × Succeeds rest)
  unfolding with_join
  with_join_iff (inl d) rest = ((λ h. absurd h), λ h. absurd h.0)
  with_join_iff (inr j) (inl d) = ((λ h. absurd h), λ h. absurd h.1)
  with_join_iff (inr j) (inr js) = ((λ h. (tt, tt)), λ h. tt)

  join_all_iff :
      (sources : List Source)
      → Succeeds (join_all tidy coverage state sources) ↔ All IsUnited sources
  unfolding join_all
  join_all_iff [] = ((λ h. tt), λ h. tt)
  join_all_iff (source ∷ sources) =
      let first = join_keyed_iff source in
      let others = join_all_iff sources in
      let both =
        with_join_iff (join_keyed coverage state (source_key_of tidy source) source.floor)
          (join_all tidy coverage state sources) in
      (
        λ h. let (x, y) = both.0 h in (first.0 x, others.0 y),
        λ h. both.1 (first.1 h.0, others.1 h.1),
      )

  -- The proof of coverage succeeds exactly when there is a source, and each source has a key, a
  -- backfill row at its floor that reaches the floor, and a watermark from which completions are
  -- written that is at most one block above the backfill's top.
  pub union_covers_iff :
      (sources : List Source)
      → Succeeds (union_covers tidy coverage state sources)
        ↔ ((sources ≢ []) × All IsUnited sources)
  unfolding union_covers
  union_covers_iff [] = ((λ h. absurd h), λ h. absurd (h.0 refl))
  union_covers_iff (source ∷ sources) =
      let iff = join_all_iff (source ∷ sources) in ((λ h. ((λ e. cc e), iff.0 h)), λ h. iff.1 h.1)
