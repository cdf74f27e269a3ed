-- ===== src/Quest/Freshness/Gate.antt =====
-- frontend/api/_lib/quest/indexerState.js: what a fresh answer of `readFreshness` stands for.
use text.Mathlib.Text.{◌==◌}
use text.Mathlib.TextEquality.{eq_iff}
use perps_litvm.Base.{
  ℕ, ◌+◌, ◌≤◌, ◌≡◌, ◌⊎◌, ◌∙◌, inl, inr, refl, sym, ap, subst, String, Option, none, some, List, [],
  ◌∷◌, ltb, length, Try, ok, throw, Ask, Call, arith, All, All-map, Bool-cases, Option-cases,
  ltb-false→le,
}
use perps_litvm.Base.{◌==◌ as num_eq}
use perps_litvm.Quest.Freshness.{
  RawState, StateRow, Detail, Freshness, stale, fresh, read_rows, row_at, require_rows, with_row,
  least_block, oldest_update, gate, gate_all, after_load, read_freshness,
}

-- The row that a key is looked up by has that key, and what holds of all rows.
pub row_at-All :
    (tidy : String → String) (to_number : String → Option ℕ) (P : StateRow → Type 0)
    (rows : List StateRow) (key : String) (row : StateRow)
    → All P rows
    → row_at tidy to_number rows key ≡ some row
    → P row × (row.source_key ≡ key)
unfolding row_at
row_at-All tidy to_number P [] key row h e = cc
row_at-All tidy to_number P (r ∷ rows) key row (h, hs) e =
    elim (Option-cases (row_at tidy to_number rows key)) [
      | inr (x, later) ↦
          row_at-All tidy to_number P rows key row hs (let e' = rw later at e in later ∙ e')
      | inl nothing ↦ elim (Bool-cases (r.source_key == key)) [
        | inr other ↦ absurd (let e' = rw (nothing, other) at e in cc e')
        | inl same ↦
            let here : r ≡ row = let e' = rw (nothing, same) at e in cc e' in
            (
              subst P here h,
              ap (λ (x : StateRow). x.source_key) (sym here) ∙ (eq_iff r.source_key key).0 same,
            )
      ]
    ]

with_row-eq :
    (tidy : String → String) (to_number : String → Option ℕ) (row : StateRow)
    (r : Detail ⊎ List StateRow) (found : List StateRow)
    → with_row tidy to_number row r ≡ inr found
    → (rest : List StateRow) × (r ≡ inr rest) × (row ∷ rest ≡ found)
unfolding with_row
with_row-eq tidy to_number row (inl detail) found e = cc
with_row-eq tidy to_number row (inr rest) found e = (rest, refl, cc e)

require_rows-All :
    (tidy : String → String) (to_number : String → Option ℕ) (P : StateRow → Type 0)
    (rows : List StateRow) (keys : List String) (found : List StateRow)
    → All P rows
    → require_rows tidy to_number rows keys ≡ inr found
    → All P found
unfolding require_rows
require_rows-All tidy to_number P rows [] found h e =
    let nothing : [] ≡ found = cc e in subst (All P) nothing tt
require_rows-All tidy to_number P rows (key ∷ keys) found h e =
    elim (Option-cases (row_at tidy to_number rows (tidy key))) [
      | inl missing ↦ absurd (let e' = rw (missing, require_rows) at e in cc e')
      | inr (row, there) ↦
          let (rest, required, whole) =
            with_row-eq tidy to_number row (require_rows tidy to_number rows keys) found
              (let e' = rw (there, require_rows) at e in e') in
          subst (All P) whole (
            (row_at-All tidy to_number P rows (tidy key) row h there).0,
            require_rows-All tidy to_number P rows keys rest h required,
          )
    ]

-- The rows are those of the keys, in order.
abbrev pub IsKeyed : (String → String) → List String → List StateRow → Type 0
IsKeyed tidy [] [] = Unit
IsKeyed tidy (key ∷ keys) (row ∷ rows) = (row.source_key ≡ tidy key) × IsKeyed tidy keys rows
IsKeyed tidy [] (row ∷ rows) = ⊥
IsKeyed tidy (key ∷ keys) [] = ⊥

require_rows-IsKeyed :
    (tidy : String → String) (to_number : String → Option ℕ) (rows : List StateRow)
    (keys : List String) (found : List StateRow)
    → All (λ row. Unit {0}) rows
    → require_rows tidy to_number rows keys ≡ inr found
    → IsKeyed tidy keys found
unfolding require_rows
require_rows-IsKeyed tidy to_number rows [] found h e =
    let nothing : [] ≡ found = cc e in subst (IsKeyed tidy []) nothing tt
require_rows-IsKeyed tidy to_number rows (key ∷ keys) found h e =
    elim (Option-cases (row_at tidy to_number rows (tidy key))) [
      | inl missing ↦ absurd (let e' = rw (missing, require_rows) at e in cc e')
      | inr (row, there) ↦
          let (rest, required, whole) =
            with_row-eq tidy to_number row (require_rows tidy to_number rows keys) found
              (let e' = rw (there, require_rows) at e in e') in
          subst (IsKeyed tidy (key ∷ keys)) whole (
            (row_at-All tidy to_number (λ row. Unit {0}) rows (tidy key) row h there).1,
            require_rows-IsKeyed tidy to_number rows keys rest h required,
          )
    ]

All-Unit : (rows : List StateRow) → All (λ row. Unit {0}) rows
All-Unit [] = tt
All-Unit (row ∷ rows) = (tt, All-Unit rows)

least_block-All :
    (tidy : String → String) (to_number : String → Option ℕ) (row : StateRow) (rows : List StateRow)
    → All (λ r. least_block tidy to_number row rows ≤ r.last_block) (row ∷ rows)
unfolding least_block
least_block-All tidy to_number row [] = (omega arith, tt)
least_block-All tidy to_number row (other ∷ rows) =
    let ih = least_block-All tidy to_number other rows in
    (omega arith, All-map (other ∷ rows) (λ r h. omega arith) ih)

module _ (tidy : String → String) (to_number : String → Option ℕ) {S : Type 0}
    (load : List String → Call S (Option (List RawState))) (now : Ask S ℕ)
    (lag_ms lag_blocks head : ℕ) (P : StateRow → Type 0) where
  -- A fresh answer for some keys: its rows, which are theirs, the block through which all are indexed, and how far that is behind.
  abbrev pub IsCurrent : List String → Freshness → Type 0
  IsCurrent keys (stale detail) = Unit
  IsCurrent keys (fresh through rows) =
      All (λ row. P row × (through ≤ row.last_block)) rows
      × IsKeyed tidy keys rows
      × (through ≤ head)
      × (head ≤ lag_blocks + through)

  All-both :
      (through : ℕ) (rows : List StateRow)
      → All P rows
      → All (λ r. through ≤ r.last_block) rows
      → All (λ row. P row × (through ≤ row.last_block)) rows
  All-both through [] h k = tt
  All-both through (row ∷ rows) (h, hs) (k, ks) = ((h, k), All-both through rows hs ks)

  gate-IsCurrent :
      (keys : List String) (row : StateRow) (rows : List StateRow) (s : S)
      → IsKeyed tidy keys (row ∷ rows)
      → All P (row ∷ rows)
      → IsCurrent keys (gate tidy to_number load now lag_ms lag_blocks head row rows s).0
  unfolding gate
  gate-IsCurrent keys row rows s keyed h =
      let through = least_block tidy to_number row rows in
      elim (Bool-cases (ltb head through)) [
        | inl behind ↦ rw behind tt
        | inr ahead ↦
            elim (Bool-cases (ltb (lag_ms + oldest_update tidy to_number row rows) (now s).0)) [
              | inl old ↦ rw (ahead, old) tt
              | inr recent ↦ elim (Bool-cases (ltb (lag_blocks + through) head)) [
                | inl far ↦ rw (ahead, recent, far) tt
                | inr near ↦
                    rw (ahead, recent, near)
                      (
                        All-both through (row ∷ rows) h (least_block-All tidy to_number row rows),
                        keyed,
                        ltb-false→le head through ahead,
                        ltb-false→le (lag_blocks + through) head near,
                      )
              ]
            ]
      ]

  gate_all-IsCurrent :
      (keys : List String) (wanted : ℕ) (rows : List StateRow) (s : S)
      → IsKeyed tidy keys rows
      → All P rows
      → IsCurrent keys (gate_all tidy to_number load now lag_ms lag_blocks head wanted rows s).0
  unfolding gate_all
  gate_all-IsCurrent keys wanted [] s keyed h = tt
  gate_all-IsCurrent keys wanted (row ∷ rows) s keyed h =
      elim (Bool-cases (num_eq (length (row ∷ rows)) wanted)) [
        | inl e ↦ rw e (gate-IsCurrent keys row rows s keyed h)
        | inr e ↦ rw e tt
      ]

  required-IsCurrent :
      (keys : List String) (raws : List RawState) (found : Detail ⊎ List StateRow) (s : S)
      → require_rows tidy to_number (read_rows tidy to_number raws) keys ≡ found
      → All P (read_rows tidy to_number raws)
      → IsCurrent keys
          (after_load tidy to_number load now lag_ms lag_blocks head keys (ok (some raws)) s).0
  unfolding after_load
  required-IsCurrent keys raws (inl detail) s e h = rw (e, after_load) tt
  required-IsCurrent keys raws (inr rows) s e h =
      rw (e, after_load)
        (gate_all-IsCurrent keys (length keys) rows s
          (require_rows-IsKeyed tidy to_number (read_rows tidy to_number raws) keys rows
            (All-Unit (read_rows tidy to_number raws)) e)
          (require_rows-All tidy to_number P (read_rows tidy to_number raws) keys rows h e))

  after_load-IsCurrent :
      (keys : List String) (r : Try (Option (List RawState))) (s : S)
      → ((raws : List RawState) → r ≡ ok (some raws) → All P (read_rows tidy to_number raws))
      → IsCurrent keys (after_load tidy to_number load now lag_ms lag_blocks head keys r s).0
  unfolding after_load
  after_load-IsCurrent keys (throw e) s h = tt
  after_load-IsCurrent keys (ok none) s h = tt
  after_load-IsCurrent keys (ok (some raws)) s h =
      required-IsCurrent keys raws _ s refl (h raws refl)

  -- Where the rows that are read are true in some sense, a fresh answer has true rows only, one of
  -- each key that is asked for, in order; its block is at most that of each of its rows and at most
  -- the head, and the head is within the allowed lag of it.
  pub read_freshness-IsCurrent :
      (keys : List String) (s : S)
      → ((raws : List RawState)
          → (load keys s).0 ≡ ok (some raws)
          → All P (read_rows tidy to_number raws))
      → IsCurrent keys (read_freshness tidy to_number load now lag_ms lag_blocks head keys s).0
  unfolding read_freshness
  read_freshness-IsCurrent [] s h = tt
  read_freshness-IsCurrent (key ∷ keys) s h =
      after_load-IsCurrent (key ∷ keys) (load (key ∷ keys) s).0 _ h
