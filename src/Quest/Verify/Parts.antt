-- ===== src/Quest/Verify/Parts.antt =====
-- frontend/api/quest/verify.js, `composeQuest`: the verdict of a composite, whose parts are done
-- with it and missing with it.
use perps_litvm.Base.{
  ℕ, ◌≤◌, ◌≡◌, ◌⊎◌, inl, inr, refl, sym, subst, min, String, true, some, List, [], ◌∷◌, all, any,
  All, arith, Bool-cases, Option-cases, some-injective,
}
use perps_litvm.Quest.Quests.{Verdict}
use perps_litvm.Quest.Cache.{is_confirmed}
use perps_litvm.Quest.Verify.{settled, unsettled, least_through, is_proven_false, conjoin}
use perps_litvm.Quest.Verify.Truth.{IsTrue, AllTrue, NegativeIsTrue, negative_block}

module _ (Done : String → Type 0) (NotBy : String → ℕ → Type 0) where
  conjoin_all :
      (ids : List String) (vs : List Verdict)
      → AllTrue Done NotBy ids vs
      → all (λ v. v.completed) vs ≡ true
      → All Done ids
  conjoin_all [] [] h e = tt
  conjoin_all [] (v ∷ vs) h e = elim h [ ]
  conjoin_all (id ∷ ids) [] h e = elim h [ ]
  conjoin_all (id ∷ ids) (v ∷ vs) (h, hs) e = elim (Bool-cases v.completed) [
    | inr not_done ↦ absurd (let e' = rw not_done at e in cc e')
    | inl done ↦ (
      elim h.0 [ inl missed ↦ absurd (cc (done, missed)) | inr d ↦ d ],
      conjoin_all ids vs hs (rw done at e),
    )
  ]

  least_through-le :
      (v : Verdict) (vs : List Verdict) (b : ℕ)
      → least_through (v ∷ vs) ≡ some b
      → ((c : ℕ) × (v.checked_through ≡ some c) × (b ≤ c))
        × ((vs ≡ []) ⊎ ((d : ℕ) × (least_through vs ≡ some d) × (b ≤ d)))
  unfolding least_through
  least_through-le v [] b e = ((b, e, omega arith), inl refl)
  least_through-le v (w ∷ vs) b e = elim (Option-cases v.checked_through) [
    | inl none_here ↦ absurd (let e' = rw (none_here, least_through) at e in cc e')
    | inr (c, here) ↦ elim (Option-cases (least_through (w ∷ vs))) [
      | inl none_there ↦ absurd (let e' = rw (here, none_there, least_through) at e in cc e')
      | inr (d, there) ↦
          let least : min c d ≡ b = some-injective (rw (here, there, least_through) at e) in
          ((c, here, omega arith), inr (d, there, omega arith))
    ]
  ]

  conjoin_any :
      (id : String) (ids : List String) (vs : List Verdict) (b : ℕ)
      → ((i : String) (c d : ℕ) → NotBy i c → d ≤ c → NotBy i d)
      → All (λ i. (c : ℕ) → NotBy i c → NotBy id c) ids
      → AllTrue Done NotBy ids vs
      → any is_proven_false vs ≡ true
      → least_through vs ≡ some b
      → NotBy id b
  conjoin_any id [] [] b below up h e k = cc
  conjoin_any id [] (v ∷ vs) b below up h e k = elim h [ ]
  conjoin_any id (i ∷ ids) [] b below up h e k = elim h [ ]
  conjoin_any id (i ∷ ids) (v ∷ vs) b below (up, ups) (h, hs) e k =
      let ((c, here, le), rest) = least_through-le v vs b k in
      elim (Bool-cases (is_proven_false v)) [
        | inl proven ↦ up b (
            below i c b
              (elim h.1 [
                | inl missed ↦ absurd (cc (proven, missed))
                | inr n ↦ subst (NegativeIsTrue Done NotBy i) here n
              ])
              le)
        | inr open_yet ↦
            let e' = rw open_yet at e in
            elim rest [
              | inl nil ↦
                  absurd (let e₂ = subst (λ x. any is_proven_false x ≡ true) nil e' in cc e₂)
              | inr (d, there, le') ↦
                  below id d b (conjoin_any id ids vs d below ups hs e' there) le'
            ]
      ]

  conjoin_some :
      (id : String) (ids : List String) (vs : List Verdict)
      → All (λ i. (c : ℕ) → NotBy i c → NotBy id c) ids
      → AllTrue Done NotBy ids vs
      → any is_proven_false vs ≡ true
      → (b : ℕ) × NotBy id b
  conjoin_some id [] [] up h e = cc
  conjoin_some id [] (v ∷ vs) up h e = elim h [ ]
  conjoin_some id (i ∷ ids) [] up h e = elim h [ ]
  conjoin_some id (i ∷ ids) (v ∷ vs) (up, ups) (h, hs) e = elim (Bool-cases (is_proven_false v)) [
    | inl proven ↦ elim h.1 [
      | inl missed ↦ absurd (cc (proven, missed))
      | inr n ↦ let (b, m) = negative_block Done NotBy i v.checked_through n in (b, up b m)
    ]
    | inr open_yet ↦ conjoin_some id ids vs ups hs (rw open_yet at e)
  ]

  conjoin_negative :
      (id : String) (ids : List String) (vs : List Verdict)
      → ((i : String) (c d : ℕ) → NotBy i c → d ≤ c → NotBy i d)
      → All (λ i. (c : ℕ) → NotBy i c → NotBy id c) ids
      → AllTrue Done NotBy ids vs
      → any is_proven_false vs ≡ true
      → NegativeIsTrue Done NotBy id (least_through vs)
  conjoin_negative id ids vs below up h proven = elim (Option-cases (least_through vs)) [
    | inl nowhere ↦
        subst (NegativeIsTrue Done NotBy id) (sym nowhere) (conjoin_some id ids vs up h proven)
    | inr (b, e) ↦
        subst (NegativeIsTrue Done NotBy id) (sym e) (conjoin_any id ids vs b below up h proven e)
  ]

  pub conjoin-IsTrue :
      (id : String) (ids : List String) (vs : List Verdict)
      → ((i : String) (c d : ℕ) → NotBy i c → d ≤ c → NotBy i d)
      → (All Done ids → Done id)
      → All (λ i. (c : ℕ) → NotBy i c → NotBy id c) ids
      → AllTrue Done NotBy ids vs
      → IsTrue Done NotBy id (conjoin vs)
  unfolding conjoin settled unsettled is_proven_false is_confirmed
  conjoin-IsTrue id ids vs below up_done up h = elim (Bool-cases (all (λ v. v.completed) vs)) [
    | inl every ↦ rw (every, conjoin) (inr (up_done (conjoin_all ids vs h every)), inl refl)
    | inr some_open ↦ elim (Bool-cases (any is_proven_false vs)) [
      | inl proven ↦
          rw (some_open, proven, conjoin)
            (inl refl, inr (conjoin_negative id ids vs below up h proven))
      | inr unproven_yet ↦ rw (some_open, unproven_yet, conjoin) (inl refl, inl refl)
    ]
  ]
