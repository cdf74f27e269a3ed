-- ===== src/Quest/RateLimit/Counts.antt =====
-- frontend/api/_lib/rateLimit.js: the store counts what was allowed.
use text.Mathlib.Text.{◌==◌}
use text.Mathlib.TextEquality.{eq_iff}
use perps_litvm.Base.{
  ℕ, ◌+◌, ◌-◌, ◌≤◌, ◌≡◌, inl, inr, refl, sym, ap, ◌∙◌, String, true, false, ◌&&◌, List, [], ◌∷◌,
  ◌++◌, ltb, if◌then◌else◌, length, arith, All, All-map, All-append, Bool-cases, ltb→lt,
  ltb-false→le, le→ltb-false,
}
use perps_litvm.Quest.RateLimit.{
  hour_ms, max_tracked_keys, Hits, newest, is_aged, unstale, drop_stale, set_stamps, write_stamps,
  recent,
}

-- The requests of a key that were allowed within a window up to a time.
unfoldable pub granted_in : ℕ → ℕ → String → List (String × ℕ) → ℕ
granted_in window t key [] = 0
granted_in window t key ((k, s) ∷ granted) =
    let rest = granted_in window t key granted in
    if k == key && ltb (t - s) window then 1 + rest else rest

abbrev pub latest : List (String × ℕ) → ℕ
latest [] = 0
latest ((key, t) ∷ earlier) = t

-- The times of a history do not fall.
abbrev pub IsClock : List (String × ℕ) → Type 0
IsClock [] = Unit
IsClock ((key, t) ∷ earlier) = (latest earlier ≤ t) × IsClock earlier

pub recent-recent :
    (w v t t' : ℕ) (ss : List ℕ) → w ≤ v → t ≤ t' → recent w t' (recent v t ss) ≡ recent w t' ss
unfolding recent
recent-recent w v t t' [] h k = refl
recent-recent w v t t' (s ∷ ss) h k =
    let ih = recent-recent w v t t' ss h k in
    elim (Bool-cases (ltb (t - s) v)) [
      | inl near ↦ rw (near, recent, ih) refl
      | inr far ↦
          let q = ltb-false→le (t - s) v far in
          let far' : ltb (t' - s) w ≡ false = le→ltb-false (t' - s) w (omega arith) in
          rw (far, far', recent, ih) refl
    ]

recent-All : (P : ℕ → Type 0) (w t : ℕ) (ss : List ℕ) → All P ss → All P (recent w t ss)
unfolding recent
recent-All P w t [] h = tt
recent-All P w t (s ∷ ss) (h, hs) = elim (Bool-cases (ltb (t - s) w)) [
  | inl near ↦ rw near (h, recent-All P w t ss hs)
  | inr far ↦ rw far (recent-All P w t ss hs)
]

recent_old : (w t : ℕ) (ss : List ℕ) → All (λ s. s + w ≤ t) ss → recent w t ss ≡ []
unfolding recent
recent_old w t [] h = refl
recent_old w t (s ∷ ss) (h, hs) =
    let far : ltb (t - s) w ≡ false = le→ltb-false (t - s) w (omega arith) in
    rw (far, recent) (recent_old w t ss hs)

length-recent-append :
    (w t u : ℕ) (ss : List ℕ)
    → length (recent w t (ss ++ (u ∷ [])))
      ≡ (if ltb (t - u) w then 1 else 0) + length (recent w t ss)
unfolding recent
length-recent-append w t u [] = elim (Bool-cases (ltb (t - u) w)) [
  | inl near ↦ rw near refl
  | inr far ↦ rw far refl
]
length-recent-append w t u (s ∷ ss) =
    let ih = length-recent-append w t u ss in
    elim (Bool-cases (ltb (t - s) w)) [
      | inl near ↦ rw (near, recent) (omega arith)
      | inr far ↦ rw (far, recent) ih
    ]

newest-append : (d u : ℕ) (ss : List ℕ) → newest d (ss ++ (u ∷ [])) ≡ u
unfolding newest
newest-append d u [] = refl
newest-append d u (s ∷ ss) = newest-append s u ss

abbrev IsUnder : ℕ → List ℕ → Type 0
IsUnder now ss = All (λ s. s ≤ newest 0 ss) ss × (newest 0 ss ≤ now)

-- Dropping what no window reaches changes no count.
unstale_same :
    (w now t : ℕ) (ss : List ℕ)
    → w ≤ hour_ms
    → now ≤ t
    → IsUnder now ss
    → length (recent w t (unstale (now - hour_ms) ss)) ≡ length (recent w t ss)
unfolding unstale is_aged newest recent
unstale_same w now t [] h k u = refl
unstale_same w now t (s ∷ ss) h k (all_under, low) =
    elim (Bool-cases (ltb (newest s ss) (now - hour_ms))) [
      | inr kept ↦ rw (kept, unstale) refl
      | inl dropped ↦
          let q = ltb→lt (newest s ss) (now - hour_ms) dropped in
          let old =
            recent_old w t (s ∷ ss)
              (All-map (s ∷ ss) (λ x p. let p' : x ≤ newest s ss = p in omega arith) all_under) in
          rw (dropped, unstale, old) refl
    ]

unstale-IsUnder : (cutoff now : ℕ) (ss : List ℕ) → IsUnder now ss → IsUnder now (unstale cutoff ss)
unfolding unstale newest
unstale-IsUnder cutoff now ss u = elim (Bool-cases (is_aged cutoff ss)) [
  | inl gone ↦ rw gone (tt, omega arith)
  | inr kept ↦ rw kept u
]

-- The store counts the requests that were allowed, in each window and from a time on.
abbrev pub Counts : ℕ → Hits → List (String × ℕ) → Type 0
Counts now hits granted =
    (key : String) (w t : ℕ)
    → w ≤ hour_ms
    → now ≤ t
    → length (recent w t (hits.stamps key)) ≡ granted_in w t key granted

abbrev pub AllUnder : ℕ → Hits → Type 0
AllUnder now hits = (key : String) → IsUnder now (hits.stamps key)

pub IsUnder-later : (now t : ℕ) (ss : List ℕ) → now ≤ t → IsUnder now ss → IsUnder t ss
IsUnder-later now t ss h (a, b) = (a, omega arith)

drop_stale-Counts :
    (now : ℕ) (hits : Hits) (granted : List (String × ℕ))
    → AllUnder now hits
    → Counts now hits granted
    → Counts now (drop_stale (now - hour_ms) hits) granted
unfolding drop_stale
drop_stale-Counts now hits granted u c key w t h k =
    unstale_same w now t (hits.stamps key) h k (u key) ∙ c key w t h k

drop_stale-AllUnder :
    (now : ℕ) (hits : Hits) → AllUnder now hits → AllUnder now (drop_stale (now - hour_ms) hits)
unfolding drop_stale
drop_stale-AllUnder now hits u key = unstale-IsUnder (now - hour_ms) now (hits.stamps key) (u key)

-- A request that is allowed is stored behind what is left of the hour.
set_stamps-Counts :
    (now t : ℕ) (key : String) (hits : Hits) (granted : List (String × ℕ))
    → now ≤ t
    → Counts now hits granted
    → Counts t
        (set_stamps key (recent hour_ms t (hits.stamps key) ++ (t ∷ [])) hits)
        ((key, t) ∷ granted)
unfolding set_stamps granted_in
set_stamps-Counts now t key hits granted h c k w t' small late = elim (Bool-cases (k == key)) [
  | inl same ↦
      let at_key = (eq_iff k key).0 same in
      let there : (key == k) ≡ true = (eq_iff key k).1 (sym at_key) in
      let old =
        ap length (recent-recent w hour_ms t t' (hits.stamps key) small late)
        ∙ c key w t' small (omega arith)
        ∙ ap (λ x. granted_in w t' x granted) (sym at_key) in
      let whole = length-recent-append w t' t (recent hour_ms t (hits.stamps key)) in
      elim (Bool-cases (ltb (t' - t) w)) [
        | inl near ↦ rw (same, there, near) (let e = rw near at whole in omega arith)
        | inr far ↦ rw (same, there, far) (let e = rw far at whole in omega arith)
      ]
  | inr other ↦
      let there : (key == k) ≡ false = elim (Bool-cases (key == k)) [
        | inr no_ ↦ no_
        | inl here ↦ absurd (cc (other, (eq_iff k key).1 (sym ((eq_iff key k).0 here))))
      ] in
      rw (other, there) (c k w t' small (omega arith))
]

set_stamps-AllUnder :
    (now t : ℕ) (key : String) (hits : Hits)
    → now ≤ t
    → AllUnder now hits
    → AllUnder t (set_stamps key (recent hour_ms t (hits.stamps key) ++ (t ∷ [])) hits)
unfolding set_stamps
set_stamps-AllUnder now t key hits h u k = elim (Bool-cases (k == key)) [
  | inr other ↦ rw other (IsUnder-later now t (hits.stamps k) h (u k))
  | inl same ↦
      let (all_under, low) = u key in
      rw (same, newest-append 0 t (recent hour_ms t (hits.stamps key)))
        (
          All-append (λ s. s ≤ t) (recent hour_ms t (hits.stamps key)) (t ∷ [])
              (recent-All (λ s. s ≤ t) hour_ms t (hits.stamps key)
                (All-map (hits.stamps key) (λ s p. omega arith) all_under))
              (omega arith, tt),
          omega arith,
        )
]

pub write_stamps-keeps :
    (now t : ℕ) (key : String) (hits : Hits) (granted : List (String × ℕ))
    → now ≤ t
    → Counts now hits granted
    → AllUnder now hits
    → let hits' = write_stamps t key (recent hour_ms t (hits.stamps key) ++ (t ∷ [])) hits in
      Counts t hits' ((key, t) ∷ granted) × AllUnder t hits'
unfolding write_stamps
write_stamps-keeps now t key hits granted h c u =
    let list = recent hour_ms t (hits.stamps key) ++ (t ∷ []) in
    let set = set_stamps key list hits in
    let c' = set_stamps-Counts now t key hits granted h c in
    let u' = set_stamps-AllUnder now t key hits h u in
    elim (Bool-cases (ltb max_tracked_keys (length set.tracked))) [
      | inr small ↦ rw small (c', u')
      | inl large ↦
          rw large
            (drop_stale-Counts t set ((key, t) ∷ granted) u' c', drop_stale-AllUnder t set u')
    ]
