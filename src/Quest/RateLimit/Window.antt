-- ===== src/Quest/RateLimit/Window.antt =====
-- frontend/api/_lib/rateLimit.js: what is allowed is what the windows over all that was allowed leave.
use perps_litvm.Base.{
  ℕ, ◌≤◌, ◌≡◌, inl, inr, refl, ap, subst, ◌∙◌, String, Bool, true, false, ◌&&◌, Option, List, [],
  ◌∷◌, leb, ltb, if◌then◌else◌, length, arith, Bool-cases, leb→le, lt→ltb, le→ltb-false,
}
use perps_litvm.Quest.RateLimit.{
  minute_ms, hour_ms, Hits, no_hits, newest, recent, Scope, Verdict, blocked, check_stamps, check,
  is_allowed, served,
}
use perps_litvm.Quest.RateLimit.Counts.{
  granted_in, latest, IsClock, recent-recent, Counts, AllUnder, IsUnder-later, write_stamps-keeps,
}

leb→ltb-false : (a b : ℕ) → leb a b ≡ true → ltb b a ≡ false
leb→ltb-false a b h = le→ltb-false b a (leb→le a b h)

leb-false→ltb : (a b : ℕ) → leb a b ≡ false → ltb b a ≡ true
leb-false→ltb a b h = lt→ltb b a (ground arith)

module _ (per_minute per_hour : ℕ) where
  -- The reference: fewer than the limit have been allowed in both windows.
  unfoldable pub is_within : String → ℕ → List (String × ℕ) → Bool
  unfolding granted_in
  is_within key t granted =
      ltb (granted_in minute_ms t key granted) per_minute
      && ltb (granted_in hour_ms t key granted) per_hour

  abbrev Keeps : String → ℕ → List (String × ℕ) → Verdict × Hits → Type 0
  Keeps key t granted r =
      (is_allowed per_minute per_hour r.0 ≡ is_within key t granted)
      × (let granted' =
            if is_allowed per_minute per_hour r.0 then (key, t) ∷ granted else granted in
          Counts t r.1 granted' × AllUnder t r.1)

  check-Keeps :
      (now t : ℕ) (key : String) (hits : Hits) (granted : List (String × ℕ))
      → now ≤ t
      → Counts now hits granted
      → AllUnder now hits
      → Keeps key t granted (check per_minute per_hour key t hits)
  unfolding check check_stamps is_allowed is_within
  check-Keeps now t key hits granted h c u =
      let stamps = hits.stamps key in
      let in_hour = recent hour_ms t stamps in
      let in_minute = recent minute_ms t in_hour in
      let minute_count : length in_minute ≡ granted_in minute_ms t key granted =
        ap length (recent-recent minute_ms hour_ms t t stamps (omega arith) (omega arith))
        ∙ c key minute_ms t (omega arith) h in
      let hour_count : length in_hour ≡ granted_in hour_ms t key granted =
        c key hour_ms t (omega arith) h in
      let same : Counts t hits granted × AllUnder t hits = (
        (λ k w t' p q. c k w t' p (omega arith)),
        (λ k. IsUnder-later now t (hits.stamps k) h (u k)),
      ) in
      elim (Bool-cases (leb per_minute (length in_minute))) [
        | inl full ↦
            let over : ltb (granted_in minute_ms t key granted) per_minute ≡ false =
              subst (λ n. ltb n per_minute ≡ false) minute_count
                (leb→ltb-false per_minute (length in_minute) full) in
            rw (full, over, check_stamps) (refl, same)
        | inr free ↦
            let under : ltb (granted_in minute_ms t key granted) per_minute ≡ true =
              subst (λ n. ltb n per_minute ≡ true) minute_count
                (leb-false→ltb per_minute (length in_minute) free) in
            elim (Bool-cases (leb per_hour (length in_hour))) [
              | inl full ↦
                  let over : ltb (granted_in hour_ms t key granted) per_hour ≡ false =
                    subst (λ n. ltb n per_hour ≡ false) hour_count
                      (leb→ltb-false per_hour (length in_hour) full) in
                  rw (free, full, under, over, check_stamps) (refl, same)
              | inr open_ ↦
                  let below : ltb (granted_in hour_ms t key granted) per_hour ≡ true =
                    subst (λ n. ltb n per_hour ≡ true) hour_count
                      (leb-false→ltb per_hour (length in_hour) open_) in
                  rw (free, open_, under, below, check_stamps)
                    (refl, write_stamps-keeps now t key hits granted h c u)
            ]
      ]

  served-Keeps :
      (history : List (String × ℕ))
      → IsClock history
      → Counts
          (latest history)
          (served per_minute per_hour history).0
          (served per_minute per_hour history).1
        × AllUnder (latest history) (served per_minute per_hour history).0
  unfolding served no_hits recent granted_in newest
  served-Keeps [] h = ((λ key w t p q. refl), (λ key. (tt, omega arith)))
  served-Keeps ((key, t) ∷ earlier) (h, hs) =
      let (c, u) = served-Keeps earlier hs in
      (check-Keeps (latest earlier) t key (served per_minute per_hour earlier).0
        (served per_minute per_hour earlier).1 h c u).1

  -- After any history of requests whose times do not fall, a request is allowed exactly when fewer
  -- than the limit of its key's requests were allowed in the last minute, and in the last hour:
  -- neither the cut of a key's times nor the eviction of keys from a full store loses one that counts.
  pub is_allowed-check :
      (history : List (String × ℕ)) (key : String) (t : ℕ)
      → IsClock ((key, t) ∷ history)
      → is_allowed per_minute per_hour
          (check per_minute per_hour key t (served per_minute per_hour history).0).0
        ≡ is_within key t (served per_minute per_hour history).1
  is_allowed-check history key t (h, hs) =
      let (c, u) = served-Keeps history hs in
      (check-Keeps (latest history) t key (served per_minute per_hour history).0
        (served per_minute per_hour history).1 h c u).0

  -- A blocked request is not stored.
  pub check_blocked :
      (key : String) (t : ℕ) (hits : Hits) (scope : Scope) (wait : Option ℕ)
      → (check per_minute per_hour key t hits).0 ≡ blocked scope wait
      → (check per_minute per_hour key t hits).1 ≡ hits
  unfolding check check_stamps
  check_blocked key t hits scope wait e =
      let in_hour = recent hour_ms t (hits.stamps key) in
      elim (Bool-cases (leb per_minute (length (recent minute_ms t in_hour)))) [
        | inl full ↦ rw (full, check_stamps) refl
        | inr free ↦ elim (Bool-cases (leb per_hour (length in_hour))) [
          | inl full ↦ rw (free, full, check_stamps) refl
          | inr open_ ↦ absurd (let e' = rw (free, open_, check_stamps) at e in cc e')
        ]
      ]
