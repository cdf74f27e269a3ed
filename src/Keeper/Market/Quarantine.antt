-- ===== src/Keeper/Market/Quarantine.antt =====
-- keeper/keeper.mjs, `deferMarket`: which requests are parked, and when the others are tried again.
use perps_litvm.Base.{
  ◌↔◌, ℕ, ◌+◌, ◌≤◌, ◌<◌, ◌≡◌, inl, inr, refl, false, leb, none, some, List, [], ◌∷◌, arith,
  Bool-cases,
}
use perps_litvm.Keeper.Reasons.{is_not_active, is_permanent, name_of}
use perps_litvm.Keeper.Market.Streak.{
  counts, streak, Named, perm_name-temporary, perm_name-some, perm_name-none, same_reason→eq,
  run_length-same, run_length-other,
}
use perps_litvm.Keeper.WorkingSet.{Entry, Keeper}
use perps_litvm.Keeper.Market.{
  next_backoff, tally, same_reason, quarantines, backs_off, park, back_off, defer_market,
  market_backoff_cap_ms, market_quarantine_attempts,
}

next_backoff_bounds :
    (b : ℕ) → (0 < next_backoff 2000 60000 b) × (next_backoff 2000 60000 b ≤ 60000)
unfolding next_backoff
next_backoff_bounds b = ground arith

-- A request that reverts for a reason which is not a permanent one, and which does not say that it
-- is gone, is not parked: the set of parked requests stays, the tally goes back to 0, and it is
-- tried again after now, and within a minute.
pub defer_market_temporary :
    (now_ms : ℕ) (k : Keeper) (e : Entry) (reason : List ℕ)
    → is_not_active reason ≡ false
    → is_permanent reason ≡ false
    → let d = defer_market now_ms k e reason in
      (d.what ≡ backs_off)
      × (d.keeper.quarantined ≡ k.quarantined)
      × (d.entry.perm_count ≡ 0)
      × (now_ms < d.entry.next_fire_at)
      × (d.entry.next_fire_at ≤ now_ms + market_backoff_cap_ms)
      × (d.entry.fire_timer ≡ some d.entry.next_fire_at)
unfolding defer_market tally back_off
defer_market_temporary now_ms k e reason h p =
    rw (h, tally, perm_name-temporary reason p) (ground (arith, next_backoff_bounds e.backoff_ms))

-- The keeper and the entry after a history of deferrals, each at its time, the latest first.
pub defer_all : List (ℕ × List ℕ) → Keeper → Entry → Keeper × Entry
defer_all [] k e = (k, e)
defer_all ((now_ms, reason) ∷ earlier) k e =
    let (k', e') = defer_all earlier k e in
    let d = defer_market now_ms k' e' reason in (d.keeper, d.entry)

-- The tally of the entry is the streak of its history.
abbrev IsTallied : List (ℕ × List ℕ) → Entry → Type 0
IsTallied history e = Named history e.perm_reason × (e.perm_count ≡ streak history)

tally-IsTallied :
    (at : ℕ) (reason : List ℕ) (earlier : List (ℕ × List ℕ)) (e : Entry)
    → is_not_active reason ≡ false
    → IsTallied earlier e
    → IsTallied ((at, reason) ∷ earlier) (tally reason e)
unfolding tally streak
tally-IsTallied at reason earlier e here (n, c) = elim (Bool-cases (counts reason)) [
  | inr p ↦ rw (here, p, tally, perm_name-none reason p) (inr (inr (refl, refl, refl)), refl)
  | inl p ↦ elim (Bool-cases (same_reason e.perm_reason (name_of reason))) [
    | inl same ↦
        rw (here, p, tally, perm_name-some reason p, same)
          (
            inr (inl (refl, refl, same_reason→eq e.perm_reason (name_of reason) same)),
            omega (arith, run_length-same earlier e.perm_reason (name_of reason) n same),
          )
    | inr other ↦
        rw (here, p, tally, perm_name-some reason p, other)
          (
            inr (inl (refl, refl, refl)),
            omega (arith, run_length-other earlier e.perm_reason (name_of reason) n other),
          )
  ]
]

defer_market-IsTallied :
    (now_ms : ℕ) (k : Keeper) (e : Entry) (reason : List ℕ) (earlier : List (ℕ × List ℕ))
    → IsTallied earlier e
    → IsTallied ((now_ms, reason) ∷ earlier) (defer_market now_ms k e reason).entry
unfolding defer_market park back_off
defer_market-IsTallied now_ms k e reason earlier t = elim (Bool-cases (is_not_active reason)) [
  | inl gone ↦ rw gone (inl (refl, t.0), (unfold streak in rw gone t.1))
  | inr here ↦
      let counted = tally-IsTallied now_ms reason earlier e here t in
      let counted' = rw here at counted in
      elim (Bool-cases (leb market_quarantine_attempts (tally reason e).perm_count)) [
        | inl full ↦ rw (here, full) counted'
        | inr room ↦ rw (here, room) counted'
      ]
]

defer_all-IsTallied :
    (history : List (ℕ × List ℕ)) (k : Keeper) (e : Entry)
    → e.perm_reason ≡ none
    → e.perm_count ≡ 0
    → IsTallied history (defer_all history k e).1
unfolding defer_all
defer_all-IsTallied [] k e n c = (n, unfold streak in c)
defer_all-IsTallied ((at, reason) ∷ earlier) k e n c =
    defer_market-IsTallied at (defer_all earlier k e).0 (defer_all earlier k e).1 reason earlier
      (defer_all-IsTallied earlier k e n c)

-- A market that starts with no tally, after any history of deferrals, is parked by one more exactly
-- when that one does not say that the request is gone, and it and the ones right before it are a
-- run of at least 18 with the same named permanent error, where those that say that the request is
-- gone neither count nor end the run.
pub defer_market-quarantines :
    (now_ms : ℕ) (k : Keeper) (e : Entry) (reason : List ℕ) (history : List (ℕ × List ℕ))
    → e.perm_reason ≡ none
    → e.perm_count ≡ 0
    → let (k', e') = defer_all history k e in
      ((defer_market now_ms k' e' reason).what ≡ quarantines) ↔ (
        (is_not_active reason ≡ false)
        × (market_quarantine_attempts ≤ streak ((now_ms, reason) ∷ history)))
unfolding defer_market park back_off
defer_market-quarantines now_ms k e reason history n c =
    let e' = (defer_all history k e).1 in
    elim (Bool-cases (is_not_active reason)) [
      | inl gone ↦ rw gone (ground arith)
      | inr here ↦
          let same =
            (tally-IsTallied now_ms reason history e' here
              (defer_all-IsTallied history k e n c)).1 in
          ground (arith, same)
    ]
