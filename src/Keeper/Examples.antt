-- ===== src/Keeper/Examples.antt =====
-- keeper/keeper.mjs: the theorems at concrete inputs.
use perps_litvm.Base.{
  ℕ, zero, suc, ◌+◌, ◌*◌, ◌<◌, ◌≤◌, ◌≡◌, refl, List, [], ◌∷◌, some, min, length, get_elem?, All,
  arith, Bool, true, false, none, String, inl,
}
use perps_litvm.Keeper.Sweep.{plan_sweep}
use perps_litvm.Keeper.Sweep.Rotation.{cursor_after, plan_sweep_bounds, plan_sweep_reaches}
use perps_litvm.Base.{codes}
use perps_litvm.Keeper.Reasons.{is_not_active, is_permanent, name_of, same_text}
use perps_litvm.Keeper.WorkingSet.{Request, Entry, Keeper, has, apply_reconcile}
use perps_litvm.Keeper.WorkingSet.Bounds.{triggers, apply_reconcile_bounded}
use perps_litvm.Keeper.Market.{defer_market, quarantines, backs_off, is_cooling}
use perps_litvm.Keeper.Market.Streak.{run_length, streak}
use perps_litvm.Keeper.Market.Quarantine.{
  defer_all, defer_market_temporary, defer_market-quarantines,
}
use perps_litvm.Keeper.Trigger.{Probe, fills, reverts, process_trigger}
use perps_litvm.Keeper.Trigger.Lane.{process_trigger_bounded, process_trigger-fillable}

-- Three ids from the ninth of ten wrap to the oldest.
plan_sweep_wraps : plan_sweep 8 10 3 ≡ record { ids = 8 ∷ 9 ∷ 0 ∷ []; next_cursor = 1 }
unfolding plan_sweep
plan_sweep_wraps = refl

plan_sweep_bounds_example :
    (length (plan_sweep 8 10 3).ids ≡ 3)
    × All (λ id. id < 10) (plan_sweep 8 10 3).ids
    × ((plan_sweep 8 10 3).next_cursor < 10)
plan_sweep_bounds_example = plan_sweep_bounds 8 10 3 (omega arith)

plan_sweep_reaches_example :
    (n : ℕ) × (i : ℕ) × (n * min 3 10 + i < 10)
    × (get_elem? (plan_sweep (cursor_after 10 3 8 n) 10 3).ids i ≡ some 5)
plan_sweep_reaches_example = plan_sweep_reaches 10 3 8 5 (omega arith) (omega arith) (omega arith)

abbrev btc_request : Request
btc_request = record { active = true; market = "BTC"; request_timestamp = 1000 }

abbrev entry_at : ℕ → Bool → Entry
entry_at id is_trigger = record {
  id = id;
  req = btc_request;
  is_trigger = is_trigger;
  feed = "BTC";
  earliest = 1003;
  fire_timer = none;
  firing = false;
  last_fire_ms = 0;
  backoff_ms = 0;
  next_fire_at = 0;
  next_probe_at = 0;
  perm_reason = none;
  perm_count = 0;
}

-- A market and a trigger, the trigger in the hot lane.
abbrev busy : Keeper
busy = record {
  active = entry_at 4 false ∷ entry_at 7 true ∷ [];
  in_flight = [];
  quarantined = [];
  hot_triggers = 7 ∷ [];
  is_trigger_cache = (7, true) ∷ [];
}

abbrev feed_name : String → String
feed_name market = market

-- The third trigger for a set of three: the first is held, and one more is admitted.
apply_reconcile_bounded_example :
    triggers (apply_reconcile feed_name 3 3 1010000 5000 busy 9 btc_request true).keeper.active ≤ 3
unfolding triggers
apply_reconcile_bounded_example =
    apply_reconcile_bounded feed_name 3 3 1010000 5000 busy 9 btc_request true (omega arith)
      (inl (omega arith), (inl (omega arith), tt))

abbrev full_pool : List ℕ
full_pool = codes "ExceedsUtilization(9, 8)"

defer_market_temporary_example :
    let d = defer_market 5000 busy (entry_at 4 false) full_pool in
    (d.what ≡ backs_off)
    × (d.keeper.quarantined ≡ [])
    × (d.entry.perm_count ≡ 0)
    × (5000 < d.entry.next_fire_at)
    × (d.entry.next_fire_at ≤ 65000)
    × (d.entry.fire_timer ≡ some d.entry.next_fire_at)
defer_market_temporary_example =
    defer_market_temporary 5000 busy (entry_at 4 false) full_pool (unfold is_not_active in refl)
      (unfold is_permanent in refl)

abbrev bad_leverage : List ℕ
bad_leverage = codes "LeverageOutOfRange(999)"

-- A temporary gate, then 17 reverts with one permanent error, of which the last comes after a report
-- that the request is gone.
abbrev bad_times : ℕ → List (ℕ × List ℕ) → List (ℕ × List ℕ)
bad_times zero earlier = earlier
bad_times (suc n) earlier = (1000, bad_leverage) ∷ bad_times n earlier

abbrev gone : List ℕ
gone = codes "RequestNotActive(4)"

abbrev long_history : List (ℕ × List ℕ)
long_history = bad_times 1 ((900, gone) ∷ bad_times 16 ((500, full_pool) ∷ []))

bad_leverage-counts :
    (is_not_active bad_leverage ≡ false) × (18 ≤ streak ((5000, bad_leverage) ∷ long_history))
unfolding is_not_active is_permanent name_of same_text run_length streak
bad_leverage-counts = (refl, omega arith)

-- The next one parks the market.
defer_market-quarantines_example :
    let (k, e) = defer_all long_history busy (entry_at 4 false) in
    (defer_market 5000 k e bad_leverage).what ≡ quarantines
defer_market-quarantines_example =
    (defer_market-quarantines 5000 busy (entry_at 4 false) bad_leverage long_history refl refl).1
      bad_leverage-counts

-- One fewer does not.
bad_leverage-short :
    (18 ≤ streak ((5000, bad_leverage) ∷ (900, gone) ∷ bad_times 16 ((500, full_pool) ∷ []))) → ⊥
unfolding is_not_active is_permanent name_of same_text run_length streak
bad_leverage-short h = omega arith

process_trigger_bounded_example :
    length (process_trigger 1010 5000 busy (entry_at 7 true) (reverts full_pool)).0.hot_triggers
    ≤ 24
process_trigger_bounded_example =
    process_trigger_bounded 1010 5000 busy (entry_at 7 true) (reverts full_pool) (omega arith)

process_trigger-fillable_example :
    (◌≡◌ {A = Probe} fills fills)
    × (1003 ≤ 1010)
    × (is_cooling 5000 0 ≡ false)
    × (has 7 busy.in_flight ≡ false)
unfolding has
process_trigger-fillable_example =
    process_trigger-fillable 1010 5000 busy (entry_at 7 true) fills (unfold process_trigger in refl)
