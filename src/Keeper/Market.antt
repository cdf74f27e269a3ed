-- ===== src/Keeper/Market.antt =====
-- keeper/keeper.mjs: `deferMarket`, and the guards and the end of `fireMarket`.
pub mod Streak
pub mod Quarantine
use perps_litvm.Base.{
  ℕ, zero, suc, ◌+◌, ◌-◌, ◌*◌, Bool, true, false, not, ◌&&◌, ◌||◌, Option, none, some, List, [],
  ◌∷◌, leb, ltb, if◌then◌else◌, min, max,
}
use perps_litvm.Base.{◌==◌}
use perps_litvm.Keeper.Reasons.{is_not_active, is_permanent, name_of, same_text}
use perps_litvm.Keeper.WorkingSet.{Entry, Keeper, has, add, find, put, drop_entry, fire_buffer_ms}

-- REFIRE_MS, MARKET_BACKOFF_BASE_MS, MARKET_BACKOFF_CAP_MS, MARKET_QUARANTINE_ATTEMPTS
abbrev pub refire_ms : ℕ
refire_ms = 1000

abbrev pub market_backoff_base_ms : ℕ
market_backoff_base_ms = 2000

abbrev pub market_backoff_cap_ms : ℕ
market_backoff_cap_ms = 60000

abbrev pub market_quarantine_attempts : ℕ
market_quarantine_attempts = 18

-- `entry.backoffMs ? Math.min(entry.backoffMs * 2, cap) : base`
unfoldable pub next_backoff : ℕ → ℕ → ℕ → ℕ
next_backoff base cap backoff = if backoff == 0 then base else min (backoff * 2) cap

pub same_reason : Option (List ℕ) → List ℕ → Bool
same_reason none name = false
same_reason (some old) name = same_text old name

-- A name as a condition reads it: an empty text counts as false.
unfoldable pub truthy : List ℕ → Option (List ℕ)
truthy [] = none
truthy (c ∷ text) = some (c ∷ text)

-- `permName`
unfoldable pub perm_name : List ℕ → Option (List ℕ)
unfolding truthy
perm_name reason = if is_permanent reason then truthy (name_of reason) else none

-- The tally of consecutive reverts with one permanent error.
pub tally : List ℕ → Entry → Entry
unfolding perm_name same_reason
tally reason e = elim (perm_name reason) [
  | none ↦ record e { perm_reason = none; perm_count = 0 }
  | some name ↦
      if same_reason e.perm_reason name
      then record e { perm_count = e.perm_count + 1 }
      else record e { perm_reason = some name; perm_count = 1 }
]

-- What `deferMarket` does: ask for a reconcile, park the request, or back off.
pub data Deferral : Type 0 where
  reconciles quarantines backs_off : Deferral

pub record Deferred : Type 0 where
  pub keeper : Keeper
  pub entry : Entry
  pub what : Deferral

pub park : Keeper → Entry → Deferred
park k e = record {
  keeper = record k { quarantined = add e.id k.quarantined; active = drop_entry e.id k.active };
  entry = record e { fire_timer = none; next_fire_at = 0 };
  what = quarantines;
}

pub back_off : ℕ → Keeper → Entry → Deferred
back_off now_ms k e =
    let wait = next_backoff market_backoff_base_ms market_backoff_cap_ms e.backoff_ms in
    let later = record e {
      backoff_ms = wait;
      next_fire_at = now_ms + wait;
      fire_timer = some (now_ms + wait);
    } in
    record { keeper = record k { active = put later k.active }; entry = later; what = backs_off }

pub defer_market : ℕ → Keeper → Entry → List ℕ → Deferred
unfolding tally park back_off
defer_market now_ms k e reason =
    if is_not_active reason
    then record { keeper = k; entry = e; what = reconciles }
    else (if leb market_quarantine_attempts (tally reason e).perm_count
        then park k (tally reason e)
        else back_off now_ms k (tally reason e))

-- What `fireMarket` does before its first wait: nothing, arm a timer for what is left to the
-- floor, or go on with the entry marked as firing.
pub data Fire : Type 0 where
  ignored : Fire
  rearmed fires : Entry → Fire

pub is_throttled : ℕ → Entry → Bool
is_throttled now_ms e = not (e.last_fire_ms == 0) && ltb (now_ms - e.last_fire_ms) refire_ms

unfoldable pub is_cooling : ℕ → ℕ → Bool
is_cooling now_ms at = not (at == 0) && ltb now_ms at

pub fire_gate : ℕ → ℕ → Keeper → Entry → Fire
unfolding is_throttled is_cooling
fire_gate chain_ms now_ms k e = elim (find e.id k.active) [
  | none ↦ ignored
  | some _ ↦
      if e.is_trigger
        || (e.firing
            || (has e.id k.in_flight
                || (is_throttled now_ms e || is_cooling now_ms e.next_fire_at)))
      then ignored
      else (if ltb chain_ms (e.earliest * 1000)
          then rearmed (record e {
            fire_timer = some (now_ms + max 50 (e.earliest * 1000 - chain_ms + fire_buffer_ms));
          })
          else fires (record e { fire_timer = none; firing = true; last_fire_ms = now_ms }))
]

-- How the rest of `fireMarket` goes: the package's timestamp is under the floor, the probe is
-- red, something throws, or the probe is green and the request is executed.
pub data FireEnd : Type 0 where
  stale_package green : FireEnd
  red thrown : List ℕ → FireEnd

pub record Fired : Type 0 where
  pub keeper : Keeper
  pub executes : Bool

-- `finally { entry.firing = false; }`
pub settle : Deferred → Fired
settle d = record {
  keeper = record d.keeper { active = put (record d.entry { firing = false }) d.keeper.active };
  executes = false;
}

pub fire_end : ℕ → Keeper → Entry → FireEnd → Fired
unfolding settle defer_market
fire_end now_ms k e stale_package = record {
  keeper = record k {
    active =
        put (record e { firing = false; last_fire_ms = 0; fire_timer = some (now_ms + 500) })
          k.active;
  };
  executes = false;
}
fire_end now_ms k e (red reason) = settle (defer_market now_ms k e reason)
fire_end now_ms k e (thrown reason) = settle (defer_market now_ms k e reason)
fire_end now_ms k e green = record {
  keeper = record k {
    active =
        put (record e { backoff_ms = 0; next_fire_at = 0; perm_reason = none; perm_count = 0 })
          k.active;
  };
  executes = true;
}
