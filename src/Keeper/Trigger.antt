-- ===== src/Keeper/Trigger.antt =====
-- keeper/keeper.mjs: the trigger lane, `releaseTrigger`, `retainTrigger` and `processTrigger`.
pub mod Lane
use perps_litvm.Base.{
  ℕ, zero, suc, ◌+◌, Bool, true, false, not, ◌&&◌, Option, none, some, List, [], ◌∷◌, leb, ltb,
  if◌then◌else◌, length,
}
use perps_litvm.Keeper.Reasons.{is_not_active, is_trigger_not_met, is_temporary, is_near}
use perps_litvm.Keeper.WorkingSet.{Entry, Keeper, has, add, remove, put, drop_entry}
use perps_litvm.Keeper.Market.{next_backoff, is_cooling}

-- TRIGGER_HOT_PROBE_MS, TRIGGER_BACKOFF_BASE_MS, TRIGGER_BACKOFF_CAP_MS, MAX_HOT_TRIGGERS
abbrev pub trigger_hot_probe_ms : ℕ
trigger_hot_probe_ms = 1500

abbrev pub trigger_backoff_base_ms : ℕ
trigger_backoff_base_ms = 2000

abbrev pub trigger_backoff_cap_ms : ℕ
trigger_backoff_cap_ms = 30000

abbrev pub max_hot_triggers : ℕ
max_hot_triggers = 24

-- The entry leaves the working set for the sweep; it is not dropped on the chain.
pub release_trigger : Keeper → Entry → Keeper
release_trigger k e = record k {
  hot_triggers = remove e.id k.hot_triggers;
  active = drop_entry e.id k.active;
}

-- The next probe of an entry that stays: after its backoff if it is blocked, else soon.
pub reprobe : ℕ → Entry → Bool → Entry
reprobe now_ms e true =
    let wait = next_backoff trigger_backoff_base_ms trigger_backoff_cap_ms e.backoff_ms in
    record e { backoff_ms = wait; next_probe_at = now_ms + wait }
reprobe now_ms e false = record e { backoff_ms = 0; next_probe_at = now_ms + trigger_hot_probe_ms }

pub retain_trigger : ℕ → Keeper → Entry → Bool → Keeper
unfolding release_trigger reprobe
retain_trigger now_ms k e blocked =
    if not (has e.id k.hot_triggers) && leb max_hot_triggers (length k.hot_triggers)
    then release_trigger k e
    else record k {
      hot_triggers = add e.id k.hot_triggers;
      active = put (reprobe now_ms e blocked) k.active;
    }

-- The static probe of a screened trigger: it would fill, it would revert for a reason, or the
-- fetch or the call threw.
pub data Probe : Type 0 where
  fills : Probe
  reverts : List ℕ → Probe
  throws : Probe

pub data Screened : Type 0 where
  inflight pre_delay cooling error fillable removed near not_met blocked : Screened

-- A screened trigger with a reverting probe.
pub screen_revert : ℕ → Keeper → Entry → List ℕ → Keeper × Screened
unfolding retain_trigger release_trigger
screen_revert now_ms k e reason =
    if is_not_active reason
    then (record k { hot_triggers = remove e.id k.hot_triggers }, removed)
    else (if is_trigger_not_met reason
        then (if is_near reason
            then (retain_trigger now_ms k e false, near)
            else (release_trigger k e, not_met))
        else (if is_temporary reason
            then (retain_trigger now_ms k e true, blocked)
            else (release_trigger k e, not_met)))

pub screen : ℕ → Keeper → Entry → Probe → Keeper × Screened
unfolding screen_revert retain_trigger
screen now_ms k e fills = (
  record k {
    hot_triggers = remove e.id k.hot_triggers;
    active = put (record e { backoff_ms = 0; next_probe_at = 0 }) k.active;
  },
  fillable,
)
screen now_ms k e throws = (retain_trigger now_ms k e true, error)
screen now_ms k e (reverts reason) = screen_revert now_ms k e reason

-- `processTrigger` up to the execution, which follows exactly on `fillable`.
unfoldable pub process_trigger : ℕ → ℕ → Keeper → Entry → Probe → Keeper × Screened
unfolding screen release_trigger is_cooling
process_trigger block_ts now_ms k e probe =
    if has e.id k.in_flight
    then (k, inflight)
    else (if ltb block_ts e.earliest
        then (release_trigger k e, pre_delay)
        else (if is_cooling now_ms e.next_probe_at then (k, cooling) else screen now_ms k e probe))
