-- ===== src/Keeper/WorkingSet.antt =====
-- keeper/keeper.mjs: the set of requests that the keeper holds, `applyReconcile` and
-- `scheduleMarket`. Times are milliseconds, those of the chain too, but for timestamps, which are
-- seconds. What only feeds the log is left out: an entry's `phase` and its stage times.
pub mod Bounds
pub mod Flight
use perps_litvm.Base.{
  ℕ, zero, suc, ◌+◌, ◌-◌, ◌*◌, String, Bool, true, false, not, ◌&&◌, ◌||◌, Option, none, some, List,
  [], ◌∷◌, ◌++◌, leb, ltb, if◌then◌else◌, length,
}
use perps_litvm.Base.{◌==◌}
use perps_litvm.Keeper.Sweep.{admits}

-- What the keeper reads of requests(id).
pub record Request : Type 0 where
  pub active : Bool
  pub market : String
  pub request_timestamp : ℕ

-- A member of `active`. A timer is the time at which it fires.
pub record Entry : Type 0 where
  pub id : ℕ
  pub req : Request
  pub is_trigger : Bool
  pub feed : String
  pub earliest : ℕ
  pub fire_timer : Option ℕ
  pub firing : Bool
  pub last_fire_ms : ℕ
  pub backoff_ms : ℕ
  pub next_fire_at : ℕ
  pub next_probe_at : ℕ
  pub perm_reason : Option (List ℕ)
  pub perm_count : ℕ

pub record Keeper : Type 0 where
  pub active : List Entry
  pub in_flight : List ℕ
  pub quarantined : List ℕ
  pub hot_triggers : List ℕ
  pub is_trigger_cache : List (ℕ × Bool)

-- `has`, `get`, `set` and `delete` of the maps and sets.
unfoldable pub has : ℕ → List ℕ → Bool
has key [] = false
has key (k ∷ ks) = k == key || has key ks

unfoldable pub add : ℕ → List ℕ → List ℕ
unfolding has
add key ks = if has key ks then ks else ks ++ key ∷ []

unfoldable pub remove : ℕ → List ℕ → List ℕ
remove key [] = []
remove key (k ∷ ks) = let rest = remove key ks in if k == key then rest else k ∷ rest

unfoldable pub find : ℕ → List Entry → Option Entry
find key [] = none
find key (e ∷ es) = if e.id == key then some e else find key es

-- An entry is an object: a change to it is seen wherever it is held.
unfoldable pub put : Entry → List Entry → List Entry
put entry [] = []
put entry (e ∷ es) = let rest = put entry es in if e.id == entry.id then entry ∷ rest else e ∷ rest

unfoldable pub drop_entry : ℕ → List Entry → List Entry
drop_entry key [] = []
drop_entry key (e ∷ es) = let rest = drop_entry key es in if e.id == key then rest else e ∷ rest

unfoldable pub drop_kind : ℕ → List (ℕ × Bool) → List (ℕ × Bool)
drop_kind key [] = []
drop_kind key ((k, b) ∷ kinds) =
    let rest = drop_kind key kinds in if k == key then rest else (k, b) ∷ rest

-- FIRE_BUFFER_MS
abbrev pub fire_buffer_ms : ℕ
fire_buffer_ms = 150

-- What scheduling a market does: arm a timer, or fire at once.
pub data Scheduled : Type 0 where
  armed past_floor : Entry → Scheduled

-- `waitMs` of `scheduleMarket`, at a chain clock and a wall clock.
unfoldable pub schedule_market : ℕ → ℕ → Entry → Scheduled
schedule_market chain_ms now_ms entry =
    if leb (entry.earliest * 1000 + fire_buffer_ms) chain_ms
    then past_floor (record entry { fire_timer = none })
    else armed (record entry {
      fire_timer = some (now_ms + (entry.earliest * 1000 + fire_buffer_ms - chain_ms));
    })

pub data Status : Type 0 where
  inactive deferred added updated : Status

-- The result of `applyReconcile`; `fire` is the market that it fires at once.
pub record Reconciled : Type 0 where
  pub keeper : Keeper
  pub status : Status
  pub fire : Option Entry

pub entry_of : Scheduled → Entry
entry_of (armed e) = e
entry_of (past_floor e) = e

pub fire_of : Scheduled → Option Entry
fire_of (armed e) = none
fire_of (past_floor e) = some e

pub has_timer : Entry → Bool
has_timer e = elim e.fire_timer [ none ↦ false | some _ ↦ true ]

module _ (feed_of : String → String) (min_delay max_active chain_ms now_ms : ℕ) where
  pub fresh_entry : ℕ → Request → Bool → Entry
  fresh_entry id req is_trigger = record {
    id = id;
    req = req;
    is_trigger = is_trigger;
    feed = feed_of req.market;
    earliest = req.request_timestamp + min_delay;
    fire_timer = none;
    firing = false;
    last_fire_ms = 0;
    backoff_ms = 0;
    next_fire_at = 0;
    next_probe_at = 0;
    perm_reason = none;
    perm_count = 0;
  }

  pub refreshed : Entry → Request → Bool → Entry
  refreshed e req is_trigger = record e {
    req = req;
    is_trigger = is_trigger;
    feed = feed_of req.market;
    earliest = req.request_timestamp + min_delay;
  }

  -- The request is gone from the chain.
  pub retire : Keeper → ℕ → Keeper
  retire k key = record k {
    active = drop_entry key k.active;
    hot_triggers = remove key k.hot_triggers;
    is_trigger_cache = drop_kind key k.is_trigger_cache;
  }

  pub admit : Keeper → ℕ → Request → Bool → Reconciled
  unfolding fresh_entry entry_of fire_of
  admit k key req is_trigger =
      let entry = fresh_entry key req is_trigger in
      if is_trigger
      then record {
        keeper = record k { active = k.active ++ entry ∷ [] };
        status = added;
        fire = none;
      }
      else (let plan = schedule_market chain_ms now_ms entry in
          record {
            keeper = record k { active = k.active ++ entry_of plan ∷ [] };
            status = added;
            fire = fire_of plan;
          })

  pub refresh : Keeper → ℕ → Entry → Request → Bool → Reconciled
  unfolding refreshed has_timer entry_of fire_of
  refresh k key old req is_trigger =
      let entry = refreshed old req is_trigger in
      if not is_trigger
        && (not (has_timer entry) && (not entry.firing && not (has key k.in_flight)))
      then (let plan = schedule_market chain_ms now_ms entry in
          record {
            keeper = record k { active = put (entry_of plan) k.active };
            status = updated;
            fire = fire_of plan;
          })
      else record {
        keeper = record k { active = put entry k.active };
        status = updated;
        fire = none;
      }

  pub apply_reconcile : Keeper → ℕ → Request → Bool → Reconciled
  unfolding retire admit refresh
  apply_reconcile k key req is_trigger =
      if not req.active
      then record { keeper = retire k key; status = inactive; fire = none }
      else (elim (find key k.active) [
        | none ↦
            if admits (length k.active) is_trigger max_active
            then admit k key req is_trigger
            else record { keeper = k; status = deferred; fire = none }
        | some old ↦ refresh k key old req is_trigger
      ])
