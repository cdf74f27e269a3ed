-- ===== src/Keeper/Trigger/Lane.antt =====
-- keeper/keeper.mjs, the trigger lane: its bound, and when a trigger is sent.
use perps_litvm.Base.{
  ℕ, ◌+◌, ◌≤◌, ◌≡◌, ◌≢◌, refl, Bool, true, false, List, [], ◌∷◌, length, length-append, arith,
}
use perps_litvm.Keeper.WorkingSet.{Entry, Keeper, has, add, remove}
use perps_litvm.Keeper.Market.{is_cooling}
use perps_litvm.Keeper.Trigger.{
  Probe, fills, reverts, throws, fillable, release_trigger, retain_trigger, screen_revert, screen,
  process_trigger, max_hot_triggers,
}

length-remove-le : (key : ℕ) (ks : List ℕ) → length (remove key ks) ≤ length ks
unfolding remove
length-remove-le key [] = omega arith
length-remove-le key (k ∷ ks) = ground (arith, length-remove-le key ks)

length-add-le : (key : ℕ) (ks : List ℕ) → length (add key ks) ≤ length ks + 1
unfolding add
length-add-le key ks = ground (arith, length-append ks (key ∷ []))

add-has : (key : ℕ) (ks : List ℕ) → has key ks ≡ true → add key ks ≡ ks
unfolding add
add-has key ks h = rw h

abbrev IsBounded : Keeper → Type 0
IsBounded k = length k.hot_triggers ≤ max_hot_triggers

release_trigger-IsBounded : (k : Keeper) (e : Entry) → IsBounded k → IsBounded (release_trigger k e)
unfolding release_trigger
release_trigger-IsBounded k e b = omega (arith, length-remove-le e.id k.hot_triggers)

retain_trigger-IsBounded :
    (now_ms : ℕ) (k : Keeper) (e : Entry) (blocked : Bool)
    → IsBounded k
    → IsBounded (retain_trigger now_ms k e blocked)
unfolding retain_trigger
retain_trigger-IsBounded now_ms k e blocked b = ground (
  arith,
  release_trigger-IsBounded k e b,
  length-add-le e.id k.hot_triggers,
  add-has e.id k.hot_triggers,
)

screen_revert-IsBounded :
    (now_ms : ℕ) (k : Keeper) (e : Entry) (reason : List ℕ)
    → IsBounded k
    → IsBounded (screen_revert now_ms k e reason).0
unfolding screen_revert
screen_revert-IsBounded now_ms k e reason b = ground (
  arith,
  length-remove-le e.id k.hot_triggers,
  release_trigger-IsBounded k e b,
  retain_trigger-IsBounded now_ms k e true b,
  retain_trigger-IsBounded now_ms k e false b,
)

screen-IsBounded :
    (now_ms : ℕ) (k : Keeper) (e : Entry) (probe : Probe)
    → IsBounded k
    → IsBounded (screen now_ms k e probe).0
unfolding screen
screen-IsBounded now_ms k e fills b = omega (arith, length-remove-le e.id k.hot_triggers)
screen-IsBounded now_ms k e throws b = retain_trigger-IsBounded now_ms k e true b
screen-IsBounded now_ms k e (reverts reason) b = screen_revert-IsBounded now_ms k e reason b

-- Whatever the probe says, screening a trigger keeps the hot lane within its 24 places.
pub process_trigger_bounded :
    (block_ts now_ms : ℕ) (k : Keeper) (e : Entry) (probe : Probe)
    → length k.hot_triggers ≤ max_hot_triggers
    → length (process_trigger block_ts now_ms k e probe).0.hot_triggers ≤ max_hot_triggers
unfolding process_trigger
process_trigger_bounded block_ts now_ms k e probe b =
    ground (arith, release_trigger-IsBounded k e b, screen-IsBounded now_ms k e probe b)

screen_revert-ne-fillable :
    (now_ms : ℕ) (k : Keeper) (e : Entry) (reason : List ℕ)
    → (screen_revert now_ms k e reason).1 ≢ fillable
unfolding screen_revert
screen_revert-ne-fillable now_ms k e reason h = ground arith

screen-fillable :
    (now_ms : ℕ) (k : Keeper) (e : Entry) (probe : Probe)
    → (screen now_ms k e probe).1 ≡ fillable
    → probe ≡ fills
unfolding screen
screen-fillable now_ms k e fills h = refl
screen-fillable now_ms k e throws h = cc
screen-fillable now_ms k e (reverts reason) h =
    absurd (screen_revert-ne-fillable now_ms k e reason h)

-- A trigger is executed only if its static probe would fill, its delay has passed, its pause
-- between probes is over and no transaction for it is under way.
pub process_trigger-fillable :
    (block_ts now_ms : ℕ) (k : Keeper) (e : Entry) (probe : Probe)
    → (process_trigger block_ts now_ms k e probe).1 ≡ fillable
    → (probe ≡ fills)
      × (e.earliest ≤ block_ts)
      × (is_cooling now_ms e.next_probe_at ≡ false)
      × (has e.id k.in_flight ≡ false)
unfolding process_trigger
process_trigger-fillable block_ts now_ms k e probe h =
    ground (arith, screen-fillable now_ms k e probe)
