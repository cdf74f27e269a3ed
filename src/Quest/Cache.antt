-- ===== src/Quest/Cache.antt =====
-- frontend/api/_lib/quest/cache.js: the key of a verdict, and the cache with its write policy.

pub mod Memory
mod Tests
use Prim.Native.String.{◌++◌ as concat}
use text.Mathlib.Text.{◌==◌}
use perps_litvm.Base.{
  ℕ, zero, suc, ◌-◌, ◌++◌, length, String, Bool, true, false, not, ◌&&◌, Option, none, some, List,
  [], ◌∷◌, if◌then◌else◌, Try, ok, throw, Ask, Call, Done,
}
use perps_litvm.Quest.Quests.{Status, confirmed, indeterminate, unavailable, Verdict}

-- `cacheKey`, of a chain id in decimal; an empty bucket counts as none.
unfoldable pub cache_key : (String → String) → String → String → String → Option String → String
cache_key lower chain quest address bucket =
    let base = concat chain (concat ":" (concat quest (concat ":" (lower address)))) in
    elim bucket [
      | none ↦ base
      | some day ↦ if day == "" then base else concat base (concat ":" day)
    ]

unfoldable pub is_confirmed : Status → Bool
is_confirmed confirmed = true
is_confirmed indeterminate = false
is_confirmed unavailable = false

unfoldable pub is_cacheable : Verdict → Bool
unfolding is_confirmed
is_cacheable v = v.completed && is_confirmed v.status

pub record CacheDriver (S : Type 0) : Type 0 where
  pub get : String → Call S (Option Verdict)
  pub set : String → Verdict → Call S Done

pub hit_of : Try (Option Verdict) → Option Verdict
hit_of (ok hit) = hit
hit_of (throw e) = none

module _ {S : Type 0} (driver : CacheDriver S) where
  -- `get` and `set` of a cache; a driver that throws is a miss, or a write that is lost.
  unfoldable pub cache_get : String → Ask S (Option Verdict)
  unfolding hit_of
  cache_get key s = let (r, s') = driver.get key s in (hit_of r, s')

  pub written_of : Try Done → Bool
  written_of (ok done) = true
  written_of (throw e) = false

  unfoldable pub cache_set : String → Verdict → Ask S Bool
  unfolding is_cacheable written_of
  cache_set key v s = elim (is_cacheable v) [
    | false ↦ (false, s)
    | true ↦ let (r, s') = driver.set key v s in (written_of r, s')
  ]

-- The driver that misses always, and drops what is written.
unfoldable pub null_cache_driver : {S : Type 0} → CacheDriver S
null_cache_driver = record { get = λ key s. (ok none, s); set = λ key v s. (ok tt, s) }

-- The driver in memory: its map as a list, the oldest entry first. MAX_ENTRIES
abbrev pub max_entries : ℕ
max_entries = 50000

abbrev pub Entries : Type 0
Entries = List (String × Verdict)

pub cached_entry : String → Entries → Option Verdict
cached_entry key [] = none
cached_entry key ((k, v) ∷ entries) =
    let rest = cached_entry key entries in if k == key then some v else rest

pub delete_entry : String → Entries → Entries
delete_entry key [] = []
delete_entry key ((k, v) ∷ entries) =
    let rest = delete_entry key entries in if k == key then rest else (k, v) ∷ rest

-- The loop that deletes the oldest entries, as many as are too many.
pub drop_oldest : ℕ → Entries → Entries
drop_oldest zero entries = entries
drop_oldest (suc n) [] = []
drop_oldest (suc n) (e ∷ entries) = drop_oldest n entries

pub set_entry : String → Verdict → Entries → Entries
unfolding delete_entry drop_oldest
set_entry key v entries =
    let set = delete_entry key entries ++ ((key, v) ∷ []) in
    drop_oldest (length set - max_entries) set

unfoldable pub memory_cache_driver : CacheDriver Entries
unfolding cached_entry set_entry
memory_cache_driver = record {
  get = λ key entries. (ok (cached_entry key entries), entries);
  set = λ key v entries. (ok tt, set_entry key v entries);
}
