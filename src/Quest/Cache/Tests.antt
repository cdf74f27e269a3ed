-- ===== src/Quest/Cache/Tests.antt =====
-- frontend/api/_lib/quest/cache.js: the driver in memory on a small store.
use text.Mathlib.Text.{◌==◌}
use perps_litvm.Base.{ℕ, ◌≡◌, refl, String, true, ◌||◌, none, some, [], ◌∷◌, ok, Gives, arith}
use perps_litvm.Quest.Quests.{Verdict, confirmed, tier1}
use perps_litvm.Quest.Cache.{Entries, memory_cache_driver}
use perps_litvm.Quest.Cache.Memory.{IsSoundStore, memory_cache_driver-Keeps}

abbrev done_at : ℕ → Verdict
done_at block = record {
  completed = true;
  status = confirmed;
  source = some tier1;
  checked_through = some block;
  reason = none;
  coverage = [];
  joins = [];
}

abbrev two_entries : Entries
two_entries = ("a", done_at 3) ∷ ("b", done_at 4) ∷ []

-- A key that is set again moves to the end.
moved :
    (memory_cache_driver.set "a" (done_at 5) two_entries).1
    ≡ ("b", done_at 4) ∷ ("a", done_at 5) ∷ []
unfolding memory_cache_driver
moved = refl

abbrev IsShort : String → Type 0
IsShort key = (key == "a" || key == "b") ≡ true

memory_cache_driver-Keeps_example :
    Gives
      (λ hit. (w : Verdict) → hit ≡ some w → (w.completed ≡ true) × IsShort "a")
      (IsSoundStore IsShort)
      (memory_cache_driver.get "a" two_entries)
    × IsSoundStore IsShort (memory_cache_driver.set "a" (done_at 5) two_entries).1
    × ((memory_cache_driver.get "a" (memory_cache_driver.set "a" (done_at 5) two_entries).1).0
        ≡ ok (some (done_at 5)))
memory_cache_driver-Keeps_example =
    memory_cache_driver-Keeps IsShort "a" (done_at 5) two_entries
      (((refl, refl), ((refl, refl), tt)), omega arith) refl refl
