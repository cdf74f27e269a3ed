-- ===== src/Quest/Setup.antt =====
-- frontend/api/quest/verify.js: what the environment sets up: the limits, the drivers and the proof.
-- A driver that needs settings is there if these are; `supabase` is what it makes of them. The
-- drivers are made once and kept; their state is in the world.
mod Tests
use text.Mathlib.Text.{◌==◌}
use perps_litvm.Base.{
  ℕ, String, Bool, true, false, Option, none, some, ltb, if◌then◌else◌, List, Try, throw, Ask, Call,
  answer,
}
use perps_litvm.Quest.Sources.{Source}
use perps_litvm.Quest.Freshness.{positive_int}
use perps_litvm.Quest.IndexProof.{Answer}
use perps_litvm.Quest.Cache.{CacheDriver, null_cache_driver}
use perps_litvm.Quest.Cursor.{Driver}
use perps_litvm.Quest.Quests.{Quest}
use perps_litvm.Quest.Verify.{Services}

-- A text that counts as missing where it is empty.
pub non_empty : Option String → Option String
non_empty none = none
non_empty (some t) = if t == "" then none else some t

-- `(first || second || "memory").trim()`
pub mode_of : (String → String) → Option String → Option String → String
unfolding non_empty
mode_of trim first second = elim (non_empty first) [
  | some t ↦ trim t
  | none ↦ elim (non_empty second) [ some t ↦ trim t | none ↦ trim "memory" ]
]

-- `selectDriver` and `selectCursorDriver`: the null driver, the durable one if it is set up, or the one in memory.
unfoldable pub select_driver : {D : Type 0} → D → D → Option D → String → D
select_driver null_driver memory_driver supabase mode =
    if mode == "none"
    then null_driver
    else (if mode == "supabase"
        then elim supabase [ none ↦ memory_driver | some driver ↦ driver ]
        else memory_driver)

-- `buildIndexProof`: only with both durable drivers.
unfoldable pub build_index_proof :
    {B D P : Type 0} → (B → D → P) → Option B → Option D → String → Option P
build_index_proof create backfill state mode =
    if mode == "supabase"
    then elim backfill [
      | none ↦ none
      | some b ↦ elim state [ none ↦ none | some d ↦ some (create b d) ]
    ]
    else none

module _ (trim : String → String) (parse_int : String → Option ℕ)
    (env : String → Option String) where
  pub setting : String → Option ℕ
  setting name = elim (env name) [ none ↦ parse_int "" | some raw ↦ parse_int raw ]

  -- `limits`, a minute's and an hour's.
  unfoldable pub limits : ℕ × ℕ
  unfolding setting positive_int
  limits = (positive_int (setting "QUEST_RPM") 10, positive_int (setting "QUEST_RPH") 100)

  pub cache_mode : String
  unfolding mode_of
  cache_mode = mode_of trim (env "QUEST_CACHE") none

  pub cursor_mode : String
  unfolding mode_of
  cursor_mode = mode_of trim (env "QUEST_CURSOR") (env "QUEST_CACHE")

  pub proof_mode : String
  unfolding mode_of
  proof_mode = mode_of trim (env "QUEST_INDEX_PROOF") (env "QUEST_CACHE")

  module _ {S : Type 0} (memory_driver : CacheDriver S) (supabase : Option (CacheDriver S)) where
    -- `getCache`
    unfoldable pub get_cache : CacheDriver S
    unfolding select_driver cache_mode
    get_cache = select_driver null_cache_driver memory_driver supabase cache_mode

  -- `getCursors`
  unfoldable pub get_cursors : {S : Type 0} → Driver S → Driver S → Option (Driver S) → Driver S
  unfolding select_driver cursor_mode
  get_cursors null_driver memory_driver supabase =
      select_driver null_driver memory_driver supabase cursor_mode

  -- `getIndexProof`
  unfoldable pub get_index_proof : {B D P : Type 0} → (B → D → P) → Option B → Option D → Option P
  unfolding build_index_proof proof_mode
  get_index_proof create backfill state = build_index_proof create backfill state proof_mode
