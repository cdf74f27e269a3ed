-- ===== src/Indexer/Examples/Database.antt =====
-- quest-indexer/: the theorems on the forward index and the backfill's plan at a small database.
use text.Mathlib.Text.{◌==◌ as str_eq}
use text.Mathlib.TextEquality.{eq_iff}
use perps_litvm.Base.{
  ℕ, ◌≡◌, ◌≢◌, ◌⊎◌, inl, inr, refl, String, Option, none, some, List, [], ◌∷◌, ◌++◌, if◌then◌else◌,
  Try, ok, throw, Ask, Call, arith, All, All-map, Bool-cases,
}
use perps_litvm.Indexer.Sources.{
  Source, Log, AllWalletsFilter, SourceTable, DailyRow, CompletionRow,
}
use perps_litvm.Indexer.Range.{BlockRange}
use perps_litvm.Indexer.Run.{Writer, Settings, index_range}
use perps_litvm.Indexer.Run.Order.{View, WriterLaws, IsRecorded, index_range-Safe}
use perps_litvm.Indexer.Backfill.{BackfillRow, PlanItem, plan_item}
use perps_litvm.Indexer.Backfill.Plan.{FitsCoverage, plan_item-FitsCoverage}

-- A database of one source.
record Db : Type 0 where
  daily : List DailyRow
  completions : List CompletionRow
  mark : Option ℕ

abbrev HasDay : List DailyRow → String → String → Type 0
HasDay [] w d = ⊥
HasDay (r ∷ rs) w d = ((r.wallet ≡ w) × (r.day ≡ d)) ⊎ HasDay rs w d

abbrev HasQuest : List CompletionRow → String → String → Type 0
HasQuest [] w q = ⊥
HasQuest (r ∷ rs) w q = ((r.wallet ≡ w) × (r.quest ≡ q)) ⊎ HasQuest rs w q

HasDay-append :
    (rows old : List DailyRow) (w d : String) → HasDay old w d → HasDay (rows ++ old) w d
HasDay-append [] old w d h = h
HasDay-append (r ∷ rows) old w d h = inr (HasDay-append rows old w d h)

HasDay-self : (rows old : List DailyRow) → All (λ r. HasDay (rows ++ old) r.wallet r.day) rows
HasDay-self [] old = tt
HasDay-self (r ∷ rows) old = (inl (refl, refl), All-map rows (λ x h. inr h) (HasDay-self rows old))

HasQuest-append :
    (rows old : List CompletionRow) (w q : String) → HasQuest old w q → HasQuest (rows ++ old) w q
HasQuest-append [] old w q h = h
HasQuest-append (r ∷ rows) old w q h = inr (HasQuest-append rows old w q h)

HasQuest-self :
    (rows old : List CompletionRow) → All (λ r. HasQuest (rows ++ old) r.wallet r.quest) rows
HasQuest-self [] old = tt
HasQuest-self (r ∷ rows) old =
    (inl (refl, refl), All-map rows (λ x h. inr h) (HasQuest-self rows old))

-- The database keeps the watermark of the source at the address "a".
abbrev mark_of : Db → String → Option ℕ
mark_of s a = if str_eq a "a" then s.mark else none

abbrev db_view : View Db
db_view = record {
  HasDaily = λ s. HasDay s.daily;
  HasCompletion = λ s. HasQuest s.completions;
  watermark = mark_of;
}

abbrev db_writer : Writer Db
db_writer = record {
  load_state = λ keys s. (ok [], s);
  write_daily = λ rows s. (ok tt, record s { daily = rows ++ s.daily });
  write_completions = λ rows s. (ok tt, record s { completions = rows ++ s.completions });
  claim_completion_from = λ a b s. (ok tt, s);
  advance = λ a b s. (ok tt, if str_eq a "a" then record s { mark = some b } else s);
}

advance_keeps_daily :
    (a : String) (b : ℕ) (s : Db) (w d : String)
    → HasDay s.daily w d
    → HasDay (db_writer.advance a b s).1.daily w d
advance_keeps_daily a b s w d h = elim (Bool-cases (str_eq a "a")) [
  | inl e ↦ rw e h
  | inr e ↦ rw e h
]

advance_keeps_quests :
    (a : String) (b : ℕ) (s : Db) (w q : String)
    → HasQuest s.completions w q
    → HasQuest (db_writer.advance a b s).1.completions w q
advance_keeps_quests a b s w q h = elim (Bool-cases (str_eq a "a")) [
  | inl e ↦ rw e h
  | inr e ↦ rw e h
]

advance_mark :
    (a : String) (b : ℕ) (s : Db)
    → (mark_of (db_writer.advance a b s).1 a ≡ mark_of s a)
      ⊎ (mark_of (db_writer.advance a b s).1 a ≡ some b)
advance_mark a b s = elim (Bool-cases (str_eq a "a")) [ inl e ↦ inr (rw e) | inr e ↦ inl (rw e) ]

advance_other_mark :
    (a b : String) (n : ℕ) (s : Db) → a ≢ b → mark_of (db_writer.advance a n s).1 b ≡ mark_of s b
advance_other_mark a b n s h = ground (arith, eq_iff a "a", eq_iff b "a")

db_laws : WriterLaws db_view db_writer
db_laws = record {
  daily_written = λ rows s e. HasDay-self rows s.daily;
  completions_written = λ rows s e. HasQuest-self rows s.completions;
  daily_steady = λ rows s a. refl;
  completions_steady = λ rows s a. refl;
  claim_steady = λ a b s c. refl;
  completions_keep =
      λ rows. ((λ s w d h. h), (λ s w q h. HasQuest-append rows s.completions w q h));
  claim_keeps = λ a b. ((λ s w d h. h), (λ s w q h. h));
  advance_keeps = λ a b.
      ((λ s w d h. advance_keeps_daily a b s w d h), (λ s w q h. advance_keeps_quests a b s w q h));
  advance_self = advance_mark;
  advance_other = advance_other_mark;
}

abbrev trades : Source
trades = record {
  key = "positionManager";
  label = "PositionManager";
  address_var = "QUEST_POSITION_MANAGER_ADDRESS";
  deploy_block_var = "QUEST_POSITION_MANAGER_DEPLOY_BLOCK";
  event = "event PositionOpened";
  event_name = "PositionOpened";
  wallet_topic = 1;
}

-- The wallet of a log is its first topic.
abbrev first_topic : List String → Try String
first_topic [] = throw "no usable topic"
first_topic (t ∷ ts) = ok t

abbrev small_table : SourceTable
small_table = record {
  source_address = λ s. ok "a";
  source_floor = λ s. ok 10;
  wallet_from_log = λ s l. first_topic l.topics;
  quests_by_source = λ key. "first_trade" ∷ [];
}

abbrev trade_log : Log
trade_log = record { block_number = 85; topics = "0xw" ∷ [] }

abbrev one_trade : AllWalletsFilter → Call Db (List Log)
one_trade f s = (ok (trade_log ∷ []), s)

abbrev one_day : List Log → BlockRange → Call Db (List (ℕ × String))
one_day logs r s = (ok ((85, "2026-07-27") ∷ []), s)

abbrev no_time : Ask Db ℕ
no_time s = (0, s)

abbrev small_settings : Settings
small_settings = record {
  chain_id = 4441;
  head = 500;
  deadline = 55000;
  conf = 20;
  max_range = 100;
}

abbrev behind : Db
behind = record { daily = []; completions = []; mark = some 100 }

abbrev next_range : BlockRange
next_range = record { from = 81; to = 180 }

abbrev final_db : Db
final_db =
    (index_range db_writer small_table one_trade one_day no_time small_settings trades "a" none
      next_range behind).1

-- The watermark goes from 100 to 180, over the trade in block 85.
index_range-Safe_example :
    (mark_of final_db "a" ≡ some 100)
    ⊎ ((mark_of final_db "a" ≡ some 180)
        × (logs : List Log) × ((ok (trade_log ∷ [])) ≡ ok logs)
        × (days : List (ℕ × String)) × (ok ((85, "2026-07-27") ∷ []) ≡ ok days)
        × All
            (IsRecorded db_view db_writer db_laws small_table one_trade one_day
              (λ f s a. refl)
              (λ l r s a. refl)
              no_time
              small_settings
              trades
              days
              final_db)
            logs)
unfolding str_eq
index_range-Safe_example =
    index_range-Safe db_view db_writer db_laws small_table one_trade one_day (λ f s a. refl)
      (λ l r s a. refl) no_time small_settings trades "a" none next_range behind

abbrev half_done : BackfillRow
half_done = record { floor_block = 10; covered_from = 400; covered_to = 200 }

plan_item-FitsCoverage_example :
    FitsCoverage 10 500 (some half_done) (plan_item trades "a" 10 500 (some half_done))
plan_item-FitsCoverage_example = plan_item-FitsCoverage trades "a" 10 500 (some half_done)

abbrev address_table : SourceTable
address_table = record small_table { source_address = λ s. ok s.address_var }

-- A source of which nothing is covered, and one that is half done, which then comes first.
abbrev factory : Source
factory = record trades { address_var = "b" }

abbrev half_covered : List (String × BackfillRow)
half_covered = ("b", half_done) ∷ []

abbrev next_plan : List PlanItem
next_plan =
    plan_item factory "b" 10 500 (some half_done)
    ∷ plan_item trades "QUEST_POSITION_MANAGER_ADDRESS" 10 500 none
    ∷ []
