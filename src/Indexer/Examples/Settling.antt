-- ===== src/Indexer/Examples/Settling.antt =====
-- quest-indexer/lib/settler.mjs: the settler on a small chain and database.
use perps_litvm.Base.{
  ℕ, suc, ◌≤◌, ◌<◌, ◌≡◌, ◌≢◌, ◌⊎◌, inl, inr, refl, subst, ok-injective, String, Bool, true, false,
  ◌&&◌, List, [], ◌∷◌, leb, min, if◌then◌else◌, ok, Ask, Call, arith, All, Bool-cases,
}
use perps_litvm.Indexer.Sources.{Source, Log, SourceTable}
use perps_litvm.Indexer.SettlerPlan.{CursorRow, Group, plan_work}
use perps_litvm.Indexer.SettlerPlan.Pending.{IsWork, plan_work-IsWork}
use perps_litvm.Indexer.Settler.{WalletFilter, Writer, Reason, worked, run_settler}
use perps_litvm.Indexer.Settler.Laws.{View, Keeps, Laws}
use perps_litvm.Indexer.Settler.Truth.{run_settler-Keeps}

-- One cursor, down to `cursor_to`, and whether the quest is completed.
record World : Type 0 where
  time : ℕ
  cursor_to : ℕ
  completed : Bool

abbrev pool : Source
pool = record {
  key = "liquidityPool";
  label = "pool";
  address_var = "POOL";
  deploy_block_var = "POOL_DEPLOY_BLOCK";
  event = "Deposit(address,uint256)";
  event_name = "Deposit";
  wallet_topic = 1;
}

abbrev pool_table : SourceTable
pool_table = record {
  source_address = λ s. ok "0xab";
  source_floor = λ s. ok 2;
  wallet_from_log = λ s log. ok "0xcd";
  quests_by_source = λ key. "provide_liquidity" ∷ [];
}

abbrev as_is : String → String
as_is s = s

abbrev row_at : ℕ → CursorRow
row_at b = record {
  wallet = "0xcd";
  quest = "provide_liquidity";
  source_key = "0xab";
  floor_block = 2;
  scanned_from = 100;
  scanned_to = b;
}

abbrev world_clock : Ask World ℕ
world_clock s = (s.time, record s { time = suc s.time })

abbrev log_of_five : WalletFilter → Call World (List Log)
log_of_five f s = (
  ok (
      if leb f.from_block 5 && leb 5 f.to_block
      then record { block_number = 5; topics = [] } ∷ []
      else []),
  s,
)

abbrev world_writer : Writer World
world_writer = record {
  pick_cursor_candidates = λ n s. (ok (row_at s.cursor_to ∷ []), s);
  has_completion = λ wallet quest s. (ok s.completed, s);
  write_completion = λ c s. (ok tt, record s { completed = true });
  extend_cursor_down = λ e s. (ok tt, record s { cursor_to = min e.scanned_to s.cursor_to });
}

-- No log from the cursor up to block 100, and a completion only with a log.
abbrev world_view : View World
world_view = record {
  HasLog = λ source wallet b. b ≡ 5;
  IsTrue = λ s.
      ((b : ℕ) → s.cursor_to ≤ b → b < 100 → b ≢ 5) × ((s.completed ≡ false) ⊎ ((b : ℕ) × (b ≡ 5)));
  Holds = λ s row. s.cursor_to ≤ row.scanned_to;
}

world_view-Laws : Laws world_view world_writer (pool ∷ []) pool_table as_is log_of_five world_clock
world_view-Laws = record {
  clock = λ s. ((λ t. t), λ row h. h);
  reads = λ f s. ((λ t. t), λ row h. h);
  answers = λ source address wallet h lo hi s p. elim (Bool-cases (leb lo 5 && leb 5 hi)) [
    | inl e ↦ rw e (5, ground arith, ground arith, refl)
    | inr e ↦ rw e (λ b p q same. ground arith)
  ];
  picks = λ n s. ((λ t. t), λ row h. h);
  picked = λ n s rows h.
      subst (All (λ row. s.cursor_to ≤ row.scanned_to)) (ok-injective h) (omega arith, tt);
  asks = λ wallet quest s. ((λ t. t), λ row h. h);
  completes = λ c source b s p h. ((λ t. (t.0, inr (b, h))), λ row k. k);
  extends = λ row source e s h a b c d none_there. (
    (λ t. (
      (λ x p q five. elim (Bool-cases (leb s.cursor_to x)) [
        | inl old ↦ t.0 x (ground arith) q five
        | inr new ↦ none_there x (ground arith) (ground arith) five
      ]),
      t.1,
    )),
    λ other k. ground arith,
  );
}

-- From block 31 down the first chunk finds the log, and the completion is written.
run_settler_finds :
    (run_settler world_writer pool_table log_of_five world_clock
      (pool ∷ [])
      as_is
      200
      1000
      (record { time = 0; cursor_to = 31; completed = false })).0
    ≡ ok (worked 1 0 0 Reason.found)
unfolding run_settler plan_work
run_settler_finds = refl

run_settler-Keeps_example :
    Keeps world_view
      (record { time = 0; cursor_to = 31; completed = false })
      (run_settler world_writer pool_table log_of_five world_clock
        (pool ∷ [])
        as_is
        200
        1000
        (record { time = 0; cursor_to = 31; completed = false })).1
run_settler-Keeps_example =
    run_settler-Keeps world_view world_writer (pool ∷ []) pool_table as_is log_of_five world_clock
      world_view-Laws 200 1000 (record { time = 0; cursor_to = 31; completed = false })

abbrev pool_work : List Group
pool_work =
    record {
      wallet = "0xcd";
      quest = "provide_liquidity";
      sources = (row_at 31, pool) ∷ [];
      remaining = 29;
    }
    ∷ []

plan_work-IsWork_example :
    All (IsWork (pool ∷ []) pool_table as_is (λ row. row.scanned_to ≤ 100)) pool_work
unfolding plan_work
plan_work-IsWork_example =
    plan_work-IsWork (pool ∷ []) pool_table as_is (λ row. row.scanned_to ≤ 100) (row_at 31 ∷ [])
      pool_work (omega arith, tt) refl
