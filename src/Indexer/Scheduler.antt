-- ===== src/Indexer/Scheduler.antt =====
-- quest-indexer/lib/scheduler.mjs: `runScheduler`, which shares one process between the forward
-- index (`tick`) and the backward jobs (`fill`). What they do to the world, its clock and
-- `shouldStop` are parameters. The default `fill` is none, as in the source.
pub mod Priority
use perps_litvm.Base.{
  ℕ, zero, suc, ◌+◌, ◌-◌, ◌≡◌, Bool, true, false, not, ◌&&◌, Option, none, some, leb, if◌then◌else◌,
  Error, Try, ok, throw, Ask, Call, Done,
}
use perps_litvm.Base.{◌==◌}

-- DEFAULT_INTERVAL_MS and TICK_MARGIN_MS
abbrev pub default_interval_ms : ℕ
default_interval_ms = 60000

abbrev pub tick_margin_ms : ℕ
tick_margin_ms = 5000

-- What the scheduler reads of a tick's result; `caught_up` is none where the result has no such
-- field.
pub record TickResult : Type 0 where
  pub failed : ℕ
  pub caught_up : Option Bool

-- `result.caughtUp !== false`
pub not_false : Option Bool → Bool
not_false none = true
not_false (some b) = b

-- `!result || (result.failed === 0 && result.caughtUp !== false)`; a tick that throws is unhealthy.
unfoldable pub is_healthy : Try (Option TickResult) → Bool
unfolding not_false
is_healthy (throw e) = false
is_healthy (ok none) = true
is_healthy (ok (some r)) = r.failed == 0 && not_false r.caught_up

-- How the interval's rest is spent, if any is left. The rest is interval - elapsed - margin.
pub data Rest : Type 0 where
  none_left : Rest
  filled slept : ℕ → Rest

-- One round: what it did with the rest of its interval, and whether the loop goes on.
pub data Round : Type 0 where
  stopped_after_tick : Round
  spent : Rest → Round
  -- `fill` threw, which ends the scheduler.
  crashed : Error → Round

pub record Schedule : Type 0 where
  pub ticks : ℕ
  pub crash : Option Error

module _ {S : Type 0} (now : Ask S ℕ) (tick : ℕ → Call S (Option TickResult))
    (fill : Option (ℕ → Bool → Call S Done)) (sleep : ℕ → Ask S Done) (should_stop : Ask S Bool)
    (interval_ms margin_ms : ℕ) where
  -- `intervalMs - (now() - started) - marginMs`, and what is done with it.
  pub rest_of : ℕ → ℕ → Bool → Rest
  rest_of started t healthy =
      let remaining = interval_ms + started - (t + margin_ms) in
      if leb (interval_ms + started) (t + margin_ms) then none_left else (elim fill [
        | none ↦ slept remaining
        | some _ ↦ if healthy then filled remaining else slept remaining
      ])

  fill_for : ℕ → Bool → Call S Done
  fill_for budget healthy s = elim fill [ none ↦ (ok tt, s) | some f ↦ f budget healthy s ]

  pub spend : Rest → Bool → S → Round × S
  unfolding fill_for
  spend none_left healthy s = (spent none_left, s)
  spend (slept ms) healthy s = let (_, s') = sleep ms s in (spent (slept ms), s')
  spend (filled ms) healthy s =
      let (r, s') = fill_for ms healthy s in
      (elim r [ ok _ ↦ spent (filled ms) | throw e ↦ crashed e ], s')

  unfoldable pub round : S → Round × S
  unfolding is_healthy rest_of spend
  round s =
      let (started, s₁) = now s in
      let (result, s₂) = tick (started + (interval_ms - margin_ms)) s₁ in
      let (stop, s₃) = should_stop s₂ in
      if stop
      then (stopped_after_tick, s₃)
      else (let (t, s₄) = now s₃ in
          spend (rest_of started t (is_healthy result)) (is_healthy result) s₄)

  -- The loop, for a number of rounds at most: the source's runs until `shouldStop`.
  pub run_rounds : ℕ → ℕ → S → Schedule × S
  unfolding round
  run_rounds zero ticks s = (record { ticks = ticks; crash = none }, s)
  run_rounds (suc rounds) ticks s =
      let (stop, s₁) = should_stop s in
      let (r, s₂) = round s₁ in
      elim stop [
        | true ↦ (record { ticks = ticks; crash = none }, s₁)
        | false ↦ elim r [
          | stopped_after_tick ↦ (record { ticks = ticks + 1; crash = none }, s₂)
          | spent _ ↦ run_rounds rounds (ticks + 1) s₂
          | crashed e ↦ (record { ticks = ticks + 1; crash = some e }, s₂)
        ]
      ]
