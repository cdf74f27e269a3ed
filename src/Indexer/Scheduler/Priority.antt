-- ===== src/Indexer/Scheduler/Priority.antt =====
-- quest-indexer/lib/scheduler.mjs, `runScheduler`: the forward index comes first.
use perps_litvm.Base.{
  ℕ, ◌+◌, ◌-◌, ◌<◌, ◌≡◌, ◌≢◌, inl, inr, refl, Bool, true, false, Option, none, some, Try, ok, throw,
  Ask, Call, Done, arith, Bool-cases,
}
use perps_litvm.Indexer.Scheduler.{
  TickResult, is_healthy, Rest, none_left, filled, slept, Round, spent, crashed, rest_of, spend,
  round,
}

-- How a round ends after a fill of `ms`: what it threw ends the scheduler.
abbrev pub fill_end : ℕ → Try Done → Round
fill_end ms (ok _) = spent (filled ms)
fill_end ms (throw e) = crashed e

module _ {S : Type 0} (now : Ask S ℕ) (tick : ℕ → Call S (Option TickResult))
    (sleep : ℕ → Ask S Done) (should_stop : Ask S Bool) (interval_ms margin_ms : ℕ) where
  -- The result of the tick that a round runs.
  abbrev pub ticked : S → Try (Option TickResult)
  ticked s = (tick ((now s).0 + (interval_ms - margin_ms)) (now s).1).0

  rest_of_unhealthy :
      (f : ℕ → Bool → Call S Done) (started t : ℕ)
      → rest_of now tick (some f) sleep should_stop interval_ms margin_ms started t false
        ≡ rest_of now tick none sleep should_stop interval_ms margin_ms started t false
  unfolding rest_of
  rest_of_unhealthy f started t = ground arith

  rest_of-none-ne-filled :
      (started t ms : ℕ) (b : Bool)
      → rest_of now tick none sleep should_stop interval_ms margin_ms started t b ≢ filled ms
  unfolding rest_of
  rest_of-none-ne-filled started t ms b h = ground arith

  spend_without_fill :
      (f : ℕ → Bool → Call S Done) (r : Rest) (b : Bool) (s : S)
      → ((ms : ℕ) → r ≢ filled ms)
      → spend now tick (some f) sleep should_stop interval_ms margin_ms r b s
        ≡ spend now tick none sleep should_stop interval_ms margin_ms r b s
  unfolding spend
  spend_without_fill f none_left b s h = refl
  spend_without_fill f (slept ms) b s h = refl
  spend_without_fill f (filled ms) b s h = absurd (h ms refl)

  -- After a tick that throws, that counts a failure, or that has not caught up, the round does not
  -- touch the fill: it does to the world just what the round of a scheduler with no fill does.
  pub round_unhealthy :
      (f : ℕ → Bool → Call S Done) (s : S)
      → is_healthy (ticked s) ≡ false
      → round now tick (some f) sleep should_stop interval_ms margin_ms s
        ≡ round now tick none sleep should_stop interval_ms margin_ms s
  unfolding round
  round_unhealthy f s sick =
      let result = tick ((now s).0 + (interval_ms - margin_ms)) (now s).1 in
      let stop = should_stop result.1 in
      let t = now stop.1 in
      elim (Bool-cases stop.0) [
        | inl e ↦ rw e
        | inr e ↦
            rw (e, sick, rest_of_unhealthy f (now s).0 t.0)
              (spend_without_fill f
                (rest_of now tick none sleep should_stop interval_ms margin_ms (now s).0 t.0 false)
                false t.1 (λ ms. rest_of-none-ne-filled (now s).0 t.0 ms false))
      ]

  rest_of_healthy :
      (f : ℕ → Bool → Call S Done) (started t : ℕ)
      → t + margin_ms < started + interval_ms
      → (ms : ℕ) × (0 < ms)
        × (t + ms + margin_ms ≡ started + interval_ms)
        × (rest_of now tick (some f) sleep should_stop interval_ms margin_ms started t true
            ≡ filled ms)
  unfolding rest_of
  rest_of_healthy f started t h = (
    interval_ms + started - (t + margin_ms),
    omega (arith, h),
    omega (arith, h),
    ground (arith, h),
  )

  spend_fills :
      (f : ℕ → Bool → Call S Done) (ms : ℕ) (s : S)
      → spend now tick (some f) sleep should_stop interval_ms margin_ms (filled ms) true s
        ≡ (fill_end ms (f ms true s).0, (f ms true s).1)
  unfolding spend
  spend_fills f ms s = go (f ms true s).0 (f ms true s).1
    where
      go :
          (r : Try Done) (s' : S)
          → ◌≡◌ {A = Round × S}
              (elim r [ ok _ ↦ spent (filled ms) | throw e ↦ crashed e ], s')
              (fill_end ms r, s')
      go (ok _) s' = refl
      go (throw e) s' = refl

  -- After a healthy tick, if the scheduler is not to stop and the interval has more than the margin
  -- left, the round runs the fill once, with a positive budget which ends exactly the margin before
  -- the interval does, on the clock as it was read after the tick; what the fill does to the world is
  -- all that happens after that, and a fill that throws ends the round with its error.
  pub round_fills :
      (f : ℕ → Bool → Call S Done) (s : S)
      → let started = now s in
        let result = tick (started.0 + (interval_ms - margin_ms)) started.1 in
        let stop = should_stop result.1 in
        let t = now stop.1 in
        is_healthy result.0 ≡ true
        → stop.0 ≡ false
        → t.0 + margin_ms < started.0 + interval_ms
        → (ms : ℕ) × (0 < ms)
          × (t.0 + ms + margin_ms ≡ started.0 + interval_ms)
          × (round now tick (some f) sleep should_stop interval_ms margin_ms s
              ≡ (fill_end ms (f ms true t.1).0, (f ms true t.1).1))
  unfolding round
  round_fills f s well going left =
      let started = now s in
      let result = tick (started.0 + (interval_ms - margin_ms)) started.1 in
      let t = now (should_stop result.1).1 in
      let (ms, positive, ends, rest) = rest_of_healthy f started.0 t.0 left in
      (ms, positive, ends, rw (going, well, rest) (spend_fills f ms t.1))
