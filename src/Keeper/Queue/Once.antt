-- ===== src/Keeper/Queue/Once.antt =====
-- keeper/keeper.mjs: no id is submitted twice at a time.
use perps_litvm.Base.{
  ℕ, ◌+◌, ◌≡◌, ◌≢◌, inl, inr, refl, subst, true, false, ◌||◌, List, [], ◌∷◌, ◌++◌, if◌then◌else◌,
  arith, Bool-cases,
}
use perps_litvm.Base.{◌==◌}
use perps_litvm.Keeper.WorkingSet.{has, add, remove}
use perps_litvm.Keeper.WorkingSet.Flight.{has-remove}
use perps_litvm.Keeper.Queue.{
  Running, nothing, ending, flying, Queue, empty_queue, enqueue, Step, executes, starts, releases,
  settles, Reachable, at_start, then_step,
}

-- How often an id is in a list, and whether it is the one that flies.
pub times : ℕ → List ℕ → ℕ
times key [] = 0
times key (k ∷ ks) = (if k == key then 1 else 0) + times key ks

pub flies : ℕ → Running → ℕ
flies key nothing = 0
flies key ending = 0
flies key (flying k) = if k == key then 1 else 0

-- The submissions of an id, flying or waiting, are one if it is marked and none if not.
abbrev pub IsOnce : Queue → Type 0
IsOnce q =
    (key : ℕ) → flies key q.running + times key q.waiting ≡ (if has key q.in_flight then 1 else 0)

times-append :
    (key k : ℕ) (ks : List ℕ) → times key (ks ++ k ∷ []) ≡ times key ks + times key (k ∷ [])
unfolding times
times-append key k [] = omega arith
times-append key k (x ∷ ks) = omega (arith, times-append key k ks)

has-append : (key k : ℕ) (ks : List ℕ) → has key (ks ++ k ∷ []) ≡ (has key ks || k == key)
unfolding has
has-append key k [] = ground arith
has-append key k (x ∷ ks) = ground (arith, has-append key k ks)

added-once :
    (n key other : ℕ) (waits flights : List ℕ)
    → has key flights ≡ false
    → n + times other waits ≡ (if has other flights then 1 else 0)
    → n + times other (waits ++ key ∷ []) ≡ (if has other (flights ++ key ∷ []) then 1 else 0)
unfolding times
added-once n key other waits flights free once =
    let before : has other flights ≡ true → key ≢ other =
      λ there same. absurd (let e = rw same at free in cc (e, there)) in
    rw (times-append other key waits, has-append other key flights)
      (elim (Bool-cases (has other flights)) [
        | inl there ↦
            let apart = before there in
            rw there (let e = rw there at once in ground (arith, apart, e))
        | inr missing ↦ rw missing (let e = rw missing at once in ground (arith, e))
      ])

removed-once :
    (key other : ℕ) (waits flights : List ℕ)
    → (if key == other then 1 else 0) + times other waits ≡ (if has other flights then 1 else 0)
    → times other waits ≡ (if has other (remove key flights) then 1 else 0)
removed-once key other waits flights once =
    let (gone, others) = has-remove key flights in
    elim (Bool-cases (key == other)) [
      | inl same ↦
          let here : key ≡ other = ground arith in
          let g : has other (remove key flights) ≡ false =
            subst (λ x. has x (remove key flights) ≡ false) here gone in
          let e = rw same at once in rw g (ground (arith, e))
      | inr apart ↦
          let away : other ≢ key = λ e. ground (arith, e) in
          rw (others other away) (let e = rw apart at once in omega (arith, e))
    ]

enqueue-IsOnce : (q : Queue) (key : ℕ) → IsOnce q → IsOnce (enqueue q key)
unfolding enqueue
enqueue-IsOnce q key h other = elim (Bool-cases (has key q.in_flight)) [
  | inl marked ↦ rw (marked, enqueue) (h other)
  | inr unmarked ↦
      let e : add key q.in_flight ≡ q.in_flight ++ key ∷ [] = unfold add in rw unmarked refl in
      rw (unmarked, enqueue, e)
        (added-once (flies other q.running) key other q.waiting q.in_flight unmarked (h other))
]

Step-IsOnce : (q q' : Queue) → Step q q' → IsOnce q → IsOnce q'
unfolding times flies
Step-IsOnce q q' (executes _ key) h other = enqueue-IsOnce q key h other
Step-IsOnce q q' (starts flights rest key) h other = omega (arith, h other)
Step-IsOnce q q' (releases flights rest key) h other =
    omega (arith, removed-once key other rest flights (h other))
Step-IsOnce q q' (settles flights rest) h other = h other

-- In every reachable state an id is submitted at most once, by the task that runs or by one that
-- waits, and exactly then it is among the ids in flight.
pub Reachable-IsOnce : (q : Queue) → Reachable q → IsOnce q
unfolding empty_queue times flies has
Reachable-IsOnce q at_start = λ key. refl
Reachable-IsOnce q (then_step p _ r s) = Step-IsOnce p q s (Reachable-IsOnce p r)
