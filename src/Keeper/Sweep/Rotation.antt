-- ===== src/Keeper/Sweep/Rotation.antt =====
-- keeper/keeper.mjs, `planSweep`: a batch is bounded and oldest first, and the sweeps of a
-- rotation leave no id out.
use Prim.Native.Nat.{◌/◌, ◌%◌}
use native.Mathlib.Nat.{div-add-mod', mod-lt}
use perps_litvm.Base.{
  ℕ, zero, suc, ◌+◌, ◌-◌, ◌*◌, ◌≤◌, ◌<◌, ◌≡◌, refl, ap, some, inl, inr, min, leb, if◌then◌else◌,
  length, get_elem?, All, arith, Bool-cases,
}
use perps_litvm.Keeper.Sweep.{advance_cursor, sweep_loop, plan_sweep}

-- The cursor after a number of ids.
pub cursor_at : ℕ → ℕ → ℕ → ℕ
cursor_at next c zero = c
cursor_at next c (suc n) = cursor_at next (advance_cursor next c) n

advance_cursor-lt : (next c : ℕ) → 0 < next → advance_cursor next c < next
unfolding advance_cursor
advance_cursor-lt next c h = ground arith

advance_cursor_up : (next c : ℕ) → c + 1 < next → advance_cursor next c ≡ c + 1
unfolding advance_cursor
advance_cursor_up next c h = ground arith

advance_cursor_wrap : (next c : ℕ) → next ≤ c + 1 → advance_cursor next c ≡ 0
unfolding advance_cursor
advance_cursor_wrap next c h = ground arith

cursor_at-lt : (next c n : ℕ) → c < next → cursor_at next c n < next
unfolding cursor_at
cursor_at-lt next c zero h = h
cursor_at-lt next c (suc n) h =
    cursor_at-lt next (advance_cursor next c) n (advance_cursor-lt next c (omega arith))

add-suc_lem : (m n : ℕ) → suc m + n ≡ suc (m + n)
add-suc_lem m n = omega arith

zero-add_lem : (n : ℕ) → 0 + n ≡ n
zero-add_lem n = omega arith

cursor_at-add : (next c m n : ℕ) → cursor_at next c (m + n) ≡ cursor_at next (cursor_at next c m) n
unfolding cursor_at
cursor_at-add next c zero n = rw zero-add_lem
cursor_at-add next c (suc m) n =
    rw (add-suc_lem m n) (cursor_at-add next (advance_cursor next c) m n)

cursor_at_up : (next c n : ℕ) → c + n < next → cursor_at next c n ≡ c + n
unfolding cursor_at
cursor_at_up next c zero h = omega arith
cursor_at_up next c (suc n) h =
    rw (advance_cursor_up next c (omega arith))
      (omega (arith, cursor_at_up next (c + 1) n (omega arith)))

-- From the last id the sweep goes on at the oldest.
cursor_at_wrap : (next c k : ℕ) → c < next → cursor_at next c (next - c + k) ≡ cursor_at next 0 k
cursor_at_wrap next c k h =
    let e : next - c + k ≡ (next - c - 1) + suc k = omega arith in
    rw
      (
        e,
        cursor_at-add next c (next - c - 1) (suc k),
        cursor_at_up next c (next - c - 1) (omega arith),
      )
      (last (c + (next - c - 1)) (omega arith))
  where
    last : (d : ℕ) → suc d ≡ next → cursor_at next d (suc k) ≡ cursor_at next 0 k
    last d e = unfold cursor_at in rw (advance_cursor_wrap next d (omega arith))

-- Every id is some number of places ahead of the cursor.
places_ahead :
    (next c id : ℕ) → c < next → id < next → (d : ℕ) × (d < next) × (cursor_at next c d ≡ id)
places_ahead next c id h k = elim (Bool-cases (leb c id)) [
  | inl up ↦ (id - c, ground arith, ground (arith, cursor_at_up next c (id - c)))
  | inr down ↦ (
    next - c + id,
    ground arith,
    ground (arith, cursor_at_wrap next c id h, cursor_at_up next 0 id),
  )
]

get_elem?-sweep_loop :
    (next c count i : ℕ)
    → i < count
    → get_elem? (sweep_loop next c count).ids i ≡ some (cursor_at next c i)
unfolding sweep_loop cursor_at
get_elem?-sweep_loop next c zero i h = absurd (omega arith)
get_elem?-sweep_loop next c (suc count) zero h = refl
get_elem?-sweep_loop next c (suc count) (suc i) h =
    get_elem?-sweep_loop next (advance_cursor next c) count i (omega arith)

next_cursor-sweep_loop :
    (next c count : ℕ) → (sweep_loop next c count).next_cursor ≡ cursor_at next c count
unfolding sweep_loop cursor_at
next_cursor-sweep_loop next c zero = refl
next_cursor-sweep_loop next c (suc count) =
    next_cursor-sweep_loop next (advance_cursor next c) count

length-sweep_loop : (next c count : ℕ) → length (sweep_loop next c count).ids ≡ count
unfolding sweep_loop
length-sweep_loop next c zero = refl
length-sweep_loop next c (suc count) = ap suc (length-sweep_loop next (advance_cursor next c) count)

sweep_loop-lt : (next c count : ℕ) → c < next → All (λ id. id < next) (sweep_loop next c count).ids
unfolding sweep_loop
sweep_loop-lt next c zero h = tt
sweep_loop-lt next c (suc count) h =
    (h, sweep_loop-lt next (advance_cursor next c) count (advance_cursor-lt next c (omega arith)))

start : ℕ → ℕ → ℕ
start cursor next = if leb next cursor then 0 else cursor

plan_sweep_loop :
    (cursor next batch : ℕ)
    → 0 < next
    → plan_sweep cursor next batch ≡ sweep_loop next (start cursor next) (min batch next)
unfolding plan_sweep start
plan_sweep_loop cursor next batch h = ground arith

start-lt : (cursor next : ℕ) → 0 < next → start cursor next < next
unfolding start
start-lt cursor next h = ground arith

-- Whatever cursor a sweep starts from, with a counter above 0 it takes exactly the smaller of the
-- batch size and the counter many ids, each of them an id that the counter has handed out, and
-- the cursor that it leaves is one too.
pub plan_sweep_bounds :
    (cursor next batch : ℕ)
    → 0 < next
    → (length (plan_sweep cursor next batch).ids ≡ min batch next)
      × All (λ id. id < next) (plan_sweep cursor next batch).ids
      × ((plan_sweep cursor next batch).next_cursor < next)
plan_sweep_bounds cursor next batch h = rw (plan_sweep_loop cursor next batch h) (
  length-sweep_loop next (start cursor next) (min batch next),
  sweep_loop-lt next (start cursor next) (min batch next) (start-lt cursor next h),
  rw (next_cursor-sweep_loop next (start cursor next) (min batch next))
      (cursor_at-lt next (start cursor next) (min batch next) (start-lt cursor next h)),
)

-- The cursor after a number of sweeps, the counter and the batch size being the same in each.
pub cursor_after : ℕ → ℕ → ℕ → ℕ → ℕ
cursor_after next batch cursor zero = cursor
cursor_after next batch cursor (suc n) =
    cursor_after next batch (plan_sweep cursor next batch).next_cursor n

start_below : (cursor next : ℕ) → cursor < next → start cursor next ≡ cursor
unfolding start
start_below cursor next h = ground arith

cursor_after-cursor_at :
    (next batch cursor n : ℕ)
    → cursor < next
    → cursor_after next batch cursor n ≡ cursor_at next cursor (n * min batch next)
unfolding cursor_after
cursor_after-cursor_at next batch cursor zero h =
    let e : 0 * min batch next ≡ 0 = omega arith in rw e (unfold cursor_at in refl)
cursor_after-cursor_at next batch cursor (suc n) h =
    let e : suc n * min batch next ≡ min batch next + n * min batch next = grind arith in
    rw (
      plan_sweep_loop cursor next batch (omega arith),
      start_below cursor next h,
      next_cursor-sweep_loop next cursor (min batch next),
      cursor_after-cursor_at next batch (cursor_at next cursor (min batch next)) n
          (cursor_at-lt next cursor (min batch next) h),
      e,
      cursor_at-add next cursor (min batch next) (n * min batch next),
    )

-- With a positive batch size and a counter that stays, each id below the counter is in the batch
-- of some later sweep, and fewer ids than the counter are examined before it: no request is
-- passed over for ever.
pub plan_sweep_reaches :
    (next batch cursor id : ℕ)
    → 0 < batch
    → cursor < next
    → id < next
    → (n : ℕ) × (i : ℕ) × (n * min batch next + i < next)
      × (get_elem? (plan_sweep (cursor_after next batch cursor n) next batch).ids i ≡ some id)
plan_sweep_reaches next batch cursor id hb hc hi =
    let (d, below, here) = places_ahead next cursor id hc hi in
    let count = min batch next in
    let whole : d / count * count + d % count ≡ d = div-add-mod' d count in
    let rest : d % count < count = mod-lt d (omega arith) in
    (
      d / count,
      d % count,
      omega arith,
      rw (
        cursor_after-cursor_at next batch cursor (d / count) hc,
        plan_sweep_loop (cursor_at next cursor (d / count * count)) next batch (omega arith),
        start_below (cursor_at next cursor (d / count * count)) next
            (cursor_at-lt next cursor (d / count * count) hc),
        get_elem?-sweep_loop next (cursor_at next cursor (d / count * count)) count (d % count)
            rest,
        ← cursor_at-add next cursor (d / count * count) (d % count),
        whole,
        here,
      ),
    )
