-- ===== src/Keeper/Rpc/Tries.antt =====
-- keeper/keeper.mjs, `withRetry`: which calls it makes, and what it returns.
use perps_litvm.Base.{
  ℕ, zero, suc, ◌+◌, ◌-◌, ◌*◌, ◌^◌, ◌≤◌, ◌<◌, ◌≡◌, ◌⊎◌, inl, inr, refl, sym, ap, subst, ◌∙◌, true,
  false, leb, min, arith, Bool-cases,
}
use native.Mathlib.Nat.{mul_assoc, pow-suc, add-zero, zero-add}
use perps_litvm.Keeper.Rpc.{
  RpcError, Reply, answered, raised, Rpc, is_transient, Retry, retry_loop, with_retry,
}

le-cases : (k i : ℕ) → k ≤ i → ((k ≡ i) ⊎ (suc k ≤ i))
le-cases k i le = elim (Bool-cases (leb i k)) [
  | inl under ↦ inl (ground arith)
  | inr over ↦ inr (ground arith)
]

pub Reply-cases :
    {A : Type 0} (r : Reply A) → ((a : A) × (r ≡ answered a)) ⊎ ((e : RpcError) × (r ≡ raised e))
Reply-cases (answered a) = inl (a, refl)
Reply-cases (raised e) = inr (e, refl)

-- The call failed, and may succeed later.
abbrev pub FailsForNow : {A : Type 0} → Reply A → Type 0
FailsForNow r = (e : RpcError) × (r ≡ raised e) × (is_transient e ≡ true)

-- The call succeeded or failed for good.
abbrev pub IsFinal : {A : Type 0} → Reply A → Type 0
IsFinal {A} r =
    ((a : A) × (r ≡ answered a)) ⊎ ((e : RpcError) × (r ≡ raised e) × (is_transient e ≡ false))

-- The wait after try `i`, from 0: it doubles up to the cap.
pub wait_after : ℕ → ℕ → ℕ → ℕ
wait_after base top zero = base
wait_after base top (suc i) = min (base * 2 ^ suc i) top

wait_after-suc :
    (base top i : ℕ) → min (wait_after base top i * 2) top ≡ wait_after base top (suc i)
unfolding wait_after
wait_after-suc base top zero = omega arith
wait_after-suc base top (suc i) =
    let twice : base * 2 ^ suc (suc i) ≡ base * 2 ^ suc i * 2 =
      ap (λ p. base * p) (pow-suc 2 (suc i)) ∙ sym (mul_assoc base (2 ^ suc i) 2) in
    omega (arith, twice)

module _ {S A : Type 0} (sleep : ℕ → S → S) (call : Rpc S A) where
  -- The world at try `i`, if those before it all fail.
  pub world_at : ℕ → ℕ → ℕ → S → S
  unfolding wait_after
  world_at base top zero s = s
  world_at base top (suc i) s = sleep (wait_after base top i) (call (world_at base top i s)).1

  -- From try `k` on, with `left` more at most: the try `k + j` gives the result.
  abbrev EndsAt : ℕ → ℕ → ℕ → ℕ → S → ℕ → Type 0
  EndsAt base top left k s j =
      (j ≤ left)
      × ((i : ℕ) → k ≤ i → i < k + j → FailsForNow (call (world_at base top i s)).0)
      × (retry_loop sleep top call left (wait_after base top k) (world_at base top k s)
          ≡ call (world_at base top (k + j) s))
      × ((j ≡ left) ⊎ IsFinal (call (world_at base top (k + j) s)).0)

  retry_loop-final :
      (top left delay : ℕ) (s : S)
      → IsFinal (call s).0
      → retry_loop sleep top call (suc left) delay s ≡ call s
  unfolding retry_loop
  retry_loop-final top left delay s (inl (a, e)) = rw (retry_loop, e) refl
  retry_loop-final top left delay s (inr (x, e, lasting)) = rw (retry_loop, e, lasting) refl

  retry_loop-again :
      (top left delay : ℕ) (s : S)
      → FailsForNow (call s).0
      → retry_loop sleep top call (suc left) delay s
        ≡ retry_loop sleep top call left (min (delay * 2) top) (sleep delay (call s).1)
  unfolding retry_loop
  retry_loop-again top left delay s (x, e, passing) = rw (retry_loop, e, passing) refl

  stops_here :
      (base top left k : ℕ) (s : S)
      → retry_loop sleep top call left (wait_after base top k) (world_at base top k s)
        ≡ call (world_at base top k s)
      → ((zero ≡ left) ⊎ IsFinal (call (world_at base top k s)).0)
      → (j : ℕ) × EndsAt base top left k s j
  stops_here base top left k s e final = (
    0,
    (
      omega arith,
      (λ i low high. absurd (omega (arith, low, high))),
      rw (add-zero k) e,
      rw (add-zero k) final,
    ),
  )

  goes_on :
      (base top left k : ℕ) (s : S)
      → FailsForNow (call (world_at base top k s)).0
      → (j : ℕ) × EndsAt base top left (suc k) s j
      → (j : ℕ) × EndsAt base top (suc left) k s j
  unfolding world_at
  goes_on base top left k s fails (j, (le, before, same, final)) =
      let here = k + suc j in
      let shift : suc k + j ≡ here = omega arith in
      let again = retry_loop-again top left (wait_after base top k) (world_at base top k s) fails in
      (
        suc j,
        (
          omega (arith, le),
          (λ i low high. elim (le-cases k i low) [
            | inl same_try ↦
                subst (λ x. FailsForNow (call (world_at base top x s)).0) same_try fails
            | inr later ↦ before i later (omega (arith, high))
          ]),
          again ∙ rw (wait_after-suc base top k) (rw (sym shift) same),
          (elim final [
            | inl all_used ↦ inl (ap suc all_used)
            | inr done ↦ inr (subst (λ x. IsFinal (call (world_at base top x s)).0) shift done)
          ]),
        ),
      )

  loop-EndsAt : (base top left k : ℕ) (s : S) → (j : ℕ) × EndsAt base top left k s j
  unfolding retry_loop
  loop-EndsAt base top zero k s = stops_here base top zero k s refl (inl refl)
  loop-EndsAt base top (suc left) k s =
      let here = world_at base top k s in
      let final = retry_loop-final top left (wait_after base top k) here in
      elim (Reply-cases (call here).0) [
        | inl (a, done) ↦
            let k' = inl (a, done) in stops_here base top (suc left) k s (final k') (inr k')
        | inr (e, failed) ↦ elim (Bool-cases (is_transient e)) [
          | inr lasting ↦
              let k' = inr (e, failed, lasting) in
              stops_here base top (suc left) k s (final k') (inr k')
          | inl passing ↦
              goes_on base top left k s (e, failed, passing) (loop-EndsAt base top left (suc k) s)
        ]
      ]

  -- What the first `j` tries and the next come to, of at most `left` after the first.
  abbrev pub IsLast : Retry → S → ℕ → Type 0
  IsLast retry s j =
      (j ≤ retry.attempts - 1)
      × ((i : ℕ) → i < j → FailsForNow (call (world_at retry.base_ms retry.cap_ms i s)).0)
      × (with_retry sleep retry call s ≡ call (world_at retry.base_ms retry.cap_ms j s))
      × ((j ≡ retry.attempts - 1) ⊎ IsFinal (call (world_at retry.base_ms retry.cap_ms j s)).0)

  EndsAt-IsLast :
      (retry : Retry) (s : S) (j : ℕ)
      → EndsAt retry.base_ms retry.cap_ms (retry.attempts - 1) 0 s j
      → IsLast retry s j
  unfolding with_retry wait_after world_at
  EndsAt-IsLast retry s j (le, before, same, final) = (
    le,
    (λ i high. before i (omega arith) (omega (arith, high))),
    rw (zero-add j) at same,
    rw (zero-add j) at final,
  )

  -- `withRetry` makes at least one try and at most as many as it is given. All before the last
  -- fail with a transient error, and after each it waits twice as long, up to the cap. It returns
  -- what the last one does, which is a success or a lasting error unless the tries are used up.
  pub with_retry-IsLast : (retry : Retry) (s : S) → (j : ℕ) × IsLast retry s j
  with_retry-IsLast retry s =
      let (j, ends) = loop-EndsAt retry.base_ms retry.cap_ms (retry.attempts - 1) 0 s in
      (j, EndsAt-IsLast retry s j ends)
