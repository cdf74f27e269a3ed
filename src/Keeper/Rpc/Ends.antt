-- ===== src/Keeper/Rpc/Ends.antt =====
-- keeper/keeper.mjs: what holds after a call that may fail, through chains and retries of calls.
use perps_litvm.Base.{ℕ, zero, suc, ◌-◌, ◌*◌, inl, inr, true, false, min, Bool-cases}
use perps_litvm.Keeper.Rpc.{
  Reply, answered, raised, Rpc, after, on_world, is_transient, Retry, retry_loop, with_retry,
}

-- An answer leaves `Q`, an error leaves `R`.
abbrev pub Ends : {S A : Type 0} → (A → S → Type 0) → (S → Type 0) → Reply A × S → Type 0
Ends Q R (answered a, s) = Q a s
Ends Q R (raised e, s) = R s

pub Ends-map :
    {S A : Type 0} (Q Q' : A → S → Type 0) (R R' : S → Type 0) (p : Reply A × S)
    → ((a : A) (s : S) → Q a s → Q' a s)
    → ((s : S) → R s → R' s)
    → Ends Q R p
    → Ends Q' R' p
Ends-map Q Q' R R' (answered a, s) f g h = f a s h
Ends-map Q Q' R R' (raised e, s) f g h = g s h

pub Ends-both : {S A : Type 0} (R : S → Type 0) (p : Reply A × S) → Ends (λ a. R) R p → R p.1
Ends-both R (answered a, s) h = h
Ends-both R (raised e, s) h = h

pub after-Ends :
    {S A B : Type 0} (Q : A → S → Type 0) (Q' : B → S → Type 0) (R : S → Type 0) (m : Rpc S A)
    (f : A → Rpc S B) (s : S)
    → Ends Q R (m s)
    → ((a : A) (s' : S) → Q a s' → Ends Q' R (f a s'))
    → Ends Q' R (after m f s)
unfolding after
after-Ends {S} {A} {B} Q Q' R m f s h k = go (m s).0 (m s).1 h
  where
    go :
        (r : Reply A) (s' : S)
        → Ends Q R (r, s')
        → Ends Q' R (elim r [ answered a ↦ f a s' | raised e ↦ (raised e, s') ])
    go (answered a) s' h' = k a s' h'
    go (raised e) s' h' = h'

-- A call that keeps `R` when it fails can be tried again.
pub with_retry-Ends :
    {S A : Type 0} (Q : A → S → Type 0) (R : S → Type 0) (sleep : ℕ → S → S) (retry : Retry)
    (call : Rpc S A)
    → ((d : ℕ) (s : S) → R s → R (sleep d s))
    → ((s : S) → R s → Ends Q R (call s))
    → (s : S) → R s
    → Ends Q R (with_retry sleep retry call s)
unfolding with_retry
with_retry-Ends {S} {A} Q R sleep retry call slept ends s h =
    loop (retry.attempts - 1) retry.base_ms s h
  where
    one :
        (left delay : ℕ) (r : Reply A) (s' : S)
        → ((s : S)
            → R s
            → Ends Q R (retry_loop sleep retry.cap_ms call left (min (delay * 2) retry.cap_ms) s))
        → Ends Q R (r, s')
        → Ends Q R (elim r [
          | answered a ↦ (answered a, s')
          | raised e ↦ elim (is_transient e) [
            | true ↦
                retry_loop sleep retry.cap_ms call left
                  (min (delay * 2) retry.cap_ms)
                  (sleep delay s')
            | false ↦ (raised e, s')
          ]
        ])
    one left delay (answered a) s' again h' = h'
    one left delay (raised e) s' again h' = elim (Bool-cases (is_transient e)) [
      | inl passing ↦ rw passing (again (sleep delay s') (slept delay s' h'))
      | inr lasting ↦ rw lasting h'
    ]

    loop :
        (left delay : ℕ) (s : S) → R s → Ends Q R (retry_loop sleep retry.cap_ms call left delay s)
    loop zero delay s h' = ends s h'
    loop (suc left) delay s h' =
        one left delay (call s).0 (call s).1 (loop left (min (delay * 2) retry.cap_ms)) (ends s h')

pub on_world-Ends :
    {B S A : Type 0} (Q : A → B × S → Type 0) (R : B × S → Type 0) (m : Rpc S A) (a : B) (s : S)
    → Ends (λ x s'. Q x (a, s')) (λ s'. R (a, s')) (m s)
    → Ends Q R (on_world m (a, s))
unfolding on_world
on_world-Ends {B} {S} {A} Q R m a s h = go (m s).0 (m s).1 h
  where
    go :
        (r : Reply A) (s' : S)
        → Ends (λ x s'. Q x (a, s')) (λ s'. R (a, s')) (r, s')
        → Ends Q R (r, (a, s'))
    go (answered x) s' h' = h'
    go (raised e) s' h' = h'

both-Ends : {S A : Type 0} (R : S → Type 0) (p : Reply A × S) → R p.1 → Ends (λ a. R) R p
both-Ends R (answered a, s) h = h
both-Ends R (raised e, s) h = h

-- What the tries and the waits keep, `withRetry` keeps.
pub with_retry-keeps :
    {S A : Type 0} (R : S → Type 0) (sleep : ℕ → S → S) (retry : Retry) (call : Rpc S A)
    → ((d : ℕ) (s : S) → R s → R (sleep d s))
    → ((s : S) → R s → R (call s).1)
    → (s : S) → R s
    → R (with_retry sleep retry call s).1
with_retry-keeps R sleep retry call slept kept s h = Ends-both R (with_retry sleep retry call s) (
    with_retry-Ends (λ a. R) R sleep retry call slept (λ s' h'. both-Ends R (call s') (kept s' h'))
      s h)
