-- ===== src/Keeper/Submit/Steps.antt =====
-- keeper/keeper.mjs: one transaction from its nonce to its send, and what the world is
-- taken to do.
use perps_litvm.Base.{
  ℕ, ◌+◌, ◌*◌, ◌≤◌, ◌≡◌, inl, inr, refl, sym, ap, subst, String, Bool, true, false, none, some, max,
  arith, Option-cases,
}
use perps_litvm.Keeper.WorkingSet.{Entry}
use perps_litvm.Keeper.Rpc.{answered, Rpc, after, on_world, Retry, with_retry}
use perps_litvm.Keeper.Wire.{Tx, Wire, Account, gas_floor, stamp_fee}
use perps_litvm.Keeper.Submit.{
  resync_nonce, fresh_gas_limit, ensure_gas_limit, refresh_fee, ready_tx, rebuilt, resend,
}
use perps_litvm.Keeper.Rpc.Ends.{
  Ends, Ends-map, after-Ends, Ends-both, with_retry-Ends, on_world-Ends,
}

-- A transaction with the given nonce and at least the floor of gas.
abbrev pub IsReady : {P : Type 0} → ℕ → Tx P → Type 0
IsReady n tx =
    (tx.nonce ≡ some n) × ((limit : ℕ) × ((tx.gas_limit ≡ some limit) × (gas_floor ≤ limit)))

abbrev pub HasGas : Account → Type 0
HasGas a = (limit : ℕ) → a.cached_gas_limit ≡ some limit → gas_floor ≤ limit

-- The calls of the world, where `At n s` says that in `s` the account's next nonce is `n`: the
-- count of transactions says so, a transaction that is accepted with that nonce has taken it when
-- its wait ends, and a send that fails may have taken it or not. Only transactions that are ready
-- may be sent: nothing is known of a world in which another is.
pub record Honest {S P T K : Type 0} (wire : Wire S P T K) (At : ℕ → S → Type 0) : Type 0 where
  pub slept : (n d : ℕ) (s : S) → At n s → At n (wire.sleep d s)
  pub counted : (n : ℕ) (s : S) → At n s → Ends (λ m s'. (m ≡ n) × At n s') (At n) (wire.count s)
  pub estimated :
      (n : ℕ) (tx : Tx P) (s : S) → At n s → Ends (λ g. At n) (At n) (wire.estimate tx s)
  pub priced : (n : ℕ) (s : S) → At n s → Ends (λ f. At n) (At n) (wire.fee_data s)
  pub fetched :
      (n : ℕ) (feed : String) (s : S) → At n s → Ends (λ k. At n) (At n) (wire.fetch feed s)
  pub populated :
      (n id : ℕ) (k : K) (s : S) → At n s → Ends (λ tx. At n) (At n) (wire.populate id k s)
  pub request_read : (n id : ℕ) (s : S) → At n s → At n (wire.read_request id s).1
  pub kind_read : (n id : ℕ) (s : S) → At n s → At n (wire.read_trigger_price id s).1
  pub sent :
      (n : ℕ) (tx : Tx P) (s : S)
      → At n s
      → IsReady n tx
      → Ends
          (λ t s'. Ends (λ logs. At (n + 1)) (At (n + 1)) (wire.wait t s'))
          (λ s'. (m : ℕ) × At m s')
          (wire.send tx s)

le_max : (est : ℕ) → gas_floor ≤ max (est * 2) gas_floor
le_max est = omega arith

module _ {S P T K : Type 0} (wire : Wire S P T K) (retry : Retry) (At : ℕ → S → Type 0)
    (honest : Honest wire At) where
  -- The nonce that is held is the account's next; and only the gas limit is as it should be.
  abbrev pub InSync : Account × S → Type 0
  InSync (a, s) = At a.nonce s × HasGas a

  abbrev pub Lost : Account × S → Type 0
  Lost (a, s) = ((n : ℕ) × At n s) × HasGas a

  abbrev pub Sent : T → Account × S → Type 0
  Sent t (a, s) = Ends (λ logs. At (a.nonce + 1)) (At (a.nonce + 1)) (wire.wait t s) × HasGas a

  InSync-Lost : (w : Account × S) → InSync w → Lost w
  InSync-Lost (a, s) (h, g) = ((a.nonce, h), g)

  -- A call that is tried again, beside the account.
  tried :
      {A : Type 0} (Q : A → S → Type 0) (Q' : A → Account × S → Type 0) (call : Rpc S A) (n : ℕ)
      (a : Account) (s : S)
      → ((s : S) → At n s → Ends Q (At n) (call s))
      → ((x : A) (s' : S) → Q x s' → Q' x (a, s'))
      → At n s
      → HasGas a
      → Ends Q' Lost (on_world (with_retry wire.sleep retry call) (a, s))
  tried Q Q' call n a s ends k h g = on_world-Ends Q' Lost (with_retry wire.sleep retry call) a s (
      Ends-map Q (λ x s'. Q' x (a, s')) (At n) (λ s'. Lost (a, s'))
        (with_retry wire.sleep retry call s) k (λ s' h'. ((n, h'), g))
        (with_retry-Ends Q (At n) wire.sleep retry call (honest.slept n) ends s h))

  pub resync_nonce-InSync :
      (w : Account × S) → Lost w → Ends (λ done. InSync) Lost (resync_nonce wire retry w)
  unfolding resync_nonce
  resync_nonce-InSync (a, s) ((n, h), g) =
      after-Ends (λ m w. At m w.1 × HasGas w.0) (λ done. InSync) Lost
        (on_world (with_retry wire.sleep retry wire.count))
        (λ m w. (answered tt, (record w.0 { nonce = m }, w.1))) (a, s)
        (tried (λ m s'. (m ≡ n) × At n s') (λ m w. At m w.1 × HasGas w.0) wire.count n a s
          (honest.counted n) (λ m s' k. (subst (λ x. At x s') (sym k.0) k.1, g)) h g)
        (λ m w k. k)

  -- With the account in step, and its nonce still `n`.
  abbrev InStep : ℕ → Account × S → Type 0
  InStep n w = InSync w × (w.0.nonce ≡ n)

  fresh_gas_limit-InStep :
      (n : ℕ) (tx : Tx P) (w : Account × S)
      → InStep n w
      → Ends (λ limit w'. InStep n w' × (gas_floor ≤ limit)) Lost (fresh_gas_limit wire retry tx w)
  unfolding fresh_gas_limit
  fresh_gas_limit-InStep n tx (a, s) ((h, g), e) =
      after-Ends (λ est. InStep n) (λ limit w'. InStep n w' × (gas_floor ≤ limit)) Lost
        (on_world (with_retry wire.sleep retry (wire.estimate tx)))
        (λ est w.
          let limit = max (est * 2) gas_floor in
          (answered limit, (record w.0 { cached_gas_limit = some limit }, w.1)))
        (a, s)
        (tried (λ est. At a.nonce) (λ est. InStep n) (wire.estimate tx) a.nonce a s
          (honest.estimated a.nonce tx) (λ est s' k. ((k, g), e)) h g)
        (λ est w k. (
          ((k.0.0, (λ limit same. subst (λ x. gas_floor ≤ x) (cc same) (le_max est))), k.1),
          le_max est,
        ))

  ensure_gas_limit-InStep :
      (n : ℕ) (tx : Tx P) (w : Account × S)
      → InStep n w
      → Ends (λ limit w'. InStep n w' × (gas_floor ≤ limit)) Lost (ensure_gas_limit wire retry tx w)
  unfolding ensure_gas_limit
  ensure_gas_limit-InStep n tx w h = elim (Option-cases w.0.cached_gas_limit) [
    | inl none_yet ↦ rw (none_yet, ensure_gas_limit) (fresh_gas_limit-InStep n tx w h)
    | inr (limit, held) ↦ rw (held, ensure_gas_limit) (h, h.0.1 limit held)
  ]

  refresh_fee-Lost : (w : Account × S) → Lost w → Lost (refresh_fee wire retry w)
  unfolding refresh_fee
  refresh_fee-Lost (a, s) ((n, h), g) = (
    (
      n,
      Ends-both (At n) (with_retry wire.sleep retry wire.fee_data s) (
          with_retry-Ends (λ f. At n) (At n) wire.sleep retry wire.fee_data (honest.slept n)
            (honest.priced n) s h),
    ),
    g,
  )

  pub ready_tx-IsReady :
      (tx : Tx P) (w : Account × S)
      → InSync w
      → Ends (λ tx' w'. InSync w' × IsReady w'.0.nonce tx') Lost (ready_tx wire retry tx w)
  unfolding ready_tx
  ready_tx-IsReady tx w h =
      after-Ends (λ limit w'. InStep w.0.nonce w' × (gas_floor ≤ limit))
        (λ tx' w'. InSync w' × IsReady w'.0.nonce tx') Lost
        (ensure_gas_limit wire retry (record tx { nonce = some w.0.nonce }))
        (λ limit w'. (
          answered (record tx {
            nonce = some w.0.nonce;
            gas_limit = some limit;
            fee = stamp_fee w'.0.fee_override tx.fee;
          }),
          w',
        ))
        w (ensure_gas_limit-InStep w.0.nonce (record tx { nonce = some w.0.nonce }) w (h, refl))
        (λ limit w' k. (k.0.0, (ap some (sym k.0.1), (limit, (refl, k.1)))))

  -- A call that leaves the account's count as it is.
  quiet :
      {A : Type 0} (m : Rpc S A) (w : Account × S)
      → InSync w
      → Ends (λ x. At w.0.nonce) (At w.0.nonce) (m w.1)
      → Ends (λ x. InSync) Lost (on_world m w)
  quiet m (a, s) (h, g) k =
      on_world-Ends (λ x. InSync) Lost m a s
        (Ends-map (λ x. At a.nonce) (λ x s'. InSync (a, s')) (At a.nonce) (λ s'. Lost (a, s')) (m s)
          (λ x s' h'. (h', g)) (λ s' h'. ((a.nonce, h'), g)) k)

  rebuilt-InSync :
      (entry : Entry) (tx : Tx P) (stale : Bool) (w : Account × S)
      → InSync w
      → Ends (λ tx'. InSync) Lost (rebuilt wire retry entry tx stale w)
  unfolding rebuilt
  rebuilt-InSync entry tx false w h = h
  rebuilt-InSync entry tx true w h =
      after-Ends (λ pkgs. InSync) (λ tx'. InSync) Lost (on_world (wire.fetch entry.feed))
        (λ pkgs. on_world (wire.populate entry.id pkgs)) w
        (quiet (wire.fetch entry.feed) w h (honest.fetched w.0.nonce entry.feed w.1 h.0))
        (λ pkgs w' k.
          quiet (wire.populate entry.id pkgs) w' k
            (honest.populated w'.0.nonce entry.id pkgs w'.1 k.0))

  pub send-Sent :
      (tx : Tx P) (w : Account × S)
      → InSync w
      → IsReady w.0.nonce tx
      → Ends Sent Lost (on_world (wire.send tx) w)
  send-Sent tx (a, s) (h, g) ready = on_world-Ends Sent Lost (wire.send tx) a s (
      Ends-map _ (λ t s'. Sent t (a, s')) _ (λ s'. Lost (a, s')) (wire.send tx s) (λ t s' k. (k, g))
        (λ s' k. (k, g)) (honest.sent a.nonce tx s h ready))

  pub resend-Sent :
      (entry : Entry) (tx : Tx P) (stale : Bool) (w : Account × S)
      → Lost w
      → Ends Sent Lost (resend wire retry entry tx stale w)
  unfolding resend
  resend-Sent entry tx stale (a, s) (h, g) =
      after-Ends (λ done. InSync) Sent Lost (resync_nonce wire retry)
        (λ done.
          after (rebuilt wire retry entry tx stale)
            (λ tx'. after (ready_tx wire retry tx') (λ tx₂. on_world (wire.send tx₂))))
        (refresh_fee wire retry (record a { cached_gas_limit = none }, s))
        (resync_nonce-InSync _
          (refresh_fee-Lost (record a { cached_gas_limit = none }, s) (h, (λ limit e. cc))))
        (λ done w k.
          after-Ends (λ tx'. InSync) Sent Lost (rebuilt wire retry entry tx stale)
            (λ tx'. after (ready_tx wire retry tx') (λ tx₂. on_world (wire.send tx₂))) w
            (rebuilt-InSync entry tx stale w k)
            (λ tx' w' k'.
              after-Ends (λ tx₂ w₂. InSync w₂ × IsReady w₂.0.nonce tx₂) Sent Lost
                (ready_tx wire retry tx') (λ tx₂. on_world (wire.send tx₂)) w'
                (ready_tx-IsReady tx' w' k') (λ tx₂ w₂ k₂. send-Sent tx₂ w₂ k₂.0 k₂.1)))
