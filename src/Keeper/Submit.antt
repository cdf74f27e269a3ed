-- ===== src/Keeper/Submit.antt =====
-- keeper/keeper.mjs: `submitAndSettle` and what it calls: the nonce, the gas limit and the fees of
-- the keeper's account, one transaction from its payload to its receipt, and the end of its id.
pub mod Steps
pub mod Nonce
pub mod Release
mod Examples
use perps_litvm.Base.{
  ℕ, ◌+◌, ◌*◌, String, Bool, true, false, ◌||◌, Option, none, some, List, if◌then◌else◌, max, Ask,
  Done,
}
use perps_litvm.Keeper.WorkingSet.{Entry, Keeper, remove}
use perps_litvm.Keeper.Rpc.{
  Reply, answered, raised, Rpc, after, on_world, revert_reason, Retry, with_retry,
}
use perps_litvm.Keeper.Reconcile.{Pass, reconcile}
use perps_litvm.Keeper.Wire.{
  FeeData, Tx, Event, Log, Wire, Account, gas_floor, stamp_fee, fee_after, is_stale,
  is_reprice_regas, Settled, failure_of, own_events, first_executed, first_cancelled, outcome_of,
  tallied,
}

pub record Settling : Type 0 where
  pub reply : Reply Settled
  pub account : Account
  pub pass : Pass

module _ {S P T K : Type 0} (wire : Wire S P T K) (retry : Retry) where
  abbrev Act : Type 0 → Type 0
  Act A = Rpc (Account × S) A

  pub resync_nonce : Act Done
  unfolding after on_world
  resync_nonce =
      after (on_world (with_retry wire.sleep retry wire.count))
        (λ n w. (answered tt, (record w.0 { nonce = n }, w.1)))

  pub fresh_gas_limit : Tx P → Act ℕ
  unfolding after on_world
  fresh_gas_limit tx = after (on_world (with_retry wire.sleep retry (wire.estimate tx))) (λ est w.
      let limit = max (est * 2) gas_floor in
      (answered limit, (record w.0 { cached_gas_limit = some limit }, w.1)))

  pub ensure_gas_limit : Tx P → Act ℕ
  unfolding fresh_gas_limit
  ensure_gas_limit tx w = elim w.0.cached_gas_limit [
    | some limit ↦ (answered limit, w)
    | none ↦ fresh_gas_limit tx w
  ]

  pub refresh_fee : Account × S → Account × S
  unfolding fee_after
  refresh_fee (a, s) =
      let (r, s') = with_retry wire.sleep retry wire.fee_data s in
      (record a { fee_override = fee_after r a.fee_override }, s')

  pub ready_tx : Tx P → Act (Tx P)
  unfolding ensure_gas_limit after stamp_fee
  ready_tx tx w =
      let numbered = record tx { nonce = some w.0.nonce } in
      after (ensure_gas_limit numbered)
        (λ limit w'. (
          answered (record numbered {
            gas_limit = some limit;
            fee = stamp_fee w'.0.fee_override tx.fee;
          }),
          w',
        ))
        w

  pub rebuilt : Entry → Tx P → Bool → Act (Tx P)
  unfolding after on_world
  rebuilt entry tx false w = (answered tx, w)
  rebuilt entry tx true w =
      after (on_world (wire.fetch entry.feed)) (λ pkgs. on_world (wire.populate entry.id pkgs)) w

  -- The one retry of a send: no cached gas limit, fresh fees and nonce, and a fresh payload if the
  -- package was stale.
  pub resend : Entry → Tx P → Bool → Act T
  unfolding refresh_fee resync_nonce rebuilt ready_tx after on_world
  resend entry tx stale (a, s) =
      after resync_nonce
        (λ done.
          after (rebuilt entry tx stale)
            (λ tx'. after (ready_tx tx') (λ tx₂. on_world (wire.send tx₂))))
        (refresh_fee (record a { cached_gas_limit = none }, s))

  module _ (parse_error : List ℕ → Option (List ℕ)) where
    pub after_send : Entry → Tx P → Reply T → Act T
    unfolding resend
    after_send entry tx (answered sent) w = (answered sent, w)
    after_send entry tx (raised e) w =
        let reason = revert_reason parse_error e in
        if is_stale reason || is_reprice_regas reason
        then resend entry tx (is_stale reason) w
        else (raised e, w)

    pub transact : Entry → Tx P → Act T
    unfolding ready_tx after after_send
    transact entry tx =
        after (ready_tx tx)
          (λ tx' w. let (r, s') = wire.send tx' w.1 in after_send entry tx' r (w.0, s'))

    module _ (lower : String → String) (pm wallet : String) (exec_fee : ℕ) where
      pub read_receipt : List Log → Act Settled
      unfolding own_events first_executed first_cancelled outcome_of tallied
      read_receipt logs (a, s) =
          let events = own_events lower pm logs in
          let what = outcome_of lower wallet (first_executed events) (first_cancelled events) in
          (answered what, (tallied exec_fee what a, s))

      pub submit : Entry → Tx P → Act Settled
      unfolding transact after on_world read_receipt
      submit entry tx = after (transact entry tx) (λ sent w.
          after (on_world (wire.wait sent)) read_receipt
            (record w.0 { nonce = w.0.nonce + 1 }, w.1))

      -- The `catch` of `submitAndSettle`.
      pub recover : Reply Settled → Act Settled
      unfolding resync_nonce after failure_of
      recover (answered what) w = (answered what, w)
      recover (raised e) w =
          after resync_nonce (λ done w'. (answered (failure_of (revert_reason parse_error e)), w'))
            w

      module _ (feed_of : String → String) (min_delay max_active : ℕ) where
        -- Its `finally`.
        pub release : Entry → Keeper → Reply Settled → Account → Ask S Settling
        unfolding reconcile
        release entry k r a s =
            let freed = record k { in_flight = remove entry.id k.in_flight } in
            let (pass, s') =
              reconcile feed_of min_delay max_active retry wire.sleep wire.read_request
                wire.read_trigger_price wire.clocks entry.id freed s in
            (record { reply = r; account = a; pass = pass }, s')

        pub submit_and_settle : Entry → Tx P → Keeper → Account → Ask S Settling
        unfolding submit recover release
        submit_and_settle entry tx k a s =
            let (r, w) = submit entry tx (a, s) in
            let (r', w') = recover r w in release entry k r' w'.0 w'.1
