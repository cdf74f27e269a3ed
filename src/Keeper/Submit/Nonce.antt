-- ===== src/Keeper/Submit/Nonce.antt =====
-- keeper/keeper.mjs: the nonces and gas limits that the keeper sends with.
use perps_litvm.Base.{ℕ, ◌+◌, inl, inr, String, true, false, ◌||◌, Option, List, Bool-cases}
use perps_litvm.Keeper.WorkingSet.{Entry, Keeper}
use perps_litvm.Keeper.Rpc.{Reply, answered, raised, after, on_world, revert_reason, Retry}
use perps_litvm.Keeper.Wire.{
  Tx, Wire, Account, is_stale, is_reprice_regas, Settled, filled, was_cancelled, no_event,
  lost_race, moved_back, errored, tallied, failure_of,
}
use perps_litvm.Keeper.Submit.{
  resync_nonce, ready_tx, after_send, transact, read_receipt, submit, recover, release,
  submit_and_settle,
}
use perps_litvm.Keeper.Reconcile.Frame.{reconcile-keeps}
use perps_litvm.Keeper.Rpc.Ends.{Ends, Ends-map, after-Ends, on_world-Ends}
use perps_litvm.Keeper.Submit.Steps.{
  IsReady, HasGas, Honest, InSync, Lost, Sent, resync_nonce-InSync, ready_tx-IsReady, send-Sent,
  resend-Sent,
}

module _ {S P T K : Type 0} (wire : Wire S P T K) (retry : Retry) (At : ℕ → S → Type 0)
    (honest : Honest wire At) where
  module _ (parse_error : List ℕ → Option (List ℕ)) where
    after_send-Sent :
        (entry : Entry) (tx : Tx P) (r : Reply T) (a : Account) (s : S)
        → Ends (Sent wire retry At honest) (Lost wire retry At honest) (r, (a, s))
        → Ends
            (Sent wire retry At honest)
            (Lost wire retry At honest)
            (after_send wire retry parse_error entry tx r (a, s))
    unfolding after_send
    after_send-Sent entry tx (answered t) a s h = h
    after_send-Sent entry tx (raised e) a s h =
        let why = revert_reason parse_error e in
        elim (Bool-cases (is_stale why || is_reprice_regas why)) [
          | inl again ↦ rw again (resend-Sent wire retry At honest entry tx (is_stale why) (a, s) h)
          | inr no_more ↦ rw no_more h
        ]

    transact-Sent :
        (entry : Entry) (tx : Tx P) (w : Account × S)
        → (InSync wire retry At honest) w
        → Ends
            (Sent wire retry At honest)
            (Lost wire retry At honest)
            (transact wire retry parse_error entry tx w)
    unfolding transact on_world
    transact-Sent entry tx w h =
        after-Ends (λ tx' w'. (InSync wire retry At honest) w' × IsReady w'.0.nonce tx')
          (Sent wire retry At honest) (Lost wire retry At honest) (ready_tx wire retry tx)
          (λ tx' w'.
            after_send wire retry parse_error entry tx' (wire.send tx' w'.1).0
              (w'.0, (wire.send tx' w'.1).1))
          w (ready_tx-IsReady wire retry At honest tx w h)
          (λ tx' w' k.
            after_send-Sent entry tx' (wire.send tx' w'.1).0 w'.0 (wire.send tx' w'.1).1
              (send-Sent wire retry At honest tx' w' k.0 k.1))

    module _ (lower : String → String) (pm wallet : String) (exec_fee : ℕ) where
      tallied-InSync :
          (what : Settled) (a : Account) (s : S)
          → (InSync wire retry At honest) (a, s)
          → (InSync wire retry At honest) (tallied exec_fee what a, s)
      unfolding tallied
      tallied-InSync (filled true) a s h = h
      tallied-InSync (filled false) a s h = h
      tallied-InSync (was_cancelled x) a s h = h
      tallied-InSync no_event a s h = h
      tallied-InSync lost_race a s h = h
      tallied-InSync moved_back a s h = h
      tallied-InSync errored a s h = h

      submit-InSync :
          (entry : Entry) (tx : Tx P) (w : Account × S)
          → (InSync wire retry At honest) w
          → Ends
              (λ what. (InSync wire retry At honest))
              (Lost wire retry At honest)
              (submit wire retry parse_error lower pm wallet exec_fee entry tx w)
      unfolding submit read_receipt
      submit-InSync entry tx w h =
          after-Ends (Sent wire retry At honest) (λ what. (InSync wire retry At honest))
            (Lost wire retry At honest) (transact wire retry parse_error entry tx)
            (λ t w'.
              after (on_world (wire.wait t))
                (read_receipt wire retry parse_error lower pm wallet exec_fee)
                (record w'.0 { nonce = w'.0.nonce + 1 }, w'.1))
            w (transact-Sent entry tx w h)
            (λ t w' k.
              after-Ends (λ logs. (InSync wire retry At honest))
                (λ what. (InSync wire retry At honest)) (Lost wire retry At honest)
                (on_world (wire.wait t))
                (read_receipt wire retry parse_error lower pm wallet exec_fee)
                (record w'.0 { nonce = w'.0.nonce + 1 }, w'.1)
                (on_world-Ends (λ logs. (InSync wire retry At honest)) (Lost wire retry At honest)
                  (wire.wait t) (record w'.0 { nonce = w'.0.nonce + 1 }) w'.1
                  (Ends-map (λ logs. At (w'.0.nonce + 1))
                    (λ logs s'.
                      (InSync wire retry At honest) (record w'.0 { nonce = w'.0.nonce + 1 }, s'))
                    (At (w'.0.nonce + 1))
                    (λ s'. (Lost wire retry At honest) (record w'.0 { nonce = w'.0.nonce + 1 }, s'))
                    (wire.wait t w'.1) (λ logs s' h'. (h', k.1))
                    (λ s' h'. ((w'.0.nonce + 1, h'), k.1)) k.0))
                (λ logs w₂ k₂. tallied-InSync _ w₂.0 w₂.1 k₂))

      recover-InSync :
          (r : Reply Settled) (w : Account × S)
          → Ends (λ what. (InSync wire retry At honest)) (Lost wire retry At honest) (r, w)
          → Ends
              (λ what. (InSync wire retry At honest))
              (Lost wire retry At honest)
              (recover wire retry parse_error lower pm wallet exec_fee r w)
      unfolding recover
      recover-InSync (answered what) w k = k
      recover-InSync (raised e) w k =
          after-Ends (λ done. (InSync wire retry At honest)) (λ what. (InSync wire retry At honest))
            (Lost wire retry At honest) (resync_nonce wire retry)
            (λ done w'. (answered (failure_of (revert_reason parse_error e)), w')) w
            (resync_nonce-InSync wire retry At honest w k) (λ done w' k'. k')

      module _ (feed_of : String → String) (min_delay max_active : ℕ) where
        release-Ends :
            (entry : Entry) (k : Keeper) (r : Reply Settled) (a : Account) (s : S)
            → Ends (λ what. (InSync wire retry At honest)) (Lost wire retry At honest) (r, (a, s))
            → let p =
                release wire retry parse_error lower pm wallet exec_fee feed_of min_delay max_active
                  entry k r a s in
              Ends
                (λ what. (InSync wire retry At honest))
                (Lost wire retry At honest)
                (p.0.reply, (p.0.account, p.1))
        unfolding release
        release-Ends entry k (answered what) a s (h, g) = (
          reconcile-keeps feed_of min_delay max_active retry wire.sleep wire.read_request
              wire.read_trigger_price wire.clocks (At a.nonce) (honest.slept a.nonce)
              (honest.request_read a.nonce) (honest.kind_read a.nonce) entry.id _ s h,
          g,
        )
        release-Ends entry k (raised e) a s ((n, h), g) = (
          (
            n,
            reconcile-keeps feed_of min_delay max_active retry wire.sleep wire.read_request
                wire.read_trigger_price wire.clocks (At n) (honest.slept n) (honest.request_read n)
                (honest.kind_read n) entry.id _ s h,
          ),
          g,
        )

        -- If the account's next nonce is the one held, no cached gas limit is under the floor and
        -- the world is honest, then every transaction that a submission sends, its retry included,
        -- has the account's next nonce and gas of the floor at least; and whatever has failed, the
        -- nonce that it leaves is again the account's next, unless the last read of the count has
        -- failed, which is the error that it then raises.
        pub submit_and_settle-InSync :
            (entry : Entry) (tx : Tx P) (k : Keeper) (a : Account) (s : S)
            → At a.nonce s
            → HasGas a
            → let p =
                submit_and_settle wire retry parse_error lower pm wallet exec_fee feed_of min_delay
                  max_active entry tx k a s in
              Ends
                (λ what. (InSync wire retry At honest))
                (Lost wire retry At honest)
                (p.0.reply, (p.0.account, p.1))
        unfolding submit_and_settle
        submit_and_settle-InSync entry tx k a s h g =
            let r = submit wire retry parse_error lower pm wallet exec_fee entry tx (a, s) in
            let r' = recover wire retry parse_error lower pm wallet exec_fee r.0 r.1 in
            release-Ends entry k r'.0 r'.1.0 r'.1.1
              (recover-InSync r.0 r.1 (submit-InSync entry tx (a, s) (h, g)))
