-- ===== src/Keeper/Submit/Release.antt =====
-- keeper/keeper.mjs, `submitAndSettle`: the id is released, whatever has failed.
use perps_litvm.Base.{ℕ, ◌≡◌, ◌≢◌, subst, sym, String, false, Option, List}
use perps_litvm.Keeper.WorkingSet.{Entry, Keeper, has, remove}
use perps_litvm.Keeper.WorkingSet.Flight.{has-remove}
use perps_litvm.Keeper.Rpc.{Retry}
use perps_litvm.Keeper.Wire.{Tx, Wire, Account}
use perps_litvm.Keeper.Reconcile.Frame.{reconcile-in_flight}
use perps_litvm.Keeper.Submit.{submit, recover, release, submit_and_settle}

-- The id is out of the set, and every other is as it was.
abbrev pub IsReleased : ℕ → List ℕ → List ℕ → Type 0
IsReleased key before after =
    (has key after ≡ false) × ((other : ℕ) → other ≢ key → has other after ≡ has other before)

module _ {S P T K : Type 0} (wire : Wire S P T K) (retry : Retry)
    (parse_error : List ℕ → Option (List ℕ)) (lower : String → String) (pm wallet : String)
    (exec_fee : ℕ) (feed_of : String → String) (min_delay max_active : ℕ) where
  -- A submission ends with its id out of the ids in flight and the others as they were, so that it
  -- can be tried again: after a receipt, after any error, and after a failed read of the nonce.
  pub submit_and_settle-IsReleased :
      (entry : Entry) (tx : Tx P) (k : Keeper) (a : Account) (s : S)
      → IsReleased entry.id k.in_flight
          (submit_and_settle wire retry parse_error lower pm wallet exec_fee feed_of min_delay
            max_active entry tx k a s).0.pass.keeper.in_flight
  unfolding submit_and_settle release
  submit_and_settle-IsReleased entry tx k a s =
      let r = submit wire retry parse_error lower pm wallet exec_fee entry tx (a, s) in
      let r' = recover wire retry parse_error lower pm wallet exec_fee r.0 r.1 in
      subst (IsReleased entry.id k.in_flight)
        (sym (
          reconcile-in_flight feed_of min_delay max_active retry wire.sleep wire.read_request
            wire.read_trigger_price wire.clocks entry.id
            (record k { in_flight = remove entry.id k.in_flight }) r'.1.1))
        (has-remove entry.id k.in_flight)
