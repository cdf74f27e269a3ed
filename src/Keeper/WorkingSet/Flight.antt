-- ===== src/Keeper/WorkingSet/Flight.antt =====
-- keeper/keeper.mjs, `applyReconcile`: it starts and ends no submission; and the set of ids.
use perps_litvm.Base.{ℕ, ◌≡◌, ◌≢◌, refl, String, Bool, false, List, [], ◌∷◌, arith}
use perps_litvm.Keeper.WorkingSet.{
  Request, Keeper, has, remove, apply_reconcile, refresh, admit, retire,
}

-- `delete` of a set takes out the id and no other.
pub has-remove :
    (key : ℕ) (ks : List ℕ)
    → (has key (remove key ks) ≡ false)
      × ((other : ℕ) → other ≢ key → has other (remove key ks) ≡ has other ks)
unfolding has remove
has-remove key [] = (refl, (λ other n. refl))
has-remove key (k ∷ ks) =
    let (gone, others) = has-remove key ks in
    (ground (arith, gone), (λ other n. ground (arith, n, others other n)))

module _ (feed_of : String → String) (min_delay max_active chain_ms now_ms : ℕ) where
  pub apply_reconcile-in_flight :
      (k : Keeper) (key : ℕ) (req : Request) (kind : Bool)
      → (apply_reconcile feed_of min_delay max_active chain_ms now_ms k key req
          kind).keeper.in_flight
        ≡ k.in_flight
  unfolding apply_reconcile admit retire refresh
  apply_reconcile-in_flight k key req kind = ground arith
