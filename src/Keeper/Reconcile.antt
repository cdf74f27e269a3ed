-- ===== src/Keeper/Reconcile.antt =====
-- keeper/keeper.mjs: `reconcile`, which reads one request and folds it into the working set. The
-- model runs its reads and its update without an event of another id between them.
pub mod Frame
use perps_litvm.Base.{
  ℕ, String, Bool, true, false, not, ◌&&◌, ◌||◌, Option, none, some, List, [], ◌∷◌, ◌++◌,
  if◌then◌else◌, Ask,
}
use perps_litvm.Base.{◌==◌}
use perps_litvm.Keeper.WorkingSet.{Request, Entry, Keeper, has, Status, Reconciled, apply_reconcile}
use perps_litvm.Keeper.Rpc.{Reply, answered, raised, Rpc, Retry, with_retry}

-- `isTriggerCache.get`
pub kind_at : ℕ → List (ℕ × Bool) → Option Bool
kind_at key [] = none
kind_at key ((k, kind) ∷ kinds) = if k == key then some kind else kind_at key kinds

pub data Verdict : Type 0 where
  settling parked unread : Verdict
  folded : Status → Option Entry → Verdict

pub record Pass : Type 0 where
  pub keeper : Keeper
  pub verdict : Verdict

module _ {S : Type 0} (feed_of : String → String) (min_delay max_active : ℕ) (retry : Retry)
    (sleep : ℕ → S → S) (read_request : ℕ → Rpc S Request) (read_trigger_price : ℕ → Rpc S ℕ)
    (clocks : S → ℕ × ℕ) where
  pub learn_kind : ℕ → Keeper → Reply ℕ → Bool × Keeper
  learn_kind key k (answered price) =
      let kind = not (price == 0) in
      (kind, record k { is_trigger_cache = k.is_trigger_cache ++ (key, kind) ∷ [] })
  learn_kind key k (raised e) = (false, k)

  -- The kind of an id, and the keeper that may have learnt it.
  pub kind_of : ℕ → Keeper → Request → Option Bool → Ask S (Bool × Keeper)
  unfolding learn_kind
  kind_of key k req (some kind) s = ((kind, k), s)
  kind_of key k req none s = elim req.active [
    | false ↦ ((false, k), s)
    | true ↦
        let (r, s') = with_retry sleep retry (read_trigger_price key) s in (learn_kind key k r, s')
  ]

  pub fold_in : ℕ → Keeper → Request → Bool → ℕ × ℕ → Pass
  fold_in key k req kind (chain_ms, now_ms) =
      let r = apply_reconcile feed_of min_delay max_active chain_ms now_ms k key req kind in
      record { keeper = r.keeper; verdict = folded r.status r.fire }

  pub after_request : ℕ → Keeper → Reply Request → Ask S Pass
  unfolding kind_at kind_of fold_in
  after_request key k (raised e) s = (record { keeper = k; verdict = unread }, s)
  after_request key k (answered req) s =
      let ((kind, k'), s') = kind_of key k req (kind_at key k.is_trigger_cache) s in
      (fold_in key k' req kind (clocks s'), s')

  unfoldable pub reconcile : ℕ → Keeper → Ask S Pass
  unfolding after_request
  reconcile key k s =
      if has key k.in_flight
      then (record { keeper = k; verdict = settling }, s)
      else (if has key k.quarantined
          then (record { keeper = k; verdict = parked }, s)
          else (let (r, s') = with_retry sleep retry (read_request key) s in
              after_request key k r s'))
