-- ===== src/Keeper/Reconcile/Frame.antt =====
-- keeper/keeper.mjs, `reconcile`: it moves the world only by its reads, and no id's submission.
use perps_litvm.Base.{ℕ, ◌≡◌, inl, inr, refl, ◌∙◌, String, Bool, Option, none, some, Bool-cases}
use perps_litvm.Keeper.WorkingSet.Flight.{apply_reconcile-in_flight}
use perps_litvm.Keeper.WorkingSet.{Request, Keeper, has}
use perps_litvm.Keeper.Rpc.{Reply, answered, raised, Rpc, Retry, with_retry}
use perps_litvm.Keeper.Rpc.Ends.{with_retry-keeps}
use perps_litvm.Keeper.Reconcile.{kind_at, learn_kind, kind_of, fold_in, after_request, reconcile}

module _ {S : Type 0} (feed_of : String → String) (min_delay max_active : ℕ) (retry : Retry)
    (sleep : ℕ → S → S) (read_request : ℕ → Rpc S Request) (read_trigger_price : ℕ → Rpc S ℕ)
    (clocks : S → ℕ × ℕ) where
  module _ (P : S → Type 0) (slept : (d : ℕ) (s : S) → P s → P (sleep d s))
      (request_read : (id : ℕ) (s : S) → P s → P (read_request id s).1)
      (kind_read : (id : ℕ) (s : S) → P s → P (read_trigger_price id s).1) where
    kind_of-keeps :
        (key : ℕ) (k : Keeper) (req : Request) (known : Option Bool) (s : S)
        → P s
        → P
            (kind_of feed_of min_delay max_active retry sleep read_request read_trigger_price clocks
              key k req known s).1
    unfolding kind_of
    kind_of-keeps key k req (some kind) s p = p
    kind_of-keeps key k req none s p = elim (Bool-cases req.active) [
      | inl live ↦
          rw (live, kind_of)
            (with_retry-keeps P sleep retry (read_trigger_price key) slept (kind_read key) s p)
      | inr gone ↦ rw (gone, kind_of) p
    ]

    after_request-keeps :
        (key : ℕ) (k : Keeper) (r : Reply Request) (s : S)
        → P s
        → P
            (after_request feed_of min_delay max_active retry sleep read_request read_trigger_price
              clocks key k r s).1
    unfolding after_request
    after_request-keeps key k (answered req) s p =
        kind_of-keeps key k req (kind_at key k.is_trigger_cache) s p
    after_request-keeps key k (raised e) s p = p

    -- What the reads and the waits keep, `reconcile` keeps.
    pub reconcile-keeps :
        (key : ℕ) (k : Keeper) (s : S)
        → P s
        → P
            (reconcile feed_of min_delay max_active retry sleep read_request read_trigger_price
              clocks key k s).1
    unfolding reconcile
    reconcile-keeps key k s p = elim (Bool-cases (has key k.in_flight)) [
      | inl flying ↦ rw (flying, reconcile) p
      | inr landed ↦ elim (Bool-cases (has key k.quarantined)) [
        | inl parked ↦ rw (landed, parked, reconcile) p
        | inr free ↦
            rw (landed, free, reconcile)
              (after_request-keeps key k (with_retry sleep retry (read_request key) s).0
                (with_retry sleep retry (read_request key) s).1
                (with_retry-keeps P sleep retry (read_request key) slept (request_read key) s p))
      ]
    ]

  kind_of-in_flight :
      (key : ℕ) (k : Keeper) (req : Request) (known : Option Bool) (s : S)
      → (kind_of feed_of min_delay max_active retry sleep read_request read_trigger_price clocks key
          k req known s).0.1.in_flight
        ≡ k.in_flight
  unfolding kind_of learn_kind
  kind_of-in_flight key k req (some kind) s = refl
  kind_of-in_flight key k req none s = elim (Bool-cases req.active) [
    | inr gone ↦ rw (gone, kind_of) refl
    | inl live ↦ rw (live, kind_of) (learnt (with_retry sleep retry (read_trigger_price key) s).0)
  ]
    where
      learnt :
          (r : Reply ℕ)
          → (learn_kind feed_of min_delay max_active retry sleep read_request read_trigger_price
              clocks key k r).1.in_flight
            ≡ k.in_flight
      learnt (answered price) = refl
      learnt (raised e) = refl

  after_request-in_flight :
      (key : ℕ) (k : Keeper) (r : Reply Request) (s : S)
      → (after_request feed_of min_delay max_active retry sleep read_request read_trigger_price
          clocks key k r s).0.keeper.in_flight
        ≡ k.in_flight
  unfolding after_request fold_in
  after_request-in_flight key k (raised e) s = refl
  after_request-in_flight key k (answered req) s =
      let known = kind_at key k.is_trigger_cache in
      let r =
        kind_of feed_of min_delay max_active retry sleep read_request read_trigger_price clocks key
          k req known s in
      apply_reconcile-in_flight feed_of min_delay max_active (clocks r.1).0 (clocks r.1).1 r.0.1 key
        req r.0.0
      ∙ kind_of-in_flight key k req known s

  -- `reconcile` starts and ends no submission.
  pub reconcile-in_flight :
      (key : ℕ) (k : Keeper) (s : S)
      → (reconcile feed_of min_delay max_active retry sleep read_request read_trigger_price clocks
          key k s).0.keeper.in_flight
        ≡ k.in_flight
  unfolding reconcile
  reconcile-in_flight key k s = elim (Bool-cases (has key k.in_flight)) [
    | inl flying ↦ rw (flying, reconcile) refl
    | inr landed ↦ elim (Bool-cases (has key k.quarantined)) [
      | inl parked ↦ rw (landed, parked, reconcile) refl
      | inr free ↦
          rw (landed, free, reconcile)
            (after_request-in_flight key k (with_retry sleep retry (read_request key) s).0
              (with_retry sleep retry (read_request key) s).1)
    ]
  ]
