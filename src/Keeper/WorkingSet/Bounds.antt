-- ===== src/Keeper/WorkingSet/Bounds.antt =====
-- keeper/keeper.mjs, `applyReconcile`: how many triggers the keeper holds.
use perps_litvm.Base.{
  ℕ, ◌+◌, ◌≤◌, ◌≡◌, ◌≢◌, ◌⊎◌, inl, inr, sym, subst, ltb→lt, String, Bool, true, false, some, List,
  [], ◌∷◌, ◌++◌, if◌then◌else◌, length, arith, Bool-cases, Option-cases, All,
}
use perps_litvm.Keeper.Sweep.{admits}
use perps_litvm.Keeper.WorkingSet.{
  Request, Entry, Keeper, schedule_market, entry_of, find, put, drop_entry, retire, admit, refresh,
  refreshed, fresh_entry, apply_reconcile,
}

-- The triggers of the working set.
unfoldable pub triggers : List Entry → ℕ
triggers [] = 0
triggers (e ∷ es) = (if e.is_trigger then 1 else 0) + triggers es

triggers-le-length : (es : List Entry) → triggers es ≤ length es
unfolding triggers
triggers-le-length [] = omega arith
triggers-le-length (e ∷ es) = ground (arith, triggers-le-length es)

triggers-append :
    (es : List Entry) (e : Entry)
    → triggers (es ++ e ∷ []) ≡ triggers es + (if e.is_trigger then 1 else 0)
unfolding triggers
triggers-append [] e = omega arith
triggers-append (x ∷ es) e = omega (arith, triggers-append es e)

triggers-drop_entry-le : (key : ℕ) (es : List Entry) → triggers (drop_entry key es) ≤ triggers es
unfolding triggers drop_entry
triggers-drop_entry-le key [] = omega arith
triggers-drop_entry-le key (e ∷ es) = ground (arith, triggers-drop_entry-le key es)

-- Entries with this id are of this kind.
abbrev pub AreKind : ℕ → Bool → List Entry → Type 0
AreKind key kind es = All (λ e. (e.id ≢ key) ⊎ (e.is_trigger ≡ kind)) es

triggers-put-le :
    (entry : Entry) (es : List Entry)
    → AreKind entry.id entry.is_trigger es
    → triggers (put entry es) ≤ triggers es
unfolding triggers put
triggers-put-le entry [] h = omega arith
triggers-put-le entry (e ∷ es) (inl other, h) = ground (arith, triggers-put-le entry es h)
triggers-put-le entry (e ∷ es) (inr same, h) = ground (arith, triggers-put-le entry es h)

entry_of-schedule_market :
    (chain_ms now_ms : ℕ) (e : Entry)
    → ((entry_of (schedule_market chain_ms now_ms e)).id ≡ e.id)
      × ((entry_of (schedule_market chain_ms now_ms e)).is_trigger ≡ e.is_trigger)
unfolding entry_of schedule_market
entry_of-schedule_market chain_ms now_ms e = ground arith

module _ (feed_of : String → String) (min_delay max_active chain_ms now_ms : ℕ) where
  admit-triggers-le :
      (k : Keeper) (key : ℕ) (req : Request) (kind : Bool)
      → triggers k.active ≤ max_active
      → admits (length k.active) kind max_active ≡ true
      → triggers (admit feed_of min_delay max_active chain_ms now_ms k key req kind).keeper.active
        ≤ max_active
  unfolding admit fresh_entry admits
  admit-triggers-le k key req true h a = omega (
    arith,
    triggers-append k.active
        (fresh_entry feed_of min_delay max_active chain_ms now_ms key req true),
    triggers-le-length k.active,
    ltb→lt (length k.active) max_active a,
  )
  admit-triggers-le k key req false h a =
      let entry = fresh_entry feed_of min_delay max_active chain_ms now_ms key req false in
      let plan = entry_of (schedule_market chain_ms now_ms entry) in
      let kept = entry_of-schedule_market chain_ms now_ms entry in
      rw (triggers-append k.active plan, kept.1) (omega arith)

  refresh-triggers-le :
      (k : Keeper) (key : ℕ) (old : Entry) (req : Request) (kind : Bool)
      → AreKind old.id kind k.active
      → triggers
          (refresh feed_of min_delay max_active chain_ms now_ms k key old req kind).keeper.active
        ≤ triggers k.active
  unfolding refresh refreshed
  refresh-triggers-le k key old req kind h =
      let entry = refreshed feed_of min_delay max_active chain_ms now_ms old req kind in
      let plan = schedule_market chain_ms now_ms entry in
      let (same_id, same_kind) = entry_of-schedule_market chain_ms now_ms entry in
      ground (
        arith,
        triggers-put-le entry k.active h,
        triggers-put-le (entry_of plan) k.active (
            subst (λ i. AreKind i (entry_of plan).is_trigger k.active) (sym same_id)
              (subst (λ b. AreKind old.id b k.active) (sym same_kind) h)),
      )

  find-id : (key : ℕ) (es : List Entry) (e : Entry) → find key es ≡ some e → e.id ≡ key
  unfolding find
  find-id key [] e h = cc
  find-id key (x ∷ es) e h = ground (arith, find-id key es e)

  -- As long as what is read about a request's kind agrees with what is held, no reconciliation
  -- takes the triggers of the working set above the bound, whatever the chain answers.
  pub apply_reconcile_bounded :
      (k : Keeper) (key : ℕ) (req : Request) (kind : Bool)
      → triggers k.active ≤ max_active
      → AreKind key kind k.active
      → triggers
          (apply_reconcile feed_of min_delay max_active chain_ms now_ms k key req
            kind).keeper.active
        ≤ max_active
  unfolding apply_reconcile retire
  apply_reconcile_bounded k key req kind h same = elim (Bool-cases req.active) [
    | inr gone ↦ rw gone (omega (arith, triggers-drop_entry-le key k.active))
    | inl live ↦ elim (Option-cases (find key k.active)) [
      | inl new ↦ elim (Bool-cases (admits (length k.active) kind max_active)) [
        | inl yes_admit ↦ rw (live, new, yes_admit) (admit-triggers-le k key req kind h yes_admit)
        | inr refused ↦ rw (live, new, refused) h
      ]
      | inr (old, known) ↦
          rw (live, known)
            (omega (
              arith,
              refresh-triggers-le k key old req kind (
                  subst (λ i. AreKind i kind k.active) (sym (find-id key k.active old known)) same),
            ))
    ]
  ]
