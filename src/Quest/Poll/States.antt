-- ===== src/Quest/Poll/States.antt =====
-- frontend/api/_lib/quest/scan.js: the intervals that a scan holds are true throughout its phases.
use perps_litvm.Base.{
  ℕ, ◌+◌, ◌≤◌, ◌<◌, ◌≡◌, ◌≢◌, ◌⊎◌, inl, inr, refl, sym, ap, subst, ◌∙◌, String, Bool, true, false,
  Option, none, some, List, leb, ltb, Ask, Call, arith, Bool-cases, ltb→lt, ltb-false→le,
}
use perps_litvm.Quest.Sources.{Source}
use perps_litvm.Quest.Scan.{
  SourceState, Tally, Limits, Outcome, found, done, error, budget, out_of_fuel, Cursor, walk_down,
}
use perps_litvm.Quest.Scan.Walk.{NoLog, IsTruthful, walk_down-Ended}
use perps_litvm.Quest.Poll.{Stepped, descend, ignore, closed, top_of, close_from, deepen}

module _ (HasLog : Source → ℕ → Type 0) where
  -- A state has no interval, or one without a log of its source.
  abbrev pub IsTrue : Source → SourceState → Type 0
  IsTrue src st =
      ((st.from ≡ none) × (st.to ≡ none))
      ⊎ ((f : ℕ) × (t : ℕ) × (st.from ≡ some f)
          × (st.to ≡ some t)
          × (t ≤ f)
          × (src.floor ≤ t)
          × NoLog HasLog src t (f + 1))

  abbrev pub IsFine : Source → String → SourceState → Type 0
  IsFine src key st = (st.source ≡ src) × (st.key ≡ key) × IsTrue src st

  abbrev pub AnyLog : Source → Type 0
  AnyLog src = (b : ℕ) × HasLog src b

  abbrev pub StepSound : Source → String → Stepped → Type 0
  StepSound src key r =
      (r.outcome ≢ out_of_fuel)
      × ((r.outcome ≢ found) ⊎ AnyLog src)
      × ((r.outcome ≡ found) ⊎ IsFine src key r.st)

module _ {S Log : Type 0} (tidy : String → String) (limits : Limits) (now : Ask S ℕ)
    (query : Source → ℕ → ℕ → Call S (List Log)) (verify_floor : Source → Call S Bool)
    (HasLog : Source → ℕ → Type 0) (truthful : IsTruthful HasLog query)
    (chunk_pos : 0 < limits.chunk_blocks) (started_at : ℕ) (src : Source) (key : String) where
  abbrev Closing : SourceState → SourceState → ℕ → Outcome → Type 0
  Closing st st' top o = (st' ≡ st) × ((o ≡ error) ⊎ NoLog HasLog src top (limits.head + 1))

  NoLog-join :
      (lo mid hi : ℕ) → NoLog HasLog src lo mid → NoLog HasLog src mid hi → NoLog HasLog src lo hi
  NoLog-join lo mid hi h k b p q = elim (Bool-cases (ltb b mid)) [
    | inl below ↦ h b p (ltb→lt b mid below)
    | inr above ↦ k b (ltb-false→le b mid above) q
  ]

  abbrev Filled : SourceState → ℕ → Outcome → Cursor → Type 0
  Filled st from why c =
      (why ≢ out_of_fuel)
      × ((why ≢ found) ⊎ AnyLog HasLog src)
      × ((why ≡ found)
          ⊎ ((c.st.source ≡ src)
              × ((c.outcome ≡ done) ⊎ (c.outcome ≡ error))
              × Closing st c.st c.top c.outcome))
      × ((why ≢ done) ⊎ ((c.top ≤ from + 1) × (c.outcome ≡ done)))

  closed_same :
      (st : SourceState) (from : ℕ) (why : Outcome) (c : Cursor)
      → IsFine HasLog src key st
      → why ≢ done
      → closed limits.head why c.st ≡ c.st
      → Filled st from why c
      → StepSound HasLog src key
          (record { st = closed limits.head why c.st; tally = c.tally; outcome = why })
  closed_same st from why c h n e (a, b, inl f, d) = (a, b, inl f)
  closed_same st from why c h n e (a, b, inr (x, y, (same, z)), d) =
      (a, b, inr (subst (IsFine HasLog src key) (sym (e ∙ same)) h))

  -- A gap that was read whole joins the interval.
  closed_done :
      (st : SourceState) (from : ℕ) (c : Cursor)
      → st.from ≡ some from
      → from < limits.head
      → IsFine HasLog src key st
      → Filled st from done c
      → IsFine HasLog src key (closed limits.head done c.st)
  unfolding closed
  closed_done st from c e below h (a, b, inl f, d) = absurd (cc f)
  closed_done st from c e below h (a, b, inr (x, y, (same, z)), inl d) = absurd (d refl)
  closed_done st from c e below (s, k, inl (no_from, no_to)) (a, b, inr (x, y, (same, z)), d) =
      absurd (cc (e, no_from))
  closed_done st from c e below (s, k, inr (f, t, hf, ht, le, up, none_there))
        (a, b, inr (x, y, (same, inl failed)), inr (low, over)) =
      absurd (cc (failed, over))
  closed_done st from c e below (s, k, inr (f, t, hf, ht, le, up, none_there))
        (a, b, inr (x, y, (same, inr gap)), inr (low, over)) =
      let same_from : f ≡ from = cc (hf, e) in
      (
        x,
        ap (λ (q : SourceState). q.key) same ∙ k,
        inr (
          limits.head,
          t,
          refl,
          ap (λ (q : SourceState). q.to) same ∙ ht,
          omega arith,
          up,
          NoLog-join t (f + 1) (limits.head + 1) none_there (λ n p q. gap n (omega arith) q),
        ),
      )

  closed-Sound :
      (st : SourceState) (from : ℕ) (why : Outcome) (c : Cursor)
      → st.from ≡ some from
      → from < limits.head
      → IsFine HasLog src key st
      → Filled st from why c
      → StepSound HasLog src key
          (record { st = closed limits.head why c.st; tally = c.tally; outcome = why })
  closed-Sound st from done c e below h k = (k.0, k.1, inr (closed_done st from c e below h k))
  closed-Sound st from found c e below h k =
      closed_same st from found c h (λ x. cc) (unfold closed in refl) k
  closed-Sound st from error c e below h k =
      closed_same st from error c h (λ x. cc) (unfold closed in refl) k
  closed-Sound st from budget c e below h k =
      closed_same st from budget c h (λ x. cc) (unfold closed in refl) k
  closed-Sound st from out_of_fuel c e below h k =
      closed_same st from out_of_fuel c h (λ x. cc) (unfold closed in refl) k

  floor_under :
      (st : SourceState) (from : ℕ)
      → st.from ≡ some from
      → IsFine HasLog src key st
      → src.floor ≤ from + 1
  floor_under st from e (s, k, inl (no_from, no_to)) = absurd (cc (e, no_from))
  floor_under st from e (s, k, inr (f, t, hf, ht, le, up, none_there)) =
      let same : f ≡ from = cc (hf, e) in omega arith

  pub close_from-Sound :
      (st : SourceState) (tally : Tally) (from : Option ℕ) (s : S)
      → st.from ≡ from
      → IsFine HasLog src key st
      → StepSound HasLog src key
          (close_from tidy limits now query verify_floor started_at st tally from s).0
  unfolding close_from
  close_from-Sound st tally none s e h = ((λ x. cc), inl (λ x. cc), inr h)
  close_from-Sound st tally (some from) s e h = elim (Bool-cases (leb limits.head from)) [
    | inl current ↦ rw current ((λ x. cc), inl (λ x. cc), inr h)
    | inr behind ↦
        let below : from < limits.head = ground arith in
        rw behind (
          closed-Sound st from
            (walk_down limits now query started_at ignore (from + 1) (limits.head + 1) st tally
              s).0.0
            (walk_down limits now query started_at ignore (from + 1) (limits.head + 1) st tally
              s).0.1
            e below h
            (walk_down-Ended limits now query started_at HasLog truthful chunk_pos ignore
              (λ lo x. unfold ignore in refl) src (from + 1) (floor_under st from e h) (Closing st)
              (λ x lo top o j up q none_there.
                unfold ignore in
                (
                  j.0,
                  elim j.1 [
                    | inl failed ↦ inl failed
                    | inr rest ↦ inr (NoLog-join lo top (limits.head + 1) none_there rest)
                  ],
                ))
              (λ x lo top o j. unfold ignore in (j.0, inl refl)) (limits.head + 1) st tally s h.0
              (refl, inr (λ b p q. absurd (omega arith)))))
  ]

  abbrev Deepening : SourceState → ℕ → Outcome → Type 0
  Deepening st top o =
      (st.key ≡ key)
      × IsTrue HasLog src st
      × ((st.frozen ≡ true) ⊎ (top_of limits.head st.to ≡ top))

  descend-IsTrue :
      (st : SourceState) (lo top : ℕ)
      → IsTrue HasLog src st
      → top_of limits.head st.to ≡ top
      → src.floor ≤ lo
      → lo < top
      → NoLog HasLog src lo top
      → st.frozen ≡ false
      → IsTrue HasLog src (descend limits.head (some lo) st)
  unfolding descend top_of
  descend-IsTrue st lo top (inl (no_from, no_to)) at_top up below none_there thawed =
      let whole : limits.head + 1 ≡ top = rw no_to at at_top in
      rw (thawed, no_from)
        (inr (
          limits.head,
          lo,
          refl,
          refl,
          omega arith,
          up,
          subst (NoLog HasLog src lo) (sym whole) none_there,
        ))
  descend-IsTrue st lo top (inr (f, t, hf, ht, le, old_up, old)) at_top up below none_there thawed =
      let same : t ≡ top = rw ht at at_top in
      rw (thawed, hf)
        (inr (
          f,
          lo,
          refl,
          refl,
          omega arith,
          up,
          NoLog-join lo t (f + 1) (subst (NoLog HasLog src lo) (sym same) none_there) old,
        ))

  descend_frozen :
      (st : SourceState) (lo : ℕ) → st.frozen ≡ true → descend limits.head (some lo) st ≡ st
  unfolding descend
  descend_frozen st lo frozen = simp frozen

  descend-Deepening :
      (st : SourceState) (lo top : ℕ) (o : Outcome)
      → Deepening st top o
      → src.floor ≤ lo
      → lo < top
      → NoLog HasLog src lo top
      → Deepening (descend limits.head (some lo) st) lo o
  unfolding descend top_of
  descend-Deepening st lo top o (k, h, at_top) up below none_there = elim (Bool-cases st.frozen) [
    | inl frozen ↦
        subst (λ x. Deepening x lo o) (sym (descend_frozen st lo frozen)) (k, h, inl frozen)
    | inr thawed ↦ elim at_top [
      | inl frozen ↦ absurd (cc (frozen, thawed))
      | inr same ↦
          let now_true = descend-IsTrue st lo top h same up below none_there thawed in
          (rw thawed k, now_true, inr (rw thawed))
    ]
  ]

  lost-Deepening :
      (st : SourceState) (lo top : ℕ) (o : Outcome)
      → Deepening st top o
      → Deepening (descend limits.head none st) lo error
  unfolding descend
  lost-Deepening st lo top o (k, h, at_top) = (k, h, inl refl)

  descend-source :
      (lo : Option ℕ) (st : SourceState) → (descend limits.head lo st).source ≡ st.source
  unfolding descend
  descend-source none st = refl
  descend-source (some lo) st = ground arith

  pub deepen-Sound :
      (st : SourceState) (tally : Tally) (s : S)
      → IsFine HasLog src key st
      → StepSound HasLog src key (deepen tidy limits now query verify_floor started_at st tally s).0
  unfolding deepen
  deepen-Sound st tally s h =
      let top = top_of limits.head st.to in
      elim (Bool-cases (leb top st.source.floor)) [
        | inl low ↦ rw low ((λ x. cc), inl (λ x. cc), inr h)
        | inr high ↦
            let ended =
              walk_down-Ended limits now query started_at HasLog truthful chunk_pos
                (descend limits.head) descend-source src st.source.floor
                (subst (λ (x : Source). src.floor ≤ x.floor) (sym h.0) (omega arith)) Deepening
                (λ x lo high o j up.
                  descend-Deepening x lo high o j (subst (λ (q : Source). q.floor ≤ lo) h.0 up))
                lost-Deepening top st tally s h.0 (h.1, h.2, inr refl) in
            rw high
              (ended.0, ended.1, elim ended.2 [ inl f ↦ inl f | inr g ↦ inr (g.0, g.2.0, g.2.1) ])
      ]
