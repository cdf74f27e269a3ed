-- ===== src/Indexer/BlockDay/Dating.antt =====
-- quest-indexer/lib/blockDay.mjs: the blocks of logs, and the bisection ends at the first of a day.
use perps_litvm.Base.{
  ℕ, zero, suc, ◌+◌, ◌-◌, ◌/◌, ◌≤◌, ◌<◌, ◌≡◌, ◌≢◌, ◌⊎◌, inl, inr, refl, sym, ap, subst, ◌∙◌, true,
  false, Option, none, some, List, [], ◌∷◌, leb, ltb, Try, ok, throw, Call, ◌>>=◌, arith, All,
  Bool-cases, Option-cases, some-injective, ok-injective, ltb→lt, ltb-false→le, leb→le,
}
use perps_litvm.Base.{◌==◌ as num_eq}
use perps_litvm.Indexer.BlockDay.{
  day_from_timestamp, Memo, recall, insert_block, log_blocks, remembered, timestamp_of, bisect,
}

abbrev pub Has : ℕ → List ℕ → Type 0
Has c [] = ⊥
Has c (b ∷ bs) = (b ≡ c) ⊎ Has c bs

insert_block-Has : (b : ℕ) (bs : List ℕ) → Has b (insert_block b bs)
unfolding insert_block
insert_block-Has b [] = inl refl
insert_block-Has b (c ∷ cs) = elim (Bool-cases (ltb b c)) [
  | inl below ↦ rw below (inl refl)
  | inr above ↦ elim (Bool-cases (num_eq b c)) [
    | inl same ↦ rw (above, same) (inl (ground arith))
    | inr other ↦ rw (above, other) (inr (insert_block-Has b cs))
  ]
]

insert_block-keeps : (x b : ℕ) (bs : List ℕ) → Has x bs → Has x (insert_block b bs)
unfolding insert_block
insert_block-keeps x b [] h = elim h [ ]
insert_block-keeps x b (c ∷ cs) h = elim (Bool-cases (ltb b c)) [
  | inl below ↦ rw below (inr h)
  | inr above ↦ elim (Bool-cases (num_eq b c)) [
    | inl same ↦ rw (above, same) h
    | inr other ↦
        rw (above, other) (elim h [ inl e ↦ inl e | inr k ↦ inr (insert_block-keeps x b cs k) ])
  ]
]

insert_block-All :
    (P : ℕ → Type 0) (b : ℕ) (bs : List ℕ) → P b → All P bs → All P (insert_block b bs)
unfolding insert_block
insert_block-All P b [] p h = (p, tt)
insert_block-All P b (c ∷ cs) p (h, hs) = elim (Bool-cases (ltb b c)) [
  | inl below ↦ rw below (p, (h, hs))
  | inr above ↦ elim (Bool-cases (num_eq b c)) [
    | inl same ↦ rw (above, same) (h, hs)
    | inr other ↦ rw (above, other) (h, insert_block-All P b cs p hs)
  ]
]

-- The blocks of logs are those of the logs, and have what these have.
pub log_blocks-facts :
    (P : ℕ → Type 0) (logs : List (Option ℕ)) (bs : List ℕ)
    → All (λ log. (b : ℕ) → log ≡ some b → P b) logs
    → log_blocks logs ≡ ok bs
    → All P bs × All (λ log. (b : ℕ) × (log ≡ some b) × Has b bs) logs
unfolding log_blocks
log_blocks-facts P [] bs h e =
    let nothing : [] ≡ bs = ok-injective e in (subst (All P) nothing tt, tt)
log_blocks-facts P (none ∷ logs) bs h e = cc
log_blocks-facts P (some b ∷ logs) bs (h, hs) e =
    go (λ rest f. log_blocks-facts P logs rest hs f) (log_blocks logs) refl e
  where
    more :
        (rest : List ℕ) (list : List (Option ℕ))
        → All (λ log. (x : ℕ) × (log ≡ some x) × Has x rest) list
        → All (λ log. (x : ℕ) × (log ≡ some x) × Has x (insert_block b rest)) list
    more rest [] k = tt
    more rest (log ∷ list) ((x, same, k), ks) =
        ((x, same, insert_block-keeps x b rest k), more rest list ks)

    go :
        ((rest : List ℕ)
          → log_blocks logs ≡ ok rest
          → All P rest × All (λ log. (x : ℕ) × (log ≡ some x) × Has x rest) logs)
        → (r : Try (List ℕ)) → log_blocks logs ≡ r
        → elim r [ ok blocks ↦ ok (insert_block b blocks) | throw x ↦ throw x ] ≡ ok bs
        → All P bs
          × (((x : ℕ) × (some b ≡ some x) × Has x bs)
              × All (λ log. (x : ℕ) × (log ≡ some x) × Has x bs) logs)
    go again (throw x) f k = cc
    go again (ok rest) f k =
        let whole : insert_block b rest ≡ bs = ok-injective k in
        let (all_rest, logs_rest) = again rest f in
        subst
          (λ list.
            All P list
            × (((x : ℕ) × (some b ≡ some x) × Has x list)
                × All (λ log. (x : ℕ) × (log ≡ some x) × Has x list) logs))
          whole
          (
            insert_block-All P b rest (h b refl) all_rest,
            ((b, refl, insert_block-Has b rest), more rest logs logs_rest),
          )

-- Logs that all have a block have a list of blocks.
pub log_blocks-total :
    (logs : List (Option ℕ))
    → All (λ log. (b : ℕ) × (log ≡ some b)) logs
    → (bs : List ℕ) × (log_blocks logs ≡ ok bs)
unfolding log_blocks
log_blocks-total [] h = ([], refl)
log_blocks-total (log ∷ logs) ((b, e), hs) =
    let (rest, same) = log_blocks-total logs hs in
    (insert_block b rest, rw (e, same, log_blocks) refl)

leb-false→lt : (a b : ℕ) → leb a b ≡ false → b < a
leb-false→lt a b h = ground arith

module _ {S : Type 0} (get_block : ℕ → Call S (Option ℕ)) (time : ℕ → ℕ) where
  abbrev pub day_at : ℕ → ℕ
  day_at b = day_from_timestamp (time b)

  abbrev pub IsTrueMemo : Memo → Type 0
  IsTrueMemo memo = All (λ p. p.1 ≡ time p.0) memo

  module _ (Range : ℕ → Type 0) where
    -- A read of a block of the range that answers with something else than its timestamp.
    abbrev pub Unread : Type 0
    Unread = (b : ℕ) × (s : S) × Range b × ((get_block b s).0 ≢ ok (some (time b)))

    -- An answer has `Q`, and an error has an unread block; the memory is true after both.
    abbrev pub Ends : {A : Type 0} → (A → Type 0) → Try A × (Memo × S) → Type 0
    Ends Q (ok a, w) = Q a × IsTrueMemo w.0
    Ends Q (throw e, w) = Unread × IsTrueMemo w.0

    pub >>=-Ends :
        {A B : Type 0} (Q : A → Type 0) (Q' : B → Type 0) (m : Call (Memo × S) A)
        (f : A → Call (Memo × S) B) (w : Memo × S)
        → Ends Q (m w)
        → ((a : A) (w' : Memo × S) → Q a → IsTrueMemo w'.0 → Ends Q' (f a w'))
        → Ends Q' ((m >>= f) w)
    >>=-Ends {A} {B} Q Q' m f w h k = go (m w).0 (m w).1 h
      where
        go :
            (r : Try A) (w' : Memo × S)
            → Ends Q (r, w')
            → Ends Q' (elim r [ ok a ↦ f a w' | throw e ↦ (throw e, w') ])
        go (ok a) w' (q, i) = k a w' q i
        go (throw e) w' i = i

    pub Ends-map :
        {A : Type 0} (Q Q' : A → Type 0) (r : Try A × (Memo × S))
        → ((a : A) → Q a → Q' a)
        → Ends Q r
        → Ends Q' r
    Ends-map Q Q' (ok a, w) f (q, i) = (f a q, i)
    Ends-map Q Q' (throw e, w) f h = h

    recall-true : (memo : Memo) (b t : ℕ) → IsTrueMemo memo → recall memo b ≡ some t → t ≡ time b
    unfolding recall
    recall-true [] b t h e = cc
    recall-true ((c, u) ∷ memo) b t (h, hs) e = elim (Bool-cases (num_eq c b)) [
      | inl same ↦
          let e' = rw same at e in
          let at_b : c ≡ b = ground arith in sym (some-injective e') ∙ h ∙ ap time at_b
      | inr other ↦ recall-true memo b t hs (let e' = rw other at e in e')
    ]

    pub timestamp_of-Ends :
        (truthful : (b : ℕ) (s : S) (t : ℕ) → (get_block b s).0 ≡ ok (some t) → t ≡ time b) (b : ℕ)
        (w : Memo × S)
        → Range b
        → IsTrueMemo w.0
        → Ends (λ t. t ≡ time b) (timestamp_of get_block b w)
    unfolding timestamp_of
    timestamp_of-Ends truthful b (memo, s) within i = elim (Option-cases (recall memo b)) [
      | inr (t, known) ↦ rw (known, timestamp_of) (recall-true memo b t i known, i)
      | inl unknown ↦ rw (unknown, timestamp_of) (go (get_block b s).0 refl)
    ]
      where
        go :
            (r : Try (Option ℕ))
            → (get_block b s).0 ≡ r
            → Ends (λ t. t ≡ time b) (remembered get_block b memo r (get_block b s).1)
        go (ok (some t)) e = unfold remembered in (truthful b s t e, (truthful b s t e, i))
        go (ok none) e = unfold remembered in ((b, s, within, λ f. cc (e, f)), i)
        go (throw x) e = unfold remembered in ((b, s, within, λ f. cc (e, f)), i)

module _ {S : Type 0} (get_block : ℕ → Call S (Option ℕ)) (time : ℕ → ℕ)
    (truthful : (b : ℕ) (s : S) (t : ℕ) → (get_block b s).0 ≡ ok (some t) → t ≡ time b)
    (Range : ℕ → Type 0) where
  abbrev day : ℕ → ℕ
  day = day_at get_block time

  abbrev Ends_ : {A : Type 0} → (A → Type 0) → Try A × (Memo × S) → Type 0
  Ends_ = Ends get_block time Range

  -- The first block of a day or a later one: the block before it is of an earlier day.
  abbrev pub IsFlip : ℕ → ℕ → ℕ → ℕ → Type 0
  IsFlip target low high h =
      (g : ℕ) × (h ≡ g + 1) × (low ≤ g) × (h ≤ high) × (day g < target) × (target ≤ day h)

  pub bisect-Ends :
      (fuel target low high : ℕ) (w : Memo × S)
      → ((b : ℕ) → low ≤ b → b ≤ high → Range b)
      → IsTrueMemo get_block time w.0
      → low < high
      → high ≤ low + fuel + 1
      → day low < target
      → target ≤ day high
      → Ends_ (IsFlip target low high) (bisect get_block fuel target low high w)
  unfolding bisect
  bisect-Ends zero target low high w ins i near enough under over =
      elim (Bool-cases (ltb 1 (high - low))) [
        | inl wide ↦ absurd (let q = ltb→lt 1 (high - low) wide in omega arith)
        | inr narrow ↦
            let q = ltb-false→le 1 (high - low) narrow in
            rw (narrow, bisect) ((low, omega arith, omega arith, omega arith, under, over), i)
      ]
  bisect-Ends (suc fuel) target low high w ins i near enough under over =
      elim (Bool-cases (ltb 1 (high - low))) [
        | inr narrow ↦
            let q = ltb-false→le 1 (high - low) narrow in
            rw (narrow, bisect) ((low, omega arith, omega arith, omega arith, under, over), i)
        | inl wide ↦
            let q = ltb→lt 1 (high - low) wide in
            let mid = (low + high) / 2 in
            rw (wide, bisect)
              (>>=-Ends get_block time Range (λ t. t ≡ time mid) (IsFlip target low high)
                (timestamp_of get_block mid)
                (λ t. elim (leb target (day_from_timestamp t)) as (λ x. Call (Memo × S) ℕ) [
                  | true ↦ bisect get_block fuel target low mid
                  | false ↦ bisect get_block fuel target mid high
                ])
                w
                (timestamp_of-Ends get_block time Range truthful mid w
                  (ins mid (omega arith) (omega arith)) i)
                (λ t w' at_mid i'. elim (Bool-cases (leb target (day_from_timestamp t))) [
                  | inl late ↦
                      let after : target ≤ day mid =
                        subst (λ x. target ≤ day_from_timestamp x) at_mid
                          (leb→le target (day_from_timestamp t) late) in
                      rw (late, bisect)
                        (Ends-map get_block time Range (IsFlip target low mid)
                          (IsFlip target low high) (bisect get_block fuel target low mid w')
                          (λ h (g, e, a, b, c, d). (g, e, a, omega arith, c, d))
                          (bisect-Ends fuel target low mid w' (λ b p r. ins b p (omega arith)) i'
                            (omega arith) (omega arith) under after))
                  | inr early ↦
                      let before : day mid < target =
                        subst (λ x. day_from_timestamp x < target) at_mid
                          (leb-false→lt target (day_from_timestamp t) early) in
                      rw (early, bisect)
                        (Ends-map get_block time Range (IsFlip target mid high)
                          (IsFlip target low high) (bisect get_block fuel target mid high w')
                          (λ h (g, e, a, b, c, d). (g, e, omega arith, b, c, d))
                          (bisect-Ends fuel target mid high w' (λ b p r. ins b (omega arith) r) i'
                            (omega arith) (omega arith) before over))
                ]))
      ]
