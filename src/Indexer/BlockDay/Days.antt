-- ===== src/Indexer/BlockDay/Days.antt =====
-- quest-indexer/lib/blockDay.mjs: each log gets the day of its own block.
use perps_litvm.Base.{
  ℕ, ◌-◌, ◌≤◌, ◌<◌, ◌≡◌, ◌≢◌, ◌⊎◌, inl, inr, refl, sym, ap, subst, ◌∙◌, Option, none, some, List,
  [], ◌∷◌, leb, ltb, if◌then◌else◌, length, map, Try, ok, Call, ◌>>=◌, answer, arith, All, All-map,
  Bool-cases, ltb→lt, ltb-false→le, leb→le,
}
use perps_litvm.Base.{◌==◌ as num_eq}
use perps_litvm.Indexer.BlockDay.{
  day_from_timestamp, Memo, recall, bisection_cost, timestamp_of, bisect,
  first_block_on_or_after_day, name_each, straddle, by_ends, date_blocks, resolve_days,
}
use perps_litvm.Indexer.BlockDay.Dating.{
  Has, log_blocks-facts, log_blocks-total, day_at, IsTrueMemo, Ends, >>=-Ends, Ends-map,
  timestamp_of-Ends, IsFlip, bisect-Ends,
}

map-same : {B : Type 0} (f g : ℕ → B) (bs : List ℕ) → All (λ b. f b ≡ g b) bs → map f bs ≡ map g bs
map-same f g [] h = refl
map-same f g (b ∷ bs) (h, hs) = cc (h, map-same f g bs hs)

day-monotone : (a b : ℕ) → a ≤ b → day_from_timestamp a ≤ day_from_timestamp b
unfolding day_from_timestamp
day-monotone a b h = omega arith

module _ {S : Type 0} (get_block : ℕ → Call S (Option ℕ)) (time : ℕ → ℕ) where
  -- The days that are resolved: each log's block has the day of its own timestamp.
  abbrev pub HasDays : List (Option ℕ) → List (ℕ × ℕ) → Type 0
  HasDays logs days =
      All (λ log. (b : ℕ) × (log ≡ some b) × (recall days b ≡ some (day_at get_block time b))) logs

module _ {S : Type 0} (get_block : ℕ → Call S (Option ℕ)) (time : ℕ → ℕ)
    (truthful : (b : ℕ) (s : S) (t : ℕ) → (get_block b s).0 ≡ ok (some t) → t ≡ time b) where
  abbrev day : ℕ → ℕ
  day = day_at get_block time

  abbrev Dated : List ℕ → List (ℕ × ℕ) → Type 0
  Dated bs days = days ≡ map (λ b. (b, day b)) bs

  module _ (from to : ℕ) (near : from ≤ to)
      (ordered : time from ≤ time to → (b c : ℕ) → from ≤ b → b ≤ c → c ≤ to → time b ≤ time c)
      (two_days : (b : ℕ) → from ≤ b → b ≤ to → (day b ≡ day from) ⊎ (day b ≡ day to)) where
    abbrev In : ℕ → Type 0
    In b = (from ≤ b) × (b ≤ to)

    abbrev Ends_ : {A : Type 0} → (A → Type 0) → Try A × (Memo × S) → Type 0
    Ends_ = Ends get_block time In

    name_each-Ends :
        (bs : List ℕ) (w : Memo × S)
        → All In bs
        → IsTrueMemo get_block time w.0
        → Ends_ (Dated bs) (name_each get_block bs w)
    unfolding name_each
    name_each-Ends [] w ins i = (refl, i)
    name_each-Ends (b ∷ bs) w (within, ins) i =
        >>=-Ends get_block time In (λ t. t ≡ time b) (Dated (b ∷ bs)) (timestamp_of get_block b)
          (λ t. name_each get_block bs >>= λ rest. answer (ok ((b, day_from_timestamp t) ∷ rest))) w
          (timestamp_of-Ends get_block time In truthful b w within i)
          (λ t w' at_b i'.
            >>=-Ends get_block time In (Dated bs) (Dated (b ∷ bs)) (name_each get_block bs)
              (λ rest. answer (ok ((b, day_from_timestamp t) ∷ rest))) w'
              (name_each-Ends bs w' ins i') (λ rest w'' same i''. (rw (at_b, same) refl, i'')))

    boundary-day :
        (h b : ℕ)
        → time from ≤ time to
        → day from < day to
        → IsFlip get_block time truthful In (day to) from to h
        → In b
        → (if leb h b then day to else day from) ≡ day b
    boundary-day h b up apart (g, e, a, c, before, after) (low, high) =
        elim (Bool-cases (leb h b)) [
          | inl over ↦
              let q = leb→le h b over in
              let p = day-monotone (time h) (time b) (ordered up h b (omega arith) q high) in
              let r = day-monotone (time b) (time to) (ordered up b to low high (omega arith)) in
              rw over (omega arith)
          | inr under ↦
              let q : b ≤ g = ground arith in
              let p = day-monotone (time b) (time g) (ordered up b g low q (omega arith)) in
              rw under
                (elim (two_days b low high) [ inl e' ↦ sym e' | inr e' ↦ absurd (omega arith) ])
        ]

    straddle-Ends :
        (most : Option ℕ) (bs : List ℕ) (w : Memo × S)
        → time from ≤ time to
        → day from ≢ day to
        → All In bs
        → IsTrueMemo get_block time w.0
        → Ends_ (Dated bs) (straddle get_block most from to (day from) (day to) bs w)
    unfolding straddle first_block_on_or_after_day
    straddle-Ends most bs w up apart ins i =
        let threshold : ℕ = elim most [ some n ↦ n | none ↦ bisection_cost from to ] in
        let le = day-monotone (time from) (time to) up in
        let less : day from < day to = elim (Bool-cases (ltb (day from) (day to))) [
          | inl l ↦ ltb→lt (day from) (day to) l
          | inr g ↦ let q = ltb-false→le (day from) (day to) g in absurd (apart (omega arith))
        ] in
        let wide : from < to = elim (Bool-cases (ltb from to)) [
          | inl l ↦ ltb→lt from to l
          | inr g ↦
              let q = ltb-false→le from to g in
              let same : from ≡ to = omega arith in absurd (apart (ap day same))
        ] in
        elim (Bool-cases (ltb threshold (length bs))) [
          | inr few ↦ rw (few, straddle) (name_each-Ends bs w ins i)
          | inl many ↦
              rw (many, straddle)
                (>>=-Ends get_block time In (IsFlip get_block time truthful In (day to) from to)
                  (Dated bs) (bisect get_block (to - from) (day to) from to)
                  (λ h. answer (ok (map (λ b. (b, (if leb h b then day to else day from))) bs))) w
                  (bisect-Ends get_block time truthful In (to - from) (day to) from to w
                    (λ b p r. (p, r)) i wide (omega arith) less (omega arith))
                  (λ h w' flip i'. (
                    map-same (λ b. (b, (if leb h b then day to else day from))) (λ b. (b, day b)) bs
                        (All-map bs (λ b k. ap (λ d. (b, d)) (boundary-day h b up less flip k))
                          ins),
                    i',
                  )))
        ]

    by_ends-Ends :
        (most : Option ℕ) (bs : List ℕ) (w : Memo × S)
        → All In bs
        → IsTrueMemo get_block time w.0
        → Ends_ (Dated bs) (by_ends get_block most from to (time from) (time to) bs w)
    unfolding by_ends
    by_ends-Ends most bs w ins i = elim (Bool-cases (leb (time from) (time to))) [
      | inr down ↦ rw (down, by_ends) (name_each-Ends bs w ins i)
      | inl level ↦
          let up = leb→le (time from) (time to) level in
          elim (Bool-cases (num_eq (day from) (day to))) [
            | inr other ↦
                rw (level, other, by_ends) (straddle-Ends most bs w up (λ e. ground arith) ins i)
            | inl same ↦
                let one : day from ≡ day to = ground arith in
                rw (level, same, by_ends)
                  (
                    map-same (λ b. (b, day from)) (λ b. (b, day b)) bs
                        (All-map bs
                          (λ b k.
                            ap (λ d. (b, d))
                              (elim (two_days b k.0 k.1) [ inl e ↦ sym e | inr e ↦ one ∙ sym e ]))
                          ins),
                    i,
                  )
          ]
    ]

    date_blocks-Ends :
        (most : Option ℕ) (bs : List ℕ) (w : Memo × S)
        → All In bs
        → IsTrueMemo get_block time w.0
        → Ends_ (Dated bs) (date_blocks get_block most from to (ok bs) w)
    unfolding date_blocks
    date_blocks-Ends most bs w ins i =
        >>=-Ends get_block time In (λ t. t ≡ time from) (Dated bs) (timestamp_of get_block from)
          (λ lo_ts.
            timestamp_of get_block to >>= λ hi_ts. by_ends get_block most from to lo_ts hi_ts bs)
          w (timestamp_of-Ends get_block time In truthful from w (omega arith, near) i)
          (λ lo_ts w' at_lo i'.
            >>=-Ends get_block time In (λ t. t ≡ time to) (Dated bs) (timestamp_of get_block to)
              (λ hi_ts. by_ends get_block most from to lo_ts hi_ts bs) w'
              (timestamp_of-Ends get_block time In truthful to w' (near, omega arith) i')
              (λ hi_ts w'' at_hi i''. rw (at_lo, at_hi) (by_ends-Ends most bs w'' ins i'')))

    recall_dated :
        (bs : List ℕ) (c : ℕ) → Has c bs → recall (map (λ b. (b, day b)) bs) c ≡ some (day c)
    unfolding recall
    recall_dated [] c h = elim h [ ]
    recall_dated (b ∷ bs) c h = elim (Bool-cases (num_eq b c)) [
      | inl same ↦ let at_c : b ≡ c = ground arith in rw same (ap (λ x. some (day x)) at_c)
      | inr other ↦
          rw other (elim h [ inl e ↦ absurd (ground arith) | inr k ↦ recall_dated bs c k ])
    ]

    each_found :
        (logs : List (Option ℕ)) (bs : List ℕ) (days : List (ℕ × ℕ))
        → All (λ log. (b : ℕ) × (log ≡ some b) × Has b bs) logs
        → Dated bs days
        → HasDays get_block time logs days
    each_found logs bs days h same =
        All-map logs
          (λ log (b, e, k).
            (b, e, subst (λ list. recall list b ≡ some (day b)) (sym same) (recall_dated bs b k)))
          h

    -- If a block's header has its timestamp, timestamps do not fall within the range unless they do
    -- from its first block to its last, and each block of the range is of the day of the first or of
    -- the last, then, with any logs of the range and a true memory: each log's block gets the day of
    -- its own timestamp, or there is a block of the range whose read did not answer with its
    -- timestamp. The bisection ends in its span, and the memory stays true.
    pub resolve_days-Ends :
        (most : Option ℕ) (logs : List (Option ℕ)) (w : Memo × S)
        → All (λ log. (b : ℕ) × (log ≡ some b) × In b) logs
        → IsTrueMemo get_block time w.0
        → Ends get_block time In
            (HasDays get_block time logs)
            (resolve_days get_block most logs from to w)
    unfolding resolve_days
    resolve_days-Ends most [] w ins i = (tt, i)
    resolve_days-Ends most (log ∷ logs) w ins i =
        let (bs, e) =
          log_blocks-total (log ∷ logs)
            (All-map (log ∷ logs) (λ l (b, there, k). (b, there)) ins) in
        let (all_in, found) = log_blocks-facts In (log ∷ logs) bs (in_range (log ∷ logs) ins) e in
        rw e (
          Ends-map get_block time In (Dated bs) (HasDays get_block time (log ∷ logs))
            (date_blocks get_block most from to (ok bs) w)
            (λ days same. each_found (log ∷ logs) bs days found same)
            (date_blocks-Ends most bs w all_in i))
      where
        in_range :
            (list : List (Option ℕ))
            → All (λ l. (b : ℕ) × (l ≡ some b) × In b) list
            → All (λ l. (b : ℕ) → l ≡ some b → In b) list
        in_range [] h = tt
        in_range (l ∷ list) ((b, e, k), hs) =
            ((λ c f. let same : b ≡ c = cc (e, f) in subst In same k), in_range list hs)
