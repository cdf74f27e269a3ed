-- ===== src/Quest/Checks/Proof.antt =====
-- frontend/api/_lib/quest/checks.js: what the first tiers prove of the stakes and positions they read.
use perps_litvm.Base.{
  ℕ, zero, suc, ◌≡◌, ◌⊎◌, inl, inr, refl, sym, subst, ◌∙◌, String, Bool, true, false, Option, none,
  some, List, [], ◌∷◌, all, any, map, Try, ok, throw, Call, ◌>>=◌, answer, arith, All, Bool-cases,
  >>=-elim, ok-injective,
}
use perps_litvm.Quest.Quests.{Tier1, read, declined}
use perps_litvm.Quest.Chain.{ReadCall, positions, market_count, stake_of, read_of, batch_read}
use perps_litvm.Quest.Checks.{
  tail_ids, is_read, is_above_zero, is_staked, judged, first_result, position_calls,
  trade_positions, first_trade_tier1, stake_calls, after_count, first_prediction_tier1,
}
use perps_litvm.Quest.Checks.Tail.{IsNewest, tail_ids-All, tail_ids-each}

-- The results of a batch are those of its calls, in order, where they were read.
abbrev pub AreResults : {A B : Type 0} → (A → B) → List A → List (Option B) → Type 0
AreResults value [] [] = Unit
AreResults {A} {B} value (x ∷ xs) (r ∷ rs) =
    ((b : B) → r ≡ some b → b ≡ value x) × AreResults value xs rs
AreResults value [] (r ∷ rs) = ⊥
AreResults value (x ∷ xs) [] = ⊥

module _ {A B : Type 0} (value : A → B) (proves : Option B → Bool)
    (unread : proves none ≡ false) where
  abbrev Attests : A → Type 0
  Attests x = proves (some (value x)) ≡ true

  any_proves :
      (Q : A → Type 0) (xs : List A) (rs : List (Option B))
      → AreResults value xs rs
      → All Q xs
      → any proves rs ≡ true
      → (x : A) × Q x × Attests x
  any_proves Q [] [] h k e = cc
  any_proves Q [] (r ∷ rs) h k e = elim h [ ]
  any_proves Q (x ∷ xs) [] h k e = elim h [ ]
  any_proves Q (x ∷ xs) (none ∷ rs) (h, hs) (k, ks) e =
      any_proves Q xs rs hs ks (let e' = rw unread at e in e')
  any_proves Q (x ∷ xs) (some b ∷ rs) (h, hs) (k, ks) e = elim (Bool-cases (proves (some b))) [
    | inl proved ↦ (x, k, subst (λ y. proves (some y) ≡ true) (h b refl) proved)
    | inr failed ↦ any_proves Q xs rs hs ks (let e' = rw failed at e in e')
  ]

  none_proves :
      (xs : List A) (rs : List (Option B))
      → AreResults value xs rs
      → any proves rs ≡ false
      → all is_read rs ≡ true
      → All (λ x. proves (some (value x)) ≡ false) xs
  unfolding is_read
  none_proves [] [] h e f = tt
  none_proves [] (r ∷ rs) h e f = elim h [ ]
  none_proves (x ∷ xs) [] h e f = elim h [ ]
  none_proves (x ∷ xs) (none ∷ rs) (h, hs) e f = cc
  none_proves (x ∷ xs) (some b ∷ rs) (h, hs) e f = elim (Bool-cases (proves (some b))) [
    | inl proved ↦ absurd (let e' = rw proved at e in cc e')
    | inr failed ↦ (
      subst (λ y. proves (some y) ≡ false) (h b refl) failed,
      none_proves xs rs hs (let e' = rw failed at e in e') f,
    )
  ]

  -- What a result of the first tier says of the things that a batch reads.
  abbrev pub Tells : (A → Type 0) → Try Tier1 → Type 0
  Tells Q (throw e) = Unit
  Tells Q (ok (declined why)) = Unit
  Tells Q (ok (read true reliable head through)) = (x : A) × Q x × Attests x
  Tells Q (ok (read false true head through)) = (x : A) → Q x → proves (some (value x)) ≡ false
  Tells Q (ok (read false false head through)) = Unit

  judged-Tells :
      (Q : A → Type 0) (xs : List A) (rs : List (Option B)) (head : ℕ)
      → AreResults value xs rs
      → All Q xs
      → ((P : A → Type 0) → All P xs → (x : A) → Q x → P x)
      → Tells Q (ok (judged proves head rs))
  unfolding judged
  judged-Tells Q xs rs head h k each = elim (Bool-cases (any proves rs)) [
    | inl proved ↦ rw (proved, judged) (any_proves Q xs rs h k proved)
    | inr failed ↦ elim (Bool-cases (all is_read rs)) [
      | inr short ↦ rw (failed, short, judged) tt
      | inl whole ↦
          rw (failed, whole, judged)
            (each (λ x. proves (some (value x)) ≡ false) (none_proves xs rs h failed whole))
    ]
  ]

pub is_above_zero-none : is_above_zero none ≡ false
unfolding is_above_zero
is_above_zero-none = refl

pub is_staked-none : is_staked none ≡ false
unfolding is_staked
is_staked-none = refl

trades_listed : All (λ (p : String × Bool). (p.0 ≡ "BTC") ⊎ (p.0 ≡ "ETH")) trade_positions
unfolding trade_positions
trades_listed = (inl refl, (inl refl, (inr refl, (inr refl, tt))))

trades_each :
    (P : String × Bool → Type 0)
    → All P trade_positions
    → (p : String × Bool) → (p.0 ≡ "BTC") ⊎ (p.0 ≡ "ETH")
    → P p
unfolding trade_positions
trades_each P (a, (b, (c, (d, rest)))) (m, true) (inl e) = subst (λ x. P (x, true)) (sym e) a
trades_each P (a, (b, (c, (d, rest)))) (m, false) (inl e) = subst (λ x. P (x, false)) (sym e) b
trades_each P (a, (b, (c, (d, rest)))) (m, true) (inr e) = subst (λ x. P (x, true)) (sym e) c
trades_each P (a, (b, (c, (d, rest)))) (m, false) (inr e) = subst (λ x. P (x, false)) (sym e) d

module _ {S Data : Type 0} (head_block : Call S ℕ)
    (aggregate3 : List ReadCall → Call S (List (Bool × Data)))
    (position_key : String → String → Bool → String) (decode_size : Data → Option ℕ)
    (decode_count : Data → Option ℕ) (decode_stakes : Data → Option (ℕ × ℕ))
    (decode_balance : Data → Option ℕ) (address : String) where
  batch_read-eq :
      {B : Type 0} (decode : Data → Option B) (call : ReadCall) (calls : List ReadCall) (s : S)
      (results : List (Option B))
      → (batch_read aggregate3 decode (call ∷ calls) s).0 ≡ ok results
      → (rs : List (Bool × Data)) × ((aggregate3 (call ∷ calls) s).0 ≡ ok rs)
        × (map (read_of decode) rs ≡ results)
  unfolding batch_read
  batch_read-eq {B} decode call calls s results =
      >>=-elim
        (λ p.
          p.0 ≡ ok results
          → (rs : List (Bool × Data)) × ((aggregate3 (call ∷ calls) s).0 ≡ ok rs)
            × (map (read_of decode) rs ≡ results))
        (aggregate3 (call ∷ calls)) (λ rs. answer (ok (map (read_of decode) rs))) s (λ e z k. cc)
        (λ rs z k. (rs, z, ok-injective k))

  batch_read-Tells :
      {A B : Type 0} (value : A → B) (proves : Option B → Bool) (unread : proves none ≡ false)
      (decode : Data → Option B) (call_of : A → ReadCall) (Q : A → Type 0) (xs : List A) (head : ℕ)
      (s : S)
      → ((rs : List (Bool × Data))
          → (aggregate3 (map call_of xs) s).0 ≡ ok rs
          → AreResults value xs (map (read_of decode) rs))
      → All Q xs
      → ((P : A → Type 0) → All P xs → (y : A) → Q y → P y)
      → Tells value proves unread Q
          ((batch_read aggregate3 decode (map call_of xs) >>= λ results.
              answer (ok (judged proves head results)))
            s).0
  batch_read-Tells value proves unread decode call_of Q [] head s truthful k each =
      unfold batch_read in judged-Tells value proves unread Q [] [] head tt k each
  batch_read-Tells value proves unread decode call_of Q (x ∷ xs) head s truthful k each =
      let calls = map call_of (x ∷ xs) in
      >>=-elim (λ p. Tells value proves unread Q p.0) (batch_read aggregate3 decode calls)
        (λ results. answer (ok (judged proves head results))) s (λ e z. tt)
        (λ results z.
          let (rs, there, same) = batch_read-eq decode (call_of x) (map call_of xs) s results z in
          judged-Tells value proves unread Q (x ∷ xs) results head
            (subst (AreResults value (x ∷ xs)) same (truthful rs there)) k each)

  abbrev PredictionTells : ℕ → (ℕ → ℕ × ℕ) → Try Tier1 → Type 0
  PredictionTells count stake = Tells stake is_staked is_staked-none (IsNewest count)

  after_count-Tells :
      (count : ℕ) (stake : ℕ → ℕ × ℕ) (head : ℕ) (read_count : Option ℕ) (s : S)
      → ((n : ℕ) → read_count ≡ some n → n ≡ count)
      → ((ids : List ℕ) (s' : S) (rs : List (Bool × Data))
          → (aggregate3 (map (λ id. stake_of id address) ids) s').0 ≡ ok rs
          → AreResults stake ids (map (read_of decode_stakes) rs))
      → PredictionTells count stake
          (after_count head_block aggregate3 position_key decode_size decode_count decode_stakes
            decode_balance address head read_count s).0
  unfolding after_count stake_calls
  after_count-Tells count stake head none s counted staked = tt
  after_count-Tells count stake head (some zero) s counted staked =
      λ id newest. absurd (let e = counted 0 refl in let (low, high) = newest in omega arith)
  after_count-Tells count stake head (some (suc n)) s counted staked =
      subst
        (λ m.
          PredictionTells m stake
            (after_count head_block aggregate3 position_key decode_size decode_count decode_stakes
              decode_balance address head (some (suc n)) s).0)
        (counted (suc n) refl)
        (batch_read-Tells stake is_staked is_staked-none decode_stakes (λ id. stake_of id address)
          (IsNewest (suc n)) (tail_ids (suc n)) head s (staked (tail_ids (suc n)) s)
          (tail_ids-All (suc n) (omega arith))
          (λ P h id newest. tail_ids-each P (suc n) id h newest))

  counted_first :
      (count : ℕ) (results : List (Option ℕ)) (first : Option ℕ)
      → AreResults (λ call. count) (market_count ∷ []) results
      → first_result results ≡ ok first
      → (n : ℕ) → first ≡ some n
      → n ≡ count
  unfolding first_result
  counted_first count [] first h e n f = elim h [ ]
  counted_first count (r ∷ rs) first (h, hs) e n f = h n (ok-injective e ∙ f)

  -- If what a batch reads is the chain's count of markets and the wallet's stakes in them, the first
  -- tier of `first_prediction` is completed only with a stake in one of the newest 48 markets, and a
  -- reliable negative means that none of these has one; there is no id beyond the count among them.
  pub first_prediction_tier1-IsRight :
      (count : ℕ) (stake : ℕ → ℕ × ℕ) (s : S)
      → ((s' : S) (rs : List (Bool × Data))
          → (aggregate3 (market_count ∷ []) s').0 ≡ ok rs
          → AreResults (λ call. count) (market_count ∷ []) (map (read_of decode_count) rs))
      → ((ids : List ℕ) (s' : S) (rs : List (Bool × Data))
          → (aggregate3 (map (λ id. stake_of id address) ids) s').0 ≡ ok rs
          → AreResults stake ids (map (read_of decode_stakes) rs))
      → PredictionTells count stake
          (first_prediction_tier1 head_block aggregate3 position_key decode_size decode_count
            decode_stakes decode_balance address s).0
  unfolding first_prediction_tier1
  first_prediction_tier1-IsRight count stake s counted staked =
      let rest =
        after_count head_block aggregate3 position_key decode_size decode_count decode_stakes
          decode_balance address in
      let P = λ (p : Try Tier1 × S). PredictionTells count stake p.0 in
      >>=-elim P head_block
        (λ head. batch_read aggregate3 decode_count (market_count ∷ []) >>= λ results.
          answer (first_result results) >>= rest head)
        s (λ e z. tt)
        (λ head z.
          >>=-elim P (batch_read aggregate3 decode_count (market_count ∷ []))
            (λ results. answer (first_result results) >>= rest head) (head_block s).1 (λ e y. tt)
            (λ results y.
              let s' =
                (batch_read aggregate3 decode_count (market_count ∷ []) (head_block s).1).1 in
              let (rs, there, same) =
                batch_read-eq decode_count market_count [] (head_block s).1 results y in
              >>=-elim P (answer (first_result results)) (rest head) s' (λ e x. tt)
                (λ first x.
                  after_count-Tells count stake head first s'
                    (counted_first count results first
                      (subst (AreResults (λ call. count) (market_count ∷ [])) same
                        (counted (head_block s).1 rs there))
                      x)
                    staked)))

  -- If what a batch reads is the sizes of the wallet's positions, the first tier of `first_trade` is
  -- completed only with an open position in one of the four, and a reliable negative means that none
  -- of them is open.
  pub first_trade_tier1-IsRight :
      (size : String × Bool → ℕ) (s : S)
      → ((s' : S) (rs : List (Bool × Data))
          → (aggregate3
              (map
                (λ (p : String × Bool). positions (position_key address p.0 p.1))
                trade_positions)
              s').0
            ≡ ok rs
          → AreResults size trade_positions (map (read_of decode_size) rs))
      → Tells size is_above_zero is_above_zero-none
          (λ p. (p.0 ≡ "BTC") ⊎ (p.0 ≡ "ETH"))
          (first_trade_tier1 head_block aggregate3 position_key decode_size decode_count
            decode_stakes decode_balance address s).0
  unfolding first_trade_tier1 position_calls
  first_trade_tier1-IsRight size s sized =
      >>=-elim
        (λ p. Tells size is_above_zero is_above_zero-none (λ q. (q.0 ≡ "BTC") ⊎ (q.0 ≡ "ETH")) p.0)
        head_block
        (λ head.
          batch_read aggregate3 decode_size
            (map (λ (p : String × Bool). positions (position_key address p.0 p.1)) trade_positions)
          >>= λ results. answer (ok (judged is_above_zero head results)))
        s (λ e z. tt)
        (λ head z.
          batch_read-Tells size is_above_zero is_above_zero-none decode_size
            (λ (p : String × Bool). positions (position_key address p.0 p.1))
            (λ p. (p.0 ≡ "BTC") ⊎ (p.0 ≡ "ETH")) trade_positions head (head_block s).1
            (sized (head_block s).1) trades_listed trades_each)
