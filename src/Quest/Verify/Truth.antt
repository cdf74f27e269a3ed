-- ===== src/Quest/Verify/Truth.antt =====
-- frontend/api/quest/verify.js: a verdict says only what is true.
use text.Mathlib.Text.{◌==◌}
use text.Mathlib.TextEquality.{eq_iff}
use perps_litvm.Base.{
  ℕ, ◌≡◌, ◌⊎◌, inl, inr, refl, sym, ap, subst, ◌∙◌, String, true, false, Option, none, some, List,
  [], ◌∷◌, Bool-cases, some-injective,
}
use perps_litvm.Quest.Poll.{Scan}
use perps_litvm.Quest.IndexProof.{Answer, completed, absent, unproven}
use perps_litvm.Quest.Quests.{Origin, Verdict, Tier1, read, declined, Quest, get_quest}
use perps_litvm.Quest.Cache.{is_confirmed}
use perps_litvm.Quest.Verify.{settled, unsettled, scanned, from_answer, is_proven_false}

pub get_quest-some :
    {S : Type 0} (quests : List (Quest S)) (id : String) (quest : Quest S)
    → get_quest quests id ≡ some quest
    → (quest.id ≡ id) × (get_quest quests quest.id ≡ some quest)
unfolding get_quest
get_quest-some {S} quests id quest e =
    (same quests e, subst (λ x. get_quest quests x ≡ some quest) (sym (same quests e)) e)
  where
    same : (qs : List (Quest S)) → get_quest qs id ≡ some quest → quest.id ≡ id
    same [] h = cc
    same (q ∷ qs) h = elim (Bool-cases (q.id == id)) [
      | inl here ↦
          let h' = rw here at h in
          let at_head : q ≡ quest = cc h' in
          ap (λ (x : Quest S). x.id) (sym at_head) ∙ (eq_iff q.id id).0 here
      | inr later ↦ same qs (rw later at h)
    ]

-- `Done id` says that the wallet has done the quest, and `NotBy id b` that it has not up to
-- block `b`.
module _ (Done : String → Type 0) (NotBy : String → ℕ → Type 0) where
  -- A negative is up to its block; one that names no block has a block by which it holds.
  abbrev pub NegativeIsTrue : String → Option ℕ → Type 0
  NegativeIsTrue id (some b) = NotBy id b
  NegativeIsTrue id none = (b : ℕ) × NotBy id b

  pub negative_block :
      (id : String) (through : Option ℕ) → NegativeIsTrue id through → (b : ℕ) × NotBy id b
  negative_block id (some b) n = (b, n)
  negative_block id none n = n

  abbrev pub IsTrue : String → Verdict → Type 0
  IsTrue id v =
      ((v.completed ≡ false) ⊎ Done id)
      × ((is_proven_false v ≡ false) ⊎ NegativeIsTrue id v.checked_through)

  abbrev pub AnswerIsTrue : String → Answer → Type 0
  AnswerIsTrue id (completed block) = Done id
  AnswerIsTrue id (absent through joins) = NotBy id through
  AnswerIsTrue id (unproven detail) = Unit

  abbrev pub PositiveIsTrue : String → Tier1 → Type 0
  PositiveIsTrue id (read true reliable head through) = Done id
  PositiveIsTrue id (read false reliable head through) = Unit
  PositiveIsTrue id (declined why) = Unit

  abbrev pub ScanIsTrue : String → ℕ → Scan → Type 0
  ScanIsTrue id head scan =
      ((scan.found ≡ false) ⊎ Done id)
      × ((scan.found ≡ true) ⊎ (scan.complete ≡ false) ⊎ NotBy id head)

  abbrev pub AllTrue : List String → List Verdict → Type 0
  AllTrue [] [] = Unit
  AllTrue (id ∷ ids) (v ∷ vs) = IsTrue id v × AllTrue ids vs
  AllTrue [] (v ∷ vs) = ⊥
  AllTrue (id ∷ ids) [] = ⊥

  pub settled-IsTrue :
      (id : String) (source : Origin) (block : Option ℕ)
      → Done id
      → IsTrue id (settled true source block)
  unfolding settled is_proven_false
  settled-IsTrue id source block h = (inr h, inl refl)

  pub unsettled-IsTrue :
      (id : String) (source : Option Origin) (block : Option ℕ) (why : Option String)
      → IsTrue id (unsettled source block why)
  unfolding unsettled is_proven_false is_confirmed
  unsettled-IsTrue id source block why = (inl refl, inl refl)

  pub scanned-IsTrue :
      (id : String) (head : ℕ) (scan : Scan)
      → ScanIsTrue id head scan
      → IsTrue id (scanned head scan)
  unfolding scanned settled unsettled is_proven_false is_confirmed
  scanned-IsTrue id head scan (pos, neg) = elim (Bool-cases scan.found) [
    | inl hit ↦
        rw (hit, scanned)
          (inr (elim pos [ inl missed ↦ absurd (cc (hit, missed)) | inr d ↦ d ]), inl refl)
    | inr miss ↦ elim (Bool-cases scan.complete) [
      | inr short ↦ rw (miss, short, scanned) (inl refl, inl refl)
      | inl whole ↦
          rw (miss, whole, scanned)
            (
              inl refl,
              inr (elim neg [
                | inl hit ↦ absurd (cc (hit, miss))
                | inr (inl short) ↦ absurd (cc (short, whole))
                | inr (inr n) ↦ n
              ]),
            )
    ]
  ]

  pub from_answer-IsTrue :
      (id : String) (a : Answer) (v : Verdict)
      → AnswerIsTrue id a
      → from_answer a ≡ some v
      → IsTrue id v
  unfolding from_answer settled is_proven_false
  from_answer-IsTrue id (completed block) v h e =
      subst (IsTrue id) (some-injective e) (inr h, inl refl)
  from_answer-IsTrue id (absent through joins) v h e =
      subst (IsTrue id) (some-injective e) (inl refl, inr h)
  from_answer-IsTrue id (unproven detail) v h e = cc
