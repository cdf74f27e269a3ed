-- ===== src/Quest/Verify/Tiers.antt =====
-- frontend/api/quest/verify.js: what the services are taken to do, and what the tiers answer.
use perps_litvm.Base.{
  ℕ, ◌≤◌, ◌≡◌, ◌↔◌, refl, String, true, false, Option, none, some, List, Try, ok, throw, Ask, Call,
  answer, All, Gives, >>=-Gives,
}
use perps_litvm.Quest.Sources.{Source}
use perps_litvm.Quest.Poll.{Scan}
use perps_litvm.Quest.IndexProof.{Answer}
use perps_litvm.Quest.Quests.{composite, tier1, Verdict, Tier1, read, declined, Quest, get_quest}
use perps_litvm.Quest.Cache.{cache_key}
use perps_litvm.Quest.Verify.{
  scanned, Services, ask_index, resolve_from_index, run_tier2, after_index, after_tier1, run_tier1,
  bucket_of,
}
use perps_litvm.Quest.Verify.Truth.{
  IsTrue, AnswerIsTrue, PositiveIsTrue, ScanIsTrue, settled-IsTrue, unsettled-IsTrue,
  scanned-IsTrue, from_answer-IsTrue,
}

-- What the services are taken to do, for one wallet and in the worlds `Inv`. `Means key` says that
-- the wallet of a cache key has done its quest, on the key's day if there is one; `Worth id r` is
-- what a result of the first tier carries over to the second.
pub record Sound {S : Type 0} (lower : String → String) (services : Services S) (address : String)
    (Done : String → Type 0) (NotBy : String → ℕ → Type 0) (Means : String → Type 0)
    (Worth : String → Tier1 → Type 0) (Inv : S → Type 0) : Type 0 where
  pub today_keeps : (s : S) → Inv s → Inv (services.today s).1
  -- The cache returns completions of the key, if any, and takes completions of the key.
  pub hit_true :
      (key : String) (s : S)
      → Inv s
      → Gives
          (λ hit. (v : Verdict) → hit ≡ some v → (v.completed ≡ true) × Means key)
          Inv
          (services.cache_driver.get key s)
  pub set_keeps :
      (key : String) (v : Verdict) (s : S)
      → Inv s
      → Means key
      → v.completed ≡ true
      → Inv (services.cache_driver.set key v s).1
  -- A quest's key in a world stands for the quest.
  pub means :
      (quest : Quest S) (s : S)
      → get_quest services.quests quest.id ≡ some quest
      → Inv s
      → Means (
          cache_key lower services.chain_text quest.id address
            (bucket_of lower services quest.kind s).0)
        ↔ Done quest.id
  pub tier1_true :
      (quest : Quest S) (check : String → Call S Tier1) (s : S)
      → get_quest services.quests quest.id ≡ some quest
      → quest.tier1 ≡ some check
      → Inv s
      → Gives (λ r. Worth quest.id r × PositiveIsTrue Done NotBy quest.id r) Inv (check address s)
  pub index_true :
      (quest : Quest S) (sources : List Source)
      (proof : String → String → List Source → ℕ → Ask S Answer) (head : ℕ) (s : S)
      → get_quest services.quests quest.id ≡ some quest
      → quest.index_sources ≡ some (ok sources)
      → services.index_proof ≡ some proof
      → Inv s
      → AnswerIsTrue Done NotBy quest.id (proof address quest.id sources head s).0
        × Inv (proof address quest.id sources head s).1
  pub tier2_true :
      (quest : Quest S) (scan_for : String → Tier1 → Call S Scan) (head : ℕ) (through : Option ℕ)
      (s : S)
      → get_quest services.quests quest.id ≡ some quest
      → quest.tier2 ≡ some scan_for
      → Worth quest.id (read false true head through)
      → Inv s
      → Gives
          (ScanIsTrue Done NotBy quest.id head)
          Inv
          (scan_for address (read false true head through) s)
  pub parts_done :
      (quest : Quest S)
      → get_quest services.quests quest.id ≡ some quest
      → quest.kind ≡ composite
      → (All Done quest.parts → Done quest.id)
        × All (λ i. (b : ℕ) → NotBy i b → NotBy quest.id b) quest.parts
  pub below : (i : String) (b c : ℕ) → NotBy i b → c ≤ b → NotBy i c

module _ {S : Type 0} (lower : String → String) (services : Services S) (address : String)
    (Done : String → Type 0) (NotBy : String → ℕ → Type 0) (Means : String → Type 0)
    (Worth : String → Tier1 → Type 0) (Inv : S → Type 0)
    (sound : Sound lower services address Done NotBy Means Worth Inv) where
  abbrev pub Listed : Quest S → Type 0
  Listed quest = get_quest services.quests quest.id ≡ some quest

  abbrev pub Holds : String → Verdict → Type 0
  Holds = IsTrue Done NotBy

  resolve_from_index-true :
      (quest : Quest S) (head : ℕ) (s : S)
      → Listed quest
      → Inv s
      → Gives
          (λ proven. (v : Verdict) → proven ≡ some v → Holds quest.id v)
          Inv
          (resolve_from_index lower services quest address head s)
  unfolding resolve_from_index
  resolve_from_index-true quest head s listed i =
      go quest.index_sources services.index_proof refl refl
    where
      go :
          (sources : Option (Try (List Source)))
          (proof : Option (String → String → List Source → ℕ → Ask S Answer))
          → quest.index_sources ≡ sources
          → services.index_proof ≡ proof
          → Gives
              (λ proven. (v : Verdict) → proven ≡ some v → Holds quest.id v)
              Inv
              (ask_index lower services sources proof address quest.id head s)
      go none proof e k = ((λ v n. cc), i)
      go (some sources) none e k = ((λ v n. cc), i)
      go (some (throw x)) (some proof) e k = i
      go (some (ok sources)) (some proof) e k =
          let (a, i') = sound.index_true quest sources proof head s listed e k i in
          ((λ v n. from_answer-IsTrue Done NotBy quest.id _ v a n), i')

  run_tier2-true :
      (quest : Quest S) (head : ℕ) (through : Option ℕ) (s : S)
      → Listed quest
      → Worth quest.id (read false true head through)
      → Inv s
      → Gives
          (Holds quest.id)
          Inv
          (run_tier2 lower services quest.tier2 address head (read false true head through) s)
  unfolding run_tier2
  run_tier2-true quest head through s listed worth i = go quest.tier2 refl
    where
      go :
          (t : Option (String → Tier1 → Call S Scan))
          → quest.tier2 ≡ t
          → Gives
              (Holds quest.id)
              Inv
              (run_tier2 lower services t address head (read false true head through) s)
      go none e = (unsettled-IsTrue Done NotBy quest.id (some tier1) (some head) none, i)
      go (some scan_for) e =
          >>=-Gives (ScanIsTrue Done NotBy quest.id head) (Holds quest.id) Inv
            (scan_for address (read false true head through))
            (λ scan. answer (ok (scanned head scan))) s
            (sound.tier2_true quest scan_for head through s listed e worth i)
            (λ scan s' t i'. (scanned-IsTrue Done NotBy quest.id head scan t, i'))

  after_tier1-true :
      (quest : Quest S) (r : Tier1) (s : S)
      → Listed quest
      → Worth quest.id r
      → PositiveIsTrue Done NotBy quest.id r
      → Inv s
      → Gives (Holds quest.id) Inv (after_tier1 lower services quest address r s)
  unfolding after_tier1 after_index
  after_tier1-true quest (declined why) s listed w p i =
      (unsettled-IsTrue Done NotBy quest.id (some tier1) none (some why), i)
  after_tier1-true quest (read true reliable head through) s listed w p i =
      (settled-IsTrue Done NotBy quest.id tier1 (some head) p, i)
  after_tier1-true quest (read false false head through) s listed w p i =
      (unsettled-IsTrue Done NotBy quest.id (some tier1) (some head) (some "tier1_unreliable"), i)
  after_tier1-true quest (read false true head through) s listed w p i =
      >>=-Gives (λ proven. (v : Verdict) → proven ≡ some v → Holds quest.id v) (Holds quest.id) Inv
        (resolve_from_index lower services quest address head)
        (after_index lower services quest address head (read false true head through)) s
        (resolve_from_index-true quest head s listed i) go
    where
      go :
          (proven : Option Verdict) (s' : S)
          → ((v : Verdict) → proven ≡ some v → Holds quest.id v)
          → Inv s'
          → Gives (Holds quest.id) Inv (
              after_index lower services quest address head
                (read false true head through)
                proven
                s')
      go (some v) s' t i' = (t v refl, i')
      go none s' t i' = run_tier2-true quest head through s' listed w i'

  pub run_tier1-true :
      (quest : Quest S) (s : S)
      → Listed quest
      → Inv s
      → Gives (Holds quest.id) Inv (run_tier1 lower services quest quest.tier1 address s)
  unfolding run_tier1
  run_tier1-true quest s listed i = go quest.tier1 refl
    where
      go :
          (t : Option (String → Call S Tier1))
          → quest.tier1 ≡ t
          → Gives (Holds quest.id) Inv (run_tier1 lower services quest t address s)
      go none e = i
      go (some check) e =
          >>=-Gives (λ r. Worth quest.id r × PositiveIsTrue Done NotBy quest.id r) (Holds quest.id)
            Inv (check address) (after_tier1 lower services quest address) s
            (sound.tier1_true quest check s listed e i)
            (λ r s' t i'. after_tier1-true quest r s' listed t.0 t.1 i')
