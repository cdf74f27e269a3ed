-- ===== src/Quest/Verify/Resolve.antt =====
-- frontend/api/quest/verify.js: what `resolveQuest` answers, and what it leaves in the cache.
use perps_litvm.Base.{
  ℕ, zero, suc, ◌≡◌, inl, inr, refl, subst, String, true, Option, none, some, List, [], ◌∷◌, Try,
  ok, throw, Call, answer, Bool-cases, Option-cases, Gives, >>=-Gives,
}
use perps_litvm.Quest.Quests.{Kind, one_time, daily, composite, Verdict, Tier1, Quest, get_quest}
use perps_litvm.Quest.Cache.{cache_key, is_cacheable, hit_of, cache_get, cache_set}
use perps_litvm.Quest.Verify.{
  is_proven_false, conjoin, with_verdict, is_index, Services, resolve_parts, compose_quest,
  verify_kind, verify_quest, bucket_of, remember, after_lookup, with_cache, resolve_quest,
  reason_or,
}
use perps_litvm.Quest.Verify.Truth.{get_quest-some, IsTrue, AllTrue, unsettled-IsTrue}
use perps_litvm.Quest.Verify.Parts.{conjoin-IsTrue}
use perps_litvm.Quest.Verify.Tiers.{Sound, run_tier1-true}

module _ {S : Type 0} (lower : String → String) (services : Services S) (address : String)
    (Done : String → Type 0) (NotBy : String → ℕ → Type 0) (Means : String → Type 0)
    (Worth : String → Tier1 → Type 0) (Inv : S → Type 0)
    (sound : Sound lower services address Done NotBy Means Worth Inv) where
  abbrev Holds : String → Verdict → Type 0
  Holds = IsTrue Done NotBy

  abbrev Known : Quest S → Type 0
  Known quest = get_quest services.quests quest.id ≡ some quest

  module _ (part_of : Quest S → Call S Verdict)
      (part_true : (part : Quest S) (s : S)
        → Known part
        → Inv s
        → Gives (Holds part.id) Inv (part_of part s)) where
    resolve_parts-true :
        (ids : List String) (s : S)
        → Inv s
        → Gives (AllTrue Done NotBy ids) Inv (resolve_parts lower services part_of ids s)
    unfolding resolve_parts
    resolve_parts-true [] s i = (tt, i)
    resolve_parts-true (id ∷ ids) s i = elim (Option-cases (get_quest services.quests id)) [
      | inl missing ↦ rw (missing, resolve_parts) i
      | inr (part, there) ↦
          let (same, known) = get_quest-some services.quests id part there in
          rw (there, resolve_parts)
            (go (part_of part s).0 (part_of part s).1 (resolve_parts-true ids)
              (subst (λ x. Gives (Holds x) Inv (part_of part s)) same (part_true part s known i)))
    ]
      where
        both :
            (v : Verdict) (rest : Try (List Verdict)) (s' : S)
            → Holds id v
            → Gives (AllTrue Done NotBy ids) Inv (rest, s')
            → Gives (AllTrue Done NotBy (id ∷ ids)) Inv (with_verdict (ok v) rest, s')
        both v (ok vs) s' h (hs, i') = ((h, hs), i')
        both v (throw e) s' h i' = i'

        failed :
            (e : String) (rest : Try (List Verdict)) (s' : S)
            → Gives (AllTrue Done NotBy ids) Inv (rest, s')
            → Gives (AllTrue Done NotBy (id ∷ ids)) Inv (with_verdict (throw e) rest, s')
        failed e (ok vs) s' (hs, i') = i'
        failed e (throw x) s' i' = i'

        go :
            (r : Try Verdict) (s' : S)
            → ((s' : S)
                → Inv s'
                → Gives (AllTrue Done NotBy ids) Inv (resolve_parts lower services part_of ids s'))
            → Gives (Holds id) Inv (r, s')
            → Gives (AllTrue Done NotBy (id ∷ ids)) Inv (
              with_verdict r (resolve_parts lower services part_of ids s').0,
              (resolve_parts lower services part_of ids s').1,
            )
        go (ok v) s' again (h, i') = both v _ _ h (again s' i')
        go (throw e) s' again i' = failed e _ _ (again s' i')

    compose_quest-true :
        (quest : Quest S) (s : S)
        → Known quest
        → quest.kind ≡ composite
        → Inv s
        → Gives (Holds quest.id) Inv (compose_quest lower services part_of quest s)
    unfolding compose_quest
    compose_quest-true quest s known k i =
        let (up_done, up) = sound.parts_done quest known k in
        >>=-Gives (AllTrue Done NotBy quest.parts) (Holds quest.id) Inv
          (resolve_parts lower services part_of quest.parts) (λ vs. answer (ok (conjoin vs))) s
          (resolve_parts-true quest.parts s i)
          (λ vs s' h i'.
            (conjoin-IsTrue Done NotBy quest.id quest.parts vs sound.below up_done up h, i'))

    verify_kind-true :
        (kind : Kind) (quest : Quest S) (s : S)
        → quest.kind ≡ kind
        → Known quest
        → Inv s
        → Gives (Holds quest.id) Inv (verify_kind lower services part_of kind quest address s)
    unfolding verify_kind
    verify_kind-true composite quest s k known i = compose_quest-true quest s known k i
    verify_kind-true one_time quest s k known i =
        run_tier1-true lower services address Done NotBy Means Worth Inv sound quest s known i
    verify_kind-true daily quest s k known i =
        run_tier1-true lower services address Done NotBy Means Worth Inv sound quest s known i

    verify_quest-true :
        (quest : Quest S) (s : S)
        → Known quest
        → Inv s
        → Gives (Holds quest.id) Inv (verify_quest lower services part_of quest address s)
    unfolding verify_quest
    verify_quest-true quest s known i = elim (Bool-cases quest.available) [
      | inr closed ↦
          rw (closed, verify_quest)
            (
              unsettled-IsTrue Done NotBy quest.id none none
                  (some (reason_or quest.unavailable_reason "not_yet_available")),
              i,
            )
      | inl there ↦ rw (there, verify_quest) (verify_kind-true quest.kind quest s refl known i)
    ]

  cache_set-keeps :
      (key : String) (v : Verdict) (s : S)
      → Inv s
      → (v.completed ≡ true → Means key)
      → Inv (cache_set services.cache_driver key v s).1
  unfolding cache_set is_cacheable
  cache_set-keeps key v s i means = elim (Bool-cases (is_cacheable v)) [
    | inr dropped ↦ rw (dropped, cache_set) i
    | inl kept ↦
        rw (kept, cache_set)
          (elim (Bool-cases v.completed) [
            | inl done ↦ sound.set_keeps key v s i (means done) done
            | inr undone ↦ absurd (let e = rw undone at kept in cc e)
          ])
  ]

  remember-true :
      (id key : String) (r : Try Verdict) (s : S)
      → (Done id → Means key)
      → Gives (Holds id) Inv (r, s)
      → Gives (Holds id) Inv (remember lower services key r s)
  unfolding remember
  remember-true id key (throw e) s up i = i
  remember-true id key (ok v) s up (h, i) = elim (Bool-cases (is_index lower services v.source)) [
    | inl indexed ↦ rw (indexed, remember) (h, i)
    | inr other ↦
        rw (other, remember)
          (
            h,
            cache_set-keeps key v s i
                (λ done. up (elim h.0 [ inl undone ↦ absurd (cc (done, undone)) | inr d ↦ d ])),
          )
  ]

  bucket_of-keeps : (kind : Kind) (s : S) → Inv s → Inv (bucket_of lower services kind s).1
  unfolding bucket_of
  bucket_of-keeps daily s i = sound.today_keeps s i
  bucket_of-keeps one_time s i = i
  bucket_of-keeps composite s i = i

  cache_get-true :
      (key : String) (s : S)
      → Inv s
      → ((v : Verdict)
          → (cache_get services.cache_driver key s).0 ≡ some v
          → (v.completed ≡ true) × Means key)
        × Inv (cache_get services.cache_driver key s).1
  unfolding cache_get
  cache_get-true key s i = go _ _ (sound.hit_true key s i)
    where
      go :
          (r : Try (Option Verdict)) (s' : S)
          → Gives
              (λ hit. (v : Verdict) → hit ≡ some v → (v.completed ≡ true) × Means key)
              Inv
              (r, s')
          → ((v : Verdict) → hit_of r ≡ some v → (v.completed ≡ true) × Means key) × Inv s'
      go (ok hit) s' h = h
      go (throw e) s' i' = ((λ v n. cc), i')

  with_cache-true :
      (quest : Quest S) (verify : Call S Verdict) (s : S)
      → Known quest
      → ((s' : S) → Inv s' → Gives (Holds quest.id) Inv (verify s'))
      → Inv s
      → Gives (Holds quest.id) Inv (with_cache lower services quest address verify s)
  unfolding with_cache
  with_cache-true quest verify s known verified i =
      let b = bucket_of lower services quest.kind s in
      let key = cache_key lower services.chain_text quest.id address b.0 in
      let g = cache_get-true key b.1 (bucket_of-keeps quest.kind s i) in
      let m = sound.means quest s known i in
      go key (cache_get services.cache_driver key b.1).0 (cache_get services.cache_driver key b.1).1
        m.1 (λ v e. let (done, k) = g.0 v e in (done, m.0 k)) g.1
    where
      go :
          (key : String) (hit : Option Verdict) (s' : S)
          → (Done quest.id → Means key)
          → ((v : Verdict) → hit ≡ some v → (v.completed ≡ true) × Done quest.id)
          → Inv s'
          → Gives (Holds quest.id) Inv (after_lookup lower services key hit verify s')
      go key (some v) s' up h i' =
          let (done, d) = h v refl in ((inr d, inl (unfold is_proven_false in rw done refl)), i')
      go key none s' up h i' = remember-true quest.id key _ _ up (verified s' i')

  -- If the tiers, the index proof and the cache's driver say only what is true, and a composite is
  -- done when its parts are and missing when one is, then a verdict says completed only of a quest
  -- that is done, and a confirmed negative only of one that is not done by the negative's block, or
  -- by some block where the negative names none; and whatever fails, the cache still has completions only.
  pub resolve_quest-IsTrue :
      (depth : ℕ) (quest : Quest S) (s : S)
      → get_quest services.quests quest.id ≡ some quest
      → Inv s
      → Gives (IsTrue Done NotBy quest.id) Inv (resolve_quest lower services depth quest address s)
  unfolding resolve_quest
  resolve_quest-IsTrue zero quest s known i = i
  resolve_quest-IsTrue (suc depth) quest s known i =
      let part_of = λ (part : Quest S). resolve_quest lower services depth part address in
      with_cache-true quest (verify_quest lower services part_of quest address) s known
        (λ s' i'. verify_quest-true part_of (resolve_quest-IsTrue depth) quest s' known i') i
