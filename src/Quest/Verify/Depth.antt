-- ===== src/Quest/Verify/Depth.antt =====
-- frontend/api/quest/verify.js, `resolveQuest`: how deep composites are nested.
use perps_litvm.Base.{
  ℕ, suc, ◌≡◌, ◌≢◌, ◌⊎◌, inl, inr, refl, sym, ap, subst, fun_ext, String, some, List, [], ◌∷◌, Try,
  ok, Call, ◌>>=◌, answer, All, Bool-cases, Option-cases, some-injective, All-map,
}
use text.Mathlib.Text.{◌==◌}
use perps_litvm.Quest.Quests.{
  Kind, one_time, daily, composite, Verdict, Quest, get_quest, Checks, all_quests,
}
use perps_litvm.Quest.Verify.{
  conjoin, with_verdict, Services, resolve_parts, compose_quest, verify_kind, verify_quest,
  with_cache, resolve_quest,
}

-- The parts of a listed composite are no composites.
abbrev pub IsFlat : {S : Type 0} → List (Quest S) → Type 0
IsFlat {S} quests =
    (quest : Quest S)
    → get_quest quests quest.id ≡ some quest
    → All (λ id. (part : Quest S) → get_quest quests id ≡ some part → part.kind ≢ composite)
        quest.parts

pub get_quest-All :
    {S : Type 0} (P : Quest S → Type 0) (quests : List (Quest S)) (id : String) (quest : Quest S)
    → All P quests
    → get_quest quests id ≡ some quest
    → P quest
unfolding get_quest
get_quest-All P [] id quest h e = cc
get_quest-All P (q ∷ qs) id quest (h, hs) e = elim (Bool-cases (q.id == id)) [
  | inl here ↦ subst P (some-injective (rw here at e)) h
  | inr later ↦ get_quest-All P qs id quest hs (rw later at e)
]

all_quests-IsFlat : {S : Type 0} (c : Checks S) → IsFlat (all_quests c)
unfolding all_quests get_quest
all_quests-IsFlat c quest known =
    get_quest-All
      (λ q.
        All
          (λ id. (part : Quest _) → get_quest (all_quests c) id ≡ some part → part.kind ≢ composite)
          q.parts)
      (all_quests c) quest.id quest
      (tt, (tt, (tt, (((λ part e k. cc), ((λ part e k. cc), tt)), (tt, tt))))) known

module _ {S : Type 0} (lower : String → String) (services : Services S) (address : String) where
  resolve_parts-same :
      (f g : Quest S → Call S Verdict) (ids : List String)
      → All
          (λ id.
            (part : Quest S)
            → get_quest services.quests id ≡ some part
            → (s : S) → f part s ≡ g part s)
          ids
      → (s : S) → resolve_parts lower services f ids s ≡ resolve_parts lower services g ids s
  unfolding resolve_parts
  resolve_parts-same f g [] h s = refl
  resolve_parts-same f g (id ∷ ids) (h, hs) s = elim (Option-cases (get_quest services.quests id)) [
    | inl missing ↦ rw (missing, resolve_parts) refl
    | inr (part, there) ↦
        rw (there, resolve_parts)
          (rw (h part there s) (
            ap (λ (p : Try (List Verdict) × S). (with_verdict (g part s).0 p.0, p.1))
              (resolve_parts-same f g ids hs (g part s).1)))
  ]

  -- A quest that is no composite has no parts to resolve.
  verify_quest-same :
      (f g : Quest S → Call S Verdict) (quest : Quest S) (s : S)
      → ((s : S) → compose_quest lower services f quest s ≡ compose_quest lower services g quest s)
        ⊎ (quest.kind ≢ composite)
      → verify_quest lower services f quest address s
        ≡ verify_quest lower services g quest address s
  unfolding verify_quest
  verify_quest-same f g quest s h = elim (Bool-cases quest.available) [
    | inr closed ↦ rw (closed, verify_quest) refl
    | inl there ↦ rw (there, verify_quest) (go quest.kind refl h)
  ]
    where
      go :
          (kind : Kind)
          → quest.kind ≡ kind
          → ((s : S)
              → compose_quest lower services f quest s ≡ compose_quest lower services g quest s)
            ⊎ (quest.kind ≢ composite)
          → verify_kind lower services f kind quest address s
            ≡ verify_kind lower services g kind quest address s
      go one_time e h' = unfold verify_kind in refl
      go daily e h' = unfold verify_kind in refl
      go composite e (inl same) = unfold verify_kind in same s
      go composite e (inr other) = absurd (other e)

  resolve_leaf-same :
      (d e : ℕ) (quest : Quest S) (s : S)
      → quest.kind ≢ composite
      → resolve_quest lower services (suc d) quest address s
        ≡ resolve_quest lower services (suc e) quest address s
  unfolding resolve_quest
  resolve_leaf-same d e quest s other =
      ap (λ m. with_cache lower services quest address m s)
        (fun_ext (λ s'.
          verify_quest-same (λ part. resolve_quest lower services d part address)
            (λ part. resolve_quest lower services e part address) quest s' (inr other)))

  compose_quest-same :
      (d e : ℕ) (quest : Quest S) (s : S)
      → All
          (λ id.
            (part : Quest S) → get_quest services.quests id ≡ some part → part.kind ≢ composite)
          quest.parts
      → compose_quest lower services
          (λ part. resolve_quest lower services (suc d) part address)
          quest
          s
        ≡ compose_quest lower services
            (λ part. resolve_quest lower services (suc e) part address)
            quest
            s
  unfolding compose_quest
  compose_quest-same d e quest s flat =
      ap (λ (m : Call S (List Verdict)). (m >>= λ vs. answer (ok (conjoin vs))) s)
        (fun_ext (λ s'.
          resolve_parts-same (λ part. resolve_quest lower services (suc d) part address)
            (λ part. resolve_quest lower services (suc e) part address) quest.parts
            (All-map quest.parts
              (λ id h part there s₂. resolve_leaf-same d e part s₂ (h part there)) flat)
            s'))

  resolve_quest-flat :
      (d : ℕ) (quest : Quest S) (s : S)
      → IsFlat services.quests
      → get_quest services.quests quest.id ≡ some quest
      → resolve_quest lower services (suc (suc d)) quest address s
        ≡ resolve_quest lower services 2 quest address s
  unfolding resolve_quest
  resolve_quest-flat d quest s flat known =
      ap (λ m. with_cache lower services quest address m s)
        (fun_ext (λ s'.
          verify_quest-same (λ part. resolve_quest lower services (suc d) part address)
            (λ part. resolve_quest lower services 1 part address) quest s'
            (inl (λ s₂. compose_quest-same d 0 quest s₂ (flat quest known)))))

  -- With the registry of quests.js a composite's parts are no composites, so that the verdict of a
  -- listed quest is the same at every depth from 2 on: the recursion ends by itself.
  pub resolve_quest-Ends :
      (c : Checks S) (d : ℕ) (quest : Quest S) (s : S)
      → services.quests ≡ all_quests c
      → get_quest services.quests quest.id ≡ some quest
      → resolve_quest lower services (suc (suc d)) quest address s
        ≡ resolve_quest lower services 2 quest address s
  resolve_quest-Ends c d quest s same known =
      resolve_quest-flat d quest s (subst IsFlat (sym same) (all_quests-IsFlat c)) known
