-- ===== src/Quest/Handler/Truth.antt =====
-- frontend/api/quest/verify.js: what the handler replies is true, and what it refuses costs nothing.
use text.Mathlib.Text.{◌==◌}
use perps_litvm.Base.{
  ℕ, ◌≡◌, ◌⊎◌, inl, inr, refl, subst, String, Bool, Option, Try, ok, throw, Ask, Bool-cases,
  Option-cases, Gives,
}
use perps_litvm.Quest.Quests.{Verdict, Tier1, Quest, get_quest}
use perps_litvm.Quest.RateLimit.{Hits, Scope, allowed, blocked, check}
use perps_litvm.Quest.RateLimit.{Verdict as Admission}
use perps_litvm.Quest.RateLimit.Window.{check_blocked}
use perps_litvm.Quest.Verify.{Services, resolve_quest}
use perps_litvm.Quest.Verify.Truth.{IsTrue, get_quest-some}
use perps_litvm.Quest.Verify.Tiers.{Sound}
use perps_litvm.Quest.Verify.Resolve.{resolve_quest-IsTrue}
use perps_litvm.Quest.Handler.{
  Json, HttpRequest, HttpReply, failed, answered, unavailable, client_key, reply_of, verify_listed,
  after_limit, after_body, is_too_long, handle,
}

module _ {S : Type 0} (trim first_part : String → String) (parse_json : String → Option Json)
    (is_config : String → Bool) (now : Ask S ℕ) (lower : String → String) (services : Services S)
    (per_minute per_hour depth : ℕ) (Done : String → String → Type 0)
    (NotBy : String → String → ℕ → Type 0) (Means : String → Type 0)
    (Worth : String → String → Tier1 → Type 0) (Inv : S → Type 0) where
  -- A refusal leaves the limiter's times as they are, and the world too unless the limit was asked.
  abbrev pub IsSound : Hits × S → HttpReply × (Hits × S) → Type 0
  IsSound (hits, s) (failed status reason wait, (hits', s')) =
      Inv s' × (hits' ≡ hits) × ((status ≡ 429) ⊎ (s' ≡ s))
  IsSound (hits, s) (answered address quest v, (hits', s')) =
      Inv s' × IsTrue (Done address) (NotBy address) quest v
  IsSound (hits, s) (unavailable address quest why, (hits', s')) = Inv s'

  module _
      (sound : (address : String)
        → Sound lower services address (Done address) (NotBy address) Means (Worth address) Inv)
      (clock_keeps : (s : S) → Inv s → Inv (now s).1) where
    reply_of-IsSound :
        (address quest : String) (definition : Quest S) (r : Try Verdict) (w : Hits × S)
        (hits : Hits) (s : S)
        → definition.id ≡ quest
        → Gives (IsTrue (Done address) (NotBy address) definition.id) Inv (r, s)
        → IsSound w (
          reply_of trim first_part parse_json is_config now lower services per_minute per_hour depth
              address quest r,
          (hits, s),
        )
    unfolding reply_of
    reply_of-IsSound address quest definition (ok v) w hits s same (h, i) =
        (i, subst (λ q. IsTrue (Done address) (NotBy address) q v) same h)
    reply_of-IsSound address quest definition (throw e) w hits s same i = i

    listed-IsSound :
        (address quest : String) (w : Hits × S) (hits : Hits) (s : S)
        → Inv s
        → let r =
            verify_listed trim first_part parse_json is_config now lower services per_minute
              per_hour depth address quest
              (get_quest services.quests quest)
              s in
          IsSound w (r.0, (hits, r.1))
    unfolding verify_listed
    listed-IsSound address quest w hits s i =
        elim (Option-cases (get_quest services.quests quest)) [
          | inl missing ↦ rw (missing, verify_listed) i
          | inr (definition, there) ↦
              let (same, known) = get_quest-some services.quests quest definition there in
              rw (there, verify_listed)
                (reply_of-IsSound address quest definition
                  (resolve_quest lower services depth definition address s).0 w hits
                  (resolve_quest lower services depth definition address s).1 same
                  (resolve_quest-IsTrue lower services address (Done address) (NotBy address) Means
                    (Worth address) Inv (sound address) depth definition s known i))
        ]

    after_limit-IsSound :
        (address quest : String) (hits : Hits) (s s' : S) (admission : Admission × Hits)
        → Inv s'
        → ((scope : Scope) (wait : Option ℕ)
            → admission.0 ≡ blocked scope wait
            → admission.1 ≡ hits)
        → IsSound
            (hits, s)
            (after_limit trim first_part parse_json is_config now lower services per_minute per_hour
              depth address quest admission s')
    unfolding after_limit
    after_limit-IsSound address quest hits s s' (blocked scope wait, hits') i same =
        (i, same scope wait refl, inl refl)
    after_limit-IsSound address quest hits s s' (allowed a b, hits') i same =
        listed-IsSound address quest (hits, s) hits' s' i

    after_body-IsSound :
        (req : HttpRequest) (fields : Try (String × String)) (hits : Hits) (s : S)
        → Inv s
        → IsSound
            (hits, s)
            (after_body trim first_part parse_json is_config now lower services per_minute per_hour
              depth req fields
              (hits, s))
    unfolding after_body
    after_body-IsSound req (throw reason) hits s i = (i, refl, inr refl)
    after_body-IsSound req (ok (address, quest)) hits s i =
        let key =
          client_key trim first_part parse_json is_config now lower services per_minute per_hour
            depth req in
        after_limit-IsSound address quest hits s (now s).1
          (check per_minute per_hour key (now s).0 hits) (clock_keeps s i)
          (check_blocked per_minute per_hour key (now s).0 hits)

    -- If the services say only what is true of every address, then to any request: a verdict that is
    -- replied is true of the address and quest of the reply, a request that is refused leaves the
    -- limiter's times as they are, and the outer world too unless the limiter refused it, and the
    -- cache has completions only after every reply.
    pub handle-IsSound :
        (req : HttpRequest) (hits : Hits) (s : S)
        → Inv s
        → IsSound
            (hits, s)
            (handle trim first_part parse_json is_config now lower services per_minute per_hour
              depth req
              (hits, s))
    unfolding handle
    handle-IsSound req hits s i = elim (Bool-cases (req.method == "POST")) [
      | inr other ↦ rw (other, handle) (i, refl, inr refl)
      | inl post ↦
          elim (Bool-cases (
            is_too_long trim first_part parse_json is_config now lower services per_minute per_hour
              depth req.content_length)) [
                | inl long ↦ rw (post, long, handle) (i, refl, inr refl)
                | inr short ↦ rw (post, short, handle) (after_body-IsSound req _ hits s i)
              ]
    ]
