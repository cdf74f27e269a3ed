-- ===== src/Quest/Handler.antt =====
-- frontend/api/quest/verify.js: the HTTP handler, with the body of a request (`normalizeQuestBody`)
-- and the client's key (`clientKey` of frontend/api/_lib/request.js).
-- `parse_json` is `JSON.parse` where it does not throw, `first_part` is `split(",")[0]` and
-- `is_config` is `instanceof ConfigError`. A reply's fixed headers and its time are left out.
pub mod Truth
mod Tests
use text.Mathlib.Text.{◌==◌}
use perps_litvm.Base.{
  ℕ, String, Bool, true, false, Option, none, some, List, [], ◌∷◌, ltb, if◌then◌else◌, Try, ok,
  throw, Ask, Call, answer, codes,
}
use perps_litvm.Quest.Quests.{Verdict, Quest, get_quest}
use perps_litvm.Quest.Chain.{is_address_codes}
use perps_litvm.Quest.RateLimit.{Hits, Scope, minute, hour, allowed, blocked, check}
use perps_litvm.Quest.RateLimit.{Verdict as Admission}
use perps_litvm.Quest.Verify.{Services, resolve_quest}

-- A parsed body: an object, with its two fields where they are texts, or any other value.
pub data Json : Type 0 where
  object : Option String → Option String → Json
  other_value : Json

pub data Body : Type 0 where
  unparsed : String → Body
  parsed : Json → Body

pub record HttpRequest : Type 0 where
  pub method : String
  pub content_length : Option ℕ
  pub forwarded_for : Option String
  pub real_ip : Option String
  pub remote_address : Option String
  pub body : Body

-- A client's error with its seconds to wait, a verdict, or the answer that none can be given.
pub data HttpReply : Type 0 where
  failed : ℕ → String → Option ℕ → HttpReply
  answered : String → String → Verdict → HttpReply
  unavailable : String → String → String → HttpReply

-- MAX_BODY_BYTES
abbrev pub max_body_bytes : ℕ
max_body_bytes = 2048

-- `a || b` of texts that may be missing.
pub or_else_text : Option String → String → String
or_else_text none b = b
or_else_text (some t) b = if t == "" then b else t

pub text_or_empty : Option String → String
text_or_empty none = ""
text_or_empty (some t) = t

-- `rate_limited_${scope}`
pub limited_reason : Scope → String
limited_reason minute = "rate_limited_minute"
limited_reason hour = "rate_limited_hour"

module _ {S : Type 0} (trim first_part : String → String) (parse_json : String → Option Json)
    (is_config : String → Bool) (now : Ask S ℕ) (lower : String → String) (services : Services S)
    (per_minute per_hour depth : ℕ) where
  pub client_key : HttpRequest → String
  unfolding or_else_text
  client_key req =
      let first : String = elim req.forwarded_for [ none ↦ "" | some t ↦ trim (first_part t) ] in
      or_else_text (some first)
        (or_else_text req.real_ip (or_else_text req.remote_address "unknown"))

  -- The address and the quest of an object, or why it has none.
  pub normalize_fields : String → String → Try (String × String)
  normalize_fields address quest =
      if address == "" then throw "missing_address" else (elim (is_address_codes (codes address)) [
        | false ↦ throw "invalid_address"
        | true ↦
            if quest == "" then throw "missing_quest" else (elim (get_quest services.quests quest) [
              | none ↦ throw "unknown_quest"
              | some definition ↦ ok (address, quest)
            ])
      ])

  pub normalize_json : Json → Try (String × String)
  unfolding text_or_empty normalize_fields
  normalize_json other_value = throw "invalid_body"
  normalize_json (object address quest) =
      normalize_fields (trim (text_or_empty address)) (trim (text_or_empty quest))

  pub normalize_quest_body : Body → Try (String × String)
  unfolding normalize_json
  normalize_quest_body (parsed json) = normalize_json json
  normalize_quest_body (unparsed text) = elim (parse_json text) [
    | none ↦ throw "unparseable_body"
    | some json ↦ normalize_json json
  ]

  pub reply_of : String → String → Try Verdict → HttpReply
  reply_of address quest (ok v) = answered address quest v
  reply_of address quest (throw e) =
      unavailable address quest (if is_config e then "not_configured" else "rpc_unavailable")

  pub verify_listed : String → String → Option (Quest S) → Ask S HttpReply
  unfolding reply_of
  verify_listed address quest none s = (unavailable address quest "rpc_unavailable", s)
  verify_listed address quest (some definition) s =
      let (r, s') = resolve_quest lower services depth definition address s in
      (reply_of address quest r, s')

  pub after_limit : String → String → Admission × Hits → S → HttpReply × (Hits × S)
  unfolding limited_reason verify_listed
  after_limit address quest (blocked scope wait, hits) s =
      (failed 429 (limited_reason scope) wait, (hits, s))
  after_limit address quest (allowed left_minute left_hour, hits) s =
      let (reply, s') = verify_listed address quest (get_quest services.quests quest) s in
      (reply, (hits, s'))

  pub after_body : HttpRequest → Try (String × String) → Hits × S → HttpReply × (Hits × S)
  unfolding client_key after_limit
  after_body req (throw reason) w = (failed 400 reason none, w)
  after_body req (ok (address, quest)) (hits, s) =
      let (t, s') = now s in
      after_limit address quest (check per_minute per_hour (client_key req) t hits) s'

  pub is_too_long : Option ℕ → Bool
  is_too_long none = false
  is_too_long (some n) = ltb max_body_bytes n

  -- `handler`
  pub handle : HttpRequest → Hits × S → HttpReply × (Hits × S)
  unfolding is_too_long after_body normalize_quest_body
  handle req w =
      if req.method == "POST"
      then (elim (is_too_long req.content_length) [
        | true ↦ (failed 413 "body_too_large" none, w)
        | false ↦ after_body req (normalize_quest_body req.body) w
      ])
      else (failed 405 "method_not_allowed" none, w)
