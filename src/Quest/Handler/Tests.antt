-- ===== src/Quest/Handler/Tests.antt =====
-- frontend/api/quest/verify.js: requests to the handler, of a registry with one quest that every
-- wallet has done.
use perps_litvm.Base.{
  ℕ, suc, ◌≡◌, ◌≢◌, refl, subst, String, Bool, true, false, Option, none, some, [], ◌∷◌, ok, throw,
  Ask, Call, Gives,
}
use perps_litvm.Quest.Poll.{Scan}
use perps_litvm.Quest.Quests.{one_time, Tier1, read, Quest, get_quest, checked, tier1}
use perps_litvm.Quest.Cache.{null_cache_driver, cache_key, cache_get, cache_set, is_confirmed}
use perps_litvm.Quest.Chain.{is_address_codes}
use perps_litvm.Quest.RateLimit.{Hits, no_hits, check}
use perps_litvm.Quest.Verify.{Services, settled, resolve_quest}
use perps_litvm.Quest.Verify.Truth.{PositiveIsTrue, ScanIsTrue}
use perps_litvm.Quest.Verify.Tiers.{Sound}
use perps_litvm.Quest.Verify.Depth.{get_quest-All}
use perps_litvm.Quest.Handler.{
  Json, object, other_value, parsed, HttpRequest, HttpReply, failed, answered, handle,
}
use perps_litvm.Quest.Handler.Truth.{IsSound, handle-IsSound}

abbrev plain : String → String
plain t = t

abbrev no_json : String → Option Json
no_json t = none

abbrev never : String → Bool
never e = false

-- The world is the time.
abbrev ticking : Ask ℕ ℕ
ticking t = (t, suc t)

abbrev open_position : String → Call ℕ Tier1
open_position address t = (ok (read true true 10 none), t)

abbrev no_scan : String → Tier1 → Call ℕ Scan
no_scan address r t = (throw "unused", t)

abbrev one_quest : Services ℕ
one_quest = record {
  chain_text = "4441";
  today = λ t. ("2026-01-01", t);
  cache_driver = null_cache_driver;
  index_proof = none;
  quests = checked "first_trade" one_time open_position no_scan none ∷ [];
}

abbrev wallet : String
wallet = "0x00000000000000000000000000000000000000aA"

abbrev request_of : String → Json → HttpRequest
request_of method json = record {
  method = method;
  content_length = some 80;
  forwarded_for = none;
  real_ip = some "10.0.0.1";
  remote_address = none;
  body = parsed json;
}

abbrev reply_at : HttpRequest → HttpReply × (Hits × ℕ)
reply_at req = handle plain plain no_json never ticking plain one_quest 10 100 2 req (no_hits, 7)

get_refused : (reply_at (request_of "GET" other_value)).0 ≡ failed 405 "method_not_allowed" none
unfolding handle
get_refused = refl

-- The limiter has not been asked.
quest_unknown :
    (reply_at (request_of "POST" (object (some wallet) (some "mystery")))).0
    ≡ failed 400 "unknown_quest" none
unfolding handle is_address_codes get_quest checked
quest_unknown = refl

trade_answered :
    (reply_at (request_of "POST" (object (some wallet) (some "first_trade")))).0
    ≡ answered wallet "first_trade" (settled true tier1 (some 10))
unfolding handle is_address_codes get_quest checked check resolve_quest settled null_cache_driver
    cache_get cache_key no_hits cache_set is_confirmed
trade_answered = refl

abbrev IsTrade : String → String → Type 0
IsTrade address id = id ≡ "first_trade"

abbrev NotTrade : String → String → ℕ → Type 0
NotTrade address id b = id ≢ "first_trade"

abbrev AnyKey : String → Type 0
AnyKey key = Unit

abbrev AnyResult : String → String → Tier1 → Type 0
AnyResult address id r = Unit

abbrev AnyTime : ℕ → Type 0
AnyTime t = Unit

abbrev IsTheTrade : Quest ℕ → Type 0
IsTheTrade q =
    (q.id ≡ "first_trade")
    × (q.kind ≡ one_time)
    × ((check : String → Call ℕ Tier1) → q.tier1 ≡ some check → open_position ≡ check)
    × ((scan : String → Tier1 → Call ℕ Scan) → q.tier2 ≡ some scan → no_scan ≡ scan)

the_trade : (quest : Quest ℕ) → get_quest one_quest.quests quest.id ≡ some quest → IsTheTrade quest
unfolding checked
the_trade quest known =
    get_quest-All IsTheTrade one_quest.quests quest.id quest
      ((refl, refl, (λ c e. cc), (λ c e. cc)), tt) known

all_true :
    (address : String)
    → Sound plain one_quest address
        (IsTrade address)
        (NotTrade address)
        AnyKey
        (AnyResult address)
        AnyTime
unfolding null_cache_driver
all_true address = record {
  today_keeps = λ s i. tt;
  hit_true = λ key s i. ((λ v e. cc), tt);
  set_keeps = λ key v s i k done. tt;
  means = λ quest s known i. ((λ k. (the_trade quest known).0), (λ d. tt));
  tier1_true = λ quest check s known e i.
      subst
        (λ c.
          Gives
            (λ r.
              AnyResult address quest.id r
              × PositiveIsTrue (IsTrade address) (NotTrade address) quest.id r)
            AnyTime (c address s))
        ((the_trade quest known).2 check e) ((tt, (the_trade quest known).0), tt);
  index_true = λ quest sources proof head s known e f i. cc;
  tier2_true = λ quest scan head through s known e w i.
      subst
        (λ c.
          Gives (ScanIsTrue (IsTrade address) (NotTrade address) quest.id head) AnyTime
            (c address (read false true head through) s))
        ((the_trade quest known).3 scan e) tt;
  parts_done = λ quest known k. absurd (let (a, one, c, d) = the_trade quest known in cc (k, one));
  below = λ i b c h le. h;
}

handle-IsSound_example :
    IsSound plain plain no_json never ticking plain one_quest 10 100 2 IsTrade NotTrade AnyKey
      AnyResult AnyTime
      (no_hits, 7)
      (reply_at (request_of "POST" (object (some wallet) (some "first_trade"))))
handle-IsSound_example =
    handle-IsSound plain plain no_json never ticking plain one_quest 10 100 2 IsTrade NotTrade
      AnyKey AnyResult AnyTime all_true (λ s i. tt)
      (request_of "POST" (object (some wallet) (some "first_trade"))) no_hits 7 tt
