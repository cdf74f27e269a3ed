-- ===== src/Quest/Verify.antt =====
-- frontend/api/quest/verify.js: from a quest's tiers to a verdict, through the cache, the index
-- proof and the parts of a composite quest. The parts, which the source resolves at once, are
-- resolved one after the other; if several fail, the first in the list is the error.
pub mod Truth
pub mod Parts
pub mod Tiers
pub mod Resolve
pub mod Depth
pub mod Day
mod Examples
mod DayExamples
use text.Mathlib.Text.{◌==◌}
use perps_litvm.Base.{
  ℕ, zero, suc, ◌-◌, min, String, Bool, true, false, not, ◌&&◌, ◌||◌, Option, none, some, List, [],
  ◌∷◌, if◌then◌else◌, all, any, Try, ok, throw, Ask, Call, ◌>>=◌, answer,
}
use perps_litvm.Quest.Sources.{Source}
use perps_litvm.Quest.Poll.{Scan, Reason}
use perps_litvm.Quest.IndexProof.{Answer, completed, absent, unproven}
use perps_litvm.Quest.Quests.{
  Status, confirmed, indeterminate, unavailable, Origin, tier1, tier2, cache, composed, index, Kind,
  one_time, daily, composite, Verdict, Tier1, read, declined, Quest, get_quest,
}
use perps_litvm.Quest.Cache.{CacheDriver, cache_key, is_confirmed, cache_get, cache_set}

-- The verdicts without coverage.
unfoldable pub settled : Bool → Origin → Option ℕ → Verdict
settled done source block = record {
  completed = done;
  status = confirmed;
  source = some source;
  checked_through = block;
  reason = none;
  coverage = [];
  joins = [];
}

pub unsettled : Option Origin → Option ℕ → Option String → Verdict
unsettled source block why = record {
  completed = false;
  status = indeterminate;
  source = source;
  checked_through = block;
  reason = why;
  coverage = [];
  joins = [];
}

pub reason_text : Reason → String
reason_text Reason.chunk_error = "chunk_error"
reason_text Reason.budget_exhausted = "budget_exhausted"
reason_text Reason.coverage_incomplete = "coverage_incomplete"
reason_text Reason.floor_unverified = "floor_unverified"

-- `reason ?? text`
pub reason_or : Option String → String → String
reason_or none text = text
reason_or (some why) text = why

-- What a scan of the second tier leads to.
pub scanned : ℕ → Scan → Verdict
unfolding settled unsettled reason_text
scanned head scan =
    if scan.found
    then settled true tier2 (some head)
    else (if scan.complete
        then record (settled false tier2 (some head)) { coverage = scan.coverage }
        else record (unsettled (some tier2) (some head)
            (some (elim scan.reason [ none ↦ "scan_incomplete" | some why ↦ reason_text why ]))) {
              coverage = scan.coverage;
            })

-- What the index proof leads to, if to anything.
pub from_answer : Answer → Option Verdict
unfolding settled
from_answer (completed block) = some (settled true index block)
from_answer (absent through joins) =
    some (record (settled false index (some through)) { joins = joins })
from_answer (unproven detail) = none

-- The block that all parts are checked through: the least, if each has one.
pub least_through : List Verdict → Option ℕ
least_through [] = none
least_through (v ∷ []) = v.checked_through
least_through (v ∷ w ∷ vs) =
    let rest = least_through (w ∷ vs) in
    elim v.checked_through [
      | none ↦ none
      | some b ↦ elim rest [ none ↦ none | some c ↦ some (min b c) ]
    ]

pub is_proven_false : Verdict → Bool
is_proven_false v = not v.completed && is_confirmed v.status

pub conjoin : List Verdict → Verdict
unfolding settled unsettled least_through is_proven_false
conjoin vs =
    if all (λ v. v.completed) vs
    then settled true composed (least_through vs)
    else (if any is_proven_false vs
        then settled false composed (least_through vs)
        else unsettled (some composed) (least_through vs) (some "part_indeterminate"))

pub with_verdict : Try Verdict → Try (List Verdict) → Try (List Verdict)
with_verdict (throw e) rest = throw e
with_verdict (ok v) (throw e) = throw e
with_verdict (ok v) (ok vs) = ok (v ∷ vs)

-- What the endpoint is set up with.
pub record Services (S : Type 0) : Type 0 where
  pub chain_text : String
  pub today : Ask S String
  pub cache_driver : CacheDriver S
  -- The index proof's `resolve` for a wallet, a quest, its sources and a head, if it is enabled.
  pub index_proof : Option (String → String → List Source → ℕ → Ask S Answer)
  pub quests : List (Quest S)

module _ {S : Type 0} (lower : String → String) (services : Services S) where
  pub ask_index :
      Option (Try (List Source))
      → Option (String → String → List Source → ℕ → Ask S Answer)
      → String
      → String
      → ℕ
      → Call S (Option Verdict)
  unfolding from_answer
  ask_index none proof wallet quest head s = (ok none, s)
  ask_index (some sources) none wallet quest head s = (ok none, s)
  ask_index (some (throw e)) (some proof) wallet quest head s = (throw e, s)
  ask_index (some (ok sources)) (some proof) wallet quest head s =
      let (r, s') = proof wallet quest sources head s in (ok (from_answer r), s')

  pub resolve_from_index : Quest S → String → ℕ → Call S (Option Verdict)
  unfolding ask_index
  resolve_from_index quest address head =
      ask_index quest.index_sources services.index_proof address quest.id head

  pub run_tier2 : Option (String → Tier1 → Call S Scan) → String → ℕ → Tier1 → Call S Verdict
  unfolding scanned unsettled
  run_tier2 none address head r = answer (ok (unsettled (some tier1) (some head) none))
  run_tier2 (some scan_for) address head r =
      scan_for address r >>= λ scan. answer (ok (scanned head scan))

  pub after_index : Quest S → String → ℕ → Tier1 → Option Verdict → Call S Verdict
  unfolding run_tier2
  after_index quest address head r (some v) = answer (ok v)
  after_index quest address head r none = run_tier2 quest.tier2 address head r

  pub after_tier1 : Quest S → String → Tier1 → Call S Verdict
  unfolding settled unsettled resolve_from_index after_index
  after_tier1 quest address (declined why) = answer (ok (unsettled (some tier1) none (some why)))
  after_tier1 quest address (read true reliable head through) =
      answer (ok (settled true tier1 (some head)))
  after_tier1 quest address (read false false head through) =
      answer (ok (unsettled (some tier1) (some head) (some "tier1_unreliable")))
  after_tier1 quest address (read false true head through) =
      resolve_from_index quest address head
      >>= after_index quest address head (read false true head through)

  pub run_tier1 : Quest S → Option (String → Call S Tier1) → String → Call S Verdict
  unfolding after_tier1
  run_tier1 quest none address = answer (throw "TypeError: definition.tier1 is not a function")
  run_tier1 quest (some check) address = check address >>= after_tier1 quest address

  module _ (resolve_part : Quest S → Call S Verdict) where
    pub resolve_parts : List String → Call S (List Verdict)
    unfolding with_verdict
    resolve_parts [] s = (ok [], s)
    resolve_parts (id ∷ ids) s = elim (get_quest services.quests id) [
      | none ↦ (throw "ConfigError: unknown part quest", s)
      | some part ↦
          let (r, s') = resolve_part part s in
          let (rest, s'') = resolve_parts ids s' in (with_verdict r rest, s'')
    ]

    pub compose_quest : Quest S → Call S Verdict
    unfolding resolve_parts conjoin
    compose_quest quest = resolve_parts quest.parts >>= λ vs. answer (ok (conjoin vs))

    -- The rest of `verifyQuest` for a quest of a kind.
    pub verify_kind : Kind → Quest S → String → Call S Verdict
    unfolding compose_quest run_tier1
    verify_kind composite quest address = compose_quest quest
    verify_kind one_time quest address = run_tier1 quest quest.tier1 address
    verify_kind daily quest address = run_tier1 quest quest.tier1 address

    pub verify_quest : Quest S → String → Call S Verdict
    unfolding unsettled reason_or verify_kind
    verify_quest quest address = elim quest.available [
      | false ↦
          answer (
            ok
              (unsettled none none (some (reason_or quest.unavailable_reason "not_yet_available"))))
      | true ↦ verify_kind quest.kind quest address
    ]

  pub bucket_of : Kind → Ask S (Option String)
  bucket_of daily s = let (day, s') = services.today s in (some day, s')
  bucket_of one_time s = (none, s)
  bucket_of composite s = (none, s)

  pub is_index : Option Origin → Bool
  is_index (some index) = true
  is_index _ = false

  -- The write after a verdict that was not in the cache.
  pub remember : String → Try Verdict → Call S Verdict
  unfolding is_index
  remember key (throw e) s = (throw e, s)
  remember key (ok v) s = elim (is_index v.source) [
    | true ↦ (ok v, s)
    | false ↦ let (w, s') = cache_set services.cache_driver key v s in (ok v, s')
  ]

  pub after_lookup : String → Option Verdict → Call S Verdict → Call S Verdict
  unfolding remember
  after_lookup key (some v) verify s = (ok (record v { source = some cache }), s)
  after_lookup key none verify s = let (r, s') = verify s in remember key r s'

  pub with_cache : Quest S → String → Call S Verdict → Call S Verdict
  unfolding bucket_of after_lookup
  with_cache quest address verify s =
      let (bucket, s₁) = bucket_of quest.kind s in
      let key = cache_key lower services.chain_text quest.id address bucket in
      let (hit, s₂) = cache_get services.cache_driver key s₁ in after_lookup key hit verify s₂

  -- `resolveQuest`, to a depth of nested composites.
  unfoldable pub resolve_quest : ℕ → Quest S → String → Call S Verdict
  unfolding with_cache verify_quest
  resolve_quest zero quest address = answer (throw "nested too deep")
  resolve_quest (suc depth) quest address =
      with_cache quest address
        (verify_quest (λ part. resolve_quest depth part address) quest address)
