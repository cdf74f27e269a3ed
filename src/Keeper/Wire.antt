-- ===== src/Keeper/Wire.antt =====
-- keeper/keeper.mjs, around `submitAndSettle`: what the keeper holds of its account, the operations
-- of the outer world, and the computations on fees, revert reasons and receipts. The provider, the
-- wallet, RedStone and the parsing of a log by the contract's interface are operations of `Wire`;
-- a transaction's payload, its hash and a package are of any type.
use perps_litvm.Base.{
  ℕ, ◌+◌, ◌*◌, String, Bool, true, false, Option, none, some, List, [], ◌∷◌, if◌then◌else◌,
}
use text.Mathlib.Text.{◌==◌}
use perps_litvm.Keeper.WorkingSet.{Request}
use perps_litvm.Keeper.Reasons.{is_not_active, contains_any}
use perps_litvm.Keeper.Rpc.{Reply, answered, raised, Rpc, contains_any_case}

pub record FeeData : Type 0 where
  pub max_fee : Option ℕ
  pub max_priority : Option ℕ
  pub gas_price : Option ℕ

pub record Tx (P : Type 0) : Type 0 where
  pub payload : P
  pub nonce : Option ℕ
  pub gas_limit : Option ℕ
  pub fee : FeeData

pub data Event : Type 0 where
  executed : String → Event
  cancelled : Bool → Event
  other_event : Event

pub record Log : Type 0 where
  pub address : String
  -- What the interface parses it as, if it does.
  pub event : Option Event

pub record Wire (S P T K : Type 0) : Type 0 where
  pub sleep : ℕ → S → S
  pub count : Rpc S ℕ
  pub estimate : Tx P → Rpc S ℕ
  pub fee_data : Rpc S FeeData
  pub send : Tx P → Rpc S T
  pub wait : T → Rpc S (List Log)
  pub fetch : String → Rpc S K
  pub populate : ℕ → K → Rpc S (Tx P)
  pub read_request : ℕ → Rpc S Request
  pub read_trigger_price : ℕ → Rpc S ℕ
  pub clocks : S → ℕ × ℕ

pub record Account : Type 0 where
  pub nonce : ℕ
  pub cached_gas_limit : Option ℕ
  pub fee_override : FeeData
  pub fills : ℕ
  pub fees_earned : ℕ

-- GAS_FLOOR
abbrev pub gas_floor : ℕ
gas_floor = 2000000

pub or_old : Option ℕ → Option ℕ → Option ℕ
or_old (some n) old = some n
or_old none old = old

-- `Object.assign(txReq, feeOverride)`
unfoldable pub stamp_fee : FeeData → FeeData → FeeData
unfolding or_old
stamp_fee new old = record {
  max_fee = or_old new.max_fee old.max_fee;
  max_priority = or_old new.max_priority old.max_priority;
  gas_price = or_old new.gas_price old.gas_price;
}

pub bumped : Option ℕ → Option ℕ → Option ℕ → FeeData → FeeData
bumped (some fee) (some priority) price old = record {
  max_fee = some (fee * 2);
  max_priority = some (priority * 2);
  gas_price = none;
}
bumped (some fee) none (some price) old = record {
  max_fee = none;
  max_priority = none;
  gas_price = some (price * 2);
}
bumped none priority (some price) old = record {
  max_fee = none;
  max_priority = none;
  gas_price = some (price * 2);
}
bumped (some fee) none none old = old
bumped none priority none old = old

unfoldable pub fee_after : Reply FeeData → FeeData → FeeData
unfolding bumped
fee_after (answered fd) old = bumped fd.max_fee fd.max_priority fd.gas_price old
fee_after (raised e) old = old

unfoldable pub is_stale : List ℕ → Bool
is_stale reason = contains_any_case ("timestamp" ∷ "stale" ∷ "tooold" ∷ "toolongfuture" ∷ []) reason

pub is_reprice_regas : List ℕ → Bool
is_reprice_regas reason =
    contains_any_case
      ("out of gas" ∷ "intrinsic gas" ∷ "gas required exceeds" ∷ "underpriced" ∷ "max fee per gas"
        ∷ "fee too low" ∷ [])
      reason

-- What a submission comes to: filled, with the fee earned or not, and so on.
pub data Settled : Type 0 where
  filled was_cancelled : Bool → Settled
  no_event lost_race moved_back errored : Settled

unfoldable pub failure_of : List ℕ → Settled
failure_of reason =
    if is_not_active reason
    then lost_race
    else (if contains_any ("TriggerNotMet" ∷ "SlippageNotMet" ∷ []) reason
        then moved_back
        else errored)

-- The events of the contract's own logs.
unfoldable pub own_events : (String → String) → String → List Log → List Event
own_events lower pm [] = []
own_events lower pm (log ∷ logs) =
    let rest = own_events lower pm logs in
    if lower log.address == lower pm
    then elim log.event [ none ↦ rest | some event ↦ event ∷ rest ]
    else rest

-- The first `RequestExecuted` and the first `RequestCancelled`.
unfoldable pub first_executed : List Event → Option String
first_executed [] = none
first_executed (executed keeper ∷ events) = some keeper
first_executed (cancelled slippage ∷ events) = first_executed events
first_executed (other_event ∷ events) = first_executed events

unfoldable pub first_cancelled : List Event → Option Bool
first_cancelled [] = none
first_cancelled (cancelled slippage ∷ events) = some slippage
first_cancelled (executed keeper ∷ events) = first_cancelled events
first_cancelled (other_event ∷ events) = first_cancelled events

unfoldable pub outcome_of : (String → String) → String → Option String → Option Bool → Settled
outcome_of lower wallet (some keeper) slippage = filled (lower keeper == lower wallet)
outcome_of lower wallet none (some slippage) = was_cancelled slippage
outcome_of lower wallet none none = no_event

-- The counters after an outcome.
unfoldable pub tallied : ℕ → Settled → Account → Account
tallied exec_fee (filled true) a = record a {
  fills = a.fills + 1;
  fees_earned = a.fees_earned + exec_fee;
}
tallied exec_fee (filled false) a = record a { fills = a.fills + 1 }
tallied exec_fee (was_cancelled slippage) a = a
tallied exec_fee no_event a = a
tallied exec_fee lost_race a = a
tallied exec_fee moved_back a = a
tallied exec_fee errored a = a
