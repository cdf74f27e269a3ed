-- ===== src/Keeper/Submit/Examples.antt =====
-- keeper/keeper.mjs, submissions and retries: the theorems at concrete inputs.
use perps_litvm.Base.{
  ℕ, zero, suc, ◌+◌, ◌≡◌, refl, ap, String, true, false, Option, none, some, List, [], ◌∷◌, codes,
  Done, leb, if◌then◌else◌,
}
use perps_litvm.Keeper.WorkingSet.{Request, Entry, Keeper, has, remove}
use perps_litvm.Keeper.Reasons.{starts_with, contains_any}
use perps_litvm.Keeper.Rpc.{
  RpcError, timeout, other_code, is_transient, contains_any_case, revert_reason, answered, raised,
  Rpc, Retry, with_retry,
}
use perps_litvm.Keeper.Rpc.Tries.{IsLast, with_retry-IsLast}
use perps_litvm.Keeper.Rpc.Ends.{Ends}
use perps_litvm.Keeper.Wire.{Tx, executed, Wire, Account, filled, is_stale}
use perps_litvm.Keeper.Submit.{submit_and_settle}
use perps_litvm.Keeper.Submit.Steps.{IsReady, Honest, InSync, Lost}
use perps_litvm.Keeper.Submit.Nonce.{submit_and_settle-InSync}
use perps_litvm.Keeper.Submit.Release.{IsReleased, submit_and_settle-IsReleased}

-- A gateway that times out, and a send of a package that has become stale.
abbrev gateway_error : RpcError
gateway_error = record {
  data_texts = [];
  body_data = [];
  code = timeout;
  statuses = [];
  hay = [];
  reasons = [];
  printed = codes "timed out";
}

abbrev stale_error : RpcError
stale_error = record {
  data_texts = [];
  body_data = [];
  code = other_code;
  statuses = [];
  hay = [];
  reasons = codes "PriceTooStale" ∷ [];
  printed = [];
}

abbrev five_tries : Retry
five_tries = record { attempts = 5; base_ms = 2000; cap_ms = 5000 }

-- A call that fails until a clock, moved by the waits, is at 6000: at 0, 2000 and 6000.
abbrev wait_for : ℕ → ℕ → ℕ
wait_for d s = s + d

abbrev slow_call : Rpc ℕ ℕ
slow_call zero = (raised gateway_error, 0)
slow_call (suc n) = (if leb (suc n) 5999 then raised gateway_error else answered 7, suc n)

with_retry_third : with_retry wait_for five_tries slow_call 0 ≡ (answered 7, 6000)
unfolding with_retry is_transient starts_with
with_retry_third = refl

with_retry-IsLast_example : (j : ℕ) × IsLast wait_for slow_call five_tries 0 j
with_retry-IsLast_example = with_retry-IsLast wait_for slow_call five_tries 0

-- A world: the account's count, and how many sends will still be refused.
abbrev World : Type 0
World = ℕ × ℕ

abbrev Counts : ℕ → World → Type 0
Counts n s = s.0 ≡ n

abbrev some_request : Request
some_request = record { active = true; market = "BTC"; request_timestamp = 1000 }

abbrev plain_tx : Tx ℕ
plain_tx = record {
  payload = 0;
  nonce = none;
  gas_limit = none;
  fee = record { max_fee = none; max_priority = none; gas_price = none };
}

abbrev refusing_send : Tx ℕ → Rpc World Done
refusing_send tx (n, zero) = (answered tt, (n + 1, 0))
refusing_send tx (n, suc left) = (raised stale_error, (n, left))

abbrev node : Wire World ℕ Done ℕ
node = record {
  sleep = λ d s. s;
  count = λ s. (answered s.0, s);
  estimate = λ tx s. (answered 150000, s);
  fee_data =
      λ s. (answered (record { max_fee = some 5; max_priority = some 1; gas_price = none }), s);
  send = refusing_send;
  wait = λ t s. (answered (record { address = "0xpm"; event = some (executed "0xme") } ∷ []), s);
  fetch = λ feed s. (answered 9, s);
  populate = λ id k s. (answered plain_tx, s);
  read_request = λ id s. (answered some_request, s);
  read_trigger_price = λ id s. (answered 0, s);
  clocks = λ s. (1010000, 5000);
}

node-Honest : Honest node Counts
node-Honest = record {
  slept = λ n d s h. h;
  counted = λ n s h. (h, h);
  estimated = λ n tx s h. h;
  priced = λ n s h. h;
  fetched = λ n feed s h. h;
  populated = λ n id k s h. h;
  request_read = λ n id s h. h;
  kind_read = λ n id s h. h;
  sent = refused;
}
  where
    refused :
        (n : ℕ) (tx : Tx ℕ) (s : World)
        → Counts n s
        → IsReady n tx
        → Ends
            (λ t s'. Ends (λ logs. Counts (n + 1)) (Counts (n + 1)) (node.wait t s'))
            (λ s'. (m : ℕ) × Counts m s')
            (refusing_send tx s)
    refused n tx (c, zero) h r = ap (λ x. x + 1) h
    refused n tx (c, suc left) h r = (c, refl)

abbrev fresh_account : Account
fresh_account = record {
  nonce = 3;
  cached_gas_limit = none;
  fee_override = record { max_fee = none; max_priority = none; gas_price = none };
  fills = 0;
  fees_earned = 0;
}

abbrev entry_four : Entry
entry_four = record {
  id = 4;
  req = some_request;
  is_trigger = true;
  feed = "BTC";
  earliest = 1003;
  fire_timer = none;
  firing = false;
  last_fire_ms = 0;
  backoff_ms = 0;
  next_fire_at = 0;
  next_probe_at = 0;
  perm_reason = none;
  perm_count = 0;
}

abbrev sending : Keeper
sending = record {
  active = entry_four ∷ [];
  in_flight = 4 ∷ 6 ∷ [];
  quarantined = [];
  hot_triggers = [];
  is_trigger_cache = (4, true) ∷ [];
}

abbrev as_is : String → String
as_is t = t

abbrev no_error : List ℕ → Option (List ℕ)
no_error blob = none

-- The first send is refused, the second is filled.
submit_and_settle_refused_once :
    let r =
      submit_and_settle node five_tries no_error as_is "0xpm" "0xme" 10 as_is 3 5 entry_four
        plain_tx sending fresh_account
        (3, 1) in
    (r.0.reply ≡ answered (filled true))
    × (r.0.account.nonce ≡ 4)
    × (r.0.account.fees_earned ≡ 10)
    × (r.1 ≡ (4, 0))
unfolding submit_and_settle with_retry is_stale contains_any_case revert_reason contains_any has
    remove
submit_and_settle_refused_once = (refl, refl, refl, refl)

submit_and_settle-InSync_example :
    let p =
      submit_and_settle node five_tries no_error as_is "0xpm" "0xme" 10 as_is 3 5 entry_four
        plain_tx sending fresh_account
        (3, 1) in
    Ends
      (λ what. InSync node five_tries Counts node-Honest)
      (Lost node five_tries Counts node-Honest)
      (p.0.reply, (p.0.account, p.1))
submit_and_settle-InSync_example =
    submit_and_settle-InSync node five_tries Counts node-Honest no_error as_is "0xpm" "0xme" 10
      as_is 3 5 entry_four plain_tx sending fresh_account (3, 1) refl (λ limit e. absurd (cc e))

submit_and_settle-IsReleased_example :
    IsReleased 4
      (4 ∷ 6 ∷ [])
      (submit_and_settle node five_tries no_error as_is "0xpm" "0xme" 10 as_is 3 5 entry_four
        plain_tx sending fresh_account
        (3, 1)).0.pass.keeper.in_flight
submit_and_settle-IsReleased_example =
    submit_and_settle-IsReleased node five_tries no_error as_is "0xpm" "0xme" 10 as_is 3 5
      entry_four plain_tx sending fresh_account (3, 1)
