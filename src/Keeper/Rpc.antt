-- ===== src/Keeper/Rpc.antt =====
-- keeper/lib/revert.mjs and the retries of keeper/keeper.mjs: `extractErrorData`, `revertReason`,
-- `staticExecuteCheck`, `isTransient`, `withRetry`. Texts are lists of code points.
pub mod Tries
pub mod Ends
use perps_litvm.Base.{
  ℕ, zero, suc, ◌+◌, ◌-◌, ◌*◌, String, Bool, true, false, not, ◌&&◌, ◌||◌, Option, none, some, List,
  [], ◌∷◌, ◌++◌, leb, ltb, if◌then◌else◌, length, min, codes, map,
}
use perps_litvm.Base.{◌==◌}
use perps_litvm.Keeper.Reasons.{starts_with, contains_any}

-- `err.code`: ethers' names, and the numbers -31002 and -32005 of the node.
pub data Code : Type 0 where
  server_error timeout network_error bandwidth_limited limit_exceeded other_code : Code

-- A field that may be missing, be a number, or be something else.
pub data Status : Type 0 where
  no_status not_a_number : Status
  status : ℕ → Status

-- What the code reads off an error. A text that the error lacks is empty, and so is one that is
-- no string where the source asks for one. `body_data` is `error.data` of the JSON in the body.
pub record RpcError : Type 0 where
  pub data_texts : List (List ℕ)
  pub body_data : List ℕ
  pub code : Code
  pub statuses : List Status
  pub hay : List ℕ
  pub reasons : List (List ℕ)
  pub printed : List ℕ

-- What a call answers, and a call of an outer world.
pub data Reply {ℓ} (A : Type ℓ) : Type ℓ where
  answered : A → Reply A
  raised : RpcError → Reply A

abbrev pub Rpc : Type 0 → Type 0 → Type 0
Rpc S A = S → Reply A × S

unfoldable pub after : {S A B : Type 0} → Rpc S A → (A → Rpc S B) → Rpc S B
after m f s = let (r, s') = m s in elim r [ answered a ↦ f a s' | raised e ↦ (raised e, s') ]

-- A call of the world, where a state of the program is kept beside it.
unfoldable pub on_world : {B S A : Type 0} → Rpc S A → Rpc (B × S) A
on_world m (b, s) = let (r, s') = m s in (r, (b, s'))

pub is_hex_data : List ℕ → Bool
is_hex_data text = starts_with (codes "0x") text

pub first_hex : List (List ℕ) → List ℕ → Option (List ℕ)
unfolding is_hex_data
first_hex [] last = if is_hex_data last then some last else none
first_hex (text ∷ texts) last =
    let rest = first_hex texts last in if is_hex_data text then some text else rest

-- `extractErrorData`
pub extract_error_data : RpcError → Option (List ℕ)
unfolding first_hex
extract_error_data e = first_hex e.data_texts e.body_data

-- Revert data with a selector at least.
pub is_revert_data : Option (List ℕ) → Bool
is_revert_data none = false
is_revert_data (some blob) = leb 10 (length blob)

pub first_text : List (List ℕ) → List ℕ → List ℕ
first_text [] last = last
first_text ([] ∷ texts) last = first_text texts last
first_text ((c ∷ text) ∷ texts) last = c ∷ text

-- `iface.parseError`, printed; nothing if it throws.
pub decoded : (List ℕ → Option (List ℕ)) → Option (List ℕ) → Option (List ℕ)
unfolding is_revert_data
decoded parse_error none = none
decoded parse_error (some blob) = if is_revert_data (some blob) then parse_error blob else none

pub reason_or : Option (List ℕ) → List ℕ → List ℕ
reason_or (some text) last = text
reason_or none last = last

-- `revertReason`
unfoldable pub revert_reason : (List ℕ → Option (List ℕ)) → RpcError → List ℕ
unfolding extract_error_data decoded reason_or first_text
revert_reason parse_error e =
    reason_or (decoded parse_error (extract_error_data e)) (first_text e.reasons e.printed)

-- The outcome of `staticExecuteCheck`: nothing if the call would succeed.
pub probe_of : (List ℕ → Option (List ℕ)) → Reply (List ℕ) → Option (List ℕ)
unfolding revert_reason reason_or
probe_of parse_error (raised e) = some (revert_reason parse_error e)
probe_of parse_error (answered []) = none
probe_of parse_error (answered (c ∷ raw)) =
    if is_bare (c ∷ raw)
    then none
    else some (reason_or (parse_error (c ∷ raw)) (codes "raw " ++ (c ∷ raw)))
  where
    -- raw === "0x"
    is_bare : List ℕ → Bool
    is_bare text = is_hex_data text && length text == 2

pub static_execute_check :
    {S : Type 0} → (List ℕ → Option (List ℕ)) → Rpc S (List ℕ) → S → Option (List ℕ) × S
unfolding probe_of
static_execute_check parse_error call s = let (r, s') = call s in (probe_of parse_error r, s')

pub lower_code : ℕ → ℕ
lower_code c = if leb 65 c && leb c 90 then c + 32 else c

-- A pattern of plain words, whatever the case of the text's letters.
unfoldable pub contains_any_case : List String → List ℕ → Bool
unfolding lower_code
contains_any_case words text = contains_any words (map lower_code text)

is_word_code : ℕ → Bool
is_word_code c =
    (leb 48 c && leb c 57) || (leb 65 c && leb c 90) || (leb 97 c && leb c 122) || c == 95

ends_word : List ℕ → Bool
unfolding is_word_code
ends_word [] = true
ends_word (c ∷ text) = not (is_word_code c)

-- 50[0-9]\b at the start of a text
pub is_five_hundred : List ℕ → Bool
unfolding ends_word
is_five_hundred (a ∷ b ∷ c ∷ text) =
    a == 53 && (b == 48 && (leb 48 c && leb c 57 && ends_word text))
is_five_hundred _ = false

-- \b50[0-9]\b anywhere, after a code that is one of a word or not
pub has_five_hundred : Bool → List ℕ → Bool
unfolding is_five_hundred is_word_code
has_five_hundred in_word [] = false
has_five_hundred in_word (c ∷ text) =
    (not in_word && is_five_hundred (c ∷ text)) || has_five_hundred (is_word_code c) text

-- TRANSIENT_MSG; "timeout" stands for the patterns that contain it.
pub is_transient_text : List ℕ → Bool
unfolding has_five_hundred contains_any_case
is_transient_text text =
    has_five_hundred false text
    || contains_any_case
        ("timeout" ∷ "gateway time-out" ∷ "gatewaytime-out" ∷ "bad gateway" ∷ "service unavailable"
          ∷ "temporarily unavailable" ∷ "etimedout" ∷ "econnreset" ∷ "econnrefused" ∷ "enetunreach"
          ∷ "eai_again" ∷ "socket hang up" ∷ "network error" ∷ "networkerror" ∷ "bandwidth limit"
          ∷ "bandwidthlimit" ∷ "rate limit" ∷ "rate-limit" ∷ "ratelimit" ∷ "too many requests"
          ∷ "quota exceeded" ∷ [])
        text

pub is_transient_code : Code → Bool
is_transient_code other_code = false
is_transient_code _ = true

-- The first that is not missing, if it is a number from 500 to 599.
pub is_server_status : List Status → Bool
is_server_status [] = false
is_server_status (no_status ∷ rest) = is_server_status rest
is_server_status (not_a_number ∷ rest) = false
is_server_status (status n ∷ rest) = leb 500 n && ltb n 600

-- `isTransient`, of an error that is there.
unfoldable pub is_transient : RpcError → Bool
unfolding extract_error_data is_revert_data is_transient_code is_server_status is_transient_text
is_transient e =
    if is_revert_data (extract_error_data e)
    then false
    else (if is_transient_code e.code
        then true
        else (if is_server_status e.statuses then true else is_transient_text e.hay))

-- RETRY, whose fields are read from the environment.
pub record Retry : Type 0 where
  pub attempts : ℕ
  pub base_ms : ℕ
  pub cap_ms : ℕ

module _ {S A : Type 0} (sleep : ℕ → S → S) (cap_ms : ℕ) (call : Rpc S A) where
  -- The loop of `withRetry`, with the attempts left after this one.
  pub retry_loop : ℕ → ℕ → Rpc S A
  retry_loop zero delay s = call s
  retry_loop (suc left) delay s =
      let (r, s') = call s in
      elim r [
        | answered a ↦ (answered a, s')
        | raised e ↦ elim (is_transient e) [
          | true ↦ retry_loop left (min (delay * 2) cap_ms) (sleep delay s')
          | false ↦ (raised e, s')
        ]
      ]

-- `withRetry`
unfoldable pub with_retry : {S A : Type 0} → (ℕ → S → S) → Retry → Rpc S A → Rpc S A
unfolding retry_loop
with_retry sleep retry call = retry_loop sleep retry.cap_ms call (retry.attempts - 1) retry.base_ms
