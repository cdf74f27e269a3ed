-- ===== src/Quest/Sources.antt =====
-- frontend/api/_lib/quest/scan.js: sources, their keys, and the check of their floors.
use perps_litvm.Base.{
  ℕ, ◌-◌, String, Bool, true, false, not, Option, none, some, leb, if◌then◌else◌, ok, throw, Call,
  answer,
}
use text.Mathlib.Text.{◌==◌}

-- A source to scan. Its contract and filter are what the world's calls make of it.
pub record Source : Type 0 where
  pub source_key : Option String
  pub address : Option String
  pub contract_address : Option String
  pub floor : ℕ

-- `a ?? b`
abbrev pub or_else {ℓ} : {A : Type ℓ} → Option A → A → A
or_else none b = b
or_else (some a) b = a

abbrev pub or_else_some {ℓ} : {A : Type ℓ} → Option A → Option A → Option A
or_else_some none b = b
or_else_some (some a) b = some a

-- `raw.trim().toLowerCase()` is the parameter `tidy`.
unfoldable pub source_key_of : (String → String) → Source → String
source_key_of tidy source = tidy (
    or_else (or_else_some source.source_key (or_else_some source.address source.contract_address))
      "")

module _ {S : Type 0} (has_code_at : String → ℕ → Call S Bool) where
  pub code_check : Source → String → Call S Bool
  code_check source address s =
      if leb source.floor 0
      then (ok true, s)
      else (let (r, s') = has_code_at address (source.floor - 1) s in
          (elim r [ ok there ↦ ok (not there) | throw e ↦ throw e ], s'))

  -- No address, or an empty one, is a failed check.
  pub verify_source_floor : Source → Call S Bool
  unfolding code_check
  verify_source_floor source = elim (or_else_some source.address source.contract_address) [
    | none ↦ answer (ok false)
    | some address ↦ if address == "" then answer (ok false) else code_check source address
  ]
