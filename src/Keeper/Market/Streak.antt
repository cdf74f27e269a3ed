-- ===== src/Keeper/Market/Streak.antt =====
-- keeper/keeper.mjs, `deferMarket`: the runs of one permanent error in a history of deferrals.
use perps_litvm.Base.{
  ℕ, suc, ◌≡◌, ◌⊎◌, inl, inr, refl, sym, ap, ◌∙◌, Bool, true, false, not, Option, none, some, List,
  [], ◌∷◌, if◌then◌else◌, arith, Bool-cases, ◌&&◌,
}
use perps_litvm.Keeper.Reasons.{is_not_active, is_permanent, name_of, same_text}
use perps_litvm.Keeper.Market.{perm_name, truthy, same_reason}

pub perm_name-temporary : (reason : List ℕ) → is_permanent reason ≡ false → perm_name reason ≡ none
unfolding perm_name
perm_name-temporary reason p = rw p refl

abbrev pub is_empty : List ℕ → Bool
is_empty [] = true
is_empty (c ∷ text) = false

-- A permanent error with a name, which is what is written before the first parenthesis.
abbrev pub counts : List ℕ → Bool
counts reason = is_permanent reason && not (is_empty (name_of reason))

-- How many of the latest reasons are permanent and have this name, leaving out those that say that
-- the request is gone.
unfoldable pub run_length : List ℕ → List (ℕ × List ℕ) → ℕ
run_length name [] = 0
run_length name ((at, reason) ∷ earlier) =
    let rest = run_length name earlier in
    if is_not_active reason
    then rest
    else (if counts reason && same_text (name_of reason) name then suc rest else 0)

unfoldable pub streak : List (ℕ × List ℕ) → ℕ
unfolding run_length
streak [] = 0
streak ((at, reason) ∷ earlier) =
    let rest = streak earlier in
    if is_not_active reason
    then rest
    else (if counts reason then suc (run_length (name_of reason) earlier) else 0)

same_text→eq : (s t : List ℕ) → same_text s t ≡ true → s ≡ t
unfolding same_text
same_text→eq [] [] h = refl
same_text→eq (c ∷ s) (d ∷ t) h = ground (arith, same_text→eq s t)
same_text→eq [] (d ∷ t) h = cc
same_text→eq (c ∷ s) [] h = cc

same_text_refl : (s : List ℕ) → same_text s s ≡ true
unfolding same_text
same_text_refl [] = refl
same_text_refl (c ∷ s) = ground (arith, same_text_refl s)

-- The name that the tally compares with is that of the latest reason which does not say that the
-- request is gone, if that reason counts.
abbrev pub Named : List (ℕ × List ℕ) → Option (List ℕ) → Type 0
Named [] o = o ≡ none
Named ((at, reason) ∷ earlier) o =
    ((is_not_active reason ≡ true) × Named earlier o)
    ⊎ ((is_not_active reason ≡ false) × (counts reason ≡ true) × (o ≡ some (name_of reason)))
    ⊎ ((is_not_active reason ≡ false) × (counts reason ≡ false) × (o ≡ none))

truthy-some : (name : List ℕ) → is_empty name ≡ false → truthy name ≡ some name
unfolding truthy
truthy-some [] h = cc
truthy-some (c ∷ name) h = refl

truthy-none : (name : List ℕ) → is_empty name ≡ true → truthy name ≡ none
unfolding truthy
truthy-none [] h = refl
truthy-none (c ∷ name) h = cc

pub perm_name-some :
    (reason : List ℕ) → counts reason ≡ true → perm_name reason ≡ some (name_of reason)
unfolding perm_name
perm_name-some reason h =
    let p : is_permanent reason ≡ true = ground arith in
    rw p (truthy-some (name_of reason) (ground arith))

pub perm_name-none : (reason : List ℕ) → counts reason ≡ false → perm_name reason ≡ none
unfolding perm_name
perm_name-none reason h = elim (Bool-cases (is_permanent reason)) [
  | inr p ↦ perm_name-temporary reason p
  | inl p ↦ rw p (truthy-none (name_of reason) (ground arith))
]

pub same_reason→eq :
    (o : Option (List ℕ)) (name : List ℕ) → same_reason o name ≡ true → o ≡ some name
unfolding same_reason
same_reason→eq none name h = cc
same_reason→eq (some old) name h = ap some (same_text→eq old name h)

pub run_length-same :
    (earlier : List (ℕ × List ℕ)) (o : Option (List ℕ)) (name : List ℕ)
    → Named earlier o
    → same_reason o name ≡ true
    → run_length name earlier ≡ streak earlier
unfolding run_length streak
run_length-same [] o name n h = refl
run_length-same ((at, reason) ∷ earlier) o name (inl (gone, n)) h =
    rw gone (run_length-same earlier o name n h)
run_length-same ((at, reason) ∷ earlier) o name (inr (inl (here, p, e))) h =
    let same : name_of reason ≡ name = cc (same_reason→eq o name h) in
    rw (here, p, same, same_text_refl name) refl
run_length-same ((at, reason) ∷ earlier) o name (inr (inr (here, p, e))) h =
    let missing : none ≡ some name = sym e ∙ same_reason→eq o name h in cc missing

pub run_length-other :
    (earlier : List (ℕ × List ℕ)) (o : Option (List ℕ)) (name : List ℕ)
    → Named earlier o
    → same_reason o name ≡ false
    → run_length name earlier ≡ 0
unfolding run_length same_reason
run_length-other [] o name n h = refl
run_length-other ((at, reason) ∷ earlier) o name (inl (gone, n)) h =
    rw gone (run_length-other earlier o name n h)
run_length-other ((at, reason) ∷ earlier) o name (inr (inl (here, p, e))) h =
    let other : same_text (name_of reason) name ≡ false = rw e at h in rw (here, p, other) refl
run_length-other ((at, reason) ∷ earlier) o name (inr (inr (here, p, e))) h = rw (here, p) refl
