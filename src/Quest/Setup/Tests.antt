-- ===== src/Quest/Setup/Tests.antt =====
-- frontend/api/quest/verify.js: environments and what they set up.
use perps_litvm.Base.{ℕ, ◌≡◌, refl, String, Option, none, some}
use perps_litvm.Quest.Setup.{limits, get_index_proof}

abbrev nothing_set : String → Option String
nothing_set name = none

abbrev all_supabase : String → Option String
all_supabase name = some "supabase"

abbrev unread : String → Option ℕ
unread t = none

abbrev unchanged : String → String
unchanged t = t

default_limits : limits unchanged unread nothing_set ≡ (10, 100)
unfolding limits
default_limits = refl

-- Without the durable drivers there is no proof.
no_proof : get_index_proof unchanged unread nothing_set (λ (b d : ℕ). b) (some 1) (some 2) ≡ none
unfolding get_index_proof
no_proof = refl

some_proof :
    get_index_proof unchanged unread all_supabase (λ (b d : ℕ). b) (some 1) (some 2) ≡ some 1
unfolding get_index_proof
some_proof = refl
