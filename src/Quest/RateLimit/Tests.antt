-- ===== src/Quest/RateLimit/Tests.antt =====
-- frontend/api/_lib/rateLimit.js on a short history, two a minute and three an hour.
use perps_litvm.Base.{ℕ, ◌≡◌, refl, String, some, List, [], ◌∷◌, arith}
use perps_litvm.Quest.RateLimit.{no_hits, minute, allowed, blocked, check, is_allowed, served}
use perps_litvm.Quest.RateLimit.Window.{is_within, is_allowed-check}

abbrev two_hits : List (String × ℕ)
two_hits = ("a", 1000) ∷ ("b", 800) ∷ ("a", 500) ∷ []

-- The oldest of the two leaves the minute at 60500.
third_run : (check 2 3 "a" 1500 (served 2 3 two_hits).0).0 ≡ blocked minute (some 59)
unfolding check served no_hits
third_run = refl

other_run : (check 2 3 "b" 1500 (served 2 3 two_hits).0).0 ≡ allowed 0 1
unfolding check served no_hits
other_run = refl

is_allowed-check_example :
    is_allowed 2 3 (check 2 3 "a" 1500 (served 2 3 two_hits).0).0
    ≡ is_within 2 3 "a" 1500 (served 2 3 two_hits).1
is_allowed-check_example =
    is_allowed-check 2 3 two_hits "a" 1500
      (omega arith, (omega arith, (omega arith, (omega arith, tt))))
