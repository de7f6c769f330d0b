-- ===== src/RateLimiter/Tests.antt =====
-- The rate limiter at a concrete history.
use phimtor.Base.{false, [], ◌∷◌, length, ltb, ◌≡◌, refl, arith, lookup, String_discrete}
use phimtor.Base.Assoc.{insert, delete}
use phimtor.RateLimiter.{allow, live_stamps, swept, record_hit, stamps}
use phimtor.RateLimiter.Verdicts.{History, fresh, accepted, after_calls, allow-accepted}

-- Three calls of one user and one of another, the latest first.
abbrev calls : History
calls = (12, "u1") ∷ (11, "u2") ∷ (5, "u1") ∷ (3, "u1") ∷ []

allow-accepted_example :
    (allow 14 "u1" (after_calls (fresh 2 10) calls)).1
    ≡ ltb (length (live_stamps 14 10 (accepted "u1" (fresh 2 10) calls))) 2
allow-accepted_example =
    allow-accepted 2 10 "u1" 14 calls (omega arith, (omega arith, (omega arith, (omega arith, tt))))

-- The third call of a user within the window is refused.
third_refused : (allow 12 "u1" (after_calls (fresh 2 10) ((5, "u1") ∷ (3, "u1") ∷ []))).1 ≡ false
unfolding allow after_calls live_stamps swept record_hit stamps insert delete lookup String_discrete
third_refused = refl
