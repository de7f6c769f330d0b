-- ===== src/RateLimiter.antt =====
-- viewer/ratelimit.go: the sliding-window counter. Times are integers, and the clock is an argument. A
-- nil limiter, which allows everything, is none. `now.Add(-window)` is written as a sum on the other
-- side of each comparison, so that no time is cut off at 0.
pub mod Windows
pub mod Verdicts
mod Tests
use phimtor.Base.{
  ℕ, ◌+◌, Bool, true, false, String, Option, none, some, List, [], ◌∷◌, ◌++◌, lookup, ltb, leb,
  length, String_discrete, if◌then◌else◌,
}
use phimtor.Base.Assoc.{delete, insert}

pub record RateLimiter : Type 0 where
  pub limit : ℕ
  pub window : ℕ
  pub hits : List (String × List ℕ)

abbrev pub max_rate_limit_keys : ℕ
max_rate_limit_keys = 4096

pub new_rate_limiter : ℕ → ℕ → Option RateLimiter
new_rate_limiter limit window =
    if leb limit 0 then none else some (record { limit = limit; window = window; hits = [] })

-- The stamps after the cutoff: t > now - window.
pub live_stamps : ℕ → ℕ → List ℕ → List ℕ
live_stamps now window [] = []
live_stamps now window (t ∷ ts) =
    let rest = live_stamps now window ts in if ltb now (t + window) then t ∷ rest else rest

pub sweep_entry : String → List ℕ → List (String × List ℕ) → List (String × List ℕ)
sweep_entry key [] hits = delete String_discrete key hits
sweep_entry key (t ∷ live) hits = insert String_discrete key (t ∷ live) hits

pub sweep_locked : ℕ → ℕ → List (String × List ℕ) → List (String × List ℕ) → List (String × List ℕ)
unfolding live_stamps sweep_entry
sweep_locked now window [] hits = hits
sweep_locked now window ((key, stamps) ∷ rest) hits =
    sweep_locked now window rest (sweep_entry key (live_stamps now window stamps) hits)

abbrev pub or_nil : Option (List ℕ) → List ℕ
or_nil none = []
or_nil (some ts) = ts

-- The stamps of a key.
pub stamps : String → RateLimiter → List ℕ
stamps key l = or_nil (lookup String_discrete key l.hits)

pub swept : ℕ → RateLimiter → RateLimiter
unfolding sweep_locked
swept now l =
    if ltb max_rate_limit_keys (length l.hits)
    then record l { hits = sweep_locked now l.window l.hits l.hits }
    else l

pub record_hit : ℕ → String → RateLimiter → RateLimiter × Bool
unfolding live_stamps stamps
record_hit now key l =
    let kept = live_stamps now l.window (stamps key l) in
    if leb l.limit (length kept)
    then (record l { hits = insert String_discrete key kept l.hits }, false)
    else (record l { hits = insert String_discrete key (kept ++ (now ∷ [])) l.hits }, true)

pub allow : ℕ → String → RateLimiter → RateLimiter × Bool
unfolding swept record_hit
allow now key l = record_hit now key (swept now l)

pub allow_nil : ℕ → String → Option RateLimiter → Option RateLimiter × Bool
unfolding allow
allow_nil now key none = (none, true)
allow_nil now key (some l) = let (l', ok) = allow now key l in (some l', ok)
