-- ===== src/Reaper.antt =====
-- streamer/reaper.go: torrents that no one streams, and torrents that are stuck. What the torrent
-- engine says of a torrent is an argument, and so is the clock, which does not go back; the torrents whose removal is asked for are the result.
pub mod Idle
pub mod Stalls
mod Tests
use phimtor.Base.{
  ℕ, suc, ◌+◌, ◌-◌, Bool, true, false, ◌&&◌, String, Option, none, some, List, [], ◌∷◌, ◌++◌,
  lookup, ltb, leb, ◌==◌, String_discrete, if◌then◌else◌,
}
use phimtor.Base.Assoc.{delete, insert}

pub record Activity : Type 0 where
  pub readers : ℕ
  pub last_used : ℕ

abbrev pub Activities : Type 0
Activities = List (String × Activity)

abbrev pub or_new : Option Activity → Activity
or_new none = record { readers = 0; last_used = 0 }
or_new (some a) = a

abbrev pub activity_of : String → Activities → Activity
activity_of hash m = or_new (lookup String_discrete hash m)

pub touch_activity : ℕ → String → Activities → Activities
touch_activity now hash m =
    insert String_discrete hash (record (activity_of hash m) { last_used = now }) m

pub mark_reader_opened : ℕ → String → Activities → Activities
mark_reader_opened now hash m =
    insert String_discrete hash
      (record { readers = suc (activity_of hash m).readers; last_used = now }) m

pub mark_reader_closed : ℕ → String → Activities → Activities
mark_reader_closed now hash m = elim (lookup String_discrete hash m) [
  | none ↦ m
  | some a ↦
      insert String_discrete hash
        (record {
          readers = (if ltb 0 a.readers then a.readers - 1 else a.readers);
          last_used = now;
        })
        m
]

pub is_idle : ℕ → ℕ → Activity → Bool
is_idle now idle_ttl a = a.readers == 0 && ltb idle_ttl (now - a.last_used)

-- The torrents that `reapIdle` removes.
pub reap_idle : ℕ → ℕ → Activities → List String
unfolding is_idle
reap_idle now idle_ttl [] = []
reap_idle now idle_ttl ((hash, a) ∷ rest) =
    let others = reap_idle now idle_ttl rest in
    if is_idle now idle_ttl a then hash ∷ others else others

-- What the engine says of a torrent: whether its metadata is there, its bytes, its connected seeders.
pub record Progress : Type 0 where
  pub has_info : Bool
  pub bytes_completed : ℕ
  pub size : ℕ
  pub connected_seeders : ℕ

pub record StallProgress : Type 0 where
  pub bytes : ℕ
  pub at : ℕ

abbrev pub Samples : Type 0
Samples = List (String × StallProgress)

-- The verdict on one watched torrent that is not complete: its sample, and whether it has stalled. A
-- sample that stays is written back as it was.
pub judge : ℕ → ℕ → Progress → Option StallProgress → StallProgress × Bool
judge now stall_timeout t none = (record { bytes = t.bytes_completed; at = now }, false)
judge now stall_timeout t (some prev) =
    if ltb prev.bytes t.bytes_completed
    then (record { bytes = t.bytes_completed; at = now }, false)
    else if ltb (now - prev.at) stall_timeout
    then (prev, false)
    else if ltb 0 t.connected_seeders
    then (record { bytes = t.bytes_completed; at = now }, false)
    else (prev, true)

-- The samples and the stalled torrents so far.
abbrev pub Pass : Type 0
Pass = Samples × List String

pub check_watched : ℕ → ℕ → String → Progress → Pass → Pass
unfolding judge
check_watched now stall_timeout hash t (seen, stalled) =
    if leb t.size t.bytes_completed
    then (delete String_discrete hash seen, stalled)
    else (let (s, stuck) = judge now stall_timeout t (lookup String_discrete hash seen) in
        (insert String_discrete hash s seen, if stuck then stalled ++ (hash ∷ []) else stalled))

pub check_one : ℕ → ℕ → Activities → String → Progress → Pass → Pass
unfolding check_watched
check_one now stall_timeout m hash t (seen, stalled) =
    if (activity_of hash m).readers == 0
    then (delete String_discrete hash seen, stalled)
    else if t.has_info
    then check_watched now stall_timeout hash t (seen, stalled)
    else (seen, stalled)

pub check_loop : ℕ → ℕ → Activities → List (String × Progress) → Pass → Pass
unfolding check_one
check_loop now stall_timeout m [] pass = pass
check_loop now stall_timeout m ((hash, t) ∷ rest) pass =
    check_loop now stall_timeout m rest (check_one now stall_timeout m hash t pass)

pub forget_gone : List (String × Progress) → Samples → Samples → Samples
forget_gone torrents [] seen = seen
forget_gone torrents ((hash, _) ∷ rest) seen =
    forget_gone torrents rest (elim (lookup String_discrete hash torrents) [
      | none ↦ delete String_discrete hash seen
      | some _ ↦ seen
    ])

pub forget_stalled : List String → Samples → Samples
forget_stalled [] seen = seen
forget_stalled (hash ∷ rest) seen = forget_stalled rest (delete String_discrete hash seen)

-- One pass: the samples that are left, and the torrents that are removed.
pub check_stalls : ℕ → ℕ → Activities → List (String × Progress) → Samples → Pass
unfolding check_loop forget_gone forget_stalled
check_stalls now stall_timeout m torrents seen =
    let (seen', stalled) = check_loop now stall_timeout m torrents (seen, []) in
    (forget_stalled stalled (forget_gone torrents seen' seen'), stalled)
