-- ===== src/Reaper/Tests.antt =====
-- The reaper and the stall checker at concrete torrents.
use phimtor.Base.{String, List, [], ◌∷◌, ◌≡◌, refl, true, inl, sym, subst, lookup, String_discrete}
use phimtor.Base.Assoc.{Distinct, delete, insert}
use phimtor.Reaper.{Activities, reap_idle, is_idle}
use phimtor.Reaper.{
  Progress, Samples, activity_of, check_stalls, check_loop, check_one, check_watched, judge,
  forget_gone, forget_stalled,
}
use phimtor.Reaper.Stalls.{Stuck, check_stalls-Stuck}
use phimtor.Reaper.Idle.{IsAmong}

-- One torrent is read, one was used a moment ago, and one is idle.
abbrev activity : Activities
activity =
    ("a", record { readers = 1; last_used = 3 })
    ∷ ("b", record { readers = 0; last_used = 95 })
    ∷ ("c", record { readers = 0; last_used = 20 })
    ∷ []

reaped : reap_idle 100 30 activity ≡ "c" ∷ []
unfolding reap_idle is_idle
reaped = refl

-- The read torrent "a" has not moved for a minute, and no one has it to give.
abbrev torrents : List (String × Progress)
torrents =
    ("a", record { has_info = true; bytes_completed = 40; size = 90; connected_seeders = 0 })
    ∷ ("b", record { has_info = true; bytes_completed = 10; size = 90; connected_seeders = 0 })
    ∷ []

abbrev samples : Samples
samples = ("a", record { bytes = 40; at = 40 }) ∷ []

torrents-Distinct : Distinct String_discrete torrents
unfolding lookup String_discrete
torrents-Distinct = (refl, (refl, tt))

removed : (check_stalls 100 30 activity torrents samples).1 ≡ "a" ∷ []
unfolding check_stalls check_loop check_one check_watched judge forget_gone forget_stalled delete
    insert lookup String_discrete
removed = refl

a_removed : IsAmong "a" (check_stalls 100 30 activity torrents samples).1
a_removed = subst (IsAmong "a") (sym removed) (inl refl)

check_stalls-Stuck_example :
    Stuck 100 30
      (activity_of "a" activity).readers
      (lookup String_discrete "a" torrents)
      (lookup String_discrete "a" samples)
check_stalls-Stuck_example =
    check_stalls-Stuck 100 30 activity "a" torrents samples torrents-Distinct a_removed
