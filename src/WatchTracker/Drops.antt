-- ===== src/WatchTracker/Drops.antt =====
-- viewer/watchtracker.go: which torrents a step drops.
use phimtor.Base.{String, List, ◌++◌, All, ◌≡◌}
use phimtor.WatchTracker.{Tracker}
use phimtor.WatchTracker.Counts.{viewers}

-- `u` has dropped more torrents than `t`, none of which anybody watches in `u`.
abbrev pub DropsUnwatched : Tracker → Tracker → Type 0
DropsUnwatched t u =
    (new : List String) × (u.drops ≡ t.drops ++ new) × All (λ h. viewers u h ≡ 0) new
