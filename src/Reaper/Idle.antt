-- ===== src/Reaper/Idle.antt =====
-- streamer/reaper.go: which torrents the idle reaper takes.
use phimtor.Base.{ℕ, ◌+◌, ◌<◌, String, Option, none, some, List, [], ◌∷◌, ◌≡◌, ◌⊎◌}
use phimtor.Reaper.{Activity}

abbrev pub IsAmong : String → List String → Type 0
IsAmong x [] = ⊥
IsAmong x (y ∷ ys) = (x ≡ y) ⊎ IsAmong x ys

-- In the map, with no open reader, and not used for longer than the time to live.
abbrev pub IdleEntry : ℕ → ℕ → Option Activity → Type 0
IdleEntry now idle_ttl none = ⊥
IdleEntry now idle_ttl (some a) = (a.readers ≡ 0) × (idle_ttl + a.last_used < now)
