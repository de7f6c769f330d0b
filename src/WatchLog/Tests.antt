-- ===== src/WatchLog/Tests.antt =====
-- The watch log at a concrete history.
use phimtor.Base.{none, some, List, [], ◌∷◌, ◌*◌, false, arith, ℕ}
use phimtor.WatchLog.{Video, second}
use phimtor.WatchLog.Totals.{
  Event, prepare_event, beat_event, flush_event, after, AllFitting, Ordered, after-AllFitting,
}

abbrev film : Video
film = record { id = 7; resolution = "1080p"; episode_id = none }

-- A minute away from the page in the middle, and a flush that fails.
abbrev history : List (ℕ × Event)
history =
    (90 * second, beat_event 1 "s" "h")
    ∷ (25 * second, flush_event false [])
    ∷ (20 * second, beat_event 1 "s" "h")
    ∷ (10 * second, beat_event 1 "s" "h")
    ∷ (5 * second, prepare_event 1 "h" (some film) 3 "web")
    ∷ []

history-Ordered : Ordered (90 * second) history
history-Ordered = (omega arith, (omega arith, (omega arith, (omega arith, (omega arith, tt)))))

after-AllFitting_example : AllFitting (90 * second) (after history).sessions
after-AllFitting_example = after-AllFitting (90 * second) history history-Ordered
