-- ===== src/WatchTracker/Tests.antt =====
-- Runs of the watch tracker, and its theorems at concrete histories.
use phimtor.Base.{
  List, [], ◌∷◌, ◌++◌, String, arith, ◌≡◌, ◌<◌, refl, lookup, String_discrete, ℕ_discrete,
}
use phimtor.WatchTracker.{
  Event, beats, leaves, sweeps, fires, calls_back, run, step, new_watch_tracker, beat, leave, sweep,
  fire, callback,
}
use phimtor.Base.Assoc.{delete, insert}
use phimtor.WatchTracker.Counts.{Counted, viewers, run-new-Counted}
use phimtor.WatchTracker.Pending.{IsPendingDrop}
use phimtor.WatchTracker.Orphans.{step-run-schedules}

-- Two tabs watch "a", one moves to "b", and the other falls silent.
abbrev history : List Event
history = beats "s1" "a" 0 ∷ beats "s2" "a" 1 ∷ beats "s1" "b" 20 ∷ []

run-new-Counted_example : Counted (run (new_watch_tracker 10 5) history)
run-new-Counted_example = run-new-Counted 10 5 history

watched_before : 0 < viewers (run (new_watch_tracker 10 5) history) "a"
unfolding run step new_watch_tracker beat delete insert lookup String_discrete ℕ_discrete
watched_before = omega arith

left_by_sweep : viewers (step (run (new_watch_tracker 10 5) history) (sweeps 25)) "a" ≡ 0
unfolding run step new_watch_tracker beat sweep delete insert lookup String_discrete ℕ_discrete
left_by_sweep = refl

step-run-schedules_example :
    IsPendingDrop (step (run (new_watch_tracker 10 5) history) (sweeps 25)) "a"
step-run-schedules_example =
    step-run-schedules 10 5 history (sweeps 25) "a" (omega arith) watched_before left_by_sweep

-- The drop of a switched source waits for the grace period, and a return in time cancels it.
drops_of : List Event → List String
drops_of es = (run (new_watch_tracker 10 5) es).drops

switch_drops : drops_of (history ++ leaves "s2" ∷ fires 0 ∷ calls_back 0 ∷ []) ≡ "a" ∷ []
unfolding drops_of run step new_watch_tracker beat leave fire callback delete insert lookup
    String_discrete ℕ_discrete
switch_drops = refl

return_cancels :
    drops_of (history ++ leaves "s2" ∷ beats "s2" "a" 21 ∷ fires 0 ∷ calls_back 0 ∷ []) ≡ []
unfolding drops_of run step new_watch_tracker beat leave fire callback delete insert lookup
    String_discrete ℕ_discrete
return_cancels = refl
