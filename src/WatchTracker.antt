-- ===== src/WatchTracker.antt =====
-- viewer/watchtracker.go: the count of watch sessions per torrent, and the drop of a torrent that
-- its last viewer left. Times are integers, and the clock is an argument of each call. A timer of
-- `time.AfterFunc` is `armed` until it is stopped or goes off; one that went off is `fired` until its
-- function has the lock, and `Stop` no longer reaches it. `drops` is the log of `dropNow` calls.
pub mod Counts
pub mod Drops
pub mod Pending
pub mod Orphans
mod Tests
use phimtor.Base.{
  ℕ, suc, ◌+◌, ◌-◌, String, Option, none, some, List, [], ◌∷◌, ◌++◌, lookup, ite, Bool, leb, ltb,
  ◌==◌, ℕ_discrete, String_discrete, if◌then◌else◌,
}
use phimtor.Base.Assoc.{delete, insert}

pub record WatchSession : Type 0 where
  pub info_hash : String
  pub last_seen : ℕ

pub record Tracker : Type 0 where
  pub sessions : List (String × WatchSession)
  pub counts : List (String × ℕ)
  pub pending : List (String × ℕ)
  pub armed : List (ℕ × String)
  pub fired : List (ℕ × String)
  pub next_timer : ℕ
  pub drops : List String
  pub ttl : ℕ
  pub grace : ℕ

pub new_watch_tracker : ℕ → ℕ → Tracker
new_watch_tracker ttl grace = record {
  sessions = [];
  counts = [];
  pending = [];
  armed = [];
  fired = [];
  next_timer = 0;
  drops = [];
  ttl = ttl;
  grace = grace;
}

-- A Go map of numbers reads as 0 at a missing key.
abbrev pub or_zero : Option ℕ → ℕ
or_zero none = 0
or_zero (some n) = n

abbrev pub count_of : Tracker → String → ℕ
count_of t h = or_zero (lookup String_discrete h t.counts)

-- The torrent's hash if this was its last viewer, else "".
pub release : String → Tracker → Tracker × String
release h t =
    if leb (count_of t h) 1
    then (record t { counts = delete String_discrete h t.counts }, h)
    else (record t { counts = insert String_discrete h (count_of t h - 1) t.counts }, "")

pub drop_now : String → Tracker → Tracker
drop_now h t = record t { drops = t.drops ++ h ∷ [] }

-- `Stop` on the timer that `pending` holds for the torrent, if it holds one.
pub stop_pending : String → Tracker → Tracker
stop_pending h t = elim (lookup String_discrete h t.pending) [
  | none ↦ t
  | some n ↦ record t { armed = delete ℕ_discrete n t.armed }
]

pub after_func : String → Tracker → Tracker
after_func h t = record t {
  pending = insert String_discrete h t.next_timer t.pending;
  armed = insert ℕ_discrete t.next_timer h t.armed;
  next_timer = suc t.next_timer;
}

pub schedule_drop : String → Tracker → Tracker
unfolding drop_now stop_pending after_func
schedule_drop h t =
    ite (String_discrete h "") t
      (if t.grace == 0 then drop_now h t else after_func h (stop_pending h t))

pub cancel_pending : String → Tracker → Tracker
unfolding stop_pending
cancel_pending h t =
    let t' = stop_pending h t in record t' { pending = delete String_discrete h t'.pending }

-- `t.scheduleDrop(t.release(infoHash))`
pub release_and_schedule : String → Tracker → Tracker
unfolding release schedule_drop
release_and_schedule h t = let (t', last) = release h t in schedule_drop last t'

-- The last three lines of `beat`.
pub join : String → String → ℕ → Tracker → Tracker
unfolding cancel_pending
join sid h now t = cancel_pending h (record t {
  sessions = insert String_discrete sid (record { info_hash = h; last_seen = now }) t.sessions;
  counts = insert String_discrete h (count_of t h + 1) t.counts;
})

pub beat : String → String → ℕ → Tracker → Tracker
unfolding release_and_schedule join
beat sid h now t = ite (String_discrete sid "") t (
    ite (String_discrete h "") t (elim (lookup String_discrete sid t.sessions) [
      | none ↦ join sid h now t
      | some s ↦
          ite (String_discrete s.info_hash h)
            (record t {
              sessions = insert String_discrete sid (record s { last_seen = now }) t.sessions;
            })
            (join sid h now (release_and_schedule s.info_hash t))
    ]))

-- The end of a session, in `leave` and in `sweep`.
pub end_session : String → WatchSession → Tracker → Tracker
unfolding release_and_schedule
end_session sid s t =
    release_and_schedule s.info_hash (record t { sessions = delete String_discrete sid t.sessions })

pub leave : String → Tracker → Tracker
unfolding end_session
leave sid t =
    ite (String_discrete sid "") t
      (elim (lookup String_discrete sid t.sessions) [ none ↦ t | some s ↦ end_session sid s t ])

-- `lastSeen.Before(now - ttl)`
abbrev pub is_stale : ℕ → Tracker → WatchSession → Bool
is_stale now t s = ltb (s.last_seen + t.ttl) now

pub sweep_loop : ℕ → List (String × WatchSession) → Tracker → Tracker
unfolding end_session
sweep_loop now [] t = t
sweep_loop now ((sid, s) ∷ rest) t =
    sweep_loop now rest (if is_stale now t s then end_session sid s t else t)

pub sweep : ℕ → Tracker → Tracker
unfolding sweep_loop
sweep now t = sweep_loop now t.sessions t

-- A timer goes off: its function runs, and waits for the lock.
pub fire : ℕ → Tracker → Tracker
fire n t = elim (lookup ℕ_discrete n t.armed) [
  | none ↦ t
  | some h ↦ record t { armed = delete ℕ_discrete n t.armed; fired = insert ℕ_discrete n h t.fired }
]

-- The timer's function, once it has the lock.
pub callback : ℕ → Tracker → Tracker
unfolding drop_now
callback n t = elim (lookup ℕ_discrete n t.fired) [
  | none ↦ t
  | some h ↦
      let t' = record t {
        fired = delete ℕ_discrete n t.fired;
        pending = delete String_discrete h t.pending;
      } in
      if ltb 0 (count_of t' h) then t' else drop_now h t'
]

pub data Event : Type 0 where
  beats : String → String → ℕ → Event
  leaves : String → Event
  sweeps : ℕ → Event
  fires : ℕ → Event
  calls_back : ℕ → Event

pub step : Tracker → Event → Tracker
step t (beats sid h now) = beat sid h now t
step t (leaves sid) = leave sid t
step t (sweeps now) = sweep now t
step t (fires n) = fire n t
step t (calls_back n) = callback n t

pub run : Tracker → List Event → Tracker
run t [] = t
run t (e ∷ es) = run (step t e) es
