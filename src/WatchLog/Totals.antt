-- ===== src/WatchLog/Totals.antt =====
-- viewer/watchlog.go: the watched seconds of a session.
use Prim.Native.String.{len}
use phimtor.Base.{
  ℕ, ◌+◌, ◌-◌, ◌*◌, ◌/◌, ◌≤◌, Bool, false, ◌||◌, String, Option, none, some, List, [], ◌∷◌, lookup,
  min, ◌==◌, ltb, if◌then◌else◌, ◌≡◌, refl, arith, if_elim, Option_elim,
}
use phimtor.Base.Assoc.{delete, insert, lookup-delete, lookup-insert}
use phimtor.WatchLog.{
  WatchLog, WatchPrepared, SessionEntry, SessionKey, SessionKey_discrete, PrepareKey_discrete, Row,
  Video, second, max_beat_gap, max_session_id, is_blank, is_finished, advance, new_entry,
  new_watch_log, prepare, prepared, beat_session, beat, clear_row, clear_rows, evict_sessions,
  finish_flush,
}

-- The seconds counted fit between the first beat and the last one, which is not in the future.
abbrev pub Fitting : ℕ → SessionEntry → Type 0
Fitting now e = (e.started_at + e.seconds * second ≤ e.last_seen) × (e.last_seen ≤ now)

-- Every session is fitting.
abbrev pub AllFitting : ℕ → List (SessionKey × SessionEntry) → Type 0
AllFitting now sessions =
    (k : SessionKey) (e : SessionEntry)
    → lookup SessionKey_discrete k sessions ≡ some e
    → Fitting now e

whole_seconds : (gap : ℕ) → gap / second * second ≤ gap
whole_seconds gap = omega arith

advance-Fitting : (now : ℕ) (e : SessionEntry) → Fitting now e → Fitting now (advance now e)
unfolding advance
advance-Fitting now e f =
    omega (arith, f.0, f.1, whole_seconds (min (now - e.last_seen) max_beat_gap))

insert-AllFitting :
    (now : ℕ) (k : SessionKey) (e : SessionEntry) (m : List (SessionKey × SessionEntry))
    → Fitting now e
    → AllFitting now m
    → AllFitting now (insert SessionKey_discrete k e m)
insert-AllFitting now k e m f a j d h = elim (SessionKey_discrete j k) [
  | yes same ↦ ground (arith, lookup-insert SessionKey_discrete k j e m, f)
  | no n ↦ a j d (ground (arith, lookup-insert SessionKey_discrete k j e m))
]

delete-AllFitting :
    (now : ℕ) (k : SessionKey) (m : List (SessionKey × SessionEntry))
    → AllFitting now m
    → AllFitting now (delete SessionKey_discrete k m)
delete-AllFitting now k m a j d h = a j d (ground (arith, lookup-delete SessionKey_discrete k j m))

AllFitting-later :
    (at now : ℕ) (m : List (SessionKey × SessionEntry))
    → at ≤ now
    → AllFitting at m
    → AllFitting now m
AllFitting-later at now m h a k e found = ((a k e found).0, omega (arith, (a k e found).1))

beat_session-AllFitting :
    (now : ℕ) (key : SessionKey) (p : WatchPrepared) (l : WatchLog)
    → AllFitting now l.sessions
    → AllFitting now (beat_session now key p l).sessions
unfolding beat_session
beat_session-AllFitting now key p l a =
    Option_elim (λ (x : WatchLog). AllFitting now x.sessions)
      (lookup SessionKey_discrete key l.sessions) _ _
      (λ _. insert-AllFitting now key (new_entry now p) l.sessions new_fitting a)
      (λ e found.
        insert-AllFitting now key (advance now e) l.sessions (advance-Fitting now e (a key e found))
          a)
  where
    new_fitting : Fitting now (new_entry now p)
    new_fitting = unfold new_entry in (omega arith, omega arith)

beat-AllFitting :
    (now user_id : ℕ) (session_id info_hash : String) (l : WatchLog)
    → AllFitting now l.sessions
    → AllFitting now (beat now user_id session_id info_hash l).sessions
unfolding beat
beat-AllFitting now user_id session_id info_hash l a =
    if_elim (λ (x : WatchLog). AllFitting now x.sessions)
      (user_id == 0
        || is_blank session_id
        || ltb max_session_id (len session_id)
        || is_blank info_hash)
      _ _ (λ _. a)
      (λ _.
        Option_elim (λ (x : WatchLog). AllFitting now x.sessions)
          (lookup PrepareKey_discrete (user_id, info_hash) l.prepares) _ _ (λ _. a)
          (λ p _. beat_session-AllFitting now _ p l a))

prepared-sessions :
    (now user_id : ℕ) (info_hash : String) (video : Option Video) (title_id : ℕ) (client : String)
    (l : WatchLog)
    → (prepared now user_id info_hash video title_id client l).sessions ≡ l.sessions
unfolding prepared prepare
prepared-sessions now user_id info_hash none title_id client l = refl
prepared-sessions now user_id info_hash (some v) title_id client l =
    if_elim (λ (x : WatchLog). x.sessions ≡ l.sessions)
      (user_id == 0 || is_blank info_hash || title_id == 0) _ _ (λ _. refl) (λ _. refl)

clear_row-AllFitting :
    (now : ℕ) (r : Row) (m : List (SessionKey × SessionEntry))
    → AllFitting now m
    → AllFitting now (clear_row r m)
unfolding clear_row
clear_row-AllFitting now (k, row) m a =
    Option_elim (AllFitting now) (lookup SessionKey_discrete k m) _ _ (λ _. a)
      (λ e found.
        if_elim (AllFitting now) (e.last_seen == row.last_seen) _ _
          (λ _. insert-AllFitting now k (record e { dirty = false }) m (a k e found) a) (λ _. a))

clear_rows-AllFitting :
    (now : ℕ) (rows : List Row) (m : List (SessionKey × SessionEntry))
    → AllFitting now m
    → AllFitting now (clear_rows rows m)
unfolding clear_rows
clear_rows-AllFitting now [] m a = a
clear_rows-AllFitting now (r ∷ rows) m a =
    clear_rows-AllFitting now rows _ (clear_row-AllFitting now r m a)

evict_sessions-AllFitting :
    (now : ℕ) (rest m : List (SessionKey × SessionEntry))
    → AllFitting now m
    → AllFitting now (evict_sessions now rest m)
unfolding evict_sessions
evict_sessions-AllFitting now [] m a = a
evict_sessions-AllFitting now ((k, e) ∷ rest) m a =
    evict_sessions-AllFitting now rest _
      (if_elim (AllFitting now) (is_finished now e) _ _ (λ _. delete-AllFitting now k m a) (λ _. a))

-- What happens to the log, with the time of each.
pub data Event : Type 0 where
  prepare_event : ℕ → String → Option Video → ℕ → String → Event
  beat_event : ℕ → String → String → Event
  flush_event : Bool → List Row → Event

pub step : ℕ → Event → WatchLog → WatchLog
step now (prepare_event user hash video title client) l =
    prepared now user hash video title client l
step now (beat_event user session hash) l = beat now user session hash l
step now (flush_event written rows) l = finish_flush now written rows l

-- The log after the events, the latest first.
pub after : List (ℕ × Event) → WatchLog
after [] = new_watch_log
after ((now, e) ∷ earlier) = step now e (after earlier)

abbrev pub Ordered : ℕ → List (ℕ × Event) → Type 0
Ordered now [] = Unit
Ordered now ((t, _) ∷ earlier) = (t ≤ now) × Ordered t earlier

step-AllFitting :
    (now : ℕ) (e : Event) (l : WatchLog)
    → AllFitting now l.sessions
    → AllFitting now (step now e l).sessions
unfolding step finish_flush
step-AllFitting now (prepare_event user hash video title client) l a =
    rw (prepared-sessions now user hash video title client l) a
step-AllFitting now (beat_event user session hash) l a = beat-AllFitting now user session hash l a
step-AllFitting now (flush_event written rows) l a =
    evict_sessions-AllFitting now (if written then clear_rows rows l.sessions else l.sessions) _ (
      if_elim (AllFitting now) written _ _ (λ _. clear_rows-AllFitting now rows l.sessions a)
        (λ _. a))

-- Whatever mix of prepares, heartbeats and flushes, in the order of their times: the seconds that a
-- session has counted are at most the time from its first heartbeat to its last.
pub after-AllFitting :
    (now : ℕ) (h : List (ℕ × Event)) → Ordered now h → AllFitting now (after h).sessions
unfolding after new_watch_log lookup
after-AllFitting now [] o = λ k e found. ground arith
after-AllFitting now ((t, e) ∷ earlier) o =
    AllFitting-later t now _ o.0
      (step-AllFitting t e (after earlier) (after-AllFitting t earlier o.1))
