-- ===== src/WatchLog.antt =====
-- viewer/watchlog.go: who watched what, gathered in memory and flushed. Times are nanoseconds, and the
-- clock is an argument. A nil log, which does nothing, is not modelled. A flush is two steps, as the
-- write runs outside the lock and heartbeats land during it; whether the write succeeds is an argument.
pub mod Totals
mod Tests
use Prim.Native.String.{len}
use mathlib.Core.HLevel.{×_discrete}
use phimtor.Base.{
  ℕ, suc, ◌+◌, ◌-◌, ◌*◌, ◌/◌, Bool, true, false, not, ◌&&◌, ◌||◌, String, Option, none, some, List,
  [], ◌∷◌, lookup, ltb, ◌==◌, min, ℕ_discrete, String_discrete, if◌then◌else◌,
}
use phimtor.Base.Assoc.{delete, insert}

abbrev pub second : ℕ
second = 1000000000

abbrev pub max_beat_gap : ℕ
max_beat_gap = 30 * second

abbrev pub idle_evict : ℕ
idle_evict = 600 * second

abbrev pub prepare_ttl : ℕ
prepare_ttl = 43200 * second

abbrev pub dirty_give_up : ℕ
dirty_give_up = 3600 * second

abbrev pub max_session_id : ℕ
max_session_id = 64

pub record Video : Type 0 where
  pub id : ℕ
  pub resolution : String
  pub episode_id : Option ℕ

pub record WatchPrepared : Type 0 where
  pub video_id : ℕ
  pub title_id : ℕ
  pub episode_id : ℕ
  pub resolution : String
  pub client : String
  pub at : ℕ

-- User and infohash; user, session and video.
abbrev pub PrepareKey : Type 0
PrepareKey = ℕ × String

abbrev pub SessionKey : Type 0
SessionKey = ℕ × (String × ℕ)

unfoldable pub PrepareKey_discrete : Discrete PrepareKey
PrepareKey_discrete = ×_discrete ℕ_discrete String_discrete

unfoldable pub SessionKey_discrete : Discrete SessionKey
SessionKey_discrete = ×_discrete ℕ_discrete (×_discrete String_discrete ℕ_discrete)

pub record SessionEntry : Type 0 where
  pub prepared : WatchPrepared
  pub started_at : ℕ
  pub last_seen : ℕ
  pub seconds : ℕ
  pub dirty : Bool

-- A row to upsert: the key, and the entry as it was under the lock.
abbrev pub Row : Type 0
Row = SessionKey × SessionEntry

pub record WatchLog : Type 0 where
  pub prepares : List (PrepareKey × WatchPrepared)
  pub sessions : List (SessionKey × SessionEntry)

pub new_watch_log : WatchLog
new_watch_log = record { prepares = []; sessions = [] }

abbrev pub is_blank : String → Bool
is_blank String.[] = true
is_blank (String.◌∷◌ _ _) = false

abbrev pub or_zero : Option ℕ → ℕ
or_zero none = 0
or_zero (some n) = n

pub prepare : ℕ → ℕ → String → Video → ℕ → String → WatchLog → WatchLog
prepare now user_id info_hash video title_id client l = record l {
  prepares =
      insert PrepareKey_discrete (user_id, info_hash)
        (record {
          video_id = video.id;
          title_id = title_id;
          episode_id = or_zero video.episode_id;
          resolution = video.resolution;
          client = client;
          at = now;
        })
        l.prepares;
}

pub prepared : ℕ → ℕ → String → Option Video → ℕ → String → WatchLog → WatchLog
unfolding prepare
prepared now user_id info_hash none title_id client l = l
prepared now user_id info_hash (some video) title_id client l =
    if user_id == 0 || is_blank info_hash || title_id == 0
    then l
    else prepare now user_id info_hash video title_id client l

pub new_entry : ℕ → WatchPrepared → SessionEntry
new_entry now p = record {
  prepared = p;
  started_at = now;
  last_seen = now;
  seconds = 0;
  dirty = true;
}

-- `gap > 0` fails exactly where the difference stops at 0, and then adds nothing.
pub advance : ℕ → SessionEntry → SessionEntry
advance now e = record e {
  seconds = e.seconds + min (now - e.last_seen) max_beat_gap / second;
  last_seen = now;
  dirty = true;
}

pub beat_session : ℕ → SessionKey → WatchPrepared → WatchLog → WatchLog
unfolding new_entry advance
beat_session now key p l = elim (lookup SessionKey_discrete key l.sessions) [
  | none ↦ record l { sessions = insert SessionKey_discrete key (new_entry now p) l.sessions }
  | some e ↦ record l { sessions = insert SessionKey_discrete key (advance now e) l.sessions }
]

pub beat : ℕ → ℕ → String → String → WatchLog → WatchLog
unfolding beat_session
beat now user_id session_id info_hash l =
    if user_id == 0
      || is_blank session_id
      || ltb max_session_id (len session_id)
      || is_blank info_hash
    then l
    else elim (lookup PrepareKey_discrete (user_id, info_hash) l.prepares) [
      | none ↦ l
      | some p ↦ beat_session now (user_id, (session_id, p.video_id)) p l
    ]

-- The first locked section of `flush`.
pub dirty_rows : List (SessionKey × SessionEntry) → List Row
dirty_rows [] = []
dirty_rows ((k, e) ∷ rest) =
    let others = dirty_rows rest in if e.dirty then (k, e) ∷ others else others

-- Clears the mark of a session that has not moved since its row was taken.
pub clear_row : Row → List (SessionKey × SessionEntry) → List (SessionKey × SessionEntry)
clear_row (k, row) sessions = elim (lookup SessionKey_discrete k sessions) [
  | none ↦ sessions
  | some e ↦
      if e.last_seen == row.last_seen
      then insert SessionKey_discrete k (record e { dirty = false }) sessions
      else sessions
]

pub clear_rows : List Row → List (SessionKey × SessionEntry) → List (SessionKey × SessionEntry)
unfolding clear_row
clear_rows [] sessions = sessions
clear_rows (r ∷ rows) sessions = clear_rows rows (clear_row r sessions)

pub is_finished : ℕ → SessionEntry → Bool
is_finished now e =
    not e.dirty && ltb idle_evict (now - e.last_seen)
    || e.dirty && ltb dirty_give_up (now - e.last_seen)

pub evict_sessions :
    ℕ
    → List (SessionKey × SessionEntry)
    → List (SessionKey × SessionEntry)
    → List (SessionKey × SessionEntry)
unfolding is_finished
evict_sessions now [] sessions = sessions
evict_sessions now ((k, e) ∷ rest) sessions =
    evict_sessions now rest
      (if is_finished now e then delete SessionKey_discrete k sessions else sessions)

pub evict_prepares :
    ℕ
    → List (PrepareKey × WatchPrepared)
    → List (PrepareKey × WatchPrepared)
    → List (PrepareKey × WatchPrepared)
evict_prepares now [] prepares = prepares
evict_prepares now ((k, p) ∷ rest) prepares =
    evict_prepares now rest
      (if ltb prepare_ttl (now - p.at) then delete PrepareKey_discrete k prepares else prepares)

-- The second locked section of `flush`: `written` says that the write returned no error.
pub finish_flush : ℕ → Bool → List Row → WatchLog → WatchLog
unfolding clear_rows evict_sessions evict_prepares
finish_flush now written rows l =
    let sessions = if written then clear_rows rows l.sessions else l.sessions in
    record {
      prepares = evict_prepares now l.prepares l.prepares;
      sessions = evict_sessions now sessions sessions;
    }
