-- ===== src/WatchTracker/Counts.antt =====
-- viewer/watchtracker.go: the per-torrent counts against the sessions that they stand for.
use phimtor.Base.{
  ℕ, ◌+◌, ◌-◌, ◌<◌, String, none, some, List, [], ◌∷◌, lookup, ite, leb, if◌then◌else◌, arith,
  total, String_discrete, ite_elim, if_elim, Option_elim, Bool-cases, ℕ_discrete, ◌≡◌, ◌≢◌, refl,
  inl, inr,
}
use phimtor.Base.Assoc.{
  delete, insert, Distinct, Within, lookup-delete, lookup-insert, delete-Distinct, insert-Distinct,
  delete_absent, total-delete, total-insert_old, Within-delete, Within-self,
}
use phimtor.WatchTracker.{
  Tracker, WatchSession, Event, beats, leaves, sweeps, fires, calls_back, count_of,
  release_and_schedule, join, beat, end_session, leave, is_stale, sweep_loop, sweep, fire, callback,
  step, run, new_watch_tracker,
}

abbrev pub watches : String → String × WatchSession → ℕ
watches h e = ite (String_discrete e.1.info_hash h) 1 0

-- How many sessions watch the torrent.
abbrev pub viewers : Tracker → String → ℕ
viewers t h = total (watches h) t.sessions

pub record Counted (t : Tracker) : Type 0 where
  pub distinct : Distinct String_discrete t.sessions
  pub counted : (h : String) → count_of t h ≡ viewers t h
  pub positive : (h : String) (n : ℕ) → lookup String_discrete h t.counts ≡ some n → 0 < n
  pub named :
      (sid : String) (s : WatchSession)
      → lookup String_discrete sid t.sessions ≡ some s
      → s.info_hash ≢ ""

module _ (h : String) (t : Tracker) where
  pub sessions-release_and_schedule : (release_and_schedule h t).sessions ≡ t.sessions
  unfolding release_and_schedule
  sessions-release_and_schedule = ground arith

  pub ttl-release_and_schedule : (release_and_schedule h t).ttl ≡ t.ttl
  unfolding release_and_schedule
  ttl-release_and_schedule = ground arith

  pub lookup-release_and_schedule :
      (j : String)
      → lookup String_discrete j (release_and_schedule h t).counts
        ≡ ite
            (String_discrete j h)
            (if leb (count_of t h) 1 then none else some (count_of t h - 1))
            (lookup String_discrete j t.counts)
  unfolding release_and_schedule
  lookup-release_and_schedule j = ground (
    arith,
    lookup-delete String_discrete h j t.counts,
    lookup-insert String_discrete h j (count_of t h - 1) t.counts,
  )

-- A session that is gone from the map gives its share of the count back.
release-Counted :
    (h : String) (t : Tracker)
    → Distinct String_discrete t.sessions
    → ((j : String) → count_of t j ≡ viewers t j + ite (String_discrete h j) 1 0)
    → ((j : String) (n : ℕ) → lookup String_discrete j t.counts ≡ some n → 0 < n)
    → ((sid : String) (s : WatchSession)
        → lookup String_discrete sid t.sessions ≡ some s
        → s.info_hash ≢ "")
    → Counted (release_and_schedule h t)
release-Counted h t d c p nm = record {
  distinct = rw (sessions-release_and_schedule h t) d;
  counted = λ j.
      rw (sessions-release_and_schedule h t, lookup-release_and_schedule h t j)
        (ground (arith, c j));
  positive = λ j n e. ground (arith, p j n, lookup-release_and_schedule h t j);
  named = λ sid s. rw (sessions-release_and_schedule h t) (nm sid s);
}

pub end_session-Counted :
    (sid : String) (s : WatchSession) (t : Tracker)
    → Counted t
    → lookup String_discrete sid t.sessions ≡ some s
    → Counted (end_session sid s t)
unfolding end_session
end_session-Counted sid s t v e =
    release-Counted s.info_hash (record t { sessions = delete String_discrete sid t.sessions })
      (delete-Distinct String_discrete sid t.sessions v.distinct)
      (λ j. omega (
        arith,
        v.counted j,
        total-delete String_discrete (watches j) sid s t.sessions v.distinct e,
      ))
      v.positive
      (λ i r q. ground (arith, lookup-delete String_discrete sid i t.sessions, v.named i r))

module _ (sid h : String) (now : ℕ) (t : Tracker) where
  pub sessions-join :
      (join sid h now t).sessions
      ≡ insert String_discrete sid (record { info_hash = h; last_seen = now }) t.sessions
  unfolding join
  sessions-join = ground arith

  pub counts-join : (join sid h now t).counts ≡ insert String_discrete h (count_of t h + 1) t.counts
  unfolding join
  counts-join = ground arith

  -- A session joins: it is new, or its old torrent has already given its share back.
  join-Counted :
      h ≢ ""
      → Distinct String_discrete t.sessions
      → ((j : String) → count_of t j ≡ total (watches j) (delete String_discrete sid t.sessions))
      → ((j : String) (n : ℕ) → lookup String_discrete j t.counts ≡ some n → 0 < n)
      → ((i : String) (s : WatchSession)
          → lookup String_discrete i t.sessions ≡ some s
          → s.info_hash ≢ "")
      → Counted (join sid h now t)
  unfolding insert
  join-Counted ne d c p nm = record {
    distinct = rw sessions-join (
        insert-Distinct String_discrete sid (record { info_hash = h; last_seen = now }) t.sessions
          d);
    counted = λ j.
        rw (sessions-join, counts-join)
          (ground (arith, c j, lookup-insert String_discrete h j (count_of t h + 1) t.counts));
    positive = λ j n e.
        ground (
          arith,
          counts-join,
          p j n,
          lookup-insert String_discrete h j (count_of t h + 1) t.counts,
        );
    named = λ i s q. ground (
      arith,
      sessions-join,
      nm i s,
      lookup-insert String_discrete sid i (record { info_hash = h; last_seen = now }) t.sessions,
    );
  }

-- A beat of a session that has a torrent already.
rebeat-Counted :
    (sid h : String) (now : ℕ) (s : WatchSession) (t : Tracker)
    → h ≢ ""
    → Counted t
    → lookup String_discrete sid t.sessions ≡ some s
    → Counted (
        ite
          (String_discrete s.info_hash h)
          (record t {
            sessions = insert String_discrete sid (record s { last_seen = now }) t.sessions;
          })
          (join sid h now (release_and_schedule s.info_hash t)))
rebeat-Counted sid h now s t ne v e =
    ite_elim Counted (String_discrete s.info_hash h) _ _
      (λ same. record {
        distinct =
            insert-Distinct String_discrete sid (record s { last_seen = now }) t.sessions
              v.distinct;
        counted = λ j. omega (
          arith,
          v.counted j,
          total-insert_old String_discrete (watches j) sid (record s { last_seen = now }) s
              t.sessions v.distinct e,
        );
        positive = v.positive;
        named = λ i r q. ground (
          arith,
          v.named i r,
          v.named sid s,
          lookup-insert String_discrete sid i (record s { last_seen = now }) t.sessions,
        );
      })
      (λ other.
        join-Counted sid h now (release_and_schedule s.info_hash t) ne
          (rw (sessions-release_and_schedule s.info_hash t) v.distinct)
          (λ j.
            rw
              (
                sessions-release_and_schedule s.info_hash t,
                lookup-release_and_schedule s.info_hash t j,
              )
              (ground (
                arith,
                v.counted j,
                total-delete String_discrete (watches j) sid s t.sessions v.distinct e,
              )))
          (λ j n q. ground (arith, v.positive j n, lookup-release_and_schedule s.info_hash t j))
          (λ i r q. ground (arith, v.named i r, sessions-release_and_schedule s.info_hash t)))

beat-Counted : (sid h : String) (now : ℕ) (t : Tracker) → Counted t → Counted (beat sid h now t)
unfolding beat
beat-Counted sid h now t v =
    ite_elim Counted (String_discrete sid "") _ _ (λ _. v)
      (λ _.
        ite_elim Counted (String_discrete h "") _ _ (λ _. v)
          (λ ne.
            Option_elim Counted (lookup String_discrete sid t.sessions) _ _
              (λ e.
                join-Counted sid h now t ne v.distinct
                  (λ j. rw (delete_absent String_discrete sid t.sessions e) (v.counted j))
                  v.positive v.named)
              (λ s e. rebeat-Counted sid h now s t ne v e)))

leave-Counted : (sid : String) (t : Tracker) → Counted t → Counted (leave sid t)
unfolding leave
leave-Counted sid t v =
    ite_elim Counted (String_discrete sid "") _ _ (λ _. v)
      (λ _.
        Option_elim Counted (lookup String_discrete sid t.sessions) _ _ (λ _. v)
          (λ s e. end_session-Counted sid s t v e))

pub sessions-end_session :
    (sid : String) (s : WatchSession) (t : Tracker)
    → (end_session sid s t).sessions ≡ delete String_discrete sid t.sessions
unfolding end_session
sessions-end_session sid s t = sessions-release_and_schedule s.info_hash _

sweep_loop-Counted :
    (now : ℕ) (rest : List (String × WatchSession)) (t : Tracker)
    → Counted t
    → Distinct String_discrete rest
    → Within String_discrete rest t.sessions
    → Counted (sweep_loop now rest t)
unfolding sweep_loop
sweep_loop-Counted now [] t v d w = v
sweep_loop-Counted now ((sid, s) ∷ rest) t v d w = elim (Bool-cases (is_stale now t s)) [
  | inl old ↦ rw old (
      sweep_loop-Counted now rest (end_session sid s t) (end_session-Counted sid s t v w.0) d.1 (
        rw (sessions-end_session sid s t)
          (Within-delete String_discrete sid rest t.sessions d.0 w.1)))
  | inr new ↦ rw new (sweep_loop-Counted now rest t v d.1 w.1)
]

sweep-Counted : (now : ℕ) (t : Tracker) → Counted t → Counted (sweep now t)
unfolding sweep
sweep-Counted now t v =
    sweep_loop-Counted now t.sessions t v v.distinct
      (Within-self String_discrete t.sessions v.distinct)

-- Timers touch neither sessions nor counts.
fire-Counted : (n : ℕ) (t : Tracker) → Counted t → Counted (fire n t)
unfolding fire
fire-Counted n t v =
    Option_elim Counted (lookup ℕ_discrete n t.armed) _ _ (λ _. v)
      (λ h _. record {
        distinct = v.distinct;
        counted = v.counted;
        positive = v.positive;
        named = v.named;
      })

callback-Counted : (n : ℕ) (t : Tracker) → Counted t → Counted (callback n t)
unfolding callback
callback-Counted n t v =
    Option_elim Counted (lookup ℕ_discrete n t.fired) _ _ (λ _. v)
      (λ h _.
        if_elim Counted _ _ _
          (λ _. record {
            distinct = v.distinct;
            counted = v.counted;
            positive = v.positive;
            named = v.named;
          })
          (λ _. record {
            distinct = v.distinct;
            counted = v.counted;
            positive = v.positive;
            named = v.named;
          }))

pub step-Counted : (t : Tracker) (e : Event) → Counted t → Counted (step t e)
unfolding step
step-Counted t (beats sid h now) v = beat-Counted sid h now t v
step-Counted t (leaves sid) v = leave-Counted sid t v
step-Counted t (sweeps now) v = sweep-Counted now t v
step-Counted t (fires n) v = fire-Counted n t v
step-Counted t (calls_back n) v = callback-Counted n t v

new-Counted : (ttl grace : ℕ) → Counted (new_watch_tracker ttl grace)
unfolding new_watch_tracker lookup
new-Counted ttl grace = record {
  distinct = tt;
  counted = λ h. refl;
  positive = λ h n e. cc;
  named = λ sid s e. cc;
}

pub run-Counted : (t : Tracker) (es : List Event) → Counted t → Counted (run t es)
unfolding run
run-Counted t [] v = v
run-Counted t (e ∷ es) v = run-Counted (step t e) es (step-Counted t e v)

-- After any sequence of heartbeats, leave beacons, sweeps and timers, no key has two sessions, the
-- count of every torrent is the number of sessions that watch it, no count of zero is stored, and no
-- session watches the empty hash.
pub run-new-Counted :
    (ttl grace : ℕ) (es : List Event) → Counted (run (new_watch_tracker ttl grace) es)
run-new-Counted ttl grace es = run-Counted _ es (new-Counted ttl grace)
