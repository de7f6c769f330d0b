-- ===== src/WatchTracker/Orphans.antt =====
-- viewer/watchtracker.go: a torrent that loses its last viewer is on its way out.
use phimtor.Base.{
  ℕ, ◌+◌, ◌<◌, String, some, List, [], ◌∷◌, lookup, ite, ltb, arith, total, String_discrete,
  ℕ_discrete, dec_lt, ite_elim, if_elim, Option_elim, ◌≡◌, ◌≢◌, ◌∙◌, ap, refl, inl, inr, ◌⊎◌,
}
use phimtor.Base.Assoc.{
  delete_absent, delete, insert, Distinct, Within, Within-delete, Within-self, total-delete,
  lookup-delete, share-le-total,
}
use phimtor.WatchTracker.{
  Tracker, WatchSession, Event, beats, leaves, sweeps, fires, calls_back, count_of,
  release_and_schedule, join, beat, end_session, leave, is_stale, sweep_loop, sweep, fire, callback,
  step, run, new_watch_tracker,
}
use phimtor.WatchTracker.Counts.{
  Counted, viewers, watches, sessions-release_and_schedule, sessions-join, sessions-end_session,
  end_session-Counted, run-new-Counted,
}
use phimtor.WatchTracker.Pending.{
  Linked, IsPendingDrop, release_and_schedule-Linked, release_and_schedule-IsPendingDrop,
  release_and_schedule-schedules, grace-release_and_schedule, cancel_pending-Linked,
  cancel_pending-IsPendingDrop,
}

module _ (sid : String) (s : WatchSession) (t : Tracker) where
  end_session-Linked : Linked t → Linked (end_session sid s t)
  unfolding end_session
  end_session-Linked v =
      release_and_schedule-Linked s.info_hash _ (record { old = v.old; owned = v.owned })

  grace-end_session : (end_session sid s t).grace ≡ t.grace
  unfolding end_session
  grace-end_session = grace-release_and_schedule s.info_hash _

  -- A torrent that still has a viewer has the share of another session.
  end_session-IsPendingDrop :
      (h : String)
      → Counted t
      → Linked t
      → lookup String_discrete sid t.sessions ≡ some s
      → viewers t h ≡ 0
      → IsPendingDrop t h
      → IsPendingDrop (end_session sid s t) h
  unfolding end_session
  end_session-IsPendingDrop h v l e z d =
      release_and_schedule-IsPendingDrop s.info_hash
        (record t { sessions = delete String_discrete sid t.sessions }) h
        (λ same.
          ground (arith, share-le-total String_discrete (watches h) sid s t.sessions v.distinct e))
        (record { old = l.old; owned = l.owned }) d

  viewers-end_session :
      (h : String)
      → Counted t
      → lookup String_discrete sid t.sessions ≡ some s
      → viewers (end_session sid s t) h + ite (String_discrete s.info_hash h) 1 0 ≡ viewers t h
  viewers-end_session h v e =
      rw (sessions-end_session sid s t)
        (total-delete String_discrete (watches h) sid s t.sessions v.distinct e)

  end_session-schedules :
      (h : String)
      → Counted t
      → lookup String_discrete sid t.sessions ≡ some s
      → 0 < t.grace
      → 0 < viewers t h
      → viewers (end_session sid s t) h ≡ 0
      → IsPendingDrop (end_session sid s t) h
  end_session-schedules h v e g p z = elim (String_discrete s.info_hash h) [
    | yes same ↦ rw (← same) (
        unfold end_session in
        release_and_schedule-schedules s.info_hash
          (record t { sessions = delete String_discrete sid t.sessions }) (v.named sid s e) g
          (ground (arith, viewers-end_session h v e, v.counted h)))
    | no other ↦ absurd (ground (arith, viewers-end_session h v e))
  ]

still-or-scheduled :
    (sid : String) (s : WatchSession) (t : Tracker) (h : String)
    → Counted t
    → Linked t
    → lookup String_discrete sid t.sessions ≡ some s
    → 0 < t.grace
    → (0 < viewers t h) ⊎ IsPendingDrop t h
    → (0 < viewers (end_session sid s t) h) ⊎ IsPendingDrop (end_session sid s t) h
still-or-scheduled sid s t h v l e g o = elim (dec_lt 0 (viewers (end_session sid s t) h)) [
  | yes p ↦ inl p
  | no z ↦ elim (dec_lt 0 (viewers t h)) [
    | yes p ↦ inr (end_session-schedules sid s t h v e g p (omega arith))
    | no y ↦ elim o [
      | inl p ↦ absurd (y p)
      | inr d ↦ inr (end_session-IsPendingDrop sid s t h v l e (omega arith) d)
    ]
  ]
]

-- What a sweep does to a torrent: it keeps its viewers, or its drop is scheduled and stays so.
sweep_loop-schedules :
    (now : ℕ) (rest : List (String × WatchSession)) (t : Tracker) (h : String)
    → Counted t
    → Linked t
    → Distinct String_discrete rest
    → Within String_discrete rest t.sessions
    → 0 < t.grace
    → (0 < viewers t h) ⊎ IsPendingDrop t h
    → viewers (sweep_loop now rest t) h ≡ 0
    → IsPendingDrop (sweep_loop now rest t) h
unfolding sweep_loop
sweep_loop-schedules now [] t h v l d w g o =
    λ z. elim o [ inl p ↦ absurd (omega arith) | inr p ↦ p ]
sweep_loop-schedules now ((sid, s) ∷ rest) t h v l d w g o =
    if_elim (λ u. viewers (sweep_loop now rest u) h ≡ 0 → IsPendingDrop (sweep_loop now rest u) h)
      (is_stale now t s) _ _
      (λ _.
        sweep_loop-schedules now rest (end_session sid s t) h (end_session-Counted sid s t v w.0)
          (end_session-Linked sid s t l) d.1
          (rw (sessions-end_session sid s t)
            (Within-delete String_discrete sid rest t.sessions d.0 w.1))
          (rw (grace-end_session sid s t) g) (still-or-scheduled sid s t h v l w.0 g o))
      (λ _. sweep_loop-schedules now rest t h v l d.1 w.1 g o)

-- A heartbeat that moves a session to another torrent.
switch-schedules :
    (sid h : String) (now : ℕ) (s : WatchSession) (t : Tracker)
    → Counted t
    → Linked t
    → lookup String_discrete sid t.sessions ≡ some s
    → s.info_hash ≢ h
    → 0 < t.grace
    → (k : String) → 0 < viewers t k
    → viewers (join sid h now (release_and_schedule s.info_hash t)) k ≡ 0
    → IsPendingDrop (join sid h now (release_and_schedule s.info_hash t)) k
unfolding insert
switch-schedules sid h now s t v l e ne g k p z = elim (String_discrete s.info_hash k) [
  | yes same ↦
      unfold join in
      cancel_pending-IsPendingDrop h _ k (ground (arith, sees))
        (record { old = l'.old; owned = l'.owned })
        (rw (← same) (
          release_and_schedule-schedules s.info_hash t (v.named sid s e) g
            (ground (arith, sees, left, v.counted k))))
  | no other ↦ absurd (ground (arith, sees, left))
]
  where
    sees :
        viewers (join sid h now (release_and_schedule s.info_hash t)) k
        ≡ ite (String_discrete h k) 1 0 + total (watches k) (delete String_discrete sid t.sessions)
    sees =
        rw
          (
            sessions-join sid h now (release_and_schedule s.info_hash t),
            sessions-release_and_schedule s.info_hash t,
          )
          refl

    left :
        total (watches k) (delete String_discrete sid t.sessions)
          + ite (String_discrete s.info_hash k) 1 0
        ≡ viewers t k
    left = total-delete String_discrete (watches k) sid s t.sessions v.distinct e

    l' : Linked (release_and_schedule s.info_hash t)
    l' = release_and_schedule-Linked s.info_hash t l

join-Linked : (sid h : String) (now : ℕ) (t : Tracker) → Linked t → Linked (join sid h now t)
unfolding join
join-Linked sid h now t v = cancel_pending-Linked h _ (record { old = v.old; owned = v.owned })

beat-Linked : (sid h : String) (now : ℕ) (t : Tracker) → Linked t → Linked (beat sid h now t)
unfolding beat
beat-Linked sid h now t v =
    ite_elim Linked (String_discrete sid "") _ _ (λ _. v)
      (λ _.
        ite_elim Linked (String_discrete h "") _ _ (λ _. v)
          (λ _.
            Option_elim Linked (lookup String_discrete sid t.sessions) _ _
              (λ _. join-Linked sid h now t v)
              (λ s _.
                ite_elim Linked (String_discrete s.info_hash h) _ _
                  (λ _. record { old = v.old; owned = v.owned })
                  (λ _. join-Linked sid h now _ (release_and_schedule-Linked s.info_hash t v)))))

leave-Linked : (sid : String) (t : Tracker) → Linked t → Linked (leave sid t)
unfolding leave
leave-Linked sid t v =
    ite_elim Linked (String_discrete sid "") _ _ (λ _. v)
      (λ _.
        Option_elim Linked (lookup String_discrete sid t.sessions) _ _ (λ _. v)
          (λ s _. end_session-Linked sid s t v))

sweep_loop-Linked :
    (now : ℕ) (rest : List (String × WatchSession)) (t : Tracker)
    → Linked t
    → Linked (sweep_loop now rest t)
unfolding sweep_loop
sweep_loop-Linked now [] t v = v
sweep_loop-Linked now ((sid, s) ∷ rest) t v =
    sweep_loop-Linked now rest _
      (if_elim Linked (is_stale now t s) _ _ (λ _. end_session-Linked sid s t v) (λ _. v))

fire-Linked : (n : ℕ) (t : Tracker) → Linked t → Linked (fire n t)
unfolding fire
fire-Linked n t v =
    Option_elim Linked (lookup ℕ_discrete n t.armed) _ _ (λ _. v)
      (λ h _. record {
        old = v.old;
        owned = λ k m j e a. ground (arith, lookup-delete ℕ_discrete n m t.armed, v.owned k m j);
      })

callback-Linked : (n : ℕ) (t : Tracker) → Linked t → Linked (callback n t)
unfolding callback
callback-Linked n t v =
    Option_elim Linked (lookup ℕ_discrete n t.fired) _ _ (λ _. v)
      (λ h _.
        if_elim Linked (ltb 0 (count_of t h)) _ _ (λ _. forget h)
          (λ _. let f = forget h in record { old = f.old; owned = f.owned }))
  where
    forget :
        (h : String)
        → Linked (record t {
          fired = delete ℕ_discrete n t.fired;
          pending = delete String_discrete h t.pending;
        })
    forget h = record {
      old = λ k m e. ground (arith, lookup-delete String_discrete h k t.pending, v.old k m);
      owned =
          λ k m j e a. ground (arith, lookup-delete String_discrete h k t.pending, v.owned k m j);
    }

step-Linked : (t : Tracker) (e : Event) → Linked t → Linked (step t e)
unfolding step sweep
step-Linked t (beats sid h now) v = beat-Linked sid h now t v
step-Linked t (leaves sid) v = leave-Linked sid t v
step-Linked t (sweeps now) v = sweep_loop-Linked now t.sessions t v
step-Linked t (fires n) v = fire-Linked n t v
step-Linked t (calls_back n) v = callback-Linked n t v

run-Linked : (t : Tracker) (es : List Event) → Linked t → Linked (run t es)
unfolding run
run-Linked t [] v = v
run-Linked t (e ∷ es) v = run-Linked (step t e) es (step-Linked t e v)

new-Linked : (ttl grace : ℕ) → Linked (new_watch_tracker ttl grace)
unfolding new_watch_tracker lookup
new-Linked ttl grace = record { old = λ k n e. cc; owned = λ k n h e a. cc }

-- Timers leave the sessions alone.
viewers-fire : (n : ℕ) (t : Tracker) → (fire n t).sessions ≡ t.sessions
unfolding fire
viewers-fire n t = ground arith

viewers-callback : (n : ℕ) (t : Tracker) → (callback n t).sessions ≡ t.sessions
unfolding callback
viewers-callback n t = ground arith

-- `h` had a viewer before and has none in `u`: then its drop is scheduled.
abbrev Schedules : Tracker → String → Tracker → Type 0
Schedules t h u = viewers u h ≡ 0 → IsPendingDrop u h

beat-Schedules :
    (sid k : String) (now : ℕ) (t : Tracker) (h : String)
    → Counted t
    → Linked t
    → 0 < t.grace
    → 0 < viewers t h
    → Schedules t h (beat sid k now t)
unfolding beat insert
beat-Schedules sid k now t h v l g p =
    ite_elim (Schedules t h) (String_discrete sid "") _ _ (λ _ z. absurd (omega arith))
      (λ _.
        ite_elim (Schedules t h) (String_discrete k "") _ _ (λ _ z. absurd (omega arith))
          (λ ne.
            Option_elim (Schedules t h) (lookup String_discrete sid t.sessions) _ _
              (λ e z. absurd (
                omega (
                  arith,
                  ap (total (watches h)) (sessions-join sid k now t),
                  ap (total (watches h)) (delete_absent String_discrete sid t.sessions e),
                )))
              (λ s e.
                ite_elim (Schedules t h) (String_discrete s.info_hash k) _ _
                  (λ same z. absurd (
                    ground (
                      arith,
                      total-delete String_discrete (watches h) sid s t.sessions v.distinct e,
                    )))
                  (λ other. switch-schedules sid k now s t v l e other g h p))))

leave-Schedules :
    (sid : String) (t : Tracker) (h : String)
    → Counted t
    → 0 < t.grace
    → 0 < viewers t h
    → Schedules t h (leave sid t)
unfolding leave
leave-Schedules sid t h v g p =
    ite_elim (Schedules t h) (String_discrete sid "") _ _ (λ _ z. absurd (omega arith))
      (λ _.
        Option_elim (Schedules t h) (lookup String_discrete sid t.sessions) _ _
          (λ _ z. absurd (omega arith)) (λ s e. end_session-schedules sid s t h v e g p))

step-Schedules :
    (t : Tracker) (e : Event) (h : String)
    → Counted t
    → Linked t
    → 0 < t.grace
    → 0 < viewers t h
    → Schedules t h (step t e)
unfolding step sweep
step-Schedules t (beats sid k now) h v l g p = beat-Schedules sid k now t h v l g p
step-Schedules t (leaves sid) h v l g p = leave-Schedules sid t h v g p
step-Schedules t (sweeps now) h v l g p =
    sweep_loop-schedules now t.sessions t h v l v.distinct
      (Within-self String_discrete t.sessions v.distinct) g (inl p)
step-Schedules t (fires n) h v l g p =
    λ z. absurd (omega (arith, ap (total (watches h)) (viewers-fire n t)))
step-Schedules t (calls_back n) h v l g p =
    λ z. absurd (omega (arith, ap (total (watches h)) (viewers-callback n t)))

grace-sweep_loop :
    (now : ℕ) (rest : List (String × WatchSession)) (t : Tracker)
    → (sweep_loop now rest t).grace ≡ t.grace
unfolding sweep_loop
grace-sweep_loop now [] t = refl
grace-sweep_loop now ((sid, s) ∷ rest) t =
    grace-sweep_loop now rest _
    ∙ if_elim (λ (u : Tracker). u.grace ≡ t.grace) (is_stale now t s) _ _
        (λ _. grace-end_session sid s t) (λ _. refl)

grace-step : (t : Tracker) (e : Event) → (step t e).grace ≡ t.grace
unfolding step sweep beat leave join end_session release_and_schedule fire callback
grace-step t (beats sid h now) = ground arith
grace-step t (leaves sid) = ground arith
grace-step t (sweeps now) = grace-sweep_loop now t.sessions t
grace-step t (fires n) = ground arith
grace-step t (calls_back n) = ground arith

grace-run : (t : Tracker) (es : List Event) → (run t es).grace ≡ t.grace
unfolding run
grace-run t [] = refl
grace-run t (e ∷ es) = grace-run (step t e) es ∙ grace-step t e

grace-new : (ttl grace : ℕ) → (new_watch_tracker ttl grace).grace ≡ grace
unfolding new_watch_tracker
grace-new ttl grace = refl

-- With a grace period, after any history: when an event takes the last viewer of a torrent away,
-- then after the event `pending` holds a timer for the torrent, and this timer is armed and runs the
-- drop of that torrent.
pub step-run-schedules :
    (ttl grace : ℕ) (es : List Event) (e : Event) (h : String)
    → 0 < grace
    → 0 < viewers (run (new_watch_tracker ttl grace) es) h
    → viewers (step (run (new_watch_tracker ttl grace) es) e) h ≡ 0
    → IsPendingDrop (step (run (new_watch_tracker ttl grace) es) e) h
step-run-schedules ttl grace es e h g p =
    step-Schedules _ e h (run-new-Counted ttl grace es) (run-Linked _ es (new-Linked ttl grace))
      (omega (arith, grace-run (new_watch_tracker ttl grace) es, grace-new ttl grace)) p
