-- ===== src/WatchTracker/Pending.antt =====
-- viewer/watchtracker.go: the timers of scheduled drops.
use phimtor.Base.{
  ℕ, ◌-◌, ◌<◌, ◌≤◌, String, Option, none, some, lookup, ite, leb, ◌==◌, arith, String_discrete,
  ℕ_discrete, ite_elim, if_elim, Option_elim, Bool-cases, true, false, ◌≡◌, ◌≢◌, inl, inr,
}
use phimtor.Base.Assoc.{delete, insert, lookup-delete, lookup-insert}
use phimtor.WatchTracker.{
  Tracker, count_of, release_and_schedule, stop_pending, after_func, schedule_drop, cancel_pending,
  release,
}

-- A timer that `pending` holds was handed out before the next one, and if it is armed it is the
-- torrent's own.
pub record Linked (t : Tracker) : Type 0 where
  pub old : (k : String) (n : ℕ) → lookup String_discrete k t.pending ≡ some n → n < t.next_timer
  pub owned :
      (k : String) (n : ℕ) (h : String)
      → lookup String_discrete k t.pending ≡ some n
      → lookup ℕ_discrete n t.armed ≡ some h
      → h ≡ k

-- A drop of the torrent is scheduled, and its timer has not been stopped.
abbrev pub IsPendingDrop : Tracker → String → Type 0
IsPendingDrop t h =
    (n : ℕ) × (lookup String_discrete h t.pending ≡ some n) × (lookup ℕ_discrete n t.armed ≡ some h)

abbrev stopped : ℕ → Option ℕ → Option String → Option String
stopped n none o = o
stopped n (some m) o = ite (ℕ_discrete n m) none o

module _ (k : String) (t : Tracker) where
  armed-stop_pending :
      (n : ℕ)
      → lookup ℕ_discrete n (stop_pending k t).armed
        ≡ stopped n (lookup String_discrete k t.pending) (lookup ℕ_discrete n t.armed)
  unfolding stop_pending
  armed-stop_pending n =
      Option_elim
        (λ (u : Tracker).
          lookup ℕ_discrete n u.armed
          ≡ stopped n (lookup String_discrete k t.pending) (lookup ℕ_discrete n t.armed))
        (lookup String_discrete k t.pending) _ _ (λ e. rw e)
        (λ m e. rw e (lookup-delete ℕ_discrete m n t.armed))

  pending-stop_pending : (stop_pending k t).pending ≡ t.pending
  unfolding stop_pending
  pending-stop_pending = ground arith

  next_timer-stop_pending : (stop_pending k t).next_timer ≡ t.next_timer
  unfolding stop_pending
  next_timer-stop_pending = ground arith

  stop_pending-Linked : Linked t → Linked (stop_pending k t)
  stop_pending-Linked v = record {
    old = λ j n e. ground (arith, pending-stop_pending, next_timer-stop_pending, v.old j n);
    owned = λ j n h e a. ground (arith, pending-stop_pending, armed-stop_pending n, v.owned j n h);
  }

module _ (k : String) (t : Tracker) where
  after_func-Linked : Linked t → Linked (after_func k t)
  unfolding after_func
  after_func-Linked v = record {
    old = λ j n e.
        ground (arith, lookup-insert String_discrete k j t.next_timer t.pending, v.old j n);
    owned = λ j n h e a. ground (
      arith,
      lookup-insert String_discrete k j t.next_timer t.pending,
      lookup-insert ℕ_discrete t.next_timer n k t.armed,
      v.old j n,
      v.owned j n h,
    );
  }

module _ (k : String) (t : Tracker) where
  pub cancel_pending-Linked : Linked t → Linked (cancel_pending k t)
  unfolding cancel_pending
  cancel_pending-Linked v =
      let w = stop_pending-Linked k t v in
      record {
        old = λ j n e.
            ground (arith, lookup-delete String_discrete k j (stop_pending k t).pending, w.old j n);
        owned = λ j n h e a.
            ground
              (arith, lookup-delete String_discrete k j (stop_pending k t).pending, w.owned j n h);
      }

  schedule_drop-Linked : Linked t → Linked (schedule_drop k t)
  unfolding schedule_drop
  schedule_drop-Linked v =
      ite_elim Linked (String_discrete k "") _ _ (λ _. v)
        (λ _.
          if_elim Linked (t.grace == 0) _ _ (λ _. record { old = v.old; owned = v.owned })
            (λ _. after_func-Linked k (stop_pending k t) (stop_pending-Linked k t v)))

  -- The timer of another torrent is left alone.
  schedule_drop-IsPendingDrop :
      (h : String) → k ≢ h → Linked t → IsPendingDrop t h → IsPendingDrop (schedule_drop k t) h
  unfolding schedule_drop after_func
  schedule_drop-IsPendingDrop h ne v (n, e, a) = (
    n,
    ground (
      arith,
      lookup-insert String_discrete k h (stop_pending k t).next_timer (stop_pending k t).pending,
      pending-stop_pending k t,
    ),
    ground (
      arith,
      lookup-insert ℕ_discrete (stop_pending k t).next_timer n k (stop_pending k t).armed,
      next_timer-stop_pending k t,
      armed-stop_pending k t n,
      v.owned k n h,
      v.old h n,
    ),
  )

  pub cancel_pending-IsPendingDrop :
      (h : String) → k ≢ h → Linked t → IsPendingDrop t h → IsPendingDrop (cancel_pending k t) h
  unfolding cancel_pending
  cancel_pending-IsPendingDrop h ne v (n, e, a) = (
    n,
    ground (
      arith,
      lookup-delete String_discrete k h (stop_pending k t).pending,
      pending-stop_pending k t,
    ),
    ground (arith, armed-stop_pending k t n, v.owned k n h),
  )

  schedule_drop-schedules : k ≢ "" → 0 < t.grace → IsPendingDrop (schedule_drop k t) k
  unfolding schedule_drop after_func
  schedule_drop-schedules ne g = (
    t.next_timer,
    ground (
      arith,
      lookup-insert String_discrete k k (stop_pending k t).next_timer (stop_pending k t).pending,
      next_timer-stop_pending k t,
    ),
    ground (
      arith,
      lookup-insert ℕ_discrete (stop_pending k t).next_timer t.next_timer k
          (stop_pending k t).armed,
      next_timer-stop_pending k t,
    ),
  )

module _ (k : String) (t : Tracker) where
  release_and_schedule_last :
      leb (count_of t k) 1 ≡ true
      → release_and_schedule k t
        ≡ schedule_drop k (record t { counts = delete String_discrete k t.counts })
  unfolding release_and_schedule
  release_and_schedule_last e = rw (e, release)

  release_and_schedule_more :
      leb (count_of t k) 1 ≡ false
      → release_and_schedule k t
        ≡ record t { counts = insert String_discrete k (count_of t k - 1) t.counts }
  unfolding release_and_schedule String_discrete
  release_and_schedule_more e = rw (e, release)

-- `release` and `scheduleDrop` together: the last viewer's release schedules, any other only counts.
release_and_schedule_cases {ℓ} :
    (P : Tracker → Type ℓ) (k : String) (t : Tracker)
    → (count_of t k ≤ 1
        → P (schedule_drop k (record t { counts = delete String_discrete k t.counts })))
    → (1 < count_of t k
        → P (record t { counts = insert String_discrete k (count_of t k - 1) t.counts }))
    → P (release_and_schedule k t)
release_and_schedule_cases P k t last more = elim (Bool-cases (leb (count_of t k) 1)) [
  | inl e ↦ rw (release_and_schedule_last k t e) (last (ground arith))
  | inr e ↦ rw (release_and_schedule_more k t e) (more (ground arith))
]

module _ (k : String) (t : Tracker) where
  pub release_and_schedule-Linked : Linked t → Linked (release_and_schedule k t)
  release_and_schedule-Linked v =
      release_and_schedule_cases Linked k t
        (λ _. schedule_drop-Linked k _ (record { old = v.old; owned = v.owned }))
        (λ _. record { old = v.old; owned = v.owned })

  pub release_and_schedule-IsPendingDrop :
      (h : String)
      → k ≢ h
      → Linked t
      → IsPendingDrop t h
      → IsPendingDrop (release_and_schedule k t) h
  release_and_schedule-IsPendingDrop h ne v d =
      release_and_schedule_cases (λ u. IsPendingDrop u h) k t
        (λ _.
          schedule_drop-IsPendingDrop k (record t { counts = delete String_discrete k t.counts }) h
            ne (record { old = v.old; owned = v.owned }) d)
        (λ _. d)

  pub release_and_schedule-schedules :
      k ≢ "" → 0 < t.grace → count_of t k ≤ 1 → IsPendingDrop (release_and_schedule k t) k
  release_and_schedule-schedules ne g c =
      release_and_schedule_cases (λ u. IsPendingDrop u k) k t
        (λ _.
          schedule_drop-schedules k (record t { counts = delete String_discrete k t.counts }) ne g)
        (λ m. absurd (omega arith))

  pub grace-release_and_schedule : (release_and_schedule k t).grace ≡ t.grace
  unfolding release_and_schedule
  grace-release_and_schedule = ground arith
