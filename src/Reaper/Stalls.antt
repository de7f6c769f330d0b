-- ===== src/Reaper/Stalls.antt =====
-- streamer/reaper.go: which torrents the stall checker takes.
use phimtor.Base.{
  ℕ, ◌-◌, ◌≤◌, ◌<◌, true, String, Option, none, some, List, [], ◌∷◌, ◌++◌, lookup, String_discrete,
  ◌≡◌, ◌≢◌, ◌⊎◌, inl, inr, sym, subst, ite, arith,
}
use phimtor.Base.Assoc.{Distinct, lookup-insert, lookup-delete}
use phimtor.Reaper.{
  Activities, activity_of, Progress, StallProgress, Samples, judge, check_watched, check_one,
  check_loop, check_stalls,
}
use phimtor.Reaper.Idle.{IsAmong}

-- Watched, known, not complete, without a new byte since a sample that is as old as the timeout, and
-- without a seeder.
abbrev pub Stuck : ℕ → ℕ → ℕ → Option Progress → Option StallProgress → Type 0
Stuck now stall_timeout readers none o = ⊥
Stuck now stall_timeout readers (some t) none = ⊥
Stuck now stall_timeout readers (some t) (some prev) =
    (0 < readers)
    × ((t.has_info ≡ true)
        × ((t.bytes_completed < t.size)
            × ((t.bytes_completed ≤ prev.bytes)
                × ((stall_timeout ≤ now - prev.at) × (t.connected_seeders ≡ 0)))))

IsAmong-append :
    (x y : String) (ys : List String) → IsAmong x (ys ++ (y ∷ [])) → IsAmong x ys ⊎ (x ≡ y)
IsAmong-append x y [] i = ground arith
IsAmong-append x y (z ∷ ys) i = ground (arith, IsAmong-append x y ys)

module _ (now stall_timeout : ℕ) (m : Activities) (hash : String) where
  check_one-other :
      (h : String) (t : Progress) (seen : Samples) (stalled : List String)
      → hash ≢ h
      → lookup String_discrete hash (check_one now stall_timeout m h t (seen, stalled)).0
        ≡ lookup String_discrete hash seen
  unfolding check_one check_watched
  check_one-other h t seen stalled n = ground (
    arith,
    lookup-delete String_discrete h hash seen,
    lookup-insert String_discrete h hash
        (judge now stall_timeout t (lookup String_discrete h seen)).0 seen,
  )

  judge-Stuck :
      (t : Progress) (o : Option StallProgress)
      → (judge now stall_timeout t o).1 ≡ true
      → (t.bytes_completed < t.size)
      → (t.has_info ≡ true)
      → 0 < (activity_of hash m).readers
      → Stuck now stall_timeout (activity_of hash m).readers (some t) o
  unfolding judge
  judge-Stuck t none e a b c = ground arith
  judge-Stuck t (some prev) e a b c = ground arith

  check_one-IsAmong :
      (h : String) (t : Progress) (seen : Samples) (stalled : List String)
      → IsAmong hash (check_one now stall_timeout m h t (seen, stalled)).1
      → IsAmong hash stalled
        ⊎ ((hash ≡ h)
            × (((judge now stall_timeout t (lookup String_discrete h seen)).1 ≡ true)
                × ((t.bytes_completed < t.size)
                    × ((t.has_info ≡ true) × (0 < (activity_of h m).readers)))))
  unfolding check_one check_watched
  check_one-IsAmong h t seen stalled i = ground (arith, IsAmong-append hash h stalled)

  one_of_two :
      (h : String) (t : Progress) (rest : List (String × Progress)) (seen : Samples)
      (stalled : List String)
      → lookup String_discrete h rest ≡ none
      → IsAmong hash (check_one now stall_timeout m h t (seen, stalled)).1
        ⊎ Stuck now stall_timeout
            (activity_of hash m).readers
            (lookup String_discrete hash rest)
            (lookup String_discrete hash (check_one now stall_timeout m h t (seen, stalled)).0)
      → IsAmong hash stalled
        ⊎ Stuck now stall_timeout
            (activity_of hash m).readers
            (lookup String_discrete hash ((h, t) ∷ rest))
            (lookup String_discrete hash seen)
  unfolding lookup
  one_of_two h t rest seen stalled absent (inl i) = elim (check_one-IsAmong h t seen stalled i) [
    | inl j ↦ inl j
    | inr (e, (stuck, (less, (info, watched)))) ↦ inr (
        rw (if_same e) (
          judge-Stuck t (lookup String_discrete hash seen)
            (subst (λ x. (judge now stall_timeout t (lookup String_discrete x seen)).1 ≡ true)
              (sym e) stuck)
            less info (subst (λ x. 0 < (activity_of x m).readers) (sym e) watched)))
  ]
    where
      if_same :
          hash ≡ h
          → ite (String_discrete hash h) (some t) (lookup String_discrete hash rest) ≡ some t
      if_same e = ground arith
  one_of_two h t rest seen stalled absent (inr s) = elim (String_discrete hash h) [
    | yes e ↦
        elim (subst
          (λ o.
            Stuck now stall_timeout (activity_of hash m).readers o
              (lookup String_discrete hash (check_one now stall_timeout m h t (seen, stalled)).0))
          (gone e) s) [ ]
    | no n ↦ inr (
        rw (if_other n) (
          subst
            (Stuck now stall_timeout (activity_of hash m).readers
              (lookup String_discrete hash rest))
            (check_one-other h t seen stalled n) s))
  ]
    where
      gone : hash ≡ h → lookup String_discrete hash rest ≡ none
      gone e = ground arith

      if_other :
          hash ≢ h
          → ite (String_discrete hash h) (some t) (lookup String_discrete hash rest)
            ≡ lookup String_discrete hash rest
      if_other n = ground arith

  check_loop-IsAmong :
      (rest : List (String × Progress)) (seen : Samples) (stalled : List String)
      → Distinct String_discrete rest
      → IsAmong hash (check_loop now stall_timeout m rest (seen, stalled)).1
      → IsAmong hash stalled
        ⊎ Stuck now stall_timeout
            (activity_of hash m).readers
            (lookup String_discrete hash rest)
            (lookup String_discrete hash seen)
  unfolding check_loop
  check_loop-IsAmong [] seen stalled d i = inl i
  check_loop-IsAmong ((h, t) ∷ rest) seen stalled d i =
      one_of_two h t rest seen stalled d.0 (check_loop-IsAmong rest _ _ d.1 i)

  -- `checkStalls` removes a torrent only if someone is reading it, its metadata is there, it is not
  -- complete, it has no more bytes than in a sample at least as old as the timeout, and no seeder is connected.
  pub check_stalls-Stuck :
      (torrents : List (String × Progress)) (seen : Samples)
      → Distinct String_discrete torrents
      → IsAmong hash (check_stalls now stall_timeout m torrents seen).1
      → Stuck now stall_timeout
          (activity_of hash m).readers
          (lookup String_discrete hash torrents)
          (lookup String_discrete hash seen)
  unfolding check_stalls
  check_stalls-Stuck torrents seen d i = elim (check_loop-IsAmong torrents seen [] d i) [
    | inl none_yet ↦ elim none_yet [ ]
    | inr s ↦ s
  ]
