-- ===== src/RateLimiter/Verdicts.antt =====
-- viewer/ratelimit.go: the verdicts of the limiter against a count over the whole history.
pub mod Limit
use phimtor.Base.{
  ℕ, suc, ◌+◌, ◌≤◌, Bool, true, false, not, String, Option, none, some, List, [], ◌∷◌, ◌++◌, lookup,
  ltb, leb, length, length-append, String_discrete, if◌then◌else◌, ◌≡◌, ◌≢◌, refl, sym, ap, ◌∙◌,
  if_elim, ite_elim, ite, arith, subst,
}
use phimtor.Base.Assoc.{insert, lookup-insert, insert-Distinct}
use phimtor.RateLimiter.{
  RateLimiter, live_stamps, swept, record_hit, allow, stamps, max_rate_limit_keys,
}
use phimtor.RateLimiter.Windows.{
  Remembers, Remembers-later, swept-Remembers, live_stamps-live_stamps, live_stamps-append,
}

-- The accepted calls of a key with one more call: the time goes in where the verdict is yes.
abbrev pub logged : Bool → String → String → ℕ → List ℕ → List ℕ
logged ok key called now log =
    if ok then ite (String_discrete called key) (log ++ (now ∷ [])) log else log

swept-limits :
    (now : ℕ) (l : RateLimiter)
    → ((swept now l).limit ≡ l.limit) × ((swept now l).window ≡ l.window)
unfolding swept
swept-limits now l =
    if_elim (λ (x : RateLimiter). (x.limit ≡ l.limit) × (x.window ≡ l.window))
      (ltb max_rate_limit_keys (length l.hits)) _ _ (λ _. (refl, refl)) (λ _. (refl, refl))

module _ (key : String) (now : ℕ) (log : List ℕ) (l : RateLimiter)
    (v : Remembers key now log l) where
  -- The calls of the key that the window still holds.
  record_hit-verdict :
      (record_hit now key l).1 ≡ ltb (length (live_stamps now l.window log)) l.limit
  unfolding record_hit
  record_hit-verdict = ground (arith, v.recent)

  kept-Remembers : Remembers key now log (record l {
    hits = insert String_discrete key (live_stamps now l.window (stamps key l)) l.hits;
  })
  unfolding stamps
  kept-Remembers = record {
    distinct = insert-Distinct String_discrete key _ l.hits v.distinct;
    recent = ground (
      arith,
      lookup-insert String_discrete key key (live_stamps now l.window (stamps key l)) l.hits,
      v.recent,
      live_stamps-live_stamps now now l.window (stamps key l) (omega arith),
    );
  }

  added-Remembers : Remembers key now (log ++ (now ∷ [])) (record l {
    hits =
        insert String_discrete key (live_stamps now l.window (stamps key l) ++ (now ∷ [])) l.hits;
  })
  unfolding stamps
  added-Remembers = record {
    distinct = insert-Distinct String_discrete key _ l.hits v.distinct;
    recent = ground (
      arith,
      lookup-insert String_discrete key key (live_stamps now l.window (stamps key l) ++ (now ∷ []))
          l.hits,
      v.recent,
      live_stamps-live_stamps now now l.window (stamps key l) (omega arith),
      live_stamps-append now l.window log (now ∷ []),
      live_stamps-append now l.window (live_stamps now l.window (stamps key l)) (now ∷ []),
    );
  }

  other-Remembers :
      (other : String) (ts : List ℕ)
      → key ≢ other
      → Remembers key now log (record l { hits = insert String_discrete other ts l.hits })
  unfolding stamps
  other-Remembers other ts n = record {
    distinct = insert-Distinct String_discrete other ts l.hits v.distinct;
    recent = ground (arith, lookup-insert String_discrete other key ts l.hits, v.recent);
  }

  rejected-Remembers :
      (called : String)
      → Remembers key now log (record l {
        hits = insert String_discrete called (live_stamps now l.window (stamps called l)) l.hits;
      })
  rejected-Remembers called = elim (String_discrete called key) [
    | yes e ↦
        subst
          (λ c. Remembers key now log (record l {
            hits = insert String_discrete c (live_stamps now l.window (stamps c l)) l.hits;
          }))
          (sym e) kept-Remembers
    | no n ↦ other-Remembers called _ (λ e. n (sym e))
  ]

  accepted-Remembers :
      (called : String)
      → Remembers key now (ite (String_discrete called key) (log ++ (now ∷ [])) log) (record l {
        hits =
            insert String_discrete called
              (live_stamps now l.window (stamps called l) ++ (now ∷ []))
              l.hits;
      })
  accepted-Remembers called =
      ite_elim
        (λ g. Remembers key now g (record l {
          hits =
              insert String_discrete called
                (live_stamps now l.window (stamps called l) ++ (now ∷ [])) l.hits;
        }))
        (String_discrete called key) _ _
        (λ e.
          subst
            (λ c. Remembers key now (log ++ (now ∷ [])) (record l {
              hits =
                  insert String_discrete c (live_stamps now l.window (stamps c l) ++ (now ∷ []))
                    l.hits;
            }))
            (sym e) added-Remembers)
        (λ n. other-Remembers called _ (λ e. n (sym e)))

  record_hit-Remembers :
      (called : String)
      → Remembers key now
          (logged (record_hit now called l).1 key called now log)
          (record_hit now called l).0
  unfolding record_hit
  record_hit-Remembers called =
      if_elim (λ (x : RateLimiter × Bool). Remembers key now (logged x.1 key called now log) x.0)
        (leb l.limit (length (live_stamps now l.window (stamps called l)))) _ _
        (λ _. rejected-Remembers called) (λ _. accepted-Remembers called)

-- A history of calls, the latest first, each with its time.
abbrev pub History : Type 0
History = List (ℕ × String)

unfoldable pub after_calls : RateLimiter → History → RateLimiter
after_calls l [] = l
after_calls l ((now, called) ∷ earlier) = (allow now called (after_calls l earlier)).0

-- The times at which the limiter let a call of the key through.
pub accepted : String → RateLimiter → History → List ℕ
accepted key l [] = []
accepted key l ((now, called) ∷ earlier) =
    logged (allow now called (after_calls l earlier)).1 key called now (accepted key l earlier)

-- The clock does not go back, and has not passed the given time.
abbrev pub Timely : ℕ → History → Type 0
Timely now [] = Unit
Timely now ((t, _) ∷ earlier) = (t ≤ now) × Timely t earlier

-- A limiter as it is made.
abbrev pub fresh : ℕ → ℕ → RateLimiter
fresh limit window = record { limit = limit; window = window; hits = [] }

allow-Remembers :
    (key called : String) (now : ℕ) (log : List ℕ) (l : RateLimiter)
    → Remembers key now log l
    → Remembers key now (logged (allow now called l).1 key called now log) (allow now called l).0
unfolding allow
allow-Remembers key called now log l v =
    record_hit-Remembers key now log (swept now l) (swept-Remembers key now log l v) called

module _ (limit window : ℕ) where
  after_calls-limits :
      (h : History)
      → ((after_calls (fresh limit window) h).limit ≡ limit)
        × ((after_calls (fresh limit window) h).window ≡ window)
  unfolding after_calls
  after_calls-limits [] = (refl, refl)
  after_calls-limits ((now, called) ∷ earlier) =
      let (a, b) = allow-limits now called (after_calls (fresh limit window) earlier) in
      let (c, d) = after_calls-limits earlier in (a ∙ c, b ∙ d)
    where
      allow-limits :
          (now : ℕ) (called : String) (l : RateLimiter)
          → ((allow now called l).0.limit ≡ l.limit) × ((allow now called l).0.window ≡ l.window)
      allow-limits now called l =
          unfold allow record_hit in
          let (a, b) = swept-limits now l in
          if_elim (λ (x : RateLimiter × Bool). (x.0.limit ≡ l.limit) × (x.0.window ≡ l.window))
            (leb (swept now l).limit
              (length (live_stamps now (swept now l).window (stamps called (swept now l)))))
            _ _ (λ _. (a, b)) (λ _. (a, b))

  after_calls-Remembers :
      (key : String) (now : ℕ) (h : History)
      → Timely now h
      → Remembers key now (accepted key (fresh limit window) h) (after_calls (fresh limit window) h)
  unfolding after_calls accepted stamps live_stamps lookup
  after_calls-Remembers key now [] t = record { distinct = tt; recent = refl }
  after_calls-Remembers key now ((at, called) ∷ earlier) t =
      Remembers-later key at now _ _ t.0
        (allow-Remembers key called at _ _ (after_calls-Remembers key at earlier t.1))

  -- Whatever calls came before at no later time, a call is let through exactly if fewer than `limit`
  -- calls of its key were let through after the time that lies `window` back, sweeps or none.
  pub allow-accepted :
      (key : String) (now : ℕ) (h : History)
      → Timely now h
      → (allow now key (after_calls (fresh limit window) h)).1
        ≡ ltb (length (live_stamps now window (accepted key (fresh limit window) h))) limit
  unfolding allow
  allow-accepted key now h t =
      let l = after_calls (fresh limit window) h in
      let (a, b) = after_calls-limits h in
      let (c, d) = swept-limits now l in
      record_hit-verdict key now (accepted key (fresh limit window) h) (swept now l)
        (swept-Remembers key now _ l (after_calls-Remembers key now h t))
      ∙ rw (d ∙ b, c ∙ a) refl
