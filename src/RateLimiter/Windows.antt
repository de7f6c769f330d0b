-- ===== src/RateLimiter/Windows.antt =====
-- viewer/ratelimit.go: what the limiter remembers of the calls that it let through.
use phimtor.Base.{
  ℕ, ◌≤◌, String, Option, none, some, List, [], ◌∷◌, ◌++◌, lookup, ltb, length, String_discrete,
  ◌≡◌, ◌≢◌, refl, sym, ap, ◌∙◌, if_elim, arith,
}
use phimtor.Base.Assoc.{Distinct, lookup-delete, lookup-insert, delete-Distinct, insert-Distinct}
use phimtor.RateLimiter.{
  RateLimiter, live_stamps, sweep_entry, sweep_locked, swept, stamps, or_nil, max_rate_limit_keys,
}

pub live_stamps-live_stamps :
    (now later window : ℕ) (ts : List ℕ)
    → now ≤ later
    → live_stamps later window (live_stamps now window ts) ≡ live_stamps later window ts
unfolding live_stamps
live_stamps-live_stamps now later window [] h = refl
live_stamps-live_stamps now later window (t ∷ ts) h =
    ground (arith, live_stamps-live_stamps now later window ts h)

pub live_stamps-append :
    (now window : ℕ) (ts us : List ℕ)
    → live_stamps now window (ts ++ us) ≡ live_stamps now window ts ++ live_stamps now window us
unfolding live_stamps
live_stamps-append now window [] us = refl
live_stamps-append now window (t ∷ ts) us = ground (arith, live_stamps-append now window ts us)

sweep_entry-own :
    (key : String) (ts : List ℕ) (hits : List (String × List ℕ))
    → or_nil (lookup String_discrete key (sweep_entry key ts hits)) ≡ ts
unfolding sweep_entry
sweep_entry-own key [] hits = ground (arith, lookup-delete String_discrete key key hits)
sweep_entry-own key (t ∷ ts) hits =
    ground (arith, lookup-insert String_discrete key key (t ∷ ts) hits)

sweep_entry-other :
    (key other : String) (ts : List ℕ) (hits : List (String × List ℕ))
    → other ≢ key
    → lookup String_discrete other (sweep_entry key ts hits) ≡ lookup String_discrete other hits
unfolding sweep_entry
sweep_entry-other key other [] hits n = ground (arith, lookup-delete String_discrete key other hits)
sweep_entry-other key other (t ∷ ts) hits n =
    ground (arith, lookup-insert String_discrete key other (t ∷ ts) hits)

sweep_entry-Distinct :
    (key : String) (ts : List ℕ) (hits : List (String × List ℕ))
    → Distinct String_discrete hits
    → Distinct String_discrete (sweep_entry key ts hits)
unfolding sweep_entry
sweep_entry-Distinct key [] hits d = delete-Distinct String_discrete key hits d
sweep_entry-Distinct key (t ∷ ts) hits d = insert-Distinct String_discrete key (t ∷ ts) hits d

abbrev over : Option (List ℕ) → Option (List ℕ) → Option (List ℕ)
over none o = o
over (some ts) o = some ts

module _ (now window : ℕ) (key : String) where
  sweep_locked-live_stamps :
      (rest hits : List (String × List ℕ))
      → Distinct String_discrete rest
      → live_stamps now window
          (or_nil (lookup String_discrete key (sweep_locked now window rest hits)))
        ≡ live_stamps now window
            (or_nil (over (lookup String_discrete key rest) (lookup String_discrete key hits)))
  unfolding sweep_locked lookup
  sweep_locked-live_stamps [] hits d = refl
  sweep_locked-live_stamps ((k, ts) ∷ rest) hits d = elim (String_discrete key k) [
    | yes e ↦ ground (
      arith,
      sweep_locked-live_stamps rest (sweep_entry k (live_stamps now window ts) hits) d.1,
      sweep_entry-own k (live_stamps now window ts) hits,
      live_stamps-live_stamps now now window ts (omega arith),
    )
    | no n ↦ ground (
      arith,
      sweep_locked-live_stamps rest (sweep_entry k (live_stamps now window ts) hits) d.1,
      sweep_entry-other k key (live_stamps now window ts) hits n,
    )
  ]

  sweep_locked-Distinct :
      (rest hits : List (String × List ℕ))
      → Distinct String_discrete hits
      → Distinct String_discrete (sweep_locked now window rest hits)
  unfolding sweep_locked
  sweep_locked-Distinct [] hits d = d
  sweep_locked-Distinct ((k, ts) ∷ rest) hits d =
      sweep_locked-Distinct rest _ (sweep_entry-Distinct k (live_stamps now window ts) hits d)

over_self : (o : Option (List ℕ)) → or_nil (over o o) ≡ or_nil o
over_self none = refl
over_self (some ts) = refl

-- The limiter's stamps of a key stand for the accepted calls, as far as the window reaches.
pub record Remembers (key : String) (now : ℕ) (log : List ℕ) (l : RateLimiter) : Type 0 where
  pub distinct : Distinct String_discrete l.hits
  pub recent : live_stamps now l.window (stamps key l) ≡ live_stamps now l.window log

pub Remembers-later :
    (key : String) (now later : ℕ) (log : List ℕ) (l : RateLimiter)
    → now ≤ later
    → Remembers key now log l
    → Remembers key later log l
Remembers-later key now later log l h v = record {
  distinct = v.distinct;
  recent =
      sym (live_stamps-live_stamps now later l.window (stamps key l) h)
      ∙ ap (live_stamps later l.window) v.recent
      ∙ live_stamps-live_stamps now later l.window log h;
}

pub swept-Remembers :
    (key : String) (now : ℕ) (log : List ℕ) (l : RateLimiter)
    → Remembers key now log l
    → Remembers key now log (swept now l)
unfolding swept stamps
swept-Remembers key now log l v =
    if_elim (Remembers key now log) (ltb max_rate_limit_keys (length l.hits)) _ _
      (λ _. record {
        distinct = sweep_locked-Distinct now l.window key l.hits l.hits v.distinct;
        recent =
            sweep_locked-live_stamps now l.window key l.hits l.hits v.distinct
            ∙ ap (live_stamps now l.window) (over_self (lookup String_discrete key l.hits))
            ∙ v.recent;
      })
      (λ _. v)
