-- ===== src/FdCache/Handles/Runs.antt =====
-- streamer/storage_fdcache.go: every operation, and every interleaving of reads and drops.
use phimtor.Base.{
  ℕ, zero, suc, ◌≤◌, ◌<◌, Bool, true, false, String, Option, none, some, List, [], ◌∷◌, lookup,
  length, leb, ◌==◌, ℕ_discrete, String_discrete, if◌then◌else◌, ◌≡◌, ◌≢◌, ◌⊎◌, inl, inr, sym,
  subst, arith, if_elim, Option_elim,
}
use phimtor.Base.Assoc.{
  insert, Distinct, Within, Within-delete, Within-self, lookup-insert, insert-Distinct,
}
use phimtor.FdCache.{
  FdEntry, FdCache, store, new_fd_cache, retire_locked, unpin, pin, read_start, read_end,
  open_entry, oldest, older, evict_loop, evict_locked, drop, drop_loop, drop_prefix, close_all,
}
use phimtor.FdCache.Handles.{IsOpen, IsRetired, Sound, retire_locked-Sound, stored-Sound}

-- The found path is one of the map.
abbrev pub Found : List (String × ℕ) → Option (String × ℕ) → Type 0
Found m none = Unit
Found m (some (path, p)) = lookup String_discrete path m ≡ some p

pub oldest-Found :
    (heap : ℕ → FdEntry) (m rest : List (String × ℕ)) (best : Option (String × ℕ))
    → Within String_discrete rest m
    → Found m best
    → Found m (oldest heap best rest)
unfolding oldest
oldest-Found heap m [] best w f = f
oldest-Found heap m ((k, p) ∷ rest) best w f =
    if_elim (λ (x : Option (String × ℕ)). Found m (oldest heap x rest)) (older heap p best) _ _
      (λ _. oldest-Found heap m rest (some (k, p)) w.1 w.0)
      (λ _. oldest-Found heap m rest best w.1 f)

evict_loop-Sound : (fuel : ℕ) (c : FdCache) → Sound c → Sound (evict_loop fuel c)
unfolding evict_loop
evict_loop-Sound zero c v = v
evict_loop-Sound (suc fuel) c v =
    if_elim Sound (leb (length c.paths) c.max) _ _ (λ _. v)
      (λ _.
        Option_elim Sound (oldest c.heap none c.paths) _ _ (λ _. v)
          (λ e found. evict_loop-Sound fuel _ (
            retire_locked-Sound e.0 e.1 c v (
              subst (Found c.paths) found (
                oldest-Found c.heap c.paths c.paths none
                  (Within-self String_discrete c.paths v.distinct) tt)))))

pin-Sound :
    (path : String) (p : ℕ) (c : FdCache)
    → lookup String_discrete path c.paths ≡ some p
    → Sound c
    → Sound (pin p c)
pin-Sound path p c e v =
    unfold pin in
    pinned (
      stored-Sound p (record (c.heap p) { used = suc c.clock; refs = suc (c.heap p).refs }) c v
        (λ o. (o.open_closes, o.open_dead)) (λ o. elim (o.unmapped path e) [ ]))
  where
    pinned :
        Sound (record c {
          heap =
              store c.heap p (record (c.heap p) { used = suc c.clock; refs = suc (c.heap p).refs });
        })
        → Sound (record c {
          clock = suc c.clock;
          heap =
              store c.heap p (record (c.heap p) { used = suc c.clock; refs = suc (c.heap p).refs });
        })
    pinned w = record {
      distinct = w.distinct;
      allocated = w.allocated;
      apart = w.apart;
      state = λ q h. elim (w.state q h) [
        | inl o ↦ inl (record {
          open_closes = o.open_closes;
          open_dead = o.open_dead;
          path = o.path;
          at_path = o.at_path;
        })
        | inr o ↦ inr (record { unmapped = o.unmapped; closed_or_read = o.closed_or_read })
      ];
    }

read_end-Sound : (p : ℕ) (c : FdCache) → 0 < (c.heap p).refs → Sound c → Sound (read_end p c)
unfolding read_end unpin
read_end-Sound p c h v =
    stored-Sound p _ c v (λ o. ground (arith, o.open_closes, o.open_dead))
      (λ o. ground (arith, o.closed_or_read))

module _ (path : String) (c : FdCache) (v : Sound c)
    (absent : lookup String_discrete path c.paths ≡ none) where
  abbrev added : FdCache
  added = record c {
    paths = insert String_discrete path c.next c.paths;
    heap = store c.heap c.next (record { used = 0; refs = 0; dead = false; closes = 0 });
    next = suc c.next;
  }

  added-IsOpen : (q : ℕ) → q < c.next → IsOpen c q → IsOpen added q
  added-IsOpen q h o = record {
    open_closes = ground (arith, o.open_closes);
    open_dead = ground (arith, o.open_dead);
    path = o.path;
    at_path = ground (arith, lookup-insert String_discrete path o.path c.next c.paths, o.at_path);
  }

  added-IsRetired : (q : ℕ) → q < c.next → IsRetired c q → IsRetired added q
  added-IsRetired q h o = record {
    unmapped = λ other e.
        ground (arith, lookup-insert String_discrete path other c.next c.paths, o.unmapped other);
    closed_or_read = ground (arith, o.closed_or_read);
  }

  added-new : IsOpen added c.next
  added-new = record {
    open_closes = ground arith;
    open_dead = ground arith;
    path = path;
    at_path = ground (arith, lookup-insert String_discrete path path c.next c.paths);
  }

  added-Sound : Sound added
  added-Sound = record {
    distinct = insert-Distinct String_discrete path c.next c.paths v.distinct;
    allocated = λ a q h.
        ground (arith, lookup-insert String_discrete path a c.next c.paths, v.allocated a q);
    apart = λ a b q h g. ground (
      arith,
      lookup-insert String_discrete path a c.next c.paths,
      lookup-insert String_discrete path b c.next c.paths,
      v.apart a b q,
      v.allocated a q,
      v.allocated b q,
    );
    state = λ q h. elim (ℕ_discrete q c.next) [
      | yes same ↦ inl (subst (IsOpen added) (sym same) added-new)
      | no n ↦ elim (v.state q (omega arith)) [
        | inl o ↦ inl (added-IsOpen q (omega arith) o)
        | inr o ↦ inr (added-IsRetired q (omega arith) o)
      ]
    ];
  }

-- What opening leaves: a sound cache, in which the path stands for the entry.
abbrev Opened : String → FdCache × Option ℕ → Type 0
Opened path (c, none) = Sound c
Opened path (c, some p) = Sound c × (lookup String_discrete path c.paths ≡ some p)

open_entry-Opened :
    (opens : Bool) (path : String) (c : FdCache) → Sound c → Opened path (open_entry opens path c)
unfolding open_entry
open_entry-Opened opens path c v =
    Option_elim (Opened path) (lookup String_discrete path c.paths) _ _
      (λ e.
        if_elim (Opened path) opens _ _
          (λ _. (
            added-Sound path c v e,
            ground (arith, lookup-insert String_discrete path path c.next c.paths),
          ))
          (λ _. v))
      (λ p e. (v, e))

read_start-Sound :
    (opens : Bool) (path : String) (c : FdCache) → Sound c → Sound (read_start opens path c).0
unfolding read_start evict_locked
read_start-Sound opens path c v =
    started (open_entry opens path c) (open_entry-Opened opens path c v)
  where
    started :
        (x : FdCache × Option ℕ)
        → Opened path x
        → Sound
            (elim x.1 as (λ _. FdCache × Option ℕ) [
              | none ↦ (x.0, none)
              | some p ↦ (evict_locked (pin p x.0), some p)
            ]).0
    started (c', none) o = o
    started (c', some p) o = evict_loop-Sound _ _ (pin-Sound path p c' o.1 o.0)

drop-Sound : (path : String) (c : FdCache) → Sound c → Sound (drop path c)
unfolding drop
drop-Sound path c v =
    Option_elim Sound (lookup String_discrete path c.paths) _ _ (λ _. v)
      (λ p e. retire_locked-Sound path p c v e)

drop_loop-Sound :
    (starts : String → Bool) (rest : List (String × ℕ)) (c : FdCache)
    → Distinct String_discrete rest
    → Within String_discrete rest c.paths
    → Sound c
    → Sound (drop_loop starts rest c)
unfolding drop_loop
drop_loop-Sound starts [] c d w v = v
drop_loop-Sound starts ((path, p) ∷ rest) c d w v =
    if_elim (λ (x : FdCache). Sound (drop_loop starts rest x)) (starts path) _ _
      (λ _.
        drop_loop-Sound starts rest (retire_locked path p c) d.1
          (retired_within path p rest c d.0 w.1) (retire_locked-Sound path p c v w.0))
      (λ _. drop_loop-Sound starts rest c d.1 w.1 v)
  where
    retired_within :
        (path : String) (p : ℕ) (rest : List (String × ℕ)) (c : FdCache)
        → lookup String_discrete path rest ≡ none
        → Within String_discrete rest c.paths
        → Within String_discrete rest (retire_locked path p c).paths
    retired_within path p rest c n w =
        unfold retire_locked in Within-delete String_discrete path rest c.paths n w

-- What happens to the cache, one locked section at a time.
pub data Event : Type 0 where
  start : Bool → String → Event
  finish : ℕ → Event
  drop_path : String → Event
  drop_under : (String → Bool) → Event
  close : Event

-- A read that ends is one in flight.
unfoldable pub step : Event → FdCache → FdCache
step (start opens path) c = (read_start opens path c).0
step (finish p) c = if (c.heap p).refs == 0 then c else read_end p c
step (drop_path path) c = drop path c
step (drop_under starts) c = drop_prefix starts c
step close c = close_all c

unfoldable pub run : List Event → FdCache → FdCache
run [] c = c
run (e ∷ es) c = run es (step e c)

step-Sound : (e : Event) (c : FdCache) → Sound c → Sound (step e c)
unfolding step drop_prefix close_all
step-Sound (start opens path) c v = read_start-Sound opens path c v
step-Sound (finish p) c v =
    if_elim Sound ((c.heap p).refs == 0) _ _ (λ _. v) (λ h. read_end-Sound p c (ground arith) v)
step-Sound (drop_path path) c v = drop-Sound path c v
step-Sound (drop_under starts) c v =
    drop_loop-Sound starts c.paths c v.distinct (Within-self String_discrete c.paths v.distinct) v
step-Sound close c v =
    drop_loop-Sound (λ _. true) c.paths c v.distinct
      (Within-self String_discrete c.paths v.distinct) v

run-Sound : (es : List Event) (c : FdCache) → Sound c → Sound (run es c)
unfolding run
run-Sound [] c v = v
run-Sound (e ∷ es) c v = run-Sound es (step e c) (step-Sound e c v)

new_fd_cache-Sound : (max : ℕ) → Sound (new_fd_cache max)
unfolding new_fd_cache lookup
new_fd_cache-Sound max = record {
  distinct = tt;
  allocated = λ path p h. ground arith;
  apart = λ a b p h g. ground arith;
  state = λ p h. omega arith;
}

-- A file is closed at most once, never under a read, and always when it is out of the map and its
-- reads are over.
pub record ClosedOnce (c : FdCache) (p : ℕ) : Type 0 where
  pub once : (c.heap p).closes ≤ 1
  pub never_read : 0 < (c.heap p).refs → (c.heap p).closes ≡ 0
  pub released :
      ((path : String) → lookup String_discrete path c.paths ≢ some p)
      → (c.heap p).refs ≡ 0
      → (c.heap p).closes ≡ 1

-- In every interleaving of reads, drops and evictions, each opened file is closed at most once, never
-- under a read, and is closed when it is out of the map and no read of it is in flight.
pub run-new-ClosedOnce :
    (max : ℕ) (es : List Event) (p : ℕ)
    → p < (run es (new_fd_cache max)).next
    → ClosedOnce (run es (new_fd_cache max)) p
run-new-ClosedOnce max es p h =
    closed_once ((run-Sound es (new_fd_cache max) (new_fd_cache-Sound max)).state p h)
  where
    closed_once :
        IsOpen (run es (new_fd_cache max)) p ⊎ IsRetired (run es (new_fd_cache max)) p
        → ClosedOnce (run es (new_fd_cache max)) p
    closed_once (inl o) = record {
      once = omega (arith, o.open_closes);
      never_read = λ _. o.open_closes;
      released = λ out _. elim (out o.path o.at_path) [ ];
    }
    closed_once (inr o) = record {
      once = ground (arith, o.closed_or_read);
      never_read = λ reading. ground (arith, o.closed_or_read);
      released = λ _ idle. ground (arith, o.closed_or_read);
    }
