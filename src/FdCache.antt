-- ===== src/FdCache.antt =====
-- streamer/storage_fdcache.go: the cache of open file handles. An entry is reached from the map and
-- from the reads in flight, so the entries are a heap: an entry is a number below `next`. A read is two
-- steps, as the lock is released between them, and others run in between. `closes` counts the calls
-- of Close on the entry's file. The clock of 64 bits is a number that is taken not to wrap.
pub mod Handles
pub mod Budget
mod Tests
use phimtor.Base.{
  ℕ, zero, suc, ◌+◌, ◌-◌, Bool, true, false, not, ◌&&◌, String, Option, none, some, List, [], ◌∷◌,
  lookup, ite, ltb, leb, ◌==◌, length, ℕ_discrete, String_discrete, if◌then◌else◌,
}
use phimtor.Base.Assoc.{delete, insert}

pub record FdEntry : Type 0 where
  pub used : ℕ
  pub refs : ℕ
  pub dead : Bool
  pub closes : ℕ

pub record FdCache : Type 0 where
  pub max : ℕ
  pub clock : ℕ
  pub paths : List (String × ℕ)
  pub heap : ℕ → FdEntry
  pub next : ℕ

abbrev pub store : (ℕ → FdEntry) → ℕ → FdEntry → ℕ → FdEntry
store h p e q = ite (ℕ_discrete q p) e (h q)

pub new_fd_cache : ℕ → FdCache
new_fd_cache max = record {
  max = max;
  clock = 0;
  paths = [];
  heap = λ p. record { used = 0; refs = 0; dead = false; closes = 0 };
  next = 0;
}

-- f.Close(), or the mark that leaves it to the last reader.
pub retire_entry : FdEntry → FdEntry
retire_entry e =
    if e.refs == 0 then record e { closes = suc e.closes } else record e { dead = true }

pub retire_locked : String → ℕ → FdCache → FdCache
unfolding retire_entry
retire_locked path p c = record c {
  paths = delete String_discrete path c.paths;
  heap = store c.heap p (retire_entry (c.heap p));
}

-- The best so far, and the test of one entry: unpinned, and used less recently.
pub older : (ℕ → FdEntry) → ℕ → Option (String × ℕ) → Bool
older heap p none = (heap p).refs == 0
older heap p (some (_, q)) = (heap p).refs == 0 && ltb (heap p).used (heap q).used

pub oldest : (ℕ → FdEntry) → Option (String × ℕ) → List (String × ℕ) → Option (String × ℕ)
unfolding older
oldest heap best [] = best
oldest heap best ((k, p) ∷ rest) =
    oldest heap (if older heap p best then some (k, p) else best) rest

-- `fuel`: each round deletes a path, so the number of paths is enough.
pub evict_loop : ℕ → FdCache → FdCache
unfolding retire_locked oldest
evict_loop zero c = c
evict_loop (suc fuel) c =
    if leb (length c.paths) c.max then c else elim (oldest c.heap none c.paths) [
      | none ↦ c
      | some (path, p) ↦ evict_loop fuel (retire_locked path p c)
    ]

pub evict_locked : FdCache → FdCache
unfolding evict_loop
evict_locked c = evict_loop (length c.paths) c

-- The entry of the path; `opens` says whether os.Open succeeds.
pub open_entry : Bool → String → FdCache → FdCache × Option ℕ
open_entry opens path c = elim (lookup String_discrete path c.paths) [
  | some p ↦ (c, some p)
  | none ↦
      if opens
      then (
        record c {
          paths = insert String_discrete path c.next c.paths;
          heap = store c.heap c.next (record { used = 0; refs = 0; dead = false; closes = 0 });
          next = suc c.next;
        },
        some c.next,
      )
      else (c, none)
]

pub pin : ℕ → FdCache → FdCache
pin p c = record c {
  clock = suc c.clock;
  heap = store c.heap p (record e { used = suc c.clock; refs = suc e.refs });
}
  where
    e : FdEntry
    e = c.heap p

-- `readAt` up to the pread, and after it.
pub read_start : Bool → String → FdCache → FdCache × Option ℕ
unfolding open_entry pin evict_locked
read_start opens path c =
    let (c', o) = open_entry opens path c in
    elim o [ none ↦ (c', none) | some p ↦ (evict_locked (pin p c'), some p) ]

pub unpin : FdEntry → FdEntry
unpin e =
    if e.dead && e.refs == 1
    then record e { refs = 0; closes = suc e.closes }
    else record e { refs = e.refs - 1 }

pub read_end : ℕ → FdCache → FdCache
unfolding unpin
read_end p c = record c { heap = store c.heap p (unpin (c.heap p)) }

pub drop : String → FdCache → FdCache
unfolding retire_locked
drop path c = elim (lookup String_discrete path c.paths) [
  | none ↦ c
  | some p ↦ retire_locked path p c
]

-- `starts` is strings.HasPrefix(path, prefix).
pub drop_loop : (String → Bool) → List (String × ℕ) → FdCache → FdCache
unfolding retire_locked
drop_loop starts [] c = c
drop_loop starts ((path, p) ∷ rest) c =
    drop_loop starts rest (if starts path then retire_locked path p c else c)

pub drop_prefix : (String → Bool) → FdCache → FdCache
unfolding drop_loop
drop_prefix starts c = drop_loop starts c.paths c

pub close_all : FdCache → FdCache
unfolding drop_loop
close_all c = drop_loop (λ _. true) c.paths c
