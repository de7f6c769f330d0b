-- ===== src/FdCache/Tests.antt =====
-- The handle cache at a concrete interleaving.
use phimtor.Base.{
  ℕ, ◌<◌, true, false, List, [], ◌∷◌, ◌≡◌, refl, arith, lookup, String_discrete, ℕ_discrete,
}
use phimtor.Base.Assoc.{insert, delete, Distinct}
use phimtor.FdCache.{
  FdEntry, FdCache, new_fd_cache, oldest, older, evict_locked, evict_loop, retire_locked,
  retire_entry, read_start, read_end, open_entry, pin, unpin, drop,
}
use phimtor.FdCache.Handles.Runs.{
  Event, start, finish, drop_path, run, step, ClosedOnce, run-new-ClosedOnce,
}
use phimtor.FdCache.Budget.{Fits, evict_locked-Fits}

-- A file is dropped while it is read, and another path evicts nothing that is read.
abbrev events : List Event
events = start true "a" ∷ drop_path "a" ∷ start true "b" ∷ finish 0 ∷ finish 1 ∷ []

two_opened : 0 < (run events (new_fd_cache 1)).next
unfolding run step read_start read_end open_entry pin unpin evict_locked evict_loop retire_locked
    retire_entry oldest older drop new_fd_cache insert delete lookup String_discrete ℕ_discrete
two_opened = omega arith

run-new-ClosedOnce_example : ClosedOnce (run events (new_fd_cache 1)) 0
run-new-ClosedOnce_example = run-new-ClosedOnce 1 events 0 two_opened

-- The dropped file is closed when its read ends.
closed_after_read : ((run events (new_fd_cache 1)).heap 0).closes ≡ 1
unfolding run step read_start read_end open_entry pin unpin evict_locked evict_loop retire_locked
    retire_entry oldest older drop new_fd_cache insert delete lookup String_discrete ℕ_discrete
closed_after_read = refl

abbrev entries : ℕ → FdEntry
entries p = record { used = 5; refs = p; dead = false; closes = 0 }

abbrev full : FdCache
full = record { max = 1; clock = 9; paths = ("a", 0) ∷ ("b", 1) ∷ []; heap = entries; next = 2 }

full-Distinct : Distinct String_discrete full.paths
unfolding lookup String_discrete
full-Distinct = (refl, (refl, tt))

evict_locked-Fits_example : Fits (evict_locked full)
evict_locked-Fits_example = evict_locked-Fits full full-Distinct
