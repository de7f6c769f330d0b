-- ===== src/FdCache/Budget.antt =====
-- streamer/storage_fdcache.go: which handle is evicted, and the bound on the open ones.
use phimtor.Base.{
  ℕ, zero, suc, ◌≤◌, ◌<◌, true, false, String, Option, none, some, List, [], ◌∷◌, lookup, All,
  length, total_one, leb, String_discrete, ◌≡◌, ◌⊎◌, inl, inr, subst, arith, if_elim, Option_elim,
}
use phimtor.Base.Assoc.{delete, Distinct, delete-Distinct, total-delete, Within-self}
use phimtor.FdCache.Handles.Runs.{Found, oldest-Found}
use phimtor.FdCache.{FdEntry, FdCache, retire_locked, oldest, older, evict_loop, evict_locked}

-- The choice among the entries: none of them is unpinned, or it is unpinned and was used no later
-- than any other unpinned one.
abbrev pub Oldest : (ℕ → FdEntry) → List (String × ℕ) → Option (String × ℕ) → Type 0
Oldest heap m none = All (λ e. 0 < (heap e.1).refs) m
Oldest heap m (some (_, p)) =
    ((heap p).refs ≡ 0) × All (λ e. (heap e.1).refs ≡ 0 → (heap p).used ≤ (heap e.1).used) m

-- What is known of the best so far, and of the result.
abbrev From : (ℕ → FdEntry) → Option (String × ℕ) → Option (String × ℕ) → Type 0
From heap none o = Unit
From heap (some (_, p)) none = ⊥
From heap (some (_, p)) (some (_, q)) = (heap q).used ≤ (heap p).used

module _ (heap : ℕ → FdEntry) where
  Oldest-cons :
      (k : String) (p : ℕ) (rest : List (String × ℕ)) (best o : Option (String × ℕ))
      → older heap p best ≡ false
      → From heap best o
      → Oldest heap rest o
      → Oldest heap ((k, p) ∷ rest) o
  unfolding older
  Oldest-cons k p rest none none h f r = (ground arith, r)
  Oldest-cons k p rest none (some (j, q)) h f r = (r.0, ((λ idle. ground arith), r.1))
  Oldest-cons k p rest (some (j, q)) (some (i, s)) h f r = (r.0, ((λ idle. ground arith), r.1))
  Oldest-cons k p rest (some (j, q)) none h f r = elim f [ ]

  Oldest-found :
      (k : String) (p : ℕ) (rest : List (String × ℕ)) (o : Option (String × ℕ))
      → From heap (some (k, p)) o
      → Oldest heap rest o
      → Oldest heap ((k, p) ∷ rest) o
  Oldest-found k p rest (some (i, s)) f r = (r.0, ((λ idle. f), r.1))
  Oldest-found k p rest none f r = elim f [ ]

  From-older :
      (k : String) (p : ℕ) (best o : Option (String × ℕ))
      → older heap p best ≡ true
      → From heap (some (k, p)) o
      → From heap best o
  unfolding older
  From-older k p none o h f = tt
  From-older k p (some (j, q)) (some (i, s)) h f = ground arith
  From-older k p (some (j, q)) none h f = f

  abbrev Unpinned : Option (String × ℕ) → Type 0
  Unpinned none = Unit
  Unpinned (some (_, p)) = (heap p).refs ≡ 0

  older-Unpinned :
      (k : String) (p : ℕ) (best : Option (String × ℕ))
      → older heap p best ≡ true
      → Unpinned (some (k, p))
  unfolding older
  older-Unpinned k p none h = ground arith
  older-Unpinned k p (some (j, q)) h = ground arith

  From-refl : (best : Option (String × ℕ)) → From heap best best
  From-refl none = tt
  From-refl (some (k, p)) = omega arith

  Oldest-nil : (best : Option (String × ℕ)) → Unpinned best → Oldest heap [] best
  Oldest-nil none u = tt
  Oldest-nil (some (k, p)) u = (u, tt)

  oldest-From :
      (best : Option (String × ℕ)) (m : List (String × ℕ))
      → Unpinned best
      → From heap best (oldest heap best m) × Oldest heap m (oldest heap best m)
  unfolding oldest
  oldest-From best [] u = (From-refl best, Oldest-nil best u)
  oldest-From best ((k, p) ∷ rest) u =
      if_elim
        (λ (x : Option (String × ℕ)).
          From heap best (oldest heap x rest) × Oldest heap ((k, p) ∷ rest) (oldest heap x rest))
        (older heap p best) _ _
        (λ h.
          let (f, r) = oldest-From (some (k, p)) rest (older-Unpinned k p best h) in
          (From-older k p best _ h f, Oldest-found k p rest _ f r))
        (λ h. let (f, r) = oldest-From best rest u in (f, Oldest-cons k p rest best _ h f r))

  -- The handle that goes is the least recently used of those without a read in flight, and there is
  -- one whenever some handle has no read in flight.
  pub oldest-Oldest : (m : List (String × ℕ)) → Oldest heap m (oldest heap none m)
  oldest-Oldest m = (oldest-From none m tt).1

-- Within the cap, or every handle is being read.
abbrev pub Fits : FdCache → Type 0
Fits c = (length c.paths ≤ c.max) ⊎ All (λ e. 0 < (c.heap e.1).refs) c.paths

shorter :
    (path : String) (p : ℕ) (m : List (String × ℕ))
    → Distinct String_discrete m
    → lookup String_discrete path m ≡ some p
    → suc (length (delete String_discrete path m)) ≡ length m
shorter path p m d e = omega (
  arith,
  total_one m,
  total_one (delete String_discrete path m),
  total-delete String_discrete (λ _. 1) path p m d e,
)

evict_loop-Fits :
    (fuel : ℕ) (c : FdCache)
    → Distinct String_discrete c.paths
    → length c.paths ≤ fuel
    → Fits (evict_loop fuel c)
unfolding evict_loop retire_locked
evict_loop-Fits zero c d h = inl (omega arith)
evict_loop-Fits (suc fuel) c d h =
    if_elim Fits (leb (length c.paths) c.max) _ _ (λ e. inl (ground arith))
      (λ _.
        Option_elim Fits (oldest c.heap none c.paths) _ _
          (λ e. inr (subst (Oldest c.heap c.paths) e (oldest-Oldest c.heap c.paths)))
          (λ v e.
            evict_loop-Fits fuel (retire_locked v.0 v.1 c)
              (delete-Distinct String_discrete v.0 c.paths d)
              (omega (
                arith,
                shorter v.0 v.1 c.paths d (
                    subst (Found c.paths) e (
                      oldest-Found c.heap c.paths c.paths none
                        (Within-self String_discrete c.paths d) tt)),
              ))))

-- After an eviction the open handles are within the cap, or a read is in flight on every one.
pub evict_locked-Fits : (c : FdCache) → Distinct String_discrete c.paths → Fits (evict_locked c)
unfolding evict_locked
evict_locked-Fits c d = evict_loop-Fits (length c.paths) c d (omega arith)
