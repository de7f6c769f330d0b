-- ===== src/FdCache/Handles.antt =====
-- streamer/storage_fdcache.go: a file is closed once, after its last reader.
pub mod Runs
use phimtor.Base.{
  ℕ, suc, ◌+◌, ◌-◌, ◌≤◌, ◌<◌, Bool, true, false, ◌&&◌, String, Option, none, some, List, [], ◌∷◌,
  lookup, ite, All, ◌==◌, ℕ_discrete, String_discrete, if◌then◌else◌, ◌≡◌, ◌≢◌, ◌⊎◌, inl, inr, refl,
  sym, subst, ◌∙◌, arith, if_elim, Option_elim,
}
use phimtor.Base.Assoc.{
  delete, insert, Distinct, Within, lookup-delete, lookup-insert, delete-Distinct, insert-Distinct,
}
use phimtor.FdCache.{
  FdEntry, FdCache, store, retire_entry, retire_locked, unpin, pin, read_end, open_entry,
}

-- In the map, with its file open.
pub record IsOpen (c : FdCache) (p : ℕ) : Type 0 where
  pub open_closes : (c.heap p).closes ≡ 0
  pub open_dead : (c.heap p).dead ≡ false
  pub path : String
  pub at_path : lookup String_discrete path c.paths ≡ some p

-- Out of the map: closed once when no read is in flight, and marked and still open otherwise.
pub record IsRetired (c : FdCache) (p : ℕ) : Type 0 where
  pub unmapped : (path : String) → lookup String_discrete path c.paths ≢ some p
  pub closed_or_read :
      (((c.heap p).closes ≡ 1) × ((c.heap p).refs ≡ 0))
      ⊎ (((c.heap p).closes ≡ 0) × (((c.heap p).dead ≡ true) × (0 < (c.heap p).refs)))

pub record Sound (c : FdCache) : Type 0 where
  pub distinct : Distinct String_discrete c.paths
  pub allocated :
      (path : String) (p : ℕ) → lookup String_discrete path c.paths ≡ some p → p < c.next
  pub apart :
      (a b : String) (p : ℕ)
      → lookup String_discrete a c.paths ≡ some p
      → lookup String_discrete b c.paths ≡ some p
      → a ≡ b
  pub state : (p : ℕ) → p < c.next → IsOpen c p ⊎ IsRetired c p

module _ (path : String) (p : ℕ) (c : FdCache) (v : Sound c)
    (e : lookup String_discrete path c.paths ≡ some p) where
  retire_locked-own : IsOpen c p → IsRetired (retire_locked path p c) p
  unfolding retire_locked retire_entry
  retire_locked-own o = record {
    unmapped = λ other h.
        ground (arith, lookup-delete String_discrete path other c.paths, v.apart path other p e);
    closed_or_read = ground (arith, o.open_closes);
  }

  retire_locked-IsOpen : (q : ℕ) → q ≢ p → IsOpen c q → IsOpen (retire_locked path p c) q
  unfolding retire_locked
  retire_locked-IsOpen q n o = record {
    open_closes = ground (arith, o.open_closes);
    open_dead = ground (arith, o.open_dead);
    path = o.path;
    at_path = ground (arith, lookup-delete String_discrete path o.path c.paths, o.at_path);
  }

  retire_locked-IsRetired : (q : ℕ) → q ≢ p → IsRetired c q → IsRetired (retire_locked path p c) q
  unfolding retire_locked
  retire_locked-IsRetired q n o = record {
    unmapped = λ other h.
        ground (arith, lookup-delete String_discrete path other c.paths, o.unmapped other);
    closed_or_read = ground (arith, o.closed_or_read);
  }

  retire_locked-state :
      (q : ℕ)
      → q < c.next
      → IsOpen (retire_locked path p c) q ⊎ IsRetired (retire_locked path p c) q
  retire_locked-state q h = elim (ℕ_discrete q p) [
    | yes same ↦
        inr (subst (IsRetired (retire_locked path p c)) (sym same) (retire_locked-own own_open))
    | no n ↦ elim (v.state q h) [
      | inl o ↦ inl (retire_locked-IsOpen q n o)
      | inr o ↦ inr (retire_locked-IsRetired q n o)
    ]
  ]
    where
      own_open : IsOpen c p
      own_open = elim (v.state p (v.allocated path p e)) [
        | inl o ↦ o
        | inr o ↦ elim (o.unmapped path e) [ ]
      ]

  pub retire_locked-Sound : Sound (retire_locked path p c)
  unfolding retire_locked
  retire_locked-Sound = record {
    distinct = delete-Distinct String_discrete path c.paths v.distinct;
    allocated =
        λ a q h. ground (arith, lookup-delete String_discrete path a c.paths, v.allocated a q);
    apart = λ a b q h g. ground (
      arith,
      lookup-delete String_discrete path a c.paths,
      lookup-delete String_discrete path b c.paths,
      v.apart a b q,
    );
    state = retire_locked-state;
  }

-- A change of one entry that leaves the map alone.
module _ (p : ℕ) (e : FdEntry) (c : FdCache) (v : Sound c) where
  abbrev stored : FdCache
  stored = record c { heap = store c.heap p e }

  stored-Sound :
      (IsOpen c p → (e.closes ≡ 0) × (e.dead ≡ false))
      → (IsRetired c p
          → ((e.closes ≡ 1) × (e.refs ≡ 0)) ⊎ ((e.closes ≡ 0) × ((e.dead ≡ true) × (0 < e.refs))))
      → Sound stored
  stored-Sound still_open still_retired = record {
    distinct = v.distinct;
    allocated = v.allocated;
    apart = v.apart;
    state = λ q h. elim (v.state q h) [
      | inl o ↦ inl (record {
        open_closes = ground (arith, o.open_closes, still_open);
        open_dead = ground (arith, o.open_dead, still_open);
        path = o.path;
        at_path = o.at_path;
      })
      | inr o ↦ inr (record {
        unmapped = o.unmapped;
        closed_or_read = ground (arith, o.closed_or_read, still_retired);
      })
    ];
  }
