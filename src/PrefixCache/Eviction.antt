-- ===== src/PrefixCache/Eviction.antt =====
-- streamer/storage_prefixcache.go: what `addCachePiece` leaves resident.
use mathlib.Core.Path.{sym, subst, ◌∙◌}
use phimtor.Base.{
  ℕ, zero, suc, ◌+◌, ◌<◌, ◌≤◌, none, some, List, [], ◌∷◌, lookup, ite, ltb, length, arith,
  total_one, All, All-mono, Bool-cases, Option-cases, ◌≡◌, ◌⊎◌, inl, inr, refl, ap,
}
use phimtor.Base.Assoc.{
  delete, insert, lookup-delete, lookup-insert, total-delete, delete_absent, share-le-total,
}
use phimtor.PrefixCache.{
  PieceKey, PieceKey_discrete, Cache, is_pinned, pick_victim, evict, evict_loop, put_piece,
  add_cache_piece,
}
use phimtor.PrefixCache.Accounting.{Accounted, evict-Accounted, put_piece-Accounted}
use phimtor.PrefixCache.Victim.{Picks, IsEvictable, pick_victim-Picks}

-- From `s` the loop reaches `u`, having evicted the listed pieces.
pub record Evicts (key : PieceKey) (s : Cache) (u : Cache) (evicted : List PieceKey) : Type 0 where
  pub accounted : Accounted u
  pub kept_key : lookup PieceKey_discrete key u.cache ≡ lookup PieceKey_discrete key s.cache
  pub ends : (u.cache_bytes ≤ u.cache_cap) ⊎ (pick_victim u key ≡ none)
  pub same_cap : u.cache_cap ≡ s.cache_cap
  pub only_evictable : All (IsEvictable s key) evicted
  pub within_budget : s.cache_bytes ≤ s.cache_cap → u ≡ s
  pub gone_or_kept :
      (j : PieceKey)
      → (lookup PieceKey_discrete j u.cache ≡ lookup PieceKey_discrete j s.cache)
        ⊎ ((lookup PieceKey_discrete j u.cache ≡ none) × IsEvictable s key j)

pinned-evict : (v k : PieceKey) (s : Cache) → is_pinned (evict v s) k ≡ is_pinned s k
unfolding evict is_pinned
pinned-evict v k s = refl

length-evict :
    (v : PieceKey) (n : ℕ) (s : Cache)
    → Accounted s
    → lookup PieceKey_discrete v s.cache ≡ some n
    → length (evict v s).cache + 1 ≡ length s.cache
unfolding evict
length-evict v n s a e = omega (
  arith,
  total-delete PieceKey_discrete (λ _. 1) v n s.cache a.cache_distinct e,
  total_one s.cache,
  total_one (delete PieceKey_discrete v s.cache),
)

lookup-evict :
    (v j : PieceKey) (s : Cache)
    → lookup PieceKey_discrete j (evict v s).cache
      ≡ ite (PieceKey_discrete j v) none (lookup PieceKey_discrete j s.cache)
unfolding evict
lookup-evict v j s = lookup-delete PieceKey_discrete v j s.cache

-- One round, and then the rest of the loop.
evict-Evicts :
    (key v : PieceKey) (s u : Cache) (rest : List PieceKey)
    → IsEvictable s key v
    → s.cache_cap < s.cache_bytes
    → Evicts key (evict v s) u rest
    → Evicts key s u (v ∷ rest)
evict-Evicts key v s u rest free over h = record {
  accounted = h.accounted;
  kept_key = ground (arith, h.kept_key, lookup-evict v key s, free.0);
  ends = h.ends;
  same_cap = unfold evict in h.same_cap;
  only_evictable = (
    free,
    All-mono (IsEvictable (evict v s) key) (IsEvictable s key) rest before h.only_evictable,
  );
  within_budget = λ b. absurd (omega arith);
  gone_or_kept = λ j. elim (h.gone_or_kept j) [
    | inr (gone, free') ↦ inr (gone, before j free')
    | inl same ↦ elim (PieceKey_discrete j v) [
      | yes p ↦ inr (ground (arith, lookup-evict v j s), rw p free)
      | no q ↦ inl (ground (arith, lookup-evict v j s))
    ]
  ];
}
  where
    before : (j : PieceKey) → IsEvictable (evict v s) key j → IsEvictable s key j
    before j (ne, pin) = (ne, sym (pinned-evict v j s) ∙ pin)

stops-Evicts :
    (key : PieceKey) (s : Cache)
    → Accounted s
    → (s.cache_bytes ≤ s.cache_cap) ⊎ (pick_victim s key ≡ none)
    → Evicts key s s []
stops-Evicts key s a e = record {
  accounted = a;
  kept_key = refl;
  ends = e;
  same_cap = refl;
  only_evictable = tt;
  within_budget = λ _. refl;
  gone_or_kept = λ j. inl refl;
}

-- A round that finds a victim, given what the rest of the loop does.
round-Evicts :
    (fuel : ℕ) (key : PieceKey) (size : ℕ) (v : PieceKey) (s : Cache)
    → Accounted s
    → lookup PieceKey_discrete key s.cache ≡ some size
    → length s.cache ≤ suc fuel
    → s.cache_cap < s.cache_bytes
    → pick_victim s key ≡ some v
    → ((t : Cache)
        → Accounted t
        → lookup PieceKey_discrete key t.cache ≡ some size
        → length t.cache ≤ fuel
        → Evicts key t (evict_loop fuel key t).0 (evict_loop fuel key t).1)
    → Evicts key s (evict_loop fuel key (evict v s)).0 (v ∷ (evict_loop fuel key (evict v s)).1)
round-Evicts fuel key size v s a e f over found rest =
    let p : Picks s key (some v) = subst (Picks s key) found (pick_victim-Picks s key) in
    let ((n, held), free, best) = p in
    evict-Evicts key v s _ _ free over (
      rest (evict v s) (evict-Accounted v s n a held) (ground (arith, lookup-evict v key s, free.0))
        (omega (arith, length-evict v n s a held)))

evict_loop-Evicts :
    (fuel : ℕ) (key : PieceKey) (size : ℕ) (s : Cache)
    → Accounted s
    → lookup PieceKey_discrete key s.cache ≡ some size
    → length s.cache ≤ fuel
    → Evicts key s (evict_loop fuel key s).0 (evict_loop fuel key s).1
unfolding evict_loop
evict_loop-Evicts zero key size s a e f = absurd (
    omega (
      arith,
      share-le-total PieceKey_discrete (λ _. 1) key size s.cache a.cache_distinct e,
      total_one s.cache,
    ))
evict_loop-Evicts (suc fuel) key size s a e f = elim (Bool-cases (ltb s.cache_cap s.cache_bytes)) [
  | inr fits ↦ rw (fits, evict_loop) (stops-Evicts key s a (inl (ground arith)))
  | inl over ↦
      rw (over, evict_loop)
        (elim (Option-cases (pick_victim s key)) [
          | inl nothing ↦ rw nothing (stops-Evicts key s a (inr nothing))
          | inr (v, found) ↦ rw found (
              round-Evicts fuel key size v s a e f (ground arith) found
                (evict_loop-Evicts fuel key size))
        ])
]

lookup-put_piece :
    (key : PieceKey) (size : ℕ) (s : Cache)
    → lookup PieceKey_discrete key (put_piece key size s).cache ≡ some size
unfolding put_piece
lookup-put_piece key size s = ground (arith, lookup-insert PieceKey_discrete key key size s.cache)

length-put_piece :
    (key : PieceKey) (size : ℕ) (s : Cache)
    → lookup PieceKey_discrete key s.cache ≡ none
    → length (put_piece key size s).cache ≤ suc (length s.cache)
unfolding put_piece insert
length-put_piece key size s e =
    omega (arith, ap length (delete_absent PieceKey_discrete key s.cache e))

-- What `addCachePiece` does with a piece that is not resident: afterwards the counters agree with the
-- pieces, the new piece is resident with its size, and either the bytes are within the capacity or no
-- other piece may be evicted. Every evicted piece may be (it is neither the new piece nor pinned by
-- `retainHot`), nothing is evicted if the new piece fits, and every other piece is as it was or is an
-- evictable one that is gone.
pub add_cache_piece-Evicts :
    (key : PieceKey) (size : ℕ) (s : Cache)
    → Accounted s
    → lookup PieceKey_discrete key s.cache ≡ none
    → Evicts key
        (put_piece key size s)
        (add_cache_piece key size s).0
        (add_cache_piece key size s).1
      × (lookup PieceKey_discrete key (add_cache_piece key size s).0.cache ≡ some size)
unfolding add_cache_piece
add_cache_piece-Evicts key size s a e = rw (e, add_cache_piece) (done, done.kept_key ∙ inserted)
  where
    inserted : lookup PieceKey_discrete key (put_piece key size s).cache ≡ some size
    inserted = lookup-put_piece key size s

    done :
        Evicts key
          (put_piece key size s)
          (evict_loop (suc (length s.cache)) key (put_piece key size s)).0
          (evict_loop (suc (length s.cache)) key (put_piece key size s)).1
    done =
        evict_loop-Evicts (suc (length s.cache)) key size (put_piece key size s)
          (put_piece-Accounted key size s a e) inserted (length-put_piece key size s e)
