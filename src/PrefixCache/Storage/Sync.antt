-- ===== src/PrefixCache/Storage/Sync.antt =====
-- streamer/storage_prefixcache.go: the completion records of cache pieces against the resident ones.
use phimtor.Base.{
  ℕ, zero, suc, Bool, true, false, Option, none, some, List, [], ◌∷◌, ite, if◌then◌else◌, ◌≡◌,
  lookup, length, arith, ltb, Option_elim, if_elim, Option-cases, Bool-cases, inl, inr, refl, ap,
  ◌∙◌, ◌==◌,
}
use phimtor.Base.Assoc.{lookup-delete, lookup-insert}
use phimtor.PrefixCache.{
  PieceKey, PieceKey_discrete, Cache, add_cache_piece, put_piece, evict, evict_loop, pick_victim,
  remove_cache_entry, drop_bookkeeping, drop_cache_loop, drop_prefix_loop, forget_prefix,
}
use phimtor.PrefixCache.Storage.{
  Completion, Storage, set_ignoring, set_all, mark_complete, mark_not_complete, drop_torrent,
}

abbrev pub is_some {ℓ} : {A : Type ℓ} → Option A → Bool
is_some none = false
is_some (some _) = true

abbrev elem : PieceKey → List PieceKey → Bool
elem j [] = false
elem j (k ∷ ks) = ite (PieceKey_discrete j k) true (elem j ks)

-- The pieces that the loop reports are the ones that it takes out.
lookup-evict_loop :
    (fuel : ℕ) (key j : PieceKey) (s : Cache)
    → lookup PieceKey_discrete j (evict_loop fuel key s).0.cache
      ≡ (if elem j (evict_loop fuel key s).1 then none else lookup PieceKey_discrete j s.cache)
unfolding evict_loop evict
lookup-evict_loop zero key j s = refl
lookup-evict_loop (suc fuel) key j s = elim (Bool-cases (ltb s.cache_cap s.cache_bytes)) [
  | inr fits ↦ rw (fits, evict_loop)
  | inl over ↦
      rw (over, evict_loop)
        (Option_elim
          (λ (r : Cache × List PieceKey).
            lookup PieceKey_discrete j r.0.cache
            ≡ (if elem j r.1 then none else lookup PieceKey_discrete j s.cache))
          (pick_victim s key) _ _ (λ _. refl)
          (λ v _. ground (
            arith,
            lookup-evict_loop fuel key j (evict v s),
            lookup-delete PieceKey_discrete v j s.cache,
          )))
]

module _ (C : Completion) where
  get-set_ignoring :
      (k : PieceKey) (c : C.Store) (j : PieceKey)
      → is_some (C.set c k false) ≡ true
      → C.get (set_ignoring C k false c) j ≡ ite (PieceKey_discrete j k) false (C.get c j)
  unfolding set_ignoring
  get-set_ignoring k c j ok = elim (Option-cases (C.set c k false)) [
    | inl failed ↦ cc (failed, ok)
    | inr (c', e) ↦ rw (e, set_ignoring) (C.get-set c c' k false j e)
  ]

  get-set_all :
      (ks : List PieceKey) (c : C.Store) (j : PieceKey)
      → ((c : C.Store) (k : PieceKey) (b : Bool) → is_some (C.set c k b) ≡ true)
      → C.get (set_all C ks c) j ≡ (if elem j ks then false else C.get c j)
  unfolding set_all
  get-set_all [] c j total = refl
  get-set_all (k ∷ ks) c j total = ground (
    arith,
    get-set_all ks (set_ignoring C k false c) j total,
    get-set_ignoring k c j (total c k false),
  )

-- What the in-memory completion store promises besides: `Set` never fails.
abbrev pub NeverFails : Completion → Type 0
NeverFails C = (c : C.Store) (k : PieceKey) (b : Bool) → is_some (C.set c k b) ≡ true

-- A piece of the cache tier is recorded complete exactly when it is resident.
abbrev pub IsSynced : (C : Completion) → Storage C → Type 0
IsSynced C st =
    (k : PieceKey)
    → C.get st.cache_completion k ≡ is_some (lookup PieceKey_discrete k st.book.cache)

lookup-add_cache_piece :
    (key : PieceKey) (size : ℕ) (s : Cache) (j : PieceKey)
    → is_some (lookup PieceKey_discrete j (add_cache_piece key size s).0.cache) ≡ (
        if elem j (add_cache_piece key size s).1
        then false
        else ite (PieceKey_discrete j key) true (is_some (lookup PieceKey_discrete j s.cache)))
unfolding add_cache_piece
lookup-add_cache_piece key size s j = elim (Option-cases (lookup PieceKey_discrete key s.cache)) [
  | inr (n, e) ↦ rw (e, add_cache_piece) (ground arith)
  | inl e ↦
      rw (e, add_cache_piece)
        (ground
          (arith, lookup-evict_loop (suc (length s.cache)) key j (put_piece key size s), inserted))
]
  where
    inserted :
        lookup PieceKey_discrete j (put_piece key size s).cache
        ≡ ite (PieceKey_discrete j key) (some size) (lookup PieceKey_discrete j s.cache)
    inserted = unfold put_piece in lookup-insert PieceKey_discrete key j size s.cache

-- `MarkComplete` of a cache piece keeps the records in step with the resident pieces, whatever it
-- evicts, when the in-memory completion store never fails.
pub mark_complete-IsSynced :
    (C : Completion) (key : PieceKey) (size : ℕ) (st : Storage C)
    → NeverFails C
    → IsSynced C st
    → IsSynced C (mark_complete C key size false st).0
unfolding mark_complete
mark_complete-IsSynced C key size st total h k =
    Option_elim
      (λ (r : Storage C × Bool).
        C.get r.0.cache_completion k ≡ is_some (lookup PieceKey_discrete k r.0.book.cache))
      (C.set st.cache_completion key true) _ _ (λ _. h k)
      (λ c e. ground (
        arith,
        get-set_all C (add_cache_piece key size st.book).1 c k total,
        C.get-set st.cache_completion c key true k e,
        lookup-add_cache_piece key size st.book k,
        h k,
      ))

lookup-remove_cache_entry :
    (key : PieceKey) (s : Cache) (j : PieceKey)
    → lookup PieceKey_discrete j (remove_cache_entry key s).cache
      ≡ ite (PieceKey_discrete j key) none (lookup PieceKey_discrete j s.cache)
unfolding remove_cache_entry
lookup-remove_cache_entry key s j = ground (arith, lookup-delete PieceKey_discrete key j s.cache)

-- `MarkNotComplete` of a cache piece keeps them in step too, whether its file can be removed or not.
pub mark_not_complete-IsSynced :
    (C : Completion) (removed : Bool) (key : PieceKey) (st : Storage C)
    → NeverFails C
    → IsSynced C st
    → IsSynced C (mark_not_complete C removed key false st).0
unfolding mark_not_complete
mark_not_complete-IsSynced C false key st total h k = h k
mark_not_complete-IsSynced C true key st total h k =
    elim (Option-cases (C.set st.cache_completion key false)) [
      | inl failed ↦ cc (failed, total st.cache_completion key false)
      | inr (c, e) ↦ rw e (
          ground (
            arith,
            C.get-set st.cache_completion c key false k e,
            lookup-remove_cache_entry key st.book k,
            h k,
          ))
    ]

-- `DropTorrent` and the cache tier.
drop_cache_loop-none :
    (ih : ℕ) (rest : List (PieceKey × ℕ)) (s : Cache) (j : PieceKey)
    → lookup PieceKey_discrete j s.cache ≡ none
    → lookup PieceKey_discrete j (drop_cache_loop ih rest s).cache ≡ none
unfolding drop_cache_loop evict
drop_cache_loop-none ih [] s j e = e
drop_cache_loop-none ih ((k, n) ∷ rest) s j e = drop_cache_loop-none ih rest _ j (
    if_elim (λ (t : Cache). lookup PieceKey_discrete j t.cache ≡ none) (k.info_hash == ih) _ _
      (λ _. ground (arith, lookup-delete PieceKey_discrete k j s.cache)) (λ _. e))

drop_cache_loop_clears :
    (ih : ℕ) (rest : List (PieceKey × ℕ)) (s : Cache) (j : PieceKey) (n : ℕ)
    → j.info_hash ≡ ih
    → lookup PieceKey_discrete j rest ≡ some n
    → lookup PieceKey_discrete j (drop_cache_loop ih rest s).cache ≡ none
unfolding drop_cache_loop evict lookup
drop_cache_loop_clears ih [] s j n h e = cc
drop_cache_loop_clears ih ((k, m) ∷ rest) s j n h e = elim (PieceKey_discrete j k) [
  | yes p ↦ drop_cache_loop-none ih rest _ j (
      ground
        (arith, ap (λ (x : PieceKey). x.info_hash) p, lookup-delete PieceKey_discrete k j s.cache))
  | no q ↦
      drop_cache_loop_clears ih rest (if k.info_hash == ih then evict k s else s) j n h
        (ground arith)
]

cache-drop_prefix_loop :
    (ih : ℕ) (rest : List (PieceKey × ℕ)) (s : Cache)
    → (drop_prefix_loop ih rest s).0.cache ≡ s.cache
unfolding drop_prefix_loop forget_prefix
cache-drop_prefix_loop ih [] s = refl
cache-drop_prefix_loop ih ((k, n) ∷ rest) s =
    cache-drop_prefix_loop ih rest _
    ∙ if_elim (λ (t : Cache). t.cache ≡ s.cache) (k.info_hash == ih) _ _ (λ _. refl) (λ _. refl)

-- `DropTorrent` forgets every resident cache piece of the torrent, but leaves its completion record:
-- if the records were in step, each such piece is afterwards not resident and still recorded complete.
pub drop_torrent-stale :
    (C : Completion) (ih : ℕ) (st : Storage C) (k : PieceKey) (n : ℕ)
    → IsSynced C st
    → k.info_hash ≡ ih
    → lookup PieceKey_discrete k st.book.cache ≡ some n
    → (lookup PieceKey_discrete k (drop_torrent C ih st).book.cache ≡ none)
      × (C.get (drop_torrent C ih st).cache_completion k ≡ true)
unfolding drop_torrent drop_bookkeeping
drop_torrent-stale C ih st k n h e held = (cleared, ground (arith, h k))
  where
    cleared : lookup PieceKey_discrete k (drop_torrent C ih st).book.cache ≡ none
    cleared =
        rw
          (cache-drop_prefix_loop ih st.book.prefix_keys (drop_cache_loop ih st.book.cache st.book))
          (drop_cache_loop_clears ih st.book.cache st.book k n e held)
