-- ===== src/PrefixCache.antt =====
-- streamer/storage_prefixcache.go: the bookkeeping of the two-tier piece storage. A torrent's hash is
-- only compared, so it is a number; piece indices, sizes and byte counts are numbers that do not wrap.
pub mod Accounting
pub mod Victim
pub mod Eviction
pub mod Scores
pub mod Storage
pub mod Runs
mod Tests
use mathlib.Core.Bool.{Bool, true, false, not}
use mathlib.Core.Option
use phimtor.Base.{
  ℕ, zero, suc, ◌+◌, ◌-◌, ◌^◌, Option, none, some, List, [], ◌∷◌, ◌++◌, ◌&&◌, lookup, ite, ltb,
  ◌==◌, ℕ_discrete, if◌then◌else◌, length, ap, ◌≡◌,
}
use phimtor.Base.Assoc.{delete, insert}

-- metainfo.PieceKey
pub record PieceKey : Type 0 where
  pub info_hash : ℕ
  pub index : ℕ

key_path : (a b : PieceKey) → a.info_hash ≡ b.info_hash → a.index ≡ b.index → a ≡ b
key_path a b p q = λ i. record { info_hash = p i; index = q i }

pub PieceKey_discrete : Discrete PieceKey
unfolding key_path
PieceKey_discrete a b = elim (ℕ_discrete a.info_hash b.info_hash) [
  | no n ↦ no (λ e. n (ap (λ k. k.info_hash) e))
  | yes p ↦ elim (ℕ_discrete a.index b.index) [
    | no n ↦ no (λ e. n (ap (λ k. k.index) e))
    | yes q ↦ yes (key_path a b p q)
  ]
]

pub record Cache : Type 0 where
  pub cache_cap : ℕ
  pub retain_hot : Bool
  pub cache : List (PieceKey × ℕ)
  pub cache_bytes : ℕ
  pub next_reader_id : ℕ
  pub readers : List (ℕ × List (ℕ × ℕ))
  pub prefix_keys : List (PieceKey × ℕ)
  pub prefix_resident : ℕ

-- `s.readers[ih]`, with nil for a torrent that has no entry.
abbrev pub or_empty : Option (List (ℕ × ℕ)) → List (ℕ × ℕ)
or_empty none = []
or_empty (some m) = m

abbrev pub readers_of : Cache → ℕ → List (ℕ × ℕ)
readers_of s ih = or_empty (lookup ℕ_discrete ih s.readers)

abbrev pub score_inactive_base : ℕ
score_inactive_base = 2 ^ 30

abbrev pub score_behind_base : ℕ
score_behind_base = 2 ^ 20

-- The score of a piece against one reader's playhead.
pub reader_score : ℕ → ℕ → ℕ
reader_score index r = if ltb index r then score_behind_base + (r - index) else index - r

-- The rest of the loop over the readers; the first one replaces the sentinel -1.
pub least_score : ℕ → ℕ → List (ℕ × ℕ) → ℕ
unfolding reader_score
least_score index best [] = best
least_score index best ((_, r) ∷ rest) =
    least_score index (if ltb (reader_score index r) best then reader_score index r else best) rest

pub score_among : ℕ → List (ℕ × ℕ) → ℕ
unfolding least_score
score_among index [] = score_inactive_base + index
score_among index ((_, r) ∷ rest) = least_score index (reader_score index r) rest

pub eviction_score : Cache → PieceKey → ℕ
unfolding score_among
eviction_score s k = score_among k.index (readers_of s k.info_hash)

abbrev pub is_empty {ℓ} : {A : Type ℓ} → List A → Bool
is_empty [] = true
is_empty (x ∷ xs) = false

-- A hot torrent's piece, while `retainHot` is set.
pub is_pinned : Cache → PieceKey → Bool
is_pinned s k = s.retain_hot && not (is_empty (readers_of s k.info_hash))

-- `none` is `found == false` with `bestScore == -1`.
abbrev pub better : Option (PieceKey × ℕ) → ℕ → Bool
better none score = true
better (some (_, best)) score = ltb best score

pub consider : Cache → PieceKey → PieceKey → Option (PieceKey × ℕ) → Option (PieceKey × ℕ)
consider s exclude k best = ite (PieceKey_discrete k exclude) best (
    if is_pinned s k
    then best
    else if better best (eviction_score s k)
    then some (k, eviction_score s k)
    else best)

pub pick_loop :
    Cache → PieceKey → List (PieceKey × ℕ) → Option (PieceKey × ℕ) → Option (PieceKey × ℕ)
pick_loop s exclude [] best = best
pick_loop s exclude ((k, _) ∷ rest) best = pick_loop s exclude rest (consider s exclude k best)

pub pick_victim : Cache → PieceKey → Option PieceKey
pick_victim s exclude = Option.map (λ b. b.0) (pick_loop s exclude s.cache none)

abbrev pub or_zero : Option ℕ → ℕ
or_zero none = 0
or_zero (some n) = n

-- `s.cacheBytes -= s.cache[victim]; delete(s.cache, victim)`
pub evict : PieceKey → Cache → Cache
evict k s = record s {
  cache_bytes = s.cache_bytes - or_zero (lookup PieceKey_discrete k s.cache);
  cache = delete PieceKey_discrete k s.cache;
}

-- The eviction loop, with the pieces it evicted in order.
pub evict_loop : ℕ → PieceKey → Cache → Cache × List PieceKey
evict_loop zero key s = (s, [])
evict_loop (suc fuel) key s = elim (ltb s.cache_cap s.cache_bytes) [
  | false ↦ (s, [])
  | true ↦ elim (pick_victim s key) [
    | none ↦ (s, [])
    | some victim ↦
        let (s', evicted) = evict_loop fuel key (evict victim s) in (s', victim ∷ evicted)
  ]
]

pub put_piece : PieceKey → ℕ → Cache → Cache
put_piece key size s = record s {
  cache = insert PieceKey_discrete key size s.cache;
  cache_bytes = s.cache_bytes + size;
}

-- The number of resident pieces is fuel enough: each round evicts one.
pub add_cache_piece : PieceKey → ℕ → Cache → Cache × List PieceKey
add_cache_piece key size s = elim (lookup PieceKey_discrete key s.cache) [
  | some _ ↦ (s, [])
  | none ↦ evict_loop (suc (length s.cache)) key (put_piece key size s)
]

pub remove_cache_entry : PieceKey → Cache → Cache
remove_cache_entry key s = elim (lookup PieceKey_discrete key s.cache) [
  | none ↦ s
  | some size ↦ record s {
    cache = delete PieceKey_discrete key s.cache;
    cache_bytes = s.cache_bytes - size;
  }
]

pub add_prefix_resident : PieceKey → ℕ → Cache → Cache
add_prefix_resident key size s = elim (lookup PieceKey_discrete key s.prefix_keys) [
  | some _ ↦ s
  | none ↦ record s {
    prefix_keys = insert PieceKey_discrete key size s.prefix_keys;
    prefix_resident = s.prefix_resident + size;
  }
]

pub remove_prefix_resident : PieceKey → Cache → Cache
remove_prefix_resident key s = elim (lookup PieceKey_discrete key s.prefix_keys) [
  | none ↦ s
  | some size ↦ record s {
    prefix_keys = delete PieceKey_discrete key s.prefix_keys;
    prefix_resident = s.prefix_resident - size;
  }
]

pub register_reader : ℕ → Cache → Cache × ℕ
register_reader ih s =
    let id = s.next_reader_id + 1 in
    (
      record s {
        next_reader_id = id;
        readers = insert ℕ_discrete ih (insert ℕ_discrete id 0 (readers_of s ih)) s.readers;
      },
      id,
    )

pub note_reader_pos : ℕ → ℕ → ℕ → Cache → Cache
note_reader_pos ih id piece_index s = elim (lookup ℕ_discrete ih s.readers) [
  | none ↦ s
  | some m ↦ elim (lookup ℕ_discrete id m) [
    | none ↦ s
    | some _ ↦ record s {
      readers = insert ℕ_discrete ih (insert ℕ_discrete id piece_index m) s.readers;
    }
  ]
]

pub unregister_reader : ℕ → ℕ → Cache → Cache
unregister_reader ih id s = elim (lookup ℕ_discrete ih s.readers) [
  | none ↦ s
  | some m ↦
      let m' = delete ℕ_discrete id m in
      record s {
        readers =
            if is_empty m'
            then delete ℕ_discrete ih s.readers
            else insert ℕ_discrete ih m' s.readers;
      }
]

-- The two loops of `DropTorrent`.
pub drop_cache_loop : ℕ → List (PieceKey × ℕ) → Cache → Cache
unfolding evict
drop_cache_loop ih [] s = s
drop_cache_loop ih ((k, _) ∷ rest) s =
    drop_cache_loop ih rest (if k.info_hash == ih then evict k s else s)

pub forget_prefix : PieceKey → Cache → Cache
forget_prefix k s = record s {
  prefix_resident = s.prefix_resident - or_zero (lookup PieceKey_discrete k s.prefix_keys);
  prefix_keys = delete PieceKey_discrete k s.prefix_keys;
}

pub drop_prefix_loop : ℕ → List (PieceKey × ℕ) → Cache → Cache × List PieceKey
unfolding forget_prefix
drop_prefix_loop ih [] s = (s, [])
drop_prefix_loop ih ((k, _) ∷ rest) s =
    let (s', ks) = drop_prefix_loop ih rest (if k.info_hash == ih then forget_prefix k s else s) in
    (s', if k.info_hash == ih then k ∷ ks else ks)

-- `DropTorrent` under the lock: the state and `prefixPieces`.
pub drop_bookkeeping : ℕ → Cache → Cache × List PieceKey
unfolding drop_cache_loop drop_prefix_loop
drop_bookkeeping ih s =
    let (s', pieces) = drop_prefix_loop ih s.prefix_keys (drop_cache_loop ih s.cache s) in
    (record s' { readers = delete ℕ_discrete ih s'.readers }, pieces)

-- `capFunc`: the shared download budget.
pub capacity : Cache → ℕ
capacity s = s.cache_cap + s.prefix_resident + (if s.retain_hot then s.cache_bytes else 0)
