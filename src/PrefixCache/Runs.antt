-- ===== src/PrefixCache/Runs.antt =====
-- streamer/storage_prefixcache.go: the storage's calls in any sequence.
use phimtor.Base.{ℕ, List, [], ◌∷◌, Bool, arith}
use phimtor.PrefixCache.{
  PieceKey, PieceKey_discrete, Cache, add_cache_piece, remove_cache_entry, add_prefix_resident,
  remove_prefix_resident, register_reader, note_reader_pos, unregister_reader, drop_bookkeeping,
}
use phimtor.Base.{lookup, Option-cases, inl, inr}
use phimtor.PrefixCache.Accounting.{
  Accounted, add_prefix_resident-Accounted, remove_cache_entry-Accounted,
  remove_prefix_resident-Accounted, register_reader-Accounted, note_reader_pos-Accounted,
  unregister_reader-Accounted, drop_bookkeeping-Accounted,
}
use phimtor.PrefixCache.Eviction.{add_cache_piece-Evicts}

-- `newPrefixCacheStorage`, before any piece.
pub new_cache : ℕ → Bool → Cache
new_cache cap hot = record {
  cache_cap = cap;
  retain_hot = hot;
  cache = [];
  cache_bytes = 0;
  next_reader_id = 0;
  readers = [];
  prefix_keys = [];
  prefix_resident = 0;
}

pub data Call : Type 0 where
  adds_piece adds_prefix : PieceKey → ℕ → Call
  removes_piece removes_prefix : PieceKey → Call
  registers : ℕ → Call
  notes : ℕ → ℕ → ℕ → Call
  unregisters : ℕ → ℕ → Call
  drops : ℕ → Call

pub step : Cache → Call → Cache
step s (adds_piece k n) = (add_cache_piece k n s).0
step s (adds_prefix k n) = add_prefix_resident k n s
step s (removes_piece k) = remove_cache_entry k s
step s (removes_prefix k) = remove_prefix_resident k s
step s (registers ih) = (register_reader ih s).0
step s (notes ih id pos) = note_reader_pos ih id pos s
step s (unregisters ih id) = unregister_reader ih id s
step s (drops ih) = (drop_bookkeeping ih s).0

pub run : Cache → List Call → Cache
run s [] = s
run s (c ∷ cs) = run (step s c) cs

add_cache_piece-Accounted :
    (k : PieceKey) (n : ℕ) (s : Cache) → Accounted s → Accounted (add_cache_piece k n s).0
unfolding add_cache_piece
add_cache_piece-Accounted k n s v = elim (Option-cases (lookup PieceKey_discrete k s.cache)) [
  | inl e ↦ (add_cache_piece-Evicts k n s v e).0.accounted
  | inr (m, e) ↦ rw (e, add_cache_piece) v
]

step-Accounted : (s : Cache) (c : Call) → Accounted s → Accounted (step s c)
unfolding step
step-Accounted s (adds_piece k n) v = add_cache_piece-Accounted k n s v
step-Accounted s (adds_prefix k n) v = add_prefix_resident-Accounted k n s v
step-Accounted s (removes_piece k) v = remove_cache_entry-Accounted k s v
step-Accounted s (removes_prefix k) v = remove_prefix_resident-Accounted k s v
step-Accounted s (registers ih) v = register_reader-Accounted ih 0 0 s v
step-Accounted s (notes ih id pos) v = note_reader_pos-Accounted ih id pos s v
step-Accounted s (unregisters ih id) v = unregister_reader-Accounted ih id 0 s v
step-Accounted s (drops ih) v = drop_bookkeeping-Accounted ih s v

run-Accounted : (s : Cache) (cs : List Call) → Accounted s → Accounted (run s cs)
unfolding run
run-Accounted s [] v = v
run-Accounted s (c ∷ cs) v = run-Accounted (step s c) cs (step-Accounted s c v)

new-Accounted : (cap : ℕ) (hot : Bool) → Accounted (new_cache cap hot)
unfolding new_cache
new-Accounted cap hot = omega arith

-- After any sequence of calls (pieces added or removed in either tier, readers registered, moved or
-- unregistered, torrents dropped) no piece is held twice in a tier, `cacheBytes` is the sum of the
-- sizes of the resident cache pieces, and `prefixResident` that of the resident prefix pieces.
pub run-new-Accounted :
    (cap : ℕ) (hot : Bool) (cs : List Call) → Accounted (run (new_cache cap hot) cs)
run-new-Accounted cap hot cs = run-Accounted _ cs (new-Accounted cap hot)
