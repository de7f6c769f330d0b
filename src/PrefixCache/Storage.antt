-- ===== src/PrefixCache/Storage.antt =====
-- streamer/storage_prefixcache.go: the methods of a piece and `DropTorrent`, with the completion
-- records. `storage.PieceCompletion` belongs to the torrent library: it is the parameter `Completion`.
pub mod Sync
use phimtor.Base.{ℕ, Bool, true, false, Option, none, some, List, [], ◌∷◌, ite, if◌then◌else◌, ◌≡◌}
use phimtor.PrefixCache.{
  PieceKey, PieceKey_discrete, Cache, add_cache_piece, remove_cache_entry, add_prefix_resident,
  remove_prefix_resident, drop_bookkeeping,
}

-- `get` is `Ok && Complete`; `set` is `none` when it returns an error, and otherwise changes the
-- record of that piece only.
pub record Completion : Type 1 where
  pub Store : Type 0
  pub get : Store → PieceKey → Bool
  pub set : Store → PieceKey → Bool → Option Store
  pub get-set :
      (c c' : Store) (k : PieceKey) (b : Bool) (j : PieceKey)
      → set c k b ≡ some c'
      → get c' j ≡ ite (PieceKey_discrete j k) b (get c j)

pub record Storage (C : Completion) : Type 0 where
  pub book : Cache
  pub prefix_completion : C.Store
  pub cache_completion : C.Store

module _ (C : Completion) where
  -- `_ = completion.Set(key, done)`
  pub set_ignoring : PieceKey → Bool → C.Store → C.Store
  set_ignoring k b c = elim (C.set c k b) [ none ↦ c | some c' ↦ c' ]

  pub set_all : List PieceKey → C.Store → C.Store
  unfolding set_ignoring
  set_all [] c = c
  set_all (k ∷ ks) c = set_all ks (set_ignoring k false c)

  -- The result is false where `MarkComplete` returns an error.
  pub mark_complete : PieceKey → ℕ → Bool → Storage C → Storage C × Bool
  mark_complete key size true st = elim (C.set st.prefix_completion key true) [
    | none ↦ (st, false)
    | some c ↦
        (record st { prefix_completion = c; book = add_prefix_resident key size st.book }, true)
  ]
  mark_complete key size false st = elim (C.set st.cache_completion key true) [
    | none ↦ (st, false)
    | some c ↦
        let (book', evicted) = add_cache_piece key size st.book in
        (record st { book = book'; cache_completion = set_all evicted c }, true)
  ]

  abbrev finish_prefix : Storage C → Option C.Store → Storage C × Bool
  finish_prefix st none = (st, false)
  finish_prefix st (some c) = (record st { prefix_completion = c }, true)

  abbrev finish_cache : Storage C → Option C.Store → Storage C × Bool
  finish_cache st none = (st, false)
  finish_cache st (some c) = (record st { cache_completion = c }, true)

  -- `removed` is false where `os.Remove` fails otherwise than by a missing file.
  pub mark_not_complete : Bool → PieceKey → Bool → Storage C → Storage C × Bool
  mark_not_complete false key is_prefix st = (st, false)
  mark_not_complete true key true st =
      finish_prefix (record st { book = remove_prefix_resident key st.book })
        (C.set st.prefix_completion key false)
  mark_not_complete true key false st =
      finish_cache (record st { book = remove_cache_entry key st.book })
        (C.set st.cache_completion key false)

  pub drop_torrent : ℕ → Storage C → Storage C
  drop_torrent ih st =
      let (book', pieces) = drop_bookkeeping ih st.book in
      record st { book = book'; prefix_completion = set_all pieces st.prefix_completion }
