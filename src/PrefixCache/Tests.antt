-- ===== src/PrefixCache/Tests.antt =====
-- Runs of the piece storage, and its theorems at concrete states.
use phimtor.Base.{
  ℕ, List, [], ◌∷◌, Bool, true, false, some, none, arith, ◌≡◌, ◌<◌, refl, lookup, ℕ_discrete, ite,
  Option, All, ap,
}
use phimtor.Base.Assoc.{insert, delete, lookup-insert}
use phimtor.PrefixCache.{
  PieceKey, PieceKey_discrete, Cache, add_cache_piece, put_piece, pick_victim, pick_loop, consider,
  eviction_score, is_pinned, evict, evict_loop, readers_of, score_behind_base,
}
use phimtor.PrefixCache.Accounting.{Accounted}
use phimtor.PrefixCache.Victim.{Picks, IsEvictable, pick_victim-Picks}
use phimtor.PrefixCache.Eviction.{Evicts, add_cache_piece-Evicts}
use phimtor.PrefixCache.Storage.{Completion, Storage, drop_torrent}
use phimtor.PrefixCache.Storage.Sync.{NeverFails, IsSynced, drop_torrent-stale}
use phimtor.PrefixCache.Runs.{
  new_cache, run, adds_piece, adds_prefix, registers, drops, run-new-Accounted,
}

abbrev key : ℕ → ℕ → PieceKey
key ih i = record { info_hash = ih; index = i }

-- Torrent 7 is watched at piece 5; torrent 8 has no viewer.
abbrev busy : Cache
busy = record {
  cache_cap = 100;
  retain_hot = false;
  cache = (key 7 2, 30) ∷ (key 7 6, 30) ∷ (key 8 0, 30) ∷ [];
  cache_bytes = 90;
  next_reader_id = 1;
  readers = (7, (1, 5) ∷ []) ∷ [];
  prefix_keys = [];
  prefix_resident = 0;
}

run-new-Accounted_example : Accounted (
    run (new_cache 50 true) (
      registers 7
      ∷ adds_piece (key 7 0) 30
      ∷ adds_prefix (key 7 1) 5
      ∷ adds_piece (key 8 0) 30
      ∷ drops 7
      ∷ []))
run-new-Accounted_example = run-new-Accounted 50 true _

busy-Accounted : Accounted busy
unfolding lookup PieceKey_discrete ℕ_discrete
busy-Accounted = record {
  cache_distinct = (refl, (refl, (refl, tt)));
  cache_total = refl;
  prefix_distinct = tt;
  prefix_total = refl;
}

fresh_key : lookup PieceKey_discrete (key 7 7) busy.cache ≡ none
unfolding lookup PieceKey_discrete ℕ_discrete
fresh_key = refl

add_cache_piece-Evicts_example :
    Evicts
      (key 7 7)
      (put_piece (key 7 7) 30 busy)
      (add_cache_piece (key 7 7) 30 busy).0
      (add_cache_piece (key 7 7) 30 busy).1
    × (lookup PieceKey_discrete (key 7 7) (add_cache_piece (key 7 7) 30 busy).0.cache ≡ some 30)
add_cache_piece-Evicts_example = add_cache_piece-Evicts (key 7 7) 30 busy busy-Accounted fresh_key

-- The piece of the unwatched torrent goes, and then there is room.
evicts_unwatched : (add_cache_piece (key 7 7) 30 busy).1 ≡ key 8 0 ∷ []
unfolding add_cache_piece evict_loop evict put_piece pick_victim pick_loop consider eviction_score
    is_pinned insert delete lookup PieceKey_discrete ℕ_discrete
evicts_unwatched = refl

pick_victim-Picks_example : Picks busy (key 7 6) (pick_victim busy (key 7 6))
pick_victim-Picks_example = pick_victim-Picks busy (key 7 6)

-- With the unwatched piece excluded, the piece behind the reader is the victim.
picks_behind : pick_victim busy (key 8 0) ≡ some (key 7 2)
unfolding pick_victim pick_loop consider eviction_score is_pinned lookup PieceKey_discrete
    ℕ_discrete
picks_behind = refl

behind-IsEvictable : IsEvictable busy (key 8 0) (key 7 2)
unfolding is_pinned
behind-IsEvictable = ((λ e. absurd (omega (arith, ap (λ (k : PieceKey). k.index) e))), refl)

reader_at_5 : lookup ℕ_discrete 1 (readers_of busy 7) ≡ some 5
unfolding lookup ℕ_discrete
reader_at_5 = refl

behind_held : lookup PieceKey_discrete (key 7 2) busy.cache ≡ some 30
unfolding lookup PieceKey_discrete ℕ_discrete
behind_held = refl

behind_its_reader : All (λ (e : ℕ × ℕ). 2 < e.1) (readers_of busy 7)
unfolding lookup ℕ_discrete
behind_its_reader = omega arith

picks_unwatched : pick_victim busy (key 7 6) ≡ some (key 8 0)
unfolding pick_victim pick_loop consider eviction_score is_pinned lookup PieceKey_discrete
    ℕ_discrete
picks_unwatched = refl

unwatched-IsEvictable : IsEvictable busy (key 7 6) (key 8 0)
unfolding is_pinned
unwatched-IsEvictable = ((λ e. absurd (omega (arith, ap (λ (k : PieceKey). k.index) e))), refl)

unwatched_held : lookup PieceKey_discrete (key 8 0) busy.cache ≡ some 30
unfolding lookup PieceKey_discrete ℕ_discrete
unwatched_held = refl

no_reader : readers_of busy 8 ≡ []
unfolding lookup ℕ_discrete
no_reader = refl

no_heads : All (λ (e : ℕ × ℕ). e.1 < score_behind_base) (readers_of busy 8)
unfolding lookup ℕ_discrete
no_heads = tt

-- The completion store of the torrent library as a map in memory.
abbrev or_false : Option Bool → Bool
or_false none = false
or_false (some b) = b

map_get-set :
    (c c' : List (PieceKey × Bool)) (k : PieceKey) (b : Bool) (j : PieceKey)
    → some (insert PieceKey_discrete k b c) ≡ some c'
    → or_false (lookup PieceKey_discrete j c')
      ≡ ite (PieceKey_discrete j k) b (or_false (lookup PieceKey_discrete j c))
map_get-set c c' k b j e = ground (arith, lookup-insert PieceKey_discrete k j b c)

abbrev map_completion : Completion
map_completion = record {
  Store = List (PieceKey × Bool);
  get = λ c k. or_false (lookup PieceKey_discrete k c);
  set = λ c k b. some (insert PieceKey_discrete k b c);
  get-set = map_get-set;
}

never_fails : NeverFails map_completion
never_fails c k b = refl

-- One cache piece, resident and recorded complete.
abbrev one_piece : Storage map_completion
one_piece = record {
  book = record busy { cache = (key 8 0, 30) ∷ []; cache_bytes = 30 };
  prefix_completion = [];
  cache_completion = (key 8 0, true) ∷ [];
}

one_piece-IsSynced : IsSynced map_completion one_piece
unfolding lookup
one_piece-IsSynced k = ground arith

one_held : lookup PieceKey_discrete (key 8 0) one_piece.book.cache ≡ some 30
unfolding lookup PieceKey_discrete ℕ_discrete
one_held = refl

drop_torrent-stale_example :
    (lookup PieceKey_discrete (key 8 0) (drop_torrent map_completion 8 one_piece).book.cache ≡ none)
    × (map_completion.get (drop_torrent map_completion 8 one_piece).cache_completion (key 8 0)
        ≡ true)
drop_torrent-stale_example =
    drop_torrent-stale map_completion 8 one_piece (key 8 0) 30 one_piece-IsSynced refl one_held
