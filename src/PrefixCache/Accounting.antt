-- ===== src/PrefixCache/Accounting.antt =====
-- streamer/storage_prefixcache.go: the byte counters against the resident pieces.
use phimtor.Base.{
  ℕ, none, some, List, [], ◌∷◌, lookup, ◌==◌, ℕ_discrete, arith, total, if_elim, Option_elim, ◌≡◌,
  refl, ◌∙◌,
}
use phimtor.Base.Assoc.{
  Distinct, Within, delete-Distinct, insert-Distinct, total-delete, total-insert_new, Within-delete,
  Within-self,
}
use phimtor.PrefixCache.{
  PieceKey, PieceKey_discrete, Cache, evict, put_piece, remove_cache_entry, add_prefix_resident,
  remove_prefix_resident, register_reader, note_reader_pos, unregister_reader, drop_cache_loop,
  forget_prefix, drop_prefix_loop, drop_bookkeeping,
}

abbrev pub size_of : PieceKey × ℕ → ℕ
size_of e = e.1

-- No piece is counted twice, and each counter is the sum of the sizes that it stands for.
pub record Accounted (s : Cache) : Type 0 where
  pub cache_distinct : Distinct PieceKey_discrete s.cache
  pub cache_total : s.cache_bytes ≡ total size_of s.cache
  pub prefix_distinct : Distinct PieceKey_discrete s.prefix_keys
  pub prefix_total : s.prefix_resident ≡ total size_of s.prefix_keys

module _ (k : PieceKey) (size : ℕ) (s : Cache) where
  pub put_piece-Accounted :
      Accounted s → lookup PieceKey_discrete k s.cache ≡ none → Accounted (put_piece k size s)
  unfolding put_piece
  put_piece-Accounted v e = record {
    cache_distinct = insert-Distinct PieceKey_discrete k size s.cache v.cache_distinct;
    cache_total =
        omega (arith, v.cache_total, total-insert_new PieceKey_discrete size_of k size s.cache e);
    prefix_distinct = v.prefix_distinct;
    prefix_total = v.prefix_total;
  }

  pub add_prefix_resident-Accounted : Accounted s → Accounted (add_prefix_resident k size s)
  unfolding add_prefix_resident
  add_prefix_resident-Accounted v =
      Option_elim Accounted (lookup PieceKey_discrete k s.prefix_keys) _ _
        (λ e. record {
          cache_distinct = v.cache_distinct;
          cache_total = v.cache_total;
          prefix_distinct =
              insert-Distinct PieceKey_discrete k size s.prefix_keys v.prefix_distinct;
          prefix_total = omega (
            arith,
            v.prefix_total,
            total-insert_new PieceKey_discrete size_of k size s.prefix_keys e,
          );
        })
        (λ _ _. v)

module _ (k : PieceKey) (s : Cache) where
  pub evict-Accounted :
      (n : ℕ) → Accounted s → lookup PieceKey_discrete k s.cache ≡ some n → Accounted (evict k s)
  unfolding evict
  evict-Accounted n v e = record {
    cache_distinct = delete-Distinct PieceKey_discrete k s.cache v.cache_distinct;
    cache_total = ground (
      arith,
      v.cache_total,
      total-delete PieceKey_discrete size_of k n s.cache v.cache_distinct e,
    );
    prefix_distinct = v.prefix_distinct;
    prefix_total = v.prefix_total;
  }

  forget_prefix-Accounted :
      (n : ℕ)
      → Accounted s
      → lookup PieceKey_discrete k s.prefix_keys ≡ some n
      → Accounted (forget_prefix k s)
  unfolding forget_prefix
  forget_prefix-Accounted n v e = record {
    cache_distinct = v.cache_distinct;
    cache_total = v.cache_total;
    prefix_distinct = delete-Distinct PieceKey_discrete k s.prefix_keys v.prefix_distinct;
    prefix_total = ground (
      arith,
      v.prefix_total,
      total-delete PieceKey_discrete size_of k n s.prefix_keys v.prefix_distinct e,
    );
  }

  pub remove_cache_entry-Accounted : Accounted s → Accounted (remove_cache_entry k s)
  unfolding remove_cache_entry
  remove_cache_entry-Accounted v =
      Option_elim Accounted (lookup PieceKey_discrete k s.cache) _ _ (λ _. v)
        (λ n e. record {
          cache_distinct = delete-Distinct PieceKey_discrete k s.cache v.cache_distinct;
          cache_total = omega (
            arith,
            v.cache_total,
            total-delete PieceKey_discrete size_of k n s.cache v.cache_distinct e,
          );
          prefix_distinct = v.prefix_distinct;
          prefix_total = v.prefix_total;
        })

  pub remove_prefix_resident-Accounted : Accounted s → Accounted (remove_prefix_resident k s)
  unfolding remove_prefix_resident
  remove_prefix_resident-Accounted v =
      Option_elim Accounted (lookup PieceKey_discrete k s.prefix_keys) _ _ (λ _. v)
        (λ n e. record {
          cache_distinct = v.cache_distinct;
          cache_total = v.cache_total;
          prefix_distinct = delete-Distinct PieceKey_discrete k s.prefix_keys v.prefix_distinct;
          prefix_total = omega (
            arith,
            v.prefix_total,
            total-delete PieceKey_discrete size_of k n s.prefix_keys v.prefix_distinct e,
          );
        })

drop_cache_loop-Accounted :
    (ih : ℕ) (rest : List (PieceKey × ℕ)) (s : Cache)
    → Accounted s
    → Distinct PieceKey_discrete rest
    → Within PieceKey_discrete rest s.cache
    → Accounted (drop_cache_loop ih rest s)
unfolding drop_cache_loop
drop_cache_loop-Accounted ih [] s v d w = v
drop_cache_loop-Accounted ih ((k, n) ∷ rest) s v d w =
    if_elim (λ t. Accounted (drop_cache_loop ih rest t)) (k.info_hash == ih) _ _
      (λ _.
        drop_cache_loop-Accounted ih rest (evict k s) (evict-Accounted k s n v w.0) d.1
          (unfold evict in Within-delete PieceKey_discrete k rest s.cache d.0 w.1))
      (λ _. drop_cache_loop-Accounted ih rest s v d.1 w.1)

drop_prefix_loop-Accounted :
    (ih : ℕ) (rest : List (PieceKey × ℕ)) (s : Cache)
    → Accounted s
    → Distinct PieceKey_discrete rest
    → Within PieceKey_discrete rest s.prefix_keys
    → Accounted (drop_prefix_loop ih rest s).0
unfolding drop_prefix_loop
drop_prefix_loop-Accounted ih [] s v d w = v
drop_prefix_loop-Accounted ih ((k, n) ∷ rest) s v d w =
    if_elim (λ t. Accounted (drop_prefix_loop ih rest t).0) (k.info_hash == ih) _ _
      (λ _.
        drop_prefix_loop-Accounted ih rest (forget_prefix k s) (forget_prefix-Accounted k s n v w.0)
          d.1
          (unfold forget_prefix in Within-delete PieceKey_discrete k rest s.prefix_keys d.0 w.1))
      (λ _. drop_prefix_loop-Accounted ih rest s v d.1 w.1)

prefix_keys-drop_cache_loop :
    (ih : ℕ) (rest : List (PieceKey × ℕ)) (s : Cache)
    → (drop_cache_loop ih rest s).prefix_keys ≡ s.prefix_keys
unfolding drop_cache_loop evict
prefix_keys-drop_cache_loop ih [] s = refl
prefix_keys-drop_cache_loop ih ((k, n) ∷ rest) s =
    prefix_keys-drop_cache_loop ih rest _
    ∙ if_elim (λ (t : Cache). t.prefix_keys ≡ s.prefix_keys) (k.info_hash == ih) _ _ (λ _. refl)
        (λ _. refl)

pub drop_bookkeeping-Accounted :
    (ih : ℕ) (s : Cache) → Accounted s → Accounted (drop_bookkeeping ih s).0
unfolding drop_bookkeeping
drop_bookkeeping-Accounted ih s v =
    let c =
      drop_cache_loop-Accounted ih s.cache s v v.cache_distinct
        (Within-self PieceKey_discrete s.cache v.cache_distinct) in
    let p =
      drop_prefix_loop-Accounted ih s.prefix_keys (drop_cache_loop ih s.cache s) c v.prefix_distinct
        (rw (prefix_keys-drop_cache_loop ih s.cache s)
          (Within-self PieceKey_discrete s.prefix_keys v.prefix_distinct)) in
    record {
      cache_distinct = p.cache_distinct;
      cache_total = p.cache_total;
      prefix_distinct = p.prefix_distinct;
      prefix_total = p.prefix_total;
    }

-- The calls of a reader leave the pieces alone.
module _ (ih id pos : ℕ) (s : Cache) (v : Accounted s) where
  pub register_reader-Accounted : Accounted (register_reader ih s).0
  unfolding register_reader
  register_reader-Accounted = record {
    cache_distinct = v.cache_distinct;
    cache_total = v.cache_total;
    prefix_distinct = v.prefix_distinct;
    prefix_total = v.prefix_total;
  }

  pub note_reader_pos-Accounted : Accounted (note_reader_pos ih id pos s)
  unfolding note_reader_pos
  note_reader_pos-Accounted =
      Option_elim Accounted (lookup ℕ_discrete ih s.readers) _ _ (λ _. v)
        (λ m _.
          Option_elim Accounted (lookup ℕ_discrete id m) _ _ (λ _. v)
            (λ _ _. record {
              cache_distinct = v.cache_distinct;
              cache_total = v.cache_total;
              prefix_distinct = v.prefix_distinct;
              prefix_total = v.prefix_total;
            }))

  pub unregister_reader-Accounted : Accounted (unregister_reader ih id s)
  unfolding unregister_reader
  unregister_reader-Accounted =
      Option_elim Accounted (lookup ℕ_discrete ih s.readers) _ _ (λ _. v)
        (λ _ _. record {
          cache_distinct = v.cache_distinct;
          cache_total = v.cache_total;
          prefix_distinct = v.prefix_distinct;
          prefix_total = v.prefix_total;
        })
