-- ===== src/PrefixCache/Victim.antt =====
-- streamer/storage_prefixcache.go: which piece `pickVictim` chooses.
use mathlib.Core.Option
use mathlib.Core.Path.{subst, sym, ◌∙◌}
use phimtor.Base.{
  ℕ, ◌≤◌, Option, none, some, List, [], ◌∷◌, lookup, arith, ite_elim, if_elim, ◌≡◌, ◌≢◌, ◌⊎◌, inl,
  inr, true, false, refl,
}
use phimtor.PrefixCache.{
  PieceKey, PieceKey_discrete, Cache, is_pinned, eviction_score, consider, pick_loop, pick_victim,
  better,
}

-- A piece that `pickVictim` may choose beside the one just added.
abbrev pub IsEvictable : Cache → PieceKey → PieceKey → Type 0
IsEvictable s exclude k = (k ≢ exclude) × (is_pinned s k ≡ false)

-- What the loop has chosen so far is evictable and scores at least what it has seen.
abbrev Best : Cache → PieceKey → Option (PieceKey × ℕ) → PieceKey → Type 0
Best s exclude none k = ¬ IsEvictable s exclude k
Best s exclude (some (b, score)) k = IsEvictable s exclude k → eviction_score s k ≤ score

abbrev Chosen : Cache → PieceKey → Option (PieceKey × ℕ) → Type 0
Chosen s exclude none = Unit
Chosen s exclude (some (b, score)) = IsEvictable s exclude b × (score ≡ eviction_score s b)

module _ (s : Cache) (exclude k : PieceKey) (best : Option (PieceKey × ℕ)) where
  consider_cases :
      (consider s exclude k best ≡ best)
      ⊎ (consider s exclude k best ≡ some (k, eviction_score s k))
  unfolding consider
  consider_cases = ground arith

  consider-Chosen : Chosen s exclude best → Chosen s exclude (consider s exclude k best)
  unfolding consider
  consider-Chosen c =
      ite_elim (Chosen s exclude) (PieceKey_discrete k exclude) _ _ (λ _. c)
        (λ ne.
          if_elim (Chosen s exclude) (is_pinned s k) _ _ (λ _. c)
            (λ free.
              if_elim (Chosen s exclude) (better best (eviction_score s k)) _ _
                (λ _. ((ne, free), refl)) (λ _. c)))

  consider-Best : Best s exclude (consider s exclude k best) k
  unfolding consider
  consider-Best =
      ite_elim (λ b. Best s exclude b k) (PieceKey_discrete k exclude) _ _
        (λ e. unevictable best (λ h. h.0 e))
        (λ ne.
          if_elim (λ b. Best s exclude b k) (is_pinned s k) _ _ (λ pin. unevictable best (λ h. cc))
            (λ free.
              if_elim (λ b. Best s exclude b k) (better best (eviction_score s k)) _ _
                (λ _ _. omega arith) (worse best)))
    where
      unevictable : (b : Option (PieceKey × ℕ)) → ¬ IsEvictable s exclude k → Best s exclude b k
      unevictable none h = h
      unevictable (some (x, score)) h = λ e. absurd (h e)

      worse :
          (b : Option (PieceKey × ℕ)) → better b (eviction_score s k) ≡ false → Best s exclude b k
      worse none h = cc
      worse (some (x, score)) h = λ e. ground arith

  consider_keeps :
      (j : PieceKey) → Best s exclude best j → Best s exclude (consider s exclude k best) j
  unfolding consider
  consider_keeps j b =
      ite_elim (λ b'. Best s exclude b' j) (PieceKey_discrete k exclude) _ _ (λ _. b)
        (λ ne.
          if_elim (λ b'. Best s exclude b' j) (is_pinned s k) _ _ (λ _. b)
            (λ free.
              if_elim (λ b'. Best s exclude b' j) (better best (eviction_score s k)) _ _
                (beaten best b) (λ _. b)))
    where
      beaten :
          (o : Option (PieceKey × ℕ))
          → Best s exclude o j
          → better o (eviction_score s k) ≡ true
          → Best s exclude (some (k, eviction_score s k)) j
      beaten none h e = λ v. absurd (h v)
      beaten (some (x, score)) h e = λ v. ground (arith, h v)

later_entry :
    (k : PieceKey) (m : ℕ) (j : PieceKey) (rest : List (PieceKey × ℕ)) (n : ℕ)
    → lookup PieceKey_discrete j rest ≡ some n
    → (x : ℕ) × (lookup PieceKey_discrete j ((k, m) ∷ rest) ≡ some x)
unfolding lookup
later_entry k m j rest n e = elim (PieceKey_discrete j k) [
  | yes p ↦ (m, ground arith)
  | no q ↦ (n, ground arith)
]

module _ (s : Cache) (exclude : PieceKey) where
  pick_loop-Chosen :
      (l : List (PieceKey × ℕ)) (best : Option (PieceKey × ℕ))
      → Chosen s exclude best
      → Chosen s exclude (pick_loop s exclude l best)
  unfolding pick_loop
  pick_loop-Chosen [] best c = c
  pick_loop-Chosen ((k, _) ∷ rest) best c =
      pick_loop-Chosen rest (consider s exclude k best) (consider-Chosen s exclude k best c)

  pick_loop_keeps :
      (j : PieceKey) (l : List (PieceKey × ℕ)) (best : Option (PieceKey × ℕ))
      → Best s exclude best j
      → Best s exclude (pick_loop s exclude l best) j
  unfolding pick_loop
  pick_loop_keeps j [] best b = b
  pick_loop_keeps j ((k, _) ∷ rest) best b =
      pick_loop_keeps j rest (consider s exclude k best) (consider_keeps s exclude k best j b)

  pick_loop-Best :
      (l : List (PieceKey × ℕ)) (best : Option (PieceKey × ℕ)) (j : PieceKey) (n : ℕ)
      → lookup PieceKey_discrete j l ≡ some n
      → Best s exclude (pick_loop s exclude l best) j
  unfolding pick_loop lookup
  pick_loop-Best [] best j n e = cc
  pick_loop-Best ((k, m) ∷ rest) best j n e = elim (PieceKey_discrete j k) [
    | yes p ↦
        rw p (pick_loop_keeps k rest (consider s exclude k best) (consider-Best s exclude k best))
    | no q ↦ pick_loop-Best rest (consider s exclude k best) j n (ground arith)
  ]

  -- the chosen piece is one of those seen
  pick_loop-lookup :
      (l : List (PieceKey × ℕ)) (best : Option (PieceKey × ℕ)) (b : PieceKey × ℕ)
      → pick_loop s exclude l best ≡ some b
      → (best ≡ some b) ⊎ ((n : ℕ) × (lookup PieceKey_discrete b.0 l ≡ some n))
  unfolding pick_loop lookup
  pick_loop-lookup [] best b e = inl e
  pick_loop-lookup ((k, m) ∷ rest) best b e =
      elim (pick_loop-lookup rest (consider s exclude k best) b e) [
        | inl here ↦ elim (consider_cases s exclude k best) [
          | inl same ↦ inl (sym same ∙ here)
          | inr new ↦ inr (m, ground (arith, here, new))
        ]
        | inr (n, later) ↦ inr (later_entry k m b.0 rest n later)
      ]

  -- What `pickVictim` returns, against every resident piece.
  abbrev pub Picks : Option PieceKey → Type 0
  Picks none =
      (j : PieceKey) (n : ℕ)
      → lookup PieceKey_discrete j s.cache ≡ some n
      → ¬ IsEvictable s exclude j
  Picks (some v) =
      ((n : ℕ) × (lookup PieceKey_discrete v s.cache ≡ some n))
      × IsEvictable s exclude v
      × ((j : PieceKey) (n : ℕ)
          → lookup PieceKey_discrete j s.cache ≡ some n
          → IsEvictable s exclude j
          → eviction_score s j ≤ eviction_score s v)

  -- `pickVictim` finds nothing exactly when no resident piece may be evicted, and otherwise returns a
  -- resident piece that may be evicted, that is not the excluded one and is not pinned by
  -- `retainHot`, and whose score is the greatest of all such pieces, in whatever order they are visited.
  pub pick_victim-Picks : Picks (pick_victim s exclude)
  unfolding pick_victim
  pick_victim-Picks = picked (pick_loop s exclude s.cache none) refl
    where
      picked :
          (o : Option (PieceKey × ℕ))
          → pick_loop s exclude s.cache none ≡ o
          → Picks (Option.map (λ b. b.0) o)
      picked none e = λ j n h. subst (λ o. Best s exclude o j) e (pick_loop-Best s.cache none j n h)
      picked (some (v, score)) e =
          let c = subst (Chosen s exclude) e (pick_loop-Chosen s.cache none tt) in
          (
            elim (pick_loop-lookup s.cache none (v, score) e) [
              | inl impossible ↦ cc
              | inr found ↦ found
            ],
            c.0,
            λ j n h free.
                subst (λ x. eviction_score s j ≤ x) c.1
                  (subst (λ o. Best s exclude o j) e (pick_loop-Best s.cache none j n h) free),
          )
