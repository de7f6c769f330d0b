-- ===== src/Router/Placing.antt =====
-- manager/loadbalance.go: the streamer that a placement strategy picks.
use phimtor.Base.{
  ℕ, ◌≤◌, ◌<◌, ◌⊎◌, inl, inr, true, false, String, Option, none, some, List, [], ◌∷◌, All, arith,
  length, suc, zero, ◌%◌, ◌≡◌, refl, if_elim,
}
use phimtor.Registry.{Instance, healthy_instances, owner_counts}
use phimtor.Router.{
  less_loaded, count_of, pick_bandwidth, pick_torrents, fewer_torrents, nth, pick_round, pick,
  pick_instance, pick_from, Strategy, least_torrents, least_bandwidth, round_robin, Manager,
}

-- No more torrents.
abbrev pub AtMost : (ℕ → Instance) → List (String × ℕ) → ℕ → ℕ → Type 0
AtMost heap counts p q = count_of counts (heap p) ≤ count_of counts (heap q)

-- Less egress, or as much and no more torrents.
abbrev pub Lighter : (ℕ → Instance) → List (String × ℕ) → ℕ → ℕ → Type 0
Lighter heap counts p q =
    ((heap p).egress_speed < (heap q).egress_speed)
    ⊎ (((heap p).egress_speed ≡ (heap q).egress_speed) × AtMost heap counts p q)

abbrev pub OneOf : ℕ → List ℕ → Type 0
OneOf p [] = ⊥
OneOf p (q ∷ qs) = (p ≡ q) ⊎ OneOf p qs

-- The choice is one of the candidates, and at most each of them.
abbrev pub Best : (ℕ → ℕ → Type 0) → ℕ → List ℕ → Type 0
Best R p ps = OneOf p ps × All (R p) ps

module _ (heap : ℕ → Instance) (counts : List (String × ℕ)) where
  pick_torrents-OneOf :
      (best : ℕ) (ps : List ℕ) → OneOf (pick_torrents heap counts best ps) (best ∷ ps)
  unfolding pick_torrents
  pick_torrents-OneOf best [] = inl refl
  pick_torrents-OneOf best (p ∷ ps) =
      if_elim (λ (x : ℕ). OneOf (pick_torrents heap counts x ps) (best ∷ p ∷ ps))
        (fewer_torrents heap counts p best) _ _ (λ _. inr (pick_torrents-OneOf p ps))
        (λ _. elim (pick_torrents-OneOf best ps) [ inl e ↦ inl e | inr m ↦ inr (inr m) ])

  pick_torrents-AtMost :
      (best : ℕ) (ps : List ℕ)
      → All (AtMost heap counts (pick_torrents heap counts best ps)) (best ∷ ps)
  unfolding pick_torrents fewer_torrents
  pick_torrents-AtMost best [] = (omega arith, tt)
  pick_torrents-AtMost best (p ∷ ps) =
      if_elim (λ (x : ℕ). All (AtMost heap counts (pick_torrents heap counts x ps)) (best ∷ p ∷ ps))
        (fewer_torrents heap counts p best) _ _
        (λ h. let (l, rest) = pick_torrents-AtMost p ps in (ground arith, (l, rest)))
        (λ h. let (l, rest) = pick_torrents-AtMost best ps in (l, (ground arith, rest)))

  -- `leastTorrents` picks one of the instances, and none of them owns fewer torrents.
  pub pick_torrents-Best :
      (first : ℕ) (others : List ℕ)
      → Best (AtMost heap counts) (pick_torrents heap counts first others) (first ∷ others)
  pick_torrents-Best first others =
      (pick_torrents-OneOf first others, pick_torrents-AtMost first others)

  Lighter-trans :
      (p q s : ℕ) → Lighter heap counts p q → Lighter heap counts q s → Lighter heap counts p s
  Lighter-trans p q s a b = grind arith

  less_loaded-Lighter :
      (p q : ℕ) → less_loaded (heap p) (heap q) counts ≡ true → Lighter heap counts p q
  unfolding less_loaded
  less_loaded-Lighter p q h = ground arith

  not_less_loaded-Lighter :
      (p q : ℕ) → less_loaded (heap p) (heap q) counts ≡ false → Lighter heap counts q p
  unfolding less_loaded
  not_less_loaded-Lighter p q h = ground arith

  pick_bandwidth-OneOf :
      (best : ℕ) (ps : List ℕ) → OneOf (pick_bandwidth heap counts best ps) (best ∷ ps)
  unfolding pick_bandwidth
  pick_bandwidth-OneOf best [] = inl refl
  pick_bandwidth-OneOf best (p ∷ ps) =
      if_elim (λ (x : ℕ). OneOf (pick_bandwidth heap counts x ps) (best ∷ p ∷ ps))
        (less_loaded (heap p) (heap best) counts) _ _ (λ _. inr (pick_bandwidth-OneOf p ps))
        (λ _. elim (pick_bandwidth-OneOf best ps) [ inl e ↦ inl e | inr m ↦ inr (inr m) ])

  pick_bandwidth-Lighter :
      (best : ℕ) (ps : List ℕ)
      → All (Lighter heap counts (pick_bandwidth heap counts best ps)) (best ∷ ps)
  unfolding pick_bandwidth
  pick_bandwidth-Lighter best [] = (inr (refl, omega arith), tt)
  pick_bandwidth-Lighter best (p ∷ ps) =
      if_elim
        (λ (x : ℕ). All (Lighter heap counts (pick_bandwidth heap counts x ps)) (best ∷ p ∷ ps))
        (less_loaded (heap p) (heap best) counts) _ _
        (λ h.
          let (l, rest) = pick_bandwidth-Lighter p ps in
          (Lighter-trans _ p best l (less_loaded-Lighter p best h), (l, rest)))
        (λ h.
          let (l, rest) = pick_bandwidth-Lighter best ps in
          (l, (Lighter-trans _ best p l (not_less_loaded-Lighter p best h), rest)))

  -- `leastBandwidth` picks one of the instances, and none of them serves less egress, or as much with
  -- fewer torrents.
  pub pick_bandwidth-Best :
      (first : ℕ) (others : List ℕ)
      → Best (Lighter heap counts) (pick_bandwidth heap counts first others) (first ∷ others)
  pick_bandwidth-Best first others =
      (pick_bandwidth-OneOf first others, pick_bandwidth-Lighter first others)

nth-OneOf : (first n : ℕ) (ps : List ℕ) → n < length ps → OneOf (nth first n ps) ps
nth-OneOf first n [] h = omega arith
nth-OneOf first zero (p ∷ ps) h = inl refl
nth-OneOf first (suc n) (p ∷ ps) h = inr (nth-OneOf first n ps (omega arith))

mod_lt : (turn n : ℕ) → turn % suc n < suc n
mod_lt turn n = omega arith

pick-OneOf :
    (s : Strategy) (turn : ℕ) (heap : ℕ → Instance) (counts : List (String × ℕ)) (first : ℕ)
    (others : List ℕ)
    → OneOf (pick s turn heap counts first others) (first ∷ others)
unfolding pick pick_round
pick-OneOf least_torrents turn heap counts first others =
    pick_torrents-OneOf heap counts first others
pick-OneOf least_bandwidth turn heap counts first others =
    pick_bandwidth-OneOf heap counts first others
pick-OneOf round_robin turn heap counts first others =
    nth-OneOf first _ (first ∷ others) (mod_lt turn (length others))

abbrev pub SomeOf : Option ℕ → List ℕ → Type 0
SomeOf none ps = ps ≡ []
SomeOf (some p) ps = OneOf p ps

-- `pickInstance` picks one of the healthy instances under every strategy and at every turn, and
-- nothing only if there is none.
pub pick_instance-SomeOf :
    (now : ℕ) (m : Manager) → SomeOf (pick_instance now m).1 (healthy_instances now m.registry)
unfolding pick_instance pick_from
pick_instance-SomeOf now m = pick_from-SomeOf (healthy_instances now m.registry)
  where
    pick_from-SomeOf : (ps : List ℕ) → SomeOf (pick_from m ps).1 ps
    pick_from-SomeOf [] = refl
    pick_from-SomeOf (first ∷ others) =
        pick-OneOf m.strategy m.turn m.registry.heap (owner_counts m.registry) first others
