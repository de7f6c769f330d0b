-- ===== src/PrefixCache/Scores.antt =====
-- streamer/storage_prefixcache.go: `evictionScore`, and the order in which pieces are evicted.
use mathlib.Core.Path.{subst}
use phimtor.Base.{
  ℕ, ◌+◌, ◌-◌, ◌<◌, ◌≤◌, some, List, [], ◌∷◌, lookup, ltb, ℕ_discrete, dec_lt, if◌then◌else◌, arith,
  All, ◌≡◌, refl, if_elim,
}
use phimtor.PrefixCache.{
  PieceKey, PieceKey_discrete, Cache, readers_of, reader_score, least_score, score_among,
  eviction_score, pick_victim, score_behind_base, score_inactive_base,
}
use phimtor.PrefixCache.Victim.{Picks, IsEvictable, pick_victim-Picks}

least_score-le-best : (i best : ℕ) (rs : List (ℕ × ℕ)) → least_score i best rs ≤ best
unfolding least_score
least_score-le-best i best [] = omega arith
least_score-le-best i best ((_, r) ∷ rs) =
    if_elim (λ b. least_score i b rs ≤ best) (ltb (reader_score i r) best) _ _
      (λ h. ground (arith, least_score-le-best i (reader_score i r) rs))
      (λ _. least_score-le-best i best rs)

least_score-le :
    (i best id r : ℕ) (rs : List (ℕ × ℕ))
    → lookup ℕ_discrete id rs ≡ some r
    → least_score i best rs ≤ reader_score i r
unfolding least_score lookup
least_score-le i best id r [] e = cc
least_score-le i best id r ((x, q) ∷ rs) e = elim (ℕ_discrete id x) [
  | yes p ↦
      if_elim (λ b. least_score i b rs ≤ reader_score i r) (ltb (reader_score i q) best) _ _
        (λ h. ground (arith, least_score-le-best i (reader_score i q) rs))
        (λ h. ground (arith, least_score-le-best i best rs))
  | no n ↦
      least_score-le i (if ltb (reader_score i q) best then reader_score i q else best) id r rs
        (ground arith)
]

-- A bound that every reader's score meets is met by the least.
least_score_above :
    (i best low : ℕ) (rs : List (ℕ × ℕ))
    → low ≤ best
    → All (λ e. low ≤ reader_score i e.1) rs
    → low ≤ least_score i best rs
unfolding least_score
least_score_above i best low [] h a = h
least_score_above i best low ((_, r) ∷ rs) h a =
    if_elim (λ b. low ≤ least_score i b rs) (ltb (reader_score i r) best) _ _
      (λ _. least_score_above i (reader_score i r) low rs a.0 a.1)
      (λ _. least_score_above i best low rs h a.1)

-- A piece at or ahead of some reader scores at most its distance from that reader.
score_among_ahead :
    (i id r : ℕ) (rs : List (ℕ × ℕ))
    → lookup ℕ_discrete id rs ≡ some r
    → r ≤ i
    → score_among i rs ≤ i - r
unfolding score_among lookup
score_among_ahead i id r [] e h = cc
score_among_ahead i id r ((x, q) ∷ rs) e h = elim (ℕ_discrete id x) [
  | yes p ↦ ground (arith, least_score-le-best i (reader_score i q) rs)
  | no n ↦ ground (arith, least_score-le i (reader_score i q) id r rs)
]

abbrev pub IsBehind : ℕ → ℕ × ℕ → Type 0
IsBehind i e = i < e.1

scores-behind :
    (i : ℕ) (rs : List (ℕ × ℕ))
    → All (IsBehind i) rs
    → All (λ e. score_behind_base ≤ reader_score i e.1) rs
unfolding reader_score
scores-behind i [] a = tt
scores-behind i ((_, r) ∷ rs) a = (ground arith, scores-behind i rs a.1)

-- A piece behind every reader scores from `scoreBehindBase` on, and so does one without readers.
score_among_behind :
    (i : ℕ) (rs : List (ℕ × ℕ)) → All (IsBehind i) rs → score_behind_base ≤ score_among i rs
unfolding score_among
score_among_behind i [] a = omega arith
score_among_behind i ((x, r) ∷ rs) a =
    let b = scores-behind i ((x, r) ∷ rs) a in
    least_score_above i (reader_score i r) score_behind_base rs b.0 b.1

-- With a reader, and fewer than 2^20 pieces, a score stays below `scoreInactiveBase`.
score_among-lt :
    (i : ℕ) (e : ℕ × ℕ) (rs : List (ℕ × ℕ))
    → i < score_behind_base
    → e.1 < score_behind_base
    → score_among i (e ∷ rs) < score_inactive_base
unfolding score_among
score_among-lt i (x, r) rs h g = ground (arith, least_score-le-best i (reader_score i r) rs)

-- `pickVictim` keeps what a reader is about to play while anything else can go: if some resident,
-- evictable piece belongs to a torrent without readers or lies behind every reader of its torrent,
-- then the victim is at or ahead of no reader of its own torrent, for piece indices below 2^20.
pub victim_not_ahead :
    (s : Cache) (key v j : PieceKey) (n id r : ℕ)
    → pick_victim s key ≡ some v
    → lookup PieceKey_discrete j s.cache ≡ some n
    → IsEvictable s key j
    → All (IsBehind j.index) (readers_of s j.info_hash)
    → v.index < score_behind_base
    → lookup ℕ_discrete id (readers_of s v.info_hash) ≡ some r
    → v.index < r
unfolding eviction_score
victim_not_ahead s key v j n id r e held free behind small reader = elim (dec_lt v.index r) [
  | yes h ↦ h
  | no h ↦
      let p : Picks s key (some v) = subst (Picks s key) e (pick_victim-Picks s key) in
      absurd (
        omega (
          arith,
          p.2 j n held free,
          score_among_behind j.index (readers_of s j.info_hash) behind,
          score_among_ahead v.index id r (readers_of s v.info_hash) reader (omega arith),
        ))
]

-- `pickVictim` takes a piece of a torrent without readers while there is an evictable one, for piece
-- indices and playheads below 2^20.
pub victim_inactive_first :
    (s : Cache) (key v j : PieceKey) (n : ℕ)
    → pick_victim s key ≡ some v
    → lookup PieceKey_discrete j s.cache ≡ some n
    → IsEvictable s key j
    → readers_of s j.info_hash ≡ []
    → v.index < score_behind_base
    → All (λ e. e.1 < score_behind_base) (readers_of s v.info_hash)
    → readers_of s v.info_hash ≡ []
unfolding eviction_score
victim_inactive_first s key v j n e held free idle small heads =
    no_readers (readers_of s v.info_hash) heads (rw (← idle_score) (best.2 j n held free))
  where
    best : Picks s key (some v)
    best = subst (Picks s key) e (pick_victim-Picks s key)

    idle_score : eviction_score s j ≡ score_inactive_base + j.index
    idle_score = unfold score_among in rw idle

    no_readers :
        (rs : List (ℕ × ℕ))
        → All (λ e. e.1 < score_behind_base) rs
        → score_inactive_base + j.index ≤ score_among v.index rs
        → rs ≡ []
    no_readers [] a h = refl
    no_readers (x ∷ rs) a h = absurd (omega (arith, score_among-lt v.index x rs small a.0))
