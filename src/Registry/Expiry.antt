-- ===== src/Registry/Expiry.antt =====
-- manager/registry.go: which instances and owners are left after a deregistration and after expiry.
use phimtor.Base.{
  ℕ, Bool, true, false, String, Option, none, some, List, [], ◌∷◌, lookup, ite, arith,
  String_discrete, if◌then◌else◌, ◌≡◌, refl, sym, inl, inr, Option-cases, if_elim, ◌∙◌, ap,
}
use phimtor.Base.Assoc.{delete, Distinct, lookup-delete, delete-Distinct}
use phimtor.Registry.{
  Instance, Registry, same_string, is_healthy, drop_owners, deregister, expire_one, expire_loop,
  expire_stale, owner, instance_by_id,
}

-- An entry that a test takes away.
abbrev pub unless : (ℕ → Bool) → Option ℕ → Option ℕ
unless t none = none
unless t (some p) = if t p then none else some p

-- The map that the loop leaves for the entries that it has visited.
abbrev visited : (ℕ → Bool) → Option ℕ → Option ℕ → Option ℕ
visited t none o = o
visited t (some p) o = if t p then none else o

module _ (id : String) (heap : ℕ → Instance) where
  abbrev pub named : ℕ → Bool
  named p = same_string (heap p).id id

  drop_owners-lookup :
      (hash : String) (rest owners : List (String × ℕ))
      → Distinct String_discrete rest
      → lookup String_discrete hash (drop_owners id heap rest owners)
        ≡ visited named (lookup String_discrete hash rest) (lookup String_discrete hash owners)
  unfolding drop_owners lookup
  drop_owners-lookup hash [] owners d = refl
  drop_owners-lookup hash ((h, p) ∷ rest) owners d = ground (
    arith,
    drop_owners-lookup hash rest owners d.1,
    drop_owners-lookup hash rest (delete String_discrete h owners) d.1,
    lookup-delete String_discrete h hash owners,
  )

  drop_owners-Distinct :
      (rest owners : List (String × ℕ))
      → Distinct String_discrete owners
      → Distinct String_discrete (drop_owners id heap rest owners)
  unfolding drop_owners
  drop_owners-Distinct [] owners d = d
  drop_owners-Distinct ((h, p) ∷ rest) owners d = drop_owners-Distinct rest _ (
      if_elim (λ (x : List (String × ℕ)). Distinct String_discrete x) (named p) _ _
        (λ _. delete-Distinct String_discrete h owners d) (λ _. d))

  drop_owners_lem :
      (hash : String) (owners : List (String × ℕ))
      → Distinct String_discrete owners
      → lookup String_discrete hash (drop_owners id heap owners owners)
        ≡ unless named (lookup String_discrete hash owners)
  drop_owners_lem hash owners d =
      drop_owners-lookup hash owners owners d ∙ visited_self (lookup String_discrete hash owners)
    where
      visited_self : (o : Option ℕ) → visited named o o ≡ unless named o
      visited_self none = refl
      visited_self (some p) = refl

-- The maps that the registry keeps have one entry to a key.
pub record Tables (r : Registry) : Type 0 where
  pub instances_distinct : Distinct String_discrete r.instances
  pub owners_distinct : Distinct String_discrete r.owners

-- `Deregister` takes away the id, and the torrents that it owns; every other entry stays.
pub deregister-owner :
    (id : String) (r : Registry)
    → Tables r
    → ((other : String)
        → instance_by_id other (deregister id r)
          ≡ ite (String_discrete other id) none (instance_by_id other r))
      × ((hash : String) → owner hash (deregister id r) ≡ unless (named id r.heap) (owner hash r))
unfolding deregister owner instance_by_id
deregister-owner id r t = (
  λ other. lookup-delete String_discrete id other r.instances,
  λ hash. drop_owners_lem id r.heap hash r.owners t.owners_distinct,
)

expire_one-Tables : (id : String) (r : Registry) → Tables r → Tables (expire_one id r)
unfolding expire_one
expire_one-Tables id r t = record {
  instances_distinct = delete-Distinct String_discrete id r.instances t.instances_distinct;
  owners_distinct = drop_owners-Distinct id r.heap r.owners r.owners t.owners_distinct;
}

-- An id whose entry among these has gone past its time to live.
module _ (now ttl : ℕ) (heap : ℕ → Instance) where
  abbrev pub stale_entry : Option ℕ → Bool
  stale_entry none = false
  stale_entry (some p) = if is_healthy now ttl (heap p) then false else true

  abbrev pub is_stale : List (String × ℕ) → String → Bool
  is_stale entries id = stale_entry (lookup String_discrete id entries)

abbrev drop_stale : ℕ → List (String × ℕ) → Registry → String → Option ℕ → Option ℕ
drop_stale now rest r id o = if is_stale now r.ttl r.heap rest id then none else o

-- What one pass leaves for an id and for a torrent.
record Leaves (now : ℕ) (rest : List (String × ℕ)) (r r' : Registry) : Type 0 where
  ids : (id : String) → instance_by_id id r' ≡ drop_stale now rest r id (instance_by_id id r)
  torrents :
      (hash : String)
      → owner hash r' ≡ unless (λ p. is_stale now r.ttl r.heap rest (r.heap p).id) (owner hash r)

unless-false : (o : Option ℕ) → o ≡ unless (λ _. false) o
unless-false none = refl
unless-false (some p) = refl

unless-cong : (s t : ℕ → Bool) (o : Option ℕ) → ((p : ℕ) → s p ≡ t p) → unless s o ≡ unless t o
unless-cong s t none h = refl
unless-cong s t (some p) h = rw (h p) refl

unless-unless :
    (s t u : ℕ → Bool) (o : Option ℕ)
    → ((p : ℕ) → (if s p then true else t p) ≡ u p)
    → unless t (unless s o) ≡ unless u o
unless-unless s t u none h = refl
unless-unless s t u (some p) h = ground (arith, h p)

module _ (now : ℕ) (id : String) (p : ℕ) (rest : List (String × ℕ)) (r r' : Registry)
    (absent : lookup String_discrete id rest ≡ none) where
  is_stale-healthy :
      (j : String)
      → is_healthy now r.ttl (r.heap p) ≡ true
      → is_stale now r.ttl r.heap rest j ≡ is_stale now r.ttl r.heap ((id, p) ∷ rest) j
  unfolding lookup
  is_stale-healthy j h = ground arith

  is_stale-expired :
      (j : String)
      → is_healthy now r.ttl (r.heap p) ≡ false
      → (if same_string j id then true else is_stale now r.ttl r.heap rest j)
        ≡ is_stale now r.ttl r.heap ((id, p) ∷ rest) j
  unfolding lookup
  is_stale-expired j h = ground arith

  Leaves-healthy :
      is_healthy now r.ttl (r.heap p) ≡ true
      → Leaves now rest r r'
      → Leaves now ((id, p) ∷ rest) r r'
  Leaves-healthy h l = record {
    ids = λ j. rw (sym (is_stale-healthy j h)) (l.ids j);
    torrents = λ hash.
        l.torrents hash ∙ unless-cong _ _ (owner hash r) (λ q. is_stale-healthy (r.heap q).id h);
  }

  Leaves-expired :
      Tables r
      → is_healthy now r.ttl (r.heap p) ≡ false
      → Leaves now rest (expire_one id r) r'
      → Leaves now ((id, p) ∷ rest) r r'
  unfolding expire_one instance_by_id owner
  Leaves-expired t h l = record {
    ids = λ j.
        ground
          (arith, l.ids j, is_stale-expired j h, lookup-delete String_discrete id j r.instances);
    torrents = λ hash.
        l.torrents hash
        ∙ ap (unless _) (drop_owners_lem id r.heap hash r.owners t.owners_distinct)
        ∙ unless-unless _ _ _ (lookup String_discrete hash r.owners)
            (λ q. is_stale-expired (r.heap q).id h);
  }

expire_loop-Leaves :
    (now : ℕ) (rest : List (String × ℕ)) (r : Registry)
    → Distinct String_discrete rest
    → Tables r
    → Leaves now rest r (expire_loop now rest r)
unfolding expire_loop lookup instance_by_id owner
expire_loop-Leaves now [] r d t = record {
  ids = λ j. refl;
  torrents = λ hash. unless-false (owner hash r);
}
expire_loop-Leaves now ((id, p) ∷ rest) r d t =
    if_elim (λ (x : Registry). Leaves now ((id, p) ∷ rest) r (expire_loop now rest x))
      (is_healthy now r.ttl (r.heap p)) _ _
      (λ h. Leaves-healthy now id p rest r _ d.0 h (expire_loop-Leaves now rest r d.1 t))
      (λ h.
        Leaves-expired now id p rest r _ d.0 t h
          (expire_loop-Leaves now rest (expire_one id r) d.1 (expire_one-Tables id r t)))

-- `expireStale` keeps exactly the healthy instances, and takes with each expired id the torrents
-- that it owns; a torrent of an id that is not registered stays.
pub expire_stale-instances :
    (now : ℕ) (r : Registry)
    → Tables r
    → ((id : String)
        → instance_by_id id (expire_stale now r)
          ≡ unless
              (λ p. if is_healthy now r.ttl (r.heap p) then false else true)
              (instance_by_id id r))
      × ((hash : String)
          → owner hash (expire_stale now r)
            ≡ unless (λ p. is_stale now r.ttl r.heap r.instances (r.heap p).id) (owner hash r))
unfolding expire_stale
expire_stale-instances now r t = (λ id. l.ids id ∙ own_entry id, l.torrents)
  where
    l : Leaves now r.instances r (expire_loop now r.instances r)
    l = expire_loop-Leaves now r.instances r t.instances_distinct t

    own_entry :
        (id : String)
        → drop_stale now r.instances r id (instance_by_id id r)
          ≡ unless
              (λ p. if is_healthy now r.ttl (r.heap p) then false else true)
              (instance_by_id id r)
    own_entry id =
        unfold instance_by_id in
        elim (Option-cases (lookup String_discrete id r.instances)) [
          | inl e ↦ ground arith
          | inr (p, e) ↦ ground arith
        ]
