-- ===== src/Router/Resolving.antt =====
-- manager/router.go: the streamer that a request about a torrent goes to.
use phimtor.Base.{
  ℕ, true, false, ◌&&◌, String, Option, none, some, List, [], ◌∷◌, All, arith, ◌≡◌, subst, if_elim,
  Option_elim,
}
use phimtor.Registry.{Instance, Registry, is_healthy, healthy_instances, owner}
use phimtor.Registry.Owners.{owner-set_owner, owner-clear_owner}
use phimtor.Registry.Health.{healthy_instances-All}
use phimtor.Router.{Streamers, instance_has, probe, re_resolve, resolve_owner}

module _ {Entry : Type 0} (w : Streamers Entry) where
  -- A healthy streamer that answers that it holds the torrent, and the map says so; or no healthy
  -- streamer does, and the map has no owner.
  abbrev pub Resolved : ℕ → String → Registry → Registry × Option ℕ → Type 0
  Resolved now hash r (r', some p) =
      (is_healthy now r.ttl (r.heap p) ≡ true)
      × ((instance_has w (r.heap p) hash ≡ true) × (owner hash r' ≡ some p))
  Resolved now hash r (r', none) =
      All (λ p. instance_has w (r.heap p) hash ≡ false) (healthy_instances now r)
      × (owner hash r' ≡ none)

  -- What a probe of the instances finds.
  abbrev Probed : (ℕ → Instance) → String → ℕ → ℕ → List ℕ → Option ℕ → Type 0
  Probed heap hash now ttl ps none = All (λ p. instance_has w (heap p) hash ≡ false) ps
  Probed heap hash now ttl ps (some p) =
      (is_healthy now ttl (heap p) ≡ true) × (instance_has w (heap p) hash ≡ true)

  probe-Probed :
      (heap : ℕ → Instance) (hash : String) (now ttl : ℕ) (ps : List ℕ)
      → All (λ p. is_healthy now ttl (heap p) ≡ true) ps
      → Probed heap hash now ttl ps (probe w heap hash ps)
  unfolding probe
  probe-Probed heap hash now ttl [] h = tt
  probe-Probed heap hash now ttl (p ∷ ps) h =
      if_elim (Probed heap hash now ttl (p ∷ ps)) (instance_has w (heap p) hash) _ _ (λ e. (h.0, e))
        (λ e. absent e (probe w heap hash ps) (probe-Probed heap hash now ttl ps h.1))
    where
      absent :
          instance_has w (heap p) hash ≡ false
          → (o : Option ℕ) → Probed heap hash now ttl ps o
          → Probed heap hash now ttl (p ∷ ps) o
      absent e none b = (e, b)
      absent e (some q) b = b

  re_resolve-Resolved :
      (now : ℕ) (hash : String) (r : Registry) → Resolved now hash r (re_resolve w now hash r)
  unfolding re_resolve
  re_resolve-Resolved now hash r =
      Option_elim (Resolved now hash r) (probe w r.heap hash (healthy_instances now r)) _ _
        (λ e. (
          subst (Probed r.heap hash now r.ttl (healthy_instances now r)) e found,
          ground (arith, owner-clear_owner hash hash r),
        ))
        (λ p e.
          let (a, b) = found_some p e in (a, (b, ground (arith, owner-set_owner hash hash p r))))
    where
      found :
          Probed r.heap hash now r.ttl
            (healthy_instances now r)
            (probe w r.heap hash (healthy_instances now r))
      found =
          probe-Probed r.heap hash now r.ttl (healthy_instances now r) (healthy_instances-All now r)

      found_some :
          (p : ℕ)
          → probe w r.heap hash (healthy_instances now r) ≡ some p
          → Probed r.heap hash now r.ttl (healthy_instances now r) (some p)
      found_some p e = subst (Probed r.heap hash now r.ttl (healthy_instances now r)) e found

  -- `resolveOwner` ends with a healthy streamer that answers that it holds the torrent, and then the
  -- map has it as the owner, or with no owner in the map, and then no healthy streamer holds the torrent.
  pub resolve_owner-Resolved :
      (now : ℕ) (hash : String) (r : Registry) → Resolved now hash r (resolve_owner w now hash r)
  unfolding resolve_owner
  resolve_owner-Resolved now hash r =
      Option_elim (Resolved now hash r) (owner hash r) _ _ (λ _. re_resolve-Resolved now hash r)
        (λ p e.
          if_elim (Resolved now hash r)
            (is_healthy now r.ttl (r.heap p) && instance_has w (r.heap p) hash) _ _
            (λ h. (ground arith, (ground arith, e))) (λ _. re_resolve-Resolved now hash r))
