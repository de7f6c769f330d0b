-- ===== src/Router/Adding.antt =====
-- manager/router.go: what an add leaves in the owner map.
use phimtor.Base.{ℕ, String, Option, none, some, arith, ◌≡◌, refl, subst, if_elim, Option_elim}
use phimtor.Registry.{Registry, is_healthy, is_empty, owner}
use phimtor.Registry.Owners.{owner-set_owner, heap-set_owner}
use phimtor.Router.{
  Streamers, Manager, Added, placed, no_instance, instance_not_found, no_response, add_failed,
  no_infohash, is_success, add_via, add_decoded, dedupe_add, place_add, pick_instance,
}

-- A torrent that is answered as placed has an owner in the map, and the answer is that owner's
-- public URL.
abbrev pub Owned : Registry × Added → Type 0
Owned (r, placed hash url) = (p : ℕ) × ((owner hash r ≡ some p) × ((r.heap p).public_url ≡ url))
Owned (r, no_instance) = Unit
Owned (r, instance_not_found) = Unit
Owned (r, no_response) = Unit
Owned (r, add_failed _) = Unit
Owned (r, no_infohash) = Unit

module _ {Entry : Type 0} (w : Streamers Entry) where
  add_decoded-Owned : (p : ℕ) (body : Option String) (r : Registry) → Owned (add_decoded w p body r)
  unfolding add_decoded
  add_decoded-Owned p none r = tt
  add_decoded-Owned p (some hash) r =
      if_elim Owned (is_empty hash) _ _ (λ _. tt)
        (λ _.
          (p, (ground (arith, owner-set_owner hash hash p r), rw (heap-set_owner hash p r) refl)))

  add_via-Owned : (p : ℕ) (r : Registry) → Owned (add_via w p r)
  unfolding add_via
  add_via-Owned p r =
      Option_elim Owned (w.add_torrent (r.heap p)) _ _ (λ _. tt)
        (λ x _. if_elim Owned (is_success x.0) _ _ (λ _. add_decoded-Owned p x.1 r) (λ _. tt))

  -- The answer of a lookup, if there is one.
  abbrev OwnedIf : Registry → Option Added → Type 0
  OwnedIf r none = Unit
  OwnedIf r (some a) = Owned (r, a)

  dedupe_add-Owned :
      (now : ℕ) (magnet : String) (r : Registry) → OwnedIf r (dedupe_add w now magnet r)
  unfolding dedupe_add
  dedupe_add-Owned now magnet r =
      if_elim (OwnedIf r) (is_empty magnet) _ _ (λ _. tt)
        (λ _.
          Option_elim (OwnedIf r) (owner magnet r) _ _ (λ _. tt)
            (λ p e.
              if_elim (OwnedIf r) (is_healthy now r.ttl (r.heap p)) _ _ (λ _. (p, (e, refl)))
                (λ _. tt)))

  -- Whatever `placeAdd` answers as placed, newly or as a torrent held already, has an owner in the
  -- map, and the public URL of the answer is that owner's.
  pub place_add-Owned :
      (now : ℕ) (magnet : String) (m : Manager)
      → Owned ((place_add w now magnet m).0.registry, (place_add w now magnet m).1)
  unfolding place_add
  place_add-Owned now magnet m =
      Option_elim OwnedAfter (dedupe_add w now magnet m.registry) _ _
        (λ _.
          Option_elim OwnedAfter (pick_instance now m).1 _ _ (λ _. tt)
            (λ p _. add_via-Owned p (pick_instance now m).0.registry))
        (λ a e. subst (OwnedIf m.registry) e (dedupe_add-Owned now magnet m.registry))
    where
      OwnedAfter : Manager × Added → Type 0
      OwnedAfter x = Owned (x.0.registry, x.1)
