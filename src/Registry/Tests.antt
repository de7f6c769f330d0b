-- ===== src/Registry/Tests.antt =====
-- The registry's theorems at concrete registries.
use phimtor.Base.{
  ℕ, true, false, String, [], ◌∷◌, ◌==◌, lookup, String_discrete, if◌then◌else◌, ◌≡◌, refl, arith,
}
use phimtor.Registry.{
  Instance, Registry, expire_stale, rebuild_owners, owner, instance_by_id, is_healthy,
}
use phimtor.Registry.Sessions.{Named}
use phimtor.Registry.Expiry.{Tables, unless, is_stale, expire_stale-instances}
use phimtor.Registry.Rebuild.{first_of, kept, rebuild_owners-owner}

abbrev streamer : String → ℕ → Instance
streamer id seen = record {
  id = id;
  internal_url = "http://in";
  public_url = "http://out";
  control_token = "ct";
  session_token = "st";
  last_seen = seen;
  self_report = "v1";
  egress_speed = 0;
}

-- Two streamers, the second silent since 10.
abbrev demo : Registry
demo = record {
  ttl = 15;
  heap = λ p. if p == 0 then streamer "a" 40 else streamer "b" 10;
  next = 2;
  instances = ("a", 0) ∷ ("b", 1) ∷ [];
  owners = ("x", 0) ∷ ("y", 1) ∷ [];
}

demo-Tables : Tables demo
unfolding lookup String_discrete
demo-Tables = record {
  instances_distinct = (refl, (refl, tt));
  owners_distinct = (refl, (refl, tt));
}

demo-Named : Named demo
unfolding lookup
demo-Named = record { id_of = λ id p e. ground arith; allocated = λ id p e. ground arith }

expire_stale-instances_example :
    ((id : String)
      → instance_by_id id (expire_stale 45 demo)
        ≡ unless
            (λ p. if is_healthy 45 demo.ttl (demo.heap p) then false else true)
            (instance_by_id id demo))
    × ((hash : String)
        → owner hash (expire_stale 45 demo)
          ≡ unless
              (λ p. is_stale 45 demo.ttl demo.heap demo.instances (demo.heap p).id)
              (owner hash demo))
expire_stale-instances_example = expire_stale-instances 45 demo demo-Tables

rebuild_owners-owner_example :
    owner "y" (rebuild_owners (("x", 0) ∷ []) (("b", true) ∷ []) demo)
    ≡ first_of
        (lookup String_discrete "y" (("x", 0) ∷ []))
        (kept (("b", true) ∷ []) demo.heap (owner "y" demo))
rebuild_owners-owner_example =
    rebuild_owners-owner (("x", 0) ∷ []) (("b", true) ∷ []) demo "y" demo-Tables.owners_distinct
