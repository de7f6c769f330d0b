-- ===== src/Router/Tests.antt =====
-- The placement and the routing theorems at concrete streamers.
use phimtor.Base.{ℕ, String, none, some, [], ◌∷◌, ◌==◌, if◌then◌else◌}
use phimtor.Registry.{Instance}
use phimtor.Router.{least_bandwidth, Manager, Streamers, resolve_owner}
use phimtor.Router.{place_add}
use phimtor.Router.Adding.{Owned, place_add-Owned}
use phimtor.Router.Resolving.{Resolved, resolve_owner-Resolved}

abbrev loaded : String → ℕ → Instance
loaded id speed = record {
  id = id;
  internal_url = "http://in";
  public_url = "http://out";
  control_token = "ct";
  session_token = "st";
  last_seen = 40;
  self_report = "v1";
  egress_speed = speed;
}

abbrev two : ℕ → Instance
two p = if p == 0 then loaded "a" 90 else loaded "b" 20

abbrev fleet : Manager
fleet = record {
  registry = record {
    ttl = 15;
    heap = two;
    next = 2;
    instances = ("a", 0) ∷ ("b", 1) ∷ [];
    owners = ("x", 0) ∷ [];
  };
  strategy = least_bandwidth;
  turn = 0;
}

-- Only "b" holds a torrent.
abbrev answers : Streamers ℕ
answers = record {
  torrent_status = λ i hash. if i.egress_speed == 20 then some 200 else some 404;
  torrent_entry = λ i hash. none;
  metainfo = λ i hash. none;
  delete_status = λ i hash. some 204;
  add_torrent = λ i. none;
}

resolve_owner-Resolved_example :
    Resolved answers 45 "x" fleet.registry (resolve_owner answers 45 "x" fleet.registry)
resolve_owner-Resolved_example = resolve_owner-Resolved answers 45 "x" fleet.registry

place_add-Owned_example :
    Owned ((place_add answers 45 "x" fleet).0.registry, (place_add answers 45 "x" fleet).1)
place_add-Owned_example = place_add-Owned answers 45 "x" fleet
