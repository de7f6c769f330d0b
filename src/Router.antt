-- ===== src/Router.antt =====
-- manager/loadbalance.go, manager/router.go: which streamer a new torrent goes to, and where the
-- requests about a torrent are sent. A torrent's entry is an argument type; what the streamers answer
-- during one request, and the reading of a magnet link, are arguments.
pub mod Placing
pub mod Resolving
pub mod Adding
mod Tests
use Prim.Native.Nat.{Ordering, ◌%◌}
use Prim.Native.String.{compare as compare_string}
use phimtor.Base.{
  ℕ, ◌+◌, ◌^◌, Bool, true, false, ◌&&◌, not, String, Option, none, some, List, [], ◌∷◌, lookup, ltb,
  ◌==◌, length, suc, zero, String_discrete, if◌then◌else◌,
}
use phimtor.Registry.{
  Instance, Registry, or_zero, same_string, is_empty, is_healthy, healthy_instances, owner_counts,
  owner, set_owner, clear_owner, instance_by_id,
}

pub data Strategy : Type 0 where
  least_torrents : Strategy
  least_bandwidth : Strategy
  round_robin : Strategy

abbrev pub before : String → String → Bool
before a b = elim (compare_string a b) [ Ordering.lt ↦ true | _ ↦ false ]

abbrev pub count_of : List (String × ℕ) → Instance → ℕ
count_of counts i = or_zero (lookup String_discrete i.id counts)

pub less_loaded : Instance → Instance → List (String × ℕ) → Bool
less_loaded a b counts =
    if a.egress_speed == b.egress_speed
    then (if count_of counts a == count_of counts b
        then before a.id b.id
        else ltb (count_of counts a) (count_of counts b))
    else ltb a.egress_speed b.egress_speed

-- `leastBandwidth.Pick` from the best so far.
pub pick_bandwidth : (ℕ → Instance) → List (String × ℕ) → ℕ → List ℕ → ℕ
pick_bandwidth heap counts best [] = best
pick_bandwidth heap counts best (p ∷ ps) =
    pick_bandwidth heap counts (if less_loaded (heap p) (heap best) counts then p else best) ps

pub fewer_torrents : (ℕ → Instance) → List (String × ℕ) → ℕ → ℕ → Bool
fewer_torrents heap counts p best =
    if ltb (count_of counts (heap p)) (count_of counts (heap best))
    then true
    else count_of counts (heap p) == count_of counts (heap best)
      && before (heap p).id (heap best).id

-- `leastTorrents.Pick` from the best so far; `bestCount` is always the count of the best.
pub pick_torrents : (ℕ → Instance) → List (String × ℕ) → ℕ → List ℕ → ℕ
pick_torrents heap counts best [] = best
pick_torrents heap counts best (p ∷ ps) =
    pick_torrents heap counts (if fewer_torrents heap counts p best then p else best) ps

abbrev pub nth : ℕ → ℕ → List ℕ → ℕ
nth default n [] = default
nth default zero (p ∷ ps) = p
nth default (suc n) (p ∷ ps) = nth default n ps

-- `roundRobin.Pick`: the 64-bit counter goes up by one, and the old value chooses. The instances are
-- the first one and the others.
pub pick_round : ℕ → ℕ → List ℕ → ℕ
pick_round turn first others = nth first (turn % suc (length others)) (first ∷ others)

pub next_turn : ℕ → ℕ
next_turn turn = (turn + 1) % 2 ^ 64

pub pick : Strategy → ℕ → (ℕ → Instance) → List (String × ℕ) → ℕ → List ℕ → ℕ
pick least_torrents turn heap counts first others = pick_torrents heap counts first others
pick least_bandwidth turn heap counts first others = pick_bandwidth heap counts first others
pick round_robin turn heap counts first others = pick_round turn first others

-- The manager: its registry, the strategy, and the turn that round robin is at.
pub record Manager : Type 0 where
  pub registry : Registry
  pub strategy : Strategy
  pub turn : ℕ

abbrev pub turn_after : Strategy → ℕ → ℕ
unfolding next_turn
turn_after round_robin turn = next_turn turn
turn_after least_torrents turn = turn
turn_after least_bandwidth turn = turn

pub pick_from : Manager → List ℕ → Manager × Option ℕ
pick_from m [] = (m, none)
pick_from m (first ∷ others) = (
  record m { turn = turn_after m.strategy m.turn },
  some (pick m.strategy m.turn m.registry.heap (owner_counts m.registry) first others),
)

pub pick_instance : ℕ → Manager → Manager × Option ℕ
unfolding pick_from
pick_instance now m = pick_from m (healthy_instances now m.registry)

-- What the streamers answer: a status, and a body where one is read; none stands for no response.
pub record Streamers (Entry : Type 0) : Type 0 where
  pub torrent_status : Instance → String → Option ℕ
  pub torrent_entry : Instance → String → Option Entry
  pub metainfo : Instance → String → Option (ℕ × Option String)
  pub delete_status : Instance → String → Option ℕ
  pub add_torrent : Instance → Option (ℕ × Option String)

-- The result of an add: the infohash and the streamer's public URL, or the error.
pub data Added : Type 0 where
  placed : String → String → Added
  no_instance : Added
  instance_not_found : Added
  no_response : Added
  add_failed : ℕ → Added
  no_infohash : Added

abbrev pub is_success : ℕ → Bool
is_success status = not (ltb status 200) && ltb status 300

module _ {Entry : Type 0} (w : Streamers Entry) where
  pub instance_has : Instance → String → Bool
  instance_has i hash = elim (w.torrent_status i hash) [
    | none ↦ false
    | some status ↦ status == 200
  ]

  pub probe : (ℕ → Instance) → String → List ℕ → Option ℕ
  unfolding instance_has
  probe heap hash [] = none
  probe heap hash (p ∷ ps) =
      let rest = probe heap hash ps in if instance_has (heap p) hash then some p else rest

  pub re_resolve : ℕ → String → Registry → Registry × Option ℕ
  re_resolve now hash r = elim (probe r.heap hash (healthy_instances now r)) [
    | none ↦ (clear_owner hash r, none)
    | some p ↦ (set_owner hash p r, some p)
  ]

  pub resolve_owner : ℕ → String → Registry → Registry × Option ℕ
  resolve_owner now hash r = elim (owner hash r) [
    | none ↦ re_resolve now hash r
    | some p ↦
        if is_healthy now r.ttl (r.heap p) && instance_has (r.heap p) hash
        then (r, some p)
        else re_resolve now hash r
  ]

  pub get_torrent : ℕ → String → Registry → Registry × Option (Entry × String)
  get_torrent now hash r =
      let (r', o) = resolve_owner now hash r in
      elim o [
        | none ↦ (r', none)
        | some p ↦ elim (w.torrent_entry (r'.heap p) hash) [
          | none ↦ (clear_owner hash r', none)
          | some entry ↦ (r', some (entry, (r'.heap p).public_url))
        ]
      ]

  abbrev pub metainfo_answer : Option (ℕ × Option String) → Option String × ℕ
  metainfo_answer none = (none, 502)
  metainfo_answer (some (status, body)) =
      if status == 200
      then elim body [ none ↦ (none, 502) | some bytes ↦ (some bytes, 200) ]
      else (none, status)

  -- At most `maxAddBody` bytes are read: the cut is part of the answer.
  pub get_metainfo : ℕ → String → Registry → Registry × (Option String × ℕ)
  get_metainfo now hash r =
      let (r', o) = resolve_owner now hash r in
      elim o [
        | none ↦ (r', (none, 404))
        | some p ↦ (r', metainfo_answer (w.metainfo (r'.heap p) hash))
      ]

  abbrev pub is_deleted : ℕ → Bool
  is_deleted status = if status == 404 then true else is_success status

  -- True stands for no error.
  pub delete_torrent : ℕ → String → Registry → Registry × Bool
  delete_torrent now hash r =
      let (r', o) = resolve_owner now hash r in
      elim o [
        | none ↦ (r', true)
        | some p ↦ elim (w.delete_status (r'.heap p) hash) [
          | none ↦ (r', false)
          | some status ↦ (clear_owner hash r', is_deleted status)
        ]
      ]

  pub add_decoded : ℕ → Option String → Registry → Registry × Added
  add_decoded p none r = (r, no_infohash)
  add_decoded p (some hash) r =
      if is_empty hash
      then (r, no_infohash)
      else (set_owner hash p r, placed hash (r.heap p).public_url)

  pub add_via : ℕ → Registry → Registry × Added
  unfolding add_decoded
  add_via p r = elim (w.add_torrent (r.heap p)) [
    | none ↦ (r, no_response)
    | some (status, body) ↦
        if is_success status then add_decoded p body r else (r, add_failed status)
  ]

  -- `magnet` is the infohash that `infohashFromMagnet` reads, empty where it reads none.
  pub dedupe_add : ℕ → String → Registry → Option Added
  dedupe_add now magnet r = if is_empty magnet then none else elim (owner magnet r) [
    | none ↦ none
    | some p ↦
        if is_healthy now r.ttl (r.heap p) then some (placed magnet (r.heap p).public_url) else none
  ]

  pub place_add : ℕ → String → Manager → Manager × Added
  place_add now magnet m = elim (dedupe_add now magnet m.registry) [
    | some a ↦ (m, a)
    | none ↦
        let (m', o) = pick_instance now m in
        elim o [
          | none ↦ (m', no_instance)
          | some p ↦ let (r', a) = add_via p m'.registry in (record m' { registry = r' }, a)
        ]
  ]

  -- The instance owns the infohash already, and is healthy.
  pub owns_already : ℕ → String → ℕ → Registry → Bool
  owns_already now magnet p r = if is_empty magnet then false else elim (owner magnet r) [
    | none ↦ false
    | some q ↦ same_string (r.heap q).id (r.heap p).id && is_healthy now r.ttl (r.heap q)
  ]

  pub add_to_instance : ℕ → String → String → Registry → Registry × Added
  add_to_instance now id magnet r = elim (instance_by_id id r) [
    | none ↦ (r, instance_not_found)
    | some p ↦
        if is_healthy now r.ttl (r.heap p)
        then (if owns_already now magnet p r
            then (r, placed magnet (r.heap p).public_url)
            else add_via p r)
        else (r, instance_not_found)
  ]
