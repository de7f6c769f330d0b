-- ===== src/Registry.antt =====
-- manager/registry.go, manager/instance.go: the live streamers and the owner of each torrent. The maps
-- hold pointers, so an instance that registers anew leaves its old object to the owner map: `heap` is
-- the objects, and a pointer is a number below `next`. Times are integers; the clock, the random
-- session token and what a streamer answers are arguments.
pub mod Sessions
pub mod Expiry
pub mod Rebuild
pub mod Health
pub mod Owners
mod Tests
use Prim.Native.Char.{Char, code}
use phimtor.Base.{
  ℕ, suc, ◌+◌, ◌-◌, Bool, true, false, ◌&&◌, String, Option, none, some, List, [], ◌∷◌, ◌++◌,
  lookup, ite, leb, ltb, ◌==◌, ℕ_discrete, String_discrete, if◌then◌else◌,
}
use phimtor.Base.Assoc.{delete, insert}

pub record Instance : Type 0 where
  pub id : String
  pub internal_url : String
  pub public_url : String
  pub control_token : String
  pub session_token : String
  pub last_seen : ℕ
  pub self_report : String
  pub egress_speed : ℕ

pub record Registry : Type 0 where
  pub ttl : ℕ
  pub heap : ℕ → Instance
  pub next : ℕ
  pub instances : List (String × ℕ)
  pub owners : List (String × ℕ)

abbrev pub is_empty : String → Bool
is_empty String.[] = true
is_empty (String.◌∷◌ _ _) = false

-- Cuts the slashes at the end.
pub trim_slash : String → String
trim_slash String.[] = String.[]
trim_slash (String.◌∷◌ c s) =
    let rest = trim_slash s in
    if is_empty rest && code c == b'/' then String.[] else String.◌∷◌ c rest

abbrev pub update : (ℕ → Instance) → ℕ → Instance → ℕ → Instance
update h p i q = ite (ℕ_discrete q p) i (h q)

-- The time to live is at least 0, so the difference cut off at 0 decides what the signed one does.
pub is_healthy : ℕ → ℕ → Instance → Bool
is_healthy now ttl i = leb (now - i.last_seen) ttl

abbrev pub same_string : String → String → Bool
same_string a b = ite (String_discrete a b) true false

-- `Register` and `newInstance`: `token` is the random session token of a new instance.
pub unchanged : String → String → String → Instance → Bool
unchanged internal public control i =
    same_string i.internal_url (trim_slash internal)
    && same_string i.public_url (trim_slash public)
    && same_string i.control_token control

pub register_known : ℕ → String → ℕ → Registry → Registry
register_known p meta now r = record r {
  heap = update r.heap p (record i { self_report = meta; last_seen = now });
}
  where
    i : Instance
    i = r.heap p

pub new_instance : String → String → String → String → String → String → ℕ → Instance
new_instance id internal public control token meta now = record {
  id = id;
  internal_url = trim_slash internal;
  public_url = trim_slash public;
  control_token = control;
  session_token = token;
  last_seen = now;
  self_report = meta;
  egress_speed = 0;
}

pub register_new : Instance → Registry → Registry
register_new i r = record r {
  heap = update r.heap r.next i;
  next = suc r.next;
  instances = insert String_discrete i.id r.next r.instances;
}

pub register :
    String → String → String → String → String → String → ℕ → Registry → Registry × String
unfolding register_known register_new new_instance unchanged
register id internal public control meta token now r =
    elim (lookup String_discrete id r.instances) [
      | none ↦ (register_new (new_instance id internal public control token meta now) r, token)
      | some p ↦
          if unchanged internal public control (r.heap p)
          then (register_known p meta now r, (r.heap p).session_token)
          else (register_new (new_instance id internal public control token meta now) r, token)
    ]

-- The instance under the id, if the session token is its own.
pub authenticate : String → String → Registry → Option ℕ
authenticate id token r = elim (lookup String_discrete id r.instances) [
  | none ↦ none
  | some p ↦ if same_string (r.heap p).session_token token then some p else none
]

pub touch : ℕ → ℕ → Registry → Registry
touch now p r = record r { heap = update r.heap p (record i { last_seen = now }) }
  where
    i : Instance
    i = r.heap p

pub heartbeat : String → String → ℕ → Registry → Registry × Bool
unfolding authenticate touch
heartbeat id token now r = elim (authenticate id token r) [
  | none ↦ (r, false)
  | some p ↦ (touch now p r, true)
]

-- `for hash, in := range r.owners { if in.ID == id { delete(r.owners, hash) } }`
pub drop_owners :
    String → (ℕ → Instance) → List (String × ℕ) → List (String × ℕ) → List (String × ℕ)
drop_owners id heap [] owners = owners
drop_owners id heap ((hash, p) ∷ rest) owners =
    drop_owners id heap rest
      (if same_string (heap p).id id then delete String_discrete hash owners else owners)

pub deregister : String → Registry → Registry
unfolding drop_owners
deregister id r = record r {
  instances = delete String_discrete id r.instances;
  owners = drop_owners id r.heap r.owners r.owners;
}

pub deregister_with_token : String → String → Registry → Registry × Bool
unfolding authenticate deregister
deregister_with_token id token r = elim (authenticate id token r) [
  | none ↦ (r, false)
  | some p ↦ (deregister id r, true)
]

pub healthy_loop : ℕ → Registry → List (String × ℕ) → List ℕ
unfolding is_healthy
healthy_loop now r [] = []
healthy_loop now r ((_, p) ∷ rest) =
    let others = healthy_loop now r rest in
    if is_healthy now r.ttl (r.heap p) then p ∷ others else others

pub healthy_instances : ℕ → Registry → List ℕ
unfolding healthy_loop
healthy_instances now r = healthy_loop now r r.instances

pub instance_by_id : String → Registry → Option ℕ
instance_by_id id r = lookup String_discrete id r.instances

pub owner : String → Registry → Option ℕ
owner hash r = lookup String_discrete hash r.owners

pub set_owner : String → ℕ → Registry → Registry
set_owner hash p r = record r { owners = insert String_discrete hash p r.owners }

pub clear_owner : String → Registry → Registry
clear_owner hash r = record r { owners = delete String_discrete hash r.owners }

abbrev pub or_zero : Option ℕ → ℕ
or_zero none = 0
or_zero (some n) = n

-- `counts[in.ID]++` over the owners.
pub count_loop : Registry → List (String × ℕ) → List (String × ℕ) → List (String × ℕ)
count_loop r [] counts = counts
count_loop r ((_, p) ∷ rest) counts = count_loop r rest (
    insert String_discrete (r.heap p).id (or_zero (lookup String_discrete (r.heap p).id counts) + 1)
      counts)

pub owner_counts : Registry → List (String × ℕ)
unfolding count_loop
owner_counts r = count_loop r r.owners []

pub expire_one : String → Registry → Registry
unfolding drop_owners
expire_one id r = record r {
  instances = delete String_discrete id r.instances;
  owners = drop_owners id r.heap r.owners r.owners;
}

pub expire_loop : ℕ → List (String × ℕ) → Registry → Registry
expire_loop now [] r = r
expire_loop now ((id, p) ∷ rest) r =
    expire_loop now rest (if is_healthy now r.ttl (r.heap p) then r else expire_one id r)

pub expire_stale : ℕ → Registry → Registry
unfolding expire_loop
expire_stale now r = expire_loop now r.instances r

-- What the streamers answer in one reconcile: their load, and the hashes that they hold.
pub record Answers : Type 0 where
  pub load : Instance → Option ℕ
  pub infohashes : Instance → Option (List String)

pub refresh_load : Answers → ℕ → Registry → Registry
refresh_load a p r = elim (a.load (r.heap p)) [
  | none ↦ r
  | some speed ↦ record r { heap = update r.heap p (record i { egress_speed = speed }) }
]
  where
    i : Instance
    i = r.heap p

-- `for _, h := range hashes { newOwners[h] = in }`
pub own_all : ℕ → List String → List (String × ℕ) → List (String × ℕ)
own_all p [] owners = owners
own_all p (h ∷ hs) owners = own_all p hs (insert String_discrete h p owners)

pub record Gathered : Type 0 where
  pub registry : Registry
  pub new_owners : List (String × ℕ)
  pub reconciled : List (String × Bool)

pub gather_one : Answers → ℕ → Gathered → Gathered
unfolding refresh_load own_all
gather_one a p g =
    let r' = refresh_load a p g.registry in
    elim (a.infohashes (r'.heap p)) [
      | none ↦ record g { registry = r' }
      | some hashes ↦ record {
        registry = r';
        new_owners = own_all p hashes g.new_owners;
        reconciled = insert String_discrete (r'.heap p).id true g.reconciled;
      }
    ]

pub gather : Answers → List ℕ → Gathered → Gathered
unfolding gather_one
gather a [] g = g
gather a (p ∷ ps) g = gather a ps (gather_one a p g)

abbrev pub or_false : Option Bool → Bool
or_false none = false
or_false (some b) = b

-- The loop of `rebuildOwners` over the old owner map.
pub carry_over :
    Registry → List (String × Bool) → List (String × ℕ) → List (String × ℕ) → List (String × ℕ)
carry_over r reconciled [] owners = owners
carry_over r reconciled ((hash, p) ∷ rest) owners = carry_over r reconciled rest (
    if or_false (lookup String_discrete (r.heap p).id reconciled)
    then owners
    else elim (lookup String_discrete hash owners) [
      | some _ ↦ owners
      | none ↦ insert String_discrete hash p owners
    ])

pub rebuild_owners : List (String × ℕ) → List (String × Bool) → Registry → Registry
unfolding carry_over
rebuild_owners new_owners reconciled r = record r {
  owners = carry_over r reconciled r.owners new_owners;
}

pub reconcile_once : Answers → ℕ → Registry → Registry
unfolding gather rebuild_owners healthy_instances
reconcile_once a now r =
    let g =
      gather a (healthy_instances now r)
        (record { registry = r; new_owners = []; reconciled = [] }) in
    rebuild_owners g.new_owners g.reconciled g.registry
