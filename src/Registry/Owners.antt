-- ===== src/Registry/Owners.antt =====
-- manager/registry.go: reading the owner map after a write.
use phimtor.Base.{ℕ, String, none, some, ite, String_discrete, ◌≡◌, refl}
use phimtor.Base.Assoc.{lookup-delete, lookup-insert}
use phimtor.Registry.{Registry, owner, set_owner, clear_owner}

pub owner-set_owner :
    (hash other : String) (p : ℕ) (r : Registry)
    → owner other (set_owner hash p r) ≡ ite (String_discrete other hash) (some p) (owner other r)
unfolding owner set_owner
owner-set_owner hash other p r = lookup-insert String_discrete hash other p r.owners

pub owner-clear_owner :
    (hash other : String) (r : Registry)
    → owner other (clear_owner hash r) ≡ ite (String_discrete other hash) none (owner other r)
unfolding owner clear_owner
owner-clear_owner hash other r = lookup-delete String_discrete hash other r.owners

pub heap-set_owner : (hash : String) (p : ℕ) (r : Registry) → (set_owner hash p r).heap ≡ r.heap
unfolding set_owner
heap-set_owner hash p r = refl
