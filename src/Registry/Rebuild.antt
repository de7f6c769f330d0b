-- ===== src/Registry/Rebuild.antt =====
-- manager/registry.go: the owner map that a reconcile builds.
use phimtor.Base.{
  ℕ, Bool, String, Option, none, some, List, [], ◌∷◌, lookup, arith, String_discrete, if◌then◌else◌,
  ◌≡◌, inl, inr, Option-cases,
}
use phimtor.Base.Assoc.{Distinct, insert, lookup-insert}
use phimtor.Registry.{Instance, Registry, carry_over, rebuild_owners, or_false, owner}

abbrev pub first_of : Option ℕ → Option ℕ → Option ℕ
first_of (some p) o = some p
first_of none o = o

abbrev pub kept : List (String × Bool) → (ℕ → Instance) → Option ℕ → Option ℕ
kept reconciled heap none = none
kept reconciled heap (some p) =
    if or_false (lookup String_discrete (heap p).id reconciled) then none else some p

carry_over_lem :
    (r : Registry) (reconciled : List (String × Bool)) (hash : String)
    (rest owners : List (String × ℕ))
    → Distinct String_discrete rest
    → lookup String_discrete hash (carry_over r reconciled rest owners)
      ≡ first_of
          (lookup String_discrete hash owners)
          (kept reconciled r.heap (lookup String_discrete hash rest))
unfolding carry_over lookup
carry_over_lem r reconciled hash [] owners d = ground arith
carry_over_lem r reconciled hash ((h, p) ∷ rest) owners d =
    elim (Option-cases (lookup String_discrete h owners)) [
      | inl e ↦ ground (
        arith,
        carry_over_lem r reconciled hash rest owners d.1,
        carry_over_lem r reconciled hash rest (insert String_discrete h p owners) d.1,
        lookup-insert String_discrete h hash p owners,
      )
      | inr (q, e) ↦ ground (arith, carry_over_lem r reconciled hash rest owners d.1)
    ]

-- After `rebuildOwners` a torrent belongs to the streamer that listed it in this pass; failing that,
-- to its old owner, unless that one answered in this pass and so no longer holds it.
pub rebuild_owners-owner :
    (new_owners : List (String × ℕ)) (reconciled : List (String × Bool)) (r : Registry)
    (hash : String)
    → Distinct String_discrete r.owners
    → owner hash (rebuild_owners new_owners reconciled r)
      ≡ first_of (lookup String_discrete hash new_owners) (kept reconciled r.heap (owner hash r))
unfolding rebuild_owners owner
rebuild_owners-owner new_owners reconciled r hash d =
    carry_over_lem r reconciled hash r.owners new_owners d
