-- ===== src/Base/Assoc.antt =====
-- Go's maps as association lists with distinct keys, over the library's `lookup`. The order of the
-- list stands for the order in which `range` visits the map, which Go leaves open: a statement about
-- every list is a statement about every order.
use Prim.Native.Nat.{ℕ, ◌+◌, ◌≤◌}
use mathlib.Core.Path.{◌≡◌, refl}
use mathlib.Core.Logic.{ite}
use mathlib.Core.List.{List, [], ◌∷◌, lookup}
use mathlib.Core.Option.{none, some}
use native.Mathlib.Omega.{arith}
use phimtor.Base.Lists.{total, All}

module _ {ℓ} {K V : Type ℓ} (dec : Discrete K) where
  -- delete(m, k)
  unfoldable pub delete : K → List (K × V) → List (K × V)
  delete k [] = []
  delete k (e ∷ m) = let rest = delete k m in ite (dec k e.0) rest (e ∷ rest)

  -- m[k] = v
  unfoldable pub insert : K → V → List (K × V) → List (K × V)
  insert k v m = (k, v) ∷ delete k m

  abbrev pub Distinct : List (K × V) → Type ℓ
  Distinct [] = Unit
  Distinct (e ∷ m) = (lookup dec e.0 m ≡ none) × Distinct m

  pub lookup-delete :
      (k j : K) (m : List (K × V)) → lookup dec j (delete k m) ≡ ite (dec j k) none (lookup dec j m)
  unfolding lookup delete
  lookup-delete k j [] = ground arith
  lookup-delete k j (e ∷ m) = ground (arith, lookup-delete k j m)

  pub lookup-insert :
      (k j : K) (v : V) (m : List (K × V))
      → lookup dec j (insert k v m) ≡ ite (dec j k) (some v) (lookup dec j m)
  unfolding lookup insert
  lookup-insert k j v m = ground (arith, lookup-delete k j m)

  pub delete_absent : (k : K) (m : List (K × V)) → lookup dec k m ≡ none → delete k m ≡ m
  unfolding lookup delete
  delete_absent k [] h = refl
  delete_absent k (e ∷ m) h = ground (arith, delete_absent k m)

  pub delete-Distinct : (k : K) (m : List (K × V)) → Distinct m → Distinct (delete k m)
  unfolding delete
  delete-Distinct k [] h = tt
  delete-Distinct k (e ∷ m) h = ground (arith, delete-Distinct k m h.1, lookup-delete k e.0 m)

  pub insert-Distinct : (k : K) (v : V) (m : List (K × V)) → Distinct m → Distinct (insert k v m)
  unfolding insert
  insert-Distinct k v m h = (ground (arith, lookup-delete k k m), delete-Distinct k m h)

  -- Without the entry of a key, a sum over the map is less by that entry's share.
  pub total-delete :
      (f : K × V → ℕ) (k : K) (v : V) (m : List (K × V))
      → Distinct m
      → lookup dec k m ≡ some v
      → total f (delete k m) + f (k, v) ≡ total f m
  unfolding lookup delete
  total-delete f k v [] h e = cc
  total-delete f k v (x ∷ m) h e = elim (dec k x.0) [
    | yes p ↦ ground (arith, delete_absent k m)
    | no p ↦ ground (arith, total-delete f k v m h.1)
  ]

  pub total-insert_new :
      (f : K × V → ℕ) (k : K) (v : V) (m : List (K × V))
      → lookup dec k m ≡ none
      → total f (insert k v m) ≡ f (k, v) + total f m
  unfolding insert
  total-insert_new f k v m e = ground (arith, delete_absent k m)

  pub total-insert_old :
      (f : K × V → ℕ) (k : K) (v w : V) (m : List (K × V))
      → Distinct m
      → lookup dec k m ≡ some w
      → total f (insert k v m) + f (k, w) ≡ f (k, v) + total f m
  unfolding insert
  total-insert_old f k v w m h e = omega (arith, total-delete f k w m h e)

  -- A share that is in the map is at most the sum.
  pub share-le-total :
      (f : K × V → ℕ) (k : K) (v : V) (m : List (K × V))
      → Distinct m
      → lookup dec k m ≡ some v
      → f (k, v) ≤ total f m
  share-le-total f k v m h e = omega (arith, total-delete f k v m h e)

  -- The entries of a list are entries of the map, as `range` sees them while others are deleted.
  abbrev pub Within : List (K × V) → List (K × V) → Type ℓ
  Within rest m = All (λ e. lookup dec e.0 m ≡ some e.1) rest

  pub Within-cons :
      (e : K × V) (rest m : List (K × V))
      → lookup dec e.0 rest ≡ none
      → Within rest m
      → Within rest (e ∷ m)
  unfolding lookup
  Within-cons e [] m h w = tt
  Within-cons e (x ∷ rest) m h w = ground (arith, Within-cons e rest m)

  pub Within-delete :
      (k : K) (rest m : List (K × V))
      → lookup dec k rest ≡ none
      → Within rest m
      → Within rest (delete k m)
  unfolding lookup
  Within-delete k [] m h w = tt
  Within-delete k (x ∷ rest) m h w = ground (arith, Within-delete k rest m, lookup-delete k x.0 m)

  pub Within-self : (m : List (K × V)) → Distinct m → Within m m
  unfolding lookup
  Within-self [] h = tt
  Within-self (e ∷ m) h = (ground arith, Within-cons e m m h.0 (Within-self m h.1))

  pub total-delete-le :
      (f : K × V → ℕ) (k : K) (m : List (K × V)) → total f (delete k m) ≤ total f m
  unfolding delete
  total-delete-le f k [] = omega arith
  total-delete-le f k (e ∷ m) = ground (arith, total-delete-le f k m)
