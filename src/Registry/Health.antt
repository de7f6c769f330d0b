-- ===== src/Registry/Health.antt =====
-- manager/registry.go: the healthy instances.
use phimtor.Base.{ℕ, true, String, List, [], ◌∷◌, All, if_elim, ◌≡◌}
use phimtor.Registry.{Registry, is_healthy, healthy_loop, healthy_instances}

-- The loop keeps healthy instances only.
healthy_loop-All :
    (now : ℕ) (r : Registry) (entries : List (String × ℕ))
    → All (λ p. is_healthy now r.ttl (r.heap p) ≡ true) (healthy_loop now r entries)
unfolding healthy_loop
healthy_loop-All now r [] = tt
healthy_loop-All now r ((id, p) ∷ rest) =
    if_elim (All (λ p. is_healthy now r.ttl (r.heap p) ≡ true)) (is_healthy now r.ttl (r.heap p)) _
      _ (λ h. (h, healthy_loop-All now r rest)) (λ _. healthy_loop-All now r rest)

pub healthy_instances-All :
    (now : ℕ) (r : Registry)
    → All (λ p. is_healthy now r.ttl (r.heap p) ≡ true) (healthy_instances now r)
unfolding healthy_instances
healthy_instances-All now r = healthy_loop-All now r r.instances
