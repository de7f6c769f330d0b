-- ===== src/Session/Paths.antt =====
-- viewer/session.go: `safeNext`, the path that a sign-in returns to.
use phimtor.Base.{ℕ, ◌≤◌, [], ◌∷◌, length, All, ◌≡◌, ◌≢◌}
use phimtor.Base.Bytes.{Bytes}

-- No backslash and no end of a line.
abbrev pub IsUnescaped : ℕ → Type 0
IsUnescaped c = (c ≢ b'\\') × (c ≢ 13) × (c ≢ 10)

-- A path on this site: one slash at its front, no backslash and no end of a line.
abbrev pub IsSitePath : Bytes → Type 0
IsSitePath [] = ⊥
IsSitePath (c ∷ []) = c ≡ b'/'
IsSitePath (c ∷ d ∷ s) =
    (c ≡ b'/') × (d ≢ b'/') × (length (c ∷ d ∷ s) ≤ 512) × All IsUnescaped (c ∷ d ∷ s)
