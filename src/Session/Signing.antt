-- ===== src/Session/Signing.antt =====
-- viewer/session.go: `sign` and `verify`.
use phimtor.Base.{
  ℕ, Option, none, some, [], ◌∷◌, ◌++◌, All-mono, ◌≡◌, ◌≢◌, refl, sym, ap, ◌∙◌, arith, Option-cases,
  Bool-cases, inl, inr,
}
use phimtor.Base.Bytes.{Bytes, Lacks, same_bytes, same_bytes_refl, same_bytes-equal}
use phimtor.Session.{
  Signer, IsSigner, IsCode, split_last, dotted, sign, verify, verify_parts, checked,
}

pub split_last-Lacks : (b : ℕ) (q : Bytes) → Lacks b q → split_last b q ≡ none
unfolding split_last
split_last-Lacks b [] h = refl
split_last-Lacks b (c ∷ s) h = ground (arith, split_last-Lacks b s)

pub split_last-append : (b : ℕ) (p q : Bytes) → Lacks b q → split_last b (p ++ b ∷ q) ≡ some (p, q)
unfolding split_last
split_last-append b [] q h = ground (arith, split_last-Lacks b q h)
split_last-append b (c ∷ p) q h = ground (arith, split_last-append b p q h)

-- A text that is split is the two parts with the byte between them.
pub split_last-parts : (b : ℕ) (t p q : Bytes) → split_last b t ≡ some (p, q) → t ≡ p ++ b ∷ q
unfolding split_last
split_last-parts b [] p q h = ground arith
split_last-parts b (c ∷ t) p q h = elim (Option-cases (split_last b t)) [
  | inl e ↦ ground arith
  | inr ((p', q'), e) ↦ ground (arith, split_last-parts b t p' q' e)
]

module _ (s : Signer) (key : Bytes) where
  -- A token that was signed under a key verifies under it, and gives its payload.
  pub verify-sign :
      (payload : Bytes)
      → IsSigner s
      → payload ≢ []
      → verify s key (sign s key payload) ≡ some payload
  unfolding verify sign
  verify-sign [] h n = absurd (n refl)
  verify-sign (c ∷ payload) h n =
      ap (verify_parts s key) (
        split_last-append b'.' (c ∷ payload) (s.encode (s.mac key (c ∷ payload))) (
          All-mono IsCode (λ d. d ≢ b'.') (s.encode (s.mac key (c ∷ payload))) (λ d e. ground arith)
            (h.encode-IsCode _)))
      ∙ rw (h.decode-encode (s.mac key (c ∷ payload)))
          (ground (arith, same_bytes_refl (s.mac key (c ∷ payload))))

  checked_sound :
      (p payload : Bytes) (o : Option Bytes)
      → checked s key p o ≡ some payload
      → (o ≡ some (s.mac key p)) × (p ≡ payload)
  checked_sound p payload none h = ground arith
  checked_sound p payload (some got) h = elim (Bool-cases (same_bytes got (s.mac key p))) [
    | inl e ↦ (ap some (same_bytes-equal got (s.mac key p) e), ground arith)
    | inr e ↦ ground arith
  ]

  -- What verifies is a payload and a dot in front of a text that decodes to the payload's MAC.
  pub verify_sound :
      (token payload : Bytes)
      → verify s key token ≡ some payload
      → (sig : Bytes) × (token ≡ dotted payload sig) × (s.decode sig ≡ some (s.mac key payload))
  unfolding verify
  verify_sound token payload h = elim (Option-cases (split_last b'.' token)) [
    | inl e ↦ ground arith
    | inr (([], sig), e) ↦ ground arith
    | inr ((c ∷ p, sig), e) ↦
        found c p sig e
          (checked_sound (c ∷ p) payload (s.decode sig) (sym (ap (verify_parts s key) e) ∙ h))
  ]
    where
      found :
          (c : ℕ) (p sig : Bytes)
          → split_last b'.' token ≡ some (c ∷ p, sig)
          → (s.decode sig ≡ some (s.mac key (c ∷ p))) × (c ∷ p ≡ payload)
          → (sig : Bytes) × (token ≡ dotted payload sig) × (s.decode sig ≡ some (s.mac key payload))
      found c p sig e (d, q) = (
        sig,
        split_last-parts b'.' token (c ∷ p) sig e ∙ ap (λ t. dotted t sig) q,
        d ∙ ap (λ t. some (s.mac key t)) q,
      )
