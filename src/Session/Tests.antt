-- ===== src/Session/Tests.antt =====
-- Signed tokens and paths at concrete values.
use phimtor.Base.{none, some, ◌∷◌, ◌++◌, ◌≡◌, refl, arith}
use phimtor.Base.Bytes.{Bytes, codes, after_prefix}
use phimtor.Session.{
  sign, set_session, read_session, mint_device_token, read_bearer, set_state, read_state, safe_next,
  has_escape, after_bearer, cut_at, lowered,
}
use phimtor.Session.Spelled.{signer, signer-IsSigner}
use phimtor.Session.Tokens.{
  read_session-set_session, read_bearer-mint_device_token, read_state-set_state,
  read_session-excludes,
}

abbrev key : Bytes
key = codes "k"

read_bearer-mint_device_token_example :
    read_bearer signer key 2000 (codes "Bearer " ++ mint_device_token signer key 1000 7 3)
    ≡ some (7, 3)
read_bearer-mint_device_token_example =
    read_bearer-mint_device_token signer key 1000 2000 7 3 signer-IsSigner (omega arith)
      (omega arith) (omega arith) (omega arith) (omega arith) (omega arith)

read_state-set_state_example :
    read_state signer key 1500 (some (set_state signer key 1000 (codes "n") (codes "/a:b")))
    ≡ some (codes "n", codes "/a:b")
read_state-set_state_example =
    read_state-set_state signer key 1000 1500 (codes "n") (codes "/a:b") signer-IsSigner
      (omega arith, tt) (omega arith) (omega arith)

abbrev cookie : Bytes
cookie = set_session signer key 1000 7

cookie_is_read : read_session signer key 2000 (some cookie) ≡ some 7
cookie_is_read =
    read_session-set_session signer key 1000 2000 7 signer-IsSigner (omega arith) (omega arith)
      (omega arith) (omega arith)

read_session-excludes_example :
    (read_bearer signer key 5 (codes "bearer " ++ cookie) ≡ none)
    × (read_state signer key 6 (some cookie) ≡ none)
read_session-excludes_example =
    read_session-excludes signer key 2000 5 6 7 cookie (codes "bearer " ++ cookie) cookie
      cookie_is_read (unfold set_session sign after_bearer cut_at lowered in refl) refl

-- A tab is let through, and browsers drop it.
tab_is_kept : safe_next (b'/' ∷ 9 ∷ codes "/evil") ≡ b'/' ∷ 9 ∷ codes "/evil"
unfolding safe_next has_escape after_prefix
tab_is_kept = refl
