-- ===== src/Session/Tokens.antt =====
-- viewer/session.go: the session cookie, the television's token and the OAuth state cookie.
use phimtor.Base.{
  ℕ, ◌+◌, min, ◌≤◌, ◌<◌, Option, none, some, [], ◌∷◌, ◌++◌, All, All-append, All-mono, ◌≡◌, ◌≢◌,
  refl, ap, ◌∙◌, arith,
}
use phimtor.Base.Bytes.{Bytes, Lacks, codes}
use phimtor.Base.Decimal.{decimal, IsDigit, decimal-IsDigit, max_int64}
use phimtor.Session.{
  Signer, IsSigner, IsCode, IsPrinted, split_on, split_n, sign, verify, session_payload,
  device_payload, state_payload, session_ttl, state_ttl, device_token_ttl, set_session,
  read_session, mint_device_token, read_bearer, set_state, read_state, after_bearer, cut_at,
  lowered, session_of, state_of, bearer_of, bearer_token,
}
use phimtor.Session.Signing.{verify-sign}
use phimtor.Session.Fields.{
  session_fields-payload, bearer_fields-payload, state_fields-payload, session_fields-three,
  bearer_fields-three, state_fields-three, length-split_n,
}

decimal-IsPrinted : (n : ℕ) → All IsPrinted (decimal n)
decimal-IsPrinted n =
    All-mono IsDigit IsPrinted (decimal n) (λ c q. ground arith) (decimal-IsDigit n)

fields-IsPrinted : (n : ℕ) (s : Bytes) → All IsPrinted s → All IsPrinted (decimal n ++ b':' ∷ s)
fields-IsPrinted n s h =
    All-append IsPrinted (decimal n) (b':' ∷ s) (decimal-IsPrinted n) (omega arith, h)

device_payload-IsPrinted : (id device exp : ℕ) → All IsPrinted (device_payload id device exp)
unfolding device_payload
device_payload-IsPrinted id device exp =
    All-append IsPrinted (codes "v1tv:")
      (decimal id ++ b':' ∷ (decimal device ++ b':' ∷ decimal exp)) (omega arith)
      (fields-IsPrinted id _ (fields-IsPrinted device _ (decimal-IsPrinted exp)))

device_token-IsPrinted :
    (s : Signer) (key : Bytes) (now id device : ℕ)
    → IsSigner s
    → All IsPrinted (mint_device_token s key now id device)
unfolding mint_device_token sign
device_token-IsPrinted s key now id device h =
    All-append IsPrinted (device_payload id device (now + device_token_ttl)) _
      (device_payload-IsPrinted id device (now + device_token_ttl))
      (omega arith, All-mono IsCode IsPrinted _ (λ c q. ground arith) (h.encode-IsCode _))

device_token-ne-nil :
    (s : Signer) (key : Bytes) (now id device : ℕ) → mint_device_token s key now id device ≢ []
unfolding mint_device_token sign device_payload
device_token-ne-nil s key now id device q = ground arith

session_of-excludes :
    (now now' now'' id : ℕ) (o : Option Bytes)
    → session_of now o ≡ some id
    → (bearer_of now' o ≡ none) × (state_of now'' o ≡ none)
unfolding session_of bearer_of state_of
session_of-excludes now now' now'' id none h = (refl, refl)
session_of-excludes now now' now'' id (some payload) h = (
  bearer_fields-three now' (split_on b':' payload) (session_fields-three now id _ h),
  state_fields-three now'' (split_n 4 b':' payload)
      (length-split_n b':' 3 payload ∙ ap (λ n. min 4 n) (session_fields-three now id _ h)),
)

module _ (s : Signer) (key : Bytes) where
  -- The session cookie set for an account names that account until it expires.
  pub read_session-set_session :
      (now later id : ℕ)
      → IsSigner s
      → 0 < id
      → id ≤ max_int64
      → now + session_ttl ≤ max_int64
      → later < now + session_ttl
      → read_session s key later (some (set_session s key now id)) ≡ some id
  unfolding read_session set_session
  read_session-set_session now later id h p i e l =
      ap (session_of later) (
        verify-sign s key (session_payload id (now + session_ttl)) h
          (λ q. unfold session_payload in ground arith))
      ∙ (unfold session_of in session_fields-payload later id (now + session_ttl) p i e l)

  -- What the state cookie was set with, the nonce and the path whatever it holds, is read back
  -- until it expires.
  pub read_state-set_state :
      (now later : ℕ) (nonce next : Bytes)
      → IsSigner s
      → Lacks b':' nonce
      → now + state_ttl ≤ max_int64
      → later < now + state_ttl
      → read_state s key later (some (set_state s key now nonce next)) ≡ some (nonce, next)
  unfolding read_state set_state
  read_state-set_state now later nonce next h n e l =
      ap (state_of later) (
        verify-sign s key (state_payload nonce (now + state_ttl) next) h
          (λ q. unfold state_payload in ground arith))
      ∙ (unfold state_of in state_fields-payload later nonce (now + state_ttl) next n e l)

  after_bearer-token : (t : Bytes) → t ≢ [] → after_bearer (codes "Bearer " ++ t) ≡ some t
  unfolding after_bearer cut_at lowered
  after_bearer-token [] n = absurd (n refl)
  after_bearer-token (c ∷ t) n = refl

  -- The token minted for a television is read back from the header as its account and device until
  -- it expires.
  pub read_bearer-mint_device_token :
      (now later id device : ℕ)
      → IsSigner s
      → 0 < id
      → id ≤ max_int64
      → 0 < device
      → device ≤ max_int64
      → now + device_token_ttl ≤ max_int64
      → later < now + device_token_ttl
      → read_bearer s key later (codes "Bearer " ++ mint_device_token s key now id device)
        ≡ some (id, device)
  unfolding read_bearer
  read_bearer-mint_device_token now later id device h p i q d e l =
      ap (bearer_token s key later) (
        after_bearer-token (mint_device_token s key now id device)
          (device_token-ne-nil s key now id device))
      ∙ (unfold bearer_token mint_device_token in
          ap (λ t. bearer_of later (verify s key t))
            (h.trim_space-printed (mint_device_token s key now id device)
              (device_token-IsPrinted s key now id device h))
          ∙ ap (bearer_of later) (
              verify-sign s key (device_payload id device (now + device_token_ttl)) h
                (λ q. unfold device_payload in ground arith))
          ∙ (unfold bearer_of in
              bearer_fields-payload later id device (now + device_token_ttl) p i q d e l))

  -- A value that a session cookie may hold is worth nothing in the header of a television, however
  -- it is spaced, nor in the OAuth state cookie.
  pub read_session-excludes :
      (now now' now'' id : ℕ) (value raw token : Bytes)
      → read_session s key now (some value) ≡ some id
      → after_bearer raw ≡ some token
      → s.trim_space token ≡ value
      → (read_bearer s key now' raw ≡ none) × (read_state s key now'' (some value) ≡ none)
  unfolding read_session read_bearer read_state
  read_session-excludes now now' now'' id value raw token h a t =
      let other = session_of-excludes now now' now'' id (verify s key value) h in
      (
        ap (bearer_token s key now') a
            ∙ (unfold bearer_token in ap (λ v. bearer_of now' (verify s key v)) t)
            ∙ other.0,
        other.1,
      )
