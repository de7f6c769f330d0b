-- ===== src/Session.antt =====
-- viewer/session.go: signed tokens, the cookies and the television tokens that carry them, and the path
-- to return to after a sign-in. Texts are bytes. HMAC and base64 are arguments, with the laws that are
-- relied on (Signer, IsSigner); so is what Unicode counts as space around a header.
pub mod Signing
pub mod Fields
pub mod Tokens
pub mod Paths
pub mod Spelled
mod Tests
use phimtor.Base.{
  ℕ, zero, suc, ◌+◌, ◌*◌, ◌-◌, ◌≤◌, ◌<◌, Bool, true, false, not, ◌&&◌, ◌||◌, Option, none, some,
  List, [], ◌∷◌, ◌++◌, length, leb, ltb, ◌==◌, All, if◌then◌else◌, ◌≡◌,
}
use phimtor.Base.Bytes.{Bytes, codes, same_bytes, after_prefix}
use phimtor.Base.Decimal.{decimal, parse_int}

-- In seconds.
abbrev pub session_ttl : ℕ
session_ttl = 30 * 24 * 3600

abbrev pub state_ttl : ℕ
state_ttl = 10 * 60

abbrev pub device_token_ttl : ℕ
device_token_ttl = 180 * 24 * 3600

abbrev pub min_secret_len : ℕ
min_secret_len = 32

-- HMAC-SHA256 under a key, base64.RawURLEncoding both ways, and strings.TrimSpace.
pub record Signer : Type 0 where
  pub mac : Bytes → Bytes → Bytes
  pub encode : Bytes → Bytes
  pub decode : Bytes → Option Bytes
  pub trim_space : Bytes → Bytes

-- Printed in one cell, and no dot.
abbrev pub IsPlain : ℕ → Type 0
IsPlain c = (b'.' < c) × (c < 127)

-- The alphabet of base64url has no dot, but a dash, which is below it.
abbrev pub IsCode : ℕ → Type 0
IsCode c = (b'-' ≤ c) × (c < 127) × (c == b'.') ≡ false

abbrev pub IsPrinted : ℕ → Type 0
IsPrinted c = (b'!' ≤ c) × (c < 127)

-- What is relied on: what base64 encodes is decoded, its alphabet has no dot, and TrimSpace keeps a
-- text of printed ASCII.
pub record IsSigner (s : Signer) : Type 0 where
  pub decode-encode : (b : Bytes) → s.decode (s.encode b) ≡ some b
  pub encode-IsCode : (b : Bytes) → All IsCode (s.encode b)
  pub trim_space-printed : (b : Bytes) → All IsPrinted b → s.trim_space b ≡ b

-- `newSessionSigner`: the key and whether it is made up; none is an error.
pub new_session_signer : Bytes → Bool → Option Bytes → Option (Bytes × Bool)
new_session_signer [] true random = none
new_session_signer [] false none = none
new_session_signer [] false (some key) = some (key, true)
new_session_signer (c ∷ secret) secure random =
    if ltb (length (c ∷ secret)) min_secret_len then none else some (c ∷ secret, false)

-- The parts before and after the last byte of this value: strings.LastIndexByte and the slices.
pub split_last : ℕ → Bytes → Option (Bytes × Bytes)
split_last b [] = none
split_last b (c ∷ s) =
    let here : Option (Bytes × Bytes) = if c == b then some ([], s) else none in
    elim (split_last b s) [ none ↦ here | some (p, q) ↦ some (c ∷ p, q) ]

abbrev pub dotted : Bytes → Bytes → Bytes
dotted payload sig = payload ++ b'.' ∷ sig

-- strings.Split by one byte.
abbrev pub add_first : ℕ → List Bytes → List Bytes
add_first c [] = (c ∷ []) ∷ []
add_first c (p ∷ ps) = (c ∷ p) ∷ ps

pub split_on : ℕ → Bytes → List Bytes
split_on b [] = [] ∷ []
split_on b (c ∷ s) = let rest = split_on b s in if c == b then [] ∷ rest else add_first c rest

-- strings.SplitN by one byte: the last part keeps the byte.
pub split_n : ℕ → ℕ → Bytes → List Bytes
split_n zero b s = []
split_n (suc zero) b s = s ∷ []
split_n (suc (suc n)) b [] = [] ∷ []
split_n (suc (suc n)) b (c ∷ s) =
    let rest = split_n (suc n) b s in
    let same = split_n (suc (suc n)) b s in if c == b then [] ∷ rest else add_first c same

-- A number that is an id: it is parsed, and above 0.
abbrev pub positive : Option (Bool × ℕ) → Option ℕ
positive none = none
positive (some (negative, n)) = if not negative && ltb 0 n then some n else none

-- Whether an expiry is parsed and in the future; the clock is not negative.
abbrev pub is_ahead : ℕ → Option (Bool × ℕ) → Bool
is_ahead now none = false
is_ahead now (some (negative, n)) = not negative && ltb now n

pub session_fields : ℕ → List Bytes → Option ℕ
session_fields now [] = none
session_fields now (v ∷ []) = none
session_fields now (v ∷ id ∷ []) = none
session_fields now (v ∷ id ∷ exp ∷ []) =
    if same_bytes v (codes "v1") && is_ahead now (parse_int exp)
    then positive (parse_int id)
    else none
session_fields now (v ∷ id ∷ exp ∷ x ∷ more) = none

abbrev pub pair : Option ℕ → Option ℕ → Option (ℕ × ℕ)
pair (some a) (some b) = some (a, b)
pair (some a) none = none
pair none b = none

pub bearer_fields : ℕ → List Bytes → Option (ℕ × ℕ)
bearer_fields now [] = none
bearer_fields now (v ∷ []) = none
bearer_fields now (v ∷ id ∷ []) = none
bearer_fields now (v ∷ id ∷ device ∷ []) = none
bearer_fields now (v ∷ id ∷ device ∷ exp ∷ []) =
    if same_bytes v (codes "v1tv") && is_ahead now (parse_int exp)
    then pair (positive (parse_int id)) (positive (parse_int device))
    else none
bearer_fields now (v ∷ id ∷ device ∷ exp ∷ x ∷ more) = none

pub state_fields : ℕ → List Bytes → Option (Bytes × Bytes)
state_fields now [] = none
state_fields now (v ∷ []) = none
state_fields now (v ∷ nonce ∷ []) = none
state_fields now (v ∷ nonce ∷ exp ∷ []) = none
state_fields now (v ∷ nonce ∷ exp ∷ next ∷ []) =
    if same_bytes v (codes "v1") && is_ahead now (parse_int exp) then some (nonce, next) else none
state_fields now (v ∷ nonce ∷ exp ∷ next ∷ x ∷ more) = none

-- The payloads, as fmt.Sprintf writes them.
pub session_payload : ℕ → ℕ → Bytes
session_payload id exp = codes "v1" ++ b':' ∷ (decimal id ++ b':' ∷ decimal exp)

pub device_payload : ℕ → ℕ → ℕ → Bytes
device_payload id device exp =
    codes "v1tv" ++ b':' ∷ (decimal id ++ b':' ∷ (decimal device ++ b':' ∷ decimal exp))

pub state_payload : Bytes → ℕ → Bytes → Bytes
state_payload nonce exp next = codes "v1" ++ b':' ∷ (nonce ++ b':' ∷ (decimal exp ++ b':' ∷ next))

-- ASCII's lower case, which is what strings.EqualFold compares for the letters of "Bearer ".
abbrev pub lower : ℕ → ℕ
lower c = if leb b'A' c && leb c b'Z' then c + 32 else c

pub lowered : Bytes → Bytes
lowered [] = []
lowered (c ∷ s) = lower c ∷ lowered s

-- The first bytes and the rest; none where the text is not longer.
pub cut_at : ℕ → Bytes → Option (Bytes × Bytes)
cut_at n [] = none
cut_at zero (c ∷ s) = some ([], c ∷ s)
cut_at (suc n) (c ∷ s) = elim (cut_at n s) [ none ↦ none | some (p, q) ↦ some (c ∷ p, q) ]

-- What follows "Bearer ", in any case; it is not empty.
pub after_bearer : Bytes → Option Bytes
unfolding cut_at lowered
after_bearer raw = elim (cut_at 7 raw) [
  | none ↦ none
  | some (p, q) ↦ if same_bytes (lowered p) (codes "bearer ") then some q else none
]

-- What the readers make of a verified payload.
pub session_of : ℕ → Option Bytes → Option ℕ
unfolding session_fields split_on
session_of now none = none
session_of now (some payload) = session_fields now (split_on b':' payload)

pub bearer_of : ℕ → Option Bytes → Option (ℕ × ℕ)
unfolding bearer_fields split_on
bearer_of now none = none
bearer_of now (some payload) = bearer_fields now (split_on b':' payload)

pub state_of : ℕ → Option Bytes → Option (Bytes × Bytes)
unfolding state_fields split_n
state_of now none = none
state_of now (some payload) = state_fields now (split_n 4 b':' payload)

module _ (s : Signer) (key : Bytes) where
  pub sign : Bytes → Bytes
  sign payload = dotted payload (s.encode (s.mac key payload))

  abbrev pub checked : Bytes → Option Bytes → Option Bytes
  checked payload none = none
  checked payload (some got) = if same_bytes got (s.mac key payload) then some payload else none

  abbrev pub verify_parts : Option (Bytes × Bytes) → Option Bytes
  verify_parts none = none
  verify_parts (some ([], sig)) = none
  verify_parts (some (c ∷ payload, sig)) = checked (c ∷ payload) (s.decode sig)

  pub verify : Bytes → Option Bytes
  unfolding split_last
  verify token = verify_parts (split_last b'.' token)

  -- The value of the cookie that `setSession` sets.
  pub set_session : ℕ → ℕ → Bytes
  unfolding sign session_payload
  set_session now id = sign (session_payload id (now + session_ttl))

  -- The argument is the cookie, none where the request has none.
  pub read_session : ℕ → Option Bytes → Option ℕ
  unfolding verify session_of
  read_session now none = none
  read_session now (some value) = session_of now (verify value)

  pub mint_device_token : ℕ → ℕ → ℕ → Bytes
  unfolding sign device_payload
  mint_device_token now id device = sign (device_payload id device (now + device_token_ttl))

  pub bearer_token : ℕ → Option Bytes → Option (ℕ × ℕ)
  unfolding verify bearer_of
  bearer_token now none = none
  bearer_token now (some token) = bearer_of now (verify (s.trim_space token))

  -- The argument is the Authorization header.
  pub read_bearer : ℕ → Bytes → Option (ℕ × ℕ)
  unfolding after_bearer bearer_token
  read_bearer now raw = bearer_token now (after_bearer raw)

  pub set_state : ℕ → Bytes → Bytes → Bytes
  unfolding sign state_payload
  set_state now nonce next = sign (state_payload nonce (now + state_ttl) next)

  pub read_state : ℕ → Option Bytes → Option (Bytes × Bytes)
  unfolding verify state_of
  read_state now none = none
  read_state now (some value) = state_of now (verify value)

-- strings.ContainsAny(next, "\\\r\n")
pub has_escape : Bytes → Bool
has_escape [] = false
has_escape (c ∷ s) =
    let rest = has_escape s in if c == b'\\' || c == 13 || c == 10 then true else rest

abbrev pub starts : Option Bytes → Bool
starts none = false
starts (some rest) = true

pub safe_next : Bytes → Bytes
unfolding has_escape after_prefix
safe_next next =
    if length next == 0
      || ltb 512 (length next)
      || not (starts (after_prefix (codes "/") next))
      || starts (after_prefix (codes "//") next)
    then codes "/"
    else if has_escape next
    then codes "/"
    else next
