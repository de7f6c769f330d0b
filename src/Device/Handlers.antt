-- ===== src/Device/Handlers.antt =====
-- viewer/device.go's handlers and the identity of a request in viewer/auth.go. Reading the request's
-- body and whether the store answers are arguments; so is the verdict of the limiter of approvals.
use phimtor.Base.{
  ℕ, zero, suc, Bool, true, false, not, Option, none, some, List, [], ◌∷◌, length, ◌==◌,
  if◌then◌else◌,
}
use phimtor.Base.Bytes.{Bytes}
use phimtor.Session.{Signer, mint_device_token, read_bearer, read_session}
use phimtor.Device.{
  Device, Devices, Status, Letters, user_code_len, user_code_attempts, device_pairing_ttl,
  random_user_code, format_user_code, normalize_user_code, create_device_pairing, device_pairing,
  is_expired, approve_device_pairing, touch_device, revoke_device, device_active,
}

-- One round of `handleDeviceCode`: the random text, none where there is no randomness, and whether the
-- store answers.
pub record Attempt : Type 0 where
  pub random : Option Bytes
  pub store_answers : Bool

pub data CodeAnswer : Type 0 where
  started : Bytes → Bytes → CodeAnswer
  could_not_start : CodeAnswer
  no_code_left : CodeAnswer

pub data TokenAnswer : Type 0 where
  invalid_request : TokenAnswer
  server_error : TokenAnswer
  expired_token : TokenAnswer
  authorization_pending : TokenAnswer
  access_token : Bytes → TokenAnswer

pub data ApproveAnswer : Type 0 where
  too_many : ApproveAnswer
  invalid_body : ApproveAnswer
  bad_code : ApproveAnswer
  could_not_link : ApproveAnswer
  unknown_code : ApproveAnswer
  linked : ApproveAnswer

pub data RevokeAnswer : Type 0 where
  bad_device : RevokeAnswer
  could_not_unlink : RevokeAnswer
  unlinked : RevokeAnswer

-- At most 128 bytes of the device's name, which comes trimmed.
unfoldable pub clip_name : ℕ → Bytes → Bytes
clip_name zero name = []
clip_name (suc n) [] = []
clip_name (suc n) (c ∷ name) = c ∷ clip_name n name

-- The id of a column that may be NULL.
abbrev pub account : Option ℕ → ℕ
account none = 0
account (some user) = user

module _ (same : Bytes → Bytes → Bool) where
  -- `fuel` is the number of attempts that are left; the list is the rounds as they come, and where it
  -- ends there is no randomness.
  unfoldable pub code_loop : ℕ → List Attempt → ℕ → Bytes → Bytes → Devices → CodeAnswer × Devices
  unfolding random_user_code create_device_pairing
  code_loop zero attempts now device_code name t = (CodeAnswer.no_code_left, t)
  code_loop (suc fuel) [] now device_code name t = (CodeAnswer.could_not_start, t)
  code_loop (suc fuel) (a ∷ attempts) now device_code name t = elim (random_user_code a.random) [
    | none ↦ (CodeAnswer.could_not_start, t)
    | some code ↦
        let (made, t') =
          create_device_pairing same now device_code code name device_pairing_ttl t in
        let more = code_loop fuel attempts now device_code name t' in
        if not a.store_answers then (CodeAnswer.could_not_start, t) else elim made [
          | none ↦ more
          | some id ↦ (CodeAnswer.started device_code (format_user_code code), t')
        ]
  ]

  unfoldable pub handle_device_code :
      Option Bytes → List Attempt → ℕ → Bytes → Devices → CodeAnswer × Devices
  unfolding code_loop clip_name
  handle_device_code none attempts now name t = (CodeAnswer.could_not_start, t)
  handle_device_code (some device_code) attempts now name t =
      code_loop user_code_attempts attempts now device_code (clip_name 128 name) t

  -- The answer to a pairing that is approved, by its account. A failure to touch the row is only logged
  -- by the code, and not modelled.
  unfoldable pub account_answer :
      Signer → Bytes → ℕ → ℕ → Device → Devices → Option ℕ → TokenAnswer × Devices
  unfolding touch_device
  account_answer s key clock now d t none = (TokenAnswer.expired_token, t)
  account_answer s key clock now d t (some user) =
      (TokenAnswer.access_token (mint_device_token s key clock user d.id), touch_device now d.id t)

  -- `user_by_id` gives the account of an id that is not blocked, and none where the store does not
  -- answer.
  unfoldable pub approved_answer :
      Signer → Bytes → ℕ → (ℕ → Option ℕ) → ℕ → Device → Devices → TokenAnswer × Devices
  unfolding account_answer
  approved_answer s key clock user_by_id now d t =
      account_answer s key clock now d t (user_by_id (account d.user_id))

  unfoldable pub status_answer :
      Signer → Bytes → ℕ → (ℕ → Option ℕ) → ℕ → Device → Devices → Status → TokenAnswer × Devices
  unfolding approved_answer
  status_answer s key clock user_by_id now d t Status.pending =
      if is_expired same now d
      then (TokenAnswer.expired_token, t)
      else (TokenAnswer.authorization_pending, t)
  status_answer s key clock user_by_id now d t Status.approved =
      approved_answer s key clock user_by_id now d t
  status_answer s key clock user_by_id now d t Status.revoked = (TokenAnswer.expired_token, t)

  unfoldable pub token_answer :
      Signer → Bytes → ℕ → (ℕ → Option ℕ) → ℕ → Option Device → Devices → TokenAnswer × Devices
  unfolding status_answer
  token_answer s key clock user_by_id now none t = (TokenAnswer.expired_token, t)
  token_answer s key clock user_by_id now (some d) t =
      status_answer s key clock user_by_id now d t d.status

  -- `clock` is the server's clock, and `now` the database's.
  unfoldable pub handle_device_token :
      Signer
      → Bytes
      → ℕ
      → (ℕ → Option ℕ)
      → Bool
      → ℕ
      → Option Bytes
      → Devices
      → TokenAnswer × Devices
  unfolding token_answer device_pairing
  handle_device_token s key clock user_by_id store_answers now none t =
      (TokenAnswer.invalid_request, t)
  handle_device_token s key clock user_by_id store_answers now (some []) t =
      (TokenAnswer.invalid_request, t)
  handle_device_token s key clock user_by_id store_answers now (some (c ∷ code)) t =
      if not store_answers
      then (TokenAnswer.server_error, t)
      else token_answer s key clock user_by_id now (device_pairing same (c ∷ code) t.rows) t

  unfoldable pub handle_device_approve :
      Letters → Bool → Bool → ℕ → ℕ → Option Bytes → Devices → ApproveAnswer × Devices
  unfolding normalize_user_code approve_device_pairing
  handle_device_approve u allowed store_answers now user none t =
      if not allowed then (ApproveAnswer.too_many, t) else (ApproveAnswer.invalid_body, t)
  handle_device_approve u allowed store_answers now user (some text) t =
      let code = normalize_user_code u text in
      let (ok, t') = approve_device_pairing same now code user t in
      if not allowed
      then (ApproveAnswer.too_many, t)
      else if not (length code == user_code_len)
      then (ApproveAnswer.bad_code, t)
      else if not store_answers
      then (ApproveAnswer.could_not_link, t)
      else if not ok
      then (ApproveAnswer.unknown_code, t')
      else (ApproveAnswer.linked, t')

-- The id is none where the path holds no number.
unfoldable pub handle_device_revoke : Bool → Option ℕ → ℕ → Devices → RevokeAnswer × Devices
unfolding revoke_device
handle_device_revoke store_answers none user t = (RevokeAnswer.bad_device, t)
handle_device_revoke store_answers (some device) user t =
    if not store_answers
    then (RevokeAnswer.could_not_unlink, t)
    else (RevokeAnswer.unlinked, revoke_device device user t)

-- The device is the one of the request, none for a browser.
unfoldable pub handle_device_logout : Bool → Option ℕ → ℕ → Devices → RevokeAnswer × Devices
unfolding revoke_device
handle_device_logout store_answers none user t = (RevokeAnswer.bad_device, t)
handle_device_logout store_answers (some device) user t =
    if not store_answers
    then (RevokeAnswer.could_not_unlink, t)
    else (RevokeAnswer.unlinked, revoke_device device user t)

-- The account and the device of a television's token, while it is paired.
unfoldable pub device_user : Signer → Bytes → ℕ → Bool → Bytes → Devices → Option (ℕ × ℕ)
unfolding device_active
device_user s key clock store_answers raw t = elim (read_bearer s key clock raw) [
  | none ↦ none
  | some (user, device) ↦
      if store_answers
      then (if device_active device user t.rows then some (user, device) else none)
      else none
]

-- Who a request is from.
pub record Identity : Type 0 where
  pub user : Option ℕ
  pub device : Option ℕ
  pub clears_session : Bool

abbrev pub anonymous : Identity
anonymous = record { user = none; device = none; clears_session = false }

-- What the store says of an account: none where it does not answer, and then whether it is there and
-- not blocked.
abbrev pub identified : Option ℕ → Option (Option ℕ) → Identity
identified device none = anonymous
identified device (some none) = record { user = none; device = none; clears_session = true }
identified device (some (some user)) = record {
  user = some user;
  device = device;
  clears_session = false;
}

-- Where accounts are configured.
unfoldable pub current_user :
    Signer → Bytes → ℕ → Bool → (ℕ → Option (Option ℕ)) → Option Bytes → Bytes → Devices → Identity
unfolding device_user
current_user s key clock store_answers user_by_id cookie raw t =
    elim (read_session s key clock cookie) [
      | none ↦ elim (device_user s key clock store_answers raw t) [
        | none ↦ anonymous
        | some (user, device) ↦ identified (some device) (user_by_id user)
      ]
      | some user ↦ identified none (user_by_id user)
    ]
