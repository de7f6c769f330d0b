-- ===== src/Device.antt =====
-- viewer/device.go, the tv_devices queries of viewer/store.go and the identity of viewer/auth.go: a
-- television is paired by a code that a signed-in account approves. The table is a list of rows, and a
-- query is a function on it, run at once. How the column's collation compares codes is an argument,
-- `same`. The clock of the database is the argument `now` of the queries.
pub mod Handlers
pub mod Codes
pub mod Pairing
pub mod Keeping
pub mod Revoking
pub mod Retiring
pub mod Access
pub mod Linking
mod Tests
use phimtor.Base.{
  ℕ, zero, suc, ◌+◌, ◌*◌, ◌-◌, ◌%◌, Bool, true, false, not, ◌&&◌, ◌||◌, Option, none, some, List,
  [], ◌∷◌, ◌++◌, length, leb, ltb, ◌==◌, if◌then◌else◌,
}
use phimtor.Base.Bytes.{Bytes, codes}
use phimtor.Session.{Signer, mint_device_token, read_bearer, read_session}

-- In seconds.
abbrev pub device_pairing_ttl : ℕ
device_pairing_ttl = 15 * 60

abbrev pub user_code_len : ℕ
user_code_len = 8

abbrev pub user_code_alphabet : Bytes
user_code_alphabet = codes "ACDEFGHJKMNPQRTWXY34679"

abbrev pub user_code_attempts : ℕ
user_code_attempts = 8

abbrev pub is_in : ℕ → Bytes → Bool
is_in c [] = false
is_in c (d ∷ s) = c == d || is_in c s

-- The letter at a place; the code only asks inside the text.
abbrev pub letter_at : ℕ → Bytes → ℕ
letter_at i [] = 0
letter_at zero (c ∷ s) = c
letter_at (suc i) (c ∷ s) = letter_at i s

-- The loop of `randomUserCode` over the random text, which has more letters than it reads.
pub code_letters : ℕ → Bytes → Bytes
code_letters zero raw = []
code_letters (suc n) [] = []
code_letters (suc n) (c ∷ raw) =
    letter_at (c % length user_code_alphabet) user_code_alphabet ∷ code_letters n raw

pub random_user_code : Option Bytes → Option Bytes
unfolding code_letters
random_user_code none = none
random_user_code (some raw) = some (code_letters user_code_len raw)

-- strings.ToUpper on a code point and strings.TrimSpace.
pub record Letters : Type 0 where
  pub to_upper : ℕ → ℕ
  pub trim_space : Bytes → Bytes

module _ (u : Letters) where
  pub kept_letters : Bytes → Bytes
  kept_letters [] = []
  kept_letters (c ∷ s) =
      let rest = kept_letters s in
      if is_in (u.to_upper c) user_code_alphabet then u.to_upper c ∷ rest else rest

  pub normalize_user_code : Bytes → Bytes
  unfolding kept_letters
  normalize_user_code text = kept_letters (u.trim_space text)

pub format_user_code : Bytes → Bytes
format_user_code [] = []
format_user_code (a ∷ []) = a ∷ []
format_user_code (a ∷ b ∷ []) = a ∷ b ∷ []
format_user_code (a ∷ b ∷ c ∷ []) = a ∷ b ∷ c ∷ []
format_user_code (a ∷ b ∷ c ∷ d ∷ s) =
    if length (a ∷ b ∷ c ∷ d ∷ s) == user_code_len
    then a ∷ b ∷ c ∷ d ∷ b'-' ∷ s
    else a ∷ b ∷ c ∷ d ∷ s

-- The status column.
pub data Status : Type 0 where
  pending : Status
  approved : Status
  revoked : Status

-- A row of tv_devices.
pub record Device : Type 0 where
  pub id : ℕ
  pub device_code : Bytes
  pub user_code : Option Bytes
  pub device_name : Bytes
  pub user_id : Option ℕ
  pub status : Status
  pub expires_at : ℕ
  pub approved_at : Option ℕ
  pub last_seen_at : Option ℕ

-- `next_id` is the one that AUTO_INCREMENT gives next; an insert that fails takes one too.
pub record Devices : Type 0 where
  pub next_id : ℕ
  pub rows : List Device

abbrev pub is_pending : Status → Bool
is_pending pending = true
is_pending approved = false
is_pending revoked = false

abbrev pub is_approved : Status → Bool
is_approved pending = false
is_approved approved = true
is_approved revoked = false

abbrev pub is_user : ℕ → Option ℕ → Bool
is_user user none = false
is_user user (some u) = u == user

-- The row of the INSERT.
abbrev pub new_pairing : ℕ → ℕ → Bytes → Bytes → Bytes → ℕ → Device
new_pairing id now device_code user_code name ttl = record {
  id = id;
  device_code = device_code;
  user_code = some user_code;
  device_name = name;
  user_id = none;
  status = pending;
  expires_at = now + ttl;
  approved_at = none;
  last_seen_at = none;
}

module _ (same : Bytes → Bytes → Bool) where
  abbrev pub has_code : Bytes → Option Bytes → Bool
  has_code code none = false
  has_code code (some c) = same c code

  -- Whether a unique index refuses the codes; it takes NULLs for distinct.
  pub is_taken : Bytes → Bytes → List Device → Bool
  is_taken device_code user_code [] = false
  is_taken device_code user_code (d ∷ ds) =
      same d.device_code device_code
      || has_code user_code d.user_code
      || is_taken device_code user_code ds

  -- The new id, none for a duplicate key.
  pub create_device_pairing : ℕ → Bytes → Bytes → Bytes → ℕ → Devices → Option ℕ × Devices
  unfolding is_taken
  create_device_pairing now device_code user_code name ttl t =
      if is_taken device_code user_code t.rows
      then (none, record { next_id = suc t.next_id; rows = t.rows })
      else (
        some t.next_id,
        record {
          next_id = suc t.next_id;
          rows = new_pairing t.next_id now device_code user_code name ttl ∷ t.rows;
        },
      )

  pub device_pairing : Bytes → List Device → Option Device
  device_pairing code [] = none
  device_pairing code (d ∷ ds) =
      let rest = device_pairing code ds in if same d.device_code code then some d else rest

  abbrev pub is_expired : ℕ → Device → Bool
  is_expired now d = leb d.expires_at now

  -- The WHERE of the UPDATE.
  pub can_approve : ℕ → Bytes → Device → Bool
  can_approve now code d = has_code code d.user_code && is_pending d.status && ltb now d.expires_at

  pub approve_row : ℕ → Bytes → ℕ → Device → Device
  unfolding can_approve
  approve_row now code user d =
      let approved_row : Device = record {
        id = d.id;
        device_code = d.device_code;
        user_code = none;
        device_name = d.device_name;
        user_id = some user;
        status = approved;
        expires_at = d.expires_at;
        approved_at = some now;
        last_seen_at = d.last_seen_at;
      } in
      if can_approve now code d then approved_row else d

  pub approve_rows : ℕ → Bytes → ℕ → List Device → List Device
  unfolding approve_row
  approve_rows now code user [] = []
  approve_rows now code user (d ∷ ds) = approve_row now code user d ∷ approve_rows now code user ds

  -- RowsAffected
  pub affected : ℕ → Bytes → List Device → ℕ
  unfolding can_approve
  affected now code [] = 0
  affected now code (d ∷ ds) =
      let n = affected now code ds in if can_approve now code d then suc n else n

  pub approve_device_pairing : ℕ → Bytes → ℕ → Devices → Bool × Devices
  unfolding approve_rows affected
  approve_device_pairing now code user t = (
    ltb 0 (affected now code t.rows),
    record { next_id = t.next_id; rows = approve_rows now code user t.rows },
  )

abbrev pub grants : ℕ → ℕ → Device → Bool
grants device user d = d.id == device && is_user user d.user_id && is_approved d.status

pub device_active : ℕ → ℕ → List Device → Bool
device_active device user [] = false
device_active device user (d ∷ ds) = grants device user d || device_active device user ds

pub touch_row : ℕ → ℕ → Device → Device
touch_row now device d =
    let seen : Device = record {
      id = d.id;
      device_code = d.device_code;
      user_code = d.user_code;
      device_name = d.device_name;
      user_id = d.user_id;
      status = d.status;
      expires_at = d.expires_at;
      approved_at = d.approved_at;
      last_seen_at = some now;
    } in
    if d.id == device then seen else d

pub touch_rows : ℕ → ℕ → List Device → List Device
unfolding touch_row
touch_rows now device [] = []
touch_rows now device (d ∷ ds) = touch_row now device d ∷ touch_rows now device ds

pub touch_device : ℕ → ℕ → Devices → Devices
unfolding touch_rows
touch_device now device t = record { next_id = t.next_id; rows = touch_rows now device t.rows }

pub revoke_row : ℕ → ℕ → Device → Device
revoke_row device user d =
    let revoked_row : Device = record {
      id = d.id;
      device_code = d.device_code;
      user_code = none;
      device_name = d.device_name;
      user_id = d.user_id;
      status = revoked;
      expires_at = d.expires_at;
      approved_at = d.approved_at;
      last_seen_at = d.last_seen_at;
    } in
    if d.id == device && is_user user d.user_id then revoked_row else d

pub revoke_rows : ℕ → ℕ → List Device → List Device
unfolding revoke_row
revoke_rows device user [] = []
revoke_rows device user (d ∷ ds) = revoke_row device user d ∷ revoke_rows device user ds

pub revoke_device : ℕ → ℕ → Devices → Devices
unfolding revoke_rows
revoke_device device user t = record { next_id = t.next_id; rows = revoke_rows device user t.rows }

pub reap_rows : ℕ → List Device → List Device
reap_rows now [] = []
reap_rows now (d ∷ ds) =
    let rest = reap_rows now ds in
    if is_pending d.status && leb d.expires_at now then rest else d ∷ rest

pub reap_device_pairings : ℕ → Devices → Devices
unfolding reap_rows
reap_device_pairings now t = record { next_id = t.next_id; rows = reap_rows now t.rows }

-- The rows of `ListDevices`, in no order.
pub list_devices : ℕ → List Device → List Device
list_devices user [] = []
list_devices user (d ∷ ds) =
    let rest = list_devices user ds in
    if is_user user d.user_id && is_approved d.status then d ∷ rest else rest
