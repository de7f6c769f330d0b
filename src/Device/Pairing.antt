-- ===== src/Device/Pairing.antt =====
-- viewer/store.go: the tv_devices table under any sequence of queries.
use phimtor.Base.{
  ℕ, ◌≤◌, ◌<◌, Bool, true, false, Option, none, some, List, [], ◌∷◌, ltb, All, All-mono, ◌≡◌, ◌≢◌,
  refl, ap, arith, Bool-cases, inl, inr,
}
use phimtor.Base.Bytes.{Bytes}
use phimtor.Device.{
  Device, Devices, Status, has_code, create_device_pairing, can_approve, approve_row, approve_rows,
  affected, approve_device_pairing, touch_device, revoke_device, reap_device_pairings,
}

-- The queries that change the table, with their arguments.
pub data Call : Type 0 where
  create : ℕ → Bytes → Bytes → Bytes → ℕ → Call
  approve : ℕ → Bytes → ℕ → Call
  touch : ℕ → ℕ → Call
  revoke : ℕ → ℕ → Call
  reap : ℕ → Call

-- How the collation compares.
pub record IsSame (same : Bytes → Bytes → Bool) : Type 0 where
  pub reflexive : (a : Bytes) → same a a ≡ true
  pub symmetric : (a b : Bytes) → same a b ≡ true → same b a ≡ true
  pub transitive : (a b c : Bytes) → same a b ≡ true → same b c ≡ true → same a c ≡ true

abbrev pub no_devices : Devices
no_devices = record { next_id = 1; rows = [] }

-- A pairing that waits has a code and no account; one that is approved has an account and no code.
abbrev pub IsPairedAs : Status → Option Bytes → Option ℕ → Type 0
IsPairedAs Status.pending code user = (code ≢ none) × (user ≡ none)
IsPairedAs Status.approved code user = (code ≡ none) × (user ≢ none)
IsPairedAs Status.revoked code user = code ≡ none

abbrev pub IsPaired : Device → Type 0
IsPaired d = IsPairedAs d.status d.user_code d.user_id

abbrev pub clashes : (Bytes → Bytes → Bool) → Option Bytes → Option Bytes → Bool
clashes same none c = false
clashes same (some a) none = false
clashes same (some a) (some b) = same a b

-- Two rows that the primary key and the unique indexes keep apart.
abbrev pub AreApart : (Bytes → Bytes → Bool) → Device → Device → Type 0
AreApart same d e =
    (d.id ≢ e.id)
    × (same d.device_code e.device_code ≡ false)
    × (clashes same d.user_code e.user_code ≡ false)

abbrev pub AllApart : (Bytes → Bytes → Bool) → List Device → Type 0
AllApart same [] = Unit
AllApart same (d ∷ ds) = All (AreApart same d) ds × AllApart same ds

abbrev pub IsNumbered : ℕ → Device → Type 0
IsNumbered n d = (0 < d.id) × (d.id < n)

pub record IsWell (same : Bytes → Bytes → Bool) (t : Devices) : Type 0 where
  pub paired : All IsPaired t.rows
  pub numbered : All (IsNumbered t.next_id) t.rows
  pub apart : AllApart same t.rows
  pub started : 0 < t.next_id

module _ (same : Bytes → Bytes → Bool) where
  unfoldable pub step : Call → Devices → Devices
  unfolding create_device_pairing approve_device_pairing touch_device revoke_device
      reap_device_pairings
  step (Call.create now device_code user_code name ttl) t =
      (create_device_pairing same now device_code user_code name ttl t).1
  step (Call.approve now code user) t = (approve_device_pairing same now code user t).1
  step (Call.touch now device) t = touch_device now device t
  step (Call.revoke device user) t = revoke_device device user t
  step (Call.reap now) t = reap_device_pairings now t

  unfoldable pub run : List Call → Devices → Devices
  unfolding step
  run [] t = t
  run (c ∷ cs) t = run cs (step c t)

  affected-none :
      (now : ℕ) (code : Bytes) (ds : List Device)
      → All (λ (d : Device). has_code same code d.user_code ≡ false) ds
      → affected same now code ds ≡ 0
  unfolding affected can_approve
  affected-none now code [] h = refl
  affected-none now code (d ∷ ds) h = ground (arith, affected-none now code ds h.1)

  apart-has_code :
      (code : Bytes) (d : Device)
      → IsSame same
      → has_code same code d.user_code ≡ true
      → (e : Device) → AreApart same d e
      → has_code same code e.user_code ≡ false
  apart-has_code code d s h e a = go d.user_code e.user_code h a.2
    where
      go :
          (c c' : Option Bytes)
          → has_code same code c ≡ true
          → clashes same c c' ≡ false
          → has_code same code c' ≡ false
      go none c' h a = absurd (ground arith)
      go (some c) none h a = refl
      go (some c) (some c') h a = elim (Bool-cases (same c' code)) [
        | inl e ↦ absurd (ground (arith, s.transitive c code c' h (s.symmetric c' code e)))
        | inr e ↦ e
      ]

  affected-one :
      (now : ℕ) (code : Bytes) (ds : List Device)
      → IsSame same
      → AllApart same ds
      → affected same now code ds ≤ 1
  unfolding affected
  affected-one now code [] s h = omega arith
  affected-one now code (d ∷ ds) s h = elim (Bool-cases (has_code same code d.user_code)) [
    | inl e ↦ ground (
      arith,
      affected-none now code ds (All-mono (AreApart same d) _ ds (apart-has_code code d s e) h.0),
    )
    | inr e ↦ rw (not_approved e) (affected-one now code ds s h.1)
  ]
    where
      not_approved : has_code same code d.user_code ≡ false → can_approve same now code d ≡ false
      not_approved e = unfold can_approve in ground arith

  can_approve-approve_row :
      (now now' : ℕ) (code : Bytes) (user : ℕ) (d : Device)
      → now ≤ now'
      → can_approve same now' code (approve_row same now code user d) ≡ false
  unfolding approve_row
  can_approve-approve_row now now' code user d h = elim (Bool-cases (can_approve same now code d)) [
    | inl e ↦ rw e (unfold can_approve in refl)
    | inr e ↦ rw e (later e)
  ]
    where
      later : can_approve same now code d ≡ false → can_approve same now' code d ≡ false
      later e = unfold can_approve in ground arith

  affected-approve_rows :
      (now now' : ℕ) (code : Bytes) (user : ℕ) (ds : List Device)
      → now ≤ now'
      → affected same now' code (approve_rows same now code user ds) ≡ 0
  unfolding affected approve_rows
  affected-approve_rows now now' code user [] h = refl
  affected-approve_rows now now' code user (d ∷ ds) h =
      rw (can_approve-approve_row now now' code user d h)
        (affected-approve_rows now now' code user ds h)

  -- In a table with distinct codes an approval is of one row at most, and a second approval by the same
  -- code, of whatever account, is refused.
  pub approve_device_pairing_once :
      (now now' : ℕ) (code : Bytes) (user user' : ℕ) (t : Devices)
      → IsSame same
      → IsWell same t
      → now ≤ now'
      → (affected same now code t.rows ≤ 1)
        × ((approve_device_pairing same now' code user'
              (approve_device_pairing same now code user t).1).0
            ≡ false)
  unfolding approve_device_pairing
  approve_device_pairing_once now now' code user user' t s w h = (
    affected-one now code t.rows s w.apart,
    ap (λ n. ltb 0 n) (affected-approve_rows now now' code user t.rows h),
  )
