-- ===== src/Device/Retiring.antt =====
-- viewer/store.go: a pairing that is revoked stays so.
use phimtor.Base.{
  ℕ, ◌<◌, Bool, true, false, ◌&&◌, ◌⊎◌, List, [], ◌∷◌, leb, ◌==◌, All, All-mono, if_elim, ◌≡◌, ◌≢◌,
  refl, sym, ◌∙◌, arith, Bool-cases, inl, inr,
}
use phimtor.Base.Bytes.{Bytes}
use phimtor.Device.{
  Device, Devices, Status, is_pending, is_user, is_taken, create_device_pairing, can_approve,
  approve_row, approve_rows, approve_device_pairing, touch_device, touch_row, touch_rows,
  revoke_device, revoke_row, revoke_rows, reap_device_pairings, reap_rows, grants, device_active,
}
use phimtor.Device.Pairing.{Call, AreApart, AllApart, IsNumbered, IsWell, step, run}

module _ (device : ℕ) where
  abbrev pub IsRetired : Device → Type 0
  IsRetired d = (d.id ≢ device) ⊎ (d.status ≡ Status.revoked)

  -- No row but a revoked one has the id, and none gets it.
  abbrev pub IsGone : Devices → Type 0
  IsGone t = All IsRetired t.rows × (device < t.next_id)

  IsRetired-grants : (user : ℕ) (d : Device) → IsRetired d → grants device user d ≡ false
  IsRetired-grants user d (inl n) = ground arith
  IsRetired-grants user d (inr e) = ground arith

  pub IsRetired-device_active :
      (user : ℕ) (ds : List Device) → All IsRetired ds → device_active device user ds ≡ false
  unfolding device_active
  IsRetired-device_active user [] h = refl
  IsRetired-device_active user (d ∷ ds) h =
      ground (arith, IsRetired-grants user d h.0, IsRetired-device_active user ds h.1)

  approve_row-IsRetired :
      (same : Bytes → Bytes → Bool) (now : ℕ) (code : Bytes) (user : ℕ) (d : Device)
      → IsRetired d
      → IsRetired (approve_row same now code user d)
  unfolding approve_row
  approve_row-IsRetired same now code user d (inl n) =
      if_elim IsRetired (can_approve same now code d) _ _ (λ _. inl n) (λ _. inl n)
  approve_row-IsRetired same now code user d (inr e) =
      if_elim IsRetired (can_approve same now code d) _ _
        (λ q. absurd (unfold can_approve in ground arith)) (λ _. inr e)

  approve_rows-IsRetired :
      (same : Bytes → Bytes → Bool) (now : ℕ) (code : Bytes) (user : ℕ) (ds : List Device)
      → All IsRetired ds
      → All IsRetired (approve_rows same now code user ds)
  unfolding approve_rows
  approve_rows-IsRetired same now code user [] h = tt
  approve_rows-IsRetired same now code user (d ∷ ds) h = (
    approve_row-IsRetired same now code user d h.0,
    approve_rows-IsRetired same now code user ds h.1,
  )

  touch_rows-IsRetired :
      (now id : ℕ) (ds : List Device) → All IsRetired ds → All IsRetired (touch_rows now id ds)
  unfolding touch_rows touch_row
  touch_rows-IsRetired now id [] h = tt
  touch_rows-IsRetired now id (d ∷ ds) h =
      (if_elim IsRetired (d.id == id) _ _ (λ _. h.0) (λ _. h.0), touch_rows-IsRetired now id ds h.1)

  revoke_rows-IsRetired :
      (id user : ℕ) (ds : List Device) → All IsRetired ds → All IsRetired (revoke_rows id user ds)
  unfolding revoke_rows revoke_row
  revoke_rows-IsRetired id user [] h = tt
  revoke_rows-IsRetired id user (d ∷ ds) h = (
    if_elim IsRetired (d.id == id && is_user user d.user_id) _ _ (λ _. inr refl) (λ _. h.0),
    revoke_rows-IsRetired id user ds h.1,
  )

  reap_rows-IsRetired :
      (now : ℕ) (ds : List Device) → All IsRetired ds → All IsRetired (reap_rows now ds)
  unfolding reap_rows
  reap_rows-IsRetired now [] h = tt
  reap_rows-IsRetired now (d ∷ ds) h =
      if_elim (All IsRetired) (is_pending d.status && leb d.expires_at now) _ _
        (λ _. reap_rows-IsRetired now ds h.1) (λ _. (h.0, reap_rows-IsRetired now ds h.1))

  create-IsGone :
      (same : Bytes → Bytes → Bool) (now : ℕ) (device_code user_code name : Bytes) (ttl : ℕ)
      (t : Devices)
      → IsGone t
      → IsGone (create_device_pairing same now device_code user_code name ttl t).1
  unfolding create_device_pairing
  create-IsGone same now device_code user_code name ttl t h =
      elim (Bool-cases (is_taken same device_code user_code t.rows)) [
        | inl e ↦ rw e (h.0, omega arith)
        | inr e ↦ rw e ((inl (λ q. ground arith), h.0), omega arith)
      ]

  step-IsGone :
      (same : Bytes → Bytes → Bool) (c : Call) (t : Devices) → IsGone t → IsGone (step same c t)
  unfolding step approve_device_pairing touch_device revoke_device reap_device_pairings
  step-IsGone same (Call.create now device_code user_code name ttl) t h =
      create-IsGone same now device_code user_code name ttl t h
  step-IsGone same (Call.approve now code user) t h =
      (approve_rows-IsRetired same now code user t.rows h.0, h.1)
  step-IsGone same (Call.touch now id) t h = (touch_rows-IsRetired now id t.rows h.0, h.1)
  step-IsGone same (Call.revoke id user) t h = (revoke_rows-IsRetired id user t.rows h.0, h.1)
  step-IsGone same (Call.reap now) t h = (reap_rows-IsRetired now t.rows h.0, h.1)

  run-IsGone :
      (same : Bytes → Bytes → Bool) (cs : List Call) (t : Devices)
      → IsGone t
      → IsGone (run same cs t)
  unfolding run
  run-IsGone same [] t h = h
  run-IsGone same (c ∷ cs) t h = run-IsGone same cs (step same c t) (step-IsGone same c t h)

  -- The account's own revocation of its active pairing.
  active-numbered :
      (user n : ℕ) (ds : List Device)
      → All (IsNumbered n) ds
      → device_active device user ds ≡ true
      → device < n
  unfolding device_active
  active-numbered user n [] h a = absurd (ground arith)
  active-numbered user n (d ∷ ds) h a = ground (arith, active-numbered user n ds h.1)

  active-other :
      (same : Bytes → Bytes → Bool) (user : ℕ) (d : Device) (ds : List Device)
      → All (AreApart same d) ds
      → device_active device user ds ≡ true
      → d.id ≢ device
  unfolding device_active
  active-other same user d [] h a = absurd (ground arith)
  active-other same user d (e ∷ ds) h a = ground (arith, active-other same user d ds h.1, h.0.0)

  revoke_rows-retires :
      (same : Bytes → Bytes → Bool) (user : ℕ) (ds : List Device)
      → AllApart same ds
      → device_active device user ds ≡ true
      → All IsRetired (revoke_rows device user ds)
  unfolding revoke_rows revoke_row device_active
  revoke_rows-retires same user [] h a = tt
  revoke_rows-retires same user (d ∷ ds) h a = elim (Bool-cases (grants device user d)) [
    | inl e ↦ (
      if_elim IsRetired (d.id == device && is_user user d.user_id) _ _ (λ _. inr refl)
          (λ q. absurd (ground arith)),
      revoke_rows-IsRetired device user ds
          (All-mono (AreApart same d) IsRetired ds (λ b q. inl (λ p. q.0 (same_id e ∙ sym p))) h.0),
    )
    | inr e ↦ (
      if_elim IsRetired (d.id == device && is_user user d.user_id) _ _ (λ _. inr refl)
          (λ _. inl (active-other same user d ds h.0 (ground arith))),
      revoke_rows-retires same user ds h.1 (ground arith),
    )
  ]
    where
      same_id : grants device user d ≡ true → d.id ≡ device
      same_id e = ground arith

  -- After an account revokes a pairing that was good for it, the pairing is good for no account,
  -- whatever queries follow.
  pub revoke_device-device_active :
      (same : Bytes → Bytes → Bool) (user : ℕ) (t : Devices)
      → IsWell same t
      → device_active device user t.rows ≡ true
      → (cs : List Call) (u : ℕ)
      → device_active device u (run same cs (revoke_device device user t)).rows ≡ false
  unfolding revoke_device
  revoke_device-device_active same user t w a cs u =
      IsRetired-device_active u _
        (run-IsGone same cs _ (
          revoke_rows-retires same user t.rows w.apart a,
          active-numbered user t.next_id t.rows w.numbered a,
        )).0
