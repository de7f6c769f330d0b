-- ===== src/Device/Revoking.antt =====
-- viewer/store.go and viewer/device.go: who may use a pairing, and for how long.
use phimtor.Base.{
  ℕ, Bool, true, ◌⊎◌, List, [], ◌∷◌, ◌==◌, ◌≡◌, ◌≢◌, refl, sym, ◌∙◌, arith, Bool-cases, inl, inr,
}
use phimtor.Base.Bytes.{Bytes}
use phimtor.Device.{
  Device, Devices, create_device_pairing, approve_row, approve_rows, approve_device_pairing,
  touch_device, touch_row, touch_rows, revoke_device, revoke_row, revoke_rows, reap_device_pairings,
  reap_rows, device_active,
}
use phimtor.Device.Pairing.{Call, no_devices, step, run}

-- The calls in which an account approves.
abbrev pub Approves : ℕ → Call → Type 0
Approves user (Call.create now device_code user_code name ttl) = ⊥
Approves user (Call.approve now code u) = u ≡ user
Approves user (Call.touch now device) = ⊥
Approves user (Call.revoke device u) = ⊥
Approves user (Call.reap now) = ⊥

abbrev pub Some : (Call → Type 0) → List Call → Type 0
Some P [] = ⊥
Some P (c ∷ cs) = P c ⊎ Some P cs

module _ (same : Bytes → Bytes → Bool) (device user : ℕ) where
  approve_rows-active :
      (now : ℕ) (code : Bytes) (u : ℕ) (ds : List Device)
      → u ≢ user
      → device_active device user (approve_rows same now code u ds) ≡ true
      → device_active device user ds ≡ true
  unfolding approve_rows approve_row device_active
  approve_rows-active now code u [] n h = h
  approve_rows-active now code u (d ∷ ds) n h = ground (arith, approve_rows-active now code u ds n)

  pub touch_rows-active :
      (now id : ℕ) (ds : List Device)
      → device_active device user (touch_rows now id ds) ≡ device_active device user ds
  unfolding touch_rows touch_row device_active
  touch_rows-active now id [] = refl
  touch_rows-active now id (d ∷ ds) = ground (arith, touch_rows-active now id ds)

  revoke_rows-active :
      (id u : ℕ) (ds : List Device)
      → device_active device user (revoke_rows id u ds) ≡ true
      → device_active device user ds ≡ true
  unfolding revoke_rows revoke_row device_active
  revoke_rows-active id u [] h = h
  revoke_rows-active id u (d ∷ ds) h = ground (arith, revoke_rows-active id u ds)

  reap_rows-active :
      (now : ℕ) (ds : List Device)
      → device_active device user (reap_rows now ds) ≡ true
      → device_active device user ds ≡ true
  unfolding reap_rows device_active
  reap_rows-active now [] h = h
  reap_rows-active now (d ∷ ds) h = ground (arith, reap_rows-active now ds)

  step-active :
      (c : Call) (t : Devices)
      → device_active device user (step same c t).rows ≡ true
      → (device_active device user t.rows ≡ true) ⊎ Approves user c
  unfolding step create_device_pairing approve_device_pairing touch_device revoke_device
      reap_device_pairings
  step-active (Call.create now device_code user_code name ttl) t h = inl (created h)
    where
      created :
          device_active device user
              (create_device_pairing same now device_code user_code name ttl t).1.rows
            ≡ true
          → device_active device user t.rows ≡ true
      created h = unfold create_device_pairing device_active in ground arith
  step-active (Call.approve now code u) t h = elim (Bool-cases (u == user)) [
    | inl e ↦ inr (ground arith)
    | inr e ↦ inl (approve_rows-active now code u t.rows (ground arith) h)
  ]
  step-active (Call.touch now id) t h = inl (sym (touch_rows-active now id t.rows) ∙ h)
  step-active (Call.revoke id u) t h = inl (revoke_rows-active id u t.rows h)
  step-active (Call.reap now) t h = inl (reap_rows-active now t.rows h)

  run-active :
      (cs : List Call) (t : Devices)
      → device_active device user (run same cs t).rows ≡ true
      → (device_active device user t.rows ≡ true) ⊎ Some (Approves user) cs
  unfolding run
  run-active [] t h = inl h
  run-active (c ∷ cs) t h = elim (run-active cs (step same c t) h) [
    | inr later ↦ inr (inr later)
    | inl now ↦ elim (step-active c t now) [ inl before ↦ inl before | inr this ↦ inr (inl this) ]
  ]

  -- From an empty table, a pairing is only good for an account that has made an approval itself.
  pub run-new-active :
      (cs : List Call)
      → device_active device user (run same cs no_devices).rows ≡ true
      → Some (Approves user) cs
  run-new-active cs h = elim (run-active cs no_devices h) [
    | inl e ↦ absurd (unfold device_active in ground arith)
    | inr s ↦ s
  ]
