-- ===== src/Device/Keeping.antt =====
-- viewer/store.go: the invariant of the tv_devices table.
use phimtor.Base.{
  ℕ, suc, ◌<◌, Bool, false, ◌&&◌, ◌||◌, ◌⊎◌, Option, none, some, List, [], ◌∷◌, leb, ◌==◌, All,
  All-mono, if_elim, ◌≡◌, refl, sym, ap, ◌∙◌, arith, Bool-cases, inl, inr, subst,
}
use phimtor.Base.Bytes.{Bytes}
use phimtor.Device.{
  Device, Devices, new_pairing, is_pending, is_user, has_code, is_taken, create_device_pairing,
  can_approve, approve_row, approve_rows, approve_device_pairing, touch_device, touch_row,
  touch_rows, revoke_device, revoke_row, revoke_rows, reap_device_pairings, reap_rows,
}
use phimtor.Device.Pairing.{
  Call, IsSame, IsPaired, clashes, AreApart, AllApart, IsNumbered, IsWell, no_devices, step, run,
}

module _ (same : Bytes → Bytes → Bool) where
  -- A row after a query: its keys are kept, or its code is dropped.
  abbrev Keeps : Device → Device → Type 0
  Keeps d e =
      (d.id ≡ e.id)
      × (d.device_code ≡ e.device_code)
      × ((d.user_code ≡ e.user_code) ⊎ (e.user_code ≡ none))

  clashes-none : (c : Option Bytes) → clashes same c none ≡ false
  clashes-none none = refl
  clashes-none (some c) = refl

  Keeps-apart :
      (d d' e e' : Device) → Keeps d d' → Keeps e e' → AreApart same d e → AreApart same d' e'
  Keeps-apart d d' e e' k l a = (
    λ q. a.0 (k.0 ∙ q ∙ sym l.0),
    ap (λ c. same c e'.device_code) (sym k.1) ∙ ap (λ c. same d.device_code c) (sym l.1) ∙ a.1,
    codes d.user_code d'.user_code e.user_code e'.user_code k.2 l.2 a.2,
  )
    where
      codes :
          (c c' f f' : Option Bytes)
          → (c ≡ c') ⊎ (c' ≡ none)
          → (f ≡ f') ⊎ (f' ≡ none)
          → clashes same c f ≡ false
          → clashes same c' f' ≡ false
      codes c c' f f' (inr n) q a = rw n refl
      codes c c' f f' (inl p) (inr n) a = rw n (clashes-none c')
      codes c c' f f' (inl p) (inl q) a =
          ap (λ x. clashes same x f') (sym p) ∙ ap (λ x. clashes same c x) (sym q) ∙ a

  -- A function on rows that keeps keys keeps the rows apart.
  module _ (f : Device → Device) (keeps : (d : Device) → Keeps d (f d)) where
    abbrev each : List Device → List Device
    each [] = []
    each (d ∷ ds) = f d ∷ each ds

    each-apart_from :
        (d : Device) (ds : List Device)
        → All (AreApart same d) ds
        → All (AreApart same (f d)) (each ds)
    each-apart_from d [] h = tt
    each-apart_from d (e ∷ ds) h =
        (Keeps-apart d (f d) e (f e) (keeps d) (keeps e) h.0, each-apart_from d ds h.1)

    each-apart : (ds : List Device) → AllApart same ds → AllApart same (each ds)
    each-apart [] h = tt
    each-apart (d ∷ ds) h = (each-apart_from d ds h.0, each-apart ds h.1)

    each-IsNumbered :
        (n : ℕ) (ds : List Device) → All (IsNumbered n) ds → All (IsNumbered n) (each ds)
    each-IsNumbered n [] h = tt
    each-IsNumbered n (d ∷ ds) h =
        (subst (λ i. (0 < i) × (i < n)) (keeps d).0 h.0, each-IsNumbered n ds h.1)

    each-IsPaired :
        ((d : Device) → IsPaired d → IsPaired (f d))
        → (ds : List Device) → All IsPaired ds
        → All IsPaired (each ds)
    each-IsPaired g [] h = tt
    each-IsPaired g (d ∷ ds) h = (g d h.0, each-IsPaired g ds h.1)

  approve_row-Keeps :
      (now : ℕ) (code : Bytes) (user : ℕ) (d : Device) → Keeps d (approve_row same now code user d)
  unfolding approve_row
  approve_row-Keeps now code user d =
      if_elim (Keeps d) (can_approve same now code d) _ _ (λ _. (refl, refl, inr refl))
        (λ _. (refl, refl, inl refl))

  approve_row-IsPaired :
      (now : ℕ) (code : Bytes) (user : ℕ) (d : Device)
      → IsPaired d
      → IsPaired (approve_row same now code user d)
  unfolding approve_row
  approve_row-IsPaired now code user d h =
      if_elim IsPaired (can_approve same now code d) _ _ (λ _. (refl, λ q. ground arith)) (λ _. h)

  revoke_row-Keeps : (device user : ℕ) (d : Device) → Keeps d (revoke_row device user d)
  unfolding revoke_row
  revoke_row-Keeps device user d =
      if_elim (Keeps d) (d.id == device && is_user user d.user_id) _ _ (λ _. (refl, refl, inr refl))
        (λ _. (refl, refl, inl refl))

  revoke_row-IsPaired :
      (device user : ℕ) (d : Device) → IsPaired d → IsPaired (revoke_row device user d)
  unfolding revoke_row
  revoke_row-IsPaired device user d h =
      if_elim IsPaired (d.id == device && is_user user d.user_id) _ _ (λ _. refl) (λ _. h)

  approve_rows-each :
      (now : ℕ) (code : Bytes) (user : ℕ) (ds : List Device)
      → approve_rows same now code user ds
        ≡ each (approve_row same now code user) (approve_row-Keeps now code user) ds
  unfolding approve_rows
  approve_rows-each now code user [] = refl
  approve_rows-each now code user (d ∷ ds) =
      ap (λ es. approve_row same now code user d ∷ es) (approve_rows-each now code user ds)

  revoke_rows-each :
      (device user : ℕ) (ds : List Device)
      → revoke_rows device user ds ≡ each (revoke_row device user) (revoke_row-Keeps device user) ds
  unfolding revoke_rows
  revoke_rows-each device user [] = refl
  revoke_rows-each device user (d ∷ ds) =
      ap (λ es. revoke_row device user d ∷ es) (revoke_rows-each device user ds)

  each-IsWell :
      (f : Device → Device) (keeps : (d : Device) → Keeps d (f d)) (t : Devices)
      → ((d : Device) → IsPaired d → IsPaired (f d))
      → IsWell same t
      → IsWell same (record { next_id = t.next_id; rows = each f keeps t.rows })
  each-IsWell f keeps t g w = record {
    paired = each-IsPaired f keeps g t.rows w.paired;
    numbered = each-IsNumbered f keeps t.next_id t.rows w.numbered;
    apart = each-apart f keeps t.rows w.apart;
    started = w.started;
  }

  touch_row-Keeps : (now device : ℕ) (d : Device) → Keeps d (touch_row now device d)
  unfolding touch_row
  touch_row-Keeps now device d =
      if_elim (Keeps d) (d.id == device) _ _ (λ _. (refl, refl, inl refl))
        (λ _. (refl, refl, inl refl))

  touch_row-IsPaired :
      (now device : ℕ) (d : Device) → IsPaired d → IsPaired (touch_row now device d)
  unfolding touch_row
  touch_row-IsPaired now device d h = if_elim IsPaired (d.id == device) _ _ (λ _. h) (λ _. h)

  touch_rows-each :
      (now device : ℕ) (ds : List Device)
      → touch_rows now device ds ≡ each (touch_row now device) (touch_row-Keeps now device) ds
  unfolding touch_rows
  touch_rows-each now device [] = refl
  touch_rows-each now device (d ∷ ds) =
      ap (λ es. touch_row now device d ∷ es) (touch_rows-each now device ds)

  reap_rows-All {κ} :
      (P : Device → Type κ) (now : ℕ) (ds : List Device) → All P ds → All P (reap_rows now ds)
  unfolding reap_rows
  reap_rows-All P now [] h = tt
  reap_rows-All P now (d ∷ ds) h =
      if_elim (All P) (is_pending d.status && leb d.expires_at now) _ _
        (λ _. reap_rows-All P now ds h.1) (λ _. (h.0, reap_rows-All P now ds h.1))

  reap_rows-apart :
      (now : ℕ) (ds : List Device) → AllApart same ds → AllApart same (reap_rows now ds)
  unfolding reap_rows
  reap_rows-apart now [] h = tt
  reap_rows-apart now (d ∷ ds) h =
      if_elim (AllApart same) (is_pending d.status && leb d.expires_at now) _ _
        (λ _. reap_rows-apart now ds h.1)
        (λ _. (reap_rows-All (AreApart same d) now ds h.0, reap_rows-apart now ds h.1))

  -- A row whose codes no row has taken stands apart from all of them.
  is_taken-apart :
      (new : Device) (user_code : Bytes) (ds : List Device)
      → IsSame same
      → new.user_code ≡ some user_code
      → All (IsNumbered new.id) ds
      → is_taken same new.device_code user_code ds ≡ false
      → All (AreApart same new) ds
  unfolding is_taken
  is_taken-apart new user_code [] s e n h = tt
  is_taken-apart new user_code (d ∷ ds) s e n h =
      let parts =
        or_false (same d.device_code new.device_code) (has_code same user_code d.user_code)
          (is_taken same new.device_code user_code ds) h in
      (
        (
          λ q. ground (arith, n.0),
          swapped s d.device_code new.device_code parts.0,
          ap (λ c. clashes same c d.user_code) e ∙ clashes-has_code s user_code d.user_code parts.1,
        ),
        is_taken-apart new user_code ds s e n.1 parts.2,
      )
    where
      or_false : (a b c : Bool) → (a || b || c) ≡ false → (a ≡ false) × (b ≡ false) × (c ≡ false)
      or_false a b c h = (ground arith, ground arith, ground arith)

      swapped : IsSame same → (a b : Bytes) → same a b ≡ false → same b a ≡ false
      swapped s a b h = elim (Bool-cases (same b a)) [
        | inl e ↦ absurd (ground (arith, s.symmetric b a e))
        | inr e ↦ e
      ]

      clashes-has_code :
          IsSame same
          → (code : Bytes) (c : Option Bytes) → has_code same code c ≡ false
          → clashes same (some code) c ≡ false
      clashes-has_code s code none h = refl
      clashes-has_code s code (some c) h = swapped s c code h

  create-IsWell :
      (now : ℕ) (device_code user_code name : Bytes) (ttl : ℕ) (t : Devices)
      → IsSame same
      → IsWell same t
      → IsWell same (create_device_pairing same now device_code user_code name ttl t).1
  unfolding create_device_pairing
  create-IsWell now device_code user_code name ttl t s w =
      elim (Bool-cases (is_taken same device_code user_code t.rows)) [
        | inl e ↦ rw e (record {
          paired = w.paired;
          numbered = later t.rows w.numbered;
          apart = w.apart;
          started = omega arith;
        })
        | inr e ↦ rw e (record {
          paired = (((λ q. ground arith), refl), w.paired);
          numbered = ((w.started, omega arith), later t.rows w.numbered);
          apart = (
            is_taken-apart (new_pairing t.next_id now device_code user_code name ttl) user_code
                t.rows s refl w.numbered e,
            w.apart,
          );
          started = omega arith;
        })
      ]
    where
      later :
          (ds : List Device) → All (IsNumbered t.next_id) ds → All (IsNumbered (suc t.next_id)) ds
      later ds h =
          All-mono (IsNumbered t.next_id) (IsNumbered (suc t.next_id)) ds
            (λ d q. (q.0, omega arith)) h

  with_rows :
      (t : Devices) {ds es : List Device}
      → ds ≡ es
      → IsWell same (record { next_id = t.next_id; rows = es })
      → IsWell same (record { next_id = t.next_id; rows = ds })
  with_rows t e w =
      subst (λ rows. IsWell same (record { next_id = t.next_id; rows = rows })) (sym e) w

  step-IsWell : (c : Call) (t : Devices) → IsSame same → IsWell same t → IsWell same (step same c t)
  unfolding step approve_device_pairing touch_device revoke_device reap_device_pairings
  step-IsWell (Call.create now device_code user_code name ttl) t s w =
      create-IsWell now device_code user_code name ttl t s w
  step-IsWell (Call.approve now code user) t s w =
      with_rows t (approve_rows-each now code user t.rows) (
        each-IsWell (approve_row same now code user) (approve_row-Keeps now code user) t
          (approve_row-IsPaired now code user) w)
  step-IsWell (Call.touch now device) t s w = with_rows t (touch_rows-each now device t.rows) (
      each-IsWell (touch_row now device) (touch_row-Keeps now device) t
        (touch_row-IsPaired now device) w)
  step-IsWell (Call.revoke device user) t s w = with_rows t (revoke_rows-each device user t.rows) (
      each-IsWell (revoke_row device user) (revoke_row-Keeps device user) t
        (revoke_row-IsPaired device user) w)
  step-IsWell (Call.reap now) t s w = record {
    paired = reap_rows-All IsPaired now t.rows w.paired;
    numbered = reap_rows-All (IsNumbered t.next_id) now t.rows w.numbered;
    apart = reap_rows-apart now t.rows w.apart;
    started = w.started;
  }

  -- Any sequence of queries keeps the table well formed: a pairing that waits has a code and no account,
  -- an approved one has an account and no code, and ids and codes are distinct.
  pub run-IsWell :
      (cs : List Call) (t : Devices) → IsSame same → IsWell same t → IsWell same (run same cs t)
  unfolding run
  run-IsWell [] t s w = w
  run-IsWell (c ∷ cs) t s w = run-IsWell cs (step same c t) s (step-IsWell c t s w)

  pub no_devices-IsWell : IsWell same no_devices
  no_devices-IsWell = record { paired = tt; numbered = tt; apart = tt; started = omega arith }
