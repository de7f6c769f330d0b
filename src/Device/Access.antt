-- ===== src/Device/Access.antt =====
-- viewer/device.go and viewer/auth.go: from a code on the screen to a television that is signed in,
-- and to its sign-out.
use phimtor.Base.{
  ℕ, ◌+◌, ◌≤◌, ◌<◌, Bool, true, ◌||◌, Option, none, some, List, [], ◌∷◌, ◌++◌, All, ◌≡◌, ◌≢◌, refl,
  sym, ap, ◌∙◌, arith, Bool-cases, Option-cases, inl, inr, subst,
}
use phimtor.Base.Bytes.{Bytes, codes}
use phimtor.Base.Decimal.{max_int64}
use phimtor.Session.{Signer, IsSigner, device_token_ttl, mint_device_token, read_bearer}
use phimtor.Session.Tokens.{read_bearer-mint_device_token}
use phimtor.Device.{Device, Devices, Status, device_pairing, touch_device, grants, device_active}
use phimtor.Device.Handlers.{
  TokenAnswer, account, account_answer, status_answer, approved_answer, token_answer,
  handle_device_token, handle_device_logout, device_user,
}
use phimtor.Device.Pairing.{Call, IsPairedAs, IsPaired, IsNumbered, IsWell, run}
use phimtor.Device.Revoking.{touch_rows-active}
use phimtor.Device.Retiring.{revoke_device-device_active}

-- What is relied on of the accounts: an account found by an id has that id.
abbrev pub IsAccounts : (ℕ → Option ℕ) → Type 0
IsAccounts user_by_id = (a b : ℕ) → user_by_id a ≡ some b → (b ≡ a) × (0 < a) × (a ≤ max_int64)

module _ (same : Bytes → Bytes → Bool) where
  device_pairing-All {κ} :
      (P : Device → Type κ) (code : Bytes) (ds : List Device) (d : Device)
      → All P ds
      → device_pairing same code ds ≡ some d
      → P d
  unfolding device_pairing
  device_pairing-All P code [] d h e = absurd (ground arith)
  device_pairing-All P code (x ∷ ds) d h e = elim (Bool-cases (same x.device_code code)) [
    | inl q ↦ subst P (ground arith) h.0
    | inr q ↦ device_pairing-All P code ds d h.1 (ground arith)
  ]

  device_pairing-active :
      (code : Bytes) (ds : List Device) (d : Device) (user : ℕ)
      → device_pairing same code ds ≡ some d
      → d.status ≡ Status.approved
      → d.user_id ≡ some user
      → device_active d.id user ds ≡ true
  unfolding device_pairing device_active
  device_pairing-active code [] d user e a u = absurd (ground arith)
  device_pairing-active code (x ∷ ds) d user e a u = elim (Bool-cases (same x.device_code code)) [
    | inl q ↦
        subst (λ (y : Device). (grants d.id user y || device_active d.id user ds) ≡ true)
          (sym (found q)) (ground arith)
    | inr q ↦ ground (arith, device_pairing-active code ds d user)
  ]
    where
      found : same x.device_code code ≡ true → x ≡ d
      found q = ground arith

device_user-active :
    (s : Signer) (key : Bytes) (clock : ℕ) (store_answers : Bool) (raw : Bytes) (t : Devices)
    (user device : ℕ)
    → device_user s key clock store_answers raw t ≡ some (user, device)
    → device_active device user t.rows ≡ true
unfolding device_user
device_user-active s key clock store_answers raw t user device h =
    elim (Option-cases (read_bearer s key clock raw)) [
      | inl e ↦ ground arith
      | inr ((u, d), e) ↦ elim (Bool-cases (device_active d u t.rows)) [
        | inl q ↦ ground arith
        | inr q ↦ ground arith
      ]
    ]

device_user-granted :
    (s : Signer) (key : Bytes) (clock : ℕ) (raw : Bytes) (t : Devices) (user device : ℕ)
    → read_bearer s key clock raw ≡ some (user, device)
    → device_active device user t.rows ≡ true
    → device_user s key clock true raw t ≡ some (user, device)
unfolding device_user
device_user-granted s key clock raw t user device r a = ground arith

-- A television that has signed itself out is not recognised again by any header, whatever queries of
-- the table follow.
pub device_user-handle_device_logout :
    (same : Bytes → Bytes → Bool) (device user : ℕ) (t : Devices)
    → IsWell same t
    → device_active device user t.rows ≡ true
    → (cs : List Call) (s : Signer) (key : Bytes) (clock : ℕ) (store_answers : Bool) (raw : Bytes)
      (u : ℕ)
    → device_user s key clock store_answers raw
        (run same cs (handle_device_logout true (some device) user t).1)
      ≢ some (u, device)
unfolding handle_device_logout
device_user-handle_device_logout same device user t w a cs s key clock store_answers raw u h =
    absurd (
      ground (
        arith,
        device_user-active s key clock store_answers raw _ u device h,
        revoke_device-device_active device same user t w a cs u,
      ))

module _ (same : Bytes → Bytes → Bool) (s : Signer) (key : Bytes) where
  -- An approved pairing, polled: the token names the account and the row.
  approved_answer-device_user :
      (clock later now : ℕ) (user_by_id : ℕ → Option ℕ) (d : Device) (t : Devices) (token : Bytes)
      → IsSigner s
      → IsAccounts user_by_id
      → IsPaired d
      → IsNumbered t.next_id d
      → t.next_id ≤ max_int64
      → clock + device_token_ttl ≤ max_int64
      → later < clock + device_token_ttl
      → d.status ≡ Status.approved
      → ((user : ℕ) → d.user_id ≡ some user → device_active d.id user t.rows ≡ true)
      → (approved_answer same s key clock user_by_id now d t).0 ≡ TokenAnswer.access_token token
      → (user : ℕ) × (device_active d.id user t.rows ≡ true)
        × (device_user s key later true
              (codes "Bearer " ++ token)
              (approved_answer same s key clock user_by_id now d t).1
            ≡ some (user, d.id))
  unfolding approved_answer
  approved_answer-device_user clock later now user_by_id d t token g accounts p n m c l a active h =
      elim (Option-cases d.user_id) [
        | inl e ↦ absurd ((subst (λ x. IsPairedAs x d.user_code d.user_id) a p).1 e)
        | inr (user, e) ↦ elim (Option-cases (user_by_id user)) [
          | inl f ↦ absurd (refused (answered e f) h)
          | inr (found, f) ↦ (user, active user e, signed_in user found e f (answered e f))
        ]
      ]
    where
      answered :
          {user : ℕ} {o : Option ℕ}
          → d.user_id ≡ some user
          → user_by_id user ≡ o
          → approved_answer same s key clock user_by_id now d t
            ≡ account_answer same s key clock now d t o
      answered e f =
          unfold approved_answer in
          ap (account_answer same s key clock now d t) (ap (λ x. user_by_id (account x)) e ∙ f)

      refused :
          approved_answer same s key clock user_by_id now d t
            ≡ account_answer same s key clock now d t none
          → (approved_answer same s key clock user_by_id now d t).0 ≡ TokenAnswer.access_token token
          → ⊥
      refused q h = unfold account_answer in ground arith

      minted :
          (found : ℕ)
          → (account_answer same s key clock now d t (some found)).0
            ≡ TokenAnswer.access_token token
          → token ≡ mint_device_token s key clock found d.id
      minted found h = unfold account_answer in ground arith

      touched :
          (user : ℕ)
          → device_active d.id user (touch_device now d.id t).rows ≡ device_active d.id user t.rows
      touched user = unfold touch_device in touch_rows-active same d.id user now d.id t.rows

      signed_in :
          (user found : ℕ)
          → d.user_id ≡ some user
          → user_by_id user ≡ some found
          → approved_answer same s key clock user_by_id now d t
            ≡ account_answer same s key clock now d t (some found)
          → device_user s key later true
              (codes "Bearer " ++ token)
              (approved_answer same s key clock user_by_id now d t).1
            ≡ some (user, d.id)
      signed_in user found e f q =
          let header : Bytes → Bytes = λ tk. codes "Bearer " ++ tk in
          ap (λ v. device_user s key later true (header token) v.1) q
          ∙ (unfold account_answer in
              ap (λ tk. device_user s key later true (header tk) (touch_device now d.id t))
                (minted found (sym (ap (λ v. v.0) q) ∙ h)))
          ∙ device_user-granted s key later (header (mint_device_token s key clock found d.id))
              (touch_device now d.id t) user d.id
              (ap (λ x. read_bearer s key later (header (mint_device_token s key clock x d.id)))
                  (accounts user found f).0
                ∙ read_bearer-mint_device_token s key clock later user d.id g
                    (accounts user found f).1 (accounts user found f).2 n.0 (omega arith) c l)
              (touched user ∙ active user e)

  status_answer-approved :
      (clock now : ℕ) (user_by_id : ℕ → Option ℕ) (d : Device) (t : Devices) (status : Status)
      (token : Bytes)
      → (status_answer same s key clock user_by_id now d t status).0
        ≡ TokenAnswer.access_token token
      → status ≡ Status.approved
  unfolding status_answer
  status_answer-approved clock now user_by_id d t Status.pending token h = absurd (ground arith)
  status_answer-approved clock now user_by_id d t Status.approved token h = refl
  status_answer-approved clock now user_by_id d t Status.revoked token h = absurd (ground arith)

  -- The token that a poll answers signs the television in, as long as it lives and its pairing stands,
  -- for the account that the pairing is good for.
  pub device_user-handle_device_token :
      (clock later now : ℕ) (user_by_id : ℕ → Option ℕ) (code token : Bytes) (t : Devices)
      → IsSigner s
      → IsAccounts user_by_id
      → IsWell same t
      → t.next_id ≤ max_int64
      → clock + device_token_ttl ≤ max_int64
      → later < clock + device_token_ttl
      → (handle_device_token same s key clock user_by_id true now (some code) t).0
        ≡ TokenAnswer.access_token token
      → (user : ℕ) × (device : ℕ) × (device_active device user t.rows ≡ true)
        × (device_user s key later true
              (codes "Bearer " ++ token)
              (handle_device_token same s key clock user_by_id true now (some code) t).1
            ≡ some (user, device))
  unfolding handle_device_token
  device_user-handle_device_token clock later now user_by_id [] token t g accounts w m c l h =
      absurd (ground arith)
  device_user-handle_device_token clock later now user_by_id (x ∷ code) token t g accounts w m c l
        h =
      elim (Option-cases (device_pairing same (x ∷ code) t.rows)) [
        | inl e ↦ absurd (unfold token_answer in ground arith)
        | inr (d, e) ↦ found d e
      ]
    where
      SignedIn : TokenAnswer × Devices → Type 0
      SignedIn a =
          (user : ℕ) × (device : ℕ) × (device_active device user t.rows ≡ true)
          × (device_user s key later true (codes "Bearer " ++ token) a.1 ≡ some (user, device))

      by_status :
          (d : Device)
          → device_pairing same (x ∷ code) t.rows ≡ some d
          → token_answer same s key clock user_by_id now (device_pairing same (x ∷ code) t.rows) t
            ≡ status_answer same s key clock user_by_id now d t d.status
      by_status d e =
          ap (λ o. token_answer same s key clock user_by_id now o t) e
          ∙ (unfold token_answer in refl)

      is_approved :
          (d : Device) → device_pairing same (x ∷ code) t.rows ≡ some d → d.status ≡ Status.approved
      is_approved d e =
          status_answer-approved clock now user_by_id d t d.status token
            (sym (ap (λ v. v.0) (by_status d e)) ∙ h)

      answered :
          (d : Device)
          → device_pairing same (x ∷ code) t.rows ≡ some d
          → token_answer same s key clock user_by_id now (device_pairing same (x ∷ code) t.rows) t
            ≡ approved_answer same s key clock user_by_id now d t
      answered d e =
          by_status d e
          ∙ ap (status_answer same s key clock user_by_id now d t) (is_approved d e)
          ∙ (unfold status_answer in refl)

      found :
          (d : Device)
          → device_pairing same (x ∷ code) t.rows ≡ some d
          → SignedIn (
              token_answer same s key clock user_by_id now
                (device_pairing same (x ∷ code) t.rows)
                t)
      found d e =
          let res =
            approved_answer-device_user clock later now user_by_id d t token g accounts
              (device_pairing-All same IsPaired (x ∷ code) t.rows d w.paired e)
              (device_pairing-All same (IsNumbered t.next_id) (x ∷ code) t.rows d w.numbered e) m c
              l (is_approved d e)
              (λ user u. device_pairing-active same (x ∷ code) t.rows d user e (is_approved d e) u)
              (sym (ap (λ v. v.0) (answered d e)) ∙ h) in
          (
            res.0,
            d.id,
            res.1,
            ap (λ v. device_user s key later true (codes "Bearer " ++ token) v.1) (answered d e)
                ∙ res.2,
          )
