-- ===== src/Device/Linking.antt =====
-- viewer/device.go: a pairing from its code to its token.
use phimtor.Base.{
  ℕ, ◌+◌, ◌<◌, Bool, true, false, Option, none, some, List, [], ◌∷◌, length, ◌==◌, ◌≡◌, ◌≢◌, refl,
  ap, ◌∙◌, arith, Bool-cases, inl, inr,
}
use phimtor.Base.Bytes.{Bytes}
use phimtor.Session.{Signer, mint_device_token}
use phimtor.Device.{
  Device, Devices, Status, Letters, user_code_len, normalize_user_code, is_taken, new_pairing,
  create_device_pairing, can_approve, approve_row, approve_rows, affected, approve_device_pairing,
}
use phimtor.Device.Handlers.{
  TokenAnswer, ApproveAnswer, handle_device_approve, handle_device_token, token_answer,
  status_answer, approved_answer, account_answer,
}
use phimtor.Device.Pairing.{IsSame}

module _ (same : Bytes → Bytes → Bool) where
  new_row-approved :
      (id now now' : ℕ) (device_code code name : Bytes) (ttl user : ℕ)
      → IsSame same
      → now' < now + ttl
      → can_approve same now' code (new_pairing id now device_code code name ttl) ≡ true
  unfolding can_approve
  new_row-approved id now now' device_code code name ttl user s h = ground (arith, s.reflexive code)

  created_rows :
      (now : ℕ) (device_code code name : Bytes) (ttl id : ℕ) (t : Devices)
      → (create_device_pairing same now device_code code name ttl t).0 ≡ some id
      → (create_device_pairing same now device_code code name ttl t).1.rows
        ≡ new_pairing id now device_code code name ttl ∷ t.rows
  unfolding create_device_pairing
  created_rows now device_code code name ttl id t h =
      elim (Bool-cases (is_taken same device_code code t.rows)) [
        | inl e ↦ absurd (ground arith)
        | inr e ↦ rw e (ap (λ i. new_pairing i now device_code code name ttl ∷ t.rows) (same_id e))
      ]
    where
      same_id : is_taken same device_code code t.rows ≡ false → t.next_id ≡ id
      same_id e = ground arith

  handle_device_approve-head :
      (u : Letters) (now user : ℕ) (typed code : Bytes) (n : ℕ) (d : Device) (ds : List Device)
      → normalize_user_code u typed ≡ code
      → length code ≡ user_code_len
      → can_approve same now code d ≡ true
      → handle_device_approve same u true true now user
          (some typed)
          (record { next_id = n; rows = d ∷ ds })
        ≡ (
          ApproveAnswer.linked,
          record {
            next_id = n;
            rows = approve_row same now code user d ∷ approve_rows same now code user ds;
          },
        )
  unfolding handle_device_approve approve_device_pairing affected approve_rows
  handle_device_approve-head u now user typed code n d ds e l c =
      rw e (rw (same_length (length code) l) (rw c (ground arith)))
    where
      same_length : (k : ℕ) → k ≡ user_code_len → (k == user_code_len) ≡ true
      same_length k q = ground arith

  -- The row after its approval.
  abbrev linked_row : ℕ → ℕ → ℕ → Bytes → Bytes → ℕ → ℕ → Device
  linked_row id now now' device_code name ttl user = record {
    id = id;
    device_code = device_code;
    user_code = none;
    device_name = name;
    user_id = some user;
    status = Status.approved;
    expires_at = now + ttl;
    approved_at = some now';
    last_seen_at = none;
  }

  approve_row-linked :
      (id now now' : ℕ) (device_code code name : Bytes) (ttl user : ℕ)
      → can_approve same now' code (new_pairing id now device_code code name ttl) ≡ true
      → approve_row same now' code user (new_pairing id now device_code code name ttl)
        ≡ linked_row id now now' device_code name ttl user
  unfolding approve_row
  approve_row-linked id now now' device_code code name ttl user c = rw c refl

  handle_device_token-head :
      (s : Signer) (key : Bytes) (clock : ℕ) (user_by_id : ℕ → Option ℕ) (id now now' now'' : ℕ)
      (device_code code name : Bytes) (ttl user n : ℕ) (ds : List Device)
      → IsSame same
      → device_code ≢ []
      → can_approve same now' code (new_pairing id now device_code code name ttl) ≡ true
      → user_by_id user ≡ some user
      → (handle_device_token same s key clock user_by_id true now'' (some device_code) (record {
        next_id = n;
        rows = approve_row same now' code user (new_pairing id now device_code code name ttl) ∷ ds;
      })).0
        ≡ TokenAnswer.access_token (mint_device_token s key clock user id)
  unfolding handle_device_token
  handle_device_token-head s key clock user_by_id id now now' now'' [] code name ttl user n ds e d c
        a =
      absurd (d refl)
  handle_device_token-head s key clock user_by_id id now now' now'' (x ∷ xs) code name ttl user n ds
        e d c a =
      rw (approve_row-linked id now now' (x ∷ xs) code name ttl user c) (
        rw (e.reflexive (x ∷ xs))
          (unfold token_answer status_answer approved_answer account_answer in rw a refl))

  -- The code of a fresh pairing, as a person may type it, links the pairing to the account that sends
  -- it in time, and then the television's poll is answered with a token for that account and row.
  pub handle_device_token-handle_device_approve :
      (s : Signer) (key : Bytes) (clock : ℕ) (user_by_id : ℕ → Option ℕ) (u : Letters)
      (typed : Bytes) (now now' now'' : ℕ) (device_code code name : Bytes) (ttl id user : ℕ)
      (t : Devices)
      → IsSame same
      → (create_device_pairing same now device_code code name ttl t).0 ≡ some id
      → device_code ≢ []
      → normalize_user_code u typed ≡ code
      → length code ≡ user_code_len
      → now' < now + ttl
      → user_by_id user ≡ some user
      → let t' = (create_device_pairing same now device_code code name ttl t).1 in
        let answer = handle_device_approve same u true true now' user (some typed) t' in
        (answer.0 ≡ ApproveAnswer.linked)
        × ((handle_device_token same s key clock user_by_id true now''
              (some device_code)
              answer.1).0
            ≡ TokenAnswer.access_token (mint_device_token s key clock user id))
  unfolding handle_device_approve
  handle_device_token-handle_device_approve s key clock user_by_id u typed now now' now''
        device_code code name ttl id user t e c d n l h a =
      (
        ap (λ v. v.0) approved_head,
        ap
              (λ v.
                (handle_device_token same s key clock user_by_id true now'' (some device_code)
                  v.1).0)
              approved_head
            ∙ handle_device_token-head s key clock user_by_id id now now' now'' device_code code
                name ttl user _ _ e d
                (new_row-approved id now now' device_code code name ttl user e h) a,
      )
    where
      approved_head :
          handle_device_approve same u true true now' user
            (some typed)
            (create_device_pairing same now device_code code name ttl t).1
          ≡ (
            ApproveAnswer.linked,
            record {
              next_id = (create_device_pairing same now device_code code name ttl t).1.next_id;
              rows =
                  approve_row same now' code user (new_pairing id now device_code code name ttl)
                  ∷ approve_rows same now' code user t.rows;
            },
          )
      approved_head =
          ap
            (λ rows. handle_device_approve same u true true now' user (some typed) (record {
              next_id = (create_device_pairing same now device_code code name ttl t).1.next_id;
              rows = rows;
            }))
            (created_rows now device_code code name ttl id t c)
          ∙ handle_device_approve-head u now' user typed code _
              (new_pairing id now device_code code name ttl) t.rows n l
              (new_row-approved id now now' device_code code name ttl user e h)
