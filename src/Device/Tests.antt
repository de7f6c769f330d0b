-- ===== src/Device/Tests.antt =====
-- Pairings of televisions at concrete values.
use phimtor.Base.{
  ℕ, ◌≤◌, ◌++◌, true, false, ◌&&◌, Option, none, some, List, [], ◌∷◌, length, if◌then◌else◌, ◌≡◌,
  ◌≢◌, refl, ap, ◌∙◌, arith, leb,
}
use phimtor.Base.Bytes.{Bytes, codes, same_bytes, same_bytes_refl, same_bytes-equal}
use phimtor.Session.{mint_device_token}
use phimtor.Session.Spelled.{signer, signer-IsSigner}
use phimtor.Device.{
  Devices, Letters, user_code_len, random_user_code, format_user_code, normalize_user_code,
  create_device_pairing, approve_device_pairing, affected, device_active, device_pairing, is_taken,
  kept_letters,
}
use phimtor.Device.Handlers.{
  TokenAnswer, ApproveAnswer, account_answer, approved_answer, status_answer, token_answer,
  handle_device_approve, handle_device_token, handle_device_logout, device_user,
}
use phimtor.Device.Codes.{IsLetters, upper, lower_case, normalize_user_code-random_user_code}
use phimtor.Device.Pairing.{
  Call, IsSame, IsWell, no_devices, step, run, approve_device_pairing_once,
}
use phimtor.Device.Keeping.{run-IsWell, no_devices-IsWell}
use phimtor.Device.Revoking.{Approves, Some, run-new-active}
use phimtor.Device.Access.{
  IsAccounts, device_user-handle_device_logout, device_user-handle_device_token,
}
use phimtor.Device.Linking.{handle_device_token-handle_device_approve}

same_bytes-IsSame : IsSame same_bytes
same_bytes-IsSame = record {
  reflexive = same_bytes_refl;
  symmetric = λ a b h. ap (λ x. same_bytes b x) (same_bytes-equal a b h) ∙ same_bytes_refl b;
  transitive = λ a b c h k. ap (λ x. same_bytes x c) (same_bytes-equal a b h) ∙ k;
}

abbrev letters : Letters
letters = record { to_upper = upper; trim_space = λ s. s }

letters-IsLetters : IsLetters letters
letters-IsLetters = record { to_upper-ascii = λ c h. refl; trim_space-printed = λ s h. refl }

abbrev calls : List Call
calls =
    Call.create 100 (codes "secret") (codes "ACDEFGHJ") (codes "tv") 900
    ∷ Call.approve 200 (codes "ACDEFGHJ") 7
    ∷ Call.reap 2000
    ∷ []

abbrev table : Devices
table = run same_bytes calls no_devices

table-IsWell : IsWell same_bytes table
table-IsWell =
    run-IsWell same_bytes calls no_devices same_bytes-IsSame (no_devices-IsWell same_bytes)

table_active : device_active 1 7 table.rows ≡ true
unfolding device_active run step
table_active = refl

run-IsWell_example : IsWell same_bytes (run same_bytes calls no_devices)
run-IsWell_example =
    run-IsWell same_bytes calls no_devices same_bytes-IsSame (no_devices-IsWell same_bytes)

run-new-active_example : Some (Approves 7) calls
run-new-active_example = run-new-active same_bytes 1 7 calls table_active

abbrev open_table : Devices
open_table =
    run same_bytes (Call.create 100 (codes "secret") (codes "ACDEFGHJ") (codes "tv") 900 ∷ [])
      no_devices

open_table-IsWell : IsWell same_bytes open_table
open_table-IsWell =
    run-IsWell same_bytes
      (Call.create 100 (codes "secret") (codes "ACDEFGHJ") (codes "tv") 900 ∷ []) no_devices
      same_bytes-IsSame (no_devices-IsWell same_bytes)

approve_device_pairing_once_example :
    (affected same_bytes 200 (codes "ACDEFGHJ") open_table.rows ≤ 1)
    × ((approve_device_pairing same_bytes 201
          (codes "ACDEFGHJ")
          8
          (approve_device_pairing same_bytes 200 (codes "ACDEFGHJ") 7 open_table).1).0
        ≡ false)
approve_device_pairing_once_example =
    approve_device_pairing_once same_bytes 200 201 (codes "ACDEFGHJ") 7 8 open_table
      same_bytes-IsSame open_table-IsWell (omega arith)

device_user-handle_device_logout_example :
    device_user signer
      (codes "k")
      5000
      true
      (codes "Bearer x")
      (run same_bytes [] (handle_device_logout true (some 1) 7 table).1)
    ≢ some (7, 1)
device_user-handle_device_logout_example =
    device_user-handle_device_logout same_bytes 1 7 table table-IsWell table_active [] signer
      (codes "k") 5000 true (codes "Bearer x") 7

abbrev user_by_id : ℕ → Option ℕ
user_by_id a = if leb 1 a && leb a 9 then some a else none

user_by_id-IsAccounts : IsAccounts user_by_id
user_by_id-IsAccounts a b h = (ground arith, ground arith, ground arith)

abbrev token : Bytes
token = mint_device_token signer (codes "k") 1000 7 1

poll_answers_token :
    (handle_device_token same_bytes signer
      (codes "k")
      1000
      user_by_id
      true
      300
      (some (codes "secret"))
      table).0
    ≡ TokenAnswer.access_token token
unfolding handle_device_token token_answer status_answer approved_answer account_answer
    device_pairing run step
poll_answers_token = refl

device_user-handle_device_token_example :
    (user : ℕ) × (device : ℕ) × (device_active device user table.rows ≡ true)
    × (device_user signer
          (codes "k")
          2000
          true
          (codes "Bearer " ++ token)
          (handle_device_token same_bytes signer
            (codes "k")
            1000
            user_by_id
            true
            300
            (some (codes "secret"))
            table).1
        ≡ some (user, device))
device_user-handle_device_token_example =
    device_user-handle_device_token same_bytes signer (codes "k") 1000 2000 300 user_by_id
      (codes "secret") token table signer-IsSigner user_by_id-IsAccounts table-IsWell
      (unfold run step in omega arith) (omega arith) (omega arith) poll_answers_token

normalize_user_code-random_user_code_example :
    (code : Bytes) × (random_user_code (some (codes "abcdefgh_-z")) ≡ some code)
    × (length code ≡ user_code_len)
    × (normalize_user_code letters (format_user_code code) ≡ code)
    × (normalize_user_code letters (lower_case (format_user_code code)) ≡ code)
normalize_user_code-random_user_code_example =
    normalize_user_code-random_user_code letters (codes "abcdefgh_-z") letters-IsLetters
      (omega arith)

abbrev made : Devices
made =
    (create_device_pairing same_bytes 100 (codes "s") (codes "ACDEFGHJ") (codes "tv") 900
      no_devices).1

abbrev answer : ApproveAnswer × Devices
answer = handle_device_approve same_bytes letters true true 200 7 (some (codes "acde-fghj")) made

handle_device_token-handle_device_approve_example :
    (answer.0 ≡ ApproveAnswer.linked)
    × ((handle_device_token same_bytes signer
          (codes "k")
          1000
          user_by_id
          true
          300
          (some (codes "s"))
          answer.1).0
        ≡ TokenAnswer.access_token token)
handle_device_token-handle_device_approve_example =
    handle_device_token-handle_device_approve same_bytes signer (codes "k") 1000 user_by_id letters
      (codes "acde-fghj") 100 200 300 (codes "s") (codes "ACDEFGHJ") (codes "tv") 900 1 7 no_devices
      same_bytes-IsSame (unfold create_device_pairing is_taken in refl) (ground arith)
      (unfold normalize_user_code kept_letters in refl) refl (omega arith) refl
