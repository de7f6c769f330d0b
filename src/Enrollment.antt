-- ===== src/Enrollment.antt =====
-- manager/enrollment.go: the allow-list of streamers. The digest of a control token is an argument, and
-- so are the clock and whether a flush to disk works: its error is logged and has no effect here.
-- `subtle.ConstantTimeCompare` is equality.
pub mod Pinning
mod Tests
use phimtor.Base.{
  ℕ, Bool, true, false, String, Option, none, some, List, [], ◌∷◌, lookup, ite, String_discrete,
  if◌then◌else◌,
}
use phimtor.Base.Assoc.{delete, insert}

pub data VerifyStatus : Type 0 where
  verify_pending : VerifyStatus
  verify_approved : VerifyStatus
  verify_mismatch : VerifyStatus

pub record Enrollment : Type 0 where
  pub id : String
  pub fingerprint_hash : String
  pub approved : Bool
  pub first_seen : ℕ
  pub approved_at : ℕ
  pub last_internal_url : String
  pub last_public_url : String
  pub last_version : String

pub record Report : Type 0 where
  pub internal_url : String
  pub public_url : String
  pub version : String

abbrev pub Enrollments : Type 0
Enrollments = List (String × Enrollment)

abbrev pub same_digest : String → String → Bool
same_digest a b = ite (String_discrete a b) true false

pub load : List Enrollment → Enrollments → Enrollments
load [] set = set
load (e ∷ entries) set = load entries (insert String_discrete e.id e set)

pub refreshed : Report → Enrollment → Enrollment
refreshed report e = record e {
  last_internal_url = report.internal_url;
  last_public_url = report.public_url;
  last_version = report.version;
}

pub first_contact : ℕ → String → String → Report → Enrollment
first_contact now id fingerprint report = record {
  id = id;
  fingerprint_hash = fingerprint;
  approved = false;
  first_seen = now;
  approved_at = 0;
  last_internal_url = report.internal_url;
  last_public_url = report.public_url;
  last_version = report.version;
}

module _ (fingerprint : String → String) where
  pub verify_known : String → String → Report → Enrollment → Enrollment × VerifyStatus
  unfolding refreshed
  verify_known id token report e =
      let e' = refreshed report e in
      if e'.approved
      then (
        e',
        (if same_digest e'.fingerprint_hash (fingerprint token)
            then verify_approved
            else verify_mismatch),
      )
      else (record e' { fingerprint_hash = fingerprint token }, verify_pending)

  pub verify : ℕ → String → String → Report → Enrollments → Enrollments × VerifyStatus
  unfolding first_contact verify_known
  verify now id token report set = elim (lookup String_discrete id set) [
    | none ↦ (
      insert String_discrete id (first_contact now id (fingerprint token) report) set,
      verify_pending,
    )
    | some e ↦
        let (e', status) = verify_known id token report e in
        (insert String_discrete id e' set, status)
  ]

pub approve : ℕ → String → Enrollments → Enrollments × Bool
approve now id set = elim (lookup String_discrete id set) [
  | none ↦ (set, false)
  | some e ↦ (insert String_discrete id (record e { approved = true; approved_at = now }) set, true)
]

pub revoke : String → Enrollments → Enrollments × Bool
revoke id set = elim (lookup String_discrete id set) [
  | none ↦ (set, false)
  | some _ ↦ (delete String_discrete id set, true)
]
