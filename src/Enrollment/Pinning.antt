-- ===== src/Enrollment/Pinning.antt =====
-- manager/enrollment.go: the fingerprint that an approval pins.
use phimtor.Base.{
  ℕ, Bool, true, String, Option, none, some, List, [], ◌∷◌, lookup, String_discrete, if◌then◌else◌,
  ◌≡◌, ◌≢◌, refl, arith, Option_elim, ◌∙◌,
}
use phimtor.Base.Assoc.{lookup-delete, lookup-insert}
use phimtor.Enrollment.{
  Enrollment, Enrollments, Report, VerifyStatus, verify_pending, verify_approved, verify_mismatch,
  verify, verify_known, approve, revoke, same_digest, refreshed, first_contact,
}

-- The fingerprint of an approved entry.
abbrev pub pin_of : Option Enrollment → Option String
pin_of none = none
pin_of (some e) = if e.approved then some e.fingerprint_hash else none

abbrev pub pinned : String → Enrollments → Option String
pinned id set = pin_of (lookup String_discrete id set)

-- What a verification says when this fingerprint is pinned.
abbrev pub verdict : Option String → String → VerifyStatus
verdict none fingerprint = verify_pending
verdict (some pin) fingerprint =
    if same_digest pin fingerprint then verify_approved else verify_mismatch

module _ (fingerprint : String → String) where
  -- `verify` answers by the pinned fingerprint alone, pending where none is pinned, and leaves what
  -- is pinned under every id as it was.
  pub verify-pinned :
      (now : ℕ) (id token : String) (report : Report) (set : Enrollments) (other : String)
      → ((verify fingerprint now id token report set).1
          ≡ verdict (pinned id set) (fingerprint token))
        × (pinned other (verify fingerprint now id token report set).0 ≡ pinned other set)
  unfolding verify
  verify-pinned now id token report set other =
      Option_elim
        (λ (x : Enrollments × VerifyStatus).
          (x.1 ≡ verdict (pinned id set) (fingerprint token))
          × (pinned other x.0 ≡ pinned other set))
        (lookup String_discrete id set) _ _
        (λ e.
          unfold first_contact in
          (
            ground arith,
            ground (
              arith,
              lookup-insert String_discrete id other
                  (first_contact now id (fingerprint token) report) set,
            ),
          ))
        (λ e found.
          unfold verify_known refreshed in
          (
            ground arith,
            ground (
              arith,
              lookup-insert String_discrete id other (verify_known fingerprint id token report e).0
                  set,
            ),
          ))

  pub data Request : Type 0 where
    verify_call : ℕ → String → String → Report → Request
    approve_call : ℕ → String → Request
    revoke_call : String → Request

  pub handle : Request → Enrollments → Enrollments
  handle (verify_call now id token report) set = (verify fingerprint now id token report set).0
  handle (approve_call now id) set = (approve now id set).0
  handle (revoke_call id) set = (revoke id set).0

  pub handle_all : List Request → Enrollments → Enrollments
  handle_all [] set = set
  handle_all (q ∷ qs) set = handle_all qs (handle q set)

  -- No request revokes the id.
  abbrev pub Unrevoked : String → List Request → Type 0
  Unrevoked id [] = Unit
  Unrevoked id (revoke_call other ∷ qs) = (id ≢ other) × Unrevoked id qs
  Unrevoked id (verify_call _ _ _ _ ∷ qs) = Unrevoked id qs
  Unrevoked id (approve_call _ _ ∷ qs) = Unrevoked id qs

  approve-pinned :
      (now : ℕ) (id other pin : String) (set : Enrollments)
      → pinned id set ≡ some pin
      → pinned id (approve now other set).0 ≡ some pin
  unfolding approve
  approve-pinned now id other pin set h =
      Option_elim (λ (x : Enrollments × Bool). pinned id x.0 ≡ some pin)
        (lookup String_discrete other set) _ _ (λ _. h)
        (λ e found. ground (
          arith,
          lookup-insert String_discrete other id (record e { approved = true; approved_at = now })
              set,
        ))

  revoke-pinned :
      (id other pin : String) (set : Enrollments)
      → id ≢ other
      → pinned id set ≡ some pin
      → pinned id (revoke other set).0 ≡ some pin
  unfolding revoke
  revoke-pinned id other pin set n h =
      Option_elim (λ (x : Enrollments × Bool). pinned id x.0 ≡ some pin)
        (lookup String_discrete other set) _ _ (λ _. h)
        (λ e found. ground (arith, lookup-delete String_discrete other id set))

  handle-pinned :
      (id pin : String) (q : Request) (qs : List Request) (set : Enrollments)
      → Unrevoked id (q ∷ qs)
      → pinned id set ≡ some pin
      → Unrevoked id qs × (pinned id (handle q set) ≡ some pin)
  unfolding handle
  handle-pinned id pin (verify_call now called token report) qs set u h =
      (u, (verify-pinned now called token report set id).1 ∙ h)
  handle-pinned id pin (approve_call now other) qs set u h =
      (u, approve-pinned now id other pin set h)
  handle-pinned id pin (revoke_call other) qs set u h = (u.1, revoke-pinned id other pin set u.0 h)

  handle_all-kept :
      (id pin : String) (qs : List Request) (set : Enrollments)
      → Unrevoked id qs
      → pinned id set ≡ some pin
      → pinned id (handle_all qs set) ≡ some pin
  unfolding handle_all
  handle_all-kept id pin [] set u h = h
  handle_all-kept id pin (q ∷ qs) set u h =
      let (u', h') = handle-pinned id pin q qs set u h in
      handle_all-kept id pin qs (handle q set) u' h'

  -- An approved streamer keeps its pinned fingerprint through every sequence of requests that does not
  -- revoke it, and until then a token is let in exactly if it has that fingerprint.
  pub handle_all-pinned :
      (id pin : String) (qs : List Request) (set : Enrollments)
      → Unrevoked id qs
      → pinned id set ≡ some pin
      → (now : ℕ) (token : String) (report : Report)
      → (verify fingerprint now id token report (handle_all qs set)).1
        ≡ (if same_digest pin (fingerprint token) then verify_approved else verify_mismatch)
  handle_all-pinned id pin qs set u h now token report =
      let (answer, _) = verify-pinned now id token report (handle_all qs set) id in
      answer ∙ rw (handle_all-kept id pin qs set u h) refl
