-- ===== src/Enrollment/Tests.antt =====
-- The allow-list at concrete requests. The digest is stood for by a text put in front.
use phimtor.Base.{
  String, List, [], ◌∷◌, some, true, ◌≡◌, ◌≢◌, if◌then◌else◌, refl, subst, lookup, String_discrete,
}
use Prim.Native.String.{◌++◌}
use phimtor.Enrollment.{Enrollments, Report, verify, verify_approved, verify_mismatch, same_digest}
use phimtor.Enrollment.Pinning.{
  Request, verify_call, approve_call, revoke_call, handle_all, pinned, handle_all-pinned,
}

abbrev digest : String → String
digest token = "sha:" ++ token

abbrev report : Report
report = record { internal_url = "http://in"; public_url = "http://out"; version = "v2" }

abbrev enrolled : Enrollments
enrolled =
    (
      "a",
      record {
        id = "a";
        fingerprint_hash = "sha:t";
        approved = true;
        first_seen = 1;
        approved_at = 2;
        last_internal_url = "http://in";
        last_public_url = "http://out";
        last_version = "v1";
      },
    )
    ∷ []

-- Someone else claims the id, and another streamer comes and goes.
abbrev requests : List (Request digest)
requests =
    verify_call 5 "a" "forged" report
    ∷ verify_call 6 "b" "u" report
    ∷ approve_call 7 "b"
    ∷ revoke_call "b"
    ∷ []

abbrev streamer_a : String
streamer_a = "a"

abbrev streamer_b : String
streamer_b = "b"

a_is_not_b : streamer_a ≢ streamer_b
unfolding String_discrete
a_is_not_b e = subst (λ s. if same_digest streamer_a s then Unit else ⊥) e tt

a_pinned : pinned "a" enrolled ≡ some "sha:t"
unfolding lookup String_discrete
a_pinned = refl

handle_all-pinned_example :
    (verify digest 9 "a" "t" report (handle_all digest requests enrolled)).1
    ≡ (if same_digest "sha:t" (digest "t") then verify_approved else verify_mismatch)
handle_all-pinned_example =
    handle_all-pinned digest "a" "sha:t" requests enrolled (a_is_not_b, tt) a_pinned 9 "t" report
