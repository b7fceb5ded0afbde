-- ===== src/Tests/Enrolling.antt =====
-- The theorems on enrollments, applied to the small database.
use infernal_law.Base.{
  pos, ◌+ℤ◌, ◌≡◌, ◌≢◌, refl, true, none, [], ◌∷◌, Result, ok, checked_add, Text, codes, text_eq,
  bytes, utf8, any_row, find_row, update_rows, be_bytes, trim, trim_start, is_whitespace,
  starts_with,
}
use infernal_law.Kernel.InstanceKeys.{InstancePublicKey, verify}
use infernal_law.Kernel.Instances.{
  RegisteredInstance, validate_endpoint, is_bad_endpoint, restore_instance, register_verified,
}
use infernal_law.Kernel.Enrollment.{
  EnrollmentError, EnrollmentRequest, EnrollmentBinding, VerifiedWorkload, enrollment_audience,
  proof_message, validate_field, is_bad_field, restore_binding,
}
use infernal_law.Kernel.Enrollment.Service.{bound_workload, authenticate, authenticate_and_register}
use infernal_law.Postgres.Db.{Db}
use infernal_law.Postgres.Instances.{insert, insert_body, check_instance, audited}
use infernal_law.Postgres.Enrollment.{
  find_workload, consume_challenge, challenge_digest, to_consume,
}
use infernal_law.Postgres.Enrollment.Authorized.{enroll, Bound, enroll_authorized}
use infernal_law.Postgres.Enrollment.Once.{HasDigestKey, enrollment, after_calls, enroll_once}
use infernal_law.Tests.{start_db}
use infernal_law.Tests.Registry.{toy, a_minute}

abbrev workload : VerifiedWorkload
workload = record {
  namespace = codes "n";
  service_account = codes "s";
  service_account_uid = codes "u";
  pod_name = codes "w";
  pod_uid = codes "p";
  audiences = enrollment_audience ∷ [];
}

-- A reviewer that accepts every token for the one workload.
abbrev review : Text → Text → Result VerifiedWorkload EnrollmentError
review token audience = ok workload

abbrev enroll_db : Db
enroll_db = record start_db {
  bindings =
      record {
        service_id = 13;
        namespace = codes "n";
        service_account = codes "s";
        service_account_uid = codes "u";
        enabled = true;
      }
      ∷ [];
  enrollment_challenges =
      record { challenge_digest = 32; service_id = 13; expires_at = pos 60; consumed_at = none }
      ∷ [];
}

abbrev new_key : InstancePublicKey
new_key = record { service_id = 13; instance_id = 21; key_id = 31; public_key = 44 }

abbrev request : EnrollmentRequest
request = record {
  challenge = 9;
  public_key = new_key;
  endpoint = codes "https://b";
  claimed_pod_uid = codes "p";
  workload_token = codes "t";
  signature = 44;
}

abbrev enrolled : RegisteredInstance
enrolled = record {
  public_key = new_key;
  endpoint = codes "https://b";
  registered_at = pos 40;
  lease_expires_at = pos 100;
  lease_revision = pos 1;
  revoked_at = none;
}

abbrev enrolled_db : Db
enrolled_db = (enroll toy a_minute review request (pos 40) enroll_db).1

enrolled_at_40 : enroll toy a_minute review request (pos 40) enroll_db ≡ (ok enrolled, enrolled_db)
unfolding authenticate_and_register authenticate verify bound_workload text_eq any_row find_row
    find_workload restore_binding validate_field is_bad_field trim trim_start is_whitespace bytes
    utf8 consume_challenge challenge_digest update_rows be_bytes register_verified checked_add ◌+ℤ◌
    restore_instance validate_endpoint is_bad_endpoint starts_with insert insert_body check_instance
    audited
enrolled_at_40 = refl

challenges-HasDigestKey : HasDigestKey enroll_db
unfolding any_row
challenges-HasDigestKey = (refl, tt)

enroll_authorized_example :
    (toy.verifies 44 (proof_message toy 9 new_key (codes "https://b") (codes "p") (codes "t")) 44
      ≡ true)
    × ((w : VerifiedWorkload) × (b : EnrollmentBinding) × Bound toy a_minute review
          (codes "t")
          (codes "p")
          13
          enroll_db
          w
          b)
    × (any_row (to_consume toy 13 9 (pos 40)) enroll_db.enrollment_challenges ≡ true)
enroll_authorized_example =
    enroll_authorized toy a_minute review request (pos 40) enroll_db enrolled_db enrolled
      enrolled_at_40

enroll_once_example :
    enroll toy a_minute review request
      (pos 41)
      (after_calls toy a_minute review (enrollment request (pos 40) ∷ []) enrolled_db)
    ≢ (ok enrolled, enrolled_db)
enroll_once_example =
    enroll_once toy a_minute review request (pos 40) enroll_db enrolled_db enrolled
      challenges-HasDigestKey enrolled_at_40 (enrollment request (pos 40) ∷ []) request refl
      (pos 41) enrolled enrolled_db
