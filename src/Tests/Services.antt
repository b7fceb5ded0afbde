-- ===== src/Tests/Services.antt =====
-- Tests of the gate, the replay protection and the fingerprints.
use infernal_law.Base.{
  ℕ, ℤ, pos, ◌≡◌, ◌≢◌, refl, true, some, [], ◌∷◌, arith, Result, ok, err, find_row, any_row, ◌==◌,
  saturating_add, ◌+ℤ◌,
}
use infernal_law.Kernel.Admission.{
  CommunicationAdmission, disabled, require_enabled, restore_admission,
}
use infernal_law.Kernel.Replay.{
  VerifiedServiceRequest, ReplayReservation, fresh, safe_retry, replay_detected, reservation,
  from_verified, protect,
}
use infernal_law.Base.{bytes, utf8}
use infernal_law.Kernel.Requests.{fingerprint_input}
use infernal_law.Kernel.Requests.Fields.{IsSized, fingerprint_input-fields}
use infernal_law.Kernel.Gate.{AdmittedServiceRequest, admission, replay, admit}
use infernal_law.Postgres.Db.{Db, replay_rejected}
use infernal_law.Postgres.Replay.{
  reserve, reserve_body, reserve_request_id, bound_fingerprint, nonce_used, check_times,
  check_references, audited,
}
use infernal_law.Postgres.Replay.Once.{answered, reserve_all, reserve_once, reserve_binds}
use infernal_law.Postgres.Gate.{gate, admit_all, admit_once, admit_enabled, refused_spends}
use infernal_law.Postgres.Admission
use infernal_law.Tests.{a_request, start_db, verified_of}

-- A reservation of the request 50 of service 11.
abbrev first_reservation : ReplayReservation
first_reservation = reservation (verified_of 11) (pos 101)

-- The same key and nonce, later and for another request id.
abbrev replayed : ReplayReservation
replayed = record first_reservation { request_id = 51; reserved_at = pos 104 }

-- The same request id under another nonce.
abbrev retried : ReplayReservation
retried = record first_reservation { nonce_digest = 901; reserved_at = pos 103 }

first_reserved : (reserve first_reservation start_db).0 ≡ ok fresh
unfolding reserve reserve_body reserve_request_id bound_fingerprint nonce_used check_times
    check_references find_row any_row
first_reserved = refl

first_answered : answered (reserve first_reservation start_db).0 ≡ true
unfolding reserve reserve_body reserve_request_id bound_fingerprint nonce_used check_times
    check_references find_row any_row
first_answered = refl

replayed_times : check_times replayed ≡ ok tt
unfolding check_times
replayed_times = refl

reserve_once_example :
    let u = reserve_all (reserve first_reservation start_db).1 (retried ∷ []) in
    reserve replayed u ≡ (err replay_detected, audited u replayed replay_rejected)
reserve_once_example =
    reserve_once start_db first_reservation (retried ∷ []) replayed first_answered refl refl
      replayed_times

retry_reserved :
    (reserve retried (reserve_all (reserve first_reservation start_db).1 [])).0 ≡ ok safe_retry
unfolding reserve_all reserve reserve_body reserve_request_id bound_fingerprint nonce_used
    check_times check_references find_row any_row
retry_reserved = refl

reserve_binds_example :
    (safe_retry ≡ safe_retry)
    × (retried.request_fingerprint ≡ first_reservation.request_fingerprint)
reserve_binds_example =
    reserve_binds start_db first_reservation [] retried fresh safe_retry first_reserved refl refl
      retry_reserved

-- A verifier that takes the service's id for the signed request.
abbrev verify_service : ℕ → ℤ → Db → Result VerifiedServiceRequest Unit
verify_service service now db = ok (verified_of service)

abbrev admitted : AdmittedServiceRequest
admitted = record {
  verified = verified_of 11;
  replay_disposition = fresh;
  admission_revision = pos 3;
}

abbrev reserved_db : Db
reserved_db = (reserve first_reservation start_db).1

admitted_run : admit (gate verify_service) 11 (pos 101) start_db ≡ (ok admitted, reserved_db)
unfolding admit protect from_verified saturating_add ◌+ℤ◌ require_enabled restore_admission
    Admission.find Admission.restore_found reserve reserve_body reserve_request_id bound_fingerprint
    nonce_used check_times check_references find_row any_row
admitted_run = ground arith

-- Service 12 comes between, and service 11 repeats its request.
admit_once_example :
    admit
      (gate verify_service)
      11
      (pos 104)
      (admit_all verify_service reserved_db ((12, pos 102) ∷ []))
    ≢ (ok admitted, start_db)
admit_once_example =
    admit_once verify_service 11 11 (pos 101) (pos 104) start_db reserved_db start_db admitted
      admitted ((12, pos 102) ∷ []) admitted_run refl refl

admit_enabled_example :
    (row : CommunicationAdmission) × (find_row (λ x. x.service_id == 11) reserved_db.admissions
      ≡ some row)
    × (row.enabled ≡ true)
    × (row.revision ≡ pos 3)
admit_enabled_example =
    admit_enabled verify_service 11 (pos 101) start_db reserved_db admitted admitted_run

-- Service 12 is not admitted.
abbrev spent_db : Db
spent_db = (reserve (reservation (verified_of 12) (pos 101)) start_db).1

refused_run :
    admit (gate verify_service) 12 (pos 101) start_db ≡ (err (admission (disabled 12)), spent_db)
unfolding admit protect from_verified saturating_add ◌+ℤ◌ require_enabled restore_admission
    Admission.find Admission.restore_found reserve reserve_body reserve_request_id bound_fingerprint
    nonce_used check_times check_references find_row any_row
refused_run = ground arith

again_timely :
    from_verified (verified_of 12) (pos 110) ≡ ok (reservation (verified_of 12) (pos 110))
unfolding from_verified saturating_add ◌+ℤ◌
again_timely = ground arith

again_times : check_times (reservation (verified_of 12) (pos 110)) ≡ ok tt
unfolding check_times
again_times = refl

refused_spends_example :
    (admit (gate verify_service) 12 (pos 110) (reserve_all spent_db (first_reservation ∷ []))).0
    ≡ err (replay replay_detected)
refused_spends_example =
    refused_spends verify_service 12 12 (pos 101) (pos 110) start_db spent_db (disabled 12)
      (verified_of 12) (verified_of 12) (first_reservation ∷ []) refused_run refl refl refl refl
      again_timely again_times

-- Two requests that differ in their ids alone.
a_request-IsSized : IsSized a_request
unfolding bytes utf8
a_request-IsSized = ground arith

other-IsSized : IsSized (record a_request { id = 51 })
unfolding bytes utf8
other-IsSized = ground arith

fingerprint_input-fields_example :
    (a_request.source_service ≡ a_request.source_service)
    × (bytes a_request.action ≡ bytes a_request.action)
    × (bytes a_request.scope ≡ bytes a_request.scope)
    × (a_request.schema_versions.artifact ≡ a_request.schema_versions.artifact)
    × (a_request.schema_versions.permission_policy ≡ a_request.schema_versions.permission_policy)
unfolding fingerprint_input
fingerprint_input-fields_example =
    fingerprint_input-fields a_request (record a_request { id = 51 }) a_request-IsSized
      other-IsSized refl
