-- ===== src/Kernel/Enrollment/Service.antt =====
-- `EnrollmentService` of src/kernel/enrollment.rs. The token reviewer and the random challenge
-- are parameters.
use infernal_law.Base.{
  ℕ, ℤ, pos, ltb_ℤ, not, ◌==◌, none, some, Result, ok, err, ok_or, map_err, reject, Action, ◌>>=◌,
  ◌>>◌, if◌then◌else◌, any_row, checked_add, Text, text_eq,
}
use infernal_law.Kernel.InstanceKeys.{Crypto, verify}
use infernal_law.Kernel.Instances.{
  LeasePolicy, RegisteredInstance, InstanceRegistryError, InstanceRegistryRepository,
  register_verified,
}
use infernal_law.Kernel.Enrollment.{
  enrollment_audience, enrollment_lifetime_seconds, max_uid_length, EnrollmentError,
  audience_mismatch, binding_disabled, binding_not_found, invalid_field, invalid_proof,
  pod_mismatch, service_mismatch, registry, validate_field, VerifiedWorkload, EnrollmentBinding,
  EnrollmentRequest, EnrollmentBindingRepository, proof_message,
}

module _ {S : Type 0} (bindings : EnrollmentBindingRepository S)
    (instances : InstanceRegistryRepository S) (policy : LeasePolicy) (crypto : Crypto)
    (review : Text → Text → Result VerifiedWorkload EnrollmentError) where
  abbrev issued : ℕ → Result Unit EnrollmentError × S → Result ℕ EnrollmentError × S
  issued challenge (ok u, t) = (ok challenge, t)
  issued challenge (err e, t) = (err e, t)

  -- `EnrollmentService::issue_challenge`; `fresh` is the challenge that is drawn.
  unfoldable pub issue_challenge : ℕ → ℕ → ℤ → Action S ℕ EnrollmentError
  issue_challenge fresh service now s =
      if ltb_ℤ now (pos 0)
      then (err invalid_field, s)
      else elim (checked_add now enrollment_lifetime_seconds) [
        | none ↦ (err invalid_field, s)
        | some expires ↦ issued fresh (bindings.insert_challenge service fresh expires s)
      ]

  -- The enabled binding of the workload that the token proves, if it is of the claimed pod: the
  -- checks that both entry points make.
  unfoldable pub bound_workload : Text → Text → S → Result EnrollmentBinding EnrollmentError
  unfolding text_eq
  bound_workload token pod_uid s = do
    workload ← review token enrollment_audience
    reject (not (any_row (λ a. text_eq a enrollment_audience) workload.audiences)) audience_mismatch
    reject (not (text_eq workload.pod_uid pod_uid)) pod_mismatch
    found ←
        bindings.find_workload workload.namespace workload.service_account
          workload.service_account_uid s
    binding ← ok_or found binding_not_found
    reject (not binding.enabled) binding_disabled
    ok binding

  abbrev issued_for : ℕ → Result ℕ EnrollmentError × S → Result (ℕ × ℕ) EnrollmentError × S
  issued_for service (ok c, t) = (ok (service, c), t)
  issued_for service (err e, t) = (err e, t)

  -- `EnrollmentService::issue_challenge_for_workload`.
  unfoldable pub issue_challenge_for_workload :
      ℕ → Text → Text → ℤ → Action S (ℕ × ℕ) EnrollmentError
  issue_challenge_for_workload fresh token claimed_pod_uid now s =
      elim (validate_field claimed_pod_uid max_uid_length >>= λ pod. bound_workload token pod s) [
        | err e ↦ (err e, s)
        | ok binding ↦
            issued_for binding.service_id (issue_challenge fresh binding.service_id now s)
      ]

  -- What `authenticate_and_register` checks before it changes anything.
  unfoldable pub authenticate : EnrollmentRequest → S → Result Unit EnrollmentError
  authenticate r s = do
    map_err (λ _. invalid_proof)
        (verify crypto r.public_key
          (proof_message crypto r.challenge r.public_key r.endpoint r.claimed_pod_uid
            r.workload_token)
          r.signature)
    binding ← bound_workload r.workload_token r.claimed_pod_uid s
    reject (not (binding.service_id == r.public_key.service_id)) service_mismatch

  abbrev registered :
      Result RegisteredInstance InstanceRegistryError × S
      → Result RegisteredInstance EnrollmentError × S
  registered (r, t) = (map_err registry r, t)

  abbrev consumed :
      EnrollmentRequest
      → ℤ
      → Result Unit EnrollmentError × S
      → Result RegisteredInstance EnrollmentError × S
  consumed r now (ok u, t) =
      registered (register_verified instances policy r.public_key r.endpoint now t)
  consumed r now (err e, t) = (err e, t)

  -- `EnrollmentService::authenticate_and_register`: the challenge is consumed before the instance
  -- is registered, and stays consumed if the registration fails.
  unfoldable pub authenticate_and_register :
      EnrollmentRequest → ℤ → Action S RegisteredInstance EnrollmentError
  authenticate_and_register r now s = elim (authenticate r s) [
    | err e ↦ (err e, s)
    | ok u ↦ consumed r now (bindings.consume_challenge r.public_key.service_id r.challenge now s)
  ]
