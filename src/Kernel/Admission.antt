-- ===== src/Kernel/Admission.antt =====
-- src/kernel/admission.rs: whether a service may communicate, denied unless it was enabled.
use infernal_law.Base.{
  ℕ, ℤ, pos, ltb_ℤ, Bool, ◌||◌, Option, none, some, Result, ok, err, if◌then◌else◌,
}
use infernal_law.Kernel.Faults.{Cause}

pub record CommunicationAdmission : Type 0 where
  pub service_id : ℕ
  pub enabled : Bool
  pub revision : ℤ
  pub updated_at : ℤ

pub data AdmissionError : Type 0 where
  disabled unknown_service : ℕ → AdmissionError
  invalid_stored_record : AdmissionError
  repository : Cause → AdmissionError

-- `CommunicationAdmission::restore`.
unfoldable pub restore_admission :
    CommunicationAdmission → Result CommunicationAdmission AdmissionError
restore_admission a =
    if ltb_ℤ a.revision (pos 0) || ltb_ℤ a.updated_at (pos 0)
    then err invalid_stored_record
    else ok a

-- `trait AdmissionRepository` over a store `S`.
pub record AdmissionRepository (S : Type 0) : Type 0 where
  pub find : ℕ → S → Result (Option CommunicationAdmission) AdmissionError

-- `AdmissionService::require_enabled`.
unfoldable pub require_enabled :
    {S : Type 0} → AdmissionRepository S → ℕ → S → Result CommunicationAdmission AdmissionError
require_enabled store service s = elim (store.find service s) [
  | err e ↦ err e
  | ok none ↦ err (unknown_service service)
  | ok (some a) ↦ if a.enabled then ok a else err (disabled service)
]
