-- ===== src/Kernel/Gate.antt =====
-- src/kernel/request_gate.rs: signature, replay reservation and admission, in this order.
use infernal_law.Base.{ℕ, ℤ, Result, ok, err, Action}
use infernal_law.Kernel.Replay.{
  VerifiedServiceRequest, ReplayDisposition, ReplayProtectionError, ReplayRepository, protect,
}
use infernal_law.Kernel.Admission.{
  CommunicationAdmission, AdmissionError, AdmissionRepository, require_enabled,
}

pub record AdmittedServiceRequest : Type 0 where
  pub verified : VerifiedServiceRequest
  pub replay_disposition : ReplayDisposition
  pub admission_revision : ℤ

pub data GateError (E : Type 0) : Type 0 where
  admission : AdmissionError → GateError E
  replay : ReplayProtectionError → GateError E
  signature : E → GateError E

-- The three steps of the gate as the traits state them. `Signed` and `E` are the signed request
-- and the error of `SignatureVerification`, which only reads the store.
pub record Boundary (S Signed E : Type 0) : Type 0 where
  pub verify_signature : Signed → ℤ → S → Result VerifiedServiceRequest E
  pub reserve_replay : VerifiedServiceRequest → ℤ → Action S ReplayDisposition ReplayProtectionError
  pub require_communication : ℕ → S → Result ℤ AdmissionError

module _ {S Signed E : Type 0} (gate : Boundary S Signed E) where
  abbrev pub check_admission :
      VerifiedServiceRequest
      → Result ReplayDisposition ReplayProtectionError × S
      → Result AdmittedServiceRequest (GateError E) × S
  check_admission v (err e, t) = (err (replay e), t)
  check_admission v (ok d, t) = elim (gate.require_communication v.service_id t) [
    | err e ↦ (err (admission e), t)
    | ok revision ↦
        (ok (record { verified = v; replay_disposition = d; admission_revision = revision }), t)
  ]

  -- `ServiceRequestGate::admit`.
  unfoldable pub admit : Signed → ℤ → Action S AdmittedServiceRequest (GateError E)
  admit request now s = elim (gate.verify_signature request now s) [
    | err e ↦ (err (signature e), s)
    | ok v ↦ check_admission v (gate.reserve_replay v now s)
  ]

abbrev pub enabled_revision : Result CommunicationAdmission AdmissionError → Result ℤ AdmissionError
enabled_revision (ok a) = ok a.revision
enabled_revision (err e) = err e

-- The gate over the replay and admission services.
abbrev pub service_gate :
    {S Signed E : Type 0}
    → (Signed → ℤ → S → Result VerifiedServiceRequest E)
    → ReplayRepository S
    → AdmissionRepository S
    → Boundary S Signed E
service_gate verify replays admissions = record {
  verify_signature = verify;
  reserve_replay = protect replays;
  require_communication = λ service s. enabled_revision (require_enabled admissions service s);
}
