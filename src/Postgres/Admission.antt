-- ===== src/Postgres/Admission.antt =====
-- src/infrastructure/postgres_admission_repository.rs.
use infernal_law.Base.{ℕ, ◌==◌, Option, none, some, Result, ok, ◌>>=◌, find_row}
use infernal_law.Kernel.Admission.{
  CommunicationAdmission, AdmissionError, restore_admission, AdmissionRepository,
}
use infernal_law.Postgres.Db.{Db}

unfoldable pub restore_found :
    Option CommunicationAdmission → Result (Option CommunicationAdmission) AdmissionError
restore_found none = ok none
restore_found (some a) = restore_admission a >>= λ b. ok (some b)

unfoldable pub find : ℕ → Db → Result (Option CommunicationAdmission) AdmissionError
find service db = restore_found (find_row (λ a. a.service_id == service) db.admissions)

abbrev pub admissions : AdmissionRepository Db
admissions = record { find = find }
