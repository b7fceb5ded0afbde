-- ===== src/Postgres/Enrollment.antt =====
-- src/infrastructure/postgres_enrollment_binding_repository.rs with the keys and checks of
-- migrations/0003_service_enrollment_bindings.sql. A challenge is stored by its digest.
pub mod Once
pub mod Authorized
use infernal_law.Base.{
  ℕ, ℤ, pos, ltb_ℤ, ◌==◌, Bool, false, not, ◌&&◌, ◌||◌, Option, none, some, ◌∷◌, Result, ok, err,
  map_err, reject, Action, transaction, ◌>>=◌, ◌>>◌, if◌then◌else◌, find_row, any_row, update_rows,
  is_some, be_bytes, Text, text_eq,
}
use infernal_law.Kernel.Faults.{
  database, message, unique_violation, foreign_key_violation, check_violation,
  enrollment_challenges_pkey, enrollment_challenges_service_fkey, enrollment_challenges_times_check,
}
use infernal_law.Kernel.InstanceKeys.{Crypto}
use infernal_law.Kernel.Enrollment.{
  EnrollmentError, binding_not_found, challenge_rejected, repository, EnrollmentBinding,
  restore_binding, EnrollmentBindingRepository,
}
use infernal_law.Postgres.Db.{Db, BindingRow, EnrollmentChallengeRow}

abbrev pub bound_to : Text → Text → Text → BindingRow → Bool
bound_to namespace account uid b =
    text_eq b.namespace namespace
    && text_eq b.service_account account
    && text_eq b.service_account_uid uid

-- `insert_disabled`: one INSERT, with the keys of the table.
unfoldable pub insert_disabled : EnrollmentBinding → Action Db Unit EnrollmentError
insert_disabled b = transaction (λ db.
    reject
      (any_row
        (λ x.
          x.service_id == b.service_id
          || bound_to b.namespace b.service_account b.service_account_uid x)
        db.bindings)
      (repository (message "enrollment binding already exists"))
    >> reject (not (any_row (λ i. i.id == b.service_id) db.identities))
        (repository (message "service identity was not found"))
    >> ok (
      ok tt,
      record db {
        bindings =
            record {
              service_id = b.service_id;
              namespace = b.namespace;
              service_account = b.service_account;
              service_account_uid = b.service_account_uid;
              enabled = false;
            }
            ∷ db.bindings;
      },
    ))

unfoldable pub set_enabled : ℕ → Bool → Action Db Unit EnrollmentError
set_enabled service enabled db =
    if any_row (λ b. b.service_id == service) db.bindings
    then (
      ok tt,
      record db {
        bindings =
            update_rows (λ b. b.service_id == service) (λ b. record b { enabled = enabled })
              db.bindings;
      },
    )
    else (err binding_not_found, db)

-- `find_workload`, whose WHERE keeps one row at most.
unfoldable pub find_workload :
    Text → Text → Text → Db → Result (Option EnrollmentBinding) EnrollmentError
find_workload namespace account uid db =
    elim (find_row (bound_to namespace account uid) db.bindings) [
      | none ↦ ok none
      | some b ↦
          map_err (λ _. repository (message "stored enrollment binding is invalid"))
            (restore_binding b.service_id b.namespace b.service_account b.service_account_uid
              b.enabled)
          >>= λ x. ok (some x)
    ]

abbrev pub consume_row : ℤ → EnrollmentChallengeRow → EnrollmentChallengeRow
consume_row now c = record c { consumed_at = some now }

module _ (crypto : Crypto) where
  unfoldable pub challenge_digest : ℕ → ℕ
  challenge_digest challenge = crypto.sha256 (be_bytes 32 challenge)

  -- `insert_challenge`: one INSERT, with the keys of the table.
  unfoldable pub insert_challenge : ℕ → ℕ → ℤ → Action Db Unit EnrollmentError
  insert_challenge service challenge expires_at = transaction (λ db.
      let digest = challenge_digest challenge in
      reject (ltb_ℤ expires_at (pos 0))
        (repository (database (check_violation enrollment_challenges_times_check)))
      >> reject (any_row (λ c. c.challenge_digest == digest) db.enrollment_challenges)
          (repository (database (unique_violation enrollment_challenges_pkey)))
      >> reject (not (any_row (λ i. i.id == service) db.identities))
          (repository (database (foreign_key_violation enrollment_challenges_service_fkey)))
      >> ok (
        ok tt,
        record db {
          enrollment_challenges =
              record {
                challenge_digest = digest;
                service_id = service;
                expires_at = expires_at;
                consumed_at = none;
              }
              ∷ db.enrollment_challenges;
        },
      ))

  -- The WHERE of the UPDATE in `consume_challenge`.
  abbrev pub to_consume : ℕ → ℕ → ℤ → EnrollmentChallengeRow → Bool
  to_consume service challenge now c =
      c.challenge_digest == challenge_digest challenge
      && c.service_id == service
      && not (is_some c.consumed_at)
      && ltb_ℤ now c.expires_at

  unfoldable pub consume_challenge : ℕ → ℕ → ℤ → Action Db Unit EnrollmentError
  consume_challenge service challenge now db =
      if not (any_row (to_consume service challenge now) db.enrollment_challenges)
      then (err challenge_rejected, db)
      else if ltb_ℤ now (pos 0)
      then (err (repository (database (check_violation enrollment_challenges_times_check))), db)
      else (
        ok tt,
        record db {
          enrollment_challenges =
              update_rows (to_consume service challenge now) (consume_row now)
                db.enrollment_challenges;
        },
      )

  abbrev pub bindings : EnrollmentBindingRepository Db
  bindings = record {
    insert_disabled = insert_disabled;
    set_enabled = set_enabled;
    find_workload = find_workload;
    insert_challenge = insert_challenge;
    consume_challenge = consume_challenge;
  }
