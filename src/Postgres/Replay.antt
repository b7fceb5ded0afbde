-- ===== src/Postgres/Replay.antt =====
-- src/infrastructure/postgres_replay_protection_repository.rs with the constraints of
-- migrations/0006_service_request_replay_protection.sql.
pub mod Once
use infernal_law.Base.{
  ℕ, ℤ, pos, ltb_ℤ, leb_ℤ, ◌==◌, Bool, true, false, not, ◌&&◌, ◌||◌, Option, none, some, List, [],
  ◌∷◌, Result, ok, err, map_err, Action, reject, transaction, ◌>>=◌, ◌>>◌, if◌then◌else◌, find_row,
  any_row,
}
use infernal_law.Kernel.Faults.{
  DbError, foreign_key_violation, check_violation, nonces_key_fkey, nonces_service_fkey,
  nonces_instance_fkey, nonces_times_check, database,
}
use infernal_law.Kernel.Replay.{
  ReplayReservation, ReplayDisposition, ReplayProtectionError, replay_detected, request_id_conflict,
  repository, ReplayRepository,
}
use infernal_law.Kernel.Replay
use infernal_law.Postgres.Db.{
  Db, RequestIdRow, ReplayOutcome, replay_rejected, request_conflict_rejected,
}
use infernal_law.Postgres.Db

abbrev pub repository_error : DbError → ReplayProtectionError
repository_error e = repository (database e)

-- ON CONFLICT (key_id, nonce_digest).
unfoldable pub nonce_used : Db → ReplayReservation → Bool
nonce_used db r = any_row (λ n. n.key_id == r.key_id && n.nonce_digest == r.nonce_digest) db.nonces

-- The CHECK constraints of `service_request_nonces`, which come before the conflict, and the
-- foreign keys of the row, which come after it.
unfoldable pub check_times : ReplayReservation → Result Unit DbError
check_times r =
    reject
      (ltb_ℤ r.signature_created (pos 0)
        || ltb_ℤ r.reserved_at (pos 0)
        || leb_ℤ r.signature_expires r.signature_created)
      (check_violation nonces_times_check)

unfoldable pub check_references : Db → ReplayReservation → Result Unit DbError
check_references db r =
    reject (not (any_row (λ k. k.key_id == r.key_id) db.keys))
      (foreign_key_violation nonces_key_fkey)
    >> reject (not (any_row (λ i. i.id == r.service_id) db.identities))
        (foreign_key_violation nonces_service_fkey)
    >> reject (not (any_row (λ i. i.instance_id == r.instance_id) db.instances))
        (foreign_key_violation nonces_instance_fkey)

-- The fingerprint to which `service_request_ids` binds the request's id.
unfoldable pub bound_fingerprint : Db → ReplayReservation → Option ℕ
bound_fingerprint db r =
    elim (find_row (λ i. i.service_id == r.service_id && i.request_id == r.request_id)
      db.request_ids) [ none ↦ none | some i ↦ some i.request_fingerprint ]

-- `append_audit`.
abbrev pub audited : Db → ReplayReservation → ReplayOutcome → Db
audited db r outcome = record db {
  replay_audit = record { reservation = r; outcome = outcome } ∷ db.replay_audit;
}

abbrev pub with_nonce : Db → ReplayReservation → Db
with_nonce db r = record db { nonces = r ∷ db.nonces }

abbrev pub with_request_id : Db → ReplayReservation → Db
with_request_id db r = record db {
  request_ids =
      record {
        service_id = r.service_id;
        request_id = r.request_id;
        request_fingerprint = r.request_fingerprint;
        first_seen_at = r.reserved_at;
      }
      ∷ db.request_ids;
}

abbrev pub Reserved : Type 0
Reserved = Result ReplayDisposition ReplayProtectionError × Db

-- The reservation of the request id, once the nonce is reserved: the row is inserted unless there
-- is one, and the stored fingerprint is read back.
unfoldable pub reserve_request_id : Db → ReplayReservation → Reserved
reserve_request_id db r = elim (bound_fingerprint db r) [
  | none ↦ (ok Replay.fresh, audited (with_request_id db r) r Db.fresh)
  | some f ↦
      if f == r.request_fingerprint
      then (ok Replay.safe_retry, audited db r Db.safe_retry)
      else (err request_id_conflict, audited db r request_conflict_rejected)
]

unfoldable pub reserve_body : ReplayReservation → Db → Result Reserved ReplayProtectionError
reserve_body r db =
    map_err repository_error (check_times r)
    >> (if nonce_used db r
        then ok (err replay_detected, audited db r replay_rejected)
        else (map_err repository_error (check_references db r)
            >> ok (reserve_request_id (with_nonce db r) r)))

unfoldable pub reserve : ReplayReservation → Action Db ReplayDisposition ReplayProtectionError
reserve r = transaction (reserve_body r)

abbrev pub replays : ReplayRepository Db
replays = record { reserve = reserve }
