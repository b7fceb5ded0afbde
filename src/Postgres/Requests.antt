-- ===== src/Postgres/Requests.antt =====
-- src/infrastructure/postgres_request_repository.rs with the keys of migrations 0008 and 0014. The
-- CHECK constraints of the migrations repeat the checks of the constructors and are left out.
pub mod Binding
use infernal_law.Base.{
  ℕ, ℤ, String, ◌==◌, Bool, not, ◌&&◌, Option, none, some, List, [], ◌∷◌, Result, ok, err, map_err,
  ok_or, Action, reject, transaction, ◌>>=◌, ◌>>◌, if◌then◌else◌, find_row, any_row,
}
use infernal_law.Kernel.Faults.{Cause, message}
use infernal_law.Kernel.Names
use infernal_law.Kernel.Requests.{
  Request, AcceptedRequest, RequestAcceptance, RequestError, request_id_conflict, unknown_source,
  unknown_schema_version, repository, request_eq, restore_request, restore_accepted,
  RequestRepository,
}
use infernal_law.Kernel.Requests
use infernal_law.Postgres.Db.{Db, AcceptanceOutcome, request_conflict_rejected}
use infernal_law.Postgres.Db

abbrev stored_message : String → RequestError → RequestError
stored_message m e = repository (message m)

-- `accepted_request_from_row`.
unfoldable pub accepted_from_row : AcceptedRequest → Result AcceptedRequest RequestError
accepted_from_row a =
    ok_or (Names.scope a.request.scope) (repository (message "stored request scope is invalid"))
    >> map_err (stored_message "stored request action is invalid") (restore_request a.request)
    >> map_err (stored_message "stored acceptance time is invalid") (restore_accepted a)

abbrev pub same_key : ℕ → ℕ → AcceptedRequest → Bool
same_key source id a = a.request.source_service == source && a.request.id == id

-- FIND_SQL.
unfoldable pub find_request : ℕ → ℕ → List AcceptedRequest → Option AcceptedRequest
find_request source id = find_row (same_key source id)

-- The foreign keys of `accepted_requests`, as `foreign_key_violation_error` reports them.
unfoldable pub check_references : Db → Request → Result Unit RequestError
check_references db r =
    reject (not (any_row (λ i. i.id == r.source_service) db.identities))
      (unknown_source r.source_service)
    >> reject (not (any_row (λ v. v.version.id == r.schema_versions.artifact) db.schema_versions))
        unknown_schema_version
    >> reject
        (not
          (any_row (λ v. v.version.id == r.schema_versions.permission_policy) db.schema_versions))
        unknown_schema_version

-- `append_audit`.
abbrev pub audited : Db → Request → ℕ → AcceptanceOutcome → Db
audited db r f outcome = record db {
  acceptance_audit =
      record { request = r; fingerprint = f; outcome = outcome } ∷ db.acceptance_audit;
}

abbrev pub Acceptance : Type 0
Acceptance = Result RequestAcceptance RequestError × Db

-- INSERT_SQL returned a row.
unfoldable pub accept_new : Request → ℕ → ℤ → Db → Result Acceptance RequestError
accept_new r f clock db = do
  let row : AcceptedRequest = record { request = r; fingerprint = f; accepted_at = clock }
  stored ← check_references db r >> accepted_from_row row
  ok (
    ok (Requests.accepted stored),
    audited (record db { accepted_requests = row ∷ db.accepted_requests }) r f Db.accepted,
  )

-- It conflicted with the row `a`.
unfoldable pub accept_again : Request → ℕ → AcceptedRequest → Db → Result Acceptance RequestError
accept_again r f a db = do
  stored ← accepted_from_row a
  ok (
      if request_eq stored.request r && stored.fingerprint == f
      then (ok (Requests.safe_retry stored), audited db r f Db.safe_retry)
      else (err (request_id_conflict r.id), audited db r f request_conflict_rejected))

-- `accept`; `clock` is `transaction_timestamp()` in seconds.
unfoldable pub accept_body : Request → ℕ → ℤ → Db → Result Acceptance RequestError
accept_body r f clock db = elim (find_request r.source_service r.id db.accepted_requests) [
  | none ↦ accept_new r f clock db
  | some a ↦ accept_again r f a db
]

unfoldable pub accept : ℤ → Request → ℕ → Action Db RequestAcceptance RequestError
accept clock r f = transaction (accept_body r f clock)

unfoldable pub restore_found : Option AcceptedRequest → Result (Option AcceptedRequest) RequestError
restore_found none = ok none
restore_found (some a) = accepted_from_row a >>= λ b. ok (some b)

unfoldable pub find : ℕ → ℕ → Db → Result (Option AcceptedRequest) RequestError
find source id db = restore_found (find_request source id db.accepted_requests)

abbrev pub requests : ℤ → RequestRepository Db
requests clock = record { accept = accept clock; find = find }
