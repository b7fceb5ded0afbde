-- ===== src/Kernel/Faults.antt =====
-- What the `Repository(String)` cases of the error enums carry. The strings of the code are
-- `error.to_string()` of a database error, or a message of its own: both are kept apart here.
-- A database error is read by the code through `SqlState` and the constraint's name.
use infernal_law.Base.{String}

pub data Constraint : Type 0 where
  work_claims_pkey work_claims_route_token work_claims_one_active : Constraint
  work_claims_route_fkey work_claims_worker_fkey work_claims_instance_fkey : Constraint
  work_claims_token_check work_claims_claimed_check work_claims_lease_check : Constraint
  accepted_requests_source_fkey accepted_requests_artifact_fkey : Constraint
  accepted_requests_policy_fkey accepted_requests_fields_check : Constraint
  request_routes_pkey request_routes_subscription_fkey request_routes_destination_fkey : Constraint
  request_routes_accepted_request_fk request_routes_created_check : Constraint
  subscriptions_pkey subscriptions_one_active_event subscriptions_service_fkey : Constraint
  subscriptions_fields_check : Constraint
  nonces_key_fkey nonces_service_fkey nonces_instance_fkey nonces_times_check : Constraint
  challenges_pkey challenges_target_fkey challenges_key_fkey challenges_times_check : Constraint
  handshakes_pkey handshakes_target_fkey handshakes_key_fkey handshakes_times_check : Constraint
  enrollment_challenges_pkey enrollment_challenges_service_fkey : Constraint
  enrollment_challenges_times_check : Constraint
  schema_versions_pkey schema_versions_name_version schema_versions_owner_fkey : Constraint
  schema_versions_fields_check : Constraint
  decisions_pkey decisions_identity_fkey decisions_schema_fkey decisions_decided_check : Constraint

pub data DbError : Type 0 where
  unavailable : String → DbError
  unique_violation foreign_key_violation check_violation : Constraint → DbError
  raised : String → DbError
  out_of_range unexpected_row_count : DbError

pub data Cause : Type 0 where
  database : DbError → Cause
  message : String → Cause
