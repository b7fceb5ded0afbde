-- ===== src/Postgres/Db.antt =====
-- The tables that the repositories of src/infrastructure share. A table is the list of its rows,
-- the newest first; the order shows only where a query has no ORDER BY.
use infernal_law.Base.{ℕ, ℤ, List, Option}
use infernal_law.Base.{Text, Bool}
use infernal_law.Kernel.Schemas.{SchemaRecord}
use infernal_law.Kernel.Authority.{Grant, AuthorityDecision}
use infernal_law.Kernel.Subscriptions.{Subscription}
use infernal_law.Kernel.Requests.{Request, AcceptedRequest, Route}
use infernal_law.Kernel.Replay.{ReplayReservation}
use infernal_law.Kernel.Admission.{CommunicationAdmission}
use infernal_law.Kernel.WorkClaims.{WorkClaim}

pub record GrantRow : Type 0 where
  pub grant : Grant
  pub revoked_at : Option ℤ

pub data SubscriptionAction : Type 0 where
  created disabled : SubscriptionAction

pub record SubscriptionAudit : Type 0 where
  pub subscription : Subscription
  pub action : SubscriptionAction
  pub recorded_at : ℤ

pub data ReplayOutcome : Type 0 where
  fresh safe_retry replay_rejected request_conflict_rejected : ReplayOutcome

pub record ReplayAudit : Type 0 where
  pub reservation : ReplayReservation
  pub outcome : ReplayOutcome

pub record RequestIdRow : Type 0 where
  pub service_id : ℕ
  pub request_id : ℕ
  pub request_fingerprint : ℕ
  pub first_seen_at : ℤ

pub data AcceptanceOutcome : Type 0 where
  accepted safe_retry request_conflict_rejected : AcceptanceOutcome

pub record AcceptanceAudit : Type 0 where
  pub request : Request
  pub fingerprint : ℕ
  pub outcome : AcceptanceOutcome

pub record IdentityRow : Type 0 where
  pub id : ℕ
  pub kind : Text
  pub display_name : Text
  pub status : Text

pub record InstanceRow : Type 0 where
  pub instance_id : ℕ
  pub service_id : ℕ
  pub endpoint : Text
  pub registered_at : ℤ
  pub lease_expires_at : ℤ
  pub lease_revision : ℤ
  pub revoked_at : Option ℤ

pub record KeyRow : Type 0 where
  pub key_id : ℕ
  pub instance_id : ℕ
  pub public_key : ℕ
  pub fingerprint : ℕ
  pub valid_from : ℤ
  pub revoked_at : Option ℤ

pub data RegistryAction : Type 0 where
  registered renewed revoked : RegistryAction

pub record RegistryAudit : Type 0 where
  pub service_id : ℕ
  pub instance_id : ℕ
  pub key_id : ℕ
  pub action : RegistryAction
  pub lease_revision : ℤ
  pub recorded_at : ℤ

pub record BindingRow : Type 0 where
  pub service_id : ℕ
  pub namespace : Text
  pub service_account : Text
  pub service_account_uid : Text
  pub enabled : Bool

pub record EnrollmentChallengeRow : Type 0 where
  pub challenge_digest : ℕ
  pub service_id : ℕ
  pub expires_at : ℤ
  pub consumed_at : Option ℤ

pub record HandshakeChallengeRow : Type 0 where
  pub challenge_digest : ℕ
  pub kernel_instance_id : ℕ
  pub target_instance_id : ℕ
  pub target_key_id : ℕ
  pub issued_at : ℤ
  pub expires_at : ℤ
  pub consumed_at : Option ℤ

pub record HandshakeRow : Type 0 where
  pub challenge_digest : ℕ
  pub kernel_instance_id : ℕ
  pub target_instance_id : ℕ
  pub target_key_id : ℕ
  pub verified_at : ℤ
  pub expires_at : ℤ

pub data HandshakeAction : Type 0 where
  issued verified : HandshakeAction

pub record HandshakeAudit : Type 0 where
  pub challenge_digest : ℕ
  pub kernel_instance_id : ℕ
  pub target_instance_id : ℕ
  pub action : HandshakeAction
  pub recorded_at : ℤ

pub record Db : Type 0 where
  pub identities : List IdentityRow
  pub instance_audit : List RegistryAudit
  pub bindings : List BindingRow
  pub enrollment_challenges : List EnrollmentChallengeRow
  pub handshake_challenges : List HandshakeChallengeRow
  pub handshakes : List HandshakeRow
  pub handshake_audit : List HandshakeAudit
  pub admissions : List CommunicationAdmission
  pub instances : List InstanceRow
  pub keys : List KeyRow
  pub nonces : List ReplayReservation
  pub request_ids : List RequestIdRow
  pub replay_audit : List ReplayAudit
  pub schema_versions : List SchemaRecord
  pub grants : List GrantRow
  pub decisions : List AuthorityDecision
  pub accepted_requests : List AcceptedRequest
  pub acceptance_audit : List AcceptanceAudit
  pub subscriptions : List Subscription
  pub subscription_audit : List SubscriptionAudit
  pub routes : List Route
  pub claims : List WorkClaim
