-- ===== src/Tests.antt =====
-- Data for the tests of the other modules: a small database, and its rows.
pub mod Claims
pub mod Services
pub mod Submissions
pub mod Routing
pub mod Registry
pub mod Signing
pub mod Enrolling
use infernal_law.Base.{ℕ, pos, true, false, none, some, List, [], ◌∷◌, Text, codes, ok, err, Result}
use infernal_law.Kernel.Authority.{SchemaVersionRefs, Grant, no_artifact_schema_versions, wildcard}
use infernal_law.Kernel.Requests.{Request, AcceptedRequest, Route}
use infernal_law.Kernel.Replay.{VerifiedServiceRequest}
use infernal_law.Kernel.Subscriptions.{Subscription, inclusive}
use infernal_law.Kernel.WorkClaims.{WorkClaim, active}
use infernal_law.Kernel.Schemas.{SchemaKind, SchemaRecord, artifact, permission_policy}
use infernal_law.Kernel.Schemas
use infernal_law.Postgres.Db.{Db, IdentityRow, GrantRow, InstanceRow, KeyRow}

-- "a.b".
abbrev pub action_text : Text
action_text = b'a' ∷ b'.' ∷ b'b' ∷ []

abbrev pub scope_text : Text
scope_text = b's' ∷ []

-- Service 11 sends requests, service 13 works on them, service 9 evaluates policies.
abbrev pub grant_of : ℕ → Grant
grant_of id = record {
  id = id;
  source = 11;
  action = action_text;
  scope = wildcard;
  schema_versions = no_artifact_schema_versions;
  destination = none;
  valid_from = pos 0;
  valid_until = some (pos 1000);
}

abbrev pub two_grants : List GrantRow
two_grants =
    record { grant = grant_of 81; revoked_at = none }
    ∷ record { grant = grant_of 82; revoked_at = some (pos 3) }
    ∷ []

abbrev pub a_subscription : Subscription
a_subscription = record {
  id = 60;
  service_id = 13;
  event_type = action_text;
  delivery_mode = inclusive;
  created_at = pos 1;
  disabled_at = none;
}

abbrev pub a_request : Request
a_request = record {
  id = 50;
  source_service = 11;
  action = action_text;
  scope = scope_text;
  schema_versions = no_artifact_schema_versions;
}

abbrev pub an_accepted : AcceptedRequest
an_accepted = record { request = a_request; fingerprint = 77; accepted_at = pos 4 }

abbrev pub a_route : Route
a_route = record {
  id = 40;
  source_service = 11;
  request_id = 50;
  subscription_id = 60;
  destination_service = 13;
  created_at = pos 5;
}

abbrev pub a_claim : WorkClaim
a_claim = record {
  id = 70;
  route_id = 40;
  worker_service = 13;
  worker_instance = 20;
  fencing_token = pos 1;
  status = active;
  claimed_at = pos 10;
  lease_expires_at = pos 20;
}

abbrev pub identity_of : ℕ → IdentityRow
identity_of id = record {
  id = id;
  kind = codes "service";
  display_name = codes "billing";
  status = codes "active";
}

-- The only instance of service 13, and its key.
abbrev pub an_instance : InstanceRow
an_instance = record {
  instance_id = 20;
  service_id = 13;
  endpoint = codes "https://a";
  registered_at = pos 5;
  lease_expires_at = pos 65;
  lease_revision = pos 1;
  revoked_at = none;
}

abbrev pub a_key : KeyRow
a_key = record {
  key_id = 30;
  instance_id = 20;
  public_key = 33;
  fingerprint = 34;
  valid_from = pos 5;
  revoked_at = none;
}

abbrev pub schema_of : ℕ → SchemaKind → SchemaRecord
schema_of id kind = record {
  version = record {
    id = id;
    kind = kind;
    name = action_text;
    version = pos 1;
    owner = 9;
    content_digest = 90;
    predecessor = none;
    published_at = pos 0;
  };
  status = Schemas.active;
}

abbrev pub start_db : Db
start_db = record {
  identities = identity_of 9 ∷ identity_of 11 ∷ identity_of 12 ∷ identity_of 13 ∷ [];
  instance_audit = [];
  bindings = [];
  enrollment_challenges = [];
  handshake_challenges = [];
  handshakes = [];
  handshake_audit = [];
  admissions =
      record { service_id = 11; enabled = true; revision = pos 3; updated_at = pos 4 }
      ∷ record { service_id = 12; enabled = false; revision = pos 1; updated_at = pos 1 }
      ∷ [];
  instances = an_instance ∷ [];
  keys = a_key ∷ [];
  nonces = [];
  request_ids = [];
  replay_audit = [];
  schema_versions = schema_of 1 artifact ∷ schema_of 2 permission_policy ∷ [];
  grants = two_grants;
  decisions = [];
  accepted_requests = [];
  acceptance_audit = [];
  subscriptions = a_subscription ∷ [];
  subscription_audit = [];
  routes = [];
  claims = [];
}

-- Its request accepted, and routed; the route claimed.
abbrev pub accepted_db : Db
accepted_db = record start_db { accepted_requests = an_accepted ∷ [] }

abbrev pub routed_db : Db
routed_db = record accepted_db { routes = a_route ∷ [] }

abbrev pub claimed_db : Db
claimed_db = record routed_db { claims = a_claim ∷ [] }

-- A verified request of service `service`.
abbrev pub verified_of : ℕ → VerifiedServiceRequest
verified_of service = record {
  service_id = service;
  instance_id = 20;
  key_id = 30;
  request_id = 50;
  created = pos 100;
  expires = pos 130;
  nonce_digest = 900;
  request_fingerprint = 77;
}
