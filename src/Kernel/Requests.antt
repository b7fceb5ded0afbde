-- ===== src/Kernel/Requests.antt =====
-- src/kernel/requests.rs: requests, their acceptance, routes, and the repositories' interfaces.
-- A digest of 32 bytes is the number that its bytes spell, the first byte highest.
pub mod Fields
use infernal_law.Base.{
  ℕ, zero, suc, ◌/◌, ◌%◌, ℤ, pos, ltb_ℤ, ◌==◌, Bool, ◌&&◌, Option, List, [], ◌∷◌, ◌++◌, Result, ok,
  err, Action, if◌then◌else◌, length, Text, text_eq, bytes, be_bytes,
}
use infernal_law.Kernel.Faults.{Cause}
use infernal_law.Kernel.Authority.{SchemaVersionRefs, refs_eq}
use infernal_law.Kernel.Names.{is_valid_action_name}

pub record Request : Type 0 where
  pub id : ℕ
  pub source_service : ℕ
  pub action : Text
  pub scope : Text
  pub schema_versions : SchemaVersionRefs

-- The derived `==` of `Request`.
unfoldable pub request_eq : Request → Request → Bool
request_eq a b =
    a.id == b.id
    && a.source_service == b.source_service
    && text_eq a.action b.action
    && text_eq a.scope b.scope
    && refs_eq a.schema_versions b.schema_versions

pub record AcceptedRequest : Type 0 where
  pub request : Request
  pub fingerprint : ℕ
  pub accepted_at : ℤ

pub data RequestAcceptance : Type 0 where
  accepted safe_retry : AcceptedRequest → RequestAcceptance

pub data RequestError : Type 0 where
  invalid_request_id invalid_action_name invalid_accepted_at invalid_route_id : RequestError
  request_id_conflict unknown_source : ℕ → RequestError
  repository : Cause → RequestError
  unknown_schema_version unknown_subscription : RequestError

-- `Request::restore`: the constructor's check on the fields of `r`.
unfoldable pub restore_request : Request → Result Request RequestError
restore_request r = if is_valid_action_name r.action then ok r else err invalid_action_name

-- `AcceptedRequest::restore`.
unfoldable pub restore_accepted : AcceptedRequest → Result AcceptedRequest RequestError
restore_accepted a = if ltb_ℤ a.accepted_at (pos 0) then err invalid_accepted_at else ok a

-- `hash_field`: what it feeds to the hash.
unfoldable pub hash_field : List ℕ → List ℕ
hash_field field = be_bytes 8 (length field) ++ field

-- What `Request::fingerprint` hashes.
unfoldable pub fingerprint_input : Request → List ℕ
fingerprint_input r =
    be_bytes 16 r.source_service
    ++ (hash_field (bytes r.action)
        ++ (hash_field (bytes r.scope)
            ++ (be_bytes 16 r.schema_versions.artifact
                ++ be_bytes 16 r.schema_versions.permission_policy)))

-- `Request::fingerprint` with SHA-256 as a parameter.
abbrev pub fingerprint : (List ℕ → ℕ) → Request → ℕ
fingerprint sha256 r = sha256 (fingerprint_input r)

pub record Route : Type 0 where
  pub id : ℕ
  pub source_service : ℕ
  pub request_id : ℕ
  pub subscription_id : ℕ
  pub destination_service : ℕ
  pub created_at : ℤ

-- `Route::restore`.
unfoldable pub restore_route : Route → Result Route RequestError
restore_route r = if ltb_ℤ r.created_at (pos 0) then err invalid_accepted_at else ok r

-- `trait RequestRepository` over a store `S`.
pub record RequestRepository (S : Type 0) : Type 0 where
  pub accept : Request → ℕ → Action S RequestAcceptance RequestError
  pub find : ℕ → ℕ → S → Result (Option AcceptedRequest) RequestError

-- `trait RouteRepository` over a store `S`.
pub record RouteRepository (S : Type 0) : Type 0 where
  pub materialize : Route → Action S Route RequestError
  pub find : ℕ → S → Result (Option Route) RequestError
  pub list_for_request : ℕ → S → Result (List Route) RequestError
  pub list_for_destination : ℕ → S → Result (List Route) RequestError

-- `RouteService::materialize`, with `Route::create`; `fresh` is the new route's id.
unfoldable pub materialize_route :
    {S : Type 0} → RouteRepository S → ℕ → ℕ → ℕ → ℕ → ℕ → ℤ → Action S Route RequestError
materialize_route routes fresh source request subscription destination now s =
    let r : Route = record {
      id = fresh;
      source_service = source;
      request_id = request;
      subscription_id = subscription;
      destination_service = destination;
      created_at = now;
    } in
    elim (restore_route r) [ err e ↦ (err e, s) | ok x ↦ routes.materialize x s ]
