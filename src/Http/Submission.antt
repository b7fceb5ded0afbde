-- ===== src/Http/Submission.antt =====
-- src/http.rs: `submit_request` from the request that the DTO gives on. `sha256`, the policy
-- evaluator and `describe` stand for code of others.
pub mod Authorized
use infernal_law.Base.{ℕ, ℤ, Bool, List, Result, ok, err, if◌then◌else◌}
use infernal_law.Kernel.Faults.{Cause}
use infernal_law.Kernel.Authority.{
  AuthorityRepository, AuthorityDecision, AuthorityError, PolicyEvaluator, authorize, is_allowed,
  for_request_acceptance,
}
use infernal_law.Kernel.Subscriptions.{SubscriptionRepository, SubscriptionError}
use infernal_law.Kernel.Requests.{
  Request, AcceptedRequest, RequestAcceptance, accepted, safe_retry, RequestError,
  RequestRepository, RouteRepository, fingerprint,
}
use infernal_law.Http.Routing.{materialize_routes}

-- The responses, by the status that tells them apart.
pub data Submitted : Type 0 where
  created_201 ok_200 : AcceptedRequest → Submitted
  forbidden_403 unavailable_503 : Submitted
  failed : RequestError → Submitted

module _ {S : Type 0} (authority : AuthorityRepository S) (requests : RequestRepository S)
    (subscriptions : SubscriptionRepository S) (routes : RouteRepository S)
    (evaluate : PolicyEvaluator) (evaluator_id : ℕ) (sha256 : List ℕ → ℕ)
    (describe : SubscriptionError → Cause) where
  -- The routing of an accepted request, whose error is logged and dropped.
  abbrev pub routed : (ℕ → ℕ) → AcceptedRequest → ℤ → S → S
  routed fresh a now s =
      (materialize_routes subscriptions routes describe fresh a.request.source_service a.request.id
        a.request.action now s).1

  abbrev pub submit_accepted :
      (ℕ → ℕ) → ℤ → Result RequestAcceptance RequestError × S → Submitted × S
  submit_accepted fresh now (ok (accepted a), s) = (created_201 a, routed fresh a now s)
  submit_accepted fresh now (ok (safe_retry a), s) = (ok_200 a, routed fresh a now s)
  submit_accepted fresh now (err e, s) = (failed e, s)

  abbrev pub submit_authorized :
      (ℕ → ℕ) → Request → ℤ → Result AuthorityDecision AuthorityError × S → Submitted × S
  submit_authorized fresh r now (err e, s) = (unavailable_503, s)
  submit_authorized fresh r now (ok d, s) =
      if is_allowed d
      then submit_accepted fresh now (requests.accept r (fingerprint sha256 r) s)
      else (forbidden_403, s)

  -- `submit_request`; `decision` is the id of the new decision.
  unfoldable pub submit_request : ℕ → (ℕ → ℕ) → Request → ℤ → S → Submitted × S
  submit_request decision fresh r now s = submit_authorized fresh r now (
      authorize authority evaluate evaluator_id decision
        (for_request_acceptance r.source_service r.action r.scope r.schema_versions) now s)
