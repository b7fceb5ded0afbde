-- ===== src/Http/Submission/Authorized.antt =====
-- No request is accepted that was not authorized.
use infernal_law.Base.{
  ℕ, ℤ, ◌≡◌, inl, inr, true, Option, none, some, List, ◌∷◌, arith, ok, err, ◌>>◌, Option-cases,
  Bool-cases, Result-cases,
}
use infernal_law.Kernel.Faults.{Cause}
use infernal_law.Kernel.Subscriptions.{SubscriptionError}
use infernal_law.Kernel.Authority.{
  PolicyFacts, Grant, allow, AuthorityDecision, PolicyEvaluation, PolicyEvaluator, is_allowed,
  authorize, decide, for_request_acceptance,
}
use infernal_law.Kernel.Requests.{
  Request, AcceptedRequest, RequestError, accepted, safe_retry, fingerprint,
}
use infernal_law.Postgres.Db.{Db}
use infernal_law.Postgres.Authority.{authority, matching_grants, check_decision, record_decision}
use infernal_law.Postgres.Authority.Pinned.{authorize_allows}
use infernal_law.Postgres.Requests.{
  requests, accept, accept_body, accept_new, accept_again, accepted_from_row, find_request,
  check_references,
}
use infernal_law.Postgres.Subscriptions.{subscriptions}
use infernal_law.Postgres.Routes.{routes}
use infernal_law.Http.Submission.{submit_request, created_201, ok_200, Submitted}

abbrev stored_row : Request → ℕ → ℤ → AcceptedRequest
stored_row r f clock = record { request = r; fingerprint = f; accepted_at = clock }

accept-err :
    (clock : ℤ) (r : Request) (f : ℕ) (db : Db) (e : RequestError)
    → (accept clock r f db).0 ≡ err e
    → ((accept clock r f db).1.accepted_requests ≡ db.accepted_requests)
      × ((accept clock r f db).1.routes ≡ db.routes)
unfolding accept accept_body accept_new accept_again
accept-err clock r f db e h =
    elim (Option-cases (find_request r.source_service r.id db.accepted_requests)) [
      | inl new ↦
          elim (Result-cases (check_references db r >> accepted_from_row (stored_row r f clock))) [
            | inr (x, failed) ↦ (ground (arith, new, failed), ground (arith, new, failed))
            | inl (a, passed) ↦ absurd (ground (arith, new, passed, h))
          ]
      | inr (a, old) ↦ elim (Result-cases (accepted_from_row a)) [
        | inr (x, failed) ↦ (ground (arith, old, failed), ground (arith, old, failed))
        | inl (b, passed) ↦ (ground (arith, old, passed), ground (arith, old, passed))
      ]
    ]

abbrev pub facts_of : Request → PolicyFacts
facts_of r = for_request_acceptance r.source_service r.action r.scope r.schema_versions

-- What was answered as accepted.
abbrev pub answer : Submitted → Option AcceptedRequest
answer (created_201 a) = some a
answer (ok_200 a) = some a
answer _ = none

module _ (evaluate : PolicyEvaluator) (evaluator_id : ℕ) (sha256 : List ℕ → ℕ)
    (describe : SubscriptionError → Cause) (clock : ℤ) where
  abbrev pub submit : ℕ → (ℕ → ℕ) → Request → ℤ → Db → Submitted × Db
  submit =
      submit_request authority (requests clock) subscriptions routes evaluate evaluator_id sha256
        describe

  submitted_allowed :
      (decision : ℕ) (fresh : ℕ → ℕ) (r : Request) (now : ℤ) (db : Db) (a : AcceptedRequest)
      → answer (submit decision fresh r now db).0 ≡ some a
      → (d : AuthorityDecision) × ((authorize authority evaluate evaluator_id decision
            (facts_of r)
            now
            db).0
          ≡ ok d)
        × (is_allowed d ≡ true)
  unfolding submit_request
  submitted_allowed decision fresh r now db a h =
      elim (Result-cases
        (authorize authority evaluate evaluator_id decision (facts_of r) now db).0) [
          | inr (e, failed) ↦ absurd (ground (arith, failed, h))
          | inl (d, decided) ↦ elim (Bool-cases (is_allowed d)) [
            | inr denied ↦ absurd (ground (arith, decided, denied, h))
            | inl allowed ↦ (d, decided, allowed)
          ]
        ]

  -- A submission that is answered with an accepted request, new or not, was allowed by an answer
  -- of the policy evaluator on the grants that match the request's own source, action, scope and
  -- schema versions, before anything was accepted; the decision that says so is recorded.
  pub submit_allowed :
      (decision : ℕ) (fresh : ℕ → ℕ) (r : Request) (now : ℤ) (db : Db) (a : AcceptedRequest)
      → answer (submit decision fresh r now db).0 ≡ some a
      → (grants : List Grant) × (e : PolicyEvaluation) × (d : AuthorityDecision) × (matching_grants
            (facts_of r)
            now
            db
          ≡ ok grants)
        × (evaluate (facts_of r) grants ≡ ok e)
        × (e.verdict ≡ allow)
        × (d.facts ≡ facts_of r)
        × ((authorize authority evaluate evaluator_id decision (facts_of r) now db)
            ≡ (ok d, record db { decisions = d ∷ db.decisions }))
  submit_allowed decision fresh r now db a h =
      let (d, decided, allowed) = submitted_allowed decision fresh r now db a h in
      let p = authorize authority evaluate evaluator_id decision (facts_of r) now db in
      let whole : p ≡ (ok d, p.1) = λ i. (decided i, p.1) in
      let (grants, e, read, answered, allows, facts, _, _, _, recorded) =
        authorize_allows evaluate evaluator_id decision (facts_of r) now db p.1 d whole allowed in
      (grants, e, d, read, answered, allows, facts, λ i. (decided i, recorded i))

  authorize-keeps :
      (decision : ℕ) (facts : PolicyFacts) (now : ℤ) (db : Db)
      → let t = (authorize authority evaluate evaluator_id decision facts now db).1 in
        (t.accepted_requests ≡ db.accepted_requests) × (t.routes ≡ db.routes)
  unfolding authorize record_decision
  authorize-keeps decision facts now db = elim (Result-cases (matching_grants facts now db)) [
    | inr (e, failed) ↦ (ground (arith, failed), ground (arith, failed))
    | inl (grants, read) ↦
        let pinned = decide authority evaluate evaluator_id decision facts now grants in
        elim (Result-cases (check_decision db pinned)) [
          | inr (e, failed) ↦ (ground (arith, read, failed), ground (arith, read, failed))
          | inl (_, passed) ↦ (ground (arith, read, passed), ground (arith, read, passed))
        ]
  ]

  -- A submission that is not answered with an accepted request leaves the accepted requests and the
  -- routes as they were.
  pub submit_refused :
      (decision : ℕ) (fresh : ℕ → ℕ) (r : Request) (now : ℤ) (db : Db)
      → answer (submit decision fresh r now db).0 ≡ none
      → ((submit decision fresh r now db).1.accepted_requests ≡ db.accepted_requests)
        × ((submit decision fresh r now db).1.routes ≡ db.routes)
  unfolding submit_request
  submit_refused decision fresh r now db h =
      let p = authorize authority evaluate evaluator_id decision (facts_of r) now db in
      let f = fingerprint sha256 r in
      let (rows, ways) = authorize-keeps decision (facts_of r) now db in
      elim (Result-cases p.0) [
        | inr (e, failed) ↦ (ground (arith, failed, rows), ground (arith, failed, ways))
        | inl (d, decided) ↦ elim (Bool-cases (is_allowed d)) [
          | inr denied ↦
              (ground (arith, decided, denied, rows), ground (arith, decided, denied, ways))
          | inl allowed ↦ elim (Result-cases (accept clock r f p.1).0) [
            | inr (e, lost) ↦
                let (same, same_ways) = accept-err clock r f p.1 e lost in
                (
                  ground (arith, decided, allowed, lost, same, rows),
                  ground (arith, decided, allowed, lost, same_ways, ways),
                )
            | inl (accepted a, done) ↦ absurd (ground (arith, decided, allowed, done, h))
            | inl (safe_retry a, done) ↦ absurd (ground (arith, decided, allowed, done, h))
          ]
        ]
      ]
