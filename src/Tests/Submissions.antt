-- ===== src/Tests/Submissions.antt =====
-- Tests of the requests, the authority, the submission and the names.
use infernal_law.Base.{
  ℕ, pos, ◌≡◌, ◌↔◌, ◌⊎◌, refl, true, false, not, ◌&&◌, none, some, List, [], ◌∷◌, arith, ok, err,
  find_row, any_row, where_rows, is_some, Text, split_dots, all, bytes, utf8, trim, trim_start,
  is_whitespace, text_eq, ◌==◌, if◌then◌else◌,
}
use infernal_law.Kernel.Faults.{Cause, DbError, message, database}
use infernal_law.Kernel.Names.{
  is_valid_action_name, event_type, namespaced, is_valid_action_segment, starts_lower, action_name,
  scope,
}
use infernal_law.Kernel.Names.Grammar.{action_name-event_type}
use infernal_law.Kernel.Subscriptions.{SubscriptionError}
use infernal_law.Kernel.Authority.{
  PolicyFacts, Grant, PolicyEvaluation, PolicyEvaluator, AuthorityDecision, allow, deny, permits,
  restore_grant, authorize, decide, is_allowed, AuthorityError, evaluator, repository,
}
use infernal_law.Kernel.Requests.{
  request_eq, restore_request, restore_accepted, accepted, safe_retry, request_id_conflict,
}
use infernal_law.Postgres.Db.{Db}
use infernal_law.Postgres.Requests.{
  accept, accept_body, accept_new, accepted_from_row, find_request, check_references,
}
use infernal_law.Postgres.Requests.Binding.{Submission, accept_all, accept_binds}
use infernal_law.Postgres.Authority.{
  authority, matching_grants, row_matches, grant_from_row, grants_from_rows, check_decision,
  record_decision,
}
use infernal_law.Postgres.Authority.Matching.{matching_grants-permit}
use infernal_law.Postgres.Authority.Pinned.{Allows, authorize_allows, authorize_closed}
use infernal_law.Http.Submission.{submit_request, Submitted}
use infernal_law.Http.Submission.Authorized.{
  submit, answer, submit_allowed, submit_refused, facts_of,
}
use infernal_law.Tests.{action_text, grant_of, a_request, an_accepted, start_db}

action_valid : is_valid_action_name action_text ≡ true
unfolding is_valid_action_name namespaced is_valid_action_segment starts_lower split_dots all bytes
    utf8
action_valid = ground arith

action_name-event_type_example : event_type action_text ≡ some action_text
action_name-event_type_example = action_name-event_type action_text action_valid

abbrev first_submission : Submission
first_submission = record { request = a_request; fingerprint = 77; clock = pos 4 }

-- The same id with another fingerprint.
abbrev conflicting : Submission
conflicting = record first_submission { fingerprint = 78; clock = pos 9 }

first_accepted : (accept (pos 4) a_request 77 start_db).0 ≡ ok (accepted an_accepted)
unfolding accept accept_body accept_new accepted_from_row check_references find_request find_row
    any_row scope restore_request restore_accepted is_valid_action_name namespaced
    is_valid_action_segment starts_lower split_dots all bytes utf8 trim trim_start is_whitespace
    text_eq
first_accepted = refl

accept_binds_example :
    let u = accept_all (accept (pos 4) a_request 77 start_db).1 (first_submission ∷ []) in
    ((accept (pos 9) a_request 78 u).0 ≡ (
      if request_eq a_request a_request && 77 == 78
      then ok (safe_retry an_accepted)
      else err (request_id_conflict 50)))
    × ((accept (pos 9) a_request 78 u).1.accepted_requests ≡ u.accepted_requests)
accept_binds_example =
    accept_binds start_db first_submission (accepted an_accepted) (first_submission ∷ [])
      conflicting first_accepted refl refl

-- An evaluator that allows what some grant covers, and one that cannot be reached.
abbrev bundle : Text
bundle = b'v' ∷ []

abbrev allows_granted : PolicyEvaluator
allows_granted facts [] = ok (record { verdict = deny; policy_bundle_version = bundle })
allows_granted facts (g ∷ gs) = ok (record { verdict = allow; policy_bundle_version = bundle })

abbrev unreachable : PolicyEvaluator
unreachable facts grants = err (evaluator (message "policy service is unreachable"))

abbrev the_facts : PolicyFacts
the_facts = facts_of a_request

granted : matching_grants the_facts (pos 4) start_db ≡ ok (grant_of 81 ∷ [])
unfolding matching_grants row_matches where_rows grants_from_rows grant_from_row restore_grant
    action_name scope is_valid_action_name namespaced is_valid_action_segment starts_lower
    split_dots all bytes utf8 trim trim_start is_whitespace text_eq
granted = refl

matching_grants-permit_example :
    any_row (λ g. g.id == 82) (grant_of 81 ∷ [])
    ≡ any_row
        (λ row.
          permits row.grant the_facts (pos 4) && not (is_some row.revoked_at) && row.grant.id == 82)
        start_db.grants
matching_grants-permit_example =
    matching_grants-permit start_db the_facts (pos 4) (grant_of 81 ∷ []) (λ g. g.id == 82) granted

abbrev the_decision : AuthorityDecision
the_decision = record {
  id = 500;
  facts = the_facts;
  verdict = allow;
  evaluated_by = 9;
  policy_bundle_version = some bundle;
  decided_at = pos 4;
}

abbrev decided_db : Db
decided_db = record start_db { decisions = the_decision ∷ [] }

authorized :
    authorize authority allows_granted 9 500 the_facts (pos 4) start_db
    ≡ (ok the_decision, decided_db)
unfolding authorize record_decision check_decision any_row matching_grants row_matches where_rows
    grants_from_rows grant_from_row restore_grant action_name scope is_valid_action_name namespaced
    is_valid_action_segment starts_lower split_dots all bytes utf8 trim trim_start is_whitespace
    text_eq
authorized = refl

authorize_allows_example :
    (grants : List Grant) × (e : PolicyEvaluation) × (matching_grants the_facts (pos 4) start_db
      ≡ ok grants)
    × (allows_granted the_facts grants ≡ ok e)
    × (e.verdict ≡ allow)
    × (the_decision.facts ≡ the_facts)
    × (the_decision.evaluated_by ≡ 9)
    × (the_decision.decided_at ≡ pos 4)
    × (the_decision.policy_bundle_version ≡ some e.policy_bundle_version)
    × (decided_db ≡ record start_db { decisions = the_decision ∷ start_db.decisions })
authorize_allows_example =
    authorize_allows allows_granted 9 500 the_facts (pos 4) start_db decided_db the_decision
      authorized refl

-- The evaluator cannot be reached.
authorize_closed_example :
    let answered = authorize authority unreachable 9 500 the_facts (pos 4) start_db in
    ((d : AuthorityDecision) × (grants : List Grant) × (answered
        ≡ (ok d, record start_db { decisions = d ∷ start_db.decisions }))
      × (matching_grants the_facts (pos 4) start_db ≡ ok grants)
      × ((is_allowed d ≡ true) ↔ Allows unreachable the_facts grants)
      × ((is_some d.policy_bundle_version ≡ false)
          ↔ ((x : AuthorityError) × (unreachable the_facts grants ≡ err x)))
      × (check_decision start_db d ≡ ok tt))
    ⊎ ((x : AuthorityError) × (answered ≡ (err x, start_db))
        × ((matching_grants the_facts (pos 4) start_db ≡ err x)
            ⊎ ((grants : List Grant) × (e : DbError) × (matching_grants the_facts (pos 4) start_db
                  ≡ ok grants)
                × (check_decision start_db
                      (decide authority unreachable 9 500 the_facts (pos 4) grants)
                    ≡ err e)
                × (x ≡ repository (database e)))))
authorize_closed_example = authorize_closed unreachable 9 500 the_facts (pos 4) start_db

abbrev silent : SubscriptionError → Cause
silent e = message "subscriptions"

abbrev digest : List ℕ → ℕ
digest bs = 77

abbrev submit_with : PolicyEvaluator → Submitted × Db
submit_with evaluate =
    submit evaluate 9 digest silent (pos 4) 500 (λ s. 40) a_request (pos 4) start_db

submitted : answer (submit_with allows_granted).0 ≡ some an_accepted
unfolding submit_request authorize record_decision check_decision any_row matching_grants
    row_matches where_rows grants_from_rows grant_from_row restore_grant action_name scope
    is_valid_action_name namespaced is_valid_action_segment starts_lower split_dots all bytes utf8
    trim trim_start is_whitespace text_eq accept accept_body accept_new accepted_from_row
    check_references find_request find_row restore_request restore_accepted
submitted = refl

submit_allowed_example :
    (grants : List Grant) × (e : PolicyEvaluation) × (d : AuthorityDecision) × (matching_grants
        the_facts
        (pos 4)
        start_db
      ≡ ok grants)
    × (allows_granted the_facts grants ≡ ok e)
    × (e.verdict ≡ allow)
    × (d.facts ≡ the_facts)
    × (authorize authority allows_granted 9 500 the_facts (pos 4) start_db
        ≡ (ok d, record start_db { decisions = d ∷ start_db.decisions }))
submit_allowed_example =
    submit_allowed allows_granted 9 digest silent (pos 4) 500 (λ s. 40) a_request (pos 4) start_db
      an_accepted submitted

refused : answer (submit_with unreachable).0 ≡ none
unfolding submit_request authorize record_decision check_decision any_row matching_grants
    row_matches where_rows grants_from_rows grant_from_row restore_grant action_name scope
    is_valid_action_name namespaced is_valid_action_segment starts_lower split_dots all bytes utf8
    trim trim_start is_whitespace text_eq
refused = refl

submit_refused_example :
    ((submit_with unreachable).1.accepted_requests ≡ start_db.accepted_requests)
    × ((submit_with unreachable).1.routes ≡ start_db.routes)
submit_refused_example =
    submit_refused unreachable 9 digest silent (pos 4) 500 (λ s. 40) a_request (pos 4) start_db
      refused
