-- ===== src/Kernel/Authority.antt =====
-- src/kernel/authority.rs: grants, policy facts, decisions, and the authority service. The policy
-- evaluator is code of another process: it is a parameter of the service.
use infernal_law.Base.{
  ℕ, ℤ, pos, ltb_ℤ, leb_ℤ, ◌==◌, Bool, true, false, ◌&&◌, ◌||◌, Option, none, some, List, [], ◌∷◌,
  Result, ok, err, Action, option_eq, if◌then◌else◌, Text, text_eq,
}
use infernal_law.Kernel.Faults.{Cause}

pub record SchemaVersionRefs : Type 0 where
  pub artifact : ℕ
  pub permission_policy : ℕ

abbrev pub refs_eq : SchemaVersionRefs → SchemaVersionRefs → Bool
refs_eq a b = a.artifact == b.artifact && a.permission_policy == b.permission_policy

-- The reserved pair of versions of actions that have no artifact.
abbrev pub no_artifact_schema_versions : SchemaVersionRefs
no_artifact_schema_versions = record { artifact = 1; permission_policy = 2 }

pub record PolicyFacts : Type 0 where
  pub source : ℕ
  pub action : Text
  pub scope : Text
  pub schema_versions : SchemaVersionRefs
  pub destination : Option ℕ

abbrev pub for_request_acceptance : ℕ → Text → Text → SchemaVersionRefs → PolicyFacts
for_request_acceptance source action scope versions = record {
  source = source;
  action = action;
  scope = scope;
  schema_versions = versions;
  destination = none;
}

abbrev pub for_route : ℕ → Text → Text → SchemaVersionRefs → ℕ → PolicyFacts
for_route source action scope versions destination = record {
  source = source;
  action = action;
  scope = scope;
  schema_versions = versions;
  destination = some destination;
}

pub record Grant : Type 0 where
  pub id : ℕ
  pub source : ℕ
  pub action : Text
  pub scope : Text
  pub schema_versions : SchemaVersionRefs
  pub destination : Option ℕ
  pub valid_from : ℤ
  pub valid_until : Option ℤ

pub data Verdict : Type 0 where
  allow deny : Verdict

pub data AuthorityError : Type 0 where
  invalid_scope invalid_policy_bundle_version invalid_validity_window : AuthorityError
  invalid_grant_id invalid_schema_name invalid_schema_version_id : AuthorityError
  invalid_schema_version invalid_decision_id : AuthorityError
  schema_namespace_conflict : Text → AuthorityError
  repository evaluator : Cause → AuthorityError

-- `until <= valid_from` and `now < until` on an optional end.
abbrev pub ends_by : Option ℤ → ℤ → Bool
ends_by none now = false
ends_by (some until) now = leb_ℤ until now

-- `Grant::restore`: the constructor's check on the fields of `g`.
unfoldable pub restore_grant : Grant → Result Grant AuthorityError
restore_grant g =
    if ltb_ℤ g.valid_from (pos 0) || ends_by g.valid_until g.valid_from
    then err invalid_validity_window
    else ok g

abbrev pub not_ended : Option ℤ → ℤ → Bool
not_ended none now = true
not_ended (some until) now = ltb_ℤ now until

-- `Scope::matches`; the wildcard is "*".
abbrev pub wildcard : Text
wildcard = b'*' ∷ []

unfoldable pub scope_matches : Text → Text → Bool
scope_matches scope requested = text_eq scope wildcard || text_eq scope requested

-- `Grant::permits`.
unfoldable pub permits : Grant → PolicyFacts → ℤ → Bool
permits g facts now =
    g.source == facts.source
    && text_eq g.action facts.action
    && scope_matches g.scope facts.scope
    && refs_eq g.schema_versions facts.schema_versions
    && option_eq g.destination facts.destination
    && leb_ℤ g.valid_from now
    && not_ended g.valid_until now

pub record AuthorityDecision : Type 0 where
  pub id : ℕ
  pub facts : PolicyFacts
  pub verdict : Verdict
  pub evaluated_by : ℕ
  pub policy_bundle_version : Option Text
  pub decided_at : ℤ

abbrev pub is_allowed : AuthorityDecision → Bool
is_allowed d = elim d.verdict [ allow ↦ true | deny ↦ false ]

pub record PolicyEvaluation : Type 0 where
  pub verdict : Verdict
  pub policy_bundle_version : Text

-- `trait AuthorityRepository` and `trait AuthorityDecisionRecorder` over a store `S`.
pub record AuthorityRepository (S : Type 0) : Type 0 where
  pub matching_grants : PolicyFacts → ℤ → S → Result (List Grant) AuthorityError
  pub record_decision : AuthorityDecision → Action S Unit AuthorityError

-- `trait PolicyEvaluator`.
abbrev pub PolicyEvaluator : Type 0
PolicyEvaluator = PolicyFacts → List Grant → Result PolicyEvaluation AuthorityError

-- What is pinned of an evaluation: a failure to evaluate is a denial without a bundle version.
abbrev pub pinned_verdict : Result PolicyEvaluation AuthorityError → Verdict
pinned_verdict (ok e) = e.verdict
pinned_verdict (err x) = deny

abbrev pub pinned_version : Result PolicyEvaluation AuthorityError → Option Text
pinned_version (ok e) = some e.policy_bundle_version
pinned_version (err x) = none

module _ {S : Type 0} (store : AuthorityRepository S) (evaluate : PolicyEvaluator)
    (evaluator_id : ℕ) where
  abbrev pub decide : ℕ → PolicyFacts → ℤ → List Grant → AuthorityDecision
  decide fresh facts now grants = record {
    id = fresh;
    facts = facts;
    verdict = pinned_verdict (evaluate facts grants);
    evaluated_by = evaluator_id;
    policy_bundle_version = pinned_version (evaluate facts grants);
    decided_at = now;
  }

  abbrev recorded :
      AuthorityDecision
      → Result Unit AuthorityError × S
      → Result AuthorityDecision AuthorityError × S
  recorded d (ok u, t) = (ok d, t)
  recorded d (err e, t) = (err e, t)

  -- `AuthorityService::authorize`; `fresh` is the new decision's id.
  unfoldable pub authorize : ℕ → PolicyFacts → ℤ → Action S AuthorityDecision AuthorityError
  authorize fresh facts now s = elim (store.matching_grants facts now s) [
    | err e ↦ (err e, s)
    | ok grants ↦ let d = decide fresh facts now grants in recorded d (store.record_decision d s)
  ]
