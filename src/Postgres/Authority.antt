-- ===== src/Postgres/Authority.antt =====
-- src/infrastructure/postgres_authority_repository.rs: the matching grants and the decisions, with
-- the constraints of migrations 0011 and 0013 on `authority_decisions`. The CHECK constraints on a
-- decision's texts repeat the checks of the constructors and are left out.
pub mod Matching
pub mod Pinned
use infernal_law.Base.{
  ℕ, ℤ, pos, ltb_ℤ, leb_ℤ, ◌==◌, Bool, true, false, not, ◌&&◌, ◌||◌, Option, none, some, List, [],
  ◌∷◌, Result, ok, err, map_err, ok_or, Action, reject, transaction, ◌>>=◌, ◌>>◌, if◌then◌else◌,
  any_row, where_rows, is_some, option_eq, Text, text_eq, map,
}
use infernal_law.Kernel.Faults.{
  DbError, unique_violation, foreign_key_violation, check_violation, decisions_pkey,
  decisions_identity_fkey, decisions_schema_fkey, decisions_decided_check, database, message,
}
use infernal_law.Kernel.Names
use infernal_law.Kernel.Authority.{
  PolicyFacts, Grant, AuthorityError, repository, AuthorityDecision, AuthorityRepository,
  restore_grant, wildcard,
}
use infernal_law.Postgres.Db.{Db, GrantRow}

-- The WHERE of MATCHING_GRANTS_SQL.
unfoldable pub row_matches : PolicyFacts → ℤ → GrantRow → Bool
row_matches facts now row =
    row.grant.source == facts.source
    && text_eq row.grant.action facts.action
    && row.grant.schema_versions.artifact == facts.schema_versions.artifact
    && row.grant.schema_versions.permission_policy == facts.schema_versions.permission_policy
    && option_eq row.grant.destination facts.destination
    && (text_eq row.grant.scope wildcard || text_eq row.grant.scope facts.scope)
    && leb_ℤ row.grant.valid_from now
    && elim row.grant.valid_until [ none ↦ true | some until ↦ ltb_ℤ now until ]
    && not (is_some row.revoked_at)

-- `grant_from_row`.
unfoldable pub grant_from_row : Grant → Result Grant AuthorityError
grant_from_row g =
    ok_or (Names.action_name g.action) (repository (message "stored grant action is invalid"))
    >> ok_or (Names.scope g.scope) (repository (message "stored grant scope is invalid"))
    >> restore_grant g

unfoldable pub grants_from_rows : List GrantRow → Result (List Grant) AuthorityError
grants_from_rows [] = ok []
grants_from_rows (row ∷ rows) = do
  g ← grant_from_row row.grant
  rest ← grants_from_rows rows
  ok (g ∷ rest)

unfoldable pub matching_grants : PolicyFacts → ℤ → Db → Result (List Grant) AuthorityError
matching_grants facts now db = grants_from_rows (where_rows (row_matches facts now) db.grants)

abbrev known : Option ℕ → Db → Bool
known none db = true
known (some a) db = any_row (λ i. i.id == a) db.identities

abbrev known_version : ℕ → Db → Bool
known_version v db = any_row (λ s. s.version.id == v) db.schema_versions

-- The constraints of `authority_decisions`.
unfoldable pub check_decision : Db → AuthorityDecision → Result Unit DbError
check_decision db d =
    reject (ltb_ℤ d.decided_at (pos 0)) (check_violation decisions_decided_check)
    >> reject (any_row (λ x. x.id == d.id) db.decisions) (unique_violation decisions_pkey)
    >> reject
        (not (
          known (some d.facts.source) db
          && known d.facts.destination db
          && known (some d.evaluated_by) db))
        (foreign_key_violation decisions_identity_fkey)
    >> reject
        (not (
          known_version d.facts.schema_versions.artifact db
          && known_version d.facts.schema_versions.permission_policy db))
        (foreign_key_violation decisions_schema_fkey)

-- `record`: one INSERT.
unfoldable pub record_decision : AuthorityDecision → Action Db Unit AuthorityError
record_decision d = transaction (λ db.
    map_err (λ e. repository (database e)) (check_decision db d)
    >> ok (ok tt, record db { decisions = d ∷ db.decisions }))

abbrev pub authority : AuthorityRepository Db
authority = record { matching_grants = matching_grants; record_decision = record_decision }
