-- ===== src/Postgres/WorkClaims.antt =====
-- src/infrastructure/postgres_work_claim_repository.rs with the constraints and the trigger of
-- migrations/0017_work_claims.sql. Row locks make each transaction one step on the tables.
pub mod Invariant
pub mod Latest
pub mod Claiming
pub mod Changing
pub mod Lookup
pub mod Fencing
pub mod Stale
pub mod Holding
pub mod Granting
pub mod Histories
use infernal_law.Base.{
  ℕ, ℤ, pos, ltb_ℤ, leb_ℤ, eqb_ℤ, wrapping_add, ◌==◌, Bool, true, false, not, ◌&&◌, ◌||◌, Option,
  none, some, is_some, List, [], ◌∷◌, map, Result, ok, err, map_err, ok_or, Action, reject,
  transaction, ◌>>=◌, ◌>>◌, if◌then◌else◌, find_row, any_row, where_rows, contains, String,
}
use infernal_law.Kernel.Faults.{
  Constraint, DbError, Cause, unavailable, unique_violation, foreign_key_violation, check_violation,
  raised, database, message, work_claims_pkey, work_claims_route_token, work_claims_one_active,
  work_claims_route_fkey, work_claims_worker_fkey, work_claims_instance_fkey,
  work_claims_token_check, work_claims_claimed_check, work_claims_lease_check,
}
use infernal_law.Kernel.WorkClaims.{
  WorkClaim, WorkClaimStatus, active, completed, released, expired, WorkClaimError, fenced,
  route_not_found, already_claimed, already_completed, not_found, repository, restore, is_active,
  is_completed, is_current, WorkClaimRepository,
}
use infernal_law.Postgres.Db.{Db}

abbrev pub repository_error : DbError → WorkClaimError
repository_error e = repository (database e)

-- LOCK_LATEST_CLAIM_FOR_ROUTE_SQL: the row of the route with the greatest fencing token.
unfoldable pub latest_claim : ℕ → List WorkClaim → Option WorkClaim
latest_claim route [] = none
latest_claim route (c ∷ cs) =
    let rest = latest_claim route cs in
    if c.route_id == route
    then elim rest [
      | none ↦ some c
      | some d ↦ if ltb_ℤ d.fencing_token c.fencing_token then some c else some d
    ]
    else rest

-- LOCK_CLAIM_BY_ID_SQL, FIND_CLAIM_BY_ID_SQL.
unfoldable pub find_claim : ℕ → List WorkClaim → Option WorkClaim
find_claim claim [] = none
find_claim claim (c ∷ cs) = if c.id == claim then some c else find_claim claim cs

-- The message of the trigger for an update of a claim in this status.
abbrev terminal_message : WorkClaimStatus → String
terminal_message active = "work claim status active is terminal"
terminal_message completed = "work claim status completed is terminal"
terminal_message released = "work claim status released is terminal"
terminal_message expired = "work claim status expired is terminal"

-- `protect_work_claim()` of the migration, for an update of the status and the lease.
unfoldable pub protect_work_claim : WorkClaim → WorkClaim → Result Unit DbError
protect_work_claim old new =
    if not (
      new.id == old.id
      && new.route_id == old.route_id
      && new.worker_service == old.worker_service
      && new.worker_instance == old.worker_instance
      && eqb_ℤ new.fencing_token old.fencing_token
      && eqb_ℤ new.claimed_at old.claimed_at)
    then err (raised "only status and lease_expires_at may change on a work claim")
    else if not (is_active old.status)
    then err (raised (terminal_message old.status))
    else if is_active new.status
    then (if leb_ℤ new.lease_expires_at old.lease_expires_at
        then err (raised "work claim renewal must extend the lease")
        else ok tt)
    else if not (eqb_ℤ new.lease_expires_at old.lease_expires_at)
    then err (raised "a terminal work claim transition must not change the lease")
    else ok tt

-- The CHECK constraints of `work_claims`.
unfoldable pub check_row : WorkClaim → Result Unit DbError
check_row c =
    if ltb_ℤ c.fencing_token (pos 1)
    then err (check_violation work_claims_token_check)
    else if ltb_ℤ c.claimed_at (pos 0)
    then err (check_violation work_claims_claimed_check)
    else if leb_ℤ c.lease_expires_at c.claimed_at
    then err (check_violation work_claims_lease_check)
    else ok tt

-- `UPDATE work_claims SET … WHERE claim_id = claim`, with the trigger before each row.
unfoldable pub update_claims :
    ℕ → (WorkClaim → WorkClaim) → List WorkClaim → Result (List WorkClaim) DbError
update_claims claim change [] = ok []
update_claims claim change (c ∷ cs) =
    let rest = update_claims claim change cs in
    if c.id == claim
    then (protect_work_claim c (change c)
        >> check_row (change c)
        >> (rest >>= λ r. ok (change c ∷ r)))
    else (rest >>= λ r. ok (c ∷ r))

-- INSERT_CLAIM_SQL: the checks, the unique indexes, the foreign keys.
unfoldable pub insert_claim : Db → WorkClaim → Result (List WorkClaim) DbError
insert_claim db c =
    check_row c
    >> reject (any_row (λ d. d.id == c.id) db.claims) (unique_violation work_claims_pkey)
    >> reject
        (any_row (λ d. d.route_id == c.route_id && eqb_ℤ d.fencing_token c.fencing_token) db.claims)
        (unique_violation work_claims_route_token)
    >> reject
        (any_row (λ d. d.route_id == c.route_id && is_active d.status && is_active c.status)
          db.claims)
        (unique_violation work_claims_one_active)
    >> reject (not (any_row (λ r. r.id == c.route_id) db.routes))
        (foreign_key_violation work_claims_route_fkey)
    >> reject (not (any_row (λ i. i.id == c.worker_service) db.identities))
        (foreign_key_violation work_claims_worker_fkey)
    >> reject (not (any_row (λ i. i.instance_id == c.worker_instance) db.instances))
        (foreign_key_violation work_claims_instance_fkey)
    >> ok (c ∷ db.claims)

unfoldable pub claim_from_row : WorkClaim → Result WorkClaim WorkClaimError
claim_from_row c = map_err (λ _. repository (message "stored work claim is invalid")) (restore c)

-- `query_opt(…).map(claim_from_row).transpose()`.
unfoldable pub claim_from_option : Option WorkClaim → Result (Option WorkClaim) WorkClaimError
claim_from_option none = ok none
claim_from_option (some c) = claim_from_row c >>= λ d. ok (some d)

-- ROUTE_DESTINATION_SQL and the comparison with the worker's service.
unfoldable pub owns_route : Db → ℕ → ℕ → Bool
owns_route db route service = elim (find_row (λ r. r.id == route) db.routes) [
  | none ↦ false
  | some r ↦ r.destination_service == service
]

-- The match on the latest claim: the table after its expiry, and the next fencing token.
unfoldable pub supersede :
    ℕ → ℤ → Option WorkClaim → List WorkClaim → Result (List WorkClaim × ℤ) WorkClaimError
supersede route now none cs = ok (cs, pos 1)
supersede route now (some c) cs =
    if is_current c now
    then err (already_claimed route)
    else if is_completed c.status
    then err (already_completed route)
    else ((if is_active c.status
          then map_err repository_error (update_claims c.id (λ d. record d { status = expired }) cs)
          else ok cs)
        >>= λ r. ok (r, wrapping_add c.fencing_token (pos 1)))

-- The row that INSERT_CLAIM_SQL writes.
abbrev pub new_claim : ℕ → ℕ → ℕ → ℕ → ℤ → ℤ → ℤ → WorkClaim
new_claim fresh route service instance_id token lease now = record {
  id = fresh;
  route_id = route;
  worker_service = service;
  worker_instance = instance_id;
  fencing_token = token;
  status = active;
  claimed_at = now;
  lease_expires_at = lease;
}

-- `claim` from the check of the route up to the commit.
unfoldable pub claim_body :
    ℕ → ℕ → ℕ → ℕ → ℤ → ℤ → Db → Result (Result WorkClaim WorkClaimError × Db) WorkClaimError
claim_body fresh route service instance_id lease now db = do
  reject (not (owns_route db route service)) (route_not_found route)
  latest ← claim_from_option (latest_claim route db.claims)
  (cs, token) ← supersede route now latest db.claims
  let row = new_claim fresh route service instance_id token lease now
  stored ← map_err repository_error (insert_claim (record db { claims = cs }) row)
  claim ← claim_from_row row
  ok (ok claim, record db { claims = stored })

unfoldable pub claim : ℕ → ℕ → ℕ → ℕ → ℤ → ℤ → Action Db WorkClaim WorkClaimError
claim fresh route service instance_id lease now =
    transaction (claim_body fresh route service instance_id lease now)

unfoldable pub lock_current : Db → ℕ → ℤ → ℤ → Result WorkClaim WorkClaimError
lock_current db claim token now = do
  row ← ok_or (find_claim claim db.claims) (not_found claim)
  c ← claim_from_row row
  reject (not (eqb_ℤ c.fencing_token token) || not (is_current c now)) fenced
  ok c

-- `lock_current`, an UPDATE … RETURNING of the claim's row, and the commit.
unfoldable pub change_claim :
    (WorkClaim → WorkClaim)
    → ℕ
    → ℤ
    → ℤ
    → Db
    → Result (Result WorkClaim WorkClaimError × Db) WorkClaimError
change_claim change claim token now db = do
  current ← lock_current db claim token now
  cs ← map_err repository_error (update_claims current.id change db.claims)
  c ← claim_from_row (change current)
  ok (ok c, record db { claims = cs })

unfoldable pub renew : ℕ → ℤ → ℤ → ℤ → Action Db WorkClaim WorkClaimError
renew claim token lease now =
    transaction (change_claim (λ c. record c { lease_expires_at = lease }) claim token now)

unfoldable pub transition : WorkClaimStatus → ℕ → ℤ → ℤ → Action Db WorkClaim WorkClaimError
transition status claim token now =
    transaction (change_claim (λ c. record c { status = status }) claim token now)

unfoldable pub release : ℕ → ℤ → ℤ → Action Db WorkClaim WorkClaimError
release = transition released

unfoldable pub complete : ℕ → ℤ → ℤ → Action Db WorkClaim WorkClaimError
complete = transition completed

unfoldable pub find : ℕ → Db → Result (Option WorkClaim) WorkClaimError
find claim db = claim_from_option (find_claim claim db.claims)

-- ACTIVE_ROUTE_IDS_SQL; the set is a list, which is read by `contains` alone.
unfoldable pub active_route_ids : List ℕ → ℤ → Db → Result (List ℕ) WorkClaimError
active_route_ids ids now db = ok (
    map (λ c. c.route_id) (where_rows (λ c. contains ids c.route_id && is_current c now) db.claims))

-- COMPLETED_ROUTE_IDS_SQL.
unfoldable pub completed_route_ids : List ℕ → Db → Result (List ℕ) WorkClaimError
completed_route_ids ids db = ok (
    map (λ c. c.route_id)
      (where_rows (λ c. contains ids c.route_id && is_completed c.status) db.claims))

abbrev pub work_claims : WorkClaimRepository Db
work_claims = record {
  claim = claim;
  renew = renew;
  release = release;
  complete = complete;
  find = find;
  active_route_ids = active_route_ids;
  completed_route_ids = completed_route_ids;
}
