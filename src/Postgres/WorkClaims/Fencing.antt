-- ===== src/Postgres/WorkClaims/Fencing.antt =====
-- Exclusion and fencing of the repository of work claims: one holder at a time, and no way back
-- for a holder that was superseded.
use infernal_law.Base.{ℕ, ℤ, ◌≡◌, inl, inr, true, some, arith, ok, err}
use infernal_law.Kernel.WorkClaims.{
  WorkClaim, is_completed, is_current, already_claimed, already_completed, restore,
}
use infernal_law.Postgres.Db.{Db}
use infernal_law.Postgres.WorkClaims.{
  find_claim, supersede, claim, claim_body, owns_route, claim_from_row, claim_from_option,
}
use infernal_law.Postgres.WorkClaims.Invariant.{IsHistory, RowIsValid, History-All}
use infernal_law.Postgres.WorkClaims.Lookup.{find-All, latest-find}

pub restore-valid : (c : WorkClaim) → RowIsValid c → claim_from_row c ≡ ok c
unfolding claim_from_row restore
restore-valid c v = ground arith

-- In a table of claims that is a history, while a claim on a route is current, every attempt to
-- claim that route, by whichever instance of the service that owns it and however long a lease it
-- asks for, is refused as already claimed and changes nothing.
pub claim_exclusive :
    (db : Db) (id fresh service instance_id : ℕ) (lease now : ℤ) (c : WorkClaim)
    → IsHistory db.claims
    → find_claim id db.claims ≡ some c
    → is_current c now ≡ true
    → owns_route db c.route_id service ≡ true
    → claim fresh c.route_id service instance_id lease now db
      ≡ (err (already_claimed c.route_id), db)
unfolding claim claim_body supersede claim_from_option
claim_exclusive db id fresh service instance_id lease now c h found live own =
    let latest = latest-find id db.claims c h found (inl (ground arith)) in
    let (valid, _) = find-All RowIsValid id db.claims c found (History-All db.claims h) in
    ground (arith, latest, restore-valid c valid)

-- In a table of claims that is a history, a route whose claim was completed cannot be claimed
-- again, however much time has passed: every attempt of its owner is refused as already completed
-- and changes nothing.
pub claim_completed :
    (db : Db) (id fresh service instance_id : ℕ) (lease now : ℤ) (c : WorkClaim)
    → IsHistory db.claims
    → find_claim id db.claims ≡ some c
    → is_completed c.status ≡ true
    → owns_route db c.route_id service ≡ true
    → claim fresh c.route_id service instance_id lease now db
      ≡ (err (already_completed c.route_id), db)
unfolding claim claim_body supersede claim_from_option
claim_completed db id fresh service instance_id lease now c h found done own =
    let latest = latest-find id db.claims c h found (inr done) in
    let (valid, _) = find-All RowIsValid id db.claims c found (History-All db.claims h) in
    ground (arith, latest, restore-valid c valid)
