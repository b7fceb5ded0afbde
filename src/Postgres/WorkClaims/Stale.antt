-- ===== src/Postgres/WorkClaims/Stale.antt =====
-- A claim that is over stays as it is, and its holder is fenced off for good.
use infernal_law.Base.{
  ℕ, ℤ, ◌<ℤ◌, ◌≤ℤ◌, ◌≡◌, sym, ap, subst, ◌∙◌, inl, inr, false, some, List, [], ◌∷◌, arith, ok, err,
  Result-cases, settle, settle-ok,
}
use infernal_law.Kernel.WorkClaims.{WorkClaim, is_active, fenced, released, completed}
use infernal_law.Postgres.Db.{Db}
use infernal_law.Postgres.WorkClaims.{
  find_claim, latest_claim, claim, claim_body, renew, release, complete, transition, change_claim,
  lock_current, new_claim,
}
use infernal_law.Postgres.WorkClaims.Invariant.{IsHistory, IsUpdate, RowIsValid, History-All}
use infernal_law.Postgres.WorkClaims.Claiming.{
  FreeRow, claim_body-granted, claim_body-ok, insert_claim-ok,
}
use infernal_law.Postgres.WorkClaims.Changing.{change_claim-ok}
use infernal_law.Postgres.WorkClaims.Lookup.{find-All, find-IsUpdate, find-supersede, find-cons}
use infernal_law.Postgres.WorkClaims.Fencing.{restore-valid}
use infernal_law.Postgres.WorkClaims.Histories.{
  Call, claims, renews, releases, completes, step, run, run-IsHistory,
}

update_of_ended : (d e : WorkClaim) → is_active d.status ≡ false → IsUpdate d e → e ≡ d
update_of_ended d e over (inl k) = absurd (ground arith)
update_of_ended d e over (inr k) = k

updated_route : (d e : WorkClaim) → IsUpdate d e → e.route_id ≡ d.route_id
updated_route d e (inl k) = k.1
updated_route d e (inr k) = ap (λ x. x.route_id) k

updated_token : (d e : WorkClaim) → IsUpdate d e → d.fencing_token ≤ℤ e.fencing_token
updated_token d e (inl k) = k.3
updated_token d e (inr k) = ground arith

-- The row of an older claim once a new one is granted.
find-claimed :
    (fresh route service instance_id : ℕ) (lease now : ℤ) (db t : Db) (r : _) (id : ℕ)
    (d : WorkClaim)
    → claim_body fresh route service instance_id lease now db ≡ ok (r, t)
    → find_claim id db.claims ≡ some d
    → (e : WorkClaim) × (c : WorkClaim) × (cs : List WorkClaim) × (t.claims ≡ c ∷ cs)
      × (find_claim id cs ≡ some e)
      × (find_claim id t.claims ≡ some e)
      × IsUpdate d e
find-claimed fresh route service instance_id lease now db t r id d good found =
    let (token, cs, _, old, new, _, _) =
      claim_body-ok fresh route service instance_id lease now db r t good in
    let row : WorkClaim = new_claim fresh route service instance_id token lease now in
    let (_, shape, ids) = insert_claim-ok (record db { claims = cs }) row t.claims new in
    let (e, f, k) =
      find-supersede route now token (latest_claim route db.claims) id db.claims cs d old found in
    (
      e,
      row,
      cs,
      shape,
      f,
      subst (λ x. find_claim id x ≡ some e) (sym shape) (find-cons id row cs e ids f),
      k,
    )

change-ended :
    (change : WorkClaim → WorkClaim) (claim : ℕ) (token now : ℤ) (db : Db) (id : ℕ) (d : WorkClaim)
    → is_active d.status ≡ false
    → find_claim id db.claims ≡ some d
    → find_claim id (settle db (change_claim change claim token now db)).1.claims ≡ some d
change-ended change claim token now db id d over found =
    elim (Result-cases (change_claim change claim token now db)) [
      | inr (e, bad) ↦ rw bad found
      | inl ((r, t), good) ↦
          let (c, _, u, _, _) = change_claim-ok change claim token now db r t good in
          let (e, f, k) = find-IsUpdate c.id change id db.claims t.claims d u found in
          rw good (subst (λ x. find_claim id t.claims ≡ some x) (update_of_ended d e over k) f)
    ]

claim-ended :
    (fresh route service instance_id : ℕ) (lease now : ℤ) (db : Db) (id : ℕ) (d : WorkClaim)
    → is_active d.status ≡ false
    → find_claim id db.claims ≡ some d
    → find_claim id (settle db (claim_body fresh route service instance_id lease now db)).1.claims
      ≡ some d
claim-ended fresh route service instance_id lease now db id d over found =
    elim (Result-cases (claim_body fresh route service instance_id lease now db)) [
      | inr (e, bad) ↦ rw bad found
      | inl ((r, t), good) ↦
          let (e, _, _, _, _, f, k) =
            find-claimed fresh route service instance_id lease now db t r id d good found in
          rw good (subst (λ x. find_claim id t.claims ≡ some x) (update_of_ended d e over k) f)
    ]

step-ended :
    (db : Db) (c : Call) (id : ℕ) (d : WorkClaim)
    → is_active d.status ≡ false
    → find_claim id db.claims ≡ some d
    → find_claim id (step db c).claims ≡ some d
unfolding step claim renew release complete transition
step-ended db (claims fresh route service instance_id lease now) id d =
    claim-ended fresh route service instance_id lease now db id d
step-ended db (renews x token lease now) id d =
    change-ended (λ c. record c { lease_expires_at = lease }) x token now db id d
step-ended db (releases x token now) id d =
    change-ended (λ c. record c { status = released }) x token now db id d
step-ended db (completes x token now) id d =
    change-ended (λ c. record c { status = completed }) x token now db id d

-- A claim that was completed, released or expired is found unchanged after any sequence of calls.
pub run-ended :
    (db : Db) (cs : List Call) (id : ℕ) (d : WorkClaim)
    → is_active d.status ≡ false
    → find_claim id db.claims ≡ some d
    → find_claim id (run db cs).claims ≡ some d
unfolding run
run-ended db [] id d over found = found
run-ended db (c ∷ cs) id d over found =
    run-ended (step db c) cs id d over (step-ended db c id d over found)

-- Every call that its holder makes is refused as fenced.
change-fenced :
    (change : WorkClaim → WorkClaim) (id : ℕ) (token now : ℤ) (db : Db) (d : WorkClaim)
    → IsHistory db.claims
    → find_claim id db.claims ≡ some d
    → is_active d.status ≡ false
    → change_claim change id token now db ≡ err fenced
unfolding change_claim lock_current
change-fenced change id token now db d h found over =
    let (valid, _) = find-All RowIsValid id db.claims d found (History-All db.claims h) in
    ground (arith, found, restore-valid d valid)

-- In a table of claims that is a history, when a claim on a route is granted, it carries a higher
-- fencing token than every earlier claim on that route; and whatever calls follow, the holder of
-- the earlier claim can neither renew nor release nor complete it, at any time and with any token:
-- each is refused as fenced and changes nothing.
pub claim_fences :
    (fresh route service instance_id : ℕ) (lease now : ℤ) (db t : Db) (c : WorkClaim) (id : ℕ)
    (d : WorkClaim) (later : List Call) (token lease' now' : ℤ)
    → IsHistory db.claims
    → claim fresh route service instance_id lease now db ≡ (ok c, t)
    → find_claim id db.claims ≡ some d
    → d.route_id ≡ route
    → let u = run t later in
      (d.fencing_token <ℤ c.fencing_token)
      × (renew id token lease' now' u ≡ (err fenced, u))
      × (release id token now' u ≡ (err fenced, u))
      × (complete id token now' u ≡ (err fenced, u))
unfolding claim renew release complete transition
claim_fences fresh route service instance_id lease now db t c id d later token lease' now' h granted
      found on_route =
    let good = settle-ok db (claim_body fresh route service instance_id lease now db) granted in
    let (new, cs, same, shape, k, free, _, _) =
      claim_body-granted fresh route service instance_id lease now db (ok c) t h good in
    let (e, new', cs', shape', below, f, how) =
      find-claimed fresh route service instance_id lease now db t (ok c) id d good found in
    let below' : find_claim id cs ≡ some e = cc (shape', below, ap (λ u. u.claims) shape) in
    let (free_e, _) = find-All (FreeRow route new.fencing_token) id cs e below' free in
    let on_route' : e.route_id ≡ route = updated_route d e how ∙ on_route in
    let (lower, over, _) = free_e on_route' in
    let u = run t later in
    let still = run-ended t later id e over f in
    let history = run-IsHistory t later (subst (λ x. IsHistory x.claims) (sym shape) k) in
    let fenced_off = λ (change : WorkClaim → WorkClaim).
      change-fenced change id token now' u e history still over in
    (
      ground (arith, same, updated_token d e how, lower),
      rw (fenced_off (λ x. record x { lease_expires_at = lease' })),
      rw (fenced_off (λ x. record x { status = released })),
      rw (fenced_off (λ x. record x { status = completed })),
    )
