-- ===== src/Postgres/WorkClaims/Holding.antt =====
-- What the repository grants: the calls of a claim's current holder, and a claim on a free route.
use infernal_law.Base.{
  ℕ, ℤ, ◌≤ℤ◌, ◌<ℤ◌, ◌≡◌, ◌≢◌, refl, sym, subst, ◌⊎◌, inl, inr, true, false, some, List, [], ◌∷◌,
  arith, All, All-map, ok, err, Bool-cases, ◌==◌,
}
use infernal_law.Kernel.Faults.{DbError, database, raised}
use infernal_law.Kernel.WorkClaims.{WorkClaim, WorkClaimStatus, is_active, is_current, repository}
use infernal_law.Postgres.Db.{Db}
use infernal_law.Postgres.WorkClaims.{
  update_claims, find_claim, protect_work_claim, check_row, lock_current, change_claim, renew,
  transition,
}
use infernal_law.Postgres.WorkClaims.Invariant.{
  IsHistory, RowIsValid, History-All, Sets, IsUpdate-row,
}
use infernal_law.Postgres.WorkClaims.Lookup.{find-All}
use infernal_law.Postgres.WorkClaims.Fencing.{restore-valid}

update-miss :
    (change : WorkClaim → WorkClaim) (id : ℕ) (cs : List WorkClaim)
    → All (λ x. x.id ≢ id) cs
    → update_claims id change cs ≡ ok cs
unfolding update_claims
update-miss change id [] n = refl
update-miss change id (c ∷ cs) n = elim (Bool-cases (c.id == id)) [
  | inl hit ↦ absurd (n.0 (ground (arith, hit)))
  | inr miss ↦ ground (arith, miss, update-miss change id cs n.1)
]

-- An update of one found row goes through if the trigger and the checks let its row through.
pub update-found :
    (change : WorkClaim → WorkClaim) (id : ℕ) (cs : List WorkClaim) (d : WorkClaim)
    → IsHistory cs
    → find_claim id cs ≡ some d
    → protect_work_claim d (change d) ≡ ok tt
    → check_row (change d) ≡ ok tt
    → (ds : List WorkClaim) × (update_claims id change cs ≡ ok ds)
unfolding update_claims find_claim
update-found change id [] d h f p q = absurd (cc)
update-found change id (c ∷ cs) d h f p q = elim (Bool-cases (c.id == id)) [
  | inl hit ↦
      let same : c ≡ d = ground (arith, hit) in
      let rest = update-miss change id cs (All-map (λ x b e. b.0 (ground (arith, hit))) cs h.1) in
      (
        change c ∷ cs,
        found rest hit (subst (λ x. protect_work_claim x (change x) ≡ ok tt) (sym same) p)
            (subst (λ x. check_row (change x) ≡ ok tt) (sym same) q),
      )
  | inr miss ↦
      let (ds, e) = update-found change id cs d h.2 (ground (arith, miss)) p q in
      (c ∷ ds, ground (arith, miss, e))
]
  where
    found :
        update_claims id change cs ≡ ok cs
        → (c.id == id) ≡ true
        → protect_work_claim c (change c) ≡ ok tt
        → check_row (change c) ≡ ok tt
        → update_claims id change (c ∷ cs) ≡ ok (change c ∷ cs)
    found rest hit a b = ground arith

update-refused :
    (change : WorkClaim → WorkClaim) (id : ℕ) (cs : List WorkClaim) (d : WorkClaim) (x : DbError)
    → find_claim id cs ≡ some d
    → protect_work_claim d (change d) ≡ err x
    → update_claims id change cs ≡ err x
unfolding update_claims find_claim
update-refused change id [] d x f p = absurd (cc)
update-refused change id (c ∷ cs) d x f p = elim (Bool-cases (c.id == id)) [
  | inl hit ↦
      let same : d ≡ c = ground (arith, hit) in
      let q = subst (λ y. protect_work_claim y (change y) ≡ err x) same p in ground (arith, hit, q)
  | inr miss ↦ ground (arith, miss, update-refused change id cs d x (ground (arith, miss)) p)
]

check-valid : (c : WorkClaim) → RowIsValid c → check_row c ≡ ok tt
unfolding check_row
check-valid c v = ground arith

-- The row that an update set, by its id.
find-set :
    (change : WorkClaim → WorkClaim) (id : ℕ) (cs ds : List WorkClaim) (d : WorkClaim)
    → update_claims id change cs ≡ ok ds
    → find_claim id cs ≡ some d
    → ((x : WorkClaim) → (change x).id ≡ x.id)
    → find_claim id ds ≡ some (change d)
unfolding find_claim
find-set change id [] ds d u f keep = absurd (cc)
find-set change id (c ∷ cs) ds d u f keep =
    let (e, r, rest, shape, _, how) = IsUpdate-row id change c cs ds u in
    set e r (λ f'. find-set change id cs r d rest f' keep) shape how (Bool-cases (c.id == id))
  where
    set :
        (e : WorkClaim) (r : List WorkClaim)
        → (find_claim id cs ≡ some d → find_claim id r ≡ some (change d))
        → ds ≡ e ∷ r
        → Sets id change c e
        → ((c.id == id) ≡ true) ⊎ ((c.id == id) ≡ false)
        → find_claim id ds ≡ some (change d)
    set e r rest shape (inl (at, q)) (inl hit) =
        let same : c ≡ d = ground (arith, hit) in
        subst (λ x. find_claim id ds ≡ some (change x)) same (ground (arith, q, keep c))
    set e r rest shape (inl (at, q)) (inr miss) = absurd (ground (arith, miss))
    set e r rest shape (inr (off, q)) (inl hit) = absurd (off (ground (arith, hit)))
    set e r rest shape (inr (off, q)) (inr miss) =
        let ih = rest (ground (arith, miss)) in ground (arith, miss, ih)

module _ (db : Db) (id : ℕ) (now : ℤ) (c : WorkClaim) (h : IsHistory db.claims)
    (found : find_claim id db.claims ≡ some c) (live : is_current c now ≡ true) where
  valid_row : RowIsValid c × (c.id ≡ id)
  valid_row = find-All RowIsValid id db.claims c found (History-All db.claims h)

  lock_held : lock_current db id c.fencing_token now ≡ ok c
  unfolding lock_current
  lock_held = ground (arith, restore-valid c valid_row.0)

  change_held :
      (change : WorkClaim → WorkClaim)
      → protect_work_claim c (change c) ≡ ok tt
      → RowIsValid (change c)
      → (cs : List WorkClaim) × (change_claim change id c.fencing_token now db
          ≡ ok (ok (change c), record db { claims = cs }))
        × (update_claims id change db.claims ≡ ok cs)
  unfolding change_claim
  change_held change p v =
      let (cs, done) = update-found change id db.claims c h found p (check-valid (change c) v) in
      (cs, ground (arith, lock_held, valid_row.1, done, restore-valid (change c) v), done)

  -- In a table of claims that is a history, the holder of a current claim that presents its
  -- fencing token can extend the lease: it is returned the claim with the new lease and all else
  -- as it was, and that claim is what the table then holds under its id.
  pub renew_held :
      (lease : ℤ)
      → c.lease_expires_at <ℤ lease
      → (t : Db) × (renew id c.fencing_token lease now db
          ≡ (ok (record c { lease_expires_at = lease }), t))
        × (find_claim id t.claims ≡ some (record c { lease_expires_at = lease }))
  unfolding renew protect_work_claim
  renew_held lease longer =
      let v = valid_row.0 in
      let (cs, e, u) =
        change_held (λ x. record x { lease_expires_at = lease }) (ground arith) (ground arith) in
      (
        record db { claims = cs },
        rw e,
        find-set (λ x. record x { lease_expires_at = lease }) id db.claims cs c u found (λ x. refl),
      )

  -- In a table of claims that is a history, the holder of a current claim that presents its
  -- fencing token can complete it or release it: it is returned the claim in its new status, which
  -- is also what is stored, and all else as it was.
  pub transition_held :
      (status : WorkClaimStatus)
      → is_active status ≡ false
      → (t : Db) × (transition status id c.fencing_token now db
          ≡ (ok (record c { status = status }), t))
        × (find_claim id t.claims ≡ some (record c { status = status }))
  unfolding transition protect_work_claim
  transition_held status ends =
      let v = valid_row.0 in
      let (cs, e, u) =
        change_held (λ x. record x { status = status }) (ground arith) (ground arith) in
      (
        record db { claims = cs },
        rw e,
        find-set (λ x. record x { status = status }) id db.claims cs c u found (λ x. refl),
      )

  -- In a table of claims that is a history, a renewal of a current claim, with its token, whose
  -- lease does not reach beyond the one that the holder has is refused by the trigger, and
  -- reported as a failure of the repository, although the holder has not lost the claim; nothing
  -- changes.
  pub renew_not_extending :
      (lease : ℤ)
      → lease ≤ℤ c.lease_expires_at
      → renew id c.fencing_token lease now db
        ≡ (err (repository (database (raised "work claim renewal must extend the lease"))), db)
  unfolding renew change_claim protect_work_claim
  renew_not_extending lease shorter =
      let refused =
        update-refused (λ x. record x { lease_expires_at = lease }) id db.claims c
          (raised "work claim renewal must extend the lease") found (ground arith) in
      ground (arith, lock_held, valid_row.1, refused)
