-- ===== src/Postgres/WorkClaims/Granting.antt =====
-- A claim on a free route is granted.
use infernal_law.Base.{
  ℕ, ℤ, pos, i64_max, ◌≤ℤ◌, ◌<ℤ◌, ◌≡◌, ◌≢◌, refl, sym, subst, inl, inr, Bool, true, false, ◌&&◌,
  Option, none, some, List, [], ◌∷◌, arith, All, All-map, any_row, find_row, eqb_ℤ, any_row-false,
  ok, Bool-cases, Option-cases, ◌==◌, wrapping_add,
}
use infernal_law.Kernel.WorkClaims.{WorkClaim, is_active, is_completed, is_current, expired}
use infernal_law.Postgres.Db.{Db}
use infernal_law.Postgres.WorkClaims.{
  update_claims, latest_claim, find_claim, insert_claim, check_row, protect_work_claim, supersede,
  claim, claim_body, claim_from_option, owns_route, new_claim,
}
use infernal_law.Postgres.WorkClaims.Invariant.{
  IsHistory, IsBehind, RowIsValid, IsChecked, History-All, IsUpdate, IsUpdate-row,
}
use infernal_law.Postgres.WorkClaims.Latest.{latest-All, latest-newest}
use infernal_law.Postgres.WorkClaims.Claiming.{IsFree, FreeRow, supersede-IsCleared}
use infernal_law.Postgres.WorkClaims.Holding.{update-found}
use infernal_law.Postgres.WorkClaims.Fencing.{restore-valid}

All-any_row {ℓ} :
    {A : Type ℓ} (p : A → Bool) (xs : List A) → All (λ x. p x ≡ false) xs → any_row p xs ≡ false
unfolding any_row
All-any_row p [] h = refl
All-any_row p (x ∷ xs) (here, there) = let ih = All-any_row p xs there in ground (arith, here, ih)

found_any {ℓ} :
    {A : Type ℓ} (p : A → Bool) (xs : List A) (x : A) → find_row p xs ≡ some x → any_row p xs ≡ true
unfolding any_row find_row
found_any p [] x h = absurd (cc)
found_any p (y ∷ xs) x h = elim (Bool-cases (p y)) [
  | inl hit ↦ ground (arith, hit)
  | inr miss ↦ let ih = found_any p xs x (ground (arith, miss, h)) in ground (arith, ih)
]

find-latest :
    (route : ℕ) (cs : List WorkClaim) (c : WorkClaim)
    → IsHistory cs
    → latest_claim route cs ≡ some c
    → find_claim c.id cs ≡ some c
unfolding latest_claim find_claim
find-latest route [] c h e = absurd (cc)
find-latest route (x ∷ cs) c h e = elim (Bool-cases (x.route_id == route)) [
  | inl hit ↦
      let newest = latest-newest route x cs h (ground (arith, hit)) in
      let same : x ≡ c = ground (arith, newest, hit) in
      subst (λ y. find_claim y.id (x ∷ cs) ≡ some y) same (ground arith)
  | inr miss ↦
      let below : latest_claim route cs ≡ some c = ground (arith, miss) in
      let (behind, _) = latest-All (IsBehind x) route cs c below h.1 in
      let ih = find-latest route cs c h.2 below in let other = behind.0 in ground (arith, ih, other)
]

update-ids :
    (claim fresh : ℕ) (change : WorkClaim → WorkClaim) (cs ds : List WorkClaim)
    → update_claims claim change cs ≡ ok ds
    → All (λ x. x.id ≢ fresh) cs
    → All (λ x. x.id ≢ fresh) ds
unfolding update_claims
update-ids claim fresh change [] ds e h = ground arith
update-ids claim fresh change (x ∷ cs) ds e h =
    let (d, r, rest, shape, u, _) = IsUpdate-row claim change x cs ds e in
    subst (All (λ y. y.id ≢ fresh)) (sym shape)
      (same_id x d u h.0, update-ids claim fresh change cs r rest h.1)
  where
    same_id : (x d : WorkClaim) → IsUpdate x d → x.id ≢ fresh → d.id ≢ fresh
    same_id x d (inl k) n p = n (ground arith)
    same_id x d (inr k) n p = n (ground arith)

expire_allowed :
    (c : WorkClaim)
    → is_active c.status ≡ true
    → protect_work_claim c (record c { status = expired }) ≡ ok tt
unfolding protect_work_claim
expire_allowed c live = ground arith

expire_valid : (c : WorkClaim) → IsChecked c → check_row (record c { status = expired }) ≡ ok tt
unfolding check_row
expire_valid c h = ground arith

module _ (route fresh : ℕ) (now : ℤ) (cs : List WorkClaim) (h : IsHistory cs)
    (unheld : any_row (λ c. c.route_id == route && is_current c now) cs ≡ false)
    (undone : any_row (λ c. c.route_id == route && is_completed c.status) cs ≡ false)
    (new : All (λ c. c.id ≢ fresh) cs) (room : All (λ c. c.fencing_token <ℤ i64_max) cs) where
  -- Nothing stops a claim on the route, and what is superseded leaves the id fresh.
  supersede-granted :
      (l : Option WorkClaim)
      → latest_claim route cs ≡ l
      → (ds : List WorkClaim) × (token : ℤ) × (supersede route now l cs ≡ ok (ds, token))
        × (pos 1 ≤ℤ token)
        × All (λ c. c.id ≢ fresh) ds
  unfolding supersede wrapping_add
  supersede-granted none e = (cs, pos 1, refl, ground arith, new)
  supersede-granted (some c) e =
      let (lapsed, on_route) =
        latest-All (λ x. (x.route_id == route && is_current x now) ≡ false) route cs c e
          (any_row-false (λ x. x.route_id == route && is_current x now) cs unheld) in
      let (unfinished, _) =
        latest-All (λ x. (x.route_id == route && is_completed x.status) ≡ false) route cs c e
          (any_row-false (λ x. x.route_id == route && is_completed x.status) cs undone) in
      let (valid, _) = latest-All RowIsValid route cs c e (History-All cs h) in
      let (small, _) = latest-All (λ x. x.fencing_token <ℤ i64_max) route cs c e room in
      let token = wrapping_add c.fencing_token (pos 1) in
      elim (Bool-cases (is_active c.status)) [
        | inr idle ↦ (
          cs,
          token,
          ground (arith, lapsed, unfinished, on_route, idle),
          ground (arith, small, valid),
          new,
        )
        | inl live ↦
            let expire = λ (x : WorkClaim). record x { status = expired } in
            let (ds, done) =
              update-found expire c.id cs c h (find-latest route cs c h e) (expire_allowed c live)
                (expire_valid c valid.0) in
            (
              ds,
              token,
              ground (arith, lapsed, unfinished, on_route, live, done),
              ground (arith, small, valid),
              update-ids c.id fresh expire cs ds done new,
            )
      ]

module _ (db : Db) (row : WorkClaim) where
  -- The insertion of a claim that passes the checks on a free route under a fresh id.
  insert-granted :
      IsChecked row
      → All (λ c. c.id ≢ row.id) db.claims
      → IsFree row.route_id row.fencing_token db.claims
      → any_row (λ r. r.id == row.route_id) db.routes ≡ true
      → any_row (λ i. i.id == row.worker_service) db.identities ≡ true
      → any_row (λ i. i.instance_id == row.worker_instance) db.instances ≡ true
      → insert_claim db row ≡ ok (row ∷ db.claims)
  unfolding insert_claim check_row
  insert-granted checked ids free routed service instance =
      let unused =
        All-any_row (λ d. d.id == row.id) db.claims
          (All-map (λ d n. ground (arith, n)) db.claims ids) in
      let untaken =
        All-any_row (λ d. d.route_id == row.route_id && eqb_ℤ d.fencing_token row.fencing_token)
          db.claims (All-map (λ d f. lower_token d f) db.claims free) in
      let unheld =
        All-any_row (λ d. d.route_id == row.route_id && is_active d.status && is_active row.status)
          db.claims (All-map (λ d f. no_holder d f) db.claims free) in
      ground (arith, unused, untaken, unheld)
    where
      lower_token :
          (d : WorkClaim)
          → FreeRow row.route_id row.fencing_token d
          → (d.route_id == row.route_id && eqb_ℤ d.fencing_token row.fencing_token) ≡ false
      lower_token d f = elim (Bool-cases (d.route_id == row.route_id)) [
        | inr miss ↦ ground (arith, miss)
        | inl hit ↦ let lower = f (ground (arith, hit)) in ground (arith, lower)
      ]

      no_holder :
          (d : WorkClaim)
          → FreeRow row.route_id row.fencing_token d
          → (d.route_id == row.route_id && is_active d.status && is_active row.status) ≡ false
      no_holder d f = elim (Bool-cases (d.route_id == row.route_id)) [
        | inr miss ↦ ground (arith, miss)
        | inl hit ↦ let over = f (ground (arith, hit)) in ground (arith, over)
      ]

owned_route :
    (db : Db) (route service : ℕ)
    → owns_route db route service ≡ true
    → any_row (λ r. r.id == route) db.routes ≡ true
unfolding owns_route
owned_route db route service own = elim (Option-cases (find_row (λ r. r.id == route) db.routes)) [
  | inl missing ↦ absurd (ground (arith, own, missing))
  | inr (r, found) ↦ found_any (λ x. x.id == route) db.routes r found
]

option_restored :
    (o : Option WorkClaim)
    → ((c : WorkClaim) → o ≡ some c → RowIsValid c)
    → claim_from_option o ≡ ok o
unfolding claim_from_option
option_restored none v = refl
option_restored (some c) v = let good = restore-valid c (v c refl) in ground (arith, good)

-- In a table of claims that is a history, a route that no current claim holds and no claim has
-- completed is granted to its destination: a claim with a lease in the future, by a known instance
-- of a known service and under a fresh id, succeeds, and returns an active claim with that lease,
-- as long as no fencing token has reached the greatest `i64`.
pub claim_granted :
    (fresh route service instance_id : ℕ) (lease now : ℤ) (db : Db)
    → IsHistory db.claims
    → owns_route db route service ≡ true
    → any_row (λ c. c.route_id == route && is_current c now) db.claims ≡ false
    → any_row (λ c. c.route_id == route && is_completed c.status) db.claims ≡ false
    → All (λ c. c.id ≢ fresh) db.claims
    → All (λ c. c.fencing_token <ℤ i64_max) db.claims
    → any_row (λ i. i.id == service) db.identities ≡ true
    → any_row (λ i. i.instance_id == instance_id) db.instances ≡ true
    → pos 0 ≤ℤ now
    → now <ℤ lease
    → (token : ℤ) × (t : Db) × (claim fresh route service instance_id lease now db
        ≡ (ok (new_claim fresh route service instance_id token lease now), t))
unfolding claim claim_body
claim_granted fresh route service instance_id lease now db h own unheld undone new room known there
      start longer =
    let l = latest_claim route db.claims in
    let (ds, token, next, positive, ids) =
      supersede-granted route fresh now db.claims h unheld undone new room l refl in
    let (_, fits, free) = supersede-IsCleared route now db.claims ds l token h refl next in
    let row = new_claim fresh route service instance_id token lease now in
    let stored =
      insert-granted (record db { claims = ds }) row (positive, start, longer) ids (free positive)
        (owned_route db route service own) known there in
    let read =
      option_restored l
        (λ c e. (latest-All RowIsValid route db.claims c e (History-All db.claims h)).0) in
    let good = restore-valid row ((positive, start, longer), fits) in
    (token, record db { claims = row ∷ ds }, ground (arith, own, read, next, stored, good))
