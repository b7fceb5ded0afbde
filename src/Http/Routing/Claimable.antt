-- ===== src/Http/Routing/Claimable.antt =====
-- What the query of src/http.rs offers to a destination, the repository of work claims grants it.
use infernal_law.Base.{
  ℕ, ℤ, pos, i64_max, ◌≤ℤ◌, ◌<ℤ◌, ◌==◌, ◌≡◌, ◌≢◌, ◌∙◌, sym, subst, inl, inr, Bool, true, not, ◌&&◌,
  List, [], ◌∷◌, arith, All, any_row, any_row-congr, ok, Bool-cases,
}
use infernal_law.Kernel.Faults.{Cause}
use infernal_law.Kernel.Requests.{Route}
use infernal_law.Kernel.WorkClaims.{WorkClaimError, is_current, is_completed}
use infernal_law.Postgres.Db.{Db}
use infernal_law.Postgres.Routes.{routes}
use infernal_law.Postgres.WorkClaims.{work_claims, claim, new_claim, owns_route}
use infernal_law.Postgres.WorkClaims.Invariant.{IsHistory}
use infernal_law.Postgres.WorkClaims.Granting.{claim_granted}
use infernal_law.Http.Routing.{eligible_for}
use infernal_law.Http.Routing.Eligible.{claimed_now, completed_ever, eligible_for-exact}

-- A test of the id that a row passes, passes on that id.
id_passes :
    (free : ℕ → Bool) (p : Route → Bool) (i : ℕ) (rs : List Route)
    → any_row (λ r. p r && free r.id && r.id == i) rs ≡ true
    → free i ≡ true
unfolding any_row
id_passes free p i [] h = absurd (ground (arith, h))
id_passes free p i (r ∷ rs) h = elim (Bool-cases (p r && free r.id && r.id == i)) [
  | inl hit ↦
      let same : r.id ≡ i = ground (arith, hit) in
      subst (λ n. free n ≡ true) same (ground (arith, hit))
  | inr miss ↦ id_passes free p i rs (ground (arith, miss, h))
]

-- In a table of claims that is a history, a route that the query has offered to its destination is
-- granted to it at that time: a claim with a lease in the future, by a known instance of a known
-- service and under a fresh id, succeeds, as long as no fencing token has reached the greatest
-- `i64`.
pub eligible_for_granted :
    (describe : WorkClaimError → Cause) (fresh route service instance_id : ℕ) (lease now : ℤ)
    (db : Db) (rs : List Route)
    → IsHistory db.claims
    → eligible_for routes work_claims describe service now db ≡ ok rs
    → any_row (λ r. r.id == route) rs ≡ true
    → owns_route db route service ≡ true
    → All (λ c. c.id ≢ fresh) db.claims
    → All (λ c. c.fencing_token <ℤ i64_max) db.claims
    → any_row (λ i. i.id == service) db.identities ≡ true
    → any_row (λ i. i.instance_id == instance_id) db.instances ≡ true
    → pos 0 ≤ℤ now
    → now <ℤ lease
    → (token : ℤ) × (t : Db) × (claim fresh route service instance_id lease now db
        ≡ (ok (new_claim fresh route service instance_id token lease now), t))
eligible_for_granted describe fresh route service instance_id lease now db rs h offered listed own
      new room known there start longer =
    let free = λ (n : ℕ).
      not (any_row (λ c. c.route_id == n && is_current c now) db.claims)
      && not (any_row (λ c. c.route_id == n && is_completed c.status) db.claims) in
    let stored =
      sym (eligible_for-exact describe db service now rs (λ r. r.id == route) offered) ∙ listed in
    let passes =
      id_passes free (λ r. r.destination_service == service) route db.routes
        (any_row-congr (λ r. r.destination_service == service && free r.id && r.id == route)
            (λ r.
              r.destination_service == service
              && not (claimed_now db now r)
              && not (completed_ever db r)
              && r.id == route)
            db.routes (λ r. ground arith)
          ∙ stored) in
    claim_granted fresh route service instance_id lease now db h own (ground (arith, passes))
      (ground (arith, passes)) new room known there start longer
