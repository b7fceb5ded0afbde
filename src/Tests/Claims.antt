-- ===== src/Tests/Claims.antt =====
-- Tests of the work claims.
use infernal_law.Base.{
  pos, ◌≡◌, refl, true, some, [], ◌∷◌, arith, ok, err, find_row, any_row, ◌+ℤ◌, wrapping_add, ◌<ℤ◌,
}
use infernal_law.Kernel.Faults.{database, raised}
use infernal_law.Kernel.WorkClaims.{
  WorkClaim, expired, completed, already_claimed, already_completed, fenced, repository, restore,
}
use infernal_law.Postgres.Db.{Db}
use infernal_law.Postgres.WorkClaims.{
  claim, claim_body, claim_from_option, claim_from_row, find_claim, latest_claim, owns_route,
  supersede, insert_claim, update_claims, check_row, protect_work_claim, renew, release, complete,
  transition, new_claim,
}
use infernal_law.Postgres.WorkClaims.Invariant.{IsHistory}
use infernal_law.Postgres.WorkClaims.Histories.{renews, claims, completes, run, run-IsHistory}
use infernal_law.Postgres.WorkClaims.Stale.{claim_fences, run-ended}
use infernal_law.Postgres.WorkClaims.Fencing.{claim_exclusive, claim_completed}
use infernal_law.Postgres.WorkClaims.Holding.{renew_held, transition_held, renew_not_extending}
use infernal_law.Tests.{a_claim, claimed_db}

claimed-IsHistory : IsHistory claimed_db.claims
claimed-IsHistory = ground arith

a_claim_found : find_claim 70 claimed_db.claims ≡ some a_claim
unfolding find_claim
a_claim_found = ground arith

-- The lease of the first claim has run out at 20, and another worker claims the route at 25.
abbrev second_claim : WorkClaim
second_claim = new_claim 71 40 13 20 (pos 2) (pos 35) (pos 25)

abbrev reclaimed_db : Db
reclaimed_db = record claimed_db {
  claims = second_claim ∷ record a_claim { status = expired } ∷ [];
}

reclaimed : claim 71 40 13 20 (pos 35) (pos 25) claimed_db ≡ (ok second_claim, reclaimed_db)
unfolding claim claim_body claim_from_option claim_from_row restore latest_claim owns_route find_row
    any_row supersede insert_claim update_claims check_row protect_work_claim wrapping_add ◌+ℤ◌
reclaimed = refl

claim_fences_example :
    let u = run reclaimed_db (renews 71 (pos 2) (pos 45) (pos 30) ∷ []) in
    (pos 1 <ℤ pos 2)
    × (renew 70 (pos 1) (pos 50) (pos 31) u ≡ (err fenced, u))
    × (release 70 (pos 1) (pos 31) u ≡ (err fenced, u))
    × (complete 70 (pos 1) (pos 31) u ≡ (err fenced, u))
claim_fences_example =
    claim_fences 71 40 13 20 (pos 35) (pos 25) claimed_db reclaimed_db second_claim 70 a_claim
      (renews 71 (pos 2) (pos 45) (pos 30) ∷ []) (pos 1) (pos 50) (pos 31) claimed-IsHistory
      reclaimed a_claim_found refl

a_claim_route_owned : owns_route claimed_db 40 13 ≡ true
unfolding owns_route find_row
a_claim_route_owned = ground arith

claim_exclusive_example :
    claim 71 40 13 20 (pos 35) (pos 15) claimed_db ≡ (err (already_claimed 40), claimed_db)
claim_exclusive_example =
    claim_exclusive claimed_db 70 71 13 20 (pos 35) (pos 15) a_claim claimed-IsHistory a_claim_found
      refl a_claim_route_owned

abbrev done_claim : WorkClaim
done_claim = record a_claim { status = completed }

abbrev completed_db : Db
completed_db = record claimed_db { claims = done_claim ∷ [] }

completed-IsHistory : IsHistory completed_db.claims
completed-IsHistory = ground arith

done_claim_found : find_claim 70 completed_db.claims ≡ some done_claim
unfolding find_claim
done_claim_found = ground arith

done_claim_route_owned : owns_route completed_db 40 13 ≡ true
unfolding owns_route find_row
done_claim_route_owned = ground arith

claim_completed_example :
    claim 71 40 13 20 (pos 999) (pos 900) completed_db ≡ (err (already_completed 40), completed_db)
claim_completed_example =
    claim_completed completed_db 70 71 13 20 (pos 999) (pos 900) done_claim completed-IsHistory
      done_claim_found refl done_claim_route_owned

run-IsHistory_example :
    IsHistory
      (run claimed_db
        (claims 71 40 13 20 (pos 35) (pos 25) ∷ completes 71 (pos 2) (pos 30) ∷ [])).claims
run-IsHistory_example =
    run-IsHistory claimed_db
      (claims 71 40 13 20 (pos 35) (pos 25) ∷ completes 71 (pos 2) (pos 30) ∷ []) claimed-IsHistory

run-ended_example :
    find_claim 70
      (run completed_db
        (claims 71 40 13 20 (pos 35) (pos 25) ∷ renews 70 (pos 1) (pos 90) (pos 15) ∷ [])).claims
    ≡ some done_claim
run-ended_example =
    run-ended completed_db
      (claims 71 40 13 20 (pos 35) (pos 25) ∷ renews 70 (pos 1) (pos 90) (pos 15) ∷ []) 70
      done_claim refl done_claim_found

renew_held_example :
    (t : Db) × (renew 70 (pos 1) (pos 40) (pos 15) claimed_db
      ≡ (ok (record a_claim { lease_expires_at = pos 40 }), t))
    × (find_claim 70 t.claims ≡ some (record a_claim { lease_expires_at = pos 40 }))
renew_held_example =
    renew_held claimed_db 70 (pos 15) a_claim claimed-IsHistory a_claim_found refl (pos 40)
      (ground arith)

transition_held_example :
    (t : Db) × (transition completed 70 (pos 1) (pos 15) claimed_db ≡ (ok done_claim, t))
    × (find_claim 70 t.claims ≡ some done_claim)
transition_held_example =
    transition_held claimed_db 70 (pos 15) a_claim claimed-IsHistory a_claim_found refl completed
      refl

renew_not_extending_example :
    renew 70 (pos 1) (pos 20) (pos 15) claimed_db
    ≡ (err (repository (database (raised "work claim renewal must extend the lease"))), claimed_db)
renew_not_extending_example =
    renew_not_extending claimed_db 70 (pos 15) a_claim claimed-IsHistory a_claim_found refl (pos 20)
      (ground arith)
