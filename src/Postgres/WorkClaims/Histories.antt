-- ===== src/Postgres/WorkClaims/Histories.antt =====
-- Sequences of calls on the repository of work claims, and what they keep.
use infernal_law.Base.{ℕ, ℤ, inl, inr, List, [], ◌∷◌, Result-cases, settle}
use infernal_law.Kernel.WorkClaims.{WorkClaim, released, completed}
use infernal_law.Postgres.Db.{Db}
use infernal_law.Postgres.WorkClaims.{
  claim, renew, release, complete, transition, claim_body, change_claim,
}
use infernal_law.Postgres.WorkClaims.Invariant.{IsHistory, update-IsHistory}
use infernal_law.Postgres.WorkClaims.Claiming.{claim_body-granted}
use infernal_law.Postgres.WorkClaims.Changing.{change_claim-ok}

-- A call of the repository with its arguments, the fresh id of a claim included.
pub data Call : Type 0 where
  claims : (fresh route service instance_id : ℕ) (lease now : ℤ) → Call
  renews : (claim : ℕ) (token lease now : ℤ) → Call
  releases completes : (claim : ℕ) (token now : ℤ) → Call

unfoldable pub step : Db → Call → Db
step db (claims fresh route service instance_id lease now) =
    (claim fresh route service instance_id lease now db).1
step db (renews id token lease now) = (renew id token lease now db).1
step db (releases id token now) = (release id token now db).1
step db (completes id token now) = (complete id token now db).1

unfoldable pub run : Db → List Call → Db
run db [] = db
run db (c ∷ cs) = run (step db c) cs

change-IsHistory :
    (change : WorkClaim → WorkClaim) (id : ℕ) (token now : ℤ) (db : Db)
    → IsHistory db.claims
    → IsHistory (settle db (change_claim change id token now db)).1.claims
change-IsHistory change id token now db h =
    elim (Result-cases (change_claim change id token now db)) [
      | inr (e, bad) ↦ rw bad h
      | inl ((r, t), good) ↦
          let (c, _, u, _, _) = change_claim-ok change id token now db r t good in
          rw good (update-IsHistory c.id change db.claims t.claims u h)
    ]

claim-IsHistory :
    (fresh route service instance_id : ℕ) (lease now : ℤ) (db : Db)
    → IsHistory db.claims
    → IsHistory (settle db (claim_body fresh route service instance_id lease now db)).1.claims
claim-IsHistory fresh route service instance_id lease now db h =
    elim (Result-cases (claim_body fresh route service instance_id lease now db)) [
      | inr (e, bad) ↦ rw bad h
      | inl ((r, t), good) ↦
          let (c, cs, _, shape, k, _, _, _) =
            claim_body-granted fresh route service instance_id lease now db r t h good in
          rw (good, shape) k
    ]

-- One call keeps the history.
pub step-IsHistory : (db : Db) (c : Call) → IsHistory db.claims → IsHistory (step db c).claims
unfolding step claim renew release complete transition
step-IsHistory db (claims fresh route service instance_id lease now) h =
    claim-IsHistory fresh route service instance_id lease now db h
step-IsHistory db (renews id token lease now) h =
    change-IsHistory (λ c. record c { lease_expires_at = lease }) id token now db h
step-IsHistory db (releases id token now) h =
    change-IsHistory (λ c. record c { status = released }) id token now db h
step-IsHistory db (completes id token now) h =
    change-IsHistory (λ c. record c { status = completed }) id token now db h

-- Every sequence of calls, granted or refused, keeps the table a history: valid rows under distinct
-- ids, and of two claims on one route the older one has the lower fencing token and is over
-- without being completed.
pub run-IsHistory : (db : Db) (cs : List Call) → IsHistory db.claims → IsHistory (run db cs).claims
unfolding run
run-IsHistory db [] h = h
run-IsHistory db (c ∷ cs) h = run-IsHistory (step db c) cs (step-IsHistory db c h)
