-- ===== src/Kernel/WorkClaims.antt =====
-- src/kernel/work_claims.rs: claims on routes, the repository's interface and the service.
-- Ids are the 128-bit numbers of their UUIDs; a fresh id is an argument of the operation.
use infernal_law.Base.{
  ℕ, ℤ, pos, ltb_ℤ, leb_ℤ, Bool, true, false, ◌&&◌, ◌||◌, Option, List, Result, ok, err, Action,
  if◌then◌else◌,
}
use infernal_law.Kernel.Faults.{Cause}

pub data WorkClaimStatus : Type 0 where
  active completed released expired : WorkClaimStatus

pub record WorkClaim : Type 0 where
  pub id : ℕ
  pub route_id : ℕ
  pub worker_service : ℕ
  pub worker_instance : ℕ
  pub fencing_token : ℤ
  pub status : WorkClaimStatus
  pub claimed_at : ℤ
  pub lease_expires_at : ℤ

pub data WorkClaimError : Type 0 where
  invalid_claim_id invalid_fencing_token invalid_lease invalid_timestamp fenced : WorkClaimError
  route_not_found already_claimed already_completed not_found : ℕ → WorkClaimError
  repository : Cause → WorkClaimError

-- `WorkClaim::restore`: the constructor's checks on the fields of `c`.
unfoldable pub restore : WorkClaim → Result WorkClaim WorkClaimError
restore c =
    if ltb_ℤ c.fencing_token (pos 1)
    then err invalid_fencing_token
    else if ltb_ℤ c.claimed_at (pos 0) || leb_ℤ c.lease_expires_at c.claimed_at
    then err invalid_lease
    else ok c

abbrev pub is_active : WorkClaimStatus → Bool
is_active active = true
is_active _ = false

abbrev pub is_completed : WorkClaimStatus → Bool
is_completed completed = true
is_completed _ = false

abbrev pub is_current : WorkClaim → ℤ → Bool
is_current c now = is_active c.status && ltb_ℤ now c.lease_expires_at

-- `trait WorkClaimRepository` over a store `S`.
pub record WorkClaimRepository (S : Type 0) : Type 0 where
  pub claim : ℕ → ℕ → ℕ → ℕ → ℤ → ℤ → Action S WorkClaim WorkClaimError
  pub renew : ℕ → ℤ → ℤ → ℤ → Action S WorkClaim WorkClaimError
  pub release : ℕ → ℤ → ℤ → Action S WorkClaim WorkClaimError
  pub complete : ℕ → ℤ → ℤ → Action S WorkClaim WorkClaimError
  pub find : ℕ → S → Result (Option WorkClaim) WorkClaimError
  pub active_route_ids : List ℕ → ℤ → S → Result (List ℕ) WorkClaimError
  pub completed_route_ids : List ℕ → S → Result (List ℕ) WorkClaimError

-- `WorkClaimService<R>`: the guards in front of the repository.
module _ {S : Type 0} (repository : WorkClaimRepository S) where
  unfoldable pub claim_work : ℕ → ℕ → ℕ → ℕ → ℤ → ℤ → Action S WorkClaim WorkClaimError
  claim_work fresh route service instance_id lease now s =
      if ltb_ℤ now (pos 0) || leb_ℤ lease now
      then (err invalid_lease, s)
      else repository.claim fresh route service instance_id lease now s

  unfoldable pub renew_work : ℕ → ℤ → ℤ → ℤ → Action S WorkClaim WorkClaimError
  renew_work claim token lease now s =
      if ltb_ℤ now (pos 0) || leb_ℤ lease now
      then (err invalid_lease, s)
      else repository.renew claim token lease now s

  unfoldable pub release_work : ℕ → ℤ → ℤ → Action S WorkClaim WorkClaimError
  release_work claim token now s =
      if ltb_ℤ now (pos 0) then (err invalid_lease, s) else repository.release claim token now s

  unfoldable pub complete_work : ℕ → ℤ → ℤ → Action S WorkClaim WorkClaimError
  complete_work claim token now s =
      if ltb_ℤ now (pos 0) then (err invalid_lease, s) else repository.complete claim token now s

  unfoldable pub active_routes : List ℕ → ℤ → S → Result (List ℕ) WorkClaimError
  active_routes ids now s =
      if ltb_ℤ now (pos 0) then err invalid_timestamp else repository.active_route_ids ids now s
