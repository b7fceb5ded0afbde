-- ===== src/Kernel/Replay.antt =====
-- src/kernel/replay_protection.rs: reservations of verified requests, with the verified request of
-- src/kernel/service_requests.rs that they are made from.
use infernal_law.Base.{
  ℕ, ℤ, pos, ltb_ℤ, ◌||◌, Result, ok, err, Action, saturating_add, if◌then◌else◌,
}
use infernal_law.Kernel.Faults.{Cause}

abbrev pub clock_skew_seconds : ℤ
clock_skew_seconds = pos 5

pub record VerifiedServiceRequest : Type 0 where
  pub service_id : ℕ
  pub instance_id : ℕ
  pub key_id : ℕ
  pub request_id : ℕ
  pub created : ℤ
  pub expires : ℤ
  pub nonce_digest : ℕ
  pub request_fingerprint : ℕ

pub record ReplayReservation : Type 0 where
  pub service_id : ℕ
  pub instance_id : ℕ
  pub key_id : ℕ
  pub request_id : ℕ
  pub nonce_digest : ℕ
  pub request_fingerprint : ℕ
  pub signature_created : ℤ
  pub signature_expires : ℤ
  pub reserved_at : ℤ

pub data ReplayDisposition : Type 0 where
  fresh safe_retry : ReplayDisposition

pub data ReplayProtectionError : Type 0 where
  invalid_timestamp replay_detected request_id_conflict : ReplayProtectionError
  repository : Cause → ReplayProtectionError

abbrev pub reservation : VerifiedServiceRequest → ℤ → ReplayReservation
reservation r now = record {
  service_id = r.service_id;
  instance_id = r.instance_id;
  key_id = r.key_id;
  request_id = r.request_id;
  nonce_digest = r.nonce_digest;
  request_fingerprint = r.request_fingerprint;
  signature_created = r.created;
  signature_expires = r.expires;
  reserved_at = now;
}

-- `ReplayReservation::from_verified`.
unfoldable pub from_verified :
    VerifiedServiceRequest → ℤ → Result ReplayReservation ReplayProtectionError
from_verified r now =
    if ltb_ℤ now (pos 0)
      || ltb_ℤ (saturating_add now clock_skew_seconds) r.created
      || ltb_ℤ (saturating_add r.expires clock_skew_seconds) now
    then err invalid_timestamp
    else ok (reservation r now)

-- `trait ReplayProtectionRepository` over a store `S`.
pub record ReplayRepository (S : Type 0) : Type 0 where
  pub reserve : ReplayReservation → Action S ReplayDisposition ReplayProtectionError

-- `ReplayProtectionService::protect`.
unfoldable pub protect :
    {S : Type 0}
    → ReplayRepository S
    → VerifiedServiceRequest
    → ℤ
    → Action S ReplayDisposition ReplayProtectionError
protect store r now s = elim (from_verified r now) [ err e ↦ (err e, s) | ok x ↦ store.reserve x s ]
