-- ===== src/Kernel/Instances.antt =====
-- src/kernel/instance_registry.rs: registered instances, their leases and the registry's service.
use infernal_law.Base.{
  ℕ, ℤ, pos, ltb_ℤ, leb_ℤ, Bool, not, ◌&&◌, ◌||◌, ◌==◌, Option, none, some, Result, ok, err, ok_or,
  Action, ◌>>=◌, if◌then◌else◌, ltb, length, is_some, checked_add, Text, trim, bytes, starts_with,
  codes,
}
use infernal_law.Kernel.Faults.{Cause}
use infernal_law.Kernel.InstanceKeys.{InstancePublicKey, InstanceKeyError}

abbrev pub default_lease_seconds : ℤ
default_lease_seconds = pos 60

abbrev pub max_lease_seconds : ℤ
max_lease_seconds = pos 300

abbrev pub max_endpoint_length : ℕ
max_endpoint_length = 2048

pub data InstanceRegistryError : Type 0 where
  already_exists expired not_found revision_conflict revoked unknown_service :
      ℕ → InstanceRegistryError
  invalid_endpoint invalid_lease_duration invalid_stored_record invalid_timestamp :
      InstanceRegistryError
  key : InstanceKeyError → InstanceRegistryError
  repository : Cause → InstanceRegistryError

pub record LeasePolicy : Type 0 where
  pub duration_seconds : ℤ

-- `LeasePolicy::new`.
unfoldable pub lease_policy : ℤ → Result LeasePolicy InstanceRegistryError
lease_policy seconds =
    if not (leb_ℤ (pos 1) seconds && leb_ℤ seconds max_lease_seconds)
    then err invalid_lease_duration
    else ok (record { duration_seconds = seconds })

-- `LeasePolicy::default`.
unfoldable pub default_policy : LeasePolicy
default_policy = record { duration_seconds = default_lease_seconds }

pub record RegisteredInstance : Type 0 where
  pub public_key : InstancePublicKey
  pub endpoint : Text
  pub registered_at : ℤ
  pub lease_expires_at : ℤ
  pub lease_revision : ℤ
  pub revoked_at : Option ℤ

abbrev https : Text
https = codes "https://"

-- The test of `validate_endpoint` on the trimmed text.
unfoldable pub is_bad_endpoint : Text → Bool
unfolding starts_with bytes
is_bad_endpoint endpoint =
    not (starts_with endpoint https)
    || ltb max_endpoint_length (length (bytes endpoint))
    || length (bytes endpoint) == length (bytes https)

unfoldable pub validate_endpoint : Text → Result Text InstanceRegistryError
unfolding trim
validate_endpoint value =
    let endpoint = trim value in
    if is_bad_endpoint endpoint then err invalid_endpoint else ok endpoint

abbrev pub before : Option ℤ → ℤ → Bool
before none t = Bool.false
before (some d) t = ltb_ℤ d t

-- `RegisteredInstance::restore`.
unfoldable pub restore_instance :
    InstancePublicKey
    → Text
    → ℤ
    → ℤ
    → ℤ
    → Option ℤ
    → Result RegisteredInstance InstanceRegistryError
restore_instance public_key value registered_at lease_expires_at lease_revision revoked_at =
    validate_endpoint value >>= λ endpoint.
    if ltb_ℤ registered_at (pos 0)
      || leb_ℤ lease_expires_at registered_at
      || leb_ℤ lease_revision (pos 0)
      || before revoked_at registered_at
    then err invalid_stored_record
    else ok (record {
      public_key = public_key;
      endpoint = endpoint;
      registered_at = registered_at;
      lease_expires_at = lease_expires_at;
      lease_revision = lease_revision;
      revoked_at = revoked_at;
    })

unfoldable pub is_eligible_at : RegisteredInstance → ℤ → Bool
is_eligible_at i now =
    not (is_some i.revoked_at) && leb_ℤ i.registered_at now && ltb_ℤ now i.lease_expires_at

-- `trait InstanceRegistryRepository` over a store `S`.
pub record InstanceRegistryRepository (S : Type 0) : Type 0 where
  pub insert : RegisteredInstance → Action S Unit InstanceRegistryError
  pub find : ℕ → S → Result (Option RegisteredInstance) InstanceRegistryError
  pub renew : ℕ → ℤ → ℤ → ℤ → Action S RegisteredInstance InstanceRegistryError
  pub revoke : ℕ → ℤ → Action S RegisteredInstance InstanceRegistryError

module _ {S : Type 0} (store : InstanceRegistryRepository S) where
  abbrev inserted :
      RegisteredInstance
      → Result Unit InstanceRegistryError × S
      → Result RegisteredInstance InstanceRegistryError × S
  inserted x (ok u, t) = (ok x, t)
  inserted x (err e, t) = (err e, t)

  -- `InstanceRegistryService::register_verified`, with `RegisteredInstance::create`.
  unfoldable pub register_verified :
      LeasePolicy → InstancePublicKey → Text → ℤ → Action S RegisteredInstance InstanceRegistryError
  unfolding checked_add
  register_verified policy public_key endpoint now s =
      if ltb_ℤ now (pos 0)
      then (err invalid_timestamp, s)
      else elim (checked_add now policy.duration_seconds) [
        | none ↦ (err invalid_timestamp, s)
        | some expires_at ↦
            elim (restore_instance public_key endpoint now expires_at (pos 1) none) [
              | err e ↦ (err e, s)
              | ok x ↦ inserted x (store.insert x s)
            ]
      ]

  unfoldable pub find_eligible : ℕ → ℤ → S → Result RegisteredInstance InstanceRegistryError
  find_eligible id now s =
      if ltb_ℤ now (pos 0)
      then err invalid_timestamp
      else (store.find id s >>= λ found. ok_or found (not_found id) >>= λ x.
          if is_some x.revoked_at
          then err (revoked id)
          else if not (is_eligible_at x now)
          then err (expired id)
          else ok x)

  -- `InstanceRegistryService::renew`.
  unfoldable pub renew_lease :
      LeasePolicy → ℕ → ℤ → ℤ → Action S RegisteredInstance InstanceRegistryError
  renew_lease policy id expected_revision now s =
      if ltb_ℤ now (pos 0)
      then (err invalid_timestamp, s)
      else if leb_ℤ expected_revision (pos 0)
      then (err (revision_conflict id), s)
      else elim (checked_add now policy.duration_seconds) [
        | none ↦ (err invalid_timestamp, s)
        | some expires_at ↦ store.renew id expected_revision now expires_at s
      ]

  -- `InstanceRegistryService::revoke`.
  unfoldable pub revoke_instance : ℕ → ℤ → Action S RegisteredInstance InstanceRegistryError
  revoke_instance id now s =
      if ltb_ℤ now (pos 0) then (err invalid_timestamp, s) else store.revoke id now s
