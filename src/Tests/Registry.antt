-- ===== src/Tests/Registry.antt =====
-- The theorems on identities and registered instances, applied to the small database.
use infernal_law.Base.{
  ℕ, ◌%◌, ◌^◌, ◌<◌, ℤ, pos, ◌+ℤ◌, ◌≤ℤ◌, ◌<ℤ◌, i64_max, checked_add, ◌==◌, ==_refl, ◌≡◌, ◌≢◌, refl,
  arith, true, none, some, List, [], ◌∷◌, ok, length, codes, trim, trim_start, is_whitespace,
  any_row, find_row, update_rows, starts_with, bytes, utf8,
}
use infernal_law.Kernel.InstanceKeys.{Crypto, Signs, InstancePublicKey, restore_key}
use infernal_law.Kernel.Identity.{worker}
use infernal_law.Kernel.Instances.{
  RegisteredInstance, LeasePolicy, lease_policy, renew_lease, find_eligible, restore_instance,
  validate_endpoint, is_bad_endpoint,
}
use infernal_law.Postgres.Db.{Db}
use infernal_law.Postgres.Identity.{find}
use infernal_law.Postgres.Identity.Stored.{Represents}
use infernal_law.Postgres.Identity.Refinement.{
  Command, create, rename, disable, resolve, perform_all, expected_all, perform_all-refines,
}
use infernal_law.Postgres.Instances.{
  registry, renew, renew_body, revoke, revoke_body, read_back, query_instance, find_joined,
  instance_from_row, audited,
}
use infernal_law.Postgres.Instances.Tables.{IsKeyed}
use infernal_law.Postgres.Instances.Revoked.{RegistryCall, renewal, after_calls, revoke_final}
use infernal_law.Postgres.Instances.Leases.{renew_once, renew_lease-bounded}
use infernal_law.Tests.{start_db}

-- A signature library in which a key signs with its own number, and a digest is a length.
abbrev pub toy : Crypto
toy = record {
  sha256 = length;
  is_key = λ k. true;
  verifies = λ k m s. s == k % 256 ^ 64;
  public_of = λ k. k;
  signature_of = λ k m. k % 256 ^ 64;
}

pub fits : (k : ℕ) → k % 256 ^ 64 < 256 ^ 64
fits k = omega arith

abbrev pub toy_signs : Signs toy
toy_signs = record {
  public_is_key = λ k. refl;
  accepts_own = λ k m. ==_refl (k % 256 ^ 64);
  signature_fits = λ k m. fits k;
}

abbrev empty_db : Db
empty_db = record start_db { identities = [] }

nobody : Represents empty_db (λ id. none)
unfolding find find_row
nobody id = refl

abbrev commands : List Command
commands =
    create 1 worker (codes " a ")
    ∷ rename 1 (codes "b")
    ∷ create 1 worker (codes "c")
    ∷ disable 1
    ∷ resolve 1
    ∷ rename 2 (codes "d")
    ∷ []

perform_all-refines_example :
    ((perform_all commands empty_db).0 ≡ (expected_all commands (λ id. none)).0)
    × Represents (perform_all commands empty_db).1 (expected_all commands (λ id. none)).1
perform_all-refines_example = perform_all-refines commands empty_db (λ id. none) nobody

instances-IsKeyed : IsKeyed start_db.instances
unfolding any_row
instances-IsKeyed = (refl, tt)

abbrev pub registered_key : InstancePublicKey
registered_key = record { service_id = 13; instance_id = 20; key_id = 30; public_key = 33 }

abbrev pub registered : RegisteredInstance
registered = record {
  public_key = registered_key;
  endpoint = codes "https://a";
  registered_at = pos 5;
  lease_expires_at = pos 65;
  lease_revision = pos 1;
  revoked_at = none;
}

abbrev revoked_db : Db
revoked_db = (revoke toy 20 (pos 10) start_db).1

abbrev revoked_instance : RegisteredInstance
revoked_instance = record registered { revoked_at = some (pos 10) }

revoked_at_10 : revoke toy 20 (pos 10) start_db ≡ (ok revoked_instance, revoked_db)
unfolding revoke revoke_body read_back query_instance find_joined instance_from_row audited
    restore_instance restore_key validate_endpoint is_bad_endpoint any_row find_row update_rows trim
    trim_start is_whitespace starts_with bytes utf8
revoked_at_10 = refl

abbrev later_calls : List RegistryCall
later_calls = renewal 20 (pos 1) (pos 12) (pos 72) ∷ []

revoke_final_example :
    (find_eligible (registry toy) 20 (pos 11) (after_calls toy later_calls revoked_db)
      ≢ ok registered)
    × ((expected expires : ℤ) (u : Db)
        → renew toy 20 expected (pos 11) expires (after_calls toy later_calls revoked_db)
          ≢ (ok registered, u))
revoke_final_example =
    revoke_final toy 20 (pos 10) start_db revoked_db revoked_instance instances-IsKeyed
      revoked_at_10 later_calls (pos 11) registered

abbrev renewed_db : Db
renewed_db = (renew toy 20 (pos 1) (pos 30) (pos 90) start_db).1

abbrev renewed_instance : RegisteredInstance
renewed_instance = record registered { lease_expires_at = pos 90; lease_revision = pos 2 }

renewed_at_30 : renew toy 20 (pos 1) (pos 30) (pos 90) start_db ≡ (ok renewed_instance, renewed_db)
unfolding renew renew_body read_back query_instance find_joined instance_from_row audited
    restore_instance restore_key validate_endpoint is_bad_endpoint any_row find_row update_rows trim
    trim_start is_whitespace starts_with bytes utf8 checked_add ◌+ℤ◌
renewed_at_30 = refl

-- Its lease is renewed again, at the next revision, and another instance's is not found.
abbrev renewed_again : List RegistryCall
renewed_again = renewal 20 (pos 2) (pos 31) (pos 91) ∷ renewal 21 (pos 1) (pos 32) (pos 92) ∷ []

renew_once_example :
    renew toy 20 (pos 1) (pos 33) (pos 93) (after_calls toy renewed_again renewed_db)
    ≢ (ok renewed_instance, start_db)
renew_once_example =
    renew_once toy 20 (pos 1) (pos 30) (pos 90) start_db renewed_db renewed_instance
      instances-IsKeyed renewed_at_30 renewed_again (pos 1) (pos 33) (pos 93) (ground arith)
      renewed_instance start_db

abbrev pub a_minute : LeasePolicy
a_minute = record { duration_seconds = pos 60 }

a_minute_allowed : lease_policy (pos 60) ≡ ok a_minute
unfolding lease_policy
a_minute_allowed = refl

renewed_for_a_minute :
    renew_lease (registry toy) a_minute 20 (pos 1) (pos 30) start_db
    ≡ (ok renewed_instance, renewed_db)
unfolding renew_lease checked_add ◌+ℤ◌
renewed_for_a_minute = renewed_at_30

renew_lease-bounded_example :
    (pos 2 ≡ pos 1 +ℤ pos 1)
    × (pos 90 ≡ pos 30 +ℤ pos 60)
    × (pos 30 <ℤ pos 90)
    × (pos 90 ≤ℤ pos 30 +ℤ pos 300)
    × (pos 90 ≤ℤ i64_max)
renew_lease-bounded_example =
    renew_lease-bounded toy (pos 60) a_minute 20 (pos 1) (pos 30) start_db renewed_db
      renewed_instance a_minute_allowed instances-IsKeyed renewed_for_a_minute
