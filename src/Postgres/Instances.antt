-- ===== src/Postgres/Instances.antt =====
-- src/infrastructure/postgres_instance_registry.rs with the keys of
-- migrations/0002_instance_public_key_registry.sql, whose CHECK constraints repeat what the
-- constructors check.
pub mod Tables
pub mod Revoked
pub mod Leases
pub mod Registered
use infernal_law.Base.{
  ℕ, ℤ, pos, ltb_ℤ, leb_ℤ, eqb_ℤ, ◌==◌, Bool, not, ◌&&◌, ◌||◌, Option, none, some, ◌∷◌, Result, ok,
  err, map_err, Action, reject, transaction, ◌>>=◌, ◌>>◌, if◌then◌else◌, find_row, any_row,
  update_rows, is_some, checked_add, be_bytes,
}
use infernal_law.Kernel.Faults.{database, message, out_of_range, unexpected_row_count}
use infernal_law.Kernel.InstanceKeys.{Crypto, InstancePublicKey, restore_key}
use infernal_law.Kernel.Instances.{
  RegisteredInstance, InstanceRegistryError, already_exists, expired, not_found, revision_conflict,
  revoked, unknown_service, invalid_timestamp, key, repository, restore_instance,
  InstanceRegistryRepository,
}
use infernal_law.Postgres.Db.{Db, InstanceRow, KeyRow, RegistryAction, registered, renewed}
use infernal_law.Postgres.Db

-- `append_audit`.
unfoldable pub audited : Db → RegisteredInstance → RegistryAction → ℤ → Db
audited db r action at = record db {
  instance_audit =
      record {
        service_id = r.public_key.service_id;
        instance_id = r.public_key.instance_id;
        key_id = r.public_key.key_id;
        action = action;
        lease_revision = r.lease_revision;
        recorded_at = at;
      }
      ∷ db.instance_audit;
}

unfoldable pub instance_row : RegisteredInstance → InstanceRow
instance_row r = record {
  instance_id = r.public_key.instance_id;
  service_id = r.public_key.service_id;
  endpoint = r.endpoint;
  registered_at = r.registered_at;
  lease_expires_at = r.lease_expires_at;
  lease_revision = r.lease_revision;
  revoked_at = none;
}

-- FIND_INSTANCE_SQL, whose join keeps one row at most.
unfoldable pub find_joined : ℕ → Db → Option (InstanceRow × KeyRow)
find_joined id db = elim (find_row (λ i. i.instance_id == id) db.instances) [
  | none ↦ none
  | some i ↦ elim (find_row (λ k. k.instance_id == id) db.keys) [
    | none ↦ none
    | some k ↦ some (i, k)
  ]
]

-- The WHERE of the UPDATE in `renew`.
abbrev pub to_renew : ℕ → ℤ → ℤ → InstanceRow → Bool
to_renew id expected at i =
    i.instance_id == id
    && eqb_ℤ i.lease_revision expected
    && ltb_ℤ at i.lease_expires_at
    && leb_ℤ i.registered_at at
    && not (is_some i.revoked_at)

unfoldable pub classify_failed_renewal : Db → ℕ → ℤ → ℤ → InstanceRegistryError
classify_failed_renewal db id expected at =
    elim (find_row (λ i. i.instance_id == id) db.instances) [
      | none ↦ not_found id
      | some i ↦
          if is_some i.revoked_at
          then revoked id
          else if ltb_ℤ at i.registered_at
          then invalid_timestamp
          else if leb_ℤ i.lease_expires_at at
          then expired id
          else if not (eqb_ℤ i.lease_revision expected)
          then revision_conflict id
          else repository (message "lease renewal was not applied")
    ]

-- The UPDATE in `renew`.
abbrev pub renew_row : ℤ → ℤ → InstanceRow → InstanceRow
renew_row expires revision i = record i { lease_expires_at = expires; lease_revision = revision }

abbrev pub with_lease : ℕ → ℤ → ℤ → ℤ → ℤ → Db → Db
with_lease id expected at expires revision db = record db {
  instances = update_rows (to_renew id expected at) (renew_row expires revision) db.instances;
}

-- The WHERE of the UPDATE in `revoke`.
abbrev pub to_revoke : ℕ → ℤ → InstanceRow → Bool
to_revoke id at i = i.instance_id == id && leb_ℤ i.registered_at at && not (is_some i.revoked_at)

abbrev pub live_key : ℕ → KeyRow → Bool
live_key id k = k.instance_id == id && not (is_some k.revoked_at)

-- The two UPDATEs in `revoke`.
abbrev pub revoke_row : ℤ → InstanceRow → InstanceRow
revoke_row at i = record i { revoked_at = some at }

abbrev pub with_revocation : ℕ → ℤ → Db → Db
with_revocation id at db = record db {
  instances = update_rows (to_revoke id at) (revoke_row at) db.instances;
  keys = update_rows (live_key id) (λ k. record k { revoked_at = some at }) db.keys;
}

unfoldable pub classify_failed_revocation : Db → ℕ → ℤ → InstanceRegistryError
classify_failed_revocation db id at = elim (find_row (λ i. i.instance_id == id) db.instances) [
  | none ↦ not_found id
  | some i ↦ if ltb_ℤ at i.registered_at then invalid_timestamp else revoked id
]

module _ (crypto : Crypto) where
  -- `instance_from_row`.
  unfoldable pub instance_from_row :
      InstanceRow → KeyRow → Result RegisteredInstance InstanceRegistryError
  instance_from_row i k = do
    public ← map_err key (restore_key crypto i.service_id i.instance_id k.key_id k.public_key)
    restore_instance public i.endpoint i.registered_at i.lease_expires_at i.lease_revision
        i.revoked_at

  -- The keys of `service_instances`, then those of `service_instance_keys`, as `insert` reports
  -- them.
  unfoldable pub check_instance : Db → RegisteredInstance → Result Unit InstanceRegistryError
  check_instance db r =
      let public = r.public_key in
      reject (any_row (λ i. i.instance_id == public.instance_id) db.instances)
        (already_exists public.instance_id)
      >> reject (not (any_row (λ i. i.id == public.service_id) db.identities))
          (unknown_service public.service_id)
      >> reject
          (any_row
            (λ k.
              k.key_id == public.key_id
              || k.instance_id == public.instance_id
              || k.fingerprint == crypto.sha256 (be_bytes 32 public.public_key))
            db.keys)
          (already_exists public.instance_id)

  -- `InstancePublicKey::fingerprint` is the digest of the key's bytes.
  unfoldable pub key_row : RegisteredInstance → KeyRow
  key_row r = record {
    key_id = r.public_key.key_id;
    instance_id = r.public_key.instance_id;
    public_key = r.public_key.public_key;
    fingerprint = crypto.sha256 (be_bytes 32 r.public_key.public_key);
    valid_from = r.registered_at;
    revoked_at = none;
  }

  unfoldable pub insert_body :
      RegisteredInstance
      → Db
      → Result (Result Unit InstanceRegistryError × Db) InstanceRegistryError
  insert_body r db =
      check_instance db r
      >> ok (
        ok tt,
        audited
            (record db { instances = instance_row r ∷ db.instances; keys = key_row r ∷ db.keys }) r
            registered r.registered_at,
      )

  unfoldable pub insert : RegisteredInstance → Action Db Unit InstanceRegistryError
  insert r = transaction (insert_body r)

  unfoldable pub find : ℕ → Db → Result (Option RegisteredInstance) InstanceRegistryError
  find id db = elim (find_joined id db) [
    | none ↦ ok none
    | some (i, k) ↦ instance_from_row i k >>= λ r. ok (some r)
  ]

  -- `query_one` of FIND_INSTANCE_SQL.
  unfoldable pub query_instance : ℕ → Db → Result RegisteredInstance InstanceRegistryError
  query_instance id db = elim (find_joined id db) [
    | none ↦ err (repository (database unexpected_row_count))
    | some (i, k) ↦ instance_from_row i k
  ]

  -- The end of `renew` and of `revoke`: the changed row is read back, and audited.
  unfoldable pub read_back :
      ℕ
      → RegistryAction
      → ℤ
      → Db
      → Result (Result RegisteredInstance InstanceRegistryError × Db) InstanceRegistryError
  read_back id action at db = query_instance id db >>= λ r. ok (ok r, audited db r action at)

  unfoldable pub renew_body :
      ℕ
      → ℤ
      → ℤ
      → ℤ
      → Db
      → Result (Result RegisteredInstance InstanceRegistryError × Db) InstanceRegistryError
  renew_body id expected at expires db = elim (find_row (to_renew id expected at) db.instances) [
    | none ↦ err (classify_failed_renewal db id expected at)
    | some i ↦ elim (checked_add i.lease_revision (pos 1)) [
      | none ↦ err (repository (database out_of_range))
      | some revision ↦ read_back id renewed at (with_lease id expected at expires revision db)
    ]
  ]

  -- `renew`, whose WHERE keeps one row at most, since `instance_id` is the primary key.
  unfoldable pub renew : ℕ → ℤ → ℤ → ℤ → Action Db RegisteredInstance InstanceRegistryError
  renew id expected at expires db =
      if ltb_ℤ at (pos 0) || leb_ℤ expires at || leb_ℤ expected (pos 0)
      then (err invalid_timestamp, db)
      else transaction (renew_body id expected at expires) db

  unfoldable pub revoke_body :
      ℕ
      → ℤ
      → Db
      → Result (Result RegisteredInstance InstanceRegistryError × Db) InstanceRegistryError
  revoke_body id at db =
      if not (any_row (to_revoke id at) db.instances)
      then err (classify_failed_revocation db id at)
      else if not (any_row (live_key id) db.keys)
      then err (repository (message "instance key revocation changed 0 rows"))
      else read_back id Db.revoked at (with_revocation id at db)

  -- `revoke`; an instance has one key, since `instance_id` is unique in `service_instance_keys`.
  unfoldable pub revoke : ℕ → ℤ → Action Db RegisteredInstance InstanceRegistryError
  revoke id at db =
      if ltb_ℤ at (pos 0) then (err invalid_timestamp, db) else transaction (revoke_body id at) db

  abbrev pub registry : InstanceRegistryRepository Db
  registry = record { insert = insert; find = find; renew = renew; revoke = revoke }
