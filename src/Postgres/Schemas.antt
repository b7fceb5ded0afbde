-- ===== src/Postgres/Schemas.antt =====
-- The schema versions of src/infrastructure/postgres_authority_repository.rs, with the function
-- `publish_authority_schema_version` and the keys of migrations/0010_authority_schema_versions.sql.
pub mod Published
use infernal_law.Base.{
  ℕ, ℤ, pos, ltb_ℤ, eqb_ℤ, ◌==◌, Bool, not, ◌&&◌, Option, none, some, List, [], ◌∷◌, Result, ok,
  err, map_err, Action, reject, transaction, ◌>>=◌, ◌>>◌, if◌then◌else◌, find_row, any_row,
  checked_add, Text, text_eq,
}
use infernal_law.Kernel.Faults.{
  DbError, database, message, raised, out_of_range, unique_violation, foreign_key_violation,
  schema_versions_pkey, schema_versions_name_version, schema_versions_owner_fkey,
}
use infernal_law.Kernel.Names.{schema_name}
use infernal_law.Kernel.Authority.{AuthorityError, repository}
use infernal_law.Kernel.Schemas.{
  SchemaKind, kind_eq, SchemaVersion, SchemaRecord, published, restore_version, SchemaRepository,
}
use infernal_law.Postgres.Db.{Db}

-- `schema_record_from_row`.
unfoldable pub schema_record_from_row : SchemaRecord → Result SchemaRecord AuthorityError
schema_record_from_row row = elim (schema_name row.version.name) [
  | none ↦ err (repository (message "stored schema name is invalid"))
  | some name ↦ do
    version ← restore_version (record row.version { name = name })
    ok (record { version = version; status = row.status })
]

abbrev pub named : SchemaKind → Text → SchemaRecord → Bool
named kind name r = kind_eq r.version.kind kind && text_eq r.version.name name

-- ORDER BY version DESC LIMIT 1, of the rows that `p` keeps.
unfoldable pub latest_of : (SchemaRecord → Bool) → List SchemaRecord → Option SchemaRecord
latest_of p [] = none
latest_of p (r ∷ rs) =
    let rest = latest_of p rs in
    if p r
    then elim rest [
      | none ↦ some r
      | some s ↦ if ltb_ℤ r.version.version s.version.version then some s else some r
    ]
    else rest

-- The INSERT of the function, with the keys of the table.
unfoldable pub insert_version : SchemaVersion → Db → Result (SchemaRecord × Db) DbError
insert_version v db =
    let row : SchemaRecord = record { version = v; status = published } in
    reject (any_row (λ r. r.version.id == v.id) db.schema_versions)
      (unique_violation schema_versions_pkey)
    >> reject
        (any_row (λ r. named v.kind v.name r && eqb_ℤ r.version.version v.version)
          db.schema_versions)
        (unique_violation schema_versions_name_version)
    >> reject (not (any_row (λ i. i.id == v.owner) db.identities))
        (foreign_key_violation schema_versions_owner_fkey)
    >> ok (row, record db { schema_versions = row ∷ db.schema_versions })

-- `publish_authority_schema_version`.
unfoldable pub publish_version :
    ℕ → SchemaKind → Text → ℕ → ℕ → ℤ → Db → Result (SchemaRecord × Db) DbError
publish_version fresh kind name owner digest published_at db =
    let first : SchemaVersion = record {
      id = fresh;
      kind = kind;
      name = name;
      version = pos 1;
      owner = owner;
      content_digest = digest;
      predecessor = none;
      published_at = published_at;
    } in
    elim (latest_of (named kind name) db.schema_versions) [
      | none ↦ insert_version first db
      | some latest ↦
          if not (latest.version.owner == owner)
          then err (raised "schema name is owned by a different service")
          else elim (checked_add latest.version.version (pos 1)) [
            | none ↦ err out_of_range
            | some next ↦
                insert_version
                  (record first { version = next; predecessor = some latest.version.id }) db
          ]
    ]

-- `publish`: the function's statement is a transaction of its own, committed before the row that
-- it returns is read.
unfoldable pub publish_body :
    ℕ
    → SchemaKind
    → Text
    → ℕ
    → ℕ
    → ℤ
    → Db
    → Result (Result SchemaRecord AuthorityError × Db) AuthorityError
publish_body fresh kind name owner digest published_at db =
    map_err (λ e. repository (database e))
      (publish_version fresh kind name owner digest published_at db)
    >>= λ p. ok (schema_record_from_row p.0, p.1)

unfoldable pub publish : ℕ → SchemaKind → Text → ℕ → ℕ → ℤ → Action Db SchemaRecord AuthorityError
publish fresh kind name owner digest published_at =
    transaction (publish_body fresh kind name owner digest published_at)

-- `find`, whose WHERE keeps one row at most.
unfoldable pub find : SchemaKind → Text → ℤ → Db → Result (Option SchemaRecord) AuthorityError
find kind name version db =
    elim (find_row (λ r. named kind name r && eqb_ℤ r.version.version version) db.schema_versions) [
      | none ↦ ok none
      | some row ↦ schema_record_from_row row >>= λ r. ok (some r)
    ]

abbrev pub schemas : SchemaRepository Db
schemas = record { publish = publish; find = find }
