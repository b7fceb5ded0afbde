-- ===== src/Postgres/Schemas/Published.antt =====
-- Publications under a name that another service owns.
use infernal_law.Base.{ℕ, ℤ, pos, ltb_ℤ, ◌≡◌, ◌≢◌, arith, some, false, err, Text}
use infernal_law.Kernel.Faults.{database, raised}
use infernal_law.Kernel.Authority.{repository}
use infernal_law.Kernel.Schemas.{SchemaKind, SchemaRecord, publish_schema}
use infernal_law.Postgres.Db.{Db}
use infernal_law.Postgres.Schemas.{
  named, latest_of, publish_version, publish_body, publish, schemas,
}

-- A service that does not own the name publishes nothing: the error is the database's exception,
-- reported as a failure of the repository, and the tables stay as they were.
pub publish_foreign :
    (fresh : ℕ) (kind : SchemaKind) (name : Text) (owner digest : ℕ) (at : ℤ) (db : Db)
    (latest : SchemaRecord)
    → ltb_ℤ at (pos 0) ≡ false
    → latest_of (named kind name) db.schema_versions ≡ some latest
    → latest.version.owner ≢ owner
    → publish_schema schemas fresh kind name owner digest at db
      ≡ (err (repository (database (raised "schema name is owned by a different service"))), db)
unfolding publish_schema publish publish_body publish_version
publish_foreign fresh kind name owner digest at db latest late found other =
    ground (arith, late, found, other)
