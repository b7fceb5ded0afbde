-- ===== src/Postgres/Identity.antt =====
-- src/infrastructure/postgres_identity_repository.rs with the primary key of
-- migrations/0001_identities.sql, whose CHECK constraints repeat what the constructors check.
pub mod Stored
pub mod Refinement
use infernal_law.Base.{
  ℕ, ◌==◌, Option, none, some, ◌∷◌, Result, ok, err, Action, reject, transaction, ◌>>=◌, ◌>>◌,
  if◌then◌else◌, find_row, any_row, update_rows,
}
use infernal_law.Kernel.Identity.{
  Identity, IdentityError, already_exists, not_found, kind_as_str, kind_from_str, status_as_str,
  status_from_str, restore_identity, IdentityRepository,
}
use infernal_law.Postgres.Db.{Db, IdentityRow}

-- `identity_from_row`.
unfoldable pub identity_from_row : IdentityRow → Result Identity IdentityError
identity_from_row row = do
  kind ← kind_from_str row.kind
  status ← status_from_str row.status
  restore_identity row.id kind row.display_name status

-- The row that `insert` and `save` write of an identity.
unfoldable pub row_of_identity : Identity → IdentityRow
row_of_identity i = record {
  id = i.id;
  kind = kind_as_str i.kind;
  display_name = i.display_name;
  status = status_as_str i.status;
}

unfoldable pub insert_body : Identity → Db → Result (Result Unit IdentityError × Db) IdentityError
insert_body i db =
    reject (any_row (λ r. r.id == i.id) db.identities) (already_exists i.id)
    >> ok (ok tt, record db { identities = row_of_identity i ∷ db.identities })

unfoldable pub insert : Identity → Action Db Unit IdentityError
insert i = transaction (insert_body i)

unfoldable pub find : ℕ → Db → Result (Option Identity) IdentityError
find id db = elim (find_row (λ r. r.id == id) db.identities) [
  | none ↦ ok none
  | some row ↦ identity_from_row row >>= λ i. ok (some i)
]

-- `save`: an UPDATE of the row with the identity's id.
unfoldable pub save : Identity → Action Db Unit IdentityError
save i db =
    if any_row (λ r. r.id == i.id) db.identities
    then (
      ok tt,
      record db {
        identities =
            update_rows (λ r. r.id == i.id) (λ r. row_of_identity (record i { id = r.id }))
              db.identities;
      },
    )
    else (err (not_found i.id), db)

abbrev pub identities : IdentityRepository Db
identities = record { insert = insert; find = find; save = save }
