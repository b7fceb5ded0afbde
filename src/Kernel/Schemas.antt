-- ===== src/Kernel/Schemas.antt =====
-- src/kernel/authority.rs: schema versions, the repository's interface and `SchemaService`. A
-- `SchemaName` is a text that `SchemaName::new` accepts; the digest of a document is a number.
use infernal_law.Base.{
  ℕ, ℤ, pos, ltb_ℤ, Bool, true, ◌||◌, Option, Result, ok, err, Action, Text, if◌then◌else◌,
}
use infernal_law.Kernel.Authority.{AuthorityError, invalid_schema_version}

pub data SchemaKind : Type 0 where
  artifact permission_policy : SchemaKind

abbrev pub kind_eq : SchemaKind → SchemaKind → Bool
kind_eq artifact artifact = true
kind_eq permission_policy permission_policy = true
kind_eq _ _ = Bool.false

pub record SchemaVersion : Type 0 where
  pub id : ℕ
  pub kind : SchemaKind
  pub name : Text
  pub version : ℤ
  pub owner : ℕ
  pub content_digest : ℕ
  pub predecessor : Option ℕ
  pub published_at : ℤ

pub data SchemaStatus : Type 0 where
  published active suspended superseded retired : SchemaStatus

pub record SchemaRecord : Type 0 where
  pub version : SchemaVersion
  pub status : SchemaStatus

-- `SchemaVersion::restore`: the constructor's check on the fields of `v`.
unfoldable pub restore_version : SchemaVersion → Result SchemaVersion AuthorityError
restore_version v =
    if ltb_ℤ v.version (pos 1) || ltb_ℤ v.published_at (pos 0)
    then err invalid_schema_version
    else ok v

abbrev pub is_active_schema : SchemaRecord → Bool
is_active_schema r = elim r.status [ active ↦ true | _ ↦ Bool.false ]

-- `trait SchemaRepository` over a store `S`. The id of a new version is drawn in the repository, so
-- that it is an argument of `publish` here.
pub record SchemaRepository (S : Type 0) : Type 0 where
  pub publish : ℕ → SchemaKind → Text → ℕ → ℕ → ℤ → Action S SchemaRecord AuthorityError
  pub find : SchemaKind → Text → ℤ → S → Result (Option SchemaRecord) AuthorityError

module _ {S : Type 0} (store : SchemaRepository S) where
  -- `SchemaService::publish`.
  unfoldable pub publish_schema :
      ℕ → SchemaKind → Text → ℕ → ℕ → ℤ → Action S SchemaRecord AuthorityError
  publish_schema fresh kind name owner digest published_at s =
      if ltb_ℤ published_at (pos 0)
      then (err invalid_schema_version, s)
      else store.publish fresh kind name owner digest published_at s

  -- `SchemaService::find`.
  unfoldable pub find_schema :
      SchemaKind → Text → ℤ → S → Result (Option SchemaRecord) AuthorityError
  find_schema kind name version = store.find kind name version
