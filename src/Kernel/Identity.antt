-- ===== src/Kernel/Identity.antt =====
-- src/kernel/identity.rs: identities, the repository's interface and the service. An `ActorId` is
-- the number of its UUID.
use infernal_law.Base.{
  ℕ, Bool, ◌||◌, Option, [], Result, ok, err, ok_or, Action, ◌>>=◌, if◌then◌else◌, ltb, length,
  Text, text_eq, trim, codes,
}
use infernal_law.Kernel.Faults.{Cause}

abbrev pub max_display_name_length : ℕ
max_display_name_length = 200

pub data ActorKind : Type 0 where
  service worker : ActorKind

pub data IdentityStatus : Type 0 where
  active disabled : IdentityStatus

pub record Identity : Type 0 where
  pub id : ℕ
  pub kind : ActorKind
  pub display_name : Text
  pub status : IdentityStatus

pub data IdentityError : Type 0 where
  already_exists is_disabled not_found : ℕ → IdentityError
  invalid_actor_id invalid_display_name : IdentityError
  invalid_actor_kind invalid_identity_status : Text → IdentityError
  repository : Cause → IdentityError

unfoldable pub kind_as_str : ActorKind → Text
kind_as_str service = codes "service"
kind_as_str worker = codes "worker"

unfoldable pub kind_from_str : Text → Result ActorKind IdentityError
unfolding text_eq
kind_from_str value =
    if text_eq value (codes "service")
    then ok service
    else if text_eq value (codes "worker")
    then ok worker
    else err (invalid_actor_kind value)

unfoldable pub status_as_str : IdentityStatus → Text
status_as_str active = codes "active"
status_as_str disabled = codes "disabled"

unfoldable pub status_from_str : Text → Result IdentityStatus IdentityError
unfolding text_eq
status_from_str value =
    if text_eq value (codes "active")
    then ok active
    else if text_eq value (codes "disabled")
    then ok disabled
    else err (invalid_identity_status value)

abbrev is_empty : Text → Bool
is_empty s = elim s [ [] ↦ Bool.true | _ ↦ Bool.false ]

unfoldable pub validate_display_name : Text → Result Text IdentityError
unfolding trim
validate_display_name display_name =
    let name = trim display_name in
    if is_empty name || ltb max_display_name_length (length name)
    then err invalid_display_name
    else ok name

-- `Identity::restore`.
unfoldable pub restore_identity :
    ℕ → ActorKind → Text → IdentityStatus → Result Identity IdentityError
restore_identity id kind display_name status = do
  name ← validate_display_name display_name
  ok (record { id = id; kind = kind; display_name = name; status = status })

abbrev pub is_active : Identity → Bool
is_active i = elim i.status [ active ↦ Bool.true | disabled ↦ Bool.false ]

-- `trait IdentityRepository` over a store `S`.
pub record IdentityRepository (S : Type 0) : Type 0 where
  pub insert : Identity → Action S Unit IdentityError
  pub find : ℕ → S → Result (Option Identity) IdentityError
  pub save : Identity → Action S Unit IdentityError

module _ {S : Type 0} (store : IdentityRepository S) where
  abbrev stored : Identity → Result Unit IdentityError × S → Result Identity IdentityError × S
  stored x (ok u, t) = (ok x, t)
  stored x (err e, t) = (err e, t)

  -- `IdentityService::create`, with `Identity::create`; `fresh` is the new id.
  unfoldable pub create_identity : ℕ → ActorKind → Text → Action S Identity IdentityError
  create_identity fresh kind display_name s =
      elim (restore_identity fresh kind display_name active) [
        | err e ↦ (err e, s)
        | ok x ↦ stored x (store.insert x s)
      ]

  unfoldable pub find_required : ℕ → S → Result Identity IdentityError
  find_required id s = store.find id s >>= λ found. ok_or found (not_found id)

  unfoldable pub resolve_active : ℕ → S → Result Identity IdentityError
  resolve_active id s =
      find_required id s >>= λ x. if is_active x then ok x else err (is_disabled id)

  -- `IdentityService::rename`, with `Identity::rename`.
  unfoldable pub rename_identity : ℕ → Text → Action S Identity IdentityError
  rename_identity id display_name s = elim (find_required id s) [
    | err e ↦ (err e, s)
    | ok x ↦ elim (validate_display_name display_name) [
      | err e ↦ (err e, s)
      | ok name ↦ let y = record x { display_name = name } in stored y (store.save y s)
    ]
  ]

  -- `IdentityService::disable`, with `Identity::disable`.
  unfoldable pub disable_identity : ℕ → Action S Identity IdentityError
  disable_identity id s = elim (find_required id s) [
    | err e ↦ (err e, s)
    | ok x ↦ let y = record x { status = disabled } in stored y (store.save y s)
  ]
