-- ===== src/Postgres/Subscriptions.antt =====
-- src/infrastructure/postgres_subscription_repository.rs with the keys of
-- migrations/0004_subscriptions.sql. The CHECK constraints repeat the checks of the constructors,
-- and the trigger on updates allows what `disable` does: both are left out.
pub mod Unique
use infernal_law.Base.{
  ℕ, ℤ, pos, ltb_ℤ, leb_ℤ, ◌==◌, Bool, not, ◌&&◌, Option, none, some, List, [], ◌∷◌, Result, ok,
  err, Action, map_err, ok_or, reject, transaction, ◌>>=◌, ◌>>◌, if◌then◌else◌, find_row, any_row,
  where_rows, order_by, by_creation, is_some, Text, text_eq,
}
use infernal_law.Kernel.Faults.{Cause, message}
use infernal_law.Kernel.Names
use infernal_law.Kernel.Subscriptions.{
  Subscription, SubscriptionError, already_exists, already_disabled, not_found, unknown_service,
  duplicate_active, invalid_timestamp, invalid_event_type, repository, restore_subscription,
  is_active, SubscriptionRepository,
}
use infernal_law.Postgres.Db.{Db, SubscriptionAction, created, disabled}

-- `subscription_from_row`, with the parse of the stored event type.
unfoldable pub subscription_from_row : Subscription → Result Subscription SubscriptionError
subscription_from_row s = do
  event ← ok_or (Names.event_type s.event_type) invalid_event_type
  map_err (λ _. repository (message "stored subscription is invalid"))
      (restore_subscription (record s { event_type = event }))

unfoldable pub subscriptions_from_rows :
    List Subscription → Result (List Subscription) SubscriptionError
subscriptions_from_rows [] = ok []
subscriptions_from_rows (s ∷ ss) = do
  x ← subscription_from_row s
  rest ← subscriptions_from_rows ss
  ok (x ∷ rest)

-- `append_audit`.
abbrev pub audited : Db → Subscription → SubscriptionAction → ℤ → Db
audited db s action at = record db {
  subscription_audit =
      record { subscription = s; action = action; recorded_at = at } ∷ db.subscription_audit;
}

-- The key of the index `subscriptions_one_active_event_idx`.
abbrev pub active_for : ℕ → Text → Subscription → Bool
active_for service event s = s.service_id == service && text_eq s.event_type event && is_active s

-- The primary key, the index and the foreign key of `subscriptions`, as `insert` reports them.
unfoldable pub check_subscription : Db → Subscription → Result Unit SubscriptionError
check_subscription db s =
    reject (any_row (λ x. x.id == s.id) db.subscriptions) (already_exists s.id)
    >> reject (any_row (active_for s.service_id s.event_type) db.subscriptions)
        (duplicate_active s.service_id s.event_type)
    >> reject (not (any_row (λ i. i.id == s.service_id) db.identities))
        (unknown_service s.service_id)

-- `insert`; the row that it writes has no `disabled_at`.
unfoldable pub insert_body :
    Subscription → Db → Result (Result Unit SubscriptionError × Db) SubscriptionError
insert_body s db = do
  check_subscription db s
  ok (
    ok tt,
    audited (record db { subscriptions = record s { disabled_at = none } ∷ db.subscriptions }) s
        created s.created_at,
  )

unfoldable pub insert : Subscription → Action Db Unit SubscriptionError
insert s = transaction (insert_body s)

-- The WHERE of DISABLE_SQL.
abbrev pub to_disable : ℕ → ℕ → ℤ → Subscription → Bool
to_disable service id at s =
    s.id == id && s.service_id == service && is_active s && leb_ℤ s.created_at at

-- `UPDATE … SET disabled_at = at` of the rows that the WHERE keeps.
unfoldable pub disable_rows : (Subscription → Bool) → ℤ → List Subscription → List Subscription
disable_rows p at [] = []
disable_rows p at (s ∷ ss) =
    let rest = disable_rows p at ss in
    if p s then record s { disabled_at = some at } ∷ rest else s ∷ rest

-- `classify_failed_disable`.
unfoldable pub classify_failed_disable : Db → ℕ → ℕ → ℤ → SubscriptionError
classify_failed_disable db service id at = elim (find_row (λ s. s.id == id) db.subscriptions) [
  | none ↦ not_found id
  | some s ↦
      if not (s.service_id == service)
      then not_found id
      else if is_some s.disabled_at
      then already_disabled id
      else if ltb_ℤ at s.created_at
      then invalid_timestamp
      else repository (message "subscription disable was not applied")
]

unfoldable pub disable_body :
    ℕ → ℕ → ℤ → Db → Result (Result Subscription SubscriptionError × Db) SubscriptionError
disable_body service id at db = elim (find_row (to_disable service id at) db.subscriptions) [
  | none ↦ err (classify_failed_disable db service id at)
  | some s ↦ subscription_from_row (record s { disabled_at = some at }) >>= λ x. ok (
    ok x,
    audited
        (record db { subscriptions = disable_rows (to_disable service id at) at db.subscriptions })
        x disabled at,
  )
]

-- `disable`, whose WHERE keeps one row at most, since `id` is the primary key.
unfoldable pub disable : ℕ → ℕ → ℤ → Action Db Subscription SubscriptionError
disable service id at db =
    if ltb_ℤ at (pos 0)
    then (err invalid_timestamp, db)
    else transaction (disable_body service id at) db

-- ORDER BY created_at, id.
abbrev pub order_subscriptions : List Subscription → List Subscription
order_subscriptions = order_by (by_creation (λ s. s.created_at) (λ s. s.id))

-- LIST_HISTORY_SQL, LIST_ACTIVE_SQL and FIND_ACTIVE_BY_EVENT_TYPE_SQL.
abbrev pub list_where : (Subscription → Bool) → Db → Result (List Subscription) SubscriptionError
list_where p db = subscriptions_from_rows (order_subscriptions (where_rows p db.subscriptions))

unfoldable pub list_for_service : ℕ → Db → Result (List Subscription) SubscriptionError
list_for_service service = list_where (λ s. s.service_id == service)

unfoldable pub list_active_for_service : ℕ → Db → Result (List Subscription) SubscriptionError
list_active_for_service service = list_where (λ s. s.service_id == service && is_active s)

unfoldable pub find_active_by_event_type : Text → Db → Result (List Subscription) SubscriptionError
find_active_by_event_type event = list_where (λ s. text_eq s.event_type event && is_active s)

abbrev pub subscriptions : SubscriptionRepository Db
subscriptions = record {
  insert = insert;
  list_for_service = list_for_service;
  list_active_for_service = list_active_for_service;
  find_active_by_event_type = find_active_by_event_type;
  disable = disable;
}
