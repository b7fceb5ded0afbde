-- ===== src/Postgres/Routes.antt =====
-- src/infrastructure/postgres_route_repository.rs with migrations/0016_request_routes.sql.
pub mod Matching
use infernal_law.Base.{
  ℕ, ℤ, ltb_ℤ, eqb_ℤ, leb, ◌==◌, Bool, not, ◌&&◌, ◌||◌, Option, none, some, List, [], ◌∷◌, Result,
  ok, err, Action, map_err, reject, transaction, ◌>>=◌, ◌>>◌, if◌then◌else◌, find_row, any_row,
  where_rows, order_by, by_creation,
}
use infernal_law.Kernel.Faults.{unique_violation, request_routes_pkey, database, message}
use infernal_law.Kernel.Requests.{
  Route, AcceptedRequest, RequestError, unknown_subscription, repository, restore_route,
  RouteRepository,
}
use infernal_law.Kernel.Subscriptions.{Subscription}
use infernal_law.Postgres.Db.{Db}

-- The key of ON CONFLICT (request_id, subscription_id).
abbrev pub same_match : ℕ → ℕ → Route → Bool
same_match request subscription r = r.request_id == request && r.subscription_id == subscription

-- FIND_BY_MATCH_KEY_SQL.
unfoldable pub find_match : ℕ → ℕ → List Route → Option Route
find_match request subscription = find_row (same_match request subscription)

abbrev unknown_reference : RequestError
unknown_reference =
    repository (message "route references an unknown request or destination identity")

-- The primary key and the foreign keys of `request_routes`, as `foreign_key_violation_error`
-- reports them.
unfoldable pub check_route : Db → Route → Result Unit RequestError
check_route db r =
    reject (any_row (λ x. x.id == r.id) db.routes)
      (repository (database (unique_violation request_routes_pkey)))
    >> reject (not (any_row (λ x. x.id == r.subscription_id) db.subscriptions)) unknown_subscription
    >> reject (not (any_row (λ i. i.id == r.destination_service) db.identities)) unknown_reference
    >> reject
        (not (
          any_row
            (λ x. x.request.source_service == r.source_service && x.request.id == r.request_id)
            db.accepted_requests))
        unknown_reference

-- `route_from_row`.
unfoldable pub route_from_row : Route → Result Route RequestError
route_from_row r = map_err (λ _. repository (message "stored route is invalid")) (restore_route r)

-- `materialize`: an INSERT that commits by itself, then the read of the row it conflicted with.
unfoldable pub materialize : Route → Action Db Route RequestError
materialize r db = elim (find_match r.request_id r.subscription_id db.routes) [
  | some old ↦ (route_from_row old, db)
  | none ↦ elim (check_route db r) [
    | err e ↦ (err e, db)
    | ok _ ↦ (route_from_row r, record db { routes = r ∷ db.routes })
  ]
]

-- ORDER BY created_at, route_id.
abbrev pub order_routes : List Route → List Route
order_routes = order_by (by_creation (λ r. r.created_at) (λ r. r.id))

unfoldable pub routes_from_rows : List Route → Result (List Route) RequestError
routes_from_rows [] = ok []
routes_from_rows (r ∷ rs) = do
  route ← route_from_row r
  rest ← routes_from_rows rs
  ok (route ∷ rest)

unfoldable pub restore_found : Option Route → Result (Option Route) RequestError
restore_found none = ok none
restore_found (some r) = route_from_row r >>= λ x. ok (some x)

unfoldable pub find : ℕ → Db → Result (Option Route) RequestError
find route db = restore_found (find_row (λ r. r.id == route) db.routes)

unfoldable pub list_for_request : ℕ → Db → Result (List Route) RequestError
list_for_request request db =
    routes_from_rows (order_routes (where_rows (λ r. r.request_id == request) db.routes))

unfoldable pub list_for_destination : ℕ → Db → Result (List Route) RequestError
list_for_destination service db =
    routes_from_rows (order_routes (where_rows (λ r. r.destination_service == service) db.routes))

abbrev pub routes : RouteRepository Db
routes = record {
  materialize = materialize;
  find = find;
  list_for_request = list_for_request;
  list_for_destination = list_for_destination;
}
