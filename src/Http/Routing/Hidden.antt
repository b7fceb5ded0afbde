-- ===== src/Http/Routing/Hidden.antt =====
-- Who may read the request behind a route (`RoutedRequestQuery` of src/http.rs).
use infernal_law.Base.{
  ℕ, ℤ, ◌==◌, ◌≡◌, ◌≢◌, inl, inr, none, some, arith, ok, Option-cases, find_row,
}
use infernal_law.Kernel.Requests.{Route, AcceptedRequest, restore_route, restore_accepted}
use infernal_law.Postgres.Db.{Db}
use infernal_law.Postgres.Requests.{requests, find_request, accepted_from_row}
use infernal_law.Postgres.Requests
use infernal_law.Postgres.Routes.{routes, find, restore_found, route_from_row}
use infernal_law.Http.Routing.{find_for_destination}

-- A caller that reads a request through a route is the destination of that route, and what it
-- reads is the request accepted under the route's own source service and request id.
pub find_for_destination-own :
    (clock : ℤ) (db : Db) (caller route : ℕ) (a : AcceptedRequest)
    → find_for_destination routes (requests clock) caller route db ≡ ok (some a)
    → (r : Route) × (find_row (λ x. x.id == route) db.routes ≡ some r)
      × (r.destination_service ≡ caller)
      × (find_request r.source_service r.request_id db.accepted_requests ≡ some a)
unfolding find_for_destination find restore_found route_from_row restore_route Requests.find
    Requests.restore_found accepted_from_row restore_accepted
find_for_destination-own clock db caller route a h =
    elim (Option-cases (find_row (λ x. x.id == route) db.routes)) [
      | inl missing ↦ absurd (ground (arith, missing, h))
      | inr (r, found) ↦
          elim (Option-cases (find_request r.source_service r.request_id db.accepted_requests)) [
            | inl missing ↦ absurd (ground (arith, found, missing, h))
            | inr (b, there) ↦ (r, found, ground (arith, found, h), ground (arith, found, there, h))
          ]
    ]

-- To a caller that is not the destination of a route that is stored validly, the route is as if it
-- did not exist: the answer is the same as for an id that no route has.
pub find_for_destination-hidden :
    (clock : ℤ) (db : Db) (caller route missing : ℕ) (r : Route)
    → find_row (λ x. x.id == route) db.routes ≡ some r
    → restore_route r ≡ ok r
    → r.destination_service ≢ caller
    → find_row (λ x. x.id == missing) db.routes ≡ none
    → find_for_destination routes (requests clock) caller route db
      ≡ find_for_destination routes (requests clock) caller missing db
unfolding find_for_destination find restore_found route_from_row
find_for_destination-hidden clock db caller route missing r found valid other absent =
    ground (arith, found, valid, absent)
