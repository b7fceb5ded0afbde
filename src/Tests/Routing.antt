-- ===== src/Tests/Routing.antt =====
-- Tests of the routes, the subscriptions and what src/http.rs makes of them.
use infernal_law.Base.{
  ℕ, pos, ◌≡◌, refl, true, false, not, ◌&&◌, ◌==◌, none, some, [], ◌∷◌, arith, ok, find_row,
  any_row, where_rows, insert_by, order_by, text_eq, split_dots, all, bytes, utf8, trim, trim_start,
  is_whitespace,
}
use infernal_law.Kernel.Faults.{Cause, message}
use infernal_law.Kernel.Names.{
  is_valid_action_name, event_type, event_type_checked, valid_event_segment, namespaced,
  is_valid_action_segment, starts_lower, scope,
}
use infernal_law.Kernel.Subscriptions.{SubscriptionError, restore_subscription, is_active}
use infernal_law.Kernel.Requests.{
  Route, restore_route, materialize_route, restore_request, restore_accepted,
}
use infernal_law.Kernel.WorkClaims.{WorkClaimError, active_routes}
use infernal_law.Postgres.Db.{Db}
use infernal_law.Postgres.Requests.{requests, find_request, accepted_from_row}
use infernal_law.Postgres.Requests
use infernal_law.Postgres.Routes.{
  routes, materialize, find_match, same_match, check_route, route_from_row, routes_from_rows,
  list_for_destination, find, restore_found,
}
use infernal_law.Postgres.Routes.Matching.{materialize_all, materialize_again}
use infernal_law.Postgres.Subscriptions.{
  subscriptions, find_active_by_event_type, subscriptions_from_rows, subscription_from_row,
}
use infernal_law.Postgres.Subscriptions.Unique.{
  OneActive, insertion, disablement, apply_all, changes-OneActive,
}
use infernal_law.Postgres.WorkClaims.{work_claims, active_route_ids, completed_route_ids}
use infernal_law.Http.Routing.{
  materialize_each, materialize_routes, eligible_for, find_for_destination,
}
use infernal_law.Base.{ℤ, ◌≢◌, All, ◌<ℤ◌, i64_max}
use infernal_law.Postgres.WorkClaims.Invariant.{IsHistory}
use infernal_law.Postgres.WorkClaims.{claim, new_claim, owns_route}
use infernal_law.Http.Routing.Claimable.{eligible_for_granted}
use infernal_law.Http.Routing.Collision.{OneRoute, materialize_collision}
use infernal_law.Http.Routing.Steps.{has_match}
use infernal_law.Http.Routing.Delivery.{materialize_routes_complete}
use infernal_law.Http.Routing.Eligible.{claimed_now, completed_ever, eligible_for-exact}
use infernal_law.Http.Routing.Hidden.{find_for_destination-own, find_for_destination-hidden}
use infernal_law.Tests.{
  claimed_db, action_text, a_subscription, an_accepted, a_route, accepted_db, routed_db,
}

-- A route for the same request and subscription under another id, and one of service 12.
abbrev again_route : Route
again_route = record a_route { id = 41; created_at = pos 8 }

first_made : (materialize a_route accepted_db).0 ≡ ok a_route
unfolding materialize find_match find_row any_row check_route route_from_row restore_route
first_made = ground arith

materialize_again_example :
    let u = materialize_all (materialize a_route accepted_db).1 (again_route ∷ []) in
    materialize again_route u ≡ (ok a_route, u)
materialize_again_example =
    materialize_again accepted_db a_route a_route (again_route ∷ []) again_route first_made refl
      refl

no_routes : OneRoute accepted_db.routes
unfolding OneRoute
no_routes = tt

materialize_collision_example :
    any_row
      (λ y. y.source_service == 12 && same_match 50 60 y)
      (materialize_all
        (materialize a_route accepted_db).1
        (record again_route { source_service = 12 } ∷ [])).routes
    ≡ false
materialize_collision_example =
    materialize_collision accepted_db a_route a_route
      (record again_route { source_service = 12 } ∷ []) 12 no_routes first_made (ground arith)

one_subscription : OneActive accepted_db.subscriptions
unfolding OneActive any_row
one_subscription = (refl, tt)

changes-OneActive_example :
    OneActive
      (apply_all accepted_db (
        insertion (record a_subscription { id = 61 })
        ∷ disablement 13 60 (pos 9)
        ∷ insertion (record a_subscription { id = 62 })
        ∷ [])).subscriptions
changes-OneActive_example =
    changes-OneActive accepted_db
      (insertion (record a_subscription { id = 61 })
        ∷ disablement 13 60 (pos 9)
        ∷ insertion (record a_subscription { id = 62 })
        ∷ [])
      one_subscription

abbrev described : WorkClaimError → Cause
described e = message "work claims"

offered : eligible_for routes work_claims described 13 (pos 15) routed_db ≡ ok (a_route ∷ [])
unfolding eligible_for list_for_destination routes_from_rows route_from_row restore_route
    active_routes active_route_ids completed_route_ids where_rows any_row order_by insert_by
offered = refl

eligible_for-exact_example :
    any_row (λ r. r.id == 40) (a_route ∷ [])
    ≡ any_row
        (λ r.
          r.destination_service == 13
          && not (claimed_now routed_db (pos 15) r)
          && not (completed_ever routed_db r)
          && r.id == 40)
        routed_db.routes
eligible_for-exact_example =
    eligible_for-exact described routed_db 13 (pos 15) (a_route ∷ []) (λ r. r.id == 40) offered

read_own : find_for_destination routes (requests (pos 9)) 13 40 routed_db ≡ ok (some an_accepted)
unfolding find_for_destination find restore_found route_from_row restore_route find_row
    Requests.find Requests.restore_found find_request accepted_from_row restore_request
    restore_accepted is_valid_action_name namespaced is_valid_action_segment starts_lower split_dots
    all bytes utf8 trim trim_start is_whitespace text_eq scope
read_own = refl

find_for_destination-own_example :
    (r : Route) × (find_row (λ x. x.id == 40) routed_db.routes ≡ some r)
    × (r.destination_service ≡ 13)
    × (find_request r.source_service r.request_id routed_db.accepted_requests ≡ some an_accepted)
find_for_destination-own_example =
    find_for_destination-own (pos 9) routed_db 13 40 an_accepted read_own

route_40 : find_row (λ x. x.id == 40) routed_db.routes ≡ some a_route
unfolding find_row
route_40 = refl

route_99 : find_row (λ x. x.id == 99) routed_db.routes ≡ none
unfolding find_row
route_99 = refl

a_route_valid : restore_route a_route ≡ ok a_route
unfolding restore_route
a_route_valid = refl

find_for_destination-hidden_example :
    find_for_destination routes (requests (pos 9)) 12 40 routed_db
    ≡ find_for_destination routes (requests (pos 9)) 12 99 routed_db
find_for_destination-hidden_example =
    find_for_destination-hidden (pos 9) routed_db 12 40 99 a_route route_40 a_route_valid
      (ground arith) route_99

abbrev silent : SubscriptionError → Cause
silent e = message "subscriptions"

abbrev new_id : ℕ → ℕ
new_id subscription = 40

action_is_valid : is_valid_action_name action_text ≡ true
unfolding is_valid_action_name namespaced is_valid_action_segment starts_lower split_dots all bytes
    utf8
action_is_valid = ground arith

routed_all :
    (materialize_routes subscriptions routes silent new_id 11 50 action_text (pos 5) accepted_db).0
    ≡ ok (a_route ∷ [])
unfolding materialize_routes materialize_each materialize_route materialize find_match find_row
    any_row check_route route_from_row restore_route find_active_by_event_type
    subscriptions_from_rows subscription_from_row restore_subscription where_rows order_by insert_by
    text_eq event_type event_type_checked valid_event_segment split_dots all trim
routed_all = ground arith

active_listed :
    any_row
      (λ s. text_eq s.event_type action_text && is_active s && s.id == 60)
      accepted_db.subscriptions
    ≡ true
unfolding any_row text_eq
active_listed = refl

materialize_routes_complete_example :
    has_match 50 60
      (materialize_routes subscriptions routes silent new_id 11 50 action_text
        (pos 5)
        accepted_db).1
    ≡ true
materialize_routes_complete_example =
    materialize_routes_complete silent new_id 11 50 (pos 5) action_text accepted_db (a_route ∷ [])
      60 action_is_valid routed_all active_listed

-- The lease of the first claim has run out at 20: the route is offered again, and granted.
offered_again : eligible_for routes work_claims described 13 (pos 25) claimed_db ≡ ok (a_route ∷ [])
unfolding eligible_for list_for_destination routes_from_rows route_from_row restore_route
    active_routes active_route_ids completed_route_ids where_rows any_row order_by insert_by
offered_again = refl

lapsed-IsHistory : IsHistory claimed_db.claims
lapsed-IsHistory = ground arith

a_route_owned : owns_route claimed_db 40 13 ≡ true
unfolding owns_route find_row
a_route_owned = refl

a_route_listed : any_row (λ r. r.id == 40) (a_route ∷ []) ≡ true
unfolding any_row
a_route_listed = refl

service_known : any_row (λ i. i.id == 13) claimed_db.identities ≡ true
unfolding any_row
service_known = refl

instance_known : any_row (λ i. i.instance_id == 20) claimed_db.instances ≡ true
unfolding any_row
instance_known = refl

id_unused : All (λ c. c.id ≢ 71) claimed_db.claims
id_unused = ground arith

tokens_left : All (λ c. c.fencing_token <ℤ i64_max) claimed_db.claims
tokens_left = ground arith

eligible_for_granted_example :
    (token : ℤ) × (t : Db) × (claim 71 40 13 20 (pos 35) (pos 25) claimed_db
      ≡ (ok (new_claim 71 40 13 20 token (pos 35) (pos 25)), t))
eligible_for_granted_example =
    eligible_for_granted described 71 40 13 20 (pos 35) (pos 25) claimed_db (a_route ∷ [])
      lapsed-IsHistory offered_again a_route_listed a_route_owned id_unused tokens_left
      service_known instance_known (ground arith) (ground arith)
