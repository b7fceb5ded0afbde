-- ===== src/Http/Routing.antt =====
-- src/http.rs: `SubscriptionRouter`, `EligibleRouteQuery` and `RoutedRequestQuery`. `describe`
-- stands for `to_string` on the errors of the other services.
pub mod Claimable
pub mod Collision
pub mod Delivery
pub mod Eligible
pub mod Hidden
pub mod Steps
use infernal_law.Base.{
  ℕ, ℤ, ◌==◌, Bool, true, not, ◌&&◌, Option, none, some, List, [], ◌∷◌, Result, ok, err, Action,
  map_err, ok_or, ◌>>=◌, if◌then◌else◌, where_rows, contains, map, Text,
}
use infernal_law.Kernel.Faults.{Cause, message}
use infernal_law.Kernel.Names
use infernal_law.Kernel.Subscriptions.{
  Subscription, SubscriptionError, SubscriptionRepository, inclusive,
}
use infernal_law.Kernel.Requests.{
  Route, AcceptedRequest, RequestError, repository, RequestRepository, RouteRepository,
  materialize_route,
}
use infernal_law.Kernel.WorkClaims.{WorkClaimError, WorkClaimRepository, active_routes}

-- `matches!(subscription.delivery_mode(), DeliveryMode::Inclusive)`.
abbrev pub is_inclusive : Subscription → Bool
is_inclusive s = elim s.delivery_mode [ inclusive ↦ true ]

module _ {S : Type 0} (subscriptions : SubscriptionRepository S) (routes : RouteRepository S)
    (describe : SubscriptionError → Cause) where
  -- The `collect` over the subscriptions, which stops at the first error; `fresh` gives the id
  -- that `RouteId::new` draws for each subscription.
  unfoldable pub materialize_each :
      (ℕ → ℕ) → ℕ → ℕ → ℤ → List Subscription → Action S (List Route) RequestError
  materialize_each fresh source request now [] s = (ok [], s)
  materialize_each fresh source request now (x ∷ xs) s =
      let (made, t) =
        materialize_route routes (fresh x.id) source request x.id x.service_id now s in
      let (rest, u) = materialize_each fresh source request now xs t in
      elim made [ err e ↦ (err e, t) | ok r ↦ (rest >>= λ rs. ok (r ∷ rs), u) ]

  -- `SubscriptionRouter::materialize_routes`.
  unfoldable pub materialize_routes :
      (ℕ → ℕ) → ℕ → ℕ → Text → ℤ → Action S (List Route) RequestError
  materialize_routes fresh source request action now s = elim (Names.event_type action) [
    | none ↦ (err (repository (message "action is not a valid event type")), s)
    | some event ↦ elim (subscriptions.find_active_by_event_type event s) [
      | err e ↦ (err (repository (describe e)), s)
      | ok matching ↦ materialize_each fresh source request now (where_rows is_inclusive matching) s
    ]
  ]

module _ {S : Type 0} (routes : RouteRepository S) (work_claims : WorkClaimRepository S)
    (describe : WorkClaimError → Cause) where
  -- `EligibleRouteQuery::eligible_for`.
  unfoldable pub eligible_for : ℕ → ℤ → S → Result (List Route) RequestError
  eligible_for destination now s = do
    rs ← routes.list_for_destination destination s
    let ids = map (λ r. r.id) rs
    claimed ← map_err (λ e. repository (describe e)) (active_routes work_claims ids now s)
    completed ← map_err (λ e. repository (describe e)) (work_claims.completed_route_ids ids s)
    ok (where_rows (λ r. not (contains claimed r.id) && not (contains completed r.id)) rs)

-- `RoutedRequestQuery::find_for_destination`.
unfoldable pub find_for_destination :
    {S : Type 0}
    → RouteRepository S
    → RequestRepository S
    → ℕ
    → ℕ
    → S
    → Result (Option AcceptedRequest) RequestError
find_for_destination routes requests caller route s = routes.find route s >>= λ found. elim found [
  | none ↦ ok none
  | some r ↦
      if r.destination_service == caller
      then requests.find r.source_service r.request_id s
      else ok none
]
