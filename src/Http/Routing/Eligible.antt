-- ===== src/Http/Routing/Eligible.antt =====
-- Which routes a destination is offered (`EligibleRouteQuery` of src/http.rs).
use infernal_law.Base.{
  ℕ, ℤ, pos, ltb_ℤ, ◌==◌, ◌≡◌, sym, ap, ◌∙◌, subst, inl, inr, Bool, true, not, ◌&&◌, List, [], ◌∷◌,
  arith, ok, Result-cases, ◌>>=◌, bind-ok, Bool-cases, All, All-map, where_rows, any_row, contains,
  map, any_row-where_rows, any_row-order_by, any_row-congr, where_rows-congr, contains-map,
  All-contained, by_creation,
}
use infernal_law.Kernel.Faults.{Cause}
use infernal_law.Kernel.Requests.{Route, restore_route}
use infernal_law.Kernel.WorkClaims.{
  WorkClaim, WorkClaimError, is_current, is_completed, active_routes,
}
use infernal_law.Postgres.Db.{Db}
use infernal_law.Postgres.Routes.{
  routes, routes_from_rows, route_from_row, list_for_destination, order_routes,
}
use infernal_law.Postgres.WorkClaims.{work_claims, active_route_ids, completed_route_ids}
use infernal_law.Http.Routing.{eligible_for}

pub route_from_row-same : (r x : Route) → route_from_row r ≡ ok x → x ≡ r
unfolding route_from_row restore_route
route_from_row-same r x h = ground (arith, h)

pub routes_from_rows-same : (rows rs : List Route) → routes_from_rows rows ≡ ok rs → rs ≡ rows
unfolding routes_from_rows
routes_from_rows-same [] rs h = ground (arith, h)
routes_from_rows-same (r ∷ rows) rs h =
    let more = routes_from_rows rows in
    let (x, first, then_more) = bind-ok (route_from_row r) (λ x. more >>= λ xs. ok (x ∷ xs)) h in
    let (xs, remaining, cons) = bind-ok more (λ xs. ok (x ∷ xs)) then_more in
    let same = route_from_row-same r x first in
    let ih = routes_from_rows-same rows xs remaining in ground (arith, cons, same, ih)

-- A claim on the route that is current, and one that is completed.
abbrev pub claimed_now : Db → ℤ → Route → Bool
claimed_now db now r = any_row (λ c. c.route_id == r.id && is_current c now) db.claims

abbrev pub completed_ever : Db → Route → Bool
completed_ever db r = any_row (λ c. c.route_id == r.id && is_completed c.status) db.claims

known_id :
    (ids : List ℕ) (a n : ℕ) (b : Bool)
    → contains ids n ≡ true
    → ((contains ids a && b) && (a == n)) ≡ ((a == n) && b)
known_id ids a n b known = elim (Bool-cases (a == n)) [
  | inl same ↦
      let equal : a ≡ n = ground (arith, same) in
      let here = subst (λ x. contains ids x ≡ true) (sym equal) known in ground (arith, here, same)
  | inr other ↦ ground (arith, other)
]

-- The ids that a query of the claims returns hold a known id exactly if it has such a claim.
contains-ids :
    (ids : List ℕ) (p : WorkClaim → Bool) (cs : List WorkClaim) (n : ℕ)
    → contains ids n ≡ true
    → contains (map (λ c. c.route_id) (where_rows (λ c. contains ids c.route_id && p c) cs)) n
      ≡ any_row (λ c. c.route_id == n && p c) cs
contains-ids ids p cs n known =
    contains-map (λ c. c.route_id) (where_rows (λ c. contains ids c.route_id && p c) cs) n
    ∙ any_row-where_rows (λ c. c.route_id == n) (λ c. contains ids c.route_id && p c) cs
    ∙ any_row-congr (λ c. (contains ids c.route_id && p c) && c.route_id == n)
        (λ c. c.route_id == n && p c) cs (λ c. known_id ids c.route_id n (p c) known)

-- The test that `eligible_for` makes with the two lists, on a route that was listed.
listed_test :
    (db : Db) (now : ℤ) (ids : List ℕ) (r : Route)
    → contains ids r.id ≡ true
    → (not (
          contains
            (map
              (λ c. c.route_id)
              (where_rows (λ c. contains ids c.route_id && is_current c now) db.claims))
            r.id)
        && not (
            contains
              (map
                (λ c. c.route_id)
                (where_rows (λ c. contains ids c.route_id && is_completed c.status) db.claims))
              r.id))
      ≡ (not (claimed_now db now r) && not (completed_ever db r))
listed_test db now ids r known =
    let first = contains-ids ids (λ c. is_current c now) db.claims r.id known in
    let second = contains-ids ids (λ c. is_completed c.status) db.claims r.id known in
    ap (λ (b : Bool × Bool). not b.0 && not b.1) (λ i. (first i, second i))

-- The filter of `eligible_for`, as the two queries make it.
abbrev listed : Db → ℤ → List Route → Route → Bool
listed db now rs r =
    let ids = map (λ x. x.id) rs in
    not (
      contains
        (map (λ c. c.route_id)
          (where_rows (λ c. contains ids c.route_id && is_current c now) db.claims))
        r.id)
    && not (
        contains
          (map (λ c. c.route_id)
            (where_rows (λ c. contains ids c.route_id && is_completed c.status) db.claims))
          r.id)

own_ids : (rs : List Route) → All (λ r. contains (map (λ x. x.id) rs) r.id ≡ true) rs
own_ids rs =
    All-contained (λ r. r.id) (map (λ x. x.id) rs) rs
      (λ n there. contains-map (λ x. x.id) rs n ∙ there)

eligible_for-listed :
    (describe : WorkClaimError → Cause) (db : Db) (service : ℕ) (now : ℤ) (rs : List Route)
    → eligible_for routes work_claims describe service now db ≡ ok rs
    → (rows : List Route) × (list_for_destination service db ≡ ok rows)
      × (rs ≡ where_rows (listed db now rows) rows)
unfolding eligible_for active_routes active_route_ids completed_route_ids
eligible_for-listed describe db service now rs h =
    elim (Result-cases (list_for_destination service db)) [
      | inr (e, failed) ↦ absurd (ground (arith, failed, h))
      | inl (rows, found) ↦ elim (Bool-cases (ltb_ℤ now (pos 0))) [
        | inl negative ↦ absurd (ground (arith, found, negative, h))
        | inr valid ↦ (rows, found, ground (arith, found, valid, h))
      ]
    ]

eligible_for-rows :
    (describe : WorkClaimError → Cause) (db : Db) (service : ℕ) (now : ℤ) (rs : List Route)
    → eligible_for routes work_claims describe service now db ≡ ok rs
    → rs
      ≡ where_rows
          (λ r. not (claimed_now db now r) && not (completed_ever db r))
          (order_routes (where_rows (λ r. r.destination_service == service) db.routes))
unfolding list_for_destination
eligible_for-rows describe db service now rs h =
    let open_now = λ (r : Route). not (claimed_now db now r) && not (completed_ever db r) in
    let stored = order_routes (where_rows (λ r. r.destination_service == service) db.routes) in
    let (rows, found, kept) = eligible_for-listed describe db service now rs h in
    let same = routes_from_rows-same stored rows found in
    let ids = map (λ r. r.id) rows in
    kept
    ∙ where_rows-congr (listed db now rows) open_now rows
        (All-map (λ r known. listed_test db now ids r known) rows (own_ids rows))
    ∙ ap (where_rows open_now) same

-- A destination is offered exactly the routes that end at it, that no current claim holds and
-- that no claim has completed: every test finds one among the routes offered exactly if it finds
-- one among those.
pub eligible_for-exact :
    (describe : WorkClaimError → Cause) (db : Db) (service : ℕ) (now : ℤ) (rs : List Route)
    (p : Route → Bool)
    → eligible_for routes work_claims describe service now db ≡ ok rs
    → any_row p rs
      ≡ any_row
          (λ r.
            r.destination_service == service
            && not (claimed_now db now r)
            && not (completed_ever db r)
            && p r)
          db.routes
eligible_for-exact describe db service now rs p h =
    let open_now = λ (r : Route). not (claimed_now db now r) && not (completed_ever db r) in
    let mine = λ (r : Route). r.destination_service == service in
    ap (any_row p) (eligible_for-rows describe db service now rs h)
    ∙ any_row-where_rows p open_now (order_routes (where_rows mine db.routes))
    ∙ any_row-order_by (λ r. open_now r && p r) (by_creation (λ r. r.created_at) (λ r. r.id))
        (where_rows mine db.routes)
    ∙ any_row-where_rows (λ r. open_now r && p r) mine db.routes
    ∙ any_row-congr (λ r. mine r && (open_now r && p r))
        (λ r.
          r.destination_service == service
          && not (claimed_now db now r)
          && not (completed_ever db r)
          && p r)
        db.routes (λ r. ground arith)
