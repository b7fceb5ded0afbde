-- ===== src/Postgres/Routes/Matching.antt =====
-- What the match key (request_id, subscription_id) of a route makes of repeated materializations.
use infernal_law.Base.{
  ℕ, ◌≡◌, sym, subst, inl, inr, some, List, [], ◌∷◌, arith, ok, Option-cases, Result-cases,
  find_row,
}
use infernal_law.Kernel.Requests.{Route, restore_route}
use infernal_law.Postgres.Db.{Db}
use infernal_law.Postgres.Routes.{find_match, check_route, route_from_row, materialize}

-- The tables after any sequence of materializations.
unfoldable pub materialize_all : Db → List Route → Db
materialize_all db [] = db
materialize_all db (r ∷ rs) = materialize_all (materialize r db).1 rs

pub match_stays :
    (db : Db) (r : Route) (request subscription : ℕ) (a : Route)
    → find_match request subscription db.routes ≡ some a
    → find_match request subscription (materialize r db).1.routes ≡ some a
unfolding materialize find_match find_row
match_stays db r request subscription a h =
    elim (Option-cases (find_match r.request_id r.subscription_id db.routes)) [
      | inl new ↦ elim (Result-cases (check_route db r)) [
        | inl (_, passed) ↦ ground (arith, new, passed, h)
        | inr (e, failed) ↦ ground (arith, new, failed, h)
      ]
      | inr (old, found) ↦ ground (arith, found, h)
    ]

pub match_kept :
    (db : Db) (rs : List Route) (request subscription : ℕ) (a : Route)
    → find_match request subscription db.routes ≡ some a
    → find_match request subscription (materialize_all db rs).routes ≡ some a
unfolding materialize_all
match_kept db [] request subscription a h = h
match_kept db (r ∷ rs) request subscription a h =
    match_kept (materialize r db).1 rs request subscription a
      (match_stays db r request subscription a h)

from_row-same : (r x : Route) → route_from_row r ≡ ok x → x ≡ r
unfolding route_from_row restore_route
from_row-same r x h = ground (arith, h)

pub materialize-stored :
    (db : Db) (r x : Route)
    → (materialize r db).0 ≡ ok x
    → (find_match r.request_id r.subscription_id (materialize r db).1.routes ≡ some x)
      × (route_from_row x ≡ ok x)
unfolding materialize find_match find_row
materialize-stored db r x h =
    elim (Option-cases (find_match r.request_id r.subscription_id db.routes)) [
      | inl new ↦ elim (Result-cases (check_route db r)) [
        | inl (_, passed) ↦
            let restored : route_from_row r ≡ ok x = ground (arith, new, passed, h) in
            let same = from_row-same r x restored in
            (ground (arith, new, passed, h, same), ground (arith, restored, same))
        | inr (e, failed) ↦ absurd (ground (arith, new, failed, h))
      ]
      | inr (old, found) ↦
          let restored : route_from_row old ≡ ok x = ground (arith, found, h) in
          let same = from_row-same old x restored in
          (ground (arith, found, h, same), ground (arith, restored, same))
    ]

-- Materializing is idempotent: once a route was returned for a request id and a subscription,
-- then after any materializations that follow, a materialization for the same two ids, whatever
-- its other fields are, returns the same route and leaves the tables as they are.
pub materialize_again :
    (db : Db) (r x : Route) (later : List Route) (q : Route)
    → (materialize r db).0 ≡ ok x
    → q.request_id ≡ r.request_id
    → q.subscription_id ≡ r.subscription_id
    → let u = materialize_all (materialize r db).1 later in materialize q u ≡ (ok x, u)
unfolding materialize
materialize_again db r x later q h request subscription =
    let t = (materialize r db).1 in
    let u = materialize_all t later in
    let (stored, restored) = materialize-stored db r x h in
    let kept = match_kept t later r.request_id r.subscription_id x stored in
    let found =
      subst (λ i. find_match q.request_id i u.routes ≡ some x) (sym subscription)
        (subst (λ i. find_match i r.subscription_id u.routes ≡ some x) (sym request) kept) in
    ground (arith, found, restored)
