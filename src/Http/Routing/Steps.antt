-- ===== src/Http/Routing/Steps.antt =====
-- One route of the router after another: `materialize_each` of src/http.rs leaves a match for every
-- subscription that it has passed.
use infernal_law.Base.{
  ℕ, ℤ, ◌≡◌, sym, subst, inl, inr, Bool, true, some, List, [], ◌∷◌, arith, Result, ok, Option-cases,
  Result-cases, All, is_some,
}
use infernal_law.Kernel.Faults.{Cause}
use infernal_law.Kernel.Subscriptions.{Subscription, SubscriptionError}
use infernal_law.Kernel.Requests.{Route, RequestError, materialize_route, restore_route}
use infernal_law.Postgres.Db.{Db}
use infernal_law.Postgres.Subscriptions.{subscriptions}
use infernal_law.Postgres.Routes.{routes, find_match, materialize}
use infernal_law.Postgres.Routes.Matching.{match_stays, materialize-stored}
use infernal_law.Http.Routing.{materialize_each}

abbrev pub has_match : ℕ → ℕ → Db → Bool
has_match request subscription t = is_some (find_match request subscription t.routes)

-- `Route::create`.
abbrev new_route : ℕ → ℕ → ℕ → ℕ → ℕ → ℤ → Route
new_route fresh source request sub dest now = record {
  id = fresh;
  source_service = source;
  request_id = request;
  subscription_id = sub;
  destination_service = dest;
  created_at = now;
}

from_restored : (r x : Route) → restore_route r ≡ ok x → x ≡ r
unfolding restore_route
from_restored r x h = ground (arith, h)

materialized_stays :
    (db : Db) (r : Route) (rq i : ℕ)
    → has_match rq i db ≡ true
    → has_match rq i (materialize r db).1 ≡ true
materialized_stays db r rq i h = elim (Option-cases (find_match rq i db.routes)) [
  | inl missing ↦ absurd (ground (arith, missing, h))
  | inr (a, found) ↦ let kept = match_stays db r rq i a found in ground (arith, kept)
]

route_match_stays :
    (db : Db) (fresh source request sub dest : ℕ) (now : ℤ) (rq i : ℕ)
    → has_match rq i db ≡ true
    → has_match rq i (materialize_route routes fresh source request sub dest now db).1 ≡ true
unfolding materialize_route
route_match_stays db fresh source request sub dest now rq i h =
    let r = new_route fresh source request sub dest now in
    let kept = materialized_stays db r rq i h in
    elim (Result-cases (restore_route r)) [
      | inl (x, passed) ↦
          let same : x ≡ r = from_restored r x passed in
          let there = subst (λ y. has_match rq i (materialize y db).1 ≡ true) (sym same) kept in
          ground (arith, passed, there)
      | inr (e, failed) ↦ ground (arith, failed, h)
    ]

route_made :
    (db : Db) (fresh source request sub dest : ℕ) (now : ℤ) (x : Route)
    → (materialize_route routes fresh source request sub dest now db).0 ≡ ok x
    → has_match request sub (materialize_route routes fresh source request sub dest now db).1 ≡ true
unfolding materialize_route
route_made db fresh source request sub dest now x h =
    let r = new_route fresh source request sub dest now in
    elim (Result-cases (restore_route r)) [
      | inl (y, passed) ↦
          let same : y ≡ r = from_restored r y passed in
          let made : (materialize r db).0 ≡ ok x =
            subst (λ z. (materialize z db).0 ≡ ok x) same (ground (arith, passed, h)) in
          let (stored, _) = materialize-stored db r x made in
          let there =
            subst (λ z. find_match request sub (materialize z db).1.routes ≡ some x) (sym same)
              stored in
          ground (arith, passed, there)
      | inr (e, failed) ↦ absurd (ground (arith, failed, h))
    ]

module _ (describe : SubscriptionError → Cause) (fresh : ℕ → ℕ) (source request : ℕ) (now : ℤ) where
  abbrev step : Subscription → Db → Result Route RequestError × Db
  step x = materialize_route routes (fresh x.id) source request x.id x.service_id now

  abbrev pub each : List Subscription → Db → Result (List Route) RequestError × Db
  each = materialize_each subscriptions routes describe fresh source request now

  each_keeps :
      (xs : List Subscription) (db : Db) (rq i : ℕ)
      → has_match rq i db ≡ true
      → has_match rq i (each xs db).1 ≡ true
  unfolding materialize_each
  each_keeps [] db rq i h = h
  each_keeps (x ∷ xs) db rq i h =
      let t = (step x db).1 in
      let here = route_match_stays db (fresh x.id) source request x.id x.service_id now rq i h in
      let there = each_keeps xs t rq i here in
      elim (Result-cases (step x db).0) [
        | inl (r, made) ↦ ground (arith, made, there)
        | inr (e, failed) ↦ ground (arith, failed, here)
      ]

  pub each_made :
      (xs : List Subscription) (db : Db) (rs : List Route)
      → (each xs db).0 ≡ ok rs
      → All (λ x. has_match request x.id (each xs db).1 ≡ true) xs
  unfolding materialize_each
  each_made [] db rs h = tt
  each_made (x ∷ xs) db rs h =
      let t = (step x db).1 in
      elim (Result-cases (step x db).0) [
        | inr (e, failed) ↦ absurd (ground (arith, failed, h))
        | inl (r, made) ↦ elim (Result-cases (each xs t).0) [
          | inr (e, failed) ↦ absurd (ground (arith, made, failed, h))
          | inl (rest, others) ↦
              let here = route_made db (fresh x.id) source request x.id x.service_id now r made in
              let kept = each_keeps xs t request x.id here in
              let ih = each_made xs t rest others in
              let same : (each (x ∷ xs) db).1 ≡ (each xs t).1 = ground (arith, made) in
              subst (λ u. All (λ y. has_match request y.id u ≡ true) (x ∷ xs)) (sym same) (kept, ih)
        ]
      ]
