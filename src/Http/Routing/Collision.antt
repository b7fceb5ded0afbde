-- ===== src/Http/Routing/Collision.antt =====
-- Two services that use the same request id share the match keys of their routes.
use infernal_law.Base.{
  ℕ, ◌==◌, ◌≡◌, ◌≢◌, refl, sym, subst, inl, inr, true, false, ◌&&◌, none, some, List, [], ◌∷◌,
  arith, ok, Bool-cases, Option-cases, Result-cases, find_row, any_row,
}
use infernal_law.Kernel.Requests.{Route}
use infernal_law.Postgres.Db.{Db}
use infernal_law.Postgres.Routes.{find_match, materialize, same_match, check_route}
use infernal_law.Postgres.Routes.Matching.{materialize_all, match_kept, materialize-stored}

-- No two rows have the same match key.
unfoldable pub OneRoute : List Route → Type 0
OneRoute [] = Unit
OneRoute (r ∷ rs) = (any_row (same_match r.request_id r.subscription_id) rs ≡ false) × OneRoute rs

no_match :
    (request subscription : ℕ) (rs : List Route)
    → find_match request subscription rs ≡ none
    → any_row (same_match request subscription) rs ≡ false
unfolding find_match find_row any_row
no_match request subscription [] h = refl
no_match request subscription (r ∷ rs) h =
    let ih = no_match request subscription rs in ground (arith, h, ih)

materialize-OneRoute :
    (db : Db) (r : Route) → OneRoute db.routes → OneRoute (materialize r db).1.routes
unfolding materialize OneRoute
materialize-OneRoute db r h =
    elim (Option-cases (find_match r.request_id r.subscription_id db.routes)) [
      | inr (old, found) ↦ subst OneRoute (sym (ground (arith, found))) h
      | inl new ↦ elim (Result-cases (check_route db r)) [
        | inr (e, failed) ↦ subst OneRoute (sym (ground (arith, new, failed))) h
        | inl (_, passed) ↦
            let alone = no_match r.request_id r.subscription_id db.routes new in
            let added : (materialize r db).1.routes ≡ r ∷ db.routes = ground (arith, new, passed) in
            subst OneRoute (sym added) (alone, h)
      ]
    ]

materialize_all-OneRoute :
    (db : Db) (rs : List Route) → OneRoute db.routes → OneRoute (materialize_all db rs).routes
unfolding materialize_all
materialize_all-OneRoute db [] h = h
materialize_all-OneRoute db (r ∷ rs) h =
    materialize_all-OneRoute (materialize r db).1 rs (materialize-OneRoute db r h)

-- The routes of a match key are the one that is found.
unmatched :
    (source request subscription : ℕ) (rs : List Route)
    → any_row (same_match request subscription) rs ≡ false
    → any_row (λ y. y.source_service == source && same_match request subscription y) rs ≡ false
unfolding any_row
unmatched source request subscription [] h = refl
unmatched source request subscription (r ∷ rs) h =
    let ih = unmatched source request subscription rs in ground (arith, h, ih)

same_key :
    (request subscription : ℕ) (r : Route) (rs : List Route)
    → same_match request subscription r ≡ true
    → any_row (same_match r.request_id r.subscription_id) rs ≡ false
    → any_row (same_match request subscription) rs ≡ false
same_key request subscription r rs here alone =
    let e : r.request_id ≡ request = ground (arith, here) in
    let f : r.subscription_id ≡ subscription = ground (arith, here) in
    subst (λ n. any_row (same_match n subscription) rs ≡ false) e
      (subst (λ n. any_row (same_match r.request_id n) rs ≡ false) f alone)

one_source :
    (source request subscription : ℕ) (x : Route) (rs : List Route)
    → OneRoute rs
    → find_match request subscription rs ≡ some x
    → x.source_service ≢ source
    → any_row (λ y. y.source_service == source && same_match request subscription y) rs ≡ false
unfolding OneRoute find_match find_row any_row
one_source source request subscription x [] h found other = refl
one_source source request subscription x (r ∷ rs) (alone, h) found other =
    elim (Bool-cases (same_match request subscription r)) [
      | inl here ↦
          let gone =
            unmatched source request subscription rs
              (same_key request subscription r rs here alone) in
          let first : r ≡ x = ground (arith, found, here) in
          let differs = subst (λ y. y.source_service ≢ source) (sym first) other in
          ground (arith, gone, differs)
      | inr away ↦
          let beyond : find_match request subscription rs ≡ some x = ground (arith, found, away) in
          let ih = one_source source request subscription x rs h beyond other in
          ground (arith, ih, away)
    ]

-- Where no two routes share a match key, a subscription that has been routed a request of one
-- service is never routed a request of another service with the same id: whatever routes are
-- materialized afterwards, the other service's among them, no route from that service for that
-- request id and subscription exists.
pub materialize_collision :
    (db : Db) (r x : Route) (later : List Route) (other : ℕ)
    → OneRoute db.routes
    → (materialize r db).0 ≡ ok x
    → x.source_service ≢ other
    → any_row
        (λ y. y.source_service == other && same_match r.request_id r.subscription_id y)
        (materialize_all (materialize r db).1 later).routes
      ≡ false
materialize_collision db r x later other h made differs =
    let t = (materialize r db).1 in
    let (stored, _) = materialize-stored db r x made in
    let kept = match_kept t later r.request_id r.subscription_id x stored in
    let one = materialize_all-OneRoute t later (materialize-OneRoute db r h) in
    one_source other r.request_id r.subscription_id x (materialize_all t later).routes one kept
      differs
