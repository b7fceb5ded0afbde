-- ===== src/Http/Routing/Delivery.antt =====
-- The router reaches every active subscription (`SubscriptionRouter` of src/http.rs).
use infernal_law.Base.{
  ℕ, ℤ, ◌==◌, ◌≡◌, refl, sym, ap, ◌∙◌, subst, inl, inr, Bool, true, false, not, some, any_row-false,
  All-map, text_eq-eq, ◌&&◌, List, [], ◌∷◌, arith, ok, bind-ok, ◌>>=◌, Bool-cases, Result-cases,
  All, where_rows, any_row, any_row-where_rows, any_row-order_by, any_row-congr, by_creation, Text,
  text_eq,
}
use infernal_law.Kernel.Faults.{Cause}
use infernal_law.Kernel.Names.{event_type, is_valid_action_name}
use infernal_law.Kernel.Names.Grammar.{action_name-event_type}
use infernal_law.Kernel.Subscriptions.{
  Subscription, SubscriptionError, is_active, restore_subscription,
}
use infernal_law.Kernel.Requests.{Route}
use infernal_law.Postgres.Db.{Db}
use infernal_law.Postgres.Subscriptions.{
  subscriptions, subscription_from_row, subscriptions_from_rows, find_active_by_event_type,
  order_subscriptions,
}
use infernal_law.Postgres.Routes.{routes}
use infernal_law.Http.Routing.{is_inclusive, materialize_routes}
use infernal_law.Http.Routing.Steps.{has_match, each, each_made}

-- A row whose event type is canonical is read as it is.
from_row-same :
    (s x : Subscription)
    → event_type s.event_type ≡ some s.event_type
    → subscription_from_row s ≡ ok x
    → x ≡ s
unfolding subscription_from_row restore_subscription
from_row-same s x valid h = ground (arith, h, valid)

from_rows-same :
    (rows ss : List Subscription)
    → All (λ s. event_type s.event_type ≡ some s.event_type) rows
    → subscriptions_from_rows rows ≡ ok ss
    → ss ≡ rows
unfolding subscriptions_from_rows
from_rows-same [] ss valid h = ground (arith, h)
from_rows-same (s ∷ rows) ss (canonical, valid) h =
    let more = subscriptions_from_rows rows in
    let (x, first, then_more) =
      bind-ok (subscription_from_row s) (λ x. more >>= λ xs. ok (x ∷ xs)) h in
    let (xs, remaining, cons) = bind-ok more (λ xs. ok (x ∷ xs)) then_more in
    let same = from_row-same s x canonical first in
    let ih = from_rows-same rows xs valid remaining in ground (arith, cons, same, ih)

-- What holds of every row holds of a row that a test finds.
All-any_row :
    (f p : Subscription → Bool) (xs : List Subscription)
    → All (λ x. f x ≡ true) xs
    → any_row p xs ≡ true
    → any_row (λ x. p x && f x) xs ≡ true
unfolding any_row
All-any_row f p [] h found = absurd (ground (arith, found))
All-any_row f p (x ∷ xs) (here, there) found = elim (Bool-cases (p x)) [
  | inl hit ↦ ground (arith, hit, here)
  | inr miss ↦
      let rest : any_row p xs ≡ true = ground (arith, miss, found) in
      let ih = All-any_row f p xs there rest in ground (arith, ih)
]

-- The test of one id finds what holds of that id.
any_row-at :
    (f : ℕ → Bool) (i : ℕ) (xs : List Subscription)
    → any_row (λ x. x.id == i && f x.id) xs ≡ true
    → f i ≡ true
unfolding any_row
any_row-at f i [] h = absurd (ground (arith, h))
any_row-at f i (x ∷ xs) h = elim (Bool-cases (x.id == i && f x.id)) [
  | inl hit ↦
      let equal : x.id ≡ i = ground (arith, hit) in
      subst (λ n. f n ≡ true) equal (ground (arith, hit))
  | inr other ↦ any_row-at f i xs (ground (arith, other, h))
]

all_inclusive : (xs : List Subscription) → where_rows is_inclusive xs ≡ xs
unfolding where_rows
all_inclusive [] = refl
all_inclusive (x ∷ xs) = let ih = all_inclusive xs in ground (arith, ih)

-- The rows that the query for an action finds have the action as their event type.
never_found : (xs : List Subscription) → any_row (λ s. false) xs ≡ false
unfolding any_row
never_found [] = refl
never_found (x ∷ xs) = let ih = never_found xs in ground (arith, ih)

found_canonical :
    (action : Text) (xs : List Subscription)
    → event_type action ≡ some action
    → All
        (λ s. event_type s.event_type ≡ some s.event_type)
        (order_subscriptions (where_rows (λ s. text_eq s.event_type action && is_active s) xs))
found_canonical action xs valid =
    let mine = λ (s : Subscription). text_eq s.event_type action && is_active s in
    let other = λ (s : Subscription). not (text_eq s.event_type action) in
    let rows = order_subscriptions (where_rows mine xs) in
    let none_other : any_row other rows ≡ false =
      any_row-order_by other (by_creation (λ s. s.created_at) (λ s. s.id)) (where_rows mine xs)
      ∙ any_row-where_rows other mine xs
      ∙ any_row-congr (λ s. mine s && other s) (λ s. false) xs (λ s. ground arith)
      ∙ never_found xs in
    All-map
      (λ s same.
        subst (λ e. event_type e ≡ some e)
          (sym (text_eq-eq s.event_type action (ground (arith, same)))) valid)
      rows (any_row-false other rows none_other)

found_same :
    (action : Text) (db : Db) (ss : List Subscription)
    → event_type action ≡ some action
    → find_active_by_event_type action db ≡ ok ss
    → ss
      ≡ order_subscriptions
          (where_rows (λ s. text_eq s.event_type action && is_active s) db.subscriptions)
unfolding find_active_by_event_type
found_same action db ss valid h =
    from_rows-same
      (order_subscriptions
        (where_rows (λ s. text_eq s.event_type action && is_active s) db.subscriptions))
      ss (found_canonical action db.subscriptions valid) h

module _ (describe : SubscriptionError → Cause) (fresh : ℕ → ℕ) (source request : ℕ) (now : ℤ) where
  -- What the router works on: the active subscriptions to the action.
  materialize_routes-each :
      (action : Text) (db : Db) (rs : List Route)
      → is_valid_action_name action ≡ true
      → (materialize_routes subscriptions routes describe fresh source request action now db).0
        ≡ ok rs
      → let xs =
          order_subscriptions
            (where_rows (λ s. text_eq s.event_type action && is_active s) db.subscriptions) in
        ((each describe fresh source request now xs db).0 ≡ ok rs)
        × ((materialize_routes subscriptions routes describe fresh source request action now db).1
            ≡ (each describe fresh source request now xs db).1)
  unfolding materialize_routes
  materialize_routes-each action db rs valid h =
      let event = action_name-event_type action valid in
      let xs =
        order_subscriptions
          (where_rows (λ s. text_eq s.event_type action && is_active s) db.subscriptions) in
      elim (Result-cases (find_active_by_event_type action db)) [
        | inr (e, failed) ↦ absurd (ground (arith, event, failed, h))
        | inl (matching, found) ↦
            let same : where_rows is_inclusive matching ≡ xs =
              all_inclusive matching ∙ found_same action db matching event found in
            let run : materialize_routes subscriptions routes describe fresh source request action
                  now db
                ≡ each describe fresh source request now (where_rows is_inclusive matching) db =
              ground (arith, event, found) in
            let run = run ∙ ap (λ ys. each describe fresh source request now ys db) same in
            (sym (ap (λ p. p.0) run) ∙ h, ap (λ p. p.1) run)
      ]

  -- Once the router has answered for a valid action, every subscription that is active for the
  -- action has a route for the request id.
  pub materialize_routes_complete :
      (action : Text) (db : Db) (rs : List Route) (i : ℕ)
      → is_valid_action_name action ≡ true
      → (materialize_routes subscriptions routes describe fresh source request action now db).0
        ≡ ok rs
      → any_row (λ s. text_eq s.event_type action && is_active s && s.id == i) db.subscriptions
        ≡ true
      → has_match request i
          (materialize_routes subscriptions routes describe fresh source request action now db).1
        ≡ true
  materialize_routes_complete action db rs i valid h listed =
      let mine = λ (s : Subscription). text_eq s.event_type action && is_active s in
      let xs = order_subscriptions (where_rows mine db.subscriptions) in
      let (made, same) = materialize_routes-each action db rs valid h in
      let u = (each describe fresh source request now xs db).1 in
      let all = each_made describe fresh source request now xs db rs made in
      let found : any_row (λ s. s.id == i) xs ≡ true =
        any_row-order_by (λ s. s.id == i) (by_creation (λ s. s.created_at) (λ s. s.id))
          (where_rows mine db.subscriptions)
        ∙ any_row-where_rows (λ s. s.id == i) mine db.subscriptions
        ∙ any_row-congr (λ s. mine s && s.id == i)
            (λ s. text_eq s.event_type action && is_active s && s.id == i) db.subscriptions
            (λ s. ground arith)
        ∙ listed in
      let reached =
        any_row-at (λ n. has_match request n u) i xs
          (All-any_row (λ s. has_match request s.id u) (λ s. s.id == i) xs all found) in
      subst (λ t. has_match request i t ≡ true) (sym same) reached
