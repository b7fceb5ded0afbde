-- ===== src/Kernel/Subscriptions.antt =====
-- src/kernel/subscriptions.rs: subscriptions, the repository's interface and the service.
use infernal_law.Base.{
  ℕ, ℤ, pos, ltb_ℤ, Bool, true, false, ◌||◌, Option, none, some, List, Result, ok, err, Action,
  if◌then◌else◌, Text,
}
use infernal_law.Kernel.Faults.{Cause}

pub data DeliveryMode : Type 0 where
  inclusive : DeliveryMode

pub record Subscription : Type 0 where
  pub id : ℕ
  pub service_id : ℕ
  pub event_type : Text
  pub delivery_mode : DeliveryMode
  pub created_at : ℤ
  pub disabled_at : Option ℤ

pub data SubscriptionError : Type 0 where
  already_exists already_disabled not_found unknown_service : ℕ → SubscriptionError
  duplicate_active : ℕ → Text → SubscriptionError
  invalid_event_type invalid_subscription_id invalid_timestamp : SubscriptionError
  repository : Cause → SubscriptionError

abbrev pub before : Option ℤ → ℤ → Bool
before none t = false
before (some d) t = ltb_ℤ d t

-- `Subscription::restore`: the constructor's check on the fields of `s`.
unfoldable pub restore_subscription : Subscription → Result Subscription SubscriptionError
restore_subscription s =
    if ltb_ℤ s.created_at (pos 0) || before s.disabled_at s.created_at
    then err invalid_timestamp
    else ok s

abbrev pub is_active : Subscription → Bool
is_active s = elim s.disabled_at [ none ↦ true | some t ↦ false ]

-- `trait SubscriptionRepository` over a store `S`.
pub record SubscriptionRepository (S : Type 0) : Type 0 where
  pub insert : Subscription → Action S Unit SubscriptionError
  pub list_for_service : ℕ → S → Result (List Subscription) SubscriptionError
  pub list_active_for_service : ℕ → S → Result (List Subscription) SubscriptionError
  pub find_active_by_event_type : Text → S → Result (List Subscription) SubscriptionError
  pub disable : ℕ → ℕ → ℤ → Action S Subscription SubscriptionError

module _ {S : Type 0} (store : SubscriptionRepository S) where
  abbrev inserted :
      Subscription → Result Unit SubscriptionError × S → Result Subscription SubscriptionError × S
  inserted x (ok u, t) = (ok x, t)
  inserted x (err e, t) = (err e, t)

  -- `SubscriptionService::create`, with `Subscription::create`; `fresh` is the new id.
  unfoldable pub create_subscription :
      ℕ → ℕ → Text → DeliveryMode → ℤ → Action S Subscription SubscriptionError
  create_subscription fresh service event_type mode now s =
      let x : Subscription = record {
        id = fresh;
        service_id = service;
        event_type = event_type;
        delivery_mode = mode;
        created_at = now;
        disabled_at = none;
      } in
      elim (restore_subscription x) [ err e ↦ (err e, s) | ok y ↦ inserted y (store.insert y s) ]

  -- `SubscriptionService::disable`.
  unfoldable pub disable_subscription : ℕ → ℕ → ℤ → Action S Subscription SubscriptionError
  disable_subscription service id now s =
      if ltb_ℤ now (pos 0) then (err invalid_timestamp, s) else store.disable service id now s
