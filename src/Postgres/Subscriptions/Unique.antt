-- ===== src/Postgres/Subscriptions/Unique.antt =====
-- One active subscription for a service and an event type.
use infernal_law.Base.{
  ℕ, ℤ, ltb_ℤ, pos, ◌≡◌, refl, sym, subst, ◌⊎◌, inl, inr, Bool, true, false, ◌&&◌, none, some, List,
  [], ◌∷◌, arith, Bool-cases, Option-cases, Result-cases, find_row, any_row, Text,
}
use infernal_law.Kernel.Subscriptions.{Subscription, is_active}
use infernal_law.Postgres.Db.{Db}
use infernal_law.Postgres.Subscriptions.{
  active_for, check_subscription, insert, insert_body, disable, disable_body, disable_rows,
  to_disable, subscription_from_row,
}

-- Of every row that is active, no other row is active for the same service and event type.
unfoldable pub OneActive : List Subscription → Type 0
OneActive [] = Unit
OneActive (s ∷ ss) =
    ((is_active s && any_row (active_for s.service_id s.event_type) ss) ≡ false) × OneActive ss

disable_rows-active :
    (p : Subscription → Bool) (at : ℤ) (service : ℕ) (event : Text) (ss : List Subscription)
    → any_row (active_for service event) ss ≡ false
    → any_row (active_for service event) (disable_rows p at ss) ≡ false
unfolding any_row disable_rows
disable_rows-active p at service event [] h = refl
disable_rows-active p at service event (s ∷ ss) h =
    let ih = disable_rows-active p at service event ss in ground (arith, ih)

disabled_head :
    (p : Subscription → Bool) (at : ℤ) (s : Subscription) (ss : List Subscription)
    → p s ≡ true
    → disable_rows p at (s ∷ ss) ≡ record s { disabled_at = some at } ∷ disable_rows p at ss
unfolding disable_rows
disabled_head p at s ss off = ground (arith, off)

kept_head :
    (p : Subscription → Bool) (at : ℤ) (s : Subscription) (ss : List Subscription)
    → p s ≡ false
    → disable_rows p at (s ∷ ss) ≡ s ∷ disable_rows p at ss
unfolding disable_rows
kept_head p at s ss off = ground (arith, off)

disable_rows-OneActive :
    (p : Subscription → Bool) (at : ℤ) (ss : List Subscription)
    → OneActive ss
    → OneActive (disable_rows p at ss)
unfolding OneActive disable_rows
disable_rows-OneActive p at [] h = tt
disable_rows-OneActive p at (s ∷ ss) (here, there) =
    let ih = disable_rows-OneActive p at ss there in
    let still = disable_rows-active p at s.service_id s.event_type ss in
    elim (Bool-cases (p s)) [
      | inl off ↦ subst OneActive (sym (disabled_head p at s ss off)) (refl, ih)
      | inr kept ↦
          subst OneActive (sym (kept_head p at s ss kept)) (ground (arith, here, still), ih)
    ]

-- What the two operations leave of the table.
insert-rows :
    (db : Db) (s : Subscription)
    → ((insert s db).1.subscriptions ≡ db.subscriptions)
      ⊎ ((any_row (active_for s.service_id s.event_type) db.subscriptions ≡ false)
          × ((insert s db).1.subscriptions ≡ record s { disabled_at = none } ∷ db.subscriptions))
unfolding insert insert_body check_subscription
insert-rows db s = elim (Result-cases (check_subscription db s)) [
  | inr (e, failed) ↦ inl (ground (arith, failed))
  | inl (_, passed) ↦ inr (ground (arith, passed), ground (arith, passed))
]

disable-rows :
    (db : Db) (service id : ℕ) (at : ℤ)
    → ((disable service id at db).1.subscriptions ≡ db.subscriptions)
      ⊎ ((disable service id at db).1.subscriptions
          ≡ disable_rows (to_disable service id at) at db.subscriptions)
unfolding disable disable_body
disable-rows db service id at = elim (Bool-cases (ltb_ℤ at (pos 0))) [
  | inl negative ↦ inl (ground (arith, negative))
  | inr later ↦ elim (Option-cases (find_row (to_disable service id at) db.subscriptions)) [
    | inl missed ↦ inl (ground (arith, later, missed))
    | inr (s, found) ↦
        elim (Result-cases (subscription_from_row (record s { disabled_at = some at }))) [
          | inr (e, failed) ↦ inl (ground (arith, later, found, failed))
          | inl (x, passed) ↦ inr (ground (arith, later, found, passed))
        ]
  ]
]

pub data Change : Type 0 where
  insertion : Subscription → Change
  disablement : ℕ → ℕ → ℤ → Change

unfoldable pub apply_change : Change → Db → Db
apply_change (insertion s) db = (insert s db).1
apply_change (disablement service id at) db = (disable service id at db).1

-- The tables after any sequence of operations.
unfoldable pub apply_all : Db → List Change → Db
apply_all db [] = db
apply_all db (c ∷ cs) = apply_all (apply_change c db) cs

change-OneActive :
    (c : Change) (db : Db)
    → OneActive db.subscriptions
    → OneActive (apply_change c db).subscriptions
unfolding apply_change OneActive
change-OneActive (insertion s) db h = elim (insert-rows db s) [
  | inl same ↦ subst OneActive (sym same) h
  | inr (alone, added) ↦ subst OneActive (sym added) (alone, h)
]
change-OneActive (disablement service id at) db h = elim (disable-rows db service id at) [
  | inl same ↦ subst OneActive (sym same) h
  | inr changed ↦
      subst OneActive (sym changed)
        (disable_rows-OneActive (to_disable service id at) at db.subscriptions h)
]

-- Where no service has two active subscriptions for one event type, no insertions and
-- disablements, whether they succeed or fail and in whatever order they come, make one have two.
pub changes-OneActive :
    (db : Db) (cs : List Change)
    → OneActive db.subscriptions
    → OneActive (apply_all db cs).subscriptions
unfolding apply_all
changes-OneActive db [] h = h
changes-OneActive db (c ∷ cs) h = changes-OneActive (apply_change c db) cs (change-OneActive c db h)
