-- ===== src/Postgres/Instances/Revoked.antt =====
-- A revoked instance is never eligible again, and its lease is never renewed.
use infernal_law.Base.{
  ℕ, ℤ, pos, ltb_ℤ, ◌==◌, ◌≡◌, ◌≢◌, refl, sym, subst, inl, inr, arith, Bool-cases, Option-cases,
  Result-cases, none, some, is_some, true, false, List, [], ◌∷◌, ok, any_row, find_row, update_rows,
  Bool, any_row_weaken, update_rows_sets,
}
use infernal_law.Kernel.InstanceKeys.{Crypto}
use infernal_law.Kernel.Instances.{RegisteredInstance, find_eligible}
use infernal_law.Postgres.Db.{Db, InstanceRow}
use infernal_law.Postgres.Instances.{
  instance_from_row, find_joined, find, insert, to_renew, to_revoke, live_key, renew_body, renew,
  revoke_body, revoke, read_back, query_instance, audited, with_revocation, revoke_row, registry,
}
use infernal_law.Postgres.Instances.Tables.{
  with_id, IsKeyed, is_revoked, Revoked, TableStep, step-IsKeyed, step-Revoked, insert-step,
  renew-step, revoke-step, row-fields,
}

Revoked-with_id :
    (id : ℕ) (rows : List InstanceRow) → Revoked id rows → any_row (with_id id) rows ≡ true
Revoked-with_id id = any_row_weaken (is_revoked id) (with_id id) (λ i gone. ground (arith, gone))

-- The instance's row, in a table in which it is revoked.
Revoked-row :
    (id : ℕ) (rows : List InstanceRow) (i : InstanceRow)
    → IsKeyed rows
    → Revoked id rows
    → find_row (with_id id) rows ≡ some i
    → is_some i.revoked_at ≡ true
unfolding any_row find_row
Revoked-row id [] i keyed h found = absurd (ground (arith, h))
Revoked-row id (x ∷ rows) i (fresh, keyed) h found = elim (Bool-cases (with_id id x)) [
  | inl here ↦ elim (Bool-cases (is_some x.revoked_at)) [
    | inl gone ↦ ground (arith, here, gone, found)
    | inr live ↦
        let again = Revoked-with_id id rows (ground (arith, h, here, live)) in
        absurd (ground (arith, again, fresh, here))
  ]
  | inr other ↦
      Revoked-row id rows i keyed (ground (arith, h, other)) (ground (arith, found, other))
]

pub none-to_renew :
    (id : ℕ) (expected at : ℤ) (rows : List InstanceRow)
    → any_row (with_id id) rows ≡ false
    → find_row (to_renew id expected at) rows ≡ none
unfolding any_row find_row
none-to_renew id expected at [] h = refl
none-to_renew id expected at (i ∷ rows) h =
    let ih = none-to_renew id expected at rows (ground (arith, h)) in ground (arith, ih, h)

-- No renewal finds an instance whose row has a mark that keeps the renewal off.
pub marked-not-to_renew :
    (mark : InstanceRow → Bool) (id : ℕ) (expected at : ℤ)
    → ((i : InstanceRow)
        → mark i ≡ true
        → (with_id id i ≡ true) × (to_renew id expected at i ≡ false))
    → (rows : List InstanceRow) → IsKeyed rows
    → any_row mark rows ≡ true
    → find_row (to_renew id expected at) rows ≡ none
unfolding any_row find_row
marked-not-to_renew mark id expected at off [] keyed h = refl
marked-not-to_renew mark id expected at off (i ∷ rows) (fresh, keyed) h =
    elim (Bool-cases (mark i)) [
      | inl here ↦
          let (own, stops) = off i here in
          let same : i.instance_id ≡ id = ground (arith, own) in
          let tail = none-to_renew id expected at rows (ground (arith, fresh, same)) in
          ground (arith, stops, tail)
      | inr other ↦
          let later : any_row mark rows ≡ true = ground (arith, h, other) in
          let ih = marked-not-to_renew mark id expected at off rows keyed later in
          let there = any_row_weaken mark (with_id id) (λ x m. (off x m).0) rows later in
          elim (Bool-cases (with_id id i)) [
            | inl here ↦ absurd (ground (arith, here, there, fresh))
            | inr away ↦ ground (arith, ih, away)
          ]
    ]

Revoked-not-to_renew :
    (id : ℕ) (expected at : ℤ) (rows : List InstanceRow)
    → IsKeyed rows
    → Revoked id rows
    → find_row (to_renew id expected at) rows ≡ none
Revoked-not-to_renew id expected at =
    marked-not-to_renew (is_revoked id) id expected at
      (λ i gone. (ground (arith, gone), ground (arith, gone)))

update-Revoked :
    (id : ℕ) (at : ℤ) (rows : List InstanceRow)
    → any_row (to_revoke id at) rows ≡ true
    → Revoked id (update_rows (to_revoke id at) (revoke_row at) rows)
update-Revoked id at =
    update_rows_sets (to_revoke id at) (revoke_row at) (is_revoked id)
      (λ i here. ground (arith, here))

pub data RegistryCall : Type 0 where
  register : RegisteredInstance → RegistryCall
  renewal : ℕ → ℤ → ℤ → ℤ → RegistryCall
  revocation : ℕ → ℤ → RegistryCall

module _ (crypto : Crypto) where
  unfoldable pub after_call : RegistryCall → Db → Db
  after_call (register r) db = (insert crypto r db).1
  after_call (renewal id expected at expires) db = (renew crypto id expected at expires db).1
  after_call (revocation id at) db = (revoke crypto id at db).1

  unfoldable pub after_calls : List RegistryCall → Db → Db
  after_calls [] db = db
  after_calls (c ∷ cs) db = after_calls cs (after_call c db)

  -- What every step keeps, any calls keep.
  pub calls-keep :
      (K : List InstanceRow → Type 0)
      → ((rows after : List InstanceRow) → TableStep rows after → K rows → K after)
      → (cs : List RegistryCall) (db : Db) → K db.instances
      → K (after_calls cs db).instances
  unfolding after_calls after_call
  calls-keep K keeps [] db h = h
  calls-keep K keeps (register r ∷ cs) db h =
      calls-keep K keeps cs (insert crypto r db).1
        (keeps db.instances (insert crypto r db).1.instances (insert-step crypto r db) h)
  calls-keep K keeps (renewal n expected at expires ∷ cs) db h =
      calls-keep K keeps cs (renew crypto n expected at expires db).1 (
        keeps db.instances (renew crypto n expected at expires db).1.instances
          (renew-step crypto n expected at expires db) h)
  calls-keep K keeps (revocation n at ∷ cs) db h =
      calls-keep K keeps cs (revoke crypto n at db).1
        (keeps db.instances (revoke crypto n at db).1.instances (revoke-step crypto n at db) h)

  Revoked-not-eligible :
      (id : ℕ) (now : ℤ) (db : Db) (r : RegisteredInstance)
      → IsKeyed db.instances
      → Revoked id db.instances
      → find_eligible (registry crypto) id now db ≢ ok r
  unfolding find_eligible find find_joined
  Revoked-not-eligible id now db r keyed h eligible = elim (Bool-cases (ltb_ℤ now (pos 0))) [
    | inl early ↦ absurd (ground (arith, early, eligible))
    | inr valid ↦ elim (Option-cases (find_row (with_id id) db.instances)) [
      | inl nothing ↦ absurd (ground (arith, valid, nothing, eligible))
      | inr (i, found) ↦ elim (Option-cases (find_row (λ k. k.instance_id == id) db.keys)) [
        | inl nothing ↦ absurd (ground (arith, valid, found, nothing, eligible))
        | inr (k, joined) ↦ elim (Result-cases (instance_from_row crypto i k)) [
          | inr (e, bad) ↦ absurd (ground (arith, valid, found, joined, bad, eligible))
          | inl (x, read) ↦
              let (_, _, _, _, revoked, _, _) = row-fields crypto i k x read in
              let gone = Revoked-row id db.instances i keyed h found in
              ground (arith, valid, found, joined, read, eligible, revoked, gone)
        ]
      ]
    ]
  ]

  Revoked-not-renewed :
      (id : ℕ) (expected at expires : ℤ) (db t : Db) (r : RegisteredInstance)
      → IsKeyed db.instances
      → Revoked id db.instances
      → renew crypto id expected at expires db ≢ (ok r, t)
  unfolding renew renew_body
  Revoked-not-renewed id expected at expires db t r keyed h done =
      let nothing = Revoked-not-to_renew id expected at db.instances keyed h in
      ground (arith, nothing, done)

  revoke-Revoked :
      (id : ℕ) (at : ℤ) (db t : Db) (r : RegisteredInstance)
      → revoke crypto id at db ≡ (ok r, t)
      → Revoked id t.instances
  unfolding revoke revoke_body read_back audited
  revoke-Revoked id at db t r h = elim (Bool-cases (ltb_ℤ at (pos 0))) [
    | inl bad ↦ absurd (ground (arith, bad, h))
    | inr valid ↦ elim (Bool-cases (any_row (to_revoke id at) db.instances)) [
      | inr nothing ↦ absurd (ground (arith, valid, nothing, h))
      | inl found ↦ elim (Bool-cases (any_row (live_key id) db.keys)) [
        | inr nothing ↦ absurd (ground (arith, valid, found, nothing, h))
        | inl live ↦ elim (Result-cases (query_instance crypto id (with_revocation id at db))) [
          | inr (e, bad) ↦ absurd (ground (arith, valid, found, live, bad, h))
          | inl (x, read) ↦
              let table : t.instances ≡ (with_revocation id at db).instances =
                ground (arith, valid, found, live, read, h) in
              subst (λ (rows : List InstanceRow). Revoked id rows) (sym table)
                (update-Revoked id at db.instances found)
        ]
      ]
    ]
  ]

  -- In a table of instances that has `instance_id` as its key: once an instance was revoked, after
  -- any further registrations, renewals and revocations it is never found eligible and its lease
  -- is never renewed, whatever the times.
  pub revoke_final :
      (id : ℕ) (at : ℤ) (db t : Db) (r : RegisteredInstance)
      → IsKeyed db.instances
      → revoke crypto id at db ≡ (ok r, t)
      → (cs : List RegistryCall) (now : ℤ) (x : RegisteredInstance)
      → (find_eligible (registry crypto) id now (after_calls cs t) ≢ ok x)
        × ((expected expires : ℤ) (u : Db)
            → renew crypto id expected now expires (after_calls cs t) ≢ (ok x, u))
  revoke_final id at db t r keyed done cs now x =
      let table : t ≡ (revoke crypto id at db).1 = λ i. (sym done i).1 in
      let still : IsKeyed t.instances =
        subst (λ d. IsKeyed d.instances) (sym table)
          (step-IsKeyed (revoke-step crypto id at db) keyed) in
      let later_keyed = calls-keep IsKeyed (λ a b s. step-IsKeyed s) cs t still in
      let later =
        calls-keep (Revoked id) (λ a b s. step-Revoked id s) cs t
          (revoke-Revoked id at db t r done) in
      (
        Revoked-not-eligible id now (after_calls cs t) x later_keyed later,
        λ expected expires u.
            Revoked-not-renewed id expected now expires (after_calls cs t) u x later_keyed later,
      )
