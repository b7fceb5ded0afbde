-- ===== src/Postgres/Instances/Tables.antt =====
-- What the operations of the registry do to the table of instances.
use infernal_law.Base.{
  ℕ, ℤ, pos, ◌==◌, ◌≡◌, refl, sym, ◌⊎◌, inl, inr, arith, Bool, Bool-cases, Option-cases,
  Result-cases, true, false, List, [], ◌∷◌, is_some, any_row, find_row, update_rows, ltb_ℤ, leb_ℤ,
  ◌||◌, ◌&&◌, checked_add, subst, settle, ok, some, eqb_ℤ, ◌+ℤ◌, ◌≤ℤ◌, ◌<ℤ◌, find_row-holds,
  checked_add-ok, update_rows_keeps,
}
use infernal_law.Kernel.InstanceKeys.{Crypto, restore_key}
use infernal_law.Kernel.Instances.{RegisteredInstance, validate_endpoint, restore_instance}
use infernal_law.Postgres.Db.{Db, InstanceRow, KeyRow, RegistryAction, renewed}
use infernal_law.Postgres.Db
use infernal_law.Postgres.Instances.{
  instance_from_row, check_instance, instance_row, insert_body, insert, to_renew, to_revoke,
  live_key, renew_body, renew, revoke_body, revoke, read_back, query_instance, audited, with_lease,
  renew_row, with_revocation, revoke_row,
}

abbrev pub with_id : ℕ → InstanceRow → Bool
with_id id i = i.instance_id == id

-- `instance_id` is the primary key.
abbrev pub IsKeyed : List InstanceRow → Type 0
IsKeyed [] = Unit
IsKeyed (i ∷ rows) = (any_row (with_id i.instance_id) rows ≡ false) × IsKeyed rows

abbrev pub is_revoked : ℕ → InstanceRow → Bool
is_revoked id i = with_id id i && is_some i.revoked_at

-- Whether the table holds the instance, revoked.
abbrev pub Revoked : ℕ → List InstanceRow → Type 0
Revoked id rows = any_row (is_revoked id) rows ≡ true

-- Whether an instance's lease is at a later revision than `n`.
abbrev pub is_beyond : ℕ → ℤ → InstanceRow → Bool
is_beyond id n i = with_id id i && ltb_ℤ n i.lease_revision

-- The steps that the operations make: a new row, or a change of some rows that keeps their ids,
-- makes no revoked row unrevoked and takes no lease to an earlier revision.
pub data TableStep : List InstanceRow → List InstanceRow → Type 0 where
  unchanged : {rows : List InstanceRow} → TableStep rows rows
  added :
      {rows : List InstanceRow} (i : InstanceRow)
      → any_row (with_id i.instance_id) rows ≡ false
      → TableStep rows (i ∷ rows)
  changed :
      {rows : List InstanceRow} (p : InstanceRow → Bool) (change : InstanceRow → InstanceRow)
      → ((i : InstanceRow) → (change i).instance_id ≡ i.instance_id)
      → ((i : InstanceRow) → is_some i.revoked_at ≡ true → is_some (change i).revoked_at ≡ true)
      → ((i : InstanceRow) → p i ≡ true → i.lease_revision ≤ℤ (change i).lease_revision)
      → TableStep rows (update_rows p change rows)

module _ (p : InstanceRow → Bool) (change : InstanceRow → InstanceRow)
    (same_id : (i : InstanceRow) → (change i).instance_id ≡ i.instance_id) where
  any-updated :
      (id : ℕ) (rows : List InstanceRow)
      → any_row (with_id id) (update_rows p change rows) ≡ any_row (with_id id) rows
  unfolding any_row update_rows
  any-updated id [] = refl
  any-updated id (i ∷ rows) =
      let ih = any-updated id rows in let kept = same_id i in ground (arith, ih, kept)

  updated-IsKeyed : (rows : List InstanceRow) → IsKeyed rows → IsKeyed (update_rows p change rows)
  unfolding update_rows
  updated-IsKeyed [] keyed = tt
  updated-IsKeyed (i ∷ rows) (fresh, keyed) =
      let ih = updated-IsKeyed rows keyed in
      let kept = same_id i in
      let there = any-updated i.instance_id rows in ground (arith, ih, kept, there, fresh)

pub step-IsKeyed :
    {rows after : List InstanceRow} → TableStep rows after → IsKeyed rows → IsKeyed after
step-IsKeyed unchanged keyed = keyed
step-IsKeyed (added i fresh) keyed = (fresh, keyed)
step-IsKeyed {rows} (changed p change same_id stays grows) keyed =
    updated-IsKeyed p change same_id rows keyed

pub step-Revoked :
    {rows after : List InstanceRow} (id : ℕ)
    → TableStep rows after
    → Revoked id rows
    → Revoked id after
unfolding any_row
step-Revoked id unchanged h = h
step-Revoked id (added i fresh) h = ground (arith, h)
step-Revoked {rows} id (changed p change same_id stays grows) h =
    update_rows_keeps p change (is_revoked id)
      (λ i here gone.
        let kept = same_id i in
        let still = stays i (ground (arith, gone)) in ground (arith, gone, kept, still))
      rows h

pub step-is_beyond :
    {rows after : List InstanceRow} (id : ℕ) (n : ℤ)
    → TableStep rows after
    → any_row (is_beyond id n) rows ≡ true
    → any_row (is_beyond id n) after ≡ true
unfolding any_row
step-is_beyond id n unchanged h = h
step-is_beyond id n (added i fresh) h = ground (arith, h)
step-is_beyond {rows} id n (changed p change same_id stays grows) h =
    update_rows_keeps p change (is_beyond id n)
      (λ i here beyond.
        let kept = same_id i in let later = grows i here in ground (arith, beyond, kept, later))
      rows h

-- A step, given what the table is afterwards.
step_to :
    {rows after there : List InstanceRow}
    → there ≡ after
    → TableStep rows after
    → TableStep rows there
step_to {rows} e step = subst (λ (t : List InstanceRow). TableStep rows t) (sym e) step

-- The revision that a renewal writes is after the one that it expected, which the rows that it
-- changes have.
pub next-revision :
    (id : ℕ) (expected at revision : ℤ) (rows : List InstanceRow) (i : InstanceRow)
    → find_row (to_renew id expected at) rows ≡ some i
    → checked_add i.lease_revision (pos 1) ≡ some revision
    → expected <ℤ revision
unfolding ◌+ℤ◌
next-revision id expected at revision rows i found next =
    let holds = find_row-holds (to_renew id expected at) rows found in
    let (sum, _) = checked_add-ok i.lease_revision (pos 1) next in
    subst (λ n. expected <ℤ n) (sym sum) (below i.lease_revision (ground (arith, holds)))
  where
    below : (n : ℤ) → eqb_ℤ n expected ≡ true → expected <ℤ n +ℤ pos 1
    below n same = ground (arith, same)

module _ (crypto : Crypto) where
  pub insert-step :
      (r : RegisteredInstance) (db : Db) → TableStep db.instances (insert crypto r db).1.instances
  unfolding insert insert_body check_instance instance_row audited
  insert-step r db = elim (Result-cases (check_instance crypto db r)) [
    | inr (e, bad) ↦ step_to (ground (arith, bad)) unchanged
    | inl (u, good) ↦ step_to (ground (arith, good)) (added (instance_row r) (ground (arith, good)))
  ]

  read_back-table :
      (id : ℕ) (action : RegistryAction) (at : ℤ) (db after : Db)
      → ((settle db (read_back crypto id action at after)).1.instances ≡ db.instances)
        ⊎ ((settle db (read_back crypto id action at after)).1.instances ≡ after.instances)
  unfolding read_back audited
  read_back-table id action at db after = elim (Result-cases (query_instance crypto id after)) [
    | inr (e, bad) ↦ inl (ground (arith, bad))
    | inl (r, good) ↦ inr (ground (arith, good))
  ]

  pub renew-step :
      (id : ℕ) (expected at expires : ℤ) (db : Db)
      → TableStep db.instances (renew crypto id expected at expires db).1.instances
  unfolding renew renew_body
  renew-step id expected at expires db =
      elim (Bool-cases (ltb_ℤ at (pos 0) || leb_ℤ expires at || leb_ℤ expected (pos 0))) [
        | inl bad ↦ step_to (ground (arith, bad)) unchanged
        | inr valid ↦ elim (Option-cases (find_row (to_renew id expected at) db.instances)) [
          | inl nothing ↦ step_to (ground (arith, valid, nothing)) unchanged
          | inr (i, found) ↦ elim (Option-cases (checked_add i.lease_revision (pos 1))) [
            | inl over ↦ step_to (ground (arith, valid, found, over)) unchanged
            | inr (revision, next) ↦
                let after = with_lease id expected at expires revision db in
                elim (read_back-table id renewed at db after) [
                  | inl same ↦ step_to (ground (arith, valid, found, next, same)) unchanged
                  | inr written ↦ step_to (ground (arith, valid, found, next, written)) (
                      changed (to_renew id expected at) (renew_row expires revision) (λ i. refl)
                        (λ i h. h)
                        (λ x here.
                          let later =
                            next-revision id expected at revision db.instances i found next in
                          ground (arith, here, later)))
                ]
          ]
        ]
      ]

  pub revoke-step :
      (id : ℕ) (at : ℤ) (db : Db) → TableStep db.instances (revoke crypto id at db).1.instances
  unfolding revoke revoke_body
  revoke-step id at db = elim (Bool-cases (ltb_ℤ at (pos 0))) [
    | inl bad ↦ step_to (ground (arith, bad)) unchanged
    | inr valid ↦ elim (Bool-cases (any_row (to_revoke id at) db.instances)) [
      | inr nothing ↦ step_to (ground (arith, valid, nothing)) unchanged
      | inl found ↦ elim (Bool-cases (any_row (live_key id) db.keys)) [
        | inr nothing ↦ step_to (ground (arith, valid, found, nothing)) unchanged
        | inl live ↦ elim (read_back-table id Db.revoked at db (with_revocation id at db)) [
          | inl same ↦ step_to (ground (arith, valid, found, live, same)) unchanged
          | inr written ↦ step_to (ground (arith, valid, found, live, written)) (
              changed (to_revoke id at) (revoke_row at) (λ i. refl) (λ i h. refl)
                (λ i here. ground arith))
        ]
      ]
    ]
  ]

  -- What `instance_from_row` reads of the two rows.
  pub row-fields :
      (i : InstanceRow) (k : KeyRow) (r : RegisteredInstance)
      → instance_from_row crypto i k ≡ ok r
      → (r.public_key ≡ record {
        service_id = i.service_id;
        instance_id = i.instance_id;
        key_id = k.key_id;
        public_key = k.public_key;
      })
        × (r.registered_at ≡ i.registered_at)
        × (r.lease_expires_at ≡ i.lease_expires_at)
        × (r.lease_revision ≡ i.lease_revision)
        × (r.revoked_at ≡ i.revoked_at)
        × (validate_endpoint i.endpoint ≡ ok r.endpoint)
        × (crypto.is_key k.public_key ≡ true)
  unfolding instance_from_row restore_instance restore_key
  row-fields i k r h = elim (Bool-cases (crypto.is_key k.public_key)) [
    | inr bad ↦ absurd (ground (arith, h, bad))
    | inl valid ↦ elim (Result-cases (validate_endpoint i.endpoint)) [
      | inr (e, bad) ↦ absurd (ground (arith, h, valid, bad))
      | inl (endpoint, good) ↦ (
        ground (arith, h, valid, good),
        ground (arith, h, valid, good),
        ground (arith, h, valid, good),
        ground (arith, h, valid, good),
        ground (arith, h, valid, good),
        ground (arith, h, valid, good),
        valid,
      )
    ]
  ]
