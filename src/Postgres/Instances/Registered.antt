-- ===== src/Postgres/Instances/Registered.antt =====
-- A new registration is found by `find_eligible` as it was made, until its lease ends.
use infernal_law.Base.{
  ℕ, ℤ, pos, ◌+ℤ◌, ◌≤ℤ◌, ◌<ℤ◌, ltb_ℤ, ◌≡◌, sym, subst, ap, ◌∙◌, inl, inr, arith, Bool-cases,
  Option-cases, Result-cases, none, some, true, false, ok, find_row, checked_add, Text, trim_idem,
  checked_add-ok, ◌>>=◌,
}
use infernal_law.Kernel.InstanceKeys.{Crypto, InstancePublicKey, restore_key}
use infernal_law.Kernel.Instances.{
  LeasePolicy, RegisteredInstance, validate_endpoint, restore_instance, is_eligible_at,
  register_verified, find_eligible,
}
use infernal_law.Postgres.Db.{Db}
use infernal_law.Postgres.Instances.{
  instance_from_row, find_joined, find, check_instance, instance_row, key_row, insert_body, insert,
  audited, registry,
}

validated_again :
    (value endpoint : Text)
    → validate_endpoint value ≡ ok endpoint
    → validate_endpoint endpoint ≡ ok endpoint
unfolding validate_endpoint
validated_again value endpoint h = ground (arith, h, trim_idem value)

restored_again :
    (public : InstancePublicKey) (value : Text) (at expires revision : ℤ) (r : RegisteredInstance)
    → restore_instance public value at expires revision none ≡ ok r
    → (r.public_key ≡ public)
      × (r.registered_at ≡ at)
      × (r.lease_expires_at ≡ expires)
      × (r.revoked_at ≡ none)
      × (restore_instance public r.endpoint r.registered_at r.lease_expires_at r.lease_revision none
          ≡ ok r)
unfolding restore_instance
restored_again public value at expires revision r h =
    elim (Result-cases (validate_endpoint value)) [
      | inr (e, bad) ↦ absurd (ground (arith, h, bad))
      | inl (endpoint, good) ↦
          let again = validated_again value endpoint good in
          (
            ground (arith, h, good),
            ground (arith, h, good),
            ground (arith, h, good),
            ground (arith, h, good),
            ground (arith, h, good, again),
          )
    ]

module _ (crypto : Crypto) where
  -- What a `register_verified` that succeeded made and wrote.
  register-ok :
      (policy : LeasePolicy) (public : InstancePublicKey) (endpoint : Text) (now : ℤ) (db t : Db)
      (r : RegisteredInstance)
      → register_verified (registry crypto) policy public endpoint now db ≡ (ok r, t)
      → (expires : ℤ) × (ltb_ℤ now (pos 0) ≡ false)
        × (checked_add now policy.duration_seconds ≡ some expires)
        × (restore_instance public endpoint now expires (pos 1) none ≡ ok r)
        × (insert crypto r db ≡ (ok tt, t))
  unfolding register_verified
  register-ok policy public endpoint now db t r h = elim (Bool-cases (ltb_ℤ now (pos 0))) [
    | inl early ↦ absurd (ground (arith, early, h))
    | inr late ↦ elim (Option-cases (checked_add now policy.duration_seconds)) [
      | inl over ↦ absurd (ground (arith, late, over, h))
      | inr (expires, fits) ↦
          elim (Result-cases (restore_instance public endpoint now expires (pos 1) none)) [
            | inr (e, bad) ↦ absurd (ground (arith, late, fits, bad, h))
            | inl (x, made) ↦ elim (Result-cases (insert crypto x db).0) [
              | inr (e, bad) ↦ absurd (ground (arith, late, fits, made, bad, h))
              | inl (u, done) ↦ (
                expires,
                late,
                fits,
                ground (arith, late, fits, made, done, h),
                ground (arith, late, fits, made, done, h),
              )
            ]
          ]
    ]
  ]

  inserted_found :
      (r : RegisteredInstance) (db t : Db)
      → insert crypto r db ≡ (ok tt, t)
      → find crypto r.public_key.instance_id t
        ≡ (instance_from_row crypto (instance_row r) (key_row crypto r) >>= λ x. ok (some x))
  unfolding insert insert_body audited find find_joined find_row instance_row key_row
  inserted_found r db t h = elim (Result-cases (check_instance crypto db r)) [
    | inr (e, bad) ↦ absurd (ground (arith, h, bad))
    | inl (u, good) ↦ ground (arith, h, good)
  ]

  row_read :
      (r : RegisteredInstance)
      → crypto.is_key r.public_key.public_key ≡ true
      → restore_instance r.public_key r.endpoint r.registered_at r.lease_expires_at r.lease_revision
          none
        ≡ ok r
      → instance_from_row crypto (instance_row r) (key_row crypto r) ≡ ok r
  unfolding instance_from_row restore_key instance_row key_row
  row_read r valid again = ground (arith, valid, again)

  pub eligible_found :
      (id : ℕ) (now : ℤ) (db : Db) (r : RegisteredInstance)
      → ltb_ℤ now (pos 0) ≡ false
      → find crypto id db ≡ ok (some r)
      → is_eligible_at r now ≡ true
      → find_eligible (registry crypto) id now db ≡ ok r
  unfolding find_eligible is_eligible_at
  eligible_found id now db r late found eligible = ground (arith, late, found, eligible)

  within_lease :
      (r : RegisteredInstance) (now : ℤ)
      → r.revoked_at ≡ none
      → r.registered_at ≤ℤ now
      → now <ℤ r.lease_expires_at
      → is_eligible_at r now ≡ true
  unfolding is_eligible_at
  within_lease r now live from to = ground (arith, live, from, to)

  -- With a public key that the signature library accepts: an instance that was registered at `now`
  -- has that key and, until its lease ends, the policy's seconds after `now`, `find_eligible`
  -- returns it as it was registered.
  pub registered_found :
      (policy : LeasePolicy) (public : InstancePublicKey) (endpoint : Text) (now : ℤ) (db t : Db)
      (r : RegisteredInstance)
      → crypto.is_key public.public_key ≡ true
      → register_verified (registry crypto) policy public endpoint now db ≡ (ok r, t)
      → (later : ℤ) → now ≤ℤ later
      → later <ℤ now +ℤ policy.duration_seconds
      → (find_eligible (registry crypto) public.instance_id later t ≡ ok r)
        × (r.public_key ≡ public)
        × (r.lease_expires_at ≡ now +ℤ policy.duration_seconds)
  registered_found policy public endpoint now db t r valid done later after before_end =
      let (expires, late, fits, made, written) =
        register-ok policy public endpoint now db t r done in
      let (own, from, to, live, again) =
        restored_again public endpoint now expires (pos 1) r made in
      let read = inserted_found r db t written in
      let (sum, _) = checked_add-ok now policy.duration_seconds fits in
      let same = λ (p : InstancePublicKey).
        restore_instance p r.endpoint r.registered_at r.lease_expires_at r.lease_revision none
        ≡ ok r in
      let valid_key =
        subst (λ (p : InstancePublicKey). crypto.is_key p.public_key ≡ true) (sym own) valid in
      let whole : find crypto r.public_key.instance_id t ≡ ok (some r) =
        read
        ∙ ap (λ x. x >>= λ y. ok (some y)) (row_read r valid_key (subst same (sym own) again)) in
      let eligible =
        within_lease r later live (subst (λ n. n ≤ℤ later) (sym from) after)
          (subst (λ n. later <ℤ n) (sym (to ∙ sum)) before_end) in
      (
        eligible_found public.instance_id later t r (ground (arith, late, after))
            (subst (λ (p : InstancePublicKey). find crypto p.instance_id t ≡ ok (some r)) own whole)
            eligible,
        own,
        to ∙ sum,
      )
