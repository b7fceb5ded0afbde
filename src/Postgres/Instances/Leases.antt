-- ===== src/Postgres/Instances/Leases.antt =====
-- Leases of registered instances: their length, and their renewal at one revision.
use infernal_law.Base.{
  ℕ, ℤ, pos, ◌+ℤ◌, ◌≤ℤ◌, ◌<ℤ◌, ltb_ℤ, leb_ℤ, ◌||◌, ◌==◌, ◌≡◌, ◌≢◌, sym, subst, ap, ◌∙◌, inl, inr,
  arith, Bool-cases, Option-cases, Result-cases, some, true, false, List, [], ◌∷◌, ok, any_row,
  find_row, update_rows, checked_add, ==_iff, find_row-holds, checked_add-ok, eq_of_parts, i64_max,
  +ℤ_mono, any_row-find_row, update_rows_sets,
}
use infernal_law.Kernel.InstanceKeys.{Crypto}
use infernal_law.Kernel.Instances.{LeasePolicy, lease_policy, RegisteredInstance, renew_lease}
use infernal_law.Postgres.Db.{Db, InstanceRow}
use infernal_law.Postgres.Instances.{
  find_joined, to_renew, renew_row, with_lease, renew_body, renew, read_back, query_instance,
  audited, registry,
}
use infernal_law.Postgres.Instances.Tables.{
  with_id, IsKeyed, is_beyond, step-IsKeyed, step-is_beyond, renew-step, next-revision, row-fields,
}
use infernal_law.Postgres.Instances.Revoked.{
  RegistryCall, after_calls, calls-keep, none-to_renew, marked-not-to_renew,
}

-- The table after the UPDATE in `renew`: it has the row with its new lease.
module _ (id : ℕ) (expected at expires revision : ℤ) where
  abbrev renewed_rows : List InstanceRow → List InstanceRow
  renewed_rows = update_rows (to_renew id expected at) (renew_row expires revision)

  renewed_row :
      (i : InstanceRow) (rows : List InstanceRow)
      → IsKeyed rows
      → find_row (to_renew id expected at) rows ≡ some i
      → find_row (with_id id) (renewed_rows rows) ≡ some (renew_row expires revision i)
  unfolding find_row update_rows
  renewed_row i [] keyed found = absurd (ground (arith, found))
  renewed_row i (x ∷ rows) (fresh, keyed) found =
      let nowhere = λ (here : with_id id x ≡ true).
        none-to_renew id expected at rows (
          subst (λ n. any_row (with_id n) rows ≡ false) ((==_iff x.instance_id id).0 here) fresh) in
      elim (Bool-cases (to_renew id expected at x)) [
        | inl here ↦ ground (arith, here, found)
        | inr other ↦
            let ih = renewed_row i rows keyed (ground (arith, found, other)) in
            elim (Bool-cases (with_id id x)) [
              | inr away ↦ ground (arith, other, away, ih)
              | inl here ↦ absurd (ground (arith, found, other, nowhere here))
            ]
      ]

module _ (crypto : Crypto) where
  -- What a `renew` that succeeded found and wrote.
  renew-ok :
      (id : ℕ) (expected at expires : ℤ) (db t : Db) (r : RegisteredInstance)
      → renew crypto id expected at expires db ≡ (ok r, t)
      → (i : InstanceRow) × (revision : ℤ) × (find_row (to_renew id expected at) db.instances
          ≡ some i)
        × (checked_add i.lease_revision (pos 1) ≡ some revision)
        × (t.instances ≡ (with_lease id expected at expires revision db).instances)
        × (query_instance crypto id (with_lease id expected at expires revision db) ≡ ok r)
        × (at <ℤ expires)
  unfolding renew renew_body read_back audited
  renew-ok id expected at expires db t r h =
      elim (Bool-cases (ltb_ℤ at (pos 0) || leb_ℤ expires at || leb_ℤ expected (pos 0))) [
        | inl bad ↦ absurd (ground (arith, bad, h))
        | inr valid ↦ elim (Option-cases (find_row (to_renew id expected at) db.instances)) [
          | inl nothing ↦ absurd (ground (arith, valid, nothing, h))
          | inr (i, found) ↦ elim (Option-cases (checked_add i.lease_revision (pos 1))) [
            | inl over ↦ absurd (ground (arith, valid, found, over, h))
            | inr (revision, next) ↦
                let after = with_lease id expected at expires revision db in
                elim (Result-cases (query_instance crypto id after)) [
                  | inr (e, bad) ↦ absurd (ground (arith, valid, found, next, bad, h))
                  | inl (x, read) ↦ (
                    i,
                    revision,
                    found,
                    next,
                    ground (arith, valid, found, next, read, h),
                    ground (arith, valid, found, next, read, h),
                    ground (arith, valid),
                  )
                ]
          ]
        ]
      ]

  renew-is_beyond :
      (id : ℕ) (expected at expires : ℤ) (db t : Db) (r : RegisteredInstance)
      → renew crypto id expected at expires db ≡ (ok r, t)
      → any_row (is_beyond id expected) t.instances ≡ true
  renew-is_beyond id expected at expires db t r done =
      let (i, revision, found, next, table, _, _) = renew-ok id expected at expires db t r done in
      let later = next-revision id expected at revision db.instances i found next in
      subst (λ (rows : List InstanceRow). any_row (is_beyond id expected) rows ≡ true) (sym table)
        (update_rows_sets (to_renew id expected at) (renew_row expires revision)
          (is_beyond id expected) (λ x here. ground (arith, here, later)) db.instances
          (any_row-find_row (to_renew id expected at) db.instances found))

  -- In a table of instances that has `instance_id` as its key: a renewal that succeeds spends the
  -- revision that it expected. After any further registrations, renewals and revocations, no
  -- renewal of the instance that expects this revision or an earlier one succeeds, whatever its
  -- time and the lease that it asks for.
  pub renew_once :
      (id : ℕ) (expected at expires : ℤ) (db t : Db) (r : RegisteredInstance)
      → IsKeyed db.instances
      → renew crypto id expected at expires db ≡ (ok r, t)
      → (cs : List RegistryCall) (stale later lease : ℤ) → stale ≤ℤ expected
      → (x : RegisteredInstance) (u : Db)
      → renew crypto id stale later lease (after_calls crypto cs t) ≢ (ok x, u)
  unfolding renew renew_body
  renew_once id expected at expires db t r keyed done cs stale later lease old x u again =
      let table : t ≡ (renew crypto id expected at expires db).1 = λ i. (sym done i).1 in
      let still : IsKeyed t.instances =
        subst (λ d. IsKeyed d.instances) (sym table)
          (step-IsKeyed (renew-step crypto id expected at expires db) keyed) in
      let later_keyed = calls-keep crypto IsKeyed (λ a b s. step-IsKeyed s) cs t still in
      let beyond =
        calls-keep crypto (λ rows. any_row (is_beyond id expected) rows ≡ true)
          (λ a b s. step-is_beyond id expected s) cs t
          (renew-is_beyond id expected at expires db t r done) in
      let nothing =
        marked-not-to_renew (is_beyond id expected) id stale later
          (λ i marked. (ground (arith, marked), ground (arith, marked, old)))
          (after_calls crypto cs t).instances later_keyed beyond in
      ground (arith, nothing, again)

  -- The lease that a renewal grants is the one that it was asked for, at the next revision.
  renew-lease :
      (id : ℕ) (expected at expires : ℤ) (db t : Db) (r : RegisteredInstance)
      → IsKeyed db.instances
      → renew crypto id expected at expires db ≡ (ok r, t)
      → (r.lease_expires_at ≡ expires) × (r.lease_revision ≡ expected +ℤ pos 1) × (at <ℤ expires)
  unfolding query_instance find_joined
  renew-lease id expected at expires db t r keyed done =
      let (i, revision, found, next, table, read, longer) =
        renew-ok id expected at expires db t r done in
      let row = renewed_row id expected at expires revision i db.instances keyed found in
      elim (Option-cases (find_row (λ k. k.instance_id == id) db.keys)) [
        | inl nothing ↦ absurd (ground (arith, row, nothing, read))
        | inr (k, joined) ↦
            let (_, _, lease, counter, _, _, _) =
              row-fields crypto (renew_row expires revision i) k r
                (ground (arith, row, joined, read)) in
            let holds = find_row-holds (to_renew id expected at) db.instances found in
            let same = eq_of_parts i.lease_revision expected (ground (arith, holds)) in
            let (sum, _) = checked_add-ok i.lease_revision (pos 1) next in
            (lease, counter ∙ sum ∙ ap (λ n. n +ℤ pos 1) same, longer)
      ]

  -- Under a lease policy that `LeasePolicy::new` accepts, and in a table of instances that has
  -- `instance_id` as its key: a renewal that succeeds at `now` expected the revision before the
  -- one that it returns, and its lease ends after `now`, exactly the policy's seconds later, which
  -- are 300 at most, and at a time that an `i64` holds.
  pub renew_lease-bounded :
      (seconds : ℤ) (policy : LeasePolicy) (id : ℕ) (expected now : ℤ) (db t : Db)
      (r : RegisteredInstance)
      → lease_policy seconds ≡ ok policy
      → IsKeyed db.instances
      → renew_lease (registry crypto) policy id expected now db ≡ (ok r, t)
      → (r.lease_revision ≡ expected +ℤ pos 1)
        × (r.lease_expires_at ≡ now +ℤ seconds)
        × (now <ℤ r.lease_expires_at)
        × (r.lease_expires_at ≤ℤ now +ℤ pos 300)
        × (r.lease_expires_at ≤ℤ i64_max)
  unfolding lease_policy renew_lease
  renew_lease-bounded seconds policy id expected now db t r good keyed done =
      elim (Bool-cases (ltb_ℤ now (pos 0))) [
        | inl early ↦ absurd (ground (arith, early, done))
        | inr late ↦ elim (Bool-cases (leb_ℤ expected (pos 0))) [
          | inl bad ↦ absurd (ground (arith, late, bad, done))
          | inr valid ↦ elim (Option-cases (checked_add now policy.duration_seconds)) [
            | inl over ↦ absurd (ground (arith, late, valid, over, done))
            | inr (expires, fits) ↦
                let granted : renew crypto id expected now expires db ≡ (ok r, t) =
                  ground (arith, late, valid, fits, done) in
                let (lease, revision, longer) =
                  renew-lease id expected now expires db t r keyed granted in
                let (sum, small) = checked_add-ok now policy.duration_seconds fits in
                let same : policy.duration_seconds ≡ seconds = ground (arith, good) in
                let ends = lease ∙ sum ∙ ap (λ d. now +ℤ d) same in
                (
                  revision,
                  ends,
                  subst (λ e. now <ℤ e) (sym lease) longer,
                  subst (λ e. e ≤ℤ now +ℤ pos 300) (sym ends)
                      (+ℤ_mono now seconds (pos 300) (ground (arith, good))),
                  subst (λ e. e ≤ℤ i64_max) (sym lease) small,
                )
          ]
        ]
      ]
