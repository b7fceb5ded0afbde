-- ===== src/Postgres/Enrollment/Authorized.antt =====
-- What an enrollment that registers an instance rests on.
use infernal_law.Base.{
  ℕ, ℤ, ◌≡◌, refl, subst, ap, ◌∙◌, inl, inr, arith, Bool-cases, Result-cases, none, some, true,
  Result, ok, any_row, Text, text_eq, text_eq-eq,
}
use infernal_law.Kernel.InstanceKeys.{Crypto, verify}
use infernal_law.Kernel.Instances.{LeasePolicy, RegisteredInstance, register_verified}
use infernal_law.Kernel.Enrollment.{
  EnrollmentError, EnrollmentRequest, EnrollmentBinding, VerifiedWorkload, enrollment_audience,
  proof_message,
}
use infernal_law.Kernel.Enrollment.Service.{bound_workload, authenticate, authenticate_and_register}
use infernal_law.Postgres.Db.{Db}
use infernal_law.Postgres.Instances.{registry}
use infernal_law.Postgres.Enrollment.{find_workload, consume_challenge, to_consume, bindings}

module _ (crypto : Crypto) (policy : LeasePolicy)
    (review : Text → Text → Result VerifiedWorkload EnrollmentError) where
  abbrev pub enroll : EnrollmentRequest → ℤ → Db → Result RegisteredInstance EnrollmentError × Db
  enroll = authenticate_and_register (bindings crypto) (registry crypto) policy crypto review

  -- The token proves a workload of the claimed pod, for the audience of enrollments, and an
  -- enabled binding ties the workload to the service `service`.
  abbrev pub Bound : Text → Text → ℕ → Db → VerifiedWorkload → EnrollmentBinding → Type 0
  Bound token pod service db w b =
      (review token enrollment_audience ≡ ok w)
      × (any_row (λ a. text_eq a enrollment_audience) w.audiences ≡ true)
      × (w.pod_uid ≡ pod)
      × (find_workload w.namespace w.service_account w.service_account_uid db ≡ ok (some b))
      × (b.enabled ≡ true)
      × (b.service_id ≡ service)

  Bound-ok :
      (token pod : Text) (db : Db) (b : EnrollmentBinding)
      → bound_workload (bindings crypto) (registry crypto) policy crypto review token pod db ≡ ok b
      → (w : VerifiedWorkload) × Bound token pod b.service_id db w b
  unfolding bound_workload
  Bound-ok token pod db b h = elim (Result-cases (review token enrollment_audience)) [
    | inr (e, bad) ↦ absurd (ground (arith, h, bad))
    | inl (w, seen) ↦ elim (Bool-cases (any_row (λ a. text_eq a enrollment_audience) w.audiences)) [
      | inr other ↦ absurd (ground (arith, h, seen, other))
      | inl meant ↦ elim (Bool-cases (text_eq w.pod_uid pod)) [
        | inr other ↦ absurd (ground (arith, h, seen, meant, other))
        | inl same ↦
            elim (Result-cases
              (find_workload w.namespace w.service_account w.service_account_uid db)) [
                | inr (e, bad) ↦ absurd (ground (arith, h, seen, meant, same, bad))
                | inl (none, nothing) ↦ absurd (ground (arith, h, seen, meant, same, nothing))
                | inl (some x, found) ↦ elim (Bool-cases x.enabled) [
                  | inr off ↦ absurd (ground (arith, h, seen, meant, same, found, off))
                  | inl live ↦
                      let this : x ≡ b = ground (arith, h, seen, meant, same, found, live) in
                      (
                        w,
                        (
                          seen,
                          meant,
                          text_eq-eq w.pod_uid pod same,
                          found ∙ ap (λ y. ok (some y)) this,
                          subst (λ y. y.enabled ≡ true) this live,
                          refl,
                        ),
                      )
                ]
              ]
      ]
    ]
  ]

  -- What `authenticate` and the consumption of the challenge met, in an enrollment that succeeds.
  pub enroll-ok :
      (r : EnrollmentRequest) (now : ℤ) (db t : Db) (x : RegisteredInstance)
      → enroll r now db ≡ (ok x, t)
      → (authenticate (bindings crypto) (registry crypto) policy crypto review r db ≡ ok tt)
        × (u : Db) × (consume_challenge crypto r.public_key.service_id r.challenge now db
            ≡ (ok tt, u))
        × (register_verified (registry crypto) policy r.public_key r.endpoint now u ≡ (ok x, t))
  unfolding authenticate_and_register
  enroll-ok r now db t x h =
      elim (Result-cases
        (authenticate (bindings crypto) (registry crypto) policy crypto review r db)) [
          | inr (e, bad) ↦ absurd (ground (arith, h, bad))
          | inl (v, good) ↦
              let done = consume_challenge crypto r.public_key.service_id r.challenge now db in
              elim (Result-cases done.0) [
                | inr (e, bad) ↦ absurd (ground (arith, h, good, bad))
                | inl (v, spent) ↦
                    let made =
                      register_verified (registry crypto) policy r.public_key r.endpoint now
                        done.1 in
                    elim (Result-cases made.0) [
                      | inr (e, bad) ↦ absurd (ground (arith, h, good, spent, bad))
                      | inl (y, registered) ↦ (
                        good,
                        done.1,
                        ground (arith, spent),
                        ground (arith, h, good, spent, registered),
                      )
                    ]
              ]
        ]

  consume-found :
      (service challenge : ℕ) (now : ℤ) (db u : Db)
      → consume_challenge crypto service challenge now db ≡ (ok tt, u)
      → any_row (to_consume crypto service challenge now) db.enrollment_challenges ≡ true
  unfolding consume_challenge
  consume-found service challenge now db u h =
      elim (Bool-cases
        (any_row (to_consume crypto service challenge now) db.enrollment_challenges)) [
          | inl found ↦ found
          | inr nothing ↦ absurd (ground (arith, h, nothing))
        ]

  -- An enrollment that registers an instance: the request's key signed the proof of all that the
  -- request says, the token reviewer accepted its token for a workload of the claimed pod and for
  -- the audience of enrollments, an enabled binding ties that workload to the service that the key
  -- names, and a challenge of that service, the request's, was neither consumed nor expired.
  pub enroll_authorized :
      (r : EnrollmentRequest) (now : ℤ) (db t : Db) (x : RegisteredInstance)
      → enroll r now db ≡ (ok x, t)
      → (crypto.verifies r.public_key.public_key
            (proof_message crypto r.challenge r.public_key r.endpoint r.claimed_pod_uid
              r.workload_token)
            r.signature
          ≡ true)
        × ((w : VerifiedWorkload) × (b : EnrollmentBinding) × Bound r.workload_token
              r.claimed_pod_uid r.public_key.service_id db w b)
        × (any_row
              (to_consume crypto r.public_key.service_id r.challenge now)
              db.enrollment_challenges
            ≡ true)
  unfolding authenticate verify
  enroll_authorized r now db t x h =
      let (good, u, spent, _) = enroll-ok r now db t x h in
      let challenge = consume-found r.public_key.service_id r.challenge now db u spent in
      elim (Result-cases (
        bound_workload (bindings crypto) (registry crypto) policy crypto review r.workload_token
          r.claimed_pod_uid db)) [
            | inr (e, bad) ↦ absurd (ground (arith, good, bad))
            | inl (b, found) ↦
                let (w, (seen, meant, pod, binding, live, _)) =
                  Bound-ok r.workload_token r.claimed_pod_uid db b found in
                (
                  ground (arith, good, found),
                  (w, b, (seen, meant, pod, binding, live, ground (arith, good, found))),
                  challenge,
                )
          ]
