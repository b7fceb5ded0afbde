-- ===== src/Postgres/Enrollment/Once.antt =====
-- An enrollment challenge registers one instance.
use infernal_law.Base.{
  ℕ, ℤ, pos, ltb_ℤ, ◌==◌, ◌≡◌, ◌≢◌, refl, sym, subst, ap, ◌∙◌, inl, inr, ◌⊎◌, arith, Bool,
  Bool-cases, Option-cases, Result-cases, none, is_some, true, false, List, [], ◌∷◌, Result, ok,
  any_row, update_rows, checked_add, Text,
}
use infernal_law.Base.Spent.{
  HasKey, Spent, Spent-none, cons-Spent, update-Spent, spend-Spent, has_key, is_open,
}
use infernal_law.Kernel.InstanceKeys.{Crypto, InstancePublicKey}
use infernal_law.Kernel.Instances.{
  LeasePolicy, RegisteredInstance, register_verified, restore_instance,
}
use infernal_law.Kernel.Enrollment.{EnrollmentError, EnrollmentRequest, VerifiedWorkload}
use infernal_law.Kernel.Enrollment.Service.{authenticate, authenticate_and_register}
use infernal_law.Postgres.Db.{Db, EnrollmentChallengeRow}
use infernal_law.Postgres.Instances.{registry, insert, insert_body, check_instance, audited}
use infernal_law.Postgres.Enrollment.{
  challenge_digest, insert_challenge, consume_challenge, to_consume, consume_row, bindings,
}
use infernal_law.Postgres.Enrollment.Authorized.{enroll, enroll-ok}

abbrev digest_key : EnrollmentChallengeRow → ℕ
digest_key c = c.challenge_digest

abbrev is_consumed : EnrollmentChallengeRow → Bool
is_consumed c = is_some c.consumed_at

-- The digest is the primary key of the challenges.
abbrev pub HasDigestKey : Db → Type 0
HasDigestKey db = HasKey digest_key is_consumed db.enrollment_challenges

abbrev Consumed : ℕ → List EnrollmentChallengeRow → Type 0
Consumed = Spent digest_key is_consumed

module _ (crypto : Crypto) where
  abbrev new_row : ℕ → ℕ → ℤ → EnrollmentChallengeRow
  new_row service challenge expires_at = record {
    challenge_digest = challenge_digest crypto challenge;
    service_id = service;
    expires_at = expires_at;
    consumed_at = none;
  }

  insert-table :
      (service challenge : ℕ) (expires_at : ℤ) (db : Db)
      → ((insert_challenge crypto service challenge expires_at db).1.enrollment_challenges
          ≡ db.enrollment_challenges)
        ⊎ ((any_row
                (has_key digest_key is_consumed (challenge_digest crypto challenge))
                db.enrollment_challenges
              ≡ false)
            × ((insert_challenge crypto service challenge expires_at db).1.enrollment_challenges
                ≡ new_row service challenge expires_at ∷ db.enrollment_challenges))
  unfolding insert_challenge
  insert-table service challenge expires_at db = elim (Bool-cases (ltb_ℤ expires_at (pos 0))) [
    | inl bad ↦ inl (ground (arith, bad))
    | inr good ↦
        elim (Bool-cases (
          any_row (has_key digest_key is_consumed (challenge_digest crypto challenge))
            db.enrollment_challenges)) [
              | inl taken ↦ inl (ground (arith, good, taken))
              | inr fresh ↦ elim (Bool-cases (any_row (λ i. i.id == service) db.identities)) [
                | inr nobody ↦ inl (ground (arith, good, fresh, nobody))
                | inl known ↦ inr (fresh, ground (arith, good, fresh, known))
              ]
            ]
  ]

  insert-Consumed :
      (digest service challenge : ℕ) (expires_at : ℤ) (db : Db)
      → Consumed digest db.enrollment_challenges
      → Consumed digest
          (insert_challenge crypto service challenge expires_at db).1.enrollment_challenges
  insert-Consumed digest service challenge expires_at db gone =
      elim (insert-table service challenge expires_at db) [
        | inl same ↦ subst (Consumed digest) (sym same) gone
        | inr (fresh, added) ↦ subst (Consumed digest) (sym added) (
            cons-Spent digest_key is_consumed digest (new_row service challenge expires_at)
              db.enrollment_challenges gone fresh)
      ]

  consumes :
      (service challenge : ℕ) (now : ℤ) (c : EnrollmentChallengeRow)
      → to_consume crypto service challenge now c ≡ true
      → is_open digest_key is_consumed (challenge_digest crypto challenge) c ≡ true
  consumes service challenge now c e = ground (arith, e)

  consumed_table : ℕ → ℕ → ℤ → Db → List EnrollmentChallengeRow
  consumed_table service challenge now db =
      update_rows (to_consume crypto service challenge now) (consume_row now)
        db.enrollment_challenges

  consume-table :
      (service challenge : ℕ) (now : ℤ) (db : Db)
      → ((consume_challenge crypto service challenge now db).1.enrollment_challenges
          ≡ db.enrollment_challenges)
        ⊎ ((consume_challenge crypto service challenge now db).1.enrollment_challenges
            ≡ consumed_table service challenge now db)
  unfolding consume_challenge consumed_table
  consume-table service challenge now db =
      let p = to_consume crypto service challenge now in
      elim (Bool-cases (any_row p db.enrollment_challenges)) [
        | inr nothing ↦ inl (ground (arith, nothing))
        | inl found ↦ elim (Bool-cases (ltb_ℤ now (pos 0))) [
          | inl early ↦ inl (ground (arith, found, early))
          | inr late ↦ inr (ground (arith, found, late))
        ]
      ]

  consume-ok :
      (service challenge : ℕ) (now : ℤ) (db u : Db)
      → consume_challenge crypto service challenge now db ≡ (ok tt, u)
      → (any_row (to_consume crypto service challenge now) db.enrollment_challenges ≡ true)
        × (u.enrollment_challenges ≡ consumed_table service challenge now db)
  unfolding consume_challenge consumed_table
  consume-ok service challenge now db u h =
      let p = to_consume crypto service challenge now in
      elim (Bool-cases (any_row p db.enrollment_challenges)) [
        | inr nothing ↦ absurd (ground (arith, nothing, h))
        | inl found ↦ elim (Bool-cases (ltb_ℤ now (pos 0))) [
          | inl early ↦ absurd (ground (arith, found, early, h))
          | inr late ↦ (found, ground (arith, found, late, h))
        ]
      ]

  consume-Consumed :
      (digest service challenge : ℕ) (now : ℤ) (db : Db)
      → Consumed digest db.enrollment_challenges
      → Consumed digest (consume_challenge crypto service challenge now db).1.enrollment_challenges
  unfolding consumed_table
  consume-Consumed digest service challenge now db gone =
      elim (consume-table service challenge now db) [
        | inl same ↦ subst (Consumed digest) (sym same) gone
        | inr changed ↦ subst (Consumed digest) (sym changed) (
            update-Spent digest_key is_consumed (to_consume crypto service challenge now)
              (consume_row now) (λ c. refl) (λ c. refl) digest db.enrollment_challenges gone)
      ]

  -- The registry leaves the challenges alone.
  insert-same :
      (r : RegisteredInstance) (db : Db)
      → (insert crypto r db).1.enrollment_challenges ≡ db.enrollment_challenges
  unfolding insert insert_body audited
  insert-same r db = elim (Result-cases (check_instance crypto db r)) [
    | inr (e, bad) ↦ ground (arith, bad)
    | inl (u, good) ↦ ground (arith, good)
  ]

  register-same :
      (policy : LeasePolicy) (public : InstancePublicKey) (endpoint : Text) (now : ℤ) (db : Db)
      → (register_verified (registry crypto) policy public endpoint now db).1.enrollment_challenges
        ≡ db.enrollment_challenges
  unfolding register_verified
  register-same policy public endpoint now db = elim (Bool-cases (ltb_ℤ now (pos 0))) [
    | inl early ↦ ground (arith, early)
    | inr late ↦ elim (Option-cases (checked_add now policy.duration_seconds)) [
      | inl over ↦ ground (arith, late, over)
      | inr (expires, fits) ↦
          elim (Result-cases (restore_instance public endpoint now expires (pos 1) none)) [
            | inr (e, bad) ↦ ground (arith, late, fits, bad)
            | inl (x, made) ↦
                let same = insert-same x db in
                elim (Result-cases (insert crypto x db).0) [
                  | inr (e, bad) ↦ ground (arith, late, fits, made, bad, same)
                  | inl (u, done) ↦ ground (arith, late, fits, made, done, same)
                ]
          ]
    ]
  ]

-- A stored challenge, and an enrollment.
pub data EnrollmentCall : Type 0 where
  challenge : ℕ → ℕ → ℤ → EnrollmentCall
  enrollment : EnrollmentRequest → ℤ → EnrollmentCall

module _ (crypto : Crypto) (policy : LeasePolicy)
    (review : Text → Text → Result VerifiedWorkload EnrollmentError) where
  enroll-Consumed :
      (digest : ℕ) (r : EnrollmentRequest) (now : ℤ) (db : Db)
      → Consumed digest db.enrollment_challenges
      → Consumed digest (enroll crypto policy review r now db).1.enrollment_challenges
  unfolding authenticate_and_register
  enroll-Consumed digest r now db gone =
      let done = consume_challenge crypto r.public_key.service_id r.challenge now db in
      let later = consume-Consumed crypto digest r.public_key.service_id r.challenge now db gone in
      elim (Result-cases
        (authenticate (bindings crypto) (registry crypto) policy crypto review r db)) [
          | inr (e, bad) ↦ subst (Consumed digest) (ground (arith, bad)) gone
          | inl (v, good) ↦ elim (Result-cases done.0) [
            | inr (e, bad) ↦ subst (Consumed digest) (ground (arith, good, bad)) later
            | inl (w, spent) ↦
                let same = register-same crypto policy r.public_key r.endpoint now done.1 in
                subst (Consumed digest) (ground (arith, good, spent, same)) later
          ]
        ]

  unfoldable pub after_calls : List EnrollmentCall → Db → Db
  after_calls [] db = db
  after_calls (challenge service c expires_at ∷ cs) db =
      after_calls cs (insert_challenge crypto service c expires_at db).1
  after_calls (enrollment r now ∷ cs) db = after_calls cs (enroll crypto policy review r now db).1

  calls-Consumed :
      (digest : ℕ) (cs : List EnrollmentCall) (db : Db)
      → Consumed digest db.enrollment_challenges
      → Consumed digest (after_calls cs db).enrollment_challenges
  unfolding after_calls
  calls-Consumed digest [] db gone = gone
  calls-Consumed digest (challenge service c expires_at ∷ cs) db gone =
      calls-Consumed digest cs (insert_challenge crypto service c expires_at db).1
        (insert-Consumed crypto digest service c expires_at db gone)
  calls-Consumed digest (enrollment r now ∷ cs) db gone =
      calls-Consumed digest cs (enroll crypto policy review r now db).1
        (enroll-Consumed digest r now db gone)

  enrolled-Consumed :
      (r : EnrollmentRequest) (now : ℤ) (db t : Db) (x : RegisteredInstance)
      → HasDigestKey db
      → enroll crypto policy review r now db ≡ (ok x, t)
      → Consumed (challenge_digest crypto r.challenge) t.enrollment_challenges
  unfolding consumed_table
  enrolled-Consumed r now db t x keyed done =
      let service = r.public_key.service_id in
      let (_, u, spent, made) = enroll-ok crypto policy review r now db t x done in
      let (found, table) = consume-ok crypto service r.challenge now db u spent in
      let gone = subst (Consumed (challenge_digest crypto r.challenge)) (sym table) (
        spend-Spent digest_key is_consumed (to_consume crypto service r.challenge now)
          (consume_row now) (λ c. refl) (λ c. refl) (challenge_digest crypto r.challenge)
          (consumes crypto service r.challenge now) db.enrollment_challenges keyed found) in
      let same = register-same crypto policy r.public_key r.endpoint now u in
      subst (Consumed (challenge_digest crypto r.challenge))
        (sym same ∙ ap (λ p. p.1.enrollment_challenges) made) gone

  -- In a table of enrollment challenges that has the digest as its key: once an enrollment
  -- registered an instance, no further enrollment with the same challenge does, whatever challenges
  -- were issued and enrollments were tried in between, and whichever service and key it names.
  pub enroll_once :
      (r : EnrollmentRequest) (now : ℤ) (db t : Db) (x : RegisteredInstance)
      → HasDigestKey db
      → enroll crypto policy review r now db ≡ (ok x, t)
      → (cs : List EnrollmentCall) (again : EnrollmentRequest) → again.challenge ≡ r.challenge
      → (later : ℤ) (y : RegisteredInstance) (u : Db)
      → enroll crypto policy review again later (after_calls cs t) ≢ (ok y, u)
  enroll_once r now db t x keyed done cs again same later y u repeated =
      let digest = challenge_digest crypto again.challenge in
      let gone = calls-Consumed digest cs t (
        subst (λ c. Consumed (challenge_digest crypto c) t.enrollment_challenges) (sym same)
          (enrolled-Consumed r now db t x keyed done)) in
      let service = again.public_key.service_id in
      let (_, none_left) =
        Spent-none digest_key is_consumed (to_consume crypto service again.challenge later) digest
          (consumes crypto service again.challenge later) (after_calls cs t).enrollment_challenges
          gone in
      let (_, v, spent, _) =
        enroll-ok crypto policy review again later (after_calls cs t) u y repeated in
      let (found, _) = consume-ok crypto service again.challenge later (after_calls cs t) v spent in
      ground (arith, none_left, found)
