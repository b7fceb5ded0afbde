-- ===== src/Postgres/Authority/Pinned.antt =====
-- `AuthorityService::authorize` of src/kernel/authority.rs over the Postgres repository.
use infernal_law.Base.{
  ℕ, ℤ, ◌≡◌, inl, inr, true, false, some, List, ◌∷◌, arith, ok, err, Result-cases, ◌↔◌, ◌⊎◌,
  is_some, refl,
}
use infernal_law.Kernel.Authority.{
  PolicyFacts, Grant, allow, AuthorityError, PolicyEvaluation, PolicyEvaluator, AuthorityDecision,
  is_allowed, decide, authorize, repository,
}
use infernal_law.Kernel.Faults.{DbError, database}
use infernal_law.Postgres.Db.{Db}
use infernal_law.Postgres.Authority.{matching_grants, check_decision, record_decision, authority}

-- The evaluator, asked about the grants, answers that they allow.
abbrev pub Allows : PolicyEvaluator → PolicyFacts → List Grant → Type 0
Allows evaluate facts grants =
    (e : PolicyEvaluation) × (evaluate facts grants ≡ ok e) × (e.verdict ≡ allow)

module _ (evaluate : PolicyEvaluator) (evaluator_id : ℕ) where
  -- What an authorization that returns a decision has done: the grants were read, the decision is
  -- the one pinned of their evaluation, and it is recorded, on top of the others.
  pub authorize-ok :
      (fresh : ℕ) (facts : PolicyFacts) (now : ℤ) (db t : Db) (d : AuthorityDecision)
      → authorize authority evaluate evaluator_id fresh facts now db ≡ (ok d, t)
      → (grants : List Grant) × (matching_grants facts now db ≡ ok grants)
        × (d ≡ decide authority evaluate evaluator_id fresh facts now grants)
        × (t ≡ record db { decisions = d ∷ db.decisions })
  unfolding authorize record_decision
  authorize-ok fresh facts now db t d h = elim (Result-cases (matching_grants facts now db)) [
    | inr (e, failed) ↦ absurd (ground (arith, failed, h))
    | inl (grants, read) ↦
        let pinned = decide authority evaluate evaluator_id fresh facts now grants in
        elim (Result-cases (check_decision db pinned)) [
          | inr (e, failed) ↦ absurd (ground (arith, read, failed, h))
          | inl (_, passed) ↦
              (grants, read, ground (arith, read, passed, h), ground (arith, read, passed, h))
        ]
  ]

  -- An allowing decision rests on an answer of the evaluator that allows, given on the grants that
  -- match; the decision keeps the facts, the id of the evaluator, the version of the policy bundle
  -- that answered and the time, and is the newest row of the recorded decisions.
  pub authorize_allows :
      (fresh : ℕ) (facts : PolicyFacts) (now : ℤ) (db t : Db) (d : AuthorityDecision)
      → authorize authority evaluate evaluator_id fresh facts now db ≡ (ok d, t)
      → is_allowed d ≡ true
      → (grants : List Grant) × (e : PolicyEvaluation) × (matching_grants facts now db ≡ ok grants)
        × (evaluate facts grants ≡ ok e)
        × (e.verdict ≡ allow)
        × (d.facts ≡ facts)
        × (d.evaluated_by ≡ evaluator_id)
        × (d.decided_at ≡ now)
        × (d.policy_bundle_version ≡ some e.policy_bundle_version)
        × (t ≡ record db { decisions = d ∷ db.decisions })
  authorize_allows fresh facts now db t d h allowed =
      let (grants, read, pinned, recorded) = authorize-ok fresh facts now db t d h in
      elim (Result-cases (evaluate facts grants)) [
        | inr (x, failed) ↦ absurd (ground (arith, failed, pinned, allowed))
        | inl (e, answered) ↦ (
          grants,
          e,
          read,
          answered,
          ground (arith, answered, pinned, allowed),
          ground (arith, pinned),
          ground (arith, pinned),
          ground (arith, pinned),
          ground (arith, answered, pinned),
          recorded,
        )
      ]

  decide-Allows :
      (fresh : ℕ) (facts : PolicyFacts) (now : ℤ) (grants : List Grant)
      → let d = decide authority evaluate evaluator_id fresh facts now grants in
        ((is_allowed d ≡ true) ↔ Allows evaluate facts grants)
        × ((is_some d.policy_bundle_version ≡ false)
            ↔ ((x : AuthorityError) × (evaluate facts grants ≡ err x)))
  decide-Allows fresh facts now grants = elim (Result-cases (evaluate facts grants)) [
    | inr (x, failed) ↦ (
      (
        λ allowed. absurd (ground (arith, failed, allowed)),
        λ (e, answered, _). absurd (ground (arith, failed, answered)),
      ),
      (λ silent. (x, failed), λ y. ground (arith, failed)),
    )
    | inl (e, answered) ↦ (
      (
        λ allowed. (e, answered, ground (arith, answered, allowed)),
        λ (x, same, allows). ground (arith, same, allows),
      ),
      (
        λ silent. absurd (ground (arith, answered, silent)),
        λ (x, failed). absurd (ground (arith, answered, failed)),
      ),
    )
  ]

  -- Authorization fails closed, whatever it answers. Either it returns a decision, which is
  -- recorded, and which allows exactly if the evaluator answered, on the grants that match, that
  -- they allow, and lacks a bundle version exactly if the evaluator failed; or it returns no
  -- decision and the tables are as they were, which is so exactly if the grants cannot be read or
  -- the database refuses the decision, whichever its verdict.
  pub authorize_closed :
      (fresh : ℕ) (facts : PolicyFacts) (now : ℤ) (db : Db)
      → let answer = authorize authority evaluate evaluator_id fresh facts now db in
        ((d : AuthorityDecision) × (grants : List Grant) × (answer
            ≡ (ok d, record db { decisions = d ∷ db.decisions }))
          × (matching_grants facts now db ≡ ok grants)
          × ((is_allowed d ≡ true) ↔ Allows evaluate facts grants)
          × ((is_some d.policy_bundle_version ≡ false)
              ↔ ((x : AuthorityError) × (evaluate facts grants ≡ err x)))
          × (check_decision db d ≡ ok tt))
        ⊎ ((x : AuthorityError) × (answer ≡ (err x, db))
            × ((matching_grants facts now db ≡ err x)
                ⊎ ((grants : List Grant) × (e : DbError) × (matching_grants facts now db
                      ≡ ok grants)
                    × (check_decision db
                          (decide authority evaluate evaluator_id fresh facts now grants)
                        ≡ err e)
                    × (x ≡ repository (database e)))))
  unfolding authorize record_decision
  authorize_closed fresh facts now db = elim (Result-cases (matching_grants facts now db)) [
    | inr (x, failed) ↦ inr (x, ground (arith, failed), inl failed)
    | inl (grants, read) ↦
        let d = decide authority evaluate evaluator_id fresh facts now grants in
        elim (Result-cases (check_decision db d)) [
          | inr (e, failed) ↦ inr (
            repository (database e),
            ground (arith, read, failed),
            inr (grants, e, read, failed, refl),
          )
          | inl (u, passed) ↦
              let (allows, silent) = decide-Allows fresh facts now grants in
              inl (d, grants, ground (arith, read, passed), read, allows, silent, passed)
        ]
  ]
