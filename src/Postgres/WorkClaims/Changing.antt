-- ===== src/Postgres/WorkClaims/Changing.antt =====
-- What a successful `renew`, `release` or `complete` does to the table of work claims.
use infernal_law.Base.{
  ℕ, ℤ, ◌≤ℤ◌, ◌≡◌, true, arith, ok, Result, Result-cases, Option-cases, inl, inr, some,
}
use infernal_law.Kernel.WorkClaims.{WorkClaim, WorkClaimError, is_current}
use infernal_law.Postgres.Db.{Db}
use infernal_law.Postgres.WorkClaims.{
  update_claims, find_claim, lock_current, change_claim, claim_from_row,
}
use infernal_law.Postgres.WorkClaims.Claiming.{restore-ok}

abbrev pub Holds : Db → ℕ → ℤ → ℤ → WorkClaim → Type 0
Holds db claim token now c =
    (find_claim claim db.claims ≡ some c)
    × (c.fencing_token ≤ℤ token)
    × (token ≤ℤ c.fencing_token)
    × (is_current c now ≡ true)

pub lock_current-ok :
    (db : Db) (claim : ℕ) (token now : ℤ) (c : WorkClaim)
    → lock_current db claim token now ≡ ok c
    → Holds db claim token now c
unfolding lock_current
lock_current-ok db claim token now c e = elim (Option-cases (find_claim claim db.claims)) [
  | inl nothing ↦ absurd (ground (arith, nothing))
  | inr (d, found) ↦ elim (Result-cases (claim_from_row d)) [
    | inr (x, bad) ↦ absurd (ground (arith, found, bad))
    | inl (f, good) ↦
        let same = restore-ok d f good in
        (
          ground (arith, found, good, same),
          ground (arith, found, good),
          ground (arith, found, good),
          ground (arith, found, good),
        )
  ]
]

pub change_claim-ok :
    (change : WorkClaim → WorkClaim) (claim : ℕ) (token now : ℤ) (db : Db)
    (r : Result WorkClaim WorkClaimError) (t : Db)
    → change_claim change claim token now db ≡ ok (r, t)
    → (c : WorkClaim) × Holds db claim token now c
      × (update_claims c.id change db.claims ≡ ok t.claims)
      × (r ≡ ok (change c))
      × (t ≡ record db { claims = t.claims })
unfolding change_claim
change_claim-ok change claim token now db r t e =
    elim (Result-cases (lock_current db claim token now)) [
      | inr (x, bad) ↦ absurd (ground (arith, bad))
      | inl (c, locked) ↦ elim (Result-cases (update_claims c.id change db.claims)) [
        | inr (x, bad) ↦ absurd (ground (arith, locked, bad))
        | inl (cs, done) ↦ elim (Result-cases (claim_from_row (change c))) [
          | inr (x, bad) ↦ absurd (ground (arith, locked, done, bad))
          | inl (f, good) ↦
              let same = restore-ok (change c) f good in
              (
                c,
                lock_current-ok db claim token now c locked,
                ground (arith, locked, done, good),
                ground (arith, locked, done, good, same),
                ground (arith, locked, done, good),
              )
        ]
      ]
    ]
