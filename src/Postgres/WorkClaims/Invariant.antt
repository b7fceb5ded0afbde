-- ===== src/Postgres/WorkClaims/Invariant.antt =====
-- The history that the table of work claims holds, and that every operation of
-- src/infrastructure/postgres_work_claim_repository.rs keeps it.
use infernal_law.Base.{
  ℕ, pos, i64_max, ◌≤ℤ◌, ◌<ℤ◌, ◌≡◌, ◌≢◌, refl, sym, subst, ◌⊎◌, inl, inr, true, false, List, [],
  ◌∷◌, arith, All, ok, Bool-cases, Result-cases, ◌==◌,
}
use infernal_law.Kernel.WorkClaims.{WorkClaim, is_active, is_completed}
use infernal_law.Postgres.WorkClaims.{protect_work_claim, check_row, update_claims}

-- What the CHECK constraints say of a row.
abbrev pub IsChecked : WorkClaim → Type 0
IsChecked c =
    (pos 1 ≤ℤ c.fencing_token) × (pos 0 ≤ℤ c.claimed_at) × (c.claimed_at <ℤ c.lease_expires_at)

-- A row that passed them, whose token is an `i64`.
abbrev pub RowIsValid : WorkClaim → Type 0
RowIsValid c = IsChecked c × (c.fencing_token ≤ℤ i64_max)

-- `d` is older than `c`: another claim, and on the same route one of a lower token that ended
-- without completing the work.
abbrev pub IsBehind : WorkClaim → WorkClaim → Type 0
IsBehind c d =
    (d.id ≢ c.id)
    × (d.route_id ≡ c.route_id
        → (d.fencing_token <ℤ c.fencing_token)
          × (is_active d.status ≡ false)
          × (is_completed d.status ≡ false))

abbrev pub IsHistory : List WorkClaim → Type 0
IsHistory [] = Unit
IsHistory (c ∷ cs) = RowIsValid c × All (IsBehind c) cs × IsHistory cs

pub History-All : (cs : List WorkClaim) → IsHistory cs → All RowIsValid cs
History-All [] h = tt
History-All (c ∷ cs) h = (h.0, History-All cs h.2)

abbrev pub IsChange : WorkClaim → WorkClaim → Type 0
IsChange old new =
    (new.id ≡ old.id)
    × (new.route_id ≡ old.route_id)
    × (new.fencing_token ≤ℤ old.fencing_token)
    × (old.fencing_token ≤ℤ new.fencing_token)
    × (is_active old.status ≡ true)
    × IsChecked new

changed_row :
    (old new : WorkClaim)
    → protect_work_claim old new ≡ ok tt
    → check_row new ≡ ok tt
    → IsChange old new
unfolding protect_work_claim check_row
changed_row old new p q = ground arith

-- A row of a table that an update went through.
abbrev pub IsUpdate : WorkClaim → WorkClaim → Type 0
IsUpdate c d = IsChange c d ⊎ (d ≡ c)

-- Which rows an update sets.
abbrev pub Sets : ℕ → (WorkClaim → WorkClaim) → WorkClaim → WorkClaim → Type 0
Sets claim change c d = ((c.id ≡ claim) × (d ≡ change c)) ⊎ ((c.id ≢ claim) × (d ≡ c))

pub IsUpdate-row :
    (claim : ℕ) (change : WorkClaim → WorkClaim) (c : WorkClaim) (cs ds : List WorkClaim)
    → update_claims claim change (c ∷ cs) ≡ ok ds
    → (d : WorkClaim) × (r : List WorkClaim) × (update_claims claim change cs ≡ ok r)
      × (ds ≡ d ∷ r)
      × IsUpdate c d
      × Sets claim change c d
unfolding update_claims
IsUpdate-row claim change c cs ds e = elim (Result-cases (update_claims claim change cs)) [
  | inr (x, bad) ↦ absurd (ground (arith, bad))
  | inl (r, good) ↦ elim (Bool-cases (c.id == claim)) [
    | inl hit ↦ (
      change c,
      r,
      good,
      ground (arith, good),
      inl (changed_row c (change c) (ground arith) (ground arith)),
      inl (ground arith, refl),
    )
    | inr miss ↦ (c, r, good, ground (arith, good), inr refl, inr (ground arith, refl))
  ]
]

IsBehind-changed : (c d e : WorkClaim) → IsUpdate d e → IsBehind c d → IsBehind c e
IsBehind-changed c d e (inl u) h =
    (λ p. h.0 (ground arith), λ p. absurd (ground (arith, h.1 (ground arith))))
IsBehind-changed c d e (inr q) h = subst (IsBehind c) (sym q) h

IsBehind-of_changed : (c d e : WorkClaim) → IsUpdate c d → IsBehind c e → IsBehind d e
IsBehind-of_changed c d e (inl u) h =
    (λ p. h.0 (ground arith), λ p. ground (arith, h.1 (ground arith)))
IsBehind-of_changed c d e (inr q) h = subst (λ x. IsBehind x e) (sym q) h

All-IsBehind_of_changed :
    (c d : WorkClaim) (cs : List WorkClaim)
    → IsUpdate c d
    → All (IsBehind c) cs
    → All (IsBehind d) cs
All-IsBehind_of_changed c d [] u h = tt
All-IsBehind_of_changed c d (x ∷ cs) u h =
    (IsBehind-of_changed c d x u h.0, All-IsBehind_of_changed c d cs u h.1)

module _ (claim : ℕ) (change : WorkClaim → WorkClaim) where
  update-All-IsBehind :
      (c : WorkClaim) (cs ds : List WorkClaim)
      → update_claims claim change cs ≡ ok ds
      → All (IsBehind c) cs
      → All (IsBehind c) ds
  unfolding update_claims
  update-All-IsBehind c [] ds e h = ground arith
  update-All-IsBehind c (x ∷ cs) ds e h =
      let (d, r, rest, shape, u, _) = IsUpdate-row claim change x cs ds e in
      subst (All (IsBehind c)) (sym shape)
        (IsBehind-changed c x d u h.0, update-All-IsBehind c cs r rest h.1)

  -- An update that the trigger and the checks let through keeps the history.
  pub update-IsHistory :
      (cs ds : List WorkClaim) → update_claims claim change cs ≡ ok ds → IsHistory cs → IsHistory ds
  unfolding update_claims
  update-IsHistory [] ds e h = ground arith
  update-IsHistory (x ∷ cs) ds e h =
      let (d, r, rest, shape, u, _) = IsUpdate-row claim change x cs ds e in
      subst IsHistory (sym shape) (
        valid d u,
        All-IsBehind_of_changed x d r u (update-All-IsBehind x cs r rest h.1),
        update-IsHistory cs r rest h.2,
      )
    where
      valid : (d : WorkClaim) → IsUpdate x d → RowIsValid d
      valid d (inl u) = (u.5, ground arith)
      valid d (inr q) = subst RowIsValid (sym q) h.0
