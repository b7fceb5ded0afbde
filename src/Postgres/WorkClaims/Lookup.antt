-- ===== src/Postgres/WorkClaims/Lookup.antt =====
-- The lookup of a claim by its id, across the operations.
use infernal_law.Base.{
  ℕ, ℤ, ◌≡◌, ◌≢◌, ◌⊎◌, refl, sym, subst, inl, inr, true, false, Option, some, none, List, [], ◌∷◌,
  arith, All, ok, Bool-cases, ◌==◌,
}
use infernal_law.Kernel.WorkClaims.{WorkClaim, is_active, is_completed, expired}
use infernal_law.Postgres.WorkClaims.{update_claims, find_claim, latest_claim, supersede}
use infernal_law.Postgres.WorkClaims.Invariant.{IsBehind, IsHistory, IsUpdate, IsUpdate-row}
use infernal_law.Postgres.WorkClaims.Latest.{latest-newest}
use infernal_law.Postgres.WorkClaims.Claiming.{supersede-some-ok, supersede-none-ok}

pub find-All :
    (P : WorkClaim → Type 0) (id : ℕ) (cs : List WorkClaim) (d : WorkClaim)
    → find_claim id cs ≡ some d
    → All P cs
    → P d × (d.id ≡ id)
unfolding find_claim
find-All P id [] d e h = absurd (cc)
find-All P id (c ∷ cs) d e h = elim (Bool-cases (c.id == id)) [
  | inl hit ↦ (subst P (ground (arith, hit)) h.0, ground (arith, hit))
  | inr miss ↦ find-All P id cs d (ground (arith, miss)) h.1
]

-- A claim that is active or completed is the latest of its route.
pub latest-find :
    (id : ℕ) (cs : List WorkClaim) (d : WorkClaim)
    → IsHistory cs
    → find_claim id cs ≡ some d
    → (is_active d.status ≡ true) ⊎ (is_completed d.status ≡ true)
    → latest_claim d.route_id cs ≡ some d
unfolding find_claim latest_claim
latest-find id [] d h e live = absurd (cc)
latest-find id (c ∷ cs) d h e live = elim (Bool-cases (c.id == id)) [
  | inl hit ↦
      let q : c ≡ d = ground (arith, hit) in
      subst (λ x. latest_claim x.route_id (c ∷ cs) ≡ some x) q
        (latest-newest c.route_id c cs h refl)
  | inr miss ↦
      let (behind, _) = find-All (IsBehind c) id cs d (ground (arith, miss)) h.1 in
      below (Bool-cases (c.route_id == d.route_id)) behind
        (latest-find id cs d h.2 (ground (arith, miss)) live)
]
  where
    below :
        ((c.route_id == d.route_id) ≡ true) ⊎ ((c.route_id == d.route_id) ≡ false)
        → IsBehind c d
        → latest_claim d.route_id cs ≡ some d
        → latest_claim d.route_id (c ∷ cs) ≡ some d
    below (inl same) behind ih = absurd (ground (arith, same, behind.1 (ground arith), live))
    below (inr other) behind ih = ground (arith, other)

-- An update leaves the id where it was, on the same row but for the row that it changes.
pub find-IsUpdate :
    (claim : ℕ) (change : WorkClaim → WorkClaim) (id : ℕ) (cs ds : List WorkClaim) (d : WorkClaim)
    → update_claims claim change cs ≡ ok ds
    → find_claim id cs ≡ some d
    → (e : WorkClaim) × (find_claim id ds ≡ some e) × IsUpdate d e
unfolding find_claim update_claims
find-IsUpdate claim change id [] ds d u e = absurd (cc)
find-IsUpdate claim change id (c ∷ cs) ds d u e =
    let (f, r, rest, shape, how, _) = IsUpdate-row claim change c cs ds u in
    elim (Bool-cases (c.id == id)) [
      | inl hit ↦ (f, hits f r shape how hit, subst (λ x. IsUpdate x f) (ground (arith, hit)) how)
      | inr miss ↦
          let (x, found, k) = find-IsUpdate claim change id cs r d rest (ground (arith, miss)) in
          (x, misses f r x shape how miss found, k)
    ]
  where
    hits :
        (f : WorkClaim) (r : List WorkClaim)
        → ds ≡ f ∷ r
        → IsUpdate c f
        → (c.id == id) ≡ true
        → find_claim id ds ≡ some f
    hits f r shape (inl k) hit = ground (arith, k.0)
    hits f r shape (inr k) hit = ground arith

    misses :
        (f : WorkClaim) (r : List WorkClaim) (x : WorkClaim)
        → ds ≡ f ∷ r
        → IsUpdate c f
        → (c.id == id) ≡ false
        → find_claim id r ≡ some x
        → find_claim id ds ≡ some x
    misses f r x shape (inl k) miss found = ground (arith, k.0)
    misses f r x shape (inr k) miss found = ground arith

pub find-supersede :
    (route : ℕ) (now token : ℤ) (l : Option WorkClaim) (id : ℕ) (cs ds : List WorkClaim)
    (d : WorkClaim)
    → supersede route now l cs ≡ ok (ds, token)
    → find_claim id cs ≡ some d
    → (e : WorkClaim) × (find_claim id ds ≡ some e) × IsUpdate d e
find-supersede route now token none id cs ds d s f =
    let (same, _) = supersede-none-ok route now cs ds token s in
    (d, subst (λ x. find_claim id x ≡ some d) (sym same) f, inr refl)
find-supersede route now token (some c) id cs ds d s f =
    let (_, _, how) = supersede-some-ok route now c cs ds token s in cases how
  where
    cases :
        ((is_active c.status ≡ true)
            × (update_claims c.id (λ x. record x { status = expired }) cs ≡ ok ds))
          ⊎ ((is_active c.status ≡ false) × (ds ≡ cs))
        → (e : WorkClaim) × (find_claim id ds ≡ some e) × IsUpdate d e
    cases (inl (_, u)) = find-IsUpdate c.id (λ x. record x { status = expired }) id cs ds d u f
    cases (inr (_, same)) = (d, subst (λ x. find_claim id x ≡ some d) (sym same) f, inr refl)

pub find-cons :
    (id : ℕ) (c : WorkClaim) (cs : List WorkClaim) (d : WorkClaim)
    → All (λ x. x.id ≢ c.id) cs
    → find_claim id cs ≡ some d
    → find_claim id (c ∷ cs) ≡ some d
unfolding find_claim
find-cons id c cs d n f =
    let (other, same) = find-All (λ x. x.id ≢ c.id) id cs d f n in
    elim (Bool-cases (c.id == id)) [
      | inl hit ↦ absurd (other (ground (arith, hit)))
      | inr miss ↦ ground (arith, miss)
    ]
