-- ===== src/Postgres/WorkClaims/Latest.antt =====
-- What the locked read of a route's latest claim tells of the other claims on the route.
use infernal_law.Base.{
  ℕ, ℤ, ◌≤ℤ◌, ◌≡◌, ◌≢◌, refl, sym, subst, ◌⊎◌, inl, inr, false, none, some, List, [], ◌∷◌, arith,
  All, ok, Bool-cases, Option-cases, ◌==◌,
}
use infernal_law.Kernel.WorkClaims.{WorkClaim, is_active, is_completed, expired}
use infernal_law.Postgres.WorkClaims.{update_claims, latest_claim}
use infernal_law.Postgres.WorkClaims.Invariant.{IsBehind, IsHistory, IsUpdate-row, Sets}

abbrev pub HasEnded : ℕ → ℤ → WorkClaim → Type 0
HasEnded route token e =
    e.route_id ≡ route
    → (e.fencing_token ≤ℤ token) × (is_active e.status ≡ false) × (is_completed e.status ≡ false)

-- `d` is the row that the read returns.
abbrev pub IsUnder : ℕ → WorkClaim → WorkClaim → Type 0
IsUnder route d e = (e ≡ d) ⊎ (HasEnded route d.fencing_token e)

pub latest-none :
    (route : ℕ) (cs : List WorkClaim)
    → latest_claim route cs ≡ none
    → All (λ e. e.route_id ≢ route) cs
unfolding latest_claim
latest-none route [] e = tt
latest-none route (c ∷ cs) e = elim (Bool-cases (c.route_id == route)) [
  | inl hit ↦ absurd (ground (arith, hit))
  | inr miss ↦ (ground (arith, miss), latest-none route cs (ground (arith, miss)))
]

-- The row has the property that every row has, and it is a row of the route.
pub latest-All :
    (P : WorkClaim → Type 0) (route : ℕ) (cs : List WorkClaim) (d : WorkClaim)
    → latest_claim route cs ≡ some d
    → All P cs
    → P d × (d.route_id ≡ route)
unfolding latest_claim
latest-All P route [] d e h = absurd (cc)
latest-All P route (c ∷ cs) d e h = elim (Bool-cases (c.route_id == route)) [
  | inr miss ↦ latest-All P route cs d (ground (arith, miss)) h.1
  | inl hit ↦ elim (Option-cases (latest_claim route cs)) [
    | inl nothing ↦ (subst P (ground (arith, hit, nothing)) h.0, ground (arith, hit, nothing))
    | inr (x, found) ↦
        let (px, rx) = latest-All P route cs x found h.1 in
        chosen x px rx (ground (arith, hit)) (ground (arith, hit, found))
  ]
]
  where
    chosen :
        (x : WorkClaim)
        → P x
        → x.route_id ≡ route
        → c.route_id ≡ route
        → (c ≡ d) ⊎ (x ≡ d)
        → P d × (d.route_id ≡ route)
    chosen x px rx rc (inl q) = (subst P q h.0, ground arith)
    chosen x px rx rc (inr q) = (subst P q px, ground arith)

-- In a history the latest claim of a route is its newest row.
pub latest-newest :
    (route : ℕ) (c : WorkClaim) (cs : List WorkClaim)
    → IsHistory (c ∷ cs)
    → c.route_id ≡ route
    → latest_claim route (c ∷ cs) ≡ some c
unfolding latest_claim
latest-newest route c cs h r = elim (Option-cases (latest_claim route cs)) [
  | inl nothing ↦ ground (arith, nothing)
  | inr (x, found) ↦
      let (behind, rx) = latest-All (IsBehind c) route cs x found h.1 in
      ground (arith, found, behind.1 (ground arith))
]

IsUnder-newest :
    (route : ℕ) (c : WorkClaim) (cs : List WorkClaim)
    → c.route_id ≡ route
    → All (IsBehind c) cs
    → All (IsUnder route c) cs
IsUnder-newest route c [] r h = tt
IsUnder-newest route c (x ∷ cs) r h = (
  inr (λ q. let k = h.0.1 (ground arith) in (omega arith, k.1, k.2)),
  IsUnder-newest route c cs r h.1,
)

-- The latest claim has the highest token of its route, and every other claim has ended.
pub latest-IsUnder :
    (route : ℕ) (cs : List WorkClaim) (d : WorkClaim)
    → IsHistory cs
    → latest_claim route cs ≡ some d
    → All (IsUnder route d) cs
unfolding latest_claim
latest-IsUnder route [] d h e = tt
latest-IsUnder route (c ∷ cs) d h e = elim (Bool-cases (c.route_id == route)) [
  | inl hit ↦
      let q : c ≡ d = ground (arith, latest-newest route c cs h (ground arith)) in
      subst (λ x. All (IsUnder route x) (c ∷ cs)) q
        (inl refl, IsUnder-newest route c cs (ground arith) h.1)
  | inr miss ↦ (
    inr (λ q. absurd (ground (arith, miss))),
    latest-IsUnder route cs d h.2 (ground (arith, miss)),
  )
]

ended_under :
    (route : ℕ) (d e : WorkClaim)
    → is_active d.status ≡ false
    → is_completed d.status ≡ false
    → IsUnder route d e
    → HasEnded route d.fencing_token e
ended_under route d e a b (inl q) =
    subst (HasEnded route d.fencing_token) (sym q) (λ r. (omega arith, a, b))
ended_under route d e a b (inr h) = h

-- If the latest claim has ended, all claims of the route have.
pub ended-All :
    (route : ℕ) (d : WorkClaim) (cs : List WorkClaim)
    → is_active d.status ≡ false
    → is_completed d.status ≡ false
    → All (IsUnder route d) cs
    → All (HasEnded route d.fencing_token) cs
ended-All route d [] a b h = tt
ended-All route d (x ∷ cs) a b h = (ended_under route d x a b h.0, ended-All route d cs a b h.1)

ended_expired :
    (route : ℕ) (d e f : WorkClaim)
    → IsUnder route d e
    → Sets d.id (λ c. record c { status = expired }) e f
    → HasEnded route d.fencing_token f
ended_expired route d e f (inl q) (inl (_, s)) r = ground arith
ended_expired route d e f (inl q) (inr (n, s)) r = absurd (n (ground arith))
ended_expired route d e f (inr h) (inl (_, s)) r = ground (arith, h (ground arith))
ended_expired route d e f (inr h) (inr (_, s)) r = ground (arith, h (ground arith))

-- Once the latest claim is expired, all claims of the route have ended.
pub expire-ended :
    (route : ℕ) (d : WorkClaim) (cs ds : List WorkClaim)
    → update_claims d.id (λ c. record c { status = expired }) cs ≡ ok ds
    → All (IsUnder route d) cs
    → All (HasEnded route d.fencing_token) ds
unfolding update_claims
expire-ended route d [] ds e h = ground arith
expire-ended route d (x ∷ cs) ds e h =
    let (f, r, rest, shape, _, s) =
      IsUpdate-row d.id (λ c. record c { status = expired }) x cs ds e in
    subst (All (HasEnded route d.fencing_token)) (sym shape)
      (ended_expired route d x f h.0 s, expire-ended route d cs r rest h.1)
