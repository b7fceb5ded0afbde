-- ===== src/Postgres/WorkClaims/Claiming.antt =====
-- What a successful `claim` does to the table of work claims.
use infernal_law.Base.{
  ℕ, ℤ, pos, i64_max, ◌≤ℤ◌, ◌<ℤ◌, ◌≡◌, ◌≢◌, refl, sym, subst, ◌⊎◌, inl, inr, Bool, true, false,
  Option, none, some, List, [], ◌∷◌, arith, All, All-map, any_row-false, ok, err, Result,
  Bool-cases, Result-cases, ◌==◌, wrapping_add,
}
use infernal_law.Kernel.WorkClaims.{
  WorkClaim, WorkClaimError, is_active, is_completed, expired, restore,
}
use infernal_law.Kernel.Faults.{DbError}
use infernal_law.Postgres.Db.{Db}
use infernal_law.Postgres.WorkClaims.{
  update_claims, latest_claim, insert_claim, check_row, supersede, claim_body, claim_from_option,
  claim_from_row, owns_route, new_claim,
}
use infernal_law.Postgres.WorkClaims.Invariant.{
  IsBehind, IsHistory, IsChecked, RowIsValid, History-All, update-IsHistory,
}
use infernal_law.Postgres.WorkClaims.Latest.{
  HasEnded, IsUnder, latest-none, latest-All, latest-IsUnder, ended-All, expire-ended,
}

-- The claims of the route are all over, under tokens lower than `token`.
abbrev pub FreeRow : ℕ → ℤ → WorkClaim → Type 0
FreeRow route token e =
    e.route_id ≡ route
    → (e.fencing_token <ℤ token) × (is_active e.status ≡ false) × (is_completed e.status ≡ false)

abbrev pub IsFree : ℕ → ℤ → List WorkClaim → Type 0
IsFree route token = All (FreeRow route token)

pub insert_claim-ok :
    (db : Db) (c : WorkClaim) (cs : List WorkClaim)
    → insert_claim db c ≡ ok cs
    → IsChecked c × (cs ≡ c ∷ db.claims) × All (λ d. d.id ≢ c.id) db.claims
unfolding insert_claim check_row
insert_claim-ok db c cs e =
    let same : WorkClaim → Bool = λ d. d.id == c.id in
    (
      ground arith,
      ground arith,
      All-map (λ d h. ground (arith, h)) db.claims (any_row-false same db.claims (ground arith)),
    )

pub restore-ok : (c d : WorkClaim) → claim_from_row c ≡ ok d → d ≡ c
unfolding claim_from_row restore
restore-ok c d e = ground arith

from_option-ok : (o p : Option WorkClaim) → claim_from_option o ≡ ok p → p ≡ o
unfolding claim_from_option claim_from_row restore
from_option-ok none p e = ground arith
from_option-ok (some c) p e = ground arith

IsFree-of_ended :
    (route : ℕ) (token : ℤ) (cs : List WorkClaim)
    → token ≤ℤ i64_max
    → pos 1 ≤ℤ wrapping_add token (pos 1)
    → All (HasEnded route token) cs
    → IsFree route (wrapping_add token (pos 1)) cs
unfolding wrapping_add
IsFree-of_ended route token cs fits up h =
    All-map (λ e k r. (ground (arith, k r), (k r).1, (k r).2)) cs h

wrapping_succ_fits : (token : ℤ) → token ≤ℤ i64_max → wrapping_add token (pos 1) ≤ℤ i64_max
unfolding wrapping_add
wrapping_succ_fits token h = ground arith

-- What is left of the table before the new claim is inserted.
pub supersede-some-ok :
    (route : ℕ) (now : ℤ) (c : WorkClaim) (cs ds : List WorkClaim) (token : ℤ)
    → supersede route now (some c) cs ≡ ok (ds, token)
    → (is_completed c.status ≡ false)
      × (token ≡ wrapping_add c.fencing_token (pos 1))
      × (((is_active c.status ≡ true)
            × (update_claims c.id (λ d. record d { status = expired }) cs ≡ ok ds))
          ⊎ ((is_active c.status ≡ false) × (ds ≡ cs)))
unfolding supersede
supersede-some-ok route now c cs ds token e = ground arith

pub supersede-none-ok :
    (route : ℕ) (now : ℤ) (cs ds : List WorkClaim) (token : ℤ)
    → supersede route now none cs ≡ ok (ds, token)
    → (ds ≡ cs) × (token ≡ pos 1)
unfolding supersede
supersede-none-ok route now cs ds token e = (ground arith, ground arith)

abbrev pub IsCleared : ℕ → ℤ → List WorkClaim → Type 0
IsCleared route token ds =
    IsHistory ds × (token ≤ℤ i64_max) × (pos 1 ≤ℤ token → IsFree route token ds)

pub supersede-IsCleared :
    (route : ℕ) (now : ℤ) (cs ds : List WorkClaim) (l : Option WorkClaim) (token : ℤ)
    → IsHistory cs
    → latest_claim route cs ≡ l
    → supersede route now l cs ≡ ok (ds, token)
    → IsCleared route token ds
supersede-IsCleared route now cs ds none token h l e =
    let (same, one) = supersede-none-ok route now cs ds token e in
    (
      subst IsHistory (sym same) h,
      ground arith,
      λ _.
          subst (IsFree route token) (sym same)
            (All-map (λ x n r. absurd (n r)) cs (latest-none route cs l)),
    )
supersede-IsCleared route now cs ds (some c) token h l e =
    let (undone, next, how) = supersede-some-ok route now c cs ds token e in
    let fits = (latest-All RowIsValid route cs c l (History-All cs h)).0.1 in
    let under = latest-IsUnder route cs c h l in
    subst (λ t. IsCleared route t ds) (sym next) (cleared undone fits under how)
  where
    cleared :
        is_completed c.status ≡ false
        → c.fencing_token ≤ℤ i64_max
        → All (IsUnder route c) cs
        → ((is_active c.status ≡ true)
            × (update_claims c.id (λ d. record d { status = expired }) cs ≡ ok ds))
          ⊎ ((is_active c.status ≡ false) × (ds ≡ cs))
        → IsCleared route (wrapping_add c.fencing_token (pos 1)) ds
    cleared undone fits under (inl (_, u)) = (
      update-IsHistory c.id (λ d. record d { status = expired }) cs ds u h,
      wrapping_succ_fits c.fencing_token fits,
      λ up. IsFree-of_ended route c.fencing_token ds fits up (expire-ended route c cs ds u under),
    )
    cleared undone fits under (inr (idle, same)) =
        subst (IsCleared route (wrapping_add c.fencing_token (pos 1))) (sym same) (
          h,
          wrapping_succ_fits c.fencing_token fits,
          λ up.
              IsFree-of_ended route c.fencing_token cs fits up
                (ended-All route c cs idle undone under),
        )

IsBehind-new :
    (c : WorkClaim) (cs : List WorkClaim)
    → All (λ d. d.id ≢ c.id) cs
    → IsFree c.route_id c.fencing_token cs
    → All (IsBehind c) cs
IsBehind-new c [] n h = tt
IsBehind-new c (x ∷ cs) n h = ((n.0, h.0), IsBehind-new c cs n.1 h.1)

module _ (fresh route service instance_id : ℕ) (lease now : ℤ) (db : Db) where
  abbrev pub Claimed : Result WorkClaim WorkClaimError → Db → Type 0
  Claimed r t =
      (token : ℤ) × (cs : List WorkClaim) × (owns_route db route service ≡ true)
      × (supersede route now (latest_claim route db.claims) db.claims ≡ ok (cs, token))
      × (insert_claim (record db { claims = cs })
            (new_claim fresh route service instance_id token lease now)
          ≡ ok t.claims)
      × (r ≡ ok (new_claim fresh route service instance_id token lease now))
      × (t ≡ record db { claims = t.claims })

  pub claim_body-ok :
      (r : Result WorkClaim WorkClaimError) (t : Db)
      → claim_body fresh route service instance_id lease now db ≡ ok (r, t)
      → Claimed r t
  unfolding claim_body
  claim_body-ok r t e = elim (Bool-cases (owns_route db route service)) [
    | inr foreign ↦ absurd (ground (arith, foreign))
    | inl own ↦ elim (Result-cases (claim_from_option (latest_claim route db.claims))) [
      | inr (x, bad) ↦ absurd (ground (arith, own, bad))
      | inl (l, from) ↦ elim (Result-cases (supersede route now l db.claims)) [
        | inr (x, bad) ↦ absurd (ground (arith, own, from, bad))
        | inl ((cs, token), old) ↦ inserted l cs token own from old (
            Result-cases (
              insert_claim (record db { claims = cs })
                (new_claim fresh route service instance_id token lease now)))
      ]
    ]
  ]
    where
      inserted :
          (l : Option WorkClaim) (cs : List WorkClaim) (token : ℤ)
          → owns_route db route service ≡ true
          → claim_from_option (latest_claim route db.claims) ≡ ok l
          → supersede route now l db.claims ≡ ok (cs, token)
          → let new =
              insert_claim
                (record db { claims = cs })
                (new_claim fresh route service instance_id token lease now) in
            ((stored : List WorkClaim) × (new ≡ ok stored)) ⊎ ((x : DbError) × (new ≡ err x))
            → Claimed r t
      inserted l cs token own from old (inr (x, bad)) = absurd (ground (arith, own, from, old, bad))
      inserted l cs token own from old (inl (stored, new)) =
          let row : WorkClaim = new_claim fresh route service instance_id token lease now in
          elim (Result-cases (claim_from_row row)) [
            | inr (x, bad) ↦ absurd (ground (arith, own, from, old, new, bad))
            | inl (c, good) ↦
                let same = restore-ok row c good in
                (
                  token,
                  cs,
                  own,
                  ground (arith, old, from_option-ok (latest_claim route db.claims) l from),
                  ground (arith, own, from, old, new, good),
                  ground (arith, own, from, old, new, good, same),
                  ground (arith, own, from, old, new, good),
                )
          ]

  -- A claim that the repository grants becomes the newest row of a history in which every other
  -- claim on its route is over, under a lower token.
  pub claim_body-granted :
      (r : Result WorkClaim WorkClaimError) (t : Db)
      → IsHistory db.claims
      → claim_body fresh route service instance_id lease now db ≡ ok (r, t)
      → (c : WorkClaim) × (cs : List WorkClaim) × (r ≡ ok c)
        × (t ≡ record db { claims = c ∷ cs })
        × IsHistory (c ∷ cs)
        × IsFree route c.fencing_token cs
        × (c ≡ new_claim fresh route service instance_id c.fencing_token lease now)
        × (owns_route db route service ≡ true)
  claim_body-granted r t h e =
      let (token, cs, own, old, new, granted, rest) = claim_body-ok r t e in
      let row : WorkClaim = new_claim fresh route service instance_id token lease now in
      let (checked, shape, ids) = insert_claim-ok (record db { claims = cs }) row t.claims new in
      let (history, fits, free) =
        supersede-IsCleared route now db.claims cs (latest_claim route db.claims) token h refl
          old in
      (
        row,
        cs,
        granted,
        ground (arith, rest, shape),
        ((checked, fits), IsBehind-new row cs ids (free checked.0), history),
        free checked.0,
        refl,
        own,
      )
